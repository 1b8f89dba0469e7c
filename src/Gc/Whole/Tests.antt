-- ===== src/Gc/Whole/Tests.antt =====
-- The theorems on whole heaps of theories/Runtime/gc.c at a heap with a nursery alone.
use certicoq.Prelude.{
  ℕ, suc, ◌+◌, ◌*◌, ◌^◌, ◌≤◌, ◌<◌, ◌≡◌, refl, true, ◌⊎◌, inl, inr, arith, some, ◌==◌, if◌then◌else◌,
}
use certicoq.Words.{is_block, to_int, unsigned}
use certicoq.Run.{ok}
use certicoq.Gc.{FunInfo, max_spaces, nursery_size, is_from}
use certicoq.Gc.Heap.{
  no_space_yet, garbage_collect_all, fake_fi, export, ThreadInfo, Heap, World, garbage_collect,
  make_tinfo,
}
use certicoq.Gc.Generations.{points_into_heap, SameSight, Foreign, HeapInv}
use certicoq.Gc.Generations.Initial.{make_tinfo-HeapInv}
use certicoq.Gc.Generations.Nursery.{mutator_heap}
use certicoq.Gc.Generations.Sample.{
  areas, areas-MallocOk, areas_give, sample, sample_heap, sample_world, sample-HeapInv, sample_gens,
}
use certicoq.Gc.Generations.All.{AllCollected}
use certicoq.Gc.Whole.All.{garbage_collect_all-AllCollected}
use certicoq.Gc.Whole.Export.{Copied, export-Copied}
use certicoq.Gc.Whole.{
  FunRoots, HeapReady, Ends, garbage_collect-Ends, garbage_collect-returns,
  garbage_collect-SameSight, garbage_collect-frame,
}

-- Slots 1 and 3 are live.
abbrev live : FunInfo
live i = if i == 0 then 4 else if i == 1 then 2 else if i == 2 then 1 else 3

abbrev thread : ThreadInfo
thread = record { alloc = 16; limit = 65546; heap = some sample_heap; args = 100000 }

at_roots : (q : ℕ) → FunRoots live thread q → (q ≡ 100001) ⊎ (q ≡ 100003)
unfolding to_int unsigned
at_roots q (inr e) = inr e
at_roots q (inl (inr e)) = inl e
at_roots q (inl (inl b)) = absurd b

sample-HeapReady : HeapReady areas live thread sample_heap sample_world
unfolding to_int unsigned
sample-HeapReady = record {
  heap = refl;
  limit = refl;
  slot = λ i lt. ground arith;
  inv = sample-HeapInv (FunRoots live thread) at_roots;
}

garbage_collect-Ends_example :
    Ends areas live thread sample_heap sample_world sample-HeapReady.inv.gens
      (garbage_collect areas live thread sample_world)
garbage_collect-Ends_example =
    garbage_collect-Ends areas live thread sample_heap sample_world areas-MallocOk sample-HeapReady

one : sample-HeapReady.inv.gens ≡ 1
unfolding sample-HeapReady
one = sample_gens (FunRoots live thread) at_roots

few : sample-HeapReady.inv.gens < 12
few = omega (arith, one)

garbage_collect-returns_example :
    (ti' : ThreadInfo) × (w' : World) × (garbage_collect areas live thread sample_world
      ≡ ok (ti', w'))
    × (ti'.alloc + 4 ≤ ti'.limit)
garbage_collect-returns_example =
    garbage_collect-returns areas live thread sample_heap sample_world areas-MallocOk
      sample-HeapReady areas_give (omega arith) few

-- What it returns.
abbrev back :
    (ti' : ThreadInfo) × (w' : World) × (garbage_collect areas live thread sample_world
      ≡ ok (ti', w'))
    × (ti'.alloc + 4 ≤ ti'.limit)
back =
    garbage_collect-returns areas live thread sample_heap sample_world areas-MallocOk
      sample-HeapReady areas_give (omega arith) few

garbage_collect-SameSight_example :
    (h' : Heap) × (back.0.heap ≡ some h')
    × SameSight (FunRoots live thread) sample (mutator_heap sample_heap 16) back.1.mem h'
garbage_collect-SameSight_example =
    garbage_collect-SameSight areas live thread sample_heap sample_world areas-MallocOk
      sample-HeapReady back.0 back.1 back.2

-- A word below the heap.
below : Foreign areas (mutator_heap sample_heap 16) sample-HeapReady.inv.gens 3 5
below = record {
  apart = λ l lt. inl (ground (arith, lt, one));
  unborn = λ call bytes p le e. inl (ground arith);
}

garbage_collect-frame_example : back.1.mem 5 ≡ sample 5
garbage_collect-frame_example =
    garbage_collect-frame areas live thread sample_heap sample_world areas-MallocOk sample-HeapReady
      back.0 back.1 back.2 5 below (λ t. omega (arith, at_roots 5 t))

-- The first heap, with a root in the second word of the args array.
abbrev no_heap_yet : World
no_heap_yet = record { mem = λ y. 1; mallocs = 0 }

abbrev SecondArg : ℕ → Type 0
SecondArg q = q ≡ 2 ^ 40 * 3 + 4

make_tinfo-HeapInv_example :
    (h : Heap) × (w' : World) × (make_tinfo areas no_heap_yet
      ≡ ok (
        record {
          alloc = (h.spaces 0).start;
          limit = (h.spaces 0).limit;
          heap = some h;
          args = 2 ^ 40 * 3 + 3;
        },
        w',
      ))
    × (w'.mem ≡ no_heap_yet.mem)
    × (h.spaces 0
        ≡ record { start = 2 ^ 40 * 2; next = 2 ^ 40 * 2; limit = 2 ^ 40 * 2 + nursery_size })
    × ((j : ℕ) → h.spaces (suc j) ≡ no_space_yet)
    × (inv : HeapInv areas SecondArg 0 (mutator_heap h (h.spaces 0).start) w') × (inv.gens ≡ 1)
unfolding is_block
make_tinfo-HeapInv_example =
    make_tinfo-HeapInv areas SecondArg no_heap_yet (2 ^ 40) (2 ^ 40 * 2) (2 ^ 40 * 3) areas-MallocOk
      refl refl refl (λ q t. (omega (arith, t), omega (arith, t), refl))

garbage_collect_all-AllCollected_example :
    AllCollected areas
      (FunRoots live thread)
      (mutator_heap sample_heap 16)
      sample_world
      sample-HeapReady.inv.gens
      (garbage_collect_all areas live thread sample_world)
garbage_collect_all-AllCollected_example =
    garbage_collect_all-AllCollected areas live thread sample_heap sample_world sample-HeapReady
      (omega arith)

at_export : (q : ℕ) → FunRoots fake_fi thread q → (q ≡ 100001) ⊎ (q ≡ 100003)
unfolding to_int unsigned
at_export q (inr e) = inl e
at_export q (inl b) = absurd b

in_nursery : points_into_heap (mutator_heap sample_heap 16) max_spaces 88 ≡ true
unfolding points_into_heap is_from is_block
in_nursery = refl

-- The export of the first block.
export-HeapReady : HeapReady areas fake_fi thread sample_heap sample_world
unfolding to_int unsigned
export-HeapReady = record {
  heap = refl;
  limit = refl;
  slot = λ i lt. ground arith;
  inv = sample-HeapInv (FunRoots fake_fi thread) at_export;
}

export-Copied_example :
    Copied thread sample_heap sample_world export-HeapReady.inv.gens
      (export areas thread sample_world)
export-Copied_example =
    export-Copied areas thread sample_heap sample_world areas-MallocOk areas_give export-HeapReady
      (omega arith) in_nursery
