-- ===== src/GcStack/Whole/Tests.antt =====
-- The theorems on whole heaps of theories/Runtime/gc_stack.c at a heap with a nursery alone.
use certicoq.Prelude.{ℕ, ◌+◌, ◌≤◌, ◌<◌, ◌≡◌, refl, ◌⊎◌, inl, inr, arith, some, [], ◌∷◌}
use certicoq.Run.{ok}
use certicoq.Gc.Heap.{Heap, World}
use certicoq.GcStack.{ThreadInfo, garbage_collect, garbage_collect_all}
use certicoq.Gc.Generations.{SameSight}
use certicoq.Gc.Generations.Nursery.{mutator_heap}
use certicoq.Gc.Generations.Sample.{
  areas, areas-MallocOk, areas_give, sample, sample_heap, sample_world, sample-HeapInv, sample_gens,
}
use certicoq.Gc.Generations.All.{AllCollected}
use certicoq.GcStack.Whole.All.{stack_collect_all-AllCollected}
use certicoq.GcStack.Whole.{
  StackRoots, StackHeapReady, StackEnds, stack_collect-StackEnds, stack_collect-returns,
  stack_collect-SameSight,
}

-- Two frames with one root each.
abbrev thread : ThreadInfo
thread = record {
  alloc = 16;
  limit = 65546;
  heap = some sample_heap;
  args = 100000;
  fp = record { next = 100002; root = 100001 } ∷ record { next = 100004; root = 100003 } ∷ [];
  nalloc = 4;
}

at_roots : (q : ℕ) → StackRoots thread q → (q ≡ 100001) ⊎ (q ≡ 100003)
at_roots q (inr e) = inr e
at_roots q (inl (inr e)) = inl e
at_roots q (inl (inl b)) = absurd b

stack-HeapReady : StackHeapReady areas thread sample_heap sample_world
stack-HeapReady = record {
  heap = refl;
  limit = refl;
  inv = sample-HeapInv (StackRoots thread) at_roots;
}

stack_collect-StackEnds_example :
    StackEnds areas thread sample_heap sample_world stack-HeapReady.inv.gens
      (garbage_collect areas thread sample_world)
stack_collect-StackEnds_example =
    stack_collect-StackEnds areas thread sample_heap sample_world areas-MallocOk stack-HeapReady

one : stack-HeapReady.inv.gens ≡ 1
unfolding stack-HeapReady
one = sample_gens (StackRoots thread) at_roots

few : stack-HeapReady.inv.gens < 12
few = omega (arith, one)

stack_collect-returns_example :
    (ti' : ThreadInfo) × (w' : World) × (garbage_collect areas thread sample_world ≡ ok (ti', w'))
    × (ti'.alloc + 4 ≤ ti'.limit)
stack_collect-returns_example =
    stack_collect-returns areas thread sample_heap sample_world areas-MallocOk stack-HeapReady
      areas_give (omega arith) few

-- What it returns.
abbrev back :
    (ti' : ThreadInfo) × (w' : World) × (garbage_collect areas thread sample_world ≡ ok (ti', w'))
    × (ti'.alloc + 4 ≤ ti'.limit)
back =
    stack_collect-returns areas thread sample_heap sample_world areas-MallocOk stack-HeapReady
      areas_give (omega arith) few

stack_collect-SameSight_example :
    (h' : Heap) × (back.0.heap ≡ some h')
    × SameSight (StackRoots thread) sample (mutator_heap sample_heap 16) back.1.mem h'
stack_collect-SameSight_example =
    stack_collect-SameSight areas thread sample_heap sample_world areas-MallocOk stack-HeapReady
      back.0 back.1 back.2

stack_collect_all-AllCollected_example :
    AllCollected areas
      (StackRoots thread)
      (mutator_heap sample_heap 16)
      sample_world
      stack-HeapReady.inv.gens
      (garbage_collect_all areas thread sample_world)
stack_collect_all-AllCollected_example =
    stack_collect_all-AllCollected areas thread sample_heap sample_world stack-HeapReady
      (omega arith)
