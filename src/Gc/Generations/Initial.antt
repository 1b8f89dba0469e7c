-- ===== src/Gc/Generations/Initial.antt =====
-- `make_tinfo` of theories/Runtime/gc.c gives a heap that satisfies the invariant.
use certicoq.Prelude.{
  ℕ, zero, suc, ◌+◌, ◌*◌, ◌≤◌, ◌<◌, ◌≡◌, refl, ◌==◌, if◌then◌else◌, false, arith, Option, some, [],
}
use certicoq.Words.{is_block}
use certicoq.Run.{ok}
use certicoq.Gc.{Space, max_spaces, max_args, nursery_size}
use certicoq.Gc.Heap.{Heap, World, no_space_yet, create_space, create_heap, make_tinfo}
use certicoq.Gc.Generations.{gen_size, Unborn, MallocOk, Foreign, HeapInv}
use certicoq.Gc.Generations.Nursery.{mutator_heap}

module _ (malloc : ℕ → ℕ → Option ℕ) (mok : MallocOk malloc) (T : ℕ → Type 0) (w : World) (a p : ℕ)
    (nursery : malloc (w.mallocs + 1) (nursery_size * 8) ≡ some a)
    (thread : malloc (w.mallocs + 2) 8216 ≡ some p) where
  abbrev first_space : Space
  first_space = record { start = a; next = a; limit = a + nursery_size }

  abbrev first_heap : Heap
  first_heap = record { spaces = λ i. if i == 0 then first_space else no_space_yet }

  abbrev used : Heap
  used = mutator_heap first_heap a

  abbrev world' : World
  world' = record w { mallocs = w.mallocs + 3 }

  only : (P : ℕ → Type 0) → P 0 → (j : ℕ) → j < 1 → P j
  only P holds zero lt = holds
  only P holds (suc j) lt = absurd (omega arith)

  nursery-Unborn : (y : ℕ) → a ≤ y → y < a + nursery_size → Unborn malloc (w.mallocs + 3) y
  nursery-Unborn y l u call bytes b le given = omega (
    arith,
    mok.apart (w.mallocs + 1) (nursery_size * 8) a call bytes b (omega arith) nursery given,
  )

  -- The words of the thread's array.
  args-Foreign :
      (q : ℕ) → p + 3 ≤ q → q < p + 3 + max_args → Foreign malloc used 1 (w.mallocs + 3) q
  args-Foreign q l u = record {
    apart = only _ (
        omega (
          arith,
          mok.apart (w.mallocs + 1) (nursery_size * 8) a (w.mallocs + 2) 8216 p (omega arith)
              nursery thread,
        ));
    unborn = λ call bytes b le given.
        omega (arith, mok.apart (w.mallocs + 2) 8216 p call bytes b (omega arith) thread given);
  }

  first-HeapInv :
      ((q : ℕ) → T q → (p + 3 ≤ q) × (q < p + 3 + max_args) × (is_block (w.mem q) ≡ false))
      → HeapInv malloc T 0 used world'
  unfolding gen_size
  first-HeapInv roots = record {
    gens = 1;
    sizes = λ j. [];
    most = omega arith;
    reached = omega arith;
    created = only _ (mok.not_null _ _ a nursery);
    others = λ j le. ground arith;
    extent = only _ refl;
    low = only _ (omega arith);
    high = only _ (omega arith);
    apart = λ j l cj cl n. absurd (omega arith);
    unborn = λ j y cj.
        only
          (λ j.
            (used.spaces j).start ≤ y → y < (used.spaces j).limit → Unborn malloc (w.mallocs + 3) y)
          (λ l u. nursery-Unborn y l u) j cj;
    blocks = only _ refl;
    fields = λ j x cj hd. absurd hd;
    empty = λ j lt. absurd (omega arith);
    room = λ j lt n. absurd (omega arith);
    roots_at = λ q t. args-Foreign q (roots q t).0 (roots q t).1;
    roots = λ q t b. cc (roots q t).2;
  }

-- Where `malloc` gives the descriptor, the nursery and the thread's record, `make_tinfo` returns. The
-- only generation of its heap is the empty nursery in the area that `malloc` gave, with no other
-- descriptor set; `alloc` and `limit` are its bounds, the args array follows three words of the
-- thread's record, and the memory is as it was. The heap satisfies the collector's invariant with
-- one generation for all roots that stand in the args array and hold no pointer.
pub make_tinfo-HeapInv :
    (malloc : ℕ → ℕ → Option ℕ) (T : ℕ → Type 0) (w : World) (d a p : ℕ)
    → MallocOk malloc
    → malloc w.mallocs (max_spaces * 24) ≡ some d
    → malloc (w.mallocs + 1) (nursery_size * 8) ≡ some a
    → malloc (w.mallocs + 2) 8216 ≡ some p
    → ((q : ℕ) → T q → (p + 3 ≤ q) × (q < p + 3 + max_args) × (is_block (w.mem q) ≡ false))
    → (h : Heap) × (w' : World) × (make_tinfo malloc w
        ≡ ok (
          record {
            alloc = (h.spaces 0).start;
            limit = (h.spaces 0).limit;
            heap = some h;
            args = p + 3;
          },
          w',
        ))
      × (w'.mem ≡ w.mem)
      × (h.spaces 0 ≡ record { start = a; next = a; limit = a + nursery_size })
      × ((j : ℕ) → h.spaces (suc j) ≡ no_space_yet)
      × (inv : HeapInv malloc T 0 (mutator_heap h (h.spaces 0).start) w') × (inv.gens ≡ 1)
unfolding make_tinfo create_heap create_space first-HeapInv
make_tinfo-HeapInv malloc T w d a p mok descriptor nursery thread roots = (
  first_heap malloc mok T w a p nursery thread,
  world' malloc mok T w a p nursery thread,
  ground (arith, descriptor, nursery, thread),
  refl,
  refl,
  λ j. ground arith,
  first-HeapInv malloc mok T w a p nursery thread roots,
  refl,
)
