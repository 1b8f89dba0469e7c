-- ===== src/Gc/Whole.antt =====
-- `garbage_collect` of theories/Runtime/gc.c on a whole heap: how it ends, and what it keeps.
pub mod All
pub mod Twice
pub mod ExportSteps
pub mod Export
mod Tests
use mathlib.Core.Path.{fun_ext, subst}
use certicoq.Prelude.{
  ℕ, zero, suc, ◌+◌, ◌-◌, ◌^◌, ◌≤◌, ◌<◌, ◌≡◌, ◌≢◌, refl, ap, ◌∙◌, sym, true, false, arith, Option,
  none, some, List, Bool-cases, ◌==◌, ltb, ltb→lt, ◌⊎◌, inl, inr, if◌then◌else◌, not,
}
use certicoq.Run.{Run, Reason, ok, abort, no_space, small_nursery, exhausted, ◌>>=◌}
use certicoq.Gc.{Space, FunInfo, do_generation, nursery_size, max_spaces, max_args}
use certicoq.Gc.Heap.{
  Heap, ThreadInfo, World, set_space, pointer_diff, resume, collect_loop, garbage_collect,
}
use certicoq.Gc.Copying.Roots.{IsRoot}
use certicoq.Gc.Copying.Slots.{slots, root_count}
use certicoq.Gc.Copying.Result.{do_generation-Collects}
use certicoq.Gc.Generations.{gen_size, MallocOk, Foreign, HeapInv, SameSight}
use certicoq.Gc.Generations.Ensure.{Progress}
use certicoq.Gc.Generations.Nursery.{mutator_heap, base_extent, restarted}
use certicoq.Gc.Generations.Loop.{Outcome, done, without_space, full, collect_loop-Outcome}

-- The locations of the roots of a function.
abbrev pub FunRoots : FunInfo → ThreadInfo → ℕ → Type 0
FunRoots fi ti = IsRoot (slots fi ti.args (root_count fi))

-- What a mutator provides for a collection.
pub record HeapReady (malloc : ℕ → ℕ → Option ℕ) (fi : FunInfo) (ti : ThreadInfo) (h : Heap)
    (w : World) : Type 0 where
  pub heap : ti.heap ≡ some h
  pub limit : (h.spaces 0).limit ≡ ti.limit
  pub slot : (i : ℕ) → i < root_count fi → fi (i + 2) < max_args
  pub inv : HeapInv malloc (FunRoots fi ti) 0 (mutator_heap h ti.alloc) w

-- The thread once its nursery is empty again.
abbrev pub resumed_thread : ThreadInfo → Heap → Heap → ThreadInfo
resumed_thread ti h h' = record ti {
  alloc = (h.spaces 0).start;
  limit = (h.spaces 0).limit;
  heap = some h';
}

-- How a collection of `g` generations ends.
pub data Ends (malloc : ℕ → ℕ → Option ℕ) (fi : FunInfo) (ti : ThreadInfo) (h : Heap) (w : World)
    (g : ℕ) (r : Run (ThreadInfo × World)) : Type 0 where
  resumed :
      (h' : Heap) (w' : World) (ready : HeapReady malloc fi (resumed_thread ti h h') h' w')
      → r ≡ ok (resumed_thread ti h h', w')
      → fi 0 ≤ nursery_size
      → Progress malloc (FunRoots fi ti) (mutator_heap h ti.alloc) w g h' w' ready.inv.gens
      → Ends malloc fi ti h w g r
  too_small : nursery_size < fi 0 → r ≡ abort small_nursery → Ends malloc fi ti h w g r
  no_area :
      (call bytes : ℕ)
      → malloc call bytes ≡ none
      → bytes ≤ 2 ^ 30
      → r ≡ abort no_space
      → Ends malloc fi ti h w g r
  ran_out :
      (h' : Heap) (w' : World) (inv' : HeapInv malloc (FunRoots fi ti) 11 h' w')
      → (h'.spaces 11).limit < (h'.spaces 11).next + gen_size 10
      → g ≡ max_spaces
      → r ≡ abort exhausted
      → Progress malloc (FunRoots fi ti) (mutator_heap h ti.alloc) w g h' w' inv'.gens
      → Ends malloc fi ti h w g r

module _ (fi : FunInfo) (ti : ThreadInfo) (h : Heap)
    (extent : (h.spaces 0).limit ≡ (h.spaces 0).start + nursery_size) where
  resume_enough :
      fi 0 ≤ nursery_size
      → resume fi (record ti { heap = some h })
        ≡ ok (record ti { alloc = (h.spaces 0).start; limit = (h.spaces 0).limit; heap = some h })
  unfolding resume
  resume_enough le =
      let fits : ltb (pointer_diff (h.spaces 0).limit (h.spaces 0).start) (fi 0) ≡ false =
        ground (arith, extent) in
      rw fits refl

  resume_small : nursery_size < fi 0 → resume fi (record ti { heap = some h }) ≡ abort small_nursery
  unfolding resume
  resume_small lt =
      let fits : ltb (pointer_diff (h.spaces 0).limit (h.spaces 0).start) (fi 0) ≡ true =
        ground (arith, extent) in
      rw fits refl

module _ (malloc : ℕ → ℕ → Option ℕ) (fi : FunInfo) (ti : ThreadInfo) (h : Heap) (w : World)
    (rd : HeapReady malloc fi ti h w) where
  abbrev start_heap : Heap
  start_heap = mutator_heap h ti.alloc

  abbrev loop : Run (Heap × World)
  loop = collect_loop malloc (do_generation fi ti.args) 11 0 start_heap w

  same_limit : ((h.spaces 0).limit == ti.limit) ≡ true
  same_limit = ground (arith, rd.limit)

  aborts : (reason : Reason) → loop ≡ abort reason → garbage_collect malloc fi ti w ≡ abort reason
  unfolding garbage_collect
  aborts reason e = rw (rd.heap, same_limit, e) refl

  module _ (h' : Heap) (w' : World) (e : loop ≡ ok (h', w'))
      (extent : (h'.spaces 0).limit ≡ (h'.spaces 0).start + nursery_size) where
    returns :
        fi 0 ≤ nursery_size
        → (h'.spaces 0).start ≡ (h.spaces 0).start
        → (h'.spaces 0).limit ≡ (h.spaces 0).limit
        → garbage_collect malloc fi ti w ≡ ok (resumed_thread ti h h', w')
    unfolding garbage_collect
    returns le same_start same_end =
        let back = resume_enough fi ti h' extent le in
        rw (rd.heap, same_limit, e, ◌>>=◌, back, same_start, same_end) refl

    stops : nursery_size < fi 0 → garbage_collect malloc fi ti w ≡ abort small_nursery
    unfolding garbage_collect
    stops lt =
        let back = resume_small fi ti h' extent lt in rw (rd.heap, same_limit, e, ◌>>=◌, back) refl

  abbrev T : ℕ → Type 0
  T = FunRoots fi ti

  -- The heap that the loop leaves is ready for the next collection.
  next_ready :
      (h' : Heap) (w' : World) (inv' : HeapInv malloc T 0 h' w')
      → (h'.spaces 0).next ≡ (h'.spaces 0).start
      → Progress malloc T start_heap w rd.inv.gens h' w' inv'.gens
      → (ready : HeapReady malloc fi (resumed_thread ti h h') h' w') × Progress malloc T start_heap
          w rd.inv.gens h' w' ready.inv.gens
  next_ready h' w' inv' empty p =
      let (inv, progress) =
        restarted malloc T start_heap w rd.inv.gens (h.spaces 0).start h' w' inv'
          (empty ∙ p.base_start) p in
      (record { heap = refl; limit = p.base_limit; slot = rd.slot; inv = inv }, progress)

  ends :
      MallocOk malloc
      → Outcome malloc T start_heap w rd.inv.gens loop
      → Ends malloc fi ti h w rd.inv.gens (garbage_collect malloc fi ti w)
  ends mok (without_space call bytes none_left small e) =
      no_area call bytes none_left small (aborts no_space e)
  ends mok (full h' w' inv' short all e p) = ran_out h' w' inv' short all (aborts exhausted e) p
  ends mok (done h' w' inv' empty e p) = elim (Bool-cases (ltb nursery_size (fi 0))) [
    | inl more ↦ too_small (ltb→lt _ _ more) (stops h' w' e (base_extent inv') (ltb→lt _ _ more))
    | inr fits ↦
        let le : fi 0 ≤ nursery_size = ground arith in
        let (ready, progress) = next_ready h' w' inv' empty p in
        resumed h' w' ready (returns h' w' e (base_extent inv') le p.base_start p.base_limit) le
          progress
  ]

-- A collection of a heap that satisfies the invariant, where the areas of `malloc` do not overlap, never
-- fails an assertion or runs on. It returns with a heap that satisfies the invariant again, in which a
-- mutator sees what it saw, and whose nursery is empty, where it was, and large enough for what was
-- asked for; or a nursery is too small for that, or `malloc` has given no area, or all generations
-- existed at the start and the last has become too full.
pub garbage_collect-Ends :
    (malloc : ℕ → ℕ → Option ℕ) (fi : FunInfo) (ti : ThreadInfo) (h : Heap) (w : World)
    → MallocOk malloc
    → (rd : HeapReady malloc fi ti h w)
    → Ends malloc fi ti h w rd.inv.gens (garbage_collect malloc fi ti w)
garbage_collect-Ends malloc fi ti h w mok rd = ends malloc fi ti h w rd mok (
    collect_loop-Outcome (do_generation fi ti.args) malloc mok (FunRoots fi ti)
      (do_generation-Collects fi ti.args rd.slot) 11 0 (mutator_heap h ti.alloc) w rd.inv
      (omega arith) (λ j e. absurd (omega (arith, e))))

-- From a heap that satisfies the invariant, with fewer than all generations, and as long as `malloc`
-- gives areas of up to 2 ^ 30 bytes that do not overlap, a collection returns with room for what was
-- asked for, if a nursery has that room at all.
pub garbage_collect-returns :
    (malloc : ℕ → ℕ → Option ℕ) (fi : FunInfo) (ti : ThreadInfo) (h : Heap) (w : World)
    → MallocOk malloc
    → (rd : HeapReady malloc fi ti h w)
    → ((call bytes : ℕ) → bytes ≤ 2 ^ 30 → malloc call bytes ≢ none)
    → fi 0 ≤ nursery_size
    → rd.inv.gens < max_spaces
    → (ti' : ThreadInfo) × (w' : World) × (garbage_collect malloc fi ti w ≡ ok (ti', w'))
      × (ti'.alloc + fi 0 ≤ ti'.limit)
garbage_collect-returns malloc fi ti h w mok rd gives le few =
    elim (garbage_collect-Ends malloc fi ti h w mok rd) [
      | resumed h' w' ready e _ p ↦ (_, w', e, omega (arith, base_extent rd.inv))
      | too_small lt e ↦ absurd (omega arith)
      | no_area call bytes none_left small e ↦ absurd (gives call bytes small none_left)
      | ran_out h' w' inv' short all e p ↦ absurd (omega arith)
    ]

differ_ends : {A : Type 0} {reason : Reason} {a : A} {r : Run A} → r ≡ ok a → r ≡ abort reason → ⊥
differ_ends x y = cc

-- What a collection that returns has kept.
record Kept (malloc : ℕ → ℕ → Option ℕ) (fi : FunInfo) (ti : ThreadInfo) (h : Heap) (w : World)
    (g : ℕ) (ti' : ThreadInfo) (w' : World) : Type 0 where
  pub heap' : Heap
  pub has : ti'.heap ≡ some heap'
  pub sight : SameSight (FunRoots fi ti) w.mem (mutator_heap h ti.alloc) w'.mem heap'
  pub frame :
      (y : ℕ)
      → Foreign malloc (mutator_heap h ti.alloc) g w.mallocs y
      → ¬ (FunRoots fi ti y)
      → w'.mem y ≡ w.mem y

kept :
    (malloc : ℕ → ℕ → Option ℕ) (fi : FunInfo) (ti : ThreadInfo) (h : Heap) (w : World)
    → MallocOk malloc
    → (rd : HeapReady malloc fi ti h w) → (ti' : ThreadInfo) (w' : World)
    → garbage_collect malloc fi ti w ≡ ok (ti', w')
    → Kept malloc fi ti h w rd.inv.gens ti' w'
kept malloc fi ti h w mok rd ti' w' r = elim (garbage_collect-Ends malloc fi ti h w mok rd) [
  | resumed h1 w1 ready e _ p ↦
      let same : (resumed_thread ti h h1, w1) ≡ (ti', w') = cc in
      subst (λ (x : ThreadInfo × World). Kept malloc fi ti h w rd.inv.gens x.0 x.1) same
        (record { heap' = h1; has = refl; sight = p.sight; frame = p.frame })
  | too_small lt e ↦ absurd (differ_ends r e)
  | no_area call bytes none_left small e ↦ absurd (differ_ends r e)
  | ran_out h1 w1 inv1 short all e p ↦ absurd (differ_ends r e)
]

-- From a heap that satisfies the invariant, where the areas of `malloc` do not overlap, a collection that
-- returns has left a heap through whose generations every root reads as before, to every depth, and in
-- which two paths from roots lead to one object exactly if they did.
pub garbage_collect-SameSight :
    (malloc : ℕ → ℕ → Option ℕ) (fi : FunInfo) (ti : ThreadInfo) (h : Heap) (w : World)
    → MallocOk malloc
    → HeapReady malloc fi ti h w
    → (ti' : ThreadInfo) (w' : World) → garbage_collect malloc fi ti w ≡ ok (ti', w')
    → (h' : Heap) × (ti'.heap ≡ some h')
      × SameSight (FunRoots fi ti) w.mem (mutator_heap h ti.alloc) w'.mem h'
garbage_collect-SameSight malloc fi ti h w mok rd ti' w' r =
    let k = kept malloc fi ti h w mok rd ti' w' r in (k.heap', k.has, k.sight)

-- From such a heap a collection that returns has changed no word outside the generations and the areas
-- that `malloc` has yet to give, but at the roots.
pub garbage_collect-frame :
    (malloc : ℕ → ℕ → Option ℕ) (fi : FunInfo) (ti : ThreadInfo) (h : Heap) (w : World)
    → MallocOk malloc
    → (rd : HeapReady malloc fi ti h w) → (ti' : ThreadInfo) (w' : World)
    → garbage_collect malloc fi ti w ≡ ok (ti', w')
    → (y : ℕ) → Foreign malloc (mutator_heap h ti.alloc) rd.inv.gens w.mallocs y
    → ¬ (FunRoots fi ti y)
    → w'.mem y ≡ w.mem y
garbage_collect-frame malloc fi ti h w mok rd ti' w' r =
    (kept malloc fi ti h w mok rd ti' w' r).frame
