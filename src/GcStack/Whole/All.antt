-- ===== src/GcStack/Whole/All.antt =====
-- `garbage_collect_all` of theories/Runtime/gc_stack.c on a whole heap.
use mathlib.Core.Path.{subst}
use certicoq.Prelude.{ℕ, ◌+◌, ◌≤◌, ◌≡◌, refl, sym, true, arith, Option, List, leb, ◌==◌}
use certicoq.Run.{◌>>=◌}
use certicoq.Gc.Heap.{Heap, World, heap_or_new, collect_all_loop}
use certicoq.GcStack.{StackFrame, ThreadInfo, do_generation, garbage_collect_all}
use certicoq.GcStack.Result.{stack_generation-Collects}
use certicoq.Gc.Generations.All.{AllCollected, Indifferent, keep_alloc, all-AllCollected}
use certicoq.Gc.Generations.Nursery.{mutator_heap}
use certicoq.GcStack.Whole.{StackRoots, StackHeapReady}

pub stack_generation-Indifferent : (frames : List StackFrame) → Indifferent (do_generation frames)
unfolding do_generation
stack_generation-Indifferent frames m from to a b ha hb =
    let holds : leb (a + to.next) (to.limit + from.start) ≡ true = ground arith in
    let holds' : leb (b + to.next) (to.limit + from.start) ≡ true = ground arith in
    rw (holds, holds') refl

all_steps :
    (malloc : ℕ → ℕ → Option ℕ) (ti : ThreadInfo) (h : Heap) (w : World)
    → StackHeapReady malloc ti h w
    → garbage_collect_all malloc ti w
      ≡ (collect_all_loop malloc (do_generation ti.fp) 11 0 h w >>= keep_alloc ti.alloc)
unfolding garbage_collect_all heap_or_new
all_steps malloc ti h w rd =
    let same_limit : ((h.spaces 0).limit == ti.limit) ≡ true = ground (arith, rd.limit) in
    rw (rd.heap, same_limit) refl

-- From a heap that satisfies the invariant `garbage_collect_all` returns, whatever part of the nursery
-- its descriptor calls used. A mutator sees in the new heap what it saw, and all generations are empty
-- but the last, whose number is returned. The new heap satisfies the invariant of a heap that is
-- collected up to that generation, which does not ask for room in it: either it can be collected
-- again from the nursery on, so that it satisfies the invariant that was asked for at first, or the
-- last generation has less room than the size of the one before it.
pub stack_collect_all-AllCollected :
    (malloc : ℕ → ℕ → Option ℕ) (ti : ThreadInfo) (h : Heap) (w : World)
    → (rd : StackHeapReady malloc ti h w) → (h.spaces 0).next ≤ (h.spaces 0).limit
    → AllCollected malloc
        (StackRoots ti)
        (mutator_heap h ti.alloc)
        w
        rd.inv.gens
        (garbage_collect_all malloc ti w)
stack_collect_all-AllCollected malloc ti h w rd stale =
    subst (AllCollected malloc (StackRoots ti) (mutator_heap h ti.alloc) w rd.inv.gens)
      (sym (all_steps malloc ti h w rd))
      (all-AllCollected (do_generation ti.fp) malloc (StackRoots ti)
        (stack_generation-Collects ti.fp) (stack_generation-Indifferent ti.fp) h w ti.alloc rd.inv
        stale)
