-- ===== src/Gc/Whole/All.antt =====
-- `garbage_collect_all` of theories/Runtime/gc.c on a whole heap.
use mathlib.Core.Path.{subst}
use certicoq.Prelude.{ℕ, ◌+◌, ◌≤◌, ◌≡◌, refl, sym, true, arith, Option, leb, ◌==◌}
use certicoq.Run.{◌>>=◌}
use certicoq.Gc.{FunInfo, do_generation}
use certicoq.Gc.Heap.{Heap, ThreadInfo, World, heap_or_new, collect_all_loop, garbage_collect_all}
use certicoq.Gc.Copying.Result.{do_generation-Collects}
use certicoq.Gc.Generations.All.{AllCollected, Indifferent, keep_alloc, all-AllCollected}
use certicoq.Gc.Generations.Nursery.{mutator_heap}
use certicoq.Gc.Whole.{FunRoots, HeapReady}

pub do_generation-Indifferent : (fi : FunInfo) (args : ℕ) → Indifferent (do_generation fi args)
unfolding do_generation
do_generation-Indifferent fi args m from to a b ha hb =
    let holds : leb (a + to.next) (to.limit + from.start) ≡ true = ground arith in
    let holds' : leb (b + to.next) (to.limit + from.start) ≡ true = ground arith in
    rw (holds, holds') refl

all_steps :
    (malloc : ℕ → ℕ → Option ℕ) (fi : FunInfo) (ti : ThreadInfo) (h : Heap) (w : World)
    → HeapReady malloc fi ti h w
    → garbage_collect_all malloc fi ti w
      ≡ (collect_all_loop malloc (do_generation fi ti.args) 11 0 h w >>= keep_alloc ti.alloc)
unfolding garbage_collect_all heap_or_new
all_steps malloc fi ti h w rd =
    let same_limit : ((h.spaces 0).limit == ti.limit) ≡ true = ground (arith, rd.limit) in
    rw (rd.heap, same_limit) refl

-- From a heap that satisfies the invariant `garbage_collect_all` returns, whatever part of the nursery
-- its descriptor calls used. A mutator sees in the new heap what it saw, and all generations are empty
-- but the last, whose number is returned. The new heap satisfies the invariant of a heap that is
-- collected up to that generation, which does not ask for room in it: either it can be collected
-- again from the nursery on, so that it satisfies the invariant that was asked for at first, or the
-- last generation has less room than the size of the one before it.
pub garbage_collect_all-AllCollected :
    (malloc : ℕ → ℕ → Option ℕ) (fi : FunInfo) (ti : ThreadInfo) (h : Heap) (w : World)
    → (rd : HeapReady malloc fi ti h w) → (h.spaces 0).next ≤ (h.spaces 0).limit
    → AllCollected malloc
        (FunRoots fi ti)
        (mutator_heap h ti.alloc)
        w
        rd.inv.gens
        (garbage_collect_all malloc fi ti w)
garbage_collect_all-AllCollected malloc fi ti h w rd stale =
    subst (AllCollected malloc (FunRoots fi ti) (mutator_heap h ti.alloc) w rd.inv.gens)
      (sym (all_steps malloc fi ti h w rd))
      (all-AllCollected (do_generation fi ti.args) malloc (FunRoots fi ti)
        (do_generation-Collects fi ti.args rd.slot) (do_generation-Indifferent fi ti.args) h w
        ti.alloc rd.inv stale)
