-- ===== src/GcStack/Result.antt =====
-- `do_generation` of theories/Runtime/gc_stack.c from end to end.
use certicoq.Prelude.{
  ℕ, ◌+◌, ◌-◌, ◌≤◌, ◌<◌, ◌≡◌, refl, ◌⊎◌, inl, inr, true, arith, List, [], leb, ◌↔◌,
}
use certicoq.Memory.{Mem}
use certicoq.Run.{ok}
use certicoq.Gc.{Space, Collected}
use certicoq.Gc.Graph.{view, follow, SameObject}
use certicoq.Gc.Copying.{Spaces, Good, WellFormed}
use certicoq.Gc.Copying.Sweep.{Outside}
use certicoq.Gc.Copying.Roots.{IsRoot}
use certicoq.Gc.Copying.Scan.{do_scan-Swept}
use certicoq.Gc.Copying.After.{root_view, root_follow}
use certicoq.Gc.Copying.Collects.{collection, Finished, Collects}
use certicoq.GcStack.{StackFrame, do_generation}
use certicoq.GcStack.Frames.{
  InStack, stack_words, IsRoot-stack_words, stack_words-cases, stack-Rooted,
}

module _ (frames : List StackFrame) (m : Mem) (from to : Space) (sizes : List ℕ) where
  abbrev S : Spaces
  S = collection m from to sizes

  -- What the caller of a collection provides: blocks and stack words that are well formed, and as
  -- many free words in to-space as from-space uses.
  pub record StackReady : Type 0 where
    pub formed : WellFormed S
    pub roots : (q : ℕ) → InStack frames q → Outside S q × Good S (m q)
    pub nonneg : from.start ≤ from.next
    pub room : to.next + (from.next - from.start) ≤ to.limit

  abbrev roots : List ℕ
  roots = stack_words [] frames

  finish : StackReady → Finished (do_generation frames) (IsRoot roots) m from to sizes
  unfolding do_generation
  finish rd =
      let rooted = stack-Rooted S rd.formed frames rd.roots in
      let sw =
        do_scan-Swept S rd.formed (IsRoot roots) (to.limit - to.next) to.next
          (omega (arith, rd.room)) rooted.cells rooted.cells.first in
      let holds : leb (from.next + to.next) (to.limit + from.start) ≡ true =
        ground (arith, rd.room, rd.nonneg) in
      record {
        mem = sw.result.mem;
        next = sw.result.next;
        returns = rw (holds, sw.returns) refl;
        orig = sw.orig;
        cells = sw.cells;
      }

  module _ (rd : StackReady) where
    done : Finished (do_generation frames) (IsRoot roots) m from to sizes
    done = finish rd

    live : (q : ℕ) → InStack frames q → IsRoot roots q
    live q t = IsRoot-stack_words frames [] q (inr t)

    only : (q : ℕ) → ¬ (InStack frames q) → ¬ (IsRoot roots q)
    only q n t = elim (stack_words-cases frames [] q t) [ inl b ↦ b | inr s ↦ n s ]

    -- A collection whose roots are the words of the stack returns, copies no more words than
    -- from-space used, empties from-space, and changes memory only in from-space, in the words of
    -- to-space that it needs, and in the stack frames.
    pub stack_generation-frame :
        (y : ℕ)
        → (y < from.start) ⊎ (from.limit ≤ y)
        → (y < to.next) ⊎ (to.next + (from.next - from.start) ≤ y)
        → ¬ (InStack frames y)
        → (r : Collected) × (do_generation frames m from to ≡ ok r)
          × (r.to.next ≤ to.next + (from.next - from.start))
          × (r.from ≡ record from { next = from.start })
          × (r.mem y ≡ m y)
    stack_generation-frame y f t n = (
      _,
      done.returns,
      omega (arith, done.cells.inv.room),
      refl,
      done.cells.frame y (f, t) (only y n),
    )

    -- Every word of the stack reads the same after the collection as before, to any depth.
    pub stack_generation-view :
        (q k : ℕ)
        → InStack frames q
        → (r : Collected) × (do_generation frames m from to ≡ ok r)
          × (view k r.mem to.next r.to.next (r.mem q) ≡ view k m from.start from.limit (m q))
    stack_generation-view q k t =
        (_, done.returns, root_view S rd.formed roots done.orig _ done.cells k q (live q t))

    -- Two paths from words of the stack lead to one object after the collection exactly if they did
    -- before.
    pub stack_generation-follow :
        (q q' : ℕ) (p p' : List ℕ)
        → InStack frames q
        → InStack frames q'
        → (r : Collected) × (do_generation frames m from to ≡ ok r)
          × (SameObject
                (follow m from.start from.limit p (m q))
                (follow m from.start from.limit p' (m q'))
              ↔ SameObject
                  (follow r.mem to.next r.to.next p (r.mem q))
                  (follow r.mem to.next r.to.next p' (r.mem q')))
    stack_generation-follow q q' p p' t t' = (
      _,
      done.returns,
      root_follow S rd.formed roots done.orig _ done.cells q q' p p' (live q t) (live q' t'),
    )

-- The collector with the words of the stack as its roots.
pub stack_generation-Collects :
    (frames : List StackFrame) → Collects (do_generation frames) (IsRoot (stack_words [] frames))
stack_generation-Collects frames = record {
  collect = λ m from to sizes wf ok_root nonneg room. finish frames m from to sizes (record {
    formed = wf;
    roots = λ q t. ok_root q (IsRoot-stack_words frames [] q (inr t));
    nonneg = nonneg;
    room = room;
  });
}
