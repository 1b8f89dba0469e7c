-- ===== src/GcStack/Tests.antt =====
-- The theorems on theories/Runtime/gc_stack.c at a small heap.
use certicoq.Prelude.{ℕ, ◌+◌, ◌≤◌, ◌≡◌, refl, ◌⊎◌, inl, inr, List, [], ◌∷◌, arith}
use certicoq.Words.{is_block, wosize_hd, tag_hd, to_int}
use certicoq.Memory.{copy_words, write}
use certicoq.Run.{Run, ok, ◌>>=◌}
use certicoq.Gc.{Collected, no_scan, is_from, do_scan, each_word}
use certicoq.Gc.Small.{small, young, old, sizes, small-WellFormed}
use certicoq.Gc.Copying.{Good}
use certicoq.Gc.Copying.Sweep.{Outside}
use certicoq.Gc.Copying.Collects.{collection}
use certicoq.GcStack.{StackFrame, do_generation, forward_frames}
use certicoq.GcStack.Frames.{InStack}
use certicoq.GcStack.Result.{StackReady, stack_generation-frame}

-- Two frames: one of the words 101 and 102, of which 102 is no pointer, and one of the word 103.
abbrev two_frames : List StackFrame
two_frames = record { next = 103; root = 101 } ∷ record { next = 104; root = 103 } ∷ []

at_words : (q : ℕ) → InStack two_frames q → (q ≡ 101) ⊎ ((q ≡ 102) ⊎ (q ≡ 103))
at_words q (inl r) = omega arith
at_words q (inr (inl r)) = omega arith
at_words q (inr (inr b)) = absurd b

small-StackReady : StackReady two_frames small young old sizes
unfolding wosize_hd is_from is_block
small-StackReady = record {
  formed = small-WellFormed;
  roots = roots;
  nonneg = omega arith;
  room = omega arith;
}
  where
    roots :
        (q : ℕ)
        → InStack two_frames q
        → Outside (collection small young old sizes) q
          × Good (collection small young old sizes) (small q)
    roots q t = elim (at_words q t) [
      | inl e ↦ rw e (omega arith, record { block = λ _. (omega arith, inl refl); not_free = refl })
      | inr (inl e) ↦ rw e (omega arith, record { block = λ h. cc; not_free = refl })
      | inr (inr e) ↦
          rw e (omega arith, record { block = λ _. (omega arith, inl refl); not_free = refl })
    ]

-- An old object's word is not touched.
stack_generation-frame_example :
    (r : Collected) × (do_generation two_frames small young old ≡ ok r)
    × (r.to.next ≤ 42 + 6)
    × (r.from ≡ record young { next = 10 })
    × (r.mem 41 ≡ small 41)
stack_generation-frame_example =
    stack_generation-frame two_frames small young old sizes small-StackReady 41 (inr (omega arith))
      (inl (omega arith)) (λ t. not_live t)
  where
    not_live : ¬ (InStack two_frames 41)
    not_live t = omega (arith, at_words 41 t)

-- The copies, and the words of the frames.
copies : Run (List ℕ)
unfolding do_generation forward_frames do_scan copy_words write each_word wosize_hd tag_hd is_block
    is_from to_int no_scan
copies = do
  r ← do_generation two_frames small young old
  ok (r.to.next ∷ r.mem 101 ∷ r.mem 102 ∷ r.mem 103 ∷ r.mem 42 ∷ r.mem 43 ∷ [])

copies_lem : copies ≡ ok (48 ∷ 344 ∷ 1 ∷ 344 ∷ 2048 ∷ 368 ∷ [])
unfolding copies
copies_lem = refl
