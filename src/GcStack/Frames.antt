-- ===== src/GcStack/Frames.antt =====
-- `forward_roots` of theories/Runtime/gc_stack.c: the roots are the words of the stack frames.
use certicoq.Prelude.{
  ℕ, zero, suc, ◌+◌, ◌-◌, ◌≤◌, ◌<◌, ◌⊎◌, inl, inr, arith, List, [], ◌∷◌, Bool-cases, ◌==◌,
}
use certicoq.Gc.{Copy, forward, depth, each_word}
use certicoq.Gc.Copying.{Spaces, Good, WellFormed}
use certicoq.Gc.Copying.Sweep.{Outside}
use certicoq.Gc.Copying.Roots.{IsRoot, Rooted, start, location_step}
use certicoq.GcStack.{StackFrame, forward_frames}

-- `q` is a word of one of the frames.
abbrev pub InStack : List StackFrame → ℕ → Type 0
InStack [] q = ⊥
InStack (frame ∷ frames) q = ((frame.root ≤ q) × (q < frame.next)) ⊎ InStack frames q

-- The `n` locations from `q` on, before those of `ls`.
abbrev words : List ℕ → ℕ → ℕ → List ℕ
words ls zero q = ls
words ls (suc n) q = words (q ∷ ls) n (q + 1)

abbrev pub stack_words : List ℕ → List StackFrame → List ℕ
stack_words ls [] = ls
stack_words ls (frame ∷ frames) = stack_words (words ls (frame.next - frame.root) frame.root) frames

IsRoot-words :
    (ls : List ℕ) (n q y : ℕ) → IsRoot ls y ⊎ ((q ≤ y) × (y < q + n)) → IsRoot (words ls n q) y
IsRoot-words ls zero q y (inl t) = t
IsRoot-words ls zero q y (inr r) = absurd (omega arith)
IsRoot-words ls (suc n) q y (inl t) = IsRoot-words (q ∷ ls) n (q + 1) y (inl (inl t))
IsRoot-words ls (suc n) q y (inr r) = elim (Bool-cases (y == q)) [
  | inl e ↦ IsRoot-words (q ∷ ls) n (q + 1) y (inl (inr (ground arith)))
  | inr ne ↦ IsRoot-words (q ∷ ls) n (q + 1) y (inr (ground arith))
]

words-cases :
    (ls : List ℕ) (n q y : ℕ) → IsRoot (words ls n q) y → IsRoot ls y ⊎ ((q ≤ y) × (y < q + n))
words-cases ls zero q y t = inl t
words-cases ls (suc n) q y t = elim (words-cases (q ∷ ls) n (q + 1) y t) [
  | inl (inl t') ↦ inl t'
  | inl (inr e) ↦ inr (omega arith)
  | inr r ↦ inr (omega arith)
]

pub IsRoot-stack_words :
    (frames : List StackFrame) (ls : List ℕ) (y : ℕ)
    → IsRoot ls y ⊎ InStack frames y
    → IsRoot (stack_words ls frames) y
IsRoot-stack_words [] ls y (inl t) = t
IsRoot-stack_words [] ls y (inr b) = absurd b
IsRoot-stack_words (frame ∷ frames) ls y (inl t) =
    IsRoot-stack_words frames _ y
      (inl (IsRoot-words ls (frame.next - frame.root) frame.root y (inl t)))
IsRoot-stack_words (frame ∷ frames) ls y (inr (inl r)) =
    IsRoot-stack_words frames _ y
      (inl (IsRoot-words ls (frame.next - frame.root) frame.root y (inr (omega arith))))
IsRoot-stack_words (frame ∷ frames) ls y (inr (inr t)) = IsRoot-stack_words frames _ y (inr t)

-- Only the words of frames are roots.
pub stack_words-cases :
    (frames : List StackFrame) (ls : List ℕ) (y : ℕ)
    → IsRoot (stack_words ls frames) y
    → IsRoot ls y ⊎ InStack frames y
stack_words-cases [] ls y t = inl t
stack_words-cases (frame ∷ frames) ls y t = elim (stack_words-cases frames _ y t) [
  | inr s ↦ inr (inr s)
  | inl w ↦ elim (words-cases ls (frame.next - frame.root) frame.root y w) [
    | inl t' ↦ inl t'
    | inr r ↦ inr (inl (omega arith))
  ]
]

module _ (S : Spaces) (wf : WellFormed S) where
  open S use {m0, fs, fl, p0}

  words-Rooted :
      (ls : List ℕ) (n q : ℕ) {c : Copy}
      → ((y : ℕ) → q ≤ y → y < q + n → Outside S y × Good S (m0 y))
      → Rooted S wf ls c
      → Rooted S wf (words ls n q) (each_word (λ a d. forward fs fl depth a d) n q c)
  unfolding each_word
  words-Rooted ls zero q f r = r
  words-Rooted ls (suc n) q f r =
      let (out, good) = f q (omega arith) (omega arith) in
      words-Rooted (q ∷ ls) n (q + 1) (λ y l u. f y (omega arith) (omega arith))
        (location_step S wf ls q out good r)

  frames-Rooted :
      (frames : List StackFrame) (ls : List ℕ) {c : Copy}
      → ((y : ℕ) → InStack frames y → Outside S y × Good S (m0 y))
      → Rooted S wf ls c
      → Rooted S wf (stack_words ls frames) (forward_frames fs fl frames c)
  unfolding forward_frames
  frames-Rooted [] ls f r = r
  frames-Rooted (frame ∷ frames) ls f r =
      frames-Rooted frames _ (λ y t. f y (inr t))
        (words-Rooted ls (frame.next - frame.root) frame.root (λ y l u. f y (inl (omega arith))) r)

  -- All the words of the stack are forwarded.
  pub stack-Rooted :
      (frames : List StackFrame)
      → ((y : ℕ) → InStack frames y → Outside S y × Good S (m0 y))
      → Rooted S wf
          (stack_words [] frames)
          (forward_frames fs fl frames (record { mem = m0; next = p0 }))
  stack-Rooted frames f = frames-Rooted frames [] f (start S wf)
