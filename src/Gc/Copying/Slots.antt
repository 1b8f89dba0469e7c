-- ===== src/Gc/Copying/Slots.antt =====
-- `forward_roots` of theories/Runtime/gc.c: the roots are slots of the args array.
use mathlib.Core.Path.{subst}
use certicoq.Prelude.{
  ℕ, zero, suc, ◌+◌, ◌<◌, ◌≡◌, ◌≢◌, refl, inl, inr, arith, ap, Bool-cases, lt→ltb, ◌==◌, List, [],
  ◌∷◌,
}
use certicoq.Words.{to_int, unsigned}
use certicoq.Run.{Run, ok}
use certicoq.Gc.{Copy, FunInfo, forward, depth, max_args, forward_root_slots, forward_roots}
use certicoq.Gc.Copying.{Spaces, Good, WellFormed}
use certicoq.Gc.Copying.Sweep.{Outside}
use certicoq.Gc.Copying.Roots.{IsRoot, Rooted, start, location_step}

-- The location of a root.
abbrev pub root : FunInfo → ℕ → ℕ → ℕ
root fi args i = args + fi (i + 2)

-- How many there are: `int n = fi[1]`, compared as a `uintnat`.
abbrev pub root_count : FunInfo → ℕ
root_count fi = unsigned (to_int (fi 1))

-- The locations of the first `k` roots, the last of them first.
abbrev pub slots : FunInfo → ℕ → ℕ → List ℕ
slots fi args zero = []
slots fi args (suc k) = root fi args k ∷ slots fi args k

pub IsRoot-root : (fi : FunInfo) (args k i : ℕ) → i < k → IsRoot (slots fi args k) (root fi args i)
IsRoot-root fi args zero i h = absurd (omega arith)
IsRoot-root fi args (suc k) i h = elim (Bool-cases (i == k)) [
  | inl e ↦ inr (ap (root fi args) (ground arith))
  | inr ne ↦ inl (IsRoot-root fi args k i (ground arith))
]

-- Only those are in the list.
pub not_IsRoot :
    (fi : FunInfo) (args y k : ℕ)
    → ((i : ℕ) → i < k → y ≢ root fi args i)
    → ¬ (IsRoot (slots fi args k) y)
not_IsRoot fi args y zero n t = t
not_IsRoot fi args y (suc k) n (inl t) = not_IsRoot fi args y k (λ i lt. n i (omega arith)) t
not_IsRoot fi args y (suc k) n (inr e) = n k (omega arith) e

-- The roots have slots of the args array, which lies outside both spaces, and hold good words.
pub record RootsOk (S : Spaces) (fi : FunInfo) (args : ℕ) : Type 0 where
  pub slot : (i : ℕ) → i < root_count fi → fi (i + 2) < max_args
  pub outside : (i : ℕ) → i < root_count fi → Outside S (root fi args i)
  pub good : (i : ℕ) → i < root_count fi → Good S (S.m0 (root fi args i))

module _ (S : Spaces) (wf : WellFormed S) (fi : FunInfo) (args : ℕ) (rs : RootsOk S fi args) where
  open S use {m0, fs, fl, p0}

  pub record SlotsForwarded (r : Run Copy) : Type 0 where
    pub result : Copy
    pub returns : r ≡ ok result
    pub rooted : Rooted S wf (slots fi args (root_count fi)) result

  slots_forwarded :
      (n i : ℕ) {c : Copy}
      → i + n ≡ root_count fi
      → Rooted S wf (slots fi args i) c
      → SlotsForwarded (forward_root_slots fs fl fi args n i c)
  unfolding forward_root_slots
  slots_forwarded zero i {c} e0 r = record {
    result = c;
    returns = refl;
    rooted =
        subst (λ k. Rooted S wf (slots fi args k) c) {x = i} {y = root_count fi} (omega arith) r;
  }
  slots_forwarded (suc n) i {c} e0 r = rw (lt→ltb _ _ (rs.slot i (omega arith))) (
      slots_forwarded n (i + 1) (omega arith) (
        subst (λ k. Rooted S wf (slots fi args k) (forward fs fl depth (root fi args i) c))
          {x = suc i} {y = i + 1} (omega arith)
          (location_step S wf (slots fi args i) (root fi args i) (rs.outside i (omega arith))
            (rs.good i (omega arith)) r)))

  -- No assertion on a slot fails, and all the roots are forwarded.
  pub roots_forwarded :
      SlotsForwarded (forward_roots fs fl fi args (record { mem = m0; next = p0 }))
  unfolding forward_roots
  roots_forwarded = slots_forwarded (root_count fi) 0 (omega arith) (start S wf)
