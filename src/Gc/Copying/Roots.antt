-- ===== src/Gc/Copying/Roots.antt =====
-- The forwarding of roots, one location after another: it keeps the invariant of a collection, and
-- each location that is in the list afterwards points to a copy.
use mathlib.Core.Path.{subst}
use certicoq.Prelude.{
  ℕ, ◌≡◌, ◌≢◌, refl, ◌⊎◌, inl, inr, arith, ap, ◌∙◌, sym, Bool-cases, ◌==◌, List, [], ◌∷◌,
}
use certicoq.Gc.{Copy, forward, depth}
use certicoq.Gc.Layout.{remaining-le}
use certicoq.Gc.Copying.{Spaces, Good, WellFormed, Raw, Scanned, Inv, InUse}
use certicoq.Gc.Copying.Facts.{Scanned-Step}
use certicoq.Gc.Copying.Forward.{Forwards, forward-Forwards}
use certicoq.Gc.Copying.Sweep.{Cells, Boundary-Step, Outside, Outside-InUse, Raw-after}

-- `y` is one of the locations, the last of which comes first in the list.
abbrev pub IsRoot : List ℕ → ℕ → Type 0
IsRoot [] y = ⊥
IsRoot (q ∷ ls) y = IsRoot ls y ⊎ (y ≡ q)

IsRoot-cases : (ls : List ℕ) (y : ℕ) → IsRoot ls y ⊎ (¬ (IsRoot ls y))
IsRoot-cases [] y = inr (λ b. b)
IsRoot-cases (q ∷ ls) y = elim (IsRoot-cases ls y) [
  | inl t ↦ inl (inl t)
  | inr f ↦ elim (Bool-cases (y == q)) [
    | inl e ↦ inl (inr (ground arith))
    | inr ne ↦ inr (neither f (ground arith))
  ]
]
  where
    neither : ¬ (IsRoot ls y) → y ≢ q → ¬ (IsRoot ls y ⊎ (y ≡ q))
    neither f ne (inl t) = f t
    neither f ne (inr e) = ne e

module _ (S : Spaces) (wf : WellFormed S) where
  open S use {m0, fs, fl, e, sizes, p0, tl}

  -- After the locations of the list.
  pub record Rooted (ls : List ℕ) (c : Copy) : Type 0 where
    pub orig : ℕ → ℕ
    pub cells : Cells S (IsRoot ls) orig c p0

  pub start : Rooted [] (record { mem = m0; next = p0 })
  start = record {
    orig = λ y. y;
    cells = record {
      inv = record {
        low = omega arith;
        room = omega (arith, remaining-le m0 m0 fs sizes e wf.blocks, wf.fits);
        block = λ x h. inr (λ i le. refl);
        chain = λ y l r h. absurd (omega arith);
        outside = λ y out. refl;
      };
      low = omega arith;
      final = λ y l r. absurd (omega arith);
      raw = λ y l r. absurd (omega arith);
      good = λ y t. absurd t;
      roots = λ y t. absurd t;
      frame = λ y out n. refl;
      first = inl refl;
    };
  }

  -- A location outside both spaces that holds a good word.
  pub location_step :
      (ls : List ℕ) (q : ℕ) {c : Copy}
      → Outside S q
      → Good S (m0 q)
      → Rooted ls c
      → Rooted (q ∷ ls) (forward fs fl depth q c)
  location_step ls q {c} out good r = record {
    orig = f.orig;
    cells = record {
      inv = f.inv;
      low = omega arith;
      final = λ y l t. absurd (omega arith);
      raw = λ y l t.
          Raw-after S wf (IsRoot ls) cells.inv f.inv f.step y p0 (omega arith) l t
            (omega (arith, out, inv'.room)) cells.raw;
      good = good_after;
      roots = roots_after;
      frame = λ y o not_root.
          f.step.kept y (Outside-InUse S wf (IsRoot ls) c y o) (λ t. not_root (inr t))
          ∙ cells.frame y o (λ t. not_root (inl t));
      first = Boundary-Step S wf (IsRoot ls) cells.inv f.inv f.step cells.first;
    };
  }
    where
      open r use {orig, cells}

      use_q : InUse S c q
      use_q = Outside-InUse S wf (IsRoot ls) c q out

      own : orig q ≡ q
      own = cells.inv.outside q out.1

      state : Raw S orig c q ⊎ Scanned S orig c q
      state = elim (IsRoot-cases ls q) [
        | inl t ↦ inr (cells.roots q t)
        | inr n ↦ inl (cells.frame q out n ∙ ap m0 (sym own))
      ]

      f : Forwards S q orig c (forward fs fl depth q c)
      f = forward-Forwards S wf orig c cells.inv q use_q (rw own (good)) state

      inv' : Inv S f.orig (forward fs fl depth q c)
      inv' = f.inv

      good_after : (y : ℕ) → IsRoot (q ∷ ls) y → Outside S y × Good S (m0 y)
      good_after y (inl t) = cells.good y t
      good_after y (inr e0) = rw e0 (out, good)

      roots_after : (y : ℕ) → IsRoot (q ∷ ls) y → Scanned S f.orig (forward fs fl depth q c) y
      roots_after y t = elim (Bool-cases (y == q)) [
        | inl e0 ↦
            subst (Scanned S f.orig (forward fs fl depth q c)) {x = q} {y = y} (ground arith)
              f.scanned
        | inr ne ↦ old y t (ground arith)
      ]
        where
          old : (y : ℕ) → IsRoot (q ∷ ls) y → y ≢ q → Scanned S f.orig (forward fs fl depth q c) y
          old y (inr e0) ne = absurd (ne e0)
          old y (inl t) ne =
              Scanned-Step S wf cells.inv f.step y
                (Outside-InUse S wf (IsRoot ls) c y (cells.good y t).0) ne
                (subst (λ a. Good S (m0 a)) (sym (cells.inv.outside y (cells.good y t).0.1))
                  (cells.good y t).1)
                (cells.roots y t)
