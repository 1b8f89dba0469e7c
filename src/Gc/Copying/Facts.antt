-- ===== src/Gc/Copying/Facts.antt =====
-- First consequences of the invariant.
use certicoq.Prelude.{
  ℕ, ◌+◌, ◌-◌, ◌≤◌, ◌<◌, ◌≡◌, ◌≢◌, ◌⊎◌, inl, inr, true, false, arith, Bool-cases, ap, ◌∙◌, sym,
}
use certicoq.Words.{index, pointer, wosize_hd}
use certicoq.Memory.{Mem}
use certicoq.Gc.{Copy}
use certicoq.Gc.Layout.{header_bounds, points_into-pointer_outside}
use certicoq.Gc.Copying.{
  Spaces, Header, size, from_block, Good, WellFormed, relocate, Done, Forwarded, Untouched, InUse,
  Scanned, Inv, Step,
}

module _ (S : Spaces) (wf : WellFormed S) where
  open S use {m0, fs, fl, e, sizes, p0, tl}

  pub bounds :
      (x : ℕ)
      → Header S x
      → (fs ≤ x) × (x + 1 + size S x ≤ e) × (0 < size S x) × (size S x < 2147483648)
  bounds x h = header_bounds m0 fs sizes e x wf.blocks h

  -- The header of the block that a good word points to.
  pub Header-of :
      (v : ℕ) → Good S v → from_block S v ≡ true → (x : ℕ) × Header S x × (index v ≡ x + 1)
  Header-of v g h = (index v - 1, (g.block h).1, omega (arith, (g.block h).0))

  pub relocate_block : (m : Mem) (v : ℕ) → from_block S v ≡ true → relocate S m v ≡ m (index v)
  unfolding relocate
  relocate_block m v h = rw h

  pub relocate_other : (m : Mem) (v : ℕ) → from_block S v ≡ false → relocate S m v ≡ v
  unfolding relocate
  relocate_other m v h = rw h

  pub Header-live : (x : ℕ) → Header S x → m0 x ≢ 0
  unfolding wosize_hd
  Header-live x h z = absurd (omega (arith, (bounds x h).2, ap wosize_hd z))

  module _ {o : ℕ → ℕ} {c : Copy} (inv : Inv S o c) where
    pub Forwarded-of_marked : (x : ℕ) → Header S x → c.mem x ≡ 0 → Forwarded S o c x
    Forwarded-of_marked x h z = elim (inv.block x h) [
      | inl f ↦ f
      | inr u ↦
          absurd (Header-live x h (omega (arith, u 0 (omega arith), ap c.mem (x0 x), ap m0 (x0 x))))
    ]
      where
        x0 : (x : ℕ) → x + 0 ≡ x
        x0 x = omega arith

    pub Untouched-of_live : (x : ℕ) → Header S x → c.mem x ≢ 0 → Untouched S c x
    Untouched-of_live x h live = elim (inv.block x h) [ inl f ↦ absurd (live f.marked) | inr u ↦ u ]

    -- A relocated word does not point into from-space.
    pub relocate-not_from :
        (w : ℕ) → Good S w → Done S c.mem w → from_block S (relocate S c.mem w) ≡ false
    relocate-not_from w g d = elim (Bool-cases (from_block S w)) [
      | inl b ↦
          let (x, h, ix) = Header-of w g b in
          let f =
            Forwarded-of_marked x h (ap c.mem {x = x} {y = index w - 1} (omega arith) ∙ d b) in
          let at_new : relocate S c.mem w ≡ pointer (f.home + 1) =
            relocate_block c.mem w b ∙ ap c.mem ix ∙ f.moved in
          rw at_new (points_into-pointer_outside fs fl (f.home + 1) (away x h f))
      | inr b ↦ rw (relocate_other c.mem w b) b
    ]
      where
        away :
            (x : ℕ) → Header S x → (f : Forwarded S o c x) → (f.home + 1 < fs) ⊎ (fl ≤ f.home + 1)
        away x h f = elim wf.apart [
          | inl a ↦ inr (omega (arith, f.lower))
          | inr a ↦ inl (omega (arith, f.upper, inv.room, (bounds x h).2))
        ]

    module _ {o' : ℕ → ℕ} {c' : Copy} {q : ℕ} (st : Step S q o c o' c') where
      pub Done-Step :
          (w : ℕ)
          → Good S w
          → Done S c.mem w
          → Done S c'.mem w × (relocate S c'.mem w ≡ relocate S c.mem w)
      Done-Step w g d = elim (Bool-cases (from_block S w)) [
        | inl b ↦
            let (x, h, ix) = Header-of w g b in
            let ih : index w - 1 ≡ x = omega arith in
            let (z, same) = st.marks x h (ap c.mem (sym ih) ∙ d b) in
            (
              λ _. ap c'.mem ih ∙ z,
              relocate_block c'.mem w b
                  ∙ ap c'.mem ix
                  ∙ same
                  ∙ ap c.mem (sym ix)
                  ∙ sym (relocate_block c.mem w b),
            )
        | inr b ↦ (λ t. cc, relocate_other c'.mem w b ∙ sym (relocate_other c.mem w b))
      ]

      pub Scanned-Step :
          (y : ℕ) → InUse S c y → y ≢ q → Good S (m0 (o y)) → Scanned S o c y → Scanned S o' c' y
      Scanned-Step y u ne g s =
          let e : m0 (o' y) ≡ m0 (o y) = ap m0 (st.same y u) in
          let (d, r) = Done-Step (m0 (o y)) g s.done in
          record {
            value = st.kept y u ne ∙ s.value ∙ sym r ∙ ap (relocate S c'.mem) (sym e);
            done = rw e d;
          }
