-- ===== src/Gc/Copying/Sweep.antt =====
-- `do_scan` of theories/Runtime/gc.c: a round keeps the invariant and brings the scanned part of
-- to-space to the next block, and the loop ends within its fuel.
use mathlib.Core.Path.{subst}
use certicoq.Prelude.{
  ℕ, ◌+◌, ◌-◌, ◌≤◌, ◌<◌, ◌≡◌, ◌≢◌, ◌⊎◌, inl, inr, true, false, arith, ap, ◌∙◌, sym, Bool-cases, ltb,
  ltb→lt,
}
use certicoq.Words.{tag_hd}
use certicoq.Gc.{Copy, forward, depth, no_scan}
use certicoq.Gc.Copying.{Spaces, Header, size, Good, WellFormed, InUse, Raw, Scanned, Inv, Step}
use certicoq.Gc.Copying.Facts.{Scanned-Step}
use certicoq.Gc.Copying.Forward.{Forwards, forward-Forwards}

-- The part of a word in the block with its header at `x` that it is a copy of.
pub record Final (S : Spaces) (o : ℕ → ℕ) (c : Copy) (y : ℕ) : Type 0 where
  pub x : ℕ
  pub header : Header S x
  pub i : ℕ
  pub within : i ≤ size S x
  pub at : o y ≡ x + i
  pub raw : (i ≡ 0) ⊎ (no_scan (tag_hd (S.m0 x)) ≡ true) → Raw S o c y
  pub scanned : 0 < i → no_scan (tag_hd (S.m0 x)) ≡ false → Scanned S o c y

-- A word outside both spaces.
abbrev pub Outside : Spaces → ℕ → Type 0
Outside S y = ((y < S.fs) ⊎ (S.fl ≤ y)) × ((y < S.p0) ⊎ (S.tl ≤ y))

-- At `s` the copied part of to-space ends, or the copy of a block begins.
abbrev pub Boundary : Spaces → (ℕ → ℕ) → Copy → ℕ → Type 0
Boundary S o c s = (s ≡ c.next) ⊎ ((s < c.next) × Header S (o s))

-- The copied words are final below `s` and plain copies from there on. Of the words outside both
-- spaces those in `T`, roots, are forwarded, and the others are as they were.
pub record Cells (S : Spaces) (T : ℕ → Type 0) (o : ℕ → ℕ) (c : Copy) (s : ℕ) : Type 0 where
  pub inv : Inv S o c
  pub low : S.p0 ≤ s
  pub final : (y : ℕ) → S.p0 ≤ y → y < s → Final S o c y
  pub raw : (y : ℕ) → s ≤ y → y < c.next → Raw S o c y
  pub good : (y : ℕ) → T y → Outside S y × Good S (S.m0 y)
  pub roots : (y : ℕ) → T y → Scanned S o c y
  pub frame : (y : ℕ) → Outside S y → ¬ (T y) → c.mem y ≡ S.m0 y
  pub first : Boundary S o c S.p0

module _ (S : Spaces) (wf : WellFormed S) (T : ℕ → Type 0) where
  open S use {m0, fs, fl, e, sizes, p0, tl}

  pub copied-InUse : (o : ℕ → ℕ) (c : Copy) (y : ℕ) → Inv S o c → p0 ≤ y → y < c.next → InUse S c y
  copied-InUse o c y inv l r = record {
    not_from = omega (arith, wf.apart, inv.room);
    live = inl (omega arith, omega arith);
  }

  pub Outside-InUse : (c : Copy) (y : ℕ) → Outside S y → InUse S c y
  Outside-InUse c y out = record { not_from = out.0; live = inr out.1 }

  -- What a copied word's final state rests on is good.
  Final-Good :
      (o : ℕ → ℕ) (c : Copy) (y : ℕ)
      → (f : Final S o c y) → 0 < f.i
      → no_scan (tag_hd (m0 f.x)) ≡ false
      → Good S (m0 (o y))
  Final-Good o c y f pos scan = rw f.at (
      subst (λ a. Good S (m0 a)) (omega arith)
        (wf.fields f.x f.header scan (f.i - 1) (omega (arith, f.within))))

  module _ {o o' : ℕ → ℕ} {c c' : Copy} {q : ℕ} (inv : Inv S o c) (inv' : Inv S o' c')
      (st : Step S q o c o' c') where
    Raw-Step : (y : ℕ) → InUse S c y → y ≢ q → Raw S o c y → Raw S o' c' y
    Raw-Step y u ne r = st.kept y u ne ∙ r ∙ ap m0 (sym (st.same y u))

    Final-Step : (y : ℕ) → InUse S c y → y ≢ q → Final S o c y → Final S o' c' y
    Final-Step y u ne f = record {
      x = f.x;
      header = f.header;
      i = f.i;
      within = f.within;
      at = st.same y u ∙ f.at;
      raw = λ k. Raw-Step y u ne (f.raw k);
      scanned =
          λ pos k. Scanned-Step S wf inv st y u ne (Final-Good o c y f pos k) (f.scanned pos k);
    }

    -- The parts of `Cells` that do not depend on where the scan is.
    pub Raw-after :
        (y s : ℕ)
        → p0 ≤ s
        → s ≤ y
        → y < c'.next
        → y ≢ q
        → ((y : ℕ) → s ≤ y → y < c.next → Raw S o c y)
        → Raw S o' c' y
    Raw-after y s low l r ne raws = elim (Bool-cases (ltb y c.next)) [
      | inl old ↦
          let lt = ltb→lt y c.next old in
          Raw-Step y (copied-InUse o c y inv (omega arith) lt) ne (raws y l lt)
      | inr new ↦ st.fresh y (ground arith) r
    ]

    pub Final-after :
        (y s : ℕ) → p0 ≤ y → y < s → s ≤ c.next → y ≢ q → Final S o c y → Final S o' c' y
    Final-after y s l r top ne f = Final-Step y (copied-InUse o c y inv l (omega arith)) ne f

    pub Boundary-Step : Boundary S o c p0 → Boundary S o' c' p0
    Boundary-Step (inl e0) = elim (Bool-cases (ltb c.next c'.next)) [
      | inl more ↦
          let lt : c.next < c'.next = ground arith in
          inr (omega arith, subst (λ a. Header S (o' a)) (sym e0) (st.opens lt))
      | inr same ↦ inl (ground (arith, st.grows))
    ]
    Boundary-Step (inr (lt, h)) = inr (
      omega (arith, st.grows),
      subst (Header S) (sym (st.same p0 (copied-InUse o c p0 inv (omega arith) lt))) h,
    )

  -- The word at `y`, a field of a block that is scanned.
  pub field_step :
      {o : ℕ → ℕ} {c : Copy} (y x j : ℕ)
      → Cells S T o c y
      → y < c.next
      → Header S x
      → o y ≡ x + j
      → 0 < j
      → j ≤ size S x
      → no_scan (tag_hd (m0 x)) ≡ false
      → (f : Forwards S y o c (forward fs fl depth y c)) × Cells S T f.orig
          (forward fs fl depth y c)
          (y + 1)
  field_step {o} {c} y x j cells r h at pos le scan = (
    f,
    record {
      inv = f.inv;
      low = omega (arith, cells.low);
      final = final;
      raw = λ z l t.
          Raw-after cells.inv f.inv f.step z y cells.low (omega arith) t (omega arith) cells.raw;
      good = cells.good;
      roots = λ z t.
          Scanned-Step S wf cells.inv f.step z (Outside-InUse c z (cells.good z t).0)
            (omega (arith, (cells.good z t).0, cells.low, cells.inv.room))
            (subst (λ a. Good S (m0 a)) (sym (cells.inv.outside z (cells.good z t).0.1))
              (cells.good z t).1)
            (cells.roots z t);
      frame = λ z out not_root.
          f.step.kept z (Outside-InUse c z out) (omega (arith, out, cells.low, cells.inv.room))
          ∙ cells.frame z out not_root;
      first = Boundary-Step cells.inv f.inv f.step cells.first;
    },
  )
    where
      use_y : InUse S c y
      use_y = copied-InUse o c y cells.inv cells.low r

      good : Good S (m0 (o y))
      good =
          rw at
            (subst (λ a. Good S (m0 a)) (omega arith) (wf.fields x h scan (j - 1) (omega arith)))

      f : Forwards S y o c (forward fs fl depth y c)
      f = forward-Forwards S wf o c cells.inv y use_y good (inl (cells.raw y (omega arith) r))

      final : (z : ℕ) → p0 ≤ z → z < y + 1 → Final S f.orig (forward fs fl depth y c) z
      final z l t = elim (Bool-cases (ltb z y)) [
        | inl below ↦
            let lt = ltb→lt z y below in
            Final-after cells.inv f.inv f.step z y l lt (omega arith) (omega arith)
              (cells.final z l lt)
        | inr here ↦
            let e0 : y ≡ z = ground arith in
            subst (Final S f.orig (forward fs fl depth y c)) e0 (record {
              x = x;
              header = h;
              i = j;
              within = le;
              at = f.step.same y use_y ∙ at;
              raw = λ k. absurd (no_raw k);
              scanned = λ _ _. f.scanned;
            })
      ]
        where
          no_raw : (j ≡ 0) ⊎ (no_scan (tag_hd (m0 x)) ≡ true) → ⊥
          no_raw (inl z0) = omega arith
          no_raw (inr n) = cc
