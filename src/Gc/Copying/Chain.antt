-- ===== src/Gc/Copying/Chain.antt =====
-- The copies of a finished collection lie in to-space as blocks, as those of from-space did.
use certicoq.Prelude.{
  ℕ, zero, suc, ◌+◌, ◌-◌, ◌≤◌, ◌<◌, ◌≡◌, ◌⊎◌, inl, inr, false, List, [], ◌∷◌, arith, ap, ◌∙◌, sym,
  Bool-cases, ◌==◌, ltb, ltb→lt,
}
use certicoq.Words.{wosize_hd, tag_hd}
use certicoq.Gc.{Copy, no_scan}
use certicoq.Gc.Layout.{Blocks, IsHeader}
use certicoq.Gc.Copying.{Spaces, Header, size, WellFormed, Scanned}
use certicoq.Gc.Copying.Facts.{bounds}
use certicoq.Gc.Copying.Sweep.{Cells, Boundary}
use certicoq.Gc.Copying.Finish.{word_unique}

module _ (S : Spaces) (wf : WellFormed S) (T : ℕ → Type 0) (o : ℕ → ℕ) (c : Copy)
    (cells : Cells S T o c c.next) where
  open S use {m0, fs, fl, e, sizes, p0, tl}

  -- The copy of a header is as the header was.
  pub copied-Header : (y : ℕ) → p0 ≤ y → y < c.next → Header S (o y) → c.mem y ≡ m0 (o y)
  copied-Header y l r h =
      let f = cells.final y l r in
      let (same, first) =
        word_unique S wf f.x (o y) f.i 0 f.header h f.within (omega arith)
          (sym f.at ∙ omega arith) in
      f.raw (inl first)

  -- A field of a copied block that is scanned is forwarded, and rests on a good word.
  pub copied_field :
      (y : ℕ)
      → p0 ≤ y
      → y < c.next
      → Header S (o y)
      → no_scan (tag_hd (m0 (o y))) ≡ false
      → (i : ℕ) → i < size S (o y)
      → Scanned S o c (y + 1 + i) × (o (y + 1 + i) ≡ o y + 1 + i)
  copied_field y l r h scan i lt =
      let w = cells.inv.chain y l r h in
      let at : o (y + 1 + i) ≡ o y + (1 + i) =
        ap o {x = y + 1 + i} {y = y + (1 + i)} (omega arith) ∙ w.copied (1 + i) (omega arith) in
      let f = cells.final (y + 1 + i) (omega arith) (omega (arith, w.ends)) in
      let (same, place) =
        word_unique S wf f.x (o y) f.i (1 + i) f.header h f.within (omega arith) (sym f.at ∙ at) in
      (f.scanned (omega arith) (ap (λ t. no_scan (tag_hd (m0 t))) same ∙ scan), at ∙ omega arith)

  -- The blocks from the copied header at `s` on.
  pub record Chain (s : ℕ) : Type 0 where
    pub copies : List ℕ
    pub blocks : Blocks c.mem s copies c.next
    pub original : (x : ℕ) → IsHeader s copies x → Header S (o x) × (s ≤ x) × (x < c.next)
    pub all : (x : ℕ) → s ≤ x → x < c.next → Header S (o x) → IsHeader s copies x

  chain_step :
      (s : ℕ) → p0 ≤ s → s < c.next → Header S (o s) → Chain (s + 1 + size S (o s)) → Chain s
  chain_step s l r h rest =
      let w = cells.inv.chain s l r h in
      record {
        copies = size S (o s) ∷ rest.copies;
        blocks = (
          ap wosize_hd (copied-Header s l r h),
          (bounds S wf (o s) h).2,
          (bounds S wf (o s) h).3,
          rest.blocks,
        );
        original = original;
        all = all;
      }
    where
      original :
          (x : ℕ)
          → (x ≡ s) ⊎ IsHeader (s + 1 + size S (o s)) rest.copies x
          → Header S (o x) × (s ≤ x) × (x < c.next)
      original x (inl e0) = rw e0 (h, omega arith, r)
      original x (inr k) = let (hx, low, high) = rest.original x k in (hx, omega arith, high)

      all :
          (x : ℕ)
          → s ≤ x
          → x < c.next
          → Header S (o x)
          → (x ≡ s) ⊎ IsHeader (s + 1 + size S (o s)) rest.copies x
      all x ls rs hx = elim (Bool-cases (x == s)) [
        | inl same ↦ inl (ground arith)
        | inr other ↦ elim (Bool-cases (ltb x (s + 1 + size S (o s)))) [
          | inr beyond ↦ inr (rest.all x (ground arith) rs hx)
          | inl within ↦ absurd (inside (ground (arith, other)) (ltb→lt _ _ within))
        ]
      ]
        where
          inside : s < x → x < s + 1 + size S (o s) → ⊥
          inside lt wi =
              let at : o x ≡ o s + (x - s) =
                ap o {x = x} {y = s + (x - s)} (omega arith)
                ∙ (cells.inv.chain s l r h).copied (x - s) (omega arith) in
              omega (
                arith,
                word_unique S wf (o x) (o s) 0 (x - s) hx h (omega arith) (omega arith)
                    (omega arith),
              )

  -- By induction on the words that are left.
  chain_from : (n s : ℕ) → p0 ≤ s → c.next ≤ s + n → Boundary S o c s → Chain s
  chain_from n s l le (inl e0) = record {
    copies = [];
    blocks = e0;
    original = λ x k. absurd k;
    all = λ x a b k. absurd (omega arith);
  }
  chain_from zero s l le (inr (r, h)) = absurd (omega arith)
  chain_from (suc n) s l le (inr (r, h)) = chain_step s l r h (
      chain_from n (s + 1 + size S (o s)) (omega arith) (omega arith)
        (cells.inv.chain s l r h).follows)

  pub copies-Chain : Chain p0
  copies-Chain = chain_from (c.next - p0) p0 (omega arith) (omega (arith, cells.low)) cells.first
