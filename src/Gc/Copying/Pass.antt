-- ===== src/Gc/Copying/Pass.antt =====
-- The words of to-space that `do_scan` of theories/Runtime/gc.c passes over.
use mathlib.Core.Path.{subst}
use certicoq.Prelude.{
  ℕ, zero, suc, ◌+◌, ◌≤◌, ◌<◌, ◌≡◌, refl, ◌⊎◌, inl, inr, true, false, arith, ap, ◌∙◌, sym,
  Bool-cases, ltb, ltb→lt,
}
use certicoq.Words.{tag_hd}
use certicoq.Gc.{Copy, no_scan}
use certicoq.Gc.Copying.{Spaces, Header, size, WellFormed}
use certicoq.Gc.Copying.Sweep.{Final, Cells}

module _ (S : Spaces) (wf : WellFormed S) (T : ℕ → Type 0) where
  open S use {m0, fs, fl, e, sizes, p0, tl}

  -- The copies of a header and of what is not scanned are final as they are.
  pub pass :
      {o : ℕ → ℕ} {c : Copy} (y x j : ℕ)
      → Cells S T o c y
      → y < c.next
      → Header S x
      → o y ≡ x + j
      → j ≤ size S x
      → (j ≡ 0) ⊎ (no_scan (tag_hd (m0 x)) ≡ true)
      → Cells S T o c (y + 1)
  pass {o} {c} y x j cells r h at le plain = record {
    inv = cells.inv;
    low = omega (arith, cells.low);
    final = λ z l t. elim (Bool-cases (ltb z y)) [
      | inl below ↦ cells.final z l (ltb→lt z y below)
      | inr here ↦ subst (Final S o c) {x = y} {y = z} (ground arith) this
    ];
    raw = λ z l t. cells.raw z (omega arith) t;
    good = cells.good;
    roots = cells.roots;
    frame = cells.frame;
    first = cells.first;
  }
    where
      this : Final S o c y
      this = record {
        x = x;
        header = h;
        i = j;
        within = le;
        at = at;
        raw = λ k. cells.raw y (omega arith) r;
        scanned = λ pos scan. absurd (no_field plain pos scan);
      }
        where
          no_field :
              (j ≡ 0) ⊎ (no_scan (tag_hd (m0 x)) ≡ true)
              → 0 < j
              → no_scan (tag_hd (m0 x)) ≡ false
              → ⊥
          no_field (inl z) pos scan = omega arith
          no_field (inr n) pos scan = cc

  -- All words of a block that is not scanned.
  pub pass_all :
      {o : ℕ → ℕ} {c : Copy} (s x k : ℕ)
      → Cells S T o c s
      → s < c.next
      → Header S x
      → o s ≡ x
      → no_scan (tag_hd (m0 x)) ≡ true
      → k ≤ size S x
      → Cells S T o c (s + 1 + k)
  pass_all {o} {c} s x zero cells r h at n le =
      subst (Cells S T o c) (omega arith)
        (pass s x 0 cells r h (at ∙ omega arith) (omega arith) (inl refl))
  pass_all {o} {c} s x (suc k) cells r h at n le =
      let w = cells.inv.chain s cells.low r (subst (Header S) (sym at) h) in
      let sz : size S (o s) ≡ size S x = ap (size S) at in
      subst (Cells S T o c) (omega arith) (
        pass (s + 1 + k) x (suc k) (pass_all s x k cells r h at n (omega arith))
          (omega (arith, w.ends)) h
          (ap o (omega arith) ∙ w.copied (suc k) (omega arith) ∙ ap (λ a. a + suc k) at) le (inr n))
