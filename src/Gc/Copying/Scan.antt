-- ===== src/Gc/Copying/Scan.antt =====
-- The rounds and the loop of `do_scan` of theories/Runtime/gc.c.
use mathlib.Core.Path.{subst}
use certicoq.Prelude.{
  ℕ, zero, suc, ◌+◌, ◌-◌, ◌≤◌, ◌<◌, ◌≡◌, refl, inl, inr, false, arith, ap, ◌∙◌, sym, Bool-cases,
  ltb, ltb→lt,
}
use certicoq.Words.{wosize_hd, tag_hd}
use certicoq.Run.{Run, ok}
use certicoq.Gc.{Copy, each_word, forward, depth, no_scan, scan_block, do_scan}
use certicoq.Gc.Copying.{Spaces, Header, size, WellFormed, Inv}
use certicoq.Gc.Copying.Pass.{pass, pass_all}
use certicoq.Gc.Copying.Sweep.{Cells, Boundary, copied-InUse, field_step}

module _ (S : Spaces) (wf : WellFormed S) (T : ℕ → Type 0) where
  open S use {m0, fs, fl, e, sizes, p0, tl}

  -- What was forwarded stays forwarded, to the same place.
  abbrev pub Stays : Copy → Copy → Type 0
  Stays c c' =
      (x : ℕ) → Header S x → c.mem x ≡ 0 → (c'.mem x ≡ 0) × (c'.mem (x + 1) ≡ c.mem (x + 1))

  Stays-trans : (a b c : Copy) → Stays a b → Stays b c → Stays a c
  Stays-trans a b c ab bc x h z =
      let (z', e) = ab x h z in let (z'', e') = bc x h z' in (z'', e' ∙ e)

  -- Between two fields of the block with its copy at `s`, from the state `a` on.
  record Mid (a : Copy) (s x k : ℕ) (c : Copy) : Type 0 where
    orig : ℕ → ℕ
    cells : Cells S T orig c k
    head : orig s ≡ x
    before : s < c.next
    stays : Stays a c

  one_field :
      {a c : Copy} (s x k : ℕ)
      → p0 ≤ s
      → s < k
      → k < s + 1 + size S x
      → Header S x
      → no_scan (tag_hd (m0 x)) ≡ false
      → Mid a s x k c
      → Mid a s x (k + 1) (forward fs fl depth k c)
  one_field {a} {c} s x k low above below h scan mid =
      let w = mid.cells.inv.chain s low mid.before (subst (Header S) (sym mid.head) h) in
      let sz : size S (mid.orig s) ≡ size S x = ap (size S) mid.head in
      let (f, after) =
        field_step S wf T k x (k - s) mid.cells (omega (arith, w.ends)) h
          (ap mid.orig {x = k} {y = s + (k - s)} (omega arith)
            ∙ w.copied (k - s) (omega arith)
            ∙ ap (λ a. a + (k - s)) mid.head)
          (omega arith) (omega arith) scan in
      record {
        orig = f.orig;
        cells = after;
        head =
            f.step.same s (copied-InUse S wf T mid.orig c s mid.cells.inv low mid.before)
            ∙ mid.head;
        before = omega (arith, mid.before, f.step.grows);
        stays = Stays-trans a c (forward fs fl depth k c) mid.stays f.step.marks;
      }

  rest_scanned :
      (s x n k : ℕ) {a c : Copy}
      → p0 ≤ s
      → s < k
      → k + n ≡ s + 1 + size S x
      → Header S x
      → no_scan (tag_hd (m0 x)) ≡ false
      → Mid a s x k c
      → Mid a s x (s + 1 + size S x) (each_word (λ q d. forward fs fl depth q d) n k c)
  unfolding each_word
  rest_scanned s x zero k {a} {c} low above e0 h scan mid =
      subst (λ t. Mid a s x t c) (omega arith) mid
  rest_scanned s x (suc n) k low above e0 h scan mid =
      rest_scanned s x n (k + 1) low (omega arith) (omega arith) h scan
        (one_field s x k low above (omega arith) h scan mid)

  fields_scanned :
      {o : ℕ → ℕ} {c : Copy} (s x : ℕ)
      → Cells S T o c s
      → s < c.next
      → Header S x
      → o s ≡ x
      → no_scan (tag_hd (m0 x)) ≡ false
      → Mid c s x
          (s + 1 + size S x)
          (each_word (λ q d. forward fs fl depth q d) (size S x) (s + 1) c)
  fields_scanned {o} {c} s x cells r h at scan =
      rest_scanned s x (size S x) (s + 1) cells.low (omega arith) refl h scan (record {
        orig = o;
        cells = pass S wf T s x 0 cells r h (at ∙ omega arith) (omega arith) (inl refl);
        head = at;
        before = r;
        stays = λ y hy z. (z, refl);
      })

  -- The state after a round of `do_scan`, at the next block.
  record Round (a : Copy) (s : ℕ) (c : Copy) : Type 0 where
    orig : ℕ → ℕ
    cells : Cells S T orig c s
    boundary : Boundary S orig c s
    stays : Stays a c

  Boundary-after :
      {o : ℕ → ℕ} {c : Copy} (s x : ℕ)
      → Inv S o c
      → p0 ≤ s
      → s < c.next
      → Header S x
      → o s ≡ x
      → Boundary S o c (s + 1 + size S x)
  Boundary-after {o} {c} s x inv low r h at =
      subst (λ t. Boundary S o c (s + 1 + size S t)) at
        (inv.chain s low r (subst (Header S) (sym at) h)).follows

  scan_block-Round :
      {o : ℕ → ℕ} {c : Copy} (s : ℕ)
      → Cells S T o c s
      → s < c.next
      → Header S (o s)
      → Round c (s + (1 + wosize_hd (c.mem s))) (scan_block fs fl s c)
  unfolding scan_block
  scan_block-Round {o} {c} s cells r h =
      let hd : c.mem s ≡ m0 (o s) = cells.raw s (omega arith) r in
      let pos : s + 1 + size S (o s) ≡ s + (1 + wosize_hd (m0 (o s))) = omega arith in
      rw hd (elim (Bool-cases (no_scan (tag_hd (m0 (o s))))) [
        | inl n ↦
            rw (n, ← pos)
              (record {
                orig = o;
                cells = pass_all S wf T s (o s) (size S (o s)) cells r h refl n (omega arith);
                boundary = Boundary-after s (o s) cells.inv cells.low r h refl;
                stays = λ y hy z. (z, refl);
              })
        | inr scan ↦
            let mid = fields_scanned s (o s) cells r h refl scan in
            rw (scan, ← pos)
              (record {
                orig = mid.orig;
                cells = mid.cells;
                boundary = Boundary-after s (o s) mid.cells.inv cells.low mid.before h mid.head;
                stays = mid.stays;
              })
      ])

  pub record Swept (a : Copy) (r : Run Copy) : Type 0 where
    pub result : Copy
    pub returns : r ≡ ok result
    pub orig : ℕ → ℕ
    pub cells : Cells S T orig result result.next
    pub stays : Stays a result

  at_end :
      {o : ℕ → ℕ} {c : Copy} (s : ℕ)
      → Cells S T o c s
      → Boundary S o c s
      → ltb s c.next ≡ false
      → Cells S T o c c.next
  at_end {o} {c} s cells b stop = subst (Cells S T o c) (ground (arith, b)) cells

  stopped :
      {o : ℕ → ℕ} {c : Copy} (s : ℕ)
      → Cells S T o c s
      → Boundary S o c s
      → ltb s c.next ≡ false
      → Swept c (ok c)
  stopped {o} {c} s cells b stop = record {
    result = c;
    returns = refl;
    orig = o;
    cells = at_end s cells b stop;
    stays = λ y hy z. (z, refl);
  }

  Swept-after : {a c : Copy} {r : Run Copy} → Stays a c → Swept c r → Swept a r
  Swept-after {a} {c} st sw = record {
    result = sw.result;
    returns = sw.returns;
    orig = sw.orig;
    cells = sw.cells;
    stays = Stays-trans a c sw.result st sw.stays;
  }

  -- With as much fuel as there are words left in to-space `do_scan` returns, and all the words that
  -- were copied are scanned.
  pub do_scan-Swept :
      (fuel s : ℕ) {o : ℕ → ℕ} {c : Copy}
      → tl ≤ s + fuel
      → Cells S T o c s
      → Boundary S o c s
      → Swept c (do_scan fs fl fuel s c)
  unfolding do_scan
  do_scan-Swept zero s {o} {c} enough cells b =
      let stop : ltb s c.next ≡ false = ground (arith, cells.inv.room) in
      rw stop (stopped s cells b stop)
  do_scan-Swept (suc fuel) s {o} {c} enough cells b = elim (Bool-cases (ltb s c.next)) [
    | inr stop ↦ rw (stop, do_scan) (stopped s cells b stop)
    | inl more ↦
        let r : s < c.next = ltb→lt s c.next more in
        let round = scan_block-Round s cells r (header b r) in
        rw (more, do_scan)
          (Swept-after round.stays (
            do_scan-Swept fuel (s + (1 + wosize_hd (c.mem s))) (omega arith) round.cells
              round.boundary))
  ]
    where
      header : Boundary S o c s → s < c.next → Header S (o s)
      header (inl e0) r = absurd (omega arith)
      header (inr (_, h)) r = h
