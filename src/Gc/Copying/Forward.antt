-- ===== src/Gc/Copying/Forward.antt =====
-- `forward` of theories/Runtime/gc.c, in its three branches, keeps the invariant of a collection
-- and forwards its word.
use certicoq.Prelude.{
  ℕ, zero, ◌+◌, ◌-◌, ◌≤◌, ◌<◌, ◌≡◌, refl, ◌⊎◌, inl, inr, true, false, arith, ap, ◌∙◌, sym,
  Bool-cases, ◌==◌,
}
use certicoq.Prelude.Int.{pos}
use certicoq.Words.{index, wosize_hd, to_int}
use certicoq.Words.Bounds.{to_int-small}
use certicoq.Memory.{write}
use certicoq.Memory.Laws.{write_self, write_ne}
use certicoq.Gc.{Copy, forward, copy_block}
use certicoq.Gc.Layout.{remaining_agree, points_into}
use certicoq.Gc.Copying.{
  Spaces, Header, size, Good, from_block, WellFormed, InUse, Raw, Scanned, Inv, Step, Done,
}
use certicoq.Gc.Copying.Facts.{
  bounds, Header-of, relocate_block, relocate_other, relocate-not_from, Untouched-of_live,
  Done-Step,
}
use certicoq.Gc.Copying.Block.{block_orig, block-Inv, block-Step, block-Scanned}

module _ (lo hi q : ℕ) (c : Copy) where
  forward_skips : points_into lo hi (c.mem q) ≡ false → forward lo hi zero q c ≡ c
  unfolding forward
  forward_skips h = rw h

  forward_finds :
      points_into lo hi (c.mem q) ≡ true
      → c.mem (index (c.mem q) - 1) ≡ 0
      → forward lo hi zero q c ≡ record c { mem = write c.mem q (c.mem (index (c.mem q))) }
  unfolding forward
  forward_finds h z = rw (h, z)

  forward_copies :
      points_into lo hi (c.mem q) ≡ true
      → (c.mem (index (c.mem q) - 1) == 0) ≡ false
      → forward lo hi zero q c
        ≡ copy_block (to_int (wosize_hd (c.mem (index (c.mem q) - 1)))) q (index (c.mem q)) c
  unfolding forward
  forward_copies h z = rw (h, z)

-- What a forwarding of the word at `q` achieves.
pub record Forwards (S : Spaces) (q : ℕ) (o : ℕ → ℕ) (c c' : Copy) : Type 0 where
  pub orig : ℕ → ℕ
  pub inv : Inv S orig c'
  pub step : Step S q o c orig c'
  pub scanned : Scanned S orig c' q

module _ (S : Spaces) (wf : WellFormed S) (o : ℕ → ℕ) (c : Copy) (inv : Inv S o c) (q : ℕ)
    (use_q : InUse S c q) where
  open S use {m0, fs, fl, e, sizes, p0, tl}

  Step-refl : Step S q o c o c
  Step-refl = record {
    grows = omega arith;
    kept = λ y u ne. refl;
    same = λ y u. refl;
    marks = λ x h z. (z, refl);
    fresh = λ y l r. absurd (omega arith);
    opens = λ r. absurd (omega arith);
  }

  -- The word at `q` is written, and the block that it pointed to had gone already.
  module _ (t : ℕ) where
    abbrev wrote : Copy
    wrote = record c { mem = write c.mem q t }

    from_same : (y : ℕ) → fs ≤ y → y < fl → wrote.mem y ≡ c.mem y
    from_same y l r = write_ne c.mem q t y (omega (arith, use_q.not_from))

    in_block : (x : ℕ) → Header S x → (i : ℕ) → i ≤ size S x → wrote.mem (x + i) ≡ c.mem (x + i)
    in_block x h i le =
        from_same (x + i) (omega (arith, bounds S wf x h))
          (omega (arith, bounds S wf x h, wf.within))

    Header-same : (x : ℕ) → Header S x → wrote.mem x ≡ c.mem x
    Header-same x h =
        from_same x (omega (arith, bounds S wf x h)) (omega (arith, bounds S wf x h, wf.within))

    wrote-Inv : Inv S o wrote
    wrote-Inv = record {
      low = inv.low;
      room = omega (arith, inv.room, remaining_agree c.mem wrote.mem fs sizes Header-same);
      block = λ x h. elim (inv.block x h) [
        | inl f ↦ inl (record {
          marked = Header-same x h ∙ f.marked;
          home = f.home;
          moved = in_block x h 1 (omega (arith, bounds S wf x h)) ∙ f.moved;
          lower = f.lower;
          upper = f.upper;
          copied = f.copied;
        })
        | inr u ↦ inr (λ i le. in_block x h i le ∙ u i le)
      ];
      chain = λ y l r k.
          let w = inv.chain y l r k in
          record { ends = w.ends; copied = w.copied; follows = w.follows };
      outside = inv.outside;
    }

    wrote-Step : Step S q o c o wrote
    wrote-Step = record {
      grows = omega arith;
      kept = λ y u ne. write_ne c.mem q t y ne;
      same = λ y u. refl;
      marks = λ x h z. (Header-same x h ∙ z, in_block x h 1 (omega (arith, bounds S wf x h)));
      fresh = λ y l r. absurd (omega arith);
      opens = λ r. absurd (omega arith);
    }

  -- A scanned word is not a pointer into from-space, so a word that is one is a plain copy.
  Raw-of_block :
      Good S (m0 (o q))
      → Raw S o c q ⊎ Scanned S o c q
      → from_block S (c.mem q) ≡ true
      → Raw S o c q
  Raw-of_block g (inl r) b = r
  Raw-of_block g (inr s) b =
      let not_from = relocate-not_from S wf inv (m0 (o q)) g s.done in
      absurd (Bool-absurd (ap (from_block S) s.value ∙ not_from))
    where
      Bool-absurd : from_block S (c.mem q) ≡ false → ⊥
      Bool-absurd n = cc

  skipped : Raw S o c q ⊎ Scanned S o c q → from_block S (c.mem q) ≡ false → Scanned S o c q
  skipped (inr s) b = s
  skipped (inl r) b = record {
    value = r ∙ sym (relocate_other S wf c.mem (m0 (o q)) (ap (from_block S) (sym r) ∙ b));
    done = λ t. absurd (clash (ap (from_block S) r ∙ t));
  }
    where
      clash : from_block S (c.mem q) ≡ true → ⊥
      clash t = cc

  found :
      Good S (m0 (o q))
      → Raw S o c q
      → from_block S (c.mem q) ≡ true
      → c.mem (index (c.mem q) - 1) ≡ 0
      → Scanned S o (wrote (c.mem (index (c.mem q)))) q
  found g r b z =
      let t = c.mem (index (c.mem q)) in
      let w = m0 (o q) in
      let bw : from_block S w ≡ true = ap (from_block S) (sym r) ∙ b in
      let d : Done S c.mem w = λ _. ap (λ a. c.mem (index a - 1)) (sym r) ∙ z in
      let (d', same) = Done-Step S wf inv (wrote-Step t) w g d in
      record {
        value =
            write_self c.mem q t
            ∙ ap (λ a. c.mem (index a)) r
            ∙ sym (relocate_block S wf c.mem w bw)
            ∙ sym same;
        done = d';
      }

  -- `forward` at depth 0 on a word in use keeps the invariant, and makes the word point to the
  -- copy of what it pointed to.
  pub forward-Forwards :
      Good S (m0 (o q)) → Raw S o c q ⊎ Scanned S o c q → Forwards S q o c (forward fs fl zero q c)
  forward-Forwards g state = elim (Bool-cases (from_block S (c.mem q))) [
    | inr away ↦
        rw (forward_skips fs fl q c away)
          (record { orig = o; inv = inv; step = Step-refl; scanned = skipped state away })
    | inl b ↦ elim (Bool-cases (c.mem (index (c.mem q) - 1) == 0)) [
      | inl gone ↦
          let z : c.mem (index (c.mem q) - 1) ≡ 0 = ground arith in
          rw (forward_finds fs fl q c b z) (record {
            orig = o;
            inv = wrote-Inv _;
            step = wrote-Step _;
            scanned = found g (Raw-of_block g state b) b z;
          })
      | inr live ↦ rw (forward_copies fs fl q c b live) (copies g (Raw-of_block g state b) b live)
    ]
  ]
    where
      copies :
          Good S (m0 (o q))
          → Raw S o c q
          → (b : from_block S (c.mem q) ≡ true) → (c.mem (index (c.mem q) - 1) == 0) ≡ false
          → Forwards S q o c
              (copy_block (to_int (wosize_hd (c.mem (index (c.mem q) - 1)))) q (index (c.mem q)) c)
      copies g r b live =
          let gv : Good S (c.mem q) = rw r g in
          let (x, h, ix) = Header-of S wf (c.mem q) gv b in
          let ih : index (c.mem q) - 1 ≡ x = omega arith in
          let u = Untouched-of_live S wf inv x h (λ z. absurd (nonzero (ap c.mem ih ∙ z) live)) in
          let hd : c.mem (index (c.mem q) - 1) ≡ m0 x =
            ap c.mem {y = x + 0} (omega arith) ∙ u 0 (omega arith) ∙ ap m0 (omega arith) in
          let sz : to_int (wosize_hd (c.mem (index (c.mem q) - 1))) ≡ pos (size S x) =
            ap (λ a. to_int (wosize_hd a)) hd
            ∙ to_int-small (size S x) (omega (arith, bounds S wf x h)) in
          rw (sz, ix)
            (record {
              orig = block_orig S wf o c inv x h u q use_q;
              inv = block-Inv S wf o c inv x h u q use_q;
              step = block-Step S wf o c inv x h u q use_q;
              scanned = block-Scanned S wf o c inv x h u q use_q (c.mem q) ix b (sym r);
            })
        where
          nonzero : c.mem (index (c.mem q) - 1) ≡ 0 → (c.mem (index (c.mem q) - 1) == 0) ≡ false → ⊥
          nonzero z n = ground arith
