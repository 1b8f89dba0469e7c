-- ===== src/Gc/Copying/Again.antt =====
-- What a finished collection into an empty space has copied can be collected again, into a third
-- space, as `export` of theories/Runtime/gc.c does.
use mathlib.Core.Path.{subst}
use certicoq.Prelude.{
  List, true, ℕ, ◌+◌, ◌-◌, ◌≤◌, ◌<◌, ◌≡◌, ◌⊎◌, inl, inr, false, arith, ap, ◌∙◌, sym, Bool-cases,
}
use certicoq.Words.{index, tag_hd, wosize_hd}
use certicoq.Gc.{is_from, Copy, no_scan}
use certicoq.Gc.Layout.{IsHeader, points_into, points_into-pointer_outside}
use certicoq.Gc.Graph.{view, follow}
use certicoq.Gc.Through.Restrict.{
  view-view_through, view_through-same, follow-follow_through, follow_through-same,
}
use certicoq.Gc.Copying.{Spaces, Header, size, Good, from_block, WellFormed, relocate, Done}
use certicoq.Gc.Copying.Facts.{bounds, relocate_other}
use certicoq.Gc.Copying.Sweep.{Cells}
use certicoq.Gc.Copying.Finish.{Home-of}
use certicoq.Gc.Copying.Chain.{Chain, copies-Chain, copied-Header, copied_field}

-- Nothing that the first collection meets points into the third space.
pub record Avoids (S : Spaces) (p1 t1 : ℕ) : Type 0 where
  pub apart_from : (S.fl ≤ p1) ⊎ (t1 ≤ S.fs)
  pub apart_to : (S.tl ≤ p1) ⊎ (t1 ≤ S.p0)
  pub fields :
      (x : ℕ)
      → Header S x
      → no_scan (tag_hd (S.m0 x)) ≡ false
      → (i : ℕ) → i < size S x
      → points_into p1 t1 (S.m0 (x + 1 + i)) ≡ false

module _ (S : Spaces) (wf : WellFormed S) (T : ℕ → Type 0) (o : ℕ → ℕ) (c : Copy)
    (cells : Cells S T o c c.next) (p1 t1 : ℕ) (avoids : Avoids S p1 t1)
    (fits : p1 + (c.next - S.p0) ≤ t1) where
  open S use {m0, fs, fl, e, sizes, p0, tl}

  abbrev chain : Chain S wf T o c cells p0
  chain = copies-Chain S wf T o c cells

  -- The second collection.
  abbrev pub S' : Spaces
  S' = record { m0 = c.mem; fs = p0; fl = tl; e = c.next; sizes = chain.copies; p0 = p1; tl = t1 }

  pub relocate-Good :
      (v : ℕ)
      → Good S v
      → Done S c.mem v
      → points_into p1 t1 v ≡ false
      → Good S' (relocate S c.mem v)
  relocate-Good v g d n = elim (Bool-cases (from_block S v)) [
    | inr other ↦ rw (relocate_other S wf c.mem v other) (record {
      block = λ b. let free = g.not_free in absurd (let clash : ⊥ = cc in clash);
      not_free = n;
    })
    | inl b ↦
        let hm = Home-of S wf T o c cells v g d b in
        let copied : Header S (o hm.home) =
          subst (Header S) {x = hm.x}
            (sym (
              ap o {x = hm.home} {y = hm.home + 0} (omega arith)
              ∙ hm.copied 0 (omega arith)
              ∙ omega arith))
            hm.header in
        let there = chain.all hm.home hm.lower (omega (arith, hm.upper)) copied in
        rw hm.relocated (record {
          block = λ _. (
            omega (arith, hm.lower),
            subst (IsHeader p0 chain.copies) {x = hm.home} (omega arith) there,
          );
          not_free = points_into-pointer_outside p1 t1 (hm.home + 1) (
              omega (
                arith,
                avoids.apart_to,
                hm.lower,
                hm.upper,
                bounds S wf hm.x hm.header,
                cells.inv.room,
              ));
        })
  ]

  copy_field-Good :
      (x : ℕ)
      → IsHeader p0 chain.copies x
      → no_scan (tag_hd (c.mem x)) ≡ false
      → (i : ℕ) → i < wosize_hd (c.mem x)
      → Good S' (c.mem (x + 1 + i))
  copy_field-Good x k scan i lt =
      let (hx, low, high) = chain.original x k in
      let hd = copied-Header S wf T o c cells x low high hx in
      let scan' = ap (λ t. no_scan (tag_hd t)) (sym hd) ∙ scan in
      let lt' : i < size S (o x) = omega (arith, ap wosize_hd hd) in
      let (field, at) = copied_field S wf T o c cells x low high hx scan' i lt' in
      subst (Good S') (sym (field.value ∙ ap (λ y. relocate S c.mem (m0 y)) at)) (
        relocate-Good (m0 (o x + 1 + i)) (wf.fields (o x) hx scan' i lt')
          (subst (λ y. Done S c.mem (m0 y)) at field.done) (avoids.fields (o x) hx scan' i lt'))

  -- The copies are well formed for the second collection.
  pub again-WellFormed : WellFormed S'
  again-WellFormed = record {
    blocks = chain.blocks;
    within = omega (arith, cells.inv.room);
    apart = avoids.apart_to;
    fits = fits;
    fields = copy_field-Good;
  }

  -- So are the roots, where they point.
  pub again-Good : (q : ℕ) → T q → points_into p1 t1 (m0 q) ≡ false → Good S' (c.mem q)
  again-Good q t n =
      let r = cells.roots q t in
      let (out, good) = cells.good q t in
      let own : o q ≡ q = cells.inv.outside q out.1 in
      subst (Good S') (sym (r.value ∙ ap (λ y. relocate S c.mem (m0 y)) own))
        (relocate-Good (m0 q) good (subst (λ y. Done S c.mem (m0 y)) own r.done) n)

inside_used :
    (lo top hi v : ℕ) → points_into lo hi v ≡ true → index v < top → points_into lo top v ≡ true
unfolding is_from
inside_used lo top hi v b lt = ground arith

outside_used :
    (lo top hi v : ℕ) → top ≤ hi → points_into lo hi v ≡ false → points_into lo top v ≡ false
unfolding is_from
outside_used lo top hi v le n = ground arith

-- In a space that is well formed nothing points past the words in use, so that the free words may be
-- counted to the space or not.
module _ (S : Spaces) (wf : WellFormed S) where
  open S use {m0, fs, fl, e}

  used_agree : (v : ℕ) → Good S v → points_into fs e v ≡ points_into fs fl v
  used_agree v good = elim (Bool-cases (from_block S v)) [
    | inl b ↦
        let (above, h) = good.block b in
        inside_used fs e fl v b (omega (arith, bounds S wf (index v - 1) h)) ∙ sym b
    | inr n ↦ outside_used fs e fl v wf.within n ∙ sym n
  ]

  used_fields :
      (v : ℕ)
      → Good S v
      → points_into fs fl v ≡ true
      → no_scan (tag_hd (m0 (index v - 1))) ≡ false
      → (i : ℕ) → i < wosize_hd (m0 (index v - 1))
      → Good S (m0 (index v + i))
  used_fields v good b scan i lt =
      let (above, h) = good.block b in
      subst (λ y. Good S (m0 y)) {x = index v - 1 + 1 + i} (omega arith)
        (wf.fields (index v - 1) h scan i lt)

  pub view-used : (k v : ℕ) → Good S v → view k m0 fs e v ≡ view k m0 fs fl v
  view-used k v good =
      view-view_through k m0 fs e v
      ∙ view_through-same m0 (points_into fs fl) (points_into fs e) (Good S) used_agree used_fields
          k v good
      ∙ sym (view-view_through k m0 fs fl v)

  pub follow-used :
      (path : List ℕ) (v : ℕ) → Good S v → follow m0 fs e path v ≡ follow m0 fs fl path v
  follow-used path v good =
      follow-follow_through m0 fs e path v
      ∙ follow_through-same m0 (points_into fs fl) (points_into fs e) (Good S) used_agree
          used_fields path v good
      ∙ sym (follow-follow_through m0 fs fl path v)
