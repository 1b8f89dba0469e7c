-- ===== src/Gc/Generations/Last.antt =====
-- What a mutator sees when all generations but the last are empty: the last generation alone.
use mathlib.Core.Path.{subst}
use certicoq.Prelude.{
  List, ℕ, suc, ◌+◌, ◌-◌, ◌≤◌, ◌<◌, ◌≡◌, ◌⊎◌, inl, inr, true, false, arith, ap, ◌∙◌, sym, Option,
  Bool-cases,
}
use certicoq.Words.{index, is_block, wosize_hd, tag_hd}
use certicoq.Gc.{max_spaces, no_scan}
use certicoq.Gc.Heap.{Heap, World}
use certicoq.Gc.Layout.{points_into, points_into_bounds, IsHeader}
use certicoq.Gc.Graph.{view, follow}
use certicoq.Gc.Through.Restrict.{
  view-view_through, view_through-same, follow-follow_through, follow_through-same,
}
use certicoq.Gc.Generations.{Fine, Inside, HeapInv, points_into_heap, heap_view, heap_follow}
use certicoq.Gc.Generations.Facts.{points-is_block, header_within}
use certicoq.Gc.Generations.Points.{heap_points-Inside, heap_points-Foreign}
use certicoq.Gc.Generations.Step.{points_into_between}

module _ (malloc : ℕ → ℕ → Option ℕ) (T : ℕ → Type 0) (i : ℕ) (h : Heap) (w : World)
    (inv : HeapInv malloc T i h w) (last : inv.gens ≡ suc i) where
  open inv use {gens, sizes}

  abbrev lo : ℕ
  lo = (h.spaces i).start

  abbrev hi : ℕ
  hi = (h.spaces i).limit

  abbrev Met : ℕ → Type 0
  Met = Fine malloc h gens sizes w.mallocs i

  in_last : (v : ℕ) → (ins : Inside h gens sizes i v) → ins.gen ≡ i
  in_last v ins = omega (arith, ins.above, ins.created, last)

  pub last_block :
      (v : ℕ) → Inside h gens sizes i v → (lo < index v) × IsHeader lo (sizes i) (index v - 1)
  last_block v ins =
      let same = in_last v ins in
      (
        omega (arith, ap (λ l. (h.spaces l).start) same, ins.past),
        subst (λ l. IsHeader (h.spaces l).start (sizes l) (index v - 1)) same ins.header,
      )

  nowhere :
      (v : ℕ)
      → (is_block v ≡ false) ⊎ ((index v < lo) ⊎ (hi ≤ index v))
      → points_into lo hi v ≡ false
  nowhere v out = elim (Bool-cases (points_into lo hi v)) [
    | inr n ↦ n
    | inl b ↦ absurd (elim out [
      | inl n ↦ differ (points-is_block lo hi v b) n
      | inr out ↦ omega (arith, points_into_bounds lo hi v b)
    ])
  ]
    where
      differ : is_block v ≡ true → is_block v ≡ false → ⊥
      differ x y = cc

  -- A word points into the heap if it points into the last generation.
  pub last_agree : (v : ℕ) → Met v → points_into_heap h max_spaces v ≡ points_into lo hi v
  last_agree v met = elim (Bool-cases (is_block v)) [
    | inr n ↦ heap_points-Foreign malloc T i h w inv v (inl n) ∙ sym (nowhere v (inl n))
    | inl b ↦ elim (met b) [
      | inr foreign ↦
          heap_points-Foreign malloc T i h w inv v (inr foreign)
          ∙ sym (nowhere v (inr (foreign.apart i inv.reached)))
      | inl ins ↦
          let (above, k) = last_block v ins in
          let within = header_within malloc T i h w inv i (index v - 1) inv.reached k in
          heap_points-Inside malloc T i h w inv i v b ins
          ∙ sym
              (points_into_between lo hi v b (omega arith) (omega (arith, inv.high i inv.reached)))
    ]
  ]

  last_fields :
      (v : ℕ)
      → Met v
      → points_into lo hi v ≡ true
      → no_scan (tag_hd (w.mem (index v - 1))) ≡ false
      → (j : ℕ) → j < wosize_hd (w.mem (index v - 1))
      → Met (w.mem (index v + j))
  last_fields v met b scan j lt = elim (met (points-is_block lo hi v b)) [
    | inr foreign ↦
        absurd (omega (arith, foreign.apart i inv.reached, points_into_bounds lo hi v b))
    | inl ins ↦
        let (above, k) = last_block v ins in
        subst (λ y. Met (w.mem y)) {x = index v - 1 + 1 + j} (omega arith)
          (inv.fields i (index v - 1) inv.reached k scan j lt)
  ]

  pub last_view : (k v : ℕ) → Met v → heap_view k w.mem h v ≡ view k w.mem lo hi v
  last_view k v met =
      view_through-same w.mem (points_into lo hi) (points_into_heap h max_spaces) Met last_agree
        last_fields k v met
      ∙ sym (view-view_through k w.mem lo hi v)

  pub last_follow :
      (path : List ℕ) (v : ℕ) → Met v → heap_follow w.mem h path v ≡ follow w.mem lo hi path v
  last_follow path v met =
      follow_through-same w.mem (points_into lo hi) (points_into_heap h max_spaces) Met last_agree
        last_fields path v met
      ∙ sym (follow-follow_through w.mem lo hi path v)
