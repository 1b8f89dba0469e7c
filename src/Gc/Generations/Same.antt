-- ===== src/Gc/Generations/Same.antt =====
-- One collection within a heap: which words are the same object, and so all that a mutator sees.
use certicoq.Prelude.{
  ℕ, suc, ◌+◌, ◌-◌, ◌<◌, ◌≡◌, ◌≢◌, inl, inr, Bool, true, false, arith, ap, ◌∙◌, sym, Option,
  Bool-cases, ◌↔◌,
}
use certicoq.Words.{index, pointer, is_block}
use certicoq.Memory.{Mem}
use certicoq.Run.{Run}
use certicoq.Gc.{Space, Collected}
use certicoq.Gc.Heap.{Heap, World}
use certicoq.Gc.Layout.{points_into_bounds}
use certicoq.Gc.Through.Bisim.{view_through-eq, follow_through-Both, SameObject-Both}
use certicoq.Gc.Copying.{Spaces, WellFormed, from_block}
use certicoq.Gc.Copying.Facts.{bounds}
use certicoq.Gc.Copying.Finish.{Home-of}
use certicoq.Gc.Copying.Observe.{relocate_same}
use certicoq.Gc.Copying.Collects.{Finished}
use certicoq.Gc.Generations.{Inside, HeapInv, SameSight}
use certicoq.Gc.Generations.Facts.{
  header_within, same_gen, S, collection_room, Good-of_Fine, collection-WellFormed,
}
use certicoq.Gc.Generations.Step.{heap_after, points_into_between}
use certicoq.Gc.Generations.Fields.{root_moved}
use certicoq.Gc.Generations.Look
use certicoq.Gc.Generations.Look.{Moved}
use certicoq.Gc.Generations.Points.{heap_points-Foreign}

differ : {b : Bool} → b ≡ true → b ≡ false → ⊥
differ x y = cc

module _ (generation : Mem → Space → Space → Run Collected) (malloc : ℕ → ℕ → Option ℕ)
    (T : ℕ → Type 0) (i : ℕ) (h : Heap) (w : World) (inv : HeapInv malloc T i h w)
    (c : suc i < inv.gens)
    (fin : Finished generation T w.mem (h.spaces i) (h.spaces (suc i)) (inv.sizes i)) where
  open inv use {gens, sizes}

  abbrev S0 : Spaces
  S0 = S malloc T i h w inv c

  abbrev wf : WellFormed S0
  wf = collection-WellFormed malloc T i h w inv c

  abbrev p : ℕ → Bool
  p = Look.p generation malloc T i h w inv c fin

  abbrev R : ℕ → ℕ → Type 0
  R = Moved generation malloc T i h w inv c fin

  -- A pointer that is followed is one to a block.
  followed : (v v' : ℕ) → R v v' → p v ≡ true → (is_block v ≡ true) × Inside h gens sizes i v
  followed v v' mv on = elim (Bool-cases (is_block v)) [
    | inr n ↦ absurd (differ on (heap_points-Foreign malloc T i h w inv v (inl n)))
    | inl b ↦ elim (mv.fine b) [
      | inl ins ↦ (b, ins)
      | inr f ↦ absurd (differ on (heap_points-Foreign malloc T i h w inv v (inr f)))
    ]
  ]

  -- One pointer into the generation that is collected, and one past it, are apart before and after.
  apart :
      (u u' v v' : ℕ)
      → R u u'
      → R v v'
      → p v ≡ true
      → from_block S0 u ≡ true
      → from_block S0 v ≡ false
      → (index u ≢ index v) × (index u' ≢ index v')
  apart u u' v v' ru rv on fu nv =
      let (b, ins) = followed v v' rv on in
      let k = header_within malloc T i h w inv ins.gen (index v - 1) ins.created ins.header in
      let range = points_into_bounds (h.spaces i).start (h.spaces i).limit u fu in
      let hm =
        Home-of S0 wf T fin.orig _ fin.cells u (Good-of_Fine malloc T i h w inv c u ru.fine) ru.done
          fu in
      let pos = bounds S0 wf hm.x hm.header in
      let stay : v' ≡ v = rv.value ∙ Look.stays generation malloc T i h w inv c fin v nv in
      let to_home : u' ≡ pointer (hm.home + 1) = ru.value ∙ hm.relocated in
      (
        λ e.
            differ
              (points_into_between (h.spaces i).start (h.spaces i).limit v b (omega arith)
                (omega arith))
              nv,
        λ e.
            let at : index v ≡ hm.home + 1 =
              sym (ap index stay) ∙ sym e ∙ ap index to_home ∙ omega arith in
            let low = inv.low (suc i) c in
            let room = collection_room malloc T i h w inv c in
            let here =
              same_gen malloc T i h w inv ins.gen (suc i) (index v) ins.created c
                (omega (arith, ins.past)) (omega (arith, ins.past, inv.high ins.gen ins.created))
                (omega (arith, hm.lower)) (omega (arith, hm.upper, fin.cells.inv.room)) in
            omega (arith, ap (λ l. (h.spaces l).next) here, ins.past, hm.lower),
      )

  one :
      (u u' v v' : ℕ)
      → R u u'
      → R v v'
      → p u ≡ true
      → p v ≡ true
      → (index u ≡ index v) ↔ (index u' ≡ index v')
  one u u' v v' ru rv pu pv = elim (Bool-cases (from_block S0 u)) [
    | inl fu ↦ elim (Bool-cases (from_block S0 v)) [
      | inl fv ↦
          rw (ru.value, rv.value)
            (relocate_same S0 wf T fin.orig _ fin.cells u v
              (Good-of_Fine malloc T i h w inv c u ru.fine) ru.done fu
              (Good-of_Fine malloc T i h w inv c v rv.fine) rv.done fv)
      | inr nv ↦
          let (x, y) = apart u u' v v' ru rv pv fu nv in ((λ e. absurd (x e)), λ e. absurd (y e))
    ]
    | inr nu ↦ elim (Bool-cases (from_block S0 v)) [
      | inl fv ↦
          let (x, y) = apart v v' u u' rv ru pu fv nu in
          ((λ e. absurd (x (sym e))), λ e. absurd (y (sym e)))
      | inr nv ↦
          rw
            (
              ru.value ∙ Look.stays generation malloc T i h w inv c fin u nu,
              rv.value ∙ Look.stays generation malloc T i h w inv c fin v nv,
            )
            ((λ e. e), λ e. e)
    ]
  ]

  root-Moved : (q : ℕ) → T q → R (w.mem q) (fin.mem q)
  root-Moved q t =
      let (value, done) = root_moved generation malloc T i h w inv c fin q t in
      record { fine = inv.roots q t; done = done; value = value }

  pub SameSight-after : SameSight T w.mem h fin.mem (heap_after generation malloc T i h w inv c fin)
  SameSight-after = record {
    views = λ q k t.
        view_through-eq w.mem fin.mem p _ R (Look.Moved-Alike generation malloc T i h w inv c fin) k
          (w.mem q) (fin.mem q) (root-Moved q t);
    objects = λ q r path path' tq tr.
        let look = Look.Moved-Alike generation malloc T i h w inv c fin in
        SameObject-Both w.mem fin.mem p _ R look one
          (follow_through-Both w.mem fin.mem p _ R look path (w.mem q) (fin.mem q)
            (root-Moved q tq))
          (follow_through-Both w.mem fin.mem p _ R look path' (w.mem r) (fin.mem r)
            (root-Moved r tr));
  }
