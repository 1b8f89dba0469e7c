-- ===== src/Gc/Generations/Facts.antt =====
-- One collection within a heap: what it starts from.
use mathlib.Core.Path.{subst}
use certicoq.Prelude.{
  ℕ, suc, ◌+◌, ◌-◌, ◌≤◌, ◌<◌, ◌≡◌, inl, inr, true, false, arith, ap, Option, Bool-cases, ◌==◌,
}
use certicoq.Words.{index, is_block, wosize_hd}
use certicoq.Gc.{Space}
use certicoq.Gc.Heap.{Heap, World}
use certicoq.Gc.Layout.{IsHeader, points_into, points_into_bounds, header_bounds}
use certicoq.Gc.Copying.{Spaces, Good, WellFormed}
use certicoq.Gc.Copying.Sweep.{Outside}
use certicoq.Gc.Copying.Collects.{collection}
use certicoq.Gc.Generations.{Fine, HeapInv, gen_size}

pub points-is_block : (lo hi v : ℕ) → points_into lo hi v ≡ true → is_block v ≡ true
points-is_block lo hi v h = ground arith

pub gen_size-suc : (j : ℕ) → gen_size (suc j) ≡ gen_size j + gen_size j
unfolding gen_size
gen_size-suc j = omega arith

module _ (malloc : ℕ → ℕ → Option ℕ) (T : ℕ → Type 0) (i : ℕ) (h : Heap) (w : World)
    (inv : HeapInv malloc T i h w) where
  open inv use {gens, sizes}

  abbrev start : ℕ → ℕ
  start j = (h.spaces j).start

  -- A block of a generation lies in its used part.
  pub header_within :
      (j x : ℕ)
      → j < gens
      → IsHeader (h.spaces j).start (sizes j) x
      → (start j ≤ x)
        × (x + 1 < (h.spaces j).next + 1)
        × (x + 1 + wosize_hd (w.mem x) ≤ (h.spaces j).next)
        × (0 < wosize_hd (w.mem x))
  header_within j x c k =
      let b = header_bounds w.mem (start j) (sizes j) (h.spaces j).next x (inv.blocks j c) k in
      omega arith

  -- Two generations share no word.
  pub same_gen :
      (j l y : ℕ)
      → j < gens
      → l < gens
      → start j ≤ y
      → y < (h.spaces j).limit
      → start l ≤ y
      → y < (h.spaces l).limit
      → j ≡ l
  same_gen j l y cj cl lj hj ll hl = elim (Bool-cases (j == l)) [
    | inl e ↦ ground arith
    | inr ne ↦ absurd (omega (arith, inv.apart j l cj cl (ground arith)))
  ]

  module _ (c : suc i < gens) where
    abbrev pub from : Space
    from = h.spaces i

    abbrev pub to : Space
    to = h.spaces (suc i)

    abbrev pub S : Spaces
    S = collection w.mem from to (sizes i)

    used : from.next ≤ from.start + gen_size i
    used = omega (arith, inv.high i (omega arith), inv.extent i (omega arith))

    pub collection_room : to.next + (from.next - from.start) ≤ to.limit
    collection_room = omega (arith, used, inv.room i c (omega arith))

    pub Good-of_Fine : (v : ℕ) → Fine malloc h gens sizes w.mallocs i v → Good S v
    Good-of_Fine v f = record { block = block; not_free = not_free }
      where
        block :
            points_into from.start from.limit v ≡ true
            → (from.start < index v) × IsHeader from.start (sizes i) (index v - 1)
        block p =
            let b = points_into_bounds from.start from.limit v p in
            elim (f (points-is_block from.start from.limit v p)) [
              | inr foreign ↦ absurd (omega (arith, foreign.apart i (omega arith)))
              | inl ins ↦
                  let hw = header_within ins.gen (index v - 1) ins.created ins.header in
                  let e : ins.gen ≡ i =
                    same_gen ins.gen i (index v) ins.created (omega arith) (omega (arith, ins.past))
                      (omega (arith, inv.high ins.gen ins.created, ins.past)) (omega arith)
                      (omega arith) in
                  (
                    omega (arith, ap (λ l. (h.spaces l).start) e, ins.past),
                    subst (λ l. IsHeader (h.spaces l).start (sizes l) (index v - 1)) e ins.header,
                  )
            ]

        not_free : points_into to.next (to.next + (from.next - from.start)) v ≡ false
        not_free = elim (Bool-cases (points_into to.next (to.next + (from.next - from.start)) v)) [
          | inr n ↦ n
          | inl p ↦
              let b = points_into_bounds to.next (to.next + (from.next - from.start)) v p in
              absurd (elim (f (points-is_block _ _ v p)) [
                | inr foreign ↦
                    omega (arith, foreign.apart (suc i) c, collection_room, inv.low (suc i) c)
                | inl ins ↦
                    let hw = header_within ins.gen (index v - 1) ins.created ins.header in
                    let e : ins.gen ≡ suc i =
                      same_gen ins.gen (suc i) (index v) ins.created c (omega (arith, ins.past))
                        (omega (arith, inv.high ins.gen ins.created, ins.past))
                        (omega (arith, inv.low (suc i) c)) (omega (arith, collection_room)) in
                    omega (arith, ap (λ l. (h.spaces l).next) e, ins.past)
              ])
        ]

    pub collection-WellFormed : WellFormed S
    collection-WellFormed = record {
      blocks = inv.blocks i (omega arith);
      within = inv.high i (omega arith);
      apart = elim (inv.apart i (suc i) (omega arith) c (omega arith)) [
        | inl a ↦ inl (omega (arith, inv.low (suc i) c))
        | inr a ↦ inr (omega (arith, collection_room))
      ];
      fits = omega arith;
      fields = λ x k scan n lt. Good-of_Fine _ (inv.fields i x (omega arith) k scan n lt);
    }

    pub roots-Good : (q : ℕ) → T q → Outside S q × Good S (w.mem q)
    roots-Good q t =
        let at = inv.roots_at q t in
        (
          (
            at.apart i (omega arith),
            omega (arith, at.apart (suc i) c, collection_room, inv.low (suc i) c),
          ),
          Good-of_Fine (w.mem q) (inv.roots q t),
        )
