-- ===== src/Gc/Generations/Fresh.antt =====
-- A collection of the last generation into an area that `malloc` has just given, as in `export` of
-- theories/Runtime/gc.c, and the area for a second one.
use mathlib.Core.Path.{subst}
use certicoq.Prelude.{
  ℕ, suc, ◌+◌, ◌-◌, ◌/◌, ◌≤◌, ◌<◌, ◌≡◌, ◌⊎◌, inl, inr, false, arith, ap, Option, some, Bool-cases,
  ltb, ltb→lt,
}
use certicoq.Words.{index}
use certicoq.Gc.{Space}
use certicoq.Gc.Heap.{Heap, World}
use certicoq.Gc.Layout.{IsHeader, points_into, points_into_bounds}
use certicoq.Gc.Copying.{Spaces, Good, WellFormed}
use certicoq.Gc.Copying.Again.{Avoids}
use certicoq.Gc.Copying.Collects.{collection}
use certicoq.Gc.Copying.Sweep.{Outside}
use certicoq.Gc.Generations.{Fine, HeapInv}
use certicoq.Gc.Generations.Create.{gen_size_pos}
use certicoq.Gc.Generations.Facts.{points-is_block, header_within}

-- The `n` words from `p` on, which a call of `malloc` after the given number of calls gave.
pub record Area (malloc : ℕ → ℕ → Option ℕ) (calls p n : ℕ) : Type 0 where
  pub call : ℕ
  pub bytes : ℕ
  pub given : malloc call bytes ≡ some p
  pub late : calls ≤ call
  pub enough : n ≤ bytes / 8
  pub words : 0 < n

-- Such an area as a space that is empty.
abbrev pub space_of : ℕ → ℕ → Space
space_of p n = record { start = p; next = p; limit = p + n }

module _ (malloc : ℕ → ℕ → Option ℕ) (T : ℕ → Type 0) (i : ℕ) (h : Heap) (w : World)
    (inv : HeapInv malloc T i h w) (last : inv.gens ≡ suc i) where
  open inv use {gens, sizes}

  abbrev sp : Space
  sp = h.spaces i

  module _ (p n : ℕ) (area : Area malloc w.mallocs p n) where
    -- Nothing that the generation may hold points into the area.
    pub clear : (v : ℕ) → Fine malloc h gens sizes w.mallocs i v → points_into p (p + n) v ≡ false
    clear v fine = elim (Bool-cases (points_into p (p + n) v)) [
      | inr no_pointer ↦ no_pointer
      | inl b ↦
          let within = points_into_bounds p (p + n) v b in
          let enough = area.enough in
          absurd (elim (fine (points-is_block p (p + n) v b)) [
            | inr foreign ↦
                omega (arith, foreign.unborn area.call area.bytes p area.late area.given)
            | inl ins ↦
                let here =
                  header_within malloc T i h w inv ins.gen (index v - 1) ins.created ins.header in
                omega (
                  arith,
                  inv.unborn ins.gen (index v) ins.created (omega (arith, ins.past))
                      (omega (arith, inv.high ins.gen ins.created, ins.past)) area.call area.bytes p
                      area.late area.given,
                )
          ])
    ]

    -- The area and a generation share no word.
    pub apart_area : (j : ℕ) → j < gens → ((h.spaces j).limit ≤ p) ⊎ (p + n ≤ (h.spaces j).start)
    apart_area j cj =
        let extent = inv.extent j cj in
        let enough = area.enough in
        let words = area.words in
        elim (Bool-cases (ltb (h.spaces j).start p)) [
          | inr after ↦ inr (
              ground (
                arith,
                inv.unborn j (h.spaces j).start cj (omega arith) (omega (arith, gen_size_pos j))
                    area.call area.bytes p area.late area.given,
              ))
          | inl before ↦ elim (Bool-cases (ltb p (h.spaces j).limit)) [
            | inr beyond ↦ inl (ground arith)
            | inl within ↦ absurd (
                omega (
                  arith,
                  inv.unborn j p cj (omega (arith, ltb→lt _ _ before)) (ltb→lt _ _ within) area.call
                      area.bytes p area.late area.given,
                ))
          ]
        ]

  -- The area has as many words as the generation uses.
  module _ (p : ℕ) (area : Area malloc w.mallocs p (sp.next - sp.start)) where
    abbrev pub first_space : Space
    first_space = space_of p (sp.next - sp.start)

    abbrev pub S : Spaces
    S = collection w.mem sp first_space (sizes i)

    pub Good-fresh : (v : ℕ) → Fine malloc h gens sizes w.mallocs i v → Good S v
    Good-fresh v fine = record {
      block = λ b.
          let within = points_into_bounds sp.start sp.limit v b in
          elim (fine (points-is_block sp.start sp.limit v b)) [
            | inr foreign ↦ absurd (omega (arith, foreign.apart i inv.reached))
            | inl ins ↦
                let same : ins.gen ≡ i = omega (arith, ins.above, ins.created, last) in
                (
                  omega (arith, ap (λ l. (h.spaces l).start) same, ins.past),
                  subst (λ l. IsHeader (h.spaces l).start (sizes l) (index v - 1)) same ins.header,
                )
          ];
      not_free = clear p (sp.next - sp.start) area v fine;
    }

    pub fresh-WellFormed : WellFormed S
    fresh-WellFormed = record {
      blocks = inv.blocks i inv.reached;
      within = inv.high i inv.reached;
      apart = apart_area p (sp.next - sp.start) area i inv.reached;
      fits = omega arith;
      fields = λ x k scan j lt. Good-fresh _ (inv.fields i x inv.reached k scan j lt);
    }

    pub fresh_roots : (q : ℕ) → T q → Outside S q × Good S (w.mem q)
    fresh_roots q t =
        let at = inv.roots_at q t in
        let enough = area.enough in
        (
          (
            at.apart i inv.reached,
            omega (arith, at.unborn area.call area.bytes p area.late area.given),
          ),
          Good-fresh (w.mem q) (inv.roots q t),
        )

    -- A second area, of other words.
    module _ (p' n' : ℕ) (area' : Area malloc w.mallocs p' n')
        (other : (p + (sp.next - sp.start) ≤ p') ⊎ (p' + n' ≤ p)) where
      pub second-Avoids : Avoids S p' (p' + n')
      second-Avoids = record {
        apart_from = apart_area p' n' area' i inv.reached;
        apart_to = other;
        fields = λ x k scan j lt. clear p' n' area' _ (inv.fields i x inv.reached k scan j lt);
      }

      pub second_roots :
          (q : ℕ) → T q → ((q < p') ⊎ (p' + n' ≤ q)) × (points_into p' (p' + n') (w.mem q) ≡ false)
      second_roots q t =
          let at = inv.roots_at q t in
          let enough = area'.enough in
          (
            omega (arith, at.unborn area'.call area'.bytes p' area'.late area'.given),
            clear p' n' area' (w.mem q) (inv.roots q t),
          )
