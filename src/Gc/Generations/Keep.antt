-- ===== src/Gc/Generations/Keep.antt =====
-- One collection within a heap keeps the heap's invariant, for the next older generation.
use certicoq.Prelude.{
  ℕ, suc, ◌≤◌, ◌<◌, ◌≡◌, ◌≢◌, refl, inl, inr, arith, ap, ◌∙◌, sym, Option, Bool-cases, ◌==◌,
}
use certicoq.Memory.{Mem}
use certicoq.Run.{Run}
use certicoq.Gc.{Space, Collected}
use certicoq.Gc.Heap.{Heap, World}
use certicoq.Gc.Copying.Collects.{Finished}
use certicoq.Gc.Generations.{HeapInv}
use certicoq.Gc.Generations.Facts.{gen_size-suc, collection_room}
use certicoq.Gc.Generations.Step
use certicoq.Gc.Generations.Fields

module _ (generation : Mem → Space → Space → Run Collected) (malloc : ℕ → ℕ → Option ℕ)
    (T : ℕ → Type 0) (i : ℕ) (h : Heap) (w : World) (inv : HeapInv malloc T i h w)
    (c : suc i < inv.gens)
    (fin : Finished generation T w.mem (h.spaces i) (h.spaces (suc i)) (inv.sizes i)) where
  open inv use {gens}

  abbrev heap' : Heap
  heap' = Fields.heap' generation malloc T i h w inv c fin

  abbrev world' : World
  world' = Fields.world' generation malloc T i h w inv c fin

  start_same : (j : ℕ) → (heap'.spaces j).start ≡ (h.spaces j).start
  start_same = Step.start_same generation malloc T i h w inv c fin

  limit_same : (j : ℕ) → (heap'.spaces j).limit ≡ (h.spaces j).limit
  limit_same = Step.limit_same generation malloc T i h w inv c fin

  other_space : (j : ℕ) → j ≢ i → j ≢ suc i → heap'.spaces j ≡ h.spaces j
  other_space = Step.other_space generation malloc T i h w inv c fin

  next_kept : (j : ℕ) → j ≢ i → j ≢ suc i → (heap'.spaces j).next ≡ (h.spaces j).next
  next_kept j n n' = ap (λ (t : Space). t.next) (other_space j n n')

  next-to : (j : ℕ) → j ≡ suc i → (heap'.spaces j).next ≡ fin.next
  next-to j e =
      ap (λ (l : ℕ). (heap'.spaces l).next) e
      ∙ ap (λ (t : Space). t.next) (Step.space_to generation malloc T i h w inv c fin)

  next-from : (j : ℕ) → j ≡ i → (heap'.spaces j).next ≡ (h.spaces i).start
  next-from j e =
      ap (λ (l : ℕ). (heap'.spaces l).next) e
      ∙ ap (λ (t : Space). t.next) (Step.space_from generation malloc T i h w inv c fin)

  next_range :
      (j : ℕ)
      → j < gens
      → ((heap'.spaces j).start ≤ (heap'.spaces j).next)
        × ((heap'.spaces j).next ≤ (heap'.spaces j).limit)
  next_range j cj = elim (Fields.gen_cases generation malloc T i h w inv c fin j) [
    | inl e ↦ omega (
      arith,
      next-from j e,
      start_same j,
      limit_same j,
      ap (λ l. (h.spaces l).start) e,
      ap (λ l. (h.spaces l).limit) e,
      inv.low i (omega arith),
      inv.high i (omega arith),
    )
    | inr (inl e) ↦ omega (
      arith,
      next-to j e,
      start_same j,
      limit_same j,
      ap (λ l. (h.spaces l).start) e,
      ap (λ l. (h.spaces l).limit) e,
      fin.cells.low,
      fin.cells.inv.room,
      collection_room malloc T i h w inv c,
      inv.low (suc i) c,
    )
    | inr (inr (n, n')) ↦
        omega (arith, next_kept j n n', start_same j, limit_same j, inv.low j cj, inv.high j cj)
  ]

  pub HeapInv-after : HeapInv malloc T (suc i) heap' world'
  HeapInv-after = record {
    gens = gens;
    sizes = Fields.sizes' generation malloc T i h w inv c fin;
    most = inv.most;
    reached = c;
    created = λ j cj e. inv.created j cj (sym (start_same j) ∙ e);
    others = λ j big. other_space j (omega arith) (omega arith) ∙ inv.others j big;
    extent = λ j cj. omega (arith, inv.extent j cj, start_same j, limit_same j);
    low = λ j cj. (next_range j cj).0;
    high = λ j cj. (next_range j cj).1;
    apart = λ j l cj cl n.
        rw (start_same j, limit_same j, start_same l, limit_same l) (inv.apart j l cj cl n);
    unborn =
        λ j y cj l u. inv.unborn j y cj (omega (arith, start_same j)) (omega (arith, limit_same j));
    blocks = Fields.Blocks-after generation malloc T i h w inv c fin;
    fields = Fields.fields-after generation malloc T i h w inv c fin;
    empty = λ j young. elim (Bool-cases (j == i)) [
      | inl e ↦
          let same : j ≡ i = ground arith in
          omega (arith, next-from j same, start_same j, ap (λ l. (h.spaces l).start) same)
      | inr n ↦
          let ne : j ≢ i = ground arith in
          omega (arith, next_kept j ne (omega arith), start_same j, inv.empty j (omega arith))
    ];
    room = λ j cj ne. elim (Bool-cases (suc j == i)) [
      | inl e ↦
          let same : suc j ≡ i = ground arith in
          omega (
            arith,
            next-from (suc j) same,
            start_same (suc j),
            limit_same (suc j),
            ap (λ l. (h.spaces l).start) same,
            inv.extent (suc j) cj,
            gen_size-suc j,
          )
      | inr n ↦
          let other : suc j ≢ i = ground arith in
          omega (arith, next_kept (suc j) other ne, limit_same (suc j), inv.room j cj other)
    ];
    roots_at = λ q t. Step.Foreign-after generation malloc T i h w inv c fin q (inv.roots_at q t);
    roots = λ q t.
        let (value, done) = Fields.root_moved generation malloc T i h w inv c fin q t in
        rw value
          (Step.Fine-relocate generation malloc T i h w inv c fin (w.mem q) (inv.roots q t) done);
  }

  pub gens_after : HeapInv-after.gens ≡ gens
  unfolding HeapInv-after
  gens_after = refl
