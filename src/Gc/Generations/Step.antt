-- ===== src/Gc/Generations/Step.antt =====
-- One collection within a heap: a generation into the next keeps the invariant.
use mathlib.Core.Path.{subst}
use certicoq.Prelude.{
  ℕ, suc, ◌+◌, ◌-◌, ◌≤◌, ◌<◌, ◌≡◌, ◌≢◌, inl, inr, true, false, arith, ap, ◌∙◌, sym, Option, List,
  [], ◌++◌, Bool-cases, ◌==◌, if◌then◌else◌,
}
use certicoq.Words.{index, is_block}
use certicoq.Memory.{Mem}
use certicoq.Run.{Run}
use certicoq.Gc.{Space, Copy, Collected, is_from}
use certicoq.Gc.Heap.{Heap, World, set_space}
use certicoq.Gc.Layout.{IsHeader, points_into}
use certicoq.Gc.Layout.Append.{IsHeader-append_left, IsHeader-append_right}
use certicoq.Gc.Copying.{Spaces, Header, from_block, relocate, Done}
use certicoq.Gc.Copying.Facts.{relocate_other}
use certicoq.Gc.Copying.Finish.{Home-of}
use certicoq.Gc.Copying.Chain.{Chain, copies-Chain}
use certicoq.Gc.Copying.Collects.{Finished}
use certicoq.Gc.Generations.{Fine, Foreign, Inside, HeapInv}
use certicoq.Gc.Generations.Facts.{
  header_within, S, collection_room, Good-of_Fine, collection-WellFormed,
}

pub points_into_between :
    (lo hi v : ℕ) → is_block v ≡ true → lo ≤ index v → index v < hi → points_into lo hi v ≡ true
unfolding is_from
points_into_between lo hi v b l h = ground arith

module _ (generation : Mem → Space → Space → Run Collected) (malloc : ℕ → ℕ → Option ℕ)
    (T : ℕ → Type 0) (i : ℕ) (h : Heap) (w : World) (inv : HeapInv malloc T i h w)
    (c : suc i < inv.gens)
    (fin : Finished generation T w.mem (h.spaces i) (h.spaces (suc i)) (inv.sizes i)) where
  open inv use {gens, sizes}

  abbrev pub S0 : Spaces
  S0 = S malloc T i h w inv c

  abbrev pub end : Copy
  end = record { mem = fin.mem; next = fin.next }

  pub chain :
      Chain S0
        (collection-WellFormed malloc T i h w inv c)
        T
        fin.orig
        end
        fin.cells
        (h.spaces (suc i)).next
  chain = copies-Chain S0 (collection-WellFormed malloc T i h w inv c) T fin.orig end fin.cells

  -- The heap and the memory after the collection.
  abbrev pub heap_after : Heap
  heap_after =
      set_space (set_space h i (record (h.spaces i) { next = (h.spaces i).start })) (suc i)
        (record (h.spaces (suc i)) { next = fin.next })

  abbrev pub world_after : World
  world_after = record w { mem = fin.mem }

  abbrev pub sizes_after : ℕ → List ℕ
  sizes_after j =
      if j == i then [] else if j == suc i then sizes (suc i) ++ chain.copies else sizes j

  -- What of a descriptor changes.
  pub start_same : (j : ℕ) → (heap_after.spaces j).start ≡ (h.spaces j).start
  start_same j = ground arith

  pub limit_same : (j : ℕ) → (heap_after.spaces j).limit ≡ (h.spaces j).limit
  limit_same j = ground arith

  pub space_from : heap_after.spaces i ≡ record (h.spaces i) { next = (h.spaces i).start }
  space_from = ground arith

  pub space_to : heap_after.spaces (suc i) ≡ record (h.spaces (suc i)) { next = fin.next }
  space_to = ground arith

  pub other_space : (j : ℕ) → j ≢ i → j ≢ suc i → heap_after.spaces j ≡ h.spaces j
  other_space j n n' = ground arith

  pub sizes_from : sizes_after i ≡ []
  sizes_from = ground arith

  pub sizes_to : sizes_after (suc i) ≡ sizes (suc i) ++ chain.copies
  sizes_to = ground arith

  pub sizes_other : (j : ℕ) → j ≢ i → j ≢ suc i → sizes_after j ≡ sizes j
  sizes_other j n n' = ground arith

  -- The words of the other generations are as they were.
  pub kept_word :
      (j y : ℕ)
      → j < gens
      → j ≢ i
      → (h.spaces j).start ≤ y
      → y < (h.spaces j).next
      → fin.mem y ≡ w.mem y
  kept_word j y cj ne l u =
      fin.cells.frame y
        (
          omega (arith, inv.apart j i cj (omega arith) ne, inv.high j cj),
          elim (Bool-cases (j == suc i)) [
            | inl e ↦
                let same : j ≡ suc i = ground arith in
                inl (omega (arith, ap (λ l. (h.spaces l).next) same))
            | inr other ↦ omega (
              arith,
              inv.apart j (suc i) cj c (ground arith),
              inv.high j cj,
              inv.low (suc i) c,
              collection_room malloc T i h w inv c,
            )
          ],
        )
        (λ t. omega (arith, (inv.roots_at y t).apart j cj, inv.high j cj))

  IsHeader-keep :
      (l x : ℕ)
      → l ≢ i
      → IsHeader (h.spaces l).start (sizes l) x
      → IsHeader (heap_after.spaces l).start (sizes_after l) x
  IsHeader-keep l x ne k = rw (start_same l) (elim (Bool-cases (l == suc i)) [
    | inl e ↦
        let same : suc i ≡ l = ground arith in
        subst (λ t. IsHeader (h.spaces t).start (sizes_after t) x) same
          (rw sizes_to (
            IsHeader-append_left (h.spaces (suc i)).start (sizes (suc i)) chain.copies x
              (subst (λ t. IsHeader (h.spaces t).start (sizes t) x) (sym same) k)))
    | inr other ↦ rw (sizes_other l ne (ground arith)) k
  ])

  IsHeader-new :
      (x : ℕ)
      → IsHeader (h.spaces (suc i)).next chain.copies x
      → IsHeader (heap_after.spaces (suc i)).start (sizes_after (suc i)) x
  IsHeader-new x k =
      rw (start_same (suc i), sizes_to)
        (IsHeader-append_right w.mem (h.spaces (suc i)).start (sizes (suc i)) chain.copies
          (h.spaces (suc i)).next x (inv.blocks (suc i) c) k)

  pub Foreign-after :
      (y : ℕ) → Foreign malloc h gens w.mallocs y → Foreign malloc heap_after gens w.mallocs y
  Foreign-after y f = record {
    apart = λ l cl. rw (start_same l, limit_same l) (f.apart l cl);
    unborn = f.unborn;
  }

  -- What an older generation holds stays as fine as it was.
  pub Fine-after :
      (l v : ℕ)
      → i < l
      → Fine malloc h gens sizes w.mallocs l v
      → Fine malloc heap_after gens sizes_after w.mallocs l v
  Fine-after l v older f b = elim (f b) [
    | inr foreign ↦ inr (Foreign-after (index v) foreign)
    | inl ins ↦ inl (record {
      gen = ins.gen;
      above = ins.above;
      created = ins.created;
      past = rw (start_same ins.gen) ins.past;
      header = IsHeader-keep ins.gen (index v - 1) (omega (arith, ins.above)) ins.header;
    })
  ]

  -- A forwarded word no longer points into the generation that was collected.
  pub Fine-relocate :
      (v : ℕ)
      → Fine malloc h gens sizes w.mallocs i v
      → Done S0 fin.mem v
      → Fine malloc heap_after gens sizes_after w.mallocs (suc i) (relocate S0 fin.mem v)
  Fine-relocate v f d = elim (Bool-cases (from_block S0 v)) [
    | inl b ↦
        let wf = collection-WellFormed malloc T i h w inv c in
        let hm =
          Home-of S0 wf T fin.orig end fin.cells v (Good-of_Fine malloc T i h w inv c v f) d b in
        let copied : Header S0 (fin.orig hm.home) =
          subst (Header S0) {x = hm.x}
            (sym (
              ap fin.orig {x = hm.home} {y = hm.home + 0} (omega arith)
              ∙ hm.copied 0 (omega arith)
              ∙ omega arith))
            hm.header in
        rw hm.relocated λ _. inl (record {
          gen = suc i;
          above = omega arith;
          created = c;
          past = rw (start_same (suc i)) (omega (arith, hm.lower, inv.low (suc i) c));
          header =
              subst (IsHeader (heap_after.spaces (suc i)).start (sizes_after (suc i))) {x = hm.home}
                (omega arith)
                (IsHeader-new hm.home
                  (chain.all hm.home hm.lower (omega (arith, hm.upper)) copied));
        })
    | inr other ↦
        rw (relocate_other S0 (collection-WellFormed malloc T i h w inv c) fin.mem v other) λ b.
          elim (f b) [
            | inr foreign ↦ inr (Foreign-after (index v) foreign)
            | inl ins ↦
                let away : ins.gen ≢ i = λ e. not_from v b other ins e in
                inl (record {
                  gen = ins.gen;
                  above = omega (arith, ins.above);
                  created = ins.created;
                  past = rw (start_same ins.gen) ins.past;
                  header = IsHeader-keep ins.gen (index v - 1) away ins.header;
                })
          ]
  ]
    where
      not_from :
          (v : ℕ)
          → is_block v ≡ true
          → from_block S0 v ≡ false
          → (ins : Inside h gens sizes i v) → ins.gen ≢ i
      not_from v b other ins e =
          let k = header_within malloc T i h w inv ins.gen (index v - 1) ins.created ins.header in
          let into : from_block S0 v ≡ true =
            points_into_between (h.spaces i).start (h.spaces i).limit v b
              (omega (arith, ap (λ l. (h.spaces l).start) e, ins.past))
              (omega (arith, ap (λ l. (h.spaces l).next) e, inv.high i (omega arith), ins.past)) in
          cc
