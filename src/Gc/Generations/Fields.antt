-- ===== src/Gc/Generations/Fields.antt =====
-- One collection within a heap: the blocks and their fields afterwards.
use mathlib.Core.Path.{subst}
use certicoq.Prelude.{
  ℕ, suc, ◌+◌, ◌≤◌, ◌<◌, ◌≡◌, ◌≢◌, refl, ◌⊎◌, inl, inr, false, arith, ap, ◌∙◌, sym, Option, List,
  [], ◌++◌, Bool-cases, ◌==◌, ltb, ltb→lt,
}
use certicoq.Words.{wosize_hd, tag_hd}
use certicoq.Memory.{Mem}
use certicoq.Run.{Run}
use certicoq.Gc.{Space, Collected, no_scan}
use certicoq.Gc.Heap.{Heap, World}
use certicoq.Gc.Layout.{Blocks, IsHeader}
use certicoq.Gc.Layout.Append.{Blocks-append, Blocks-agree, IsHeader-append_cases}
use certicoq.Gc.Copying.{Spaces, WellFormed, relocate, Done}
use certicoq.Gc.Copying.Chain.{Chain, copied-Header, copied_field}
use certicoq.Gc.Copying.Collects.{Finished}
use certicoq.Gc.Generations.{Fine, HeapInv}
use certicoq.Gc.Generations.Facts.{header_within, S, collection-WellFormed}
use certicoq.Gc.Generations.Step

module _ (generation : Mem → Space → Space → Run Collected) (malloc : ℕ → ℕ → Option ℕ)
    (T : ℕ → Type 0) (i : ℕ) (h : Heap) (w : World) (inv : HeapInv malloc T i h w)
    (c : suc i < inv.gens)
    (fin : Finished generation T w.mem (h.spaces i) (h.spaces (suc i)) (inv.sizes i)) where
  open inv use {gens, sizes}

  abbrev S0 : Spaces
  S0 = S malloc T i h w inv c

  abbrev wf : WellFormed S0
  wf = collection-WellFormed malloc T i h w inv c

  abbrev pub heap' : Heap
  heap' = Step.heap_after generation malloc T i h w inv c fin

  abbrev pub world' : World
  world' = Step.world_after generation malloc T i h w inv c fin

  abbrev pub sizes' : ℕ → List ℕ
  sizes' = Step.sizes_after generation malloc T i h w inv c fin

  chain :
      Chain S0 wf T fin.orig
        (record { mem = fin.mem; next = fin.next })
        fin.cells
        (h.spaces (suc i)).next
  chain = Step.chain generation malloc T i h w inv c fin

  start_same : (j : ℕ) → (heap'.spaces j).start ≡ (h.spaces j).start
  start_same = Step.start_same generation malloc T i h w inv c fin

  limit_same : (j : ℕ) → (heap'.spaces j).limit ≡ (h.spaces j).limit
  limit_same = Step.limit_same generation malloc T i h w inv c fin

  kept_word :
      (j y : ℕ)
      → j < gens
      → j ≢ i
      → (h.spaces j).start ≤ y
      → y < (h.spaces j).next
      → fin.mem y ≡ w.mem y
  kept_word = Step.kept_word generation malloc T i h w inv c fin

  -- The three kinds of generations.
  pub gen_cases : (j : ℕ) → (j ≡ i) ⊎ ((j ≡ suc i) ⊎ ((j ≢ i) × (j ≢ suc i)))
  gen_cases j = elim (Bool-cases (j == i)) [
    | inl e ↦ inl (ground arith)
    | inr n ↦ elim (Bool-cases (j == suc i)) [
      | inl e ↦ inr (inl (ground arith))
      | inr n' ↦ inr (inr (ground arith))
    ]
  ]

  Blocks-to : Blocks fin.mem (h.spaces (suc i)).start (sizes (suc i) ++ chain.copies) fin.next
  Blocks-to =
      Blocks-append fin.mem (h.spaces (suc i)).start (sizes (suc i)) chain.copies
        (h.spaces (suc i)).next fin.next
        (Blocks-agree w.mem fin.mem (h.spaces (suc i)).start (sizes (suc i)) (h.spaces (suc i)).next
          (inv.blocks (suc i) c) (λ y l u. kept_word (suc i) y c (omega arith) l u))
        chain.blocks

  other_space : (j : ℕ) → j ≢ i → j ≢ suc i → heap'.spaces j ≡ h.spaces j
  other_space = Step.other_space generation malloc T i h w inv c fin

  -- The `j`th generation, with its descriptor and its sizes.
  Blocks-at :
      (j : ℕ) (s : Space) (ns : List ℕ)
      → heap'.spaces j ≡ s
      → sizes' j ≡ ns
      → Blocks fin.mem s.start ns s.next
      → Blocks fin.mem (heap'.spaces j).start (sizes' j) (heap'.spaces j).next
  Blocks-at j s ns es en b =
      subst (λ (t : Space). Blocks fin.mem t.start (sizes' j) t.next) (sym es)
        (subst (λ ks. Blocks fin.mem s.start ks s.next) (sym en) b)

  Header-at :
      (j x : ℕ) (s : Space) (ns : List ℕ)
      → heap'.spaces j ≡ s
      → sizes' j ≡ ns
      → IsHeader (heap'.spaces j).start (sizes' j) x
      → IsHeader s.start ns x
  Header-at j x s ns es en k =
      subst (λ ks. IsHeader s.start ks x) en
        (subst (λ (t : Space). IsHeader t.start (sizes' j) x) es k)

  space_from : heap'.spaces i ≡ record (h.spaces i) { next = (h.spaces i).start }
  space_from = Step.space_from generation malloc T i h w inv c fin

  space_to : heap'.spaces (suc i) ≡ record (h.spaces (suc i)) { next = fin.next }
  space_to = Step.space_to generation malloc T i h w inv c fin

  sizes_from : sizes' i ≡ []
  sizes_from = Step.sizes_from generation malloc T i h w inv c fin

  sizes_to : sizes' (suc i) ≡ sizes (suc i) ++ chain.copies
  unfolding chain
  sizes_to = Step.sizes_to generation malloc T i h w inv c fin

  sizes_other : (j : ℕ) → j ≢ i → j ≢ suc i → sizes' j ≡ sizes j
  sizes_other = Step.sizes_other generation malloc T i h w inv c fin

  pub Blocks-after :
      (j : ℕ) → j < gens → Blocks fin.mem (heap'.spaces j).start (sizes' j) (heap'.spaces j).next
  Blocks-after j cj = elim (gen_cases j) [
    | inl e ↦ Blocks-at j _ [] (ap heap'.spaces e ∙ space_from) (ap sizes' e ∙ sizes_from) refl
    | inr (inl e) ↦
        Blocks-at j _ _ (ap heap'.spaces e ∙ space_to) (ap sizes' e ∙ sizes_to) Blocks-to
    | inr (inr (n, n')) ↦
        Blocks-at j (h.spaces j) (sizes j) (other_space j n n') (sizes_other j n n') (
          Blocks-agree w.mem fin.mem (h.spaces j).start (sizes j) (h.spaces j).next
            (inv.blocks j cj) (λ y l u. kept_word j y cj n l u))
  ]

  -- A field of a block that was not moved.
  field_old :
      (l x : ℕ)
      → l < gens
      → i < l
      → IsHeader (h.spaces l).start (sizes l) x
      → no_scan (tag_hd (fin.mem x)) ≡ false
      → (k : ℕ) → k < wosize_hd (fin.mem x)
      → Fine malloc heap' gens sizes' w.mallocs l (fin.mem (x + 1 + k))
  field_old l x cl older hd scan k lt =
      let b = header_within malloc T i h w inv l x cl hd in
      let same : fin.mem x ≡ w.mem x = kept_word l x cl (omega arith) b.0 (omega arith) in
      let lt' : k < wosize_hd (w.mem x) = omega (arith, ap wosize_hd same) in
      rw (kept_word l (x + 1 + k) cl (omega arith) (omega arith) (omega arith)) (
        Step.Fine-after generation malloc T i h w inv c fin l (w.mem (x + 1 + k)) older
          (inv.fields l x cl hd (ap (λ a. no_scan (tag_hd a)) (sym same) ∙ scan) k lt'))

  -- A field of a copy.
  field_new :
      (x : ℕ)
      → IsHeader (h.spaces (suc i)).next chain.copies x
      → no_scan (tag_hd (fin.mem x)) ≡ false
      → (k : ℕ) → k < wosize_hd (fin.mem x)
      → Fine malloc heap' gens sizes' w.mallocs (suc i) (fin.mem (x + 1 + k))
  field_new x hd scan k lt =
      let (orig, l, u) = chain.original x hd in
      let same : fin.mem x ≡ w.mem (fin.orig x) =
        copied-Header S0 wf T fin.orig _ fin.cells x l u orig in
      let scan' : no_scan (tag_hd (w.mem (fin.orig x))) ≡ false =
        ap (λ a. no_scan (tag_hd a)) (sym same) ∙ scan in
      let lt' : k < wosize_hd (w.mem (fin.orig x)) = omega (arith, ap wosize_hd same) in
      let (s, at) = copied_field S0 wf T fin.orig _ fin.cells x l u orig scan' k lt' in
      let value : fin.mem (x + 1 + k) ≡ relocate S0 fin.mem (w.mem (fin.orig x + 1 + k)) =
        s.value ∙ ap (λ a. relocate S0 fin.mem (w.mem a)) at in
      rw value (
        Step.Fine-relocate generation malloc T i h w inv c fin (w.mem (fin.orig x + 1 + k))
          (inv.fields i (fin.orig x) (omega arith) orig scan' k lt')
          (subst (λ a. Done S0 fin.mem (w.mem a)) at s.done))

  pub fields-after :
      (j x : ℕ)
      → j < gens
      → IsHeader (heap'.spaces j).start (sizes' j) x
      → no_scan (tag_hd (fin.mem x)) ≡ false
      → (k : ℕ) → k < wosize_hd (fin.mem x)
      → Fine malloc heap' gens sizes' w.mallocs j (fin.mem (x + 1 + k))
  fields-after j x cj hd scan k lt = elim (gen_cases j) [
    | inl e ↦
        absurd (Header-at j x _ [] (ap heap'.spaces e ∙ space_from) (ap sizes' e ∙ sizes_from) hd)
    | inr (inl e) ↦
        subst (λ l. Fine malloc heap' gens sizes' w.mallocs l (fin.mem (x + 1 + k))) (sym e)
          (elim (IsHeader-append_cases w.mem (h.spaces (suc i)).start (sizes (suc i)) chain.copies
            (h.spaces (suc i)).next x (inv.blocks (suc i) c)
            (Header-at j x _ _ (ap heap'.spaces e ∙ space_to) (ap sizes' e ∙ sizes_to) hd)) [
              | inl old ↦ field_old (suc i) x c (omega arith) old scan k lt
              | inr new ↦ field_new x new scan k lt
            ])
    | inr (inr (n, n')) ↦
        let old =
          Header-at j x (h.spaces j) (sizes j) (other_space j n n') (sizes_other j n n') hd in
        elim (Bool-cases (ltb j i)) [
          | inl young ↦ absurd (
              omega (
                arith,
                header_within malloc T i h w inv j x cj old,
                inv.empty j (ltb→lt j i young),
              ))
          | inr older ↦ field_old j x cj (ground (arith, n)) old scan k lt
        ]
  ]

  -- A root afterwards.
  pub root_moved :
      (q : ℕ) → T q → (fin.mem q ≡ relocate S0 fin.mem (w.mem q)) × Done S0 fin.mem (w.mem q)
  root_moved q t =
      let s = fin.cells.roots q t in
      let own : fin.orig q ≡ q = fin.cells.inv.outside q (fin.cells.good q t).0.1 in
      (
        s.value ∙ ap (λ a. relocate S0 fin.mem (w.mem a)) own,
        subst (λ a. Done S0 fin.mem (w.mem a)) own s.done,
      )
