-- ===== src/Gc/Generations/Alloc.antt =====
-- A mutator that allocates in the nursery keeps the invariant of a heap.
use mathlib.Core.Path.{subst}
use certicoq.Prelude.{
  ℕ, zero, suc, ◌+◌, ◌-◌, ◌^◌, ◌≤◌, ◌<◌, ◌≡◌, ◌≢◌, refl, ◌⊎◌, inl, inr, false, arith, ap, ◌∙◌, sym,
  Option, List, [], ◌∷◌, ◌++◌, Bool-cases, ◌==◌, if◌then◌else◌,
}
use certicoq.Words.{index, pointer, wosize_hd, tag_hd}
use certicoq.Memory.{Mem}
use certicoq.Gc.{Space, no_scan}
use certicoq.Gc.Heap.{Heap, World}
use certicoq.Gc.Layout.{Blocks, IsHeader}
use certicoq.Gc.Layout.Append.{
  Blocks-append, Blocks-agree, IsHeader-append_left, IsHeader-append_right, IsHeader-append_cases,
}
use certicoq.Gc.Generations.{gen_size, Fine, Foreign, HeapInv}
use certicoq.Gc.Generations.Facts.{header_within}
use certicoq.Gc.Generations.Nursery.{mutator_heap}

-- The memory is the same but for a new block of `n` words at `a`.
module _ (malloc : ℕ → ℕ → Option ℕ) (T : ℕ → Type 0) (h : Heap) (a n : ℕ) (w : World) (m' : Mem)
    (inv : HeapInv malloc T 0 (mutator_heap h a) w) (some_words : 0 < n) (small : n < 2 ^ 31)
    (fits : a + 1 + n ≤ (h.spaces 0).limit)
    (same : (y : ℕ) → (y < a) ⊎ (a + 1 + n ≤ y) → m' y ≡ w.mem y) (header : wosize_hd (m' a) ≡ n)
    (words : no_scan (tag_hd (m' a)) ≡ false
      → (k : ℕ) → k < n
      → Fine malloc (mutator_heap h a) inv.gens inv.sizes w.mallocs 0 (m' (a + 1 + k))) where
  open inv use {gens, sizes}

  abbrev H : Heap
  H = mutator_heap h a

  abbrev H' : Heap
  H' = mutator_heap h (a + 1 + n)

  abbrev sizes' : ℕ → List ℕ
  sizes' j = if j == 0 then sizes 0 ++ (n ∷ []) else sizes j

  start_same : (j : ℕ) → (H'.spaces j).start ≡ (H.spaces j).start
  start_same j = ground arith

  limit_same : (j : ℕ) → (H'.spaces j).limit ≡ (H.spaces j).limit
  limit_same j = ground arith

  other : (j : ℕ) → j ≢ 0 → H'.spaces j ≡ H.spaces j
  other j n = ground arith

  sizes_other : (j : ℕ) → j ≢ 0 → sizes' j ≡ sizes j
  sizes_other j n = ground arith

  -- What holds of the nursery and of the other generations holds of all.
  each :
      (P : ℕ → Space → List ℕ → Type 0)
      → P 0 (H'.spaces 0) (sizes' 0)
      → ((j : ℕ) → j ≢ 0 → j < gens → P j (H.spaces j) (sizes j))
      → (j : ℕ) → j < gens
      → P j (H'.spaces j) (sizes' j)
  each P nursery old zero c = nursery
  each P nursery old (suc j) c =
      let ne : suc j ≢ 0 = λ e. omega arith in
      subst (λ s. P (suc j) s (sizes' (suc j))) (sym (other (suc j) ne))
        (subst (P (suc j) (H.spaces (suc j))) (sym (sizes_other (suc j) ne)) (old (suc j) ne c))

  Foreign-alloc : (y : ℕ) → Foreign malloc H gens w.mallocs y → Foreign malloc H' gens w.mallocs y
  Foreign-alloc y f = record {
    apart = λ l cl. rw (start_same l, limit_same l) (f.apart l cl);
    unborn = f.unborn;
  }

  IsHeader-alloc :
      (j x : ℕ)
      → IsHeader (H.spaces j).start (sizes j) x
      → IsHeader (H'.spaces j).start (sizes' j) x
  IsHeader-alloc j x k = rw (start_same j) (elim (Bool-cases (j == 0)) [
    | inl e ↦
        let nursery : 0 ≡ j = ground arith in
        subst (λ t. IsHeader (H.spaces t).start (sizes' t) x) nursery
          (IsHeader-append_left (h.spaces 0).start (sizes 0) (n ∷ []) x
            (subst (λ t. IsHeader (H.spaces t).start (sizes t) x) (sym nursery) k))
    | inr ne ↦ rw (sizes_other j (ground arith)) k
  ])

  Fine-alloc :
      (j v : ℕ) → Fine malloc H gens sizes w.mallocs j v → Fine malloc H' gens sizes' w.mallocs j v
  Fine-alloc j v f b = elim (f b) [
    | inr foreign ↦ inr (Foreign-alloc (index v) foreign)
    | inl ins ↦ inl (record {
      gen = ins.gen;
      above = ins.above;
      created = ins.created;
      past = rw (start_same ins.gen) ins.past;
      header = IsHeader-alloc ins.gen (index v - 1) ins.header;
    })
  ]

  -- The words of blocks that were there are as they were.
  kept : (j y : ℕ) → j < gens → (H.spaces j).start ≤ y → y < (H.spaces j).next → m' y ≡ w.mem y
  kept zero y c l u = same y (inl u)
  kept (suc j) y c l u = same y (
      omega (
        arith,
        inv.apart (suc j) 0 c inv.reached (λ e. omega arith),
        inv.high (suc j) c,
        inv.low 0 inv.reached,
      ))

  old_field :
      (j x : ℕ)
      → j < gens
      → IsHeader (H.spaces j).start (sizes j) x
      → no_scan (tag_hd (m' x)) ≡ false
      → (k : ℕ) → k < wosize_hd (m' x)
      → Fine malloc H' gens sizes' w.mallocs j (m' (x + 1 + k))
  old_field j x c hd scan k lt =
      let b = header_within malloc T 0 H w inv j x c hd in
      let at : m' x ≡ w.mem x = kept j x c (omega arith) (omega arith) in
      let size : wosize_hd (m' x) ≡ wosize_hd (w.mem x) = ap wosize_hd at in
      let word : m' (x + 1 + k) ≡ w.mem (x + 1 + k) =
        kept j (x + 1 + k) c (omega arith) (omega arith) in
      subst (Fine malloc H' gens sizes' w.mallocs j) (sym word) (
        Fine-alloc j _
          (inv.fields j x c hd (sym (ap (λ t. no_scan (tag_hd t)) at) ∙ scan) k (omega arith)))

  new_field :
      (x : ℕ)
      → x ≡ a
      → no_scan (tag_hd (m' x)) ≡ false
      → (k : ℕ) → k < wosize_hd (m' x)
      → Fine malloc H' gens sizes' w.mallocs 0 (m' (x + 1 + k))
  new_field x e scan k lt =
      subst (λ t. Fine malloc H' gens sizes' w.mallocs 0 (m' (t + 1 + k))) (sym e)
        (Fine-alloc 0 _ (
          words (sym (ap (λ t. no_scan (tag_hd (m' t))) e) ∙ scan) k
            (omega (arith, header, ap (λ t. wosize_hd (m' t)) e))))

  root_same : (q : ℕ) → T q → m' q ≡ w.mem q
  root_same q t =
      same q (omega (arith, (inv.roots_at q t).apart 0 inv.reached, inv.low 0 inv.reached))

  HeapInv-alloc : HeapInv malloc T 0 H' (record w { mem = m' })
  HeapInv-alloc = record {
    gens = gens;
    sizes = sizes';
    most = inv.most;
    reached = inv.reached;
    created = λ j c. rw (start_same j) (inv.created j c);
    others = λ j le. other j (omega (arith, inv.reached)) ∙ inv.others j le;
    extent = λ j c. limit_same j ∙ inv.extent j c ∙ omega (arith, start_same j);
    low =
        each (λ j s _. s.start ≤ s.next) (omega (arith, inv.low 0 inv.reached))
          (λ j _ c. inv.low j c);
    high = each (λ j s _. s.next ≤ s.limit) fits (λ j _ c. inv.high j c);
    apart = λ j l cj cl ne.
        rw (start_same j, start_same l, limit_same j, limit_same l) (inv.apart j l cj cl ne);
    unborn =
        λ j y c l u. inv.unborn j y c (omega (arith, start_same j)) (omega (arith, limit_same j));
    blocks = λ j c.
        each (λ j s ks. Blocks m' s.start ks s.next)
          (Blocks-append m' (h.spaces 0).start (sizes 0) (n ∷ []) a (a + 1 + n)
            (Blocks-agree w.mem m' (h.spaces 0).start (sizes 0) a (inv.blocks 0 inv.reached)
              (λ y l u. same y (inl u)))
            (header, some_words, small, refl))
          (λ j _ c. Blocks-agree w.mem m' _ _ _ (inv.blocks j c) (λ y l u. kept j y c l u)) j c;
    fields = λ j x c.
        each
          (λ j s ks.
            IsHeader s.start ks x
            → no_scan (tag_hd (m' x)) ≡ false
            → (k : ℕ) → k < wosize_hd (m' x)
            → Fine malloc H' gens sizes' w.mallocs j (m' (x + 1 + k)))
          (λ hd scan k lt.
            elim (IsHeader-append_cases w.mem (h.spaces 0).start (sizes 0) (n ∷ []) a x
              (inv.blocks 0 inv.reached) hd) [
                | inl old ↦ old_field 0 x inv.reached old scan k lt
                | inr (inl e) ↦ new_field x e scan k lt
                | inr (inr b) ↦ absurd b
              ])
          (λ j _ c hd scan k lt. old_field j x c hd scan k lt) j c;
    empty = λ j lt. absurd (omega arith);
    room = λ j c ne.
        subst (λ (s : Space). s.next + gen_size j ≤ s.limit)
          (sym (other (suc j) (λ e. omega arith))) (inv.room j c ne);
    roots_at = λ q t. Foreign-alloc q (inv.roots_at q t);
    roots = λ q t.
        subst (Fine malloc H' gens sizes' w.mallocs 0) (sym (root_same q t))
          (Fine-alloc 0 _ (inv.roots q t));
  }

  -- A pointer to the new block is one that a root may hold.
  Fine-new : Fine malloc H' gens sizes' w.mallocs 0 (pointer (a + 1))
  Fine-new b = inl (record {
    gen = 0;
    above = omega arith;
    created = inv.reached;
    past = omega (arith, inv.low 0 inv.reached);
    header = subst (IsHeader (h.spaces 0).start (sizes 0 ++ (n ∷ []))) {x = a} (omega arith) (
        IsHeader-append_right w.mem (h.spaces 0).start (sizes 0) (n ∷ []) a a
          (inv.blocks 0 inv.reached) (inl refl));
  })

  -- Both together.
  pub allocated :
      (x : HeapInv malloc T 0 H' (record w { mem = m' })) × Fine malloc H' x.gens x.sizes w.mallocs
        0
        (pointer (a + 1))
  unfolding HeapInv-alloc
  allocated = (HeapInv-alloc, Fine-new)
