-- ===== src/Gc/Generations/Create.antt =====
-- A new generation keeps the invariant of a heap.
use mathlib.Core.Path.{subst}
use certicoq.Prelude.{
  ℕ, zero, suc, ◌+◌, ◌-◌, ◌*◌, ◌≤◌, ◌<◌, ◌≡◌, ◌≢◌, refl, ◌⊎◌, inl, inr, false, arith, ap, ◌∙◌, sym,
  Option, some, List, [], Bool-cases, ◌==◌, ltb, ltb→lt, if◌then◌else◌,
}
use certicoq.Words.{index, wosize_hd, tag_hd}
use certicoq.Gc.{Space, max_spaces, no_scan}
use certicoq.Gc.Heap.{Heap, World, set_space}
use certicoq.Gc.Layout.{IsHeader, Blocks}
use certicoq.Gc.Generations.{gen_size, Unborn, MallocOk, Fine, Foreign, Inside, HeapInv}
use certicoq.Gc.Generations.Facts.{gen_size-suc}

Unborn-later :
    (malloc : ℕ → ℕ → Option ℕ) (calls y : ℕ) → Unborn malloc calls y → Unborn malloc (calls + 1) y
Unborn-later malloc calls y u call bytes a le given = u call bytes a (omega arith) given

pub gen_size_pos : (j : ℕ) → 0 < gen_size j
unfolding gen_size
gen_size_pos zero = omega arith
gen_size_pos (suc j) = omega (arith, gen_size_pos j)

module _ (malloc : ℕ → ℕ → Option ℕ) (ok : MallocOk malloc) (T : ℕ → Type 0) (i : ℕ) (h : Heap)
    (w : World) (inv : HeapInv malloc T i h w) (last : inv.gens ≡ suc i) (more : suc i < max_spaces)
    (a : ℕ) (given : malloc w.mallocs (gen_size (suc i) * 8) ≡ some a) where
  open inv use {gens, sizes}

  abbrev size : ℕ
  size = gen_size (suc i)

  abbrev fresh : Space
  fresh = record { start = a; next = a; limit = a + size }

  abbrev pub heap_more : Heap
  heap_more = set_space h (suc i) fresh

  abbrev pub world_more : World
  world_more = record w { mallocs = w.mallocs + 1 }

  abbrev sizes' : ℕ → List ℕ
  sizes' j = if j == suc i then [] else sizes j

  pub space_new : heap_more.spaces (suc i) ≡ fresh
  space_new = ground arith

  pub space_old : (j : ℕ) → j ≢ suc i → heap_more.spaces j ≡ h.spaces j
  space_old j n = ground arith

  sizes_old : (j : ℕ) → j ≢ suc i → sizes' j ≡ sizes j
  sizes_old j n = ground arith

  sizes_new : sizes' (suc i) ≡ []
  sizes_new = ground arith

  -- A word that no later call gives is not in the new generation.
  not_in_new : (y : ℕ) → Unborn malloc w.mallocs y → (y < a) ⊎ (a + size ≤ y)
  not_in_new y u = omega (arith, u w.mallocs (size * 8) a (omega arith) given)

  new-apart : (j : ℕ) → j < gens → ((h.spaces j).limit ≤ a) ⊎ (a + size ≤ (h.spaces j).start)
  new-apart j cj =
      let pos = gen_size_pos j in
      let first =
        not_in_new (h.spaces j).start
          (inv.unborn j (h.spaces j).start cj (omega arith) (omega (arith, inv.extent j cj))) in
      elim (Bool-cases (ltb (h.spaces j).start a)) [
        | inr after ↦ inr (ground (arith, first))
        | inl before ↦ elim (Bool-cases (ltb a (h.spaces j).limit)) [
          | inr beyond ↦ inl (ground arith)
          | inl within ↦ absurd (
              omega (
                arith,
                not_in_new a
                    (inv.unborn j a cj (omega (arith, ltb→lt _ _ before)) (ltb→lt _ _ within)),
                gen_size_pos (suc i),
              ))
        ]
      ]

  pub Foreign-more :
      (y : ℕ)
      → Foreign malloc h gens w.mallocs y
      → Foreign malloc heap_more (suc gens) (w.mallocs + 1) y
  Foreign-more y f = record { apart = away; unborn = Unborn-later malloc w.mallocs y f.unborn }
    where
      away :
          (l : ℕ)
          → l < suc gens
          → (y < (heap_more.spaces l).start) ⊎ ((heap_more.spaces l).limit ≤ y)
      away l cl = elim (Bool-cases (l == suc i)) [
        | inl e ↦
            let same : suc i ≡ l = ground arith in
            subst (λ t. (y < (heap_more.spaces t).start) ⊎ ((heap_more.spaces t).limit ≤ y)) same
              (subst (λ (t : Space). (y < t.start) ⊎ (t.limit ≤ y)) (sym space_new)
                (not_in_new y f.unborn))
        | inr n ↦
            subst (λ (t : Space). (y < t.start) ⊎ (t.limit ≤ y)) (sym (space_old l (ground arith)))
              (f.apart l (ground (arith, last)))
      ]

  Inside-more : (j v : ℕ) → Inside h gens sizes j v → Inside heap_more (suc gens) sizes' j v
  Inside-more j v ins =
      let n : ins.gen ≢ suc i = omega (arith, ins.created, last) in
      record {
        gen = ins.gen;
        above = ins.above;
        created = omega (arith, ins.created);
        past = subst (λ (t : Space). t.start < index v) (sym (space_old ins.gen n)) ins.past;
        header =
            subst (λ (t : Space). IsHeader t.start (sizes' ins.gen) (index v - 1))
              (sym (space_old ins.gen n))
              (subst (λ ks. IsHeader (h.spaces ins.gen).start ks (index v - 1))
                (sym (sizes_old ins.gen n)) ins.header);
      }

  Fine-more :
      (j v : ℕ)
      → Fine malloc h gens sizes w.mallocs j v
      → Fine malloc heap_more (suc gens) sizes' (w.mallocs + 1) j v
  Fine-more j v f b = elim (f b) [
    | inl ins ↦ inl (Inside-more j v ins)
    | inr foreign ↦ inr (Foreign-more (index v) foreign)
  ]

  -- What holds of the new generation and of the old ones holds of all.
  each :
      (P : ℕ → Space → List ℕ → Type 0)
      → P (suc i) fresh []
      → ((j : ℕ) → j < gens → P j (h.spaces j) (sizes j))
      → (j : ℕ) → j < suc gens
      → P j (heap_more.spaces j) (sizes' j)
  each P new old j cj = elim (Bool-cases (j == suc i)) [
    | inl e ↦
        let same : suc i ≡ j = ground arith in
        subst (λ t. P t (heap_more.spaces t) (sizes' t)) same
          (subst (λ s. P (suc i) s (sizes' (suc i))) (sym space_new)
            (subst (P (suc i) fresh) (sym sizes_new) new))
    | inr n ↦
        let ne : j ≢ suc i = ground arith in
        subst (λ s. P j s (sizes' j)) (sym (space_old j ne))
          (subst (P j (h.spaces j)) (sym (sizes_old j ne)) (old j (omega (arith, last))))
  ]

  apart-more :
      (j l : ℕ)
      → j < suc gens
      → l < suc gens
      → j ≢ l
      → ((heap_more.spaces j).limit ≤ (heap_more.spaces l).start)
        ⊎ ((heap_more.spaces l).limit ≤ (heap_more.spaces j).start)
  apart-more j l cj cl =
      each
        (λ b s _.
          b ≢ l → (s.limit ≤ (heap_more.spaces l).start) ⊎ ((heap_more.spaces l).limit ≤ s.start))
        (each (λ d t _. suc i ≢ d → (a + size ≤ t.start) ⊎ (t.limit ≤ a)) (λ n. absurd (n refl))
          (λ d cd n. omega (arith, new-apart d cd)) l cl)
        (λ b cb.
          each (λ d t _. b ≢ d → ((h.spaces b).limit ≤ t.start) ⊎ (t.limit ≤ (h.spaces b).start))
            (λ n. omega (arith, new-apart b cb)) (λ d cd n. inv.apart b d cb cd n) l cl)
        j cj

  Unborn-new : (y : ℕ) → a ≤ y → y < a + size → Unborn malloc (w.mallocs + 1) y
  Unborn-new y l u call bytes b le got =
      omega (arith, ok.apart w.mallocs (size * 8) a call bytes b (omega arith) given got)

  pub HeapInv-more : HeapInv malloc T i heap_more world_more
  HeapInv-more = record {
    gens = suc gens;
    sizes = sizes';
    most = omega arith;
    reached = omega (arith, inv.reached);
    created =
        each (λ j s _. s.start ≢ 0) (ok.not_null w.mallocs (size * 8) a given)
          (λ j cj. inv.created j cj);
    others = λ j big. space_old j (omega arith) ∙ inv.others j (omega arith);
    extent = each (λ j s _. s.limit ≡ s.start + gen_size j) refl (λ j cj. inv.extent j cj);
    low = each (λ j s _. s.start ≤ s.next) (omega arith) (λ j cj. inv.low j cj);
    high = each (λ j s _. s.next ≤ s.limit) (omega arith) (λ j cj. inv.high j cj);
    apart = apart-more;
    unborn = λ j y cj.
        each (λ b s _. s.start ≤ y → y < s.limit → Unborn malloc (w.mallocs + 1) y)
          (λ l u. Unborn-new y l u)
          (λ b cb l u. Unborn-later malloc w.mallocs y (inv.unborn b y cb l u)) j cj;
    blocks = each (λ j s ks. Blocks w.mem s.start ks s.next) refl (λ j cj. inv.blocks j cj);
    fields = λ j x cj.
        each
          (λ b s ks.
            IsHeader s.start ks x
            → no_scan (tag_hd (w.mem x)) ≡ false
            → (k : ℕ) → k < wosize_hd (w.mem x)
            → Fine malloc heap_more (suc gens) sizes' (w.mallocs + 1) b (w.mem (x + 1 + k)))
          (λ hd. absurd hd) (λ b cb hd scan k lt. Fine-more b _ (inv.fields b x cb hd scan k lt)) j
          cj;
    empty = λ j young.
        subst (λ (t : Space). t.next ≡ t.start) (sym (space_old j (omega arith)))
          (inv.empty j young);
    room = λ j cj.
        each (λ b s _. (d : ℕ) → b ≡ suc d → b ≢ i → s.next + gen_size d ≤ s.limit)
          (λ d e n.
            let same : i ≡ d = omega arith in omega (arith, ap gen_size same, gen_size-suc i))
          (λ b cb d e n.
            subst (λ t. (h.spaces t).next + gen_size d ≤ (h.spaces t).limit) (sym e)
              (inv.room d (omega arith) (omega arith)))
          (suc j) cj j refl;
    roots_at = λ q t. Foreign-more q (inv.roots_at q t);
    roots = λ q t. Fine-more i (w.mem q) (inv.roots q t);
  }

  pub gens_more : HeapInv-more.gens ≡ suc gens
  unfolding HeapInv-more
  gens_more = refl

  pub Inside-here :
      (j v : ℕ)
      → Inside h gens sizes j v
      → Inside heap_more HeapInv-more.gens HeapInv-more.sizes j v
  unfolding HeapInv-more
  Inside-here j v ins = Inside-more j v ins
