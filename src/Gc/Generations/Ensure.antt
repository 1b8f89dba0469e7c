-- ===== src/Gc/Generations/Ensure.antt =====
-- The next generation is created where it does not exist yet: `ensure_space` of
-- theories/Runtime/gc.c within the invariant of a heap.
use mathlib.Core.Path.{subst}
use certicoq.Prelude.{
  ℕ, zero, suc, ◌+◌, ◌-◌, ◌*◌, ◌%◌, ◌^◌, ◌≤◌, ◌<◌, ◌≡◌, refl, ◌⊎◌, inl, inr, true, false, arith, ap,
  ◌∙◌, sym, Option, none, some, Bool-cases, Option-cases, ◌==◌, ltb, ltb→lt,
}
use certicoq.Words.{to_int, unsigned, word_bytes}
use certicoq.Run.{Run, ok, abort, no_space}
use certicoq.Gc.{Space, max_spaces}
use certicoq.Gc.Heap.{Heap, World, pointer_diff, next_size, create_space, ensure_space}
use certicoq.Gc.Generations.{gen_size, MallocOk, Foreign, HeapInv, SameSight}
use certicoq.Gc.Generations.Facts.{gen_size-suc}
use certicoq.Gc.Generations.Unseen.{SameSight-more}
use certicoq.Gc.Generations.Create.{
  heap_more, world_more, HeapInv-more, gens_more, Foreign-more, space_old, space_new,
}

gen_size_le : (k j : ℕ) → gen_size j ≤ gen_size (j + k)
gen_size_le zero j = omega (arith, ap gen_size {x = j + zero} {y = j} (omega arith))
gen_size_le (suc k) j = omega (
  arith,
  ap gen_size {x = j + suc k} {y = suc (j + k)} (omega arith),
  gen_size_le k j,
  gen_size-suc (j + k),
)

-- The largest generation that is created has 2 ^ 27 words.
pub gen_size_bound : (j : ℕ) → j < max_spaces → gen_size j ≤ 134217728
unfolding gen_size
gen_size_bound j lt =
    omega (arith, gen_size_le (11 - j) j, ap gen_size {x = j + (11 - j)} {y = 11} (omega arith))

next_size-extent :
    (malloc : ℕ → ℕ → Option ℕ) (s : Space) (g : ℕ)
    → s.limit ≡ s.start + g
    → g ≤ 67108864
    → next_size malloc s ≡ 2 * g
unfolding next_size to_int unsigned
next_size-extent malloc s g e le =
    let d : pointer_diff s.limit s.start ≡ g = omega arith in rw d (ground arith)

-- From one state of a heap to another, with `g` and `g'` generations: a mutator sees the same, the
-- nursery is where it was, and no word outside the heap changes but the roots.
pub record Progress (malloc : ℕ → ℕ → Option ℕ) (T : ℕ → Type 0) (h : Heap) (w : World) (g : ℕ)
    (h' : Heap) (w' : World) (g' : ℕ) : Type 0 where
  pub sight : SameSight T w.mem h w'.mem h'
  pub base_start : (h'.spaces 0).start ≡ (h.spaces 0).start
  pub base_limit : (h'.spaces 0).limit ≡ (h.spaces 0).limit
  pub foreign : (y : ℕ) → Foreign malloc h g w.mallocs y → Foreign malloc h' g' w'.mallocs y
  pub frame : (y : ℕ) → Foreign malloc h g w.mallocs y → ¬ (T y) → w'.mem y ≡ w.mem y

pub Progress-refl :
    (malloc : ℕ → ℕ → Option ℕ) (T : ℕ → Type 0) (h : Heap) (w : World) (g : ℕ)
    → Progress malloc T h w g h w g
Progress-refl malloc T h w g = record {
  sight = record { views = λ q k t. refl; objects = λ q r path path' tq tr. ((λ e. e), λ e. e) };
  base_start = refl;
  base_limit = refl;
  foreign = λ y f. f;
  frame = λ y f n. refl;
}

pub Progress-trans :
    {malloc : ℕ → ℕ → Option ℕ} {T : ℕ → Type 0} {h h' h'' : Heap} {w w' w'' : World} {g g' g'' : ℕ}
    → Progress malloc T h w g h' w' g'
    → Progress malloc T h' w' g' h'' w'' g''
    → Progress malloc T h w g h'' w'' g''
Progress-trans a b = record {
  sight = record {
    views = λ q k t. b.sight.views q k t ∙ a.sight.views q k t;
    objects = λ q r path path' tq tr.
        let x = a.sight.objects q r path path' tq tr in
        let y = b.sight.objects q r path path' tq tr in ((λ e. y.0 (x.0 e)), λ e. x.1 (y.1 e));
  };
  base_start = b.base_start ∙ a.base_start;
  base_limit = b.base_limit ∙ a.base_limit;
  foreign = λ y f. b.foreign y (a.foreign y f);
  frame = λ y f n. b.frame y (a.foreign y f) n ∙ a.frame y f n;
}

-- What `ensure_space` comes to: the next generation was there, or is there and empty, or `malloc`
-- has refused it.
pub data Ensured (malloc : ℕ → ℕ → Option ℕ) (T : ℕ → Type 0) (i : ℕ) (h : Heap) (w : World) (g : ℕ)
    (r : Run (Heap × World)) : Type 0 where
  there :
      (h' : Heap) (w' : World) (inv' : HeapInv malloc T i h' w')
      → suc i < inv'.gens
      → (inv'.gens ≡ g) ⊎ ((h'.spaces (suc i)).next ≡ (h'.spaces (suc i)).start)
      → r ≡ ok (h', w')
      → Progress malloc T h w g h' w' inv'.gens
      → Ensured malloc T i h w g r
  refused :
      (call bytes : ℕ)
      → malloc call bytes ≡ none
      → bytes ≤ 2 ^ 30
      → r ≡ abort no_space
      → Ensured malloc T i h w g r

module _ (malloc : ℕ → ℕ → Option ℕ) (mok : MallocOk malloc) (T : ℕ → Type 0) (i : ℕ) (h : Heap)
    (w : World) (inv : HeapInv malloc T i h w) (more : suc i < max_spaces) where
  one_more : i + 1 ≡ suc i
  one_more = omega arith

  old_space : suc i < inv.gens → ensure_space malloc i h w ≡ ok (h, w)
  unfolding ensure_space
  old_space c =
      let created : ((h.spaces (suc i)).start == 0) ≡ false =
        ground (arith, inv.created (suc i) c) in
      rw (one_more, created) refl

  module _ (last : inv.gens ≡ suc i) where
    size_next : next_size malloc (h.spaces i) ≡ gen_size (suc i)
    size_next =
        next_size-extent malloc (h.spaces i) (gen_size i) (inv.extent i (omega arith))
          (omega (arith, gen_size_bound (suc i) more, gen_size-suc i))
        ∙ omega (arith, gen_size-suc i)

    bytes : next_size malloc (h.spaces i) * word_bytes % 2 ^ 64 ≡ gen_size (suc i) * 8
    bytes = omega (arith, size_next, gen_size_bound (suc i) more)

    none_yet : ((h.spaces (suc i)).start == 0) ≡ true
    none_yet = rw (inv.others (suc i) (omega arith)) refl

    new_refused :
        malloc w.mallocs (gen_size (suc i) * 8) ≡ none → ensure_space malloc i h w ≡ abort no_space
    unfolding ensure_space create_space
    new_refused no_area = rw (one_more, none_yet, create_space, bytes, no_area) refl

    new_given :
        (a : ℕ) (given : malloc w.mallocs (gen_size (suc i) * 8) ≡ some a)
        → ensure_space malloc i h w
          ≡ ok (
            heap_more malloc mok T i h w inv last more a given,
            world_more malloc mok T i h w inv last more a given,
          )
    unfolding ensure_space create_space
    new_given a given = rw (one_more, none_yet, create_space, bytes, given, size_next) refl

    new_Ensured : Ensured malloc T i h w inv.gens (ensure_space malloc i h w)
    new_Ensured = elim (Option-cases (malloc w.mallocs (gen_size (suc i) * 8))) [
      | inl no_area ↦
          refused _ _ no_area (omega (arith, gen_size_bound (suc i) more)) (new_refused no_area)
      | inr (a, given) ↦
          there _ _ (HeapInv-more malloc mok T i h w inv last more a given)
            (omega (arith, gens_more malloc mok T i h w inv last more a given))
            (inr (rw (space_new malloc mok T i h w inv last more a given) refl)) (new_given a given)
            (record {
              sight = SameSight-more malloc mok T i h w inv last more a given;
              base_start =
                  ap (λ (s : Space). s.start)
                    (space_old malloc mok T i h w inv last more a given 0 (omega arith));
              base_limit =
                  ap (λ (s : Space). s.limit)
                    (space_old malloc mok T i h w inv last more a given 0 (omega arith));
              foreign = λ y f.
                  subst
                    (λ g.
                      Foreign malloc (heap_more malloc mok T i h w inv last more a given) g
                        (w.mallocs + 1) y)
                    (sym (gens_more malloc mok T i h w inv last more a given))
                    (Foreign-more malloc mok T i h w inv last more a given y f);
              frame = λ y f n. refl;
            })
    ]

  pub ensure_space-Ensured : Ensured malloc T i h w inv.gens (ensure_space malloc i h w)
  ensure_space-Ensured = elim (Bool-cases (ltb (suc i) inv.gens)) [
    | inl c ↦
        there h w inv (ltb→lt _ _ c) (inl refl) (old_space (ltb→lt _ _ c))
          (Progress-refl malloc T h w inv.gens)
    | inr n ↦ new_Ensured (ground (arith, inv.reached))
  ]
