-- ===== src/Gc/Generations/Unseen.antt =====
-- A new generation changes nothing that a mutator sees.
use mathlib.Core.Path.{subst}
use certicoq.Prelude.{
  ℕ, suc, ◌-◌, ◌*◌, ◌≤◌, ◌<◌, ◌≡◌, refl, inl, inr, Bool, arith, sym, Option, some, Bool-cases,
}
use certicoq.Words.{index, is_block}
use certicoq.Gc.{max_spaces}
use certicoq.Gc.Heap.{Heap, World}
use certicoq.Gc.Through.Bisim.{
  Alike, plain, object, view_through-eq, follow_through-Both, SameObject-Both,
}
use certicoq.Gc.Generations.{
  points_into_heap, gen_size, MallocOk, Fine, Foreign, HeapInv, SameSight,
}
use certicoq.Gc.Generations.Facts.{header_within}
use certicoq.Gc.Generations.Points.{heap_points-Foreign, heap_points-Inside}
use certicoq.Gc.Generations.Create.{
  heap_more, world_more, HeapInv-more, gens_more, Foreign-more, Inside-here,
}

module _ (malloc : ℕ → ℕ → Option ℕ) (ok : MallocOk malloc) (T : ℕ → Type 0) (i : ℕ) (h : Heap)
    (w : World) (inv : HeapInv malloc T i h w) (last : inv.gens ≡ suc i) (more : suc i < max_spaces)
    (a : ℕ) (given : malloc w.mallocs (gen_size (suc i) * 8) ≡ some a) where
  open inv use {gens, sizes}

  abbrev heap' : Heap
  heap' = heap_more malloc ok T i h w inv last more a given

  abbrev world' : World
  world' = world_more malloc ok T i h w inv last more a given

  abbrev inv' : HeapInv malloc T i heap' world'
  inv' = HeapInv-more malloc ok T i h w inv last more a given

  -- Every word that the heap holds looks as it did.
  Still : ℕ → ℕ → Type 0
  Still v v' = (v' ≡ v) × Fine malloc h gens sizes w.mallocs i v

  pub older :
      (l v : ℕ)
      → i ≤ l
      → Fine malloc h gens sizes w.mallocs l v
      → Fine malloc h gens sizes w.mallocs i v
  older l v le f b = elim (f b) [
    | inr foreign ↦ inr foreign
    | inl ins ↦ inl (record {
      gen = ins.gen;
      above = omega (arith, ins.above);
      created = ins.created;
      past = ins.past;
      header = ins.header;
    })
  ]

  abbrev p : ℕ → Bool
  p v = points_into_heap h max_spaces v

  abbrev p' : ℕ → Bool
  p' v = points_into_heap heap' max_spaces v

  Still-Alike : (v v' : ℕ) → Still v v' → Alike w.mem w.mem p p' Still v v'
  unfolding Still
  Still-Alike v v' (e, f) =
      subst (Alike w.mem w.mem p p' Still v) (sym e) (elim (Bool-cases (is_block v)) [
        | inr n ↦
            plain (heap_points-Foreign malloc T i h w inv v (inl n))
              (heap_points-Foreign malloc T i heap' world' inv' v (inl n)) refl
        | inl b ↦ elim (f b) [
          | inr foreign ↦
              plain (heap_points-Foreign malloc T i h w inv v (inr foreign))
                (heap_points-Foreign malloc T i heap' world' inv' v (
                  inr (
                    subst (λ g. Foreign malloc heap' g world'.mallocs (index v))
                      (sym (gens_more malloc ok T i h w inv last more a given))
                      (Foreign-more malloc ok T i h w inv last more a given (index v) foreign))))
                refl
          | inl ins ↦
              let k =
                header_within malloc T i h w inv ins.gen (index v - 1) ins.created ins.header in
              object (heap_points-Inside malloc T i h w inv i v b ins)
                (heap_points-Inside malloc T i heap' world' inv' i v b
                  (Inside-here malloc ok T i h w inv last more a given i v ins))
                refl (λ n j lt. refl)
                (λ n j lt. (
                  refl,
                  older ins.gen _ ins.above (
                      subst (λ t. Fine malloc h gens sizes w.mallocs ins.gen (w.mem t))
                        (omega (arith, ins.past))
                        (inv.fields ins.gen (index v - 1) ins.created ins.header n j lt)),
                ))
        ]
      ])

  pub SameSight-more : SameSight T w.mem h w.mem heap'
  unfolding Still
  SameSight-more = record {
    views = λ q k t.
        view_through-eq w.mem w.mem p p' Still Still-Alike k (w.mem q) (w.mem q)
          (refl, inv.roots q t);
    objects = λ q r path path' tq tr.
        SameObject-Both w.mem w.mem p p' Still Still-Alike
          (λ u u' v v' ru rv pu pv. rw (ru.0, rv.0) ((λ e. e), λ e. e))
          (follow_through-Both w.mem w.mem p p' Still Still-Alike path (w.mem q) (w.mem q)
            (refl, inv.roots q tq))
          (follow_through-Both w.mem w.mem p p' Still Still-Alike path' (w.mem r) (w.mem r)
            (refl, inv.roots r tr));
  }
