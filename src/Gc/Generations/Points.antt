-- ===== src/Gc/Generations/Points.antt =====
-- Which words point into a generation of a heap that satisfies the invariant.
use mathlib.Core.Path.{subst}
use certicoq.Prelude.{
  ℕ, zero, suc, ◌-◌, ◌≤◌, ◌<◌, ◌≡◌, refl, ◌⊎◌, inl, inr, true, Bool, false, arith, sym, Option,
  Bool-cases, ◌==◌, ltb, ltb→lt,
}
use certicoq.Words.{index, is_block}
use certicoq.Gc.{Space, is_from, max_spaces}
use certicoq.Gc.Heap.{Heap, World}
use certicoq.Gc.Layout.{points_into}
use certicoq.Gc.Generations.{points_into_heap, Foreign, Inside, HeapInv}
use certicoq.Gc.Generations.Facts.{header_within}
use certicoq.Gc.Generations.Step.{points_into_between}

pub points_into_beyond :
    (lo hi v : ℕ)
    → (is_block v ≡ false) ⊎ (index v < lo) ⊎ (hi ≤ index v)
    → points_into lo hi v ≡ false
unfolding is_from
points_into_beyond lo hi v o = ground arith

pub heap_points_true :
    (h : Heap) (n l v : ℕ)
    → l < n
    → points_into (h.spaces l).start (h.spaces l).limit v ≡ true
    → points_into_heap h n v ≡ true
unfolding points_into_heap
heap_points_true h zero l v lt t = absurd (omega arith)
heap_points_true h (suc n) l v lt t =
    elim (Bool-cases (points_into (h.spaces n).start (h.spaces n).limit v)) [
      | inl here ↦ rw here refl
      | inr not_here ↦ rw not_here (heap_points_true h n l v (earlier not_here) t)
    ]
  where
    earlier : points_into (h.spaces n).start (h.spaces n).limit v ≡ false → l < n
    earlier none_here = elim (Bool-cases (l == n)) [
      | inr ne ↦ ground arith
      | inl e ↦
          let same : n ≡ l = ground arith in
          let there =
            subst (λ a. points_into (h.spaces a).start (h.spaces a).limit v ≡ false) same
              none_here in
          absurd (differ t there)
    ]
      where
        differ : {b : Bool} → b ≡ true → b ≡ false → ⊥
        differ x y = cc

heap_points_false :
    (h : Heap) (n v : ℕ)
    → ((l : ℕ) → l < n → points_into (h.spaces l).start (h.spaces l).limit v ≡ false)
    → points_into_heap h n v ≡ false
unfolding points_into_heap
heap_points_false h zero v f = refl
heap_points_false h (suc n) v f =
    rw (f n (omega arith)) (heap_points_false h n v (λ l lt. f l (omega arith)))

pub heap_points_same :
    (h h' : Heap) (n v : ℕ)
    → ((l : ℕ)
        → ((h'.spaces l).start ≡ (h.spaces l).start) × ((h'.spaces l).limit ≡ (h.spaces l).limit))
    → points_into_heap h' n v ≡ points_into_heap h n v
unfolding points_into_heap
heap_points_same h h' zero v same = refl
heap_points_same h h' (suc n) v same =
    rw ((same n).0, (same n).1, heap_points_same h h' n v same) refl

module _ (malloc : ℕ → ℕ → Option ℕ) (T : ℕ → Type 0) (i : ℕ) (h : Heap) (w : World)
    (inv : HeapInv malloc T i h w) where
  pub heap_points-Inside :
      (j v : ℕ)
      → is_block v ≡ true
      → Inside h inv.gens inv.sizes j v
      → points_into_heap h max_spaces v ≡ true
  heap_points-Inside j v b ins =
      let k = header_within malloc T i h w inv ins.gen (index v - 1) ins.created ins.header in
      heap_points_true h max_spaces ins.gen v (omega (arith, inv.most, ins.created)) (
        points_into_between (h.spaces ins.gen).start (h.spaces ins.gen).limit v b
          (omega (arith, ins.past)) (omega (arith, ins.past, inv.high ins.gen ins.created)))

  pub heap_points-Foreign :
      (v : ℕ)
      → (is_block v ≡ false) ⊎ Foreign malloc h inv.gens w.mallocs (index v)
      → points_into_heap h max_spaces v ≡ false
  heap_points-Foreign v o = heap_points_false h max_spaces v (λ l lt. none_of l o)
    where
      none_of :
          (l : ℕ)
          → (is_block v ≡ false) ⊎ Foreign malloc h inv.gens w.mallocs (index v)
          → points_into (h.spaces l).start (h.spaces l).limit v ≡ false
      none_of l (inl n) = points_into_beyond _ _ v (inl n)
      none_of l (inr f) = elim (Bool-cases (ltb l inv.gens)) [
        | inl old ↦ points_into_beyond _ _ v (inr (f.apart l (ltb→lt _ _ old)))
        | inr later ↦
            subst (λ (t : Space). points_into t.start t.limit v ≡ false)
              (sym (inv.others l (ground arith)))
              (points_into_beyond 0 0 v (inr (inr (omega arith))))
      ]
