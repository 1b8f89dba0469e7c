-- ===== src/Mutator/Alloc.antt =====
-- The allocation of theories/Runtime/gctest.c in a heap that satisfies the collector's invariant.
use mathlib.Core.Path.{subst}
use certicoq.Prelude.{
  ℕ, zero, suc, ◌+◌, ◌*◌, ◌%◌, ◌^◌, ◌≤◌, ◌<◌, ◌≡◌, refl, ◌∙◌, ap, sym, ◌⊎◌, inl, inr, Bool, true,
  false, Bool-cases, ◌-◌, arith, Option, List, [], ◌∷◌, length,
}
use certicoq.Words.{index, is_block, wosize_hd, tag_hd}
use certicoq.Words.Bounds.{header_fields}
use certicoq.Memory.{Mem, write}
use certicoq.Gc.{no_scan, max_spaces}
use certicoq.Gc.Heap.{Heap, World}
use certicoq.Gc.Generations.{points_into_heap, Fine, HeapInv}
use certicoq.Gc.Generations.Points.{heap_points-Foreign}
use certicoq.Gc.Generations.Write.{HeapInv-write}
use certicoq.Gc.Generations.Nursery.{mutator_heap}
use certicoq.Gc.Generations.Alloc.{allocated}
use certicoq.Mutator.{State, store, cons, alloc_value, arg, set_arg, field}

-- A predicate of every word of a list.
abbrev pub Each : (ℕ → Type 0) → List ℕ → Type 0
Each P [] = Unit
Each P (v ∷ ws) = P v × Each P ws

store_outside :
    (p : ℕ) (ws : List ℕ) (m : Mem) (y : ℕ) → (y < p) ⊎ (p + length ws ≤ y) → store p ws m y ≡ m y
unfolding store write
store_outside p [] m y out = refl
store_outside p (a ∷ ws) m y out =
    store_outside (p + 1) ws (write m p a) y (omega (arith, out)) ∙ ground (arith, out)

store_first : (p a : ℕ) (ws : List ℕ) (m : Mem) → store p (a ∷ ws) m p ≡ a
unfolding store write
store_first p a ws m = store_outside (p + 1) ws (write m p a) p (inl (omega arith)) ∙ ground arith

store-Each :
    (P : ℕ → Type 0) (p : ℕ) (ws : List ℕ) (m : Mem)
    → Each P ws
    → (k : ℕ) → k < length ws
    → P (store p ws m (p + k))
unfolding store
store-Each P p [] m e k lt = absurd (omega arith)
store-Each P p (a ∷ ws) m e zero lt =
    subst P (sym (ap (store p (a ∷ ws) m) {x = p + 0} {y = p} (omega arith) ∙ store_first p a ws m))
      e.0
store-Each P p (a ∷ ws) m e (suc k) lt =
    subst (λ t. P (store (p + 1) ws (write m p a) t)) {x = p + 1 + k} {y = p + suc k} (omega arith)
      (store-Each P (p + 1) ws (write m p a) e.1 k (omega arith))

-- Where the collector's invariant holds, the words of a new block are such as a nursery may hold, and
-- the block fits the nursery, the invariant holds after `cons1` to `cons5`, and the value that they
-- return is one that a root may hold.
pub cons-HeapInv :
    (malloc : ℕ → ℕ → Option ℕ) (T : ℕ → Type 0) (h : Heap) (s : State) (c : ℕ) (ws : List ℕ)
    → (inv : HeapInv malloc T 0 (mutator_heap h s.ti.alloc) s.world) → 0 < length ws
    → length ws < 2 ^ 31
    → s.ti.alloc + (length ws + 1) ≤ (h.spaces 0).limit
    → Each (Fine malloc (mutator_heap h s.ti.alloc) inv.gens inv.sizes s.world.mallocs 0) ws
    → (inv' : HeapInv malloc T 0 (mutator_heap h (cons c ws s).ti.alloc) (cons c ws s).world) × Fine
        malloc
        (mutator_heap h (cons c ws s).ti.alloc)
        inv'.gens
        inv'.sizes
        (cons c ws s).world.mallocs
        0
        (alloc_value s)
unfolding cons store
cons-HeapInv malloc T h s c ws inv some_words small fits fine =
    let a = s.ti.alloc in
    let n = length ws in
    let hd = n * 1024 + c % 256 in
    let m' = store a (hd ∷ ws) s.world.mem in
    let same : (y : ℕ) → (y < a) ⊎ (a + 1 + n ≤ y) → m' y ≡ s.world.mem y =
      λ y out. store_outside a (hd ∷ ws) s.world.mem y (omega (arith, out)) in
    let first : m' a ≡ hd = store_first a hd ws s.world.mem in
    let header : wosize_hd (m' a) ≡ n =
      ap wosize_hd first ∙ (header_fields n (c % 256) (omega arith) (omega arith)).0 in
    subst
      (λ e.
        (inv' : HeapInv malloc T 0 (mutator_heap h e) (record s.world { mem = m' })) × Fine malloc
          (mutator_heap h e) inv'.gens inv'.sizes s.world.mallocs 0 (alloc_value s))
      {x = a + 1 + n} {y = a + (n + 1)} (omega arith)
      (allocated malloc T h a n s.world m' inv some_words small (omega arith) same header
        (λ scan k lt. store-Each _ (a + 1) ws (write s.world.mem a hd) fine k lt))

-- A word of a generation is one that the nursery may hold.
young-Fine :
    (malloc : ℕ → ℕ → Option ℕ) (T : ℕ → Type 0) (h : Heap) (w : World)
    (inv : HeapInv malloc T 0 h w) (j v : ℕ)
    → Fine malloc h inv.gens inv.sizes w.mallocs j v
    → Fine malloc h inv.gens inv.sizes w.mallocs 0 v
young-Fine malloc T h w inv j v f b = elim (f b) [
  | inr foreign ↦ inr foreign
  | inl ins ↦ inl (record {
    gen = ins.gen;
    above = omega arith;
    created = ins.created;
    past = ins.past;
    header = ins.header;
  })
]

-- What a scanned block of the heap holds is what the nursery may hold.
field-Fine :
    (malloc : ℕ → ℕ → Option ℕ) (T : ℕ → Type 0) (h : Heap) (w : World)
    (inv : HeapInv malloc T 0 h w) (v k : ℕ)
    → Fine malloc h inv.gens inv.sizes w.mallocs 0 v
    → points_into_heap h max_spaces v ≡ true
    → no_scan (tag_hd (w.mem (index v - 1))) ≡ false
    → k < wosize_hd (w.mem (index v - 1))
    → Fine malloc h inv.gens inv.sizes w.mallocs 0 (w.mem (index v + k))
field-Fine malloc T h w inv v k f into scan lt = elim (Bool-cases (is_block v)) [
  | inr n ↦ absurd (differ into (heap_points-Foreign malloc T 0 h w inv v (inl n)))
  | inl b ↦ elim (f b) [
    | inr foreign ↦ absurd (differ into (heap_points-Foreign malloc T 0 h w inv v (inr foreign)))
    | inl ins ↦ young-Fine malloc T h w inv ins.gen _ (
        subst (λ t. Fine malloc h inv.gens inv.sizes w.mallocs ins.gen (w.mem t))
          {x = index v - 1 + 1 + k} {y = index v + k} (omega (arith, ins.past))
          (inv.fields ins.gen (index v - 1) ins.created ins.header scan k lt))
  ]
]
  where
    differ : {b : Bool} → b ≡ true → b ≡ false → ⊥
    differ x y = cc

-- To load a register from a field of a scanned block of the heap, to which another register points,
-- keeps the collector's invariant.
pub set_arg_field-HeapInv :
    (malloc : ℕ → ℕ → Option ℕ) (T : ℕ → Type 0) (h : Heap) (s : State) (i r k : ℕ)
    → HeapInv malloc T 0 (mutator_heap h s.ti.alloc) s.world
    → T (s.ti.args + i)
    → T (s.ti.args + r)
    → points_into_heap (mutator_heap h s.ti.alloc) max_spaces (arg s r) ≡ true
    → no_scan (tag_hd (s.world.mem (index (arg s r) - 1))) ≡ false
    → k < wosize_hd (s.world.mem (index (arg s r) - 1))
    → HeapInv malloc T 0
        (mutator_heap h (set_arg i (field s (arg s r) k) s).ti.alloc)
        (set_arg i (field s (arg s r) k) s).world
set_arg_field-HeapInv malloc T h s i r k inv to from into scan lt =
    HeapInv-write malloc T (mutator_heap h s.ti.alloc) s.world inv (s.ti.args + i)
      (field s (arg s r) k) to
      (field-Fine malloc T (mutator_heap h s.ti.alloc) s.world inv (arg s r) k
        (inv.roots (s.ti.args + r) from) into scan lt)
