-- ===== src/Gc/Generations/Sample.antt =====
-- A heap with a nursery alone, and a `malloc`, for the theorems on whole heaps.
use certicoq.Prelude.{
  ℕ, zero, suc, ◌+◌, ◌*◌, ◌^◌, ◌≤◌, ◌<◌, ◌≡◌, ◌≢◌, refl, ◌⊎◌, inl, inr, false, arith, Option, none,
  some, List, [], ◌∷◌, ltb, ◌==◌, if◌then◌else◌,
}
use certicoq.Words.{is_block, wosize_hd, tag_hd}
use certicoq.Memory.{Mem}
use certicoq.Gc.{no_scan}
use certicoq.Gc.Heap.{Heap, World, no_space_yet}
use certicoq.Gc.Layout.{IsHeader}
use certicoq.Gc.Generations.{gen_size, MallocOk, Unborn, Fine, HeapInv}
use certicoq.Gc.Generations.Nursery.{mutator_heap}

-- Areas that are 2 ^ 40 words apart, for requests of less than 2 ^ 35 bytes.
abbrev pub areas : ℕ → ℕ → Option ℕ
areas call bytes = if ltb bytes (2 ^ 35) then some (2 ^ 40 * (call + 1)) else none

area : (call bytes p : ℕ) → areas call bytes ≡ some p → (p ≡ 2 ^ 40 * (call + 1)) × (bytes < 2 ^ 35)
area call bytes p e = ground arith

pub areas-MallocOk : MallocOk areas
areas-MallocOk = record {
  not_null = λ call bytes p e. omega (arith, area call bytes p e);
  apart = λ call bytes p call' bytes' p' lt e e'.
      omega (arith, area call bytes p e, area call' bytes' p' e');
}

pub areas_give : (call bytes : ℕ) → bytes ≤ 2 ^ 30 → areas call bytes ≢ none
areas_give call bytes le = ground arith

-- Two blocks that point to each other, at 10 and at 13, and two roots in args (at 100000) that point
-- to the first.
abbrev pub sample : Mem
sample a =
    if a == 10
    then 2 * 1024
    else if a == 11
    then 8 * 14
    else if a == 12
    then 7
    else if a == 13
    then 2 * 1024 + 1
    else if a == 14
    then 8 * 11
    else if a == 15
    then 5
    else if a == 100001
    then 8 * 11
    else if a == 100003
    then 8 * 11
    else 1

abbrev pub sample_heap : Heap
sample_heap = record {
  spaces = λ i. if i == 0 then record { start = 10; next = 10; limit = 65546 } else no_space_yet;
}

abbrev pub sample_world : World
sample_world = record { mem = sample; mallocs = 3 }

abbrev used_heap : Heap
used_heap = mutator_heap sample_heap 16

abbrev block_sizes : ℕ → List ℕ
block_sizes j = if j == 0 then 2 ∷ 2 ∷ [] else []

only : (P : ℕ → Type 0) → P 0 → (j : ℕ) → j < 1 → P j
only P p zero lt = p
only P p (suc j) lt = absurd (omega arith)

sample-Unborn : (y : ℕ) → y < 2 ^ 40 → Unborn areas 3 y
sample-Unborn y lt call bytes p le e = omega (arith, area call bytes p e)

first : Fine areas used_heap 1 block_sizes 3 0 (8 * 11)
first b = inl (record {
  gen = 0;
  above = omega arith;
  created = omega arith;
  past = omega arith;
  header = inl refl;
})

second : Fine areas used_heap 1 block_sizes 3 0 (8 * 14)
second b = inl (record {
  gen = 0;
  above = omega arith;
  created = omega arith;
  past = omega arith;
  header = inr (inl refl);
})

too_large : {i : ℕ} → suc (suc i) < 2 → ⊥
too_large h = omega arith

block_fields :
    (x : ℕ)
    → IsHeader 10 (2 ∷ 2 ∷ []) x
    → (k : ℕ) → k < wosize_hd (sample x)
    → Fine areas used_heap 1 block_sizes 3 0 (sample (x + 1 + k))
unfolding wosize_hd is_block
block_fields x (inl e) zero lt = rw e second
block_fields x (inl e) (suc zero) lt = rw e λ b. cc
block_fields x (inl e) (suc (suc i)) lt = absurd (too_large (rw e at lt))
block_fields x (inr (inl e)) zero lt = rw e first
block_fields x (inr (inl e)) (suc zero) lt = rw e λ b. cc
block_fields x (inr (inl e)) (suc (suc i)) lt = absurd (too_large (rw e at lt))
block_fields x (inr (inr h)) k lt = absurd h

-- For roots at 100001 and 100003.
pub sample-HeapInv :
    (T : ℕ → Type 0)
    → ((q : ℕ) → T q → (q ≡ 100001) ⊎ (q ≡ 100003))
    → HeapInv areas T 0 used_heap sample_world
unfolding wosize_hd gen_size
sample-HeapInv T at = record {
  gens = 1;
  sizes = block_sizes;
  most = omega arith;
  reached = omega arith;
  created = only _ (omega arith);
  others = λ j le. ground arith;
  extent = only _ refl;
  low = only _ (omega arith);
  high = only _ (omega arith);
  apart = λ j l cj cl n. absurd (omega arith);
  unborn = λ j y cj.
      only (λ j. (used_heap.spaces j).start ≤ y → y < (used_heap.spaces j).limit → Unborn areas 3 y)
        (λ le lt. sample-Unborn y (omega arith)) j cj;
  blocks = only _ (refl, omega arith, omega arith, (refl, omega arith, omega arith, refl));
  fields = λ j x cj.
      only
        (λ j.
          IsHeader (used_heap.spaces j).start (block_sizes j) x
          → no_scan (tag_hd (sample x)) ≡ false
          → (k : ℕ) → k < wosize_hd (sample x)
          → Fine areas used_heap 1 block_sizes 3 j (sample (x + 1 + k)))
        (λ hd n k lt. block_fields x hd k lt) j cj;
  empty = λ j lt. absurd (omega arith);
  room = λ j lt n. absurd (omega arith);
  roots_at = λ q t. record {
    apart = only _ (omega (arith, at q t));
    unborn = sample-Unborn q (omega (arith, at q t));
  };
  roots = λ q t. elim (at q t) [ inl e ↦ rw e first | inr e ↦ rw e first ];
}

pub sample_gens :
    (T : ℕ → Type 0) (at : (q : ℕ) → T q → (q ≡ 100001) ⊎ (q ≡ 100003))
    → (sample-HeapInv T at).gens ≡ 1
unfolding sample-HeapInv
sample_gens T at = refl

-- The root's word, and one that is no pointer.
pub sample_value :
    (T : ℕ → Type 0) (at : (q : ℕ) → T q → (q ≡ 100001) ⊎ (q ≡ 100003))
    → Fine areas
        (mutator_heap sample_heap 16)
        (sample-HeapInv T at).gens
        (sample-HeapInv T at).sizes
        3
        0
        (8 * 11)
unfolding sample-HeapInv
sample_value T at = first

pub no_pointer-Fine :
    (g : ℕ) (sizes : ℕ → List ℕ) → Fine areas (mutator_heap sample_heap 16) g sizes 3 0 7
unfolding is_block
no_pointer-Fine g sizes b = cc
