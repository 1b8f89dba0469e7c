-- ===== src/Gc/Generations/Loop.antt =====
-- The loop over the generations: `collect_loop` of theories/Runtime/gc.c within the invariant of a
-- heap.
use mathlib.Core.Path.{subst}
use certicoq.Prelude.{
  ℕ, zero, suc, ◌+◌, ◌^◌, ◌≤◌, ◌<◌, ◌≡◌, refl, ◌⊎◌, inl, inr, true, false, arith, ◌∙◌, sym, Option,
  none, Bool-cases,
}
use certicoq.Memory.{Mem}
use certicoq.Run.{Run, ok, abort, no_space, exhausted, ◌>>=◌}
use certicoq.Gc.{Space, Collected, max_spaces}
use certicoq.Gc.Heap.{Heap, World, diff_le, ensure_space, collect_into_next, collect_loop}
use certicoq.Gc.Copying.Collects.{Collects, Finished}
use certicoq.Gc.Generations.{gen_size, MallocOk, HeapInv}
use certicoq.Gc.Generations.Round.{
  finished, HeapInv-zero, gens_zero, heap', world', inv', collected, collected-Progress, enough,
  enough-room, enough-full, fresh-room, gens_same,
}
use certicoq.Gc.Generations.Ensure.{
  Progress-refl, Progress, Progress-trans, there, refused, ensure_space-Ensured,
}

-- How the loop of a collection ends: with a heap that the mutator can go on with, because `malloc`
-- gave no area for the next generation, or because all generations were there from the start and the
-- last has less room than the one before it has words.
pub data Outcome (malloc : ℕ → ℕ → Option ℕ) (T : ℕ → Type 0) (h : Heap) (w : World) (g : ℕ)
    (r : Run (Heap × World)) : Type 0 where
  done :
      (h' : Heap) (w' : World) (inv' : HeapInv malloc T 0 h' w')
      → (h'.spaces 0).next ≡ (h'.spaces 0).start
      → r ≡ ok (h', w')
      → Progress malloc T h w g h' w' inv'.gens
      → Outcome malloc T h w g r
  without_space :
      (call bytes : ℕ)
      → malloc call bytes ≡ none
      → bytes ≤ 2 ^ 30
      → r ≡ abort no_space
      → Outcome malloc T h w g r
  full :
      (h' : Heap) (w' : World) (inv' : HeapInv malloc T 11 h' w')
      → (h'.spaces 11).limit < (h'.spaces 11).next + gen_size 10
      → g ≡ max_spaces
      → r ≡ abort exhausted
      → Progress malloc T h w g h' w' inv'.gens
      → Outcome malloc T h w g r

Outcome-after :
    (malloc : ℕ → ℕ → Option ℕ) (T : ℕ → Type 0) (h : Heap) (w : World) (g : ℕ) (h1 : Heap)
    (w1 : World) (g1 : ℕ) (r : Run (Heap × World))
    → Progress malloc T h w g h1 w1 g1
    → g1 ≡ g
    → Outcome malloc T h1 w1 g1 r
    → Outcome malloc T h w g r
Outcome-after malloc T h w g h1 w1 g1 r p same (done h' w' inv' z e q) =
    done h' w' inv' z e (Progress-trans p q)
Outcome-after malloc T h w g h1 w1 g1 r p same (without_space call bytes n le e) =
    without_space call bytes n le e
Outcome-after malloc T h w g h1 w1 g1 r p same (full h' w' inv' z all e q) =
    full h' w' inv' z (sym same ∙ all) e (Progress-trans p q)

-- One round of the loop.
module _ (generation : Mem → Space → Space → Run Collected) (malloc : ℕ → ℕ → Option ℕ) (n i : ℕ)
    (h : Heap) (w : World) where
  round_refused :
      ensure_space malloc i h w ≡ abort no_space
      → collect_loop malloc generation (suc n) i h w ≡ abort no_space
  unfolding collect_loop
  round_refused e = rw e refl

  module _ (h1 h2 : Heap) (w1 w2 : World) (e1 : ensure_space malloc i h w ≡ ok (h1, w1))
      (e2 : collect_into_next malloc generation i h1 w1 ≡ ok (h2, w2)) where
    round_ends :
        diff_le
            (h2.spaces i).limit
            (h2.spaces i).start
            (h2.spaces (i + 1)).limit
            (h2.spaces (i + 1)).next
          ≡ true
        → collect_loop malloc generation (suc n) i h w ≡ ok (h2, w2)
    unfolding collect_loop
    round_ends t = rw (e1, e2, ◌>>=◌, t) refl

    round_goes_on :
        diff_le
            (h2.spaces i).limit
            (h2.spaces i).start
            (h2.spaces (i + 1)).limit
            (h2.spaces (i + 1)).next
          ≡ false
        → collect_loop malloc generation (suc n) i h w
          ≡ collect_loop malloc generation n (i + 1) h2 w2
    unfolding collect_loop
    round_goes_on t = rw (e1, e2, ◌>>=◌, t) refl

full_here :
    (malloc : ℕ → ℕ → Option ℕ) (T : ℕ → Type 0) (i : ℕ) (h : Heap) (w : World)
    → 11 ≡ i
    → (inv : HeapInv malloc T i h w) → (h.spaces i).limit < (h.spaces i).next + gen_size 10
    → Outcome malloc T h w inv.gens (abort exhausted)
full_here malloc T i h w e =
    subst
      (λ t.
        (inv : HeapInv malloc T t h w)
        → (h.spaces t).limit < (h.spaces t).next + gen_size 10
        → Outcome malloc T h w inv.gens (abort exhausted))
      e
      (λ inv lt.
        full h w inv lt (omega (arith, inv.most, inv.reached)) refl
          (Progress-refl malloc T h w inv.gens))

module _ (generation : Mem → Space → Space → Run Collected) (malloc : ℕ → ℕ → Option ℕ)
    (mok : MallocOk malloc) (T : ℕ → Type 0) (collects : Collects generation T) where
  -- The outcome of the loop with `n` generations left, from the `i`th on, which has no room for the
  -- one before it.
  Leads : ℕ → Type 0
  Leads n =
      (i : ℕ) (h : Heap) (w : World) (inv : HeapInv malloc T i h w)
      → i + n ≡ 11
      → ((j : ℕ) → i ≡ suc j → (h.spaces i).limit < (h.spaces i).next + gen_size j)
      → Outcome malloc T h w inv.gens (collect_loop malloc generation n i h w)

  module _ (n i : ℕ) (h : Heap) (w : World) (at : i + suc n ≡ 11) (below : Leads n) where
    after :
        (inv : HeapInv malloc T i h w) (h1 : Heap) (w1 : World) (inv1 : HeapInv malloc T i h1 w1)
        (c : suc i < inv1.gens)
        → (inv1.gens ≡ inv.gens) ⊎ ((h1.spaces (suc i)).next ≡ (h1.spaces (suc i)).start)
        → ensure_space malloc i h w ≡ ok (h1, w1)
        → Progress malloc T h w inv.gens h1 w1 inv1.gens
        → Finished generation T w1.mem (h1.spaces i) (h1.spaces (suc i)) (inv1.sizes i)
        → Outcome malloc T h w inv.gens (collect_loop malloc generation (suc n) i h w)
    unfolding Leads
    after inv h1 w1 inv1 c kind e1 p1 fin =
        let h2 = heap' generation malloc T i h1 w1 inv1 c fin in
        let w2 = world' generation malloc T i h1 w1 inv1 c fin in
        let inv2 = inv' generation malloc T i h1 w1 inv1 c fin in
        let e2 = collected generation malloc T i h1 w1 inv1 c fin in
        let p = Progress-trans p1 (collected-Progress generation malloc T i h1 w1 inv1 c fin) in
        elim (Bool-cases (enough malloc T i h2 w2 inv2)) [
          | inl t ↦
              done h2 w2 (HeapInv-zero malloc T i h2 w2 inv2 (enough-room malloc T i h2 w2 inv2 t))
                (inv2.empty 0 (omega arith))
                (round_ends generation malloc n i h w h1 h2 w1 w2 e1 e2 t)
                (subst (Progress malloc T h w inv.gens h2 w2)
                  (sym (gens_zero malloc T i h2 w2 inv2 (enough-room malloc T i h2 w2 inv2 t))) p)
          | inr f ↦
              let short = enough-full malloc T i h2 w2 inv2 f in
              elim kind [
                | inr fresh ↦
                    absurd (
                      omega (arith, short, fresh-room generation malloc T i h1 w1 inv1 c fin fresh))
                | inl same ↦
                    Outcome-after malloc T h w inv.gens h2 w2 inv2.gens _ p
                      (gens_same generation malloc T i h1 w1 inv1 c fin ∙ same)
                      (subst (Outcome malloc T h2 w2 inv2.gens)
                        (sym (round_goes_on generation malloc n i h w h1 h2 w1 w2 e1 e2 f))
                        (subst
                          (λ t.
                            Outcome malloc T h2 w2 inv2.gens
                              (collect_loop malloc generation n t h2 w2))
                          {x = suc i} {y = i + 1} (omega arith)
                          (below (suc i) h2 w2 inv2 (omega arith) (λ j e.
                            subst
                              (λ t.
                                (h2.spaces (suc i)).limit < (h2.spaces (suc i)).next + gen_size t)
                              {x = i} {y = j} (omega arith) short))))
              ]
        ]

  pub collect_loop-Outcome :
      (n i : ℕ) (h : Heap) (w : World) (inv : HeapInv malloc T i h w)
      → i + n ≡ 11
      → ((j : ℕ) → i ≡ suc j → (h.spaces i).limit < (h.spaces i).next + gen_size j)
      → Outcome malloc T h w inv.gens (collect_loop malloc generation n i h w)
  unfolding collect_loop Leads
  collect_loop-Outcome zero i h w inv at tight =
      full_here malloc T i h w (omega arith) inv (tight 10 (omega arith))
  collect_loop-Outcome (suc n) i h w inv at tight =
      elim (ensure_space-Ensured malloc mok T i h w inv (omega arith)) [
        | refused call bytes no_area le e ↦
            without_space call bytes no_area le (round_refused generation malloc n i h w e)
        | there h1 w1 inv1 c kind e1 p1 ↦
            after n i h w at (λ j. collect_loop-Outcome n j) inv h1 w1 inv1 c kind e1 p1
              (finished generation malloc T collects i h1 w1 inv1 c)
      ]
