-- ===== src/Gc/Generations/All.antt =====
-- The loop of `garbage_collect_all` of theories/Runtime/gc.c within the invariant of a heap: every
-- generation is emptied into the next, up to the last one that is there.
use mathlib.Core.Path.{fun_ext, subst}
use certicoq.Prelude.{
  ℕ, zero, suc, ◌+◌, ◌-◌, ◌≤◌, ◌⊎◌, ◌<◌, ◌≡◌, ◌≢◌, refl, true, false, arith, ap, ◌∙◌, sym, Option,
  Bool-cases, ◌==◌, ltb, ltb→lt, if◌then◌else◌, inl, inr,
}
use certicoq.Memory.{Mem}
use certicoq.Run.{Run, ok, ◌>>=◌}
use certicoq.Gc.{Space, Collected}
use certicoq.Gc.Heap.{Heap, World, set_space, collect_into_next, collect_all_loop}
use certicoq.Gc.Copying.Collects.{Collects, Finished}
use certicoq.Gc.Generations.{HeapInv, gen_size}
use certicoq.Gc.Generations.Nursery.{mutator_heap}
use certicoq.Gc.Generations.Round.{
  finished, heap', world', inv', collected, collected-Progress, gens_same,
}
use certicoq.Gc.Generations.Ensure.{Progress, Progress-refl, Progress-trans}

-- A heap can be collected again from the nursery on, unless the `i`th generation lacks room for the
-- one before it.
abbrev pub Again : (ℕ → ℕ → Option ℕ) → (ℕ → Type 0) → ℕ → Heap → World → Type 0
Again malloc T i h w =
    HeapInv malloc T 0 h w ⊎ ((0 < i) × ((h.spaces i).limit < (h.spaces i).next + gen_size (i - 1)))

-- The `i`th generation is the last, and all before it are empty.
HeapInv-Again :
    (malloc : ℕ → ℕ → Option ℕ) (T : ℕ → Type 0) (i : ℕ) (h : Heap) (w : World)
    → (inv : HeapInv malloc T i h w) → inv.gens ≡ suc i
    → Again malloc T i h w
HeapInv-Again malloc T zero h w inv last = inl inv
HeapInv-Again malloc T (suc n) h w inv last =
    let i : ℕ = suc n in
    elim (Bool-cases (ltb (h.spaces i).limit ((h.spaces i).next + gen_size (i - 1)))) [
      | inl full ↦ inr (omega arith, ltb→lt _ _ full)
      | inr fits ↦ inl (record {
        gens = inv.gens;
        sizes = inv.sizes;
        most = inv.most;
        reached = omega (arith, last);
        created = inv.created;
        others = inv.others;
        extent = inv.extent;
        low = inv.low;
        high = inv.high;
        apart = inv.apart;
        unborn = inv.unborn;
        blocks = inv.blocks;
        fields = inv.fields;
        empty = λ j lt. absurd (omega arith);
        room = λ j lt n. elim (Bool-cases (suc j == i)) [
          | inr other ↦ inv.room j lt (λ e. ground arith)
          | inl same ↦
              let at : suc j ≡ i = ground arith in
              subst (λ (t : ℕ). (h.spaces t).next + gen_size j ≤ (h.spaces t).limit) (sym at)
                (enough j at fits)
        ];
        roots_at = inv.roots_at;
        roots = λ q t b. elim (inv.roots q t b) [
          | inr foreign ↦ inr foreign
          | inl ins ↦ inl (record {
            gen = ins.gen;
            above = omega arith;
            created = ins.created;
            past = ins.past;
            header = ins.header;
          })
        ];
      })
    ]
  where
    enough :
        (j : ℕ)
        → suc j ≡ suc n
        → ltb (h.spaces (suc n)).limit ((h.spaces (suc n)).next + gen_size (suc n - 1)) ≡ false
        → (h.spaces (suc n)).next + gen_size j ≤ (h.spaces (suc n)).limit
    enough j at fits =
        let same : gen_size (suc n - 1) ≡ gen_size j = ap gen_size (omega arith) in ground arith

-- What emptying all generations but the last comes to.
pub record AllCollected (malloc : ℕ → ℕ → Option ℕ) (T : ℕ → Type 0) (h : Heap) (w : World) (g : ℕ)
    (r : Run (Heap × World × ℕ)) : Type 0 where
  pub level : ℕ
  pub heap : Heap
  pub world : World
  pub returns : r ≡ ok (heap, world, level)
  pub inv : HeapInv malloc T level heap world
  pub last : inv.gens ≡ suc level
  pub same : inv.gens ≡ g
  pub progress : Progress malloc T h w g heap world inv.gens
  pub again : Again malloc T level heap world

module _ (generation : Mem → Space → Space → Run Collected) (malloc : ℕ → ℕ → Option ℕ) (n i : ℕ)
    (h : Heap) (w : World) where
  all_ends :
      (h.spaces (i + 1)).start ≡ 0 → collect_all_loop malloc generation (suc n) i h w ≡ ok (h, w, i)
  unfolding collect_all_loop
  all_ends e =
      let none_yet : ((h.spaces (i + 1)).start == 0) ≡ true = ground (arith, e) in
      rw (collect_all_loop, none_yet) refl

  all_goes_on :
      (h' : Heap) (w' : World)
      → (h.spaces (i + 1)).start ≢ 0
      → collect_into_next malloc generation i h w ≡ ok (h', w')
      → collect_all_loop malloc generation (suc n) i h w
        ≡ collect_all_loop malloc generation n (i + 1) h' w'
  unfolding collect_all_loop
  all_goes_on h' w' ne e =
      let there : ((h.spaces (i + 1)).start == 0) ≡ false = ground (arith, ne) in
      rw (collect_all_loop, there, e) refl

module _ (generation : Mem → Space → Space → Run Collected) (malloc : ℕ → ℕ → Option ℕ)
    (T : ℕ → Type 0) (collects : Collects generation T) where
  AllLeads : ℕ → Type 0
  AllLeads n =
      (i : ℕ) (h : Heap) (w : World) (inv : HeapInv malloc T i h w)
      → i + n ≡ 11
      → AllCollected malloc T h w inv.gens (collect_all_loop malloc generation n i h w)

  stopped :
      (i : ℕ) (h : Heap) (w : World) (inv : HeapInv malloc T i h w) (r : Run (Heap × World × ℕ))
      → inv.gens ≡ suc i
      → r ≡ ok (h, w, i)
      → AllCollected malloc T h w inv.gens r
  stopped i h w inv r last e = record {
    level = i;
    heap = h;
    world = w;
    returns = e;
    inv = inv;
    last = last;
    same = refl;
    progress = Progress-refl malloc T h w inv.gens;
    again = HeapInv-Again malloc T i h w inv last;
  }

  continued :
      (n i : ℕ) (h : Heap) (w : World) (inv : HeapInv malloc T i h w) (c : suc i < inv.gens)
      → Finished generation T w.mem (h.spaces i) (h.spaces (suc i)) (inv.sizes i)
      → i + suc n ≡ 11
      → AllLeads n
      → AllCollected malloc T h w inv.gens (collect_all_loop malloc generation (suc n) i h w)
  unfolding AllLeads
  continued n i h w inv c fin at below =
      let next : i + 1 ≡ suc i = omega arith in
      let h1 = heap' generation malloc T i h w inv c fin in
      let w1 = world' generation malloc T i h w inv c fin in
      let inv1 = inv' generation malloc T i h w inv c fin in
      let r = below (suc i) h1 w1 inv1 (omega arith) in
      record {
        level = r.level;
        heap = r.heap;
        world = r.world;
        returns =
            all_goes_on generation malloc n i h w h1 w1
              (λ e. inv.created (suc i) c (ap (λ t. (h.spaces t).start) (sym next) ∙ e))
              (collected generation malloc T i h w inv c fin)
            ∙ ap (λ t. collect_all_loop malloc generation n t h1 w1) next
            ∙ r.returns;
        inv = r.inv;
        last = r.last;
        same = r.same ∙ gens_same generation malloc T i h w inv c fin;
        progress =
            Progress-trans (collected-Progress generation malloc T i h w inv c fin) r.progress;
        again = r.again;
      }

  pub collect_all_loop-AllCollected :
      (n i : ℕ) (h : Heap) (w : World) (inv : HeapInv malloc T i h w)
      → i + n ≡ 11
      → AllCollected malloc T h w inv.gens (collect_all_loop malloc generation n i h w)
  unfolding AllLeads collect_all_loop
  collect_all_loop-AllCollected zero i h w inv at =
      stopped i h w inv _ (omega (arith, inv.most, inv.reached)) refl
  collect_all_loop-AllCollected (suc n) i h w inv at = elim (Bool-cases (ltb (suc i) inv.gens)) [
    | inl c ↦
        continued n i h w inv (ltb→lt _ _ c)
          (finished generation malloc T collects i h w inv (ltb→lt _ _ c)) at
          (λ j. collect_all_loop-AllCollected n j)
    | inr no_more ↦
        let last : inv.gens ≡ suc i = ground (arith, inv.reached) in
        stopped i h w inv _ last (
          all_ends generation malloc n i h w (
            ap (λ (s : Space). s.start)
              (ap h.spaces {x = i + 1} {y = suc i} (omega arith)
                ∙ inv.others (suc i) (omega arith))))
  ]

-- A collector does not look at how much of from-space is used, but for its assertion.
abbrev pub Indifferent : (Mem → Space → Space → Run Collected) → Type 0
Indifferent generation =
    (m : Mem) (from to : Space) (a b : ℕ)
    → a + to.next ≤ to.limit + from.start
    → b + to.next ≤ to.limit + from.start
    → generation m (record from { next = a }) to ≡ generation m (record from { next = b }) to

-- The first round starts from a nursery whose descriptor need not say how much of it is used.
module _ (generation : Mem → Space → Space → Run Collected) (malloc : ℕ → ℕ → Option ℕ)
    (indifferent : Indifferent generation) (h : Heap) (w : World) (alloc : ℕ) where
  overwritten :
      (x y : Space)
      → set_space (set_space h 0 x) 1 y ≡ set_space (set_space (mutator_heap h alloc) 0 x) 1 y
  overwritten x y = ap with_spaces (fun_ext each)
    where
      with_spaces : (ℕ → Space) → Heap
      with_spaces f = record { spaces = f }

      each :
          (j : ℕ)
          → (set_space (set_space h 0 x) 1 y).spaces j
            ≡ (set_space (set_space (mutator_heap h alloc) 0 x) 1 y).spaces j
      each j = ground arith

  first_same :
      (h.spaces 0).next + (h.spaces 1).next ≤ (h.spaces 1).limit + (h.spaces 0).start
      → alloc + (h.spaces 1).next ≤ (h.spaces 1).limit + (h.spaces 0).start
      → collect_into_next malloc generation 0 h w
        ≡ collect_into_next malloc generation 0 (mutator_heap h alloc) w
  unfolding collect_into_next
  first_same stale used =
      let e = indifferent w.mem (h.spaces 0) (h.spaces 1) (h.spaces 0).next alloc stale used in
      ap
        (λ (r : Run Collected).
          ◌>>=◌ {B = Heap × World} r
            (λ c. ok (set_space (set_space h 0 c.from) 1 c.to, record w { mem = c.mem })))
        e
      ∙ ap
          (λ (f : Collected → Run (Heap × World)).
            generation w.mem (record (h.spaces 0) { next = alloc }) (h.spaces 1) >>= f)
          (fun_ext (λ c. ap (λ t. ok (t, record w { mem = c.mem })) (overwritten c.from c.to)))

-- What `garbage_collect_all` does after its loop: a nursery that is the last generation is used up to
-- `alloc`.
abbrev pub keep_alloc : ℕ → Heap × World × ℕ → Run (Heap × World × ℕ)
keep_alloc alloc (h, w, i) =
    ok (if i == 0 then set_space h 0 (record (h.spaces 0) { next = alloc }) else h, w, i)

module _ (generation : Mem → Space → Space → Run Collected) (malloc : ℕ → ℕ → Option ℕ)
    (T : ℕ → Type 0) (collects : Collects generation T) (indifferent : Indifferent generation)
    (h : Heap) (w : World) (alloc : ℕ) (inv : HeapInv malloc T 0 (mutator_heap h alloc) w)
    (stale : (h.spaces 0).next ≤ (h.spaces 0).limit) where
  abbrev all : Run (Heap × World × ℕ)
  all = collect_all_loop malloc generation 11 0 h w

  only_nursery :
      inv.gens ≡ 1
      → AllCollected malloc T (mutator_heap h alloc) w inv.gens (all >>= keep_alloc alloc)
  only_nursery last = stopped generation malloc T collects 0 (mutator_heap h alloc) w inv _ last (
      ap (λ (r : Run (Heap × World × ℕ)). r >>= keep_alloc alloc)
        (all_ends generation malloc 10 0 h w
          (ap (λ (s : Space). s.start) (inv.others 1 (omega arith)))))

  several :
      1 < inv.gens
      → AllCollected malloc T (mutator_heap h alloc) w inv.gens (all >>= keep_alloc alloc)
  several c =
      let fin = finished generation malloc T collects 0 (mutator_heap h alloc) w inv c in
      let run = collected generation malloc T 0 (mutator_heap h alloc) w inv c fin in
      let room = inv.room 0 c (omega arith) in
      let extent = inv.extent 0 (omega arith) in
      let high = inv.high 0 (omega arith) in
      let run' =
        first_same generation malloc indifferent h w alloc (omega arith) (omega arith) ∙ run in
      let r =
        collect_all_loop-AllCollected generation malloc T collects 11 0 (mutator_heap h alloc) w inv
          refl in
      let there = inv.created 1 c in
      let same =
        all_goes_on generation malloc 10 0 h w _ _ there run'
        ∙ sym (all_goes_on generation malloc 10 0 (mutator_heap h alloc) w _ _ there run) in
      let old : (r.level == 0) ≡ false = ground (arith, r.last, r.same) in
      record {
        level = r.level;
        heap = r.heap;
        world = r.world;
        returns =
            ap (λ (x : Run (Heap × World × ℕ)). x >>= keep_alloc alloc) (same ∙ r.returns)
            ∙ rw (◌>>=◌, old) refl;
        inv = r.inv;
        last = r.last;
        same = r.same;
        progress = r.progress;
        again = r.again;
      }

  pub all-AllCollected :
      AllCollected malloc T (mutator_heap h alloc) w inv.gens (all >>= keep_alloc alloc)
  all-AllCollected = elim (Bool-cases (ltb 1 inv.gens)) [
    | inl c ↦ several (ltb→lt _ _ c)
    | inr n ↦ only_nursery (ground (arith, inv.reached))
  ]
