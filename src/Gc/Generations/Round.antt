-- ===== src/Gc/Generations/Round.antt =====
-- One round of `collect_loop` of theories/Runtime/gc.c within the invariant of a heap.
use mathlib.Core.Path.{subst}
use certicoq.Prelude.{
  ℕ, suc, ◌+◌, ◌≤◌, ◌<◌, ◌≡◌, refl, inl, inr, true, false, arith, ap, ◌∙◌, sym, Option, Bool,
  Bool-cases, ◌==◌,
}
use certicoq.Memory.{Mem}
use certicoq.Run.{Run, ok, ◌>>=◌}
use certicoq.Gc.{Space, Collected}
use certicoq.Gc.Heap.{Heap, World, diff_le, set_space, collect_into_next}
use certicoq.Gc.Copying.Collects.{Collects, Finished}
use certicoq.Gc.Generations.{gen_size, Foreign, HeapInv}
use certicoq.Gc.Generations.Facts.{gen_size-suc, collection_room, collection-WellFormed, roots-Good}
use certicoq.Gc.Generations.Step
use certicoq.Gc.Generations.Keep.{HeapInv-after, gens_after}
use certicoq.Gc.Generations.Same.{SameSight-after}
use certicoq.Gc.Generations.Ensure.{Progress}

-- A generation with room for the next younger one to be emptied into it closes the heap.
pub HeapInv-zero :
    (malloc : ℕ → ℕ → Option ℕ) (T : ℕ → Type 0) (i : ℕ) (h : Heap) (w : World)
    → HeapInv malloc T (suc i) h w
    → (h.spaces (suc i)).next + gen_size i ≤ (h.spaces (suc i)).limit
    → HeapInv malloc T 0 h w
HeapInv-zero malloc T i h w inv enough = record {
  gens = inv.gens;
  sizes = inv.sizes;
  most = inv.most;
  reached = omega (arith, inv.reached);
  created = inv.created;
  others = inv.others;
  extent = inv.extent;
  low = inv.low;
  high = inv.high;
  apart = inv.apart;
  unborn = inv.unborn;
  blocks = inv.blocks;
  fields = inv.fields;
  empty = λ j lt. absurd (omega arith);
  room = λ j c _. elim (Bool-cases (j == i)) [
    | inl e ↦
        let same : i ≡ j = ground arith in
        subst (λ t. (h.spaces (suc t)).next + gen_size t ≤ (h.spaces (suc t)).limit) same enough
    | inr n ↦ inv.room j c (ground arith)
  ];
  roots_at = inv.roots_at;
  roots = λ q t b. elim (inv.roots q t b) [
    | inr foreign ↦ inr foreign
    | inl ins ↦ inl (record {
      gen = ins.gen;
      above = omega arith;
      created = ins.created;
      past = ins.past;
      header = ins.header;
    })
  ];
}

pub gens_zero :
    (malloc : ℕ → ℕ → Option ℕ) (T : ℕ → Type 0) (i : ℕ) (h : Heap) (w : World)
    (inv : HeapInv malloc T (suc i) h w)
    (enough : (h.spaces (suc i)).next + gen_size i ≤ (h.spaces (suc i)).limit)
    → (HeapInv-zero malloc T i h w inv enough).gens ≡ inv.gens
unfolding HeapInv-zero
gens_zero malloc T i h w inv enough = refl

-- What a collector does with a generation of such a heap.
module _ (generation : Mem → Space → Space → Run Collected) (malloc : ℕ → ℕ → Option ℕ)
    (T : ℕ → Type 0) (collects : Collects generation T) where
  pub finished :
      (i : ℕ) (h : Heap) (w : World) (inv : HeapInv malloc T i h w)
      → suc i < inv.gens
      → Finished generation T w.mem (h.spaces i) (h.spaces (suc i)) (inv.sizes i)
  finished i h w inv c =
      collects.collect w.mem (h.spaces i) (h.spaces (suc i)) (inv.sizes i)
        (collection-WellFormed malloc T i h w inv c) (roots-Good malloc T i h w inv c)
        (inv.low i (omega arith)) (collection_room malloc T i h w inv c)

-- One collection, with the heap and the memory that it leaves.
module _ (generation : Mem → Space → Space → Run Collected) (malloc : ℕ → ℕ → Option ℕ)
    (T : ℕ → Type 0) (i : ℕ) (h : Heap) (w : World) (inv : HeapInv malloc T i h w)
    (c : suc i < inv.gens)
    (fin : Finished generation T w.mem (h.spaces i) (h.spaces (suc i)) (inv.sizes i)) where
  abbrev pub heap' : Heap
  heap' = Step.heap_after generation malloc T i h w inv c fin

  abbrev pub world' : World
  world' = Step.world_after generation malloc T i h w inv c fin

  abbrev pub inv' : HeapInv malloc T (suc i) heap' world'
  inv' = HeapInv-after generation malloc T i h w inv c fin

  one_more : i + 1 ≡ suc i
  one_more = omega arith

  pub collected : collect_into_next malloc generation i h w ≡ ok (heap', world')
  unfolding collect_into_next
  collected =
      subst
        (λ n.
          ◌>>=◌ {B = Heap × World} (generation w.mem (h.spaces i) (h.spaces n))
            (λ r. ok (set_space (set_space h i r.from) n r.to, record w { mem = r.mem }))
          ≡ ok (heap', world'))
        (sym one_more) (rw fin.returns refl)

  pub collected-Progress : Progress malloc T h w inv.gens heap' world' inv'.gens
  collected-Progress = record {
    sight = SameSight-after generation malloc T i h w inv c fin;
    base_start = Step.start_same generation malloc T i h w inv c fin 0;
    base_limit = Step.limit_same generation malloc T i h w inv c fin 0;
    foreign = λ y f.
        subst (λ g. Foreign malloc heap' g w.mallocs y)
          (sym (gens_after generation malloc T i h w inv c fin))
          (Step.Foreign-after generation malloc T i h w inv c fin y f);
    frame = λ y f n.
        fin.cells.frame y
          (
            f.apart i (omega arith),
            omega
                (arith, f.apart (suc i) c, inv.low (suc i) c, collection_room malloc T i h w inv c),
          )
          n;
  }

  -- What the collection leaves of an empty generation has room for another.
  pub fresh-room :
      (h.spaces (suc i)).next ≡ (h.spaces (suc i)).start
      → (heap'.spaces (suc i)).next + gen_size i ≤ (heap'.spaces (suc i)).limit
  fresh-room fresh =
      subst (λ (s : Space). s.next + gen_size i ≤ s.limit)
        (sym (Step.space_to generation malloc T i h w inv c fin))
        (omega (
          arith,
          fin.cells.inv.room,
          fresh,
          inv.high i (omega arith),
          inv.extent i (omega arith),
          inv.extent (suc i) c,
          gen_size-suc i,
        ))

  pub gens_same : inv'.gens ≡ inv.gens
  gens_same = gens_after generation malloc T i h w inv c fin

-- The test that ends the loop says whether the next generation has room for this one.
module _ (malloc : ℕ → ℕ → Option ℕ) (T : ℕ → Type 0) (i : ℕ) (h : Heap) (w : World)
    (inv : HeapInv malloc T (suc i) h w) where
  abbrev pub enough : Bool
  enough =
      diff_le (h.spaces i).limit (h.spaces i).start (h.spaces (i + 1)).limit (h.spaces (i + 1)).next

  enough_next :
      enough
      ≡ diff_le
          (h.spaces i).limit
          (h.spaces i).start
          (h.spaces (suc i)).limit
          (h.spaces (suc i)).next
  enough_next =
      ap (λ t. diff_le (h.spaces i).limit (h.spaces i).start (h.spaces t).limit (h.spaces t).next)
        {x = i + 1} {y = suc i} (omega arith)

  pub enough-room : enough ≡ true → (h.spaces (suc i)).next + gen_size i ≤ (h.spaces (suc i)).limit
  enough-room t = ground (arith, inv.extent i (omega (arith, inv.reached)), sym enough_next ∙ t)

  pub enough-full : enough ≡ false → (h.spaces (suc i)).limit < (h.spaces (suc i)).next + gen_size i
  enough-full t = ground (arith, inv.extent i (omega (arith, inv.reached)), sym enough_next ∙ t)
