-- ===== src/Gc/Whole/Export.antt =====
-- `export` of theories/Runtime/gc.c: a deep copy of the value in `args[1]`.
use certicoq.Prelude.{
  List, ◌↔◌, ℕ, ◌+◌, ◌-◌, ◌*◌, ◌^◌, ◌≤◌, ◌<◌, ◌≡◌, refl, ◌⊎◌, inl, inr, true, false, ◌≢◌, none,
  Option-cases, arith, ap, ◌∙◌, sym, Option, some, Bool, Bool-cases, ◌==◌,
}
use certicoq.Words.{is_block, pointer}
use certicoq.Run.{Run, ok}
use certicoq.Gc.{Space, do_generation, max_spaces}
use certicoq.Gc.Heap.{
  Heap, ThreadInfo, World, Exported, fake_fi, set_space, garbage_collect_all, export,
}
use certicoq.Gc.Graph.{view, follow, SameObject}
use certicoq.Gc.Copying.Collects.{Finished}
use certicoq.Gc.Generations.{MallocOk, heap_view, heap_follow, points_into_heap}
use certicoq.Gc.Generations.All.{AllCollected}
use certicoq.Gc.Generations.Ensure.{gen_size_bound}
use certicoq.Gc.Generations.Fresh.{Area, space_of, apart_area}
use certicoq.Gc.Generations.Nursery.{mutator_heap}
use certicoq.Gc.Generations.Points.{heap_points-Foreign}
use certicoq.Gc.Through.Restrict.{is_object, is_object-view_through}
use certicoq.Gc.Whole.{HeapReady, FunRoots}
use certicoq.Gc.Whole.All.{garbage_collect_all-AllCollected}
use certicoq.Gc.Whole.ExportSteps.{pointer_diff-minus, export_steps}
use certicoq.Gc.Whole.Twice.{
  ExportRoot, export_root, is_root, fin1, fin2, first_words, second_view, second_objects,
  used_words, copies,
}

-- A copy of the value of `args[1]` from `start` on, outside a heap that is left empty.
pub record Copied (ti : ThreadInfo) (h : Heap) (w : World) (g : ℕ) (r : Run Exported) : Type 0 where
  pub start : ℕ
  pub next : ℕ
  pub heap : Heap
  pub world : World
  pub returns : r ≡ ok (record { result = pointer (start + 1); heap = some heap; world = world })
  pub reads :
      (k : ℕ)
      → view k world.mem start next (pointer (start + 1))
        ≡ heap_view k w.mem (mutator_heap h ti.alloc) (w.mem (ti.args + 1))
  pub objects :
      (path path' : List ℕ)
      → let follow_before =
          λ (l : List ℕ). heap_follow w.mem (mutator_heap h ti.alloc) l (w.mem (ti.args + 1)) in
        let follow_after = λ (l : List ℕ). follow world.mem start next l (pointer (start + 1)) in
        SameObject (follow_before path) (follow_before path')
        ↔ SameObject (follow_after path) (follow_after path')
  pub emptied : (j : ℕ) → j < g → (heap.spaces j).next ≡ (heap.spaces j).start
  pub outside : (j : ℕ) → j < g → ((heap.spaces j).limit ≤ start) ⊎ (next ≤ (heap.spaces j).start)

-- An area of that many bytes is given.
given_area :
    (malloc : ℕ → ℕ → Option ℕ)
    → ((call bytes : ℕ) → bytes ≤ 2 ^ 30 → malloc call bytes ≢ none)
    → (call bytes : ℕ) → bytes ≤ 2 ^ 30
    → (p : ℕ) × (malloc call bytes ≡ some p)
given_area malloc gives call bytes le = elim (Option-cases (malloc call bytes)) [
  | inl e ↦ absurd (gives call bytes le e)
  | inr there ↦ there
]

module _ (malloc : ℕ → ℕ → Option ℕ) (ti : ThreadInfo) (h : Heap) (w : World)
    (mok : MallocOk malloc) (gives : (call bytes : ℕ) → bytes ≤ 2 ^ 30 → malloc call bytes ≢ none)
    (rd : HeapReady malloc fake_fi ti h w)
    (points : points_into_heap (mutator_heap h ti.alloc) max_spaces (w.mem (ti.args + 1)) ≡ true)
    (all : AllCollected malloc
      (ExportRoot ti.args)
      (mutator_heap h ti.alloc)
      w
      rd.inv.gens
      (garbage_collect_all malloc fake_fi ti w)) where
  abbrev i : ℕ
  i = all.level

  abbrev v : World
  v = all.world

  abbrev sp : Space
  sp = all.heap.spaces i

  boxed : is_block (w.mem (ti.args + 1)) ≡ true
  boxed = elim (Bool-cases (is_block (w.mem (ti.args + 1)))) [
    | inl b ↦ b
    | inr n ↦ absurd (
        differ points (
          heap_points-Foreign malloc (FunRoots fake_fi ti) 0 (mutator_heap h ti.alloc) w rd.inv
            (w.mem (ti.args + 1)) (inl n)))
  ]
    where
      differ : {b : Bool} → b ≡ true → b ≡ false → ⊥
      differ x y = cc

  -- After the collections too the word points into the heap.
  points' : points_into_heap all.heap max_spaces (v.mem (export_root ti.args)) ≡ true
  points' =
      sym (
        is_object-view_through (points_into_heap all.heap max_spaces) v.mem
          (v.mem (export_root ti.args)))
      ∙ ap is_object (all.progress.sight.views (export_root ti.args) 1 (is_root ti.args))
      ∙ is_object-view_through (points_into_heap (mutator_heap h ti.alloc) max_spaces) w.mem
          (w.mem (ti.args + 1))
      ∙ points

  abbrev n : ℕ
  n = sp.next - sp.start

  used : (sp.start ≤ sp.next) × (n ≤ 134217728)
  used = omega (
    arith,
    all.inv.low i all.inv.reached,
    all.inv.high i all.inv.reached,
    all.inv.extent i all.inv.reached,
    gen_size_bound i (omega (arith, all.inv.most, all.inv.reached)),
  )

  abbrev emptied_heap : Heap
  emptied_heap = set_space all.heap i (record sp { next = sp.start })

  start_same : (j : ℕ) → (emptied_heap.spaces j).start ≡ (all.heap.spaces j).start
  start_same j = ground arith

  limit_same : (j : ℕ) → (emptied_heap.spaces j).limit ≡ (all.heap.spaces j).limit
  limit_same j = ground arith

  empty_now :
      (j : ℕ) → j < rd.inv.gens → (emptied_heap.spaces j).next ≡ (emptied_heap.spaces j).start
  empty_now j lt = elim (Bool-cases (j == i)) [
    | inl e ↦ rw e refl
    | inr n ↦ rw n (all.inv.empty j (ground (arith, all.last, all.same)))
  ]

  module _ (a p : ℕ) (given : malloc v.mallocs 24 ≡ some a)
      (first_area : malloc (v.mallocs + 1) (n * 8) ≡ some p) where
    abbrev area : Area malloc v.mallocs p n
    area = record {
      call = v.mallocs + 1;
      bytes = n * 8;
      given = first_area;
      late = omega arith;
      enough = omega arith;
      words = omega (arith, used_words malloc ti.args i all.heap v all.inv all.last points');
    }

    abbrev one :
        Finished
          (do_generation fake_fi ti.args)
          (ExportRoot ti.args)
          v.mem
          sp
          (space_of p n)
          (all.inv.sizes i)
    one = fin1 malloc ti.args i all.heap v all.inv all.last points' p area

    abbrev n' : ℕ
    n' = one.next - p

    words : (p + 2 ≤ one.next) × (one.next ≤ p + n)
    words = first_words malloc ti.args i all.heap v all.inv all.last points' p area

    module _ (a' p' : ℕ) (given' : malloc (v.mallocs + 2) 24 ≡ some a')
        (second_area : malloc (v.mallocs + 3) (n' * 8) ≡ some p') where
      abbrev area' : Area malloc v.mallocs p' n'
      area' = record {
        call = v.mallocs + 3;
        bytes = n' * 8;
        given = second_area;
        late = omega arith;
        enough = omega arith;
        words = omega (arith, words);
      }

      other : (p + n ≤ p') ⊎ (p' + n' ≤ p)
      other = omega (
        arith,
        mok.apart (v.mallocs + 1) (n * 8) p (v.mallocs + 3) (n' * 8) p' (omega arith) first_area
            second_area,
      )

      abbrev two :
          Finished
            (do_generation fake_fi ti.args)
            (ExportRoot ti.args)
            one.mem
            (record (space_of p n) { next = one.next })
            (space_of p' n')
            (copies malloc ti.args i all.heap v all.inv all.last points' p area p' area' other)
      two = fin2 malloc ti.args i all.heap v all.inv all.last points' p area p' area' other

      outside_heap :
          (j : ℕ)
          → j < rd.inv.gens
          → ((emptied_heap.spaces j).limit ≤ p') ⊎ (two.next ≤ (emptied_heap.spaces j).start)
      outside_heap j lt =
          let room = two.cells.inv.room in
          rw (start_same j, limit_same j)
            (omega (
              arith,
              apart_area malloc (ExportRoot ti.args) i all.heap v all.inv all.last p' n' area' j
                  (omega (arith, all.same)),
            ))

      both-Copied : Copied ti h w rd.inv.gens (export malloc ti w)
      both-Copied = record {
        start = p';
        next = two.next;
        heap = emptied_heap;
        world = record { mem = two.mem; mallocs = v.mallocs + 4 };
        returns =
            export_steps malloc ti all.heap w v i n n' a a' p p' one.mem two.mem one.next two.next
              boxed all.returns (pointer_diff-minus sp.next sp.start used.0 (omega (arith, used)))
              (omega (arith, used)) given first_area one.returns given'
              (pointer_diff-minus one.next p (omega (arith, words)) (omega (arith, words, used)))
              (omega (arith, words, used)) second_area two.returns;
        reads = λ k.
            second_view malloc ti.args i all.heap v all.inv all.last points' p area p' area' other k
            ∙ all.progress.sight.views (export_root ti.args) k (is_root ti.args);
        objects = λ path path'.
            let root = is_root ti.args in
            let before =
              all.progress.sight.objects (export_root ti.args) (export_root ti.args) path path' root
                root in
            let after =
              second_objects malloc ti.args i all.heap v all.inv all.last points' p area p' area'
                other path path' in
            ((λ a. after.0 (before.0 a)), λ b. before.1 (after.1 b));
        emptied = empty_now;
        outside = outside_heap;
      }

  copied : Copied ti h w rd.inv.gens (export malloc ti w)
  copied =
      let (a, given) = given_area malloc gives v.mallocs 24 (omega arith) in
      let (p, first_area) = given_area malloc gives (v.mallocs + 1) (n * 8) (omega (arith, used)) in
      let (a', given') = given_area malloc gives (v.mallocs + 2) 24 (omega arith) in
      let (p', second_area) =
        given_area malloc gives (v.mallocs + 3) (n' a p given first_area * 8)
          (omega (arith, words a p given first_area, used)) in
      both-Copied a p given first_area a' p' given' second_area

-- Where `args[1]` points into a heap that satisfies the invariant, and `malloc` gives areas of up to
-- 2^30 bytes, `export` returns a pointer to the first block of a new area, which reads to every depth
-- in that area as the value did in the heap, and in which two paths meet exactly if they did. The
-- area lies outside the generations, which are left empty.
pub export-Copied :
    (malloc : ℕ → ℕ → Option ℕ) (ti : ThreadInfo) (h : Heap) (w : World)
    → MallocOk malloc
    → ((call bytes : ℕ) → bytes ≤ 2 ^ 30 → malloc call bytes ≢ none)
    → (rd : HeapReady malloc fake_fi ti h w) → (h.spaces 0).next ≤ (h.spaces 0).limit
    → points_into_heap (mutator_heap h ti.alloc) max_spaces (w.mem (ti.args + 1)) ≡ true
    → Copied ti h w rd.inv.gens (export malloc ti w)
export-Copied malloc ti h w mok gives rd stale points =
    copied malloc ti h w mok gives rd points
      (garbage_collect_all-AllCollected malloc fake_fi ti h w rd stale)
