-- ===== src/Gc/Tests.antt =====
-- A small heap for theories/Runtime/gc.c, and the theorems at it.
use certicoq.Prelude.{
  ℕ, zero, suc, ◌+◌, ◌^◌, ◌*◌, ◌≤◌, ◌<◌, ◌≡◌, ◌≢◌, ◌↔◌, refl, ◌⊎◌, inl, inr, List, [], ◌∷◌, arith,
  ◌==◌, if◌then◌else◌,
}
use certicoq.Prelude.{Option, none, some}
use certicoq.Words.{is_block, wosize_hd, tag_hd, to_int, unsigned}
use certicoq.Memory.{copy_words, write}
use certicoq.Run.{Run, ok, ◌>>=◌}
use certicoq.Gc.{
  nursery_size, Space, FunInfo, Collected, no_scan, is_from, do_generation, forward_roots, do_scan,
  each_word,
}
use certicoq.Gc.Heap.{Heap, ThreadInfo, World, no_space_yet, garbage_collect}
use certicoq.Gc.Creation.{garbage_collect_created}
use certicoq.Gc.Minor.{MinorReady}
use certicoq.Gc.Small.{small, young, old, sizes, small-WellFormed}
use certicoq.Gc.Graph.{view, follow, SameObject}
use certicoq.Gc.Copying.{Good}
use certicoq.Gc.Copying.Sweep.{Outside}
use certicoq.Gc.Copying.Slots.{RootsOk, root, root_count}
use certicoq.Gc.Copying.Collects.{collection}
use certicoq.Gc.Copying.Result.{
  Ready, do_generation-returns, do_generation-frame, do_generation-view, do_generation-follow,
}

-- Slots 1 and 3 are live.
abbrev live : FunInfo
live i = if i == 0 then 4 else if i == 1 then 2 else if i == 2 then 1 else 3

small-RootsOk : RootsOk (collection small young old sizes) live 100
unfolding wosize_hd is_from is_block to_int unsigned
small-RootsOk = record { slot = slot; outside = outside; good = good }
  where
    slot : (i : ℕ) → i < root_count live → live (i + 2) < 1024
    slot i lt = ground arith

    at_roots : (i : ℕ) → i < 2 → (root live 100 i ≡ 101) ⊎ (root live 100 i ≡ 103)
    at_roots zero lt = inl refl
    at_roots (suc zero) lt = inr refl
    at_roots (suc (suc i)) lt = absurd (omega arith)

    outside :
        (i : ℕ) → i < root_count live → Outside (collection small young old sizes) (root live 100 i)
    outside i lt = omega (arith, at_roots i lt)

    good :
        (i : ℕ)
        → i < root_count live
        → Good (collection small young old sizes) (small (root live 100 i))
    good i lt = elim (at_roots i lt) [
      | inl e ↦ rw e (record { block = λ _. (omega arith, inl refl); not_free = refl })
      | inr e ↦ rw e (record { block = λ _. (omega arith, inl refl); not_free = refl })
    ]

small-Ready : Ready live 100 small young old sizes
small-Ready = record {
  formed = small-WellFormed;
  roots = small-RootsOk;
  nonneg = omega arith;
  room = omega arith;
}

do_generation-returns_example :
    (r : Collected) × (do_generation live 100 small young old ≡ ok r)
    × (42 ≤ r.to.next)
    × (r.to.next ≤ 42 + 6)
    × (r.to.limit ≡ 60)
    × (r.from ≡ record young { next = 10 })
do_generation-returns_example = do_generation-returns live 100 small young old sizes small-Ready

-- An old object's word is not touched.
do_generation-frame_example :
    (r : Collected) × (do_generation live 100 small young old ≡ ok r) × (r.mem 41 ≡ small 41)
do_generation-frame_example =
    do_generation-frame live 100 small young old sizes small-Ready 41 (inr (omega arith))
      (inl (omega arith)) (λ i lt. not_root i lt)
  where
    not_root : (i : ℕ) → i < root_count live → 41 ≢ root live 100 i
    not_root i lt = omega arith

do_generation-view_example :
    (r : Collected) × (do_generation live 100 small young old ≡ ok r)
    × (view 5 r.mem 42 r.to.next (r.mem (root live 100 1))
        ≡ view 5 small 10 30 (small (root live 100 1)))
unfolding unsigned to_int
do_generation-view_example =
    do_generation-view live 100 small young old sizes small-Ready 1 5 (omega arith)

-- The first root, and the second root's field's field, are one object before and after.
do_generation-follow_example :
    (r : Collected) × (do_generation live 100 small young old ≡ ok r)
    × (SameObject
          (follow small 10 30 [] (small (root live 100 0)))
          (follow small 10 30 (0 ∷ 0 ∷ []) (small (root live 100 1)))
        ↔ SameObject
            (follow r.mem 42 r.to.next [] (r.mem (root live 100 0)))
            (follow r.mem 42 r.to.next (0 ∷ 0 ∷ []) (r.mem (root live 100 1))))
unfolding unsigned to_int
do_generation-follow_example =
    do_generation-follow live 100 small young old sizes small-Ready 0 1 [] (0 ∷ 0 ∷ [])
      (omega arith) (omega arith)

-- A heap of two generations, the older of which has room for two nurseries.
abbrev large : Space
large = record { start = 40; next = 42; limit = 80 }

abbrev two_spaces : Heap
two_spaces = record {
  spaces = λ i. if i == 0 then young else if i == 1 then large else no_space_yet;
}

abbrev thread : ThreadInfo
thread = record { alloc = 16; limit = 30; heap = some two_spaces; args = 100 }

abbrev world : World
world = record { mem = small; mallocs = 3 }

abbrev no_malloc : ℕ → ℕ → Option ℕ
no_malloc calls bytes = none

small-MinorReady : MinorReady live thread two_spaces world sizes
small-MinorReady = record {
  heap = refl;
  limit = refl;
  created = λ e. omega arith;
  ready = record {
    formed = small-WellFormed;
    roots = small-RootsOk;
    nonneg = omega arith;
    room = omega arith;
  };
  ordered = omega arith;
  bounded = omega arith;
  asked = omega arith;
  room = omega arith;
}

-- Each call gives an area of its own.
abbrev bump_malloc : ℕ → ℕ → Option ℕ
bump_malloc calls bytes = some ((calls + 1) * 2 ^ 20)

abbrev new_thread : ThreadInfo
new_thread = record { alloc = 0; limit = 0; heap = none; args = 100 }

garbage_collect_created_example :
    (h : Heap) × (garbage_collect bump_malloc live new_thread world
      ≡ ok (
        record new_thread { alloc = 5 * 2 ^ 20; limit = 5 * 2 ^ 20 + nursery_size; heap = some h },
        record world { mallocs = 5 },
      ))
    × ((h.spaces 0).start ≡ 5 * 2 ^ 20)
    × ((h.spaces 0).limit ≡ 5 * 2 ^ 20 + nursery_size)
    × ((i : ℕ) → h.spaces (suc i) ≡ no_space_yet)
garbage_collect_created_example =
    garbage_collect_created bump_malloc live new_thread world (4 * 2 ^ 20) (5 * 2 ^ 20) refl refl
      refl (omega arith)

-- What the collection of the small heap leaves: the copies, and both roots at the first of them.
copies : Run (List ℕ)
unfolding do_generation forward_roots do_scan copy_words write each_word wosize_hd tag_hd is_block
    is_from to_int unsigned no_scan
copies = do
  r ← do_generation live 100 small young old
  ok (
      r.to.next
      ∷ r.mem 101
      ∷ r.mem 103
      ∷ r.mem 42
      ∷ r.mem 43
      ∷ r.mem 44
      ∷ r.mem 45
      ∷ r.mem 46
      ∷ r.mem 47
      ∷ [])

copies_lem : copies ≡ ok (48 ∷ 344 ∷ 344 ∷ 2048 ∷ 368 ∷ 7 ∷ 2049 ∷ 344 ∷ 5 ∷ [])
unfolding copies
copies_lem = refl
