-- ===== src/Gc/Creation.antt =====
-- theories/Runtime/gc.c: what the first `garbage_collect` of a thread without a heap does.
use certicoq.Prelude.{
  ℕ, suc, ◌+◌, ◌*◌, ◌≤◌, ◌≡◌, refl, ◌==◌, if◌then◌else◌, false, arith, Option, none, some, ltb,
}
use certicoq.Run.{ok}
use certicoq.Gc.{FunInfo, max_spaces, nursery_size}
use certicoq.Gc.Heap.{
  Heap, ThreadInfo, World, no_space_yet, pointer_diff, resume, create_space, create_heap,
  garbage_collect,
}

-- If `malloc` gives the descriptor and then the nursery, the heap has a nursery of `nursery_size`
-- words and no other generation, the mutator has all of the nursery, and the memory is as it was,
-- provided that the function asks for no more than that.
pub garbage_collect_created :
    (malloc : ℕ → ℕ → Option ℕ) (fi : FunInfo) (ti : ThreadInfo) (w : World) (q p : ℕ)
    → ti.heap ≡ none
    → malloc w.mallocs (max_spaces * 24) ≡ some q
    → malloc (w.mallocs + 1) (nursery_size * 8) ≡ some p
    → fi 0 ≤ nursery_size
    → (h : Heap) × (garbage_collect malloc fi ti w
        ≡ ok (
          record ti { alloc = p; limit = p + nursery_size; heap = some h },
          record w { mallocs = w.mallocs + 2 },
        ))
      × ((h.spaces 0).start ≡ p)
      × ((h.spaces 0).limit ≡ p + nursery_size)
      × ((i : ℕ) → h.spaces (suc i) ≡ no_space_yet)
unfolding garbage_collect create_heap create_space resume
garbage_collect_created malloc fi ti w q p none_yet descriptor space asked =
    let enough : ltb (pointer_diff (p + nursery_size) p) (fi 0) ≡ false = ground (arith, asked) in
    (
      record {
        spaces = λ i.
            if i == 0
            then record { start = p; next = p; limit = p + nursery_size }
            else no_space_yet;
      },
      ground (arith, none_yet, descriptor, space, enough),
      refl,
      refl,
      λ i. ground arith,
    )
