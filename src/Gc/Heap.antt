-- ===== src/Gc/Heap.antt =====
-- theories/Runtime/gc.c, the generations: creation, `garbage_collect`, `garbage_collect_all`,
-- `export`, and the functions that empty and free a heap.
--
-- `malloc` is not part of the repository: it is a function of how many calls went before and of the
-- number of bytes, and `none` is NULL. Descriptors live outside the memory of words.
use certicoq.Prelude.{
  ℕ, zero, suc, ◌+◌, ◌-◌, ◌*◌, ◌%◌, ◌^◌, Bool, true, false, ◌&&◌, Option, none, some, List, [], ◌∷◌,
  ltb, leb, ◌==◌, if◌then◌else◌, not,
}
use certicoq.Words.{is_block, pointer, to_int, unsigned, word_bytes}
use certicoq.Memory.{Mem}
use certicoq.Run.{
  Run, ok, abort, no_space, no_heap, no_tinfo, null_pointer, small_nursery, exhausted, assertion,
  ◌>>=◌, ◌>>◌, assert, require,
}
use certicoq.Gc.{Space, FunInfo, Collected, do_generation, max_spaces, nursery_size, ratio}

-- `struct heap`: the array of generations.
pub record Heap : Type 0 where
  pub spaces : ℕ → Space

-- `struct thread_info`; `args` is where its array of arguments stands, and no heap is NULL.
pub record ThreadInfo : Type 0 where
  pub alloc : ℕ
  pub limit : ℕ
  pub heap : Option Heap
  pub args : ℕ

-- Memory, and how often `malloc` has been called.
pub record World : Type 0 where
  pub mem : Mem
  pub mallocs : ℕ

abbrev pub no_space_yet : Space
no_space_yet = record { start = 0; next = 0; limit = 0 }

abbrev pub set_space : Heap → ℕ → Space → Heap
set_space h i s = record { spaces = λ j. if j == i then s else h.spaces j }

-- `hi - lo` of two pointers, as the word that it is.
abbrev pub pointer_diff : ℕ → ℕ → ℕ
pointer_diff hi lo = (hi + 2 ^ 64 - lo) % 2 ^ 64

-- `hi1 - lo1 <= hi2 - lo2` of signed differences.
abbrev pub diff_le : ℕ → ℕ → ℕ → ℕ → Bool
diff_le hi1 lo1 hi2 lo2 = leb (hi1 + lo2) (hi2 + lo1)

-- `in_heap`: some created generation has `start <= v` and `v <= limit`.
unfoldable pub in_heap_from : Heap → ℕ → ℕ → ℕ → Bool
in_heap_from h v zero i = false
in_heap_from h v (suc n) i =
    let rest = in_heap_from h v n (i + 1) in
    let s = h.spaces i in
    if not (s.start == 0) && leb (pointer s.start) v && leb v (pointer s.limit) then true else rest

unfoldable pub in_heap : Heap → ℕ → Bool
unfolding in_heap_from
in_heap h v = in_heap_from h v max_spaces 0

-- `resume`. The difference of pointers is compared as a `uintnat`.
unfoldable pub resume : FunInfo → ThreadInfo → Run ThreadInfo
resume fi ti = elim ti.heap [
  | none ↦ abort assertion
  | some h ↦
      let lo = (h.spaces 0).start in
      let hi = (h.spaces 0).limit in
      require (not (ltb (pointer_diff hi lo) (fi 0))) small_nursery
      >> ok (record ti { alloc = lo; limit = hi })
]

-- `reset_heap`
unfoldable pub reset_heap : Heap → Heap
reset_heap h = record {
  spaces = λ i.
      if ltb i max_spaces then record (h.spaces i) { next = (h.spaces i).start } else h.spaces i;
}

-- `free_heap`: the starts of generations that it passes to `free`, in order. The descriptor itself
-- is freed last.
unfoldable pub freed_from : Heap → ℕ → ℕ → List ℕ
freed_from h zero i = []
freed_from h (suc n) i =
    let rest = freed_from h n (i + 1) in
    if (h.spaces i).start == 0 then rest else (h.spaces i).start ∷ rest

unfoldable pub free_heap : Heap → List ℕ
unfolding freed_from
free_heap h = freed_from h max_spaces 0

-- `fake_fi`
abbrev pub fake_fi : FunInfo
fake_fi i = if i == 0 then 0 else 1

-- What `export` leaves: its result, and the heap and the memory after it.
pub record Exported : Type 0 where
  pub result : ℕ
  pub heap : Option Heap
  pub world : World

module _ (malloc : ℕ → ℕ → Option ℕ) where
  -- `create_space`
  unfoldable pub create_space : ℕ → World → Run (Space × World)
  create_space n w = elim (malloc w.mallocs (n * word_bytes % 2 ^ 64)) [
    | none ↦ abort no_space
    | some p ↦
        ok (record { start = p; next = p; limit = p + n }, record w { mallocs = w.mallocs + 1 })
  ]

  -- `create_heap`: 12 descriptors of three words.
  unfoldable pub create_heap : World → Run (Heap × World)
  unfolding create_space
  create_heap w = elim (malloc w.mallocs (max_spaces * 24)) [
    | none ↦ abort no_heap
    | some _ ↦ do
      (s, w1) ← create_space nursery_size (record w { mallocs = w.mallocs + 1 })
      ok (record { spaces = λ i. if i == 0 then s else no_space_yet }, w1)
  ]

  -- `make_tinfo`: the args array is the fourth word of a `struct thread_info`.
  unfoldable pub make_tinfo : World → Run (ThreadInfo × World)
  unfolding create_heap
  make_tinfo w = do
    (h, w1) ← create_heap w
    elim (malloc w1.mallocs 8216) [
      | none ↦ abort no_tinfo
      | some p ↦ ok (
        record {
          alloc = (h.spaces 0).start;
          limit = (h.spaces 0).limit;
          heap = some h;
          args = p + 3;
        },
        record w1 { mallocs = w1.mallocs + 1 },
      )
    ]

  -- The size of the generation after one, `RATIO*w` for an `int w`.
  unfoldable pub next_size : Space → ℕ
  next_size s =
      let w = to_int (pointer_diff s.limit s.start) in
      unsigned (to_int (ratio * unsigned w % 2 ^ 64))

  -- If the next generation does not yet exist, create it.
  unfoldable pub ensure_space : ℕ → Heap → World → Run (Heap × World)
  unfolding create_space next_size
  ensure_space i h w =
      if (h.spaces (i + 1)).start == 0
      then (do (s, w1) ← create_space (next_size (h.spaces i)) w; ok (set_space h (i + 1) s, w1))
      else ok (h, w)

  -- `do_generation (h->spaces+i, h->spaces+(i+1), ...)`
  unfoldable pub collect_into_next :
      (Mem → Space → Space → Run Collected) → ℕ → Heap → World → Run (Heap × World)
  collect_into_next generation i h w = do
    r ← generation w.mem (h.spaces i) (h.spaces (i + 1))
    ok (set_space (set_space h i r.from) (i + 1) r.to, record w { mem = r.mem })

  -- The loop of `garbage_collect` up to the call of `resume`, with `n` generations left from the
  -- `i`th on.
  unfoldable pub collect_loop :
      (Mem → Space → Space → Run Collected) → ℕ → ℕ → Heap → World → Run (Heap × World)
  unfolding ensure_space collect_into_next
  collect_loop generation zero i h w = abort exhausted
  collect_loop generation (suc n) i h w = do
    (h1, w1) ← ensure_space i h w
    (h2, w2) ← collect_into_next generation i h1 w1
    elim (diff_le (h2.spaces i).limit (h2.spaces i).start (h2.spaces (i + 1)).limit
        (h2.spaces (i + 1)).next) [
          | true ↦ ok (h2, w2)
          | false ↦ collect_loop generation n (i + 1) h2 w2
        ]

  -- `garbage_collect`
  unfoldable pub garbage_collect : FunInfo → ThreadInfo → World → Run (ThreadInfo × World)
  unfolding create_heap collect_loop resume
  garbage_collect fi ti w = elim ti.heap [
    | none ↦ do (h, w1) ← create_heap w; ti' ← resume fi (record ti { heap = some h }); ok (ti', w1)
    | some h ↦ do
      assert ((h.spaces 0).limit == ti.limit)
      (h', w') ←
          collect_loop (do_generation fi ti.args) (max_spaces - 1) 0
            (set_space h 0 (record (h.spaces 0) { next = ti.alloc })) w
      ti' ← resume fi (record ti { heap = some h' })
      ok (ti', w')
  ]

  -- The loop of `garbage_collect_all`, and the `i` at which it ends.
  unfoldable pub collect_all_loop :
      (Mem → Space → Space → Run Collected) → ℕ → ℕ → Heap → World → Run (Heap × World × ℕ)
  unfolding collect_into_next
  collect_all_loop generation zero i h w = ok (h, w, i)
  collect_all_loop generation (suc n) i h w = elim ((h.spaces (i + 1)).start == 0) [
    | true ↦ ok (h, w, i)
    | false ↦ do
      (h1, w1) ← collect_into_next generation i h w
      collect_all_loop generation n (i + 1) h1 w1
  ]

  -- `if (h==NULL) { h = create_heap(); ti->heap = h; }`
  unfoldable pub heap_or_new : Option Heap → World → Run (Heap × World)
  unfolding create_heap
  heap_or_new heap w = elim heap [ none ↦ create_heap w | some h ↦ ok (h, w) ]

  -- `garbage_collect_all`: the heap, the memory and the last generation.
  unfoldable pub garbage_collect_all : FunInfo → ThreadInfo → World → Run (Heap × World × ℕ)
  unfolding heap_or_new collect_all_loop
  garbage_collect_all fi ti w = do
    (h, w1) ← heap_or_new ti.heap w
    assert ((h.spaces 0).limit == ti.limit)
    (h2, w2, i) ← collect_all_loop (do_generation fi ti.args) (max_spaces - 1) 0 h w1
    ok (if i == 0 then set_space h2 0 (record (h2.spaces 0) { next = ti.alloc }) else h2, w2, i)

  -- `(struct space* )malloc(sizeof(struct space))`, whose result is not tested before it is written.
  unfoldable pub malloc_space : World → Run World
  malloc_space w = elim (malloc w.mallocs 24) [
    | none ↦ abort null_pointer
    | some _ ↦ ok (record w { mallocs = w.mallocs + 1 })
  ]

  -- `export`
  unfoldable pub export : ThreadInfo → World → Run Exported
  unfolding garbage_collect_all malloc_space create_space
  export ti w =
      if not (is_block (w.mem (ti.args + 1)))
      then ok (record { result = w.mem (ti.args + 1); heap = ti.heap; world = w })
      else (do
        (h, w1, level) ← garbage_collect_all fake_fi ti w
        let sp = h.spaces level
        w2 ← malloc_space w1
        (fake_sp, w3) ← create_space (pointer_diff sp.next sp.start) w2
        r ← do_generation fake_fi ti.args w3.mem sp fake_sp
        w4 ← malloc_space (record w3 { mem = r.mem })
        (value_sp, w5) ← create_space (pointer_diff r.to.next r.to.start) w4
        s ← do_generation fake_fi ti.args w5.mem r.to value_sp
        ok (record {
          result = pointer (s.to.start + 1);
          heap = some (set_space h level r.from);
          world = record w5 { mem = s.mem };
        }))
