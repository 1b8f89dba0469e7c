-- ===== src/Nogc.antt =====
-- theories/Runtime/nogc.c: the gc.h interface over one fixed array of words, with no collection.
--
-- `malloc` is a parameter, as in `Gc.Heap`. Its results are used untested where the code does so.
pub mod Contract
mod Tests
use certicoq.Prelude.{ℕ, ◌+◌, ◌-◌, ◌*◌, ◌%◌, ◌^◌, Option, none, some, not, ltb}
use certicoq.Run.{
  Run, ok, abort, no_tinfo, null_pointer, small_nursery, exhausted, assertion, ◌>>=◌, ◌>>◌, require,
}
use certicoq.Gc.{FunInfo}
use certicoq.Gc.Heap.{pointer_diff}

-- `SIZE`
abbrev pub array_size : ℕ
array_size = 2 ^ 25

-- `struct heap`: three pointers, and the array behind them.
pub record Heap : Type 0 where
  pub start : ℕ
  pub next : ℕ
  pub limit : ℕ

pub record ThreadInfo : Type 0 where
  pub alloc : ℕ
  pub limit : ℕ
  pub heap : Option Heap
  pub args : ℕ

module _ (malloc : ℕ → ℕ → Option ℕ) where
  -- `create_heap`, which `garbage_collect` repeats.
  unfoldable pub create_heap : ℕ → Run Heap
  create_heap calls = elim (malloc calls ((3 + array_size) * 8)) [
    | none ↦ abort null_pointer
    | some p ↦ ok (record { start = p + 3; next = p + 3; limit = p + 3 + array_size })
  ]

  -- `make_tinfo`
  unfoldable pub make_tinfo : ℕ → Run ThreadInfo
  unfolding create_heap
  make_tinfo calls = do
    h ← create_heap calls
    elim (malloc (calls + 1) 8216) [
      | none ↦ abort no_tinfo
      | some p ↦ ok (record { alloc = h.start; limit = h.limit; heap = some h; args = p + 3 })
    ]

  -- `resume`, whose message is "Heap is too small for function's num_allocs".
  unfoldable pub resume : FunInfo → ThreadInfo → Run ThreadInfo
  resume fi ti = elim ti.heap [
    | none ↦ abort assertion
    | some h ↦
        require (not (ltb (pointer_diff h.limit h.start) (fi 0))) small_nursery
        >> ok (record ti { alloc = h.start; limit = h.limit })
  ]

  -- `garbage_collect`
  unfoldable pub garbage_collect : ℕ → FunInfo → ThreadInfo → Run ThreadInfo
  unfolding create_heap resume
  garbage_collect calls fi ti = elim ti.heap [
    | none ↦ do h ← create_heap calls; resume fi (record ti { heap = some h })
    | some h ↦ abort exhausted
  ]

-- `reset_heap`
unfoldable pub reset_heap : Heap → Heap
reset_heap h = record h { next = h.start }
