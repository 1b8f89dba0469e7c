-- ===== src/Fakegc.antt =====
-- theories/Runtime/fakegc.c: a debugging stand-in for the collector, which gives each call an array
-- of its own and never frees one.
pub mod Contract
use certicoq.Prelude.{ℕ, ◌+◌, ◌*◌, ◌%◌, ◌^◌, Option, none, some, not, ltb}
use certicoq.Run.{
  Run, ok, abort, no_tinfo, null_pointer, small_nursery, assertion, ◌>>=◌, ◌>>◌, require,
}
use certicoq.Gc.{FunInfo}
use certicoq.Gc.Heap.{pointer_diff}

-- `struct heap`
pub record Heap : Type 0 where
  pub start : ℕ
  pub limit : ℕ
  pub space : ℕ

pub record ThreadInfo : Type 0 where
  pub alloc : ℕ
  pub limit : ℕ
  pub heap : Option Heap
  pub args : ℕ

-- The counter `GC`, and how often `malloc` has been called.
pub record Counters : Type 0 where
  pub gc : ℕ
  pub mallocs : ℕ

module _ (malloc : ℕ → ℕ → Option ℕ) where
  -- `(struct heap * ) malloc (sizeof (struct heap))` and `(value * )malloc(sizeof (value)*n)`; the
  -- first is written through untested. A NULL array is kept as address 0.
  unfoldable pub malloc_heap : ℕ → ℕ → Run ℕ
  malloc_heap calls n = elim (malloc calls 24) [
    | none ↦ abort null_pointer
    | some _ ↦ ok (elim (malloc (calls + 1) (8 * n % 2 ^ 64)) [ none ↦ 0 | some p ↦ p ])
  ]

  -- `create_heap`
  unfoldable pub create_heap : ℕ → Run Heap
  unfolding malloc_heap
  create_heap calls = do p ← malloc_heap calls 64; ok (record { start = p; limit = p; space = p })

  -- `make_tinfo`
  unfoldable pub make_tinfo : ℕ → Run ThreadInfo
  unfolding create_heap
  make_tinfo calls = do
    h ← create_heap calls
    elim (malloc (calls + 2) 8216) [
      | none ↦ abort no_tinfo
      | some p ↦ ok (record { alloc = h.start; limit = h.limit; heap = some h; args = p + 3 })
    ]

  -- `resume`
  unfoldable pub resume : FunInfo → ThreadInfo → Run ThreadInfo
  resume fi ti = elim ti.heap [
    | none ↦ abort assertion
    | some h ↦
        let lo = h.start in
        let hi = h.start + fi 0 in
        require (not (ltb (pointer_diff hi lo) (fi 0))) small_nursery
        >> ok (record ti { alloc = lo; limit = lo })
  ]

  -- `garbage_collect`
  unfoldable pub garbage_collect : FunInfo → ThreadInfo → Counters → Run (ThreadInfo × Counters)
  unfolding malloc_heap resume
  garbage_collect fi ti c = do
    p ← malloc_heap c.mallocs (fi 0)
    ti' ← resume fi (record ti { heap = some (record { start = p; limit = p + fi 0; space = p }) })
    ok (ti', record { gc = c.gc + 1; mallocs = c.mallocs + 2 })
