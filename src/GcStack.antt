-- ===== src/GcStack.antt =====
-- theories/Runtime/gc_stack.c: the collector for direct-style programs, whose roots are the words of
-- the stack frames. GcStack.Shared has the functions that gc.c has too.
pub mod Shared
pub mod Frames
pub mod Result
pub mod Whole
mod Tests
use certicoq.Prelude.{
  ℕ, zero, suc, ◌+◌, ◌-◌, ◌%◌, ◌^◌, Option, none, some, List, [], ◌∷◌, ltb, leb, ◌==◌,
  if◌then◌else◌, not,
}
use certicoq.Words.{is_block, pointer}
use certicoq.Memory.{Mem}
use certicoq.Run.{Run, ok, abort, no_tinfo, small_nursery, assertion, ◌>>=◌, ◌>>◌, assert, require}
use certicoq.Gc.{Space, Copy, Collected, depth, each_word, max_spaces}
use certicoq.GcStack.Shared.{forward, do_scan, create_space, create_heap}
use certicoq.Gc.Heap.{
  Heap, World, Exported, pointer_diff, set_space, collect_loop, collect_all_loop, heap_or_new,
  malloc_space,
}

-- `struct stack_frame`: the array of roots of a function, from `root` up to `next`. The chain of
-- `prev` is a list, the newest frame first.
pub record StackFrame : Type 0 where
  pub next : ℕ
  pub root : ℕ

-- `struct thread_info`; `args` is where its array of arguments stands, no heap is NULL, and `fp` is
-- the list of frames, which is empty for NULL.
pub record ThreadInfo : Type 0 where
  pub alloc : ℕ
  pub limit : ℕ
  pub heap : Option Heap
  pub args : ℕ
  pub fp : List StackFrame
  pub nalloc : ℕ

-- `forward_roots`: every word of every frame.
unfoldable pub forward_frames : ℕ → ℕ → List StackFrame → Copy → Copy
unfolding each_word
forward_frames from_start from_limit [] c = c
forward_frames from_start from_limit (frame ∷ frames) c =
    forward_frames from_start from_limit frames (
      each_word (λ curr d. forward from_start from_limit depth curr d) (frame.next - frame.root)
        frame.root c)

-- `do_generation`. The differences of pointers in its assertion are signed, so each side's
-- subtraction is written as an addition on the other. `do_scan` runs on the words that are left in
-- to-space as its fuel.
unfoldable pub do_generation : List StackFrame → Mem → Space → Space → Run Collected
unfolding forward_frames
do_generation frames m from to = do
  assert (leb (from.next + to.next) (to.limit + from.start))
  d ←
      do_scan from.start from.limit (to.limit - to.next) to.next
        (forward_frames from.start from.limit frames (record { mem = m; next = to.next }))
  ok (record {
    mem = d.mem;
    from = record from { next = from.start };
    to = record to { next = d.next };
  })

-- `resume`. The difference of pointers is compared as a `uintnat`.
unfoldable pub resume : ThreadInfo → Run ThreadInfo
resume ti = elim ti.heap [
  | none ↦ abort assertion
  | some h ↦
      let lo = (h.spaces 0).start in
      let hi = (h.spaces 0).limit in
      require (not (ltb (pointer_diff hi lo) ti.nalloc)) small_nursery
      >> ok (record ti { alloc = lo; limit = hi })
]

module _ (malloc : ℕ → ℕ → Option ℕ) where
  -- `make_tinfo`: the args array is the fourth word of a `struct thread_info`. `nalloc` is not
  -- set: it is what `malloc` left there.
  unfoldable pub make_tinfo : ℕ → World → Run (ThreadInfo × World)
  make_tinfo left_there w = do
    (h, w1) ← create_heap malloc w
    elim (malloc w1.mallocs 8232) [
      | none ↦ abort no_tinfo
      | some p ↦ ok (
        record {
          alloc = (h.spaces 0).start;
          limit = (h.spaces 0).limit;
          heap = some h;
          args = p + 3;
          fp = [];
          nalloc = left_there;
        },
        record w1 { mallocs = w1.mallocs + 1 },
      )
    ]

  -- `garbage_collect`
  unfoldable pub garbage_collect : ThreadInfo → World → Run (ThreadInfo × World)
  unfolding resume
  garbage_collect ti w = elim ti.heap [
    | none ↦ do
      (h, w1) ← create_heap malloc w
      ti' ← resume (record ti { heap = some h })
      ok (ti', w1)
    | some h ↦ do
      assert ((h.spaces 0).limit == ti.limit)
      (h', w') ←
          collect_loop malloc (do_generation ti.fp) (max_spaces - 1) 0
            (set_space h 0 (record (h.spaces 0) { next = ti.alloc })) w
      ti' ← resume (record ti { heap = some h' })
      ok (ti', w')
  ]

  -- `garbage_collect_all`: the heap, the memory and the last generation.
  unfoldable pub garbage_collect_all : ThreadInfo → World → Run (Heap × World × ℕ)
  garbage_collect_all ti w = do
    (h, w1) ← heap_or_new malloc ti.heap w
    assert ((h.spaces 0).limit == ti.limit)
    (h2, w2, i) ← collect_all_loop malloc (do_generation ti.fp) (max_spaces - 1) 0 h w1
    ok (if i == 0 then set_space h2 0 (record (h2.spaces 0) { next = ti.alloc }) else h2, w2, i)

  -- `export`
  unfoldable pub export : ThreadInfo → World → Run Exported
  unfolding garbage_collect_all
  export ti w =
      if not (is_block (w.mem (ti.args + 1)))
      then ok (record { result = w.mem (ti.args + 1); heap = ti.heap; world = w })
      else (do
        (h, w1, level) ← garbage_collect_all ti w
        let sp = h.spaces level
        w2 ← malloc_space malloc w1
        (fake_sp, w3) ← create_space malloc (pointer_diff sp.next sp.start) w2
        r ← do_generation ti.fp w3.mem sp fake_sp
        w4 ← malloc_space malloc (record w3 { mem = r.mem })
        (value_sp, w5) ← create_space malloc (pointer_diff r.to.next r.to.start) w4
        s ← do_generation ti.fp w5.mem r.to value_sp
        ok (record {
          result = pointer (s.to.start + 1);
          heap = some (set_space h level r.from);
          world = record w5 { mem = s.mem };
        }))
