-- ===== src/Mutator.antt =====
-- theories/Runtime/gctest.c: a mutator of the collector in gc.c, which inserts keys into a binary
-- search tree in continuation-passing style, with all its data in the heap.
--
-- A function that is stored in memory or jumped to is the word of its address. `random` is a
-- function of how many calls went before, as `malloc` is.
pub mod Tree
pub mod Steps
pub mod Return
pub mod Insertion
pub mod Alloc
pub mod Build
pub mod Measure
pub mod Order
mod Tests
use certicoq.Prelude.{
  ℕ, zero, suc, ◌+◌, ◌*◌, ◌%◌, ◌^◌, Bool, Option, List, [], ◌∷◌, false, ltb, ◌==◌, if◌then◌else◌,
}
use certicoq.Prelude.Int.{ℤ, pos, negsuc}
use certicoq.Prelude.{length}
use certicoq.Words.{index, pointer, long_val, val_long}
use certicoq.Memory.{Mem, write}
use certicoq.Run.{Run, ok, ◌>>=◌}
use certicoq.Gc.{FunInfo}
use certicoq.Gc.Heap.{ThreadInfo, World, pointer_diff, garbage_collect}

-- The addresses of the functions.
pub record Code : Type 0 where
  pub insert : ℕ
  pub insert_left : ℕ
  pub insert_right : ℕ
  pub build : ℕ
  pub done : ℕ

-- What the functions change. `random` has been called `randoms` times.
pub record State : Type 0 where
  pub ti : ThreadInfo
  pub world : World
  pub randoms : ℕ

-- `Null`
abbrev pub null : ℕ
null = 1

-- `ti->args[i]`, as it is read and as it is assigned.
abbrev pub arg : State → ℕ → ℕ
arg s i = s.world.mem (s.ti.args + i)

abbrev pub set_arg : ℕ → ℕ → State → State
set_arg i v s = record s { world = record s.world { mem = write s.world.mem (s.ti.args + i) v } }

-- `Field (v, i)`
abbrev pub field : State → ℕ → ℕ → ℕ
field s v i = s.world.mem (index v + i)

-- `a < b` of two values.
unfoldable pub less : ℕ → ℕ → Bool
less a b = ltb ((a + 2 ^ 63) % 2 ^ 64) ((b + 2 ^ 63) % 2 ^ 64)

-- p[0] = ..., p[1] = ..., ... for the words of a list.
unfoldable pub store : ℕ → List ℕ → Mem → Mem
store p [] m = m
store p (a ∷ ws) m = store (p + 1) ws (write m p a)

-- `cons1` to `cons5`, after which the block is at `alloc_value` of the state before.
unfoldable pub cons : ℕ → List ℕ → State → State
unfolding store
cons c ws s =
    let p = s.ti.alloc in
    record s {
      ti = record s.ti { alloc = p + (length ws + 1) };
      world = record s.world { mem = store p ((length ws * 1024 + c % 256) ∷ ws) s.world.mem };
    }

abbrev pub alloc_value : State → ℕ
alloc_value s = pointer (s.ti.alloc + 1)

-- An array of a function's needs, beyond which nothing is read.
unfoldable pub info : List ℕ → FunInfo
info [] i = 0
info (a ∷ ws) zero = a
info (a ∷ ws) (suc i) = info ws i

abbrev pub fi_insert : FunInfo
unfolding info
fi_insert = info (5 ∷ 4 ∷ 1 ∷ 2 ∷ 3 ∷ 4 ∷ [])

abbrev pub fi_insert_left : FunInfo
unfolding info
fi_insert_left = info (4 ∷ 2 ∷ 4 ∷ 1 ∷ [])

abbrev pub fi_insert_right : FunInfo
unfolding info
fi_insert_right = info (4 ∷ 2 ∷ 4 ∷ 1 ∷ [])

abbrev pub fi_build : FunInfo
unfolding info
fi_build = info (0 ∷ 2 ∷ 4 ∷ 1 ∷ [])

-- `n1 > 0` and `n1 - 1` of an `intnat`.
abbrev pub is_positive : ℤ → Bool
is_positive (pos n) = ltb 0 n
is_positive (negsuc n) = false

abbrev pub decrement : ℤ → ℤ
decrement (pos zero) = negsuc 0
decrement (pos (suc n)) = pos n
decrement (negsuc n) = negsuc (n + 1)

module _ (malloc : ℕ → ℕ → Option ℕ) (random : ℕ → ℕ) (code : Code) where
  -- `check`: a difference of pointers against a `uintnat`.
  unfoldable pub check : FunInfo → State → Run State
  check fi s =
      if ltb (pointer_diff s.ti.limit s.ti.alloc) (fi 0)
      then (do
        (ti, world) ← garbage_collect malloc fi s.ti s.world
        ok (record s { ti = ti; world = world }))
      else ok s

  -- The functions' results are where they jump to, and the state then.
  --
  -- `insert` after its check.
  unfoldable pub insert_checked : State → ℕ × State
  unfolding cons less
  insert_checked s =
      let t = arg s 1 in
      let key = arg s 2 in
      let contf = arg s 3 in
      let conte = arg s 4 in
      if t == null
      then (contf, set_arg 1 (alloc_value s) (set_arg 4 conte (cons 0 (key ∷ null ∷ null ∷ []) s)))
      else (let k = field s t 0 in
          let left = field s t 1 in
          let right = field s t 2 in
          if less key k
          then (
            code.insert,
            set_arg 4 (alloc_value s) (
                set_arg 3 code.insert_left
                  (set_arg 2 key (set_arg 1 left (cons 1 (k ∷ right ∷ contf ∷ conte ∷ []) s)))),
          )
          else if less k key
          then (
            code.insert,
            set_arg 4 (alloc_value s) (
                set_arg 3 code.insert_right
                  (set_arg 2 key (set_arg 1 right (cons 2 (k ∷ left ∷ contf ∷ conte ∷ []) s)))),
          )
          else (contf, set_arg 1 t (set_arg 4 conte s)))

  -- `insert`
  unfoldable pub insert : State → Run (ℕ × State)
  unfolding check insert_checked
  insert s = do s' ← check fi_insert s; ok (insert_checked s')

  -- `insert_left`
  unfoldable pub insert_left : State → Run (ℕ × State)
  unfolding check cons
  insert_left s0 = do
    s ← check fi_insert_left s0
    let e = arg s 4
    let u = arg s 1
    let k = field s e 0
    let right = field s e 1
    let contf = field s e 2
    let conte = field s e 3
    ok (contf, set_arg 1 (alloc_value s) (set_arg 4 conte (cons 0 (k ∷ u ∷ right ∷ []) s)))

  -- `insert_right`
  unfoldable pub insert_right : State → Run (ℕ × State)
  unfolding check cons
  insert_right s0 = do
    s ← check fi_insert_right s0
    let e = arg s 4
    let u = arg s 1
    let k = field s e 0
    let left = field s e 1
    let contf = field s e 2
    let conte = field s e 3
    ok (contf, set_arg 1 (alloc_value s) (set_arg 4 conte (cons 0 (k ∷ left ∷ u ∷ []) s)))

  -- `build`, which inserts `Long_val(args[4])` random keys and then calls `done`.
  unfoldable pub build : State → Run (ℕ × State)
  unfolding check
  build s0 = do
    s ← check fi_build s0
    let n1 = long_val (arg s 4)
    let t = arg s 1
    if is_positive n1
        then ok (
          code.insert,
          set_arg 4 (val_long (decrement n1)) (
              set_arg 3 code.build (
                set_arg 2 (val_long (pos (random s.randoms % 1000)))
                  (set_arg 1 t (record s { randoms = s.randoms + 1 })))),
        )
        else ok (code.done, set_arg 1 t s)

  -- `jump(f)`. A jump to any other word, `done` among them, leaves the program.
  unfoldable pub jump : ℕ × State → Run (ℕ × State)
  unfolding insert insert_left insert_right build
  jump (f, s) =
      if f == code.insert
      then insert s
      else if f == code.insert_left
      then insert_left s
      else if f == code.insert_right
      then insert_right s
      else if f == code.build
      then build s
      else ok (f, s)

  -- So many jumps, one after another.
  unfoldable pub jumps : ℕ → ℕ × State → Run (ℕ × State)
  unfolding jump
  jumps zero at = ok at
  jumps (suc n) at = jump at >>= λ next. jumps n next
