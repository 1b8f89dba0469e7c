-- ===== src/Registers.antt =====
-- theories/Runtime/gctest2.c, gctest3.c and gctest4.c: the program of gctest.c with its registers as
-- arguments of the C functions. The three differ in `check`, and gctest4.c passes the limit on as
-- an argument too.
--
-- They call a `garbage_collect` whose `struct thread_info` holds pointers to `args`, `alloc` and
-- `limit`. No file of the repository declares that one, so it is a parameter, on those three and the
-- memory.
pub mod Headroom
mod Tests
use certicoq.Prelude.{
  ℕ, ◌+◌, ◌-◌, ◌*◌, ◌%◌, ◌^◌, Bool, List, [], ◌∷◌, length, ltb, leb, ◌==◌, if◌then◌else◌,
}
use certicoq.Prelude.Int.{ℤ, pos}
use certicoq.Words.{index, pointer, long_val, val_long}
use certicoq.Memory.{Mem}
use certicoq.Run.{Run, ok, ◌>>=◌}
use certicoq.Gc.{FunInfo}
use certicoq.Gc.Heap.{pointer_diff}
use certicoq.Mutator.{
  Code, null, less, store, is_positive, decrement, fi_insert, fi_insert_left, fi_insert_right,
  fi_build,
}

-- The global variables, and the memory.
pub record Globals : Type 0 where
  pub alloc : ℕ
  pub limit : ℕ
  pub args : ℕ → ℕ
  pub mem : Mem

-- The arguments of a function, with the globals. Only gctest4.c has `limitx`.
pub record Regs : Type 0 where
  pub allocx : ℕ
  pub limitx : ℕ
  pub a1 : ℕ
  pub a2 : ℕ
  pub a3 : ℕ
  pub a4 : ℕ
  pub globals : Globals
  pub randoms : ℕ

-- The macros `cons3` and `cons4`.
unfoldable pub cons_at : ℕ → List ℕ → Regs → Regs
unfolding store
cons_at c fields s = record s {
  allocx = s.allocx + (length fields + 1);
  globals = record s.globals {
    mem = store s.allocx ((length fields * 1024 + c) ∷ fields) s.globals.mem;
  };
}

abbrev pub word_at : Regs → ℕ → ℕ → ℕ
word_at s v i = s.globals.mem (index v + i)

abbrev pub headroom : ℕ
headroom = 100

-- `fi[0] < HEADROOM ? (limit <= allocx) : (limit - allocx < fi[0] - HEADROOM)`, in `uintnat`.
unfoldable pub collect_wanted : ℕ → ℕ → ℕ → Bool
collect_wanted limit allocx n =
    if ltb n headroom
    then leb limit allocx
    else ltb (pointer_diff limit allocx) ((n + 2 ^ 64 - headroom) % 2 ^ 64)

-- args[1]=a1; ... args[4]=a4;
unfoldable pub spill : Regs → ℕ → ℕ
spill s i =
    if i == 1
    then s.a1
    else if i == 2
    then s.a2
    else if i == 3
    then s.a3
    else if i == 4
    then s.a4
    else s.globals.args i

-- allocx=alloc; a1=args[1]; ... a4=args[4];
unfoldable pub reload : Globals → Regs → Regs
reload g s = record s {
  allocx = g.alloc;
  a1 = g.args 1;
  a2 = g.args 2;
  a3 = g.args 3;
  a4 = g.args 4;
  globals = g;
}

module _ (garbage_collect : FunInfo → Globals → Run Globals) where
  -- `check` of gctest2.c
  unfoldable pub check_limit : FunInfo → Regs → Run Regs
  unfolding spill reload
  check_limit fi s =
      if ltb (pointer_diff s.globals.limit s.allocx) (fi 0)
      then (do
        g ← garbage_collect fi (record s.globals { alloc = s.allocx; args = spill s })
        ok (reload g s))
      else ok s

  -- `check` of gctest3.c
  unfoldable pub check_headroom : FunInfo → Regs → Run Regs
  unfolding spill reload collect_wanted
  check_headroom fi s =
      if collect_wanted s.globals.limit s.allocx (fi 0)
      then (do
        g ← garbage_collect fi (record s.globals {
          alloc = s.allocx;
          limit = s.globals.limit + headroom;
          args = spill s;
        })
        let g' : Globals = record g { limit = g.limit - headroom }
        ok (reload g' s))
      else ok s

  -- `check` of gctest4.c
  unfoldable pub check_limitx : FunInfo → Regs → Run Regs
  unfolding spill reload collect_wanted
  check_limitx fi s =
      if collect_wanted s.limitx s.allocx (fi 0)
      then (do
        g ← garbage_collect fi (record s.globals { alloc = s.allocx; args = spill s })
        ok (record (reload g s) { limitx = g.limit - headroom }))
      else ok s

-- The functions, for one of the checks.
module _ (random : ℕ → ℕ) (code : Code) (check : FunInfo → Regs → Run Regs) where
  unfoldable pub insert_with : Regs → Run (ℕ × Regs)
  unfolding cons_at less
  insert_with s0 = do
    s ← check fi_insert s0
    let t = s.a1
    let key = s.a2
    if t == null
        then (let s1 = cons_at 0 (key ∷ null ∷ null ∷ []) s in
            ok (s.a3, record s1 { a4 = s.a4; a1 = pointer (s.allocx + 1) }))
        else (let k = word_at s t 0 in
            let left = word_at s t 1 in
            let right = word_at s t 2 in
            if less key k
            then ok (
              code.insert,
              record (cons_at 1 (k ∷ right ∷ s.a3 ∷ s.a4 ∷ []) s) {
                a1 = left;
                a2 = key;
                a3 = code.insert_left;
                a4 = pointer (s.allocx + 1);
              },
            )
            else if less k key
            then ok (
              code.insert,
              record (cons_at 2 (k ∷ left ∷ s.a3 ∷ s.a4 ∷ []) s) {
                a1 = right;
                a2 = key;
                a3 = code.insert_right;
                a4 = pointer (s.allocx + 1);
              },
            )
            else ok (s.a3, s))

  unfoldable pub insert_left_with : Regs → Run (ℕ × Regs)
  unfolding cons_at
  insert_left_with s0 = do
    s ← check fi_insert_left s0
    let e = s.a4
    ok (
      word_at s e 2,
      record (cons_at 0 (word_at s e 0 ∷ s.a1 ∷ word_at s e 1 ∷ []) s) {
        a4 = word_at s e 3;
        a1 = pointer (s.allocx + 1);
      },
    )

  unfoldable pub insert_right_with : Regs → Run (ℕ × Regs)
  unfolding cons_at
  insert_right_with s0 = do
    s ← check fi_insert_right s0
    let e = s.a4
    ok (
      word_at s e 2,
      record (cons_at 0 (word_at s e 0 ∷ word_at s e 1 ∷ s.a1 ∷ []) s) {
        a4 = word_at s e 3;
        a1 = pointer (s.allocx + 1);
      },
    )

  -- `buildx`; in the end it stores `alloc` and `args[1]`.
  unfoldable pub build_with : Regs → Run (ℕ × Regs)
  build_with s0 = do
    s ← check fi_build s0
    let n1 = long_val s.a4
    if is_positive n1
        then ok (
          code.insert,
          record s {
            a2 = val_long (pos (random s.randoms % 1000));
            a3 = code.build;
            a4 = val_long (decrement n1);
            randoms = s.randoms + 1;
          },
        )
        else ok (
          code.done,
          record s {
            globals = record s.globals {
              alloc = s.allocx;
              args = λ i. if i == 1 then s.a1 else s.globals.args i;
            };
          },
        )

-- The functions of each file.
module _ (garbage_collect : FunInfo → Globals → Run Globals) (random : ℕ → ℕ) (code : Code) where
  -- `insert` of gctest2.c
  unfoldable pub insert_limit : Regs → Run (ℕ × Regs)
  unfolding insert_with check_limit
  insert_limit = insert_with random code (check_limit garbage_collect)

  -- `insert_left` of gctest2.c
  unfoldable pub insert_left_limit : Regs → Run (ℕ × Regs)
  unfolding insert_left_with check_limit
  insert_left_limit = insert_left_with random code (check_limit garbage_collect)

  -- `insert_right` of gctest2.c
  unfoldable pub insert_right_limit : Regs → Run (ℕ × Regs)
  unfolding insert_right_with check_limit
  insert_right_limit = insert_right_with random code (check_limit garbage_collect)

  -- `buildx` of gctest2.c
  unfoldable pub build_limit : Regs → Run (ℕ × Regs)
  unfolding build_with check_limit
  build_limit = build_with random code (check_limit garbage_collect)

  -- `insert` of gctest3.c
  unfoldable pub insert_headroom : Regs → Run (ℕ × Regs)
  unfolding insert_with check_headroom
  insert_headroom = insert_with random code (check_headroom garbage_collect)

  -- `insert_left` of gctest3.c
  unfoldable pub insert_left_headroom : Regs → Run (ℕ × Regs)
  unfolding insert_left_with check_headroom
  insert_left_headroom = insert_left_with random code (check_headroom garbage_collect)

  -- `insert_right` of gctest3.c
  unfoldable pub insert_right_headroom : Regs → Run (ℕ × Regs)
  unfolding insert_right_with check_headroom
  insert_right_headroom = insert_right_with random code (check_headroom garbage_collect)

  -- `buildx` of gctest3.c
  unfoldable pub build_headroom : Regs → Run (ℕ × Regs)
  unfolding build_with check_headroom
  build_headroom = build_with random code (check_headroom garbage_collect)

  -- `insert` of gctest4.c
  unfoldable pub insert_limitx : Regs → Run (ℕ × Regs)
  unfolding insert_with check_limitx
  insert_limitx = insert_with random code (check_limitx garbage_collect)

  -- `insert_left` of gctest4.c
  unfoldable pub insert_left_limitx : Regs → Run (ℕ × Regs)
  unfolding insert_left_with check_limitx
  insert_left_limitx = insert_left_with random code (check_limitx garbage_collect)

  -- `insert_right` of gctest4.c
  unfoldable pub insert_right_limitx : Regs → Run (ℕ × Regs)
  unfolding insert_right_with check_limitx
  insert_right_limitx = insert_right_with random code (check_limitx garbage_collect)

  -- `buildx` of gctest4.c
  unfoldable pub build_limitx : Regs → Run (ℕ × Regs)
  unfolding build_with check_limitx
  build_limitx = build_with random code (check_limitx garbage_collect)
