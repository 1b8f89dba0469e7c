-- ===== src/Gc/Whole/ExportSteps.antt =====
-- The steps of `export` of theories/Runtime/gc.c on a pointer, when no call of `malloc` fails.
use certicoq.Prelude.{ℕ, ◌+◌, ◌-◌, ◌*◌, ◌%◌, ◌^◌, ◌≤◌, ◌<◌, ◌≡◌, refl, true, arith, Option, some}
use certicoq.Words.{is_block, pointer}
use certicoq.Memory.{Mem}
use certicoq.Run.{ok}
use certicoq.Gc.{Space, do_generation}
use certicoq.Gc.Heap.{
  Heap, ThreadInfo, World, fake_fi, pointer_diff, set_space, create_space, malloc_space,
  garbage_collect_all, export,
}
use certicoq.Gc.Generations.Fresh.{space_of}

pub pointer_diff-minus : (hi lo : ℕ) → lo ≤ hi → hi - lo < 2 ^ 64 → pointer_diff hi lo ≡ hi - lo
pointer_diff-minus hi lo le small = omega arith

-- The steps of `export` on a pointer.
module _ (malloc : ℕ → ℕ → Option ℕ) (ti : ThreadInfo) (h : Heap) (w v : World)
    (i n n' a a' p p' : ℕ) (m m' : Mem) (next next' : ℕ) where
  abbrev last : Space
  last = h.spaces i

  pub export_steps :
      is_block (w.mem (ti.args + 1)) ≡ true
      → garbage_collect_all malloc fake_fi ti w ≡ ok (h, v, i)
      → pointer_diff last.next last.start ≡ n
      → n < 2 ^ 61
      → malloc v.mallocs 24 ≡ some a
      → malloc (v.mallocs + 1) (n * 8) ≡ some p
      → do_generation fake_fi ti.args v.mem last (space_of p n)
        ≡ ok (record {
          mem = m;
          from = record last { next = last.start };
          to = record (space_of p n) { next = next };
        })
      → malloc (v.mallocs + 2) 24 ≡ some a'
      → pointer_diff next p ≡ n'
      → n' < 2 ^ 61
      → malloc (v.mallocs + 3) (n' * 8) ≡ some p'
      → do_generation fake_fi ti.args m (record (space_of p n) { next = next }) (space_of p' n')
        ≡ ok (record {
          mem = m';
          from = space_of p n;
          to = record (space_of p' n') { next = next' };
        })
      → export malloc ti w
        ≡ ok (record {
          result = pointer (p' + 1);
          heap = some (set_space h i (record last { next = last.start }));
          world = record { mem = m'; mallocs = v.mallocs + 4 };
        })
  unfolding export malloc_space create_space
  export_steps boxed all diff small given area run given' diff' small' area' run' =
      let bytes : n * 8 % 2 ^ 64 ≡ n * 8 = omega arith in
      let bytes' : n' * 8 % 2 ^ 64 ≡ n' * 8 = omega arith in
      let two : v.mallocs + 1 + 1 ≡ v.mallocs + 2 = omega arith in
      let three : v.mallocs + 1 + 1 + 1 ≡ v.mallocs + 3 = omega arith in
      let four : v.mallocs + 1 + 1 + 1 + 1 ≡ v.mallocs + 4 = omega arith in
      rw
        (
          boxed, all, malloc_space, given, create_space, diff, bytes, area, diff, two, run, given',
          diff', three, bytes', area', diff', run', four,
        )
        refl
