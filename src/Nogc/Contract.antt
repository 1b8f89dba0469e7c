-- ===== src/Nogc/Contract.antt =====
-- nogc.c against the interface of theories/Runtime/gc.h.
use certicoq.Prelude.{
  ℕ, ◌+◌, ◌-◌, ◌*◌, ◌%◌, ◌^◌, ◌≤◌, ◌≡◌, refl, Option, none, some, arith, ltb, false,
}
use certicoq.Run.{ok, abort, exhausted}
use certicoq.Gc.{FunInfo}
use certicoq.Nogc.{ThreadInfo, array_size, garbage_collect}

module _ (malloc : ℕ → ℕ → Option ℕ) (calls : ℕ) (fi : FunInfo) (ti : ThreadInfo) where
  -- Where the thread has no heap, `malloc` gives an area for the descriptor of three words and the
  -- array, and the function needs no more than the array, a collection makes the words behind the
  -- descriptor the heap, hands all of them to the mutator, which is room for the words asked for, and
  -- leaves the args where they are. A later collection of the thread stops the process, wherever its
  -- `alloc`, `limit` and `args` are by then.
  pub garbage_collect_first :
      (p : ℕ)
      → ti.heap ≡ none
      → malloc calls ((3 + array_size) * 8) ≡ some p
      → fi 0 ≤ array_size
      → (t : ThreadInfo) × (garbage_collect malloc calls fi ti ≡ ok t)
        × (t.alloc ≡ p + 3)
        × (t.limit ≡ t.alloc + array_size)
        × (t.heap ≡ some (record { start = t.alloc; next = t.alloc; limit = t.limit }))
        × (t.alloc + fi 0 ≤ t.limit)
        × (t.args ≡ ti.args)
        × ((calls' : ℕ) (fi' : FunInfo) (alloc limit args : ℕ)
            → garbage_collect malloc calls' fi'
                (record t { alloc = alloc; limit = limit; args = args })
              ≡ abort exhausted)
  unfolding garbage_collect
  garbage_collect_first p no_heap m h =
      let room : ltb (array_size % 2 ^ 64) (fi 0) ≡ false = ground arith in
      let diff : (p + 3 + array_size + 2 ^ 64 - (p + 3)) % 2 ^ 64 ≡ array_size = omega arith in
      let enough : ltb array_size (fi 0) ≡ false = ground arith in
      (
        record ti {
          alloc = p + 3;
          limit = p + 3 + array_size;
          heap = some (record { start = p + 3; next = p + 3; limit = p + 3 + array_size });
        },
        ground (arith, diff, enough),
        refl,
        refl,
        refl,
        omega arith,
        refl,
        λ calls' fi' alloc limit args. refl,
      )
