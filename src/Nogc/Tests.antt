-- ===== src/Nogc/Tests.antt =====
-- The theorems on nogc.c and fakegc.c (theories/Runtime) at concrete calls.
use certicoq.Prelude.{ℕ, ◌+◌, ◌*◌, ◌^◌, ◌≤◌, ◌≡◌, refl, Option, none, some, arith}
use certicoq.Run.{ok, abort, exhausted}
use certicoq.Gc.{FunInfo}
use certicoq.Nogc.{ThreadInfo, array_size, garbage_collect}
use certicoq.Nogc.Contract.{garbage_collect_first}
use certicoq.Fakegc

-- A `malloc` that gives each call its own part of the address space.
abbrev roomy : ℕ → ℕ → Option ℕ
roomy calls bytes = some ((calls + 1) * 2 ^ 30)

abbrev five : FunInfo
five i = 5

abbrev blank : ThreadInfo
blank = record { alloc = 0; limit = 0; heap = none; args = 100 }

garbage_collect_first_example :
    (t : ThreadInfo) × (garbage_collect roomy 0 five blank ≡ ok t)
    × (t.alloc ≡ 2 ^ 30 + 3)
    × (t.limit ≡ t.alloc + array_size)
    × (t.heap ≡ some (record { start = t.alloc; next = t.alloc; limit = t.limit }))
    × (t.alloc + 5 ≤ t.limit)
    × (t.args ≡ 100)
    × ((calls' : ℕ) (fi' : FunInfo) (alloc limit args : ℕ)
        → garbage_collect roomy calls' fi' (record t { alloc = alloc; limit = limit; args = args })
          ≡ abort exhausted)
garbage_collect_first_example =
    garbage_collect_first roomy 0 five blank (2 ^ 30) refl refl (omega arith)

abbrev fake_blank : Fakegc.ThreadInfo
fake_blank = record { alloc = 0; limit = 0; heap = none; args = 100 }
