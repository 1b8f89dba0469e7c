-- ===== src/Run.antt =====
-- How a call of theories/Runtime ends: with a value, in one of the calls of `abort_with`, `exit` or
-- `assert` that stop the process, or not within the fuel of a loop.
use certicoq.Prelude.{Bool, true, false}

pub data Reason : Type 0 where
  -- an `assert` that fails
  assertion : Reason
  -- "Could not create the next generation"
  no_space : Reason
  -- "Could not create the heap" and "Could not allocate thread_info struct"
  no_heap : Reason
  no_tinfo : Reason
  -- a write through a pointer that `malloc` returned as NULL, and was not tested
  null_pointer : Reason
  -- "Nursery is too small for function's num_allocs"
  small_nursery : Reason
  -- "Ran out of generations", and nogc.c's "Ran out of heap, and no garbage collector present!"
  exhausted : Reason

-- The fuel of a loop may run out before the loop ends.
pub data Run {ℓ} (A : Type ℓ) : Type ℓ where
  out_of_fuel : Run A
  abort : Reason → Run A
  ok : A → Run A

infixl 5 ◌>>=◌ ◌>>◌
abbrev pub ◌>>=◌ {ℓ κ} : {A : Type ℓ} {B : Type κ} → Run A → (A → Run B) → Run B
out_of_fuel >>= next_call = out_of_fuel
abort reason >>= next_call = abort reason
ok value >>= next_call = next_call value

-- A test of the C code, and what follows it.
abbrev pub ◌>>◌ {ℓ} : {B : Type ℓ} → Run (Unit {0}) → Run B → Run B
test >> rest = test >>= λ _. rest

-- `assert (b)`
abbrev pub assert : Bool → Run (Unit {0})
assert true = ok tt
assert false = abort assertion

-- `if (! b) abort_with (...)`
abbrev pub require : Bool → Reason → Run (Unit {0})
require true r = ok tt
require false r = abort r
