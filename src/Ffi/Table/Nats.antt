-- ===== src/Ffi/Table/Nats.antt =====
-- `uint_to_nat` and `nat_to_uint` of benchmarks/hash/prog_main.c.
use certicoq.Prelude.{
  ℕ, zero, suc, ◌+◌, ◌-◌, ◌%◌, ◌^◌, ◌<◌, ◌≤◌, ◌≡◌, refl, Option, none, some, true, false, arith, ap,
  ◌∙◌, leb,
}
use certicoq.Ffi.Table.{uint_loop, uint_to_nat, nat_loop, nat_to_uint}

-- `n` applications of `f`.
numeral : {V : Type 0} → (V → V) → ℕ → V → V
numeral f zero v = v
numeral f (suc n) v = numeral f n (f v)

numeral-suc : {V : Type 0} (f : V → V) (n : ℕ) (v : V) → numeral f (suc n) v ≡ f (numeral f n v)
unfolding numeral
numeral-suc f zero v = refl
numeral-suc f (suc n) v = numeral-suc f n (f v)

module _ {V : Type 0} (make_O : V) (make_S : V → V) (unfold_S : V → Option V) where
  uint_loop_lem :
      (k fuel num i : ℕ) (v : V)
      → num < 2 ^ 32 - 1
      → i + k ≡ num + 1
      → k < fuel
      → uint_loop make_O make_S unfold_S fuel num i v ≡ some (numeral make_S k v)
  unfolding uint_loop numeral
  uint_loop_lem k zero num i v small e h = absurd (omega arith)
  uint_loop_lem zero (suc fuel) num i v small e h =
      let stop : leb i num ≡ false = ground arith in rw stop refl
  uint_loop_lem (suc k) (suc fuel) num i v small e h =
      let more : leb i num ≡ true = ground arith in
      let next : (i + 1) % 2 ^ 32 ≡ i + 1 = omega arith in
      rw (more, next)
        (uint_loop_lem k fuel num (i + 1) (make_S v) small (omega arith) (omega arith))

  -- At the largest `unsigned int` the test `i <= num` never fails.
  uint_loop_endless :
      (fuel i : ℕ) (v : V)
      → i < 2 ^ 32
      → uint_loop make_O make_S unfold_S fuel (2 ^ 32 - 1) i v ≡ none
  unfolding uint_loop
  uint_loop_endless zero i v h = refl
  uint_loop_endless (suc fuel) i v h =
      let more : leb i (2 ^ 32 - 1) ≡ true = ground arith in
      rw (more, uint_loop_endless fuel ((i + 1) % 2 ^ 32) (make_S v) (omega arith)) refl

  -- At the largest `unsigned int` `uint_to_nat` does not return, whatever the fuel.
  pub uint_to_nat_endless : (fuel : ℕ) → uint_to_nat make_O make_S unfold_S fuel (2 ^ 32 - 1) ≡ none
  unfolding uint_to_nat
  uint_to_nat_endless fuel = uint_loop_endless fuel 0 make_O (omega arith)

  module _ (unfold_O : unfold_S make_O ≡ none)
      (unfold-make : (n : V) → unfold_S (make_S n) ≡ some n) where
    nat_loop_lem :
        (k fuel i : ℕ)
        → i + k < 2 ^ 32
        → k < fuel
        → nat_loop make_O make_S unfold_S fuel (numeral make_S k make_O) i ≡ some (i + k)
    unfolding nat_loop numeral
    nat_loop_lem k zero i small h = absurd (omega arith)
    nat_loop_lem zero (suc fuel) i small h = rw (unfold_O, nat_loop) (ap some (omega arith))
    nat_loop_lem (suc k) (suc fuel) i small h =
        let next : (i + 1) % 2 ^ 32 ≡ i + 1 = omega arith in
        rw (numeral-suc make_S k make_O, unfold-make, nat_loop, next)
          (nat_loop_lem k fuel (i + 1) (omega arith) (omega arith) ∙ ap some (omega arith))

    -- Below the largest `unsigned int`, a number that `uint_to_nat` converts and `nat_to_uint`
    -- converts back has become larger by one.
    pub nat_to_uint-uint_to_nat :
        (num fuel : ℕ)
        → num < 2 ^ 32 - 1
        → num + 2 ≤ fuel
        → (n : V) × (uint_to_nat make_O make_S unfold_S fuel num ≡ some n)
          × (nat_to_uint make_O make_S unfold_S fuel n ≡ some (num + 1))
    unfolding uint_to_nat nat_to_uint
    nat_to_uint-uint_to_nat num fuel small h = (
      numeral make_S (num + 1) make_O,
      uint_loop_lem (num + 1) fuel num 0 make_O small (omega arith) (omega arith),
      nat_loop_lem (num + 1) fuel 0 (omega arith) (omega arith) ∙ ap some (omega arith),
    )
