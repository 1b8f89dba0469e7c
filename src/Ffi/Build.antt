-- ===== src/Ffi/Build.antt =====
-- benchmarks/regex/prog_main.c (the same functions stand in benchmarks/hash and benchmarks/io):
-- how a C string becomes a value of Coq's `string`.
--
-- The constructors `make_...` and `alloc_make_...` are generated for each program, so they are
-- parameters. Those that allocate change the state `W` that holds the mutator's heap, in which the
-- accessors read. An array of characters is the list of the bytes from its address on.
pub mod RoundTrip
pub mod Sample
mod Tests
use certicoq.Prelude.{ℕ, zero, suc, ◌%◌, ◌^◌, ◌==◌, Bool, if◌then◌else◌, List, [], ◌∷◌, length}
use certicoq.Ffi.Strings.{Glue, c_string, bit}

-- The generated functions of a program: its accessors, and its constructors of `bool`, `ascii`,
-- `string`, `list` and `option`. The argument of `make_ascii` gives the eight bits.
pub record Maker (W : Type 0) : Type 0 where
  pub glue : W → Glue
  pub true_value : ℕ
  pub false_value : ℕ
  pub empty_value : ℕ
  pub make_ascii : (ℕ → ℕ) → W → ℕ × W
  pub make_string : ℕ → ℕ → W → ℕ × W

-- The byte `s[i]`.
abbrev pub byte_at : List ℕ → ℕ → ℕ
byte_at [] i = 0
byte_at (b ∷ s) zero = b
byte_at (b ∷ s) (suc i) = byte_at s i

module _ {W : Type 0} (maker : Maker W) where
  open maker use {true_value, false_value, empty_value, make_ascii, make_string}

  -- `bool_to_value`
  abbrev pub bool_to_value : Bool → ℕ
  bool_to_value b = if b then true_value else false_value

  -- `char_to_value`: the array `v` of the eight bits.
  unfoldable pub char_to_value : ℕ → W → ℕ × W
  char_to_value c w =
      make_ascii (λ i. bool_to_value (if bit c i == 0 then Bool.false else Bool.true)) w

  -- The loop of `string_to_value`, of which `i` rounds are left.
  unfoldable pub string_loop : List ℕ → ℕ → ℕ → W → ℕ × W
  unfolding char_to_value
  string_loop s zero temp w = (temp, w)
  string_loop s (suc i) temp w =
      let (c, w1) = char_to_value (byte_at s i) w in
      let (temp', w2) = make_string c temp w1 in string_loop s i temp' w2

  -- `string_to_value`: `strlen` is kept in an `unsigned int`.
  unfoldable pub string_to_value : List ℕ → W → ℕ × W
  unfolding string_loop
  string_to_value s w = string_loop s (length (c_string s) % 2 ^ 32) empty_value w
