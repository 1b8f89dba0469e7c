-- ===== src/Ffi/Strings.antt =====
-- benchmarks/regex/prog_main.c: how a value of Coq's `string` is read as a C string. (`ascii_to_char`
-- stands in benchmarks/hash and benchmarks/io too.)
--
-- The accessors `get_..._tag` are generated for each program, so they are parameters, with the
-- memory that they and the code read. A C string is the list of its bytes; a `char` is a byte, and
-- `malloc` gives the array of `value_to_string`.
pub mod Read
use certicoq.Prelude.{
  ℕ, zero, suc, ◌+◌, ◌*◌, ◌%◌, ◌/◌, ◌^◌, ◌<◌, ◌≡◌, List, [], ◌∷◌, ◌++◌, true, false, ◌==◌,
  if◌then◌else◌,
}

-- How a call ends: with a value, in something that C leaves undefined (an access outside an array, or
-- an `int` that overflows), or not within the fuel of a loop.
pub data Attempt {ℓ} (A : Type ℓ) : Type ℓ where
  ok : A → Attempt A
  undefined : Attempt A
  endless : Attempt A

infixl 5 ◌>>=◌
abbrev pub ◌>>=◌ {ℓ κ} : {A : Type ℓ} {B : Type κ} → Attempt A → (A → Attempt B) → Attempt B
ok a >>= f = f a
undefined >>= f = undefined
endless >>= f = endless

-- `*((value * ) v + i)`, and the generated accessors.
pub record Glue : Type 0 where
  pub field : ℕ → ℕ → ℕ
  pub bool_tag : ℕ → ℕ
  pub string_tag : ℕ → ℕ
  pub rgx_tag : ℕ → ℕ

-- The position `i` of an array; a write out of range changes nothing.
abbrev pub set : List ℕ → ℕ → ℕ → List ℕ
set [] i v = []
set (x ∷ xs) zero v = v ∷ xs
set (x ∷ xs) (suc i) v = x ∷ set xs i v

abbrev pub replicate : ℕ → ℕ → List ℕ
replicate zero a = []
replicate (suc n) a = a ∷ replicate n a

-- What `strlen` and `strcat` see of an array: the bytes before the first NUL.
abbrev pub c_string : List ℕ → List ℕ
c_string [] = []
c_string (b ∷ bs) = if b == 0 then [] else b ∷ c_string bs

module _ (g : Glue) where
  open g use {field, bool_tag, string_tag}

  -- The loop of `ascii_to_char`: `c += !tag << i`, in an `unsigned char`.
  unfoldable pub add_bits : ℕ → ℕ → ℕ → ℕ → ℕ
  add_bits x zero i c = c
  add_bits x (suc n) i c =
      add_bits x n (i + 1)
        ((c + (if bool_tag (field (field x 0) i) == 0 then 1 else 0) * 2 ^ i) % 256)

  -- `ascii_to_char`
  unfoldable pub ascii_to_char : ℕ → ℕ
  unfolding add_bits
  ascii_to_char x = add_bits x 8 0 0

  -- The loop of `string_value_length`, on fuel; `i` is a `size_t`.
  unfoldable pub length_loop : ℕ → ℕ → ℕ → Attempt ℕ
  length_loop zero temp i = endless
  length_loop (suc fuel) temp i =
      let rest = length_loop fuel (field temp 1) ((i + 1) % 2 ^ 64) in
      if string_tag temp == 1 then rest else ok i

  -- `string_value_length`
  unfoldable pub string_value_length : ℕ → ℕ → Attempt ℕ
  unfolding length_loop
  string_value_length fuel s = length_loop fuel s 0

  -- The loop of `value_to_string`: `sprintf` writes the character and a NUL behind it. The `int i`
  -- overflows where it would become 2^31.
  unfoldable pub copy_loop : ℕ → ℕ → ℕ → List ℕ → Attempt (List ℕ)
  unfolding ascii_to_char
  copy_loop zero temp i result = endless
  copy_loop (suc fuel) temp i result =
      let rest =
        copy_loop fuel (field temp 1) (i + 1) (set (set result i (ascii_to_char temp)) (i + 1) 0) in
      let next = if i + 1 == 2 ^ 31 then undefined else rest in
      if string_tag temp == 1 then next else ok result

  -- `value_to_string`: the array that it returns.
  unfoldable pub value_to_string : ℕ → ℕ → Attempt (List ℕ)
  unfolding string_value_length copy_loop
  value_to_string fuel s = do
    n ← string_value_length fuel s
    copy_loop fuel s 0 (replicate ((n + 1) % 2 ^ 64) 0)

-- Bit `i` of a byte.
abbrev pub bit : ℕ → ℕ → ℕ
bit b i = b / 2 ^ i % 2

module _ (g : Glue) where
  -- The value `a` of Coq's `ascii` is the byte `b`: constructor 0 of `bool` is `true`.
  abbrev pub CharAt : ℕ → ℕ → Type 0
  CharAt a b =
      (b < 256) × ((i : ℕ) → i < 8 → g.bool_tag (g.field a i) ≡ (if bit b i == 0 then 1 else 0))

  -- The value `v` of Coq's `string` is the list of bytes.
  abbrev pub StringAt : ℕ → List ℕ → Type 0
  StringAt v [] = g.string_tag v ≡ 0
  StringAt v (b ∷ bs) = (g.string_tag v ≡ 1) × CharAt (g.field v 0) b × StringAt (g.field v 1) bs
