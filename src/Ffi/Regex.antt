-- ===== src/Ffi/Regex.antt =====
-- benchmarks/regex/prog_main.c: the size of a regular expression's text, and the text.
--
-- The array that is written is its size and the C string `s` that it holds. `strcat` appends to that
-- and needs a byte more for the NUL; a longer text goes outside the array.
pub mod Print
use certicoq.Prelude.{
  ℕ, zero, suc, ◌+◌, ◌%◌, ◌^◌, List, [], ◌∷◌, ◌++◌, ◌==◌, ltb, if◌then◌else◌, length,
}
use certicoq.Ffi.Strings.{Attempt, ok, undefined, endless, ◌>>=◌, Glue, c_string, value_to_string}

-- `enum rgx`, in the order of its constants.
pub data Tag : Type 0 where
  empty epsilon literal or and star capture other : Tag

unfoldable pub tag_of : ℕ → Tag
tag_of t =
    if t == 0
    then empty
    else if t == 1
    then epsilon
    else if t == 2
    then literal
    else if t == 3
    then or
    else if t == 4
    then and
    else if t == 5
    then star
    else if t == 6
    then capture
    else other

-- The string constants of `regex_to_string_aux`.
abbrev pub open_group : List ℕ
open_group = b'(' ∷ b'?' ∷ b':' ∷ []

abbrev pub never : List ℕ
never = b'(' ∷ b'?' ∷ b'!' ∷ b')' ∷ []

-- `strcat`, on an array of `size` bytes that holds the C string `s`.
unfoldable pub strcat : ℕ → List ℕ → List ℕ → Attempt (List ℕ)
strcat size s t = if ltb (length s + length t) size then ok (s ++ t) else undefined

module _ (g : Glue) (string_fuel : ℕ) where
  open g use {field, rgx_tag}

  -- `regex_string_size`, a `size_t`.
  unfoldable pub regex_string_size : ℕ → ℕ → Attempt ℕ
  unfolding tag_of value_to_string
  regex_string_size zero r = endless
  regex_string_size (suc fuel) r = elim (tag_of (rgx_tag r)) [
    | empty ↦ ok 4
    | epsilon ↦ ok 4
    | literal ↦ do
      lit ← value_to_string g string_fuel (field r 0)
      ok ((4 + length (c_string lit)) % 2 ^ 64)
    | or ↦ do
      a ← regex_string_size fuel (field r 0)
      b ← regex_string_size fuel (field r 1)
      ok ((5 + a + b) % 2 ^ 64)
    | and ↦ do
      a ← regex_string_size fuel (field r 0)
      b ← regex_string_size fuel (field r 1)
      ok ((4 + a + b) % 2 ^ 64)
    | star ↦ do a ← regex_string_size fuel (field r 0); ok ((5 + a) % 2 ^ 64)
    | capture ↦ do a ← regex_string_size fuel (field r 0); ok ((2 + a) % 2 ^ 64)
    | other ↦ ok 0
  ]

  -- `regex_to_string_aux`, which `regex_to_string` calls, on an array of `size` bytes.
  unfoldable pub regex_to_string : ℕ → ℕ → ℕ → List ℕ → Attempt (List ℕ)
  unfolding tag_of value_to_string strcat
  regex_to_string size zero r s = endless
  regex_to_string size (suc fuel) r s = elim (tag_of (rgx_tag r)) [
    | empty ↦ strcat size s never
    | epsilon ↦ strcat size s (open_group ++ (b')' ∷ []))
    | literal ↦ do
      s1 ← strcat size s open_group
      lit ← value_to_string g string_fuel (field r 0)
      s2 ← strcat size s1 (c_string lit)
      strcat size s2 (b')' ∷ [])
    | or ↦ do
      s1 ← strcat size s open_group
      s2 ← regex_to_string size fuel (field r 0) s1
      s3 ← strcat size s2 (b'|' ∷ [])
      s4 ← regex_to_string size fuel (field r 1) s3
      strcat size s4 (b')' ∷ [])
    | and ↦ do
      s1 ← strcat size s open_group
      s2 ← regex_to_string size fuel (field r 0) s1
      s3 ← regex_to_string size fuel (field r 1) s2
      strcat size s3 (b')' ∷ [])
    | star ↦ do
      s1 ← strcat size s open_group
      s2 ← regex_to_string size fuel (field r 0) s1
      strcat size s2 (b')' ∷ b'*' ∷ [])
    | capture ↦ do
      s1 ← strcat size s (b'(' ∷ [])
      s2 ← regex_to_string size fuel (field r 0) s1
      strcat size s2 (b')' ∷ [])
    | other ↦ ok s
  ]
