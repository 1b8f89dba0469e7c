-- ===== src/Ffi/Io.antt =====
-- The foreign functions of benchmarks/io/prog_main.c: reading, printing, and the sequence of two
-- actions.
--
-- `string_to_value` and `ascii_to_char` are the same functions as in benchmarks/regex. `call`, which
-- the compiler generates, is a parameter: it runs a closure on an argument and changes the state, where
-- the first word of the block `args[1]` then is the result. Standard input and output are lists of
-- bytes.
pub mod Echo
mod Tests
use certicoq.Prelude.{
  ℕ, zero, suc, ◌+◌, ◌==◌, ltb, if◌then◌else◌, Option, none, some, List, [], ◌∷◌, ◌++◌, length,
}
use certicoq.Ffi.Strings.{Glue, ascii_to_char}
use certicoq.Ffi.Build.{Maker, string_to_value}

module _ (g : Glue) where
  -- The loop of `print_string`: the bytes that it prints behind `out`.
  unfoldable pub print_loop : ℕ → ℕ → List ℕ → Option (List ℕ)
  unfolding ascii_to_char
  print_loop zero temp out = none
  print_loop (suc fuel) temp out =
      let rest = print_loop fuel (g.field temp 1) (out ++ (ascii_to_char g temp ∷ [])) in
      if g.string_tag temp == 1 then rest else some out

  -- `print_string`: its result is `tt`.
  unfoldable pub print_string : ℕ → ℕ → Option (List ℕ)
  unfolding print_loop
  print_string fuel s = elim (print_loop fuel s []) [
    | none ↦ none
    | some out ↦ some (out ++ (b'\n' ∷ []))
  ]

module _ {W : Type 0} (maker : Maker W) where
  -- `scan_string`, when `word` is the next word of the input: `scanf` writes it and a NUL into an array
  -- of 100 bytes, and beyond its end when the word is longer, after which no result is given here.
  unfoldable pub scan_string : List ℕ → W → Option (ℕ × W)
  unfolding string_to_value
  scan_string word w =
      if ltb (length word) 100 then some (string_to_value maker (word ++ (0 ∷ [])) w) else none

module _ {W : Type 0} (call : ℕ → ℕ → W → ℕ × W) (field : W → ℕ → ℕ → ℕ) (args : W → ℕ → ℕ) where
  -- `calls`: the closure on each argument in turn.
  unfoldable pub calls : ℕ → List ℕ → W → ℕ × W
  calls clos [] w = (clos, w)
  calls clos (v ∷ vs) w = let (clos', w') = call clos v w in calls clos' vs w'

  -- `io_ret`
  unfoldable pub io_ret : ℕ → ℕ → W → ℕ × W
  io_ret sigma x w = (x, w)

  -- `io_bind`: 1 is the world.
  unfoldable pub io_bind : ℕ → ℕ → ℕ → ℕ → W → ℕ × W
  unfolding calls
  io_bind sigma tau x f w =
      let w1 = (call x 1 w).1 in
      let out = field w1 (args w1 1) 0 in
      let w2 = (calls f (out ∷ 1 ∷ []) w1).1 in (field w2 (args w2 1) 0, w2)
