-- ===== src/Ffi/Match/Result.antt =====
-- What `rgx_test` and `rgx_exec` of benchmarks/regex/prog_main.c return.
use certicoq.Prelude.{
  ℕ, ◌+◌, ◌%◌, ◌^◌, ◌<◌, ◌≡◌, ◌∙◌, refl, arith, Bool, Bool-cases, false, inl, inr, ltb,
  if◌then◌else◌, List, ◌++◌, length,
}
use certicoq.Ffi.Strings.{ok, undefined, c_string, StringAt}
use certicoq.Ffi.Strings.Read.{value_to_string_short, c_string-append_nul}
use certicoq.Ffi.Regex.Print.{
  Rgx, RgxAt, Below, print, regex_to_string-print, regex_string_size-print,
}
use certicoq.Ffi.Build.{Maker}
use certicoq.Ffi.Match.{Pcre, Lists, non_negative, pattern_of, rgx_test}

module _ {P W : Type 0} (maker : Maker W) (lists : Lists W) (pcre : Pcre P) (string_fuel fuel : ℕ)
    (fresh : ℕ → List ℕ) where
  open maker use {glue, true_value, false_value}

  -- The array that is allocated for the text, and what the array holds when the text stands in it
  -- behind what it held.
  abbrev pub area : Rgx → List ℕ
  area x = fresh (length (print x) % 2 ^ 64)

  abbrev pub pattern : Rgx → List ℕ
  pattern x = c_string (area x) ++ print x

  -- Whether the array has room for what it holds, the text and a NUL.
  abbrev pub has_room : Rgx → Bool
  has_room x = ltb (length (c_string (area x)) + length (print x)) (length (area x))

  pattern_of-pattern :
      (r : ℕ) (w : W) (x : Rgx)
      → RgxAt (glue w) r x
      → Below string_fuel fuel x
      → pattern_of maker lists pcre string_fuel fuel fresh r w
        ≡ (if has_room x then ok (pattern x) else undefined)
  unfolding pattern_of
  pattern_of-pattern r w x at below =
      rw (pattern_of, regex_string_size-print (glue w) string_fuel fuel r x at below)
        (regex_to_string-print (glue w) string_fuel (length (area x)) fuel r x _ at below)

  -- For an expression and a string in memory, with enough fuel and fewer than 2^31 bytes in the
  -- string and in each literal: where the array that `malloc` gives for the pattern has room for what
  -- it held, the text of the expression and a NUL, `rgx_test` returns the Boolean that says whether
  -- PCRE matches the bytes of the string before the first NUL with what the array held and the text
  -- behind it. Otherwise it writes outside the array.
  pub rgx_test-print :
      (r str : ℕ) (w : W) (x : Rgx) (bs : List ℕ)
      → RgxAt (glue w) r x
      → Below string_fuel fuel x
      → StringAt (glue w) str bs
      → length bs < string_fuel
      → length bs < 2 ^ 31
      → rgx_test maker lists pcre string_fuel fuel fresh r str w ≡ (
          if has_room x
          then ok (
              if non_negative (pcre.exec (pcre.compile (pattern x)) (c_string bs)).0
              then true_value
              else false_value)
          else undefined)
  unfolding rgx_test
  rgx_test-print r str w x bs at below string_at h small =
      let matched = value_to_string_short (glue w) string_fuel str bs string_at h small in
      elim (Bool-cases (has_room x)) [
        | inl room ↦
            rw (rgx_test, pattern_of-pattern r w x at below, room, matched, c_string-append_nul bs)
              refl
        | inr none_left ↦ rw (rgx_test, pattern_of-pattern r w x at below, none_left) refl
      ]

  -- Where `malloc` gives just the bytes that are asked for, which is all that it promises, every
  -- pattern is written outside its array, so that neither function returns.
  pattern_of-exact :
      (r : ℕ) (w : W) (x : Rgx)
      → RgxAt (glue w) r x
      → Below string_fuel fuel x
      → ((n : ℕ) → length (fresh n) ≡ n)
      → pattern_of maker lists pcre string_fuel fuel fresh r w ≡ undefined
  pattern_of-exact r w x at below exact =
      let full : has_room x ≡ false = ground (arith, exact (length (print x) % 2 ^ 64)) in
      pattern_of-pattern r w x at below ∙ rw full refl
