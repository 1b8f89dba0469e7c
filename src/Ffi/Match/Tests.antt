-- ===== src/Ffi/Match/Tests.antt =====
-- The theorems on `rgx_test` and `rgx_exec` for the star of "a" and the string "a".
use certicoq.Prelude.{ℕ, suc, ◌+◌, ◌≡◌, refl, arith, if◌then◌else◌, some, List, [], ◌∷◌, length}
use certicoq.Prelude.Int.{pos}
use certicoq.Ffi.Sample.{glue, string-a, star-a, star-a-RgxAt}
use certicoq.Ffi.Build.{Maker, string_to_value, string_loop, char_to_value}
use certicoq.Ffi.Strings.{
  ok, undefined, replicate, value_to_string, string_value_length, length_loop, copy_loop,
  ascii_to_char, add_bits,
}
use certicoq.Ffi.Regex.{strcat, regex_string_size, regex_to_string, tag_of}
use certicoq.Ffi.Match.{
  Pcre, Lists, non_negative, Outcome, pattern_of, group_loop, group_array, rgx_test, rgx_exec,
}
use certicoq.Ffi.Match.Result.{pattern, has_room, rgx_test-print}

-- Each allocation gives the next of the numbers from 100 on.
abbrev maker : Maker ℕ
maker = record {
  glue = λ w. glue;
  true_value = 0;
  false_value = 1;
  empty_value = 2;
  make_ascii = λ f w. (100 + w, suc w);
  make_string = λ c t w. (100 + w, suc w);
}

abbrev lists : Lists ℕ
lists = record {
  nil_value = 7;
  none_value = 8;
  make_cons = λ x l w. (100 + w, suc w);
  make_some = λ x w. (100 + w, suc w);
}

-- Every pattern compiles, and its match is the first byte.
abbrev pcre : Pcre ℕ
pcre = record { compile = λ s. some (length s); exec = λ re s. (pos 1, λ k. pos k) }

-- `malloc` reserves 24 bytes, all of them NUL, and a NUL behind the array of a group.
abbrev cleared : ℕ → List ℕ
cleared n = replicate 24 0

abbrev ended : ℕ → List ℕ
ended k = 0 ∷ []

-- `malloc` gives just the bytes that are asked for.
abbrev exact : ℕ → List ℕ
exact n = replicate n 0

rgx_test-print_example : rgx_test maker lists pcre 9 9 cleared 6 3 0 ≡ (
    if has_room maker lists pcre 9 9 cleared star-a
    then ok (
        if non_negative
          (pcre.exec (pcre.compile (pattern maker lists pcre 9 9 cleared star-a)) (b'a' ∷ [])).0
        then 0
        else 1)
    else undefined)
rgx_test-print_example =
    rgx_test-print maker lists pcre 9 9 cleared 6 3 0 star-a (b'a' ∷ []) star-a-RgxAt
      (omega arith, omega arith) string-a (omega arith) (omega arith)

-- The value 103 after four allocations: a character, a string, a list cell and the option.
four_blocks : rgx_exec maker lists pcre 9 9 cleared ended 6 3 0 ≡ ok (Outcome.returns 103 4)
unfolding rgx_exec rgx_test pattern_of group_loop group_array string_to_value string_loop
    char_to_value value_to_string string_value_length length_loop copy_loop ascii_to_char add_bits
    regex_string_size regex_to_string strcat tag_of
four_blocks = refl

-- With an array of just the ten bytes of the text the NUL is written outside.
outside : rgx_test maker lists pcre 9 9 exact 6 3 0 ≡ undefined
unfolding rgx_test pattern_of value_to_string string_value_length length_loop copy_loop
    ascii_to_char add_bits regex_string_size regex_to_string strcat tag_of
outside = refl
