-- ===== src/Ffi/Sample.antt =====
-- Some values of a program: the Boolean ones, the strings "" and "a", and an expression.
use certicoq.Prelude.{refl, [], ◌∷◌, arith, ◌==◌, if◌then◌else◌}
use certicoq.Ffi.Strings.{Glue, CharAt, StringAt, bit}
use certicoq.Ffi.Regex.Print.{Rgx, RgxAt}

-- Values: 0 is `false` and 1 is `true`; 2 is the empty string, 3 the string "a" with its character
-- at 4; 5 is a literal of 3, and 6 the star of 5.
abbrev pub glue : Glue
glue = record {
  field = λ v i.
      if v == 3
      then (if i == 0 then 4 else 2)
      else if v == 4
      then bit b'a' i
      else if v == 5
      then 3
      else 5;
  bool_tag = λ v. if v == 0 then 1 else 0;
  string_tag = λ v. if v == 3 then 1 else 0;
  rgx_tag = λ v. if v == 6 then 5 else 2;
}

pub char-a : CharAt glue 4 b'a'
char-a = (omega arith, λ i h. ground arith)

pub string-a : StringAt glue 3 (b'a' ∷ [])
string-a = (refl, char-a, refl)

abbrev pub star-a : Rgx
star-a = Rgx.star (Rgx.literal (b'a' ∷ []))

pub star-a-RgxAt : RgxAt glue 6 star-a
star-a-RgxAt = (refl, (refl, string-a))
