-- ===== src/Ffi/Tests.antt =====
-- The theorems on the foreign functions of the benchmarks at concrete values.
use certicoq.Prelude.{
  ℕ, zero, suc, ◌+◌, ltb, ◌%◌, ◌^◌, ◌-◌, ◌≡◌, refl, Bool, Option, none, some, [], ◌∷◌, ◌++◌, arith,
  ◌==◌, if◌then◌else◌, length,
}
use certicoq.Ffi.Strings.{ok, undefined, value_to_string}
use certicoq.Ffi.Strings.Read.{value_to_string-StringAt}
use certicoq.Ffi.Sample.{glue, string-a, star-a, star-a-RgxAt}
use certicoq.Ffi.Regex.{regex_string_size, regex_to_string}
use certicoq.Ffi.Regex.Print.{print, regex_to_string-print, regex_string_size-print}
use certicoq.Ffi.Table.{new_table, lookup, insert, delete, uint_to_nat, nat_to_uint}
use certicoq.Ffi.Table.Laws.{
  KeyLaws, TableOk, new_table-TableOk, lookup-insert, lookup-delete, insert-TableOk,
}
use certicoq.Ffi.Table.Nats.{nat_to_uint-uint_to_nat, uint_to_nat_endless}

value_to_string-StringAt_example :
    value_to_string glue 9 3 ≡ (if ltb 1 (2 ^ 31) then ok (b'a' ∷ 0 ∷ []) else undefined)
value_to_string-StringAt_example =
    value_to_string-StringAt glue 9 3 (b'a' ∷ []) string-a (omega arith)

regex_to_string-print_example :
    regex_to_string glue 9 12 9 6 (b'^' ∷ [])
    ≡ (if ltb (1 + length (print star-a)) 12 then ok ((b'^' ∷ []) ++ print star-a) else undefined)
regex_to_string-print_example =
    regex_to_string-print glue 9 12 9 6 star-a (b'^' ∷ []) star-a-RgxAt (omega arith, omega arith)

regex_string_size-print_example : regex_string_size glue 9 9 6 ≡ ok (length (print star-a) % 2 ^ 64)
regex_string_size-print_example =
    regex_string_size-print glue 9 9 6 star-a star-a-RgxAt (omega arith, omega arith)

-- "(?:(?:a))*" has ten bytes.
star-a_text : length (print star-a) ≡ 10
unfolding print
star-a_text = refl

-- Keys are equal if they are congruent modulo 3.
abbrev mod_hash : ℕ → ℕ
mod_hash k = k % 3

abbrev mod_eq : ℕ → ℕ → Bool
mod_eq a b = a % 3 == b % 3

mod_laws : KeyLaws mod_hash mod_eq
mod_laws = record {
  eq_refl = λ a. ground arith;
  eq_sym = λ a b h. ground arith;
  eq_trans = λ a b c h k. ground arith;
  hash_eq = λ a b h. ground arith;
}

lookup-insert_example :
    lookup mod_hash mod_eq (insert mod_hash mod_eq new_table 4 9) 7
    ≡ (if mod_eq 4 7 then some 9 else lookup mod_hash mod_eq new_table 7)
lookup-insert_example = lookup-insert mod_hash mod_eq mod_laws new_table 4 7 9

lookup-delete_example :
    lookup mod_hash mod_eq (delete mod_hash mod_eq new_table 4) 7
    ≡ (if mod_eq 4 7 then none else lookup mod_hash mod_eq new_table 7)
lookup-delete_example =
    lookup-delete mod_hash mod_eq mod_laws new_table 4 7
      (new_table-TableOk mod_hash mod_eq mod_laws)

insert-TableOk_example : TableOk mod_hash mod_eq (insert mod_hash mod_eq new_table 4 9)
insert-TableOk_example =
    insert-TableOk mod_hash mod_eq mod_laws new_table 4 9
      (new_table-TableOk mod_hash mod_eq mod_laws)

abbrev unfold_nat : ℕ → Option ℕ
unfold_nat zero = none
unfold_nat (suc n) = some n

nat_to_uint-uint_to_nat_example :
    (n : ℕ) × (uint_to_nat 0 suc unfold_nat 9 6 ≡ some n)
    × (nat_to_uint 0 suc unfold_nat 9 n ≡ some 7)
nat_to_uint-uint_to_nat_example =
    nat_to_uint-uint_to_nat 0 suc unfold_nat refl (λ n. refl) 6 9 (omega arith) (omega arith)

uint_to_nat_endless_example : uint_to_nat 0 suc unfold_nat 1000 (2 ^ 32 - 1) ≡ none
uint_to_nat_endless_example = uint_to_nat_endless 0 suc unfold_nat 1000
