-- ===== src/Ffi/Build/Tests.antt =====
-- The theorems on the strings that C code builds, at a small heap.
use certicoq.Prelude.{ℕ, suc, zero, ◌<◌, ◌≡◌, arith, List, [], ◌∷◌, ◌++◌}
use certicoq.Ffi.Strings.{ok, c_string, value_to_string}
use certicoq.Ffi.Build.{byte_at, string_to_value}
use certicoq.Ffi.Build.RoundTrip.{value_to_string-string_to_value}
use certicoq.Ffi.Build.Sample.{maker, maker-MakerOk}

-- "ab", and what stands behind it.
abbrev text : List ℕ
text = b'a' ∷ b'b' ∷ 0 ∷ b'c' ∷ []

text-bytes : (j : ℕ) → byte_at text j < 256
text-bytes zero = omega arith
text-bytes (suc zero) = omega arith
text-bytes (suc (suc zero)) = omega arith
text-bytes (suc (suc (suc zero))) = omega arith
text-bytes (suc (suc (suc (suc j)))) = omega arith

value_to_string-string_to_value_example :
    value_to_string
      (maker.glue (string_to_value maker text []).1)
      5
      (string_to_value maker text []).0
    ≡ ok (c_string text ++ (0 ∷ []))
value_to_string-string_to_value_example =
    value_to_string-string_to_value maker maker-MakerOk text [] 5 text-bytes (omega arith)
      (omega arith)
