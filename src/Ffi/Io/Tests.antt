-- ===== src/Ffi/Io/Tests.antt =====
-- The echo of a word at a small heap.
use certicoq.Prelude.{ℕ, zero, suc, ◌<◌, ◌≡◌, refl, arith, some, List, [], ◌∷◌, ◌++◌}
use certicoq.Ffi.Build.{byte_at}
use certicoq.Ffi.Build.Sample.{Node, maker, maker-MakerOk}
use certicoq.Ffi.Io.{print_string, scan_string}
use certicoq.Ffi.Io.Echo.{print_string-scan_string}

abbrev word : List ℕ
word = b'o' ∷ b'k' ∷ []

word-bytes : (j : ℕ) → byte_at word j < 256
word-bytes zero = omega arith
word-bytes (suc zero) = omega arith
word-bytes (suc (suc j)) = omega arith

print_string-scan_string_example :
    (v : ℕ) × (w' : List Node) × (scan_string maker word [] ≡ some (v, w'))
    × (print_string (maker.glue w') 3 v ≡ some (word ++ (b'\n' ∷ [])))
print_string-scan_string_example =
    print_string-scan_string maker maker-MakerOk word [] 3 word-bytes (refl, (refl, tt))
      (omega arith) (omega arith)
