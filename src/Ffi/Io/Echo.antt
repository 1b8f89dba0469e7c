-- ===== src/Ffi/Io/Echo.antt =====
-- What `print_string` of benchmarks/io/prog_main.c prints, and the echo of what `scan_string` reads.
use certicoq.Prelude.{
  ℕ, zero, suc, ◌<◌, ◌≡◌, refl, arith, ap, ◌∙◌, true, some, List, [], ◌∷◌, ◌++◌, length, ltb,
}
use mathlib.Core.List.{append_assoc, append-nil}
use mathlib.Core.Path.{subst}
use certicoq.Ffi.Strings.{Glue, StringAt}
use certicoq.Ffi.Strings.Read.{ascii_to_char-CharAt, c_string-append_nul}
use certicoq.Ffi.Build.{Maker, byte_at, string_to_value}
use certicoq.Ffi.Build.RoundTrip.{MakerOk, string_to_value-StringAt}
use certicoq.Ffi.Match.Groups.{NoNul, c_string-NoNul}
use certicoq.Ffi.Io.{print_loop, print_string, scan_string}

module _ (g : Glue) where
  print_loop-StringAt :
      (fuel v : ℕ) (bs out : List ℕ)
      → StringAt g v bs
      → length bs < fuel
      → print_loop g fuel v out ≡ some (out ++ bs)
  unfolding print_loop
  print_loop-StringAt zero v bs out at h = absurd (omega arith)
  print_loop-StringAt (suc fuel) v [] out at h = rw at (ap some (simp append-nil))
  print_loop-StringAt (suc fuel) v (b ∷ bs) out (tag, char, at) h =
      rw (tag, ascii_to_char-CharAt g v b char)
        (print_loop-StringAt fuel (g.field v 1) bs (out ++ (b ∷ [])) at (omega arith)
          ∙ ap some (append_assoc out (b ∷ []) bs))

  -- `print_string` prints the bytes of the string and a new line.
  print_string-StringAt :
      (fuel v : ℕ) (bs : List ℕ)
      → StringAt g v bs
      → length bs < fuel
      → print_string g fuel v ≡ some (bs ++ (b'\n' ∷ []))
  unfolding print_string
  print_string-StringAt fuel v bs at h =
      rw (print_string, print_loop-StringAt fuel v bs [] at h) refl

word-bytes :
    (word : List ℕ)
    → ((j : ℕ) → byte_at word j < 256)
    → (j : ℕ) → byte_at (word ++ (0 ∷ [])) j < 256
word-bytes [] small zero = omega arith
word-bytes [] small (suc j) = omega arith
word-bytes (b ∷ word) small zero = small 0
word-bytes (b ∷ word) small (suc j) = word-bytes word (λ i. small (suc i)) j

module _ {W : Type 0} (maker : Maker W) (law : MakerOk maker) where
  -- A word of fewer than 100 bytes, none of them NUL, that `scan_string` reads is printed again by
  -- `print_string` with a new line, where the generated functions keep their laws, with enough fuel.
  pub print_string-scan_string :
      (word : List ℕ) (w : W) (fuel : ℕ)
      → ((j : ℕ) → byte_at word j < 256)
      → NoNul word
      → length word < 100
      → length word < fuel
      → (v : ℕ) × (w' : W) × (scan_string maker word w ≡ some (v, w'))
        × (print_string (maker.glue w') fuel v ≡ some (word ++ (b'\n' ∷ [])))
  unfolding scan_string
  print_string-scan_string word w fuel small clean fits fuelled =
      let (v, w') = string_to_value maker (word ++ (0 ∷ [])) w in
      let same = c_string-append_nul word ∙ c_string-NoNul word clean in
      let short : ltb (length word) 100 ≡ true = ground arith in
      let at : StringAt (maker.glue w') v word = subst (StringAt (maker.glue w') v) same (
        string_to_value-StringAt maker law (word ++ (0 ∷ [])) w (word-bytes word small)
          (omega (arith, ap (length {A = ℕ}) same))) in
      (v, w', rw short refl, print_string-StringAt (maker.glue w') fuel v word at fuelled)
