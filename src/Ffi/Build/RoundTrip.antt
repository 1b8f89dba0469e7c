-- ===== src/Ffi/Build/RoundTrip.antt =====
-- What `string_to_value` of benchmarks/regex/prog_main.c builds, and the way back.
use certicoq.Prelude.{
  ℕ, zero, suc, ◌%◌, ◌^◌, ◌<◌, ◌≡◌, refl, arith, inl, inr, ap, ◌∙◌, sym, Bool, Bool-cases,
  if◌then◌else◌, ◌==◌, List, [], ◌∷◌, ◌++◌, length,
}
use mathlib.Core.Path.{subst}
use certicoq.Ffi.Strings.{Glue, ok, c_string, bit, CharAt, StringAt, value_to_string}
use certicoq.Ffi.Strings.Read.{value_to_string_short, c_string-append_nul}
use certicoq.Ffi.Build.{Maker, byte_at, bool_to_value, char_to_value, string_loop, string_to_value}

-- What the generated functions do: a constructor's value has its tag and its fields, and
-- allocation keeps the values that are there.
pub record MakerOk {W : Type 0} (maker : Maker W) : Type 0 where
  pub true_tag : (w : W) → (maker.glue w).bool_tag maker.true_value ≡ 0
  pub false_tag : (w : W) → (maker.glue w).bool_tag maker.false_value ≡ 1
  pub empty_tag : (w : W) → (maker.glue w).string_tag maker.empty_value ≡ 0
  pub ascii_fields :
      (v : ℕ → ℕ) (w : W) (i : ℕ)
      → i < 8
      → (maker.glue (maker.make_ascii v w).1).field (maker.make_ascii v w).0 i ≡ v i
  pub ascii_keeps :
      (v : ℕ → ℕ) (w : W) (x : ℕ) (bs : List ℕ)
      → StringAt (maker.glue w) x bs
      → StringAt (maker.glue (maker.make_ascii v w).1) x bs
  pub string_tag :
      (c t : ℕ) (w : W)
      → (maker.glue (maker.make_string c t w).1).string_tag (maker.make_string c t w).0 ≡ 1
  pub string_head :
      (c t : ℕ) (w : W)
      → (maker.glue (maker.make_string c t w).1).field (maker.make_string c t w).0 0 ≡ c
  pub string_tail :
      (c t : ℕ) (w : W)
      → (maker.glue (maker.make_string c t w).1).field (maker.make_string c t w).0 1 ≡ t
  pub string_keeps_char :
      (c t : ℕ) (w : W) (x b : ℕ)
      → CharAt (maker.glue w) x b
      → CharAt (maker.glue (maker.make_string c t w).1) x b
  pub string_keeps :
      (c t : ℕ) (w : W) (x : ℕ) (bs : List ℕ)
      → StringAt (maker.glue w) x bs
      → StringAt (maker.glue (maker.make_string c t w).1) x bs

-- The first `i` bytes of the array before `rest`, in the order of the loop.
upto : List ℕ → ℕ → List ℕ → List ℕ
upto s zero rest = rest
upto s (suc i) rest = upto s i (byte_at s i ∷ rest)

upto_cons :
    (b : ℕ) (s : List ℕ) (i : ℕ) (rest : List ℕ) → upto (b ∷ s) (suc i) rest ≡ b ∷ upto s i rest
unfolding upto
upto_cons b s zero rest = refl
upto_cons b s (suc i) rest = upto_cons b s i (byte_at s i ∷ rest)

upto-c_string : (s : List ℕ) → upto s (length (c_string s)) [] ≡ c_string s
unfolding upto
upto-c_string [] = refl
upto-c_string (b ∷ s) = elim (Bool-cases (b == 0)) [
  | inl e ↦ rw e refl
  | inr e ↦ rw e (upto_cons b s (length (c_string s)) [] ∙ ap (λ l. b ∷ l) (upto-c_string s))
]

StringAt-bytes :
    (g : Glue) (v : ℕ) (bs : List ℕ) → StringAt g v bs → (j : ℕ) → byte_at (bs ++ (0 ∷ [])) j < 256
StringAt-bytes g v [] at zero = omega arith
StringAt-bytes g v [] at (suc j) = omega arith
StringAt-bytes g v (b ∷ bs) (tag, char, at) zero = char.0
StringAt-bytes g v (b ∷ bs) (tag, char, at) (suc j) = StringAt-bytes g (g.field v 1) bs at j

module _ {W : Type 0} (maker : Maker W) (law : MakerOk maker) where
  open maker use {glue}

  char_to_value-CharAt :
      (c : ℕ) (w : W)
      → c < 256
      → CharAt (glue (char_to_value maker c w).1) (char_to_value maker c w).0 c
  unfolding char_to_value
  char_to_value-CharAt c w h = (h, each)
    where
      made : ℕ × W
      made =
          maker.make_ascii
            (λ i. bool_to_value maker (if bit c i == 0 then Bool.false else Bool.true)) w

      each :
          (i : ℕ)
          → i < 8
          → (glue made.1).bool_tag ((glue made.1).field made.0 i) ≡ (if bit c i == 0 then 1 else 0)
      each i lt =
          rw (law.ascii_fields _ w i lt) (ground (arith, law.true_tag made.1, law.false_tag made.1))

  -- One round puts the next byte in front of the string.
  round-StringAt :
      (c t : ℕ) (w : W) (bs : List ℕ)
      → c < 256
      → StringAt (glue w) t bs
      → let (v, w1) = char_to_value maker c w in
        let (t', w2) = maker.make_string v t w1 in StringAt (glue w2) t' (c ∷ bs)
  unfolding char_to_value
  round-StringAt c t w bs h at =
      let (v, w1) = char_to_value maker c w in
      let (t', w2) = maker.make_string v t w1 in
      (
        law.string_tag v t w1,
        subst (λ x. CharAt (glue w2) x c) (sym (law.string_head v t w1))
            (law.string_keeps_char v t w1 v c (char_to_value-CharAt c w h)),
        subst (λ x. StringAt (glue w2) x bs) (sym (law.string_tail v t w1))
            (law.string_keeps v t w1 t bs (law.ascii_keeps _ w t bs at)),
      )

  string_loop-StringAt :
      (s : List ℕ) (i t : ℕ) (w : W) (bs : List ℕ)
      → ((j : ℕ) → byte_at s j < 256)
      → StringAt (glue w) t bs
      → StringAt (glue (string_loop maker s i t w).1) (string_loop maker s i t w).0 (upto s i bs)
  unfolding string_loop upto
  string_loop-StringAt s zero t w bs small at = at
  string_loop-StringAt s (suc i) t w bs small at =
      string_loop-StringAt s i _ _ (byte_at s i ∷ bs) small
        (round-StringAt (byte_at s i) t w bs (small i) at)

  -- `string_to_value` builds the string of the bytes before the first NUL, if their number fits an
  -- `unsigned int`.
  pub string_to_value-StringAt :
      (s : List ℕ) (w : W)
      → ((j : ℕ) → byte_at s j < 256)
      → length (c_string s) < 2 ^ 32
      → StringAt (glue (string_to_value maker s w).1) (string_to_value maker s w).0 (c_string s)
  unfolding string_to_value
  string_to_value-StringAt s w small fits =
      let whole : length (c_string s) % 2 ^ 32 ≡ length (c_string s) = omega arith in
      let (v, w') = string_loop maker s (length (c_string s)) maker.empty_value w in
      rw whole (
        subst (StringAt (glue w') v) (upto-c_string s) (
          string_loop-StringAt s (length (c_string s)) maker.empty_value w [] small
            (law.empty_tag w)))

  -- A C string of fewer than 2^31 bytes comes back from the value that `string_to_value` makes of it,
  -- where the generated functions keep their laws, with enough fuel. (From 2^31 bytes on the index of
  -- `value_to_string`, which is an `int`, overflows.)
  pub value_to_string-string_to_value :
      (s : List ℕ) (w : W) (fuel : ℕ)
      → ((j : ℕ) → byte_at s j < 256)
      → length (c_string s) < 2 ^ 31
      → length (c_string s) < fuel
      → value_to_string (glue (string_to_value maker s w).1) fuel (string_to_value maker s w).0
        ≡ ok (c_string s ++ (0 ∷ []))
  value_to_string-string_to_value s w fuel small fits fuelled =
      value_to_string_short (glue (string_to_value maker s w).1) fuel _ (c_string s)
        (string_to_value-StringAt s w small (omega arith)) fuelled fits

  -- The array that `value_to_string` makes of a string of Coq becomes, by `string_to_value`, the
  -- string up to its first NUL, where the generated functions keep their laws.
  pub string_to_value-value_to_string :
      (v : ℕ) (bs : List ℕ) (w : W) (fuel : ℕ)
      → StringAt (glue w) v bs
      → length bs < fuel
      → length bs < 2 ^ 31
      → length (c_string bs) < 2 ^ 32
      → (s : List ℕ) × (value_to_string (glue w) fuel v ≡ ok s)
        × StringAt (glue (string_to_value maker s w).1) (string_to_value maker s w).0 (c_string bs)
  string_to_value-value_to_string v bs w fuel at fuelled small fits =
      let s = bs ++ (0 ∷ []) in
      let same = c_string-append_nul bs in
      (
        s,
        value_to_string_short (glue w) fuel v bs at fuelled small,
        subst (StringAt (glue (string_to_value maker s w).1) (string_to_value maker s w).0) same (
            string_to_value-StringAt s w (StringAt-bytes (glue w) v bs at)
              (omega (arith, ap (length {A = ℕ}) same))),
      )
