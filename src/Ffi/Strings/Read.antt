-- ===== src/Ffi/Strings/Read.antt =====
-- `ascii_to_char` and `value_to_string` of benchmarks/regex/prog_main.c read what a value stands for.
use certicoq.Prelude.{
  ℕ, zero, suc, ◌+◌, ◌*◌, ◌%◌, ◌^◌, ◌≤◌, ◌<◌, ◌≡◌, refl, true, false, inl, inr, Bool-cases, ltb,
  ltb→lt, List, [], ◌∷◌, ◌++◌, ◌==◌, if◌then◌else◌, arith, length, ap, ◌∙◌, sym, length-append,
}
use mathlib.Core.List.{append_assoc}
use certicoq.Ffi.Strings.{
  Glue, ok, undefined, set, replicate, c_string, bit, CharAt, StringAt, ascii_to_char, length_loop,
  copy_loop, value_to_string,
}

add_up : (ℕ → ℕ) → ℕ → ℕ → ℕ → ℕ
add_up f zero i c = c
add_up f (suc n) i c = add_up f n (i + 1) ((c + f i * 2 ^ i) % 256)

bit_back : (t : ℕ) → t < 2 → (if (if t == 0 then 1 else 0) == 0 then 1 else 0) ≡ t
bit_back t h = ground arith

sum_of_bits : (b : ℕ) → b < 256 → add_up (bit b) 8 0 0 ≡ b
unfolding add_up
sum_of_bits b h = omega arith

module _ (g : Glue) where
  -- The character of a string's first byte.
  pub ascii_to_char-CharAt : (x b : ℕ) → CharAt g (g.field x 0) b → ascii_to_char g x ≡ b
  unfolding ascii_to_char add_up
  ascii_to_char-CharAt x b (small, bits) =
      rw
        (
          weight 0 (omega arith),
          weight 1 (omega arith),
          weight 2 (omega arith),
          weight 3 (omega arith),
          weight 4 (omega arith),
          weight 5 (omega arith),
          weight 6 (omega arith),
          weight 7 (omega arith),
        )
        (sum_of_bits b small)
    where
      weight :
          (i : ℕ) → i < 8 → (if g.bool_tag (g.field (g.field x 0) i) == 0 then 1 else 0) ≡ bit b i
      weight i lt = rw (bits i lt) (bit_back (bit b i) (omega arith))

  length_loop-StringAt :
      (fuel v i : ℕ) (bs : List ℕ)
      → StringAt g v bs
      → length bs < fuel
      → i < 2 ^ 64
      → length_loop g fuel v i ≡ ok ((i + length bs) % 2 ^ 64)
  unfolding length_loop
  length_loop-StringAt zero v i bs at h small = absurd (omega arith)
  length_loop-StringAt (suc fuel) v i [] at h small = rw at (ap ok (omega arith))
  length_loop-StringAt (suc fuel) v i (b ∷ bs) (tag, _, at) h small = rw tag (
      length_loop-StringAt fuel (g.field v 1) ((i + 1) % 2 ^ 64) bs at (omega arith) (omega arith)
      ∙ ap ok (omega arith))

set_at :
    (pre : List ℕ) (y v : ℕ) (ys : List ℕ) (i : ℕ)
    → length pre ≡ i
    → set (pre ++ (y ∷ ys)) i v ≡ pre ++ (v ∷ ys)
set_at [] y v ys zero h = refl
set_at [] y v ys (suc i) h = absurd (omega arith)
set_at (x ∷ pre) y v ys zero h = absurd (omega arith)
set_at (x ∷ pre) y v ys (suc i) h = ap (λ l. x ∷ l) (set_at pre y v ys i (omega arith))

length-snoc : (pre : List ℕ) (c : ℕ) → length (pre ++ (c ∷ [])) ≡ length pre + 1
length-snoc pre c = omega (arith, length-append {0} pre (c ∷ []))

-- One round of the copying loop fills the next position; the NUL behind it is there already.
one_round :
    (pre : List ℕ) (c n i : ℕ)
    → length pre ≡ i
    → set (set (pre ++ replicate (suc (suc n)) 0) i c) (i + 1) 0
      ≡ (pre ++ (c ∷ [])) ++ replicate (suc n) 0
one_round pre c n i h =
    ap (λ l. set l (i + 1) 0) (set_at pre 0 c (replicate (suc n) 0) i h)
    ∙ ap (λ l. set l (i + 1) 0) (sym (append_assoc pre (c ∷ []) (replicate (suc n) 0)))
    ∙ set_at (pre ++ (c ∷ [])) 0 0 (replicate n 0) (i + 1) (omega (arith, length-snoc pre c))

module _ (g : Glue) where
  copy_loop-StringAt :
      (fuel v i : ℕ) (bs pre : List ℕ)
      → StringAt g v bs
      → length bs < fuel
      → length pre ≡ i
      → i + length bs < 2 ^ 31
      → copy_loop g fuel v i (pre ++ replicate (suc (length bs)) 0) ≡ ok (pre ++ (bs ++ (0 ∷ [])))
  unfolding copy_loop
  copy_loop-StringAt zero v i bs pre at h e small = absurd (omega arith)
  copy_loop-StringAt (suc fuel) v i [] pre at h e small = rw at refl
  copy_loop-StringAt (suc fuel) v i (b ∷ bs) pre (tag, char, at) h e small =
      let counts : (i + 1 == 2 ^ 31) ≡ false = ground arith in
      rw (tag, counts, ascii_to_char-CharAt g v b char)
        (ap (copy_loop g fuel (g.field v 1) (i + 1)) (one_round pre b (length bs) i e)
          ∙ copy_loop-StringAt fuel (g.field v 1) (i + 1) bs (pre ++ (b ∷ [])) at (omega arith)
              (omega (arith, length-snoc pre b)) (omega arith)
          ∙ ap ok (simp append_assoc))

  -- The index reaches 2^31 before the string ends.
  copy_loop-overflow :
      (fuel v i : ℕ) (bs result : List ℕ)
      → StringAt g v bs
      → length bs < fuel
      → i < 2 ^ 31
      → 2 ^ 31 ≤ i + length bs
      → copy_loop g fuel v i result ≡ undefined
  unfolding copy_loop
  copy_loop-overflow zero v i bs result at h lt long = absurd (omega arith)
  copy_loop-overflow (suc fuel) v i [] result at h lt long = absurd (omega arith)
  copy_loop-overflow (suc fuel) v i (b ∷ bs) result (tag, char, at) h lt long =
      elim (Bool-cases (i + 1 == 2 ^ 31)) [
        | inl last ↦ rw (tag, last) refl
        | inr more ↦
            rw (tag, more)
              (copy_loop-overflow fuel (g.field v 1) (i + 1) bs _ at (omega arith) (ground arith)
                (omega arith))
      ]

  -- With enough fuel `value_to_string` of a string of fewer than 2^31 bytes returns the bytes of the
  -- string and a NUL, in an array that is just as long. For a longer string its `int` index overflows,
  -- which is undefined.
  pub value_to_string-StringAt :
      (fuel v : ℕ) (bs : List ℕ)
      → StringAt g v bs
      → length bs < fuel
      → value_to_string g fuel v
        ≡ (if ltb (length bs) (2 ^ 31) then ok (bs ++ (0 ∷ [])) else undefined)
  unfolding value_to_string
  value_to_string-StringAt fuel v bs at h = elim (Bool-cases (ltb (length bs) (2 ^ 31))) [
    | inl short ↦
        let small : length bs < 2 ^ 31 = ltb→lt _ _ short in
        rw (length_loop-StringAt g fuel v 0 bs at h (omega arith), value_to_string, short)
          (ap (λ n. copy_loop g fuel v 0 (replicate n 0)) {y = suc (length bs)} (omega arith)
            ∙ copy_loop-StringAt fuel v 0 bs [] at h refl (omega arith))
    | inr long ↦
        rw (length_loop-StringAt g fuel v 0 bs at h (omega arith), value_to_string, long)
          (copy_loop-overflow fuel v 0 bs _ at h (omega arith) (ground arith))
  ]

  -- The case of a short string.
  pub value_to_string_short :
      (fuel v : ℕ) (bs : List ℕ)
      → StringAt g v bs
      → length bs < fuel
      → length bs < 2 ^ 31
      → value_to_string g fuel v ≡ ok (bs ++ (0 ∷ []))
  value_to_string_short fuel v bs at h small =
      let short : ltb (length bs) (2 ^ 31) ≡ true = ground arith in
      value_to_string-StringAt fuel v bs at h ∙ rw short refl

-- A NUL behind the bytes is not part of the C string.
pub c_string-append_nul : (bs : List ℕ) → c_string (bs ++ (0 ∷ [])) ≡ c_string bs
c_string-append_nul [] = refl
c_string-append_nul (b ∷ bs) = ap (λ l. if b == 0 then [] else b ∷ l) (c_string-append_nul bs)
