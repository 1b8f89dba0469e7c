-- ===== src/Ffi/Regex/Print.antt =====
-- The text that benchmarks/regex/prog_main.c makes of a regular expression, against the expression.
use certicoq.Prelude.{
  ℕ, zero, suc, ◌+◌, ◌%◌, ◌^◌, ◌<◌, ◌≡◌, ◌∙◌, refl, sym, true, false, inl, inr, Bool-cases, ltb,
  ltb→lt, if◌then◌else◌, List, [], ◌∷◌, ◌++◌, arith, ap, length, length-append,
}
use mathlib.Core.Path.{fun_ext}
use mathlib.Core.List.{append_assoc}
use certicoq.Ffi.Strings.{
  Attempt, ok, undefined, endless, ◌>>=◌, Glue, StringAt, c_string, value_to_string,
}
use certicoq.Ffi.Strings.Read.{value_to_string_short, c_string-append_nul}
use certicoq.Ffi.Regex.{strcat, regex_string_size, regex_to_string, open_group, never}

-- The `rgx` of the benchmark's Coq program.
pub data Rgx : Type 0 where
  empty epsilon : Rgx
  literal : List ℕ → Rgx
  or and : Rgx → Rgx → Rgx
  star capture : Rgx → Rgx

-- Its text, in PCRE's syntax.
unfoldable pub print : Rgx → List ℕ
print empty = never
print epsilon = open_group ++ (b')' ∷ [])
print (literal bs) = open_group ++ (c_string bs ++ (b')' ∷ []))
print (or a b) = open_group ++ (print a ++ ((b'|' ∷ []) ++ (print b ++ (b')' ∷ []))))
print (and a b) = open_group ++ (print a ++ (print b ++ (b')' ∷ [])))
print (star a) = open_group ++ (print a ++ (b')' ∷ b'*' ∷ []))
print (capture a) = (b'(' ∷ []) ++ (print a ++ (b')' ∷ []))

-- Below the fuels: the depth of the expression, and the lengths of its literals, which an `int` can
-- count.
abbrev pub Below : ℕ → ℕ → Rgx → Type 0
Below string_fuel zero r = ⊥
Below string_fuel (suc fuel) empty = Unit
Below string_fuel (suc fuel) epsilon = Unit
Below string_fuel (suc fuel) (literal bs) = (length bs < string_fuel) × (length bs < 2 ^ 31)
Below string_fuel (suc fuel) (or a b) = Below string_fuel fuel a × Below string_fuel fuel b
Below string_fuel (suc fuel) (and a b) = Below string_fuel fuel a × Below string_fuel fuel b
Below string_fuel (suc fuel) (star a) = Below string_fuel fuel a
Below string_fuel (suc fuel) (capture a) = Below string_fuel fuel a

module _ (g : Glue) where
  -- The value `v` stands for the expression.
  abbrev pub RgxAt : ℕ → Rgx → Type 0
  RgxAt v empty = g.rgx_tag v ≡ 0
  RgxAt v epsilon = g.rgx_tag v ≡ 1
  RgxAt v (literal bs) = (g.rgx_tag v ≡ 2) × StringAt g (g.field v 0) bs
  RgxAt v (or a b) = (g.rgx_tag v ≡ 3) × RgxAt (g.field v 0) a × RgxAt (g.field v 1) b
  RgxAt v (and a b) = (g.rgx_tag v ≡ 4) × RgxAt (g.field v 0) a × RgxAt (g.field v 1) b
  RgxAt v (star a) = (g.rgx_tag v ≡ 5) × RgxAt (g.field v 0) a
  RgxAt v (capture a) = (g.rgx_tag v ≡ 6) × RgxAt (g.field v 0) a

-- Appending two texts in turn is appending both at once: the first fits if both do.
strcat_bind :
    (size : ℕ) (s t u : List ℕ) (next : List ℕ → Attempt (List ℕ))
    → (strcat size s t >>= λ s1. strcat size s1 u >>= next) ≡ (strcat size s (t ++ u) >>= next)
unfolding strcat
strcat_bind size s t u next = elim (Bool-cases (ltb (length s + length (t ++ u)) size)) [
  | inl fits ↦
      let first : ltb (length s + length t) size ≡ true =
        ground (arith, length-append {0} t u, ltb→lt _ _ fits) in
      let second : ltb (length (s ++ t) + length u) size ≡ true =
        ground (arith, length-append {0} t u, length-append {0} s t, ltb→lt _ _ fits) in
      rw (fits, first, second) (ap next (append_assoc s t u))
  | inr full ↦ elim (Bool-cases (ltb (length s + length t) size)) [
    | inr none_fits ↦ rw (full, none_fits) refl
    | inl first ↦
        let second : ltb (length (s ++ t) + length u) size ≡ false =
          ground (arith, length-append {0} t u, length-append {0} s t) in
        rw (full, first, second) refl
  ]
]

last_call : (r : Attempt (List ℕ)) → (r >>= ok) ≡ r
last_call (ok a) = refl
last_call undefined = refl
last_call endless = refl

strcat_append :
    (size : ℕ) (s t u : List ℕ)
    → (strcat size s t >>= λ s1. strcat size s1 u) ≡ strcat size s (t ++ u)
strcat_append size s t u =
    ap (λ f. strcat size s t >>= f) (fun_ext (λ s1. sym (last_call (strcat size s1 u))))
    ∙ strcat_bind size s t u ok
    ∙ last_call (strcat size s (t ++ u))

-- The last of the calls, where the texts make up the whole one.
strcat_last :
    (size : ℕ) (s t u whole : List ℕ)
    → t ++ u ≡ whole
    → (strcat size s t >>= λ s1. strcat size s1 u) ≡ strcat size s whole
strcat_last size s t u whole e = strcat_append size s t u ∙ ap (strcat size s) e

module _ (g : Glue) (string_fuel : ℕ) where
  literal_text :
      (v : ℕ) (bs : List ℕ)
      → StringAt g v bs
      → (length bs < string_fuel) × (length bs < 2 ^ 31)
      → value_to_string g string_fuel v ≡ ok (bs ++ (0 ∷ []))
  literal_text v bs at (h, small) = value_to_string_short g string_fuel v bs at h small

  -- The calls of `strcat` for an expression come to one.
  appends :
      (size fuel v : ℕ) (r : Rgx)
      → RgxAt g v r
      → Below string_fuel fuel r
      → regex_to_string g string_fuel size fuel v ≡ (λ s. strcat size s (print r))
  unfolding regex_to_string print
  appends size zero v r at b = absurd b
  appends size (suc fuel) v empty at b = fun_ext (λ s. rw (at, regex_to_string) refl)
  appends size (suc fuel) v epsilon at b = fun_ext (λ s. rw (at, regex_to_string) refl)
  appends size (suc fuel) v (literal bs) (tag, at) b = fun_ext (λ s.
      rw (tag, regex_to_string, literal_text (g.field v 0) bs at b, c_string-append_nul bs)
        (strcat_bind size s open_group (c_string bs) (λ s2. strcat size s2 (b')' ∷ []))
          ∙ strcat_last size s (open_group ++ c_string bs) (b')' ∷ []) (print (literal bs))
              (simp append_assoc)))
  appends size (suc fuel) v (or p q) (tag, left, right) (bl, br) = fun_ext (λ s.
      rw
        (
          tag,
          regex_to_string,
          appends size fuel (g.field v 0) p left bl,
          appends size fuel (g.field v 1) q right br,
        )
        (strcat_bind size s open_group (print p) _
          ∙ strcat_bind size s (open_group ++ print p) (b'|' ∷ []) _
          ∙ strcat_bind size s ((open_group ++ print p) ++ (b'|' ∷ [])) (print q)
              (λ s4. strcat size s4 (b')' ∷ []))
          ∙ strcat_last size s (((open_group ++ print p) ++ (b'|' ∷ [])) ++ print q) (b')' ∷ [])
              (print (or p q)) (simp append_assoc)))
  appends size (suc fuel) v (and p q) (tag, left, right) (bl, br) = fun_ext (λ s.
      rw
        (
          tag,
          regex_to_string,
          appends size fuel (g.field v 0) p left bl,
          appends size fuel (g.field v 1) q right br,
        )
        (strcat_bind size s open_group (print p) _
          ∙ strcat_bind size s (open_group ++ print p) (print q) (λ s3. strcat size s3 (b')' ∷ []))
          ∙ strcat_last size s ((open_group ++ print p) ++ print q) (b')' ∷ []) (print (and p q))
              (simp append_assoc)))
  appends size (suc fuel) v (star p) (tag, at) b = fun_ext (λ s.
      rw (tag, regex_to_string, appends size fuel (g.field v 0) p at b)
        (strcat_bind size s open_group (print p) (λ s2. strcat size s2 (b')' ∷ b'*' ∷ []))
          ∙ strcat_last size s (open_group ++ print p) (b')' ∷ b'*' ∷ []) (print (star p))
              (simp append_assoc)))
  appends size (suc fuel) v (capture p) (tag, at) b = fun_ext (λ s.
      rw (tag, regex_to_string, appends size fuel (g.field v 0) p at b)
        (strcat_bind size s (b'(' ∷ []) (print p) (λ s2. strcat size s2 (b')' ∷ []))
          ∙ strcat_last size s ((b'(' ∷ []) ++ print p) (b')' ∷ []) (print (capture p))
              (simp append_assoc)))

  -- `regex_to_string` is one `strcat` of the whole text of the expression, with fuel above its depth
  -- and the lengths of its literals, which have fewer than 2^31 bytes: where the array has room for
  -- what it holds, the text and a NUL, it holds the text behind what it held, and otherwise the call
  -- writes outside the array.
  pub regex_to_string-print :
      (size fuel v : ℕ) (r : Rgx) (s : List ℕ)
      → RgxAt g v r
      → Below string_fuel fuel r
      → regex_to_string g string_fuel size fuel v s
        ≡ (if ltb (length s + length (print r)) size then ok (s ++ print r) else undefined)
  unfolding strcat
  regex_to_string-print size fuel v r s at b = ap (λ f. f s) (appends size fuel v r at b)

  length-two : (p q : List ℕ) → length (p ++ q) ≡ length p + length q
  length-two p q = length-append p q

  -- `regex_string_size` is the length of that text as a `size_t`, with fuel above the depth of the
  -- expression and the lengths of its literals, which have fewer than 2^31 bytes. The NUL that ends
  -- the text is not counted.
  pub regex_string_size-print :
      (fuel v : ℕ) (r : Rgx)
      → RgxAt g v r
      → Below string_fuel fuel r
      → regex_string_size g string_fuel fuel v ≡ ok (length (print r) % 2 ^ 64)
  unfolding regex_string_size print
  regex_string_size-print zero v r at b = absurd b
  regex_string_size-print (suc fuel) v empty at b = rw (at, regex_string_size) refl
  regex_string_size-print (suc fuel) v epsilon at b = rw (at, regex_string_size) refl
  regex_string_size-print (suc fuel) v (literal bs) (tag, at) b =
      rw (tag, regex_string_size, literal_text (g.field v 0) bs at b, c_string-append_nul bs)
        (ap ok (omega (arith, length-two (c_string bs) (b')' ∷ []))))
  regex_string_size-print (suc fuel) v (or p q) (tag, left, right) (bl, br) =
      rw
        (
          tag,
          regex_string_size,
          regex_string_size-print fuel (g.field v 0) p left bl,
          regex_string_size-print fuel (g.field v 1) q right br,
        )
        (ap ok (
          omega (
            arith,
            length-two (print p) (b'|' ∷ print q ++ (b')' ∷ [])),
            length-two (print q) (b')' ∷ []),
          )))
  regex_string_size-print (suc fuel) v (and p q) (tag, left, right) (bl, br) =
      rw
        (
          tag,
          regex_string_size,
          regex_string_size-print fuel (g.field v 0) p left bl,
          regex_string_size-print fuel (g.field v 1) q right br,
        )
        (ap ok (
          omega (
            arith,
            length-two (print p) (print q ++ (b')' ∷ [])),
            length-two (print q) (b')' ∷ []),
          )))
  regex_string_size-print (suc fuel) v (star p) (tag, at) b =
      rw (tag, regex_string_size, regex_string_size-print fuel (g.field v 0) p at b)
        (ap ok (omega (arith, length-two (print p) (b')' ∷ b'*' ∷ []))))
  regex_string_size-print (suc fuel) v (capture p) (tag, at) b =
      rw (tag, regex_string_size, regex_string_size-print fuel (g.field v 0) p at b)
        (ap ok (omega (arith, length-two (print p) (b')' ∷ []))))
