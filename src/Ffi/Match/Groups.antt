-- ===== src/Ffi/Match/Groups.antt =====
-- The groups of a match as `rgx_exec` of benchmarks/regex/prog_main.c copies them into a list.
use certicoq.Prelude.{
  ℕ, zero, suc, ◌+◌, ◌*◌, ◌-◌, ◌%◌, ◌^◌, ◌≤◌, ◌<◌, ◌≡◌, refl, arith, ap, ◌∙◌, Bool, Bool-cases,
  true, false, inl, inr, leb, ltb, length-append, ◌==◌, if◌then◌else◌, List, [], ◌∷◌, ◌++◌, length,
}
use certicoq.Prelude.Int.{ℤ, pos, pos_part}
use certicoq.Ffi.Strings.{ok, c_string}
use certicoq.Ffi.Build.{Maker, byte_at, string_loop, string_to_value}
use certicoq.Ffi.Match.{Lists, Outcome, from, strncpy, group_array, group_loop}

-- The first `n` elements.
abbrev pub take : ℕ → List ℕ → List ℕ
take zero s = []
take (suc n) [] = []
take (suc n) (b ∷ s) = b ∷ take n s

-- No byte is a NUL.
abbrev pub NoNul : List ℕ → Type 0
NoNul [] = Unit
NoNul (b ∷ s) = ((b == 0) ≡ false) × NoNul s

pub c_string-NoNul : (s : List ℕ) → NoNul s → c_string s ≡ s
c_string-NoNul [] h = refl
c_string-NoNul (b ∷ s) (e, h) = rw e (ap (λ l. b ∷ l) (c_string-NoNul s h))

from-NoNul : (s : List ℕ) (a : ℕ) → NoNul s → NoNul (from s a)
from-NoNul s zero h = h
from-NoNul [] (suc a) h = h
from-NoNul (b ∷ s) (suc a) (e, h) = from-NoNul s a h

from-append : (s t : List ℕ) (a : ℕ) → a ≤ length s → from (s ++ t) a ≡ from s a ++ t
from-append s t zero h = refl
from-append [] t (suc a) h = absurd (omega arith)
from-append (b ∷ s) t (suc a) h = from-append s t a (omega arith)

length-from : (s : List ℕ) (a : ℕ) → a ≤ length s → a + length (from s a) ≡ length s
length-from s zero h = omega arith
length-from [] (suc a) h = absurd (omega arith)
length-from (b ∷ s) (suc a) h = omega (arith, length-from s a (omega arith))

strncpy-take : (n : ℕ) (s t : List ℕ) → NoNul s → n ≤ length s → strncpy n (s ++ t) ≡ take n s
strncpy-take zero s t h le = refl
strncpy-take (suc n) [] t h le = absurd (omega arith)
strncpy-take (suc n) (b ∷ s) t (e, h) le =
    rw e (ap (λ l. b ∷ l) (strncpy-take n s t h (omega arith)))

c_string-take : (n : ℕ) (s t : List ℕ) → NoNul s → c_string (take n s ++ t) ≡ take n s ++ c_string t
c_string-take zero s t h = refl
c_string-take (suc n) [] t h = refl
c_string-take (suc n) (b ∷ s) t (e, h) = rw e (ap (λ l. b ∷ l) (c_string-take n s t h))

c_string-c_string : (s : List ℕ) → c_string (c_string s) ≡ c_string s
c_string-c_string [] = refl
c_string-c_string (b ∷ s) = elim (Bool-cases (b == 0)) [
  | inl e ↦ rw e refl
  | inr e ↦ rw (e, e) (ap (λ l. b ∷ l) (c_string-c_string s))
]

head_or_nul :
    (nul : Bool) (b : ℕ) (s cs : List ℕ) (i : ℕ)
    → i < length (if nul then [] else b ∷ cs)
    → ((j : ℕ) → j < length cs → byte_at s j ≡ byte_at cs j)
    → byte_at (b ∷ s) i ≡ byte_at (if nul then [] else b ∷ cs) i
head_or_nul true b s cs i h rest = absurd (omega arith)
head_or_nul false b s cs zero h rest = refl
head_or_nul false b s cs (suc i) h rest = rest i (omega arith)

byte_at-c_string :
    (s : List ℕ) (i : ℕ) → i < length (c_string s) → byte_at s i ≡ byte_at (c_string s) i
byte_at-c_string [] i h = refl
byte_at-c_string (b ∷ s) i h = head_or_nul (b == 0) b s (c_string s) i h (byte_at-c_string s)

module _ {W : Type 0} (maker : Maker W) where
  string_loop-c_string :
      (s : List ℕ) (i t : ℕ) (w : W)
      → i ≤ length (c_string s)
      → string_loop maker s i t w ≡ string_loop maker (c_string s) i t w
  unfolding string_loop
  string_loop-c_string s zero t w h = refl
  string_loop-c_string s (suc i) t w h =
      rw (byte_at-c_string s i (omega arith)) (string_loop-c_string s i _ _ (omega arith))

  -- `string_to_value` depends on the bytes before the NUL alone.
  string_to_value-c_string :
      (s : List ℕ) (w : W) → string_to_value maker s w ≡ string_to_value maker (c_string s) w
  unfolding string_to_value
  string_to_value-c_string s w =
      rw (c_string-c_string s)
        (string_loop-c_string s (length (c_string s) % 2 ^ 32) _ w (omega arith))

-- The bounds of group `k`: in the subject, the first no later than the second.
abbrev pub start : (ℕ → ℤ) → ℕ → ℕ
start ovector k = pos_part (ovector (k * 2))

abbrev pub stop : (ℕ → ℤ) → ℕ → ℕ
stop ovector k = pos_part (ovector (k * 2 + 1))

abbrev pub Inside : List ℕ → (ℕ → ℤ) → ℕ → Type 0
Inside bs ovector k =
    (ovector (k * 2) ≡ pos (start ovector k))
    × (ovector (k * 2 + 1) ≡ pos (stop ovector k))
    × (start ovector k ≤ stop ovector k)
    × (stop ovector k ≤ length bs)

-- The part of the subject that the group matched, and behind it what stands behind the array that it is
-- copied into, which has no room for a NUL of its own.
abbrev pub group : List ℕ → (ℕ → ℤ) → (ℕ → List ℕ) → ℕ → List ℕ
group bs ovector behind k =
    take (stop ovector k - start ovector k) (from bs (start ovector k)) ++ c_string (behind k)

-- The texts of the first `k` groups, in order, before `rest`.
abbrev pub groups : List ℕ → (ℕ → ℤ) → (ℕ → List ℕ) → ℕ → List (List ℕ) → List (List ℕ)
groups bs ovector behind zero rest = rest
groups bs ovector behind (suc k) rest =
    groups bs ovector behind k (group bs ovector behind k ∷ rest)

module _ {W : Type 0} (maker : Maker W) (lists : Lists W) where
  -- The value of a list of texts, built from its end.
  unfoldable pub list_value : List (List ℕ) → W → ℕ × W
  list_value [] w = (lists.nil_value, w)
  list_value (t ∷ ts) w =
      let (list, w1) = list_value ts w in
      let (sv, w2) = string_to_value maker t w1 in lists.make_cons sv list w2

  unfoldable pub some_value : ℕ × W → Outcome W
  some_value (list, w) = let (v, w') = lists.make_some list w in Outcome.returns v w'

  module _ (behind : ℕ → List ℕ) (bs : List ℕ) (ovector : ℕ → ℤ) (clean : NoNul bs) where
    abbrev array : ℕ → List ℕ
    array k = take (stop ovector k - start ovector k) (from bs (start ovector k)) ++ behind k

    group_array-array :
        (k : ℕ)
        → Inside bs ovector k
        → group_array maker lists behind (bs ++ (0 ∷ [])) ovector k ≡ ok (array k)
    unfolding group_array
    group_array-array k (first, second, order, bound) =
        let order_holds : leb (start ovector k) (stop ovector k) ≡ true = ground arith in
        let in_array : ltb (start ovector k) (length (bs ++ (0 ∷ []))) ≡ true =
          ground (arith, length-append {0} bs (0 ∷ [])) in
        let a = start ovector k in
        let n = stop ovector k - a in
        rw (group_array, first, second, order_holds, in_array)
          (ap ok (
            ap (λ s. strncpy n s ++ behind k) (from-append bs (0 ∷ []) a (omega arith))
            ∙ ap (λ s. s ++ behind k)
                (strncpy-take n (from bs a) (0 ∷ []) (from-NoNul bs a clean)
                  (omega (arith, length-from bs a (omega arith))))))

    group-string :
        (k : ℕ) (w : W)
        → string_to_value maker (array k) w ≡ string_to_value maker (group bs ovector behind k) w
    group-string k w =
        let a = start ovector k in
        let n = stop ovector k - a in
        string_to_value-c_string maker (array k) w
        ∙ ap (λ s. string_to_value maker s w)
            (c_string-take n (from bs a) (behind k) (from-NoNul bs a clean))

    -- Where a NUL stands behind the array, `strlen` ends.
    array-terminator :
        (k : ℕ)
        → length (c_string (behind k)) < length (behind k)
        → ltb (length (c_string (array k))) (length (array k)) ≡ true
    array-terminator k h =
        let a = start ovector k in
        let t = take (stop ovector k - a) (from bs a) in
        ground (
          arith,
          ap (length {A = ℕ})
              (c_string-take (stop ovector k - a) (from bs a) (behind k) (from-NoNul bs a clean)),
          length-append {0} t (c_string (behind k)),
          length-append {0} t (behind k),
        )

    -- The loop conses the texts of the groups that are left, from the last to the first.
    pub group_loop-groups :
        (k : ℕ) (rest : List (List ℕ)) (w : W)
        → ((j : ℕ) → j < k → Inside bs ovector j)
        → ((j : ℕ) → j < k → length (c_string (behind j)) < length (behind j))
        → group_loop maker lists behind
            (bs ++ (0 ∷ []))
            ovector
            k
            (list_value rest w).0
            (list_value rest w).1
          ≡ ok (some_value (list_value (groups bs ovector behind k rest) w))
    unfolding group_loop list_value some_value
    group_loop-groups zero rest w inside ends = refl
    group_loop-groups (suc k) rest w inside ends =
        rw
          (
            group_loop,
            group_array-array k (inside k (omega arith)),
            array-terminator k (ends k (omega arith)),
            group-string k (list_value rest w).1,
          )
          (group_loop-groups k (group bs ovector behind k ∷ rest) w (λ j h. inside j (omega arith))
            (λ j h. ends j (omega arith)))
