-- ===== src/Ffi/Match.antt =====
-- `rgx_test` and `rgx_exec` of benchmarks/regex/prog_main.c.
--
-- PCRE is a parameter. So are the arrays that `malloc` gives: `fresh n` is the array that a call for
-- `n` bytes gives, with what it holds (`malloc` promises `n` bytes and may reserve more), and
-- `behind k` the bytes that it reserves for group `k` past those asked for. An access outside an
-- array is undefined. `malloc` gives an array each time.
pub mod Groups
pub mod Result
mod Tests
use certicoq.Prelude.{
  ℕ, zero, suc, ◌+◌, ◌*◌, ◌-◌, ◌/◌, ◌==◌, ◌&&◌, leb, ltb, Bool, true, false, if◌then◌else◌, Option,
  none, some, List, [], ◌∷◌, ◌++◌, length,
}
use certicoq.Prelude.Int.{ℤ, pos, negsuc}
use certicoq.Ffi.Strings.{
  Attempt, ok, undefined, endless, ◌>>=◌, Glue, c_string, replicate, value_to_string,
}
use certicoq.Ffi.Regex.{regex_string_size, regex_to_string}
use certicoq.Ffi.Build.{Maker, string_to_value}

-- `pcre_compile`, which gives no pattern on an error, and `pcre_exec` on a subject from its first byte
-- with an output vector of 20 numbers: what it returns, and the vector.
pub record Pcre (P : Type 0) : Type 0 where
  pub compile : List ℕ → Option P
  pub exec : Option P → List ℕ → ℤ × (ℕ → ℤ)

-- The generated constructors of `list` and `option`.
pub record Lists (W : Type 0) : Type 0 where
  pub nil_value : ℕ
  pub none_value : ℕ
  pub make_cons : ℕ → ℕ → W → ℕ × W
  pub make_some : ℕ → W → ℕ × W

-- `exit(1)`, or a value and the state that holds it.
pub data Outcome (W : Type 0) : Type 0 where
  exits : Outcome W
  returns : ℕ → W → Outcome W

abbrev pub non_negative : ℤ → Bool
non_negative (pos n) = true
non_negative (negsuc n) = false

-- `MIN(OVECCOUNT, rc * 2) / 2`, the number of rounds from `i = limit` down to 0 in steps of 2.
abbrev pub group_rounds : ℤ → ℕ
group_rounds (pos n) = (if leb (n * 2) 20 then n * 2 else 20) / 2
group_rounds (negsuc n) = 0

-- The bytes of the array from its position `i` on.
abbrev pub from : List ℕ → ℕ → List ℕ
from s zero = s
from [] (suc i) = []
from (b ∷ s) (suc i) = from s i

-- What `strncpy` writes: at most `n` bytes before the NUL, and NULs up to `n` bytes.
abbrev pub strncpy : ℕ → List ℕ → List ℕ
strncpy zero s = []
strncpy (suc n) [] = replicate (suc n) 0
strncpy (suc n) (b ∷ s) = if b == 0 then replicate (suc n) 0 else b ∷ strncpy n s

-- Where a group starts in the subject, an array of `size` bytes that ends with a NUL, and how long the
-- group is. PCRE gives a group that took no part in the match the offsets -1 and -1, so that nothing
-- is read. A start outside the array and a negative length are undefined.
abbrev pub group_extent : ℕ → ℤ → ℤ → Attempt (ℕ × ℕ)
group_extent size (pos a) (pos b) = if leb a b && ltb a size then ok (a, b - a) else undefined
group_extent size (pos a) (negsuc b) = undefined
group_extent size (negsuc a) (pos b) = undefined
group_extent size (negsuc a) (negsuc b) = if a == b then ok (0, 0) else undefined

-- `strlen` and what follows it: it reads on to the first NUL, which the array must hold.
abbrev pub with_terminator {ℓ} : {A : Type ℓ} → List ℕ → Attempt A → Attempt A
with_terminator s next = if ltb (length (c_string s)) (length s) then next else undefined

module _ {W : Type 0} (maker : Maker W) (lists : Lists W) (behind : ℕ → List ℕ) (matched : List ℕ)
    (ovector : ℕ → ℤ) where
  -- The array `new` of group `k`, with what `malloc` reserves behind it.
  unfoldable pub group_array : ℕ → Attempt (List ℕ)
  group_array k = do
    (start, n) ← group_extent (length matched) (ovector (k * 2)) (ovector (k * 2 + 1))
    ok (strncpy n (from matched start) ++ behind k)

  -- The loop of `rgx_exec`, of which `k` rounds are left.
  unfoldable pub group_loop : ℕ → ℕ → W → Attempt (Outcome W)
  unfolding group_array string_to_value
  group_loop zero list w = let (v, w') = lists.make_some list w in ok (returns v w')
  group_loop (suc k) list w = group_array k >>= λ new.
      let (sv, w1) = string_to_value maker new w in
      let (list', w2) = lists.make_cons sv list w1 in
      let rest = group_loop k list' w2 in with_terminator new rest

module _ {P W : Type 0} (maker : Maker W) (lists : Lists W) (pcre : Pcre P) (string_fuel fuel : ℕ)
    (fresh : ℕ → List ℕ) where
  open pcre use {compile, exec}
  open maker use {glue, true_value, false_value}

  -- The pattern in the array `rs`, which `rgx_test` and `rgx_exec` begin with.
  unfoldable pub pattern_of : ℕ → W → Attempt (List ℕ)
  unfolding regex_string_size regex_to_string
  pattern_of r w = do
    rs_size ← regex_string_size (glue w) string_fuel fuel r
    let rs = fresh rs_size
    regex_to_string (glue w) string_fuel (length rs) fuel r (c_string rs)

  -- `rgx_test`: an error of `pcre_compile` is not looked at.
  unfoldable pub rgx_test : ℕ → ℕ → W → Attempt ℕ
  unfolding pattern_of value_to_string
  rgx_test r str w = do
    rs ← pattern_of r w
    matched ← value_to_string (glue w) string_fuel str
    ok (if non_negative (exec (compile rs) (c_string matched)).0 then true_value else false_value)

  -- `rgx_exec`
  unfoldable pub rgx_exec : (ℕ → List ℕ) → ℕ → ℕ → W → Attempt (Outcome W)
  unfolding pattern_of value_to_string group_loop
  rgx_exec behind r str w = do
    rs ← pattern_of r w
    matched ← value_to_string (glue w) string_fuel str
    elim (compile rs) [
      | none ↦ ok exits
      | some re ↦
          let (rc, ovector) = exec (some re) (c_string matched) in
          if non_negative rc
          then group_loop maker lists behind matched ovector (group_rounds rc) lists.nil_value w
          else ok (returns lists.none_value w)
    ]
