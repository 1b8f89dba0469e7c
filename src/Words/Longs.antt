-- ===== src/Words/Longs.antt =====
-- The integers that a word of theories/Runtime/values.h can stand for, and the words.
use mathlib.Core.Equiv.{IsEquiv, iso_to_equiv}
use mathlib.Core.HLevel.{Σ_prop_path}
use native.Mathlib.Bridge.{le_prop}
use certicoq.Prelude.{ℕ, ◌^◌, ◌≤◌, ◌<◌, ◌≡◌, true, arith, Bool-cases, ltb, inl, inr}
use certicoq.Prelude.Int.{ℤ, pos_part, neg_part}
use certicoq.Words.{is_long, val_long, long_val, signed, unsigned}
use certicoq.Words.Bounds.{long_val-val_long}

-- A signed integer of 63 bits.
abbrev pub Fits63 : ℤ → Type 0
Fits63 x = (pos_part x < 2 ^ 62) × (neg_part x ≤ 2 ^ 62)

abbrev pub Int63 : Type 0
Int63 = (x : ℤ) × Fits63 x

-- A word that is no pointer.
abbrev pub IsLongWord : ℕ → Type 0
IsLongWord w = (is_long w ≡ true) × (w < 2 ^ 64)

abbrev pub LongWord : Type 0
LongWord = (w : ℕ) × IsLongWord w

-- `Val_long`, with what it returns.
unfoldable pub long_word : Int63 → LongWord
long_word (x, (low, high)) =
    let (back, odd, no_pointer, fits) = long_val-val_long x low high in (val_long x, (odd, fits))

val_long-long_val :
    (w : ℕ)
    → is_long w ≡ true
    → w < 2 ^ 64
    → (val_long (long_val w) ≡ w)
      × (pos_part (long_val w) < 2 ^ 62)
      × (neg_part (long_val w) ≤ 2 ^ 62)
unfolding val_long long_val signed unsigned is_long
val_long-long_val w odd fits = elim (Bool-cases (ltb w (2 ^ 63))) [
  | inl low ↦ rw (low, long_val) (ground arith)
  | inr high ↦ rw (high, long_val) (ground arith)
]

-- `Long_val`, of such a word.
unfoldable word_long : LongWord → Int63
word_long (w, (odd, fits)) =
    let (back, low, high) = val_long-long_val w odd fits in (long_val w, (low, high))

long_word-word_long : (b : LongWord) → long_word (word_long b) ≡ b
unfolding long_word word_long
long_word-word_long b =
    Σ_prop_path {B = IsLongWord} (λ w. hlevel (le_prop)) {u = long_word (word_long b)} {v = b}
      (val_long-long_val b.0 b.1.0 b.1.1).0

word_long-long_word : (a : Int63) → word_long (long_word a) ≡ a
unfolding long_word word_long
word_long-long_word a =
    Σ_prop_path {B = Fits63} (λ x. hlevel (le_prop)) {u = word_long (long_word a)} {v = a}
      (long_val-val_long a.0 a.1.0 a.1.1).0

-- `Val_long` is an equivalence between the signed integers of 63 bits and the words below 2^64 that
-- are no pointers: every integer has its own word, and every such word is that of one integer.
pub long_word-IsEquiv : IsEquiv long_word
long_word-IsEquiv =
    (iso_to_equiv (record {
      fun = long_word;
      inv = word_long;
      rinv = long_word-word_long;
      linv = word_long-long_word;
    })).1
