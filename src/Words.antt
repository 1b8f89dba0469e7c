-- ===== src/Words.antt =====
-- theories/Runtime/values.h and config.h: machine words, the two kinds of value, and the header of
-- a block, on a machine with 64-bit words (`intnat` is `long`, `value` is an `intnat`).
--
-- A word is its bit pattern, a number below 2^64. Memory is an array of words, and the pointer to
-- the word with index `a` is the byte address `8 * a`.
pub mod Bounds
pub mod Longs
mod Tests
use certicoq.Prelude.{
  ℕ, ◌+◌, ◌-◌, ◌*◌, ◌/◌, ◌%◌, ◌^◌, Bool, ◌&&◌, ltb, leb, ◌==◌, if◌then◌else◌, not,
}
use certicoq.Prelude.Int.{ℤ, pos, negsuc}

-- `sizeof (value)`
abbrev pub word_bytes : ℕ
word_bytes = 8

abbrev pub word_mod : ℕ
word_mod = 2 ^ 64

-- `Is_long`
unfoldable pub is_long : ℕ → Bool
is_long x = not (x % 2 == 0)

-- `Is_block`
unfoldable pub is_block : ℕ → Bool
is_block x = x % 2 == 0

-- `(value *) v`, as the index of a word, and the pointer to the word with index `a`, as a value.
abbrev pub index : ℕ → ℕ
index v = v / word_bytes

abbrev pub pointer : ℕ → ℕ
pointer a = word_bytes * a

-- The `intnat` that a word stands for, and the word of an `intnat`.
unfoldable pub signed : ℕ → ℤ
signed x = if ltb x (2 ^ 63) then pos x else negsuc (2 ^ 64 - x - 1)

unfoldable pub unsigned : ℤ → ℕ
unsigned (pos n) = n % 2 ^ 64
unsigned (negsuc n) = 2 ^ 64 - 1 - n % 2 ^ 64

-- `Val_long`
unfoldable pub val_long : ℤ → ℕ
val_long x = (unsigned x * 2 % 2 ^ 64 + 1) % 2 ^ 64

-- `Long_val`: an arithmetic shift of an `intnat`.
unfoldable pub long_val : ℕ → ℤ
long_val x = elim (signed x) [ pos n ↦ pos (n / 2) | negsuc n ↦ negsuc (n / 2) ]

-- `Tag_hd` and `Wosize_hd`
unfoldable pub tag_hd : ℕ → ℕ
tag_hd hd = hd % 256

unfoldable pub wosize_hd : ℕ → ℕ
wosize_hd hd = hd / 1024

-- `Max_wosize` with ARCH_SIXTYFOUR
abbrev pub max_wosize : ℕ
max_wosize = 2 ^ 54 - 1

-- `(int) x` of a word: its low 32 bits, in two's complement.
unfoldable pub to_int : ℕ → ℤ
to_int x = if ltb (x % 2 ^ 32) (2 ^ 31) then pos (x % 2 ^ 32) else negsuc (2 ^ 32 - x % 2 ^ 32 - 1)
