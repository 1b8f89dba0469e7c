-- ===== src/Words/Bounds.antt =====
-- The macros of theories/Runtime/values.h, related to each other.
use certicoq.Prelude.{ℕ, ◌+◌, ◌*◌, ◌^◌, ◌≤◌, ◌<◌, ◌≡◌, true, false, arith}
use certicoq.Prelude.Int.{ℤ, pos, negsuc, pos_part, neg_part}
use certicoq.Words.{
  is_long, is_block, val_long, long_val, signed, unsigned, tag_hd, wosize_hd, to_int, max_wosize,
}

-- An integer of 63 bits comes back from the word that stands for it, which is odd.
pub long_val-val_long :
    (x : ℤ)
    → pos_part x < 2 ^ 62
    → neg_part x ≤ 2 ^ 62
    → (long_val (val_long x) ≡ x)
      × (is_long (val_long x) ≡ true)
      × (is_block (val_long x) ≡ false)
      × (val_long x < 2 ^ 64)
unfolding long_val val_long signed unsigned is_long is_block
long_val-val_long (pos n) h k = ground arith
long_val-val_long (negsuc n) h k = ground arith

-- The header with a size and a tag, as the mutator builds it, gives both back and fits a word.
pub header_fields :
    (sz tag : ℕ)
    → sz ≤ max_wosize
    → tag < 256
    → (wosize_hd (sz * 1024 + tag) ≡ sz)
      × (tag_hd (sz * 1024 + tag) ≡ tag)
      × (sz * 1024 + tag < 2 ^ 64)
unfolding wosize_hd tag_hd
header_fields sz tag h k = omega arith

pub to_int-small : (x : ℕ) → x < 2 ^ 31 → to_int x ≡ pos x
unfolding to_int
to_int-small x h = ground arith
