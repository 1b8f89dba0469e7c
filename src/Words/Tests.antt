-- ===== src/Words/Tests.antt =====
-- The words of some integers, by values.h (theories/Runtime).
use certicoq.Prelude.{◌^◌, ◌-◌, ◌≡◌, refl}
use certicoq.Prelude.Int.{negsuc}
use certicoq.Words.{val_long, long_val, signed, unsigned}

word_of_minus_five : val_long (negsuc 4) ≡ 2 ^ 64 - 9
unfolding val_long unsigned
word_of_minus_five = refl

minus_five : long_val (2 ^ 64 - 9) ≡ negsuc 4
unfolding long_val signed
minus_five = refl
