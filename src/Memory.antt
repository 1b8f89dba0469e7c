-- ===== src/Memory.antt =====
-- The memory that the C code of the runtime works on: words by index, and the assignments and
-- copying loops that change them.
pub mod Laws
use certicoq.Prelude.{ℕ, zero, suc, ◌+◌, ◌==◌, if◌then◌else◌}

abbrev pub Mem : Type 0
Mem = ℕ → ℕ

-- `*a = v`
unfoldable pub write : Mem → ℕ → ℕ → Mem
write m a v x = if x == a then v else m x

-- for (k = 0; k < n; k++) dst[k] = src[k];
unfoldable pub copy_words : ℕ → ℕ → ℕ → Mem → Mem
copy_words zero dst src m = m
copy_words (suc n) dst src m = copy_words n (dst + 1) (src + 1) (write m dst (m src))
