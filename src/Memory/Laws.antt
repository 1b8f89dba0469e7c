-- ===== src/Memory/Laws.antt =====
-- What a write and a copying loop leave in memory.
use certicoq.Prelude.{ℕ, zero, suc, ◌+◌, ◌≤◌, ◌<◌, ◌≡◌, refl, ◌⊎◌, ◌≢◌, arith, ◌∙◌, ap}
use certicoq.Memory.{Mem, write, copy_words}

pub write_self : (m : Mem) (a v : ℕ) → write m a v a ≡ v
unfolding write
write_self m a v = ground arith

pub write_ne : (m : Mem) (a v x : ℕ) → x ≢ a → write m a v x ≡ m x
unfolding write
write_ne m a v x h = ground arith

-- A copy leaves every word outside the destination alone.
pub copy_words-outside :
    (n dst src : ℕ) (m : Mem) (x : ℕ) → (x < dst) ⊎ (dst + n ≤ x) → copy_words n dst src m x ≡ m x
unfolding copy_words
copy_words-outside zero dst src m x h = refl
copy_words-outside (suc n) dst src m x h =
    copy_words-outside n (dst + 1) (src + 1) (write m dst (m src)) x (omega arith)
    ∙ write_ne m dst (m src) x (omega arith)

-- Each word of the destination is the source's, where the two do not overlap.
pub copy_words-inside :
    (n dst src : ℕ) (m : Mem) (i : ℕ)
    → i < n
    → (src + n ≤ dst) ⊎ (dst + n ≤ src)
    → copy_words n dst src m (dst + i) ≡ m (src + i)
unfolding copy_words
copy_words-inside zero dst src m i h apart = absurd (omega arith)
copy_words-inside (suc n) dst src m zero h apart =
    copy_words-outside n (dst + 1) (src + 1) (write m dst (m src)) (dst + 0) (omega arith)
    ∙ ap (write m dst (m src)) {x = dst + 0} {y = dst} (omega arith)
    ∙ write_self m dst (m src)
    ∙ ap m (omega arith)
copy_words-inside (suc n) dst src m (suc i) h apart =
    ap (copy_words n (dst + 1) (src + 1) (write m dst (m src))) (omega arith)
    ∙ copy_words-inside n (dst + 1) (src + 1) (write m dst (m src)) i (omega arith) (omega arith)
    ∙ write_ne m dst (m src) (src + 1 + i) (omega arith)
    ∙ ap m (omega arith)
