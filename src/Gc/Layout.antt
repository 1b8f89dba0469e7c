-- ===== src/Gc/Layout.antt =====
-- How the words of a space are laid out: one block after another, each a header and its fields.
pub mod Append
use certicoq.Prelude.{
  ℕ, ◌+◌, ◌^◌, ◌≤◌, ◌<◌, ◌≡◌, ◌≢◌, refl, ◌⊎◌, inl, inr, Bool, true, false, ◌&&◌, List, [], ◌∷◌,
  arith, ◌==◌, if◌then◌else◌, ap, ◌∙◌, sym,
}
use certicoq.Words.{wosize_hd, is_block, index, pointer}
use certicoq.Memory.{Mem}
use certicoq.Gc.{is_from}

-- From `s` to `e` the memory holds blocks of the given sizes. A block has a field to forward it by.
abbrev pub Blocks : Mem → ℕ → List ℕ → ℕ → Type 0
Blocks m s [] e = s ≡ e
Blocks m s (n ∷ ns) e = (wosize_hd (m s) ≡ n) × (0 < n) × (n < 2 ^ 31) × Blocks m (s + 1 + n) ns e

-- `x` is the header of one of the blocks from `s` on.
abbrev pub IsHeader : ℕ → List ℕ → ℕ → Type 0
IsHeader s [] x = ⊥
IsHeader s (n ∷ ns) x = (x ≡ s) ⊎ IsHeader (s + 1 + n) ns x

-- The words of the blocks from `s` on that are not forwarded yet.
unfoldable pub remaining : Mem → ℕ → List ℕ → ℕ
remaining m s [] = 0
remaining m s (n ∷ ns) = (if m s == 0 then 0 else 1 + n) + remaining m (s + 1 + n) ns

pub header_bounds :
    (m : Mem) (s : ℕ) (ns : List ℕ) (e x : ℕ)
    → Blocks m s ns e
    → IsHeader s ns x
    → (s ≤ x) × (x + 1 + wosize_hd (m x) ≤ e) × (0 < wosize_hd (m x)) × (wosize_hd (m x) < 2 ^ 31)
header_bounds m s [] e x b h = absurd h
header_bounds m s (n ∷ ns) e x b (inl p) = rw p (omega (arith, Blocks-le m (s + 1 + n) ns e b.3))
  where
    Blocks-le : (m : Mem) (s : ℕ) (ns : List ℕ) (e : ℕ) → Blocks m s ns e → s ≤ e
    Blocks-le m s [] e b = omega arith
    Blocks-le m s (n ∷ ns) e b = omega (arith, Blocks-le m (s + 1 + n) ns e b.3)
header_bounds m s (n ∷ ns) e x b (inr h) = omega (arith, header_bounds m (s + 1 + n) ns e x b.3 h)

-- Two headers are one, or the block of the first ends before the second.
pub header_apart :
    (m : Mem) (s : ℕ) (ns : List ℕ) (e x y : ℕ)
    → Blocks m s ns e
    → IsHeader s ns x
    → IsHeader s ns y
    → (x ≡ y) ⊎ (x + 1 + wosize_hd (m x) ≤ y) ⊎ (y + 1 + wosize_hd (m y) ≤ x)
header_apart m s [] e x y b h k = absurd h
header_apart m s (n ∷ ns) e x y b (inl p) (inl q) = inl (p ∙ sym q)
header_apart m s (n ∷ ns) e x y b (inl p) (inr k) =
    inr (inl (rw p (omega (arith, header_bounds m (s + 1 + n) ns e y b.3 k))))
header_apart m s (n ∷ ns) e x y b (inr h) (inl q) =
    inr (inr (rw q (omega (arith, header_bounds m (s + 1 + n) ns e x b.3 h))))
header_apart m s (n ∷ ns) e x y b (inr h) (inr k) = header_apart m (s + 1 + n) ns e x y b.3 h k

pub remaining-le :
    (m0 m : Mem) (s : ℕ) (ns : List ℕ) (e : ℕ) → Blocks m0 s ns e → s + remaining m s ns ≤ e
unfolding remaining
remaining-le m0 m s [] e b = omega arith
remaining-le m0 m s (n ∷ ns) e b = ground (arith, remaining-le m0 m (s + 1 + n) ns e b.3)

-- The count reads headers only.
pub remaining_agree :
    (m m' : Mem) (s : ℕ) (ns : List ℕ)
    → ((y : ℕ) → IsHeader s ns y → m' y ≡ m y)
    → remaining m' s ns ≡ remaining m s ns
unfolding remaining
remaining_agree m m' s [] same = refl
remaining_agree m m' s (n ∷ ns) same =
    ground (arith, same s (inl refl), remaining_agree m m' (s + 1 + n) ns (λ y h. same y (inr h)))

-- To clear one header takes its block off the count.
pub remaining-clear :
    (m0 m m' : Mem) (s : ℕ) (ns : List ℕ) (e x : ℕ)
    → Blocks m0 s ns e
    → IsHeader s ns x
    → m x ≢ 0
    → m' x ≡ 0
    → ((y : ℕ) → IsHeader s ns y → y ≢ x → m' y ≡ m y)
    → remaining m' s ns + 1 + wosize_hd (m0 x) ≡ remaining m s ns
unfolding remaining
remaining-clear m0 m m' s [] e x b h live dead same = absurd h
remaining-clear m0 m m' s (n ∷ ns) e x b (inl p) live dead same =
    let rest =
      remaining_agree m m' (s + 1 + n) ns
        (λ y h. same y (inr h) (omega (arith, header_bounds m0 (s + 1 + n) ns e y b.3 h))) in
    ground (arith, rest, ap m p, ap m' p, ap m0 p)
remaining-clear m0 m m' s (n ∷ ns) e x b (inr h) live dead same =
    let rest =
      remaining-clear m0 m m' (s + 1 + n) ns e x b.3 h live dead (λ y k d. same y (inr k) d) in
    let other : m' s ≡ m s =
      same s (inl refl) (omega (arith, header_bounds m0 (s + 1 + n) ns e x b.3 h)) in
    ground (arith, rest, other)

-- `v` is a pointer into the words from `lo` up to `hi`.
abbrev pub points_into : ℕ → ℕ → ℕ → Bool
points_into lo hi v = is_block v && is_from lo hi v

pub points_into_bounds :
    (lo hi v : ℕ) → points_into lo hi v ≡ true → (lo ≤ index v) × (index v < hi)
unfolding is_from is_block
points_into_bounds lo hi v h = ground arith

pub points_into-pointer : (lo hi a : ℕ) → lo ≤ a → a < hi → points_into lo hi (pointer a) ≡ true
unfolding is_from is_block
points_into-pointer lo hi a l h = ground arith

pub points_into-pointer_outside :
    (lo hi a : ℕ) → (a < lo) ⊎ (hi ≤ a) → points_into lo hi (pointer a) ≡ false
unfolding is_from is_block
points_into-pointer_outside lo hi a h = ground arith
