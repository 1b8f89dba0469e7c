-- ===== src/Gc/Copying.antt =====
-- The invariant of a collection of one generation into the next, for the copying core of
-- theories/Runtime/gc.c.
--
-- `m0` is the memory before the collection. From-space is the words from `fs` up to `fl`, with
-- blocks of the given sizes up to `e`; to-space is free from `p0` up to `tl`. A ghost function
-- `orig` gives for each copied word of to-space the word of from-space that it is a copy of, and
-- for a word outside both spaces that word itself.
pub mod Facts
pub mod Block
pub mod Forward
pub mod Sweep
pub mod Pass
pub mod Scan
pub mod Roots
pub mod Finish
pub mod Chain
pub mod Observe
pub mod After
pub mod Slots
pub mod Collects
pub mod Result
pub mod Again
pub mod First
use certicoq.Prelude.{ℕ, ◌+◌, ◌-◌, ◌≤◌, ◌<◌, ◌≡◌, ◌≢◌, ◌⊎◌, Bool, true, false, List, if◌then◌else◌}
use certicoq.Words.{wosize_hd, tag_hd, is_block, index, pointer}
use certicoq.Memory.{Mem}
use certicoq.Gc.{Copy, no_scan, is_from}
use certicoq.Gc.Layout.{Blocks, IsHeader, remaining, points_into}

-- The parameters of one collection.
pub record Spaces : Type 0 where
  pub m0 : Mem
  pub fs : ℕ
  pub fl : ℕ
  pub e : ℕ
  pub sizes : List ℕ
  pub p0 : ℕ
  pub tl : ℕ

module _ (S : Spaces) where
  open S use {m0, fs, fl, e, sizes, p0, tl}

  abbrev pub Header : ℕ → Type 0
  Header x = IsHeader fs sizes x

  abbrev pub size : ℕ → ℕ
  size x = wosize_hd (m0 x)

  abbrev pub from_block : ℕ → Bool
  from_block v = points_into fs fl v

  -- A word that the collector may meet: a pointer into from-space is to the first field of a block,
  -- and nothing points into the free part of to-space.
  pub record Good (v : ℕ) : Type 0 where
    pub block : from_block v ≡ true → (fs < index v) × Header (index v - 1)
    pub not_free : points_into p0 tl v ≡ false

  -- What a collection starts from.
  pub record WellFormed : Type 0 where
    pub blocks : Blocks m0 fs sizes e
    pub within : e ≤ fl
    pub apart : (fl ≤ p0) ⊎ (tl ≤ fs)
    pub fits : p0 + (e - fs) ≤ tl
    pub fields :
        (x : ℕ)
        → Header x
        → no_scan (tag_hd (m0 x)) ≡ false
        → (i : ℕ) → i < size x
        → Good (m0 (x + 1 + i))

  -- Where the block that a word points to has gone, in memory `m`.
  unfoldable pub relocate : Mem → ℕ → ℕ
  relocate m v = if from_block v then m (index v) else v

  -- The block that the word points to, if any, has been forwarded.
  abbrev pub Done : Mem → ℕ → Type 0
  Done m v = from_block v ≡ true → m (index v - 1) ≡ 0

  -- A word outside from-space that is in use.
  pub record InUse (c : Copy) (y : ℕ) : Type 0 where
    pub not_from : (y < fs) ⊎ (fl ≤ y)
    pub live : ((p0 ≤ y) × (y < c.next)) ⊎ (y < p0) ⊎ (tl ≤ y)

  -- The block with its header at `x` is as it was.
  abbrev pub Untouched : Copy → ℕ → Type 0
  Untouched c x = (i : ℕ) → i ≤ size x → c.mem (x + i) ≡ m0 (x + i)

  module _ (orig : ℕ → ℕ) (c : Copy) where
    pub record Forwarded (x : ℕ) : Type 0 where
      pub marked : c.mem x ≡ 0
      pub home : ℕ
      pub moved : c.mem (x + 1) ≡ pointer (home + 1)
      pub lower : p0 ≤ home
      pub upper : home + 1 + size x ≤ c.next
      pub copied : (i : ℕ) → i ≤ size x → orig (home + i) ≡ x + i

    -- In to-space the copy of a header is followed by the copy of its block, and by another.
    pub record Whole (y : ℕ) : Type 0 where
      pub ends : y + 1 + size (orig y) ≤ c.next
      pub copied : (i : ℕ) → i ≤ size (orig y) → orig (y + i) ≡ orig y + i
      pub follows :
          (y + 1 + size (orig y) ≡ c.next)
          ⊎ ((y + 1 + size (orig y) < c.next) × Header (orig (y + 1 + size (orig y))))

    -- The word is the copy of its original, or also forwarded.
    abbrev pub Raw : ℕ → Type 0
    Raw y = c.mem y ≡ m0 (orig y)

    pub record Scanned (y : ℕ) : Type 0 where
      pub value : c.mem y ≡ relocate c.mem (m0 (orig y))
      pub done : Done c.mem (m0 (orig y))

    pub record Inv : Type 0 where
      pub low : p0 ≤ c.next
      pub room : c.next + remaining c.mem fs sizes ≤ tl
      pub block : (x : ℕ) → Header x → Forwarded x ⊎ Untouched c x
      pub chain : (y : ℕ) → p0 ≤ y → y < c.next → Header (orig y) → Whole y
      pub outside : (y : ℕ) → (y < p0) ⊎ (tl ≤ y) → orig y ≡ y

  -- What forwarding may change between two states, besides the word at `q`.
  pub record Step (q : ℕ) (o : ℕ → ℕ) (c : Copy) (o' : ℕ → ℕ) (c' : Copy) : Type 0 where
    pub grows : c.next ≤ c'.next
    pub kept : (y : ℕ) → InUse c y → y ≢ q → c'.mem y ≡ c.mem y
    pub same : (y : ℕ) → InUse c y → o' y ≡ o y
    pub marks : (x : ℕ) → Header x → c.mem x ≡ 0 → (c'.mem x ≡ 0) × (c'.mem (x + 1) ≡ c.mem (x + 1))
    pub fresh : (y : ℕ) → c.next ≤ y → y < c'.next → Raw o' c' y
    pub opens : (c.next < c'.next) → Header (o' c.next)
