-- ===== src/Gc/Graph.antt =====
-- What a mutator can see of the objects in a space of theories/Runtime/gc.c: the values that it
-- reaches from a word, read to a depth, and the addresses that it can compare.
use certicoq.Prelude.{
  ℕ, zero, suc, ◌+◌, ◌-◌, ◌≡◌, ◌&&◌, Option, none, some, List, [], ◌∷◌, ltb, if◌then◌else◌, not,
}
use certicoq.Words.{index, wosize_hd, tag_hd}
use certicoq.Memory.{Mem}
use certicoq.Gc.{no_scan}
use certicoq.Gc.Layout.{points_into}

-- A word that is no pointer into the space, a block with its header and its fields, or what lies
-- below the depth that is read.
mutual
  pub data View : Type 0 where
    word : ℕ → View
    block : ℕ → Views → View
    deep : View

  pub data Views : Type 0 where
    nil : Views
    cons : View → Views → Views

-- The `n` words from `a` on, each as `f` sees it.
unfoldable pub views : (ℕ → View) → Mem → ℕ → ℕ → Views
views f m zero a = nil
views f m (suc n) a = cons (f (m a)) (views f m n (a + 1))

-- `v`, read to depth `k` in the space from `lo` up to `hi`.
unfoldable pub view : ℕ → Mem → ℕ → ℕ → ℕ → View
unfolding views
view zero m lo hi v = deep
view (suc k) m lo hi v =
    let hd = m (index v - 1) in
    let below = λ (w : ℕ). view k m lo hi w in
    if points_into lo hi v
    then block hd (views (if no_scan (tag_hd hd) then word else below) m (wosize_hd hd) (index v))
    else word v

-- The word that the fields on a path lead to, from `v`; `none` where the path leaves the space.
unfoldable pub follow : Mem → ℕ → ℕ → List ℕ → ℕ → Option ℕ
follow m lo hi [] v = if points_into lo hi v then some v else none
follow m lo hi (i ∷ path) v =
    let hd = m (index v - 1) in
    let rest = follow m lo hi path (m (index v + i)) in
    if points_into lo hi v && not (no_scan (tag_hd hd)) && ltb i (wosize_hd hd) then rest else none

-- Two reads reach one object, or neither reaches any.
abbrev pub SameObject : Option ℕ → Option ℕ → Type 0
SameObject none none = Unit
SameObject (some u) (some v) = index u ≡ index v
SameObject _ _ = ⊥
