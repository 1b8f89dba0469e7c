-- ===== src/Gc/Through/Bisim.antt =====
-- Two memories give the same view and the same paths if their words correspond.
use mathlib.Core.Path.{ap₂}
use certicoq.Prelude.{
  ℕ, zero, suc, ◌+◌, ◌-◌, ◌<◌, ◌≡◌, refl, inl, inr, Bool, true, false, arith, ap, ◌∙◌, Bool-cases,
  Option, none, some, List, [], ◌∷◌, ltb, ltb→lt, ◌↔◌,
}
use certicoq.Words.{index, wosize_hd, tag_hd}
use certicoq.Memory.{Mem}
use certicoq.Gc.{no_scan}
use certicoq.Gc.Graph.{View, word, block, cons, views, SameObject}
use certicoq.Gc.Through.{view_through, follow_through}

-- Two words look alike: no pointers, and equal, or pointers to blocks with one header, whose fields
-- are equal if they are not scanned and correspond if they are.
pub data Alike (m m' : Mem) (p p' : ℕ → Bool) (R : ℕ → ℕ → Type 0) (v v' : ℕ) : Type 0 where
  plain : p v ≡ false → p' v' ≡ false → v' ≡ v → Alike m m' p p' R v v'
  object :
      p v ≡ true
      → p' v' ≡ true
      → m' (index v' - 1) ≡ m (index v - 1)
      → (no_scan (tag_hd (m (index v - 1))) ≡ true
          → (i : ℕ) → i < wosize_hd (m (index v - 1))
          → m' (index v' + i) ≡ m (index v + i))
      → (no_scan (tag_hd (m (index v - 1))) ≡ false
          → (i : ℕ) → i < wosize_hd (m (index v - 1))
          → R (m (index v + i)) (m' (index v' + i)))
      → Alike m m' p p' R v v'

pub views_eq :
    (f g : ℕ → View) (m m' : Mem) (n a b : ℕ)
    → ((i : ℕ) → i < n → f (m (a + i)) ≡ g (m' (b + i)))
    → views f m n a ≡ views g m' n b
unfolding views
views_eq f g m m' zero a b h = refl
views_eq f g m m' (suc n) a b h =
    ap₂ cons
      (ap (λ t. f (m t)) {x = a} {y = a + 0} (omega arith)
        ∙ h 0 (omega arith)
        ∙ ap (λ t. g (m' t)) {x = b + 0} {y = b} (omega arith))
      (views_eq f g m m' n (a + 1) (b + 1) λ i lt.
        ap (λ t. f (m t)) {x = a + 1 + i} {y = a + (1 + i)} (omega arith)
        ∙ h (1 + i) (omega arith)
        ∙ ap (λ t. g (m' t)) {x = b + (1 + i)} {y = b + 1 + i} (omega arith))

module _ (m m' : Mem) (p p' : ℕ → Bool) (R : ℕ → ℕ → Type 0)
    (look : (v v' : ℕ) → R v v' → Alike m m' p p' R v v') where
  pub view_through-eq : (k v v' : ℕ) → R v v' → view_through p' k m' v' ≡ view_through p k m v
  unfolding view_through
  view_through-eq zero v v' r = refl
  view_through-eq (suc k) v v' r = elim (look v v' r) [
    | plain n n' e ↦ rw (n, n') (ap word e)
    | object o o' hd same below ↦
        rw (o, o', hd)
          (elim (Bool-cases (no_scan (tag_hd (m (index v - 1))))) [
            | inl n ↦ rw n (
                ap (block (m (index v - 1))) (
                  views_eq word word m' m (wosize_hd (m (index v - 1))) (index v') (index v)
                    (λ i lt. ap word (same n i lt))))
            | inr n ↦ rw n (
                ap (block (m (index v - 1))) (
                  views_eq (view_through p' k m') (view_through p k m) m' m
                    (wosize_hd (m (index v - 1))) (index v') (index v)
                    (λ i lt. view_through-eq k _ _ (below n i lt))))
          ])
  ]

  -- What a path leads to from two words that correspond: nothing, or pointers that correspond.
  pub data Both (before after : Option ℕ) : Type 0 where
    nowhere : before ≡ none → after ≡ none → Both before after
    pointers :
        (u u' : ℕ) → R u u' → p u ≡ true → before ≡ some u → after ≡ some u' → Both before after

  pub follow_through-Both :
      (path : List ℕ) (v v' : ℕ)
      → R v v'
      → Both (follow_through p m path v) (follow_through p' m' path v')
  unfolding follow_through
  follow_through-Both [] v v' r = elim (look v v' r) [
    | plain n n' e ↦ nowhere (rw n) (rw n')
    | object o o' hd same below ↦ pointers v v' r o (rw o) (rw o')
  ]
  follow_through-Both (i ∷ path) v v' r = elim (look v v' r) [
    | plain n n' e ↦ nowhere (rw n) (rw n')
    | object o o' hd same below ↦
        rw (o, o', hd)
          (elim (Bool-cases (no_scan (tag_hd (m (index v - 1))))) [
            | inl n ↦ rw n (nowhere refl refl)
            | inr n ↦ elim (Bool-cases (ltb i (wosize_hd (m (index v - 1))))) [
              | inr out ↦ rw (n, out) (nowhere refl refl)
              | inl lt ↦ rw (n, lt) (follow_through-Both path _ _ (below n i (ltb→lt _ _ lt)))
            ]
          ])
  ]

  -- Pointers that correspond are equal on one side exactly if they are on the other.
  pub SameObject-Both :
      ((u u' v v' : ℕ)
        → R u u'
        → R v v'
        → p u ≡ true
        → p v ≡ true
        → (index u ≡ index v) ↔ (index u' ≡ index v'))
      → {b1 a1 b2 a2 : Option ℕ} → Both b1 a1
      → Both b2 a2
      → SameObject b1 b2 ↔ SameObject a1 a2
  SameObject-Both one (nowhere x y) (nowhere z t) = rw (x, y, z, t) ((λ a. a), λ a. a)
  SameObject-Both one (nowhere x y) (pointers v v' s q z t) = rw (x, y, z, t) ((λ a. a), λ a. a)
  SameObject-Both one (pointers u u' r o x y) (nowhere z t) = rw (x, y, z, t) ((λ a. a), λ a. a)
  SameObject-Both one (pointers u u' r o x y) (pointers v v' s q z t) =
      rw (x, y, z, t) (one u u' v v' r s o q)
