-- ===== src/Gc/Through/Restrict.antt =====
-- Two tests that agree on all words that are met give the same view of one memory.
use mathlib.Core.Path.{fun_ext}
use certicoq.Prelude.{
  List, [], ◌∷◌, Option, none, ◌&&◌, not, ltb, ltb→lt, ℕ, zero, suc, ◌+◌, ◌-◌, ◌<◌, ◌≡◌, refl, inl,
  inr, Bool, true, false, ap, ◌∙◌, Bool-cases, if◌then◌else◌,
}
use certicoq.Words.{index, wosize_hd, tag_hd}
use certicoq.Memory.{Mem}
use certicoq.Gc.{no_scan}
use certicoq.Gc.Layout.{points_into}
use certicoq.Gc.Graph.{View, word, block, deep, views, view, follow}
use certicoq.Gc.Through.{view_through, follow_through}
use certicoq.Gc.Through.Bisim.{Alike, plain, object, view_through-eq}

-- The view of a space is the view through the test for that space.
pub view-view_through :
    (k : ℕ) (m : Mem) (lo hi v : ℕ) → view k m lo hi v ≡ view_through (points_into lo hi) k m v
unfolding view view_through
view-view_through zero m lo hi v = refl
view-view_through (suc k) m lo hi v =
    ap
      (λ (below : ℕ → View).
        if points_into lo hi v
        then block (m (index v - 1)) (
            views (if no_scan (tag_hd (m (index v - 1))) then word else below) m
              (wosize_hd (m (index v - 1))) (index v))
        else word v)
      (fun_ext (view-view_through k m lo hi))

module _ (m : Mem) (p p' : ℕ → Bool) (Met : ℕ → Type 0) (agree : (v : ℕ) → Met v → p' v ≡ p v)
    (fields : (v : ℕ)
      → Met v
      → p v ≡ true
      → no_scan (tag_hd (m (index v - 1))) ≡ false
      → (i : ℕ) → i < wosize_hd (m (index v - 1))
      → Met (m (index v + i))) where
  abbrev Twin : ℕ → ℕ → Type 0
  Twin v v' = (v' ≡ v) × Met v

  Twin-look : (v v' : ℕ) → Twin v v' → Alike m m p p' Twin v v'
  Twin-look v v' (e, met) = elim (Bool-cases (p v)) [
    | inr n ↦ plain n (ap p' e ∙ agree v met ∙ n) e
    | inl o ↦
        object o (ap p' e ∙ agree v met ∙ o) (ap (λ u. m (index u - 1)) e)
          (λ n i lt. ap (λ u. m (index u + i)) e)
          (λ n i lt. (ap (λ u. m (index u + i)) e, fields v met o n i lt))
  ]

  pub view_through-same : (k v : ℕ) → Met v → view_through p' k m v ≡ view_through p k m v
  view_through-same k v met = view_through-eq m m p p' Twin Twin-look k v v (refl, met)

-- Whether a word is seen as a block.
pub is_object : View → Bool
is_object (word v) = false
is_object (block hd fields) = true
is_object deep = false

pub is_object-view_through :
    (p : ℕ → Bool) (m : Mem) (v : ℕ) → is_object (view_through p 1 m v) ≡ p v
unfolding view_through is_object
is_object-view_through p m v = elim (Bool-cases (p v)) [ inl o ↦ rw o refl | inr n ↦ rw n refl ]

-- The paths of a space are those through the test for that space.
pub follow-follow_through :
    (m : Mem) (lo hi : ℕ) (path : List ℕ) (v : ℕ)
    → follow m lo hi path v ≡ follow_through (points_into lo hi) m path v
unfolding follow follow_through
follow-follow_through m lo hi [] v = refl
follow-follow_through m lo hi (i ∷ path) v =
    ap
      (λ (rest : Option ℕ).
        if points_into lo hi v
          && not (no_scan (tag_hd (m (index v - 1))))
          && ltb i (wosize_hd (m (index v - 1)))
        then rest
        else none)
      (follow-follow_through m lo hi path (m (index v + i)))

module _ (m : Mem) (p p' : ℕ → Bool) (Met : ℕ → Type 0) (agree : (v : ℕ) → Met v → p' v ≡ p v)
    (fields : (v : ℕ)
      → Met v
      → p v ≡ true
      → no_scan (tag_hd (m (index v - 1))) ≡ false
      → (i : ℕ) → i < wosize_hd (m (index v - 1))
      → Met (m (index v + i))) where
  pub follow_through-same :
      (path : List ℕ) (v : ℕ) → Met v → follow_through p' m path v ≡ follow_through p m path v
  unfolding follow_through
  follow_through-same [] v met = rw (agree v met) refl
  follow_through-same (i ∷ path) v met = rw (agree v met) (elim (Bool-cases (p v)) [
    | inr n ↦ rw n refl
    | inl o ↦ elim (Bool-cases (no_scan (tag_hd (m (index v - 1))))) [
      | inl plain_words ↦ rw (o, plain_words) refl
      | inr scan ↦ elim (Bool-cases (ltb i (wosize_hd (m (index v - 1))))) [
        | inr past ↦ rw (o, scan, past) refl
        | inl within ↦
            rw (o, scan, within)
              (follow_through-same path (m (index v + i))
                (fields v met o scan i (ltb→lt _ _ within)))
      ]
    ]
  ])
