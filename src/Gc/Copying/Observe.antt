-- ===== src/Gc/Copying/Observe.antt =====
-- A collection keeps what the mutator can see: the values that it reads, and which words are the
-- same object.
use mathlib.Core.Path.{ap₂}
use certicoq.Prelude.{
  ℕ, zero, suc, ◌+◌, ◌-◌, ◌<◌, ◌≡◌, refl, inl, inr, true, arith, ap, ◌∙◌, sym, Bool-cases, Option,
  none, some, List, [], ◌∷◌, ltb, ltb→lt, not, ◌&&◌, if◌then◌else◌, ◌↔◌,
}
use certicoq.Words.{index, pointer, tag_hd}
use certicoq.Memory.{Mem}
use certicoq.Gc.{Copy, no_scan}
use certicoq.Gc.Graph.{View, word, block, cons, views, view, follow, SameObject}
use certicoq.Gc.Copying.{Spaces, size, Good, from_block, WellFormed, relocate, Done}
use certicoq.Gc.Copying.Facts.{relocate_block, relocate_other}
use certicoq.Gc.Copying.Sweep.{Cells}
use certicoq.Gc.Copying.Finish.{
  Home, Home-of, home_header, home_plain, home_field, home_points, other_points,
}

views_eq :
    (f g : ℕ → View) (m m' : Mem) (n a b : ℕ)
    → ((i : ℕ) → i < n → f (m (a + i)) ≡ g (m' (b + i)))
    → views f m n a ≡ views g m' n b
unfolding views
views_eq f g m m' zero a b h = refl
views_eq f g m m' (suc n) a b h =
    ap₂ cons
      (ap (λ t. f (m t)) {x = a} {y = a + 0} (omega arith)
        ∙ h 0 (omega arith)
        ∙ ap (λ t. g (m' t)) {x = b + 0} {y = b} (omega arith))
      (views_eq f g m m' n (a + 1) (b + 1) λ i lt.
        ap (λ t. f (m t)) {x = a + 1 + i} {y = a + (1 + i)} (omega arith)
        ∙ h (1 + i) (omega arith)
        ∙ ap (λ t. g (m' t)) {x = b + (1 + i)} {y = b + 1 + i} (omega arith))

index-pointer : (a : ℕ) → index (pointer a) ≡ a
index-pointer a = omega arith

module _ (S : Spaces) (wf : WellFormed S) (T : ℕ → Type 0) (o : ℕ → ℕ) (c : Copy)
    (cells : Cells S T o c c.next) where
  open S use {m0, fs, fl, e, sizes, p0, tl}

  -- The header word of the block that `w` points to, before, and of its copy.
  header_before : {w : ℕ} (hm : Home S wf T o c cells w) → m0 (index w - 1) ≡ m0 hm.x
  header_before {w} hm = ap m0 (omega (arith, hm.at))

  header_after :
      {w : ℕ} (hm : Home S wf T o c cells w) → c.mem (index (pointer (hm.home + 1)) - 1) ≡ m0 hm.x
  header_after hm = ap c.mem (omega arith) ∙ home_header S wf T o c cells hm

  pub view-relocate :
      (k w : ℕ)
      → Good S w
      → Done S c.mem w
      → view k c.mem p0 c.next (relocate S c.mem w) ≡ view k m0 fs fl w
  unfolding view
  view-relocate zero w g d = refl
  view-relocate (suc k) w g d = elim (Bool-cases (from_block S w)) [
    | inr b ↦ rw (other_points S wf T o c cells w g b, b) (ap word (relocate_other S wf c.mem w b))
    | inl b ↦
        let hm = Home-of S wf T o c cells w g d b in
        rw
          (
            hm.relocated,
            home_points S wf T o c cells hm,
            b,
            header_after hm,
            header_before hm,
            index-pointer,
            hm.at,
          )
          (elim (Bool-cases (no_scan (tag_hd (m0 hm.x)))) [
            | inl n ↦ rw n (
                ap (block (m0 hm.x)) (
                  views_eq word word c.mem m0 (size S hm.x) (hm.home + 1) (hm.x + 1) λ i lt.
                    ap word (
                      ap c.mem {y = hm.home + (1 + i)} (omega arith)
                      ∙ home_plain S wf T o c cells hm i lt n
                      ∙ ap m0 (omega arith))))
            | inr n ↦ rw n (
                ap (block (m0 hm.x)) (
                  views_eq (view k c.mem p0 c.next) (view k m0 fs fl) c.mem m0 (size S hm.x)
                    (hm.home + 1) (hm.x + 1)
                    λ i lt.
                      let (value, done, good) = home_field S wf T o c cells hm i lt n in
                      ap (λ t. view k c.mem p0 c.next (c.mem t)) {y = hm.home + (1 + i)}
                        (omega arith)
                      ∙ ap (view k c.mem p0 c.next) value
                      ∙ view-relocate k (m0 (hm.x + (1 + i))) good done
                      ∙ ap (λ t. view k m0 fs fl (m0 t)) (omega arith)))
          ])
  ]

  -- What a path from a forwarded word leads to, before and after: nothing, or an object and its copy.
  pub data Leads (before after : Option ℕ) : Type 0 where
    nowhere : before ≡ none → after ≡ none → Leads before after
    object :
        (u : ℕ)
        → Good S u
        → Done S c.mem u
        → from_block S u ≡ true
        → before ≡ some u
        → after ≡ some (relocate S c.mem u)
        → Leads before after

  -- One step of a path, into a field of the block that `w` points to.
  field-Leads :
      (path : List ℕ) (i : ℕ) {w : ℕ} (hm : Home S wf T o c cells w)
      → ((u : ℕ)
          → Good S u
          → Done S c.mem u
          → Leads (follow m0 fs fl path u) (follow c.mem p0 c.next path (relocate S c.mem u)))
      → Leads
          (if not (no_scan (tag_hd (m0 hm.x))) && ltb i (size S hm.x)
            then follow m0 fs fl path (m0 (hm.x + 1 + i))
            else none)
          (if not (no_scan (tag_hd (m0 hm.x))) && ltb i (size S hm.x)
            then follow c.mem p0 c.next path (c.mem (hm.home + 1 + i))
            else none)
  field-Leads path i hm rest = elim (Bool-cases (no_scan (tag_hd (m0 hm.x)))) [
    | inl n ↦ rw n (nowhere refl refl)
    | inr n ↦ elim (Bool-cases (ltb i (size S hm.x))) [
      | inr out ↦ rw (n, out) (nowhere refl refl)
      | inl lt ↦
          let (value, done, good) =
            home_field S wf T o c cells hm i (ltb→lt i (size S hm.x) lt) n in
          let at_field : c.mem (hm.home + 1 + i) ≡ relocate S c.mem (m0 (hm.x + (1 + i))) =
            ap c.mem (omega arith) ∙ value in
          let before : m0 (hm.x + 1 + i) ≡ m0 (hm.x + (1 + i)) = ap m0 (omega arith) in
          rw (n, lt, at_field, before) (rest (m0 (hm.x + (1 + i))) good done)
    ]
  ]

  pub follow-Leads :
      (path : List ℕ) (w : ℕ)
      → Good S w
      → Done S c.mem w
      → Leads (follow m0 fs fl path w) (follow c.mem p0 c.next path (relocate S c.mem w))
  unfolding follow
  follow-Leads [] w g d = elim (Bool-cases (from_block S w)) [
    | inr b ↦ nowhere (rw b) (rw (other_points S wf T o c cells w g b))
    | inl b ↦
        let hm = Home-of S wf T o c cells w g d b in
        object w g d b (rw b) (rw (hm.relocated, home_points S wf T o c cells hm))
  ]
  follow-Leads (i ∷ path) w g d = elim (Bool-cases (from_block S w)) [
    | inr b ↦ nowhere (rw b) (rw (other_points S wf T o c cells w g b))
    | inl b ↦
        let hm = Home-of S wf T o c cells w g d b in
        rw
          (
            hm.relocated,
            home_points S wf T o c cells hm,
            b,
            header_after hm,
            header_before hm,
            index-pointer,
            hm.at,
          )
          (field-Leads path i hm (follow-Leads path))
  ]

  -- Two forwarded words point to one copy exactly if they pointed to one object.
  pub relocate_same :
      (u v : ℕ)
      → Good S u
      → Done S c.mem u
      → from_block S u ≡ true
      → Good S v
      → Done S c.mem v
      → from_block S v ≡ true
      → (index u ≡ index v) ↔ (index (relocate S c.mem u) ≡ index (relocate S c.mem v))
  relocate_same u v gu du bu gv dv bv =
      let hu = Home-of S wf T o c cells u gu du bu in
      let hv = Home-of S wf T o c cells v gv dv bv in
      (
        λ e0.
            ap index
              (relocate_block S wf c.mem u bu ∙ ap c.mem e0 ∙ sym (relocate_block S wf c.mem v bv)),
        λ e0.
            let same : hu.home ≡ hv.home =
              omega (arith, ap index hu.relocated, ap index hv.relocated, e0) in
            omega (
              arith,
              hu.at,
              hv.at,
              hu.copied 0 (omega arith),
              hv.copied 0 (omega arith),
              ap (λ t. o (t + 0)) same,
            ),
      )

  pub SameObject-relocate :
      {b1 a1 b2 a2 : Option ℕ} → Leads b1 a1 → Leads b2 a2 → SameObject b1 b2 ↔ SameObject a1 a2
  SameObject-relocate (nowhere p q) (nowhere r s) = rw (p, q, r, s) ((λ t. t), λ t. t)
  SameObject-relocate (nowhere p q) (object v gv dv bv r s) = rw (p, q, r, s) ((λ t. t), λ t. t)
  SameObject-relocate (object u gu du bu p q) (nowhere r s) = rw (p, q, r, s) ((λ t. t), λ t. t)
  SameObject-relocate (object u gu du bu p q) (object v gv dv bv r s) =
      rw (p, q, r, s) (relocate_same u v gu du bu gv dv bv)
