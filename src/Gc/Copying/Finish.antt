-- ===== src/Gc/Copying/Finish.antt =====
-- The end of a collection: what the copies in to-space hold, and what a read through them gives.
use mathlib.Core.Path.{subst}
use certicoq.Prelude.{ℕ, ◌+◌, ◌-◌, ◌≤◌, ◌<◌, ◌≡◌, inl, inr, true, false, arith, ap, ◌∙◌, sym}
use certicoq.Words.{index, pointer, tag_hd, is_block}
use certicoq.Gc.{Copy, no_scan, is_from}
use certicoq.Gc.Layout.{header_apart, points_into, points_into-pointer}
use certicoq.Gc.Copying.{Spaces, Header, size, Good, from_block, WellFormed, relocate, Done}
use certicoq.Gc.Copying.Facts.{
  bounds, Header-of, relocate_block, relocate_other, Forwarded-of_marked,
}
use certicoq.Gc.Copying.Sweep.{Cells, Final}

smaller : (lo hi top v : ℕ) → hi ≤ top → points_into lo top v ≡ false → points_into lo hi v ≡ false
unfolding is_from is_block
smaller lo hi top v h n = ground arith

-- A word of a block is in one block, at one place.
pub word_unique :
    (S : Spaces) (wf : WellFormed S) (x y i j : ℕ)
    → Header S x
    → Header S y
    → i ≤ size S x
    → j ≤ size S y
    → x + i ≡ y + j
    → (x ≡ y) × (i ≡ j)
word_unique S wf x y i j h k li lj e0 =
    omega (arith, header_apart S.m0 S.fs S.sizes S.e x y wf.blocks h k)

module _ (S : Spaces) (wf : WellFormed S) (T : ℕ → Type 0) (o : ℕ → ℕ) (c : Copy)
    (cells : Cells S T o c c.next) where
  open S use {m0, fs, fl, e, sizes, p0, tl}

  -- Where the block that a forwarded word pointed to is now.
  pub record Home (w : ℕ) : Type 0 where
    pub x : ℕ
    pub header : Header S x
    pub at : index w ≡ x + 1
    pub home : ℕ
    pub relocated : relocate S c.mem w ≡ pointer (home + 1)
    pub lower : p0 ≤ home
    pub upper : home + 1 + size S x ≤ c.next
    pub copied : (i : ℕ) → i ≤ size S x → o (home + i) ≡ x + i

  pub Home-of : (w : ℕ) → Good S w → Done S c.mem w → from_block S w ≡ true → Home w
  Home-of w g d b =
      let (x, h, ix) = Header-of S wf w g b in
      let f =
        Forwarded-of_marked S wf cells.inv x h
          (ap c.mem {x = x} {y = index w - 1} (omega arith) ∙ d b) in
      record {
        x = x;
        header = h;
        at = ix;
        home = f.home;
        relocated = relocate_block S wf c.mem w b ∙ ap c.mem ix ∙ f.moved;
        lower = f.lower;
        upper = f.upper;
        copied = f.copied;
      }

  module _ {w : ℕ} (hm : Home w) where
    final_at : (i : ℕ) → i ≤ size S hm.x → Final S o c (hm.home + i)
    final_at i le = cells.final (hm.home + i) (omega (arith, hm.lower)) (omega (arith, hm.upper))

    place : (i : ℕ) → (le : i ≤ size S hm.x) → ((final_at i le).x ≡ hm.x) × ((final_at i le).i ≡ i)
    place i le =
        let f = final_at i le in
        word_unique S wf f.x hm.x f.i i f.header hm.header f.within le (sym f.at ∙ hm.copied i le)

    pub home_header : c.mem hm.home ≡ m0 hm.x
    home_header =
        let f = final_at 0 (omega arith) in
        ap c.mem {x = hm.home} {y = hm.home + 0} (omega arith)
        ∙ f.raw (inl (place 0 (omega arith)).1)
        ∙ ap m0 (hm.copied 0 (omega arith) ∙ omega arith)

    pub home_plain :
        (i : ℕ)
        → i < size S hm.x
        → no_scan (tag_hd (m0 hm.x)) ≡ true
        → c.mem (hm.home + (1 + i)) ≡ m0 (hm.x + (1 + i))
    home_plain i lt n =
        let le : 1 + i ≤ size S hm.x = omega arith in
        let f = final_at (1 + i) le in
        f.raw (inr (ap (λ t. no_scan (tag_hd (m0 t))) (place (1 + i) le).0 ∙ n))
        ∙ ap m0 (hm.copied (1 + i) le)

    pub home_field :
        (i : ℕ)
        → i < size S hm.x
        → no_scan (tag_hd (m0 hm.x)) ≡ false
        → (c.mem (hm.home + (1 + i)) ≡ relocate S c.mem (m0 (hm.x + (1 + i))))
          × Done S c.mem (m0 (hm.x + (1 + i)))
          × Good S (m0 (hm.x + (1 + i)))
    home_field i lt n =
        let le : 1 + i ≤ size S hm.x = omega arith in
        let f = final_at (1 + i) le in
        let s =
          f.scanned (omega (arith, (place (1 + i) le).1))
            (ap (λ t. no_scan (tag_hd (m0 t))) (place (1 + i) le).0 ∙ n) in
        (
          s.value ∙ ap (λ a. relocate S c.mem (m0 a)) (hm.copied (1 + i) le),
          subst (λ a. Done S c.mem (m0 a)) (hm.copied (1 + i) le) s.done,
          subst (λ a. Good S (m0 a)) {x = hm.x + 1 + i} (omega arith)
              (wf.fields hm.x hm.header n i lt),
        )

    pub home_points : points_into p0 c.next (pointer (hm.home + 1)) ≡ true
    home_points =
        points_into-pointer p0 c.next (hm.home + 1) (omega (arith, hm.lower))
          (omega (arith, hm.upper, bounds S wf hm.x hm.header))

  -- What was no pointer into from-space is none into the copies.
  pub other_points :
      (w : ℕ)
      → Good S w
      → from_block S w ≡ false
      → points_into p0 c.next (relocate S c.mem w) ≡ false
  other_points w g b =
      rw (relocate_other S wf c.mem w b)
        (smaller p0 c.next tl w (omega (arith, cells.inv.room)) g.not_free)
