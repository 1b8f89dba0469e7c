-- ===== src/Gc/Copying/Block.antt =====
-- The branch of `forward` that copies a block: what it writes, and that it keeps the invariant.
use certicoq.Prelude.{
  ℕ, suc, ◌+◌, ◌-◌, ◌≤◌, ◌<◌, ◌≡◌, ◌≢◌, refl, ◌⊎◌, inl, inr, true, ◌&&◌, arith, ap, ◌∙◌, sym,
  if◌then◌else◌, leb, ltb, Bool-cases, ltb→lt,
}
use mathlib.Core.Path.{subst}
use certicoq.Prelude.Int.{pos}
use certicoq.Words.{index, pointer}
use certicoq.Memory.{Mem, write, copy_words}
use certicoq.Memory.Laws.{copy_words-outside, copy_words-inside, write_self, write_ne}
use certicoq.Gc.{Copy, copy_block}
use certicoq.Gc.Layout.{remaining, remaining-clear, header_apart}
use certicoq.Gc.Copying.{
  Spaces, Header, size, from_block, WellFormed, Forwarded, Untouched, InUse, Raw, Scanned, Inv,
  Step, Whole, relocate,
}
use certicoq.Gc.Copying.Facts.{bounds, Header-live, relocate_block}

module _ (q v n : ℕ) (c : Copy) where
  abbrev pub copied_mem : Mem
  copied_mem = (copy_block (pos n) q v c).mem

  pub copied_at_root : copied_mem q ≡ pointer (c.next + 1)
  unfolding copy_block
  copied_at_root = write_self _ q _

  pub copied-Header : q ≢ v - 1 → 0 < v → copied_mem (v - 1) ≡ 0
  unfolding copy_block
  copied-Header ne h =
      write_ne _ q _ (v - 1) (omega arith)
      ∙ write_ne _ v _ (v - 1) (omega arith)
      ∙ write_self _ (v - 1) 0

  pub copied_first : q ≢ v → copied_mem v ≡ pointer (c.next + 1)
  unfolding copy_block
  copied_first ne = write_ne _ q _ v (omega arith) ∙ write_self _ v _

  pub copied_elsewhere :
      (y : ℕ)
      → y ≢ q
      → y ≢ v
      → y ≢ v - 1
      → (y < c.next) ⊎ (c.next + 1 + n ≤ y)
      → copied_mem y ≡ c.mem y
  unfolding copy_block
  copied_elsewhere y a b d r =
      write_ne _ q _ y a
      ∙ write_ne _ v _ y b
      ∙ write_ne _ (v - 1) _ y d
      ∙ copy_words-outside (suc n) (c.next + 1 - 1) (v - 1) c.mem y (omega arith)

  pub copied_new :
      (i : ℕ)
      → i ≤ n
      → c.next + i ≢ q
      → c.next + i ≢ v
      → c.next + i ≢ v - 1
      → (v + n ≤ c.next) ⊎ (c.next + 1 + n ≤ v - 1)
      → 0 < v
      → copied_mem (c.next + i) ≡ c.mem (v - 1 + i)
  unfolding copy_block
  copied_new i h a b d r z =
      write_ne _ q _ (c.next + i) a
      ∙ write_ne _ v _ (c.next + i) b
      ∙ write_ne _ (v - 1) _ (c.next + i) d
      ∙ ap (copy_words (suc n) (c.next + 1 - 1) (v - 1) c.mem) (omega arith)
      ∙ copy_words-inside (suc n) (c.next + 1 - 1) (v - 1) c.mem i (omega arith) (omega arith)

-- The ghost function after the copy of the block with its header at `x` to `next`.
abbrev pub copied_orig : (ℕ → ℕ) → ℕ → ℕ → ℕ → ℕ → ℕ
copied_orig o next n x y = if leb next y && ltb y (next + 1 + n) then x + (y - next) else o y

copied_orig_new : (o : ℕ → ℕ) (next n x i : ℕ) → i ≤ n → copied_orig o next n x (next + i) ≡ x + i
copied_orig_new o next n x i h = ground arith

copied_orig_old :
    (o : ℕ → ℕ) (next n x y : ℕ) → (y < next) ⊎ (next + 1 + n ≤ y) → copied_orig o next n x y ≡ o y
copied_orig_old o next n x y h = ground arith

module _ (S : Spaces) (wf : WellFormed S) (o : ℕ → ℕ) (c : Copy) (inv : Inv S o c) (x : ℕ)
    (h : Header S x) (u : Untouched S c x) (q : ℕ) (use_q : InUse S c q) where
  open S use {m0, fs, fl, e, sizes, p0, tl}

  abbrev n : ℕ
  n = size S x

  abbrev pub block_copy : Copy
  block_copy = copy_block (pos n) q (x + 1) c

  abbrev pub block_orig : ℕ → ℕ
  block_orig = copied_orig o c.next n x

  live : c.mem x ≢ 0
  live z = Header-live S wf x h (
      ap m0 {x = x} {y = x + 0} (omega arith)
      ∙ sym (u 0 (omega arith))
      ∙ ap c.mem {x = x + 0} {y = x} (omega arith)
      ∙ z)

  enough : c.next + 1 + n ≤ tl
  enough = omega (
    arith,
    inv.room,
    remaining-clear m0 c.mem (write c.mem x 0) fs sizes e x wf.blocks h live (write_self c.mem x 0)
        (λ y k ne. write_ne c.mem x 0 y ne),
  )

  new_next : block_copy.next ≡ c.next + 1 + n
  unfolding copy_block
  new_next = refl

  -- A word of from-space other than the header and the first field of the block is left alone.
  from_kept : (y : ℕ) → fs ≤ y → y < fl → y ≢ x → y ≢ x + 1 → block_copy.mem y ≡ c.mem y
  from_kept y l r a b =
      copied_elsewhere q (x + 1) n c y (omega (arith, use_q.not_from)) b (omega arith)
        (omega (arith, wf.apart, enough, inv.low))

  other_kept :
      (y : ℕ) → Header S y → y ≢ x → (i : ℕ) → i ≤ size S y → block_copy.mem (y + i) ≡ c.mem (y + i)
  other_kept y k ne i le =
      from_kept (y + i) (omega (arith, bounds S wf y k)) (omega (arith, bounds S wf y k, wf.within))
        (omega
          (arith, header_apart m0 fs sizes e x y wf.blocks h k, bounds S wf y k, bounds S wf x h))
        (omega
          (arith, header_apart m0 fs sizes e x y wf.blocks h k, bounds S wf y k, bounds S wf x h))

  header_cleared : block_copy.mem x ≡ 0
  header_cleared =
      ap block_copy.mem {x = x} {y = x + 1 - 1} (omega arith)
      ∙ copied-Header q (x + 1) n c (omega (arith, use_q.not_from, bounds S wf x h, wf.within))
          (omega arith)

  first_moved : block_copy.mem (x + 1) ≡ pointer (c.next + 1)
  first_moved =
      copied_first q (x + 1) n c (omega (arith, use_q.not_from, bounds S wf x h, wf.within))

  new_word : (i : ℕ) → i ≤ n → block_copy.mem (c.next + i) ≡ m0 (x + i)
  new_word i le =
      copied_new q (x + 1) n c i le (omega (arith, use_q.live, enough, inv.low))
        (omega (arith, wf.apart, enough, inv.low, bounds S wf x h, wf.within))
        (omega (arith, wf.apart, enough, inv.low, bounds S wf x h, wf.within))
        (omega (arith, wf.apart, enough, inv.low, bounds S wf x h, wf.within)) (omega arith)
      ∙ ap c.mem {x = x + 1 - 1 + i} {y = x + i} (omega arith)
      ∙ u i le

  others-Forwarded :
      (y : ℕ) → Header S y → y ≢ x → Forwarded S o c y → Forwarded S block_orig block_copy y
  others-Forwarded y k ne f = record {
    marked =
        ap block_copy.mem {x = y} {y = y + 0} (omega arith)
        ∙ other_kept y k ne 0 (omega arith)
        ∙ ap c.mem {x = y + 0} {y = y} (omega arith)
        ∙ f.marked;
    home = f.home;
    moved = other_kept y k ne 1 (omega (arith, bounds S wf y k)) ∙ f.moved;
    lower = f.lower;
    upper = omega (arith, new_next, f.upper);
    copied =
        λ i le. copied_orig_old o c.next n x (f.home + i) (omega (arith, f.upper)) ∙ f.copied i le;
  }

  itself-Forwarded : Forwarded S block_orig block_copy x
  itself-Forwarded = record {
    marked = header_cleared;
    home = c.next;
    moved = first_moved;
    lower = inv.low;
    upper = omega (arith, new_next);
    copied = λ i le. copied_orig_new o c.next n x i le;
  }

  block_blocks :
      (y : ℕ) → Header S y → Forwarded S block_orig block_copy y ⊎ Untouched S block_copy y
  block_blocks y k = elim (header_apart m0 fs sizes e x y wf.blocks h k) [
    | inl same ↦ inl (subst (Forwarded S block_orig block_copy) same itself-Forwarded)
    | inr apart ↦
        let ne : y ≢ x = omega (arith, apart) in
        elim (inv.block y k) [
          | inl f ↦ inl (others-Forwarded y k ne f)
          | inr w ↦ inr (λ i le. other_kept y k ne i le ∙ w i le)
        ]
  ]

  new_room : block_copy.next + remaining block_copy.mem fs sizes ≤ tl
  new_room = omega (
    arith,
    inv.room,
    new_next,
    remaining-clear m0 c.mem block_copy.mem fs sizes e x wf.blocks h live header_cleared λ y k ne.
        ap block_copy.mem {x = y} {y = y + 0} (omega arith)
        ∙ other_kept y k ne 0 (omega arith)
        ∙ ap c.mem {x = y + 0} {y = y} (omega arith),
  )

  opens-Header : Header S (block_orig c.next)
  opens-Header =
      subst (Header S)
        (sym (
          ap block_orig {x = c.next} {y = c.next + 0} (omega arith)
          ∙ copied_orig_new o c.next n x 0 (omega arith)
          ∙ (omega arith)))
        h

  -- A header in the new block's copy is its own.
  only-Header : (i : ℕ) → i ≤ n → Header S (x + i) → i ≡ 0
  only-Header i le k = omega (arith, header_apart m0 fs sizes e x (x + i) wf.blocks h k)

  old-Whole : (y : ℕ) → y < c.next → p0 ≤ y → Header S (o y) → Whole S block_orig block_copy y
  old-Whole y r l k =
      let w = inv.chain y l r k in
      let e0 : block_orig y ≡ o y = copied_orig_old o c.next n x y (omega arith) in
      record {
        ends = rw e0 (omega (arith, new_next, w.ends));
        copied =
            rw e0
              λ i le. copied_orig_old o c.next n x (y + i) (omega (arith, w.ends)) ∙ w.copied i le;
        follows = rw e0 (follows w.follows);
      }
    where
      follows :
          (y + 1 + size S (o y) ≡ c.next)
            ⊎ ((y + 1 + size S (o y) < c.next) × Header S (o (y + 1 + size S (o y))))
          → (y + 1 + size S (o y) ≡ block_copy.next)
            ⊎ ((y + 1 + size S (o y) < block_copy.next)
                × Header S (block_orig (y + 1 + size S (o y))))
      follows (inl at_end) = inr (
        omega (arith, new_next, at_end),
        subst (Header S) (ap block_orig (sym at_end)) opens-Header,
      )
      follows (inr (before, k)) = inr (
        omega (arith, new_next, before),
        subst (Header S) (sym (copied_orig_old o c.next n x (y + 1 + size S (o y)) (omega arith)))
            k,
      )

  new-Whole :
      (i : ℕ)
      → i ≤ n
      → Header S (block_orig (c.next + i))
      → Whole S block_orig block_copy (c.next + i)
  new-Whole i le k =
      let z = only-Header i le (subst (Header S) (copied_orig_new o c.next n x i le) k) in
      let e0 : block_orig (c.next + i) ≡ x = copied_orig_new o c.next n x i le ∙ omega (arith, z) in
      record {
        ends = rw e0 (omega (arith, new_next, z));
        copied = rw e0 λ j lj.
            ap block_orig {x = c.next + i + j} {y = c.next + j} (omega (arith, z))
            ∙ copied_orig_new o c.next n x j lj;
        follows = rw e0 (inl (omega (arith, new_next, z)));
      }

  pub block-Inv : Inv S block_orig block_copy
  block-Inv = record {
    low = omega (arith, new_next, inv.low);
    room = new_room;
    block = block_blocks;
    chain = chain;
    outside = λ y out.
        copied_orig_old o c.next n x y (omega (arith, enough, inv.low)) ∙ inv.outside y out;
  }
    where
      chain :
          (y : ℕ)
          → p0 ≤ y
          → y < block_copy.next
          → Header S (block_orig y)
          → Whole S block_orig block_copy y
      chain y l r k = elim (Bool-cases (ltb y c.next)) [
        | inl old ↦
            let lt : y < c.next = ltb→lt y c.next old in
            old-Whole y lt l (subst (Header S) (copied_orig_old o c.next n x y (inl lt)) k)
        | inr new ↦
            let e0 : c.next + (y - c.next) ≡ y = ground arith in
            subst (Whole S block_orig block_copy) e0 (
              new-Whole (y - c.next) (omega (arith, new_next, e0))
                (subst (λ t. Header S (block_orig t)) (sym e0) k))
      ]

  pub block-Step : Step S q o c block_orig block_copy
  block-Step = record {
    grows = omega (arith, new_next);
    kept = λ y w ne.
        copied_elsewhere q (x + 1) n c y ne (omega (arith, w.not_from, bounds S wf x h, wf.within))
          (omega (arith, w.not_from, bounds S wf x h, wf.within))
          (omega (arith, w.live, enough, inv.low));
    same = λ y w. copied_orig_old o c.next n x y (omega (arith, w.live, enough, inv.low));
    marks = λ z k m0z.
        let ne : z ≢ x = λ t. live (ap c.mem (sym t) ∙ m0z) in
        (
          ap block_copy.mem {x = z} {y = z + 0} (omega arith)
              ∙ other_kept z k ne 0 (omega arith)
              ∙ ap c.mem {x = z + 0} {y = z} (omega arith)
              ∙ m0z,
          other_kept z k ne 1 (omega (arith, bounds S wf z k)),
        );
    fresh = λ y l r.
        let e0 : c.next + (y - c.next) ≡ y = omega arith in
        let le : y - c.next ≤ n = omega (arith, new_next) in
        subst (Raw S block_orig block_copy) e0
          (new_word (y - c.next) le ∙ ap m0 (sym (copied_orig_new o c.next n x (y - c.next) le)));
    opens = λ _. opens-Header;
  }

  pub block-Scanned :
      (w : ℕ)
      → index w ≡ x + 1
      → from_block S w ≡ true
      → m0 (o q) ≡ w
      → Scanned S block_orig block_copy q
  block-Scanned w ix b e0 =
      let e1 : m0 (block_orig q) ≡ w = ap m0 (block-Step.same q use_q) ∙ e0 in
      record {
        value =
            copied_at_root q (x + 1) n c
            ∙ sym first_moved
            ∙ ap block_copy.mem (sym ix)
            ∙ sym (relocate_block S wf block_copy.mem w b)
            ∙ ap (relocate S block_copy.mem) (sym e1);
        done =
            rw e1 λ _. ap block_copy.mem {x = index w - 1} {y = x} (omega arith) ∙ header_cleared;
      }
