-- ===== src/Mutator/Build.antt =====
-- `build` of theories/Runtime/gctest.c: the insertion of random keys, one after another.
use mathlib.Core.Path.{subst}
use certicoq.Prelude.{
  ℕ, zero, suc, inl, ◌+◌, ◌%◌, ◌^◌, ◌≤◌, ◌<◌, ◌≡◌, ◌≢◌, refl, ◌∙◌, ap, true, false, arith, Option,
  ◌==◌,
}
use certicoq.Prelude.Int.{pos}
use certicoq.Words.{val_long, long_val}
use certicoq.Words.Bounds.{long_val-val_long}
use certicoq.Memory.{write}
use certicoq.Run.{ok, ◌>>=◌}
use certicoq.Mutator.{State, Code, arg, set_arg, info, fi_build, build, jump, jumps}
use certicoq.Mutator.Tree.{
  Tree, insert_tree, jumps_needed, words_needed, TreeAt, Extends, Extends-trans, TreeAt-Extends,
  Room,
}
use certicoq.Mutator.Steps.{check-Room}
use certicoq.Mutator.Return.{Distinct, jumps-add}
use certicoq.Mutator.Insertion.{Inserted, insert-Inserted}

-- The addresses of all four functions and of `done` differ.
pub record AllDistinct (code : Code) : Type 0 where
  pub inserts : Distinct code
  pub insert : code.build ≢ code.insert
  pub left : code.build ≢ code.insert_left
  pub right : code.build ≢ code.insert_right

module _ (random : ℕ → ℕ) where
  -- The key that the next call of `random` gives.
  abbrev pub key_at : ℕ → ℕ
  key_at calls = val_long (pos (random calls % 1000))

  -- `n` keys inserted, from the given call of `random` on.
  unfoldable pub build_tree : ℕ → ℕ → Tree → Tree
  build_tree calls zero t = t
  build_tree calls (suc n) t = build_tree (suc calls) n (insert_tree (key_at calls) t)

  -- How many jumps that takes, and how many words must be free so that no check collects.
  unfoldable pub build_jumps : ℕ → ℕ → Tree → ℕ
  build_jumps calls zero t = 1
  build_jumps calls (suc n) t =
      1 + (jumps_needed (key_at calls) t + build_jumps (suc calls) n (insert_tree (key_at calls) t))

  unfoldable pub build_words : ℕ → ℕ → Tree → ℕ
  build_words calls zero t = 0
  build_words calls (suc n) t =
      words_needed (key_at calls) t + build_words (suc calls) n (insert_tree (key_at calls) t)

module _ (malloc : ℕ → ℕ → Option ℕ) (random : ℕ → ℕ) (code : Code) (d : AllDistinct code) where
  -- The registers before the insertion of a key, with `n` more to insert.
  abbrev prepared : ℕ → State → State
  prepared n s = set_arg 4 (val_long (pos n)) (
      set_arg 3 code.build (
        set_arg 2 (key_at random s.randoms)
          (set_arg 1 (arg s 1) (record s { randoms = s.randoms + 1 }))))

  counter : (n : ℕ) → n < 2 ^ 62 → long_val (val_long (pos n)) ≡ pos n
  counter n lt = (long_val-val_long (pos n) lt (omega arith)).0

  build_jump :
      (s : State) (at : ℕ × State)
      → build malloc random code s ≡ ok at
      → jumps malloc random code 1 (code.build, s) ≡ ok at
  unfolding jumps jump
  build_jump s at e =
      let n1 : (code.build == code.insert) ≡ false = ground (arith, d.insert) in
      let n2 : (code.build == code.insert_left) ≡ false = ground (arith, d.left) in
      let n3 : (code.build == code.insert_right) ≡ false = ground (arith, d.right) in
      let same : (code.build == code.build) ≡ true = ground arith in rw (n1, n2, n3, same, e) refl

  build_more :
      (n : ℕ) (s : State)
      → suc n < 2 ^ 62
      → arg s 4 ≡ val_long (pos (suc n))
      → Room s 0
      → build malloc random code s ≡ ok (code.insert, prepared n s)
  unfolding build info
  build_more n s lt e rm =
      rw (check-Room malloc random code fi_build s rm, e, counter (suc n) lt) (ground arith)

  build_end :
      (s : State)
      → arg s 4 ≡ val_long (pos 0)
      → Room s 0
      → build malloc random code s ≡ ok (code.done, set_arg 1 (arg s 1) s)
  unfolding build info
  build_end s e rm =
      rw (check-Room malloc random code fi_build s rm, e, counter 0 (omega arith)) refl

  prepared-Extends :
      (n : ℕ) (s : State)
      → Extends s (prepared n s)
        × (arg (prepared n s) 1 ≡ arg s 1)
        × (arg (prepared n s) 2 ≡ key_at random s.randoms)
        × (arg (prepared n s) 3 ≡ code.build)
        × (arg (prepared n s) 4 ≡ val_long (pos n))
  unfolding write
  prepared-Extends n s = (
    record {
      args = refl;
      limit = refl;
      alloc = omega arith;
      nursery = inl refl;
      untouched = λ y a r. ground arith;
    },
    ground arith,
    ground arith,
    ground arith,
    ground arith,
  )

  -- What building comes to.
  record Built (n : ℕ) (t : Tree) (s : State) : Type 0 where
    pub result : State
    pub runs :
        jumps malloc random code (build_jumps random s.randoms n t) (code.build, s)
        ≡ ok (code.done, result)
    pub tree : TreeAt result (arg result 1) (build_tree random s.randoms n t)
    pub extends : Extends s result
    pub within : result.ti.alloc ≤ s.ti.alloc + build_words random s.randoms n t

  legs :
      (n k label : ℕ) (at at1 at3 : ℕ × State) (s2 : State)
      → jumps malloc random code 1 at ≡ ok at1
      → jumps malloc random code n at1 ≡ ok (label, s2)
      → label ≡ code.build
      → jumps malloc random code k (code.build, s2) ≡ ok at3
      → jumps malloc random code (1 + (n + k)) at ≡ ok at3
  legs n k label at at1 at3 s2 h1 h2 same h3 =
      jumps-add malloc random code 1 (n + k) at
      ∙ ap (λ r. r >>= jumps malloc random code (n + k)) h1
      ∙ jumps-add malloc random code n k at1
      ∙ ap (λ r. r >>= jumps malloc random code k) h2
      ∙ ap (λ f. jumps malloc random code k (f, s2)) same
      ∙ h3

  key_words :
      (n : ℕ) (t : Tree) (s : State)
      → words_needed (arg (prepared n s) 2) t ≡ words_needed (key_at random s.randoms) t
  key_words n t s = ap (λ k. words_needed k t) (prepared-Extends n s).2

  -- The first of the keys.
  first-Inserted :
      (n : ℕ) (t : Tree) (s : State)
      → TreeAt s (arg s 1) t
      → Room s (words_needed (key_at random s.randoms) t)
      → Inserted malloc random code (key_at random s.randoms) t (prepared n s)
  first-Inserted n t s at rm =
      let (ext, one, key, back, count) = prepared-Extends n s in
      let words = key_words n t s in
      subst (λ k. Inserted malloc random code k t (prepared n s)) key
        (insert-Inserted malloc random code t (prepared n s) d.inserts
          (rw one (TreeAt-Extends ext t (arg s 1) at))
          (record { apart = rm.apart; free = omega (arith, rm.free, words); bounded = rm.bounded }))

  -- The first of the keys, and the others after it.
  module _ (n : ℕ) (t : Tree) (s : State) (lt : suc n < 2 ^ 62)
      (e : arg s 4 ≡ val_long (pos (suc n))) (rm : Room s (build_words random s.randoms (suc n) t))
      (i : Inserted malloc random code (key_at random s.randoms) t (prepared n s)) where
    abbrev t' : Tree
    t' = insert_tree (key_at random s.randoms) t

    both : Extends s i.result
    both = Extends-trans (prepared-Extends n s).0 i.extends

    calls : i.result.randoms ≡ suc s.randoms
    calls = i.randoms ∙ omega arith

    left : build_words random i.result.randoms n t' ≡ build_words random (suc s.randoms) n t'
    left = ap (λ c. build_words random c n t') calls

    rest-Room : Room i.result (build_words random i.result.randoms n t')
    unfolding build_words
    rest-Room = record {
      apart = omega (arith, rm.apart, rm.free, both.args, both.limit, both.alloc);
      free = omega (arith, rm.free, both.limit, i.within, left);
      bounded = omega (arith, rm.bounded, both.limit);
    }

    joined : Built n t' i.result → Built (suc n) t s
    unfolding build_tree build_jumps build_words
    joined b = record {
      result = b.result;
      runs =
          legs (jumps_needed (key_at random s.randoms) t) (build_jumps random (suc s.randoms) n t')
            (arg (prepared n s) 3) (code.build, s) (code.insert, prepared n s) (code.done, b.result)
            i.result
            (build_jump s (code.insert, prepared n s)
              (build_more n s lt e
                (record { apart = rm.apart; free = omega (arith, rm.free); bounded = rm.bounded })))
            i.runs (prepared-Extends n s).3
            (subst
              (λ c.
                jumps malloc random code (build_jumps random c n t') (code.build, i.result)
                ≡ ok (code.done, b.result))
              calls b.runs);
      tree = subst (λ c. TreeAt b.result (arg b.result 1) (build_tree random c n t')) calls b.tree;
      extends = Extends-trans both b.extends;
      within = omega (arith, b.within, i.within, left);
    }

  build-Built :
      (n : ℕ) (t : Tree) (s : State)
      → n < 2 ^ 62
      → arg s 4 ≡ val_long (pos n)
      → TreeAt s (arg s 1) t
      → Room s (build_words random s.randoms n t)
      → Built n t s
  unfolding build_tree build_jumps build_words write
  build-Built zero t s lt e at rm =
      let ended : State = set_arg 1 (arg s 1) s in
      let ext : Extends s ended = record {
        args = refl;
        limit = refl;
        alloc = omega arith;
        nursery = inl refl;
        untouched = λ y a r. ground arith;
      } in
      let value : arg ended 1 ≡ arg s 1 = ground arith in
      record {
        result = ended;
        runs = build_jump s _ (build_end s e rm);
        tree = rw value (TreeAt-Extends ext t (arg s 1) at);
        extends = ext;
        within = omega arith;
      }
  build-Built (suc n) t s lt e at rm =
      let i =
        first-Inserted n t s at
          (record { apart = rm.apart; free = omega (arith, rm.free); bounded = rm.bounded }) in
      joined n t s lt e rm i (
        build-Built n (insert_tree (key_at random s.randoms) t) i.result (omega arith)
          (i.rest ∙ (prepared-Extends n s).4) i.tree (rest-Room n t s lt e rm i))

  -- Where register 1 holds a tree, register 4 a count below 2^62, and the nursery has room for every
  -- word that all the insertions allocate, so that no check collects, `build` ends in a jump to
  -- `done` after the number of jumps that is given. Then register 1 holds the tree with so many
  -- random keys inserted, and every word is as it was but the registers and those that `alloc` has
  -- passed, which are no more than the words needed and lie in the nursery.
  pub build-build_tree :
      (n : ℕ) (t : Tree) (s : State)
      → n < 2 ^ 62
      → arg s 4 ≡ val_long (pos n)
      → TreeAt s (arg s 1) t
      → Room s (build_words random s.randoms n t)
      → (s' : State) × (jumps malloc random code (build_jumps random s.randoms n t) (code.build, s)
          ≡ ok (code.done, s'))
        × TreeAt s' (arg s' 1) (build_tree random s.randoms n t)
        × Extends s s'
        × (s'.ti.alloc ≤ s.ti.alloc + build_words random s.randoms n t)
  build-build_tree n t s lt e at rm =
      let b = build-Built n t s lt e at rm in (b.result, b.runs, b.tree, b.extends, b.within)
