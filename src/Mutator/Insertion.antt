-- ===== src/Mutator/Insertion.antt =====
-- `insert`, `insert_left` and `insert_right` of theories/Runtime/gctest.c together.
use mathlib.Core.Path.{subst}
use certicoq.Prelude.{
  ℕ, suc, ◌+◌, ◌≤◌, ◌≡◌, refl, ◌∙◌, ap, inl, inr, true, false, arith, Option, Bool-cases, ◌==◌,
}
use certicoq.Memory.{write}
use certicoq.Run.{ok}
use certicoq.Mutator.{
  State, Code, arg, set_arg, cons, field, null, info, less, fi_insert, insert_checked, insert, jump,
  jumps,
}
use certicoq.Mutator.Tree.{
  Tree, leaf, node, insert_tree, jumps_needed, words_needed, TreeAt, Extends, Extends-trans,
  TreeAt-Extends, TreeAt-NodeAt, Room,
}
use certicoq.Mutator.Steps.{
  built, built_alloc, built_randoms, pushed_alloc, pushed_randoms, Extends-built, built_lem,
  TreeAt-built, pushed, Extends-pushed, pushed_lem, check-Room, FrameAt, FrameAt-pushed,
}
use certicoq.Mutator.Return.{Distinct, there_and_back, Returned, up_left, up_right}

less-Room : (s : State) (n k : ℕ) → k ≤ n → Room s n → Room s k
less-Room s n k le rm = record {
  apart = rm.apart;
  free = omega (arith, rm.free);
  bounded = rm.bounded;
}

module _ (malloc : ℕ → ℕ → Option ℕ) (random : ℕ → ℕ) (code : Code) where
  -- What an insertion of the key in register 2 into the tree in register 1 comes to.
  pub record Inserted (key : ℕ) (t : Tree) (s : State) : Type 0 where
    pub result : State
    pub runs : jumps malloc random code (jumps_needed key t) (code.insert, s) ≡ ok (arg s 3, result)
    pub extends : Extends s result
    pub within : result.ti.alloc ≤ s.ti.alloc + words_needed key t
    pub tree : TreeAt result (arg result 1) (insert_tree key t)
    pub rest : arg result 4 ≡ arg s 4
    pub randoms : result.randoms ≡ s.randoms

  insert_step :
      (s : State)
      → Room s 5
      → jumps malloc random code 1 (code.insert, s) ≡ ok (insert_checked malloc random code s)
  unfolding jumps jump insert info
  insert_step s rm =
      let same : (code.insert == code.insert) ≡ true = ground arith in
      rw (same, check-Room malloc random code fi_insert s rm) refl

  insert_into_leaf :
      (s : State)
      → arg s 1 ≡ null
      → insert_checked malloc random code s ≡ (arg s 3, built (arg s 2) null null (arg s 4) s)
  unfolding insert_checked
  insert_into_leaf s h = rw h refl

  leaf-Inserted : (s : State) → arg s 1 ≡ null → Room s 5 → Inserted (arg s 2) leaf s
  unfolding insert_tree jumps_needed words_needed
  leaf-Inserted s h rm =
      let four = less-Room s 5 4 (omega arith) rm in
      record {
        result = built (arg s 2) null null (arg s 4) s;
        runs = insert_step s rm ∙ ap ok (insert_into_leaf s h);
        extends = Extends-built (arg s 2) null null (arg s 4) s four;
        within = omega (arith, built_alloc (arg s 2) null null (arg s 4) s);
        tree = TreeAt-built (arg s 2) null null (arg s 4) s leaf leaf four refl refl;
        rest = (built_lem (arg s 2) null null (arg s 4) s four).rest;
        randoms = built_randoms (arg s 2) null null (arg s 4) s;
      }

  -- The key is there already.
  same-Inserted :
      (k : ℕ) (l r : Tree) (s : State)
      → TreeAt s (arg s 1) (node k l r)
      → less (arg s 2) k ≡ false
      → less k (arg s 2) ≡ false
      → Room s 5
      → Inserted (arg s 2) (node k l r) s
  unfolding insert_tree jumps_needed words_needed insert_checked write
  same-Inserted k l r s at lo hi rm =
      let nd = TreeAt-NodeAt s (arg s 1) k l r at in
      let root : (arg s 1 == null) ≡ false = ground (arith, nd.not_null) in
      let after : State = set_arg 1 (arg s 1) (set_arg 4 (arg s 4) s) in
      let ext : Extends s after = record {
        args = refl;
        limit = refl;
        alloc = omega arith;
        nursery = inl refl;
        untouched = λ y a r. ground arith;
      } in
      let one : jumps_needed (arg s 2) (node k l r) ≡ 1 = rw (lo, hi) refl in
      let value : arg after 1 ≡ arg s 1 = ground arith in
      record {
        result = after;
        runs = rw one (insert_step s rm ∙ rw (root, nd.key, lo, hi) refl);
        extends = ext;
        within = omega arith;
        tree = rw (lo, hi, value) (TreeAt-Extends ext (node k l r) (arg s 1) at);
        rest = ground arith;
        randoms = refl;
      }

  -- A step down to the child `tc`, the insertion there, and the step back up.
  module _ (tag label k other child : ℕ) (t tc to t' : Tree) (s : State)
      (rm : Room s (5 + words_needed (arg s 2) tc + 4)) (at_child : TreeAt s child tc)
      (at_other : TreeAt s other to) where
    abbrev down : State
    down = pushed tag label k other child s

    room : Room s 5
    room = less-Room s _ 5 (omega arith) rm

    down-Room : Room down (words_needed (arg s 2) tc + 4)
    unfolding cons
    down-Room = record {
      apart = omega (arith, rm.apart);
      free = omega (arith, rm.free);
      bounded = rm.bounded;
    }

    child-TreeAt : TreeAt down (arg down 1) tc
    child-TreeAt =
        rw (pushed_lem tag label k other child s room).tree
          (TreeAt-Extends (Extends-pushed tag label k other child s room) tc child at_child)

    around :
        insert_checked malloc random code s ≡ (code.insert, down)
        → jumps_needed (arg s 2) t ≡ suc (jumps_needed (arg s 2) tc + 1)
        → words_needed (arg s 2) t ≡ 5 + words_needed (arg s 2) tc + 4
        → insert_tree (arg s 2) t ≡ t'
        → ((s' : State)
            → TreeAt s' (arg s' 1) tc
            → Room s' (words_needed (arg s' 2) tc)
            → Inserted (arg s' 2) tc s')
        → ((s' : State)
            → Room s' 4
            → FrameAt k other (arg s 3) (arg s 4) s'
            → TreeAt s' (arg s' 1) (insert_tree (arg s 2) tc)
            → TreeAt s' other to
            → Returned malloc random code label (arg s 3) (arg s 4) t' s')
        → Inserted (arg s 2) t s
    around step steps words same ih up =
        let f = pushed_lem tag label k other child s room in
        let below : Inserted (arg s 2) tc down =
          subst (λ key. Inserted key tc down) f.key
            (ih down child-TreeAt
              (rw f.key (less-Room down _ (words_needed (arg s 2) tc) (omega arith) down-Room))) in
        let first = Extends-pushed tag label k other child s room in
        let s2 = below.result in
        let both = Extends-trans first below.extends in
        let depth = pushed_alloc tag label k other child s in
        let rm2 : Room s2 4 = record {
          apart = omega (arith, rm.apart, rm.free, both.args, both.limit, both.alloc);
          free = omega (arith, rm.free, both.limit, below.within, depth);
          bounded = omega (arith, rm.bounded, both.limit);
        } in
        let fr = FrameAt-pushed tag label k other child s s2 room below.extends below.rest in
        let ret = up s2 rm2 fr below.tree (TreeAt-Extends both to other at_other) in
        record {
          result = ret.final;
          runs = rw steps (
              there_and_back malloc random code (jumps_needed (arg s 2) tc) (code.insert, s)
                (code.insert, down) (label, s2) (insert_step s room ∙ ap ok step)
                (below.runs ∙ ap (λ a. ok (a, s2)) f.contf) ret.runs);
          extends = Extends-trans both ret.extends;
          within = omega (arith, words, ret.alloc, below.within, depth);
          tree = rw same ret.tree;
          rest = ret.rest;
          randoms = ret.randoms ∙ below.randoms ∙ pushed_randoms tag label k other child s;
        }

  -- The induction on the tree.
  pub insert-Inserted :
      (t : Tree) (s : State)
      → Distinct code
      → TreeAt s (arg s 1) t
      → Room s (words_needed (arg s 2) t)
      → Inserted (arg s 2) t s
  unfolding insert_tree jumps_needed words_needed insert_checked
  insert-Inserted leaf s d at rm = leaf-Inserted s at rm
  insert-Inserted (node k l r) s d at rm =
      let nd = TreeAt-NodeAt s (arg s 1) k l r at in
      let root : (arg s 1 == null) ≡ false = ground (arith, nd.not_null) in
      elim (Bool-cases (less (arg s 2) k)) [
        | inl lo ↦
            let words : words_needed (arg s 2) (node k l r) ≡ 5 + words_needed (arg s 2) l + 4 =
              rw lo refl in
            around 1 code.insert_left k (field s (arg s 1) 2) (field s (arg s 1) 1) (node k l r) l r
              (node k (insert_tree (arg s 2) l) r) s (subst (Room s) words rm) nd.left nd.right
              (rw (root, nd.key, lo) refl) (rw lo refl) words (rw lo refl)
              (λ s' at' rm'. insert-Inserted l s' d at' rm')
              (λ s' rm' fr hl hr.
                up_left malloc random code k (field s (arg s 1) 2) (arg s 3) (arg s 4)
                  (insert_tree (arg s 2) l) r s' d rm' fr hl hr)
        | inr ge ↦ elim (Bool-cases (less k (arg s 2))) [
          | inl hi ↦
              let words : words_needed (arg s 2) (node k l r) ≡ 5 + words_needed (arg s 2) r + 4 =
                rw (ge, hi) refl in
              around 2 code.insert_right k (field s (arg s 1) 1) (field s (arg s 1) 2) (node k l r)
                r l (node k l (insert_tree (arg s 2) r)) s (subst (Room s) words rm) nd.right
                nd.left (rw (root, nd.key, ge, hi) refl) (rw (ge, hi) refl) words (rw (ge, hi) refl)
                (λ s' at' rm'. insert-Inserted r s' d at' rm')
                (λ s' rm' fr hr hl.
                  up_right malloc random code k (field s (arg s 1) 1) (arg s 3) (arg s 4) l
                    (insert_tree (arg s 2) r) s' d rm' fr hr hl)
          | inr le ↦ same-Inserted k l r s at ge le (
              subst (Room s) {x = words_needed (arg s 2) (node k l r)} {y = 5} (rw (ge, le) refl)
                rm)
        ]
      ]

  -- Where the tree in register 1 is in the heap and the nursery has room for every word that the
  -- insertion allocates, so that no check collects, `insert` ends in a jump to the continuation of
  -- register 3. Then register 1 holds the tree with the key of register 2 inserted, register 4 is as
  -- it was, and every word is as it was but the registers and those that `alloc` has passed, which
  -- are no more than the words needed and lie in the nursery.
  pub insert-insert_tree :
      (t : Tree) (s : State)
      → Distinct code
      → TreeAt s (arg s 1) t
      → Room s (words_needed (arg s 2) t)
      → (s' : State) × (jumps malloc random code (jumps_needed (arg s 2) t) (code.insert, s)
          ≡ ok (arg s 3, s'))
        × TreeAt s' (arg s' 1) (insert_tree (arg s 2) t)
        × (arg s' 4 ≡ arg s 4)
        × Extends s s'
        × (s'.ti.alloc ≤ s.ti.alloc + words_needed (arg s 2) t)
  insert-insert_tree t s d at rm =
      let i = insert-Inserted t s d at rm in (i.result, i.runs, i.tree, i.rest, i.extends, i.within)
