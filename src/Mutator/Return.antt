-- ===== src/Mutator/Return.antt =====
-- Sequences of jumps of theories/Runtime/gctest.c, and the jump back up to a node.
use certicoq.Prelude.{ℕ, zero, suc, ◌+◌, ◌≡◌, ◌≢◌, refl, ◌∙◌, ap, true, false, arith, Option, ◌==◌}
use certicoq.Run.{Run, ok, abort, out_of_fuel, ◌>>=◌}
use certicoq.Mutator.{State, Code, arg, jump, jumps}
use certicoq.Mutator.Tree.{Tree, node, TreeAt, Extends, Room}
use certicoq.Mutator.Steps.{
  built, built_alloc, built_randoms, Extends-built, built_lem, TreeAt-built, FrameAt,
  insert_left_lem, insert_right_lem,
}

-- The three functions have different addresses.
pub record Distinct (code : Code) : Type 0 where
  pub left : code.insert_left ≢ code.insert
  pub right : code.insert_right ≢ code.insert
  pub both : code.insert_right ≢ code.insert_left

module _ (malloc : ℕ → ℕ → Option ℕ) (random : ℕ → ℕ) (code : Code) where
  abbrev pub go : ℕ → ℕ × State → Run (ℕ × State)
  go n at = jumps malloc random code n at

  pub jumps-add : (n k : ℕ) (at : ℕ × State) → go (n + k) at ≡ (go n at >>= go k)
  unfolding jumps
  jumps-add zero k at = ap (λ i. go i at) {x = zero + k} {y = k} (omega arith)
  jumps-add (suc n) k at =
      ap (λ i. go i at) {x = suc n + k} {y = suc (n + k)} (omega arith)
      ∙ after (jump malloc random code at) (λ next. jumps-add n k next)
    where
      after :
          (r : Run (ℕ × State))
          → ((next : ℕ × State) → go (n + k) next ≡ (go n next >>= go k))
          → (r >>= go (n + k)) ≡ ((r >>= go n) >>= go k)
      after out_of_fuel f = refl
      after (abort e) f = refl
      after (ok next) f = f next

  pub there_and_back :
      (n : ℕ) (at at1 at2 : ℕ × State) {at3 : ℕ × State}
      → go 1 at ≡ ok at1
      → go n at1 ≡ ok at2
      → go 1 at2 ≡ ok at3
      → go (suc (n + 1)) at ≡ ok at3
  there_and_back n at at1 at2 h1 h2 h3 =
      ap (λ i. go i at) {x = suc (n + 1)} {y = 1 + (n + 1)} (omega arith)
      ∙ jumps-add 1 (n + 1) at
      ∙ ap (λ r. r >>= go (n + 1)) h1
      ∙ jumps-add n 1 at1
      ∙ ap (λ r. r >>= go 1) h2
      ∙ h3

  -- What a step back up comes to.
  pub record Returned (label contf conte : ℕ) (t : Tree) (s : State) : Type 0 where
    pub final : State
    pub runs : go 1 (label, s) ≡ ok (contf, final)
    pub extends : Extends s final
    pub alloc : final.ti.alloc ≡ s.ti.alloc + 4
    pub rest : arg final 4 ≡ conte
    pub randoms : final.randoms ≡ s.randoms
    pub tree : TreeAt final (arg final 1) t

  pub up_left :
      (k other contf conte : ℕ) (l r : Tree) (s : State)
      → Distinct code
      → Room s 4
      → FrameAt k other contf conte s
      → TreeAt s (arg s 1) l
      → TreeAt s other r
      → Returned code.insert_left contf conte (node k l r) s
  unfolding jumps jump
  up_left k other contf conte l r s d rm fr hl hr =
      let other_code : (code.insert_left == code.insert) ≡ false = ground (arith, d.left) in
      let same : (code.insert_left == code.insert_left) ≡ true = ground arith in
      record {
        final = built k (arg s 1) other conte s;
        runs =
            rw (other_code, same, insert_left_lem malloc random code k other contf conte s rm fr)
              refl;
        extends = Extends-built k (arg s 1) other conte s rm;
        alloc = built_alloc k (arg s 1) other conte s;
        rest = (built_lem k (arg s 1) other conte s rm).rest;
        randoms = built_randoms k (arg s 1) other conte s;
        tree = TreeAt-built k (arg s 1) other conte s l r rm hl hr;
      }

  pub up_right :
      (k other contf conte : ℕ) (l r : Tree) (s : State)
      → Distinct code
      → Room s 4
      → FrameAt k other contf conte s
      → TreeAt s (arg s 1) r
      → TreeAt s other l
      → Returned code.insert_right contf conte (node k l r) s
  unfolding jumps jump
  up_right k other contf conte l r s d rm fr hr hl =
      let other_code : (code.insert_right == code.insert) ≡ false = ground (arith, d.right) in
      let other_code' : (code.insert_right == code.insert_left) ≡ false = ground (arith, d.both) in
      let same : (code.insert_right == code.insert_right) ≡ true = ground arith in
      record {
        final = built k other (arg s 1) conte s;
        runs =
            rw
              (
                other_code,
                other_code',
                same,
                insert_right_lem malloc random code k other contf conte s rm fr,
              )
              refl;
        extends = Extends-built k other (arg s 1) conte s rm;
        alloc = built_alloc k other (arg s 1) conte s;
        rest = (built_lem k other (arg s 1) conte s rm).rest;
        randoms = built_randoms k other (arg s 1) conte s;
        tree = TreeAt-built k other (arg s 1) conte s l r rm hl hr;
      }
