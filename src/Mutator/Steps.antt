-- ===== src/Mutator/Steps.antt =====
-- Single jumps of theories/Runtime/gctest.c where the nursery has room.
use certicoq.Prelude.{
  ℕ, ◌+◌, ◌*◌, ◌≤◌, ◌≡◌, refl, ap, ◌∙◌, ◌⊎◌, inr, false, arith, Option, [], ◌∷◌, ltb,
}
use certicoq.Words.{pointer}
use certicoq.Memory.{write}
use certicoq.Run.{ok}
use certicoq.Gc.{FunInfo}
use certicoq.Gc.Heap.{pointer_diff}
use certicoq.Mutator.{
  State, Code, arg, set_arg, field, cons, store, alloc_value, check, info, fi_insert_left,
  fi_insert_right, insert_left, insert_right,
}
use certicoq.Mutator.Tree.{Tree, node, TreeAt, Extends, Extends-kept, TreeAt-Extends, Room}

-- The state after a new node: register 1 holds it, and register 4 the rest.
abbrev pub built : ℕ → ℕ → ℕ → ℕ → State → State
built k l r conte s = set_arg 1 (alloc_value s) (set_arg 4 conte (cons 0 (k ∷ l ∷ r ∷ []) s))

pub built_alloc : (k l r conte : ℕ) (s : State) → (built k l r conte s).ti.alloc ≡ s.ti.alloc + 4
unfolding cons
built_alloc k l r conte s = refl

pub built_randoms : (k l r conte : ℕ) (s : State) → (built k l r conte s).randoms ≡ s.randoms
unfolding cons
built_randoms k l r conte s = refl

pub Extends-built : (k l r conte : ℕ) (s : State) → Room s 4 → Extends s (built k l r conte s)
unfolding cons store write
Extends-built k l r conte s rm = record {
  args = refl;
  limit = refl;
  alloc = omega arith;
  nursery = inr (omega (arith, rm.free));
  untouched = λ y a r. ground arith;
}

pub record Built (k l r conte : ℕ) (s : State) : Type 0 where
  pub value : arg (built k l r conte s) 1 ≡ pointer (s.ti.alloc + 1)
  pub rest : arg (built k l r conte s) 4 ≡ conte
  pub header : (built k l r conte s).world.mem s.ti.alloc ≡ 3 * 1024
  pub key : (built k l r conte s).world.mem (s.ti.alloc + 1) ≡ k
  pub left : (built k l r conte s).world.mem (s.ti.alloc + 2) ≡ l
  pub right : (built k l r conte s).world.mem (s.ti.alloc + 3) ≡ r

pub built_lem : (k l r conte : ℕ) (s : State) → Room s 4 → Built k l r conte s
unfolding cons store write
built_lem k l r conte s rm = record {
  value = ground (arith, rm.free, rm.apart);
  rest = ground (arith, rm.free, rm.apart);
  header = ground (arith, rm.free, rm.apart);
  key = ground (arith, rm.free, rm.apart);
  left = ground (arith, rm.free, rm.apart);
  right = ground (arith, rm.free, rm.apart);
}

-- The new node is a tree if its children are.
pub TreeAt-built :
    (k l r conte : ℕ) (s : State) (tl tr : Tree)
    → Room s 4
    → TreeAt s l tl
    → TreeAt s r tr
    → TreeAt (built k l r conte s) (arg (built k l r conte s) 1) (node k tl tr)
unfolding cons
TreeAt-built k l r conte s tl tr rm hl hr =
    let f = built_lem k l r conte s rm in
    let e = Extends-built k l r conte s rm in
    (
      s.ti.alloc,
      f.value,
      alloc_Apart,
      f.header,
      f.key,
      rw f.left (TreeAt-Extends e tl l hl),
      rw f.right (TreeAt-Extends e tr r hr),
    )
  where
    alloc_Apart :
        ((s.ti.alloc + 4 ≤ (built k l r conte s).ti.alloc) ⊎ (s.ti.limit ≤ s.ti.alloc))
        × ((s.ti.alloc + 4 ≤ s.ti.args) ⊎ (s.ti.args + 5 ≤ s.ti.alloc))
    alloc_Apart = omega (arith, rm.free, rm.apart)

-- The state after a step down: the registers for the child, and a frame of the way back.
abbrev pub pushed : ℕ → ℕ → ℕ → ℕ → ℕ → State → State
pushed tag label k other child s = set_arg 4 (alloc_value s) (
    set_arg 3 label
      (set_arg 2 (arg s 2) (set_arg 1 child (cons tag (k ∷ other ∷ arg s 3 ∷ arg s 4 ∷ []) s))))

pub pushed_alloc :
    (tag label k other child : ℕ) (s : State)
    → (pushed tag label k other child s).ti.alloc ≡ s.ti.alloc + 5
unfolding cons
pushed_alloc tag label k other child s = refl

pub pushed_randoms :
    (tag label k other child : ℕ) (s : State)
    → (pushed tag label k other child s).randoms ≡ s.randoms
unfolding cons
pushed_randoms tag label k other child s = refl

pub Extends-pushed :
    (tag label k other child : ℕ) (s : State)
    → Room s 5
    → Extends s (pushed tag label k other child s)
unfolding cons store write
Extends-pushed tag label k other child s rm = record {
  args = refl;
  limit = refl;
  alloc = omega arith;
  nursery = inr (omega (arith, rm.free));
  untouched = λ y a r. ground arith;
}

pub record Pushed (tag label k other child : ℕ) (s : State) : Type 0 where
  pub tree : arg (pushed tag label k other child s) 1 ≡ child
  pub key : arg (pushed tag label k other child s) 2 ≡ arg s 2
  pub contf : arg (pushed tag label k other child s) 3 ≡ label
  pub conte : arg (pushed tag label k other child s) 4 ≡ pointer (s.ti.alloc + 1)
  pub frame0 : (pushed tag label k other child s).world.mem (s.ti.alloc + 1) ≡ k
  pub frame1 : (pushed tag label k other child s).world.mem (s.ti.alloc + 2) ≡ other
  pub frame2 : (pushed tag label k other child s).world.mem (s.ti.alloc + 3) ≡ arg s 3
  pub frame3 : (pushed tag label k other child s).world.mem (s.ti.alloc + 4) ≡ arg s 4

pub pushed_lem :
    (tag label k other child : ℕ) (s : State) → Room s 5 → Pushed tag label k other child s
unfolding cons store write
pushed_lem tag label k other child s rm = record {
  tree = ground (arith, rm.free, rm.apart);
  key = ground (arith, rm.free, rm.apart);
  contf = ground (arith, rm.free, rm.apart);
  conte = ground (arith, rm.free, rm.apart);
  frame0 = ground (arith, rm.free, rm.apart);
  frame1 = ground (arith, rm.free, rm.apart);
  frame2 = ground (arith, rm.free, rm.apart);
  frame3 = ground (arith, rm.free, rm.apart);
}

-- Where the words that a function asks for are free, its check does nothing.
pub check-Room :
    (malloc : ℕ → ℕ → Option ℕ) (random : ℕ → ℕ) (code : Code) (fi : FunInfo) (s : State)
    → Room s (fi 0)
    → check malloc random code fi s ≡ ok s
unfolding check
check-Room malloc random code fi s rm =
    let enough : ltb (pointer_diff s.ti.limit s.ti.alloc) (fi 0) ≡ false =
      ground (arith, rm.free, rm.bounded) in
    rw enough refl

-- What `insert_left` and `insert_right` read of the frame in register 4.
pub record FrameAt (k other contf conte : ℕ) (s : State) : Type 0 where
  pub key : field s (arg s 4) 0 ≡ k
  pub subtree : field s (arg s 4) 1 ≡ other
  pub next : field s (arg s 4) 2 ≡ contf
  pub rest : field s (arg s 4) 3 ≡ conte

-- The frame that a step down made is read as it was made.
pub FrameAt-pushed :
    (tag label k other child : ℕ) (s s' : State)
    → Room s 5
    → Extends (pushed tag label k other child s) s'
    → arg s' 4 ≡ arg (pushed tag label k other child s) 4
    → FrameAt k other (arg s 3) (arg s 4) s'
unfolding cons
FrameAt-pushed tag label k other child s s' rm e rest =
    let f = pushed_lem tag label k other child s rm in
    let same : arg s' 4 ≡ pointer (s.ti.alloc + 1) = rest ∙ f.conte in
    let kept = Extends-kept e in
    record {
      key =
          ap s'.world.mem (omega arith)
          ∙ kept (s.ti.alloc + 1) (omega (arith, rm.free, rm.apart))
          ∙ f.frame0;
      subtree =
          ap s'.world.mem (omega arith)
          ∙ kept (s.ti.alloc + 2) (omega (arith, rm.free, rm.apart))
          ∙ f.frame1;
      next =
          ap s'.world.mem (omega arith)
          ∙ kept (s.ti.alloc + 3) (omega (arith, rm.free, rm.apart))
          ∙ f.frame2;
      rest =
          ap s'.world.mem (omega arith)
          ∙ kept (s.ti.alloc + 4) (omega (arith, rm.free, rm.apart))
          ∙ f.frame3;
    }

module _ (malloc : ℕ → ℕ → Option ℕ) (random : ℕ → ℕ) (code : Code) (k other contf conte : ℕ)
    (s : State) (rm : Room s 4) (fr : FrameAt k other contf conte s) where
  pub insert_left_lem :
      insert_left malloc random code s ≡ ok (contf, built k (arg s 1) other conte s)
  unfolding insert_left info
  insert_left_lem =
      rw (check-Room malloc random code fi_insert_left s rm, fr.key, fr.subtree, fr.next, fr.rest)
        refl

  pub insert_right_lem :
      insert_right malloc random code s ≡ ok (contf, built k other (arg s 1) conte s)
  unfolding insert_right info
  insert_right_lem =
      rw (check-Room malloc random code fi_insert_right s rm, fr.key, fr.subtree, fr.next, fr.rest)
        refl
