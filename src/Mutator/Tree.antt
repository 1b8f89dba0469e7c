-- ===== src/Mutator/Tree.antt =====
-- What theories/Runtime/gctest.c is about: binary search trees, their insertion, and the trees that
-- stand in the mutator's heap.
use certicoq.Prelude.{ℕ, suc, ◌+◌, ◌*◌, ◌≤◌, ◌<◌, ◌^◌, ◌≡◌, ◌≢◌, ◌∙◌, ap, ◌⊎◌, arith, if◌then◌else◌}
use certicoq.Words.{pointer}
use certicoq.Mutator.{State, null, field, less}

pub data Tree : Type 0 where
  leaf : Tree
  node : ℕ → Tree → Tree → Tree

-- Insertion, by the order of values that the code compares with.
unfoldable pub insert_tree : ℕ → Tree → Tree
insert_tree key leaf = node key leaf leaf
insert_tree key (node k l r) =
    let l' = insert_tree key l in
    let r' = insert_tree key r in
    if less key k then node k l' r else if less k key then node k l r' else node k l r

-- How many jumps it takes: one down and one up for each node that is passed.
unfoldable pub jumps_needed : ℕ → Tree → ℕ
jumps_needed key leaf = 1
jumps_needed key (node k l r) =
    let dl = jumps_needed key l in
    let dr = jumps_needed key r in
    if less key k then suc (dl + 1) else if less k key then suc (dr + 1) else 1

-- How many words must be free so that no check collects.
unfoldable pub words_needed : ℕ → Tree → ℕ
words_needed key leaf = 5
words_needed key (node k l r) =
    let wl = words_needed key l in
    let wr = words_needed key r in
    if less key k then 5 + wl + 4 else if less k key then 5 + wr + 4 else 5

-- The `n` words from `b` on are neither free words of the nursery nor the mutator's registers.
abbrev pub Apart : State → ℕ → ℕ → Type 0
Apart s b n =
    ((b + n ≤ s.ti.alloc) ⊎ (s.ti.limit ≤ b)) × ((b + n ≤ s.ti.args) ⊎ (s.ti.args + 5 ≤ b))

-- `v` stands for a tree.
abbrev pub TreeAt : State → ℕ → Tree → Type 0
TreeAt s v leaf = v ≡ null
TreeAt s v (node k l r) =
    (b : ℕ) × (v ≡ pointer (b + 1))
    × Apart s b 4
    × (s.world.mem b ≡ 3 * 1024)
    × (s.world.mem (b + 1) ≡ k)
    × TreeAt s (s.world.mem (b + 2)) l
    × TreeAt s (s.world.mem (b + 3)) r

-- The mutator has only allocated in the nursery and changed its registers: a word that lies neither
-- between the free pointer before and the one after nor in a register is as it was.
pub record Extends (s s' : State) : Type 0 where
  pub args : s'.ti.args ≡ s.ti.args
  pub limit : s'.ti.limit ≡ s.ti.limit
  pub alloc : s.ti.alloc ≤ s'.ti.alloc
  pub nursery : (s'.ti.alloc ≡ s.ti.alloc) ⊎ (s'.ti.alloc ≤ s.ti.limit)
  pub untouched :
      (y : ℕ)
      → (y < s.ti.alloc) ⊎ (s'.ti.alloc ≤ y)
      → (y < s.ti.args) ⊎ (s.ti.args + 5 ≤ y)
      → s'.world.mem y ≡ s.world.mem y

-- What is neither free nor a register is kept, whatever was allocated.
pub Extends-kept :
    {s s' : State} → Extends s s' → (y : ℕ) → Apart s y 1 → s'.world.mem y ≡ s.world.mem y
Extends-kept e y (a, r) = e.untouched y (omega (arith, e.alloc, e.nursery, a)) (omega (arith, r))

pub Extends-trans : {s s' s'' : State} → Extends s s' → Extends s' s'' → Extends s s''
Extends-trans e e' = record {
  args = e'.args ∙ e.args;
  limit = e'.limit ∙ e.limit;
  alloc = omega (arith, e.alloc, e'.alloc);
  nursery = omega (arith, e.nursery, e'.nursery, e.limit);
  untouched = λ y a r.
      e'.untouched y (omega (arith, e.alloc, a)) (omega (arith, e.args, r))
      ∙ e.untouched y (omega (arith, e'.alloc, a)) r;
}

-- A tree in the heap stays as it is.
pub TreeAt-Extends :
    {s s' : State} → Extends s s' → (t : Tree) (v : ℕ) → TreeAt s v t → TreeAt s' v t
TreeAt-Extends e leaf v h = h
TreeAt-Extends {s} {s'} e (node k l r) v (b, at, a, hd, hk, hl, hr) = (
  b,
  at,
  omega (arith, e.args, e.limit, e.alloc, e.nursery, a),
  Extends-kept e b (omega (arith, a)) ∙ hd,
  Extends-kept e (b + 1) (omega (arith, a)) ∙ hk,
  rw (Extends-kept e (b + 2) (omega (arith, a))) (TreeAt-Extends e l _ hl),
  rw (Extends-kept e (b + 3) (omega (arith, a))) (TreeAt-Extends e r _ hr),
)

pub field-pointer :
    (s : State) (v b i : ℕ) → v ≡ pointer (b + 1) → field s v i ≡ s.world.mem (b + (i + 1))
field-pointer s v b i h = ap s.world.mem (omega arith)

-- What the code reads of a node.
pub record NodeAt (s : State) (v k : ℕ) (l r : Tree) : Type 0 where
  pub not_null : v ≢ null
  pub key : field s v 0 ≡ k
  pub left : TreeAt s (field s v 1) l
  pub right : TreeAt s (field s v 2) r

pub TreeAt-NodeAt : (s : State) (v k : ℕ) (l r : Tree) → TreeAt s v (node k l r) → NodeAt s v k l r
TreeAt-NodeAt s v k l r (b, at, a, hd, hk, hl, hr) = record {
  not_null = λ n. omega arith;
  key = field-pointer s v b 0 at ∙ hk;
  left = rw (field-pointer s v b 1 at) hl;
  right = rw (field-pointer s v b 2 at) hr;
}

-- Where the registers and the free words of the nursery are.
pub record Room (s : State) (n : ℕ) : Type 0 where
  pub apart : (s.ti.args + 5 ≤ s.ti.alloc) ⊎ (s.ti.limit ≤ s.ti.args)
  pub free : s.ti.alloc + n ≤ s.ti.limit
  pub bounded : s.ti.limit < 2 ^ 64
