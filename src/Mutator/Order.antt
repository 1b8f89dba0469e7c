-- ===== src/Mutator/Order.antt =====
-- The insertion of theories/Runtime/gctest.c as one into a finite set of keys.
use certicoq.Prelude.{ℕ, ◌^◌, ◌<◌, ◌≡◌, ◌⊎◌, inl, inr, true, false, arith, Option, Bool-cases, ◌↔◌}
use certicoq.Run.{ok}
use certicoq.Mutator.{State, Code, arg, less, jumps}
use certicoq.Mutator.Tree.{Tree, leaf, node, insert_tree, jumps_needed, words_needed, TreeAt, Room}
use certicoq.Mutator.Return.{Distinct}
use certicoq.Mutator.Insertion.{insert-insert_tree}

-- The set that a tree stands for.
abbrev pub Has : ℕ → Tree → Type 0
Has x leaf = ⊥
Has x (node k l r) = (x ≡ k) ⊎ (Has x l ⊎ Has x r)

-- A search tree of words, by the order of values that the code compares with.
abbrev pub Search : Tree → Type 0
Search leaf = Unit
Search (node k l r) =
    (k < 2 ^ 64)
    × ((x : ℕ) → Has x l → less x k ≡ true)
    × ((x : ℕ) → Has x r → less k x ≡ true)
    × Search l
    × Search r

less_total : (a b : ℕ) → a < 2 ^ 64 → b < 2 ^ 64 → less a b ≡ false → less b a ≡ false → a ≡ b
unfolding less
less_total a b la lb h k = ground arith

-- The keys of the tree after an insertion.
insert_tree-Has :
    (key x : ℕ) (t : Tree)
    → key < 2 ^ 64
    → Search t
    → Has x (insert_tree key t) ↔ ((x ≡ key) ⊎ Has x t)
unfolding insert_tree
insert_tree-Has key x leaf lt s = (
  λ h. elim h [ inl e ↦ inl e | inr h' ↦ elim h' [ inl b ↦ absurd b | inr b ↦ absurd b ] ],
  λ h. elim h [ inl e ↦ inl e | inr b ↦ absurd b ],
)
insert_tree-Has key x (node k l r) lt (lk, low, high, sl, sr) = elim (Bool-cases (less key k)) [
  | inl a ↦
      let (to, back) = insert_tree-Has key x l lt sl in
      rw a (
        λ h. elim h [
          | inl e ↦ inr (inl e)
          | inr (inl h') ↦ elim (to h') [ inl e ↦ inl e | inr m ↦ inr (inr (inl m)) ]
          | inr (inr m) ↦ inr (inr (inr m))
        ],
        λ h. elim h [
          | inl e ↦ inr (inl (back (inl e)))
          | inr (inl e) ↦ inl e
          | inr (inr (inl m)) ↦ inr (inl (back (inr m)))
          | inr (inr (inr m)) ↦ inr (inr m)
        ],
      )
  | inr a ↦ elim (Bool-cases (less k key)) [
    | inl b ↦
        let (to, back) = insert_tree-Has key x r lt sr in
        rw (a, b)
          (
            λ h. elim h [
              | inl e ↦ inr (inl e)
              | inr (inl m) ↦ inr (inr (inl m))
              | inr (inr h') ↦ elim (to h') [ inl e ↦ inl e | inr m ↦ inr (inr (inr m)) ]
            ],
            λ h. elim h [
              | inl e ↦ inr (inr (back (inl e)))
              | inr (inl e) ↦ inl e
              | inr (inr (inl m)) ↦ inr (inl m)
              | inr (inr (inr m)) ↦ inr (inr (back (inr m)))
            ],
          )
    | inr b ↦
        let same : key ≡ k = less_total key k lt lk a b in
        rw (a, b) (λ h. inr h, λ h. elim h [ inl e ↦ inl (cc) | inr m ↦ m ])
  ]
]

insert_tree-Search : (key : ℕ) (t : Tree) → key < 2 ^ 64 → Search t → Search (insert_tree key t)
unfolding insert_tree
insert_tree-Search key leaf lt s = (lt, λ x b. absurd b, λ x b. absurd b, tt, tt)
insert_tree-Search key (node k l r) lt (lk, low, high, sl, sr) = elim (Bool-cases (less key k)) [
  | inl a ↦ rw a (
    lk,
    λ x h. elim ((insert_tree-Has key x l lt sl).0 h) [ inl e ↦ rw e a | inr m ↦ low x m ],
    high,
    insert_tree-Search key l lt sl,
    sr,
  )
  | inr a ↦ elim (Bool-cases (less k key)) [
    | inl b ↦
        rw (a, b)
          (
            lk,
            low,
            λ x h. elim ((insert_tree-Has key x r lt sr).0 h) [ inl e ↦ rw e b | inr m ↦ high x m ],
            sl,
            insert_tree-Search key r lt sr,
          )
    | inr b ↦ rw (a, b) (lk, low, high, sl, sr)
  ]
]

-- Where the nursery has room for every word that it allocates, so that no check collects, the
-- insertion of a word into a search tree in the heap reaches the continuation with a search tree in register 1 that has the keys of the old
-- one and the new key, and no others.
pub insert-Search :
    (malloc : ℕ → ℕ → Option ℕ) (random : ℕ → ℕ) (code : Code) (t : Tree) (s : State)
    → Distinct code
    → TreeAt s (arg s 1) t
    → Search t
    → arg s 2 < 2 ^ 64
    → Room s (words_needed (arg s 2) t)
    → (s' : State) × (t' : Tree) × (jumps malloc random code
          (jumps_needed (arg s 2) t)
          (code.insert, s)
        ≡ ok (arg s 3, s'))
      × TreeAt s' (arg s' 1) t'
      × Search t'
      × ((x : ℕ) → Has x t' ↔ ((x ≡ arg s 2) ⊎ Has x t))
insert-Search malloc random code t s d at order lt rm =
    let (s', runs, tree, rest, ext, within) = insert-insert_tree malloc random code t s d at rm in
    (
      s',
      insert_tree (arg s 2) t,
      runs,
      tree,
      insert_tree-Search (arg s 2) t lt order,
      λ x. insert_tree-Has (arg s 2) x t lt order,
    )
