-- ===== src/Mutator/Tests.antt =====
-- A small heap for theories/Runtime/gctest.c, and the theorems at it.
use certicoq.Prelude.{
  ℕ, ◌+◌, ◌*◌, ◌≤◌, ◌≡◌, refl, inl, inr, arith, Option, none, ◌⊎◌, ◌↔◌, List, [], ◌∷◌, ◌==◌,
  if◌then◌else◌,
}
use certicoq.Memory.{Mem, write}
use certicoq.Run.{Run, ok, ◌>>=◌}
use certicoq.Mutator.{
  State, Code, arg, set_arg, field, cons, store, less, check, info, insert, insert_left,
  insert_checked, jump, jumps,
}
use certicoq.Mutator.Tree.{
  Tree, leaf, node, insert_tree, jumps_needed, words_needed, TreeAt, Extends,
}
use certicoq.Mutator.Return.{Distinct}
use certicoq.Mutator.Insertion.{insert-insert_tree}
use certicoq.Gc.Generations.{points_into_heap, Fine, HeapInv}
use certicoq.Gc.Generations.Nursery.{mutator_heap}
use certicoq.Gc.Generations.Sample.{
  areas, sample_heap, sample_world, sample-HeapInv, sample_value, no_pointer-Fine,
}
use certicoq.Mutator.Alloc.{cons-HeapInv, set_arg_field-HeapInv}
use certicoq.Gc.{is_from, no_scan}
use certicoq.Mutator.Build.{AllDistinct, build_tree, build_jumps, build_words, build-build_tree}
use certicoq.Mutator.Measure.{measure, nodes, height, measure-nodes}
use certicoq.Mutator.Order.{Has, Search, insert-Search}
use certicoq.Prelude.Int.{pos}
use certicoq.Words.{is_block, wosize_hd, tag_hd, val_long, unsigned}

abbrev code : Code
code = record { insert = 1000; insert_left = 1002; insert_right = 1004; build = 1006; done = 1008 }

distinct : Distinct code
distinct = record { left = λ e. omega arith; right = λ e. omega arith; both = λ e. omega arith }

abbrev malloc : ℕ → ℕ → Option ℕ
malloc calls bytes = none

abbrev random : ℕ → ℕ
random calls = 7 * calls

-- The registers stand at 10, the nursery from 20 to 60, and it holds a node with the key 5. The key
-- to insert is 3, and the continuation is at 501.
abbrev words : Mem
words a =
    if a == 11
    then 8 * 21
    else if a == 12
    then 7
    else if a == 13
    then 501
    else if a == 20
    then 3 * 1024
    else if a == 21
    then 11
    else 1

abbrev one_node : State
one_node = record {
  ti = record { alloc = 24; limit = 60; heap = none; args = 10 };
  world = record { mem = words; mallocs = 0 };
  randoms = 0;
}

insert-insert_tree_example :
    (s' : State) × (jumps malloc random code 3 (1000, one_node) ≡ ok (501, s'))
    × TreeAt s' (arg s' 1) (node 11 (node 7 leaf leaf) leaf)
    × (arg s' 4 ≡ 1)
    × Extends one_node s'
    × (s'.ti.alloc ≤ 24 + 14)
unfolding less insert_tree jumps_needed words_needed
insert-insert_tree_example =
    insert-insert_tree malloc random code (node 11 leaf leaf) one_node distinct
      (20, refl, (inl (omega arith), inr (omega arith)), refl, refl, refl, refl)
      (record { apart = inl (omega arith); free = omega arith; bounded = omega arith })

-- The new root, its key, and the key of its left child.
inserted : Run (List ℕ)
unfolding jumps jump insert insert_left insert_checked check info less cons store write
inserted = do
  (at, s) ← jumps malloc random code 3 (1000, one_node)
  let m = s.world.mem
  ok (at ∷ s.ti.alloc ∷ m 11 ∷ m 34 ∷ m 35 ∷ m 30 ∷ [])

inserted_lem : inserted ≡ ok (501 ∷ 37 ∷ 8 * 34 ∷ 11 ∷ 8 * 30 ∷ 7 ∷ [])
unfolding inserted
inserted_lem = refl

insert-Search_example :
    (s' : State) × (t' : Tree) × (jumps malloc random code 3 (1000, one_node) ≡ ok (501, s'))
    × TreeAt s' (arg s' 1) t'
    × Search t'
    × ((x : ℕ) → Has x t' ↔ ((x ≡ 7) ⊎ Has x (node 11 leaf leaf)))
unfolding less jumps_needed words_needed
insert-Search_example =
    insert-Search malloc random code (node 11 leaf leaf) one_node distinct
      (20, refl, (inl (omega arith), inr (omega arith)), refl, refl, refl, refl)
      (omega arith, λ x b. absurd b, λ x b. absurd b, tt, tt) (omega arith)
      (record { apart = inl (omega arith); free = omega arith; bounded = omega arith })

all_distinct : AllDistinct code
all_distinct = record {
  inserts = distinct;
  insert = λ e. omega arith;
  left = λ e. omega arith;
  right = λ e. omega arith;
}

-- An empty tree, and two keys to insert.
abbrev empty_tree : State
empty_tree = record {
  ti = record { alloc = 20; limit = 60; heap = none; args = 10 };
  world = record { mem = λ a. if a == 14 then 5 else 1; mallocs = 0 };
  randoms = 0;
}

build-build_tree_example :
    (s' : State) × (jumps malloc random code (build_jumps random 0 2 leaf) (1006, empty_tree)
      ≡ ok (1008, s'))
    × TreeAt s' (arg s' 1) (build_tree random 0 2 leaf)
    × Extends empty_tree s'
    × (s'.ti.alloc ≤ 20 + build_words random 0 2 leaf)
unfolding build_words words_needed insert_tree less val_long unsigned
build-build_tree_example =
    build-build_tree malloc random code all_distinct 2 leaf empty_tree (omega arith) refl refl
      (record { apart = inl (omega arith); free = omega arith; bounded = omega arith })

measure-nodes_example : measure 2 one_node.world.mem (8 * 21) ≡ ok (pos 1)
unfolding nodes height
measure-nodes_example =
    measure-nodes one_node (node 11 leaf leaf) (8 * 21) 2
      (20, refl, (inl (omega arith), inr (omega arith)), refl, refl, refl, refl) (omega arith)
      (omega arith)

-- A register that holds the only root, and a block with an integer and the root's word.
abbrev Register : ℕ → Type 0
Register q = q ≡ 100001

Register-at : (q : ℕ) → Register q → (q ≡ 100001) ⊎ (q ≡ 100003)
Register-at q e = inl e

abbrev collectable : State
collectable = record {
  ti = record { alloc = 16; limit = 65546; heap = none; args = 100000 };
  world = sample_world;
  randoms = 0;
}

abbrev two_words : List ℕ
two_words = 7 ∷ 8 * 11 ∷ []

cons-HeapInv_example :
    (inv' : HeapInv areas Register 0
      (mutator_heap sample_heap (cons 0 two_words collectable).ti.alloc)
      (cons 0 two_words collectable).world)
    × Fine areas
        (mutator_heap sample_heap (cons 0 two_words collectable).ti.alloc)
        inv'.gens
        inv'.sizes
        (cons 0 two_words collectable).world.mallocs
        0
        (8 * 17)
cons-HeapInv_example =
    cons-HeapInv areas Register sample_heap collectable 0 two_words
      (sample-HeapInv Register Register-at) (omega arith) (omega arith) (omega arith)
      (no_pointer-Fine _ _, (sample_value Register Register-at, tt))

-- The register is loaded with what the block that it points to points to.
set_arg_field-HeapInv_example :
    HeapInv areas Register 0
      (mutator_heap sample_heap 16)
      (set_arg 1 (field collectable (8 * 11) 0) collectable).world
unfolding is_block wosize_hd tag_hd points_into_heap is_from no_scan
set_arg_field-HeapInv_example =
    set_arg_field-HeapInv areas Register sample_heap collectable 1 1 0
      (sample-HeapInv Register Register-at) refl refl refl refl (omega arith)
