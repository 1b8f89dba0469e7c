-- ===== src/Ffi/Table.antt =====
-- benchmarks/hash/prog_main.c: the hash table behind the benchmark's foreign functions, and its
-- conversions of Coq's `nat`.
--
-- The hash and the comparison of keys are closures of the Coq program, called through `call`: they
-- are parameters, as the numbers and truth values that come back. The cells of a bucket are reached
-- from its head only, so a bucket is the list of its cells.
pub mod Laws
pub mod Nats
use certicoq.Prelude.{
  ℕ, zero, suc, ◌+◌, ◌%◌, ◌^◌, Bool, Option, none, some, List, [], ◌∷◌, ◌==◌, if◌then◌else◌, ltb,
  leb,
}

-- `struct cell`
pub record Cell : Type 0 where
  pub key : ℕ
  pub val : ℕ

-- `struct hashtable`
pub record Table : Type 0 where
  pub buckets : ℕ → List Cell

-- `SIZE`
abbrev pub table_size : ℕ
table_size = 109

-- `new_table`
unfoldable pub new_table : Table
new_table = record { buckets = λ i. [] }

abbrev pub set_bucket : Table → ℕ → List Cell → Table
set_bucket t b cells = record { buckets = λ i. if i == b then cells else t.buckets i }

module _ (hash : ℕ → ℕ) (eq : ℕ → ℕ → Bool) where
  -- `unsigned int b = h % SIZE`
  unfoldable pub bucket : ℕ → ℕ
  bucket key = hash key % 2 ^ 32 % table_size

  -- The loop of `lookup`.
  unfoldable pub lookup_list : List Cell → ℕ → Option ℕ
  lookup_list [] key = none
  lookup_list (p ∷ ps) key =
      let rest = lookup_list ps key in if eq p.key key then some p.val else rest

  -- `lookup`
  unfoldable pub lookup : Table → ℕ → Option ℕ
  unfolding bucket lookup_list
  lookup t key = lookup_list (t.buckets (bucket key)) key

  -- `insert_list`: a new cell goes behind the last one.
  unfoldable pub insert_list : List Cell → ℕ → ℕ → List Cell
  insert_list [] key val = record { key = key; val = val } ∷ []
  insert_list (p ∷ ps) key val =
      let rest = insert_list ps key val in
      if eq p.key key then record p { val = val } ∷ ps else p ∷ rest

  -- `insert`
  unfoldable pub insert : Table → ℕ → ℕ → Table
  unfolding bucket insert_list
  insert t key val = set_bucket t (bucket key) (insert_list (t.buckets (bucket key)) key val)

  -- `delete_list`
  unfoldable pub delete_list : List Cell → ℕ → List Cell
  delete_list [] key = []
  delete_list (p ∷ ps) key = let rest = delete_list ps key in if eq p.key key then ps else p ∷ rest

  -- `delete`
  unfoldable pub delete : Table → ℕ → Table
  unfolding bucket delete_list
  delete t key = set_bucket t (bucket key) (delete_list (t.buckets (bucket key)) key)

-- The `nat` of the Coq program: its constructors are generated, so they are parameters, and
-- `unfold_S` is what its tag and its field say of a value.
module _ {V : Type 0} (make_O : V) (make_S : V → V) (unfold_S : V → Option V) where
  -- The loop of `uint_to_nat`, on fuel: `for (i = 0; i <= num; i++)` with an `unsigned int i`.
  unfoldable pub uint_loop : ℕ → ℕ → ℕ → V → Option V
  uint_loop zero num i n = none
  uint_loop (suc fuel) num i n =
      let rest = uint_loop fuel num ((i + 1) % 2 ^ 32) (make_S n) in
      if leb i num then rest else some n

  -- `uint_to_nat`
  unfoldable pub uint_to_nat : ℕ → ℕ → Option V
  unfolding uint_loop
  uint_to_nat fuel num = uint_loop fuel num 0 make_O

  -- The loop of `nat_to_uint`.
  unfoldable pub nat_loop : ℕ → V → ℕ → Option ℕ
  nat_loop zero temp i = none
  nat_loop (suc fuel) temp i = elim (unfold_S temp) [
    | some n ↦ nat_loop fuel n ((i + 1) % 2 ^ 32)
    | none ↦ some i
  ]

  -- `nat_to_uint`
  unfoldable pub nat_to_uint : ℕ → V → Option ℕ
  unfolding nat_loop
  nat_to_uint fuel n = nat_loop fuel n 0
