-- ===== src/Ffi/Table/Laws.antt =====
-- The hash table of benchmarks/hash/prog_main.c as a map.
use certicoq.Prelude.{
  ℕ, ◌%◌, ◌^◌, ◌≡◌, refl, inl, inr, Bool, true, false, none, some, List, [], ◌∷◌, arith, ap,
  Bool-cases, ◌==◌, if◌then◌else◌,
}
use certicoq.Ffi.Table.{
  Cell, Table, new_table, bucket, lookup_list, lookup, insert_list, insert, delete_list, delete,
}

-- What the Coq program owes: its comparison is an equivalence that its hash respects.
pub record KeyLaws (hash : ℕ → ℕ) (eq : ℕ → ℕ → Bool) : Type 0 where
  pub eq_refl : (a : ℕ) → eq a a ≡ true
  pub eq_sym : (a b : ℕ) → eq a b ≡ true → eq b a ≡ true
  pub eq_trans : (a b c : ℕ) → eq a b ≡ true → eq b c ≡ true → eq a c ≡ true
  pub hash_eq : (a b : ℕ) → eq a b ≡ true → hash a ≡ hash b

module _ (hash : ℕ → ℕ) (eq : ℕ → ℕ → Bool) where
  -- No cell of the list has a key equal to this one, and no two cells have equal keys.
  abbrev pub Absent : ℕ → List Cell → Type 0
  Absent k [] = Unit
  Absent k (p ∷ ps) = (eq p.key k ≡ false) × Absent k ps

  abbrev pub Distinct : List Cell → Type 0
  Distinct [] = Unit
  Distinct (p ∷ ps) = Absent p.key ps × Distinct ps

  abbrev pub TableOk : Table → Type 0
  TableOk t = (b : ℕ) → Distinct (t.buckets b)

module _ (hash : ℕ → ℕ) (eq : ℕ → ℕ → Bool) (laws : KeyLaws hash eq) where
  -- Comparison with equal keys gives one answer.
  eq_left : (a b c : ℕ) → eq a b ≡ true → eq a c ≡ eq b c
  eq_left a b c h =
      ground
        (arith, laws.eq_sym a b h, laws.eq_trans a b c h, laws.eq_trans b a c (laws.eq_sym a b h))

  lookup-insert_list :
      (ps : List Cell) (k j v : ℕ)
      → lookup_list hash eq (insert_list hash eq ps k v) j
        ≡ (if eq k j then some v else lookup_list hash eq ps j)
  unfolding lookup_list insert_list
  lookup-insert_list [] k j v = refl
  lookup-insert_list (p ∷ ps) k j v = ground (
    arith,
    eq_left p.key k j,
    laws.eq_sym p.key k,
    laws.eq_trans p.key j k,
    laws.eq_sym k j,
    laws.eq_trans p.key k j,
    lookup-insert_list ps k j v,
  )

  bucket_eq : (k j : ℕ) → eq k j ≡ true → bucket hash eq k ≡ bucket hash eq j
  unfolding bucket
  bucket_eq k j h = ap (λ t. t % 2 ^ 32 % 109) (laws.hash_eq k j h)

  -- A look-up after an insertion gives the new value for an equal key, and what it gave before for
  -- every other key.
  pub lookup-insert :
      (t : Table) (k j v : ℕ)
      → lookup hash eq (insert hash eq t k v) j ≡ (if eq k j then some v else lookup hash eq t j)
  unfolding lookup insert
  lookup-insert t k j v = elim (Bool-cases (bucket hash eq j == bucket hash eq k)) [
    | inl same ↦
        let e : bucket hash eq j ≡ bucket hash eq k = ground arith in
        rw same (rw e (lookup-insert_list (t.buckets (bucket hash eq k)) k j v))
    | inr apart ↦ elim (Bool-cases (eq k j)) [
      | inl equal ↦ absurd (clash (bucket_eq k j equal) apart)
      | inr ne ↦ rw (apart, ne)
    ]
  ]
    where
      clash :
          bucket hash eq k ≡ bucket hash eq j → (bucket hash eq j == bucket hash eq k) ≡ false → ⊥
      clash e n = ground arith

  lookup-Absent :
      (ps : List Cell) (k j : ℕ)
      → Absent hash eq k ps
      → eq k j ≡ true
      → lookup_list hash eq ps j ≡ none
  unfolding lookup_list
  lookup-Absent [] k j a h = refl
  lookup-Absent (p ∷ ps) k j (n, a) h =
      ground (arith, laws.eq_sym k j h, laws.eq_trans p.key j k, lookup-Absent ps k j a h)

  Absent-eq : (ps : List Cell) (k j : ℕ) → eq k j ≡ true → Absent hash eq k ps → Absent hash eq j ps
  Absent-eq [] k j h a = tt
  Absent-eq (p ∷ ps) k j h (n, a) =
      (ground (arith, laws.eq_sym k j h, laws.eq_trans p.key j k), Absent-eq ps k j h a)

  lookup-delete_list :
      (ps : List Cell) (k j : ℕ)
      → Distinct hash eq ps
      → lookup_list hash eq (delete_list hash eq ps k) j
        ≡ (if eq k j then none else lookup_list hash eq ps j)
  unfolding lookup_list delete_list
  lookup-delete_list [] k j d = ground arith
  lookup-delete_list (p ∷ ps) k j (a, d) = elim (Bool-cases (eq p.key k)) [
    | inl hit ↦ elim (Bool-cases (eq k j)) [
      | inl same ↦ rw (hit, same) (lookup-Absent ps k j (Absent-eq ps p.key k hit a) same)
      | inr other ↦ rw (hit, other, eq_left p.key k j hit, other)
    ]
    | inr miss ↦
        ground (arith, laws.eq_sym k j, laws.eq_trans p.key j k, lookup-delete_list ps k j d)
  ]

  -- In a table with distinct keys a look-up after a deletion gives nothing for an equal key, and
  -- what it gave before for every other key.
  pub lookup-delete :
      (t : Table) (k j : ℕ)
      → TableOk hash eq t
      → lookup hash eq (delete hash eq t k) j ≡ (if eq k j then none else lookup hash eq t j)
  unfolding lookup delete
  lookup-delete t k j d = elim (Bool-cases (bucket hash eq j == bucket hash eq k)) [
    | inl same ↦
        let e : bucket hash eq j ≡ bucket hash eq k = ground arith in
        rw same
          (rw e (lookup-delete_list (t.buckets (bucket hash eq k)) k j (d (bucket hash eq k))))
    | inr apart ↦ elim (Bool-cases (eq k j)) [
      | inl equal ↦ absurd (clash (bucket_eq k j equal) apart)
      | inr ne ↦ rw (apart, ne)
    ]
  ]
    where
      clash :
          bucket hash eq k ≡ bucket hash eq j → (bucket hash eq j == bucket hash eq k) ≡ false → ⊥
      clash e n = ground arith

  Absent-insert :
      (ps : List Cell) (k j v : ℕ)
      → eq k j ≡ false
      → Absent hash eq j ps
      → Absent hash eq j (insert_list hash eq ps k v)
  unfolding insert_list
  Absent-insert [] k j v h a = (h, tt)
  Absent-insert (p ∷ ps) k j v h (n, a) = elim (Bool-cases (eq p.key k)) [
    | inl hit ↦ rw hit (n, a)
    | inr miss ↦ rw miss (n, Absent-insert ps k j v h a)
  ]

  Distinct-insert :
      (ps : List Cell) (k v : ℕ)
      → Distinct hash eq ps
      → Distinct hash eq (insert_list hash eq ps k v)
  unfolding insert_list
  Distinct-insert [] k v d = (tt, tt)
  Distinct-insert (p ∷ ps) k v (a, d) = elim (Bool-cases (eq p.key k)) [
    | inl hit ↦ rw hit (a, d)
    | inr miss ↦ rw miss (
      Absent-insert ps k p.key v (ground (arith, laws.eq_sym k p.key)) a,
      Distinct-insert ps k v d,
    )
  ]

  Absent-delete :
      (ps : List Cell) (k j : ℕ) → Absent hash eq j ps → Absent hash eq j (delete_list hash eq ps k)
  unfolding delete_list
  Absent-delete [] k j a = tt
  Absent-delete (p ∷ ps) k j (n, a) = elim (Bool-cases (eq p.key k)) [
    | inl hit ↦ rw hit a
    | inr miss ↦ rw miss (n, Absent-delete ps k j a)
  ]

  Distinct-delete :
      (ps : List Cell) (k : ℕ) → Distinct hash eq ps → Distinct hash eq (delete_list hash eq ps k)
  unfolding delete_list
  Distinct-delete [] k d = tt
  Distinct-delete (p ∷ ps) k (a, d) = elim (Bool-cases (eq p.key k)) [
    | inl hit ↦ rw hit d
    | inr miss ↦ rw miss (Absent-delete ps k p.key a, Distinct-delete ps k d)
  ]

  -- The new table has distinct keys in every bucket.
  pub new_table-TableOk : TableOk hash eq new_table
  unfolding new_table
  new_table-TableOk = λ b. tt

  -- Insertion keeps the keys of every bucket distinct.
  pub insert-TableOk :
      (t : Table) (k v : ℕ) → TableOk hash eq t → TableOk hash eq (insert hash eq t k v)
  unfolding insert
  insert-TableOk t k v d b = elim (Bool-cases (b == bucket hash eq k)) [
    | inl same ↦ rw same (Distinct-insert (t.buckets (bucket hash eq k)) k v (d (bucket hash eq k)))
    | inr apart ↦ rw apart (d b)
  ]

  -- Deletion keeps the keys of every bucket distinct.
  pub delete-TableOk :
      (t : Table) (k : ℕ) → TableOk hash eq t → TableOk hash eq (delete hash eq t k)
  unfolding delete
  delete-TableOk t k d b = elim (Bool-cases (b == bucket hash eq k)) [
    | inl same ↦ rw same (Distinct-delete (t.buckets (bucket hash eq k)) k (d (bucket hash eq k)))
    | inr apart ↦ rw apart (d b)
  ]
