-- ===== src/Gc/Generations.antt =====
-- The heap of theories/Runtime/gc.c as a whole: its generations, what they may point to, and the
-- values that a root gives through all of them.
pub mod Facts
pub mod Step
pub mod Fields
pub mod Keep
pub mod Points
pub mod Look
pub mod Same
pub mod Create
pub mod Unseen
pub mod Ensure
pub mod Round
pub mod Loop
pub mod All
pub mod Fresh
pub mod Last
pub mod Nursery
pub mod Alloc
pub mod Write
pub mod Initial
pub mod Sample
use certicoq.Prelude.{
  ℕ, zero, suc, ◌+◌, ◌-◌, ◌*◌, ◌/◌, ◌≤◌, ◌<◌, ◌≡◌, ◌≢◌, ◌⊎◌, ◌↔◌, Bool, true, false, ◌||◌, Option,
  some, List, if◌then◌else◌,
}
use certicoq.Words.{is_block, index, wosize_hd, tag_hd}
use certicoq.Memory.{Mem}
use certicoq.Gc.{no_scan, nursery_size, max_spaces}
use certicoq.Gc.Heap.{Heap, World, no_space_yet}
use certicoq.Gc.Layout.{Blocks, IsHeader, points_into}
use certicoq.Gc.Graph.{View, SameObject}
use certicoq.Gc.Through.{view_through, follow_through}

-- The size of a generation, twice that of the one before.
unfoldable pub gen_size : ℕ → ℕ
gen_size zero = nursery_size
gen_size (suc j) = 2 * gen_size j

-- Whether a word points into one of the first `n` generations.
unfoldable pub points_into_heap : Heap → ℕ → ℕ → Bool
points_into_heap h zero v = false
points_into_heap h (suc n) v =
    points_into (h.spaces n).start (h.spaces n).limit v || points_into_heap h n v

-- What a mutator sees through all generations: a word to depth `k`, and where a path leads.
abbrev pub heap_view : ℕ → Mem → Heap → ℕ → View
heap_view k m h v = view_through (points_into_heap h max_spaces) k m v

abbrev pub heap_follow : Mem → Heap → List ℕ → ℕ → Option ℕ
heap_follow m h path v = follow_through (points_into_heap h max_spaces) m path v

-- Through the roots a mutator sees the same in two heaps: every root reads the same to every depth,
-- and two paths from roots reach one object in the one heap exactly if they do in the other.
pub record SameSight (T : ℕ → Type 0) (m : Mem) (h : Heap) (m' : Mem) (h' : Heap) : Type 0 where
  pub views : (q k : ℕ) → T q → heap_view k m' h' (m' q) ≡ heap_view k m h (m q)
  pub objects :
      (q r : ℕ) (path path' : List ℕ)
      → T q
      → T r
      → SameObject (heap_follow m h path (m q)) (heap_follow m h path' (m r))
        ↔ SameObject (heap_follow m' h' path (m' q)) (heap_follow m' h' path' (m' r))

-- No call of `malloc` from the given one on gives an area that holds the word with index `y`.
abbrev pub Unborn : (ℕ → ℕ → Option ℕ) → ℕ → ℕ → Type 0
Unborn malloc calls y =
    (call bytes p : ℕ) → calls ≤ call → malloc call bytes ≡ some p → (y < p) ⊎ (p + bytes / 8 ≤ y)

-- What is documented of `malloc`: it gives NULL or an area that overlaps none that it gave before,
-- which does not start at 0. (Nothing is freed while a heap is collected.)
pub record MallocOk (malloc : ℕ → ℕ → Option ℕ) : Type 0 where
  pub not_null : (call bytes p : ℕ) → malloc call bytes ≡ some p → p ≢ 0
  pub apart :
      (call bytes p call' bytes' p' : ℕ)
      → call < call'
      → malloc call bytes ≡ some p
      → malloc call' bytes' ≡ some p'
      → (p + bytes / 8 ≤ p') ⊎ (p' + bytes' / 8 ≤ p)

-- A word outside the first `g` generations and all later areas.
pub record Foreign (malloc : ℕ → ℕ → Option ℕ) (h : Heap) (g calls y : ℕ) : Type 0 where
  pub apart : (l : ℕ) → l < g → (y < (h.spaces l).start) ⊎ ((h.spaces l).limit ≤ y)
  pub unborn : Unborn malloc calls y

-- `v` points to the first field of a block in a generation from the `j`th on.
pub record Inside (h : Heap) (g : ℕ) (sizes : ℕ → List ℕ) (j v : ℕ) : Type 0 where
  pub gen : ℕ
  pub above : j ≤ gen
  pub created : gen < g
  pub past : (h.spaces gen).start < index v
  pub header : IsHeader (h.spaces gen).start (sizes gen) (index v - 1)

-- A word that the `j`th generation may hold: no pointer, or a pointer to a block that is not younger,
-- or to something that is not in the heap.
abbrev pub Fine : (ℕ → ℕ → Option ℕ) → Heap → ℕ → (ℕ → List ℕ) → ℕ → ℕ → ℕ → Type 0
Fine malloc h g sizes calls j v =
    is_block v ≡ true → Inside h g sizes j v ⊎ Foreign malloc h g calls (index v)

-- The invariant of a heap of which the generations below the `i`th have been collected. `T` holds at
-- the locations of the roots.
pub record HeapInv (malloc : ℕ → ℕ → Option ℕ) (T : ℕ → Type 0) (i : ℕ) (h : Heap) (w : World)
    : Type 0 where
  pub gens : ℕ
  pub sizes : ℕ → List ℕ
  pub most : gens ≤ max_spaces
  pub reached : i < gens
  pub created : (j : ℕ) → j < gens → (h.spaces j).start ≢ 0
  pub others : (j : ℕ) → gens ≤ j → h.spaces j ≡ no_space_yet
  pub extent : (j : ℕ) → j < gens → (h.spaces j).limit ≡ (h.spaces j).start + gen_size j
  pub low : (j : ℕ) → j < gens → (h.spaces j).start ≤ (h.spaces j).next
  pub high : (j : ℕ) → j < gens → (h.spaces j).next ≤ (h.spaces j).limit
  pub apart :
      (j l : ℕ)
      → j < gens
      → l < gens
      → j ≢ l
      → ((h.spaces j).limit ≤ (h.spaces l).start) ⊎ ((h.spaces l).limit ≤ (h.spaces j).start)
  pub unborn :
      (j y : ℕ)
      → j < gens
      → (h.spaces j).start ≤ y
      → y < (h.spaces j).limit
      → Unborn malloc w.mallocs y
  pub blocks : (j : ℕ) → j < gens → Blocks w.mem (h.spaces j).start (sizes j) (h.spaces j).next
  pub fields :
      (j x : ℕ)
      → j < gens
      → IsHeader (h.spaces j).start (sizes j) x
      → no_scan (tag_hd (w.mem x)) ≡ false
      → (k : ℕ) → k < wosize_hd (w.mem x)
      → Fine malloc h gens sizes w.mallocs j (w.mem (x + 1 + k))
  pub empty : (j : ℕ) → j < i → (h.spaces j).next ≡ (h.spaces j).start
  pub room :
      (j : ℕ)
      → suc j < gens
      → suc j ≢ i
      → (h.spaces (suc j)).next + gen_size j ≤ (h.spaces (suc j)).limit
  pub roots_at : (q : ℕ) → T q → Foreign malloc h gens w.mallocs q
  pub roots : (q : ℕ) → T q → Fine malloc h gens sizes w.mallocs i (w.mem q)
