-- ===== src/Gc/Copying/Result.antt =====
-- `do_generation` of theories/Runtime/gc.c from end to end.
use certicoq.Prelude.{ℕ, ◌≢◌, ◌+◌, ◌-◌, ◌≤◌, ◌<◌, ◌≡◌, refl, ◌⊎◌, true, arith, List, leb, ◌↔◌}
use certicoq.Memory.{Mem}
use certicoq.Run.{ok}
use certicoq.Gc.{max_args, Space, FunInfo, Collected, do_generation}
use certicoq.Gc.Graph.{view, follow, SameObject}
use certicoq.Gc.Copying.{Spaces, WellFormed}
use certicoq.Gc.Copying.Roots.{IsRoot}
use certicoq.Gc.Copying.Slots.{
  RootsOk, root, root_count, slots, IsRoot-root, not_IsRoot, roots_forwarded,
}
use certicoq.Gc.Copying.Collects.{collection, Finished, Collects}
use certicoq.Gc.Copying.After.{root_view, root_follow}
use certicoq.Gc.Copying.Scan.{do_scan-Swept}

module _ (fi : FunInfo) (args : ℕ) (m : Mem) (from to : Space) (sizes : List ℕ) where
  abbrev S : Spaces
  S = collection m from to sizes

  -- What the caller of a collection provides: blocks and roots that are well formed, and as many
  -- free words in to-space as from-space uses.
  pub record Ready : Type 0 where
    pub formed : WellFormed S
    pub roots : RootsOk S fi args
    pub nonneg : from.start ≤ from.next
    pub room : to.next + (from.next - from.start) ≤ to.limit

  finish :
      Ready
      → Finished (do_generation fi args) (IsRoot (slots fi args (root_count fi))) m from to sizes
  unfolding do_generation
  finish rd =
      let rs = roots_forwarded S rd.formed fi args rd.roots in
      let sw =
        do_scan-Swept S rd.formed (IsRoot (slots fi args (root_count fi))) (to.limit - to.next)
          to.next (omega (arith, rd.room)) rs.rooted.cells rs.rooted.cells.first in
      let holds : leb (from.next + to.next) (to.limit + from.start) ≡ true =
        ground (arith, rd.room, rd.nonneg) in
      record {
        mem = sw.result.mem;
        next = sw.result.next;
        returns = rw (holds, rs.returns, sw.returns) refl;
        orig = sw.orig;
        cells = sw.cells;
      }

  module _ (rd : Ready) where
    done : Finished (do_generation fi args) (IsRoot (slots fi args (root_count fi))) m from to sizes
    done = finish rd

    abbrev roots : List ℕ
    roots = slots fi args (root_count fi)

    live : (i : ℕ) → i < root_count fi → IsRoot roots (root fi args i)
    live = IsRoot-root fi args (root_count fi)

    -- All of it about one result, for the callers of a collection.
    pub record Collection : Type 0 where
      pub result : Collected
      pub returns : do_generation fi args m from to ≡ ok result
      pub low : to.next ≤ result.to.next
      pub high : result.to.next ≤ to.next + (from.next - from.start)
      pub limit : result.to.limit ≡ to.limit
      pub emptied : result.from ≡ record from { next = from.start }
      pub views :
          (i k : ℕ)
          → i < root_count fi
          → view k result.mem to.next result.to.next (result.mem (root fi args i))
            ≡ view k m from.start from.limit (m (root fi args i))

    pub do_generation-Collection : Collection
    do_generation-Collection = record {
      result = _;
      returns = done.returns;
      low = done.cells.low;
      high = omega (arith, done.cells.inv.room);
      limit = refl;
      emptied = refl;
      views = λ i k lt.
          root_view S rd.formed roots done.orig _ done.cells k (root fi args i) (live i lt);
    }

    -- A collection of a well-formed generation into one with room returns: its assertion holds, no
    -- loop runs on, and it copies no more words than from-space used.
    pub do_generation-returns :
        (r : Collected) × (do_generation fi args m from to ≡ ok r)
        × (to.next ≤ r.to.next)
        × (r.to.next ≤ to.next + (from.next - from.start))
        × (r.to.limit ≡ to.limit)
        × (r.from ≡ record from { next = from.start })
    do_generation-returns =
        (_, done.returns, done.cells.low, omega (arith, done.cells.inv.room), refl, refl)

    -- A collection changes memory only in from-space, in the words of to-space that it needs, and at
    -- the roots.
    pub do_generation-frame :
        (y : ℕ)
        → (y < from.start) ⊎ (from.limit ≤ y)
        → (y < to.next) ⊎ (to.next + (from.next - from.start) ≤ y)
        → ((i : ℕ) → i < root_count fi → y ≢ root fi args i)
        → (r : Collected) × (do_generation fi args m from to ≡ ok r) × (r.mem y ≡ m y)
    do_generation-frame y f t n =
        (_, done.returns, done.cells.frame y (f, t) (not_IsRoot fi args y (root_count fi) n))

    -- Every root reads the same after the collection as before, to any depth: immediate words,
    -- pointers to other spaces, headers, fields that are not scanned, and the blocks below.
    pub do_generation-view :
        (i k : ℕ)
        → i < root_count fi
        → (r : Collected) × (do_generation fi args m from to ≡ ok r)
          × (view k r.mem to.next r.to.next (r.mem (root fi args i))
              ≡ view k m from.start from.limit (m (root fi args i)))
    do_generation-view i k lt = (
      _,
      done.returns,
      root_view S rd.formed roots done.orig _ done.cells k (root fi args i) (live i lt),
    )

    -- Two paths from roots lead to one object after the collection exactly if they did before.
    pub do_generation-follow :
        (i j : ℕ) (p q : List ℕ)
        → i < root_count fi
        → j < root_count fi
        → (r : Collected) × (do_generation fi args m from to ≡ ok r)
          × (SameObject
                (follow m from.start from.limit p (m (root fi args i)))
                (follow m from.start from.limit q (m (root fi args j)))
              ↔ SameObject
                  (follow r.mem to.next r.to.next p (r.mem (root fi args i)))
                  (follow r.mem to.next r.to.next q (r.mem (root fi args j))))
    do_generation-follow i j p q li lj = (
      _,
      done.returns,
      root_follow S rd.formed roots done.orig _ done.cells (root fi args i) (root fi args j) p q
          (live i li) (live j lj),
    )

-- The collector with the roots that a function's array gives.
pub do_generation-Collects :
    (fi : FunInfo) (args : ℕ)
    → ((i : ℕ) → i < root_count fi → fi (i + 2) < max_args)
    → Collects (do_generation fi args) (IsRoot (slots fi args (root_count fi)))
do_generation-Collects fi args slot = record {
  collect = λ m from to sizes wf ok_root nonneg room. finish fi args m from to sizes (record {
    formed = wf;
    roots = record {
      slot = slot;
      outside = λ i lt. (ok_root _ (IsRoot-root fi args (root_count fi) i lt)).0;
      good = λ i lt. (ok_root _ (IsRoot-root fi args (root_count fi) i lt)).1;
    };
    nonneg = nonneg;
    room = room;
  });
}
