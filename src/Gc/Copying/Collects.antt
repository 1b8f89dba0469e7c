-- ===== src/Gc/Copying/Collects.antt =====
-- What the generations of a heap need of a collector: that it empties one space into another, whose
-- free words are as many as are used, and forwards its roots.
use certicoq.Prelude.{ℕ, ◌+◌, ◌-◌, ◌≤◌, ◌≡◌, List}
use certicoq.Memory.{Mem}
use certicoq.Run.{Run, ok}
use certicoq.Gc.{Space, Collected}
use certicoq.Gc.Copying.{Spaces, Good, WellFormed}
use certicoq.Gc.Copying.Sweep.{Cells, Outside}

-- The spaces of a collection of `from` into `to`: as many words of `to` are needed as `from` uses.
abbrev pub collection : Mem → Space → Space → List ℕ → Spaces
collection m from to sizes = record {
  m0 = m;
  fs = from.start;
  fl = from.limit;
  e = from.next;
  sizes = sizes;
  p0 = to.next;
  tl = to.next + (from.next - from.start);
}

-- A collection that has returned, and the final state of every word.
pub record Finished (generation : Mem → Space → Space → Run Collected) (T : ℕ → Type 0) (m : Mem)
    (from to : Space) (sizes : List ℕ) : Type 0 where
  pub mem : Mem
  pub next : ℕ
  pub returns :
      generation m from to
      ≡ ok (record {
        mem = mem;
        from = record from { next = from.start };
        to = record to { next = next };
      })
  pub orig : ℕ → ℕ
  pub cells : Cells (collection m from to sizes) T orig (record { mem = mem; next = next }) next

-- The interface. `T` holds at the locations of the roots.
pub record Collects (generation : Mem → Space → Space → Run Collected) (T : ℕ → Type 0)
    : Type 0 where
  pub collect :
      (m : Mem) (from to : Space) (sizes : List ℕ)
      → WellFormed (collection m from to sizes)
      → ((q : ℕ)
          → T q
          → Outside (collection m from to sizes) q × Good (collection m from to sizes) (m q))
      → from.start ≤ from.next
      → to.next + (from.next - from.start) ≤ to.limit
      → Finished generation T m from to sizes
