-- ===== src/Gc/Minor.antt =====
-- `garbage_collect` of theories/Runtime/gc.c where the next generation has room for two nurseries,
-- so that it collects the nursery alone.
use certicoq.Prelude.{
  ℕ, ◌+◌, ◌-◌, ◌^◌, ◌≤◌, ◌<◌, ◌≡◌, ◌≢◌, ap, true, false, arith, Option, some, List, ltb, leb, ◌==◌,
}
use certicoq.Run.{ok}
use certicoq.Gc.{Space, FunInfo}
use certicoq.Gc.Heap.{
  Heap, ThreadInfo, World, pointer_diff, set_space, resume, ensure_space, collect_into_next,
  collect_loop, garbage_collect,
}
use certicoq.Gc.Graph.{view}
use certicoq.Gc.Copying.Slots.{root, root_count}
use certicoq.Gc.Copying.Result.{Ready, do_generation-Collection}

-- The nursery as the collector finds it.
abbrev pub nursery : Heap → ThreadInfo → Space
nursery h ti = record (h.spaces 0) { next = ti.alloc }

-- What the mutator and the heap provide for a collection of the nursery.
pub record MinorReady (fi : FunInfo) (ti : ThreadInfo) (h : Heap) (w : World) (sizes : List ℕ)
    : Type 0 where
  pub heap : ti.heap ≡ some h
  pub limit : (h.spaces 0).limit ≡ ti.limit
  pub created : (h.spaces 1).start ≢ 0
  pub ready : Ready fi ti.args w.mem (nursery h ti) (h.spaces 1) sizes
  pub ordered : (h.spaces 0).start ≤ (h.spaces 0).limit
  pub bounded : (h.spaces 0).limit < 2 ^ 64
  pub asked : (h.spaces 0).start + fi 0 ≤ (h.spaces 0).limit
  pub room :
      (h.spaces 1).next
        + (ti.alloc - (h.spaces 0).start)
        + ((h.spaces 0).limit - (h.spaces 0).start)
      ≤ (h.spaces 1).limit

-- It returns with the whole nursery free, which is at least what was asked for, and every root reads
-- in the next generation as it read in the nursery, to every depth.
pub garbage_collect-MinorReady :
    (malloc : ℕ → ℕ → Option ℕ) (fi : FunInfo) (ti : ThreadInfo) (h : Heap) (w : World)
    (sizes : List ℕ)
    → MinorReady fi ti h w sizes
    → (h' : Heap) × (w' : World) × (garbage_collect malloc fi ti w
        ≡ ok (
          record ti { alloc = (h.spaces 0).start; limit = (h.spaces 0).limit; heap = some h' },
          w',
        ))
      × ((h.spaces 0).start + fi 0 ≤ (h.spaces 0).limit)
      × ((h'.spaces 0).next ≡ (h.spaces 0).start)
      × ((i k : ℕ)
          → i < root_count fi
          → view k w'.mem (h.spaces 1).next (h'.spaces 1).next (w'.mem (root fi ti.args i))
            ≡ view k w.mem (h.spaces 0).start (h.spaces 0).limit (w.mem (root fi ti.args i)))
unfolding garbage_collect collect_loop ensure_space collect_into_next resume
garbage_collect-MinorReady malloc fi ti h w sizes rd =
    let c = do_generation-Collection fi ti.args w.mem (nursery h ti) (h.spaces 1) sizes rd.ready in
    let same : ((h.spaces 0).limit == ti.limit) ≡ true = ground (arith, rd.limit) in
    let old : ((h.spaces 1).start == 0) ≡ false = ground (arith, rd.created) in
    let lo : c.result.from.start ≡ (h.spaces 0).start = ap (λ (s : Space). s.start) c.emptied in
    let hi : c.result.from.limit ≡ (h.spaces 0).limit = ap (λ (s : Space). s.limit) c.emptied in
    let more : leb (c.result.from.limit + c.result.to.next)
          (c.result.to.limit + c.result.from.start)
        ≡ true =
      ground (arith, lo, hi, c.limit, c.high, rd.room, rd.ordered) in
    let enough : ltb (pointer_diff (h.spaces 0).limit (h.spaces 0).start) (fi 0) ≡ false =
      ground (arith, rd.asked, rd.bounded) in
    (
      set_space (set_space h 0 c.result.from) 1 c.result.to,
      record w { mem = c.result.mem },
      ground (arith, rd.heap, same, old, c.returns, more, lo, hi, enough),
      rd.asked,
      ap (λ (s : Space). s.next) c.emptied,
      c.views,
    )
