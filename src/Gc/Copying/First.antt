-- ===== src/Gc/Copying/First.antt =====
-- A collection with one root, as `export` of theories/Runtime/gc.c does: the block of that root is
-- copied first, so that its copy stands at the start of the free part of to-space.
use certicoq.Prelude.{
  ℕ, ◌+◌, ◌-◌, ◌<◌, ◌≡◌, ◌≢◌, refl, true, false, arith, ap, ◌∙◌, sym, List, leb, ◌==◌, lt→ltb,
}
use certicoq.Words.{index, pointer, wosize_hd}
use certicoq.Memory.{Mem, write}
use certicoq.Run.{Run, out_of_fuel, abort, ok}
use certicoq.Gc.{
  Copy, Space, FunInfo, do_generation, forward, forward_roots, forward_root_slots, copy_block,
  depth,
}
use certicoq.Gc.Copying.{Spaces, Good, WellFormed, from_block, relocate}
use certicoq.Gc.Copying.Facts.{bounds, relocate_block}
use certicoq.Gc.Copying.Sweep.{Outside}
use certicoq.Gc.Copying.Roots.{IsRoot}
use certicoq.Gc.Copying.Slots.{root, root_count, slots, IsRoot-root, roots_forwarded}
use certicoq.Gc.Copying.Collects.{collection, Finished}
use certicoq.Gc.Copying.Result.{Ready}
use certicoq.Gc.Copying.Scan.{do_scan-Swept}

live_header : (hd : ℕ) → 0 < wosize_hd hd → (hd == 0) ≡ false
unfolding wosize_hd
live_header hd pos = ground arith

marked :
    (m : Mem) (a q n : ℕ)
    → 0 < a
    → a - 1 ≢ q
    → write (write (write m (a - 1) 0) a n) q n (a - 1) ≡ 0
unfolding write
marked m a q n pos ne = ground arith

addressed :
    (m : Mem) (a q n : ℕ) → 0 < a → write (write (write m (a - 1) 0) a n) q n (a - 1 + 1) ≡ n
unfolding write
addressed m a q n pos = ground arith

module _ (S : Spaces) (wf : WellFormed S) (q : ℕ) (out : Outside S q) (good : Good S (S.m0 q))
    (b : from_block S (S.m0 q) ≡ true) where
  open S use {m0, fs, fl, p0}

  abbrev v : ℕ
  v = m0 q

  abbrev first_copy : Copy
  first_copy = forward fs fl depth q (record { mem = m0; next = p0 })

  -- The block is marked, and holds the address of its copy.
  forward_first :
      (first_copy.mem (index v - 1) ≡ 0) × (first_copy.mem (index v - 1 + 1) ≡ pointer (p0 + 1))
  unfolding forward copy_block
  forward_first =
      let (above, h) = good.block b in
      let within = bounds S wf (index v - 1) h in
      let live : (m0 (index v - 1) == 0) ≡ false = live_header (m0 (index v - 1)) within.2 in
      rw (b, live)
        (
          marked _ (index v) q _ (omega arith) (omega (arith, out.0, wf.within)),
          addressed _ (index v) q _ (omega arith),
        )

value_or {ℓ} : {A : Type ℓ} → A → Run A → A
value_or a (ok x) = x
value_or a out_of_fuel = a
value_or a (abort r) = a

ok-injective {ℓ} : {A : Type ℓ} (a b : A) → ok a ≡ ok b → a ≡ b
unfolding value_or
ok-injective a b e = ap (value_or a) e

module _ (fi : FunInfo) (args : ℕ) (m : Mem) (from to : Space) (sizes : List ℕ)
    (rd : Ready fi args m from to sizes) (one : root_count fi ≡ 1) where
  abbrev S : Spaces
  S = collection m from to sizes

  abbrev q : ℕ
  q = root fi args 0

  abbrev roots : List ℕ
  roots = slots fi args (root_count fi)

  only_root :
      forward_roots from.start from.limit fi args (record { mem = m; next = to.next })
      ≡ ok (forward from.start from.limit depth q (record { mem = m; next = to.next }))
  unfolding forward_roots forward_root_slots
  only_root =
      let holds = lt→ltb _ _ (rd.roots.slot 0 (omega (arith, one))) in
      rw (one, forward_root_slots, holds) refl

  pub collection_first :
      from_block S (m q) ≡ true
      → (fin : Finished (do_generation fi args) (IsRoot roots) m from to sizes) × (fin.mem q
          ≡ pointer (to.next + 1))
  unfolding do_generation
  collection_first b =
      let has : 0 < root_count fi = omega (arith, one) in
      let out = rd.roots.outside 0 has in
      let good = rd.roots.good 0 has in
      let (z, at) = forward_first S rd.formed q out good b in
      let rs = roots_forwarded S rd.formed fi args rd.roots in
      let same = ok-injective rs.result _ (sym rs.returns ∙ only_root) in
      let sw =
        do_scan-Swept S rd.formed (IsRoot roots) (to.limit - to.next) to.next
          (omega (arith, rd.room)) rs.rooted.cells rs.rooted.cells.first in
      let holds : leb (from.next + to.next) (to.limit + from.start) ≡ true =
        ground (arith, rd.room, rd.nonneg) in
      let (above, hx) = good.block b in
      let x = index (m q) - 1 in
      let (z', at') = sw.stays x hx (ap (λ c. c.mem x) same ∙ z) in
      let r = sw.cells.roots q (IsRoot-root fi args (root_count fi) 0 has) in
      let own : sw.orig q ≡ q = sw.cells.inv.outside q out.1 in
      (
        record {
          mem = sw.result.mem;
          next = sw.result.next;
          returns = rw (holds, rs.returns, sw.returns) refl;
          orig = sw.orig;
          cells = sw.cells;
        },
        r.value
            ∙ ap (λ y. relocate S sw.result.mem (m y)) own
            ∙ relocate_block S rd.formed sw.result.mem (m q) b
            ∙ ap sw.result.mem {x = index (m q)} {y = x + 1} (omega arith)
            ∙ at'
            ∙ ap (λ c. c.mem (x + 1)) same
            ∙ at,
      )
