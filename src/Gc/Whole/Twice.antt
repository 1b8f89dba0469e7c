-- ===== src/Gc/Whole/Twice.antt =====
-- The two collections of `export` of theories/Runtime/gc.c: the last generation into a new area, and
-- that into a second one, with one root.
use mathlib.Core.Path.{ap₂, transport}
use certicoq.Prelude.{
  ◌↔◌, ◌<◌, ◌⊎◌, inl, inr, ℕ, suc, ◌+◌, ◌-◌, ◌≤◌, ◌≡◌, refl, true, arith, ap, ◌∙◌, sym, Option,
  List,
}
use certicoq.Words.{index, pointer, to_int, unsigned}
use certicoq.Gc.{Copy, Space, do_generation, max_spaces}
use certicoq.Gc.Heap.{Heap, World, fake_fi}
use certicoq.Gc.Layout.{points_into, points_into_bounds, points_into-pointer}
use certicoq.Gc.Graph.{view, follow, SameObject}
use certicoq.Gc.Copying.{Spaces, Good, WellFormed, from_block}
use certicoq.Gc.Copying.Facts.{bounds}
use certicoq.Gc.Copying.Finish.{Home, Home-of}
use certicoq.Gc.Copying.After.{root_view, root_follow, root-relocate}
use certicoq.Gc.Copying.Again.{Avoids, again-WellFormed, again-Good, view-used, follow-used}
use certicoq.Gc.Copying.Chain.{copies-Chain}
use certicoq.Gc.Copying.Collects.{collection, Finished}
use certicoq.Gc.Copying.First.{collection_first}
use certicoq.Gc.Copying.Result.{Ready}
use certicoq.Gc.Copying.Roots.{IsRoot}
use certicoq.Gc.Copying.Sweep.{Outside}
use certicoq.Gc.Copying.Slots.{root, root_count, slots, IsRoot-root}
use certicoq.Gc.Generations.{HeapInv, heap_view, points_into_heap, heap_follow}
use certicoq.Gc.Generations.Facts.{points-is_block, header_within}
use certicoq.Gc.Generations.Fresh.{
  Area, space_of, fresh-WellFormed, fresh_roots, second-Avoids, second_roots,
}
use certicoq.Gc.Generations.Last.{last_agree, last_view, last_follow, last_block}

-- `export` forwards the word `args[1]` alone.
abbrev pub ExportRoot : ℕ → ℕ → Type 0
ExportRoot args = IsRoot (slots fake_fi args (root_count fake_fi))

abbrev pub export_root : ℕ → ℕ
export_root args = root fake_fi args 0

pub one_root : root_count fake_fi ≡ 1
unfolding to_int unsigned
one_root = refl

pub is_root : (args : ℕ) → ExportRoot args (export_root args)
is_root args = IsRoot-root fake_fi args (root_count fake_fi) 0 (omega (arith, one_root))

module _ (malloc : ℕ → ℕ → Option ℕ) (args i : ℕ) (h : Heap) (w : World)
    (inv : HeapInv malloc (ExportRoot args) i h w) (last : inv.gens ≡ suc i)
    (points : points_into_heap h max_spaces (w.mem (export_root args)) ≡ true) where
  abbrev pub sp : Space
  sp = h.spaces i

  abbrev q : ℕ
  q = export_root args

  into_last : points_into sp.start sp.limit (w.mem q) ≡ true
  into_last =
      sym
        (last_agree malloc (ExportRoot args) i h w inv last (w.mem q) (inv.roots q (is_root args)))
      ∙ points

  -- So that generation is not empty.
  pub used_words : sp.start < sp.next
  used_words =
      let b = points-is_block sp.start sp.limit (w.mem q) into_last in
      elim (inv.roots q (is_root args) b) [
        | inr foreign ↦ absurd (
            omega (
              arith,
              foreign.apart i inv.reached,
              points_into_bounds sp.start sp.limit (w.mem q) into_last,
            ))
        | inl ins ↦
            let (above, k) = last_block malloc (ExportRoot args) i h w inv last (w.mem q) ins in
            omega (
              arith,
              header_within malloc (ExportRoot args) i h w inv i (index (w.mem q) - 1) inv.reached
                  k,
            )
      ]

  module _ (p : ℕ) (area : Area malloc w.mallocs p (sp.next - sp.start)) where
    abbrev pub to : Space
    to = space_of p (sp.next - sp.start)

    abbrev pub S1 : Spaces
    S1 = collection w.mem sp to (inv.sizes i)

    pub wf1 : WellFormed S1
    wf1 = fresh-WellFormed malloc (ExportRoot args) i h w inv last p area

    ready1 : Ready fake_fi args w.mem sp to (inv.sizes i)
    ready1 = record {
      formed = wf1;
      roots = record {
        slot = λ j lt. ground arith;
        outside = λ j lt.
            (fresh_roots malloc (ExportRoot args) i h w inv last p area _
              (IsRoot-root fake_fi args (root_count fake_fi) j lt)).0;
        good = λ j lt.
            (fresh_roots malloc (ExportRoot args) i h w inv last p area _
              (IsRoot-root fake_fi args (root_count fake_fi) j lt)).1;
      };
      nonneg = inv.low i inv.reached;
      room = omega arith;
    }

    pub first :
        (fin : Finished (do_generation fake_fi args) (ExportRoot args) w.mem sp to (inv.sizes i))
        × (fin.mem q ≡ pointer (p + 1))
    first = collection_first fake_fi args w.mem sp to (inv.sizes i) ready1 one_root into_last

    abbrev pub fin1 :
        Finished (do_generation fake_fi args) (ExportRoot args) w.mem sp to (inv.sizes i)
    fin1 = first.0

    abbrev pub c1 : Copy
    c1 = record { mem = fin1.mem; next = fin1.next }

    home : Home S1 wf1 (ExportRoot args) fin1.orig c1 fin1.cells (w.mem q)
    home =
        Home-of S1 wf1 (ExportRoot args) fin1.orig c1 fin1.cells (w.mem q)
          (fin1.cells.good q (is_root args)).1
          (root-relocate S1 wf1 (slots fake_fi args (root_count fake_fi)) fin1.orig c1 fin1.cells q
            (is_root args)).1
          into_last

    -- The first area holds a copy, and no more than it has room for.
    pub first_words : (p + 2 ≤ fin1.next) × (fin1.next ≤ p + (sp.next - sp.start))
    first_words =
        omega (arith, home.lower, home.upper, bounds S1 wf1 home.x home.header, fin1.cells.inv.room)

    pub first_view :
        (k : ℕ) → view k fin1.mem p fin1.next (fin1.mem q) ≡ heap_view k w.mem h (w.mem q)
    first_view k =
        root_view S1 wf1 (slots fake_fi args (root_count fake_fi)) fin1.orig c1 fin1.cells k q
          (is_root args)
        ∙ sym (
            last_view malloc (ExportRoot args) i h w inv last k (w.mem q)
              (inv.roots q (is_root args)))

    module _ (p' : ℕ) (area' : Area malloc w.mallocs p' (fin1.next - p))
        (other : (p + (sp.next - sp.start) ≤ p') ⊎ (p' + (fin1.next - p) ≤ p)) where
      abbrev pub from' : Space
      from' = record { start = p; next = fin1.next; limit = p + (sp.next - sp.start) }

      abbrev pub to' : Space
      to' = space_of p' (fin1.next - p)

      avoids : Avoids S1 p' (p' + (fin1.next - p))
      avoids =
          second-Avoids malloc (ExportRoot args) i h w inv last p area p' (fin1.next - p) area'
            other

      abbrev pub copies : List ℕ
      copies = (copies-Chain S1 wf1 (ExportRoot args) fin1.orig c1 fin1.cells).copies

      abbrev S2 : Spaces
      S2 = collection fin1.mem from' to' copies

      wf2 : WellFormed S2
      wf2 =
          again-WellFormed S1 wf1 (ExportRoot args) fin1.orig c1 fin1.cells p'
            (p' + (fin1.next - p)) avoids (omega arith)

      root-Good : (y : ℕ) → ExportRoot args y → Outside S2 y × Good S2 (fin1.mem y)
      root-Good y t =
          let (out, _) = fresh_roots malloc (ExportRoot args) i h w inv last p area y t in
          let (away, elsewhere) =
            second_roots malloc (ExportRoot args) i h w inv last p area p' (fin1.next - p) area'
              other y t in
          (
            (out.1, away),
            again-Good S1 wf1 (ExportRoot args) fin1.orig c1 fin1.cells p' (p' + (fin1.next - p))
                avoids (omega arith) y t elsewhere,
          )

      ready2 : Ready fake_fi args fin1.mem from' to' copies
      ready2 = record {
        formed = wf2;
        roots = record {
          slot = λ j lt. ground arith;
          outside = λ j lt. (root-Good _ (IsRoot-root fake_fi args (root_count fake_fi) j lt)).0;
          good = λ j lt. (root-Good _ (IsRoot-root fake_fi args (root_count fake_fi) j lt)).1;
        };
        nonneg = omega (arith, first_words);
        room = omega arith;
      }

      into_first : from_block S2 (fin1.mem q) ≡ true
      into_first =
          ap (from_block S2) first.1
          ∙ points_into-pointer p (p + (sp.next - sp.start)) (p + 1) (omega arith)
              (omega (arith, first_words))

      pub second :
          (fin : Finished (do_generation fake_fi args) (ExportRoot args) fin1.mem from' to' copies)
          × (fin.mem q ≡ pointer (p' + 1))
      second = collection_first fake_fi args fin1.mem from' to' copies ready2 one_root into_first

      abbrev pub fin2 :
          Finished (do_generation fake_fi args) (ExportRoot args) fin1.mem from' to' copies
      fin2 = second.0

      -- The second copy reads as the word did.
      pub second_view :
          (k : ℕ) → view k fin2.mem p' fin2.next (pointer (p' + 1)) ≡ heap_view k w.mem h (w.mem q)
      second_view k =
          ap (view k fin2.mem p' fin2.next) (sym second.1)
          ∙ root_view S2 wf2 (slots fake_fi args (root_count fake_fi)) fin2.orig
              (record { mem = fin2.mem; next = fin2.next }) fin2.cells k q (is_root args)
          ∙ sym (view-used S2 wf2 k (fin1.mem q) (root-Good q (is_root args)).1)
          ∙ first_view k

      -- Its paths meet where the paths of the word did.
      pub second_objects :
          (path path' : List ℕ)
          → SameObject (heap_follow w.mem h path (w.mem q)) (heap_follow w.mem h path' (w.mem q))
            ↔ SameObject
                (follow fin2.mem p' fin2.next path (pointer (p' + 1)))
                (follow fin2.mem p' fin2.next path' (pointer (p' + 1)))
      second_objects path path' =
          let roots = slots fake_fi args (root_count fake_fi) in
          let t = is_root args in
          let in_heap = λ (l : List ℕ).
            last_follow malloc (ExportRoot args) i h w inv last l (w.mem q) (inv.roots q t) in
          let one = root_follow S1 wf1 roots fin1.orig c1 fin1.cells q q path path' t t in
          let used = λ (l : List ℕ). follow-used S2 wf2 l (fin1.mem q) (root-Good q t).1 in
          let two =
            root_follow S2 wf2 roots fin2.orig (record { mem = fin2.mem; next = fin2.next })
              fin2.cells q q path path' t t in
          rw (in_heap path, in_heap path', ← second.1)
            (
              (λ a. two.0 (transport (ap₂ SameObject (used path) (used path')) (one.0 a))),
              λ b. one.1 (transport (sym (ap₂ SameObject (used path) (used path'))) (two.1 b)),
            )
