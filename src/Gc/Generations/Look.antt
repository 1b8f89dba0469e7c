-- ===== src/Gc/Generations/Look.antt =====
-- One collection within a heap: every word that is forwarded looks as it did, through all
-- generations.
use mathlib.Core.Path.{subst}
use certicoq.Prelude.{
  ℕ, suc, ◌+◌, ◌-◌, ◌≤◌, ◌<◌, ◌≡◌, ◌≢◌, ◌⊎◌, inl, inr, true, Bool, false, arith, ap, ◌∙◌, sym,
  Option, Bool-cases, ◌==◌,
}
use certicoq.Words.{index, pointer, is_block, wosize_hd, tag_hd}
use certicoq.Memory.{Mem}
use certicoq.Run.{Run}
use certicoq.Gc.{Space, Collected, no_scan, max_spaces}
use certicoq.Gc.Heap.{Heap, World}
use certicoq.Gc.Layout.{IsHeader, points_into, points_into_bounds, points_into-pointer}
use certicoq.Gc.Through.Bisim.{Alike}
use certicoq.Gc.Copying.{Spaces, WellFormed, from_block, relocate, Done, size}
use certicoq.Gc.Copying.Facts.{bounds, relocate_other}
use certicoq.Gc.Copying.Finish.{Home-of, home_header, home_plain, home_field}
use certicoq.Gc.Copying.Collects.{Finished}
use certicoq.Gc.Generations.{points_into_heap, Fine, Foreign, Inside, HeapInv}
use certicoq.Gc.Generations.Facts.{
  header_within, same_gen, S, collection_room, Good-of_Fine, collection-WellFormed,
}
use certicoq.Gc.Generations.Points.{
  points_into_beyond, heap_points_true, heap_points_same, heap_points-Inside, heap_points-Foreign,
}
use certicoq.Gc.Generations.Step
use certicoq.Gc.Generations.Step.{points_into_between}

module _ (generation : Mem → Space → Space → Run Collected) (malloc : ℕ → ℕ → Option ℕ)
    (T : ℕ → Type 0) (i : ℕ) (h : Heap) (w : World) (inv : HeapInv malloc T i h w)
    (c : suc i < inv.gens)
    (fin : Finished generation T w.mem (h.spaces i) (h.spaces (suc i)) (inv.sizes i)) where
  open inv use {gens, sizes}

  abbrev S0 : Spaces
  S0 = S malloc T i h w inv c

  abbrev wf : WellFormed S0
  wf = collection-WellFormed malloc T i h w inv c

  abbrev heap' : Heap
  heap' = Step.heap_after generation malloc T i h w inv c fin

  abbrev pub p : ℕ → Bool
  p v = points_into_heap h max_spaces v

  abbrev pub p' : ℕ → Bool
  p' v = points_into_heap heap' max_spaces v

  -- A word that the collection meets, and what it is afterwards.
  pub record Moved (v v' : ℕ) : Type 0 where
    pub fine : Fine malloc h gens sizes w.mallocs i v
    pub done : Done S0 fin.mem v
    pub value : v' ≡ relocate S0 fin.mem v

  same_points : (v : ℕ) → p' v ≡ p v
  same_points v = heap_points_same h heap' max_spaces v (λ l. (
    Step.start_same generation malloc T i h w inv c fin l,
    Step.limit_same generation malloc T i h w inv c fin l,
  ))

  -- A word that points elsewhere stays as it is.
  pub stays : (v : ℕ) → from_block S0 v ≡ false → relocate S0 fin.mem v ≡ v
  stays v n = relocate_other S0 wf fin.mem v n

  pub from-gen :
      (v l : ℕ)
      → l < gens
      → l ≢ i
      → (h.spaces l).start < index v
      → IsHeader (h.spaces l).start (sizes l) (index v - 1)
      → from_block S0 v ≡ false
  from-gen v l cl ne past hd = elim (Bool-cases (from_block S0 v)) [
    | inr n ↦ n
    | inl b ↦
        let k = header_within malloc T i h w inv l (index v - 1) cl hd in
        let r = points_into_bounds (h.spaces i).start (h.spaces i).limit v b in
        absurd (
          ne (
            same_gen malloc T i h w inv l i (index v) cl (omega arith) (omega (arith, past))
              (omega (arith, past, inv.high l cl)) r.0 r.1))
  ]

  not_block-from : (v : ℕ) → is_block v ≡ false → from_block S0 v ≡ false
  not_block-from v n = points_into_beyond _ _ v (inl n)

  pub older_fine :
      (l v : ℕ)
      → i ≤ l
      → Fine malloc h gens sizes w.mallocs l v
      → Fine malloc h gens sizes w.mallocs i v
  older_fine l v le f b = elim (f b) [
    | inr foreign ↦ inr foreign
    | inl ins ↦ inl (record {
      gen = ins.gen;
      above = omega (arith, ins.above);
      created = ins.created;
      past = ins.past;
      header = ins.header;
    })
  ]

  -- A word that an older generation holds is not moved.
  older-Moved : (l v : ℕ) → i < l → Fine malloc h gens sizes w.mallocs l v → Moved v v
  older-Moved l v older f = record {
    fine = older_fine l v (omega arith) f;
    done = λ b. cc away;
    value = sym (stays v away);
  }
    where
      away : from_block S0 v ≡ false
      away = elim (Bool-cases (is_block v)) [
        | inr n ↦ not_block-from v n
        | inl b ↦ elim (f b) [
          | inr foreign ↦ points_into_beyond _ _ v (inr (foreign.apart i (omega arith)))
          | inl ins ↦ from-gen v ins.gen ins.created (omega (arith, ins.above)) ins.past ins.header
        ]
      ]

  plain-Alike :
      (v v' : ℕ)
      → from_block S0 v ≡ false
      → (is_block v ≡ false) ⊎ Foreign malloc h gens w.mallocs (index v)
      → v' ≡ relocate S0 fin.mem v
      → Alike w.mem fin.mem p p' Moved v v'
  plain-Alike v v' n o value =
      let off = heap_points-Foreign malloc T i h w inv v o in
      let e : v' ≡ v = value ∙ stays v n in Alike.plain off (ap p' e ∙ same_points v ∙ off) e

  -- A pointer to a block of the generation that was collected.
  copied-Alike :
      (v v' : ℕ) (ins : Inside h gens sizes i v)
      → is_block v ≡ true
      → from_block S0 v ≡ true
      → Moved v v'
      → Alike w.mem fin.mem p p' Moved v v'
  copied-Alike v v' ins b fb mv =
      let hm =
        Home-of S0 wf T fin.orig _ fin.cells v (Good-of_Fine malloc T i h w inv c v mv.fine) mv.done
          fb in
      let to_home : v' ≡ pointer (hm.home + 1) = mv.value ∙ hm.relocated in
      let hd : w.mem (index v - 1) ≡ w.mem hm.x = ap w.mem (omega (arith, hm.at)) in
      let hd' : fin.mem (index v' - 1) ≡ w.mem hm.x =
        ap fin.mem (omega (arith, to_home)) ∙ home_header S0 wf T fin.orig _ fin.cells hm in
      let here : p v ≡ true = heap_points-Inside malloc T i h w inv i v b ins in
      let there : p v' ≡ true = heap_points_true h max_spaces (suc i) v' (omega (arith, inv.most)) (
        subst (λ a. points_into (h.spaces (suc i)).start (h.spaces (suc i)).limit a ≡ true)
          (sym to_home)
          (points_into-pointer (h.spaces (suc i)).start (h.spaces (suc i)).limit (hm.home + 1)
            (omega (arith, hm.lower, inv.low (suc i) c))
            (omega (
              arith,
              hm.upper,
              fin.cells.inv.room,
              collection_room malloc T i h w inv c,
              bounds S0 wf hm.x hm.header,
            )))) in
      let tag : (b : Bool)
          → no_scan (tag_hd (w.mem (index v - 1))) ≡ b
          → no_scan (tag_hd (w.mem hm.x)) ≡ b =
        λ b n. ap (λ a. no_scan (tag_hd a)) (sym hd) ∙ n in
      let field : (a : ℕ) → fin.mem (index v' + a) ≡ fin.mem (hm.home + (1 + a)) =
        λ a. ap fin.mem (omega (arith, to_home)) in
      let field0 : (a : ℕ) → w.mem (hm.x + (1 + a)) ≡ w.mem (index v + a) =
        λ a. ap w.mem (omega (arith, hm.at)) in
      let less : (a : ℕ) → a < wosize_hd (w.mem (index v - 1)) → a < size S0 hm.x =
        λ a lt. omega (arith, ap wosize_hd hd) in
      Alike.object here (same_points v' ∙ there) (hd' ∙ sym hd)
        (λ n a lt.
          field a
          ∙ home_plain S0 wf T fin.orig _ fin.cells hm a (less a lt) (tag true n)
          ∙ field0 a)
        (λ n a lt.
          let (value, done, good) =
            home_field S0 wf T fin.orig _ fin.cells hm a (less a lt) (tag false n) in
          let at : w.mem (index v - 1 + 1 + a) ≡ w.mem (index v + a) =
            ap w.mem (omega (arith, hm.at)) in
          record {
            fine = rw (← at) (
                older_fine ins.gen _ ins.above
                  (inv.fields ins.gen (index v - 1) ins.created ins.header n a lt));
            done = rw (← field0 a) done;
            value = field a ∙ value ∙ ap (relocate S0 fin.mem) (field0 a);
          })

  -- A pointer to a block of an older one.
  kept-Alike :
      (v : ℕ) (ins : Inside h gens sizes i v)
      → is_block v ≡ true
      → ins.gen ≢ i
      → Alike w.mem fin.mem p p' Moved v v
  kept-Alike v ins b ne =
      let k = header_within malloc T i h w inv ins.gen (index v - 1) ins.created ins.header in
      let same = Step.kept_word generation malloc T i h w inv c fin ins.gen in
      let here : p v ≡ true = heap_points-Inside malloc T i h w inv i v b ins in
      let hd : fin.mem (index v - 1) ≡ w.mem (index v - 1) =
        same (index v - 1) ins.created ne (omega arith) (omega (arith)) in
      let word_same : (a : ℕ)
          → a < wosize_hd (w.mem (index v - 1))
          → fin.mem (index v + a) ≡ w.mem (index v + a) =
        λ a lt.
          same (index v + a) ins.created ne (omega (arith, ins.past)) (omega (arith, ins.past)) in
      Alike.object here (same_points v ∙ here) hd (λ n a lt. word_same a lt)
        (λ n a lt.
          let at : w.mem (index v - 1 + 1 + a) ≡ w.mem (index v + a) =
            ap w.mem (omega (arith, ins.past)) in
          rw (word_same a lt) (
            older-Moved ins.gen (w.mem (index v + a)) (omega (arith, ins.above, ne))
              (rw (← at) (inv.fields ins.gen (index v - 1) ins.created ins.header n a lt))))

  -- Every word that the collection meets looks afterwards as it did.
  pub Moved-Alike : (v v' : ℕ) → Moved v v' → Alike w.mem fin.mem p p' Moved v v'
  Moved-Alike v v' mv = elim (Bool-cases (is_block v)) [
    | inr n ↦ plain-Alike v v' (not_block-from v n) (inl n) mv.value
    | inl b ↦ elim (mv.fine b) [
      | inr foreign ↦
          plain-Alike v v' (points_into_beyond _ _ v (inr (foreign.apart i (omega arith))))
            (inr foreign) mv.value
      | inl ins ↦ elim (Bool-cases (ins.gen == i)) [
        | inl e ↦
            let same : ins.gen ≡ i = ground arith in
            let k = header_within malloc T i h w inv ins.gen (index v - 1) ins.created ins.header in
            copied-Alike v v' ins b
              (points_into_between (h.spaces i).start (h.spaces i).limit v b
                (omega (arith, ap (λ l. (h.spaces l).start) same, ins.past))
                (omega
                  (arith, ap (λ l. (h.spaces l).next) same, inv.high i (omega arith), ins.past)))
              mv
        | inr n ↦
            let ne : ins.gen ≢ i = ground arith in
            let e : v' ≡ v =
              mv.value ∙ stays v (from-gen v ins.gen ins.created ne ins.past ins.header) in
            subst (Alike w.mem fin.mem p p' Moved v) (sym e) (kept-Alike v ins b ne)
      ]
    ]
  ]
