-- ===== src/Gc/Generations/Write.antt =====
-- A write to a root keeps the invariant of a heap.
use mathlib.Core.Path.{subst}
use certicoq.Prelude.{
  ℕ, ◌+◌, ◌≤◌, ◌<◌, ◌≡◌, refl, inl, inr, false, arith, ap, ◌∙◌, sym, Option, Bool-cases, ◌==◌,
}
use certicoq.Words.{wosize_hd, tag_hd}
use certicoq.Memory.{write}
use certicoq.Gc.{no_scan}
use certicoq.Gc.Heap.{Heap, World}
use certicoq.Gc.Layout.{IsHeader}
use certicoq.Gc.Layout.Append.{Blocks-agree}
use certicoq.Gc.Generations.{Fine, HeapInv}
use certicoq.Gc.Generations.Facts.{header_within}

module _ (malloc : ℕ → ℕ → Option ℕ) (T : ℕ → Type 0) (h : Heap) (w : World)
    (inv : HeapInv malloc T 0 h w) (q v : ℕ) (at : T q)
    (fine : Fine malloc h inv.gens inv.sizes w.mallocs 0 v) where
  open inv use {gens, sizes}

  kept :
      (j y : ℕ)
      → j < gens
      → (h.spaces j).start ≤ y
      → y < (h.spaces j).next
      → write w.mem q v y ≡ w.mem y
  unfolding write
  kept j y c l u =
      let apart : (y == q) ≡ false = ground (arith, (inv.roots_at q at).apart j c, inv.high j c) in
      rw apart refl

  kept_field :
      (j x : ℕ)
      → j < gens
      → IsHeader (h.spaces j).start (sizes j) x
      → no_scan (tag_hd (write w.mem q v x)) ≡ false
      → (k : ℕ) → k < wosize_hd (write w.mem q v x)
      → Fine malloc h gens sizes w.mallocs j (write w.mem q v (x + 1 + k))
  kept_field j x c hd scan k lt =
      let b = header_within malloc T 0 h w inv j x c hd in
      let same : write w.mem q v x ≡ w.mem x = kept j x c (omega arith) (omega arith) in
      let size : wosize_hd (write w.mem q v x) ≡ wosize_hd (w.mem x) = ap wosize_hd same in
      let word = kept j (x + 1 + k) c (omega arith) (omega arith) in
      subst (Fine malloc h gens sizes w.mallocs j) (sym word)
        (inv.fields j x c hd (sym (ap (λ t. no_scan (tag_hd t)) same) ∙ scan) k (omega arith))

  root_word : (r : ℕ) → T r → Fine malloc h gens sizes w.mallocs 0 (write w.mem q v r)
  unfolding write
  root_word r t = elim (Bool-cases (r == q)) [ inl e ↦ rw e fine | inr n ↦ rw n (inv.roots r t) ]

  pub HeapInv-write : HeapInv malloc T 0 h (record w { mem = write w.mem q v })
  HeapInv-write = record {
    gens = gens;
    sizes = sizes;
    most = inv.most;
    reached = inv.reached;
    created = inv.created;
    others = inv.others;
    extent = inv.extent;
    low = inv.low;
    high = inv.high;
    apart = inv.apart;
    unborn = inv.unborn;
    blocks = λ j c.
        Blocks-agree w.mem (write w.mem q v) _ _ _ (inv.blocks j c) (λ y l u. kept j y c l u);
    fields = kept_field;
    empty = inv.empty;
    room = inv.room;
    roots_at = inv.roots_at;
    roots = root_word;
  }
