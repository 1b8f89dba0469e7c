-- ===== src/Gc/Generations/Nursery.antt =====
-- The nursery before and after a collection: the mutator has used it up to `alloc`, and finds it empty.
use mathlib.Core.Path.{fun_ext, subst}
use certicoq.Prelude.{ℕ, zero, suc, ◌+◌, ◌≡◌, refl, ap, sym, Option, arith}
use certicoq.Gc.{Space, nursery_size}
use certicoq.Gc.Heap.{Heap, World, set_space}
use certicoq.Gc.Generations.{gen_size, HeapInv}
use certicoq.Gc.Generations.Ensure.{Progress}

-- The heap as the mutator has left it.
abbrev pub mutator_heap : Heap → ℕ → Heap
mutator_heap h alloc = set_space h 0 (record (h.spaces 0) { next = alloc })

pub base_extent :
    {malloc : ℕ → ℕ → Option ℕ} {T : ℕ → Type 0} {i : ℕ} {h : Heap} {w : World}
    → HeapInv malloc T i h w
    → (h.spaces 0).limit ≡ (h.spaces 0).start + nursery_size
unfolding gen_size
base_extent inv = inv.extent 0 (omega (arith, inv.reached))

with_spaces : (ℕ → Space) → Heap
with_spaces f = record { spaces = f }

mutator_heap_same : (h : Heap) (a : ℕ) → (h.spaces 0).next ≡ a → mutator_heap h a ≡ h
unfolding with_spaces
mutator_heap_same h a e = ap with_spaces (fun_ext each)
  where
    each : (j : ℕ) → (mutator_heap h a).spaces j ≡ h.spaces j
    each zero = rw (← e) refl
    each (suc j) = ground arith

-- A heap whose nursery is empty is as a mutator that has used nothing of it leaves it.
pub restarted :
    (malloc : ℕ → ℕ → Option ℕ) (T : ℕ → Type 0) (h0 : Heap) (w0 : World) (g a : ℕ) (h : Heap)
    (w : World) (inv : HeapInv malloc T 0 h w)
    → (h.spaces 0).next ≡ a
    → Progress malloc T h0 w0 g h w inv.gens
    → (x : HeapInv malloc T 0 (mutator_heap h a) w) × Progress malloc T h0 w0 g h w x.gens
restarted malloc T h0 w0 g a h w inv e p =
    subst (λ t. (x : HeapInv malloc T 0 t w) × Progress malloc T h0 w0 g h w x.gens)
      (sym (mutator_heap_same h a e)) (inv, p)
