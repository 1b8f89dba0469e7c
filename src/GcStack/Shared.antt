-- ===== src/GcStack/Shared.antt =====
-- The functions of theories/Runtime/gc_stack.c that theories/Runtime/gc.c has with the same text, but
-- for the messages that they print.
use certicoq.Prelude.{ℕ, Bool, Option, List}
use certicoq.Run.{Run}
use certicoq.Gc
use certicoq.Gc.{Space, Copy}
use certicoq.Gc.Heap
use certicoq.Gc.Heap.{Heap, World}

-- `Is_from`
abbrev pub is_from : ℕ → ℕ → ℕ → Bool
is_from = Gc.is_from

-- `forward`
abbrev pub forward : ℕ → ℕ → ℕ → ℕ → Copy → Copy
forward = Gc.forward

-- `No_scan`
abbrev pub no_scan : ℕ → Bool
no_scan = Gc.no_scan

-- `do_scan`, on fuel.
abbrev pub do_scan : ℕ → ℕ → ℕ → ℕ → Copy → Run Copy
do_scan = Gc.do_scan

-- `create_space`
abbrev pub create_space : (ℕ → ℕ → Option ℕ) → ℕ → World → Run (Space × World)
create_space = Heap.create_space

-- `create_heap`
abbrev pub create_heap : (ℕ → ℕ → Option ℕ) → World → Run (Heap × World)
create_heap = Heap.create_heap

-- `reset_heap`
abbrev pub reset_heap : Heap → Heap
reset_heap = Heap.reset_heap

-- `free_heap`
abbrev pub free_heap : Heap → List ℕ
free_heap = Heap.free_heap

-- `in_heap`
abbrev pub in_heap : Heap → ℕ → Bool
in_heap = Heap.in_heap
