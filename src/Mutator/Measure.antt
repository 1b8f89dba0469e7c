-- ===== src/Mutator/Measure.antt =====
-- `measure` of theories/Runtime/testmain.c, which counts the nodes of a tree in the heap. An `int`
-- that overflows is taken to wrap.
use certicoq.Prelude.{
  ℕ, zero, suc, ◌+◌, ◌%◌, ◌^◌, ◌<◌, ◌≡◌, refl, ◌∙◌, ap, true, false, arith, if◌then◌else◌, ltb,
}
use certicoq.Prelude.Int.{ℤ, pos}
use certicoq.Words.{is_long, index, to_int, unsigned}
use certicoq.Memory.{Mem}
use certicoq.Run.{Run, ok, out_of_fuel, ◌>>=◌}
use certicoq.Mutator.{State}
use certicoq.Mutator.Tree.{Tree, leaf, node, TreeAt, field-pointer}

-- `measure`, on fuel for its depth.
unfoldable pub measure : ℕ → Mem → ℕ → Run ℤ
measure zero m t = out_of_fuel
measure (suc fuel) m t = elim (is_long t) [
  | true ↦ ok (pos 0)
  | false ↦ do
    left ← measure fuel m (m (index t + 1))
    right ← measure fuel m (m (index t + 2))
    ok (to_int ((1 + unsigned left + unsigned right) % 2 ^ 64))
]

unfoldable pub nodes : Tree → ℕ
nodes leaf = 0
nodes (node k l r) = 1 + nodes l + nodes r

unfoldable pub height : Tree → ℕ
height leaf = 0
height (node k l r) = suc (if ltb (height l) (height r) then height r else height l)

measure_block :
    (m : Mem) (t fuel : ℕ)
    → is_long t ≡ false
    → measure (suc fuel) m t ≡ (
        measure fuel m (m (index t + 1)) >>= λ left. measure fuel m (m (index t + 2)) >>= λ right.
        ok (to_int ((1 + unsigned left + unsigned right) % 2 ^ 64)))
unfolding measure
measure_block m t fuel e = rw (measure, e) refl

-- A tree in the heap is counted right, with fuel above its height, if the count fits an `int`.
pub measure-nodes :
    (s : State) (t : Tree) (v fuel : ℕ)
    → TreeAt s v t
    → nodes t < 2 ^ 31
    → height t < fuel
    → measure fuel s.world.mem v ≡ ok (pos (nodes t))
unfolding measure nodes height is_long to_int unsigned
measure-nodes s t v zero at small deep = absurd (omega arith)
measure-nodes s leaf v (suc fuel) at small deep = rw at refl
measure-nodes s (node k l r) v (suc fuel) (b, at, a, hd, hk, hl, hr) small deep =
    let block : is_long v ≡ false = ground (arith, at) in
    let left = measure-nodes s l (s.world.mem (b + 2)) fuel hl (omega arith) (ground arith) in
    let right = measure-nodes s r (s.world.mem (b + 3)) fuel hr (omega arith) (ground arith) in
    measure_block s.world.mem v fuel block
    ∙ rw (field-pointer s v b 1 at, left, ◌>>=◌, field-pointer s v b 2 at, right)
        (ap ok (ground (arith, small)))
