-- ===== src/Gc/Through.antt =====
-- What a mutator can see of the objects of theories/Runtime/gc.c when it follows pointers into a
-- part of the memory that a test picks out, such as all the generations of a heap.
pub mod Bisim
pub mod Restrict
use certicoq.Prelude.{
  ℕ, zero, suc, ◌+◌, ◌-◌, Bool, ◌&&◌, Option, none, some, List, [], ◌∷◌, ltb, if◌then◌else◌, not,
}
use certicoq.Words.{index, wosize_hd, tag_hd}
use certicoq.Memory.{Mem}
use certicoq.Gc.{no_scan}
use certicoq.Gc.Graph.{View, word, block, deep, views}

-- `v`, read to depth `k`.
unfoldable pub view_through : (ℕ → Bool) → ℕ → Mem → ℕ → View
unfolding views
view_through p zero m v = deep
view_through p (suc k) m v =
    let hd = m (index v - 1) in
    let below = λ (w : ℕ). view_through p k m w in
    if p v
    then block hd (views (if no_scan (tag_hd hd) then word else below) m (wosize_hd hd) (index v))
    else word v

-- The pointer that the fields on a path lead to, from `v`; `none` where the path leaves that part.
unfoldable pub follow_through : (ℕ → Bool) → Mem → List ℕ → ℕ → Option ℕ
follow_through p m [] v = if p v then some v else none
follow_through p m (i ∷ path) v =
    let hd = m (index v - 1) in
    let rest = follow_through p m path (m (index v + i)) in
    if p v && not (no_scan (tag_hd hd)) && ltb i (wosize_hd hd) then rest else none
