-- ===== src/Gc/Small.antt =====
-- A small heap for the collectors of theories/Runtime: its memory, two spaces and why it is well
-- formed.
use certicoq.Prelude.{
  ℕ, zero, suc, ◌+◌, ◌*◌, ◌<◌, ◌≡◌, refl, inl, inr, false, List, [], ◌∷◌, arith, ◌==◌,
  if◌then◌else◌,
}
use certicoq.Words.{is_block, wosize_hd, tag_hd}
use certicoq.Memory.{Mem}
use certicoq.Gc.{Space, no_scan, is_from}
use certicoq.Gc.Copying.{Header, Good, WellFormed}
use certicoq.Gc.Copying.Collects.{collection}

-- Two blocks that point to each other, at 10 and at 13, and two roots in args (at 100) that point to
-- the first.
abbrev pub small : Mem
small a =
    if a == 10
    then 2 * 1024
    else if a == 11
    then 8 * 14
    else if a == 12
    then 7
    else if a == 13
    then 2 * 1024 + 1
    else if a == 14
    then 8 * 11
    else if a == 15
    then 5
    else if a == 101
    then 8 * 11
    else if a == 103
    then 8 * 11
    else 1

abbrev pub young : Space
young = record { start = 10; next = 16; limit = 30 }

abbrev pub old : Space
old = record { start = 40; next = 42; limit = 60 }

abbrev pub sizes : List ℕ
sizes = 2 ∷ 2 ∷ []

pub small-WellFormed : WellFormed (collection small young old sizes)
unfolding wosize_hd is_from is_block
small-WellFormed = record {
  blocks = (refl, omega arith, omega arith, (refl, omega arith, omega arith, refl));
  within = omega arith;
  apart = inl (omega arith);
  fits = omega arith;
  fields = fields;
}
  where
    first : Good (collection small young old sizes) (8 * 14)
    first = record { block = λ _. (omega arith, inr (inl refl)); not_free = refl }

    back : Good (collection small young old sizes) (8 * 11)
    back = record { block = λ _. (omega arith, inl refl); not_free = refl }

    seven : Good (collection small young old sizes) 7
    seven = record { block = λ h. cc; not_free = refl }

    five : Good (collection small young old sizes) 5
    five = record { block = λ h. cc; not_free = refl }

    fields :
        (x : ℕ)
        → Header (collection small young old sizes) x
        → no_scan (tag_hd (small x)) ≡ false
        → (i : ℕ) → i < wosize_hd (small x)
        → Good (collection small young old sizes) (small (x + 1 + i))
    fields x (inl e) n zero lt = rw e first
    fields x (inl e) n (suc zero) lt = rw e seven
    fields x (inl e) n (suc (suc i)) lt = absurd (too_large (rw e at lt))
      where
        too_large : suc (suc i) < 2 → ⊥
        too_large h = omega arith
    fields x (inr (inl e)) n zero lt = rw e back
    fields x (inr (inl e)) n (suc zero) lt = rw e five
    fields x (inr (inl e)) n (suc (suc i)) lt = absurd (too_large (rw e at lt))
      where
        too_large : suc (suc i) < 2 → ⊥
        too_large h = omega arith
    fields x (inr (inr h)) n i lt = absurd h
