-- ===== src/Registers/Tests.antt =====
-- The test of gctest3.c and gctest4.c at small numbers, and a run of gctest2.c.
use certicoq.Prelude.{ℕ, ◌+◌, ◌*◌, ◌≤◌, ◌<◌, ◌≡◌, refl, inl, false, arith, List, [], ◌∷◌}
use certicoq.Memory.{write}
use certicoq.Run.{Run, ok, ◌>>=◌}
use certicoq.Gc.{FunInfo}
use certicoq.Mutator.{Code, info, less, store}
use certicoq.Registers.{
  Globals, Regs, collect_wanted, cons_at, check_limit, insert_with, insert_limit,
}
use certicoq.Registers.Headroom.{collect_wanted-free, collect_wanted_missed}

collect_wanted-free_example : 50 + 5 ≤ 60 + 100
unfolding collect_wanted
collect_wanted-free_example =
    collect_wanted-free 60 50 5 (omega arith) (omega arith) (inl (omega arith)) refl

-- `alloc` is 10 words past the limit, and 120 words are asked for.
collect_wanted_missed_example : (collect_wanted 60 70 120 ≡ false) × (60 + 100 < 70 + 120)
collect_wanted_missed_example =
    collect_wanted_missed 60 70 120 (omega arith) (omega arith) (omega arith) (omega arith)

abbrev code : Code
code = record { insert = 1000; insert_left = 1002; insert_right = 1004; build = 1006; done = 1008 }

abbrev keep : FunInfo → Globals → Run Globals
keep fi g = ok g

abbrev empty_tree : Regs
empty_tree = record {
  allocx = 20;
  limitx = 0;
  a1 = 1;
  a2 = 7;
  a3 = 501;
  a4 = 1;
  globals = record { alloc = 20; limit = 60; args = λ i. 1; mem = λ a. 0 };
  randoms = 0;
}

-- The continuation, the new root, `alloc`, and the words of the root.
first_node : Run (List ℕ)
unfolding insert_limit insert_with check_limit cons_at store write less info
first_node = do
  (at, s) ← insert_limit keep (λ i. i) code empty_tree
  let m = s.globals.mem
  ok (at ∷ s.a1 ∷ s.allocx ∷ m 20 ∷ m 21 ∷ m 22 ∷ m 23 ∷ [])

first_node_lem : first_node ≡ ok (501 ∷ 8 * 21 ∷ 24 ∷ 3 * 1024 ∷ 7 ∷ 1 ∷ 1 ∷ [])
unfolding first_node
first_node_lem = refl
