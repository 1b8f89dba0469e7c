-- ===== src/Registers/Headroom.antt =====
-- The test of gctest3.c and gctest4.c, which lets `alloc` pass the limit by the headroom.
use certicoq.Prelude.{ℕ, ◌+◌, ◌^◌, ◌≤◌, ◌<◌, ◌≡◌, ◌⊎◌, false, arith}
use certicoq.Registers.{headroom, collect_wanted}

-- If no collection is wanted, the words that are asked for are free up to the true limit, which is
-- the headroom beyond the one that is compared with, provided that `alloc` has not passed the
-- limit or that less is asked for than the headroom.
pub collect_wanted-free :
    (limit allocx n : ℕ)
    → limit < 2 ^ 64
    → n < 2 ^ 64
    → (allocx ≤ limit) ⊎ (n < headroom)
    → collect_wanted limit allocx n ≡ false
    → allocx + n ≤ limit + headroom
unfolding collect_wanted
collect_wanted-free limit allocx n hl hn safe not_wanted = ground (arith, hl, hn, safe, not_wanted)

-- If `alloc` has passed the limit within the headroom, a function that asks for the headroom or more
-- gets no collection: the difference is negative, and is compared as a number without a sign.
pub collect_wanted_missed :
    (limit allocx n : ℕ)
    → limit < allocx
    → allocx ≤ limit + headroom
    → headroom ≤ n
    → n < 2 ^ 63
    → (collect_wanted limit allocx n ≡ false) × (limit + headroom < allocx + n)
unfolding collect_wanted
collect_wanted_missed limit allocx n past within asked small =
    (ground (arith, past, within, asked, small), omega arith)
