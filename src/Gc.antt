-- ===== src/Gc.antt =====
-- theories/Runtime/gc.c, its data and its copying core: `forward`, `forward_roots`, `do_scan` and
-- `do_generation`. An address is the index of a word; NULL is 0.
pub mod Heap
pub mod Layout
pub mod Graph
pub mod Through
pub mod Copying
pub mod Generations
pub mod Whole
pub mod Minor
pub mod Creation
pub mod Small
mod Tests
use certicoq.Prelude.{
  ℕ, zero, suc, ◌+◌, ◌-◌, ◌^◌, Bool, true, false, ◌&&◌, ltb, leb, ◌==◌, if◌then◌else◌, not,
}
use certicoq.Prelude.Int.{ℤ, pos, negsuc}
use certicoq.Words.{is_block, index, pointer, tag_hd, wosize_hd, to_int, unsigned}
use certicoq.Memory.{Mem, write, copy_words}
use certicoq.Run.{Run, ok, abort, out_of_fuel, assertion, ◌>>=◌, ◌>>◌, assert}

-- `struct space`
pub record Space : Type 0 where
  pub start : ℕ
  pub next : ℕ
  pub limit : ℕ

abbrev pub max_spaces : ℕ
max_spaces = 12

abbrev pub ratio : ℕ
ratio = 2

abbrev pub nursery_size : ℕ
nursery_size = 2 ^ 16

abbrev pub depth : ℕ
depth = 0

abbrev pub max_args : ℕ
max_args = 1024

-- `fun_info`: fi[0] words to allocate, fi[1] live roots, and from fi[2] their slots in args.
abbrev pub FunInfo : Type 0
FunInfo = ℕ → ℕ

-- What `forward` changes: the memory, and the next available spot in to-space, `*next`.
pub record Copy : Type 0 where
  pub mem : Mem
  pub next : ℕ

-- `Is_from (from_start, from_limit, v)`
unfoldable pub is_from : ℕ → ℕ → ℕ → Bool
is_from from_start from_limit v = leb from_start (index v) && ltb (index v) from_limit

-- `new + sz` for an `int sz`, and the rounds of a loop that runs up to `sz` from -1 and from 0.
unfoldable pub advance : ℕ → ℤ → ℕ
advance new (pos n) = new + n
advance new (negsuc n) = new - (n + 1)

unfoldable pub rounds_from_header : ℤ → ℕ
rounds_from_header (pos n) = suc n
rounds_from_header (negsuc n) = 0

unfoldable pub rounds : ℤ → ℕ
rounds (pos n) = n
rounds (negsuc n) = 0

-- The branch of `forward` that copies a block: `v` is the index of its first field.
unfoldable pub copy_block : ℤ → ℕ → ℕ → Copy → Copy
unfolding advance rounds_from_header
copy_block sz p v c =
    let new = c.next + 1 in
    let copied = copy_words (rounds_from_header sz) (new - 1) (v - 1) c.mem in
    record {
      mem = write (write (write copied (v - 1) 0) v (pointer new)) p (pointer new);
      next = advance new sz;
    }

-- A loop that forwards the `n` words from `q` on, one after another.
unfoldable pub each_word : (ℕ → Copy → Copy) → ℕ → ℕ → Copy → Copy
each_word forward_word zero q c = c
each_word forward_word (suc n) q c = each_word forward_word n (q + 1) (forward_word q c)

-- `No_scan`
unfoldable pub no_scan : ℕ → Bool
no_scan tag = leb 251 tag

module _ (from_start from_limit : ℕ) where
  -- `forward`: `p` is the location of the word to forward.
  unfoldable pub forward : ℕ → ℕ → Copy → Copy
  unfolding copy_block rounds is_from
  forward zero p c =
      let v = c.mem p in
      if is_block v && is_from from_start from_limit v
      then (let hd = c.mem (index v - 1) in
          if hd == 0
          then record c { mem = write c.mem p (c.mem (index v)) }
          else copy_block (to_int (wosize_hd hd)) p (index v) c)
      else c
  forward (suc depth) p c =
      let v = c.mem p in
      if is_block v && is_from from_start from_limit v
      then (let hd = c.mem (index v - 1) in
          if hd == 0
          then record c { mem = write c.mem p (c.mem (index v)) }
          else (let sz = to_int (wosize_hd hd) in
              each_word (λ q d. forward depth q d) (rounds sz) (c.next + 1)
                (copy_block sz p (index v) c)))
      else c

  -- The loop of `forward_roots`: `n` roots are left from the `i`th on.
  unfoldable pub forward_root_slots : FunInfo → ℕ → ℕ → ℕ → Copy → Run Copy
  unfolding forward
  forward_root_slots fi args zero i c = ok c
  forward_root_slots fi args (suc n) i c =
      assert (ltb (fi (i + 2)) max_args)
      >> forward_root_slots fi args n (i + 1) (forward depth (args + fi (i + 2)) c)

  -- `forward_roots`: `int n = fi[1]` is compared as a `uintnat`.
  unfoldable pub forward_roots : FunInfo → ℕ → Copy → Run Copy
  unfolding forward_root_slots
  forward_roots fi args c = forward_root_slots fi args (unsigned (to_int (fi 1))) 0 c

  -- One round of `do_scan`, on the block whose header is at `s`.
  unfoldable pub scan_block : ℕ → Copy → Copy
  unfolding forward no_scan
  scan_block s c =
      let hd = c.mem s in
      if not (no_scan (tag_hd hd))
      then each_word (λ q d. forward depth q d) (wosize_hd hd) (s + 1) c
      else c

  -- `do_scan`: `while (s < *next)`, on fuel.
  unfoldable pub do_scan : ℕ → ℕ → Copy → Run Copy
  unfolding scan_block
  do_scan zero s c = if ltb s c.next then out_of_fuel else ok c
  do_scan (suc fuel) s c = elim (ltb s c.next) [
    | true ↦ do_scan fuel (s + (1 + wosize_hd (c.mem s))) (scan_block s c)
    | false ↦ ok c
  ]

-- What `do_generation` changes: the memory and the two descriptors.
pub record Collected : Type 0 where
  pub mem : Mem
  pub from : Space
  pub to : Space

-- `do_generation`. The differences of pointers in its assertion are signed, so each side's
-- subtraction is written as an addition on the other. `do_scan` runs on the words that are left in
-- to-space as its fuel.
unfoldable pub do_generation : FunInfo → ℕ → Mem → Space → Space → Run Collected
unfolding forward_roots do_scan
do_generation fi args m from to = do
  assert (leb (from.next + to.next) (to.limit + from.start))
  c ← forward_roots from.start from.limit fi args (record { mem = m; next = to.next })
  d ← do_scan from.start from.limit (to.limit - to.next) to.next c
  ok (record {
    mem = d.mem;
    from = record from { next = from.start };
    to = record to { next = d.next };
  })
