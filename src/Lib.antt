-- ===== src/Lib.antt =====
-- The C code of CertiCoq: the runtime of theories/Runtime (a generational copying collector over
-- the OCaml object format, in two variants, two stand-ins for it, and the programs that test it) and
-- the foreign functions of benchmarks/regex, benchmarks/io and benchmarks/hash.
--
-- The mutator is compiled Coq code. It allocates in the nursery between `alloc` and `limit`, and
-- calls `garbage_collect` when a function needs more words than are left. The collector copies the
-- blocks that the args array reaches into the next generation, and that one into the next while
-- there is no room for another collection. The foreign functions read and build Coq values through
-- generated accessors.
--
-- - Words: values.h. `is_block`, `tag_hd`, `wosize_hd`, `val_long`, ... are its macros for 64-bit
--   words. A word is its bit pattern; a pointer to the word with index `a` is `8 * a`.
-- - Memory: the assignments and copying loops of the C code over an array of words.
-- - Run: how a call ends, with `abort_with`, `exit` and `assert` as values.
-- - Gc: gc.c, `forward`, `forward_roots`, `do_scan`, `do_generation`. Gc.Heap: `create_space`,
--   `create_heap`, `make_tinfo`, `resume`, `garbage_collect`, `garbage_collect_all`, `export`,
--   `reset_heap`, `free_heap`, `in_heap`. Gc.Layout and Gc.Graph: how blocks lie in a space, and
--   what a mutator can see of them. Gc.Copying: the invariant of one collection and its proof, as an
--   interface that both collectors fill. Gc.Through and Gc.Generations: the heap as a whole, its
--   invariant, and the rounds of the loop over the generations; Gc.Whole: `garbage_collect`,
--   `garbage_collect_all` and `export` over them.
--   Gc.Minor: a `garbage_collect` that ends with the nursery; Gc.Creation: the first one.
-- - GcStack: gc_stack.c, the variant whose roots are the words of stack frames, over the generations
--   of Gc.Heap. GcStack.Shared: the functions that are the same in both files. GcStack.Whole: its
--   `garbage_collect`.
-- - Mutator: gctest.c, a program over the collector that inserts into a search tree with its
--   continuations in the heap. Mutator.Tree says what a tree in the heap is, Mutator.Order which set
--   it stands for. Mutator.Build: its loop over random keys. Mutator.Alloc: its allocations within the
--   collector's invariant. Mutator.Measure: `measure` of testmain.c.
-- - Registers: gctest2.c, gctest3.c and gctest4.c, the same program with its registers as arguments,
--   and with a check that lets `alloc` pass the limit by a headroom.
-- - Nogc and Fakegc: nogc.c and fakegc.c.
-- - Ffi: benchmarks/regex (Strings reads a Coq string, Build makes one, Regex prints an expression,
--   Match runs PCRE), benchmarks/io (Io), and the hash table and `nat` conversions of
--   benchmarks/hash (Table).
--
-- `malloc` is a parameter, a function of the calls before and the size. So are `random`, the
-- collector that gctest2.c to gctest4.c call (it has another interface than gc.h), PCRE, the
-- accessors and constructors that are generated for each program, and the Coq closures for hashing
-- and comparing keys. `do_scan` runs on as many rounds as to-space has free words, which suffices
-- since each round passes a header. A heap has 12 generations, each twice the one before, so the
-- largest has 2^27 words, and the `int` sizes of `garbage_collect` do not wrap. `DEPTH` is 0, as
-- gc.c defines it; `forward` is modelled for every depth. Sizes in `int` keep their 32 bits. The
-- loops of the foreign functions take fuel, and the theorems ask for more than the length of a
-- string or the depth of an expression. What C leaves undefined in them, an access outside an array
-- or an `int` that overflows, is a result of its own, and the arrays that `malloc` gives to `rgx_test`
-- and `rgx_exec` are parameters with their sizes.
--
-- Not modelled: the printing of trees, the console functions of benchmarks/hash, which are those of
-- benchmarks/io, and the main programs, which print.
pub mod Prelude
pub mod Words
pub mod Memory
pub mod Run
pub mod Gc
pub mod Ffi
pub mod Nogc
pub mod Fakegc
pub mod GcStack
pub mod Mutator
pub mod Registers
