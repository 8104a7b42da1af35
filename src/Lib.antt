-- ===== src/Lib.antt =====
-- A model of the malloc lab in benchmark_base/malloc-lab: the allocator mm.c, the simulated memory
-- system memlib.c below it, and the driver mdriver.c that runs request traces against it.
--
-- The driver calls `mm_init`, `mm_malloc`, `mm_realloc` and `mm_free` (declared in mm.h); the
-- allocator grows its heap by `mem_sbrk`; both read and write one arena of MAX_HEAP bytes.
--
-- Files:
--   Base        helpers: Boolean tests, lists and the bit operations on native numbers
--   Memory      bytes and little-endian 32-bit words (`GET` and `PUT` of mm.c without their checks)
--   Memlib      memlib.c: `Memlib` holds mem_start_brk, mem_brk, mem_max_addr and errno
--   Machine     the state of the program (arena, bytes, `heap_listp`) and commands on it; a
--               command ends in a value, in a fault or out of fuel
--   Mm          mm.c: each macro and function by its name; Mm/Block, Mm/Chain and Mm/Heap hold the
--               invariant, Mm/Spec the meaning on lists of blocks, the others one function each
--   Ranges      the range list of mdriver.c: `add_range`, `remove_range`, `clear_ranges`;
--               Ranges/Checks and Ranges/Guarded hold what its tests show
--   Driver      traces and the state of a run; Driver/Valid is `eval_mm_valid`, Driver/Util
--               `eval_mm_util`, Driver/Speed `eval_mm_speed`, Driver/Libc the two functions on the
--               allocator of the C library; Driver/Reader is `read_trace`, Driver/Options the command
--               line and the team check of `main`, Driver/Main its evaluation of mm.c and
--               Driver/Main/Whole all of `main`.
--               Driver/Slots is what every run against mm.c keeps of its entries; on it stand
--               Driver/Valid/Accept, Release, Move (one request) and Slots, Proper, Next, Passes
--               (whole traces), and Driver/Util/Calls, Next, Requests, Passes;
--               Driver/Valid/Guards, Balanced and Represents are about every allocator
--   Sampler     fcyc.c: `init_sampler`, `add_sample`, `has_converged` and the loops of `fcyc`;
--               Sampler/Cache is `clear` and the setters of the cache, Sampler/Fcyc the whole `fcyc`
--               with its counters
--   Clock       clock.c: the cycle counter of x86, `ovhd`, and Clock/Alpha the one of Alpha;
--               Clock/Compensated holds `callibrate`, the compensated counters and `mhz`
--   Doubles     the type `double` and its operations, a parameter
--   Timer       ftimer.c, and fsecs.c as config.h selects it; Timer/Packages is fsecs.c for each
--               package
--   Tests       runs at concrete inputs
--
-- Correspondence: an address is a natural number and `null` is 0. A word is 32 bits, `size_t` is 64
-- bits wide, and both wrap around. A read or write outside of the arena, and a `memcpy` of
-- overlapping ranges, is a fault. `mem_sbrk` takes an `int`: a `size_t` argument is cut to 32 bits,
-- and from 2 ^ 31 on it counts as negative. `heap_listp` is a field of the state. The driver is
-- written over any allocator with the functions of mm.h, and over whether `char` is signed.
--
-- The invariant `Heap s bs` says that behind the padding word the arena holds the prologue block,
-- the blocks `bs` with equal headers and footers, and the epilogue header, that no two neighbours
-- are free, and that all sizes are multiples of 8 from 16 on.
--
-- Fuel: `find_fit` has one round for each byte of the arena, and one more. Each round moves the
-- pointer on or ends, and a read outside of the arena faults. `fcyc` has one round more than
-- `maxsamples`, `read_ops` one more than the file has requests, `clear` one more than its buffer
-- has ints, `callibrate` one more than the readings of the counter that it needs.
--
-- Not modelled: messages and exit codes; the runs of a trace with a negative index or size, where
-- the evaluation stops as `unfinished`; `free_trace`; `mem_deinit` and `mem_pagesize`; the Python
-- scripts and the trace generators. `malloc` of the C library is a parameter: the address of the
-- arena is an argument of `mem_init`, and -l runs an allocator that is an argument of
-- `main_program`. `fscanf` is an argument of `read_trace`, what `getopt` returns one of the
-- options, `fopen` and the readings of the system clock are arguments of `evaluate`, the counter
-- of the processor, `times` and the rounding to a double are arguments of the counters.
pub mod Base
pub mod Memory
pub mod Memlib
pub mod Machine
pub mod Mm
pub mod Ranges
pub mod Driver
pub mod Sampler
pub mod Clock
pub mod Doubles
pub mod Timer
mod Tests
