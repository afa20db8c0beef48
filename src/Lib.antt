-- ===== src/Lib.antt =====
-- A model of librfn, a general utility library in C for small systems, and its correctness.
--
-- The library's parts are independent of one another, except that the console reads from a ring buffer, the fibre scheduler is built
-- from lists and message queues and compares times through `Util`, and the WAV header is read and written through the packing of
-- numbers. Each file here names the sources that it models, by their paths from the root of the
-- repository, and keeps the names of their functions without the prefix of the part:
-- `Ringbuf.put` is `ringbuf_put` of librfn/ringbuf.c.
--
-- Parts
--   Ringbuf: librfn/ringbuf.c, include/librfn/ringbuf.h. A byte ring with one free byte. `Stores`
--     is its representation invariant, `Queue` what it promises, `Steps` its two main operations
--     one shared access at a time, and `Threads` one writer and one reader in any interleaving.
--   Messageq: librfn/messageq.c, include/librfn/messageq.h. Slots for messages that are claimed,
--     sent in any order and received in the order of the claims. `Spec` numbers the messages and
--     `Represents` says how a descriptor stands for them; `Claimants` is `messageq_claim` one
--     atomic access at a time.
--   LinkedList: librfn/list.c, include/librfn/list.h. Singly linked lists over a memory of words;
--     `Heap` is the memory, `IsList` says that a list of the memory has given nodes. The order by
--     which a client sorts is a parameter.
--   Mlog: librfn/mlog.c, include/librfn/mlog.h. A log of the last 256 messages. `History` is the
--     sequence of all messages, `Keeps` relates the log to it, and `Dump` is what the log shows.
--   Pack: librfn/pack.c, include/librfn/pack.h. A cursor over a buffer through which numbers and
--     bytes are stored and read back. `Cursor` has the packing of a sequence of fields, `RoundTrip`
--     the unpacking, and `Inside` what unpacking reads.
--   Wavheader: librfn/wavheader.c, include/librfn/wavheader.h. The header of a WAV file over the
--     cursor of `Pack`. `Fields` is its layout as a sequence of items, `Stages` and `Encoding` show
--     that the code goes through them, `RoundTrip` puts decoding behind encoding, and `Make` makes
--     a header from parameters.
--   Rotenc: librfn/rotenc.c, include/librfn/rotenc.h. A rotary encoder; `Tracks` relates it to the
--     position of its knob.
--   Rand: librfn/rand.c, include/librfn/rand.h. A random number generator.
--   Fibre: librfn/fibre.c, include/librfn/fibre.h. A scheduler of fibres that run to completion,
--     over the run queue and the timer queue (lists) and the requests (a message queue). `Calls`
--     and `Scheduler` have the rest of the code; `Queues` says that the queues in memory stand for
--     sequences of fibres, `Requests` that the message queue stands for the fibres requested,
--     `Timers` that the timer queue is in order. `Drain`, `Ask`, `Effects`, `Expiry`, `Expired`, `Update`,
--     `Picked`, `Wake` and `Wakeup` are what the calls do. A fibre body is a client's: a program of calls.
--   Util: librfn/util.c. Comparison of cyclic times, checked allocation, and a rate limiter, in
--     `Rates`.
--   Rgb: librfn/rgb.c. Fading (`Fading`) and gamma correction (`Bytes`).
--   Hex: librfn/hex.c. Hexadecimal dumps; `Lines` is about reading any string, `Reading` and
--     `RoundTrip` about reading a dump.
--   Stats: librfn/stats.c. Running statistics, whose values are of 32 bits.
--   Enum: librfn/enum.c. A table of names.
--   Bitops: librfn/bitops.c. Counting bits; `Bytes` and `Count` go through `bitcnt` byte by byte,
--     and `Trailing` is about `ctz`.
--   Strings: librfn/string.c. Copies of strings, and `Case` about their upper and lower case.
--   Bintree: librfn/bintree.c, include/librfn/bintree.h. Binary trees of the clients' nodes over a
--     memory of left and right words. `Shape` is a tree as data and what it is for the memory to hold
--     it; `Traverse` has the recursive traversals and `Visits` their theorems; `Iterate` has the
--     iterators, which thread the tree while they walk, and `Free` the freeing; `Spine` is about a
--     thread, `Client` about a loop over an iterator, `Threading` and `InOrder` about the in-order
--     iterator, and `Returning` and `PreOrder` about the pre-order one; `Graph` draws a tree, and
--     `Drawing` is about that.
--   Console: librfn/console.c, include/librfn/console.h. A command console over a ring buffer. `Table`
--     is the table of commands, `Order` its order and `Register` the registering; `Tokens` takes a line
--     apart, `Words` and `Separated` follow its loop, and `Arguments` has the result; `Run` has the line editor and the calls of the commands, and
--     `Editing` and `Processing` are about the editor; `Eval` puts in a string, and `Commands` has the
--     console's own commands.
--   Regdump: librfn/regdump.c. The fields of a register, printed; `Fields` is about a whole dump.
--   Common: what the parts share: machine words, bits, lists over native numbers, and sequences
--     that run round a ring.
--
-- Conventions
--   A machine integer is a natural number with its wrap-around written out (`Common.Word`). State
--   that a function changes is passed in and returned. A failed assertion or an access through
--   NULL is a value of its own (`Get`, `Run`), so that a theorem can say that it does not happen.
--   Atomic accesses are sequentially consistent steps, and a fence keeps the accesses around it
--   in the order of the code. A call of the scheduler runs without an interrupt inside it.
--
-- Bounds and fuel
--   The walks over a list run on fuel; more than the number of its nodes is enough. The handling of
--   requests in the scheduler calls itself; twice the number of requests and the lengths of the two
--   queues are enough. Reading a hexadecimal byte takes at most one round more than the string has
--   characters, and a dump one row for each byte at most; its result
--   counts less than 2^31 bytes. Due times count while they lie less than
--   2^31 ahead, and a mean while the sum and the number of the samples stay below 2^32. The busy wait
--   of `ringbuf_putchar` takes a number of rounds, and its theorems hold of every number. A
--   message queue has one to 32 slots, one for each bit of its flags, and messages of less than
--   2^16 bytes. The loop of `mlog_dump` runs on fuel, of which 257 rounds are enough. A ring buffer
--   has at most 2^32 bytes, the range of its indices. An encoded WAV header is less than 2^31
--   bytes, the range of the results.
--   The walks over a binary tree run on fuel; more than the number of its nodes is enough for a
--   traversal and for each call of the in-order or the pre-order iterator. The loop of `console_run`
--   runs on fuel, a round for each character that it reads and one more. The scratch buffer of a console has 160 bytes, as with pointers of 64
--   bits. A label is shorter than 2^31 characters. The mask of a register's field
--   is a word that is not zero.
--
-- Not modelled
--   The formatting of log messages, which is the C library's, and the description of a WAV header
--   in words; the wrappers that bintree.h declares for a client's type; the macros of
--   protothreads.h; statistics of floating point numbers; the main loop that calls the scheduler,
--   and interrupts inside its calls; the commands for pins that console.h declares; input and
--   output, the drivers for POSIX and libopencm3, and the demonstrations and tests.
pub mod Common
pub mod Ringbuf
pub mod Messageq
pub mod LinkedList
pub mod Mlog
pub mod Pack
pub mod Wavheader
pub mod Rotenc
pub mod Rand
pub mod Util
pub mod Fibre
pub mod Rgb
pub mod Hex
pub mod Stats
pub mod Enum
pub mod Strings
pub mod Bitops
pub mod Bintree
pub mod Console
pub mod Regdump
