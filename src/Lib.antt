-- ===== src/Lib.antt =====
-- low-latency-pipeline: the data structures on the hot path of a market data and execution
-- pipeline. An exchange process replays ITCH messages into a shared ring; the core process applies
-- each event to an order book, whose state it publishes through a ring and a sequence lock; an
-- execution process runs strategies on those updates.
--
-- Files and the code that they model (paths from the repository's root):
--   Ring       src/common/spsc_ring.hpp: `SpscRing`. Each method alone in Ring, the two threads
--              as steps on one state in Ring/Threads.
--   Seqlock    src/common/seqlock.hpp: `Seqlock`, the writer and a reader as steps on one state.
--   Bits       the word operations that the code uses: shifts, masks, __builtin_ctzll and
--              __builtin_clzll on 64 bits.
--   Bitmap     src/core/level_bitmap.hpp: `OccupancyBitmap`, a tree of words.
--   Event      src/common/event.hpp: `Side` and `Event`.
--   OrderMap   src/core/core.hpp and src/core/core.cpp: `OrderMap`, the open-addressed table of
--              orders.
--   Levels     `PriceLevelArray` of the same files: one side of the book by price.
--   Book       `OrderBook`: the handlers of the ITCH messages in Book, what they do to a list of
--              resting orders in Book/Spec, the invariant in Book/Sides and Book/Invariant.
--   Feed       `BookArray` of those files, and src/core/primary_feed.hpp: `PrimaryFeed`, the dispatch
--              of events to the book of one symbol.
--   Update     src/core/snapshot/book_snapshot.hpp, src/core/market_update_builder.hpp and
--              src/common/ipc/market_update.hpp: the snapshot and the frame built from it.
--   Core       src/core/core_main.cpp: `process`, which takes an event through Feed and Update into the
--              ring of Ring and stores the snapshot.
--   Histogram  src/common/histogram.hpp: `Histogram::record` and `percentile_cycles`. The number of
--              samples that its product of doubles is truncated to is an argument.
--   Itch       src/exchange/itch: `ItchParser::next` from the point where it has a slot, on a file of
--              bytes; the messages in Itch/Layout, with fields and widths as the exchange lays them out.
--   Messages   src/common/ipc/order_msgs.hpp, control.hpp and instrument.hpp: requests, reports, the
--              operator's flags and reference data.
--   Config     src/common/config_file.hpp: `Config`, the lines of a text read into entries.
--   Exec       src/exec, with a child for each header: Exec/Orders `OrderTable`, Exec/Account `Account`,
--              Exec/Rate `RateModel`, Exec/Risk `RiskGate`, Exec/Router `NullRouter`, Exec/View
--              `MarketView`, Exec/Context `ExecContext`, Exec/Strategy `StrategyContext`, Exec/Runner the
--              hot loop, which hands each report to the context before the strategy sees it.
--   Prelude    what the files share: tests on numbers, lists, arrays, remainders, signed numbers.
--
-- Numbers. An unsigned integer of w bits is a natural number, and its wrap-around is written out
-- (`% 2 ^ w`). An array is a function on its indices; the code's masks keep the indices in range.
--
-- Threads. A load or a store is one step, and the steps of the threads interleave in any order.
-- That is the sequentially consistent model: that the acquire and release orders of the source
-- suffice for it on weaker hardware is not shown. The sequence lock's counter has 64 bits and the
-- theorems are about fewer than 2 ^ 63 stores.
--
-- Loops. A probe of the order table runs on fuel, one unit for each slot of the table. `none` is a
-- probe that comes round to where it started, which in the code never ends. The theorems about
-- the table show that it does not happen while a slot is free.
--
-- Book. The number of levels, the table's capacity and its hash are parameters; the program has
-- 2 ^ 20 levels, 2 ^ 20 slots and `order_hash`. The theorems ask for prices on the tick of one cent:
-- two prices within one tick share a level in the code, and the top of the book is then the price of
-- one of them. They also ask for a base at which the window of levels ends within uint32_t.
--
-- Execution. A sum of int64_t or __int128 is exact, since C++ leaves its overflow undefined; a
-- conversion from 128 to 64 bits wraps. Operations on double are a parameter (Exec/Doubles). The
-- index of client orders runs on fuel like the order table's probes, with its number of slots, rows
-- and hash as parameters; the program has 4096, 2048 and `id_hash`. read_tsc, the router that a
-- strategy's calls go to and the strategy itself are arguments.
--
-- Not modelled: of the core process, all but `process`; of the execution process, its setup, what it publishes and the loading of strategy
-- modules; reading a settings file, as opposed to a text; the gateway's tables, shared memory segments,
-- processes, signals, drawing and printing, which are the operating system's. Of the parser, the
-- mapping of the file and the wait for a slot of the ring.
pub mod Prelude
pub mod Ring
pub mod Seqlock
pub mod Bits
pub mod Bitmap
pub mod Event
pub mod Messages
pub mod OrderMap
pub mod Levels
pub mod Book
pub mod Feed
pub mod Update
pub mod Histogram
pub mod Itch
pub mod Config
pub mod Core
pub mod Exec
