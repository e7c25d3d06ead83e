-- ===== src/Lib.antt =====
-- A verification library for advanced-cache, an in-memory HTTP cache in front of one upstream.
--
-- A request goes to the main handler (internal/cache/api/cache.go), which makes an entry of it
-- (pkg/model/entry.go): the rule of the path admits some query arguments and headers, which are
-- sorted and hashed into a key, a shard number and a fingerprint. The storage (pkg/storage/lru) looks
-- the key up in a sharded map (pkg/storage/map) and moves the entry to the front of the list of its
-- shard (pkg/list). On a miss the upstream is asked, and an answer with status 200 is packed into the
-- entry and set: when the memory threshold is reached, TinyLFU (pkg/storage/lfu) decides between the
-- new entry and a victim. Entries are dumped to files and loaded again (pkg/storage/dumper.go), and
-- one endpoint clears the storage against a token (internal/cache/api/clear.go).
--
-- The files, by the code that they model:
--   * Prelude: shared names, Boolean tests and lists over the native numbers, machine words (Word),
--     results with errors and panics (Outcome), reading of byte buffers (Cursor), bit lemmas (Bits).
--   * KeyValue: pkg/sort/key_value.go, `less` and the insertion sort KVSlice, swap by swap.
--   * Config: the rules of pkg/config/config.go with what LoadConfig derives from them.
--   * Query: parseFilterAndSortQuery of pkg/model/entry.go, one step of the scan per byte.
--   * Entry: the entry with its keys, weight and updates; Entry/Payload has SetPayload and Payload,
--     Entry/Dumped has ToBytes and EntryFromBytes, Entry/InPlace the filters on the caller's slice,
--     Entry/Refresh has ShouldBeRefreshed and Revalidate.
--   * Sharded: shard.go and map.go of pkg/storage/map, with the counters as 64-bit patterns.
--   * Lfu: the sketch, the doorkeeper and the admission of pkg/storage/lfu.
--   * Ring: pkg/list/doubly_linked.go on a store of elements; Ring/Links says what sequence a
--     store holds, Ring/Ends, Laws and Moves what the operations make of it. Ring/Sort is Sort, pointer
--     by pointer, with the same merge sort on sequences in Ring/Sort/Lists.
--   * Storage: storage.go and balancer.go of pkg/storage/lru. An entry is a pointer into a store that
--     the map, the lists and the handler share, so that an update is seen through all of them.
--     Storage/Linked says how the map and the lists hang together, over runs of calls.
--   * Balance: the list of shards of pkg/storage/lru/balancer.go.
--   * Evict: evictUntilWithinLimit of pkg/storage/lru/evictor.go, its outer loop in Evict/Until.
--   * Refresh: the workers of pkg/storage/lru/refresher.go beside the calls of the storage.
--   * Upstream: pkg/upstream/backend.go, the request and what is taken of its answer.
--   * Handler: Index and the two ways of handling in internal/cache/api/cache.go.
--   * Meter: what the metrics writer of the same file takes, adds up and logs.
--   * Dump: the records of pkg/storage/dumper.go and the loop that loads them; Dump/Versions has the
--     names of the files and the choice among them, Dump/Rotation the version directories.
--   * Clear: internal/cache/api/clear.go and on_off.go.
--   * Locale: the tables of pkg/locale, which no other part uses. A constant is a constructor, with its
--     string beside it, a conversion goes through its cases, and the default case is none.
--   * Tests: runs at concrete inputs.
--
-- A Go call that can fail returns an Outcome: a result, an error or a run-time panic. Integers of w
-- bits wrap, written out as remainders, save the length of a list, which counts its elements. Loops
-- are structural, save these, which run on fuel, and whose result is none where the fuel is spent:
-- the loading loop of Dump, on one more than the bytes of the file, where every round that goes on
-- reads at least the eight bytes of a record's header; the inner loop of Evict, on one more than the
-- elements of the list; and the outer loop of Evict, which nothing bounds, so that any number of turns
-- can be asked for. The loops of the sort run on the length of the list. Locks make each call of a
-- component one undisturbed step; the interleaving of calls is not modelled.
--
-- Parameters stand for code that is not part of the repository: the hash xxh3 (the record Hasher),
-- the HTTP client and the rate limiter, floating-point numbers (the record Floats), the iteration
-- order of a Go map (what it yields first), clocks and random numbers. Writing to the response and to a buffer does not fail.
--
-- Not modelled: the file system, the export of metrics, the text of log lines, probes, and the
-- server's set-up.
pub mod Prelude
pub mod KeyValue
pub mod Config
pub mod Query
pub mod Entry
pub mod Sharded
pub mod Lfu
pub mod Ring
pub mod Storage
pub mod Evict
pub mod Refresh
pub mod Upstream
pub mod Meter
pub mod Handler
pub mod Dump
pub mod Balance
pub mod Clear
pub mod Locale
mod Tests
