-- ===== src/Lib.antt =====
-- The crates syncpool and byte_buffer.
--
-- syncpool is a pool of boxed elements. A pool (syncpool/src/pool.rs) is a vector of buckets; a
-- bucket (syncpool/src/bucket.rs, `Bucket2`) is eight slots with a counter and a bitmap of two bits
-- for each slot, of which the low one says that the slot is full and the high one that somebody is
-- at it; syncpool/src/utils.rs scans and changes these bitmaps. byte_buffer is a pool of byte
-- vectors behind a static and a lock (byte_buffer/src/buffer.rs and lock.rs), of which
-- byte_buffer/src/manager.rs hands out slices.
--
-- Which file models which part:
--   Prelude               what the modules share: tests, lists, bit operations, fields of two bits
--   Syncpool/Words        shifts and `usize` with its wrap-around at 2 ^ 64
--   Syncpool/Builder      `ElemBuilder`, `make_elem`, and `make_box`, `default_box` of boxed.rs
--   Syncpool/Utils        syncpool/src/utils.rs: `enter`, `check_len`, `exit`, `in_state`, `out_state`
--   Syncpool/Bucket2      `Bucket2` and its methods; `take_from` and `put_into` are what
--                         `SyncPool::get` and `SyncPool::put` do at one bucket
--   Syncpool/Concurrent   `Bucket2` between threads: a turn is one access to what they share
--   Syncpool/Bucket       `Bucket` and `RingBucket` of bucket.rs, which the pool does not use
--   Syncpool/Pool         `SyncPool`, the constructors, `get`, `put` and `VisitorGuard`
--   Syncpool/Pool/State   `PoolState`
--   Syncpool/Pool/Manager `PoolManager`
--   Syncpool/Calls        `get` and `put` between threads, over all the buckets of a pool: a turn at a
--                         bucket is one of Syncpool/Concurrent
--   Syncpool/Visitors     `VisitorGuard` and `expand` between threads: a turn is one access to the
--                         counter or the flag of `visitor_counter`
--   Syncpool/Experimental syncpool/src/experimental: host.rs in Host, chain.rs in Chain, over an
--                         explicit memory and channel; neither is in the crate's module tree
--   ByteBuffer/Vec        what the code uses of `Vec<u8>`
--   ByteBuffer/Lock       byte_buffer/src/lock.rs
--   ByteBuffer/Pool       `BufferPool`, its commands and its worker, over a record of the statics
--   ByteBuffer/Bucket     byte_buffer/src/bucket.rs, over a heap of buffers and buckets
--   ByteBuffer/Manager    `ByteBuffer` and `BufferSlice`
-- The child modules of a part hold its theorems, and the Examples modules concrete runs.
--
-- Concurrency: in Syncpool/Concurrent any number of threads take turns at one bucket, in Syncpool/Calls
-- they take turns in `get` and `put` at a pool, and in Syncpool/Visitors callers come and go while one
-- thread is in `expand`. Elsewhere the methods of
-- a pool or of a bucket are run with no other thread in between. What other threads do
-- to an atomic during `register`, `update_config`, `reset_handle`, `expand`, `lock`, `Bucket::access`
-- and the `checkout` of byte_buffer is an argument, the values that the successive attempts meet.
-- A box is its element, and a null pointer is `none`. What `raw_box` leaves in a new box (`zeroed`), how a vector grows (`grow`),
-- and whether bytes are UTF-8 are parameters. The clock is the list of the answers to its readings.
--
-- Fuel: the loops of `get`, `put` and `access` have their own counter of trials. The loop of `leave`
-- has two rounds, and the theorem about it says that they are enough. A thread that is alone at a
-- bucket is followed for seven turns, and the theorem about it says that it is idle again by then. The
-- loops of the scans run over sixteen bits.
--
-- Not modelled: an expansion or a new reset handle while threads are at the buckets, the allocator
-- behind `raw_box` and `raw_box_zeroed`, which are one call of it each, the channel to the
-- worker of byte_buffer (the messages sent are recorded), pauses, and the examples.
pub mod Prelude
pub mod Syncpool
pub mod ByteBuffer
