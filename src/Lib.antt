-- ===== src/Lib.antt =====
-- Verification of the kimchi arbitrage system: the queues that its processes and threads hand data
-- over by, the executor that places the two legs of an arbitrage, and the parts around it that limit
-- the loss of a day, choose accounts, stop the components and receive commands.
--
-- Parts of the program and where they are modelled. Paths are from the root of the repository.
--
-- include/arbitrage/ipc/ipc_types.hpp: `ShmQueueHeader` and the tests that `attach_consumer` makes
-- of it stand in Ipc/Header.antt. One process creates a segment, another attaches to it, and each
-- queue below lies behind such a header.
--
-- include/arbitrage/ipc/shm_queue.hpp: `ShmSPSCQueue` is Ipc/Spsc.antt: `Segment` is the shared
-- memory, `Handle` the object of one process, and init_producer, attach_consumer, push, pop, empty,
-- size, capacity, is_closed, close and the two liveness queries are functions of these names. A slot
-- is a value of any type. Ipc/Spsc/Refine.antt compares it with the FIFO of Fifo.antt.
--
-- include/arbitrage/ipc/shm_ring_buffer.hpp: `ShmRingBuffer` is Ipc/Ring.antt, with pop_latest, and
-- Ipc/Ring/Log.antt is what it promises: a log of all items, of which a slow reader misses some.
-- Ipc/Ring/Single.antt is about a ring of one slot.
--
-- include/arbitrage/ipc/order_channel.hpp: the two queues between the engine and the order manager
-- are Ipc/OrderChannel.antt, with the conversion `to_shm` of results. The segments that a name has
-- stood for are a list, since a process keeps what it has mapped.
--
-- include/arbitrage/ipc/shm_latest.hpp: `ShmLatestValue` is Ipc/Latest.antt. `store` and `load` are
-- cut into their accesses to shared memory (begin_store, store_word, end_store; begin_load,
-- load_word, end_load), and Ipc/Latest/Machine.antt interleaves them as a step relation.
--
-- include/arbitrage/common/lockfree_queue.hpp: `SPSCQueue` is Lockfree/Spsc.antt, `ZeroCopyQueue` is
-- Lockfree/ZeroCopy.antt with addresses in the place of pointers, and `MPSCQueue` is
-- Lockfree/Mpsc.antt. There `push` and `pop` are cut into their atomic accesses, and
-- Lockfree/Mpsc/Machine.antt interleaves any number of producers with the consumer.
--
-- include/arbitrage/common/types.hpp and include/arbitrage/executor/types.hpp: orders, requests,
-- results and plans are Executor/Order.antt and Executor/Result.antt, with the method names of the
-- source; `ExecutorStats` is Executor/Stats.antt. `double` is the parameter `Double` of
-- Executor/Number.antt, and `IsDouble` names the laws of finite values.
--
-- src/executor/dual_order.cpp: Executor/Dual.antt, where execute_sync calls identify, refusal,
-- execute_legs and handle_recovery. It places the legs through the clients of the exchanges, a
-- parameter whose answers may depend on all the orders sent before, counts the result, and hands a
-- difference of the fills to src/executor/recovery.cpp, which is Executor/Recovery.antt
-- (create_plan, execute_with_retry, execute_order). The recovery manager has clients of its own. `RecoveryQueue`
-- of the same file, a queue of plans with a worker thread, is Executor/RecoveryQueue.antt.
--
-- src/executor/order_tracker.cpp: Executor/Tracker.antt and Executor/Tracker/Cleanup.antt, each
-- operation as one step under the lock, with what a callback is given as a result. The client order
-- id that ties the executor to the tracker is printed and read in Executor/ClientId.antt.
--
-- src/ops/daily_limit.cpp: `DailyLossLimiter` is Ops/DailyLimit.antt. record_trade, the change of what
-- is not realized, reset and the settings are functions of these names; the alarms that
-- check_and_trigger raises are kept in the order in which they are told. Ops/DailyLimit/Figures.antt
-- has what is computed from the statistics.
--
-- src/common/account_manager.cpp: the accounts and what changes them are Accounts.antt, select_account
-- with its five strategies is Accounts/Select.antt, and the balances are Accounts/Totals.antt.
--
-- include/arbitrage/infra/tcp_protocol.hpp and src/infra/tcp_client_manager.cpp: messages and their
-- bytes are Infra/Frames.antt, what a message of a client does is Infra/Session.antt, and
-- handle_received_data with its loop is Infra/Receive.antt.
--
-- src/infra/shutdown.cpp: `ShutdownManager` is Infra/Shutdown.antt. The thread that runs do_shutdown is
-- counted from initiate_shutdown on, and an exception of a callback ends the program.
--
-- include/arbitrage/common/memory_pool.hpp: `FixedMemoryPool` is Pool.antt, with the free list in the
-- first words of the blocks, as in the source.
--
-- Shared helpers: Base.antt (lists, tests, searching), Bits.antt and Word.antt (masks and `uint64_t`),
-- Window.antt and Cursor.antt (positions that go round a buffer of a power of two).
--
-- Bounds. A `uint64_t` is a number with its wrap-around written out. The theorems on ShmRingBuffer
-- and MPSCQueue bound the number of pushes by 2^64. Shared memory is sequentially consistent: every
-- access takes effect in program order. The retry loop of the recovery has the fuel
-- max_retries - retry_count + 1, of which each round uses one, and it is proved to return; the
-- digits of an `int64_t` are at most 19. The parse loop of the TCP server has the length of the buffer
-- and one as fuel, of which each message takes one round and eight bytes at least; more fuel is proved to
-- change nothing. available_approx goes through at most as many blocks as there are.
--
-- Not modelled: memory orders weaker than sequential consistency, destructors, threads that only run
-- a modelled call elsewhere, the texts of messages, waiting, the latencies of single legs, and the
-- parts that are input and output (exchange connections, configuration, logging, sockets, screens).
-- `ShmLatestValue::close` and its liveness queries repeat those of the queues. ObjectPool and
-- PoolAllocator, the timer of the loss limiter, the files of the account manager, the rate limiter and
-- the watchdog have no model here.
pub mod Accounts
pub mod Base
pub mod Bits
pub mod Window
pub mod Whole
pub mod Word
pub mod Cursor
pub mod Executor
pub mod Fifo
pub mod Infra
pub mod Ipc
pub mod Lockfree
pub mod Ops
pub mod Pool
