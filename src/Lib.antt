-- ===== src/Lib.antt =====
-- Models and proofs for sigmax, a trading program: a bounded multi-producer queue, an order store, a
-- client of an exchange's market data, and the program around them.
--
-- The parts and their files. Paths are those of the repository.
--   QueueState, MpscQueue      src/sigmax/mpsc_queue.hpp, called by one thread. The record's fields are
--                              the cells' data and sequence numbers (m_data), m_head, m_tail and the two
--                              counts; m_buffer_mask is the parameter C. push_back is PushBack, made of
--                              the loop (push_loop) and what follows the claim of a position (publish);
--                              pop is Pop, with pop_loop and release; init is the constructor.
--     Words, Index             the 64-bit arithmetic, and which cell a position stands for
--     Valid, Refine, Client    when a queue is valid; each call, and each sequence of calls, against
--                              Fifo, the list that the queue stands for
--     Counts                   GetPushCount and GetPopCount against the length of the list
--     OneCell                  a capacity of one
--   Fifo                       the specification for one caller: a list with a bound
--   SharedFifo                 the specification for many callers: a shared list, the calls that are
--                              in progress, and which step of a call may do what, with the calls and
--                              answers that the callers see as events
--     Told, Keep, Through      the elements pushed and popped as the events of a run tell them
--     Callers                  how often each thread has called
--   Threads                    the same two functions called by any number of threads, as a step
--                              relation. Pc is where a thread stands, advance is one step, observe
--                              a load that is late, act a choice of the scheduler, Reach the states
--                              that some interleaving reaches
--     Invariant                the invariant, and each step against it
--     Safety, Quiet, Order, Answers   what follows from it
--     Refine, Consumer         the queue as a SharedFifo; many producers and one consumer
--     Counts                   the two counts
--     Retries                  how many steps a call takes among those of the other threads, and how
--                              many all calls in progress take together
--     Room                     the calls of PushBack against the positions claimed: when none is refused
--     Alone, Progress          the steps of a thread that runs alone, against push_back and pop
--     Sides, Taking            threads that only push or only pop; a Pop that finds an element
--     Play                     interleavings played out
--   OrderType                  src/sigmax/order_type.hpp
--   Database                   src/sigmax/database.cpp: update_db is UpdateDb (append_sorted and introduce
--                              are its two branches), get_orders and get_orders_range are the two
--                              GetOrders, save_db_to_file is SaveDbToFile
--     Valid, History           the store between calls; sequences of calls
--     Range, Race              the query over timestamps; two first updates at once
--     Concurrent               every function of the store called by any number of threads, as a step
--                              relation: Pc, advance, act and Reach as for the queue
--       Locks, Stock, Paid, Invariant   the three parts of the invariant, and the whole
--       Moves, Step, Known     each step against it, and what follows from it
--       Alone                  the steps of a thread that runs alone, against the functions whole
--   Std                        the parts of the standard library that the store uses: std::map as an
--                              association list, std::lower_bound as the halving search
--   BinanceApi                 src/sigmax/binance_api.cpp: connect, read_frame, close_stream and
--                              build_subscribe_message are Connect, Read, Close, BuildSubscribeMessage
--     Connect                  Connect against a table of its calls
--     Message, Symbols         the message as JSON: its brackets, and its string literals
--   Logger                     src/sigmax/log.hpp and src/sigmax/log.cpp
--   App                        src/sigmax/sigmax_app.cpp and src/sigmax/sigmax_exit_codes.hpp: main starts
--                              the logger, connects and starts the reading thread
--   Benchmark                  benchmarks/benchmark_utils.cpp (CpuInfo, Switch, X86, Arm, Names) and
--                              benchmarks/mpsc_queue_benchmark.cpp (Run: reader, save_benchmark_results,
--                              run_benchmark and main); Sizes: the sizes that its switch takes;
--                              Json, Report and Results: what its file holds; Main: how it
--                              ends
--     Load                     the threads of RunBenchmark on the queue (begin_write, begin_read and
--                              run_step are what a writer and the reader do), what they count, and
--                              how they stop once the flag is set
--   Fuzz                       fuzz_test/fuzz_tester.cpp
--   UnitTests                  test/mpsc_test.cpp
--     Single                   the tests with one thread, as lists of their calls and expected answers
--     Concurrent               the tests with writers and a reader (begin_push, begin_pop and
--                              take_answer are what their loops do)
--       Writer, Reader, Linked, Steps, Turn, Reached   the loop variables against the calls and answers
--       Parts, Passed          what the tests expect
--       Finish, Rounds, Takes, Ends   how a run goes on to its end
--   Totals                     sums of tables
--   Base                       what they share: numbers, lists, integers, texts, fallible answers
--
-- Bounds and fuel. std::size_t is a number with its wrap-around modulo 2^64 written out, and the
-- signed difference is exact on its two casts. The list of Booleans given to push_back and pop says
-- which compare-exchanges fail for no reason, as a weak one may; its length is the fuel of the loop,
-- and one entry that does not fail is enough. Positions grow by one with each accepted element and
-- the theorems ask them to stay C below 2^63. A capacity of 2 or more is part of validity.
-- The search of lower_bound has its length as fuel; each round leaves less than it found. The step
-- relations have no fuel: a run has any length.
--
-- A load of the queue yields the last value stored, or, where Reach, LoadReach, TestReach,
-- Within, Draining and Winding are late, any value that the variable may have had before: the release stores and the
-- exchanges take effect in one order that all threads agree on, but each thread may see them late.
-- The flag of the benchmark is a plain bool, whose write each thread sees at a time of its own or
-- never.
-- What else the memory orders allow, the profiling zones and the log lines of the queue are not
-- modelled. The sort of the store is a parameter with the contract of std::sort (Sorter); two
-- orders of one timestamp may come in either order. Of the network library it is a parameter which
-- calls fail and what they yield, of the log library which
-- lines it writes and whether the creation of a logger throws. The JSON, processor
-- and command-line libraries of the benchmark are parameters too, as are the answers that its
-- reader gets where its threads are left out (Run); the waiting of its main thread is any number
-- of steps (Load). An int of the fuzz target overflows at 2^31; the counters of the benchmark do
-- not overflow. In the tests of the queue the promises that start the threads together are left
-- out: a thread may begin at any moment.
-- Not modelled: the scripts and the build.
mod Base
mod Totals
pub mod Std
pub mod OrderType
pub mod Database
pub mod BinanceApi
pub mod QueueState
pub mod Fifo
pub mod SharedFifo
pub mod MpscQueue
pub mod Threads
pub mod Logger
pub mod App
pub mod Fuzz
pub mod Benchmark
pub mod UnitTests
