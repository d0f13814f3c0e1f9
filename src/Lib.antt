-- ===== src/Lib.antt =====
-- kernel_net: a verification library for the repository's queues and TCP echo servers.
--
-- The program has two halves. ring_buffer.cc is a lock-free ring buffer for one producer and one
-- consumer; ring_buffer_benchmark.cc runs a second copy of it, and a queue behind a mutex, between
-- two threads. echo_server/ is an echo server in four flavors. In the epoll and kqueue flavors a
-- network thread accepts and reads, and hands tasks that echo or close to the workers of
-- common/thread_pool. The io_uring flavors have one thread, which keeps each client in a cycle of
-- receive and send entries and carries a heap-allocated request through the kernel with each.
--
-- Files:
--   Prelude, Prelude/     names of the libraries, lists and tests over the native numbers, families
--                         indexed by a number, signed results of system calls
--   Ring                  ring_buffer.cc: SPSCRingBuffer, its constructor, push and pop, as functions
--                         on a record; an index is a number below 2^64 and wraps
--   Ring/Queue            the bounded queue that a ring buffer stands for
--   Ring/Size, Ring/Demo  the static_assert on the size; the main function of ring_buffer.cc
--   BenchRing             ring_buffer_benchmark.cc: bench_ring and its SPSCRingBuffer, one atomic access
--                         a step. A load with acquire order may return an older index than the newest,
--                         between what that thread has seen and what is stored
--   MutexQueue            ring_buffer_benchmark.cc: MutexQueue and bench_mutex, where what a thread does
--                         under the mutex is one step
--   ThreadPool            common/thread_pool.{h,cpp}: worker_loop, enqueue and stop, as interleaved steps
--   Uring                 the entries of the two rings of liburing, which the io_uring flavors share
--   IoUring               flavors/iouring/server.{h,cpp}; IoUring/Run has the whole loop, shutdown and
--                         the destructor
--   IoUringZc             flavors/iouring_zc/server.{h,cpp}, and IoUringZc/Run likewise;
--                         IoUringZc/Translates and IoUringZc/Alike relate it to IoUring
--   Epoll                 flavors/epoll/server.{h,cpp}: constructor, event_loop, accept_connection,
--                         handle_read and the tasks; Epoll/Pool has the network thread beside workers
--                         and a queue, Epoll/Composed has it beside the pool of ThreadPool, Epoll/Run
--                         the whole loop, shutdown and the destructor
--   Kqueue                flavors/kqueue/server.{h,cpp}, on the state and the tasks of Epoll; Kqueue/Run
--                         has the whole loop, shutdown and the destructor
--   Arguments             the loop over argv that all main functions share; Arguments/Items has the items
--                         that it reads
--   ServerInterface       common/server_interface.h, with the io_uring servers behind it;
--                         ServerInterface/Elsewhere has the stubs for other platforms
--   Main                  flavors/*/main.cpp: the four main functions, from the arguments to the exit
--                         code, with the whole run of their server (the pool left aside for epoll and
--                         kqueue); Main/Signals has the signal handlers
--   Client                bench/bench_client.cpp: run_benchmark, its threads one after another;
--                         Client/Effects and Client/Schedules have them under any schedule;
--                         Client/Config has the arguments, Client/Program the main function
--   Benchmark             ring_buffer_benchmark.cc: the main function, with the rates that it computes
-- The children of a module hold its invariants and theorems, each file says which, and a module
-- `Tests` holds runs on concrete inputs.
--
-- How code is modelled. A function of the program is a function with the program's name on a record
-- of the fields that it uses. A result of a system call is an argument, a signed number or a list of
-- answers in the order of the calls. `none` is a use or release of a request that is not allocated
-- in the io_uring flavors, and a loop that has not ended with the answers given in the epoll flavor
-- and the client, where it also stands for a division by zero or a read past the end; the structural
-- recursion on the answers is the only bound there. Threads are steps of a relation on the whole
-- state, and a reachable state is one at the end of some sequence of steps: every interleaving is
-- one.
--
-- What is assumed of code outside the repository:
--   * a slot vector of 2^k slots has k at most 63, since a length is a size_t; bench_ring sends fewer
--     than 2^64 messages, since its count is a size_t
--   * a mutex has at most one holder; wait releases it, sleeps and locks it again, may wake for no
--     reason, and a notification reaches only threads that sleep already
--   * a task that a worker executes comes to an end, in one step of ThreadPool; Epoll/Write is about the
--     loop of an echo, which runs on while its client does not read
--   * io_uring (`Completes`): each entry that was submitted completes once, with its own user data.
--     This is not so for zero-copy sends, which complete twice; IoUringZc/Notify is about these
--   * io_uring_get_sqe (`sqe_left`): whether an entry is left depends on how many have been prepared
--     since the last submit; a theorem that needs one says so of its run (`Roomy`); IoUring/Few is
--     about when that is so
--   * epoll (`Pool.Step`): only descriptors that are watched are reported, accept4 returns a descriptor
--     that is not open, and closing a descriptor ends its watch; the steps leave out events with
--     EPOLLERR, which the function handle_event handles; Epoll/Run and Kqueue/Run also record when such
--     an event makes the loop close the listening descriptor
--   * the client's schedules leave alone what its system calls answer and how long a request takes
--   * numbers (`Numbers`, `Doubles`): what stoi and stoul make of a text, and the floating-point
--     operations of the client and of the benchmark, are parameters; a read returns no more than was
--     asked for
--
-- Not modelled: messages and timing; the warm-up of the benchmark, whose results are not used; the
-- scripts and documents. In the Run modules a signal is a call of shutdown, at any time.
pub mod Prelude
pub mod Ring
pub mod BenchRing
pub mod MutexQueue
pub mod ThreadPool
pub mod Uring
pub mod IoUring
pub mod IoUringZc
pub mod ServerInterface
pub mod Epoll
pub mod Kqueue
pub mod Arguments
pub mod Main
pub mod Client
pub mod Benchmark
