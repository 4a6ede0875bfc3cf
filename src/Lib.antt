-- ===== src/Lib.antt =====
-- A model of the programs of this repository, which exercise sockets, threads and signals on Linux.
-- Each program stands alone; none calls another, and HSocket.c is a library of wrappers for them.
-- What they share is the conventions of the system calls (Syscall.antt), and Prelude.antt for the
-- names, Boolean tests, lists, tables and sums that all of the modules use.
--
-- Files and code:
--   HSocket: webprogramming/HSocket.c and HSocket.h. HSocket/Kernel.antt is the interface of the
--     system calls: what a program here calls is a field of a record, and the documented behaviour of
--     read(2) and write(2) on a stream are the records Inbound and Outbound. Wrappers.antt has Socket,
--     Bind, Listen, Connect, Accept, Read, Write and Close; Transfer.antt has ReadN and WriteN. A
--     result is `returns`, `exits` for a call of exit(3), or `unfinished` where the fuel of a loop ran
--     out. Wire.antt and Pipe.antt are kernels that meet the assumptions, the second one with both ends
--     of a stream.
--   Reactor: myEpollReactor.c. Defs.antt has the table Events, setevent, eventadd, eventdel, the three
--     handlers and main; the callback of an entry is a value of the type Callback in place of a
--     pointer to a function. Invariant, Handlers, Accepting and Loop carry the invariant through them.
--     Protocol.antt is the server as its connections see it: the phase of each entry, and its moves.
--   EchoServer: webprogramming/tcpServer.c, over the kernel of HSocket; toupper is a parameter.
--   ForkServer: webprogramming/multi_processor_server.c, over the same kernel with fork and waitpid.
--     One run is that of one process, which is the parent or the child by the answer of fork.
--   MultiThread: webprogramming/multi_thread_server.c, the slots and the threads of the server; Service
--     is the loop of one worker, with the contents of the messages.
--   ProducerConsumer: producer_consumer_model.c, compiled with USE_COND_VAR as it stands.
--   Polling: prod_no_condvar.c, a number of producers and main, which polls; the integer that each
--     argument names is a parameter.
--   ThreadInc: thread_inc.c, two threads that count in one variable with no mutex; as the variable is not
--     volatile, a thread may keep it in a register over rounds of its loop.
--   ThreadCleanup: t_thread_cleanup.c, a thread with a clean-up handler that is cancelled or signalled.
--   RecordLocks: the programs that lock parts of a file. Command and Interactive are i_fcntl_locking.c,
--     the reading of a line and the loop; Holding is t_fcntl_locking.c, and its lock_file file_lock.c.
--     open, fcntl, fgets, sscanf and atoi are parameters.
--   Clients: webprogramming/tcpClient.c and webprogramming/client.c, over the kernel of HSocket.
--   Dialogue: a client of tcpClient.c connected to tcpServer.c. Connection.antt is what the two sockets
--     are assumed to do, in which no write is cut and no byte is late; a turn is one round of the loop of
--     the server. Lines.antt puts both together.
--     Stop.antt is the handler of signals of the clients with a worker of multi_thread_server.c.
--   Abort: abort.c, over the calls on SIGABRT as a parameter.
--   Suspend: simpleSuspend.c, over the calls on sets of signals and on the mask.
--   RwLock: t_pthread_rdlock.c, the readers and writers of a number.
--   ErrorCheck: t_pthread_mutexattr.c, one thread that locks a mutex and one that unlocks it.
--   Joins: t_pthread_join.c (Single) and t_pthread_join2.c (Several), threads that return a value.
--   Cancel: t_pthread_cancel.c and t_pthread_cancel2.c, an endless thread that main cancels.
--   Endings: t_pthread_create.c, t_pthread_create_2.c, t_pthread_detach.c and t_pthread_attr.c, threads
--     that are not joined. The four programs differ in what main does behind pthread_create, which
--     tables by the program give; their steps are the same.
--   Signals: webprogramming/killfrom.c (Killfrom) and t_sigqueue.c (Sigqueue), over the calls that send
--     a signal and those that read a number; Sent.antt has the lists of what is sent.
--   Daemon: Daemon/daemon_1.c; the alarms of its timer are counted by the kernel, which is assumed to
--     send them a minute apart.
--   JoinTerm: thread_joinTerm.c, five threads and the one that joins them.
--   MultiJoin: thread_multijoin.c, twice. In Defs what other threads do while main waits is an argument
--     of main, which computes; in Threads they are threads, and a step is one of theirs or of main's.
--
-- Programs with threads are step relations: a state has the shared variables, the owner of the mutex
-- and the place where each thread stands, and a step is one access to a shared variable or one call of
-- pthreads. A mutex is taken only when it is free; pthread_cond_wait may also return with no signal;
-- where a thread tests the result of a call, the process may end at the call instead. `Reach` is
-- reachability by such steps, in any order. `Run` (Prelude/Runs.antt) is the same with the number of
-- the steps, and of those that are counted apart, such as wake-ups with no signal; a measure that the
-- other steps reduce bounds the length of every run.
--
-- Numbers are natural numbers: descriptors, lengths and process numbers are not negative where a
-- function uses them, and the -1 of a failed call is the `fail` of its answer; client.c, which does not
-- look at it, has a number that stands for the descriptor -1. Counters that go below zero, and the
-- numbers of killfrom.c, t_sigqueue.c and prod_no_condvar.c, are integers (Prelude/Int.antt). Overflow
-- of int is undefined: in thread_inc.c and prod_no_condvar.c a step that would go beyond INT_MAX is no
-- step. Elsewhere it is left out: TOTAL_COUNT is 20000, lengths are at most that of a buffer, and only
-- t_sigqueue.c counts up to a number from its arguments. Fuel bounds the rounds of a loop. What is
-- enough is a measure that every round reduces: the bytes to transfer and the interrupts to come for
-- ReadN and WriteN, the bytes of the client for the echo server, the children that have ended for
-- recycle, the numbers to be sent for killfrom.c and t_sigqueue.c. The daemon, the clients and the
-- workers of the threaded server have loops with no end of their own: what is said of them holds for
-- any fuel.
--
-- Not modelled: what the programs print, but for the lines of tcpClient.c, simpleSuspend.c, the lock
-- programs and t_pthread_join2.c; the contents of socket addresses; the delivery of a signal in the
-- middle of a function, but for SIGUSR1 in the threaded server; and t_pthread_equal.c, whose main
-- prints one line.
pub mod Prelude
pub mod Syscall
pub mod HSocket
pub mod Reactor
pub mod ProducerConsumer
pub mod JoinTerm
pub mod MultiJoin
pub mod MultiThread
pub mod EchoServer
pub mod ForkServer
pub mod ThreadInc
pub mod Polling
pub mod ThreadCleanup
pub mod RecordLocks
pub mod Clients
pub mod Abort
pub mod Signals
pub mod Joins
pub mod Cancel
pub mod Daemon
pub mod Endings
pub mod Dialogue
pub mod Suspend
pub mod ErrorCheck
pub mod RwLock
