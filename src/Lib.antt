-- ===== src/Lib.antt =====
-- A verification of the programs of lhq-LinuxC: exercises and small servers for Linux, each a
-- program of its own. Modelled are the parts with a state and logic of their own.
--
-- The internet radio, socket/stream_media. The server scans a directory of music for channels
-- (server/medialib.c), sends a playlist (server/thr_list.c), and reads each channel at the rate of
-- a token bucket (server/mytbf.c); the client lists the playlist (client/client.c).
--   * TokenBucket: server/mytbf.c. The record Module is job[], the memory of the buckets and the
--     number of threads and clean-ups; every function but that of the thread has a definition.
--     A section under a mutex is one step. Table holds what job[] needs of any bucket.
--   * Radio, Radio.Playlist: include/proto.h, the packet of thr_list.c, and the listing of client.c.
--   * Radio.Writen: writen of client/client.c. Radio.Client: the choice of a channel and the receiving
--     of its packets in client.c, where what writen answers is an argument.
--   * OldBucket: server/mytbf_old.c, the buckets before their revision.
--   * Radio.Library, Radio.Scan: server/medialib.c, reading a channel and scanning the directories.
--     mlib_readchn calls mytbf_fetchtoken and mytbf_returntoken of TokenBucket, and what others do to
--     the buckets between the two is an argument; path2entry calls mytbf_init. An array gl_pathv has
--     a null pointer behind its paths: a read of that element is inside.
--   * Radio.Senders: server/thr_channel.c, the table of the threads that send the channels.
--   * Radio.Server: server/server.c, options and run modes, the start of the threads and the exit by
--     a signal, with thr_list_create and thr_list_destroy of thr_list.c and mlib_freechnlist of
--     medialib.c. It calls Radio.Senders. What mlisb_getchnlist finds is an answer; the timer threads
--     that the token buckets start are not among its threads.
--
-- The relays of two terminals, advancdIO. Relay holds struct fsm_st and branch, which the four
-- programs share; Relay.Copy is mycpy.c, Relay.Select is select.c, Relay.Poll is poll.c and
-- Relay.Epoll is epoll.c, each with its transport.
--
-- The pools of processes, socket/processPool. Pool holds the table of tasks and its loops;
-- Pool.Server is server.c, Pool.Test is test.c and Pool.Others is others.c.
--
-- The counting semaphore, posix/semaphore/sem.c, is Semaphore: its calls in the order of the mutex.
--
-- The token buckets of a program with one thread, signal/tokenBucket.c, are SignalBucket.
--
-- The token buckets that a thread refills, posix/other/tbf/mytbf.c, are ThreadBucket: the module
-- with every function, and in Levels an independent description without table and slots, which
-- Refine compares with it over sequences of calls. It shares Table with TokenBucket.
--
-- The timers: Timers.Alarm is signal/anytimer/timer.c, with Deadlines an independent description by
-- the time at which a timer is due, and Timers.Threads is posix/anytimer/timer.c, where pointers to
-- timers may dangle.
--
-- The searches for primes: Primes has the test of a number in posix/prime.c, Primes.HandOver the
-- hand-over of numbers to threads in posix/ai.c, step by step under its mutex and its condition
-- variable, Primes.Spinning posix/thread_pool.c as a relation between states, and Primes.Bounded
-- posix/semaphore/main.c over Semaphore, where the output of a thread, its Sem_Ret and its
-- pthread_exit are steps of their own.
--
-- The file copies: Cat is signal/mycat.c, signal/AIgeCat.c and signal/leaky_bucket.c, which copy
-- in the same way; the answers of open, read and write and the alarms are a sequence.
--
-- The file server over a queue of messages, IPC/myftp, is Ftp: the machines of server.c and client.c
-- and what they share. The shell process/mysh.c is Shell: taking a line apart, with glob an argument.
--
-- Base has lists, Boolean tests, the int of 32 bits with its wrap-around, and the search for a free
-- slot.
--
-- What a call of the system answers is an argument of the definition, and what is documented of an
-- answer (read returns at most the bytes asked for) is a field of its record. A fault, such as a
-- dangling pointer or an access outside an array, is a result of its own.
--
-- Fuel: the rounds of mlib_readchn, and the repeated calls of poll and epoll_wait, are bounded by a
-- number. For mlib_readchn two rounds are enough where a song can be opened and read; a run of a
-- relay has one round for each answer in a list, and a run whose answers are used up is `running`.
-- writen needs at most as many calls of write as there are bytes, where each call takes some; its
-- numbers and the size of the playlist are ints, and a number from 2 ^ 31 on does not fit them.
-- The loops of the pool have at most as many rounds as their first bound.
--
-- A run of the file copies has one step for each answer; two more answers by a number than twice
-- the length of the file are enough. A run of Primes.HandOver has one step for each event of the
-- scheduler and no bound: a signal that wakes the wrong thread can leave all of them asleep.
--
-- Two rounds are enough for each machine of Ftp, and one more than the length of a line for the shell.
--
-- Not modelled: the setup of sockets and signals, the sending loops of the radio server,
-- posix/tokenBucket.c, and the exercises that show one system call each.
pub mod Base
pub mod Cat
pub mod Ftp
pub mod OldBucket
pub mod Pool
pub mod Primes
pub mod Radio
pub mod Relay
pub mod Semaphore
pub mod Shell
pub mod SignalBucket
pub mod Table
pub mod ThreadBucket
pub mod Timers
pub mod TokenBucket
