-- ===== src/Timers.antt =====
-- signal/anytimer/timer.c and posix/anytimer/timer.c: timers that call a function after some
-- seconds. Alarm is the one under SIGALRM, and Threads the one with two threads.
pub mod Alarm
pub mod Threads
mod Tests
