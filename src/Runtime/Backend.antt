-- ===== src/Runtime/Backend.antt =====
-- How a thread waits for a task on the backends of oox/oox.h: on a mutex and a condition variable
-- (Twist), on a promise (the plain implementation), on a promise behind a once-flag (Taskflow), and on a
-- taskwait (OpenMP). The mutex, the condition variable and the promise are not in the repository; they
-- are taken to behave as the C++ standard says, and the taskwait as the OpenMP standard.
pub mod Condition
pub mod Promise
pub mod Taskwait
