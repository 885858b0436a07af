-- ===== src/Jobs.antt =====
-- internal/jobs/manager.go: the manager of asynchronous jobs. The map holds pointers to jobs that a
-- running goroutine shares, so jobs live in a heap and the map holds addresses. A method is a
-- function of the manager that holds the lock for its whole body; what it does after unlocking
-- (cancelling contexts, the `onDone` call) is a part of its result. A `time.Time` is a number of
-- nanoseconds since Go's zero time, which is 0.
pub mod Defs
pub mod Ops
mod Count
mod Heaps
mod Signals
mod Oldest
pub mod Eviction
pub mod Expiry
pub mod Invariant
pub mod Methods
pub mod Steps
pub mod Steady
pub mod Lifecycle
pub mod Results
pub mod Stop
pub mod Blocked
