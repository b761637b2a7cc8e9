-- ===== src/Sync.antt =====
-- Synchronisation over the wait queues of the scheduler: futexes, semaphores, mutexes, conditions and read/write locks.
pub mod Futex
pub mod Sem
pub mod Mutex
pub mod RwLock
mod Tests
