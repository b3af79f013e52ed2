-- ===== src/Queue.antt =====
-- src/core/ThreadQue.h and src/core/background.h: the queue between threads and the worker.
pub mod ThreadQue
pub mod Threads
pub mod Fifo
pub mod Background
pub mod Laws
pub mod Worker
