-- ===== src/Joins.antt =====
-- t_pthread_join.c and t_pthread_join2.c, what a thread returns to the one that joins it.
pub mod Single
pub mod Several
pub mod Results
mod Examples
