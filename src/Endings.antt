-- ===== src/Endings.antt =====
-- t_pthread_create.c, t_pthread_create_2.c, t_pthread_detach.c and t_pthread_attr.c, whose `main` does not
-- join its thread.
pub mod Defs
pub mod Abandoned
mod Examples
