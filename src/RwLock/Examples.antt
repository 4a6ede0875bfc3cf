-- ===== src/RwLock/Examples.antt =====
-- A run of t_pthread_rdlock.c.
use linux_unix_system_progra.Prelude.{◌<◌, ◌≡◌, refl, arith}
use linux_unix_system_progra.RwLock.Defs.{
  threads, System, ThreadStep, Step, by_thread, create, start, Reach, here, next,
}
use linux_unix_system_progra.RwLock.Isolation.{repeatable_read}

record Run : Type 0 where
  last : System
  path : Reach last

abbrev go : (r : Run) {t : System} → Step r.last t → Run
go r {t} m = record { last = t; path = next r.path m }

abbrev create_one : (r : Run) → r.last.created < threads → Run
create_one r lt = go r (create lt refl)

abbrev four_created : Run
four_created =
    create_one
      (create_one
        (create_one (create_one (record { last = start; path = here }) (omega arith)) (omega arith))
        (omega arith))
      (omega arith)

abbrev six_created : Run
six_created = create_one (create_one four_created (omega arith)) (omega arith)

-- The first reader has read.
abbrev one_reader : Run
one_reader =
    go (go six_created (by_thread 0 (omega arith) (ThreadStep.rdlock_free refl refl refl)))
      (by_thread 0 (omega arith) (ThreadStep.read refl refl))

-- The writer is inside.
abbrev one_writer : Run
one_writer =
    go (go one_reader (by_thread 0 (omega arith) (ThreadStep.unlock_reader 1000 refl refl)))
      (by_thread 5 (omega arith) (ThreadStep.wrlock refl refl refl))

repeatable_read_example : one_reader.last.beginnum ≡ 1000
repeatable_read_example = repeatable_read 0 1000 one_reader.path refl
