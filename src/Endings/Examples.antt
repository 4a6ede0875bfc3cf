-- ===== src/Endings/Examples.antt =====
-- t_pthread_create.c and t_pthread_create_2.c.
use linux_unix_system_progra.Prelude.{◌≢◌, ◌↔◌}
use linux_unix_system_progra.Endings.Defs.{create, create_2}
use linux_unix_system_progra.Endings.Abandoned.{Abandoned, abandons_iff}

abandons_iff_example : Abandoned create ↔ (create ≢ create_2)
abandons_iff_example = abandons_iff create
