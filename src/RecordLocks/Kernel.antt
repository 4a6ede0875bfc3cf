-- ===== src/RecordLocks/Kernel.antt =====
-- The calls of open and fcntl by i_fcntl_locking.c, t_fcntl_locking.c and file_lock.c, as a
-- parameter, with the values of <fcntl.h> that the programs name.
use linux_unix_system_progra.Prelude.{ℕ}
use linux_unix_system_progra.Prelude.Int.{ℤ}
use linux_unix_system_progra.Syscall.{Reply}

pub data Cmd : Type 0 where
  f_getlk f_setlk f_setlkw : Cmd

pub data LockType : Type 0 where
  f_rdlck f_wrlck f_unlck : LockType

pub data Whence : Type 0 where
  seek_set seek_cur seek_end : Whence

-- What a program writes into a `struct flock`.
pub record Flock : Type 0 where
  pub l_type : LockType
  pub l_whence : Whence
  pub l_start : ℤ
  pub l_len : ℤ

-- A lock of another process that F_GETLK reports; `f_unlck` as its type says that there is none.
pub record Found : Type 0 where
  pub found_type : LockType
  pub found_start : ℤ
  pub found_len : ℤ
  pub found_pid : ℕ

pub record Kernel : Type 1 where
  pub World : Type 0
  pub open_file : World → Reply ℕ × World
  pub fcntl : ℕ → Cmd → Flock → World → Reply Found × World

abbrev pub eacces : ℕ
eacces = 13

abbrev pub edeadlk : ℕ
edeadlk = 35
