-- ===== src/Reactor/Kernel.antt =====
-- The system calls of myEpollReactor.c, as a parameter, and what <sys/epoll.h> and the socket calls
-- promise of the interest list of the one epoll instance.
use Prim.Native.Nat.{bit_and}
use linux_unix_system_progra.Prelude.{
  ℕ, ◌≡◌, ◌≢◌, Bool, not, ◌==◌, List, Option, none, some, update, All,
}
use linux_unix_system_progra.Syscall.{Reply, ok, fail}

abbrev pub epollin : ℕ
epollin = 1

abbrev pub epollout : ℕ
epollout = 4

-- `mask & flag` as a condition
unfoldable pub has : ℕ → ℕ → Bool
has mask flag = not (bit_and mask flag == 0)

pub data Op : Type 0 where
  ctl_add ctl_mod ctl_del : Op

-- `struct epoll_event`; `ptr` is `data.ptr`, the index of the entry of `Events` it points to.
pub record EpollEvent : Type 0 where
  pub events : ℕ
  pub ptr : ℕ

-- `none` as the event of `epoll_ctl` is NULL.
pub record Kernel : Type 1 where
  pub World : Type 0
  pub epoll_create : ℕ → World → Reply ℕ × World
  pub socket : World → Reply ℕ × World
  pub bind : ℕ → World → Reply ℕ × World
  pub listen : ℕ → ℕ → World → Reply ℕ × World
  pub epoll_ctl : Op → ℕ → Option EpollEvent → World → Reply ℕ × World
  pub epoll_wait : World → Reply (List EpollEvent) × World
  pub accept : ℕ → World → Reply ℕ × World
  pub recv : ℕ → ℕ → World → Reply ℕ × World
  pub send : ℕ → ℕ → World → Reply ℕ × World
  pub close : ℕ → World → Reply ℕ × World

pub record IsLawful (k : Kernel) : Type 0 where
  pub interest : k.World → ℕ → Option EpollEvent
  -- A new instance has an empty list; where none could be made there is none.
  pub create_empty : (n : ℕ) (w : k.World) (g : ℕ) → interest (k.epoll_create n w).1 g ≡ none
  pub socket_keeps : (w : k.World) (g : ℕ) → interest (k.socket w).1 g ≡ interest w g
  pub bind_keeps : (fd : ℕ) (w : k.World) (g : ℕ) → interest (k.bind fd w).1 g ≡ interest w g
  pub listen_keeps :
      (fd n : ℕ) (w : k.World) (g : ℕ) → interest (k.listen fd n w).1 g ≡ interest w g
  -- EEXIST: a registered descriptor is not added again.
  pub add_ok :
      (fd n : ℕ) (x : EpollEvent) (w w' : k.World)
      → k.epoll_ctl Op.ctl_add fd (some x) w ≡ (ok n, w')
      → (interest w fd ≡ none) × ((g : ℕ) → interest w' g ≡ update (interest w) fd (some x) g)
  -- EFAULT: a change needs an event to read.
  pub mod_null : (fd n : ℕ) (w w' : k.World) → k.epoll_ctl Op.ctl_mod fd none w ≢ (ok n, w')
  pub del_ok :
      (fd n : ℕ) (w w' : k.World)
      → k.epoll_ctl Op.ctl_del fd none w ≡ (ok n, w')
      → (g : ℕ) → interest w' g ≡ update (interest w) fd none g
  -- ENOENT is for a descriptor that is not registered.
  pub del_fail :
      (fd e : ℕ) (w w' : k.World)
      → k.epoll_ctl Op.ctl_del fd none w ≡ (fail e, w')
      → interest w fd ≡ none
  pub recv_keeps : (fd n : ℕ) (w : k.World) (g : ℕ) → interest (k.recv fd n w).1 g ≡ interest w g
  pub send_keeps : (fd n : ℕ) (w : k.World) (g : ℕ) → interest (k.send fd n w).1 g ≡ interest w g
  -- A new connection gets a descriptor that was not in use, so it is not in the list.
  pub accept_keeps : (fd : ℕ) (w : k.World) (g : ℕ) → interest (k.accept fd w).1 g ≡ interest w g
  pub close_drops :
      (fd : ℕ) (w : k.World) (g : ℕ) → interest (k.close fd w).1 g ≡ update (interest w) fd none g
  pub wait_keeps : (w : k.World) (g : ℕ) → interest (k.epoll_wait w).1 g ≡ interest w g
  -- Only registered descriptors are reported, by the pointer that was registered.
  pub wait_reports :
      (w w' : k.World) (rs : List EpollEvent)
      → k.epoll_wait w ≡ (ok rs, w')
      → All (λ r. (fd : ℕ) × (x : EpollEvent) × (interest w fd ≡ some x) × (x.ptr ≡ r.ptr)) rs
