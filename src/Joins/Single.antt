-- ===== src/Joins/Single.antt =====
-- t_pthread_join.c: a thread that returns the length of the text that it is given, and `main`, which
-- joins it and prints what it returned. The text of the program is `hello`.
use linux_unix_system_progra.Prelude.{ℕ, zero, suc, ◌≡◌, ◌≢◌, refl, List, [], ◌∷◌, arith}

-- strlen(3)
unfoldable pub strlen : List ℕ → ℕ
strlen [] = 0
strlen (zero ∷ bs) = 0
strlen (suc b ∷ bs) = suc (strlen bs)

abbrev pub hello : List ℕ
hello = b'H' ∷ b'e' ∷ b'l' ∷ b'l' ∷ b'o' ∷ b' ' ∷ b'H' ∷ b'e' ∷ b'Z' ∷ b'h' ∷ b'u' ∷ b'\n' ∷ 0 ∷ []

pub data Thread : Type 0 where
  unborn : Thread
  printing : Thread
  returned : (result : ℕ) → Thread

pub data Main : Type 0 where
  creating : Main
  joining : Main
  ended : (result : ℕ) → Main  -- has printed it, and calls pthread_exit
  failed : Main  -- by `exit` at an error

pub record System : Type 0 where
  pub thread : Thread
  pub main : Main

pub data Step (text : List ℕ) (s t : System) : Type 0 where
  create : s.main ≡ creating → t ≡ record { thread = printing; main = joining } → Step text s t
  create_fails : s.main ≡ creating → t ≡ record s { main = failed } → Step text s t
  run :
      s.main ≢ failed
      → s.thread ≡ printing
      → t ≡ record s { thread = returned (strlen text) }
      → Step text s t
  join :
      (result : ℕ)
      → s.main ≡ joining
      → s.thread ≡ returned result
      → t ≡ record s { main = ended result }
      → Step text s t
  join_fails : s.main ≡ joining → t ≡ record s { main = failed } → Step text s t

abbrev pub start : System
start = record { thread = unborn; main = creating }

pub data Reach (text : List ℕ) : System → Type 0 where
  here : Reach text start
  next : {s t : System} → Reach text s → Step text s t → Reach text t

module _ (text : List ℕ) where
  abbrev Returns : Thread → Type 0
  Returns unborn = Unit
  Returns printing = Unit
  Returns (returned result) = result ≡ strlen text

  abbrev Prints : Main → Thread → Type 0
  Prints creating x = x ≡ unborn
  Prints joining x = x ≢ unborn
  Prints (ended result) x = result ≡ strlen text
  Prints failed x = Unit

  Inv : System → Type 0
  Inv s = Returns s.thread × Prints s.main s.thread

  Step-Inv : (s t : System) → Step text s t → Inv s → Inv t
  unfolding Inv
  Step-Inv s t (create a e) (r, p) = ground arith
  Step-Inv s t (create_fails a e) (r, p) = ground arith
  Step-Inv s t (run b a e) (r, p) = ground arith
  Step-Inv s t (join n a b e) (r, p) = ground arith
  Step-Inv s t (join_fails a e) (r, p) = ground arith

  Reach-Inv : {s : System} → Reach text s → Inv s
  unfolding Inv
  Reach-Inv here = (tt, refl)
  Reach-Inv (next {s} {t} r m) = Step-Inv s t m (Reach-Inv r)

  -- What `main` prints is the length of the text.
  pub printed_length : {s : System} (n : ℕ) → Reach text s → s.main ≡ ended n → n ≡ strlen text
  unfolding Inv
  printed_length {s} n r e = let inv = Reach-Inv r in ground (arith, inv)
