-- ===== src/Clients/Texts.antt =====
-- The buffer of webprogramming/tcpClient.c: the text in it after a line or an answer is stored.
use linux_unix_system_progra.Prelude.{
  ℕ, zero, suc, ◌≤◌, ◌≡◌, ◌≢◌, refl, ap, ◌∙◌, List, [], ◌∷◌, ◌++◌, map, length, take, drop,
  length-take, arith,
}
use linux_unix_system_progra.Clients.Defs.{c_string, store}

pub c_string-stored : (l r : List ℕ) → c_string l ≡ l → c_string ((l ++ 0 ∷ []) ++ r) ≡ l
unfolding c_string
c_string-stored [] r h = refl
c_string-stored (zero ∷ bs) r h = h
c_string-stored (suc b ∷ bs) r h = ap (◌∷◌ (suc b)) (c_string-stored bs r (cc))

pub drop-stored : (l r : List ℕ) → drop (length l) ((l ++ 0 ∷ []) ++ r) ≡ 0 ∷ r
drop-stored [] r = refl
drop-stored (b ∷ bs) r = drop-stored bs r

pub length-map : (f : ℕ → ℕ) (l : List ℕ) → length (map f l) ≡ length l
length-map f [] = refl
length-map f (b ∷ bs) = ap suc (length-map f bs)

pub length-c_string : (l : List ℕ) → length (c_string l) ≤ length l
unfolding c_string
length-c_string [] = omega arith
length-c_string (zero ∷ bs) = omega arith
length-c_string (suc b ∷ bs) = omega (arith, length-c_string bs)

drop-part : (n : ℕ) (l r : List ℕ) → n ≤ length l → drop n ((l ++ 0 ∷ []) ++ r) ≡ drop n l ++ 0 ∷ r
drop-part zero [] r h = refl
drop-part zero (b ∷ bs) r h = ap (◌∷◌ b) (drop-part zero bs r (omega arith))
drop-part (suc n) [] r h = absurd (omega arith)
drop-part (suc n) (b ∷ bs) r h = drop-part n bs r (omega arith)

module _ (toupper : ℕ → ℕ) (keeps : (b : ℕ) → toupper (suc b) ≢ 0) where
  pub c_string-cons : (n : ℕ) (bs : List ℕ) → n ≢ 0 → c_string (n ∷ bs) ≡ n ∷ c_string bs
  unfolding c_string
  c_string-cons zero bs h = absurd (h refl)
  c_string-cons (suc n) bs h = refl

  pub c_string-capitals :
      (l r : List ℕ) → c_string l ≡ l → c_string (map toupper l ++ 0 ∷ r) ≡ map toupper l
  unfolding c_string
  c_string-capitals [] r h = refl
  c_string-capitals (zero ∷ bs) r h = cc
  c_string-capitals (suc b ∷ bs) r h =
      c_string-cons (toupper (suc b)) _ (keeps b)
      ∙ ap (◌∷◌ (toupper (suc b))) (c_string-capitals bs r (cc))

  -- The answer to the text of a buffer, read into it.
  pub c_string-answered :
      (buf : List ℕ)
      → c_string (store (map toupper (c_string buf)) buf) ≡ map toupper (c_string buf)
  unfolding c_string
  c_string-answered [] = refl
  c_string-answered (zero ∷ bs) = refl
  c_string-answered (suc b ∷ bs) =
      c_string-cons (toupper (suc b)) _ (keeps b)
      ∙ ap (◌∷◌ (toupper (suc b))) (c_string-answered bs)

  -- The answer to the first `n` bytes of a line that was stored, read over it.
  c_string-part :
      (n : ℕ) (l r : List ℕ)
      → c_string l ≡ l
      → c_string (map toupper (take n l) ++ (drop n l ++ 0 ∷ r))
        ≡ map toupper (take n l) ++ drop n l
  unfolding c_string
  c_string-part zero [] r h = refl
  c_string-part zero (zero ∷ bs) r h = cc
  c_string-part zero (suc b ∷ bs) r h = ap (◌∷◌ (suc b)) (c_string-part zero bs r (cc))
  c_string-part (suc n) [] r h = refl
  c_string-part (suc n) (zero ∷ bs) r h = cc
  c_string-part (suc n) (suc b ∷ bs) r h =
      c_string-cons (toupper (suc b)) _ (keeps b)
      ∙ ap (◌∷◌ (toupper (suc b))) (c_string-part n bs r (cc))

  pub c_string-store :
      (n : ℕ) (l r : List ℕ)
      → n ≤ length l
      → c_string l ≡ l
      → c_string (store (map toupper (take n l)) ((l ++ 0 ∷ []) ++ r))
        ≡ map toupper (take n l) ++ drop n l
  c_string-store n l r fits h =
      let size : length (map toupper (take n l)) ≡ n =
        length-map toupper (take n l) ∙ length-take n l ∙ omega (arith, fits) in
      rw (size, drop-part n l r fits) (c_string-part n l r h)
