-- ===== src/TcpServer/Names.antt =====
-- Net/TcpServer.cpp: the names of the connections are different.
use ioloop.Prelude.{
  same_text, ℕ, zero, suc, ◌+◌, ◌-◌, ◌*◌, ◌/◌, ◌%◌, ◌^◌, ◌≤◌, ◌<◌, ◌≡◌, refl, sym, ap, ◌∙◌, List,
  [], ◌∷◌, ◌++◌, true, ltb, ◌==◌, length, length-append, take, arith, Bool-cases, inl, inr,
}
use ioloop.TcpServer.{digits, print_int, conn_name}

-- The number that digits stand for, behind those that were read.
abbrev value : ℕ → List ℕ → ℕ
value n [] = n
value n (d ∷ ds) = value (n * 10 + (d - 48)) ds

value-append : (n : ℕ) (ds : List ℕ) (d : ℕ) → value n (ds ++ d ∷ []) ≡ value n ds * 10 + (d - 48)
value-append n [] d = refl
value-append n (e ∷ ds) d = value-append (n * 10 + (e - 48)) ds d

abbrev powers : ℕ → ℕ
powers zero = 10
powers (suc k) = 10 * powers k

value-digits : (k n : ℕ) → n < powers k → value 0 (digits k n) ≡ n
unfolding digits
value-digits zero n h = omega (arith, h)
value-digits (suc k) n h =
    let l : n / 10 < powers k = omega (arith, h) in
    let v = value-append 0 (digits k (n / 10)) (48 + n % 10) in
    elim (Bool-cases (ltb n 10)) [
      | inl p ↦ ground (arith, p)
      | inr p ↦ ground (arith, p, v, value-digits k (n / 10) l)
    ]

length-digits : (k n : ℕ) → length (digits k n) ≤ suc k
unfolding digits
length-digits zero n = omega arith
length-digits (suc k) n =
    ground (arith, length-append (digits k (n / 10)) ((48 + n % 10) ∷ []), length-digits k (n / 10))

take_all : (n : ℕ) (xs : List ℕ) → length xs ≤ n → take n xs ≡ xs
take_all zero [] h = refl
take_all (suc n) [] h = refl
take_all zero (x ∷ xs) h = absurd (omega (arith, h))
take_all (suc n) (x ∷ xs) h = ap (λ l. x ∷ l) (take_all n xs (omega (arith, h)))

same_prefix : (xs ys zs : List ℕ) → xs ++ ys ≡ xs ++ zs → ys ≡ zs
same_prefix [] ys zs e = e
same_prefix (x ∷ xs) ys zs e = same_prefix xs ys zs (ground (arith, e))

-- The whole name fits.
whole :
    (name ip : List ℕ) (n : ℕ)
    → length ip ≤ 51
    → n < 2 ^ 31
    → conn_name name ip n ≡ name ++ 45 ∷ (ip ++ 35 ∷ digits 9 n)
unfolding conn_name print_int
whole name ip n h l =
    let p : print_int n ≡ digits 9 n = ground (arith, l) in
    ap (λ ds. name ++ take 63 (45 ∷ (ip ++ 35 ∷ ds))) p
    ∙ ap (λ ds. name ++ ds)
        (take_all 63 (45 ∷ (ip ++ 35 ∷ digits 9 n))
          (omega (arith, h, length-append ip (35 ∷ digits 9 n), length-digits 9 n)))

-- Connections with different numbers below 2^31 have different names, where the address has at
-- most 51 characters, so that `snprintf` does not cut the number off.
pub conn_name-injective :
    (name ip : List ℕ) (m n : ℕ)
    → length ip ≤ 51
    → m < 2 ^ 31
    → n < 2 ^ 31
    → conn_name name ip m ≡ conn_name name ip n
    → m ≡ n
conn_name-injective name ip m n h p q e =
    let t = sym (whole name ip m h p) ∙ e ∙ whole name ip n h q in
    let u = same_prefix name (45 ∷ (ip ++ 35 ∷ digits 9 m)) (45 ∷ (ip ++ 35 ∷ digits 9 n)) t in
    let v : ip ++ 35 ∷ digits 9 m ≡ ip ++ 35 ∷ digits 9 n = ground (arith, u) in
    let w = same_prefix ip (35 ∷ digits 9 m) (35 ∷ digits 9 n) v in
    let x : digits 9 m ≡ digits 9 n = ground (arith, w) in
    sym (value-digits 9 m (omega (arith, p))) ∙ ap (value 0) x ∙ value-digits 9 n (omega (arith, q))

same_text-eq : (xs ys : List ℕ) → same_text xs ys ≡ true → xs ≡ ys
same_text-eq [] [] h = refl
same_text-eq [] (y ∷ ys) h = absurd (ground (arith, h))
same_text-eq (x ∷ xs) [] h = absurd (ground (arith, h))
same_text-eq (x ∷ xs) (y ∷ ys) h = ground (arith, h, same_text-eq xs ys (ground (arith, h)))

pub same_text_self : (xs : List ℕ) → same_text xs xs ≡ true
same_text_self [] = refl
same_text_self (x ∷ xs) = ground (arith, same_text_self xs)

pub same_name :
    (name ip : List ℕ) (m n : ℕ)
    → length ip ≤ 51
    → m < 2 ^ 31
    → n < 2 ^ 31
    → same_text (conn_name name ip m) (conn_name name ip n) ≡ (m == n)
same_name name ip m n h p q =
    elim (Bool-cases (same_text (conn_name name ip m) (conn_name name ip n))) [
      | inl t ↦
          let e = conn_name-injective name ip m n h p q (same_text-eq _ _ t) in
          t ∙ ground (arith, e)
      | inr t ↦ t ∙ elim (Bool-cases (m == n)) [
        | inl q ↦
            let e : m ≡ n = ground (arith, q) in
            let self = same_text_self (conn_name name ip m) in
            let same = ap (λ k. same_text (conn_name name ip m) (conn_name name ip k)) e in
            absurd (ground (arith, t, self, same))
        | inr q ↦ sym q
      ]
    ]
