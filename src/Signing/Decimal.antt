-- ===== src/Signing/Decimal.antt =====
-- Timestamps as decimal texts: `str` on the client and `int` on the server.
use zangpu.Base.{
  ℕ, zero, suc, ◌+◌, ◌-◌, ◌*◌, ◌/◌, ◌%◌, ◌≡◌, refl, ◌≤◌, List, [], ◌∷◌, ◌++◌, ltb, arith,
  Bool-cases, inl, inr,
}
use zangpu.Signing.Authentication.{read_digits, read_int}
use zangpu.Signing.Client.{show_digits, show_int}

read_digits-last :
    (n : ℕ) (text : List ℕ) (c : ℕ)
    → read_digits n (text ++ (c ∷ [])) ≡ 10 * read_digits n text + (c - b'0')
read_digits-last n [] c = refl
read_digits-last n (d ∷ text) c = read_digits-last (10 * n + (d - b'0')) text c

read_int-show_digits : (fuel n : ℕ) → n ≤ fuel → read_int (show_digits fuel n) ≡ n
unfolding show_digits
read_int-show_digits zero n h = omega arith
read_int-show_digits (suc fuel) n h = elim (Bool-cases (ltb n 10)) [
  | inl few ↦ rw few (omega arith)
  | inr many ↦
      let bound : n / 10 ≤ fuel = ground arith in
      let shorter = read_int-show_digits fuel (n / 10) bound in
      rw (many, read_digits-last 0 (show_digits fuel (n / 10)) (n % 10 + b'0'), shorter)
        (omega arith)
]

-- A decimal text reads back as its number.
pub read_int-show_int : (n : ℕ) → read_int (show_int n) ≡ n
read_int-show_int n = read_int-show_digits n n (omega arith)
