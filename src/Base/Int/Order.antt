-- ===== src/Base/Int/Order.antt =====
-- The Boolean tests on signed integers as orders, and differences within a limit.
use Prim.Native.Nat.{ℕ}
use mathlib.Core.Path.{◌≡◌}
use mathlib.Core.Bool.{true, false, not}
use native.Mathlib.Omega.{arith}
use zangpu.Base.Int.{ℤ, pos, negsuc, ◌-ℤ◌, ◌≤ℤ◌, ◌==ℤ◌, ltb_ℤ, between_ℤ, max_ℤ}

pub between_ℤ-le : (lo hi x : ℤ) → not (between_ℤ lo hi x) ≡ false → (lo ≤ℤ x) × (x ≤ℤ hi)
between_ℤ-le lo hi x h = ground arith

pub le-between_ℤ : (lo hi x : ℤ) → lo ≤ℤ x → x ≤ℤ hi → not (between_ℤ lo hi x) ≡ false
le-between_ℤ lo hi x h k = ground arith

pub ltb_ℤ-le : (a b : ℤ) → ltb_ℤ a b ≡ false → b ≤ℤ a
ltb_ℤ-le a b h = ground arith

pub le-ltb_ℤ : (a b : ℤ) → b ≤ℤ a → ltb_ℤ a b ≡ false
le-ltb_ℤ a b h = ground arith

pub ==ℤ-eq : (a b : ℤ) → (a ==ℤ b) ≡ true → a ≡ b
==ℤ-eq (pos a) (pos b) h = ground arith
==ℤ-eq (pos a) (negsuc b) h = ground arith
==ℤ-eq (negsuc a) (pos b) h = ground arith
==ℤ-eq (negsuc a) (negsuc b) h = ground arith

pub not-==ℤ-eq : (a b : ℤ) → not (a ==ℤ b) ≡ false → a ≡ b
not-==ℤ-eq (pos a) (pos b) h = ground arith
not-==ℤ-eq (pos a) (negsuc b) h = ground arith
not-==ℤ-eq (negsuc a) (pos b) h = ground arith
not-==ℤ-eq (negsuc a) (negsuc b) h = ground arith

pub ==ℤ_refl : (a : ℤ) → (a ==ℤ a) ≡ true
==ℤ_refl (pos a) = ground arith
==ℤ_refl (negsuc a) = ground arith

-- `max(limit - n, 0)` is the difference itself, for a number in the range.
pub max_ℤ-rest :
    (limit : ℕ) (n : ℤ)
    → pos 0 ≤ℤ n
    → n ≤ℤ pos limit
    → max_ℤ (pos limit -ℤ n) (pos 0) ≡ pos limit -ℤ n
max_ℤ-rest limit (pos n) h k = ground arith
max_ℤ-rest limit (negsuc n) h k = absurd (omega arith)
