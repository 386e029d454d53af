-- ===== src/Base/Bits.antt =====
-- Shifts, `|` and `&` of the source as arithmetic.
use Prim.Native.Nat.{
  ℕ, zero, suc, ◌+◌, ◌*◌, ◌/◌, ◌%◌, ◌^◌, ◌≤◌, ◌<◌, max, bit_and, bit_or, digits, bit_or-bitwise,
}
use mathlib.Core.Path.{◌≡◌, refl, ap}
use mathlib.Core.Bool.{Bool, true, false}
use native.Mathlib.Nat.{pow-suc}
use native.Mathlib.Omega.{arith}
use traefik_plugin_ipgeoloca.Base.Tests.{◌==◌, ==_iff, if◌then◌else◌}

abbrev pub shl : ℕ → ℕ → ℕ
shl x k = x * 2 ^ k

abbrev or_digits : ℕ → ℕ → ℕ → ℕ
or_digits n a b = digits (λ y. y) max n a b

-- Any fuel from `a` on gives the same digits.
or_digits_fuel : (n m a b : ℕ) → a ≤ n → a ≤ m → or_digits n a b ≡ or_digits m a b
or_digits_fuel zero zero a b p q = refl
or_digits_fuel zero (suc m) zero b p q = refl
or_digits_fuel (suc n) zero zero b p q = refl
or_digits_fuel (suc n) (suc m) zero b p q = refl
or_digits_fuel zero (suc m) (suc a) b p q = absurd (omega arith)
or_digits_fuel (suc n) zero (suc a) b p q = absurd (omega arith)
or_digits_fuel (suc n) (suc m) (suc a) b p q =
    omega (arith, or_digits_fuel n m (suc a / 2) (b / 2) (omega arith) (omega arith))

zero-bit_or : (b : ℕ) → bit_or 0 b ≡ b
zero-bit_or b = bit_or-bitwise 0 b

bit_or_half : (a b : ℕ) → bit_or a b ≡ bit_or (a / 2) (b / 2) * 2 + max (a % 2) (b % 2)
bit_or_half zero b = omega (arith, zero-bit_or b, zero-bit_or (b / 2))
bit_or_half (suc a) b = omega (
  arith,
  bit_or-bitwise (suc a) b,
  bit_or-bitwise (suc a / 2) (b / 2),
  or_digits_fuel a (suc a / 2) (suc a / 2) (b / 2) (omega arith) (omega arith),
)

bit_or-zero_below : (n a : ℕ) → a ≤ n → bit_or a 0 ≡ a
bit_or-zero_below n zero h = zero-bit_or 0
bit_or-zero_below zero (suc a) h = absurd (omega arith)
bit_or-zero_below (suc n) (suc a) h =
    omega (arith, bit_or_half (suc a) 0, bit_or-zero_below n (suc a / 2) (omega arith))

-- `x << k | y` is a sum when `y` fits the `k` bits that the shift made free.
pub bit_or-shl : (k x y : ℕ) → y < 2 ^ k → bit_or (shl x k) y ≡ x * 2 ^ k + y
bit_or-shl zero x y h = ground (arith, bit_or-zero_below x x)
bit_or-shl (suc k) x y h = ground (
  arith,
  bit_or_half (x * 2 ^ suc k) y,
  pow-suc 2 k,
  ap (λ (t : ℕ). x * t) (pow-suc 2 k),
  bit_or-shl k x (y / 2) (omega (arith, pow-suc 2 k)),
)

-- Over a byte, a law is checked at every value.
passes : (ℕ → Bool) → ℕ → Bool
passes law zero = true
passes law (suc bound) = let rest = passes law bound in if law bound then rest else false

passes_at :
    (law : ℕ → Bool) (bound byte : ℕ) → byte < bound → passes law bound ≡ true → law byte ≡ true
unfolding passes
passes_at law zero byte inside h = absurd (omega arith)
passes_at law (suc bound) byte inside h = ground (arith, passes_at law bound byte)

pub bit_and_0x1f : (x : ℕ) → x < 256 → bit_and x 0x1f ≡ x % 32
unfolding passes
bit_and_0x1f x h = (==_iff _ _).0 (passes_at (λ x. bit_and x 0x1f == x % 32) 256 x h refl)

pub bit_and_0x07 : (x : ℕ) → x < 256 → bit_and x 0x07 ≡ x % 8
unfolding passes
bit_and_0x07 x h = (==_iff _ _).0 (passes_at (λ x. bit_and x 0x07 == x % 8) 256 x h refl)

pub bit_and_0x0f : (x : ℕ) → x < 256 → bit_and x 0x0f ≡ x % 16
unfolding passes
bit_and_0x0f x h = (==_iff _ _).0 (passes_at (λ x. bit_and x 0x0f == x % 16) 256 x h refl)

pub bit_and_0xf0 : (x : ℕ) → x < 256 → bit_and x 0xf0 ≡ x / 16 * 16
unfolding passes
bit_and_0xf0 x h = (==_iff _ _).0 (passes_at (λ x. bit_and x 0xf0 == x / 16 * 16) 256 x h refl)

pub bit_and_0x03 : (x : ℕ) → x < 256 → bit_and x 0x03 ≡ x % 4
unfolding passes
bit_and_0x03 x h = (==_iff _ _).0 (passes_at (λ x. bit_and x 0x03 == x % 4) 256 x h refl)

pub bit_and_0x01 : (x : ℕ) → x < 256 → bit_and x 0x01 ≡ x % 2
unfolding passes
bit_and_0x01 x h = (==_iff _ _).0 (passes_at (λ x. bit_and x 0x01 == x % 2) 256 x h refl)

-- The fields below bit k of a multiple of 2 ^ k are free.
or_disjoint : (k x t y : ℕ) → t ≡ x * 2 ^ k → y < 2 ^ k → bit_or t y ≡ t + y
or_disjoint k x t y e h = rw e (bit_or-shl k x y h)

pub or_bytes3 :
    (a b c : ℕ)
    → b < 256
    → c < 256
    → bit_or (bit_or (shl a 16) (shl b 8)) c ≡ shl a 16 + shl b 8 + c
or_bytes3 a b c hb hc =
    rw (or_disjoint 16 a (shl a 16) (shl b 8) refl (omega arith))
      (or_disjoint 8 (a * 256 + b) (shl a 16 + shl b 8) c (omega arith) hc)

-- Four bytes, the first of them shifted already.
pub or_bytes4 :
    (x t b c d : ℕ)
    → t ≡ x * 2 ^ 24
    → b < 256
    → c < 256
    → d < 256
    → bit_or (bit_or (bit_or t (shl b 16)) (shl c 8)) d ≡ t + shl b 16 + shl c 8 + d
or_bytes4 x t b c d e hb hc hd = rw (or_disjoint 24 x t (shl b 16) e (omega arith)) (
    rw (or_disjoint 16 (x * 256 + b) (t + shl b 16) (shl c 8) (omega arith) (omega arith))
      (or_disjoint 8 (x * 65536 + b * 256 + c) (t + shl b 16 + shl c 8) d (omega arith) hd))
