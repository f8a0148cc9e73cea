-- ===== src/Prelude/Bits.antt =====
-- The native `bit_and`, digit by digit.
use Prim.Native.Nat.{
  ℕ, zero, suc, ◌+◌, ◌*◌, ◌/◌, ◌%◌, ◌^◌, ◌≤◌, min, digits, bit_and, bit_and-bitwise,
}
use mathlib.Core.Path.{◌≡◌, refl, ap, ◌∙◌}
use native.Mathlib.Nat.{pow-suc}
use native.Mathlib.Omega.{arith}

abbrev ands : ℕ → ℕ → ℕ → ℕ
ands = digits (λ b. zero) min

-- Fuel that reaches is as good as any other.
ands-same : (b n m a : ℕ) → a ≤ n → a ≤ m → ands n a b ≡ ands m a b
ands-same b zero zero zero h k = refl
ands-same b zero (suc m) zero h k = refl
ands-same b (suc n) zero zero h k = refl
ands-same b (suc n) (suc m) zero h k = refl
ands-same b zero m (suc a) h k = absurd (omega arith)
ands-same b (suc n) zero (suc a) h k = absurd (omega arith)
ands-same b (suc n) (suc m) (suc a) h k =
    ap (λ (x : ℕ). x * 2 + min (suc a % 2) (b % 2))
      (ands-same (b / 2) n m (suc a / 2) (omega arith) (omega arith))

pub bit_and_halves : (a b : ℕ) → bit_and a b ≡ bit_and (a / 2) (b / 2) * 2 + min (a % 2) (b % 2)
bit_and_halves zero b = simp bit_and-bitwise (omega arith)
bit_and_halves (suc a) b = simp bit_and-bitwise (
    ap (λ (x : ℕ). x * 2 + min (suc a % 2) (b % 2))
      (ands-same (b / 2) a (suc a / 2) (suc a / 2) (omega arith) (omega arith)))

zero_and : (b : ℕ) → bit_and 0 b ≡ 0
zero_and b = simp bit_and-bitwise (omega arith)

pub bit_and_zero : (n a : ℕ) → a ≤ n → bit_and a 0 ≡ 0
bit_and_zero n zero h = refl
bit_and_zero zero (suc a) h = absurd (omega arith)
bit_and_zero (suc n) (suc a) h =
    omega (arith, bit_and_halves (suc a) 0, bit_and_zero n (suc a / 2) (omega arith))

double : (t k : ℕ) → bit_and t (2 * k) ≡ bit_and (t / 2) k * 2
double t k =
    let half : 2 * k / 2 ≡ k = omega arith in
    let even : 2 * k % 2 ≡ 0 = omega arith in
    omega (arith, rw (half, even) at (bit_and_halves t (2 * k)))

pow-suc_two : (k : ℕ) → 2 ^ suc k ≡ 2 * 2 ^ k
pow-suc_two k = omega (arith, pow-suc 2 k)

-- A digit that is added to a number which has not got it, or taken from one that has.
pub bit_and_toggle : (k t : ℕ) → bit_and t (2 ^ k) + bit_and (t + 2 ^ k) (2 ^ k) ≡ 2 ^ k
bit_and_toggle zero t = omega (
  arith,
  bit_and_halves t 1,
  bit_and_halves (t + 1) 1,
  bit_and_zero (t / 2) (t / 2) (omega arith),
  bit_and_zero ((t + 1) / 2) ((t + 1) / 2) (omega arith),
)
bit_and_toggle (suc k) t =
    let one = double t (2 ^ k) in
    let two = double (t + 2 * 2 ^ k) (2 ^ k) in
    let up : (t + 2 * 2 ^ k) / 2 ≡ t / 2 + 2 ^ k = omega arith in
    rw (pow-suc_two k)
      (omega (arith, one, two ∙ ap (λ x. bit_and x (2 ^ k) * 2) up, bit_and_toggle k (t / 2)))

-- A digit that a mask has not got is not in what the mask leaves.
pub bit_and_masked : (n t m f : ℕ) → t ≤ n → bit_and m f ≡ 0 → bit_and (bit_and t m) f ≡ 0
bit_and_masked n zero m f h e = rw (zero_and m) (zero_and f)
bit_and_masked zero (suc t) m f h e = absurd (omega arith)
bit_and_masked (suc n) (suc t) m f h e =
    let outer = bit_and_halves (bit_and (suc t) m) f in
    let inner = bit_and_halves (suc t) m in
    let mask = bit_and_halves m f in
    let half : bit_and (suc t) m / 2 ≡ bit_and (suc t / 2) (m / 2) = omega (arith, inner) in
    let digit : bit_and (suc t) m % 2 ≡ min (suc t % 2) (m % 2) = omega (arith, inner) in
    let rest =
      bit_and_masked n (suc t / 2) (m / 2) (f / 2) (omega arith) (omega (arith, mask, e)) in
    omega (arith, rw (half, digit) at outer, rest, mask, e)
