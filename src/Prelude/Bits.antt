-- ===== src/Prelude/Bits.antt =====
-- `u64` masks: the laws of `mask & (1 << i)` and `mask | (1 << i)` at every mask and index.
use Prim.Native.Nat.{
  ℕ, zero, suc, ◌+◌, ◌*◌, ◌/◌, ◌%◌, ◌^◌, ◌≤◌, ◌<◌, min, max, bit_and, bit_or, digits,
  bit_and-bitwise, bit_or-bitwise,
}
use mathlib.Core.Path.{◌≡◌, refl, ap, sym, ◌∙◌}
use mathlib.Core.Logic.{◌≢◌}
use native.Mathlib.Omega.{arith}
use native.Mathlib.Nat.{pow-suc}

-- The operations run for as many rounds as the first number; any count from there on gives the same, which
-- is shown for all counts up to `k` at once.
module _ (z : ℕ → ℕ) (f : ℕ → ℕ → ℕ) where
  rounds_enough : (k n a b : ℕ) → n ≤ k → a ≤ n → digits z f n a b ≡ digits z f a a b
  rounds_enough k zero zero b below enough = refl
  rounds_enough k zero (suc a) b below enough = absurd (omega arith)
  rounds_enough k (suc n) zero b below enough = refl
  rounds_enough zero (suc n) (suc a) b below enough = absurd (omega arith)
  rounds_enough (suc k) (suc n) (suc a) b below enough =
      let half = suc a / 2 in
      let long = rounds_enough k n half (b / 2) (omega arith) (omega arith) in
      let short = rounds_enough k a half (b / 2) (omega arith) (omega arith) in
      ap (λ (high : ℕ). high * 2 + f (suc a % 2) (b % 2)) (long ∙ sym short)

  -- The lowest digit and the digits above it.
  lowest_first :
      (a b : ℕ)
      → digits z f (suc a) (suc a) b
        ≡ digits z f (suc a / 2) (suc a / 2) (b / 2) * 2 + f (suc a % 2) (b % 2)
  lowest_first a b =
      ap (λ (high : ℕ). high * 2 + f (suc a % 2) (b % 2))
        (rounds_enough a a (suc a / 2) (b / 2) (omega arith) (omega arith))

pub bit_and_step : (m k : ℕ) → bit_and m k ≡ min (m % 2) (k % 2) + 2 * bit_and (m / 2) (k / 2)
bit_and_step zero b = omega (arith, bit_and-bitwise 0 b, bit_and-bitwise 0 (b / 2))
bit_and_step (suc a) b = omega (
  arith,
  bit_and-bitwise (suc a) b,
  lowest_first (λ _. zero) min a b,
  bit_and-bitwise (suc a / 2) (b / 2),
)

pub bit_or_step : (m k : ℕ) → bit_or m k ≡ max (m % 2) (k % 2) + 2 * bit_or (m / 2) (k / 2)
bit_or_step zero b = omega (arith, bit_or-bitwise 0 b, bit_or-bitwise 0 (b / 2))
bit_or_step (suc a) b = omega (
  arith,
  bit_or-bitwise (suc a) b,
  lowest_first (λ c. c) max a b,
  bit_or-bitwise (suc a / 2) (b / 2),
)

-- 0 on the right: no digit with `&`, every digit with `|`, by induction on a bound.
zero_right : (k a : ℕ) → a ≤ k → (bit_and a 0 ≡ 0) × (bit_or a 0 ≡ a)
zero_right k zero below = (refl, refl)
zero_right zero (suc a) below = absurd (omega arith)
zero_right (suc k) (suc a) below =
    let (none_and, all_or) = zero_right k (suc a / 2) (omega arith) in
    (omega (arith, bit_and_step (suc a) 0, none_and), omega (arith, bit_or_step (suc a) 0, all_or))

bit_and-zero : (a : ℕ) → bit_and a 0 ≡ 0
bit_and-zero a = (zero_right a a (omega arith)).0

bit_or-zero : (a : ℕ) → bit_or a 0 ≡ a
bit_or-zero a = (zero_right a a (omega arith)).1

-- `1 << i`, one step at a time.
shl_suc : (i : ℕ) → 2 ^ suc i ≡ 2 * 2 ^ i
shl_suc i = omega (arith, pow-suc 2 i)

pub bit_and-shl_zero : (m : ℕ) → bit_and m 1 ≡ m % 2
bit_and-shl_zero m = omega (arith, bit_and_step m 1, bit_and-zero (m / 2))

pub bit_and-shl_suc : (m i : ℕ) → bit_and m (2 ^ suc i) ≡ 2 * bit_and (m / 2) (2 ^ i)
bit_and-shl_suc m i =
    let half : 2 ^ suc i / 2 ≡ 2 ^ i = omega (arith, shl_suc i) in
    let e : bit_and (m / 2) (2 ^ suc i / 2) ≡ bit_and (m / 2) (2 ^ i) = ap (bit_and (m / 2)) half in
    omega (arith, shl_suc i, bit_and_step m (2 ^ suc i), e)

pub bit_or-shl_suc : (m i : ℕ) → bit_or m (2 ^ suc i) ≡ 2 * bit_or (m / 2) (2 ^ i) + m % 2
bit_or-shl_suc m i =
    let half : 2 ^ suc i / 2 ≡ 2 ^ i = omega (arith, shl_suc i) in
    let e : bit_or (m / 2) (2 ^ suc i / 2) ≡ bit_or (m / 2) (2 ^ i) = ap (bit_or (m / 2)) half in
    omega (arith, shl_suc i, bit_or_step m (2 ^ suc i), e)

-- A bit that is set tests as set.
pub bit_set : (m i : ℕ) → bit_and (bit_or m (2 ^ i)) (2 ^ i) ≡ 2 ^ i
bit_set m zero = omega (arith, bit_and-shl_zero (bit_or m 1), bit_or_step m 1, bit_or-zero (m / 2))
bit_set m (suc i) =
    let half : bit_or m (2 ^ suc i) / 2 ≡ bit_or (m / 2) (2 ^ i) =
      omega (arith, bit_or-shl_suc m i) in
    omega (
      arith,
      shl_suc i,
      bit_and-shl_suc (bit_or m (2 ^ suc i)) i,
      ap (λ (t : ℕ). bit_and t (2 ^ i)) half,
      bit_set (m / 2) i,
    )

-- Setting one bit leaves every other bit as it was.
pub bit_other : (m i j : ℕ) → i ≢ j → bit_and (bit_or m (2 ^ i)) (2 ^ j) ≡ bit_and m (2 ^ j)
bit_other m zero zero h = absurd (h refl)
bit_other m zero (suc j) h =
    let half : bit_or m 1 / 2 ≡ m / 2 = omega (arith, bit_or_step m 1, bit_or-zero (m / 2)) in
    omega (
      arith,
      bit_and-shl_suc (bit_or m 1) j,
      bit_and-shl_suc m j,
      ap (λ (t : ℕ). bit_and t (2 ^ j)) half,
    )
bit_other m (suc i) zero h =
    omega (arith, bit_and-shl_zero (bit_or m (2 ^ suc i)), bit_and-shl_zero m, bit_or-shl_suc m i)
bit_other m (suc i) (suc j) h =
    let half : bit_or m (2 ^ suc i) / 2 ≡ bit_or (m / 2) (2 ^ i) =
      omega (arith, bit_or-shl_suc m i) in
    omega (
      arith,
      bit_and-shl_suc (bit_or m (2 ^ suc i)) j,
      bit_and-shl_suc m j,
      ap (λ (t : ℕ). bit_and t (2 ^ j)) half,
      bit_other (m / 2) i j (λ e. h (ap suc e)),
    )

pub shl_pos : (i : ℕ) → 0 < 2 ^ i
shl_pos zero = omega arith
shl_pos (suc i) = omega (arith, shl_suc i, shl_pos i)
