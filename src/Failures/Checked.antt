-- ===== src/Failures/Checked.antt =====
-- Arithmetic of the machine types under `overflow-checks = true`: a result out of range is a panic.
use raffle_auction_audited_c.Prelude.{
  ℕ, ◌+◌, ◌-◌, ◌*◌, ◌%◌, ◌^◌, Bool, ◌&&◌, ltb, leb, if◌then◌else◌,
}
use raffle_auction_audited_c.Prelude.Int.{ℤ, pos, negsuc, ◌+ℤ◌, ◌-ℤ◌, ◌*ℤ◌, ltb_ℤ, leb_ℤ}
use raffle_auction_audited_c.Failures.{Result, ok, err, overflow}

abbrev pub u8_max : ℕ
u8_max = 2 ^ 8 - 1

abbrev pub u16_max : ℕ
u16_max = 2 ^ 16 - 1

abbrev pub u64_max : ℕ
u64_max = 2 ^ 64 - 1

abbrev pub at_most : ℕ → ℕ → Result ℕ
at_most top n = if leb n top then ok n else err overflow

abbrev pub add_u16 : ℕ → ℕ → Result ℕ
add_u16 a b = at_most u16_max (a + b)

abbrev pub add_u64 : ℕ → ℕ → Result ℕ
add_u64 a b = at_most u64_max (a + b)

abbrev pub mul_u64 : ℕ → ℕ → Result ℕ
mul_u64 a b = at_most u64_max (a * b)

-- Unsigned subtraction, at any width.
abbrev pub sub_u : ℕ → ℕ → Result ℕ
sub_u a b = if leb b a then ok (a - b) else err overflow

abbrev pub fits_i64 : ℤ → Bool
fits_i64 z = leb_ℤ (negsuc (2 ^ 63 - 1)) z && ltb_ℤ z (pos (2 ^ 63))

abbrev pub check_i64 : ℤ → Result ℤ
check_i64 z = if fits_i64 z then ok z else err overflow

abbrev pub add_i64 : ℤ → ℤ → Result ℤ
add_i64 a b = check_i64 (a +ℤ b)

abbrev pub sub_i64 : ℤ → ℤ → Result ℤ
sub_i64 a b = check_i64 (a -ℤ b)

abbrev pub mul_i64 : ℤ → ℤ → Result ℤ
mul_i64 a b = check_i64 (a *ℤ b)

-- `n as i64` for a `u64`, and back: the bit pattern is kept.
abbrev pub as_i64 : ℕ → ℤ
as_i64 n = if ltb n (2 ^ 63) then pos n else negsuc (2 ^ 64 - n - 1)

abbrev pub as_u64 : ℤ → ℕ
as_u64 (pos n) = n
as_u64 (negsuc n) = 2 ^ 64 - n - 1

-- `n as u16`, `n as i16` for a `u16` or a `usize`, and checked `i16` arithmetic.
abbrev pub as_u16 : ℕ → ℕ
as_u16 n = n % 2 ^ 16

abbrev pub as_i16 : ℕ → ℤ
as_i16 n = if ltb (as_u16 n) (2 ^ 15) then pos (as_u16 n) else negsuc (2 ^ 16 - as_u16 n - 1)

abbrev pub fits_i16 : ℤ → Bool
fits_i16 z = leb_ℤ (negsuc (2 ^ 15 - 1)) z && ltb_ℤ z (pos (2 ^ 15))

abbrev pub check_i16 : ℤ → Result ℤ
check_i16 z = if fits_i16 z then ok z else err overflow

abbrev pub mul_i16 : ℤ → ℤ → Result ℤ
mul_i16 a b = check_i16 (a *ℤ b)

abbrev pub sub_i16 : ℤ → ℤ → Result ℤ
sub_i16 a b = check_i16 (a -ℤ b)
