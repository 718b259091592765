-- ===== src/Failures/Guards.antt =====
-- What a guard that was passed leaves known.
use raffle_auction_audited_c.Prelude.{
  ℕ, ◌≤◌, ◌<◌, ◌≡◌, refl, Bool, true, false, not, ◌||◌, arith, ltb, ◌==◌,
}
use raffle_auction_audited_c.Prelude.Int.{ℤ, ◌+ℤ◌}
use raffle_auction_audited_c.Failures.{JustiesErrorCode, fail_if, ok}
use raffle_auction_audited_c.Failures.Checked.{add_i64}

pub between :
    (n least most : ℕ) (c : JustiesErrorCode)
    → fail_if (ltb n least || ltb most n) c ≡ ok tt
    → (least ≤ n) × (n ≤ most)
between n least most c e = ground arith

pub positive_most :
    (n most : ℕ) (c : JustiesErrorCode)
    → fail_if (n == 0 || ltb most n) c ≡ ok tt
    → (0 < n) × (n ≤ most)
positive_most n most c e = ground arith

pub checked_sum : (a b s : ℤ) → add_i64 a b ≡ ok s → s ≡ a +ℤ b
checked_sum a b s e = ground arith

pub passed : (b : Bool) (c : JustiesErrorCode) → fail_if (not b) c ≡ ok tt → b ≡ true
passed true c e = refl
passed false c e = cc
