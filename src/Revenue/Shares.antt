-- ===== src/Revenue/Shares.antt =====
-- validate_share_configs of common/revenue_distribution_strategy.rs against the plain sum.
use raffle_auction_audited_c.Prelude.{
  ℕ, ◌+◌, ◌≤◌, ◌≡◌, refl, ap, ◌∙◌, ◌↔◌, inl, inr, List, [], ◌∷◌, arith, leb, le→leb, Bool-cases,
  sum,
}
use raffle_auction_audited_c.Failures.{>>=-eq-ok, ok}
use raffle_auction_audited_c.Failures.Checked.{u16_max}
use raffle_auction_audited_c.Revenue.{share_sum_from, validate_share_configs}

-- The checked sum is the sum, or a panic.
share_sum_exact : (xs : List ℕ) (acc n : ℕ) → share_sum_from acc xs ≡ ok n → n ≡ acc + sum xs
unfolding share_sum_from sum
share_sum_exact [] acc n e = ground arith
share_sum_exact (x ∷ xs) acc n e = elim (Bool-cases (leb (acc + x) u16_max)) [
  | inl fits ↦ omega (arith, share_sum_exact xs (acc + x) n (ground arith))
  | inr over ↦ ground arith
]

share_sum_total :
    (xs : List ℕ) (acc : ℕ) → acc + sum xs ≤ u16_max → share_sum_from acc xs ≡ ok (acc + sum xs)
unfolding share_sum_from sum
share_sum_total [] acc h = ap ok (omega arith)
share_sum_total (x ∷ xs) acc h =
    let e : acc + x + sum xs ≡ acc + (x + sum xs) = omega arith in
    rw (le→leb (acc + x) u16_max (omega arith))
      (share_sum_total xs (acc + x) (omega arith) ∙ ap ok e)

pub validate_shares_sum : (xs : List ℕ) → validate_share_configs xs ≡ ok tt → sum xs ≡ 10000
unfolding validate_share_configs
validate_shares_sum xs e =
    let (n, summed, tested) = >>=-eq-ok (share_sum_from 0 xs) _ e in
    ground (arith, share_sum_exact xs 0 n)

-- A list of shares passes exactly when its sum is 10000; no overflow can hide another sum.
pub validate_share_configs_iff :
    (xs : List ℕ) → (validate_share_configs xs ≡ ok tt) ↔ (sum xs ≡ 10000)
unfolding validate_share_configs
validate_share_configs_iff xs =
    (validate_shares_sum xs, λ h. rw (share_sum_total xs 0 (omega arith), h) refl)
