-- ===== src/Revenue/Payout.antt =====
-- The end of both claims of revenue: validate, distribute and close the escrow, as
-- auction/claim_auction_revenue.rs and raffle/claim_raffle_revenue.rs do.
use raffle_auction_audited_c.Prelude.{
  ℕ, ◌+◌, ◌-◌, ◌*◌, ◌/◌, ◌≡◌, ◌≢◌, none, some, List, arith, ◌==◌, if◌then◌else◌, sum,
}
use raffle_auction_audited_c.Failures.{bind_ok, ok_inj, ok}
use raffle_auction_audited_c.Failures.Checked.{sub_u}
use raffle_auction_audited_c.Types.{Pubkey, RevenueDistribution}
use raffle_auction_audited_c.Runtime.{Tokens, Runtime, balance, IsTokenProgram, transfer_token}
use raffle_auction_audited_c.Runtime.Transfers.{close_removes, close_keeps}
use raffle_auction_audited_c.Revenue.{
  validate_share_configs, distribution_shares, RevenueDistributionStrategy, bps_of, collect_fees,
  distribute_revenue, close_distributed_escrow, run_distribution,
}
use raffle_auction_audited_c.Revenue.Distribution.{Apart}
use raffle_auction_audited_c.Revenue.Payments.{
  payments, received, transfer_gain, make_distributions_pay,
}
use raffle_auction_audited_c.Revenue.Shares.{validate_shares_sum}

-- The fee of a revenue, rounded down, and what the receivers get of the rest.
abbrev pub fee_amount : ℕ → ℕ → ℕ
fee_amount revenue bps = revenue * bps / 10000

abbrev pub receivers_amounts : ℕ → ℕ → List RevenueDistribution → List ℕ
receivers_amounts revenue bps ds =
    payments (revenue - fee_amount revenue bps) (revenue - fee_amount revenue bps) ds

-- An escrow that is paid out: the fee and the receivers' amounts are all that it held, the treasury gets
-- the one and the receivers the others, no other account gets or loses anything, and the escrow is
-- closed.
pub record PaidOut (ts : Tokens) (escrow treasury : Pubkey) (bps : ℕ)
    (ds : List RevenueDistribution) (ts' : Tokens) : Type 0 where
  pub whole :
      fee_amount (balance ts escrow) bps + sum (receivers_amounts (balance ts escrow) bps ds)
      ≡ balance ts escrow
  pub gains :
      (a : Pubkey)
      → a ≢ escrow
      → balance ts' a
        ≡ balance ts a
          + (if a == treasury then fee_amount (balance ts escrow) bps else 0)
          + received a ds (receivers_amounts (balance ts escrow) bps ds)
  pub closed : ts' escrow ≡ none

-- A payout from accounts of the same balances.
pub paid_from :
    (ts ts₁ ts' : Tokens) (escrow treasury : Pubkey) (bps : ℕ) (ds : List RevenueDistribution)
    → PaidOut ts₁ escrow treasury bps ds ts'
    → ((a : Pubkey) → balance ts₁ a ≡ balance ts a)
    → PaidOut ts escrow treasury bps ds ts'
paid_from ts ts₁ ts' escrow treasury bps ds p same = record {
  whole = rw (same escrow) at p.whole;
  gains = λ a other. rw (same escrow, same a) at (p.gains a other);
  closed = p.closed;
}

module _ (rt : Runtime) (tp : IsTokenProgram rt) where
  fees_paid :
      (s : RevenueDistributionStrategy) (revenue : ℕ) (ts : Tokens) (r : ℕ × Tokens)
      → collect_fees rt s revenue ts ≡ ok r
      → s.revenue_escrow_token_account ≢ s.fee_treasury_token_account
      → let fee = fee_amount revenue s.global_states.market_fee_rate_bps in
        (r.0 + fee ≡ revenue)
        × ((a : Pubkey)
            → a ≢ s.revenue_escrow_token_account
            → balance r.1 a ≡ balance ts a + (if a == s.fee_treasury_token_account then fee else 0))
  unfolding collect_fees bps_of
  fees_paid s revenue ts r e apart =
      let bps = s.global_states.market_fee_rate_bps in
      let escrow = s.revenue_escrow_token_account in
      let treasury = s.fee_treasury_token_account in
      bind_ok (bps_of revenue bps) e λ fee computed e₁.
        bind_ok
          (transfer_token rt escrow treasury s.escrow_authority fee (some s.escrow_signer_seed) ts)
          e₁
          λ ts' moved e₂. bind_ok (sub_u revenue fee) e₂ λ left subtracted e₃.
            let fee_is : fee ≡ fee_amount revenue bps = ground arith in
            rw (← ok_inj e₃, ← fee_is)
              (
                ground arith,
                λ a other.
                    transfer_gain rt tp escrow treasury s.escrow_authority fee
                      (some s.escrow_signer_seed) ts ts' a moved apart other,
              )

  -- A distribution that runs pays the escrow out, so that it can be closed.
  pub run_pays_out :
      (s : RevenueDistributionStrategy) (ts ts' : Tokens)
      → run_distribution rt s ts ≡ ok ts'
      → balance ts s.revenue_escrow_token_account ≡ s.revenue_escrow_amount
      → s.revenue_escrow_token_account ≢ s.fee_treasury_token_account
      → Apart s.revenue_escrow_token_account s.revenue_distributions
      → PaidOut ts s.revenue_escrow_token_account s.fee_treasury_token_account
          s.global_states.market_fee_rate_bps s.revenue_distributions ts'
  unfolding run_distribution close_distributed_escrow distribute_revenue
  run_pays_out s ts ts' e held apart others =
      let ds = s.revenue_distributions in
      let escrow = s.revenue_escrow_token_account in
      bind_ok (validate_share_configs (distribution_shares ds)) e λ _ valid e₁.
        bind_ok (distribute_revenue rt s ts) e₁ λ ts₂ paid closes.
          bind_ok (collect_fees rt s s.revenue_escrow_amount ts) paid λ r collected e₂.
            let (left, fees) = fees_paid s s.revenue_escrow_amount ts r collected apart in
            let (whole, gains) =
              make_distributions_pay rt tp s r.0 ds r.0 10000 r.1 ts₂ e₂ others
                (validate_shares_sum _ valid) (λ z. absurd (omega arith)) in
            let revenue = s.revenue_escrow_amount in
            let fee = fee_amount revenue s.global_states.market_fee_rate_bps in
            let left_is : r.0 ≡ revenue - fee = omega arith in
            let paid_all : sum (payments (revenue - fee) (revenue - fee) ds) ≡ revenue - fee =
              rw (left_is) at whole in
            record {
              whole = rw (held) (omega (arith, paid_all, left, left_is));
              gains = λ a other.
                  let kept =
                    close_keeps rt tp escrow s.escrow_token_account_creator s.escrow_authority
                      s.escrow_signer_seed ts₂ ts' a closes other in
                  let got = rw (left_is) at (gains a other) in
                  rw (held) (omega (arith, kept, got, fees a other));
              closed =
                  close_removes rt tp escrow s.escrow_token_account_creator s.escrow_authority
                    s.escrow_signer_seed ts₂ ts' closes;
            }
