-- ===== src/Raffle/Revenue.antt =====
-- What a claim of a raffle's revenue pays: raffle/claim_raffle_revenue.rs.
use raffle_auction_audited_c.Prelude.{ℕ, ◌≡◌, refl, ◌∙◌, ◌≢◌, true, not, List, arith}
use raffle_auction_audited_c.Failures.{JustiesErrorCode, fail_if, bind_ok, ok}
use raffle_auction_audited_c.Types.{Pubkey, ListingStatus, status_eq, RevenueDistribution}
use raffle_auction_audited_c.Runtime.{TokenAccount, Tokens, Runtime, IsTokenProgram, load_token}
use raffle_auction_audited_c.Runtime.Transfers.{load_amount}
use raffle_auction_audited_c.Raffle.ClaimRaffleRevenue.{
  ClaimRaffleRevenue, claim_raffle_revenue_constraints, raffle_revenue_strategy,
  claim_raffle_revenue_handler,
}
use raffle_auction_audited_c.Raffle.Rewards.{made_check}
use raffle_auction_audited_c.Raffle.Seeds.{revenue_escrow_seeds}
use raffle_auction_audited_c.Raffle.Strategy.{new_raffle_strategy, is_raffle_made}
use raffle_auction_audited_c.Revenue.{init_revenue_distribution_accounts}
use raffle_auction_audited_c.Revenue.Distribution.{Apart}
use raffle_auction_audited_c.Revenue.Payout.{PaidOut, paid_from, run_pays_out}
use raffle_auction_audited_c.Revenue.Receivers.{distributions_of, distributions_configured}

raffle_revenue_checked :
    (rt : Runtime) (a : ClaimRaffleRevenue) (id : ℕ) (treasury : TokenAccount)
    → claim_raffle_revenue_constraints rt a id treasury ≡ ok tt
    → (a.raffle.creator ≡ a.creator)
      × ((rt.find_program_address (revenue_escrow_seeds a.raffle_key)).0
          ≡ a.revenue_escrow_token_account)
unfolding claim_raffle_revenue_constraints
raffle_revenue_checked rt a id treasury e = ground arith

status_finished :
    (st : ListingStatus) → status_eq st ListingStatus.finished ≡ true → st ≡ ListingStatus.finished
status_finished ListingStatus.in_progress e = cc
status_finished ListingStatus.finished e = refl
status_finished ListingStatus.cancelled e = cc

-- The accounts that a claim pays.
abbrev pub receivers : Runtime → ClaimRaffleRevenue → List RevenueDistribution
receivers rt a = distributions_of rt a.token_mint a.raffle.revenue_shares

module _ (rt : Runtime) (tp : IsTokenProgram rt) where
  -- When the receivers' accounts and the treasury's are others than the escrow and the revenue of a
  -- raffle is claimed: the claim is the creator's, the raffle is finished and the escrow is the
  -- raffle's; the fee, rounded down, and the amounts that the configured shares of the rest are
  -- worth add up to what the escrow held, the treasury account that was given and the receivers'
  -- accounts get exactly these, no other account changes its balance, and the escrow is closed.
  pub claim_raffle_revenue_pays :
      (a : ClaimRaffleRevenue) (id : ℕ) (accounts : List Pubkey) (ts ts' : Tokens)
      → claim_raffle_revenue_handler rt a id accounts ts ≡ ok ts'
      → a.revenue_escrow_token_account ≢ a.fee_treasury_token_account
      → Apart a.revenue_escrow_token_account (receivers rt a)
      → (a.raffle.creator ≡ a.creator)
        × (a.raffle.status ≡ ListingStatus.finished)
        × ((rt.find_program_address (revenue_escrow_seeds a.raffle_key)).0
            ≡ a.revenue_escrow_token_account)
        × PaidOut ts a.revenue_escrow_token_account a.fee_treasury_token_account
            a.global_states.market_fee_rate_bps
            (receivers rt a)
            ts'
  unfolding claim_raffle_revenue_handler new_raffle_strategy is_raffle_made
  claim_raffle_revenue_pays a id accounts ts ts' e apart others =
      let s = new_raffle_strategy a.raffle_key a.raffle a.global_states in
      bind_ok (load_token ts a.revenue_escrow_token_account) e λ escrow loaded e₁.
        bind_ok (load_token ts a.fee_treasury_token_account) e₁ λ treasury _ e₂.
          bind_ok (claim_raffle_revenue_constraints rt a id treasury) e₂ λ _ passed e₃.
            bind_ok
              (init_revenue_distribution_accounts rt a.token_mint a.raffle.revenue_shares accounts
                ts)
              e₃
              λ ready made e₄.
                bind_ok (fail_if (not (is_raffle_made s)) JustiesErrorCode.raffle_not_made) e₄
                  λ _ done ran.
                    let amount = load_amount ts _ escrow loaded in
                    let (configured, keeps) =
                      distributions_configured rt tp a.token_mint a.raffle.revenue_shares accounts
                        ts ready.0 ready.1 made in
                    let paid =
                      run_pays_out rt tp (raffle_revenue_strategy a id escrow ready.0) ready.1 ts'
                        ran (keeps a.revenue_escrow_token_account ∙ amount) apart
                        (rw (configured) others) in
                    (
                      (raffle_revenue_checked rt a id treasury passed).0,
                      status_finished _ (made_check _ _ done),
                      (raffle_revenue_checked rt a id treasury passed).1,
                      rw (configured) at (paid_from ts ready.1 ts' _ _ _ _ paid keeps),
                    )
