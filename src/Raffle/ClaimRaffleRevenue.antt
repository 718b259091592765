-- ===== src/Raffle/ClaimRaffleRevenue.antt =====
-- raffle/claim_raffle_revenue.rs: the accounts, the constraints on them and the handler.
use raffle_auction_audited_c.Prelude.{ℕ, not, List, [], ◌∷◌, ◌==◌}
use raffle_auction_audited_c.Failures.{JustiesErrorCode, Result, ◌>>=◌, ◌>>◌, fail_if, constraint}
use raffle_auction_audited_c.Types.{Pubkey, GlobalStates, RevenueDistribution, Raffle}
use raffle_auction_audited_c.Runtime.{
  Runtime, Tokens, TokenAccount, Seed, SeedLabel, load_token, require_pda, require_pda_bump,
  require_token, require_associated,
}
use raffle_auction_audited_c.Revenue.{
  RevenueDistributionStrategy, init_revenue_distribution_accounts, run_distribution,
}
use raffle_auction_audited_c.Auction.Seeds.{global_states_seeds}
use raffle_auction_audited_c.Raffle.Seeds.{raffle_seeds, revenue_escrow_seeds}
use raffle_auction_audited_c.Raffle.Strategy.{new_raffle_strategy, is_raffle_made}

-- The fee treasury is not compared with the one of the global states.
pub record ClaimRaffleRevenue : Type 0 where
  pub raffle_key : Pubkey
  pub raffle : Raffle
  pub global_states_key : Pubkey
  pub global_states : GlobalStates
  pub creator : Pubkey
  pub revenue_escrow_token_account : Pubkey
  pub fee_treasury_token_account : Pubkey
  pub fee_treasury : Pubkey
  pub token_mint : Pubkey

unfoldable pub claim_raffle_revenue_constraints :
    Runtime → ClaimRaffleRevenue → ℕ → TokenAccount → Result (Unit {0})
claim_raffle_revenue_constraints rt a raffle_id treasury = do
  require_pda_bump rt (raffle_seeds raffle_id) a.raffle.bump a.raffle_key
  constraint (a.raffle.creator == a.creator) JustiesErrorCode.not_raffle_creator
  require_pda_bump rt global_states_seeds a.global_states.bump a.global_states_key
  require_pda rt (revenue_escrow_seeds a.raffle_key) a.revenue_escrow_token_account
  require_token a.token_mint a.fee_treasury treasury
  require_associated rt a.fee_treasury_token_account a.token_mint a.fee_treasury
  constraint (a.token_mint == a.raffle.currency_token_mint_address)
      JustiesErrorCode.invalid_currency_token_mint

abbrev pub raffle_revenue_strategy :
    ClaimRaffleRevenue → ℕ → TokenAccount → List RevenueDistribution → RevenueDistributionStrategy
raffle_revenue_strategy a raffle_id escrow distributions = record {
  revenue_escrow_token_account = a.revenue_escrow_token_account;
  revenue_escrow_amount = escrow.amount;
  fee_treasury_token_account = a.fee_treasury_token_account;
  global_states = a.global_states;
  escrow_authority = a.raffle_key;
  escrow_token_account_creator = a.creator;
  escrow_signer_seed =
      Seed.label SeedLabel.raffle ∷ Seed.number raffle_id ∷ Seed.bump a.raffle.bump ∷ [];
  revenue_distributions = distributions;
}

unfoldable pub claim_raffle_revenue_handler :
    Runtime → ClaimRaffleRevenue → ℕ → List Pubkey → Tokens → Result Tokens
claim_raffle_revenue_handler rt a raffle_id remaining_accounts ts = do
  escrow ← load_token ts a.revenue_escrow_token_account
  treasury ← load_token ts a.fee_treasury_token_account
  claim_raffle_revenue_constraints rt a raffle_id treasury
  distributions ←
      init_revenue_distribution_accounts rt a.token_mint a.raffle.revenue_shares remaining_accounts
        ts
  fail_if (not (is_raffle_made (new_raffle_strategy a.raffle_key a.raffle a.global_states)))
      JustiesErrorCode.raffle_not_made
  run_distribution rt (raffle_revenue_strategy a raffle_id escrow distributions.0) distributions.1
