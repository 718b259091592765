-- ===== src/Auction/ClaimAuctionRevenue.antt =====
-- auction/claim_auction_revenue.rs: the accounts, the constraints on them and the handler.
use raffle_auction_audited_c.Prelude.{ℕ, not, List, [], ◌∷◌, ◌==◌, is_some_of}
use raffle_auction_audited_c.Failures.{
  JustiesErrorCode, Result, ok, ◌>>=◌, ◌>>◌, fail_if, constraint,
}
use raffle_auction_audited_c.Types.{Pubkey, GlobalStates, Auction, AuctionBid, RevenueDistribution}
use raffle_auction_audited_c.Runtime.{
  Runtime, Tokens, TokenAccount, Seed, SeedLabel, get_current_timestamp, load_token, require_pda,
  require_pda_bump, require_token, require_associated,
}
use raffle_auction_audited_c.Revenue.{
  RevenueDistributionStrategy, init_revenue_distribution_accounts, run_distribution,
}
use raffle_auction_audited_c.Auction.Strategy.{
  new_auction_strategy, is_ended, finalize_auction_if_need,
}
use raffle_auction_audited_c.Auction.Seeds.{
  auction_seeds, bid_seeds, bid_escrow_seeds, global_states_seeds,
}

-- `creator` only pays; no constraint compares it with the auction's creator.
pub record ClaimAuctionRevenue : Type 0 where
  pub auction_key : Pubkey
  pub auction : Auction
  pub top_bid_key : Pubkey
  pub top_bid : AuctionBid
  pub creator : Pubkey
  pub bid_escrow_token_account : Pubkey
  pub fee_treasury_token_account : Pubkey
  pub token_mint : Pubkey
  pub top_bidder : Pubkey
  pub fee_treasury : Pubkey
  pub global_states_key : Pubkey
  pub global_states : GlobalStates

unfoldable pub claim_auction_revenue_constraints :
    Runtime → ClaimAuctionRevenue → ℕ → TokenAccount → TokenAccount → Result (Unit {0})
claim_auction_revenue_constraints rt a auction_id escrow treasury = do
  require_pda_bump rt (auction_seeds auction_id) a.auction.bump a.auction_key
  require_pda_bump rt (bid_seeds a.auction_key a.top_bidder) a.top_bid.bump a.top_bid_key
  constraint (a.top_bid.bidder == a.top_bidder) JustiesErrorCode.ineligible_to_claim_revenue
  require_pda rt (bid_escrow_seeds a.auction_key a.top_bidder) a.bid_escrow_token_account
  constraint (escrow.mint == a.auction.currency_token_mint_address)
      JustiesErrorCode.inconsistent_bid_escrow_account_state
  constraint (escrow.amount == a.top_bid.bid) JustiesErrorCode.inconsistent_bid_escrow_account_state
  require_token a.token_mint a.fee_treasury treasury
  require_associated rt a.fee_treasury_token_account a.token_mint a.fee_treasury
  constraint (a.token_mint == a.auction.currency_token_mint_address)
      JustiesErrorCode.invalid_currency_token_mint
  constraint (is_some_of a.auction.top_bidder a.top_bidder)
      JustiesErrorCode.ineligible_to_claim_revenue
  constraint (a.global_states.fee_treasury_address == a.fee_treasury)
      JustiesErrorCode.invalid_fee_treasury_address
  require_pda_bump rt global_states_seeds a.global_states.bump a.global_states_key

abbrev pub auction_revenue_strategy :
    ClaimAuctionRevenue → TokenAccount → List RevenueDistribution → RevenueDistributionStrategy
auction_revenue_strategy a escrow distributions = record {
  revenue_escrow_token_account = a.bid_escrow_token_account;
  revenue_escrow_amount = escrow.amount;
  fee_treasury_token_account = a.fee_treasury_token_account;
  global_states = a.global_states;
  escrow_authority = a.top_bid_key;
  escrow_token_account_creator = a.top_bidder;
  escrow_signer_seed =
      Seed.label SeedLabel.auction
      ∷ Seed.key a.auction_key
      ∷ Seed.label SeedLabel.bid
      ∷ Seed.key a.top_bidder
      ∷ Seed.bump a.top_bid.bump
      ∷ [];
  revenue_distributions = distributions;
}

unfoldable pub claim_auction_revenue_handler :
    Runtime → ClaimAuctionRevenue → ℕ → List Pubkey → Tokens → Result (Auction × Tokens)
claim_auction_revenue_handler rt a auction_id remaining_accounts ts = do
  escrow ← load_token ts a.bid_escrow_token_account
  treasury ← load_token ts a.fee_treasury_token_account
  claim_auction_revenue_constraints rt a auction_id escrow treasury
  let strategy = new_auction_strategy a.auction_key a.auction a.global_states
  fail_if (not (is_ended strategy (get_current_timestamp rt a.global_states)))
      JustiesErrorCode.ongoing_auction
  distributions ←
      init_revenue_distribution_accounts rt a.token_mint a.auction.revenue_shares remaining_accounts
        ts
  ts' ← run_distribution rt (auction_revenue_strategy a escrow distributions.0) distributions.1
  ok ((finalize_auction_if_need strategy).auction, ts')
