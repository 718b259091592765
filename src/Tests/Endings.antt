-- ===== src/Tests/Endings.antt =====
-- Runs of the instructions that end an auction.
use raffle_auction_audited_c.Prelude.{◌≡◌, refl, true, none, some, List, [], ◌∷◌, arith}
use raffle_auction_audited_c.Prelude.Int.{◌<ℤ◌, pos}
use raffle_auction_audited_c.Failures.{ok}
use raffle_auction_audited_c.Types.{Pubkey, ListingStatus, Auction, AuctionBid}
use raffle_auction_audited_c.Types.Defaults.{default_auction_bid, default_auction}
use raffle_auction_audited_c.Runtime.{
  Tokens, balance, get_current_timestamp, transfer_token, close_token_account_with_signer,
  create_associated_token_account,
}
use raffle_auction_audited_c.Auction.CancelAuction.{
  CancelAuction, cancel_auction_constraints, cancel_auction_handler,
}
use raffle_auction_audited_c.Auction.ClaimAuctionRevenue.{
  ClaimAuctionRevenue, claim_auction_revenue_constraints, claim_auction_revenue_handler,
}
use raffle_auction_audited_c.Auction.ClaimLotNft.{
  ClaimLotNft, claim_lot_nft_constraints, claim_lot_nft_handler,
}
use raffle_auction_audited_c.Auction.Closing.{cancel_auction_returns, claim_lot_nft_awards}
use raffle_auction_audited_c.Auction.Refunds.{Emptied}
use raffle_auction_audited_c.Auction.Revenue.{payees, claim_auction_revenue_pays}
use raffle_auction_audited_c.Auction.Seeds.{
  auction_seeds, lot_escrow_seeds, bid_seeds, bid_escrow_seeds,
}
use raffle_auction_audited_c.Auction.Strategy.{
  new_auction_strategy, is_ended, cancel, get_lot_escrow_signer_seed, transfer_lot_nft,
  close_lot_escrow_nft_account, finalize_auction_if_need,
}
use raffle_auction_audited_c.Example.{address, runtime, runtime-IsTokenProgram}
use raffle_auction_audited_c.Revenue.{
  share_sum_from, validate_share_configs, all_match, validate_revenue_distribution_accounts,
  create_receiver_accounts, collect_distributions, init_revenue_distribution_accounts, bps_of,
  collect_fees, distribute_amount, make_distribution, make_distributions, distribute_revenue,
  close_distributed_escrow, run_distribution,
}
use raffle_auction_audited_c.Revenue.Payout.{PaidOut}
use raffle_auction_audited_c.Tests.Market.{
  got, tokens_of, holding, nft, currency, creator, treasury, associated, states_key, states, shares,
}

abbrev auction_key : Pubkey
auction_key = address (auction_seeds 1)

abbrev lot_escrow : Pubkey
lot_escrow = address (lot_escrow_seeds auction_key)

-- The winner bid 2000, and the auction ended at 500.
abbrev winner : Pubkey
winner = 14

abbrev bid_key : Pubkey
bid_key = address (bid_seeds auction_key winner)

abbrev bid_escrow : Pubkey
bid_escrow = address (bid_escrow_seeds auction_key winner)

abbrev ended_auction : Auction
ended_auction = record default_auction {
  bump = 255;
  id = 1;
  nft_mint_address = nft;
  currency_token_mint_address = currency;
  expired_timestamp = pos 500;
  start_bid = 100;
  creator = creator;
  revenue_shares = shares;
  total_bids = 1;
  top_bid = 2000;
  top_bidder = some winner;
}

abbrev winning_bid : AuctionBid
winning_bid = record default_auction_bid {
  bump = 255;
  initialized = true;
  auction = auction_key;
  bidder = winner;
  bid = 2000;
}

abbrev cancelling : CancelAuction
cancelling = record {
  auction_key = auction_key;
  auction = record ended_auction { total_bids = 0; top_bid = 0; top_bidder = none };
  creator = creator;
  nft_mint = nft;
  lot_escrow_nft_account = lot_escrow;
  creator_nft_account = associated creator nft;
  global_states_key = states_key;
  global_states = states;
}

abbrev lot_tokens : Tokens
lot_tokens = tokens_of ((lot_escrow, holding nft auction_key 1) ∷ [])

abbrev cancelled : Auction × Tokens
cancelled =
    got (cancel_auction_handler runtime cancelling 1 lot_tokens) (default_auction, lot_tokens)

cancel_run : cancel_auction_handler runtime cancelling 1 lot_tokens ≡ ok (cancelled.0, cancelled.1)
unfolding cancel cancel_auction_constraints cancel_auction_handler close_lot_escrow_nft_account
    close_token_account_with_signer get_lot_escrow_signer_seed new_auction_strategy transfer_lot_nft
    transfer_token
cancel_run = refl

cancel_auction_returns_example :
    (cancelling.auction.creator ≡ cancelling.creator)
    × (cancelling.auction.total_bids ≡ 0)
    × Emptied lot_tokens cancelling.lot_escrow_nft_account cancelling.creator_nft_account 1
        cancelled.1
    × (cancelled.0.status ≡ ListingStatus.cancelled)
cancel_auction_returns_example =
    cancel_auction_returns runtime runtime-IsTokenProgram cancelling 1 lot_tokens cancelled.0
      cancelled.1 cancel_run (λ e. omega arith)

abbrev claiming : ClaimLotNft
claiming = record {
  bid_key = bid_key;
  bid = winning_bid;
  auction_key = auction_key;
  auction = ended_auction;
  bidder = winner;
  lot_escrow_nft_account = lot_escrow;
  bidder_nft_account = associated winner nft;
  global_states_key = states_key;
  global_states = states;
  auction_creator = creator;
  nft_mint = nft;
}

abbrev claimed : Auction × Tokens
claimed = got (claim_lot_nft_handler runtime claiming 1 lot_tokens) (default_auction, lot_tokens)

claim_run : claim_lot_nft_handler runtime claiming 1 lot_tokens ≡ ok (claimed.0, claimed.1)
unfolding claim_lot_nft_constraints claim_lot_nft_handler close_lot_escrow_nft_account
    close_token_account_with_signer finalize_auction_if_need get_current_timestamp
    get_lot_escrow_signer_seed is_ended new_auction_strategy transfer_lot_nft transfer_token
claim_run = refl

claim_lot_nft_awards_example :
    (claiming.auction.top_bidder ≡ some claiming.bidder)
    × (claiming.auction.expired_timestamp <ℤ get_current_timestamp runtime claiming.global_states)
    × Emptied lot_tokens claiming.lot_escrow_nft_account claiming.bidder_nft_account 1 claimed.1
    × (claimed.0.status ≡ ListingStatus.finished)
    × (claimed.0.top_bidder ≡ some claiming.bidder)
claim_lot_nft_awards_example =
    claim_lot_nft_awards runtime runtime-IsTokenProgram claiming 1 lot_tokens claimed.0 claimed.1
      claim_run (λ e. omega arith)

-- Anyone may pay for the claim: `creator` is another account here.
abbrev collecting : ClaimAuctionRevenue
collecting = record {
  auction_key = auction_key;
  auction = ended_auction;
  top_bid_key = bid_key;
  top_bid = winning_bid;
  creator = 77;
  bid_escrow_token_account = bid_escrow;
  fee_treasury_token_account = associated treasury currency;
  token_mint = currency;
  top_bidder = winner;
  fee_treasury = treasury;
  global_states_key = states_key;
  global_states = states;
}

abbrev receivers : List Pubkey
receivers = 31 ∷ 32 ∷ associated 31 currency ∷ associated 32 currency ∷ []

abbrev revenue_tokens : Tokens
revenue_tokens = tokens_of (
    (bid_escrow, holding currency bid_key 2000)
    ∷ (associated treasury currency, holding currency treasury 7)
    ∷ [])

abbrev collected : Auction × Tokens
collected =
    got (claim_auction_revenue_handler runtime collecting 1 receivers revenue_tokens)
      (default_auction, revenue_tokens)

collect_run :
    claim_auction_revenue_handler runtime collecting 1 receivers revenue_tokens
    ≡ ok (collected.0, collected.1)
unfolding all_match bps_of claim_auction_revenue_constraints claim_auction_revenue_handler
    close_distributed_escrow close_token_account_with_signer collect_distributions collect_fees
    create_associated_token_account create_receiver_accounts distribute_amount distribute_revenue
    finalize_auction_if_need get_current_timestamp init_revenue_distribution_accounts is_ended
    make_distribution make_distributions new_auction_strategy run_distribution share_sum_from
    transfer_token validate_revenue_distribution_accounts validate_share_configs
collect_run = refl

claim_auction_revenue_pays_example :
    (collecting.auction.top_bidder ≡ some collecting.top_bidder)
    × (collecting.auction.expired_timestamp
        <ℤ get_current_timestamp runtime collecting.global_states)
    × (collecting.global_states.fee_treasury_address ≡ collecting.fee_treasury)
    × ((runtime.find_program_address
          (bid_escrow_seeds collecting.auction_key collecting.top_bidder)).0
        ≡ collecting.bid_escrow_token_account)
    × (collecting.top_bid.bidder ≡ collecting.top_bidder)
    × (balance revenue_tokens collecting.bid_escrow_token_account ≡ collecting.top_bid.bid)
    × PaidOut revenue_tokens collecting.bid_escrow_token_account
        collecting.fee_treasury_token_account collecting.global_states.market_fee_rate_bps
        (payees runtime collecting)
        collected.1
    × (collected.0.status ≡ ListingStatus.finished)
claim_auction_revenue_pays_example =
    claim_auction_revenue_pays runtime runtime-IsTokenProgram collecting 1 receivers revenue_tokens
      collected.0 collected.1 collect_run (λ e. omega arith)
      ((λ e. omega arith), ((λ e. omega arith), tt))
