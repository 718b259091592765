-- ===== src/Auction/Bidding.antt =====
-- common/bid_strategy.rs: validating, recording, paying and cancelling a bid.
use raffle_auction_audited_c.Prelude.{
  ℕ, max, Bool, true, false, not, ◌||◌, none, some, List, [], ◌∷◌, ltb, leb, ◌==◌, if◌then◌else◌,
}
use raffle_auction_audited_c.Prelude.Int.{ℤ}
use raffle_auction_audited_c.Failures.{JustiesErrorCode, Result, ok, ◌>>=◌, ◌>>◌, fail_if}
use raffle_auction_audited_c.Failures.Checked.{add_u64, sub_u}
use raffle_auction_audited_c.Types.{Pubkey, GlobalStates, Auction, AuctionBid}
use raffle_auction_audited_c.Runtime.{
  Runtime, Tokens, TokenAccount, Seed, SeedLabel, transfer_token, close_token_account_with_signer,
}
use raffle_auction_audited_c.Accounts.{AccountInfo, IndexAccount, page_id, index_pubkey}
use raffle_auction_audited_c.Auction.Strategy.{
  AuctionStrategy, new_auction_strategy, is_ended, is_cancelled, need_to_extend,
  get_min_eligible_bid, extend, finalize_auction_if_need,
}

pub record BidStrategy : Type 0 where
  pub bid : AuctionBid
  pub auction_strategy : AuctionStrategy
  pub bid_key : Pubkey
  pub bidder_key : Pubkey
  pub bid_amount : ℕ
  pub max_allowed_bid_amount : ℕ
  pub current_timestamp : ℤ
  pub newly_initialized : Bool
  -- The bump that the bid account held when the strategy was made.
  pub bid_bump : ℕ

abbrev pub auction_of : BidStrategy → Auction
auction_of s = s.auction_strategy.auction

-- `BidStrategy::new`; the keys are those of the bid, the auction and the bidder.
unfoldable pub new_bid_strategy :
    Pubkey → AuctionBid → Pubkey → Auction → Pubkey → GlobalStates → ℕ → ℕ → ℤ → BidStrategy
unfolding new_auction_strategy
new_bid_strategy bid_key bid auction_key auction bidder global_states bid_amount max_allowed
      current_timestamp =
    record {
      bid = bid;
      auction_strategy = new_auction_strategy auction_key auction global_states;
      bid_key = bid_key;
      bidder_key = bidder;
      bid_amount = bid_amount;
      max_allowed_bid_amount = max_allowed;
      current_timestamp = current_timestamp;
      newly_initialized = false;
      bid_bump = bid.bump;
    }

unfoldable pub get_actual_bid : BidStrategy → Result ℕ
get_actual_bid s = do
  min_eligible_bid ← get_min_eligible_bid s.auction_strategy
  ok (max s.bid_amount min_eligible_bid)

-- `u64` subtraction, which panics when the escrow holds more than the bid.
unfoldable pub get_transfer_amount : BidStrategy → TokenAccount → Result ℕ
get_transfer_amount s bid_escrow_token_account = do
  actual_bid ← get_actual_bid s
  sub_u actual_bid bid_escrow_token_account.amount

-- The test of the minimum outbid rate, made when there is a top bid.
unfoldable pub check_min_outbid : BidStrategy → Result (Unit {0})
check_min_outbid s =
    if ltb 0 (auction_of s).top_bid
    then (do
      min_eligible_bid ← get_min_eligible_bid s.auction_strategy
      fail_if (ltb s.max_allowed_bid_amount min_eligible_bid)
          JustiesErrorCode.not_met_min_outbid_rate)
    else ok tt

unfoldable pub validate_bid : BidStrategy → TokenAccount → TokenAccount → Result (Unit {0})
validate_bid s bid_escrow_token_account bidder_token_account = do
  fail_if (is_ended s.auction_strategy s.current_timestamp) JustiesErrorCode.bid_on_ended_auction
  fail_if (is_cancelled s.auction_strategy) JustiesErrorCode.auction_cancelled
  fail_if (s.bid_amount == 0 || ltb s.max_allowed_bid_amount s.bid_amount)
      JustiesErrorCode.invalid_bid_amount
  fail_if (ltb s.bid_amount (auction_of s).start_bid) JustiesErrorCode.not_met_start_bid
  fail_if (leb s.max_allowed_bid_amount (auction_of s).top_bid)
      JustiesErrorCode.not_met_min_outbid_rate
  check_min_outbid s
  transfer_amount ← get_transfer_amount s bid_escrow_token_account
  fail_if (ltb bidder_token_account.amount transfer_amount) JustiesErrorCode.insufficient_bid_funds

unfoldable pub get_bid_escrow_signer_seed : BidStrategy → List Seed
get_bid_escrow_signer_seed s =
    Seed.label SeedLabel.auction
    ∷ Seed.key s.auction_strategy.auction_key
    ∷ Seed.label SeedLabel.bid
    ∷ Seed.key s.bidder_key
    ∷ Seed.bump s.bid_bump
    ∷ []

-- The data that the first bid of a bidder writes once.
unfoldable pub init_bid_data : BidStrategy → ℕ → AuctionBid
init_bid_data s bid_bump =
    if not s.bid.initialized
    then record (s.bid) {
      initialized = true;
      bump = bid_bump;
      auction = s.auction_strategy.auction_key;
      bidder = s.bidder_key;
    }
    else s.bid

unfoldable pub set_bid_account_data : BidStrategy → ℕ → Result BidStrategy
unfolding init_bid_data
set_bid_account_data s bid_bump = do
  actual_bid ← get_actual_bid s
  ok (record s {
    newly_initialized = not s.bid.initialized;
    bid = record (init_bid_data s bid_bump) {
      bid = actual_bid;
      latest_change_timestamp = s.current_timestamp;
    };
  })

-- The auction with the new top bid, before any extension.
unfoldable pub set_top_bid : BidStrategy → Result AuctionStrategy
set_top_bid s = do
  total_bids ←
      if s.newly_initialized
      then add_u64 (auction_of s).total_bids 1
      else ok (auction_of s).total_bids
  ok (record (s.auction_strategy) {
    auction = record (s.auction_strategy.auction) {
      total_bids = total_bids;
      top_bid = s.bid.bid;
      top_bidder = some s.bidder_key;
    };
  })

-- `if need_to_extend { extend }`
unfoldable pub extend_if_needed : AuctionStrategy → ℤ → Result AuctionStrategy
extend_if_needed s current_timestamp = do
  needed ← need_to_extend s current_timestamp
  if needed then extend s current_timestamp else ok s

unfoldable pub make_bid : BidStrategy → Result BidStrategy
make_bid s = do
  topped ← set_top_bid s
  extended ← extend_if_needed topped s.current_timestamp
  ok (record s { auction_strategy = extended })

unfoldable pub cancel_bid : BidStrategy → BidStrategy
cancel_bid s = record s {
  bid = record (s.bid) { bid = 0; latest_change_timestamp = s.current_timestamp };
  auction_strategy =
      if is_ended s.auction_strategy s.current_timestamp
      then finalize_auction_if_need s.auction_strategy
      else s.auction_strategy;
}

-- `try_index_bid`, for a newly created bid account only.
unfoldable pub try_index_bid :
    Runtime → BidStrategy → ℕ → IndexAccount → AccountInfo → Result (IndexAccount × AccountInfo)
try_index_bid rt s bid_index_bump bid_index bidder =
    if not s.newly_initialized then ok (bid_index, bidder) else (do
      page ←
          page_id (auction_of s).total_bids s.auction_strategy.global_states.num_keys_per_index_page
      index_pubkey rt s.bid_key bid_index_bump
          (Seed.label SeedLabel.auction
            ∷ Seed.key s.auction_strategy.auction_key
            ∷ Seed.label SeedLabel.bid_index
            ∷ Seed.number page
            ∷ Seed.bump bid_index_bump
            ∷ [])
          bid_index bidder)

-- Addresses of the bidder's account and of the escrow; the escrow as it was loaded.
unfoldable pub transfer_bid_funds :
    Runtime → BidStrategy → Pubkey → Pubkey → TokenAccount → Tokens → Result Tokens
transfer_bid_funds rt s bidder_token_account bid_escrow_token_account escrow ts = do
  transfer_amount ← get_transfer_amount s escrow
  transfer_token rt bidder_token_account bid_escrow_token_account s.bidder_key transfer_amount none
      ts

unfoldable pub refund :
    Runtime → BidStrategy → Pubkey → TokenAccount → Pubkey → Tokens → Result Tokens
refund rt s bid_escrow_token_account escrow bidder_token_account ts =
    transfer_token rt bid_escrow_token_account bidder_token_account s.bid_key escrow.amount
      (some (get_bid_escrow_signer_seed s)) ts

unfoldable pub close_bid_escrow_token_account :
    Runtime → BidStrategy → Pubkey → Tokens → Result Tokens
close_bid_escrow_token_account rt s bid_escrow_token_account ts =
    close_token_account_with_signer rt bid_escrow_token_account s.bidder_key s.bid_key
      (get_bid_escrow_signer_seed s) ts
