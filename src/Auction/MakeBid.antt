-- ===== src/Auction/MakeBid.antt =====
-- auction/make_bid.rs: the accounts, the constraints on them and the handler.
use raffle_auction_audited_c.Prelude.{ℕ, not, Option, none, some, List, ◌==◌}
use raffle_auction_audited_c.Failures.{JustiesErrorCode, Result, ok, ◌>>=◌, ◌>>◌, constraint}
use raffle_auction_audited_c.Types.{
  Pubkey, GlobalStates, Auction, AuctionBid, EligibilityCheckInput,
}
use raffle_auction_audited_c.Types.Defaults.{default_auction_bid}
use raffle_auction_audited_c.Runtime.{
  Runtime, Tokens, TokenAccount, get_current_timestamp, load_token, require_pda, require_pda_bump,
  init_token_account_if_needed,
}
use raffle_auction_audited_c.Accounts.{AccountInfo, IndexAccount, page_id}
use raffle_auction_audited_c.Eligibility.{Payload, require_eligible}
use raffle_auction_audited_c.Auction.Bidding.{
  BidStrategy, new_bid_strategy, validate_bid, set_bid_account_data, try_index_bid,
  transfer_bid_funds, make_bid,
}
use raffle_auction_audited_c.Auction.Seeds.{
  auction_seeds, bid_seeds, bid_escrow_seeds, bid_index_seeds, global_states_seeds,
}

-- A bid account is `none` until `init_if_needed` creates it.
pub record MakeBid : Type 0 where
  pub bid_key : Pubkey
  pub bid : Option AuctionBid
  pub bid_index : IndexAccount
  pub auction_key : Pubkey
  pub auction : Auction
  pub bidder : AccountInfo
  pub bid_escrow_token_account : Pubkey
  pub bidder_token_account : Pubkey
  pub currency_token_mint : Pubkey
  pub global_states_key : Pubkey
  pub global_states : GlobalStates

pub record MakeBidArgs : Type 0 where
  pub auction_id : ℕ
  pub bid_amount : ℕ
  pub max_allowed_bid_amount : ℕ
  pub eligibility_check_input : Option EligibilityCheckInput
  pub remaining_accounts : List Payload

abbrev pub loaded_bid : Option AuctionBid → AuctionBid
loaded_bid none = default_auction_bid
loaded_bid (some b) = b

-- `init_if_needed`: the bid account's address and the bid escrow.
unfoldable pub make_bid_init : Runtime → MakeBid → Tokens → Result Tokens
make_bid_init rt a ts = do
  require_pda rt (bid_seeds a.auction_key a.bidder.key) a.bid_key
  require_pda rt (bid_escrow_seeds a.auction_key a.bidder.key) a.bid_escrow_token_account
  init_token_account_if_needed rt a.bid_escrow_token_account a.currency_token_mint a.bid_key ts

-- The constraints on the other accounts, in their order.
unfoldable pub make_bid_constraints :
    Runtime → MakeBid → MakeBidArgs → TokenAccount → Result (Unit {0})
make_bid_constraints rt a args bidder_token_account = do
  page ← page_id a.auction.total_bids a.global_states.num_keys_per_index_page
  require_pda rt (bid_index_seeds a.auction_key page) a.bid_index.info.key
  require_pda_bump rt (auction_seeds args.auction_id) a.auction.bump a.auction_key
  constraint (not (a.bidder.key == a.auction.creator))
      JustiesErrorCode.auction_creator_cannot_make_bid
  constraint (bidder_token_account.owner == a.bidder.key)
      JustiesErrorCode.invalid_bidder_token_account
  constraint (bidder_token_account.mint == a.currency_token_mint)
      JustiesErrorCode.invalid_bidder_token_account
  constraint (a.currency_token_mint == a.auction.currency_token_mint_address)
      JustiesErrorCode.invalid_currency_token_mint
  require_pda_bump rt global_states_seeds a.global_states.bump a.global_states_key

-- The strategy that the handler makes.
unfoldable pub make_bid_strategy : Runtime → MakeBid → MakeBidArgs → BidStrategy
unfolding new_bid_strategy get_current_timestamp
make_bid_strategy rt a args =
    new_bid_strategy a.bid_key (loaded_bid a.bid) a.auction_key a.auction a.bidder.key
      a.global_states args.bid_amount args.max_allowed_bid_amount
      (get_current_timestamp rt a.global_states)

-- What follows the eligibility check; the two token accounts as they were loaded.
unfoldable pub place_bid :
    Runtime
    → MakeBid
    → BidStrategy
    → TokenAccount
    → TokenAccount
    → Tokens
    → Result (MakeBid × Tokens)
place_bid rt a strategy escrow bidder_token_account ts = do
  validate_bid strategy escrow bidder_token_account
  recorded ←
      set_bid_account_data strategy
        (rt.find_program_address (bid_seeds a.auction_key a.bidder.key)).1
  page ← page_id a.auction.total_bids a.global_states.num_keys_per_index_page
  indexed ←
      try_index_bid rt recorded (rt.find_program_address (bid_index_seeds a.auction_key page)).1
        a.bid_index a.bidder
  ts' ← transfer_bid_funds rt recorded a.bidder_token_account a.bid_escrow_token_account escrow ts
  made ← make_bid recorded
  ok (
    record a {
      bid = some made.bid;
      bid_index = indexed.0;
      bidder = indexed.1;
      auction = made.auction_strategy.auction;
      global_states = made.auction_strategy.global_states;
    },
    ts',
  )

unfoldable pub make_bid_handler :
    Runtime → MakeBid → MakeBidArgs → Tokens → Result (MakeBid × Tokens)
make_bid_handler rt a args ts = do
  bidder_token_account ← load_token ts a.bidder_token_account
  ts₁ ← make_bid_init rt a ts
  make_bid_constraints rt a args bidder_token_account
  escrow ← load_token ts₁ a.bid_escrow_token_account
  require_eligible a.auction.eligible_groups a.bidder.key args.eligibility_check_input
      args.remaining_accounts
  place_bid rt a (make_bid_strategy rt a args) escrow bidder_token_account ts₁
