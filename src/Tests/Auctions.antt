-- ===== src/Tests/Auctions.antt =====
-- Runs of the auction instructions.
use raffle_auction_audited_c.Prelude.{
  ◌*◌, ◌≤◌, ◌<◌, ◌≡◌, refl, ◌≢◌, ◌↔◌, true, none, some, [], ◌∷◌, arith,
}
use raffle_auction_audited_c.Prelude.Int.{ℤ, ◌+ℤ◌, ◌-ℤ◌, ◌*ℤ◌, quot_ℕ, ◌≤ℤ◌, ◌<ℤ◌, pos}
use raffle_auction_audited_c.Failures.{ok}
use raffle_auction_audited_c.Types.{Pubkey, Auction, AuctionBid}
use raffle_auction_audited_c.Types.Defaults.{default_auction_bid, default_auction}
use raffle_auction_audited_c.Runtime.{
  Tokens, get_current_timestamp, transfer_token, close_token_account_with_signer,
}
use raffle_auction_audited_c.Accounts.{
  create_pda, settle_rent, resize_account, page_id, open_index_page, index_pubkey,
}
use raffle_auction_audited_c.Auction.Bidding.{
  BidStrategy, new_bid_strategy, get_actual_bid, get_transfer_amount, check_min_outbid,
  validate_bid, get_bid_escrow_signer_seed, init_bid_data, set_bid_account_data, set_top_bid,
  extend_if_needed, make_bid, cancel_bid, try_index_bid, transfer_bid_funds, refund,
  close_bid_escrow_token_account,
}
use raffle_auction_audited_c.Auction.CancelAuctionBid.{
  CancelAuctionBid, cancel_auction_bid_constraints, cancel_bid_strategy, cancel_auction_bid_handler,
}
use raffle_auction_audited_c.Auction.Deadline.{window_of, period_of, bid_shortens_iff}
use raffle_auction_audited_c.Auction.MakeBid.{
  MakeBid, MakeBidArgs, make_bid_init, make_bid_constraints, make_bid_strategy, place_bid,
  make_bid_handler,
}
use raffle_auction_audited_c.Auction.Outbid.{IsAcceptable, validate_bid_iff}
use raffle_auction_audited_c.Auction.Placing.{Placed, make_bid_handler_places}
use raffle_auction_audited_c.Auction.Refunds.{Emptied, cancel_auction_bid_refunds}
use raffle_auction_audited_c.Auction.Rising.{top_bid_rises}
use raffle_auction_audited_c.Auction.Seeds.{
  auction_seeds, bid_seeds, bid_escrow_seeds, bid_index_seeds,
}
use raffle_auction_audited_c.Auction.Strategy.{
  AuctionStrategy, new_auction_strategy, is_ended, is_cancelled, need_to_extend,
  get_min_eligible_bid, extend, finalize_auction_if_need,
}
use raffle_auction_audited_c.Eligibility.{
  read_payloads, new_eligibility_check, check_eligibility, require_eligible,
}
use raffle_auction_audited_c.Example.{address, runtime, runtime-IsTokenProgram}
use raffle_auction_audited_c.Tests.Market.{
  got, tokens_of, holding, nft, currency, creator, buyer, associated, states_key, states,
  wallet_info, no_index, shares,
}

abbrev pub auction_key : Pubkey
auction_key = address (auction_seeds 1)

-- The bidder 14 is on top with 200.
abbrev pub auction_at : ℤ → Auction
auction_at expired = record default_auction {
  bump = 255;
  id = 1;
  nft_mint_address = nft;
  currency_token_mint_address = currency;
  expired_timestamp = expired;
  start_bid = 100;
  creator = creator;
  revenue_shares = shares;
  total_bids = 1;
  top_bid = 200;
  top_bidder = some 14;
}

abbrev pub bid_key : Pubkey → Pubkey
bid_key bidder = address (bid_seeds auction_key bidder)

abbrev pub bid_escrow : Pubkey → Pubkey
bid_escrow bidder = address (bid_escrow_seeds auction_key bidder)

-- A first bid of 300 by the buyer, who has 1000.
abbrev bidding : MakeBid
bidding = record {
  bid_key = bid_key buyer;
  bid = none;
  bid_index = no_index (address (bid_index_seeds auction_key 0));
  auction_key = auction_key;
  auction = auction_at (pos 5000);
  bidder = wallet_info buyer;
  bid_escrow_token_account = bid_escrow buyer;
  bidder_token_account = associated buyer currency;
  currency_token_mint = currency;
  global_states_key = states_key;
  global_states = states;
}

abbrev bid_args : MakeBidArgs
bid_args = record {
  auction_id = 1;
  bid_amount = 300;
  max_allowed_bid_amount = 400;
  eligibility_check_input = none;
  remaining_accounts = [];
}

abbrev bid_tokens : Tokens
bid_tokens = tokens_of ((associated buyer currency, holding currency buyer 1000) ∷ [])

abbrev bid_done : MakeBid × Tokens
bid_done = got (make_bid_handler runtime bidding bid_args bid_tokens) (bidding, bid_tokens)

bid_run : make_bid_handler runtime bidding bid_args bid_tokens ≡ ok (bid_done.0, bid_done.1)
unfolding check_eligibility check_min_outbid create_pda extend extend_if_needed get_actual_bid
    get_current_timestamp get_min_eligible_bid get_transfer_amount index_pubkey init_bid_data
    is_cancelled is_ended make_bid make_bid_constraints make_bid_handler make_bid_init
    make_bid_strategy need_to_extend new_auction_strategy new_bid_strategy new_eligibility_check
    open_index_page page_id place_bid quot_ℕ read_payloads require_eligible resize_account
    set_bid_account_data set_top_bid settle_rent transfer_bid_funds transfer_token try_index_bid
    validate_bid ◌*ℤ◌ ◌+ℤ◌ ◌-ℤ◌
bid_run = refl

make_bid_handler_places_example : Placed runtime bidding bid_args bid_tokens bid_done.0 bid_done.1
make_bid_handler_places_example =
    make_bid_handler_places runtime runtime-IsTokenProgram bidding bid_args bid_tokens bid_done.0
      bid_done.1 bid_run (omega arith) (λ e. omega arith)

top_bid_rises_example :
    (bidding.auction.top_bid ≤ bid_done.0.auction.top_bid)
    × (10000 ≤ bidding.auction.top_bid * bidding.global_states.min_outbid_rate_bps
        → bidding.auction.top_bid < bid_done.0.auction.top_bid)
    × (bidding.auction.top_bid * bidding.global_states.min_outbid_rate_bps < 10000
        → bid_args.bid_amount ≤ bidding.auction.top_bid
        → (bid_done.0.auction.top_bid ≡ bidding.auction.top_bid)
          × (bid_done.0.auction.top_bidder ≡ some bidding.bidder.key))
top_bid_rises_example =
    top_bid_rises runtime runtime-IsTokenProgram bidding bid_args bid_tokens bid_done.0 bid_done.1
      bid_run (omega arith) (λ e. omega arith)

abbrev bid_strategy : BidStrategy
bid_strategy = make_bid_strategy runtime bidding bid_args

validate_bid_iff_example :
    (validate_bid bid_strategy (holding currency (bid_key buyer) 0) (holding currency buyer 1000)
      ≡ ok tt)
    ↔ IsAcceptable bid_strategy (holding currency (bid_key buyer) 0) (holding currency buyer 1000)
unfolding make_bid_strategy new_bid_strategy new_auction_strategy
validate_bid_iff_example =
    validate_bid_iff bid_strategy (holding currency (bid_key buyer) 0) (holding currency buyer 1000)
      (omega arith, omega arith, omega arith)

-- The buyer, who is not on top, takes back a bid of 150.
abbrev pub cancelling : CancelAuctionBid
cancelling = record {
  bid_key = bid_key buyer;
  bid = record default_auction_bid {
    bump = 255;
    initialized = true;
    auction = auction_key;
    bidder = buyer;
    bid = 150;
  };
  auction_key = auction_key;
  auction = auction_at (pos 5000);
  bidder = buyer;
  bid_escrow_token_account = bid_escrow buyer;
  bidder_token_account = associated buyer currency;
  token_mint = currency;
  global_states_key = states_key;
  global_states = states;
}

abbrev pub escrow_tokens : Tokens
escrow_tokens = tokens_of ((bid_escrow buyer, holding currency (bid_key buyer) 150) ∷ [])

abbrev pub cancelled : AuctionBid × Auction × Tokens
cancelled =
    got (cancel_auction_bid_handler runtime cancelling 1 escrow_tokens)
      (default_auction_bid, default_auction, escrow_tokens)

pub cancel_bid_run :
    cancel_auction_bid_handler runtime cancelling 1 escrow_tokens
    ≡ ok (cancelled.0, cancelled.1, cancelled.2)
unfolding cancel_auction_bid_constraints cancel_auction_bid_handler cancel_bid cancel_bid_strategy
    close_bid_escrow_token_account close_token_account_with_signer finalize_auction_if_need
    get_bid_escrow_signer_seed get_current_timestamp is_ended new_auction_strategy new_bid_strategy
    refund transfer_token
cancel_bid_run = refl

cancel_auction_bid_refunds_example :
    (cancelling.auction.top_bidder ≢ some cancelling.bidder)
    × (cancelling.bid.bidder ≡ cancelling.bidder)
    × Emptied escrow_tokens cancelling.bid_escrow_token_account cancelling.bidder_token_account
        cancelling.bid.bid cancelled.2
    × (cancelled.0.bid ≡ 0)
    × (cancelled.1.top_bid ≡ cancelling.auction.top_bid)
    × (cancelled.1.top_bidder ≡ cancelling.auction.top_bidder)
cancel_auction_bid_refunds_example =
    cancel_auction_bid_refunds runtime runtime-IsTokenProgram cancelling 1 escrow_tokens cancelled.0
      cancelled.1 cancelled.2 cancel_bid_run (λ e. omega arith)

-- Extension by five minutes in the last ten: the bid at 1000 ends the auction at 1300, not at 1500.
abbrev closing : AuctionStrategy
closing = record {
  auction = auction_at (pos 1500);
  global_states = record states { auction_extend_minutes = 5 };
  auction_key = auction_key;
  auction_id = 1;
  auction_bump = 255;
}

abbrev extended : AuctionStrategy
extended = got (extend_if_needed closing (pos 1000)) closing

extend_run : extend_if_needed closing (pos 1000) ≡ ok extended
unfolding extend extend_if_needed need_to_extend ◌*ℤ◌ ◌+ℤ◌ ◌-ℤ◌
extend_run = refl

bid_shortens_iff_example :
    ((extended.auction.expired_timestamp <ℤ closing.auction.expired_timestamp) ↔ (
      (closing.auction.expired_timestamp <ℤ (pos 1000) +ℤ pos (window_of closing))
      × ((pos 1000) +ℤ pos (period_of closing) <ℤ closing.auction.expired_timestamp)))
    × (window_of closing ≤ period_of closing
        → closing.auction.expired_timestamp ≤ℤ extended.auction.expired_timestamp)
bid_shortens_iff_example = bid_shortens_iff closing extended (pos 1000) extend_run
