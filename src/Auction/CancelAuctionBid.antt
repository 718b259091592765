-- ===== src/Auction/CancelAuctionBid.antt =====
-- auction/cancel_auction_bid.rs: the accounts, the constraints on them and the handler.
use raffle_auction_audited_c.Prelude.{ℕ, not, ◌==◌, is_some_of}
use raffle_auction_audited_c.Failures.{JustiesErrorCode, Result, ok, ◌>>=◌, ◌>>◌, constraint}
use raffle_auction_audited_c.Types.{Pubkey, GlobalStates, Auction, AuctionBid}
use raffle_auction_audited_c.Runtime.{
  Runtime, Tokens, TokenAccount, get_current_timestamp, load_token, require_pda, require_pda_bump,
  init_associated_if_needed,
}
use raffle_auction_audited_c.Auction.Bidding.{
  BidStrategy, new_bid_strategy, cancel_bid, refund, close_bid_escrow_token_account,
}
use raffle_auction_audited_c.Auction.Seeds.{
  auction_seeds, bid_seeds, bid_escrow_seeds, global_states_seeds,
}

pub record CancelAuctionBid : Type 0 where
  pub bid_key : Pubkey
  pub bid : AuctionBid
  pub auction_key : Pubkey
  pub auction : Auction
  pub bidder : Pubkey
  pub bid_escrow_token_account : Pubkey
  pub bidder_token_account : Pubkey
  pub token_mint : Pubkey
  pub global_states_key : Pubkey
  pub global_states : GlobalStates

unfoldable pub cancel_auction_bid_constraints :
    Runtime → CancelAuctionBid → ℕ → TokenAccount → Result (Unit {0})
cancel_auction_bid_constraints rt a auction_id escrow = do
  require_pda_bump rt (bid_seeds a.auction_key a.bidder) a.bid.bump a.bid_key
  constraint (a.bid.bidder == a.bidder) JustiesErrorCode.not_the_bidder
  require_pda_bump rt (auction_seeds auction_id) a.auction.bump a.auction_key
  constraint (not (is_some_of a.auction.top_bidder a.bidder))
      JustiesErrorCode.top_bidder_cannot_cancel_bid
  require_pda rt (bid_escrow_seeds a.auction_key a.bidder) a.bid_escrow_token_account
  constraint (escrow.mint == a.auction.currency_token_mint_address)
      JustiesErrorCode.inconsistent_bid_escrow_token_account
  constraint (escrow.amount == a.bid.bid) JustiesErrorCode.inconsistent_bid_escrow_token_account
  constraint (a.token_mint == a.auction.currency_token_mint_address)
      JustiesErrorCode.invalid_currency_token_mint
  require_pda_bump rt global_states_seeds a.global_states.bump a.global_states_key

unfoldable pub cancel_bid_strategy : Runtime → CancelAuctionBid → BidStrategy
unfolding new_bid_strategy get_current_timestamp
cancel_bid_strategy rt a =
    new_bid_strategy a.bid_key a.bid a.auction_key a.auction a.bidder a.global_states 0 0
      (get_current_timestamp rt a.global_states)

-- The handler: the bid, the auction and the token accounts.
unfoldable pub cancel_auction_bid_handler :
    Runtime → CancelAuctionBid → ℕ → Tokens → Result (AuctionBid × Auction × Tokens)
cancel_auction_bid_handler rt a auction_id ts = do
  escrow ← load_token ts a.bid_escrow_token_account
  ts₁ ← init_associated_if_needed rt a.bidder_token_account a.token_mint a.bidder ts
  cancel_auction_bid_constraints rt a auction_id escrow
  let strategy = cancel_bid_strategy rt a
  ts₂ ← refund rt strategy a.bid_escrow_token_account escrow a.bidder_token_account ts₁
  ts₃ ← close_bid_escrow_token_account rt strategy a.bid_escrow_token_account ts₂
  let cancelled = cancel_bid strategy
  ok (cancelled.bid, cancelled.auction_strategy.auction, ts₃)
