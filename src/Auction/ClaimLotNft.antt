-- ===== src/Auction/ClaimLotNft.antt =====
-- auction/claim_lot_nft.rs: the accounts, the constraints on them and the handler.
use raffle_auction_audited_c.Prelude.{ℕ, not, ◌==◌, is_some_of}
use raffle_auction_audited_c.Failures.{
  JustiesErrorCode, Result, ok, ◌>>=◌, ◌>>◌, fail_if, constraint,
}
use raffle_auction_audited_c.Types.{Pubkey, GlobalStates, Auction, AuctionBid}
use raffle_auction_audited_c.Runtime.{
  Runtime, Tokens, TokenAccount, get_current_timestamp, load_token, require_pda, require_pda_bump,
  init_associated_if_needed,
}
use raffle_auction_audited_c.Auction.Strategy.{
  new_auction_strategy, is_ended, transfer_lot_nft, close_lot_escrow_nft_account,
  finalize_auction_if_need,
}
use raffle_auction_audited_c.Auction.Seeds.{
  auction_seeds, bid_seeds, lot_escrow_seeds, global_states_seeds,
}

pub record ClaimLotNft : Type 0 where
  pub bid_key : Pubkey
  pub bid : AuctionBid
  pub auction_key : Pubkey
  pub auction : Auction
  pub bidder : Pubkey
  pub lot_escrow_nft_account : Pubkey
  pub bidder_nft_account : Pubkey
  pub global_states_key : Pubkey
  pub global_states : GlobalStates
  pub auction_creator : Pubkey
  pub nft_mint : Pubkey

unfoldable pub claim_lot_nft_constraints :
    Runtime → ClaimLotNft → ℕ → TokenAccount → Result (Unit {0})
claim_lot_nft_constraints rt a auction_id lot_escrow = do
  require_pda_bump rt (bid_seeds a.auction_key a.bidder) a.bid.bump a.bid_key
  constraint (a.bid.bidder == a.bidder) JustiesErrorCode.invalid_bid_account
  require_pda_bump rt (auction_seeds auction_id) a.auction.bump a.auction_key
  constraint (is_some_of a.auction.top_bidder a.bidder) JustiesErrorCode.ineligible_to_claim_lot_nft
  require_pda rt (lot_escrow_seeds a.auction_key) a.lot_escrow_nft_account
  constraint (lot_escrow.mint == a.auction.nft_mint_address)
      JustiesErrorCode.inconsistent_lot_escrow_nft_account
  constraint (lot_escrow.amount == 1) JustiesErrorCode.inconsistent_lot_escrow_nft_account
  require_pda_bump rt global_states_seeds a.global_states.bump a.global_states_key
  constraint (a.auction_creator == a.auction.creator) JustiesErrorCode.not_auction_creator
  constraint (a.nft_mint == a.auction.nft_mint_address) JustiesErrorCode.invalid_nft_mint

unfoldable pub claim_lot_nft_handler :
    Runtime → ClaimLotNft → ℕ → Tokens → Result (Auction × Tokens)
claim_lot_nft_handler rt a auction_id ts = do
  lot_escrow ← load_token ts a.lot_escrow_nft_account
  ts₁ ← init_associated_if_needed rt a.bidder_nft_account a.nft_mint a.bidder ts
  claim_lot_nft_constraints rt a auction_id lot_escrow
  let strategy = new_auction_strategy a.auction_key a.auction a.global_states
  fail_if (not (is_ended strategy (get_current_timestamp rt a.global_states)))
      JustiesErrorCode.ongoing_auction
  ts₂ ← transfer_lot_nft rt strategy a.lot_escrow_nft_account a.bidder_nft_account ts₁
  ts₃ ← close_lot_escrow_nft_account rt strategy a.lot_escrow_nft_account a.auction_creator ts₂
  ok ((finalize_auction_if_need strategy).auction, ts₃)
