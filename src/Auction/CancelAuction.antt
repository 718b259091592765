-- ===== src/Auction/CancelAuction.antt =====
-- auction/cancel_auction.rs: the accounts, the constraints on them and the handler.
use raffle_auction_audited_c.Prelude.{ℕ, ◌==◌}
use raffle_auction_audited_c.Failures.{JustiesErrorCode, Result, ok, ◌>>=◌, ◌>>◌, constraint}
use raffle_auction_audited_c.Types.{Pubkey, GlobalStates, Auction}
use raffle_auction_audited_c.Runtime.{
  Runtime, Tokens, TokenAccount, load_token, require_pda, require_pda_bump, require_token,
  init_associated_if_needed,
}
use raffle_auction_audited_c.Auction.Strategy.{
  new_auction_strategy, cancel, transfer_lot_nft, close_lot_escrow_nft_account,
}
use raffle_auction_audited_c.Auction.Seeds.{auction_seeds, lot_escrow_seeds, global_states_seeds}

pub record CancelAuction : Type 0 where
  pub auction_key : Pubkey
  pub auction : Auction
  pub creator : Pubkey
  pub nft_mint : Pubkey
  pub lot_escrow_nft_account : Pubkey
  pub creator_nft_account : Pubkey
  pub global_states_key : Pubkey
  pub global_states : GlobalStates

unfoldable pub cancel_auction_constraints :
    Runtime → CancelAuction → ℕ → TokenAccount → Result (Unit {0})
cancel_auction_constraints rt a auction_id lot_escrow = do
  require_pda_bump rt (auction_seeds auction_id) a.auction.bump a.auction_key
  constraint (a.auction.creator == a.creator) JustiesErrorCode.not_auction_creator
  constraint (a.auction.total_bids == 0) JustiesErrorCode.auction_not_cancelable
  constraint (a.auction.nft_mint_address == a.nft_mint) JustiesErrorCode.nft_mint_address_mismatch
  require_pda rt (lot_escrow_seeds a.auction_key) a.lot_escrow_nft_account
  require_token a.nft_mint a.auction_key lot_escrow
  require_pda_bump rt global_states_seeds a.global_states.bump a.global_states_key

unfoldable pub cancel_auction_handler :
    Runtime → CancelAuction → ℕ → Tokens → Result (Auction × Tokens)
cancel_auction_handler rt a auction_id ts = do
  lot_escrow ← load_token ts a.lot_escrow_nft_account
  ts₁ ← init_associated_if_needed rt a.creator_nft_account a.nft_mint a.creator ts
  cancel_auction_constraints rt a auction_id lot_escrow
  let strategy = new_auction_strategy a.auction_key a.auction a.global_states
  ts₂ ← transfer_lot_nft rt strategy a.lot_escrow_nft_account a.creator_nft_account ts₁
  ts₃ ← close_lot_escrow_nft_account rt strategy a.lot_escrow_nft_account a.creator ts₂
  ok ((cancel strategy).auction, ts₃)
