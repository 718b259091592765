-- ===== src/Auction/Strategy.antt =====
-- common/auction_strategy.rs: the operations on an auction and the global states.
use raffle_auction_audited_c.Prelude.{
  ℕ, Bool, not, ◌||◌, none, some, List, [], ◌∷◌, ltb, if◌then◌else◌,
}
use raffle_auction_audited_c.Prelude.Int.{ℤ, pos, quot_ℕ, ltb_ℤ}
use raffle_auction_audited_c.Failures.{JustiesErrorCode, Result, ok, ◌>>=◌, ◌>>◌, fail_if}
use raffle_auction_audited_c.Failures.Checked.{add_u64, add_i64, sub_i64, mul_i64, as_i64, as_u64}
use raffle_auction_audited_c.Types.{
  Pubkey, ListingStatus, status_eq, GlobalStates, Auction, GroupConfig, RevenueShareConfig,
}
use raffle_auction_audited_c.Runtime.{
  Runtime, Tokens, Seed, SeedLabel, transfer_token, close_token_account_with_signer,
}

pub record AuctionStrategy : Type 0 where
  pub auction : Auction
  pub global_states : GlobalStates
  -- `auction.key()`, and the id and bump from which the signer seeds are made.
  pub auction_key : Pubkey
  pub auction_id : ℕ
  pub auction_bump : ℕ

unfoldable pub new_auction_strategy : Pubkey → Auction → GlobalStates → AuctionStrategy
new_auction_strategy key auction global_states = record {
  auction = auction;
  global_states = global_states;
  auction_key = key;
  auction_id = auction.id;
  auction_bump = auction.bump;
}

-- What `init_auction` is given.
pub record AuctionInput : Type 0 where
  pub id : ℕ
  pub bump : ℕ
  pub nft_mint_address : Pubkey
  pub currency_token_mint_address : Pubkey
  pub creator_address : Pubkey
  pub duration : ℤ
  pub start_bid : ℕ
  pub eligible_groups : List GroupConfig
  pub revenue_shares : List RevenueShareConfig
  pub current_timestamp : ℤ

unfoldable pub init_auction : AuctionStrategy → AuctionInput → Result AuctionStrategy
init_auction s i = do
  fail_if
      (ltb (as_u64 i.duration) s.global_states.min_auction_duration
        || ltb s.global_states.max_auction_duration (as_u64 i.duration))
      JustiesErrorCode.invalid_auction_duration
  total_auctions ← add_u64 s.global_states.total_auctions 1
  expired_timestamp ← add_i64 i.current_timestamp i.duration
  ok (record s {
    global_states = record (s.global_states) { total_auctions = total_auctions };
    auction = record {
      bump = i.bump;
      id = i.id;
      nft_mint_address = i.nft_mint_address;
      currency_token_mint_address = i.currency_token_mint_address;
      created_timestamp = i.current_timestamp;
      expired_timestamp = expired_timestamp;
      start_bid = i.start_bid;
      creator = i.creator_address;
      eligible_groups = i.eligible_groups;
      revenue_shares = i.revenue_shares;
      status = ListingStatus.in_progress;
      total_bids = 0;
      top_bid = 0;
      top_bidder = none;
    };
  })

unfoldable pub deposit_nft : Runtime → Pubkey → Pubkey → Pubkey → Tokens → Result Tokens
deposit_nft rt creator_nft_account escrow_nft_account creator ts =
    transfer_token rt creator_nft_account escrow_nft_account creator 1 none ts

unfoldable pub is_ended : AuctionStrategy → ℤ → Bool
is_ended s current_timestamp = ltb_ℤ s.auction.expired_timestamp current_timestamp

unfoldable pub is_cancelled : AuctionStrategy → Bool
is_cancelled s = status_eq s.auction.status ListingStatus.cancelled

unfoldable pub need_to_extend : AuctionStrategy → ℤ → Result Bool
need_to_extend s current_timestamp = do
  window ← mul_i64 (pos s.global_states.last_minutes_for_auction_extend) (pos 60)
  start ← sub_i64 s.auction.expired_timestamp window
  ok (ltb_ℤ start current_timestamp)

-- In `i64`, with the casts that the source makes.
unfoldable pub get_min_eligible_bid : AuctionStrategy → Result ℕ
get_min_eligible_bid s = do
  let top_bid = as_i64 s.auction.top_bid
  product ← mul_i64 top_bid (pos s.global_states.min_outbid_rate_bps)
  total ← add_i64 top_bid (quot_ℕ product 10000)
  ok (as_u64 total)

unfoldable pub extend : AuctionStrategy → ℤ → Result AuctionStrategy
extend s current_timestamp = do
  period ← mul_i64 (pos s.global_states.auction_extend_minutes) (pos 60)
  expired_timestamp ← add_i64 current_timestamp period
  ok (record s { auction = record (s.auction) { expired_timestamp = expired_timestamp } })

unfoldable pub cancel : AuctionStrategy → AuctionStrategy
cancel s = record s { auction = record (s.auction) { status = ListingStatus.cancelled } }

unfoldable pub get_lot_escrow_signer_seed : AuctionStrategy → List Seed
get_lot_escrow_signer_seed s =
    Seed.label SeedLabel.auction ∷ Seed.number s.auction_id ∷ Seed.bump s.auction_bump ∷ []

unfoldable pub transfer_lot_nft :
    Runtime → AuctionStrategy → Pubkey → Pubkey → Tokens → Result Tokens
transfer_lot_nft rt s escrow_nft_account target_nft_account ts =
    transfer_token rt escrow_nft_account target_nft_account s.auction_key 1
      (some (get_lot_escrow_signer_seed s)) ts

unfoldable pub close_lot_escrow_nft_account :
    Runtime → AuctionStrategy → Pubkey → Pubkey → Tokens → Result Tokens
close_lot_escrow_nft_account rt s lot_escrow_nft_account auction_creator ts =
    close_token_account_with_signer rt lot_escrow_nft_account auction_creator s.auction_key
      (get_lot_escrow_signer_seed s) ts

unfoldable pub finalize_auction_if_need : AuctionStrategy → AuctionStrategy
finalize_auction_if_need s =
    if not (status_eq s.auction.status ListingStatus.finished)
    then record s { auction = record (s.auction) { status = ListingStatus.finished } }
    else s
