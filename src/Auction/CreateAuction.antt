-- ===== src/Auction/CreateAuction.antt =====
-- auction/create_auction.rs: the accounts, the constraints on them and the handler.
use raffle_auction_audited_c.Prelude.{
  ℕ, Bool, true, false, Option, none, some, List, ltb, leb, ◌==◌, length,
}
use raffle_auction_audited_c.Prelude.Int.{ℤ}
use raffle_auction_audited_c.Failures.{
  JustiesErrorCode, Failure, Result, ◌>>=◌, ◌>>◌, constraint, or_fail, ok,
}
use raffle_auction_audited_c.Types.{
  Pubkey, GroupConfig, RevenueShareConfig, max_revenue_receivers, TokenAllowlistStates,
  GlobalStates, Auction,
}
use raffle_auction_audited_c.Types.Defaults.{default_auction}
use raffle_auction_audited_c.Runtime.{
  TokenAccount, Tokens, Runtime, load_token, get_current_timestamp, require_pda, require_pda_of,
  require_pda_bump, require_new, init_token_account,
}
use raffle_auction_audited_c.Auction.Seeds.{
  global_states_seeds, auction_seeds, lot_escrow_seeds, nft_metadata_seeds, nft_allowlist_seeds,
  token_allowlist_seeds,
}
use raffle_auction_audited_c.Auction.Strategy.{
  new_auction_strategy, AuctionInput, init_auction, deposit_nft,
}
use raffle_auction_audited_c.Eligibility.{Collection, MetadataAccount, is_verified}
use raffle_auction_audited_c.Revenue.{validate_share_configs, config_shares}

pub record CreateAuction : Type 0 where
  pub auction_key : Pubkey
  -- The account at `auction_key` before the instruction.
  pub auction : Option Auction
  pub nft_mint : Pubkey
  pub currency_token_mint : Pubkey
  pub creator : Pubkey
  pub lot_escrow_nft_account : Pubkey
  pub creator_nft_account : Pubkey
  pub nft_metadata_key : Pubkey
  pub nft_metadata : MetadataAccount
  pub global_states_key : Pubkey
  pub global_states : GlobalStates
  pub nft_allowlist_key : Pubkey
  pub nft_allowlist_states : TokenAllowlistStates
  pub token_allowlist_key : Pubkey
  pub token_allowlist_states : TokenAllowlistStates

pub record CreateAuctionArgs : Type 0 where
  pub id : ℕ
  pub duration : ℤ
  pub start_bid : ℕ
  pub eligible_groups : List GroupConfig
  pub revenue_shares : List RevenueShareConfig

-- The accounts that the instruction creates; the auction's constraints stand with its creation.
unfoldable pub create_auction_init :
    Runtime → CreateAuction → CreateAuctionArgs → Tokens → Result Tokens
create_auction_init rt a args ts = do
  require_pda rt (auction_seeds args.id) a.auction_key
  require_new a.auction
  constraint a.global_states.auction_creation_enabled JustiesErrorCode.auction_creation_disabled
  constraint (a.global_states.total_auctions == args.id) JustiesErrorCode.invalid_auction_id
  constraint (leb (length args.revenue_shares) max_revenue_receivers)
      JustiesErrorCode.invalid_revenue_recipient_number
  require_pda rt (lot_escrow_seeds a.auction_key) a.lot_escrow_nft_account
  init_token_account rt a.lot_escrow_nft_account a.nft_mint a.auction_key ts

-- `collection.as_ref().unwrap()`
abbrev pub unwrap_collection : MetadataAccount → Result Collection
unwrap_collection m = or_fail m.collection Failure.unwrap_none

abbrev pub has_collection : Option Collection → Bool
has_collection none = false
has_collection (some c) = true

-- The constraints that both listing instructions put on the NFT's metadata and on the allowlists.
unfoldable pub listing_constraints :
    Runtime
    → Pubkey
    → Pubkey
    → MetadataAccount
    → Pubkey
    → TokenAllowlistStates
    → Pubkey
    → Pubkey
    → TokenAllowlistStates
    → Result (Unit {0})
listing_constraints rt nft_mint metadata_key metadata nft_list_key nft_list currency_mint
      token_list_key token_list =
    do
      require_pda_of rt rt.metadata_program_id (nft_metadata_seeds rt.metadata_program_id nft_mint)
          metadata_key
      constraint (metadata.mint == nft_mint) JustiesErrorCode.invalid_nft_metadata
      constraint (has_collection metadata.collection) JustiesErrorCode.invalid_nft_metadata
      constraint (is_verified metadata.collection) JustiesErrorCode.invalid_nft_metadata
      collection ← unwrap_collection metadata
      require_pda_bump rt (nft_allowlist_seeds collection.key) nft_list.bump nft_list_key
      constraint (nft_list.token_mint_address == collection.key)
          JustiesErrorCode.nft_collection_not_in_allowlist
      constraint nft_list.allowed JustiesErrorCode.nft_collection_not_in_allowlist
      require_pda_bump rt (token_allowlist_seeds currency_mint) token_list.bump token_list_key
      constraint (token_list.token_mint_address == currency_mint)
          JustiesErrorCode.token_not_in_allowlist
      constraint token_list.allowed JustiesErrorCode.token_not_in_allowlist

unfoldable pub create_auction_constraints :
    Runtime → CreateAuction → TokenAccount → Result (Unit {0})
unfolding listing_constraints
create_auction_constraints rt a creator_nft_account = do
  constraint (creator_nft_account.owner == a.creator)
      JustiesErrorCode.invalid_auction_creator_nft_account
  constraint (creator_nft_account.mint == a.nft_mint)
      JustiesErrorCode.invalid_auction_creator_nft_account
  constraint (ltb 0 creator_nft_account.amount) JustiesErrorCode.invalid_auction_creator_nft_account
  require_pda_bump rt global_states_seeds a.global_states.bump a.global_states_key
  listing_constraints rt a.nft_mint a.nft_metadata_key a.nft_metadata a.nft_allowlist_key
      a.nft_allowlist_states a.currency_token_mint a.token_allowlist_key a.token_allowlist_states

abbrev pub auction_input : Runtime → CreateAuction → CreateAuctionArgs → ℤ → AuctionInput
auction_input rt a args current_timestamp = record {
  id = args.id;
  bump = (rt.find_program_address (auction_seeds args.id)).1;
  nft_mint_address = a.nft_mint;
  currency_token_mint_address = a.currency_token_mint;
  creator_address = a.creator;
  duration = args.duration;
  start_bid = args.start_bid;
  eligible_groups = args.eligible_groups;
  revenue_shares = args.revenue_shares;
  current_timestamp = current_timestamp;
}

-- The handler: the new auction, the global states and the token accounts.
unfoldable pub create_auction_handler :
    Runtime → CreateAuction → CreateAuctionArgs → Tokens → Result (Auction × GlobalStates × Tokens)
create_auction_handler rt a args ts = do
  creator_nft_account ← load_token ts a.creator_nft_account
  ts₁ ← create_auction_init rt a args ts
  create_auction_constraints rt a creator_nft_account
  validate_share_configs (config_shares args.revenue_shares)
  strategy ←
      init_auction (new_auction_strategy a.auction_key default_auction a.global_states)
        (auction_input rt a args (get_current_timestamp rt a.global_states))
  ts₂ ← deposit_nft rt a.creator_nft_account a.lot_escrow_nft_account a.creator ts₁
  ok (strategy.auction, strategy.global_states, ts₂)
