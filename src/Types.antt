-- ===== src/Types.antt =====
-- common/types.rs, admin/state.rs, auction/state.rs and raffle/state.rs: the data of the accounts.
-- A `Pubkey` is only compared, so it is a number. A number keeps its value; the width that the source
-- gives it is checked by the arithmetic (`Failures`) and stated as a bound where a theorem needs it.
pub mod Defaults
pub mod Status
use raffle_auction_audited_c.Prelude.{ℕ, ◌*◌, Bool, true, false, Option, none, List, []}
use raffle_auction_audited_c.Prelude.Int.{ℤ, pos}

abbrev pub Pubkey : Type 0
Pubkey = ℕ

-- The address that a defaulted account holds.
abbrev pub default_pubkey : Pubkey
default_pubkey = 0

pub data ListingStatus : Type 0 where
  in_progress finished cancelled : ListingStatus

-- The derived `PartialEq`.
abbrev pub status_eq : ListingStatus → ListingStatus → Bool
status_eq ListingStatus.in_progress ListingStatus.in_progress = true
status_eq ListingStatus.finished ListingStatus.finished = true
status_eq ListingStatus.cancelled ListingStatus.cancelled = true
status_eq _ _ = false

pub data GroupType : Type 0 where
  nft_holder_group token_holder_group off_chain_nft_group : GroupType

abbrev pub group_type_eq : GroupType → GroupType → Bool
group_type_eq GroupType.nft_holder_group GroupType.nft_holder_group = true
group_type_eq GroupType.token_holder_group GroupType.token_holder_group = true
group_type_eq GroupType.off_chain_nft_group GroupType.off_chain_nft_group = true
group_type_eq _ _ = false

pub record GroupConfig : Type 0 where
  pub group_type : GroupType
  pub key : Pubkey

abbrev pub max_group_configs : ℕ
max_group_configs = 10

pub record RevenueShareConfig : Type 0 where
  pub revenue_receiver : Pubkey
  pub share_bps : ℕ

abbrev pub max_revenue_receivers : ℕ
max_revenue_receivers = 6

-- `RevenueDistribution`: the receiver's token account, by its address.
pub record RevenueDistribution : Type 0 where
  pub revenue_receiver_token_account : Pubkey
  pub share_bps : ℕ

pub record EligibilityCheckInput : Type 0 where
  pub group_type : GroupType
  pub message : Option (List ℕ)
  pub ed25519_signature : Option (List ℕ)

pub record PubkeyIndexPage : Type 0 where
  pub bump : ℕ
  pub initialized : Bool
  pub keys : List Pubkey

abbrev pub keys_per_page : ℕ
keys_per_page = 100

pub record TokenAllowlistStates : Type 0 where
  pub bump : ℕ
  pub token_mint_address : Pubkey
  pub allowed : Bool

pub record GlobalStates : Type 0 where
  pub bump : ℕ
  pub market_fee_rate_bps : ℕ
  pub fee_treasury_address : Pubkey
  pub authority : Pubkey
  pub min_outbid_rate_bps : ℕ
  pub last_minutes_for_auction_extend : ℕ
  pub auction_extend_minutes : ℕ
  pub min_auction_duration : ℕ
  pub max_auction_duration : ℕ
  pub min_raffle_ticket_supply : ℕ
  pub max_raffle_ticket_supply : ℕ
  pub max_raffled_nfts : ℕ
  pub min_raffle_duration : ℕ
  pub max_raffle_duration : ℕ
  pub auction_creation_enabled : Bool
  pub raffle_creation_enabled : Bool
  pub total_auctions : ℕ
  pub total_raffles : ℕ
  pub total_allowed_nft_collections : ℕ
  pub total_allowed_currency_tokens : ℕ
  pub num_keys_per_index_page : ℕ
  pub is_test_environment : Bool
  pub mock_timestamp : Option ℤ

pub record Auction : Type 0 where
  pub bump : ℕ
  pub id : ℕ
  pub nft_mint_address : Pubkey
  pub currency_token_mint_address : Pubkey
  pub created_timestamp : ℤ
  pub expired_timestamp : ℤ
  pub start_bid : ℕ
  pub creator : Pubkey
  pub eligible_groups : List GroupConfig
  pub revenue_shares : List RevenueShareConfig
  pub status : ListingStatus
  pub total_bids : ℕ
  pub top_bid : ℕ
  pub top_bidder : Option Pubkey

abbrev pub min_listing_duration : ℕ
min_listing_duration = 6 * 3600

abbrev pub max_listing_duration : ℕ
max_listing_duration = 7 * 24 * 3600

pub record AuctionBid : Type 0 where
  pub bump : ℕ
  pub initialized : Bool
  pub auction : Pubkey
  pub bidder : Pubkey
  pub bid : ℕ
  pub latest_change_timestamp : ℤ

pub record Raffle : Type 0 where
  pub bump : ℕ
  pub id : ℕ
  pub nft_mint_address : Pubkey
  pub num_raffled_nfts : ℕ
  pub num_ticket_positions : ℕ
  pub currency_token_mint_address : Pubkey
  pub created_timestamp : ℤ
  pub expired_timestamp : ℤ
  pub ticket_supply : ℕ
  pub ticket_price : ℕ
  pub ticket_sold : ℕ
  pub creator : Pubkey
  pub eligible_groups : List GroupConfig
  pub revenue_shares : List RevenueShareConfig
  pub status : ListingStatus
  pub winner_ids : List ℕ
  pub claim_mask : ℕ

abbrev pub max_raffled_nfts_default : ℕ
max_raffled_nfts_default = 15

abbrev pub min_raffle_tickets_supply : ℕ
min_raffle_tickets_supply = 30

abbrev pub max_raffle_tickets_supply : ℕ
max_raffle_tickets_supply = 3000

pub record RaffleTicketPosition : Type 0 where
  pub bump : ℕ
  pub id : ℕ
  pub buyer : Pubkey
  pub total_num_tickets : ℕ
  pub last_purchase_timestamp : ℤ

pub record TicketPositionStats : Type 0 where
  pub bump : ℕ
  pub ticket_positions : List ℕ
