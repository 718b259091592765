-- ===== src/Types/Defaults.antt =====
-- The accounts of common/types.rs and the state.rs files as they are when they are created.
use raffle_auction_audited_c.Prelude.{false, none, []}
use raffle_auction_audited_c.Prelude.Int.{pos}
use raffle_auction_audited_c.Types.{
  default_pubkey, ListingStatus, PubkeyIndexPage, TokenAllowlistStates, GlobalStates, Auction,
  AuctionBid, Raffle, RaffleTicketPosition,
}

-- The accounts that the derived `Default` gives: what a newly created account holds.
abbrev pub default_auction_bid : AuctionBid
default_auction_bid = record {
  bump = 0;
  initialized = false;
  auction = default_pubkey;
  bidder = default_pubkey;
  bid = 0;
  latest_change_timestamp = pos 0;
}

abbrev pub default_ticket_position : RaffleTicketPosition
default_ticket_position = record {
  bump = 0;
  id = 0;
  buyer = default_pubkey;
  total_num_tickets = 0;
  last_purchase_timestamp = pos 0;
}

abbrev pub default_index_page : PubkeyIndexPage
default_index_page = record { bump = 0; initialized = false; keys = [] }

abbrev pub default_allowlist_states : TokenAllowlistStates
default_allowlist_states = record { bump = 0; token_mint_address = default_pubkey; allowed = false }

abbrev pub default_auction : Auction
default_auction = record {
  bump = 0;
  id = 0;
  nft_mint_address = default_pubkey;
  currency_token_mint_address = default_pubkey;
  created_timestamp = pos 0;
  expired_timestamp = pos 0;
  start_bid = 0;
  creator = default_pubkey;
  eligible_groups = [];
  revenue_shares = [];
  status = ListingStatus.in_progress;
  total_bids = 0;
  top_bid = 0;
  top_bidder = none;
}

abbrev pub default_raffle : Raffle
default_raffle = record {
  bump = 0;
  id = 0;
  nft_mint_address = default_pubkey;
  num_raffled_nfts = 0;
  num_ticket_positions = 0;
  currency_token_mint_address = default_pubkey;
  created_timestamp = pos 0;
  expired_timestamp = pos 0;
  ticket_supply = 0;
  ticket_price = 0;
  ticket_sold = 0;
  creator = default_pubkey;
  eligible_groups = [];
  revenue_shares = [];
  status = ListingStatus.in_progress;
  winner_ids = [];
  claim_mask = 0;
}

abbrev pub default_global_states : GlobalStates
default_global_states = record {
  bump = 0;
  market_fee_rate_bps = 0;
  fee_treasury_address = default_pubkey;
  authority = default_pubkey;
  min_outbid_rate_bps = 0;
  last_minutes_for_auction_extend = 0;
  auction_extend_minutes = 0;
  min_auction_duration = 0;
  max_auction_duration = 0;
  min_raffle_ticket_supply = 0;
  max_raffle_ticket_supply = 0;
  max_raffled_nfts = 0;
  min_raffle_duration = 0;
  max_raffle_duration = 0;
  auction_creation_enabled = false;
  raffle_creation_enabled = false;
  total_auctions = 0;
  total_raffles = 0;
  total_allowed_nft_collections = 0;
  total_allowed_currency_tokens = 0;
  num_keys_per_index_page = 0;
  is_test_environment = false;
  mock_timestamp = none;
}
