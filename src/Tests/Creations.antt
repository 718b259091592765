-- ===== src/Tests/Creations.antt =====
-- Runs of the instructions that create listings, and of the eligibility check.
use raffle_auction_audited_c.Prelude.{
  ℕ, ◌+◌, ◌≤◌, ◌≡◌, refl, ◌≢◌, true, none, some, List, [], ◌∷◌, arith, length, get_elem?, sum,
}
use raffle_auction_audited_c.Prelude.Int.{◌+ℤ◌, ◌-ℤ◌, ◌*ℤ◌, pos}
use raffle_auction_audited_c.Failures.{ok}
use raffle_auction_audited_c.Types.{
  Pubkey, GroupType, GroupConfig, max_revenue_receivers, EligibilityCheckInput,
  TokenAllowlistStates, GlobalStates, Auction,
}
use raffle_auction_audited_c.Types.Defaults.{default_auction}
use raffle_auction_audited_c.Runtime.{Tokens, balance, get_current_timestamp, transfer_token}
use raffle_auction_audited_c.Auction.CreateAuction.{
  CreateAuction, CreateAuctionArgs, create_auction_init, listing_constraints,
  create_auction_constraints, create_auction_handler,
}
use raffle_auction_audited_c.Auction.Creation.{IsNewAuction, create_auction_starts}
use raffle_auction_audited_c.Auction.Seeds.{
  auction_seeds, lot_escrow_seeds, nft_metadata_seeds, nft_allowlist_seeds, token_allowlist_seeds,
}
use raffle_auction_audited_c.Auction.Strategy.{new_auction_strategy, init_auction, deposit_nft}
use raffle_auction_audited_c.Eligibility.{
  MetadataAccount, Payload, read_payloads, new_eligibility_check, is_nft_holder, is_token_holder,
  any_group, check_group_membership, membership_by_type, check_eligibility, require_eligible,
}
use raffle_auction_audited_c.Eligibility.Access.{IsMember, require_eligible-IsMember}
use raffle_auction_audited_c.Example.{address, runtime, runtime-IsTokenProgram}
use raffle_auction_audited_c.Revenue.{share_sum_from, validate_share_configs, config_shares}
use raffle_auction_audited_c.Tests.Market.{
  got, tokens_of, holding, nft, currency, creator, buyer, states_key, states, shares,
}

abbrev pub metadata : MetadataAccount
metadata = record { mint = nft; collection = some (record { verified = true; key = 23 }) }

abbrev pub allowed_token : Pubkey → TokenAllowlistStates
allowed_token mint = record { bump = 255; token_mint_address = mint; allowed = true }

abbrev pub open_states : GlobalStates
open_states = record states {
  auction_creation_enabled = true;
  raffle_creation_enabled = true;
  total_auctions = 1;
  total_raffles = 1;
}

abbrev pub creator_account : Pubkey
creator_account = 61

abbrev pub creator_tokens : Tokens
creator_tokens = tokens_of ((creator_account, holding nft creator 2) ∷ [])

abbrev pub auction_key : Pubkey
auction_key = address (auction_seeds 1)

abbrev pub lot : Pubkey
lot = address (lot_escrow_seeds auction_key)

abbrev pub listing : CreateAuction
listing = record {
  auction_key = auction_key;
  auction = none;
  nft_mint = nft;
  currency_token_mint = currency;
  creator = creator;
  lot_escrow_nft_account = lot;
  creator_nft_account = creator_account;
  nft_metadata_key = address (nft_metadata_seeds 5 nft);
  nft_metadata = metadata;
  global_states_key = states_key;
  global_states = open_states;
  nft_allowlist_key = address (nft_allowlist_seeds 23);
  nft_allowlist_states = allowed_token 23;
  token_allowlist_key = address (token_allowlist_seeds currency);
  token_allowlist_states = allowed_token currency;
}

abbrev pub listing_args : CreateAuctionArgs
listing_args = record {
  id = 1;
  duration = pos 600;
  start_bid = 100;
  eligible_groups = [];
  revenue_shares = shares;
}

abbrev pub listed : Auction × GlobalStates × Tokens
unfolding create_auction_constraints create_auction_handler create_auction_init deposit_nft
    get_current_timestamp init_auction listing_constraints new_auction_strategy share_sum_from
    transfer_token validate_share_configs ◌*ℤ◌ ◌+ℤ◌ ◌-ℤ◌
listed =
    got (create_auction_handler runtime listing listing_args creator_tokens)
      (default_auction, states, creator_tokens)

pub listed_run :
    create_auction_handler runtime listing listing_args creator_tokens
    ≡ ok (listed.0, listed.1, listed.2)
unfolding create_auction_constraints create_auction_handler create_auction_init deposit_nft
    get_current_timestamp init_auction listing_constraints new_auction_strategy share_sum_from
    transfer_token validate_share_configs ◌*ℤ◌ ◌+ℤ◌ ◌-ℤ◌
listed_run = refl

pub lot_apart : creator_account ≢ lot
lot_apart = ground arith

create_auction_starts_example :
    IsNewAuction listing listing_args (get_current_timestamp runtime listing.global_states) listed.0
    × (listed.0.creator ≡ listing.creator)
    × (listing.auction ≡ none)
    × (length listed.0.revenue_shares ≤ max_revenue_receivers)
    × (sum (config_shares listed.0.revenue_shares) ≡ 10000)
    × (listed.1.total_auctions ≡ listing.global_states.total_auctions + 1)
    × (balance listed.2 listing.lot_escrow_nft_account ≡ 1)
    × (balance listed.2 listing.creator_nft_account + 1
        ≡ balance creator_tokens listing.creator_nft_account)
create_auction_starts_example =
    create_auction_starts runtime runtime-IsTokenProgram listing listing_args creator_tokens
      listed.0 listed.1 listed.2 listed_run lot_apart

abbrev holders : GroupConfig
holders = record { group_type = GroupType.nft_holder_group; key = 23 }

abbrev as_holder : EligibilityCheckInput
as_holder = record {
  group_type = GroupType.nft_holder_group;
  message = none;
  ed25519_signature = none;
}

abbrev papers : List Payload
papers = Payload.token_payload (holding nft buyer 1) ∷ Payload.metadata_payload metadata ∷ []

checked : require_eligible (holders ∷ []) buyer (some as_holder) papers ≡ ok tt
unfolding any_group check_eligibility check_group_membership is_nft_holder is_token_holder
    membership_by_type new_eligibility_check read_payloads require_eligible
checked = refl

require_eligible-IsMember_example :
    (i : ℕ) × (g : GroupConfig) × (get_elem? (holders ∷ []) i ≡ some g) × IsMember buyer papers g
require_eligible-IsMember_example =
    require_eligible-IsMember holders [] buyer (some as_holder) papers checked
