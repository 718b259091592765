-- ===== src/Raffle/CreateRaffle.antt =====
-- raffle/create_raffle.rs: the accounts, the constraints on them and the handler.
use raffle_auction_audited_c.Prelude.{ℕ, Option, List, [], leb, ◌==◌}
use raffle_auction_audited_c.Prelude.Int.{ℤ}
use raffle_auction_audited_c.Failures.{JustiesErrorCode, Result, ◌>>=◌, ◌>>◌, constraint, ok}
use raffle_auction_audited_c.Types.{
  Pubkey, GroupConfig, RevenueShareConfig, TokenAllowlistStates, GlobalStates, Raffle,
  TicketPositionStats,
}
use raffle_auction_audited_c.Types.Defaults.{default_raffle}
use raffle_auction_audited_c.Runtime.{
  TokenAccount, Tokens, Runtime, load_token, get_current_timestamp, require_pda, require_pda_bump,
  require_new, init_token_account,
}
use raffle_auction_audited_c.Auction.CreateAuction.{listing_constraints}
use raffle_auction_audited_c.Auction.Seeds.{MintAccount, global_states_seeds}
use raffle_auction_audited_c.Eligibility.{MetadataAccount}
use raffle_auction_audited_c.Raffle.Seeds.{
  raffle_seeds, rewards_escrow_seeds, revenue_escrow_seeds, ticket_stats_seeds,
}
use raffle_auction_audited_c.Raffle.Strategy.{
  deposit_nft, new_raffle_strategy, RaffleInput, init_raffle,
}
use raffle_auction_audited_c.Revenue.{validate_share_configs, config_shares}

pub record CreateRaffle : Type 0 where
  pub raffle_key : Pubkey
  pub ticket_position_stats_key : Pubkey
  -- The accounts at these addresses before the instruction.
  pub raffle : Option Raffle
  pub ticket_position_stats : Option TicketPositionStats
  pub global_states_key : Pubkey
  pub global_states : GlobalStates
  pub nft_mint : MintAccount
  pub currency_token_mint : Pubkey
  pub creator : Pubkey
  pub creator_nft_account : Pubkey
  pub rewards_escrow_nft_account : Pubkey
  pub revenue_escrow_token_account : Pubkey
  pub nft_metadata_key : Pubkey
  pub nft_metadata : MetadataAccount
  pub nft_allowlist_key : Pubkey
  pub nft_allowlist_states : TokenAllowlistStates
  pub token_allowlist_key : Pubkey
  pub token_allowlist_states : TokenAllowlistStates

pub record CreateRaffleArgs : Type 0 where
  pub id : ℕ
  pub duration : ℤ
  pub ticket_supply : ℕ
  pub ticket_price : ℕ
  pub num_raffled_nfts : ℕ
  pub eligible_groups : List GroupConfig
  pub revenue_shares : List RevenueShareConfig

-- The accounts that the instruction creates.
unfoldable pub create_raffle_init :
    Runtime → CreateRaffle → CreateRaffleArgs → Tokens → Result Tokens
create_raffle_init rt a args ts = do
  require_pda rt (raffle_seeds args.id) a.raffle_key
  require_new a.raffle
  constraint a.global_states.raffle_creation_enabled JustiesErrorCode.raffle_creation_disabled
  constraint (a.global_states.total_raffles == args.id) JustiesErrorCode.invalid_raffle_id
  require_pda rt (ticket_stats_seeds a.raffle_key) a.ticket_position_stats_key
  require_new a.ticket_position_stats
  require_pda rt (rewards_escrow_seeds a.raffle_key) a.rewards_escrow_nft_account
  ts₁ ← init_token_account rt a.rewards_escrow_nft_account a.nft_mint.key a.raffle_key ts
  require_pda rt (revenue_escrow_seeds a.raffle_key) a.revenue_escrow_token_account
  init_token_account rt a.revenue_escrow_token_account a.currency_token_mint a.raffle_key ts₁

unfoldable pub create_raffle_constraints :
    Runtime → CreateRaffle → CreateRaffleArgs → TokenAccount → Result (Unit {0})
unfolding listing_constraints
create_raffle_constraints rt a args creator_nft_account = do
  require_pda_bump rt global_states_seeds a.global_states.bump a.global_states_key
  constraint (a.nft_mint.decimals == 0) JustiesErrorCode.invalid_nft_mint
  constraint (leb args.num_raffled_nfts a.nft_mint.supply) JustiesErrorCode.invalid_nft_mint
  constraint (creator_nft_account.owner == a.creator)
      JustiesErrorCode.invalid_raffle_creator_nft_account
  constraint (creator_nft_account.mint == a.nft_mint.key)
      JustiesErrorCode.invalid_raffle_creator_nft_account
  constraint (leb args.num_raffled_nfts creator_nft_account.amount)
      JustiesErrorCode.invalid_raffle_creator_nft_account
  listing_constraints rt a.nft_mint.key a.nft_metadata_key a.nft_metadata a.nft_allowlist_key
      a.nft_allowlist_states a.currency_token_mint a.token_allowlist_key a.token_allowlist_states

abbrev pub raffle_input : Runtime → CreateRaffle → CreateRaffleArgs → ℤ → RaffleInput
raffle_input rt a args current_timestamp = record {
  id = args.id;
  bump = (rt.find_program_address (raffle_seeds args.id)).1;
  creator = a.creator;
  nft_mint = a.nft_mint.key;
  num_raffled_nft = args.num_raffled_nfts;
  currency_token_mint = a.currency_token_mint;
  duration = args.duration;
  ticket_supply = args.ticket_supply;
  ticket_price = args.ticket_price;
  eligible_groups = args.eligible_groups;
  revenue_shares = args.revenue_shares;
  current_timestamp = current_timestamp;
}

-- What the handler leaves behind.
pub record CreatedRaffle : Type 0 where
  pub raffle : Raffle
  pub ticket_position_stats : TicketPositionStats
  pub global_states : GlobalStates
  pub tokens : Tokens

unfoldable pub create_raffle_handler :
    Runtime → CreateRaffle → CreateRaffleArgs → Tokens → Result CreatedRaffle
create_raffle_handler rt a args ts = do
  creator_nft_account ← load_token ts a.creator_nft_account
  ts₁ ← create_raffle_init rt a args ts
  create_raffle_constraints rt a args creator_nft_account
  validate_share_configs (config_shares args.revenue_shares)
  strategy ←
      init_raffle (new_raffle_strategy a.raffle_key default_raffle a.global_states)
        (raffle_input rt a args (get_current_timestamp rt a.global_states))
  ts₂ ← deposit_nft rt strategy a.creator_nft_account a.rewards_escrow_nft_account a.creator ts₁
  ok (record {
    raffle = strategy.raffle;
    ticket_position_stats = record {
      bump = (rt.find_program_address (ticket_stats_seeds a.raffle_key)).1;
      ticket_positions = [];
    };
    global_states = strategy.global_states;
    tokens = ts₂;
  })
