-- ===== src/Tests/CreatedRaffles.antt =====
-- A run of the instruction that creates a raffle.
use raffle_auction_audited_c.Prelude.{◌+◌, ◌≡◌, refl, ◌≢◌, none, [], arith, sum}
use raffle_auction_audited_c.Prelude.Int.{◌+ℤ◌, ◌-ℤ◌, ◌*ℤ◌, pos}
use raffle_auction_audited_c.Failures.{ok}
use raffle_auction_audited_c.Types.{TicketPositionStats}
use raffle_auction_audited_c.Types.Defaults.{default_raffle}
use raffle_auction_audited_c.Runtime.{balance, get_current_timestamp, transfer_token}
use raffle_auction_audited_c.Auction.CreateAuction.{listing_constraints}
use raffle_auction_audited_c.Auction.Seeds.{
  nft_metadata_seeds, nft_allowlist_seeds, token_allowlist_seeds,
}
use raffle_auction_audited_c.Example.{address, runtime, runtime-IsTokenProgram}
use raffle_auction_audited_c.Raffle.CreateRaffle.{
  CreateRaffle, CreateRaffleArgs, create_raffle_init, create_raffle_constraints, CreatedRaffle,
  create_raffle_handler,
}
use raffle_auction_audited_c.Raffle.Creation.{IsNewRaffle, create_raffle_starts}
use raffle_auction_audited_c.Raffle.Sales.{IsAccounted}
use raffle_auction_audited_c.Raffle.Seeds.{ticket_stats_seeds}
use raffle_auction_audited_c.Raffle.Strategy.{deposit_nft, new_raffle_strategy, init_raffle}
use raffle_auction_audited_c.Revenue.{share_sum_from, validate_share_configs, config_shares}
use raffle_auction_audited_c.Tests.Creations.{
  metadata, allowed_token, open_states, creator_account, creator_tokens,
}
use raffle_auction_audited_c.Tests.Market.{
  got, nft, currency, creator, states_key, states, shares, raffle_key, rewards, revenue,
}

abbrev default_stats : TicketPositionStats
default_stats = record { bump = 0; ticket_positions = [] }

abbrev pub raffling : CreateRaffle
raffling = record {
  raffle_key = raffle_key;
  raffle = none;
  ticket_position_stats = none;
  ticket_position_stats_key = address (ticket_stats_seeds raffle_key);
  global_states_key = states_key;
  global_states = open_states;
  nft_mint = record { key = nft; supply = 2; decimals = 0 };
  currency_token_mint = currency;
  creator = creator;
  creator_nft_account = creator_account;
  rewards_escrow_nft_account = rewards;
  revenue_escrow_token_account = revenue;
  nft_metadata_key = address (nft_metadata_seeds 5 nft);
  nft_metadata = metadata;
  nft_allowlist_key = address (nft_allowlist_seeds 23);
  nft_allowlist_states = allowed_token 23;
  token_allowlist_key = address (token_allowlist_seeds currency);
  token_allowlist_states = allowed_token currency;
}

abbrev pub raffling_args : CreateRaffleArgs
raffling_args = record {
  id = 1;
  duration = pos 600;
  ticket_supply = 100;
  ticket_price = 10;
  num_raffled_nfts = 2;
  eligible_groups = [];
  revenue_shares = shares;
}

abbrev pub raffled : CreatedRaffle
unfolding create_raffle_constraints create_raffle_handler create_raffle_init deposit_nft
    get_current_timestamp init_raffle listing_constraints new_raffle_strategy share_sum_from
    transfer_token validate_share_configs ◌*ℤ◌ ◌+ℤ◌ ◌-ℤ◌
raffled = got (create_raffle_handler runtime raffling raffling_args creator_tokens) (record {
  raffle = default_raffle;
  ticket_position_stats = default_stats;
  global_states = states;
  tokens = creator_tokens;
})

pub raffled_run : create_raffle_handler runtime raffling raffling_args creator_tokens ≡ ok raffled
unfolding create_raffle_constraints create_raffle_handler create_raffle_init deposit_nft
    get_current_timestamp init_raffle listing_constraints new_raffle_strategy share_sum_from
    transfer_token validate_share_configs ◌*ℤ◌ ◌+ℤ◌ ◌-ℤ◌
raffled_run = refl

pub rewards_apart : creator_account ≢ rewards
rewards_apart = ground arith

create_raffle_starts_example :
    IsNewRaffle raffling raffling_args
      (get_current_timestamp runtime raffling.global_states)
      raffled.raffle
    × (raffled.raffle.creator ≡ raffling.creator)
    × (raffling.raffle ≡ none)
    × (raffling.ticket_position_stats ≡ none)
    × IsAccounted raffled.raffle raffled.ticket_position_stats
    × (sum (config_shares raffled.raffle.revenue_shares) ≡ 10000)
    × (raffled.global_states.total_raffles ≡ raffling.global_states.total_raffles + 1)
    × (balance raffled.tokens raffling.rewards_escrow_nft_account ≡ raffled.raffle.num_raffled_nfts)
    × (balance raffled.tokens raffling.creator_nft_account + raffled.raffle.num_raffled_nfts
        ≡ balance creator_tokens raffling.creator_nft_account)
create_raffle_starts_example =
    create_raffle_starts runtime runtime-IsTokenProgram raffling raffling_args creator_tokens
      raffled raffled_run rewards_apart
