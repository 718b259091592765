-- ===== src/Raffle/MakeRaffle.antt =====
-- raffle/make_raffle.rs: the accounts, the constraints on them and the handler.
use raffle_auction_audited_c.Prelude.{ℕ, Bool, ◌==◌}
use raffle_auction_audited_c.Failures.{JustiesErrorCode, Result, ok, ◌>>=◌, ◌>>◌, constraint}
use raffle_auction_audited_c.Types.{Pubkey, GlobalStates, Raffle, TicketPositionStats}
use raffle_auction_audited_c.Runtime.{Runtime, get_current_timestamp, require_pda_bump}
use raffle_auction_audited_c.Auction.Seeds.{global_states_seeds}
use raffle_auction_audited_c.Random.Draw.{Sampling}
use raffle_auction_audited_c.Raffle.Seeds.{raffle_seeds, ticket_stats_seeds}
use raffle_auction_audited_c.Raffle.Strategy.{
  new_raffle_strategy, validate_make_raffle, make_raffle,
}

pub record MakeRaffle : Type 0 where
  pub raffle_key : Pubkey
  pub raffle : Raffle
  pub ticket_position_stats_key : Pubkey
  pub ticket_position_stats : TicketPositionStats
  pub global_states_key : Pubkey
  pub global_states : GlobalStates
  pub authority : Pubkey

unfoldable pub make_raffle_constraints : Runtime → MakeRaffle → ℕ → Result (Unit {0})
make_raffle_constraints rt a raffle_id = do
  require_pda_bump rt (raffle_seeds raffle_id) a.raffle.bump a.raffle_key
  require_pda_bump rt (ticket_stats_seeds a.raffle_key) a.ticket_position_stats.bump
      a.ticket_position_stats_key
  require_pda_bump rt global_states_seeds a.global_states.bump a.global_states_key
  constraint (a.global_states.authority == a.authority) JustiesErrorCode.not_the_authority

unfoldable pub make_raffle_handler : Runtime → Sampling → ℕ → MakeRaffle → ℕ → Bool → Result Raffle
make_raffle_handler rt sp budget a raffle_id rerun = do
  make_raffle_constraints rt a raffle_id
  let strategy = new_raffle_strategy a.raffle_key a.raffle a.global_states
  validate_make_raffle strategy (get_current_timestamp rt a.global_states) rerun
  made ← make_raffle rt sp budget strategy a.ticket_position_stats.ticket_positions
  ok made.raffle
