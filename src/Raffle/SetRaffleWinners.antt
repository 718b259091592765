-- ===== src/Raffle/SetRaffleWinners.antt =====
-- raffle/set_raffle_winners.rs: the accounts, the constraints on them and the handler.
use raffle_auction_audited_c.Prelude.{ℕ, List, ◌==◌}
use raffle_auction_audited_c.Failures.{JustiesErrorCode, Result, ok, ◌>>◌, constraint}
use raffle_auction_audited_c.Types.{Pubkey, GlobalStates, Raffle}
use raffle_auction_audited_c.Runtime.{Runtime, get_current_timestamp, require_pda_bump}
use raffle_auction_audited_c.Auction.Seeds.{global_states_seeds}
use raffle_auction_audited_c.Raffle.Seeds.{raffle_seeds}
use raffle_auction_audited_c.Raffle.Strategy.{
  new_raffle_strategy, validate_set_winners, set_winners,
}

pub record SetRaffleWinners : Type 0 where
  pub raffle_key : Pubkey
  pub raffle : Raffle
  pub global_states_key : Pubkey
  pub global_states : GlobalStates
  pub authority : Pubkey

unfoldable pub set_raffle_winners_handler : Runtime → SetRaffleWinners → ℕ → List ℕ → Result Raffle
set_raffle_winners_handler rt a raffle_id winner_ids = do
  require_pda_bump rt (raffle_seeds raffle_id) a.raffle.bump a.raffle_key
  require_pda_bump rt global_states_seeds a.global_states.bump a.global_states_key
  constraint a.global_states.is_test_environment JustiesErrorCode.not_test_environment
  constraint (a.global_states.authority == a.authority) JustiesErrorCode.not_the_authority
  let strategy = new_raffle_strategy a.raffle_key a.raffle a.global_states
  validate_set_winners strategy (get_current_timestamp rt a.global_states)
  ok (set_winners strategy winner_ids).raffle
