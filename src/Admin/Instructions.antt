-- ===== src/Admin/Instructions.antt =====
-- admin/init_justies_program.rs, admin/update_configs.rs and admin/set_mock_timestamp.rs.
use raffle_auction_audited_c.Prelude.{ℕ, Bool, true, Option, ◌==◌}
use raffle_auction_audited_c.Prelude.Int.{ℤ}
use raffle_auction_audited_c.Failures.{JustiesErrorCode, Result, ◌>>◌, constraint, ok}
use raffle_auction_audited_c.Types.{
  Pubkey, keys_per_page, GlobalStates, min_listing_duration, max_listing_duration,
  max_raffled_nfts_default, min_raffle_tickets_supply, max_raffle_tickets_supply,
}
use raffle_auction_audited_c.Types.Defaults.{default_global_states}
use raffle_auction_audited_c.Runtime.{Runtime, require_pda, require_pda_bump, require_new}
use raffle_auction_audited_c.Admin.Configs.{UpdateConfigsInput, update_configs, validate}
use raffle_auction_audited_c.Auction.Seeds.{global_states_seeds}

pub record InitJustiesProgram : Type 0 where
  pub global_states_key : Pubkey
  -- `none` until it is created.
  pub global_states : Option GlobalStates
  pub authority : Pubkey

unfoldable pub init_justies_program_handler :
    Runtime → InitJustiesProgram → ℕ → Pubkey → Bool → Result GlobalStates
init_justies_program_handler rt a market_fee_rate_bps fee_treasury_address is_test_environment = do
  require_pda rt global_states_seeds a.global_states_key
  require_new a.global_states
  ok (record default_global_states {
    bump = (rt.find_program_address global_states_seeds).1;
    market_fee_rate_bps = market_fee_rate_bps;
    fee_treasury_address = fee_treasury_address;
    authority = a.authority;
    min_outbid_rate_bps = 500;
    last_minutes_for_auction_extend = 10;
    auction_extend_minutes = 10;
    min_auction_duration = min_listing_duration;
    max_auction_duration = max_listing_duration;
    min_raffle_ticket_supply = min_raffle_tickets_supply;
    max_raffle_ticket_supply = max_raffle_tickets_supply;
    max_raffled_nfts = max_raffled_nfts_default;
    min_raffle_duration = min_listing_duration;
    max_raffle_duration = max_listing_duration;
    auction_creation_enabled = true;
    raffle_creation_enabled = true;
    num_keys_per_index_page = keys_per_page;
    is_test_environment = is_test_environment;
  })

-- The accounts of `update_configs` and of `set_mock_timestamp`.
pub record AdminAccounts : Type 0 where
  pub global_states_key : Pubkey
  pub global_states : GlobalStates
  pub authority : Pubkey

unfoldable pub update_configs_handler :
    Runtime → AdminAccounts → UpdateConfigsInput → Result GlobalStates
unfolding update_configs validate
update_configs_handler rt a input = do
  require_pda_bump rt global_states_seeds a.global_states.bump a.global_states_key
  constraint (a.authority == a.global_states.authority) JustiesErrorCode.not_the_authority
  let updated = update_configs a.global_states input
  validate updated
  ok updated

unfoldable pub set_mock_timestamp_handler : Runtime → AdminAccounts → Option ℤ → Result GlobalStates
set_mock_timestamp_handler rt a mock_timestamp = do
  require_pda_bump rt global_states_seeds a.global_states.bump a.global_states_key
  constraint a.global_states.is_test_environment JustiesErrorCode.not_test_environment
  constraint (a.global_states.authority == a.authority) JustiesErrorCode.not_the_authority
  ok (record (a.global_states) { mock_timestamp = mock_timestamp })
