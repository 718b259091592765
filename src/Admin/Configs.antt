-- ===== src/Admin/Configs.antt =====
-- common/configs_strategy.rs and `UpdateConfigsInput` of admin/update_configs.rs.
use raffle_auction_audited_c.Prelude.{
  ℕ, ◌<◌, ◌≡◌, ◌↔◌, Bool, ◌||◌, Option, none, some, arith, leb, ◌==◌, if◌then◌else◌,
}
use raffle_auction_audited_c.Failures.{JustiesErrorCode, Result, ok, ◌>>◌, fail_if}
use raffle_auction_audited_c.Types.{Pubkey, GlobalStates}

pub record UpdateConfigsInput : Type 0 where
  pub market_fee_rate_bps : Option ℕ
  pub fee_treasury_address : Option Pubkey
  pub min_outbid_rate_bps : Option ℕ
  pub last_minutes_for_auction_extend : Option ℕ
  pub auction_extend_minutes : Option ℕ
  pub min_auction_duration : Option ℕ
  pub max_auction_duration : Option ℕ
  pub min_raffle_ticket_supply : Option ℕ
  pub max_raffle_ticket_supply : Option ℕ
  pub max_raffled_nfts : Option ℕ
  pub min_raffle_duration : Option ℕ
  pub max_raffle_duration : Option ℕ
  pub auction_creation_enabled : Option Bool
  pub raffle_creation_enabled : Option Bool
  pub num_keys_per_index_page : Option ℕ

-- `try_update_config!`: the field's new value.
abbrev pub try_update_config {ℓ} : {A : Type ℓ} → Option A → A → A
try_update_config none old = old
try_update_config (some value) old = value

unfoldable pub update_configs : GlobalStates → UpdateConfigsInput → GlobalStates
update_configs g input = record g {
  market_fee_rate_bps = try_update_config input.market_fee_rate_bps g.market_fee_rate_bps;
  fee_treasury_address = try_update_config input.fee_treasury_address g.fee_treasury_address;
  min_outbid_rate_bps = try_update_config input.min_outbid_rate_bps g.min_outbid_rate_bps;
  last_minutes_for_auction_extend =
      try_update_config input.last_minutes_for_auction_extend g.last_minutes_for_auction_extend;
  auction_extend_minutes = try_update_config input.auction_extend_minutes g.auction_extend_minutes;
  min_auction_duration = try_update_config input.min_auction_duration g.min_auction_duration;
  max_auction_duration = try_update_config input.max_auction_duration g.max_auction_duration;
  min_raffle_ticket_supply =
      try_update_config input.min_raffle_ticket_supply g.min_raffle_ticket_supply;
  max_raffle_ticket_supply =
      try_update_config input.max_raffle_ticket_supply g.max_raffle_ticket_supply;
  max_raffled_nfts = try_update_config input.max_raffled_nfts g.max_raffled_nfts;
  min_raffle_duration = try_update_config input.min_raffle_duration g.min_raffle_duration;
  max_raffle_duration = try_update_config input.max_raffle_duration g.max_raffle_duration;
  auction_creation_enabled =
      try_update_config input.auction_creation_enabled g.auction_creation_enabled;
  raffle_creation_enabled =
      try_update_config input.raffle_creation_enabled g.raffle_creation_enabled;
  num_keys_per_index_page =
      if g.is_test_environment
      then try_update_config input.num_keys_per_index_page g.num_keys_per_index_page
      else g.num_keys_per_index_page;
}

unfoldable pub validate : GlobalStates → Result (Unit {0})
validate g = do
  fail_if (leb 10000 g.market_fee_rate_bps) JustiesErrorCode.invalid_market_fee_rate
  fail_if (g.min_outbid_rate_bps == 0 || leb 10000 g.min_outbid_rate_bps)
      JustiesErrorCode.invalid_min_outbid_rate
  fail_if (g.last_minutes_for_auction_extend == 0 || g.auction_extend_minutes == 0)
      JustiesErrorCode.invalid_auction_extension_settings
  fail_if
      (g.min_auction_duration == 0
        || g.max_auction_duration == 0
        || leb g.max_auction_duration g.min_auction_duration)
      JustiesErrorCode.invalid_auction_duration_range_settings
  fail_if
      (g.min_raffle_ticket_supply == 0
        || g.max_raffle_ticket_supply == 0
        || leb g.max_raffle_ticket_supply g.min_raffle_ticket_supply)
      JustiesErrorCode.invalid_raffle_ticket_supply_range_settings
  fail_if
      (g.min_raffle_duration == 0
        || g.max_raffle_duration == 0
        || leb g.max_raffle_duration g.min_raffle_duration)
      JustiesErrorCode.invalid_raffle_duration_range_settings

-- What `validate` accepts, written as conditions.
pub record IsConfigured (g : GlobalStates) : Type 0 where
  pub fee : g.market_fee_rate_bps < 10000
  pub outbid_pos : 0 < g.min_outbid_rate_bps
  pub outbid : g.min_outbid_rate_bps < 10000
  pub window_pos : 0 < g.last_minutes_for_auction_extend
  pub extension_pos : 0 < g.auction_extend_minutes
  pub auction_pos : 0 < g.min_auction_duration
  pub auction_range : g.min_auction_duration < g.max_auction_duration
  pub supply_pos : 0 < g.min_raffle_ticket_supply
  pub supply_range : g.min_raffle_ticket_supply < g.max_raffle_ticket_supply
  pub raffle_pos : 0 < g.min_raffle_duration
  pub raffle_range : g.min_raffle_duration < g.max_raffle_duration

validate_sound : (g : GlobalStates) → validate g ≡ ok tt → IsConfigured g
unfolding validate
validate_sound g h = record {
  fee = ground arith;
  outbid_pos = ground arith;
  outbid = ground arith;
  window_pos = ground arith;
  extension_pos = ground arith;
  auction_pos = ground arith;
  auction_range = ground arith;
  supply_pos = ground arith;
  supply_range = ground arith;
  raffle_pos = ground arith;
  raffle_range = ground arith;
}

validate_complete : (g : GlobalStates) → IsConfigured g → validate g ≡ ok tt
unfolding validate
validate_complete g v = ground arith

-- `validate` accepts exactly the settings whose rates are below 100%, where the fee rate may be 0, with
-- a positive minimum outbid rate, positive extension times and three nonempty ranges with positive lower ends.
pub validate_iff : (g : GlobalStates) → (validate g ≡ ok tt) ↔ IsConfigured g
validate_iff g = (validate_sound g, validate_complete g)
