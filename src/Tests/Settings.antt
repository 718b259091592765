-- ===== src/Tests/Settings.antt =====
-- Runs on index pages, and of the settings.
use raffle_auction_audited_c.Prelude.{
  ◌+◌, ◌<◌, ◌≡◌, refl, ◌↔◌, true, false, none, some, [], ◌∷◌, ◌++◌, arith,
}
use raffle_auction_audited_c.Failures.{ok}
use raffle_auction_audited_c.Types.{GlobalStates}
use raffle_auction_audited_c.Types.Defaults.{default_global_states}
use raffle_auction_audited_c.Accounts.{
  AccountInfo, create_pda, settle_rent, resize_account, IndexAccount, open_index_page, index_pubkey,
}
use raffle_auction_audited_c.Accounts.Indexing.{keys_before, Holds, InUse, index_pubkey_appends}
use raffle_auction_audited_c.Accounts.Rent.{resize_account_exempt}
use raffle_auction_audited_c.Admin.Configs.{
  UpdateConfigsInput, update_configs, validate, IsConfigured, validate_iff,
}
use raffle_auction_audited_c.Admin.Instructions.{
  InitJustiesProgram, init_justies_program_handler, AdminAccounts, update_configs_handler,
}
use raffle_auction_audited_c.Admin.Updates.{
  init-IsConfigured_iff, update_configs_handler-IsConfigured,
}
use raffle_auction_audited_c.Example.{runtime, runtime-IsSystemProgram}
use raffle_auction_audited_c.Tests.Market.{got, buyer, treasury, states_key, states, wallet_info}

-- A page of one key gets a second one.
abbrev page_index : IndexAccount
page_index = record {
  info = record { key = 800; lamports = 146; space = 46 };
  page = some (record { bump = 255; initialized = true; keys = 5 ∷ [] });
}

abbrev indexed : IndexAccount × AccountInfo
indexed =
    got (index_pubkey runtime 6 255 [] page_index (wallet_info buyer))
      (page_index, wallet_info buyer)

index_run : index_pubkey runtime 6 255 [] page_index (wallet_info buyer) ≡ ok (indexed.0, indexed.1)
unfolding create_pda index_pubkey open_index_page resize_account settle_rent
index_run = refl

in_use : InUse page_index
in_use page e = ground arith

index_pubkey_appends_example : Holds runtime indexed.0 (keys_before page_index ++ 6 ∷ [])
index_pubkey_appends_example =
    index_pubkey_appends runtime runtime-IsSystemProgram 6 255 [] page_index (wallet_info buyer)
      indexed.0 indexed.1 index_run in_use

abbrev resized : AccountInfo × AccountInfo
resized =
    got (resize_account runtime page_index.info 78 (wallet_info buyer))
      (page_index.info, wallet_info buyer)

resize_run :
    resize_account runtime page_index.info 78 (wallet_info buyer) ≡ ok (resized.0, resized.1)
unfolding resize_account settle_rent
resize_run = refl

resize_account_exempt_example :
    (resized.0.space ≡ 78)
    × (resized.0.lamports ≡ runtime.minimum_balance 78)
    × (resized.0.lamports + resized.1.lamports
        ≡ page_index.info.lamports + (wallet_info buyer).lamports)
    × (resized.0.key ≡ page_index.info.key)
resize_account_exempt_example =
    resize_account_exempt runtime runtime-IsSystemProgram page_index.info (wallet_info buyer) 78
      resized.0 resized.1 resize_run

abbrev starting : InitJustiesProgram
starting = record { global_states_key = states_key; global_states = none; authority = 9 }

-- A fee of 100%, which no update would accept.
abbrev started : GlobalStates
started =
    got (init_justies_program_handler runtime starting 10000 treasury false) default_global_states

start_run : init_justies_program_handler runtime starting 10000 treasury false ≡ ok started
unfolding init_justies_program_handler
start_run = refl

init-IsConfigured_iff_example : IsConfigured started ↔ (10000 < 10000)
init-IsConfigured_iff_example =
    init-IsConfigured_iff runtime starting 10000 treasury false started start_run

abbrev updating : AdminAccounts
updating = record { global_states_key = states_key; global_states = states; authority = 9 }

abbrev update_input : UpdateConfigsInput
update_input = record {
  market_fee_rate_bps = some 250;
  fee_treasury_address = none;
  min_outbid_rate_bps = none;
  last_minutes_for_auction_extend = none;
  auction_extend_minutes = none;
  min_auction_duration = none;
  max_auction_duration = none;
  min_raffle_ticket_supply = none;
  max_raffle_ticket_supply = none;
  max_raffled_nfts = none;
  min_raffle_duration = none;
  max_raffle_duration = none;
  auction_creation_enabled = none;
  raffle_creation_enabled = none;
  num_keys_per_index_page = some 7;
}

abbrev updated : GlobalStates
updated = got (update_configs_handler runtime updating update_input) states

update_run : update_configs_handler runtime updating update_input ≡ ok updated
unfolding update_configs update_configs_handler validate
update_run = refl

update_configs_handler-IsConfigured_example :
    (updating.authority ≡ updating.global_states.authority)
    × IsConfigured updated
    × (updated.authority ≡ updating.global_states.authority)
    × (updated.total_auctions ≡ updating.global_states.total_auctions)
    × (updated.total_raffles ≡ updating.global_states.total_raffles)
    × (updated.is_test_environment ≡ updating.global_states.is_test_environment)
    × (updating.global_states.is_test_environment ≡ false
        → updated.num_keys_per_index_page ≡ updating.global_states.num_keys_per_index_page)
update_configs_handler-IsConfigured_example =
    update_configs_handler-IsConfigured runtime updating update_input updated update_run

validate_iff_example : (validate states ≡ ok tt) ↔ IsConfigured states
validate_iff_example = validate_iff states
