-- ===== src/Admin/Updates.antt =====
-- The settings after admin/init_justies_program.rs and admin/update_configs.rs.
use raffle_auction_audited_c.Prelude.{ℕ, ◌<◌, ◌≡◌, refl, ◌↔◌, Bool, false, arith, ◌==◌}
use raffle_auction_audited_c.Failures.{JustiesErrorCode, constraint, bind_ok, ok_inj, ok}
use raffle_auction_audited_c.Types.{Pubkey, GlobalStates}
use raffle_auction_audited_c.Runtime.{Runtime, require_pda, require_pda_bump, require_new}
use raffle_auction_audited_c.Admin.Configs.{
  UpdateConfigsInput, update_configs, validate, IsConfigured, validate_iff,
}
use raffle_auction_audited_c.Admin.Instructions.{
  InitJustiesProgram, init_justies_program_handler, AdminAccounts, update_configs_handler,
}
use raffle_auction_audited_c.Auction.Seeds.{global_states_seeds}

-- The settings that the program starts with are such as the validation accepts exactly when the
-- fee rate is below 100%, also when it is 0, which is not checked.
pub init-IsConfigured_iff :
    (rt : Runtime) (a : InitJustiesProgram) (fee : ℕ) (treasury : Pubkey) (test : Bool)
    (g : GlobalStates)
    → init_justies_program_handler rt a fee treasury test ≡ ok g
    → IsConfigured g ↔ (fee < 10000)
unfolding init_justies_program_handler
init-IsConfigured_iff rt a fee treasury test g e =
    bind_ok (require_pda rt global_states_seeds a.global_states_key) e λ _ _ e₁.
      bind_ok (require_new a.global_states) e₁ λ _ _ e₂. rw (← ok_inj e₂) (
        (λ v. v.fee),
        (λ h. record {
          fee = h;
          outbid_pos = omega arith;
          outbid = omega arith;
          window_pos = omega arith;
          extension_pos = omega arith;
          auction_pos = omega arith;
          auction_range = omega arith;
          supply_pos = omega arith;
          supply_range = omega arith;
          raffle_pos = omega arith;
          raffle_range = omega arith;
        }),
      )

-- An update that succeeds is the authority's and leaves settings that the validation accepts; the
-- authority, the numbers of auctions and raffles and the test mode stay, and outside the test
-- mode so does the size of the index pages.
pub update_configs_handler-IsConfigured :
    (rt : Runtime) (a : AdminAccounts) (input : UpdateConfigsInput) (g : GlobalStates)
    → update_configs_handler rt a input ≡ ok g
    → (a.authority ≡ a.global_states.authority)
      × IsConfigured g
      × (g.authority ≡ a.global_states.authority)
      × (g.total_auctions ≡ a.global_states.total_auctions)
      × (g.total_raffles ≡ a.global_states.total_raffles)
      × (g.is_test_environment ≡ a.global_states.is_test_environment)
      × (a.global_states.is_test_environment ≡ false
          → g.num_keys_per_index_page ≡ a.global_states.num_keys_per_index_page)
unfolding update_configs_handler update_configs
update_configs_handler-IsConfigured rt a input g e =
    bind_ok (require_pda_bump rt global_states_seeds a.global_states.bump a.global_states_key) e
      λ _ _ e₁.
        bind_ok
          (constraint (a.authority == a.global_states.authority) JustiesErrorCode.not_the_authority)
          e₁
          λ _ own e₂. bind_ok (validate (update_configs a.global_states input)) e₂ λ _ valid e₃.
            rw (← ok_inj e₃) (
              ground arith,
              (validate_iff (update_configs a.global_states input)).0 valid,
              refl,
              refl,
              refl,
              refl,
              λ live. rw (live) refl,
            )
