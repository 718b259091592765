-- ===== src/Admin/Allowlist.antt =====
-- admin/add_currency_token_to_allowlist.rs and admin/add_nft_collection_to_allowlist.rs.
use raffle_auction_audited_c.Prelude.{ℕ, Bool, true, not, Option, List, [], ◌∷◌, ◌++◌, ◌==◌}
use raffle_auction_audited_c.Failures.{JustiesErrorCode, Result, ◌>>=◌, ◌>>◌, constraint, ok}
use raffle_auction_audited_c.Failures.Checked.{add_u64}
use raffle_auction_audited_c.Types.{Pubkey, TokenAllowlistStates, GlobalStates}
use raffle_auction_audited_c.Runtime.{
  SeedLabel, Seed, Tokens, Runtime, require_pda, require_pda_of, require_pda_bump, require_new,
  init_associated_if_needed,
}
use raffle_auction_audited_c.Accounts.{AccountInfo, IndexAccount, page_id, index_pubkey}
use raffle_auction_audited_c.Auction.CreateAuction.{has_collection}
use raffle_auction_audited_c.Auction.Seeds.{
  MintAccount, global_states_seeds, nft_metadata_seeds, nft_allowlist_seeds, token_allowlist_seeds,
}
use raffle_auction_audited_c.Eligibility.{MetadataAccount}

-- The accounts that the two instructions share. `allowlist_states` is `none` until it is created; no
-- constraint compares `authority` with the one of the global states.
pub record AllowlistAccounts : Type 0 where
  pub allowlist_key : Pubkey
  pub allowlist_states : Option TokenAllowlistStates
  pub allowlist_index : IndexAccount
  pub authority : AccountInfo
  pub global_states_key : Pubkey
  pub global_states : GlobalStates

pub record Allowlisted : Type 0 where
  pub allowlist_states : TokenAllowlistStates
  pub allowlist_index : IndexAccount
  pub authority : AccountInfo
  pub global_states : GlobalStates

abbrev pub index_seeds : SeedLabel → ℕ → List Seed
index_seeds l page = Seed.label l ∷ Seed.number page ∷ []

-- The common part of the two handlers: writes the new states, and indexes their address.
unfoldable pub record_allowed :
    Runtime
    → AllowlistAccounts
    → SeedLabel
    → List Seed
    → Pubkey
    → ℕ
    → Result (TokenAllowlistStates × IndexAccount × AccountInfo)
record_allowed rt a l seeds mint total = do
  page ← page_id total a.global_states.num_keys_per_index_page
  let index_bump = (rt.find_program_address (index_seeds l page)).1
  indexed ←
      index_pubkey rt a.allowlist_key index_bump (index_seeds l page ++ Seed.bump index_bump ∷ [])
        a.allowlist_index a.authority
  ok (
    record { bump = (rt.find_program_address seeds).1; token_mint_address = mint; allowed = true },
    indexed.0,
    indexed.1,
  )

-- The accounts that `AddCurrencyTokenToAllowList` has besides.
pub record CurrencyAccounts : Type 0 where
  pub fee_treasury_token_account : Pubkey
  pub fee_treasury : Pubkey
  pub currency_token_mint : Pubkey

unfoldable pub add_currency_constraints :
    Runtime → AllowlistAccounts → CurrencyAccounts → Pubkey → Result (Unit {0})
add_currency_constraints rt a c token_mint_address = do
  let g = a.global_states
  page ← page_id g.total_allowed_currency_tokens g.num_keys_per_index_page
  require_pda rt (index_seeds SeedLabel.token_allowlist_index page) a.allowlist_index.info.key
  require_pda_bump rt global_states_seeds g.bump a.global_states_key
  constraint (g.fee_treasury_address == c.fee_treasury)
      JustiesErrorCode.invalid_fee_treasury_address
  constraint (c.currency_token_mint == token_mint_address)
      JustiesErrorCode.invalid_currency_token_mint

unfoldable pub add_currency_token_to_allowlist_handler :
    Runtime → AllowlistAccounts → CurrencyAccounts → Pubkey → Tokens → Result (Allowlisted × Tokens)
add_currency_token_to_allowlist_handler rt a c token_mint_address ts = do
  require_pda rt (token_allowlist_seeds token_mint_address) a.allowlist_key
  require_new a.allowlist_states
  ts' ←
      init_associated_if_needed rt c.fee_treasury_token_account c.currency_token_mint c.fee_treasury
        ts
  add_currency_constraints rt a c token_mint_address
  let g = a.global_states
  allowed ←
      record_allowed rt a SeedLabel.token_allowlist_index (token_allowlist_seeds token_mint_address)
        token_mint_address g.total_allowed_currency_tokens
  total ← add_u64 g.total_allowed_currency_tokens 1
  ok (
    record {
      allowlist_states = allowed.0;
      allowlist_index = allowed.1;
      authority = allowed.2;
      global_states = record g { total_allowed_currency_tokens = total };
    },
    ts',
  )

-- The accounts that `AddNftCollectionToAllowList` has besides; `is_metadata_v1` is the test of the
-- metadata's key.
pub record CollectionAccounts : Type 0 where
  pub nft_collection_mint : MintAccount
  pub collection_metadata_key : Pubkey
  pub collection_metadata : MetadataAccount
  pub is_metadata_v1 : Bool

unfoldable pub add_collection_constraints :
    Runtime → AllowlistAccounts → CollectionAccounts → Pubkey → Result (Unit {0})
add_collection_constraints rt a c collection_mint_address = do
  let g = a.global_states
  page ← page_id g.total_allowed_nft_collections g.num_keys_per_index_page
  require_pda rt (index_seeds SeedLabel.nft_allowlist_index page) a.allowlist_index.info.key
  require_pda_bump rt global_states_seeds g.bump a.global_states_key
  constraint (c.nft_collection_mint.key == collection_mint_address)
      JustiesErrorCode.invalid_nft_collection_mint
  constraint (c.nft_collection_mint.decimals == 0) JustiesErrorCode.invalid_nft_collection_mint
  constraint (c.nft_collection_mint.supply == 1) JustiesErrorCode.invalid_nft_collection_mint
  require_pda_of rt rt.metadata_program_id
      (nft_metadata_seeds rt.metadata_program_id c.nft_collection_mint.key)
      c.collection_metadata_key
  constraint c.is_metadata_v1 JustiesErrorCode.invalid_nft_collection_metadata
  constraint (not (has_collection c.collection_metadata.collection))
      JustiesErrorCode.invalid_nft_collection_metadata

unfoldable pub add_nft_collection_to_allowlist_handler :
    Runtime → AllowlistAccounts → CollectionAccounts → Pubkey → Result Allowlisted
add_nft_collection_to_allowlist_handler rt a c collection_mint_address = do
  require_pda rt (nft_allowlist_seeds collection_mint_address) a.allowlist_key
  require_new a.allowlist_states
  add_collection_constraints rt a c collection_mint_address
  let g = a.global_states
  allowed ←
      record_allowed rt a SeedLabel.nft_allowlist_index
        (nft_allowlist_seeds collection_mint_address) collection_mint_address
        g.total_allowed_nft_collections
  total ← add_u64 g.total_allowed_nft_collections 1
  ok (record {
    allowlist_states = allowed.0;
    allowlist_index = allowed.1;
    authority = allowed.2;
    global_states = record g { total_allowed_nft_collections = total };
  })
