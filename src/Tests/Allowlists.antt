-- ===== src/Tests/Allowlists.antt =====
-- Runs of the instructions that add to the allowlists.
use raffle_auction_audited_c.Prelude.{◌+◌, ◌≡◌, refl, true, false, none, [], ◌∷◌, arith}
use raffle_auction_audited_c.Failures.{ok}
use raffle_auction_audited_c.Types.{Pubkey}
use raffle_auction_audited_c.Runtime.{SeedLabel, Tokens}
use raffle_auction_audited_c.Accounts.{
  AccountInfo, create_pda, settle_rent, resize_account, IndexAccount, page_id, open_index_page,
  index_pubkey,
}
use raffle_auction_audited_c.Accounts.Indexing.{InUse}
use raffle_auction_audited_c.Admin.Allowing.{
  IsAllowed, IsCollectionMint, add_currency-IsAllowed, add_collection-IsAllowed,
}
use raffle_auction_audited_c.Admin.Allowlist.{
  AllowlistAccounts, Allowlisted, index_seeds, record_allowed, CurrencyAccounts,
  add_currency_constraints, add_currency_token_to_allowlist_handler, CollectionAccounts,
  add_collection_constraints, add_nft_collection_to_allowlist_handler,
}
use raffle_auction_audited_c.Auction.Seeds.{
  nft_metadata_seeds, nft_allowlist_seeds, token_allowlist_seeds,
}
use raffle_auction_audited_c.Example.{address, runtime, runtime-IsSystemProgram}
use raffle_auction_audited_c.Tests.Market.{
  got, tokens_of, holding, currency, treasury, associated, states_key, states, wallet_info,
  no_index,
}

abbrev signer : AccountInfo
signer = wallet_info 9

abbrev payee_account : Pubkey
payee_account = associated treasury currency

abbrev no_tokens : Tokens
no_tokens = tokens_of ((payee_account, holding currency treasury 0) ∷ [])

abbrev token_index : IndexAccount
token_index = no_index (address (index_seeds SeedLabel.token_allowlist_index 0))

token_index_unused : InUse token_index
token_index_unused page e = ground arith

abbrev token_accounts : AllowlistAccounts
token_accounts = record {
  allowlist_key = address (token_allowlist_seeds currency);
  allowlist_states = none;
  allowlist_index = token_index;
  authority = signer;
  global_states_key = states_key;
  global_states = states;
}

abbrev payments : CurrencyAccounts
payments = record {
  fee_treasury_token_account = payee_account;
  fee_treasury = treasury;
  currency_token_mint = currency;
}

abbrev nothing_allowed : Allowlisted
nothing_allowed = record {
  allowlist_states = record { bump = 0; token_mint_address = 0; allowed = false };
  allowlist_index = token_index;
  authority = signer;
  global_states = states;
}

abbrev currency_added : Allowlisted × Tokens
unfolding add_currency_constraints add_currency_token_to_allowlist_handler create_pda index_pubkey
    open_index_page page_id record_allowed resize_account settle_rent
currency_added =
    got (add_currency_token_to_allowlist_handler runtime token_accounts payments currency no_tokens)
      (nothing_allowed, no_tokens)

currency_run :
    add_currency_token_to_allowlist_handler runtime token_accounts payments currency no_tokens
    ≡ ok (currency_added.0, currency_added.1)
unfolding add_currency_constraints add_currency_token_to_allowlist_handler create_pda index_pubkey
    open_index_page page_id record_allowed resize_account settle_rent
currency_run = refl

add_currency-IsAllowed_example :
    IsAllowed runtime token_accounts (token_allowlist_seeds currency) currency currency_added.0
    × (payments.currency_token_mint ≡ currency)
    × (currency_added.0.global_states ≡ record (token_accounts.global_states) {
      total_allowed_currency_tokens =
          token_accounts.global_states.total_allowed_currency_tokens + 1;
    })
add_currency-IsAllowed_example =
    add_currency-IsAllowed runtime runtime-IsSystemProgram token_accounts payments currency
      no_tokens currency_added.0 currency_added.1 currency_run token_index_unused

abbrev nft_index : IndexAccount
nft_index = no_index (address (index_seeds SeedLabel.nft_allowlist_index 0))

nft_index_unused : InUse nft_index
nft_index_unused page e = ground arith

abbrev nft_accounts : AllowlistAccounts
nft_accounts = record token_accounts {
  allowlist_key = address (nft_allowlist_seeds 23);
  allowlist_index = nft_index;
}

abbrev cards : CollectionAccounts
cards = record {
  nft_collection_mint = record { key = 23; supply = 1; decimals = 0 };
  collection_metadata_key = address (nft_metadata_seeds 5 23);
  collection_metadata = record { mint = 23; collection = none };
  is_metadata_v1 = true;
}

abbrev cards_added : Allowlisted
unfolding add_collection_constraints add_nft_collection_to_allowlist_handler create_pda index_pubkey
    open_index_page page_id record_allowed resize_account settle_rent
cards_added =
    got (add_nft_collection_to_allowlist_handler runtime nft_accounts cards 23) nothing_allowed

cards_run : add_nft_collection_to_allowlist_handler runtime nft_accounts cards 23 ≡ ok cards_added
unfolding add_collection_constraints add_nft_collection_to_allowlist_handler create_pda index_pubkey
    open_index_page page_id record_allowed resize_account settle_rent
cards_run = refl

add_collection-IsAllowed_example :
    IsAllowed runtime nft_accounts (nft_allowlist_seeds 23) 23 cards_added
    × IsCollectionMint cards 23
    × (cards_added.global_states ≡ record (nft_accounts.global_states) {
      total_allowed_nft_collections = nft_accounts.global_states.total_allowed_nft_collections + 1;
    })
add_collection-IsAllowed_example =
    add_collection-IsAllowed runtime runtime-IsSystemProgram nft_accounts cards 23 cards_added
      cards_run nft_index_unused
