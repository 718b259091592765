-- ===== src/Admin/Allowing.antt =====
-- What admin/add_currency_token_to_allowlist.rs and admin/add_nft_collection_to_allowlist.rs leave behind.
use raffle_auction_audited_c.Prelude.{
  ℕ, ◌+◌, ◌≡◌, refl, ap, true, not, Option, none, some, List, [], ◌∷◌, ◌++◌, arith, ◌==◌,
}
use raffle_auction_audited_c.Failures.{JustiesErrorCode, constraint, bind_ok, ok_inj, ok}
use raffle_auction_audited_c.Failures.Checked.{add_u64}
use raffle_auction_audited_c.Types.{Pubkey, TokenAllowlistStates, GlobalStates}
use raffle_auction_audited_c.Runtime.{
  SeedLabel, Seed, Tokens, Runtime, IsSystemProgram, require_pda, require_pda_of, require_pda_bump,
  require_new, init_associated_if_needed,
}
use raffle_auction_audited_c.Runtime.Transfers.{was_absent}
use raffle_auction_audited_c.Accounts.{AccountInfo, IndexAccount, page_id, index_pubkey}
use raffle_auction_audited_c.Accounts.Indexing.{keys_before, Holds, InUse, index_pubkey_appends}
use raffle_auction_audited_c.Admin.Allowlist.{
  AllowlistAccounts, Allowlisted, index_seeds, record_allowed, CurrencyAccounts,
  add_currency_constraints, add_currency_token_to_allowlist_handler, CollectionAccounts,
  add_collection_constraints, add_nft_collection_to_allowlist_handler,
}
use raffle_auction_audited_c.Auction.CreateAuction.{has_collection}
use raffle_auction_audited_c.Auction.Seeds.{
  global_states_seeds, nft_metadata_seeds, nft_allowlist_seeds, token_allowlist_seeds,
}
use raffle_auction_audited_c.Eligibility.{Collection}

-- The entry of a mint in an allowlist: new, at the address that its seeds give, and indexed once more.
pub record IsAllowed (rt : Runtime) (a : AllowlistAccounts) (seeds : List Seed) (mint : Pubkey)
    (allowed : Allowlisted) : Type 0 where
  pub absent : a.allowlist_states ≡ none
  pub at_address : (rt.find_program_address seeds).0 ≡ a.allowlist_key
  pub for_mint : allowed.allowlist_states.token_mint_address ≡ mint
  pub is_open : allowed.allowlist_states.allowed ≡ true
  pub indexed :
      Holds rt allowed.allowlist_index (keys_before a.allowlist_index ++ a.allowlist_key ∷ [])

pda_address :
    (rt : Runtime) (seeds : List Seed) (key : Pubkey)
    → require_pda rt seeds key ≡ ok tt
    → (rt.find_program_address seeds).0 ≡ key
pda_address rt seeds key e = ground arith

-- The mint of a collection: one token without decimals, in no collection itself.
pub record IsCollectionMint (c : CollectionAccounts) (mint : Pubkey) : Type 0 where
  pub is_mint : c.nft_collection_mint.key ≡ mint
  pub indivisible : c.nft_collection_mint.decimals ≡ 0
  pub single : c.nft_collection_mint.supply ≡ 1
  pub in_none : c.collection_metadata.collection ≡ none

no_collection :
    (o : Option Collection) (code : JustiesErrorCode)
    → constraint (not (has_collection o)) code ≡ ok tt
    → o ≡ none
no_collection none code e = refl
no_collection (some k) code e = cc

equal_numbers : (m n : ℕ) (code : JustiesErrorCode) → constraint (m == n) code ≡ ok tt → m ≡ n
equal_numbers m n code e = ground arith

module _ (rt : Runtime) (sys : IsSystemProgram rt) where
  record_allowed-IsAllowed :
      (a : AllowlistAccounts) (l : SeedLabel) (seeds : List Seed) (mint : Pubkey) (total : ℕ)
      (g : GlobalStates) (r : TokenAllowlistStates × IndexAccount × AccountInfo)
      → record_allowed rt a l seeds mint total ≡ ok r
      → require_pda rt seeds a.allowlist_key ≡ ok tt
      → require_new a.allowlist_states ≡ ok tt
      → InUse a.allowlist_index
      → IsAllowed rt a seeds mint (record {
        allowlist_states = r.0;
        allowlist_index = r.1;
        authority = r.2;
        global_states = g;
      })
  unfolding record_allowed
  record_allowed-IsAllowed a l seeds mint total g r e at fresh used =
      bind_ok (page_id total a.global_states.num_keys_per_index_page) e λ page _ e₁.
        let index_bump = (rt.find_program_address (index_seeds l page)).1 in
        bind_ok
          (index_pubkey rt a.allowlist_key index_bump
            (index_seeds l page ++ Seed.bump index_bump ∷ []) a.allowlist_index a.authority)
          e₁
          λ written writes e₂. rw (← ok_inj e₂) (record {
            absent = was_absent a.allowlist_states fresh;
            at_address = pda_address rt seeds a.allowlist_key at;
            for_mint = refl;
            is_open = refl;
            indexed =
                index_pubkey_appends rt sys a.allowlist_key index_bump
                  (index_seeds l page ++ Seed.bump index_bump ∷ []) a.allowlist_index a.authority
                  written.0 written.1 writes used;
          })

  right_mint :
      (a : AllowlistAccounts) (c : CurrencyAccounts) (mint : Pubkey)
      → add_currency_constraints rt a c mint ≡ ok tt
      → c.currency_token_mint ≡ mint
  unfolding add_currency_constraints
  right_mint a c mint e =
      let g = a.global_states in
      bind_ok (page_id g.total_allowed_currency_tokens g.num_keys_per_index_page) e λ page _ e₁.
        bind_ok
          (require_pda rt (index_seeds SeedLabel.token_allowlist_index page)
            a.allowlist_index.info.key)
          e₁
          λ _ _ e₂.
            bind_ok (require_pda_bump rt global_states_seeds g.bump a.global_states_key) e₂
              λ _ _ e₃.
                bind_ok
                  (constraint (g.fee_treasury_address == c.fee_treasury)
                    JustiesErrorCode.invalid_fee_treasury_address)
                  e₃ λ _ _ e₄. ground arith

  -- When its index page, if in use, is marked so: a currency that is added had no entry, has an open one at
  -- its own address now, which stands last on the page; the number of currencies grows by one.
  pub add_currency-IsAllowed :
      (a : AllowlistAccounts) (c : CurrencyAccounts) (mint : Pubkey) (ts : Tokens)
      (allowed : Allowlisted) (ts' : Tokens)
      → add_currency_token_to_allowlist_handler rt a c mint ts ≡ ok (allowed, ts')
      → InUse a.allowlist_index
      → IsAllowed rt a (token_allowlist_seeds mint) mint allowed
        × (c.currency_token_mint ≡ mint)
        × (allowed.global_states ≡ record (a.global_states) {
          total_allowed_currency_tokens = a.global_states.total_allowed_currency_tokens + 1;
        })
  unfolding add_currency_token_to_allowlist_handler add_currency_constraints
  add_currency-IsAllowed a c mint ts allowed ts' e used =
      let g = a.global_states in
      let seeds = token_allowlist_seeds mint in
      bind_ok (require_pda rt seeds a.allowlist_key) e λ _ at e₁.
        bind_ok (require_new a.allowlist_states) e₁ λ _ fresh e₂.
          bind_ok
            (init_associated_if_needed rt c.fee_treasury_token_account c.currency_token_mint
              c.fee_treasury ts)
            e₂
            λ ts₁ _ e₃. bind_ok (add_currency_constraints rt a c mint) e₃ λ _ checked e₄.
              bind_ok
                (record_allowed rt a SeedLabel.token_allowlist_index seeds mint
                  g.total_allowed_currency_tokens)
                e₄
                λ r recording e₅.
                  bind_ok (add_u64 g.total_allowed_currency_tokens 1) e₅ λ total counted e₆.
                    let total_is : total ≡ g.total_allowed_currency_tokens + 1 = ground arith in
                    rw (← ap (λ (x : Allowlisted × Tokens). x.0) (ok_inj e₆)) (
                      record_allowed-IsAllowed a SeedLabel.token_allowlist_index seeds mint
                          g.total_allowed_currency_tokens
                          (record g { total_allowed_currency_tokens = total }) r recording at fresh
                          used,
                      right_mint a c mint checked,
                      rw (total_is) refl,
                    )

  collection_checked :
      (a : AllowlistAccounts) (c : CollectionAccounts) (mint : Pubkey)
      → add_collection_constraints rt a c mint ≡ ok tt
      → IsCollectionMint c mint
  unfolding add_collection_constraints
  collection_checked a c mint e =
      let g = a.global_states in
      bind_ok (page_id g.total_allowed_nft_collections g.num_keys_per_index_page) e λ page _ e₁.
        bind_ok
          (require_pda rt (index_seeds SeedLabel.nft_allowlist_index page)
            a.allowlist_index.info.key)
          e₁
          λ _ _ e₂.
            bind_ok (require_pda_bump rt global_states_seeds g.bump a.global_states_key) e₂
              λ _ _ e₃.
                bind_ok
                  (constraint (c.nft_collection_mint.key == mint)
                    JustiesErrorCode.invalid_nft_collection_mint)
                  e₃
                  λ _ same e₄.
                    bind_ok
                      (constraint (c.nft_collection_mint.decimals == 0)
                        JustiesErrorCode.invalid_nft_collection_mint)
                      e₄
                      λ _ whole e₅.
                        bind_ok
                          (constraint (c.nft_collection_mint.supply == 1)
                            JustiesErrorCode.invalid_nft_collection_mint)
                          e₅
                          λ _ one e₆.
                            bind_ok
                              (require_pda_of rt rt.metadata_program_id
                                (nft_metadata_seeds rt.metadata_program_id
                                  c.nft_collection_mint.key)
                                c.collection_metadata_key)
                              e₆
                              λ _ _ e₇.
                                bind_ok
                                  (constraint c.is_metadata_v1
                                    JustiesErrorCode.invalid_nft_collection_metadata)
                                  e₇
                                  λ _ _ free. record {
                                    is_mint = equal_numbers _ _ _ same;
                                    indivisible = equal_numbers _ _ _ whole;
                                    single = equal_numbers _ _ _ one;
                                    in_none = no_collection _ _ free;
                                  }

  -- When its index page, if in use, is marked so: a collection that is added had no entry, has an open one
  -- at its own address now, which stands last on the page; its mint is of one indivisible token, which
  -- is in no collection itself, and the number of collections grows by one.
  pub add_collection-IsAllowed :
      (a : AllowlistAccounts) (c : CollectionAccounts) (mint : Pubkey) (allowed : Allowlisted)
      → add_nft_collection_to_allowlist_handler rt a c mint ≡ ok allowed
      → InUse a.allowlist_index
      → IsAllowed rt a (nft_allowlist_seeds mint) mint allowed
        × IsCollectionMint c mint
        × (allowed.global_states ≡ record (a.global_states) {
          total_allowed_nft_collections = a.global_states.total_allowed_nft_collections + 1;
        })
  unfolding add_nft_collection_to_allowlist_handler
  add_collection-IsAllowed a c mint allowed e used =
      let g = a.global_states in
      let seeds = nft_allowlist_seeds mint in
      bind_ok (require_pda rt seeds a.allowlist_key) e λ _ at e₁.
        bind_ok (require_new a.allowlist_states) e₁ λ _ fresh e₂.
          bind_ok (add_collection_constraints rt a c mint) e₂ λ _ checked e₃.
            bind_ok
              (record_allowed rt a SeedLabel.nft_allowlist_index seeds mint
                g.total_allowed_nft_collections)
              e₃
              λ r recording e₄.
                bind_ok (add_u64 g.total_allowed_nft_collections 1) e₄ λ total counted e₅.
                  let total_is : total ≡ g.total_allowed_nft_collections + 1 = ground arith in
                  rw (← ok_inj e₅) (
                    record_allowed-IsAllowed a SeedLabel.nft_allowlist_index seeds mint
                        g.total_allowed_nft_collections
                        (record g { total_allowed_nft_collections = total }) r recording at fresh
                        used,
                    collection_checked a c mint checked,
                    rw (total_is) refl,
                  )
