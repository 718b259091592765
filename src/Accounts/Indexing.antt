-- ===== src/Accounts/Indexing.antt =====
-- What an index page holds: index_pubkey of common/pubkey_indexing.rs.
use raffle_auction_audited_c.Prelude.{
  ℕ, ◌+◌, ◌≡◌, refl, sym, ap, ◌∙◌, ◌⊎◌, inl, inr, Bool, true, false, not, Option, none, some, List,
  [], ◌∷◌, ◌++◌, if◌then◌else◌, length, length-append,
}
use raffle_auction_audited_c.Failures.{Failure, or_fail, bind_ok, ok_inj, or_fail-some, if_ok, ok}
use raffle_auction_audited_c.Types.{Pubkey, PubkeyIndexPage}
use raffle_auction_audited_c.Types.Defaults.{default_index_page}
use raffle_auction_audited_c.Runtime.{Seed, Runtime, IsSystemProgram}
use raffle_auction_audited_c.Accounts.{
  AccountInfo, is_account_initialized, create_pda, resize_account, IndexAccount, index_page_space,
  open_index_page, index_pubkey,
}
use raffle_auction_audited_c.Accounts.Rent.{resize_account_exempt}

abbrev keys_of_page : Option PubkeyIndexPage → List Pubkey
keys_of_page none = []
keys_of_page (some page) = page.keys

-- The page that the account holds before a key is added: none while the account has no lamports.
abbrev pub keys_before : IndexAccount → List Pubkey
keys_before index = if not (is_account_initialized index.info) then [] else keys_of_page index.page

-- A page that is written is marked as written, and its account has exactly the size and the lamports
-- that its keys take.
pub record Holds (rt : Runtime) (index : IndexAccount) (keys : List Pubkey) : Type 0 where
  pub page : PubkeyIndexPage
  pub written : index.page ≡ some page
  pub marked : page.initialized ≡ true
  pub held : page.keys ≡ keys
  pub sized : index.info.space ≡ index_page_space (length keys)
  pub exempt : index.info.lamports ≡ rt.minimum_balance (index_page_space (length keys))

-- A page in use is marked.
abbrev pub InUse : IndexAccount → Type 0
InUse index = (page : PubkeyIndexPage) → index.page ≡ some page → page.initialized ≡ true

length_snoc : (keys : List Pubkey) (key : Pubkey) → length (keys ++ key ∷ []) ≡ length keys + 1
length_snoc keys key = length-append keys (key ∷ [])

true_ne_false : {b : Bool} → b ≡ true → b ≡ false → ⊥
true_ne_false e h = cc

not-true : {b : Bool} → not b ≡ true → b ≡ false
not-true {b = true} e = cc
not-true {b = false} e = refl

not-false : {b : Bool} → not b ≡ false → b ≡ true
not-false {b = true} e = refl
not-false {b = false} e = cc

-- The page that is opened: a new one of one key's size, or the account's own.
opened_page :
    (rt : Runtime) (seeds : List Seed) (index : IndexAccount) (payer : AccountInfo)
    (opened : PubkeyIndexPage × AccountInfo × AccountInfo)
    → open_index_page rt seeds index payer ≡ ok opened
    → ((is_account_initialized index.info ≡ false)
        × (opened.0 ≡ default_index_page)
        × (opened.1.space ≡ index_page_space 1)
        × (opened.1.lamports ≡ rt.minimum_balance (index_page_space 1)))
      ⊎ ((is_account_initialized index.info ≡ true)
          × (index.page ≡ some opened.0)
          × (opened.1 ≡ index.info))
unfolding open_index_page create_pda
opened_page rt seeds index payer opened e =
    elim (if_ok (not (is_account_initialized index.info)) _ _ e) [
      | inl (fresh, creates) ↦
          bind_ok (create_pda rt payer index.info (index_page_space 1) seeds) creates
            λ created made e₁.
              bind_ok
                (rt.create_account seeds index.info.key (rt.minimum_balance (index_page_space 1))
                  (index_page_space 1) payer.lamports)
                made
                λ left _ e₂. rw (← ok_inj e₁, ← ok_inj e₂) (inl (not-true fresh, refl, refl, refl))
      | inr (live, loads) ↦
          bind_ok (or_fail index.page Failure.account_did_not_deserialize) loads
            λ page found e₁. rw (← ok_inj e₁) (inr (not-false live, or_fail-some _ _ found, refl))
    ]

module _ (rt : Runtime) (sys : IsSystemProgram rt) where
  -- When a page in use is marked so: a key that is added stands at the end of the page, which is
  -- created for the first one; the account then has exactly the size and the lamports that its
  -- keys take.
  pub index_pubkey_appends :
      (key : Pubkey) (bump : ℕ) (seeds : List Seed) (index : IndexAccount) (payer : AccountInfo)
      (index' : IndexAccount) (payer' : AccountInfo)
      → index_pubkey rt key bump seeds index payer ≡ ok (index', payer')
      → InUse index
      → Holds rt index' (keys_before index ++ key ∷ [])
  unfolding index_pubkey
  index_pubkey_appends key bump seeds index payer index' payer' e used =
      bind_ok (open_index_page rt seeds index payer) e λ opened opens e₁.
        elim (opened_page rt seeds index payer opened opens) [
          | inl (fresh, blank, size, rent) ↦ elim (if_ok (not opened.0.initialized) _ _ e₁) [
            | inl (_, writes) ↦
                rw (← ap (λ (x : IndexAccount × AccountInfo). x.0) (ok_inj writes), fresh)
                  (record {
                    page = record (opened.0) {
                      bump = bump;
                      initialized = true;
                      keys = opened.0.keys ++ key ∷ [];
                    };
                    written = refl;
                    marked = refl;
                    held = rw (blank) refl;
                    sized = size;
                    exempt = rent;
                  })
            | inr (old, _) ↦
                absurd (
                  true_ne_false (not-false old) (ap (λ (x : PubkeyIndexPage). x.initialized) blank))
          ]
          | inr (live, at_page, info) ↦ elim (if_ok (not opened.0.initialized) _ _ e₁) [
            | inl (new, _) ↦ absurd (true_ne_false (used opened.0 at_page) (not-true new))
            | inr (_, grows) ↦
                let space = index_page_space (length opened.0.keys + 1) in
                bind_ok (resize_account rt opened.1 space opened.2) grows λ resized runs e₂.
                  let (size, rent, _, _) =
                    resize_account_exempt rt sys opened.1 opened.2 space resized.0 resized.1 runs in
                  rw (← ap (λ (x : IndexAccount × AccountInfo). x.0) (ok_inj e₂), live, at_page)
                    (record {
                      page = record (opened.0) { keys = opened.0.keys ++ key ∷ [] };
                      written = refl;
                      marked = used opened.0 at_page;
                      held = refl;
                      sized = size ∙ ap index_page_space (sym (length_snoc opened.0.keys key));
                      exempt =
                          rent
                          ∙ ap (λ (n : ℕ). rt.minimum_balance (index_page_space n))
                              (sym (length_snoc opened.0.keys key));
                    })
          ]
        ]
