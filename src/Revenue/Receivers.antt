-- ===== src/Revenue/Receivers.antt =====
-- Whom a distribution pays: init_revenue_distribution_accounts of
-- common/revenue_distribution_strategy.rs.
use raffle_auction_audited_c.Prelude.{
  ℕ, zero, suc, ◌+◌, ◌*◌, ◌≤◌, ◌≡◌, refl, sym, ap, ◌∙◌, true, List, [], ◌∷◌, map, arith, length,
  take, drop,
}
use raffle_auction_audited_c.Failures.{bind_ok, ok_inj, ok}
use raffle_auction_audited_c.Types.{Pubkey, RevenueShareConfig, RevenueDistribution}
use raffle_auction_audited_c.Runtime.{
  Tokens, Runtime, balance, IsTokenProgram, load_token, create_associated_token_account,
}
use raffle_auction_audited_c.Revenue.{
  all_match, validate_revenue_distribution_accounts, create_receiver_accounts,
  collect_distributions, init_revenue_distribution_accounts,
}

-- The distributions that the configured shares ask for.
abbrev pub distributions_of : Runtime → Pubkey → List RevenueShareConfig → List RevenueDistribution
distributions_of rt token_mint = map λ c. record {
  revenue_receiver_token_account = rt.get_associated_token_address c.revenue_receiver token_mint;
  share_bps = c.share_bps;
}

length-take : {A : Type 0} (n : ℕ) (xs : List A) → n ≤ length xs → length (take n xs) ≡ n
length-take zero xs h = refl
length-take (suc n) [] h = absurd (omega arith)
length-take (suc n) (x ∷ xs) h = ap suc (length-take n xs (omega arith))

length-drop : {A : Type 0} (n k : ℕ) (xs : List A) → length xs ≡ n + k → length (drop n xs) ≡ k
length-drop zero k xs h = omega arith
length-drop (suc n) k [] h = absurd (omega arith)
length-drop (suc n) k (x ∷ xs) h = length-drop n k xs (omega arith)

-- The accounts that pass the check are the configured ones.
match_step :
    (rt : Runtime) (token_mint : Pubkey) (c : RevenueShareConfig) (cs : List RevenueShareConfig)
    (wallet account : Pubkey) (wallets accounts : List Pubkey)
    → all_match rt token_mint (c ∷ cs) (wallet ∷ wallets) (account ∷ accounts) ≡ true
    → (rt.get_associated_token_address c.revenue_receiver token_mint ≡ account)
      × (all_match rt token_mint cs wallets accounts ≡ true)
unfolding all_match
match_step rt token_mint c cs wallet account wallets accounts e =
    let same : c.revenue_receiver ≡ wallet = ground arith in
    let found : rt.get_associated_token_address wallet token_mint ≡ account = ground arith in
    (ap (λ (w : Pubkey). rt.get_associated_token_address w token_mint) same ∙ found, ground arith)

collected :
    (rt : Runtime) (token_mint : Pubkey) (cs : List RevenueShareConfig)
    (wallets accounts : List Pubkey) (ts : Tokens) (ds : List RevenueDistribution)
    → collect_distributions cs accounts ts ≡ ok ds
    → all_match rt token_mint cs wallets accounts ≡ true
    → length wallets ≡ length cs
    → length accounts ≡ length cs
    → ds ≡ distributions_of rt token_mint cs
unfolding collect_distributions
collected rt token_mint [] wallets accounts ts ds e m h k = sym (ok_inj e)
collected rt token_mint (c ∷ cs) [] accounts ts ds e m h k = absurd (omega arith)
collected rt token_mint (c ∷ cs) (w ∷ ws) [] ts ds e m h k = absurd (omega arith)
collected rt token_mint (c ∷ cs) (w ∷ ws) (account ∷ accounts) ts ds e m h k =
    let (at, rest_match) = match_step rt token_mint c cs w account ws accounts m in
    bind_ok (load_token ts account) e λ _ _ e₁.
      bind_ok (collect_distributions cs accounts ts) e₁ λ rest collects e₂.
        let rest_is =
          collected rt token_mint cs ws accounts ts rest collects rest_match (omega arith)
            (omega arith) in
        rw (← ok_inj e₂, at, rest_is) refl

module _ (rt : Runtime) (tp : IsTokenProgram rt) where
  created_keep :
      (token_mint : Pubkey) (wallets accounts : List Pubkey) (ts ts' : Tokens) (b : Pubkey)
      → create_receiver_accounts rt token_mint wallets accounts ts ≡ ok ts'
      → balance ts' b ≡ balance ts b
  unfolding create_receiver_accounts create_associated_token_account
  created_keep token_mint [] accounts ts ts' b e = ap (λ (t : Tokens). balance t b) (sym (ok_inj e))
  created_keep token_mint (w ∷ ws) [] ts ts' b e = ap (λ (t : Tokens). balance t b) (sym (ok_inj e))
  created_keep token_mint (w ∷ ws) (account ∷ accounts) ts ts' b e =
      bind_ok (create_associated_token_account rt account w token_mint ts) e λ ts₁ created e₁.
        created_keep token_mint ws accounts ts₁ ts' b e₁
        ∙ tp.create_idempotent_balance account w token_mint ts ts₁ b created

  -- The distributions that are made ready are exactly the configured ones: the associated token account
  -- of every configured receiver, with its share, in order; no balance changes.
  pub distributions_configured :
      (token_mint : Pubkey) (configs : List RevenueShareConfig) (accounts : List Pubkey)
      (ts : Tokens) (ds : List RevenueDistribution) (ts' : Tokens)
      → init_revenue_distribution_accounts rt token_mint configs accounts ts ≡ ok (ds, ts')
      → (ds ≡ distributions_of rt token_mint configs)
        × ((b : Pubkey) → balance ts' b ≡ balance ts b)
  unfolding init_revenue_distribution_accounts validate_revenue_distribution_accounts
  distributions_configured token_mint configs accounts ts ds ts' e =
      let n = length configs in
      let wallets = take n accounts in
      let rest = drop n accounts in
      bind_ok (validate_revenue_distribution_accounts rt token_mint configs accounts) e
        λ _ valid e₁.
          bind_ok (create_receiver_accounts rt token_mint wallets rest ts) e₁ λ ts₁ created e₂.
            bind_ok (collect_distributions configs rest ts₁) e₂ λ collected_ds collects e₃.
              let twice : n * 2 ≡ length accounts = ground arith in
              let matched : all_match rt token_mint configs wallets rest ≡ true = ground arith in
              rw
                (
                  ← ap (λ (x : List RevenueDistribution × Tokens). x.0) (ok_inj e₃),
                  ← ap (λ (x : List RevenueDistribution × Tokens). x.1) (ok_inj e₃),
                )
                (
                  collected rt token_mint configs wallets rest ts₁ collected_ds collects matched
                      (length-take n accounts (omega arith))
                      (length-drop n n accounts (omega arith)),
                  λ b. created_keep token_mint wallets rest ts ts₁ b created,
                )
