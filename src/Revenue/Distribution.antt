-- ===== src/Revenue/Distribution.antt =====
-- distribute_revenue of common/revenue_distribution_strategy.rs: nothing stays in the escrow, no
-- subtraction falls below zero, and the closing that follows finds the escrow empty.
use raffle_auction_audited_c.Prelude.{
  ℕ, ◌+◌, ◌*◌, ◌/◌, ◌≡◌, sym, ◌∙◌, ◌≢◌, inl, inr, some, List, [], ◌∷◌, arith, sum, All,
}
use raffle_auction_audited_c.Failures.{Result-cases, ok}
use raffle_auction_audited_c.Types.{Pubkey, RevenueDistribution}
use raffle_auction_audited_c.Runtime.{Tokens, Runtime, balance, IsTokenProgram, transfer_token}
use raffle_auction_audited_c.Runtime.Transfers.{
  transfer_token_from, transfer_token_to, transfer_token_other,
}
use raffle_auction_audited_c.Revenue.{
  validate_share_configs, distribution_shares, RevenueDistributionStrategy, bps_of, collect_fees,
  distribute_amount, make_distribution, make_distributions, distribute_revenue,
}
use raffle_auction_audited_c.Revenue.Shares.{validate_shares_sum}

-- No receiver's account is the escrow.
abbrev pub Apart : Pubkey → List RevenueDistribution → Type 0
Apart escrow = All λ d. escrow ≢ d.revenue_receiver_token_account

-- Whoever's share is all that is left takes all that is left.
last_takes_rest :
    (total bps amount share paid : ℕ)
    → distribute_amount total bps amount share ≡ ok paid
    → share ≡ bps
    → paid ≡ amount
unfolding distribute_amount
last_takes_rest total bps amount share paid e h = ground arith

module _ (rt : Runtime) (tp : IsTokenProgram rt) (s : RevenueDistributionStrategy) where
  abbrev escrow : Pubkey
  escrow = s.revenue_escrow_token_account

  -- A step that succeeds takes what it reports off the escrow.
  make_distribution_step :
      (total : ℕ) (d : RevenueDistribution) (amount share : ℕ) (ts : Tokens) (r : ℕ × ℕ × Tokens)
      → make_distribution rt s total d amount share ts ≡ ok r
      → escrow ≢ d.revenue_receiver_token_account
      → balance ts escrow ≡ amount
      → (balance r.2 escrow ≡ r.0) × (r.1 + d.share_bps ≡ share) × (share ≡ d.share_bps → r.0 ≡ 0)
  unfolding make_distribution
  make_distribution_step total d amount share ts r e apart held =
      elim (Result-cases (distribute_amount total d.share_bps amount share)) [
        | inr (f, bad) ↦ ground arith
        | inl (paid, pays) ↦
            elim (Result-cases (
              transfer_token rt escrow d.revenue_receiver_token_account s.escrow_authority paid
                (some s.escrow_signer_seed) ts)) [
                  | inr (f, bad) ↦ ground arith
                  | inl (ts', moved) ↦ ground (
                    arith,
                    transfer_token_from rt tp escrow d.revenue_receiver_token_account
                        s.escrow_authority paid (some s.escrow_signer_seed) ts ts' moved apart,
                    last_takes_rest total d.share_bps amount share paid pays,
                  )
                ]
      ]

  make_distributions_empty :
      (total : ℕ) (ds : List RevenueDistribution) (amount share : ℕ) (ts ts' : Tokens)
      → make_distributions rt s total ds amount share ts ≡ ok ts'
      → Apart escrow ds
      → balance ts escrow ≡ amount
      → sum (distribution_shares ds) ≡ share
      → (share ≡ 0 → amount ≡ 0)
      → balance ts' escrow ≡ 0
  unfolding make_distributions sum
  make_distributions_empty total [] amount share ts ts' e apart held shares spent = ground arith
  make_distributions_empty total (d ∷ ds) amount share ts ts' e apart held shares spent =
      elim (Result-cases (make_distribution rt s total d amount share ts)) [
        | inr (f, bad) ↦ ground arith
        | inl (r, paid) ↦
            let (left, shared, rest) =
              make_distribution_step total d amount share ts r paid apart.0 held in
            make_distributions_empty total ds r.0 r.1 r.2 ts' (ground arith) apart.1 left
              (omega arith) (λ none_left. rest (omega arith))
      ]

  -- An account that is neither the escrow nor a receiver's keeps its balance.
  make_distributions_other :
      (total : ℕ) (ds : List RevenueDistribution) (amount share : ℕ) (ts ts' : Tokens) (a : Pubkey)
      → make_distributions rt s total ds amount share ts ≡ ok ts'
      → a ≢ escrow
      → Apart a ds
      → balance ts' a ≡ balance ts a
  unfolding make_distributions make_distribution
  make_distributions_other total [] amount share ts ts' a e h k = ground arith
  make_distributions_other total (d ∷ ds) amount share ts ts' a e h k =
      elim (Result-cases (make_distribution rt s total d amount share ts)) [
        | inr (f, bad) ↦ ground arith
        | inl (r, paid) ↦ elim (Result-cases (distribute_amount total d.share_bps amount share)) [
          | inr (f, bad) ↦ ground arith
          | inl (n, pays) ↦
              elim (Result-cases (
                transfer_token rt escrow d.revenue_receiver_token_account s.escrow_authority n
                  (some s.escrow_signer_seed) ts)) [
                    | inr (f, bad) ↦ ground arith
                    | inl (ts₁, moved) ↦ ground (
                      arith,
                      transfer_token_other rt tp escrow d.revenue_receiver_token_account
                          s.escrow_authority n (some s.escrow_signer_seed) ts ts₁ a moved h k.0,
                      make_distributions_other total ds r.0 r.1 r.2 ts' a (ground arith) h k.1,
                    )
                  ]
        ]
      ]

  -- The fee, rounded down.
  abbrev fee_of : ℕ → ℕ
  fee_of revenue = revenue * s.global_states.market_fee_rate_bps / 10000

  collect_fees_step :
      (revenue : ℕ) (ts : Tokens) (r : ℕ × Tokens)
      → collect_fees rt s revenue ts ≡ ok r
      → escrow ≢ s.fee_treasury_token_account
      → balance ts escrow ≡ revenue
      → (balance r.1 escrow ≡ r.0)
        × (r.0 + fee_of revenue ≡ revenue)
        × (balance r.1 s.fee_treasury_token_account
            ≡ balance ts s.fee_treasury_token_account + fee_of revenue)
  unfolding collect_fees bps_of
  collect_fees_step revenue ts r e apart held =
      elim (Result-cases (
        transfer_token rt escrow s.fee_treasury_token_account s.escrow_authority (fee_of revenue)
          (some s.escrow_signer_seed) ts)) [
            | inr (f, bad) ↦ ground arith
            | inl (ts', moved) ↦ ground (
              arith,
              transfer_token_from rt tp escrow s.fee_treasury_token_account s.escrow_authority
                  (fee_of revenue) (some s.escrow_signer_seed) ts ts' moved apart,
              transfer_token_to rt tp escrow s.fee_treasury_token_account s.escrow_authority
                  (fee_of revenue) (some s.escrow_signer_seed) ts ts' moved apart,
            )
          ]

  -- When the shares pass the check, the escrow holds the revenue, and the receivers' accounts and
  -- the treasury's are others than the escrow, a distribution that succeeds leaves nothing in the
  -- escrow; if the treasury's is no receiver's account, it is richer by exactly the fee, rounded
  -- down.
  pub distribute_revenue_empties :
      (ts ts' : Tokens)
      → distribute_revenue rt s ts ≡ ok ts'
      → validate_share_configs (distribution_shares s.revenue_distributions) ≡ ok tt
      → balance ts escrow ≡ s.revenue_escrow_amount
      → escrow ≢ s.fee_treasury_token_account
      → Apart escrow s.revenue_distributions
      → (balance ts' escrow ≡ 0)
        × (Apart s.fee_treasury_token_account s.revenue_distributions
            → balance ts' s.fee_treasury_token_account
              ≡ balance ts s.fee_treasury_token_account + fee_of s.revenue_escrow_amount)
  unfolding distribute_revenue
  distribute_revenue_empties ts ts' e valid held apart others =
      elim (Result-cases (collect_fees rt s s.revenue_escrow_amount ts)) [
        | inr (f, bad) ↦ ground arith
        | inl (r, collected) ↦
            let (left, parts, gained) =
              collect_fees_step s.revenue_escrow_amount ts r collected apart held in
            let run : make_distributions rt s r.0 s.revenue_distributions r.0 10000 r.1 ≡ ok ts' =
              ground arith in
            (
              make_distributions_empty r.0 s.revenue_distributions r.0 10000 r.1 ts' run others left
                  (validate_shares_sum _ valid) (λ z. absurd (omega arith)),
              λ alone.
                  make_distributions_other r.0 s.revenue_distributions r.0 10000 r.1 ts'
                    s.fee_treasury_token_account run (λ same. apart (sym same)) alone
                  ∙ gained,
            )
      ]
