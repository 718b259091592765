-- ===== src/Revenue/Payments.antt =====
-- Whom make_distribution of common/revenue_distribution_strategy.rs pays how much, against the amounts
-- that the shares are worth.
use raffle_auction_audited_c.Prelude.{
  ℕ, ◌+◌, ◌-◌, ◌*◌, ◌/◌, ◌≡◌, refl, ◌≢◌, inl, inr, false, Option, some, List, [], ◌∷◌, arith, ◌==◌,
  if◌then◌else◌, ==_iff, Bool-cases, sum,
}
use raffle_auction_audited_c.Failures.{bind_ok, ok_inj, ok}
use raffle_auction_audited_c.Failures.Checked.{sub_u}
use raffle_auction_audited_c.Types.{Pubkey, RevenueDistribution}
use raffle_auction_audited_c.Runtime.{
  Seed, Tokens, Runtime, balance, IsTokenProgram, transfer_token,
}
use raffle_auction_audited_c.Runtime.Transfers.{transfer_token_to, transfer_token_other}
use raffle_auction_audited_c.Revenue.{
  distribution_shares, RevenueDistributionStrategy, bps_of, distribute_amount, make_distribution,
  make_distributions,
}
use raffle_auction_audited_c.Revenue.Distribution.{Apart}

-- The amounts that are due: to each receiver its share of the total, rounded down, and all that is left to
-- the one after whom no share is left.
unfoldable pub payments : ℕ → ℕ → List RevenueDistribution → List ℕ
payments total left [] = []
payments total left (d ∷ ds) =
    let n = if sum (distribution_shares ds) == 0 then left else total * d.share_bps / 10000 in
    n ∷ payments total (left - n) ds

-- What an account gets of amounts that are paid to the receivers in order.
unfoldable pub received : Pubkey → List RevenueDistribution → List ℕ → ℕ
received a (d ∷ ds) (n ∷ ns) =
    (if a == d.revenue_receiver_token_account then n else 0) + received a ds ns
received a [] ns = 0
received a (d ∷ ds) [] = 0

amount_due :
    (total bps amount share rest paid : ℕ)
    → distribute_amount total bps amount share ≡ ok paid
    → bps + rest ≡ share
    → paid ≡ (if rest == 0 then amount else total * bps / 10000)
unfolding distribute_amount bps_of
amount_due total bps amount share rest paid e h = ground arith

eq_false : (a b : ℕ) → (a == b) ≡ false → a ≢ b
eq_false a b e = λ i. absurd (ground arith)

nothing_left :
    (rest amount n m : ℕ) → n ≡ (if rest == 0 then amount else m) → rest ≡ 0 → amount - n ≡ 0
nothing_left rest amount n m e z = ground arith

module _ (rt : Runtime) (tp : IsTokenProgram rt) where
  -- A transfer seen from an account other than the source.
  pub transfer_gain :
      (from to auth : Pubkey) (n : ℕ) (s : Option (List Seed)) (ts ts' : Tokens) (a : Pubkey)
      → transfer_token rt from to auth n s ts ≡ ok ts'
      → from ≢ to
      → a ≢ from
      → balance ts' a ≡ balance ts a + (if a == to then n else 0)
  transfer_gain from to auth n s ts ts' a e apart h = elim (Bool-cases (a == to)) [
    | inl same ↦
        rw (same, (==_iff a to).0 same) (transfer_token_to rt tp from to auth n s ts ts' e apart)
    | inr other ↦ rw (other) (
        omega
          (arith, transfer_token_other rt tp from to auth n s ts ts' a e h (eq_false a to other)))
  ]

  module _ (s : RevenueDistributionStrategy) where
    abbrev from_escrow : Pubkey
    from_escrow = s.revenue_escrow_token_account

    -- One round pays the amount that is due.
    make_distribution_pays :
        (total : ℕ) (d : RevenueDistribution) (amount share rest : ℕ) (ts : Tokens)
        (r : ℕ × ℕ × Tokens)
        → make_distribution rt s total d amount share ts ≡ ok r
        → d.share_bps + rest ≡ share
        → from_escrow ≢ d.revenue_receiver_token_account
        → let n = if rest == 0 then amount else total * d.share_bps / 10000 in
          (r.0 + n ≡ amount)
          × (r.1 ≡ rest)
          × ((a : Pubkey)
              → a ≢ from_escrow
              → balance r.2 a
                ≡ balance ts a + (if a == d.revenue_receiver_token_account then n else 0))
    unfolding make_distribution
    make_distribution_pays total d amount share rest ts r e h apart =
        let to = d.revenue_receiver_token_account in
        bind_ok (distribute_amount total d.share_bps amount share) e λ n pays e₁.
          bind_ok
            (transfer_token rt from_escrow to s.escrow_authority n (some s.escrow_signer_seed) ts)
            e₁
            λ ts' moved e₂. bind_ok (sub_u amount n) e₂ λ left subtracted e₃.
              bind_ok (sub_u share d.share_bps) e₃ λ shares_left shared e₄.
                rw (← ok_inj e₄, ← amount_due total d.share_bps amount share rest n pays h)
                  (
                    ground arith,
                    ground arith,
                    λ a other.
                        transfer_gain from_escrow to s.escrow_authority n
                          (some s.escrow_signer_seed) ts ts' a moved apart other,
                  )

    -- The loop pays every receiver what is due, and pays out the whole amount.
    pub make_distributions_pay :
        (total : ℕ) (ds : List RevenueDistribution) (amount share : ℕ) (ts ts' : Tokens)
        → make_distributions rt s total ds amount share ts ≡ ok ts'
        → Apart from_escrow ds
        → sum (distribution_shares ds) ≡ share
        → (share ≡ 0 → amount ≡ 0)
        → (sum (payments total amount ds) ≡ amount)
          × ((a : Pubkey)
              → a ≢ from_escrow
              → balance ts' a ≡ balance ts a + received a ds (payments total amount ds))
    unfolding make_distributions payments received sum
    make_distributions_pay total [] amount share ts ts' e apart h spent =
        (ground arith, λ a other. ground arith)
    make_distributions_pay total (d ∷ ds) amount share ts ts' e apart h spent =
        let rest = sum (distribution_shares ds) in
        let n = if rest == 0 then amount else total * d.share_bps / 10000 in
        bind_ok (make_distribution rt s total d amount share ts) e λ r paid e₁.
          let (left, shared, gains) =
            make_distribution_pays total d amount share rest ts r paid h apart.0 in
          let left' : r.0 ≡ amount - n = omega arith in
          let (whole, later) =
            make_distributions_pay total ds (amount - n) rest r.2 ts' (rw (← left', ← shared) e₁)
              apart.1 refl (λ z. nothing_left rest amount n (total * d.share_bps / 10000) refl z) in
          (omega arith, λ a other. omega (arith, later a other, gains a other))
