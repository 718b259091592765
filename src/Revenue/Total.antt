-- ===== src/Revenue/Total.antt =====
-- distribute_revenue of common/revenue_distribution_strategy.rs succeeds: its subtractions do not fall
-- below zero and the escrow covers each transfer, so that only a product of more than 64 bits stops it.
use raffle_auction_audited_c.Prelude.{
  ℕ, ◌+◌, ◌-◌, ◌*◌, ◌/◌, ◌≤◌, ◌≡◌, refl, sym, ap, ◌∙◌, ◌≢◌, inl, inr, true, some, List, [], ◌∷◌,
  arith, leb, ◌==◌, le→leb, Bool-cases, sum, All,
}
use raffle_auction_audited_c.Failures.{ok}
use raffle_auction_audited_c.Failures.Checked.{u64_max}
use raffle_auction_audited_c.Types.{Pubkey, RevenueDistribution}
use raffle_auction_audited_c.Runtime.{Tokens, Runtime, balance, IsTokenProgram, transfer_token}
use raffle_auction_audited_c.Runtime.Transfers.{transfer_token_from}
use raffle_auction_audited_c.Revenue.{
  validate_share_configs, distribution_shares, RevenueDistributionStrategy, bps_of, collect_fees,
  distribute_amount, make_distribution, make_distributions, distribute_revenue,
}
use raffle_auction_audited_c.Revenue.Distribution.{Apart}
use raffle_auction_audited_c.Revenue.Shares.{validate_shares_sum}

-- In a state `Ready` (say, that the accounts concerned are open and of one mint), the token program
-- accepts each transfer out of the escrow to the account that the balance covers, and stays `Ready`.
abbrev pub Pays : Runtime → RevenueDistributionStrategy → (Tokens → Type 0) → Pubkey → Type 0
Pays rt s Ready to =
    (n : ℕ) (ts : Tokens)
    → Ready ts
    → n ≤ balance ts s.revenue_escrow_token_account
    → (ts' : Tokens) × (rt.transfer (some s.escrow_signer_seed) s.revenue_escrow_token_account to
          s.escrow_authority n ts
        ≡ ok ts')
      × Ready ts'

-- It does so for the accounts that the distribution pays.
pub record Accepts (rt : Runtime) (s : RevenueDistributionStrategy) (Ready : Tokens → Type 0)
    : Type 0 where
  pub treasury : Pays rt s Ready s.fee_treasury_token_account
  pub receivers :
      All (λ d. Pays rt s Ready d.revenue_receiver_token_account) s.revenue_distributions

module _ (rt : Runtime) (tp : IsTokenProgram rt) (s : RevenueDistributionStrategy)
    (Ready : Tokens → Type 0) (accepts : Accepts rt s Ready) where
  abbrev escrow : Pubkey
  escrow = s.revenue_escrow_token_account

  pay :
      (to : Pubkey) (n : ℕ) (ts : Tokens)
      → Pays rt s Ready to
      → Ready ts
      → n ≤ balance ts escrow
      → (ts' : Tokens) × (transfer_token rt escrow to s.escrow_authority n
            (some s.escrow_signer_seed)
            ts
          ≡ ok ts')
        × Ready ts'
  unfolding transfer_token
  pay to n ts pays ready covered = elim (Bool-cases (n == 0)) [
    | inl z ↦ (ts, rw z, ready)
    | inr nz ↦ let (ts', paid, ready') = pays n ts ready covered in (ts', rw nz paid, ready')
  ]

  -- The amount of one distribution is covered, and what is left covers the shares that are left.
  amount_covered :
      (total bps amount share rest : ℕ)
      → share ≡ bps + rest
      → total * share ≤ amount * 10000
      → total * 10000 ≤ u64_max
      → share ≤ 10000
      → (n : ℕ) × (distribute_amount total bps amount share ≡ ok n)
        × (n ≤ amount)
        × (total * rest ≤ (amount - n) * 10000)
  unfolding distribute_amount bps_of
  amount_covered total bps amount share rest e cover small le = elim (Bool-cases (share == bps)) [
    | inl all ↦
        let last : rest ≡ 0 = ground arith in
        let none_left : total * rest ≡ 0 = rw last (omega arith) in
        (amount, rw all, omega arith, omega arith)
    | inr part ↦
        let split : total * share ≡ total * bps + total * rest =
          ap (λ (t : ℕ). total * t) e ∙ omega arith in
        let bound : total * share ≤ total * 10000 = grind arith in
        let fits : leb (total * bps) u64_max ≡ true = le→leb _ _ (omega arith) in
        (total * bps / 10000, rw (part, fits) refl, omega arith, omega arith)
  ]

  -- One round of the loop, given that the later rounds succeed from where it ends.
  step :
      (total : ℕ) (d : RevenueDistribution) (ds : List RevenueDistribution) (amount share rest : ℕ)
      (ts : Tokens) (n : ℕ)
      → Pays rt s Ready d.revenue_receiver_token_account
      → Ready ts
      → Apart escrow (d ∷ ds)
      → balance ts escrow ≡ amount
      → d.share_bps + rest ≡ share
      → distribute_amount total d.share_bps amount share ≡ ok n
      → n ≤ amount
      → ((ts₁ : Tokens)
          → Ready ts₁
          → balance ts₁ escrow ≡ amount - n
          → (ts' : Tokens) × (make_distributions rt s total ds (amount - n) rest ts₁ ≡ ok ts')
            × Ready ts')
      → (ts' : Tokens) × (make_distributions rt s total (d ∷ ds) amount share ts ≡ ok ts')
        × Ready ts'
  unfolding make_distributions make_distribution
  step total d ds amount share rest ts n accepted ready apart held summed pays enough later =
      let (ts₁, paid, ready₁) =
        pay d.revenue_receiver_token_account n ts accepted ready (omega arith) in
      let left : balance ts₁ escrow ≡ amount - n = omega (
        arith,
        transfer_token_from rt tp escrow d.revenue_receiver_token_account s.escrow_authority n
            (some s.escrow_signer_seed) ts ts₁ paid apart.0,
      ) in
      let (ts', runs, ready') = later ts₁ ready₁ left in
      let shared : share - d.share_bps ≡ rest = omega arith in
      (
        ts',
        rw (pays, paid, le→leb n amount enough, le→leb d.share_bps share (omega arith), shared)
            runs,
        ready',
      )

  make_distributions_total :
      (total : ℕ) (ds : List RevenueDistribution) (amount share : ℕ) (ts : Tokens)
      → All (λ d. Pays rt s Ready d.revenue_receiver_token_account) ds
      → Ready ts
      → Apart escrow ds
      → balance ts escrow ≡ amount
      → sum (distribution_shares ds) ≡ share
      → total * share ≤ amount * 10000
      → total * 10000 ≤ u64_max
      → share ≤ 10000
      → (ts' : Tokens) × (make_distributions rt s total ds amount share ts ≡ ok ts') × Ready ts'
  unfolding make_distributions make_distribution sum
  make_distributions_total total [] amount share ts accepted ready apart held summed cover small
        le =
      (ts, refl, ready)
  make_distributions_total total (d ∷ ds) amount share ts accepted ready apart held summed cover
        small le =
      let rest = sum (distribution_shares ds) in
      let (n, pays, enough, covers) =
        amount_covered total d.share_bps amount share rest (sym summed) cover small le in
      step total d ds amount share rest ts n accepted.0 ready apart held summed pays enough
        (λ ts₁ ready₁ left.
          make_distributions_total total ds (amount - n) rest ts₁ accepted.1 ready₁ apart.1 left
            refl covers small (omega arith))

  -- Let the token program, in states that are ready, accept each transfer out of the escrow to the
  -- treasury's account or to a receiver's that the balance covers, and stay ready. From a ready state a
  -- distribution then succeeds, and ends in one, when the shares pass the check, the escrow holds the
  -- revenue, the receivers' accounts and the treasury's are others than the escrow, 10000 times the
  -- revenue fits 64 bits and the fee rate is at most 100%.
  pub distribute_revenue_total :
      (ts : Tokens)
      → Ready ts
      → validate_share_configs (distribution_shares s.revenue_distributions) ≡ ok tt
      → balance ts escrow ≡ s.revenue_escrow_amount
      → escrow ≢ s.fee_treasury_token_account
      → Apart escrow s.revenue_distributions
      → s.revenue_escrow_amount * 10000 ≤ u64_max
      → s.global_states.market_fee_rate_bps ≤ 10000
      → (ts' : Tokens) × (distribute_revenue rt s ts ≡ ok ts') × Ready ts'
  unfolding distribute_revenue collect_fees bps_of
  distribute_revenue_total ts ready valid held apart others small rate =
      let revenue = s.revenue_escrow_amount in
      let bps = s.global_states.market_fee_rate_bps in
      let product : revenue * bps ≤ revenue * 10000 = grind arith in
      let fee = revenue * bps / 10000 in
      let (ts₁, paid, ready₁) =
        pay s.fee_treasury_token_account fee ts accepts.treasury ready (omega arith) in
      let left : balance ts₁ escrow ≡ revenue - fee = omega (
        arith,
        transfer_token_from rt tp escrow s.fee_treasury_token_account s.escrow_authority fee
            (some s.escrow_signer_seed) ts ts₁ paid apart,
      ) in
      let (ts', runs, ready') =
        make_distributions_total (revenue - fee) s.revenue_distributions (revenue - fee) 10000 ts₁
          accepts.receivers ready₁ others left (validate_shares_sum _ valid) (omega arith)
          (omega arith) (omega arith) in
      (
        ts',
        rw (le→leb (revenue * bps) u64_max (omega arith), paid, le→leb fee revenue (omega arith))
            runs,
        ready',
      )
