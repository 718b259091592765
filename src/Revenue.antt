-- ===== src/Revenue.antt =====
-- common/revenue_distribution_strategy.rs: the check of the share configs, the receivers' accounts and
-- the distribution of an escrow between the fee treasury and the receivers. The check of the accounts
-- and the distribution run over the configs as lists, in order.
pub mod Shares
pub mod Distribution
pub mod Total
pub mod Receivers
pub mod Payments
pub mod Payout
use raffle_auction_audited_c.Prelude.{
  ℕ, ◌*◌, ◌/◌, Bool, true, not, ◌&&◌, some, List, [], ◌∷◌, map, ◌==◌, if◌then◌else◌, length, take,
  drop,
}
use raffle_auction_audited_c.Failures.{JustiesErrorCode, Result, ok, ◌>>=◌, ◌>>◌, fail_if}
use raffle_auction_audited_c.Failures.Checked.{add_u16, mul_u64, sub_u}
use raffle_auction_audited_c.Types.{Pubkey, GlobalStates, RevenueShareConfig, RevenueDistribution}
use raffle_auction_audited_c.Runtime.{
  Runtime, Seed, Tokens, load_token, transfer_token, close_token_account_with_signer,
  create_associated_token_account,
}

-- `.iter().map(share_bps).sum()` of `u16`, which panics when it overflows.
unfoldable pub share_sum_from : ℕ → List ℕ → Result ℕ
share_sum_from acc [] = ok acc
share_sum_from acc (share ∷ shares) = add_u16 acc share >>= λ acc'. share_sum_from acc' shares

-- `validate_share_configs`, over the shares of the configs or of the distributions.
unfoldable pub validate_share_configs : List ℕ → Result (Unit {0})
unfolding share_sum_from
validate_share_configs shares = do
  share_sum ← share_sum_from 0 shares
  fail_if (not (share_sum == 10000)) JustiesErrorCode.invalid_revenue_share_config

abbrev pub config_shares : List RevenueShareConfig → List ℕ
config_shares = map λ c. c.share_bps

abbrev pub distribution_shares : List RevenueDistribution → List ℕ
distribution_shares = map λ d. d.share_bps

-- The test of `validate_revenue_distribution_accounts` over the zipped lists.
unfoldable pub all_match :
    Runtime → Pubkey → List RevenueShareConfig → List Pubkey → List Pubkey → Bool
all_match rt token_mint (c ∷ cs) (wallet ∷ wallets) (account ∷ accounts) =
    c.revenue_receiver == wallet
    && rt.get_associated_token_address wallet token_mint == account
    && all_match rt token_mint cs wallets accounts
all_match rt token_mint _ _ _ = true

unfoldable pub validate_revenue_distribution_accounts :
    Runtime → Pubkey → List RevenueShareConfig → List Pubkey → Result (Unit {0})
unfolding all_match
validate_revenue_distribution_accounts rt token_mint configs accounts = do
  fail_if (not (length configs * 2 == length accounts))
      JustiesErrorCode.revenue_distribution_accounts_doesnt_match
  fail_if
      (not (
        all_match rt token_mint configs (take (length configs) accounts)
          (drop (length configs) accounts)))
      JustiesErrorCode.revenue_distribution_accounts_doesnt_match

-- The loop that creates the receivers' token accounts.
unfoldable pub create_receiver_accounts :
    Runtime → Pubkey → List Pubkey → List Pubkey → Tokens → Result Tokens
create_receiver_accounts rt token_mint (wallet ∷ wallets) (account ∷ accounts) ts =
    create_associated_token_account rt account wallet token_mint ts >>= λ ts'.
    create_receiver_accounts rt token_mint wallets accounts ts'
create_receiver_accounts rt token_mint _ _ ts = ok ts

-- `.zip(…).map(…).collect()`: each receiver's account has to exist as a token account.
unfoldable pub collect_distributions :
    List RevenueShareConfig → List Pubkey → Tokens → Result (List RevenueDistribution)
collect_distributions (c ∷ cs) (account ∷ accounts) ts = do
  _ ← load_token ts account
  rest ← collect_distributions cs accounts ts
  ok (record { revenue_receiver_token_account = account; share_bps = c.share_bps } ∷ rest)
collect_distributions _ _ ts = ok []

-- `init_revenue_distribution_accounts`
unfoldable pub init_revenue_distribution_accounts :
    Runtime
    → Pubkey
    → List RevenueShareConfig
    → List Pubkey
    → Tokens
    → Result (List RevenueDistribution × Tokens)
unfolding validate_revenue_distribution_accounts create_receiver_accounts collect_distributions
init_revenue_distribution_accounts rt token_mint configs accounts ts = do
  validate_revenue_distribution_accounts rt token_mint configs accounts
  let wallets = take (length configs) accounts
  let token_accounts = drop (length configs) accounts
  ts' ← create_receiver_accounts rt token_mint wallets token_accounts ts
  distributions ← collect_distributions configs token_accounts ts'
  ok (distributions, ts')

pub record RevenueDistributionStrategy : Type 0 where
  pub revenue_escrow_token_account : Pubkey
  -- The balance that the escrow's account was loaded with.
  pub revenue_escrow_amount : ℕ
  pub fee_treasury_token_account : Pubkey
  pub global_states : GlobalStates
  pub escrow_authority : Pubkey
  pub escrow_token_account_creator : Pubkey
  pub escrow_signer_seed : List Seed
  pub revenue_distributions : List RevenueDistribution

-- `total * rate / 10000`
unfoldable pub bps_of : ℕ → ℕ → Result ℕ
bps_of total bps = mul_u64 total bps >>= λ product. ok (product / 10000)

-- `collect_fees`: the revenue that is left, and the token accounts.
unfoldable pub collect_fees :
    Runtime → RevenueDistributionStrategy → ℕ → Tokens → Result (ℕ × Tokens)
unfolding bps_of transfer_token
collect_fees rt s total_revenue ts = do
  fee_amount ← bps_of total_revenue s.global_states.market_fee_rate_bps
  ts' ←
      transfer_token rt s.revenue_escrow_token_account s.fee_treasury_token_account
        s.escrow_authority fee_amount (some s.escrow_signer_seed) ts
  remaining ← sub_u total_revenue fee_amount
  ok (remaining, ts')

unfoldable pub distribute_amount : ℕ → ℕ → ℕ → ℕ → Result ℕ
unfolding bps_of
distribute_amount total_amount share_bps remaining_amount remaining_share =
    if remaining_share == share_bps then ok remaining_amount else bps_of total_amount share_bps

-- `make_distribution`: the amount and the share that remain, and the token accounts.
unfoldable pub make_distribution :
    Runtime
    → RevenueDistributionStrategy
    → ℕ
    → RevenueDistribution
    → ℕ
    → ℕ
    → Tokens
    → Result (ℕ × ℕ × Tokens)
unfolding distribute_amount transfer_token
make_distribution rt s total_amount d remaining_amount remaining_share ts = do
  amount ← distribute_amount total_amount d.share_bps remaining_amount remaining_share
  ts' ←
      transfer_token rt s.revenue_escrow_token_account d.revenue_receiver_token_account
        s.escrow_authority amount (some s.escrow_signer_seed) ts
  amount_left ← sub_u remaining_amount amount
  share_left ← sub_u remaining_share d.share_bps
  ok (amount_left, share_left, ts')

unfoldable pub make_distributions :
    Runtime
    → RevenueDistributionStrategy
    → ℕ
    → List RevenueDistribution
    → ℕ
    → ℕ
    → Tokens
    → Result Tokens
make_distributions rt s total_amount [] remaining_amount remaining_share ts = ok ts
make_distributions rt s total_amount (d ∷ ds) remaining_amount remaining_share ts =
    make_distribution rt s total_amount d remaining_amount remaining_share ts >>= λ r.
    make_distributions rt s total_amount ds r.0 r.1 r.2

-- `distribute_revenue`
unfoldable pub distribute_revenue : Runtime → RevenueDistributionStrategy → Tokens → Result Tokens
unfolding collect_fees make_distributions
distribute_revenue rt s ts = do
  fees ← collect_fees rt s s.revenue_escrow_amount ts
  make_distributions rt s fees.0 s.revenue_distributions fees.0 10000 fees.1

-- `RevenueDistributionStrategy::close_revenue_escrow_token_account`
unfoldable pub close_distributed_escrow :
    Runtime → RevenueDistributionStrategy → Tokens → Result Tokens
unfolding close_token_account_with_signer
close_distributed_escrow rt s ts =
    close_token_account_with_signer rt s.revenue_escrow_token_account s.escrow_token_account_creator
      s.escrow_authority s.escrow_signer_seed ts

-- The end of both claim handlers: validate, distribute, close.
unfoldable pub run_distribution : Runtime → RevenueDistributionStrategy → Tokens → Result Tokens
run_distribution rt s ts = do
  validate_share_configs (distribution_shares s.revenue_distributions)
  ts' ← distribute_revenue rt s ts
  close_distributed_escrow rt s ts'
