-- ===== src/Tests/Money.antt =====
-- Runs of the distribution of revenue.
use raffle_auction_audited_c.Prelude.{
  ℕ, ◌+◌, ◌-◌, ◌*◌, ◌/◌, ◌≤◌, ◌≡◌, refl, ◌≢◌, ◌↔◌, inl, inr, some, List, [], ◌∷◌, arith, ◌==◌,
  le→leb, ==_ne, Bool-cases, sum,
}
use raffle_auction_audited_c.Failures.{ok}
use raffle_auction_audited_c.Types.{Pubkey, RevenueDistribution}
use raffle_auction_audited_c.Runtime.{
  TokenAccount, Tokens, balance, transfer_token, create_associated_token_account,
}
use raffle_auction_audited_c.Example.{write, moved, runtime, runtime-IsTokenProgram}
use raffle_auction_audited_c.Revenue.{
  share_sum_from, validate_share_configs, distribution_shares, all_match,
  validate_revenue_distribution_accounts, create_receiver_accounts, collect_distributions,
  init_revenue_distribution_accounts, RevenueDistributionStrategy, bps_of, collect_fees,
  distribute_amount, make_distribution, make_distributions, distribute_revenue,
}
use raffle_auction_audited_c.Revenue.Distribution.{Apart, distribute_revenue_empties}
use raffle_auction_audited_c.Revenue.Receivers.{distributions_of, distributions_configured}
use raffle_auction_audited_c.Revenue.Shares.{validate_share_configs_iff}
use raffle_auction_audited_c.Revenue.Total.{Pays, Accepts, distribute_revenue_total}
use raffle_auction_audited_c.Tests.Market.{
  got, tokens_of, holding, currency, treasury, associated, states, shares,
}

abbrev escrow_key : Pubkey
escrow_key = 900

-- A revenue of 2000 at a fee of 5%.
abbrev distribution : RevenueDistributionStrategy
distribution = record {
  revenue_escrow_token_account = escrow_key;
  revenue_escrow_amount = 2000;
  fee_treasury_token_account = associated treasury currency;
  global_states = states;
  escrow_authority = 901;
  escrow_token_account_creator = 14;
  escrow_signer_seed = [];
  revenue_distributions = distributions_of runtime currency shares;
}

abbrev distribution_tokens : Tokens
distribution_tokens = tokens_of (
    (escrow_key, holding currency 901 2000)
    ∷ (associated treasury currency, holding currency treasury 7)
    ∷ (associated 31 currency, holding currency 31 0)
    ∷ (associated 32 currency, holding currency 32 0)
    ∷ [])

abbrev distributed : Tokens
distributed = got (distribute_revenue runtime distribution distribution_tokens) distribution_tokens

distribute_run : distribute_revenue runtime distribution distribution_tokens ≡ ok distributed
unfolding bps_of collect_fees distribute_amount distribute_revenue make_distribution
    make_distributions transfer_token
distribute_run = refl

shares_valid :
    validate_share_configs (distribution_shares distribution.revenue_distributions) ≡ ok tt
unfolding share_sum_from validate_share_configs
shares_valid = refl

distribute_revenue_empties_example :
    (balance distributed escrow_key ≡ 0)
    × (Apart distribution.fee_treasury_token_account distribution.revenue_distributions
        → balance distributed distribution.fee_treasury_token_account
          ≡ balance distribution_tokens distribution.fee_treasury_token_account
            + distribution.revenue_escrow_amount * distribution.global_states.market_fee_rate_bps
              / 10000)
distribute_revenue_empties_example =
    distribute_revenue_empties runtime runtime-IsTokenProgram distribution distribution_tokens
      distributed distribute_run shares_valid refl (λ e. omega arith)
      ((λ e. omega arith), ((λ e. omega arith), tt))

abbrev IsOpen : Tokens → Pubkey → Type 0
IsOpen ts a = (t : TokenAccount) × (ts a ≡ some t)

-- The four accounts of the distribution are open.
abbrev Ready : Tokens → Type 0
Ready ts =
    IsOpen ts escrow_key
    × IsOpen ts (associated treasury currency)
    × IsOpen ts (associated 31 currency)
    × IsOpen ts (associated 32 currency)

write-IsOpen :
    (ts : Tokens) (b : Pubkey) (v : TokenAccount) (a : Pubkey)
    → IsOpen ts a
    → IsOpen (write ts b (some v)) a
write-IsOpen ts b v a (t, at) = elim (Bool-cases (a == b)) [
  | inl same ↦ (v, rw (same) refl)
  | inr other ↦ (t, rw (other) at)
]

moved-Ready :
    (to : Pubkey) (n : ℕ) (f t : TokenAccount) (ts : Tokens)
    → Ready ts
    → Ready (moved escrow_key to n f t ts)
moved-Ready to n f t ts (e, fee, first, second) =
    let step = λ (a : Pubkey) (is_open : IsOpen ts a).
      write-IsOpen (write ts escrow_key (some (record f { amount = f.amount - n }))) to
        (record t { amount = t.amount + n }) a
        (write-IsOpen ts escrow_key (record f { amount = f.amount - n }) a is_open) in
    (step _ e, step _ fee, step _ first, step _ second)

open-Pays :
    (to : Pubkey)
    → escrow_key ≢ to
    → ((ts : Tokens) → Ready ts → IsOpen ts to)
    → Pays runtime distribution Ready to
open-Pays to apart is_open n ts ready covered =
    let (f, at_from) = ready.0 in
    let (t, at_to) = is_open ts ready in
    let enough : n ≤ f.amount = rw (at_from) at covered in
    (
      moved escrow_key to n f t ts,
      rw (at_from, at_to, le→leb n f.amount enough, ==_ne escrow_key to apart) refl,
      moved-Ready to n f t ts ready,
    )

Ready-Accepts : Accepts runtime distribution Ready
Ready-Accepts = record {
  treasury = open-Pays _ (λ e. omega arith) (λ ts ready. ready.1);
  receivers = (
    open-Pays _ (λ e. omega arith) (λ ts ready. ready.2),
    (open-Pays _ (λ e. omega arith) (λ ts ready. ready.3), tt),
  );
}

distribution_tokens-Ready : Ready distribution_tokens
distribution_tokens-Ready = ((_, refl), (_, refl), (_, refl), (_, refl))

distribute_revenue_total_example :
    (ts' : Tokens) × (distribute_revenue runtime distribution distribution_tokens ≡ ok ts')
    × Ready ts'
distribute_revenue_total_example =
    distribute_revenue_total runtime runtime-IsTokenProgram distribution Ready Ready-Accepts
      distribution_tokens distribution_tokens-Ready shares_valid refl (λ e. omega arith)
      ((λ e. omega arith), ((λ e. omega arith), tt)) (omega arith) (omega arith)

validate_share_configs_iff_example :
    (validate_share_configs (6000 ∷ 4000 ∷ []) ≡ ok tt) ↔ (sum (6000 ∷ 4000 ∷ []) ≡ 10000)
validate_share_configs_iff_example = validate_share_configs_iff (6000 ∷ 4000 ∷ [])

abbrev receiver_accounts : List Pubkey
receiver_accounts = 31 ∷ 32 ∷ associated 31 currency ∷ associated 32 currency ∷ []

abbrev readied : List RevenueDistribution × Tokens
readied =
    got
      (init_revenue_distribution_accounts runtime currency shares receiver_accounts
        distribution_tokens)
      ([], distribution_tokens)

ready_run :
    init_revenue_distribution_accounts runtime currency shares receiver_accounts distribution_tokens
    ≡ ok (readied.0, readied.1)
unfolding all_match collect_distributions create_associated_token_account create_receiver_accounts
    init_revenue_distribution_accounts validate_revenue_distribution_accounts
ready_run = refl

distributions_configured_example :
    (readied.0 ≡ distributions_of runtime currency shares)
    × ((b : Pubkey) → balance readied.1 b ≡ balance distribution_tokens b)
distributions_configured_example =
    distributions_configured runtime runtime-IsTokenProgram currency shares receiver_accounts
      distribution_tokens readied.0 readied.1 ready_run
