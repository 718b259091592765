-- ===== src/Raffle/Rewards.antt =====
-- How NFTs leave the rewards escrow: transfer_rewards and try_close_rewards_escrow_nft_account of
-- common/raffle_strategy.rs.
use raffle_auction_audited_c.Prelude.{
  ℕ, ◌+◌, ◌≡◌, refl, sym, ap, ◌∙◌, ◌≢◌, ◌⊎◌, inl, inr, Bool, true, false, not, none, some, List,
  arith, ◌==◌, if◌then◌else◌, ==_iff, Bool-cases,
}
use raffle_auction_audited_c.Failures.{JustiesErrorCode, Result, fail_if, bind_ok, ok}
use raffle_auction_audited_c.Types.{Pubkey}
use raffle_auction_audited_c.Runtime.{
  Seed, Tokens, Runtime, balance, IsTokenProgram, load_token, close_token_account_with_signer,
  init_associated_if_needed,
}
use raffle_auction_audited_c.Runtime.Transfers.{
  transfer_token_from, transfer_token_to, close_was_empty, close_removes, close_keeps,
  init_associated_keeps,
}
use raffle_auction_audited_c.Raffle.Strategy.{
  RaffleStrategy, is_raffle_made, validate_claim, get_raffle_signer_seed, transfer_rewards,
  try_close_rewards_escrow_nft_account,
}

pub made_check : (b : Bool) (c : JustiesErrorCode) → fail_if (not b) c ≡ ok tt → b ≡ true
made_check true c e = refl
made_check false c e = cc

pub validate_claim_made :
    (s : RaffleStrategy) (id : ℕ) → validate_claim s id ≡ ok tt → is_raffle_made s ≡ true
unfolding validate_claim
validate_claim_made s id e =
    bind_ok (fail_if (not (is_raffle_made s)) JustiesErrorCode.raffle_not_made) e
      λ _ made _. made_check _ _ made

-- Either nothing was closed, or it was closed.
stays_or_closes :
    (b : Bool) (ts ts' : Tokens) (m : Result Tokens)
    → (if b then ok ts else m) ≡ ok ts'
    → (ts ≡ ts') ⊎ (m ≡ ok ts')
stays_or_closes true ts ts' m e = inl cc
stays_or_closes false ts ts' m e = inr e

removed_balance : (ts : Tokens) (a : Pubkey) → ts a ≡ none → balance ts a ≡ 0
removed_balance ts a e = rw (e) refl

-- NFTs that move out of the rewards escrow, whether it is closed afterwards or not.
pub record Moved (ts : Tokens) (escrow target : Pubkey) (n : ℕ) (ts' : Tokens) : Type 0 where
  pub taken : balance ts' escrow + n ≡ balance ts escrow
  pub given : balance ts' target ≡ balance ts target + n

module _ (rt : Runtime) (tp : IsTokenProgram rt) where
  -- Closing an empty account changes no balance, its own included.
  pub close_balance :
      (a dest auth : Pubkey) (seeds : List Seed) (ts ts' : Tokens) (b : Pubkey)
      → close_token_account_with_signer rt a dest auth seeds ts ≡ ok ts'
      → balance ts' b ≡ balance ts b
  close_balance a dest auth seeds ts ts' b e = elim (Bool-cases (b == a)) [
    | inl same ↦ rw ((==_iff b a).0 same) (
        removed_balance ts' a (close_removes rt tp a dest auth seeds ts ts' e)
        ∙ sym (close_was_empty rt tp a dest auth seeds ts ts' e))
    | inr other ↦ close_keeps rt tp a dest auth seeds ts ts' b e (λ same. ground arith)
  ]

  pub try_close_keeps :
      (s : RaffleStrategy) (escrow dest : Pubkey) (ts ts' : Tokens) (b : Pubkey)
      → try_close_rewards_escrow_nft_account rt s escrow dest ts ≡ ok ts'
      → balance ts' b ≡ balance ts b
  unfolding try_close_rewards_escrow_nft_account
  try_close_keeps s escrow dest ts ts' b e = bind_ok (load_token ts escrow) e λ reloaded loaded e₁.
      elim (stays_or_closes _ ts ts' _ e₁) [
        | inl same ↦ ap (λ (t : Tokens). balance t b) (sym same)
        | inr closed ↦
            close_balance escrow dest s.raffle_key (get_raffle_signer_seed s) ts ts' b closed
      ]

  pub rewards-Moved :
      (s : RaffleStrategy) (escrow target dest mint auth : Pubkey) (n : ℕ) (ts ts₁ ts₂ ts' : Tokens)
      → init_associated_if_needed rt target mint auth ts ≡ ok ts₁
      → transfer_rewards rt s escrow target n ts₁ ≡ ok ts₂
      → try_close_rewards_escrow_nft_account rt s escrow dest ts₂ ≡ ok ts'
      → escrow ≢ target
      → Moved ts escrow target n ts'
  unfolding transfer_rewards
  rewards-Moved s escrow target dest mint auth n ts ts₁ ts₂ ts' created moved closed apart =
      let seeds = some (get_raffle_signer_seed s) in
      let keeps : (b : Pubkey) → balance ts₁ b ≡ balance ts b =
        λ b. init_associated_keeps rt tp target mint auth ts ts₁ b created in
      let closes : (b : Pubkey) → balance ts' b ≡ balance ts₂ b =
        λ b. try_close_keeps s escrow dest ts₂ ts' b closed in
      record {
        taken = omega (
          arith,
          closes escrow,
          keeps escrow,
          transfer_token_from rt tp escrow target s.raffle_key n seeds ts₁ ts₂ moved apart,
        );
        given = omega (
          arith,
          closes target,
          keeps target,
          transfer_token_to rt tp escrow target s.raffle_key n seeds ts₁ ts₂ moved apart,
        );
      }
