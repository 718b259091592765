-- ===== src/Raffle/ClaimRemainingRaffleRewards.antt =====
-- raffle/claim_remaining_raffle_rewards.rs: the accounts, the constraints on them and the handler.
use raffle_auction_audited_c.Prelude.{ℕ, ◌==◌}
use raffle_auction_audited_c.Failures.{JustiesErrorCode, Result, ◌>>=◌, ◌>>◌, constraint}
use raffle_auction_audited_c.Types.{Pubkey, GlobalStates, Raffle}
use raffle_auction_audited_c.Runtime.{
  Runtime, Tokens, TokenAccount, load_token, require_pda, require_pda_bump, require_token,
  init_associated_if_needed,
}
use raffle_auction_audited_c.Auction.Seeds.{global_states_seeds}
use raffle_auction_audited_c.Raffle.Seeds.{raffle_seeds, rewards_escrow_seeds}
use raffle_auction_audited_c.Raffle.Strategy.{
  new_raffle_strategy, num_remaining_rewards, validate_claim_remaining_rewards, transfer_rewards,
  try_close_rewards_escrow_nft_account,
}

pub record ClaimRemainingRaffleRewards : Type 0 where
  pub raffle_key : Pubkey
  pub raffle : Raffle
  pub creator : Pubkey
  pub nft_mint : Pubkey
  pub rewards_escrow_nft_account : Pubkey
  pub creator_nft_account : Pubkey
  pub global_states_key : Pubkey
  pub global_states : GlobalStates

unfoldable pub claim_remaining_constraints :
    Runtime → ClaimRemainingRaffleRewards → ℕ → TokenAccount → Result (Unit {0})
claim_remaining_constraints rt a raffle_id rewards_escrow = do
  require_pda_bump rt (raffle_seeds raffle_id) a.raffle.bump a.raffle_key
  constraint (a.raffle.creator == a.creator) JustiesErrorCode.not_raffle_creator
  constraint (a.raffle.nft_mint_address == a.nft_mint) JustiesErrorCode.nft_mint_address_mismatch
  require_pda rt (rewards_escrow_seeds a.raffle_key) a.rewards_escrow_nft_account
  require_token a.nft_mint a.raffle_key rewards_escrow
  require_pda_bump rt global_states_seeds a.global_states.bump a.global_states_key

-- The raffle account is not writable here: only token accounts change.
unfoldable pub claim_remaining_raffle_rewards_handler :
    Runtime → ClaimRemainingRaffleRewards → ℕ → Tokens → Result Tokens
claim_remaining_raffle_rewards_handler rt a raffle_id ts = do
  rewards_escrow ← load_token ts a.rewards_escrow_nft_account
  ts₁ ← init_associated_if_needed rt a.creator_nft_account a.nft_mint a.creator ts
  claim_remaining_constraints rt a raffle_id rewards_escrow
  let strategy = new_raffle_strategy a.raffle_key a.raffle a.global_states
  validate_claim_remaining_rewards strategy
  remaining ← num_remaining_rewards strategy
  ts₂ ←
      transfer_rewards rt strategy a.rewards_escrow_nft_account a.creator_nft_account remaining ts₁
  try_close_rewards_escrow_nft_account rt strategy a.rewards_escrow_nft_account a.creator ts₂
