-- ===== src/Raffle/ClaimRaffleReward.antt =====
-- raffle/claim_raffle_reward.rs: the accounts, the constraints on them and the handler.
use raffle_auction_audited_c.Prelude.{ℕ, ◌==◌}
use raffle_auction_audited_c.Failures.{JustiesErrorCode, Result, ok, ◌>>=◌, ◌>>◌, constraint}
use raffle_auction_audited_c.Types.{Pubkey, GlobalStates, Raffle, RaffleTicketPosition}
use raffle_auction_audited_c.Runtime.{
  Runtime, Tokens, load_token, require_pda, require_pda_bump, init_associated_if_needed,
}
use raffle_auction_audited_c.Auction.Seeds.{global_states_seeds}
use raffle_auction_audited_c.Raffle.Seeds.{
  raffle_seeds, rewards_escrow_seeds, ticket_position_seeds,
}
use raffle_auction_audited_c.Raffle.Strategy.{
  new_raffle_strategy, validate_claim, claim_reward, transfer_rewards,
  try_close_rewards_escrow_nft_account,
}

pub record ClaimRaffleReward : Type 0 where
  pub raffle_key : Pubkey
  pub raffle : Raffle
  pub global_states_key : Pubkey
  pub global_states : GlobalStates
  pub claimer : Pubkey
  pub ticket_position_key : Pubkey
  pub ticket_position : RaffleTicketPosition
  pub rewards_escrow_nft_account : Pubkey
  pub claimer_nft_account : Pubkey
  pub nft_mint : Pubkey
  pub creator : Pubkey

unfoldable pub claim_raffle_reward_constraints : Runtime → ClaimRaffleReward → ℕ → Result (Unit {0})
claim_raffle_reward_constraints rt a raffle_id = do
  require_pda_bump rt (raffle_seeds raffle_id) a.raffle.bump a.raffle_key
  require_pda_bump rt global_states_seeds a.global_states.bump a.global_states_key
  require_pda_bump rt (ticket_position_seeds a.raffle_key a.claimer) a.ticket_position.bump
      a.ticket_position_key
  constraint (a.ticket_position.buyer == a.claimer)
      JustiesErrorCode.inconsistent_raffle_ticket_position
  require_pda rt (rewards_escrow_seeds a.raffle_key) a.rewards_escrow_nft_account
  constraint (a.nft_mint == a.raffle.nft_mint_address) JustiesErrorCode.invalid_nft_mint
  constraint (a.creator == a.raffle.creator) JustiesErrorCode.not_raffle_creator

unfoldable pub claim_raffle_reward_handler :
    Runtime → ClaimRaffleReward → ℕ → Tokens → Result (Raffle × Tokens)
claim_raffle_reward_handler rt a raffle_id ts = do
  _ ← load_token ts a.rewards_escrow_nft_account
  ts₁ ← init_associated_if_needed rt a.claimer_nft_account a.nft_mint a.claimer ts
  claim_raffle_reward_constraints rt a raffle_id
  let strategy = new_raffle_strategy a.raffle_key a.raffle a.global_states
  validate_claim strategy a.ticket_position.id
  claimed ← claim_reward strategy a.ticket_position.id
  ts₂ ← transfer_rewards rt claimed a.rewards_escrow_nft_account a.claimer_nft_account 1 ts₁
  ts₃ ← try_close_rewards_escrow_nft_account rt claimed a.rewards_escrow_nft_account a.creator ts₂
  ok (claimed.raffle, ts₃)
