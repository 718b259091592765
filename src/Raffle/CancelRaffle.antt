-- ===== src/Raffle/CancelRaffle.antt =====
-- raffle/cancel_raffle.rs: the accounts, the constraints on them and the handler.
use raffle_auction_audited_c.Prelude.{ℕ, ◌==◌}
use raffle_auction_audited_c.Failures.{JustiesErrorCode, Result, ok, ◌>>=◌, ◌>>◌, constraint}
use raffle_auction_audited_c.Types.{Pubkey, GlobalStates, Raffle}
use raffle_auction_audited_c.Runtime.{
  Runtime, Tokens, TokenAccount, load_token, require_pda, require_pda_bump, require_token,
  init_associated_if_needed,
}
use raffle_auction_audited_c.Auction.Seeds.{global_states_seeds}
use raffle_auction_audited_c.Raffle.Seeds.{raffle_seeds, rewards_escrow_seeds, revenue_escrow_seeds}
use raffle_auction_audited_c.Raffle.Strategy.{
  new_raffle_strategy, num_remaining_rewards, cancel, transfer_rewards,
  try_close_rewards_escrow_nft_account, close_revenue_escrow_token_account,
}

pub record CancelRaffle : Type 0 where
  pub raffle_key : Pubkey
  pub raffle : Raffle
  pub creator : Pubkey
  pub nft_mint : Pubkey
  pub currency_token_mint : Pubkey
  pub rewards_escrow_nft_account : Pubkey
  pub revenue_escrow_token_account : Pubkey
  pub creator_nft_account : Pubkey
  pub global_states_key : Pubkey
  pub global_states : GlobalStates

unfoldable pub cancel_raffle_constraints :
    Runtime → CancelRaffle → ℕ → TokenAccount → TokenAccount → Result (Unit {0})
cancel_raffle_constraints rt a raffle_id rewards_escrow revenue_escrow = do
  require_pda_bump rt (raffle_seeds raffle_id) a.raffle.bump a.raffle_key
  constraint (a.raffle.creator == a.creator) JustiesErrorCode.not_raffle_creator
  constraint (a.raffle.ticket_sold == 0) JustiesErrorCode.raffle_not_cancelable
  constraint (a.raffle.nft_mint_address == a.nft_mint) JustiesErrorCode.nft_mint_address_mismatch
  require_pda rt (rewards_escrow_seeds a.raffle_key) a.rewards_escrow_nft_account
  require_token a.nft_mint a.raffle_key rewards_escrow
  require_pda rt (revenue_escrow_seeds a.raffle_key) a.revenue_escrow_token_account
  require_token a.currency_token_mint a.raffle_key revenue_escrow
  require_pda_bump rt global_states_seeds a.global_states.bump a.global_states_key

unfoldable pub cancel_raffle_handler :
    Runtime → CancelRaffle → ℕ → Tokens → Result (Raffle × Tokens)
cancel_raffle_handler rt a raffle_id ts = do
  rewards_escrow ← load_token ts a.rewards_escrow_nft_account
  revenue_escrow ← load_token ts a.revenue_escrow_token_account
  ts₁ ← init_associated_if_needed rt a.creator_nft_account a.nft_mint a.creator ts
  cancel_raffle_constraints rt a raffle_id rewards_escrow revenue_escrow
  let strategy = new_raffle_strategy a.raffle_key a.raffle a.global_states
  remaining ← num_remaining_rewards strategy
  ts₂ ←
      transfer_rewards rt strategy a.rewards_escrow_nft_account a.creator_nft_account remaining ts₁
  ts₃ ← try_close_rewards_escrow_nft_account rt strategy a.rewards_escrow_nft_account a.creator ts₂
  ts₄ ← close_revenue_escrow_token_account rt strategy a.revenue_escrow_token_account a.creator ts₃
  ok ((cancel strategy).raffle, ts₄)
