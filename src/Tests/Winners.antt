-- ===== src/Tests/Winners.antt =====
-- Runs of what the winners and the creator of a raffle claim.
use raffle_auction_audited_c.Prelude.{
  ℕ, ◌+◌, ◌-◌, ◌*◌, ◌<◌, ◌≡◌, refl, ◌≢◌, true, some, List, [], ◌∷◌, arith, length, get_elem?,
}
use raffle_auction_audited_c.Failures.{JustiesErrorCode, Failure, ok, err}
use raffle_auction_audited_c.Types.{Pubkey, ListingStatus, Raffle}
use raffle_auction_audited_c.Types.Defaults.{default_ticket_position, default_raffle}
use raffle_auction_audited_c.Runtime.{
  Tokens, balance, transfer_token, close_token_account_with_signer, create_associated_token_account,
}
use raffle_auction_audited_c.Example.{address, runtime, runtime-IsTokenProgram}
use raffle_auction_audited_c.Raffle.ClaimRaffleRevenue.{
  ClaimRaffleRevenue, claim_raffle_revenue_constraints, claim_raffle_revenue_handler,
}
use raffle_auction_audited_c.Raffle.ClaimRaffleReward.{
  ClaimRaffleReward, claim_raffle_reward_constraints, claim_raffle_reward_handler,
}
use raffle_auction_audited_c.Raffle.ClaimRemainingRaffleRewards.{
  ClaimRemainingRaffleRewards, claim_remaining_constraints, claim_remaining_raffle_rewards_handler,
}
use raffle_auction_audited_c.Raffle.Claims.{claim_reward_once}
use raffle_auction_audited_c.Raffle.Prizes.{claim_raffle_reward_once, claim_remaining_moves}
use raffle_auction_audited_c.Raffle.Remaining.{HoldsToken, claim_remaining_twice}
use raffle_auction_audited_c.Raffle.Revenue.{receivers, claim_raffle_revenue_pays}
use raffle_auction_audited_c.Raffle.Rewards.{Moved}
use raffle_auction_audited_c.Raffle.Seeds.{revenue_escrow_seeds, ticket_position_seeds}
use raffle_auction_audited_c.Raffle.Strategy.{
  RaffleStrategy, new_raffle_strategy, is_raffle_made, has_winners, num_remaining_rewards,
  validate_claim_remaining_rewards, position_of, get_winner_index, claim_bit, validate_claim,
  claim_reward, get_raffle_signer_seed, transfer_rewards, try_close_rewards_escrow_nft_account,
}
use raffle_auction_audited_c.Revenue.{
  share_sum_from, validate_share_configs, all_match, validate_revenue_distribution_accounts,
  create_receiver_accounts, collect_distributions, init_revenue_distribution_accounts, bps_of,
  collect_fees, distribute_amount, make_distribution, make_distributions, distribute_revenue,
  close_distributed_escrow, run_distribution,
}
use raffle_auction_audited_c.Revenue.Payout.{PaidOut}
use raffle_auction_audited_c.Tests.Market.{
  got, tokens_of, holding, nft, currency, creator, buyer, associated, states_key, states,
  raffle_key, rewards, revenue, raffle_ended,
}

-- Positions 0 and 2 won; the holder of position 2 claims.
abbrev raffle_made : Raffle
raffle_made = record raffle_ended { status = ListingStatus.finished; winner_ids = 0 ∷ 2 ∷ [] }

abbrev claiming : ClaimRaffleReward
claiming = record {
  raffle_key = raffle_key;
  raffle = raffle_made;
  global_states_key = states_key;
  global_states = states;
  claimer = buyer;
  ticket_position_key = address (ticket_position_seeds raffle_key buyer);
  ticket_position = record default_ticket_position {
    bump = 255;
    id = 2;
    buyer = buyer;
    total_num_tickets = 5;
  };
  rewards_escrow_nft_account = rewards;
  claimer_nft_account = associated buyer nft;
  nft_mint = nft;
  creator = creator;
}

abbrev reward_tokens : Tokens
reward_tokens = tokens_of ((rewards, holding nft raffle_key 2) ∷ [])

abbrev claimed : Raffle × Tokens
claimed =
    got (claim_raffle_reward_handler runtime claiming 1 reward_tokens)
      (default_raffle, reward_tokens)

claim_run : claim_raffle_reward_handler runtime claiming 1 reward_tokens ≡ ok (claimed.0, claimed.1)
unfolding claim_bit claim_raffle_reward_constraints claim_raffle_reward_handler claim_reward
    close_token_account_with_signer get_raffle_signer_seed get_winner_index is_raffle_made
    new_raffle_strategy position_of transfer_rewards transfer_token
    try_close_rewards_escrow_nft_account validate_claim
claim_run = refl

claim_raffle_reward_once_example :
    (claiming.ticket_position.buyer ≡ claiming.claimer)
    × ((i : ℕ) × (get_elem? claiming.raffle.winner_ids i ≡ some claiming.ticket_position.id))
    × Moved reward_tokens claiming.rewards_escrow_nft_account claiming.claimer_nft_account 1
        claimed.1
    × ((ts₁ : Tokens) (r : Raffle × Tokens)
        → claim_raffle_reward_handler runtime (record claiming { raffle = claimed.0 }) 1 ts₁ ≢ ok r)
claim_raffle_reward_once_example =
    claim_raffle_reward_once runtime runtime-IsTokenProgram claiming 1 reward_tokens claimed.0
      claimed.1 claim_run (λ e. omega arith)

abbrev strategy : RaffleStrategy
strategy = new_raffle_strategy raffle_key raffle_made states

abbrev strategy_claimed : RaffleStrategy
strategy_claimed = got (claim_reward strategy 2) strategy

strategy_run : claim_reward strategy 2 ≡ ok strategy_claimed
unfolding claim_bit claim_reward get_winner_index new_raffle_strategy position_of
strategy_run = refl

strategy_made : is_raffle_made strategy ≡ true
unfolding is_raffle_made new_raffle_strategy
strategy_made = refl

claim_reward_once_example :
    (validate_claim strategy_claimed 2
      ≡ err (Failure.justies JustiesErrorCode.raffle_reward_claimed))
    × ((other : ℕ)
        → 2 ≢ other
        → validate_claim strategy_claimed other ≡ validate_claim strategy other)
claim_reward_once_example = claim_reward_once strategy strategy_claimed 2 strategy_made strategy_run

-- Three NFTs and two winners: the creator claims the one without a winner, and then one of the winners'.
abbrev remaining : ClaimRemainingRaffleRewards
remaining = record {
  raffle_key = raffle_key;
  raffle = record raffle_made { num_raffled_nfts = 3 };
  creator = creator;
  nft_mint = nft;
  rewards_escrow_nft_account = rewards;
  creator_nft_account = associated creator nft;
  global_states_key = states_key;
  global_states = states;
}

abbrev full_tokens : Tokens
full_tokens = tokens_of ((rewards, holding nft raffle_key 3) ∷ [])

abbrev once : Tokens
once = got (claim_remaining_raffle_rewards_handler runtime remaining 1 full_tokens) full_tokens

abbrev twice : Tokens
twice = got (claim_remaining_raffle_rewards_handler runtime remaining 1 once) once

once_run : claim_remaining_raffle_rewards_handler runtime remaining 1 full_tokens ≡ ok once
unfolding claim_remaining_constraints claim_remaining_raffle_rewards_handler
    close_token_account_with_signer get_raffle_signer_seed has_winners new_raffle_strategy
    num_remaining_rewards transfer_rewards transfer_token try_close_rewards_escrow_nft_account
    validate_claim_remaining_rewards
once_run = refl

once_escrow : HoldsToken once rewards nft raffle_key 2
unfolding claim_remaining_constraints claim_remaining_raffle_rewards_handler
    close_token_account_with_signer get_raffle_signer_seed has_winners new_raffle_strategy
    num_remaining_rewards transfer_rewards transfer_token try_close_rewards_escrow_nft_account
    validate_claim_remaining_rewards
once_escrow = refl

once_creator : HoldsToken once (associated creator nft) nft creator 1
unfolding claim_remaining_constraints claim_remaining_raffle_rewards_handler
    close_token_account_with_signer get_raffle_signer_seed has_winners new_raffle_strategy
    num_remaining_rewards transfer_rewards transfer_token try_close_rewards_escrow_nft_account
    validate_claim_remaining_rewards
once_creator = refl

again_moved :
    transfer_rewards runtime
      (new_raffle_strategy raffle_key remaining.raffle remaining.global_states)
      rewards
      (associated creator nft)
      (remaining.raffle.num_raffled_nfts - length remaining.raffle.winner_ids)
      once
    ≡ ok twice
unfolding claim_remaining_constraints claim_remaining_raffle_rewards_handler
    close_token_account_with_signer get_raffle_signer_seed has_winners new_raffle_strategy
    num_remaining_rewards transfer_rewards transfer_token try_close_rewards_escrow_nft_account
    validate_claim_remaining_rewards
again_moved = refl

claim_remaining_moves_example :
    (remaining.raffle.creator ≡ remaining.creator)
    × (0 < length remaining.raffle.winner_ids)
    × ((n : ℕ) × (n + length remaining.raffle.winner_ids ≡ remaining.raffle.num_raffled_nfts)
        × (0 < n)
        × Moved full_tokens remaining.rewards_escrow_nft_account remaining.creator_nft_account n
            once)
claim_remaining_moves_example =
    claim_remaining_moves runtime runtime-IsTokenProgram remaining 1 full_tokens once once_run
      (λ e. omega arith)

claim_remaining_twice_example :
    (claim_remaining_raffle_rewards_handler runtime remaining 1 once ≡ ok twice)
    × (balance twice remaining.rewards_escrow_nft_account + 2 * remaining.raffle.num_raffled_nfts
        ≡ balance full_tokens remaining.rewards_escrow_nft_account
          + 2 * length remaining.raffle.winner_ids)
claim_remaining_twice_example =
    claim_remaining_twice runtime runtime-IsTokenProgram remaining 1 full_tokens once twice 2 1
      once_run (λ e. omega arith) once_escrow once_creator (omega arith) again_moved

-- The treasury is an account of someone else's here.
abbrev collecting : ClaimRaffleRevenue
collecting = record {
  raffle_key = raffle_key;
  raffle = raffle_made;
  global_states_key = states_key;
  global_states = states;
  creator = creator;
  revenue_escrow_token_account = revenue;
  fee_treasury_token_account = associated 66 currency;
  fee_treasury = 66;
  token_mint = currency;
}

abbrev receiver_accounts : List Pubkey
receiver_accounts = 31 ∷ 32 ∷ associated 31 currency ∷ associated 32 currency ∷ []

abbrev sold_tokens : Tokens
sold_tokens = tokens_of (
    (revenue, holding currency raffle_key 80)
    ∷ (associated 66 currency, holding currency 66 0)
    ∷ [])

abbrev collected : Tokens
collected =
    got (claim_raffle_revenue_handler runtime collecting 1 receiver_accounts sold_tokens)
      sold_tokens

collect_run :
    claim_raffle_revenue_handler runtime collecting 1 receiver_accounts sold_tokens ≡ ok collected
unfolding all_match bps_of claim_raffle_revenue_constraints claim_raffle_revenue_handler
    close_distributed_escrow close_token_account_with_signer collect_distributions collect_fees
    create_associated_token_account create_receiver_accounts distribute_amount distribute_revenue
    init_revenue_distribution_accounts is_raffle_made make_distribution make_distributions
    new_raffle_strategy run_distribution share_sum_from transfer_token
    validate_revenue_distribution_accounts validate_share_configs
collect_run = refl

claim_raffle_revenue_pays_example :
    (collecting.raffle.creator ≡ collecting.creator)
    × (collecting.raffle.status ≡ ListingStatus.finished)
    × ((runtime.find_program_address (revenue_escrow_seeds collecting.raffle_key)).0
        ≡ collecting.revenue_escrow_token_account)
    × PaidOut sold_tokens collecting.revenue_escrow_token_account
        collecting.fee_treasury_token_account collecting.global_states.market_fee_rate_bps
        (receivers runtime collecting)
        collected
claim_raffle_revenue_pays_example =
    claim_raffle_revenue_pays runtime runtime-IsTokenProgram collecting 1 receiver_accounts
      sold_tokens collected collect_run (λ e. omega arith)
      ((λ e. omega arith), ((λ e. omega arith), tt))
