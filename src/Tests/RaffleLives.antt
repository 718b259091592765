-- ===== src/Tests/RaffleLives.antt =====
-- Runs of one instruction after another on a raffle.
use raffle_auction_audited_c.Prelude.{◌≤◌, ◌≡◌, refl, ◌≢◌, ◌⊎◌, false, arith}
use raffle_auction_audited_c.Prelude.Int.{◌+ℤ◌, ◌-ℤ◌, ◌*ℤ◌}
use raffle_auction_audited_c.Failures.{ok}
use raffle_auction_audited_c.Types.{ListingStatus, Raffle}
use raffle_auction_audited_c.Runtime.{
  Tokens, get_current_timestamp, transfer_token, close_token_account_with_signer,
}
use raffle_auction_audited_c.Auction.CreateAuction.{listing_constraints}
use raffle_auction_audited_c.Example.{runtime, runtime-IsTokenProgram}
use raffle_auction_audited_c.Example.Sampler.{sampling}
use raffle_auction_audited_c.Raffle.CancelRaffle.{
  CancelRaffle, cancel_raffle_constraints, cancel_raffle_handler,
}
use raffle_auction_audited_c.Raffle.CreateRaffle.{
  create_raffle_init, create_raffle_constraints, create_raffle_handler,
}
use raffle_auction_audited_c.Raffle.Life.{Step, Steps, tickets_prevent_cancel, created_raffle_life}
use raffle_auction_audited_c.Raffle.Strategy.{
  deposit_nft, cancel, new_raffle_strategy, num_remaining_rewards, init_raffle,
  get_raffle_signer_seed, transfer_rewards, try_close_rewards_escrow_nft_account,
  close_revenue_escrow_token_account,
}
use raffle_auction_audited_c.Revenue.{share_sum_from, validate_share_configs}
use raffle_auction_audited_c.Tests.CreatedRaffles.{
  raffling, raffling_args, raffled, raffled_run, rewards_apart,
}
use raffle_auction_audited_c.Tests.Creations.{creator_tokens}
use raffle_auction_audited_c.Tests.Draws.{making, made, make_run}
use raffle_auction_audited_c.Tests.Market.{got, nft, currency, creator, associated, states_key}

-- The raffle of the run of the creation is cancelled by its creator.
abbrev withdrawing : CancelRaffle
withdrawing = record {
  raffle_key = raffling.raffle_key;
  raffle = raffled.raffle;
  global_states_key = states_key;
  global_states = raffled.global_states;
  creator = creator;
  nft_mint = nft;
  currency_token_mint = currency;
  rewards_escrow_nft_account = raffling.rewards_escrow_nft_account;
  revenue_escrow_token_account = raffling.revenue_escrow_token_account;
  creator_nft_account = associated creator nft;
}

abbrev withdrawn : Raffle × Tokens
withdrawn =
    got (cancel_raffle_handler runtime withdrawing 1 raffled.tokens)
      (raffled.raffle, raffled.tokens)

withdraw_run :
    cancel_raffle_handler runtime withdrawing 1 raffled.tokens ≡ ok (withdrawn.0, withdrawn.1)
unfolding cancel cancel_raffle_constraints cancel_raffle_handler close_revenue_escrow_token_account
    close_token_account_with_signer create_raffle_constraints create_raffle_handler
    create_raffle_init deposit_nft get_current_timestamp get_raffle_signer_seed init_raffle
    listing_constraints new_raffle_strategy num_remaining_rewards share_sum_from transfer_rewards
    transfer_token try_close_rewards_escrow_nft_account validate_share_configs ◌*ℤ◌ ◌+ℤ◌ ◌-ℤ◌
withdraw_run = refl

withdraw-Steps : Steps runtime sampling raffled.raffle withdrawn.0
withdraw-Steps =
    Steps.next_step raffled.raffle raffled.raffle withdrawn.0 (Steps.no_step raffled.raffle) (
      Step.cancel_step withdrawing 1 raffled.tokens withdrawn.1 raffled.raffle withdrawn.0
        withdraw_run refl)

created_raffle_life_example :
    (withdrawn.0.creator ≡ raffling.creator)
    × (withdrawn.0.nft_mint_address ≡ raffling.nft_mint.key)
    × (withdrawn.0.num_raffled_nfts ≡ raffling_args.num_raffled_nfts)
    × (withdrawn.0.currency_token_mint_address ≡ raffling.currency_token_mint)
    × (withdrawn.0.ticket_price ≡ raffling_args.ticket_price)
    × (withdrawn.0.ticket_supply ≡ raffling_args.ticket_supply)
    × (withdrawn.0.expired_timestamp
        ≡ get_current_timestamp runtime raffling.global_states +ℤ raffling_args.duration)
    × (withdrawn.0.eligible_groups ≡ raffling_args.eligible_groups)
    × (withdrawn.0.revenue_shares ≡ raffling_args.revenue_shares)
    × (withdrawn.0.ticket_sold ≤ raffling_args.ticket_supply)
    × ((withdrawn.0.status ≢ ListingStatus.cancelled) ⊎ (withdrawn.0.ticket_sold ≡ 0))
created_raffle_life_example =
    created_raffle_life runtime runtime-IsTokenProgram sampling raffling raffling_args
      creator_tokens raffled withdrawn.0 raffled_run rewards_apart withdraw-Steps

-- A raffle with eight tickets sold is drawn.
draw-Steps : Steps runtime sampling making.raffle made
draw-Steps =
    Steps.next_step making.raffle making.raffle made (Steps.no_step making.raffle)
      (Step.make_step 20 making 1 false making.raffle made make_run refl)

running : making.raffle.status ≢ ListingStatus.cancelled
running c = cc

tickets_prevent_cancel_example :
    (made.status ≢ ListingStatus.cancelled) × (making.raffle.ticket_sold ≤ made.ticket_sold)
tickets_prevent_cancel_example =
    tickets_prevent_cancel runtime sampling making.raffle made draw-Steps (omega arith) running
