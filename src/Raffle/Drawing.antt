-- ===== src/Raffle/Drawing.antt =====
-- The draw of a raffle: raffle/make_raffle.rs with validate_make_raffle and make_raffle of
-- common/raffle_strategy.rs.
use raffle_auction_audited_c.Prelude.{ℕ, ◌^◌, ◌≤◌, ◌<◌, ◌≡◌, refl, ap, ◌∙◌, false, arith, length}
use raffle_auction_audited_c.Prelude.Int.{ℤ, ◌<ℤ◌}
use raffle_auction_audited_c.Failures.{JustiesErrorCode, Failure, bind_ok, ok_inj, ok, err}
use raffle_auction_audited_c.Types.{ListingStatus, Raffle}
use raffle_auction_audited_c.Runtime.{Runtime, get_current_timestamp}
use raffle_auction_audited_c.Raffle.MakeRaffle.{
  MakeRaffle, make_raffle_constraints, make_raffle_handler,
}
use raffle_auction_audited_c.Raffle.Strategy.{
  is_ended, RaffleStrategy, new_raffle_strategy, has_winners, num_remaining_rewards,
  validate_make_raffle, validate_claim_remaining_rewards, make_raffle,
}
use raffle_auction_audited_c.Random.Draw.{Sampling, Ascending, IsSampling, pick_winners}
use raffle_auction_audited_c.Random.Shape.{Below}
use raffle_auction_audited_c.Random.Winners.{pick_winners_distinct}

make_checked :
    (rt : Runtime) (a : MakeRaffle) (id : ℕ)
    → make_raffle_constraints rt a id ≡ ok tt
    → a.global_states.authority ≡ a.authority
unfolding make_raffle_constraints
make_checked rt a id e = ground arith

make_valid :
    (s : RaffleStrategy) (now : ℤ)
    → validate_make_raffle s now false ≡ ok tt
    → (s.raffle.expired_timestamp <ℤ now) × (length s.raffle.winner_ids ≡ 0)
unfolding validate_make_raffle is_ended has_winners
make_valid s now e = ground arith

none_remain :
    (s : RaffleStrategy)
    → length s.raffle.winner_ids ≡ s.raffle.num_raffled_nfts
    → 0 < length s.raffle.winner_ids
    → validate_claim_remaining_rewards s
      ≡ err (Failure.justies JustiesErrorCode.no_remaining_raffle_rewards)
unfolding validate_claim_remaining_rewards has_winners num_remaining_rewards
none_remain s e h = ground arith

module _ (rt : Runtime) (sp : Sampling) (laws : IsSampling sp) where
  -- For a sampling with its documented behaviour and at most 2^16 ticket positions: a first draw
  -- that succeeds is the authority's, after the end, of a raffle without winners; it finishes the
  -- raffle with as many winners as NFTs, all different, in ascending order, and ticket positions
  -- of the raffle. For at least one NFT no reward then remains that the creator could claim.
  pub make_raffle_handler_draws :
      (budget : ℕ) (a : MakeRaffle) (id : ℕ) (raffle' : Raffle)
      → make_raffle_handler rt sp budget a id false ≡ ok raffle'
      → length a.ticket_position_stats.ticket_positions ≤ 2 ^ 16
      → (a.global_states.authority ≡ a.authority)
        × (a.raffle.expired_timestamp <ℤ get_current_timestamp rt a.global_states)
        × (length a.raffle.winner_ids ≡ 0)
        × (raffle'.status ≡ ListingStatus.finished)
        × (length raffle'.winner_ids ≡ a.raffle.num_raffled_nfts)
        × Ascending 0 raffle'.winner_ids
        × Below (length a.ticket_position_stats.ticket_positions) raffle'.winner_ids
        × (0 < a.raffle.num_raffled_nfts
            → validate_claim_remaining_rewards
                (new_raffle_strategy a.raffle_key raffle' a.global_states)
              ≡ err (Failure.justies JustiesErrorCode.no_remaining_raffle_rewards))
  unfolding make_raffle_handler make_raffle new_raffle_strategy
  make_raffle_handler_draws budget a id raffle' e le =
      let s = new_raffle_strategy a.raffle_key a.raffle a.global_states in
      let now = get_current_timestamp rt a.global_states in
      let positions = a.ticket_position_stats.ticket_positions in
      bind_ok (make_raffle_constraints rt a id) e λ _ passed e₁.
        bind_ok (validate_make_raffle s now false) e₁ λ _ valid e₂.
          bind_ok (make_raffle rt sp budget s positions) e₂ λ made makes e₃.
            bind_ok
              (pick_winners sp budget rt.slot positions a.raffle.ticket_sold
                a.raffle.num_raffled_nfts now)
              makes
              λ winners picked e₄.
                let (ended, none_yet) = make_valid s now valid in
                let (count, ascending, below) =
                  pick_winners_distinct sp laws budget rt.slot positions a.raffle.ticket_sold
                    a.raffle.num_raffled_nfts now winners picked le in
                let raffle_is : record (a.raffle) {
                  winner_ids = winners;
                  status = ListingStatus.finished;
                }
                    ≡ raffle' =
                  ap (λ (x : RaffleStrategy). x.raffle) (ok_inj e₄) ∙ ok_inj e₃ in
                rw (← raffle_is) (
                  make_checked rt a id passed,
                  ended,
                  none_yet,
                  refl,
                  count,
                  ascending,
                  below,
                  λ some_nft. none_remain _ count (omega (arith, count)),
                )
