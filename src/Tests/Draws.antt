-- ===== src/Tests/Draws.antt =====
-- Runs of the draw of a raffle.
use raffle_auction_audited_c.Prelude.{ℕ, ◌<◌, ◌≡◌, refl, ◌≢◌, false, List, [], ◌∷◌, arith, length}
use raffle_auction_audited_c.Prelude.Int.{ℤ, ◌+ℤ◌, ◌-ℤ◌, ◌*ℤ◌, ◌<ℤ◌, pos}
use raffle_auction_audited_c.Failures.{JustiesErrorCode, Failure, ok, err}
use raffle_auction_audited_c.Types.{ListingStatus, Raffle}
use raffle_auction_audited_c.Types.Defaults.{default_raffle}
use raffle_auction_audited_c.Runtime.{get_current_timestamp}
use raffle_auction_audited_c.Example.{address, runtime}
use raffle_auction_audited_c.Example.Sampler.{sampling, sampling-IsSampling}
use raffle_auction_audited_c.Raffle.Drawing.{make_raffle_handler_draws}
use raffle_auction_audited_c.Raffle.MakeRaffle.{
  MakeRaffle, make_raffle_constraints, make_raffle_handler,
}
use raffle_auction_audited_c.Raffle.Seeds.{ticket_stats_seeds}
use raffle_auction_audited_c.Raffle.Strategy.{
  is_ended, is_cancelled, new_raffle_strategy, has_winners, validate_make_raffle,
  validate_claim_remaining_rewards, make_raffle,
}
use raffle_auction_audited_c.Random.Draw.{
  Ascending, get_random_seed, sample, draw_winners, pick_winners,
}
use raffle_auction_audited_c.Random.Rounds.{Ends, create_alias_table-Ends}
use raffle_auction_audited_c.Random.Shape.{Below, create_alias_table-shape}
use raffle_auction_audited_c.Random.Table.{
  classify, scale_weights, pair_columns, pair_all, fill_columns, create_alias_table,
}
use raffle_auction_audited_c.Random.Winners.{pick_winners_distinct, pick_winners_starves}
use raffle_auction_audited_c.Tests.Market.{got, states_key, states, raffle_key, raffle_ended}

abbrev weights : List ℕ
weights = 1 ∷ 2 ∷ 5 ∷ []

abbrev pub making : MakeRaffle
making = record {
  raffle_key = raffle_key;
  raffle = raffle_ended;
  ticket_position_stats_key = address (ticket_stats_seeds raffle_key);
  ticket_position_stats = record { bump = 255; ticket_positions = weights };
  global_states_key = states_key;
  global_states = states;
  authority = 9;
}

abbrev pub made : Raffle
made = got (make_raffle_handler runtime sampling 20 making 1 false) default_raffle

pub make_run : make_raffle_handler runtime sampling 20 making 1 false ≡ ok made
unfolding classify create_alias_table draw_winners fill_columns get_current_timestamp
    get_random_seed has_winners is_cancelled is_ended make_raffle make_raffle_constraints
    make_raffle_handler new_raffle_strategy pair_all pair_columns pick_winners sample scale_weights
    validate_make_raffle ◌*ℤ◌ ◌+ℤ◌ ◌-ℤ◌
make_run = refl

make_raffle_handler_draws_example :
    (making.global_states.authority ≡ making.authority)
    × (making.raffle.expired_timestamp <ℤ get_current_timestamp runtime making.global_states)
    × (length making.raffle.winner_ids ≡ 0)
    × (made.status ≡ ListingStatus.finished)
    × (length made.winner_ids ≡ making.raffle.num_raffled_nfts)
    × Ascending 0 made.winner_ids
    × Below (length making.ticket_position_stats.ticket_positions) made.winner_ids
    × (0 < making.raffle.num_raffled_nfts
        → validate_claim_remaining_rewards
            (new_raffle_strategy making.raffle_key made making.global_states)
          ≡ err (Failure.justies JustiesErrorCode.no_remaining_raffle_rewards))
make_raffle_handler_draws_example =
    make_raffle_handler_draws runtime sampling sampling-IsSampling 20 making 1 made make_run
      (omega arith)

abbrev winners : List ℕ
winners = got (pick_winners sampling 20 7 weights 8 2 (pos 1000)) []

pick_run : pick_winners sampling 20 7 weights 8 2 (pos 1000) ≡ ok winners
unfolding classify create_alias_table draw_winners fill_columns get_random_seed pair_all
    pair_columns pick_winners sample scale_weights ◌*ℤ◌ ◌+ℤ◌ ◌-ℤ◌
pick_run = refl

pick_winners_distinct_example :
    (length winners ≡ 2) × Ascending 0 winners × Below (length weights) winners
pick_winners_distinct_example =
    pick_winners_distinct sampling sampling-IsSampling 20 7 weights 8 2 (pos 1000) winners pick_run
      (omega arith)

pick_winners_starves_example : pick_winners sampling 20 7 weights 8 4 (pos 1000) ≢ ok winners
pick_winners_starves_example =
    pick_winners_starves sampling sampling-IsSampling 20 7 weights 8 4 (pos 1000) winners
      (omega arith) (omega arith)

create_alias_table-Ends_example : Ends (create_alias_table weights (pos 8))
create_alias_table-Ends_example = create_alias_table-Ends weights (pos 8)

abbrev columns : List ℤ
columns = pos 3 ∷ pos 6 ∷ pos 8 ∷ []

abbrev aliases : List ℕ
aliases = 2 ∷ 2 ∷ 0 ∷ []

table_run : create_alias_table weights (pos 8) ≡ ok (columns, aliases)
unfolding classify create_alias_table fill_columns pair_all pair_columns scale_weights ◌*ℤ◌ ◌+ℤ◌
    ◌-ℤ◌
table_run = refl

create_alias_table-shape_example :
    (length columns ≡ length weights)
    × (length aliases ≡ length weights)
    × Below (length weights) aliases
create_alias_table-shape_example =
    create_alias_table-shape weights (pos 8) columns aliases table_run
