-- ===== src/Raffle/Seeds.antt =====
-- The seeds of the program addresses that the raffle instructions name in their account constraints.
use raffle_auction_audited_c.Prelude.{ℕ, List, [], ◌∷◌}
use raffle_auction_audited_c.Types.{Pubkey}
use raffle_auction_audited_c.Runtime.{Seed, SeedLabel}

abbrev pub raffle_seeds : ℕ → List Seed
raffle_seeds id = Seed.label SeedLabel.raffle ∷ Seed.number id ∷ []

abbrev pub rewards_escrow_seeds : Pubkey → List Seed
rewards_escrow_seeds raffle =
    Seed.label SeedLabel.raffle ∷ Seed.key raffle ∷ Seed.label SeedLabel.rewards_escrow ∷ []

abbrev pub revenue_escrow_seeds : Pubkey → List Seed
revenue_escrow_seeds raffle =
    Seed.label SeedLabel.raffle ∷ Seed.key raffle ∷ Seed.label SeedLabel.revenue_escrow ∷ []

abbrev pub ticket_position_seeds : Pubkey → Pubkey → List Seed
ticket_position_seeds raffle buyer =
    Seed.label SeedLabel.raffle
    ∷ Seed.key raffle
    ∷ Seed.label SeedLabel.ticket_position
    ∷ Seed.key buyer
    ∷ []

abbrev pub ticket_stats_seeds : Pubkey → List Seed
ticket_stats_seeds raffle =
    Seed.label SeedLabel.raffle ∷ Seed.key raffle ∷ Seed.label SeedLabel.ticket_position_stats ∷ []

abbrev pub ticket_index_seeds : Pubkey → ℕ → List Seed
ticket_index_seeds raffle page =
    Seed.label SeedLabel.raffle
    ∷ Seed.key raffle
    ∷ Seed.label SeedLabel.ticket_position_index
    ∷ Seed.number page
    ∷ []
