-- ===== src/Auction/Seeds.antt =====
-- The seeds of the program addresses that the auction instructions name in their account constraints,
-- and the fields that they read of a `Mint`.
use raffle_auction_audited_c.Prelude.{ℕ, List, [], ◌∷◌, ◌++◌}
use raffle_auction_audited_c.Types.{Pubkey}
use raffle_auction_audited_c.Runtime.{Seed, SeedLabel}

-- A `Mint` account, the fields that the program reads.
pub record MintAccount : Type 0 where
  pub key : Pubkey
  pub supply : ℕ
  pub decimals : ℕ

abbrev pub global_states_seeds : List Seed
global_states_seeds = Seed.label SeedLabel.global_states ∷ []

abbrev pub auction_seeds : ℕ → List Seed
auction_seeds id = Seed.label SeedLabel.auction ∷ Seed.number id ∷ []

abbrev pub lot_escrow_seeds : Pubkey → List Seed
lot_escrow_seeds auction =
    Seed.label SeedLabel.auction ∷ Seed.key auction ∷ Seed.label SeedLabel.lot_escrow ∷ []

abbrev pub bid_seeds : Pubkey → Pubkey → List Seed
bid_seeds auction bidder =
    Seed.label SeedLabel.auction
    ∷ Seed.key auction
    ∷ Seed.label SeedLabel.bid
    ∷ Seed.key bidder
    ∷ []

abbrev pub bid_escrow_seeds : Pubkey → Pubkey → List Seed
bid_escrow_seeds auction bidder = bid_seeds auction bidder ++ Seed.label SeedLabel.escrow ∷ []

abbrev pub bid_index_seeds : Pubkey → ℕ → List Seed
bid_index_seeds auction page =
    Seed.label SeedLabel.auction
    ∷ Seed.key auction
    ∷ Seed.label SeedLabel.bid_index
    ∷ Seed.number page
    ∷ []

abbrev pub nft_metadata_seeds : Pubkey → Pubkey → List Seed
nft_metadata_seeds program mint =
    Seed.label SeedLabel.metadata ∷ Seed.key program ∷ Seed.key mint ∷ []

abbrev pub nft_allowlist_seeds : Pubkey → List Seed
nft_allowlist_seeds mint = Seed.label SeedLabel.nft_allowlist_states ∷ Seed.key mint ∷ []

abbrev pub token_allowlist_seeds : Pubkey → List Seed
token_allowlist_seeds mint = Seed.label SeedLabel.token_allowlist_states ∷ Seed.key mint ∷ []
