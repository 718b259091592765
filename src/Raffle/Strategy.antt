-- ===== src/Raffle/Strategy.antt =====
-- common/raffle_strategy.rs: all but the sale of tickets, which is `Tickets`.
use raffle_auction_audited_c.Prelude.{
  ℕ, suc, ◌^◌, bit_and, bit_or, Bool, not, ◌||◌, Option, none, some, List, [], ◌∷◌, ltb, ◌==◌,
  if◌then◌else◌, length,
}
use raffle_auction_audited_c.Prelude.Int.{ℤ, ltb_ℤ}
use raffle_auction_audited_c.Failures.{
  JustiesErrorCode, Failure, Result, ◌>>=◌, ◌>>◌, fail_if, or_fail, ok, err,
}
use raffle_auction_audited_c.Failures.Checked.{add_u64, sub_u, add_i64, as_u64}
use raffle_auction_audited_c.Types.{
  Pubkey, ListingStatus, status_eq, GroupConfig, RevenueShareConfig, GlobalStates, Raffle,
}
use raffle_auction_audited_c.Runtime.{
  SeedLabel, Seed, Tokens, Runtime, load_token, get_current_timestamp, transfer_token,
  close_token_account_with_signer,
}
use raffle_auction_audited_c.Random.Draw.{Sampling, pick_winners}

pub record RaffleStrategy : Type 0 where
  pub raffle : Raffle
  pub global_states : GlobalStates
  -- `raffle.key()`, and the id and bump from which the signer seeds are made.
  pub raffle_key : Pubkey
  pub raffle_id : ℕ
  pub raffle_bump : ℕ

unfoldable pub new_raffle_strategy : Pubkey → Raffle → GlobalStates → RaffleStrategy
new_raffle_strategy key raffle global_states = record {
  raffle = raffle;
  global_states = global_states;
  raffle_key = key;
  raffle_id = raffle.id;
  raffle_bump = raffle.bump;
}

unfoldable pub is_ended : RaffleStrategy → ℤ → Bool
is_ended s current_timestamp = ltb_ℤ s.raffle.expired_timestamp current_timestamp

unfoldable pub is_cancelled : RaffleStrategy → Bool
is_cancelled s = status_eq s.raffle.status ListingStatus.cancelled

unfoldable pub is_raffle_made : RaffleStrategy → Bool
is_raffle_made s = status_eq s.raffle.status ListingStatus.finished

unfoldable pub has_winners : RaffleStrategy → Bool
has_winners s = ltb 0 (length s.raffle.winner_ids)

-- `u64` subtraction: more winners than raffled NFTs is a panic.
unfoldable pub num_remaining_rewards : RaffleStrategy → Result ℕ
num_remaining_rewards s = sub_u s.raffle.num_raffled_nfts (length s.raffle.winner_ids)

unfoldable pub validate_set_winners : RaffleStrategy → ℤ → Result (Unit {0})
validate_set_winners s current_timestamp = do
  fail_if (is_cancelled s) JustiesErrorCode.raffle_cancelled
  fail_if (not (is_ended s current_timestamp)) JustiesErrorCode.raffle_ongoing

unfoldable pub validate_make_raffle : RaffleStrategy → ℤ → Bool → Result (Unit {0})
validate_make_raffle s current_timestamp rerun = do
  fail_if (is_cancelled s) JustiesErrorCode.raffle_cancelled
  fail_if (not (is_ended s current_timestamp)) JustiesErrorCode.raffle_ongoing
  if rerun
      then fail_if (not s.global_states.is_test_environment) JustiesErrorCode.not_test_environment
      else fail_if (has_winners s) JustiesErrorCode.raffle_already_made

unfoldable pub validate_claim_remaining_rewards : RaffleStrategy → Result (Unit {0})
validate_claim_remaining_rewards s = do
  fail_if (not (has_winners s)) JustiesErrorCode.raffle_not_made
  remaining ← num_remaining_rewards s
  fail_if (remaining == 0) JustiesErrorCode.no_remaining_raffle_rewards

abbrev pub next_position : Option ℕ → Option ℕ
next_position none = none
next_position (some i) = some (suc i)

-- `.iter().position(|&winner| winner == id)`
unfoldable pub position_of : ℕ → List ℕ → Option ℕ
position_of id [] = none
position_of id (winner ∷ winners) =
    if winner == id then some 0 else next_position (position_of id winners)

unfoldable pub get_winner_index : RaffleStrategy → ℕ → Option ℕ
get_winner_index s ticket_position_id = position_of ticket_position_id s.raffle.winner_ids

-- `1 << index` in `u64`: a shift of 64 or more panics.
unfoldable pub claim_bit : ℕ → Result ℕ
claim_bit index = if ltb index 64 then ok (2 ^ index) else err Failure.overflow

unfoldable pub validate_claim : RaffleStrategy → ℕ → Result (Unit {0})
validate_claim s ticket_position_id = do
  fail_if (not (is_raffle_made s)) JustiesErrorCode.raffle_not_made
  winner_index ←
      or_fail (get_winner_index s ticket_position_id)
        (Failure.justies JustiesErrorCode.not_a_raffle_winner)
  mask ← claim_bit winner_index
  fail_if (ltb 0 (bit_and s.raffle.claim_mask mask)) JustiesErrorCode.raffle_reward_claimed

unfoldable pub claim_reward : RaffleStrategy → ℕ → Result RaffleStrategy
claim_reward s ticket_position_id = do
  winner_index ← or_fail (get_winner_index s ticket_position_id) Failure.unwrap_none
  mask ← claim_bit winner_index
  ok (record s { raffle = record (s.raffle) { claim_mask = bit_or s.raffle.claim_mask mask } })

-- What `init_raffle` is given.
pub record RaffleInput : Type 0 where
  pub id : ℕ
  pub bump : ℕ
  pub creator : Pubkey
  pub nft_mint : Pubkey
  pub num_raffled_nft : ℕ
  pub currency_token_mint : Pubkey
  pub duration : ℤ
  pub ticket_supply : ℕ
  pub ticket_price : ℕ
  pub eligible_groups : List GroupConfig
  pub revenue_shares : List RevenueShareConfig
  pub current_timestamp : ℤ

unfoldable pub init_raffle : RaffleStrategy → RaffleInput → Result RaffleStrategy
init_raffle s i = do
  fail_if
      (ltb (as_u64 i.duration) s.global_states.min_raffle_duration
        || ltb s.global_states.max_raffle_duration (as_u64 i.duration))
      JustiesErrorCode.invalid_raffle_duration
  fail_if (i.num_raffled_nft == 0 || ltb s.global_states.max_raffled_nfts i.num_raffled_nft)
      JustiesErrorCode.invalid_num_raffled_nfts
  fail_if
      (ltb i.ticket_supply s.global_states.min_raffle_ticket_supply
        || ltb s.global_states.max_raffle_ticket_supply i.ticket_supply)
      JustiesErrorCode.invalid_raffle_ticket_supply
  total_raffles ← add_u64 s.global_states.total_raffles 1
  expired_timestamp ← add_i64 i.current_timestamp i.duration
  ok (record s {
    global_states = record (s.global_states) { total_raffles = total_raffles };
    raffle = record {
      bump = i.bump;
      id = i.id;
      nft_mint_address = i.nft_mint;
      num_raffled_nfts = i.num_raffled_nft;
      num_ticket_positions = 0;
      currency_token_mint_address = i.currency_token_mint;
      created_timestamp = i.current_timestamp;
      expired_timestamp = expired_timestamp;
      ticket_supply = i.ticket_supply;
      ticket_price = i.ticket_price;
      ticket_sold = 0;
      creator = i.creator;
      eligible_groups = i.eligible_groups;
      revenue_shares = i.revenue_shares;
      status = ListingStatus.in_progress;
      winner_ids = [];
      claim_mask = 0;
    };
  })

unfoldable pub get_raffle_signer_seed : RaffleStrategy → List Seed
get_raffle_signer_seed s =
    Seed.label SeedLabel.raffle ∷ Seed.number s.raffle_id ∷ Seed.bump s.raffle_bump ∷ []

unfoldable pub deposit_nft :
    Runtime → RaffleStrategy → Pubkey → Pubkey → Pubkey → Tokens → Result Tokens
deposit_nft rt s creator_nft_account escrow_nft_account creator ts =
    transfer_token rt creator_nft_account escrow_nft_account creator s.raffle.num_raffled_nfts none
      ts

unfoldable pub set_winners : RaffleStrategy → List ℕ → RaffleStrategy
set_winners s winner_ids = record s {
  raffle = record (s.raffle) { winner_ids = winner_ids; status = ListingStatus.finished };
}

-- The compute budget bounds the draw.
unfoldable pub make_raffle :
    Runtime → Sampling → ℕ → RaffleStrategy → List ℕ → Result RaffleStrategy
make_raffle rt sp budget s ticket_positions = do
  winner_ids ←
      pick_winners sp budget rt.slot ticket_positions s.raffle.ticket_sold s.raffle.num_raffled_nfts
        (get_current_timestamp rt s.global_states)
  ok (record s {
    raffle = record (s.raffle) { winner_ids = winner_ids; status = ListingStatus.finished };
  })

unfoldable pub cancel : RaffleStrategy → RaffleStrategy
cancel s = record s { raffle = record (s.raffle) { status = ListingStatus.cancelled } }

-- escrow, target, amount
unfoldable pub transfer_rewards :
    Runtime → RaffleStrategy → Pubkey → Pubkey → ℕ → Tokens → Result Tokens
transfer_rewards rt s rewards_escrow_nft_account target_nft_account amount ts =
    transfer_token rt rewards_escrow_nft_account target_nft_account s.raffle_key amount
      (some (get_raffle_signer_seed s)) ts

-- Reloads the escrow, and closes it when it is empty.
unfoldable pub try_close_rewards_escrow_nft_account :
    Runtime → RaffleStrategy → Pubkey → Pubkey → Tokens → Result Tokens
try_close_rewards_escrow_nft_account rt s rewards_escrow_nft_account raffle_creator ts = do
  reloaded ← load_token ts rewards_escrow_nft_account
  if not (reloaded.amount == 0)
      then ok ts
      else close_token_account_with_signer rt rewards_escrow_nft_account raffle_creator s.raffle_key
          (get_raffle_signer_seed s) ts

unfoldable pub close_revenue_escrow_token_account :
    Runtime → RaffleStrategy → Pubkey → Pubkey → Tokens → Result Tokens
close_revenue_escrow_token_account rt s revenue_escrow_token_account raffle_creator ts =
    close_token_account_with_signer rt revenue_escrow_token_account raffle_creator s.raffle_key
      (get_raffle_signer_seed s) ts
