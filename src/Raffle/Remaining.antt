-- ===== src/Raffle/Remaining.antt =====
-- A second claim of the remaining rewards: raffle/claim_remaining_raffle_rewards.rs.
use raffle_auction_audited_c.Prelude.{
  ℕ, ◌+◌, ◌-◌, ◌*◌, ◌<◌, ◌≡◌, ap, ◌∙◌, ◌≢◌, inl, inr, some, arith, Option-cases, length,
}
use raffle_auction_audited_c.Failures.{bind_ok, ok}
use raffle_auction_audited_c.Types.{Pubkey}
use raffle_auction_audited_c.Runtime.{
  TokenAccount, Tokens, Runtime, amount_of, balance, IsTokenProgram, load_token, require_token,
  init_associated_if_needed,
}
use raffle_auction_audited_c.Runtime.Transfers.{transfer_token_from}
use raffle_auction_audited_c.Raffle.ClaimRemainingRaffleRewards.{
  ClaimRemainingRaffleRewards, claim_remaining_constraints, claim_remaining_raffle_rewards_handler,
}
use raffle_auction_audited_c.Raffle.Prizes.{remaining_exact, claim_remaining_moves}
use raffle_auction_audited_c.Raffle.Strategy.{
  RaffleStrategy, new_raffle_strategy, num_remaining_rewards, validate_claim_remaining_rewards,
  get_raffle_signer_seed, transfer_rewards, try_close_rewards_escrow_nft_account,
}

-- A token account of the mint and the authority, with the amount.
abbrev pub HoldsToken : Tokens → Pubkey → Pubkey → Pubkey → ℕ → Type 0
HoldsToken ts k mint authority n =
    ts k ≡ some (record { mint = mint; owner = authority; amount = n })

token_accepted :
    (mint authority n : ℕ)
    → require_token mint authority (record { mint = mint; owner = authority; amount = n }) ≡ ok tt
token_accepted mint authority n = ground arith

constraints_again :
    (rt : Runtime) (a : ClaimRemainingRaffleRewards) (id : ℕ) (escrow : TokenAccount) (n : ℕ)
    → claim_remaining_constraints rt a id escrow ≡ ok tt
    → claim_remaining_constraints rt a id
        (record { mint = a.nft_mint; owner = a.raffle_key; amount = n })
      ≡ ok tt
unfolding claim_remaining_constraints
constraints_again rt a id escrow n e = ground arith

associated_found :
    (rt : Runtime) (a mint authority : Pubkey) (ts ts' : Tokens)
    → init_associated_if_needed rt a mint authority ts ≡ ok ts'
    → rt.get_associated_token_address authority mint ≡ a
associated_found rt a mint authority ts ts' e = elim (Option-cases (ts a)) [
  | inl missing ↦ ground arith
  | inr (t, found) ↦ ground arith
]

associated_again :
    (rt : Runtime) (a mint authority n : ℕ) (ts : Tokens)
    → rt.get_associated_token_address authority mint ≡ a
    → HoldsToken ts a mint authority n
    → init_associated_if_needed rt a mint authority ts ≡ ok ts
associated_again rt a mint authority n ts e held = ground arith

-- The escrow stays open while something is in it.
not_closed :
    (rt : Runtime) (s : RaffleStrategy) (escrow creator : Pubkey) (ts : Tokens)
    → 0 < balance ts escrow
    → try_close_rewards_escrow_nft_account rt s escrow creator ts ≡ ok ts
unfolding try_close_rewards_escrow_nft_account
not_closed rt s escrow creator ts held = elim (Option-cases (ts escrow)) [
  | inl missing ↦ ground arith
  | inr (t, found) ↦ ground arith
]

remaining_is :
    (s : RaffleStrategy) (n : ℕ)
    → num_remaining_rewards s ≡ ok n
    → n ≡ s.raffle.num_raffled_nfts - length s.raffle.winner_ids
remaining_is s n e = omega (arith, remaining_exact s n e)

module _ (rt : Runtime) (tp : IsTokenProgram rt) where
  moved_off :
      (a : ClaimRemainingRaffleRewards) (ts₁ ts₂ : Tokens) (m : ℕ)
      → HoldsToken ts₁ a.rewards_escrow_nft_account a.nft_mint a.raffle_key m
      → transfer_rewards rt
          (new_raffle_strategy a.raffle_key a.raffle a.global_states)
          a.rewards_escrow_nft_account
          a.creator_nft_account
          (a.raffle.num_raffled_nfts - length a.raffle.winner_ids)
          ts₁
        ≡ ok ts₂
      → a.rewards_escrow_nft_account ≢ a.creator_nft_account
      → balance ts₂ a.rewards_escrow_nft_account
          + (a.raffle.num_raffled_nfts - length a.raffle.winner_ids)
        ≡ m
  unfolding transfer_rewards
  moved_off a ts₁ ts₂ m held accepted apart =
      let s = new_raffle_strategy a.raffle_key a.raffle a.global_states in
      transfer_token_from rt tp a.rewards_escrow_nft_account a.creator_nft_account s.raffle_key
        (a.raffle.num_raffled_nfts - length a.raffle.winner_ids) (some (get_raffle_signer_seed s))
        ts₁ ts₂ accepted apart
      ∙ ap amount_of held

  -- Nothing records that the remaining rewards of a raffle were claimed. Let a claim of them have
  -- succeeded, let the rewards escrow be another account than the creator's, both be open, and the
  -- escrow hold more NFTs than the raffle has beyond its winners, and let the token program accept
  -- their transfer. Then the same claim succeeds again, and the two together have taken twice the
  -- NFTs beyond the number of winners.
  pub claim_remaining_twice :
      (a : ClaimRemainingRaffleRewards) (id : ℕ) (ts ts₁ ts₂ : Tokens) (m k : ℕ)
      → claim_remaining_raffle_rewards_handler rt a id ts ≡ ok ts₁
      → a.rewards_escrow_nft_account ≢ a.creator_nft_account
      → HoldsToken ts₁ a.rewards_escrow_nft_account a.nft_mint a.raffle_key m
      → HoldsToken ts₁ a.creator_nft_account a.nft_mint a.creator k
      → a.raffle.num_raffled_nfts < length a.raffle.winner_ids + m
      → transfer_rewards rt
          (new_raffle_strategy a.raffle_key a.raffle a.global_states)
          a.rewards_escrow_nft_account
          a.creator_nft_account
          (a.raffle.num_raffled_nfts - length a.raffle.winner_ids)
          ts₁
        ≡ ok ts₂
      → (claim_remaining_raffle_rewards_handler rt a id ts₁ ≡ ok ts₂)
        × (balance ts₂ a.rewards_escrow_nft_account + 2 * a.raffle.num_raffled_nfts
            ≡ balance ts a.rewards_escrow_nft_account + 2 * length a.raffle.winner_ids)
  unfolding claim_remaining_raffle_rewards_handler new_raffle_strategy
  claim_remaining_twice a id ts ts₁ ts₂ m k e apart held own enough accepted =
      let s = new_raffle_strategy a.raffle_key a.raffle a.global_states in
      let (_, _, (n, exact, _, taken)) = claim_remaining_moves rt tp a id ts ts₁ e apart in
      bind_ok (load_token ts a.rewards_escrow_nft_account) e λ escrow _ e₁.
        bind_ok (init_associated_if_needed rt a.creator_nft_account a.nft_mint a.creator ts) e₁
          λ ts₀ created e₂. bind_ok (claim_remaining_constraints rt a id escrow) e₂ λ _ passed e₃.
            bind_ok (validate_claim_remaining_rewards s) e₃ λ _ valid e₄.
              bind_ok (num_remaining_rewards s) e₄ λ r found e₅.
                let left = moved_off a ts₁ ts₂ m held accepted apart in
                let open_again =
                  not_closed rt s a.rewards_escrow_nft_account a.creator ts₂
                    (omega (arith, left, exact)) in
                let made =
                  associated_again rt a.creator_nft_account a.nft_mint a.creator k ts₁
                    (associated_found rt a.creator_nft_account a.nft_mint a.creator ts ts₀ created)
                    own in
                let again = constraints_again rt a id escrow m passed in
                (
                  rw (held, made, again, valid, found, remaining_is s r found, accepted) open_again,
                  omega (arith, left, exact, taken.taken, ap amount_of held),
                )
