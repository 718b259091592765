-- ===== src/Raffle/Prizes.antt =====
-- Who gets the NFTs of a raffle: raffle/claim_raffle_reward.rs and
-- raffle/claim_remaining_raffle_rewards.rs.
use raffle_auction_audited_c.Prelude.{
  ℕ, ◌+◌, ◌<◌, ◌≡◌, refl, sym, ap, ◌∙◌, ◌≢◌, some, arith, length, get_elem?,
}
use raffle_auction_audited_c.Failures.{JustiesErrorCode, Failure, Result, bind_ok, ok_inj, ok, err}
use raffle_auction_audited_c.Types.{Raffle}
use raffle_auction_audited_c.Runtime.{
  TokenAccount, Tokens, Runtime, IsTokenProgram, load_token, init_associated_if_needed,
}
use raffle_auction_audited_c.Raffle.ClaimRaffleReward.{
  ClaimRaffleReward, claim_raffle_reward_constraints, claim_raffle_reward_handler,
}
use raffle_auction_audited_c.Raffle.ClaimRemainingRaffleRewards.{
  ClaimRemainingRaffleRewards, claim_remaining_constraints, claim_remaining_raffle_rewards_handler,
}
use raffle_auction_audited_c.Raffle.Claims.{position_of-get, claim_reward_data, claim_reward_once}
use raffle_auction_audited_c.Raffle.Rewards.{validate_claim_made, Moved, rewards-Moved}
use raffle_auction_audited_c.Raffle.Strategy.{
  RaffleStrategy, new_raffle_strategy, is_raffle_made, has_winners, num_remaining_rewards,
  validate_claim_remaining_rewards, get_winner_index, validate_claim, claim_reward,
  transfer_rewards, try_close_rewards_escrow_nft_account,
}

claim_checked :
    (rt : Runtime) (a : ClaimRaffleReward) (id : ℕ)
    → claim_raffle_reward_constraints rt a id ≡ ok tt
    → a.ticket_position.buyer ≡ a.claimer
unfolding claim_raffle_reward_constraints
claim_checked rt a id e = ground arith

claim_remaining_checked :
    (rt : Runtime) (a : ClaimRemainingRaffleRewards) (id : ℕ) (escrow : TokenAccount)
    → claim_remaining_constraints rt a id escrow ≡ ok tt
    → a.raffle.creator ≡ a.creator
unfolding claim_remaining_constraints
claim_remaining_checked rt a id escrow e = ground arith

pub remaining_exact :
    (s : RaffleStrategy) (n : ℕ)
    → num_remaining_rewards s ≡ ok n
    → n + length s.raffle.winner_ids ≡ s.raffle.num_raffled_nfts
unfolding num_remaining_rewards
remaining_exact s n e = ground arith

remaining_valid :
    (s : RaffleStrategy) (n : ℕ)
    → validate_claim_remaining_rewards s ≡ ok tt
    → num_remaining_rewards s ≡ ok n
    → (0 < n) × (0 < length s.raffle.winner_ids)
unfolding validate_claim_remaining_rewards has_winners
remaining_valid s n e found = ground arith

-- The check reads the raffle alone.
validate_claim_same :
    (s s' : RaffleStrategy) (id : ℕ)
    → s'.raffle ≡ s.raffle
    → validate_claim s' id ≡ validate_claim s id
unfolding validate_claim is_raffle_made get_winner_index
validate_claim_same s s' id e = rw (e) refl

ok_or_err : {m : Result (Unit {0})} {f : Failure} → m ≡ ok tt → m ≡ err f → ⊥
ok_or_err e h = cc

module _ (rt : Runtime) (tp : IsTokenProgram rt) where
  again_fails :
      (a : ClaimRaffleReward) (id : ℕ) (raffle' : Raffle)
      → validate_claim
          (new_raffle_strategy a.raffle_key raffle' a.global_states)
          a.ticket_position.id
        ≡ err (Failure.justies JustiesErrorCode.raffle_reward_claimed)
      → (ts : Tokens) (r : Raffle × Tokens)
      → claim_raffle_reward_handler rt (record a { raffle = raffle' }) id ts ≢ ok r
  unfolding claim_raffle_reward_handler
  again_fails a id raffle' refused ts r = λ e.
      bind_ok (load_token ts a.rewards_escrow_nft_account) e λ _ _ e₁.
        bind_ok (init_associated_if_needed rt a.claimer_nft_account a.nft_mint a.claimer ts) e₁
          λ ts₁ _ e₂.
            bind_ok (claim_raffle_reward_constraints rt (record a { raffle = raffle' }) id) e₂
              λ _ _ e₃.
                bind_ok
                  (validate_claim (new_raffle_strategy a.raffle_key raffle' a.global_states)
                    a.ticket_position.id)
                  e₃ λ _ valid _. ok_or_err valid refused

  -- When the rewards escrow is another account than the claimer's and a reward is claimed: the
  -- claimer is the buyer of the ticket position, the position is among the winners, one NFT moves
  -- from the escrow to the claimer's account, and no later claim of that position in the raffle
  -- as it then is succeeds, whatever the token accounts hold.
  pub claim_raffle_reward_once :
      (a : ClaimRaffleReward) (id : ℕ) (ts : Tokens) (raffle' : Raffle) (ts' : Tokens)
      → claim_raffle_reward_handler rt a id ts ≡ ok (raffle', ts')
      → a.rewards_escrow_nft_account ≢ a.claimer_nft_account
      → (a.ticket_position.buyer ≡ a.claimer)
        × ((i : ℕ) × (get_elem? a.raffle.winner_ids i ≡ some a.ticket_position.id))
        × Moved ts a.rewards_escrow_nft_account a.claimer_nft_account 1 ts'
        × ((ts₁ : Tokens) (r : Raffle × Tokens)
            → claim_raffle_reward_handler rt (record a { raffle = raffle' }) id ts₁ ≢ ok r)
  unfolding claim_raffle_reward_handler new_raffle_strategy
  claim_raffle_reward_once a id ts raffle' ts' e apart =
      let s = new_raffle_strategy a.raffle_key a.raffle a.global_states in
      bind_ok (load_token ts a.rewards_escrow_nft_account) e λ _ _ e₁.
        bind_ok (init_associated_if_needed rt a.claimer_nft_account a.nft_mint a.claimer ts) e₁
          λ ts₁ created e₂. bind_ok (claim_raffle_reward_constraints rt a id) e₂ λ _ passed e₃.
            bind_ok (validate_claim s a.ticket_position.id) e₃ λ _ valid e₄.
              bind_ok (claim_reward s a.ticket_position.id) e₄ λ s' claimed e₅.
                bind_ok
                  (transfer_rewards rt s' a.rewards_escrow_nft_account a.claimer_nft_account 1 ts₁)
                  e₅
                  λ ts₂ moved e₆.
                    bind_ok
                      (try_close_rewards_escrow_nft_account rt s' a.rewards_escrow_nft_account
                        a.creator ts₂)
                      e₆
                      λ ts₃ closed e₇.
                        let (i, found, _, _, _, _) =
                          claim_reward_data s s' a.ticket_position.id claimed in
                        let ends : try_close_rewards_escrow_nft_account rt s'
                              a.rewards_escrow_nft_account a.creator ts₂
                            ≡ ok ts' =
                          closed ∙ ap (λ (x : Raffle × Tokens). ok x.1) (ok_inj e₇) in
                        let raffle_is : raffle' ≡ s'.raffle =
                          ap (λ (x : Raffle × Tokens). x.0) (sym (ok_inj e₇)) in
                        let once =
                          claim_reward_once s s' a.ticket_position.id
                            (validate_claim_made s a.ticket_position.id valid) claimed in
                        (
                          claim_checked rt a id passed,
                          (i, position_of-get a.ticket_position.id a.raffle.winner_ids i found),
                          rewards-Moved rt tp s' a.rewards_escrow_nft_account a.claimer_nft_account
                              a.creator a.nft_mint a.claimer 1 ts ts₁ ts₂ ts' created moved ends
                              apart,
                          again_fails a id raffle'
                              (validate_claim_same s' _ a.ticket_position.id raffle_is ∙ once.0),
                        )

  -- When the rewards escrow is another account than the creator's and remaining rewards are
  -- claimed: the claim is the creator's, there are winners, and exactly the NFTs beyond the
  -- number of winners move to the creator's account, at least one.
  pub claim_remaining_moves :
      (a : ClaimRemainingRaffleRewards) (id : ℕ) (ts ts' : Tokens)
      → claim_remaining_raffle_rewards_handler rt a id ts ≡ ok ts'
      → a.rewards_escrow_nft_account ≢ a.creator_nft_account
      → (a.raffle.creator ≡ a.creator)
        × (0 < length a.raffle.winner_ids)
        × ((n : ℕ) × (n + length a.raffle.winner_ids ≡ a.raffle.num_raffled_nfts)
            × (0 < n)
            × Moved ts a.rewards_escrow_nft_account a.creator_nft_account n ts')
  unfolding claim_remaining_raffle_rewards_handler new_raffle_strategy
  claim_remaining_moves a id ts ts' e apart =
      let s = new_raffle_strategy a.raffle_key a.raffle a.global_states in
      bind_ok (load_token ts a.rewards_escrow_nft_account) e λ escrow _ e₁.
        bind_ok (init_associated_if_needed rt a.creator_nft_account a.nft_mint a.creator ts) e₁
          λ ts₁ created e₂. bind_ok (claim_remaining_constraints rt a id escrow) e₂ λ _ passed e₃.
            bind_ok (validate_claim_remaining_rewards s) e₃ λ _ valid e₄.
              bind_ok (num_remaining_rewards s) e₄ λ n found e₅.
                bind_ok
                  (transfer_rewards rt s a.rewards_escrow_nft_account a.creator_nft_account n ts₁)
                  e₅
                  λ ts₂ moved e₆.
                    let (some_left, some_won) = remaining_valid s n valid found in
                    (
                      claim_remaining_checked rt a id escrow passed,
                      some_won,
                      (
                        n,
                        remaining_exact s n found,
                        some_left,
                        rewards-Moved rt tp s a.rewards_escrow_nft_account a.creator_nft_account
                            a.creator a.nft_mint a.creator n ts ts₁ ts₂ ts' created moved e₆ apart,
                      ),
                    )
