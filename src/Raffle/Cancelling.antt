-- ===== src/Raffle/Cancelling.antt =====
-- What a cancelled raffle gives back: raffle/cancel_raffle.rs.
use raffle_auction_audited_c.Prelude.{ℕ, ◌+◌, ◌≡◌, sym, ap, ◌≢◌, none, some, arith, length}
use raffle_auction_audited_c.Failures.{bind_ok, ok_inj, ok}
use raffle_auction_audited_c.Types.{Pubkey, ListingStatus, Raffle}
use raffle_auction_audited_c.Runtime.{
  TokenAccount, Tokens, Runtime, balance, IsTokenProgram, load_token, init_associated_if_needed,
}
use raffle_auction_audited_c.Runtime.Transfers.{
  transfer_token_other, close_was_empty, close_removes, init_associated_keeps,
}
use raffle_auction_audited_c.Raffle.CancelRaffle.{
  CancelRaffle, cancel_raffle_constraints, cancel_raffle_handler,
}
use raffle_auction_audited_c.Raffle.Prizes.{remaining_exact}
use raffle_auction_audited_c.Raffle.Rewards.{Moved, close_balance, try_close_keeps, rewards-Moved}
use raffle_auction_audited_c.Raffle.Strategy.{
  cancel, new_raffle_strategy, num_remaining_rewards, get_raffle_signer_seed, transfer_rewards,
  try_close_rewards_escrow_nft_account, close_revenue_escrow_token_account,
}

cancel_checked :
    (rt : Runtime) (a : CancelRaffle) (id : ℕ) (rewards revenue : TokenAccount)
    → cancel_raffle_constraints rt a id rewards revenue ≡ ok tt
    → (a.raffle.creator ≡ a.creator) × (a.raffle.ticket_sold ≡ 0)
unfolding cancel_raffle_constraints
cancel_checked rt a id rewards revenue e = ground arith

module _ (rt : Runtime) (tp : IsTokenProgram rt) where
  -- When rewards escrow, revenue escrow and the creator's account are different and a raffle is
  -- cancelled: the cancelling is the creator's and no ticket was sold, the NFTs beyond the number
  -- of winners go from the rewards escrow to the creator's account, the revenue escrow, which was
  -- empty, is closed, and the raffle is cancelled.
  pub cancel_raffle_returns :
      (a : CancelRaffle) (id : ℕ) (ts : Tokens) (raffle' : Raffle) (ts' : Tokens)
      → cancel_raffle_handler rt a id ts ≡ ok (raffle', ts')
      → a.rewards_escrow_nft_account ≢ a.creator_nft_account
      → a.revenue_escrow_token_account ≢ a.rewards_escrow_nft_account
      → a.revenue_escrow_token_account ≢ a.creator_nft_account
      → (a.raffle.creator ≡ a.creator)
        × (a.raffle.ticket_sold ≡ 0)
        × ((n : ℕ) × (n + length a.raffle.winner_ids ≡ a.raffle.num_raffled_nfts)
            × Moved ts a.rewards_escrow_nft_account a.creator_nft_account n ts')
        × (ts' a.revenue_escrow_token_account ≡ none)
        × (balance ts a.revenue_escrow_token_account ≡ 0)
        × (raffle'.status ≡ ListingStatus.cancelled)
  unfolding cancel_raffle_handler new_raffle_strategy close_revenue_escrow_token_account cancel
      transfer_rewards
  cancel_raffle_returns a id ts raffle' ts' e apart apart' apart'' =
      let s = new_raffle_strategy a.raffle_key a.raffle a.global_states in
      let rewards = a.rewards_escrow_nft_account in
      let revenue = a.revenue_escrow_token_account in
      let seeds = get_raffle_signer_seed s in
      bind_ok (load_token ts rewards) e λ escrow _ e₁.
        bind_ok (load_token ts revenue) e₁ λ income _ e₂.
          bind_ok (init_associated_if_needed rt a.creator_nft_account a.nft_mint a.creator ts) e₂
            λ ts₁ created e₃.
              bind_ok (cancel_raffle_constraints rt a id escrow income) e₃ λ _ passed e₄.
                bind_ok (num_remaining_rewards s) e₄ λ n found e₅.
                  bind_ok (transfer_rewards rt s rewards a.creator_nft_account n ts₁) e₅
                    λ ts₂ moved e₆.
                      bind_ok (try_close_rewards_escrow_nft_account rt s rewards a.creator ts₂) e₆
                        λ ts₃ ended e₇.
                          bind_ok (close_revenue_escrow_token_account rt s revenue a.creator ts₃) e₇
                            λ ts₄ closed e₈.
                              let (own, unsold) = cancel_checked rt a id escrow income passed in
                              let same : ts₄ ≡ ts' =
                                ap (λ (x : Raffle × Tokens). x.1) (ok_inj e₈) in
                              let given =
                                rewards-Moved rt tp s rewards a.creator_nft_account a.creator
                                  a.nft_mint a.creator n ts ts₁ ts₂ ts₃ created moved ended apart in
                              let keeps : (b : Pubkey) → balance ts' b ≡ balance ts₃ b = λ b.
                                rw (← same) (
                                  close_balance rt tp revenue a.creator s.raffle_key seeds ts₃ ts₄ b
                                    closed) in
                              (
                                own,
                                unsold,
                                (
                                  n,
                                  remaining_exact s n found,
                                  record {
                                    taken = omega (arith, given.taken, keeps rewards);
                                    given = omega (arith, given.given, keeps a.creator_nft_account);
                                  },
                                ),
                                rw (← same) (
                                    close_removes rt tp revenue a.creator s.raffle_key seeds ts₃ ts₄
                                      closed),
                                omega (
                                  arith,
                                  close_was_empty rt tp revenue a.creator s.raffle_key seeds ts₃ ts₄
                                      closed,
                                  try_close_keeps rt tp s rewards a.creator ts₂ ts₃ revenue ended,
                                  transfer_token_other rt tp rewards a.creator_nft_account
                                      s.raffle_key n (some seeds) ts₁ ts₂ revenue moved apart'
                                      apart'',
                                  init_associated_keeps rt tp a.creator_nft_account a.nft_mint
                                      a.creator ts ts₁ revenue created,
                                ),
                                ap (λ (x : Raffle × Tokens). x.0.status) (sym (ok_inj e₈)),
                              )
