-- ===== src/Auction/Closing.antt =====
-- How an auction ends: auction/cancel_auction.rs, auction/claim_lot_nft.rs and
-- auction/claim_auction_revenue.rs.
use raffle_auction_audited_c.Prelude.{
  ℕ, ◌≡◌, refl, ap, ◌∙◌, ◌≢◌, Bool, true, false, not, Option, none, some, arith, ltb→lt, is_some_of,
}
use raffle_auction_audited_c.Prelude.Int.{◌<ℤ◌}
use raffle_auction_audited_c.Failures.{JustiesErrorCode, fail_if, bind_ok, ok}
use raffle_auction_audited_c.Types.{Pubkey, ListingStatus, Auction}
use raffle_auction_audited_c.Runtime.{
  TokenAccount, Tokens, Runtime, IsTokenProgram, load_token, get_current_timestamp,
  init_associated_if_needed,
}
use raffle_auction_audited_c.Runtime.Transfers.{init_associated_keeps}
use raffle_auction_audited_c.Auction.CancelAuction.{
  CancelAuction, cancel_auction_constraints, cancel_auction_handler,
}
use raffle_auction_audited_c.Auction.ClaimLotNft.{
  ClaimLotNft, claim_lot_nft_constraints, claim_lot_nft_handler,
}
use raffle_auction_audited_c.Auction.Refunds.{Emptied, transfer_and_close, Emptied-before}
use raffle_auction_audited_c.Auction.Strategy.{
  AuctionStrategy, new_auction_strategy, is_ended, cancel, get_lot_escrow_signer_seed,
  transfer_lot_nft, close_lot_escrow_nft_account, finalize_auction_if_need,
}

pub is_some_of-true : (o : Option Pubkey) (k : Pubkey) → is_some_of o k ≡ true → o ≡ some k
is_some_of-true none k e = cc
is_some_of-true (some a) k e = ap some (ground arith)

cancel_auction_checked :
    (rt : Runtime) (a : CancelAuction) (id : ℕ) (escrow : TokenAccount)
    → cancel_auction_constraints rt a id escrow ≡ ok tt
    → (a.auction.creator ≡ a.creator) × (a.auction.total_bids ≡ 0)
unfolding cancel_auction_constraints
cancel_auction_checked rt a id escrow e = ground arith

claim_lot_nft_checked :
    (rt : Runtime) (a : ClaimLotNft) (id : ℕ) (escrow : TokenAccount)
    → claim_lot_nft_constraints rt a id escrow ≡ ok tt
    → is_some_of a.auction.top_bidder a.bidder ≡ true
unfolding claim_lot_nft_constraints
claim_lot_nft_checked rt a id escrow e = ground arith

-- An auction may be finished with the last bid standing: `finalize_auction_if_need` sets the status
-- and keeps the bid.
pub finalize_data :
    (s : AuctionStrategy)
    → ((finalize_auction_if_need s).auction.status ≡ ListingStatus.finished)
      × ((finalize_auction_if_need s).auction.top_bidder ≡ s.auction.top_bidder)
      × ((finalize_auction_if_need s).auction.top_bid ≡ s.auction.top_bid)
unfolding finalize_auction_if_need
finalize_data s = ground arith

cancel_data :
    (s : AuctionStrategy)
    → ((cancel s).auction.status ≡ ListingStatus.cancelled)
      × ((cancel s).auction.total_bids ≡ s.auction.total_bids)
unfolding cancel
cancel_data s = (refl, refl)

pub passed_check : (b : Bool) (c : JustiesErrorCode) → fail_if (not b) c ≡ ok tt → b ≡ true
passed_check true c e = refl
passed_check false c e = cc

module _ (rt : Runtime) (tp : IsTokenProgram rt) where
  -- When the lot escrow is another account than the creator's and an auction is cancelled: the
  -- cancelling is the creator's and no bid was made, the NFT goes from the lot escrow, which held
  -- exactly it and is closed, to the creator's account, and the auction is cancelled.
  pub cancel_auction_returns :
      (a : CancelAuction) (id : ℕ) (ts : Tokens) (auction' : Auction) (ts' : Tokens)
      → cancel_auction_handler rt a id ts ≡ ok (auction', ts')
      → a.lot_escrow_nft_account ≢ a.creator_nft_account
      → (a.auction.creator ≡ a.creator)
        × (a.auction.total_bids ≡ 0)
        × Emptied ts a.lot_escrow_nft_account a.creator_nft_account 1 ts'
        × (auction'.status ≡ ListingStatus.cancelled)
  unfolding cancel_auction_handler transfer_lot_nft close_lot_escrow_nft_account
      new_auction_strategy
  cancel_auction_returns a id ts auction' ts' e apart =
      let s = new_auction_strategy a.auction_key a.auction a.global_states in
      let seeds = get_lot_escrow_signer_seed s in
      bind_ok (load_token ts a.lot_escrow_nft_account) e λ escrow _ e₁.
        bind_ok (init_associated_if_needed rt a.creator_nft_account a.nft_mint a.creator ts) e₁
          λ ts₁ created e₂. bind_ok (cancel_auction_constraints rt a id escrow) e₂ λ _ passed e₃.
            bind_ok (transfer_lot_nft rt s a.lot_escrow_nft_account a.creator_nft_account ts₁) e₃
              λ ts₂ moved e₄.
                bind_ok (close_lot_escrow_nft_account rt s a.lot_escrow_nft_account a.creator ts₂)
                  e₄
                  λ ts₃ closed e₅.
                    let (own, bidless) = cancel_auction_checked rt a id escrow passed in
                    let emptied =
                      transfer_and_close rt tp a.lot_escrow_nft_account a.creator_nft_account
                        a.auction_key a.creator a.auction_key 1 (some seeds) seeds ts₁ ts₂ ts₃ moved
                        closed apart in
                    let before =
                      Emptied-before rt tp a.lot_escrow_nft_account a.creator_nft_account 1 ts ts₁
                        ts₃
                        (λ b.
                          init_associated_keeps rt tp a.creator_nft_account a.nft_mint a.creator ts
                            ts₁ b created)
                        emptied in
                    let same : ts₃ ≡ ts' = ground arith in
                    let auction_is : (cancel s).auction ≡ auction' = ground arith in
                    (own, bidless, rw (← same) before, rw (← auction_is) (cancel_data s).0)

  -- When the lot escrow is another account than the bidder's and the NFT is claimed: the claimer
  -- is on top and the auction has ended, the NFT goes from the lot escrow, which held exactly it
  -- and is closed, to the claimer's account, and the auction is finished with the same bidder on
  -- top.
  pub claim_lot_nft_awards :
      (a : ClaimLotNft) (id : ℕ) (ts : Tokens) (auction' : Auction) (ts' : Tokens)
      → claim_lot_nft_handler rt a id ts ≡ ok (auction', ts')
      → a.lot_escrow_nft_account ≢ a.bidder_nft_account
      → (a.auction.top_bidder ≡ some a.bidder)
        × (a.auction.expired_timestamp <ℤ get_current_timestamp rt a.global_states)
        × Emptied ts a.lot_escrow_nft_account a.bidder_nft_account 1 ts'
        × (auction'.status ≡ ListingStatus.finished)
        × (auction'.top_bidder ≡ some a.bidder)
  unfolding claim_lot_nft_handler transfer_lot_nft close_lot_escrow_nft_account new_auction_strategy
      is_ended
  claim_lot_nft_awards a id ts auction' ts' e apart =
      let s = new_auction_strategy a.auction_key a.auction a.global_states in
      let seeds = get_lot_escrow_signer_seed s in
      let now = get_current_timestamp rt a.global_states in
      bind_ok (load_token ts a.lot_escrow_nft_account) e λ escrow _ e₁.
        bind_ok (init_associated_if_needed rt a.bidder_nft_account a.nft_mint a.bidder ts) e₁
          λ ts₁ created e₂. bind_ok (claim_lot_nft_constraints rt a id escrow) e₂ λ _ passed e₃.
            bind_ok (fail_if (not (is_ended s now)) JustiesErrorCode.ongoing_auction) e₃
              λ _ ended e₄.
                bind_ok (transfer_lot_nft rt s a.lot_escrow_nft_account a.bidder_nft_account ts₁) e₄
                  λ ts₂ moved e₅.
                    bind_ok
                      (close_lot_escrow_nft_account rt s a.lot_escrow_nft_account a.auction_creator
                        ts₂)
                      e₅
                      λ ts₃ closed e₆.
                        let on_top =
                          is_some_of-true _ _ (claim_lot_nft_checked rt a id escrow passed) in
                        let emptied =
                          transfer_and_close rt tp a.lot_escrow_nft_account a.bidder_nft_account
                            a.auction_key a.auction_creator a.auction_key 1 (some seeds) seeds ts₁
                            ts₂ ts₃ moved closed apart in
                        let before =
                          Emptied-before rt tp a.lot_escrow_nft_account a.bidder_nft_account 1 ts
                            ts₁ ts₃
                            (λ b.
                              init_associated_keeps rt tp a.bidder_nft_account a.nft_mint a.bidder
                                ts ts₁ b created)
                            emptied in
                        let same : ts₃ ≡ ts' = ground arith in
                        let auction_is : (finalize_auction_if_need s).auction ≡ auction' =
                          ground arith in
                        let (finished, kept, _) = finalize_data s in
                        (
                          on_top,
                          ltb→lt _ _ (passed_check _ _ ended),
                          rw (← same) before,
                          rw (← auction_is) finished,
                          rw (← auction_is) (kept ∙ on_top),
                        )
