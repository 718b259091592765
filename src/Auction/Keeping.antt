-- ===== src/Auction/Keeping.antt =====
-- What each instruction of auction/ keeps of the account of its auction.
use raffle_auction_audited_c.Prelude.{
  ℕ, ◌≡◌, sym, ap, ◌∙◌, ◌≢◌, inl, inr, not, List, arith, Bool-cases,
}
use raffle_auction_audited_c.Failures.{JustiesErrorCode, fail_if, bind_ok, ok_inj, ok}
use raffle_auction_audited_c.Types.{Pubkey, ListingStatus, Auction, AuctionBid}
use raffle_auction_audited_c.Runtime.{
  TokenAccount, Tokens, Runtime, load_token, get_current_timestamp, init_associated_if_needed,
}
use raffle_auction_audited_c.Auction.Bidding.{
  BidStrategy, new_bid_strategy, cancel_bid, refund, close_bid_escrow_token_account,
}
use raffle_auction_audited_c.Auction.CancelAuction.{
  CancelAuction, cancel_auction_constraints, cancel_auction_handler,
}
use raffle_auction_audited_c.Auction.CancelAuctionBid.{
  CancelAuctionBid, cancel_auction_bid_constraints, cancel_bid_strategy, cancel_auction_bid_handler,
}
use raffle_auction_audited_c.Auction.ClaimAuctionRevenue.{
  ClaimAuctionRevenue, claim_auction_revenue_constraints, auction_revenue_strategy,
  claim_auction_revenue_handler,
}
use raffle_auction_audited_c.Auction.ClaimLotNft.{
  ClaimLotNft, claim_lot_nft_constraints, claim_lot_nft_handler,
}
use raffle_auction_audited_c.Auction.Frames.{
  Kept, same_Kept, finalize_Kept, cancel-Kept, Rebid, make_bid-Rebid, validated_open,
}
use raffle_auction_audited_c.Auction.MakeBid.{
  MakeBid, MakeBidArgs, make_bid_init, make_bid_constraints, make_bid_strategy, make_bid_handler,
}
use raffle_auction_audited_c.Auction.Placing.{set_bid_data, place_bid_parts}
use raffle_auction_audited_c.Auction.Strategy.{
  AuctionStrategy, new_auction_strategy, is_ended, transfer_lot_nft, close_lot_escrow_nft_account,
}
use raffle_auction_audited_c.Eligibility.{require_eligible}
use raffle_auction_audited_c.Revenue.{init_revenue_distribution_accounts, run_distribution}

Rebid-Kept : (x y : Auction) → Rebid x y → x.status ≢ ListingStatus.cancelled → Kept x y
Rebid-Kept x y r open_yet = record {
  terms = r.terms;
  bids = r.bids;
  cancelled = λ c. absurd (open_yet (sym r.status ∙ c));
}

pub bid_Kept :
    (rt : Runtime) (a : MakeBid) (args : MakeBidArgs) (ts : Tokens) (a' : MakeBid) (ts' : Tokens)
    → make_bid_handler rt a args ts ≡ ok (a', ts')
    → Kept a.auction a'.auction
unfolding make_bid_handler make_bid_strategy new_bid_strategy new_auction_strategy
bid_Kept rt a args ts a' ts' e =
    let s = make_bid_strategy rt a args in
    bind_ok (load_token ts a.bidder_token_account) e λ funds _ e₁.
      bind_ok (make_bid_init rt a ts) e₁ λ ts₁ _ e₂.
        bind_ok (make_bid_constraints rt a args funds) e₂ λ _ _ e₃.
          bind_ok (load_token ts₁ a.bid_escrow_token_account) e₃ λ escrow _ e₄.
            bind_ok
              (require_eligible a.auction.eligible_groups a.bidder.key args.eligibility_check_input
                args.remaining_accounts)
              e₄
              λ _ _ e₅.
                let (valid, r, m, recorded, _, made, _, auction') =
                  place_bid_parts rt a s escrow funds ts₁ a' ts' e₅ in
                let (_, same, _, _) = set_bid_data s r _ recorded in
                let kept =
                  rw (ap (λ (x : AuctionStrategy). x.auction) same, ← auction') at
                    (make_bid-Rebid r m made) in
                Rebid-Kept a.auction a'.auction kept (validated_open s escrow funds valid)

cancelled_bid_Kept :
    (s : BidStrategy) → Kept s.auction_strategy.auction (cancel_bid s).auction_strategy.auction
unfolding cancel_bid
cancelled_bid_Kept s = elim (Bool-cases (is_ended s.auction_strategy s.current_timestamp)) [
  | inl ended ↦ rw (ended) (finalize_Kept s.auction_strategy)
  | inr running ↦ rw (running) (same_Kept s.auction_strategy.auction)
]

pub cancel_bid_Kept :
    (rt : Runtime) (a : CancelAuctionBid) (id : ℕ) (ts : Tokens) (bid' : AuctionBid) (y : Auction)
    (ts' : Tokens)
    → cancel_auction_bid_handler rt a id ts ≡ ok (bid', y, ts')
    → Kept a.auction y
unfolding cancel_auction_bid_handler cancel_bid_strategy new_bid_strategy new_auction_strategy
cancel_bid_Kept rt a id ts bid' y ts' e =
    let s = cancel_bid_strategy rt a in
    bind_ok (load_token ts a.bid_escrow_token_account) e λ escrow _ e₁.
      bind_ok (init_associated_if_needed rt a.bidder_token_account a.token_mint a.bidder ts) e₁
        λ ts₁ _ e₂. bind_ok (cancel_auction_bid_constraints rt a id escrow) e₂ λ _ _ e₃.
          bind_ok (refund rt s a.bid_escrow_token_account escrow a.bidder_token_account ts₁) e₃
            λ ts₂ _ e₄.
              bind_ok (close_bid_escrow_token_account rt s a.bid_escrow_token_account ts₂) e₄
                λ ts₃ _ e₅.
                  rw (← ap (λ (x : AuctionBid × Auction × Tokens). x.1) (ok_inj e₅))
                    (cancelled_bid_Kept s)

unbid :
    (rt : Runtime) (a : CancelAuction) (id : ℕ) (lot : TokenAccount)
    → cancel_auction_constraints rt a id lot ≡ ok tt
    → a.auction.total_bids ≡ 0
unfolding cancel_auction_constraints
unbid rt a id lot e = ground arith

pub cancel_auction_Kept :
    (rt : Runtime) (a : CancelAuction) (id : ℕ) (ts : Tokens) (y : Auction) (ts' : Tokens)
    → cancel_auction_handler rt a id ts ≡ ok (y, ts')
    → Kept a.auction y
unfolding cancel_auction_handler new_auction_strategy
cancel_auction_Kept rt a id ts y ts' e =
    let s = new_auction_strategy a.auction_key a.auction a.global_states in
    bind_ok (load_token ts a.lot_escrow_nft_account) e λ lot _ e₁.
      bind_ok (init_associated_if_needed rt a.creator_nft_account a.nft_mint a.creator ts) e₁
        λ ts₁ _ e₂. bind_ok (cancel_auction_constraints rt a id lot) e₂ λ _ passed e₃.
          bind_ok (transfer_lot_nft rt s a.lot_escrow_nft_account a.creator_nft_account ts₁) e₃
            λ ts₂ _ e₄.
              bind_ok (close_lot_escrow_nft_account rt s a.lot_escrow_nft_account a.creator ts₂) e₄
                λ ts₃ _ e₅.
                  rw (← ap (λ (x : Auction × Tokens). x.0) (ok_inj e₅))
                    (cancel-Kept s (unbid rt a id lot passed))

pub claim_lot_Kept :
    (rt : Runtime) (a : ClaimLotNft) (id : ℕ) (ts : Tokens) (y : Auction) (ts' : Tokens)
    → claim_lot_nft_handler rt a id ts ≡ ok (y, ts')
    → Kept a.auction y
unfolding claim_lot_nft_handler new_auction_strategy
claim_lot_Kept rt a id ts y ts' e =
    let s = new_auction_strategy a.auction_key a.auction a.global_states in
    bind_ok (load_token ts a.lot_escrow_nft_account) e λ lot _ e₁.
      bind_ok (init_associated_if_needed rt a.bidder_nft_account a.nft_mint a.bidder ts) e₁
        λ ts₁ _ e₂. bind_ok (claim_lot_nft_constraints rt a id lot) e₂ λ _ _ e₃.
          bind_ok
            (fail_if (not (is_ended s (get_current_timestamp rt a.global_states)))
              JustiesErrorCode.ongoing_auction)
            e₃
            λ _ _ e₄.
              bind_ok (transfer_lot_nft rt s a.lot_escrow_nft_account a.bidder_nft_account ts₁) e₄
                λ ts₂ _ e₅.
                  bind_ok
                    (close_lot_escrow_nft_account rt s a.lot_escrow_nft_account a.auction_creator
                      ts₂)
                    e₅
                    λ ts₃ _ e₆.
                      rw (← ap (λ (x : Auction × Tokens). x.0) (ok_inj e₆)) (finalize_Kept s)

pub claim_revenue_Kept :
    (rt : Runtime) (a : ClaimAuctionRevenue) (id : ℕ) (accounts : List Pubkey) (ts : Tokens)
    (y : Auction) (ts' : Tokens)
    → claim_auction_revenue_handler rt a id accounts ts ≡ ok (y, ts')
    → Kept a.auction y
unfolding claim_auction_revenue_handler new_auction_strategy
claim_revenue_Kept rt a id accounts ts y ts' e =
    let s = new_auction_strategy a.auction_key a.auction a.global_states in
    bind_ok (load_token ts a.bid_escrow_token_account) e λ escrow _ e₁.
      bind_ok (load_token ts a.fee_treasury_token_account) e₁ λ treasury _ e₂.
        bind_ok (claim_auction_revenue_constraints rt a id escrow treasury) e₂ λ _ _ e₃.
          bind_ok
            (fail_if (not (is_ended s (get_current_timestamp rt a.global_states)))
              JustiesErrorCode.ongoing_auction)
            e₃
            λ _ _ e₄.
              bind_ok
                (init_revenue_distribution_accounts rt a.token_mint a.auction.revenue_shares
                  accounts ts)
                e₄
                λ ready _ e₅.
                  bind_ok (run_distribution rt (auction_revenue_strategy a escrow ready.0) ready.1)
                    e₅
                    λ ts₁ _ e₆.
                      rw (← ap (λ (x : Auction × Tokens). x.0) (ok_inj e₆)) (finalize_Kept s)
