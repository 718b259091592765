-- ===== src/Auction/Life.antt =====
-- The life of an auction: the instructions of auction/ as steps on its account, in any order and by anyone.
use raffle_auction_audited_c.Prelude.{
  ℕ, ◌≤◌, ◌<◌, ◌≡◌, ap, ◌∙◌, ◌≢◌, ◌⊎◌, inl, inr, List, arith, sum,
}
use raffle_auction_audited_c.Failures.{ok}
use raffle_auction_audited_c.Types.{Pubkey, ListingStatus, GlobalStates, Auction, AuctionBid}
use raffle_auction_audited_c.Runtime.{Tokens, Runtime, IsTokenProgram}
use raffle_auction_audited_c.Auction.CancelAuction.{CancelAuction, cancel_auction_handler}
use raffle_auction_audited_c.Auction.CancelAuctionBid.{CancelAuctionBid, cancel_auction_bid_handler}
use raffle_auction_audited_c.Auction.ClaimAuctionRevenue.{
  ClaimAuctionRevenue, claim_auction_revenue_handler,
}
use raffle_auction_audited_c.Auction.ClaimLotNft.{ClaimLotNft, claim_lot_nft_handler}
use raffle_auction_audited_c.Auction.CreateAuction.{
  CreateAuction, CreateAuctionArgs, create_auction_handler,
}
use raffle_auction_audited_c.Auction.Creation.{create_auction_starts}
use raffle_auction_audited_c.Auction.Frames.{AuctionTerms, Kept, same_Kept, trans_Kept}
use raffle_auction_audited_c.Auction.Keeping.{
  bid_Kept, cancel_bid_Kept, cancel_auction_Kept, claim_lot_Kept, claim_revenue_Kept,
}
use raffle_auction_audited_c.Auction.MakeBid.{MakeBid, MakeBidArgs, make_bid_handler}
use raffle_auction_audited_c.Revenue.{config_shares}
use raffle_auction_audited_c.Types.Status.{in_progress_open, cancelled_or_not}

-- An instruction that succeeds, from the auction that it was given to the one that it leaves.
pub data Step (rt : Runtime) : Auction → Auction → Type 0 where
  make_bid_step :
      (a : MakeBid) (args : MakeBidArgs) (ts : Tokens) (a' : MakeBid) (ts' : Tokens) (x y : Auction)
      → make_bid_handler rt a args ts ≡ ok (a', ts')
      → x ≡ a.auction
      → y ≡ a'.auction
      → Step rt x y
  cancel_own_bid :
      (a : CancelAuctionBid) (auction_id : ℕ) (ts : Tokens) (bid' : AuctionBid) (ts' : Tokens)
      (x y : Auction)
      → cancel_auction_bid_handler rt a auction_id ts ≡ ok (bid', y, ts')
      → x ≡ a.auction
      → Step rt x y
  cancel_auction :
      (a : CancelAuction) (auction_id : ℕ) (ts ts' : Tokens) (x y : Auction)
      → cancel_auction_handler rt a auction_id ts ≡ ok (y, ts')
      → x ≡ a.auction
      → Step rt x y
  claim_lot :
      (a : ClaimLotNft) (auction_id : ℕ) (ts ts' : Tokens) (x y : Auction)
      → claim_lot_nft_handler rt a auction_id ts ≡ ok (y, ts')
      → x ≡ a.auction
      → Step rt x y
  claim_revenue :
      (a : ClaimAuctionRevenue) (auction_id : ℕ) (accounts : List Pubkey) (ts ts' : Tokens)
      (x y : Auction)
      → claim_auction_revenue_handler rt a auction_id accounts ts ≡ ok (y, ts')
      → x ≡ a.auction
      → Step rt x y

pub data Steps (rt : Runtime) : Auction → Auction → Type 0 where
  none_yet : (x : Auction) → Steps rt x x
  followed_by : (x y z : Auction) → Steps rt x y → Step rt y z → Steps rt x z

Step-Kept : (rt : Runtime) (x y : Auction) → Step rt x y → Kept x y
Step-Kept rt _ _ (make_bid_step a args ts a' ts' x y e p q) =
    rw (p, q) (bid_Kept rt a args ts a' ts' e)
Step-Kept rt _ _ (cancel_own_bid a id ts bid' ts' x y e p) =
    rw (p) (cancel_bid_Kept rt a id ts bid' y ts' e)
Step-Kept rt _ _ (cancel_auction a id ts ts' x y e p) =
    rw (p) (cancel_auction_Kept rt a id ts y ts' e)
Step-Kept rt _ _ (claim_lot a id ts ts' x y e p) = rw (p) (claim_lot_Kept rt a id ts y ts' e)
Step-Kept rt _ _ (claim_revenue a id accounts ts ts' x y e p) =
    rw (p) (claim_revenue_Kept rt a id accounts ts y ts' e)

Steps-Kept : (rt : Runtime) (x y : Auction) → Steps rt x y → Kept x y
Steps-Kept rt _ _ (none_yet x) = same_Kept x
Steps-Kept rt _ _ (followed_by x y z before last) =
    trans_Kept x y z (Steps-Kept rt x y before) (Step-Kept rt y z last)

-- An auction that has a bid and is not cancelled is never cancelled, by whatever instructions follow,
-- and its number of bids never falls.
pub bids_prevent_cancel :
    (rt : Runtime) (x y : Auction)
    → Steps rt x y
    → 0 < x.total_bids
    → x.status ≢ ListingStatus.cancelled
    → (y.status ≢ ListingStatus.cancelled) × (x.total_bids ≤ y.total_bids)
bids_prevent_cancel rt x y steps some_bid open_yet =
    let kept = Steps-Kept rt x y steps in
    (
      λ c. elim (kept.cancelled c) [
        | inl empty ↦ absurd (omega (arith, empty, kept.bids))
        | inr (before, _) ↦ open_yet before
      ],
      kept.bids,
    )

-- When its lot escrow is another account than the creator's: an auction that was created keeps the
-- creator, the NFT, the currency, the start bid, the groups and the shares of its creation, whatever
-- instructions follow, and the shares add up to the whole; if it was cancelled, it never had a bid.
pub created_auction_life :
    (rt : Runtime) (tp : IsTokenProgram rt) (a : CreateAuction) (args : CreateAuctionArgs)
    (ts : Tokens) (x : Auction) (states' : GlobalStates) (ts' : Tokens) (y : Auction)
    → create_auction_handler rt a args ts ≡ ok (x, states', ts')
    → a.creator_nft_account ≢ a.lot_escrow_nft_account
    → Steps rt x y
    → (y.creator ≡ a.creator)
      × (y.nft_mint_address ≡ a.nft_mint)
      × (y.currency_token_mint_address ≡ a.currency_token_mint)
      × (y.start_bid ≡ args.start_bid)
      × (y.eligible_groups ≡ args.eligible_groups)
      × (y.revenue_shares ≡ args.revenue_shares)
      × (sum (config_shares y.revenue_shares) ≡ 10000)
      × ((y.status ≢ ListingStatus.cancelled) ⊎ (y.total_bids ≡ 0))
created_auction_life rt tp a args ts x states' ts' y made apart steps =
    let (new, own, _, _, whole, _, _, _) =
      create_auction_starts rt tp a args ts x states' ts' made apart in
    let kept = Steps-Kept rt x y steps in
    let terms = kept.terms in
    (
      ap (λ (t : AuctionTerms). t.creator) terms ∙ own,
      ap (λ (t : AuctionTerms). t.nft) terms ∙ new.nft,
      ap (λ (t : AuctionTerms). t.currency) terms ∙ new.currency,
      ap (λ (t : AuctionTerms). t.start_bid) terms ∙ new.start,
      ap (λ (t : AuctionTerms). t.groups) terms ∙ new.groups,
      ap (λ (t : AuctionTerms). t.shares) terms ∙ new.shares,
      rw (ap (λ (t : AuctionTerms). t.shares) terms) whole,
      elim (cancelled_or_not y.status) [
        | inl open_yet ↦ inl open_yet
        | inr c ↦ elim (kept.cancelled c) [
          | inl empty ↦ inr empty
          | inr (before, _) ↦ absurd (in_progress_open x.status new.running before)
        ]
      ],
    )
