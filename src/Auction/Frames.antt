-- ===== src/Auction/Frames.antt =====
-- What the operations of common/auction_strategy.rs and common/bid_strategy.rs leave of an auction's account.
use raffle_auction_audited_c.Prelude.{
  ℕ, ◌≤◌, ◌≡◌, refl, ◌∙◌, ◌≢◌, ◌⊎◌, inl, inr, not, List, arith, if◌then◌else◌, Bool-cases,
}
use raffle_auction_audited_c.Prelude.Int.{ℤ, pos}
use raffle_auction_audited_c.Failures.{JustiesErrorCode, fail_if, bind_ok, ok_inj, if_ok, ok}
use raffle_auction_audited_c.Failures.Checked.{add_u64, add_i64, mul_i64}
use raffle_auction_audited_c.Types.{
  Pubkey, ListingStatus, status_eq, GroupConfig, RevenueShareConfig, Auction,
}
use raffle_auction_audited_c.Runtime.{TokenAccount}
use raffle_auction_audited_c.Auction.Bidding.{
  BidStrategy, validate_bid, set_top_bid, extend_if_needed, make_bid,
}
use raffle_auction_audited_c.Auction.Strategy.{
  AuctionStrategy, is_ended, is_cancelled, need_to_extend, extend, cancel, finalize_auction_if_need,
}

-- What an auction was created with.
pub record AuctionTerms : Type 0 where
  pub id : ℕ
  pub nft : Pubkey
  pub currency : Pubkey
  pub start_bid : ℕ
  pub creator : Pubkey
  pub groups : List GroupConfig
  pub shares : List RevenueShareConfig

abbrev pub terms_of : Auction → AuctionTerms
terms_of x = record {
  id = x.id;
  nft = x.nft_mint_address;
  currency = x.currency_token_mint_address;
  start_bid = x.start_bid;
  creator = x.creator;
  groups = x.eligible_groups;
  shares = x.revenue_shares;
}

abbrev pub SameTerms : Auction → Auction → Type 0
SameTerms x y = terms_of y ≡ terms_of x

-- What a step keeps: the terms; the number of bids does not fall; and an auction that is cancelled has
-- no bid, or was cancelled already with as many.
pub record Kept (x y : Auction) : Type 0 where
  pub terms : SameTerms x y
  pub bids : x.total_bids ≤ y.total_bids
  pub cancelled :
      y.status ≡ ListingStatus.cancelled
      → (y.total_bids ≡ 0) ⊎ ((x.status ≡ ListingStatus.cancelled) × (y.total_bids ≡ x.total_bids))

pub same_Kept : (x : Auction) → Kept x x
same_Kept x = record { terms = refl; bids = omega arith; cancelled = λ c. inr (c, refl) }

pub trans_Kept : (x y z : Auction) → Kept x y → Kept y z → Kept x z
trans_Kept x y z h k = record {
  terms = k.terms ∙ h.terms;
  bids = omega (arith, h.bids, k.bids);
  cancelled = λ c. elim (k.cancelled c) [
    | inl empty ↦ inl empty
    | inr (before, same) ↦ elim (h.cancelled before) [
      | inl empty ↦ inl (same ∙ empty)
      | inr (first, same') ↦ inr (first, same ∙ same')
    ]
  ];
}

pub finalize_Kept : (s : AuctionStrategy) → Kept s.auction (finalize_auction_if_need s).auction
unfolding finalize_auction_if_need
finalize_Kept s = elim (Bool-cases (not (status_eq s.auction.status ListingStatus.finished))) [
  | inl open_yet ↦ rw (open_yet) (record { terms = refl; bids = omega arith; cancelled = λ c. cc })
  | inr done ↦ rw (done) (same_Kept s.auction)
]

pub cancel-Kept :
    (s : AuctionStrategy) → s.auction.total_bids ≡ 0 → Kept s.auction (cancel s).auction
unfolding cancel
cancel-Kept s unbid = record { terms = refl; bids = omega arith; cancelled = λ c. inl unbid }

-- A bid keeps the status.
pub record Rebid (x y : Auction) : Type 0 where
  pub terms : SameTerms x y
  pub bids : x.total_bids ≤ y.total_bids
  pub status : y.status ≡ x.status

set_top_bid-Rebid :
    (s : BidStrategy) (r : AuctionStrategy)
    → set_top_bid s ≡ ok r
    → Rebid s.auction_strategy.auction r.auction
unfolding set_top_bid
set_top_bid-Rebid s r e =
    bind_ok
      (if s.newly_initialized
        then add_u64 s.auction_strategy.auction.total_bids 1
        else ok s.auction_strategy.auction.total_bids)
      e
      λ total counted e₁.
        rw (← ok_inj e₁) (record { terms = refl; bids = ground arith; status = refl })

extend-Rebid :
    (s r : AuctionStrategy) (now : ℤ) → extend_if_needed s now ≡ ok r → Rebid s.auction r.auction
unfolding extend_if_needed extend
extend-Rebid s r now e = bind_ok (need_to_extend s now) e λ needed _ e₁.
    elim (if_ok needed _ _ e₁) [
      | inl (_, extends) ↦
          bind_ok (mul_i64 (pos s.global_states.auction_extend_minutes) (pos 60)) extends
            λ period _ e₂. bind_ok (add_i64 now period) e₂ λ expired _ e₃.
              rw (← ok_inj e₃) (record { terms = refl; bids = omega arith; status = refl })
      | inr (_, stays) ↦
          rw (← ok_inj stays) (record { terms = refl; bids = omega arith; status = refl })
    ]

pub make_bid-Rebid :
    (s r : BidStrategy)
    → make_bid s ≡ ok r
    → Rebid s.auction_strategy.auction r.auction_strategy.auction
unfolding make_bid
make_bid-Rebid s r e = bind_ok (set_top_bid s) e λ topped tops e₁.
    bind_ok (extend_if_needed topped s.current_timestamp) e₁ λ extended extends e₂.
      let first = set_top_bid-Rebid s topped tops in
      let second = extend-Rebid topped extended s.current_timestamp extends in
      rw (← ok_inj e₂) (record {
        terms = second.terms ∙ first.terms;
        bids = omega (arith, first.bids, second.bids);
        status = second.status ∙ first.status;
      })

refused :
    (status : ListingStatus)
    → status ≡ ListingStatus.cancelled
    → fail_if (status_eq status ListingStatus.cancelled) JustiesErrorCode.auction_cancelled ≡ ok tt
    → ⊥
refused ListingStatus.in_progress c e = cc
refused ListingStatus.finished c e = cc
refused ListingStatus.cancelled c e = cc

pub validated_open :
    (s : BidStrategy) (escrow funds : TokenAccount)
    → validate_bid s escrow funds ≡ ok tt
    → s.auction_strategy.auction.status ≢ ListingStatus.cancelled
unfolding validate_bid is_cancelled
validated_open s escrow funds e =
    bind_ok
      (fail_if (is_ended s.auction_strategy s.current_timestamp)
        JustiesErrorCode.bid_on_ended_auction)
      e
      λ _ _ e₁.
        bind_ok (fail_if (is_cancelled s.auction_strategy) JustiesErrorCode.auction_cancelled) e₁
          λ _ open_yet _. λ c. refused _ c open_yet
