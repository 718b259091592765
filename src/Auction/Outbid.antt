-- ===== src/Auction/Outbid.antt =====
-- What a validated bid satisfies: get_min_eligible_bid of common/auction_strategy.rs with
-- validate_bid and get_actual_bid of common/bid_strategy.rs.
use raffle_auction_audited_c.Prelude.{
  ℕ, ◌+◌, ◌*◌, ◌/◌, ◌^◌, ◌≤◌, ◌<◌, max, ◌≡◌, refl, ◌≢◌, ◌↔◌, inl, inr, false, arith,
}
use raffle_auction_audited_c.Prelude.Int.{ℤ, quot_ℕ, ◌≤ℤ◌, *ℤ_pos, +ℤ_pos, pos}
use raffle_auction_audited_c.Failures.{Result-cases, ok}
use raffle_auction_audited_c.Failures.Checked.{check_i64, as_i64}
use raffle_auction_audited_c.Types.{ListingStatus, status_eq}
use raffle_auction_audited_c.Runtime.{TokenAccount}
use raffle_auction_audited_c.Auction.Bidding.{
  BidStrategy, auction_of, get_actual_bid, get_transfer_amount, check_min_outbid, validate_bid,
}
use raffle_auction_audited_c.Auction.Strategy.{
  AuctionStrategy, is_ended, is_cancelled, get_min_eligible_bid,
}

-- The top bid raised by the minimum outbid rate, rounded down.
abbrev pub raised : ℕ → ℕ → ℕ
raised top_bid rate = top_bid + top_bid * rate / 10000

abbrev pub top_of : BidStrategy → ℕ
top_of s = (auction_of s).top_bid

abbrev pub rate_of : BidStrategy → ℕ
rate_of s = s.auction_strategy.global_states.min_outbid_rate_bps

as_i64_small : (n : ℕ) → n < 2 ^ 63 → as_i64 n ≡ pos n
as_i64_small n h = ground arith

check_i64_pos : (n : ℕ) {z : ℤ} → check_i64 (pos n) ≡ ok z → (z ≡ pos n) × (n < 2 ^ 63)
check_i64_pos n h = ground arith

-- Below 2^63 the signed arithmetic computes the raised top bid, or panics.
pub min_eligible_exact :
    (s : AuctionStrategy) (m : ℕ)
    → s.auction.top_bid < 2 ^ 63
    → get_min_eligible_bid s ≡ ok m
    → m ≡ raised s.auction.top_bid s.global_states.min_outbid_rate_bps
unfolding get_min_eligible_bid quot_ℕ
min_eligible_exact s m h e =
    let t = s.auction.top_bid in
    let r = s.global_states.min_outbid_rate_bps in
    ground (arith, as_i64_small t h, *ℤ_pos t r, +ℤ_pos t (t * r / 10000))

pub min_eligible_total :
    (s : AuctionStrategy)
    → s.auction.top_bid < 2 ^ 63
    → s.auction.top_bid * s.global_states.min_outbid_rate_bps < 2 ^ 63
    → raised s.auction.top_bid s.global_states.min_outbid_rate_bps < 2 ^ 63
    → get_min_eligible_bid s ≡ ok (raised s.auction.top_bid s.global_states.min_outbid_rate_bps)
unfolding get_min_eligible_bid quot_ℕ
min_eligible_total s h p q =
    let t = s.auction.top_bid in
    let r = s.global_states.min_outbid_rate_bps in
    ground (arith, as_i64_small t h, *ℤ_pos t r, +ℤ_pos t (t * r / 10000))

-- The amounts fit the signed 64-bit arithmetic of get_min_eligible_bid.
abbrev pub Fits : BidStrategy → Type 0
Fits s =
    (top_of s < 2 ^ 63) × (top_of s * rate_of s < 2 ^ 63) × (raised (top_of s) (rate_of s) < 2 ^ 63)

-- The bid that is made: the amount offered, or the least that outbids, if that is more.
abbrev pub bid_made : BidStrategy → ℕ
bid_made s = max s.bid_amount (raised (top_of s) (rate_of s))

pub actual_bid_total : (s : BidStrategy) → Fits s → get_actual_bid s ≡ ok (bid_made s)
unfolding get_actual_bid
actual_bid_total s (a, b, c) = rw (min_eligible_total s.auction_strategy a b c)

pub actual_bid_exact :
    (s : BidStrategy) (v : ℕ) → top_of s < 2 ^ 63 → get_actual_bid s ≡ ok v → v ≡ bid_made s
unfolding get_actual_bid
actual_bid_exact s v h e = elim (Result-cases (get_min_eligible_bid s.auction_strategy)) [
  | inr (f, bad) ↦ ground arith
  | inl (m, found) ↦ ground (arith, min_eligible_exact s.auction_strategy m h found)
]

-- When a bid is acceptable, in terms of the auction and the two balances.
pub record IsAcceptable (s : BidStrategy) (escrow funds : TokenAccount) : Type 0 where
  pub open_ : s.current_timestamp ≤ℤ (auction_of s).expired_timestamp
  pub live : (auction_of s).status ≢ ListingStatus.cancelled
  pub positive : 0 < s.bid_amount
  pub within : s.bid_amount ≤ s.max_allowed_bid_amount
  pub start : (auction_of s).start_bid ≤ s.bid_amount
  pub above : top_of s < s.max_allowed_bid_amount
  pub outbids : raised (top_of s) (rate_of s) ≤ s.max_allowed_bid_amount
  pub covers : escrow.amount ≤ bid_made s
  pub funded : bid_made s ≤ escrow.amount + funds.amount

status_eq-cancelled :
    (st : ListingStatus)
    → status_eq st ListingStatus.cancelled ≡ false
    → st ≢ ListingStatus.cancelled
status_eq-cancelled ListingStatus.in_progress h e = cc
status_eq-cancelled ListingStatus.finished h e = cc
status_eq-cancelled ListingStatus.cancelled h e = cc

status_ne_cancelled :
    (st : ListingStatus)
    → st ≢ ListingStatus.cancelled
    → status_eq st ListingStatus.cancelled ≡ false
status_ne_cancelled ListingStatus.in_progress h = refl
status_ne_cancelled ListingStatus.finished h = refl
status_ne_cancelled ListingStatus.cancelled h = absurd (h refl)

-- The checks before the amounts, as one Boolean.
module _ (s : BidStrategy) (escrow funds : TokenAccount) (fits : Fits s) where
  min_check : get_min_eligible_bid s.auction_strategy ≡ ok (raised (top_of s) (rate_of s))
  min_check = min_eligible_total s.auction_strategy fits.0 fits.1 fits.2

  validate_bid_sound : validate_bid s escrow funds ≡ ok tt → IsAcceptable s escrow funds
  unfolding validate_bid check_min_outbid get_transfer_amount get_actual_bid is_ended is_cancelled
  validate_bid_sound e = record {
    open_ = ground arith;
    live = status_eq-cancelled _ (ground arith);
    positive = ground arith;
    within = ground arith;
    start = ground arith;
    above = ground arith;
    outbids = ground (arith, min_check);
    covers = ground (arith, min_check);
    funded = ground (arith, min_check);
  }

  validate_bid_complete : IsAcceptable s escrow funds → validate_bid s escrow funds ≡ ok tt
  unfolding validate_bid check_min_outbid get_transfer_amount get_actual_bid is_ended is_cancelled
  validate_bid_complete v = ground (arith, min_check, status_ne_cancelled _ v.live)

  -- For amounts that fit the signed arithmetic, a bid passes validation exactly when the auction
  -- is open and not cancelled, the offer is positive, at least the start bid and at most the
  -- bidder's maximum, the maximum is above the top bid and reaches the raised top bid, and the
  -- bid made is no less than the escrow holds and no more than escrow and account hold together.
  pub validate_bid_iff : (validate_bid s escrow funds ≡ ok tt) ↔ IsAcceptable s escrow funds
  validate_bid_iff = (validate_bid_sound, validate_bid_complete)
