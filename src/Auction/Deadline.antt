-- ===== src/Auction/Deadline.antt =====
-- When a bid moves the end of an auction: need_to_extend and extend of common/auction_strategy.rs, as
-- make_bid of common/bid_strategy.rs runs them.
use raffle_auction_audited_c.Prelude.{
  ℕ, ◌*◌, ◌≤◌, ◌≡◌, ◌∙◌, ◌↔◌, inl, inr, Bool, arith, if◌then◌else◌, ltb→lt, Bool-cases,
}
use raffle_auction_audited_c.Prelude.Int.{
  ℤ, ◌+ℤ◌, ◌-ℤ◌, ◌≤ℤ◌, ◌<ℤ◌, ltb_ℤ, +ℤ_parts, -ℤ_parts, *ℤ_pos, pos,
}
use raffle_auction_audited_c.Failures.{bind_ok, ok}
use raffle_auction_audited_c.Failures.Checked.{check_i64, add_i64, sub_i64, mul_i64}
use raffle_auction_audited_c.Auction.Bidding.{extend_if_needed}
use raffle_auction_audited_c.Auction.Strategy.{AuctionStrategy, need_to_extend, extend}

abbrev pub window_of : AuctionStrategy → ℕ
window_of s = s.global_states.last_minutes_for_auction_extend * 60

abbrev pub period_of : AuctionStrategy → ℕ
period_of s = s.global_states.auction_extend_minutes * 60

checked : (z w : ℤ) → check_i64 z ≡ ok w → w ≡ z
checked z w e = ground arith

need_to_extend_exact :
    (s : AuctionStrategy) (now : ℤ) (b : Bool)
    → need_to_extend s now ≡ ok b
    → b ≡ ltb_ℤ (s.auction.expired_timestamp -ℤ pos (window_of s)) now
unfolding need_to_extend
need_to_extend_exact s now b e =
    let last = s.global_states.last_minutes_for_auction_extend in
    bind_ok (mul_i64 (pos last) (pos 60)) e λ window e₁ e₂.
      bind_ok (sub_i64 s.auction.expired_timestamp window) e₂ λ start e₃ e₄.
        let w : window ≡ pos (last * 60) = checked _ window e₁ ∙ *ℤ_pos last 60 in
        let st : start ≡ s.auction.expired_timestamp -ℤ window = checked _ start e₃ in
        rw (← w, ← st) (ground arith)

extend_exact :
    (s r : AuctionStrategy) (now : ℤ)
    → extend s now ≡ ok r
    → r.auction.expired_timestamp ≡ now +ℤ pos (period_of s)
unfolding extend
extend_exact s r now e =
    let period = s.global_states.auction_extend_minutes in
    bind_ok (mul_i64 (pos period) (pos 60)) e λ length e₁ e₂.
      bind_ok (add_i64 now length) e₂ λ expired e₃ e₄.
        let w : length ≡ pos (period * 60) = checked _ length e₁ ∙ *ℤ_pos period 60 in
        let x : expired ≡ now +ℤ length = checked _ expired e₃ in rw (← w, ← x) (ground arith)

-- The end after a bid: the time of the bid and the extension period when the bid falls in the last
-- minutes, else the end as it was.
end_after_bid :
    (s r : AuctionStrategy) (now : ℤ)
    → extend_if_needed s now ≡ ok r
    → r.auction.expired_timestamp ≡ (
        if ltb_ℤ (s.auction.expired_timestamp -ℤ pos (window_of s)) now
        then now +ℤ pos (period_of s)
        else s.auction.expired_timestamp)
unfolding extend_if_needed
end_after_bid s r now e = bind_ok (need_to_extend s now) e λ b tested e₁. elim (Bool-cases b) [
  | inl in_window ↦
      rw (← need_to_extend_exact s now b tested, in_window) (extend_exact s r now (ground arith))
  | inr before ↦ rw (← need_to_extend_exact s now b tested, before) (ground arith)
]

-- A bid brings the end of the auction forward exactly when it falls in the last minutes and the
-- extension period would end before the auction does; an extension period of at least the last
-- minutes rules that out.
pub bid_shortens_iff :
    (s r : AuctionStrategy) (now : ℤ)
    → extend_if_needed s now ≡ ok r
    → ((r.auction.expired_timestamp <ℤ s.auction.expired_timestamp) ↔ (
        (s.auction.expired_timestamp <ℤ now +ℤ pos (window_of s))
        × (now +ℤ pos (period_of s) <ℤ s.auction.expired_timestamp)))
      × (window_of s ≤ period_of s → s.auction.expired_timestamp ≤ℤ r.auction.expired_timestamp)
bid_shortens_iff s r now e =
    let ends = end_after_bid s r now e in
    let start = -ℤ_parts s.auction.expired_timestamp (pos (window_of s)) in
    let window = +ℤ_parts now (pos (window_of s)) in
    let period = +ℤ_parts now (pos (period_of s)) in
    elim (Bool-cases (ltb_ℤ (s.auction.expired_timestamp -ℤ pos (window_of s)) now)) [
      | inl inside ↦
          let at : r.auction.expired_timestamp ≡ now +ℤ pos (period_of s) = rw inside at ends in
          let lt = ltb→lt _ _ inside in rw at ((λ h. (omega arith, h), λ h. h.1), λ h. omega arith)
      | inr outside ↦
          let at : r.auction.expired_timestamp ≡ s.auction.expired_timestamp = rw outside at ends in
          rw at ((λ h. absurd (omega arith), λ h. absurd (ground arith)), λ h. omega arith)
    ]
