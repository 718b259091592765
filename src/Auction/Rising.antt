-- ===== src/Auction/Rising.antt =====
-- How the top bid moves: make_bid of auction/make_bid.rs, from one accepted bid to the next.
use raffle_auction_audited_c.Prelude.{◌*◌, ◌^◌, ◌≤◌, ◌<◌, max, ◌≡◌, refl, ◌∙◌, ◌≢◌, some, arith}
use raffle_auction_audited_c.Failures.{ok}
use raffle_auction_audited_c.Runtime.{Tokens, Runtime, IsTokenProgram}
use raffle_auction_audited_c.Auction.Bidding.{new_bid_strategy}
use raffle_auction_audited_c.Auction.MakeBid.{
  MakeBid, MakeBidArgs, make_bid_strategy, make_bid_handler,
}
use raffle_auction_audited_c.Auction.Outbid.{raised, bid_made}
use raffle_auction_audited_c.Auction.Placing.{make_bid_handler_places}
use raffle_auction_audited_c.Auction.Strategy.{new_auction_strategy}

-- The bid that is made is the amount offered, or the top bid raised by the outbid rate.
made_from :
    (rt : Runtime) (a : MakeBid) (args : MakeBidArgs)
    → bid_made (make_bid_strategy rt a args)
      ≡ max args.bid_amount (raised a.auction.top_bid a.global_states.min_outbid_rate_bps)
unfolding make_bid_strategy new_bid_strategy new_auction_strategy
made_from rt a args = refl

module _ (rt : Runtime) (tp : IsTokenProgram rt) where
  -- For a top bid below 2^63 and a bidder's account other than the escrow: an accepted bid never
  -- lowers the top bid, and raises it when the outbid rate of the top bid comes to at least one
  -- unit; when it comes to less and no more than the top bid is offered, the top bid stays
  -- although the bidder becomes the one on top.
  pub top_bid_rises :
      (a : MakeBid) (args : MakeBidArgs) (ts : Tokens) (a' : MakeBid) (ts' : Tokens)
      → make_bid_handler rt a args ts ≡ ok (a', ts')
      → a.auction.top_bid < 2 ^ 63
      → a.bidder_token_account ≢ a.bid_escrow_token_account
      → (a.auction.top_bid ≤ a'.auction.top_bid)
        × (10000 ≤ a.auction.top_bid * a.global_states.min_outbid_rate_bps
            → a.auction.top_bid < a'.auction.top_bid)
        × (a.auction.top_bid * a.global_states.min_outbid_rate_bps < 10000
            → args.bid_amount ≤ a.auction.top_bid
            → (a'.auction.top_bid ≡ a.auction.top_bid)
              × (a'.auction.top_bidder ≡ some a.bidder.key))
  top_bid_rises a args ts a' ts' e small apart =
      let placed = make_bid_handler_places rt tp a args ts a' ts' e small apart in
      let top = placed.top ∙ made_from rt a args in
      let product = a.auction.top_bid * a.global_states.min_outbid_rate_bps in
      (
        omega (arith, top),
        λ least. omega (arith, top),
        λ rounds offered. (omega (arith, top), placed.bidder_on_top),
      )
