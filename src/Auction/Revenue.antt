-- ===== src/Auction/Revenue.antt =====
-- What a claim of an auction's revenue pays: auction/claim_auction_revenue.rs.
use raffle_auction_audited_c.Prelude.{
  ℕ, ◌≡◌, ap, ◌∙◌, ◌≢◌, true, not, some, List, arith, ltb→lt, is_some_of,
}
use raffle_auction_audited_c.Prelude.Int.{◌<ℤ◌}
use raffle_auction_audited_c.Failures.{JustiesErrorCode, fail_if, bind_ok, ok_inj, ok}
use raffle_auction_audited_c.Types.{Pubkey, ListingStatus, RevenueDistribution, Auction}
use raffle_auction_audited_c.Runtime.{
  TokenAccount, Tokens, Runtime, balance, IsTokenProgram, load_token, get_current_timestamp,
}
use raffle_auction_audited_c.Runtime.Transfers.{load_amount}
use raffle_auction_audited_c.Auction.ClaimAuctionRevenue.{
  ClaimAuctionRevenue, claim_auction_revenue_constraints, auction_revenue_strategy,
  claim_auction_revenue_handler,
}
use raffle_auction_audited_c.Auction.Closing.{is_some_of-true, finalize_data, passed_check}
use raffle_auction_audited_c.Auction.Seeds.{bid_escrow_seeds}
use raffle_auction_audited_c.Auction.Strategy.{new_auction_strategy, is_ended}
use raffle_auction_audited_c.Revenue.{init_revenue_distribution_accounts, run_distribution}
use raffle_auction_audited_c.Revenue.Distribution.{Apart}
use raffle_auction_audited_c.Revenue.Payout.{PaidOut, paid_from, run_pays_out}
use raffle_auction_audited_c.Revenue.Receivers.{distributions_of, distributions_configured}

-- What the constraints leave known.
revenue_checked :
    (rt : Runtime) (a : ClaimAuctionRevenue) (id : ℕ) (escrow treasury : TokenAccount)
    → claim_auction_revenue_constraints rt a id escrow treasury ≡ ok tt
    → (is_some_of a.auction.top_bidder a.top_bidder ≡ true)
      × (escrow.amount ≡ a.top_bid.bid)
      × (a.global_states.fee_treasury_address ≡ a.fee_treasury)
      × ((rt.find_program_address (bid_escrow_seeds a.auction_key a.top_bidder)).0
          ≡ a.bid_escrow_token_account)
      × (a.top_bid.bidder ≡ a.top_bidder)
unfolding claim_auction_revenue_constraints
revenue_checked rt a id escrow treasury e = ground arith

-- The accounts that a claim pays.
abbrev pub payees : Runtime → ClaimAuctionRevenue → List RevenueDistribution
payees rt a = distributions_of rt a.token_mint a.auction.revenue_shares

module _ (rt : Runtime) (tp : IsTokenProgram rt) where
  -- When the receivers' accounts and the treasury's are others than the escrow and the revenue of
  -- an auction is claimed: the bid is the one of the bidder on top, the escrow is the one that this
  -- bidder has for the auction and held exactly the bid, the auction has ended and the treasury is
  -- the configured one; the fee, rounded down, and the amounts that the configured shares of the
  -- rest are worth add up to the bid, the treasury's account and the receivers' accounts get exactly
  -- these, no other account changes its balance, the escrow is closed and the auction finished.
  pub claim_auction_revenue_pays :
      (a : ClaimAuctionRevenue) (id : ℕ) (accounts : List Pubkey) (ts : Tokens) (auction' : Auction)
      (ts' : Tokens)
      → claim_auction_revenue_handler rt a id accounts ts ≡ ok (auction', ts')
      → a.bid_escrow_token_account ≢ a.fee_treasury_token_account
      → Apart a.bid_escrow_token_account (payees rt a)
      → (a.auction.top_bidder ≡ some a.top_bidder)
        × (a.auction.expired_timestamp <ℤ get_current_timestamp rt a.global_states)
        × (a.global_states.fee_treasury_address ≡ a.fee_treasury)
        × ((rt.find_program_address (bid_escrow_seeds a.auction_key a.top_bidder)).0
            ≡ a.bid_escrow_token_account)
        × (a.top_bid.bidder ≡ a.top_bidder)
        × (balance ts a.bid_escrow_token_account ≡ a.top_bid.bid)
        × PaidOut ts a.bid_escrow_token_account a.fee_treasury_token_account
            a.global_states.market_fee_rate_bps
            (payees rt a)
            ts'
        × (auction'.status ≡ ListingStatus.finished)
  unfolding claim_auction_revenue_handler new_auction_strategy is_ended
  claim_auction_revenue_pays a id accounts ts auction' ts' e apart others =
      let s = new_auction_strategy a.auction_key a.auction a.global_states in
      let now = get_current_timestamp rt a.global_states in
      bind_ok (load_token ts a.bid_escrow_token_account) e λ escrow loaded e₁.
        bind_ok (load_token ts a.fee_treasury_token_account) e₁ λ treasury _ e₂.
          bind_ok (claim_auction_revenue_constraints rt a id escrow treasury) e₂ λ _ passed e₃.
            bind_ok (fail_if (not (is_ended s now)) JustiesErrorCode.ongoing_auction) e₃
              λ _ ended e₄.
                bind_ok
                  (init_revenue_distribution_accounts rt a.token_mint a.auction.revenue_shares
                    accounts ts)
                  e₄
                  λ ready made e₅.
                    bind_ok
                      (run_distribution rt (auction_revenue_strategy a escrow ready.0) ready.1) e₅
                      λ ts₁ ran e₆.
                        let (on_top, amount, treasury_is, at_escrow, bids) =
                          revenue_checked rt a id escrow treasury passed in
                        let (configured, keeps) =
                          distributions_configured rt tp a.token_mint a.auction.revenue_shares
                            accounts ts ready.0 ready.1 made in
                        let paid =
                          run_pays_out rt tp (auction_revenue_strategy a escrow ready.0) ready.1 ts₁
                            ran (keeps a.bid_escrow_token_account ∙ load_amount ts _ escrow loaded)
                            apart (rw (configured) others) in
                        rw
                          (
                            ← ap (λ (x : Auction × Tokens). x.0) (ok_inj e₆),
                            ← ap (λ (x : Auction × Tokens). x.1) (ok_inj e₆),
                          )
                          (
                            is_some_of-true _ _ on_top,
                            ltb→lt _ _ (passed_check _ _ ended),
                            treasury_is,
                            at_escrow,
                            bids,
                            load_amount ts _ escrow loaded ∙ amount,
                            rw (configured) at (paid_from ts ready.1 ts₁ _ _ _ _ paid keeps),
                            (finalize_data s).0,
                          )
