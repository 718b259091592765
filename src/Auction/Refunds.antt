-- ===== src/Auction/Refunds.antt =====
-- What a cancelled bid and a cancelled auction give back: auction/cancel_auction_bid.rs and
-- auction/cancel_auction.rs.
use raffle_auction_audited_c.Prelude.{
  ℕ, ◌+◌, ◌≡◌, sym, ◌∙◌, ◌≢◌, false, Option, none, some, List, arith, is_some_of,
}
use raffle_auction_audited_c.Failures.{bind_ok, ok}
use raffle_auction_audited_c.Types.{Pubkey, Auction, AuctionBid}
use raffle_auction_audited_c.Runtime.{
  Seed, TokenAccount, Tokens, Runtime, balance, IsTokenProgram, load_token, transfer_token,
  close_token_account_with_signer, init_associated_if_needed,
}
use raffle_auction_audited_c.Runtime.Transfers.{
  transfer_token_from, transfer_token_to, close_was_empty, close_removes, close_keeps,
  init_associated_keeps,
}
use raffle_auction_audited_c.Auction.Bidding.{
  BidStrategy, new_bid_strategy, get_bid_escrow_signer_seed, cancel_bid, refund,
  close_bid_escrow_token_account,
}
use raffle_auction_audited_c.Auction.CancelAuctionBid.{
  CancelAuctionBid, cancel_auction_bid_constraints, cancel_bid_strategy, cancel_auction_bid_handler,
}
use raffle_auction_audited_c.Auction.Strategy.{new_auction_strategy, finalize_auction_if_need}

-- A token account that an instruction empties into another and closes.
pub record Emptied (ts : Tokens) (escrow target : Pubkey) (n : ℕ) (ts' : Tokens) : Type 0 where
  pub held : balance ts escrow ≡ n
  pub closed : ts' escrow ≡ none
  pub received : balance ts' target ≡ balance ts target + n

is_some_of-false : (o : Option Pubkey) (k : Pubkey) → is_some_of o k ≡ false → o ≢ some k
is_some_of-false none k e = λ h. cc
is_some_of-false (some a) k e = λ h. ground arith

-- What the constraints of cancel_auction_bid leave known.
cancel_bid_checked :
    (rt : Runtime) (a : CancelAuctionBid) (id : ℕ) (escrow : TokenAccount)
    → cancel_auction_bid_constraints rt a id escrow ≡ ok tt
    → (is_some_of a.auction.top_bidder a.bidder ≡ false)
      × (a.bid.bidder ≡ a.bidder)
      × (escrow.amount ≡ a.bid.bid)
unfolding cancel_auction_bid_constraints
cancel_bid_checked rt a id escrow e = ground arith

module _ (rt : Runtime) (tp : IsTokenProgram rt) where
  -- A transfer out of an account that is then closed moves all that it held.
  pub transfer_and_close :
      (escrow target auth dest auth' : Pubkey) (n : ℕ) (s : Option (List Seed)) (s' : List Seed)
      (ts ts₁ ts' : Tokens)
      → transfer_token rt escrow target auth n s ts ≡ ok ts₁
      → close_token_account_with_signer rt escrow dest auth' s' ts₁ ≡ ok ts'
      → escrow ≢ target
      → Emptied ts escrow target n ts'
  transfer_and_close escrow target auth dest auth' n s s' ts ts₁ ts' moved closed apart = record {
    held = omega (
      arith,
      transfer_token_from rt tp escrow target auth n s ts ts₁ moved apart,
      close_was_empty rt tp escrow dest auth' s' ts₁ ts' closed,
    );
    closed = close_removes rt tp escrow dest auth' s' ts₁ ts' closed;
    received =
        close_keeps rt tp escrow dest auth' s' ts₁ ts' target closed (λ e. apart (sym e))
        ∙ transfer_token_to rt tp escrow target auth n s ts ts₁ moved apart;
  }

  -- What holds when the creation of the target's account came first.
  pub Emptied-before :
      (escrow target : Pubkey) (n : ℕ) (ts ts₁ ts' : Tokens)
      → ((b : Pubkey) → balance ts₁ b ≡ balance ts b)
      → Emptied ts₁ escrow target n ts'
      → Emptied ts escrow target n ts'
  Emptied-before escrow target n ts ts₁ ts' keeps v = record {
    held = sym (keeps escrow) ∙ v.held;
    closed = v.closed;
    received = omega (arith, v.received, keeps target);
  }

  cancel_bid_data :
      (s : BidStrategy)
      → ((cancel_bid s).bid.bid ≡ 0)
        × ((cancel_bid s).auction_strategy.auction.top_bid ≡ s.auction_strategy.auction.top_bid)
        × ((cancel_bid s).auction_strategy.auction.top_bidder
            ≡ s.auction_strategy.auction.top_bidder)
  unfolding cancel_bid finalize_auction_if_need
  cancel_bid_data s = ground arith

  -- When the escrow is another account than the bidder's and a bid is cancelled: the canceller is
  -- not on top and the bid is its own, the escrow held exactly the bid, which the bidder's
  -- account receives, and is closed; the bid is 0, and the top bid and the bidder on top stay.
  pub cancel_auction_bid_refunds :
      (a : CancelAuctionBid) (id : ℕ) (ts : Tokens) (bid' : AuctionBid) (auction' : Auction)
      (ts' : Tokens)
      → cancel_auction_bid_handler rt a id ts ≡ ok (bid', auction', ts')
      → a.bid_escrow_token_account ≢ a.bidder_token_account
      → (a.auction.top_bidder ≢ some a.bidder)
        × (a.bid.bidder ≡ a.bidder)
        × Emptied ts a.bid_escrow_token_account a.bidder_token_account a.bid.bid ts'
        × (bid'.bid ≡ 0)
        × (auction'.top_bid ≡ a.auction.top_bid)
        × (auction'.top_bidder ≡ a.auction.top_bidder)
  unfolding cancel_auction_bid_handler refund close_bid_escrow_token_account cancel_bid_strategy
      new_bid_strategy new_auction_strategy
  cancel_auction_bid_refunds a id ts bid' auction' ts' e apart =
      let s = cancel_bid_strategy rt a in
      bind_ok (load_token ts a.bid_escrow_token_account) e λ escrow _ e₁.
        bind_ok (init_associated_if_needed rt a.bidder_token_account a.token_mint a.bidder ts) e₁
          λ ts₁ created e₂.
            bind_ok (cancel_auction_bid_constraints rt a id escrow) e₂ λ _ passed e₃.
              bind_ok (refund rt s a.bid_escrow_token_account escrow a.bidder_token_account ts₁) e₃
                λ ts₂ moved e₄.
                  bind_ok (close_bid_escrow_token_account rt s a.bid_escrow_token_account ts₂) e₄
                    λ ts₃ closed e₅.
                      let (lower, own, amount) = cancel_bid_checked rt a id escrow passed in
                      let emptied =
                        transfer_and_close a.bid_escrow_token_account a.bidder_token_account
                          a.bid_key a.bidder a.bid_key escrow.amount
                          (some (get_bid_escrow_signer_seed s)) (get_bid_escrow_signer_seed s) ts₁
                          ts₂ ts₃ moved closed apart in
                      let before =
                        Emptied-before a.bid_escrow_token_account a.bidder_token_account
                          escrow.amount ts ts₁ ts₃
                          (λ b.
                            init_associated_keeps rt tp a.bidder_token_account a.token_mint a.bidder
                              ts ts₁ b created)
                          emptied in
                      let (zeroed, top, on_top) = cancel_bid_data s in
                      let same : ts₃ ≡ ts' = ground arith in
                      let bid_is : (cancel_bid s).bid ≡ bid' = ground arith in
                      let auction_is : (cancel_bid s).auction_strategy.auction ≡ auction' =
                        ground arith in
                      (
                        is_some_of-false _ _ lower,
                        own,
                        rw (← same, ← amount) before,
                        rw (← bid_is) zeroed,
                        rw (← auction_is) top,
                        rw (← auction_is) on_top,
                      )
