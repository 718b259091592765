-- ===== src/Auction/Placing.antt =====
-- What an accepted make_bid does: auction/make_bid.rs with set_bid_account_data, transfer_bid_funds and
-- make_bid of common/bid_strategy.rs.
use raffle_auction_audited_c.Prelude.{
  ℕ, ◌+◌, ◌-◌, ◌^◌, ◌<◌, ◌≡◌, sym, ap, ◌∙◌, ◌≢◌, inl, inr, true, false, Option, none, some, arith,
  leb, leb→le,
}
use raffle_auction_audited_c.Prelude.Int.{ℤ}
use raffle_auction_audited_c.Failures.{bind_ok, Result-cases, ok}
use raffle_auction_audited_c.Types.{Pubkey, Auction, AuctionBid}
use raffle_auction_audited_c.Runtime.{
  TokenAccount, Tokens, Runtime, balance, IsTokenProgram, load_token, transfer_token, require_pda,
}
use raffle_auction_audited_c.Runtime.Transfers.{
  load_amount, transfer_token_from, transfer_token_to, init_token_keeps,
}
use raffle_auction_audited_c.Accounts.{page_id}
use raffle_auction_audited_c.Auction.Bidding.{
  BidStrategy, get_actual_bid, get_transfer_amount, validate_bid, init_bid_data,
  set_bid_account_data, set_top_bid, extend_if_needed, make_bid, try_index_bid, transfer_bid_funds,
}
use raffle_auction_audited_c.Auction.MakeBid.{
  MakeBid, MakeBidArgs, loaded_bid, make_bid_init, make_bid_constraints, make_bid_strategy,
  place_bid, make_bid_handler,
}
use raffle_auction_audited_c.Auction.Outbid.{bid_made, actual_bid_exact}
use raffle_auction_audited_c.Auction.Seeds.{bid_seeds, bid_escrow_seeds, bid_index_seeds}
use raffle_auction_audited_c.Auction.Strategy.{AuctionStrategy, need_to_extend, extend}
use raffle_auction_audited_c.Eligibility.{require_eligible}

-- What the auction and the bid become, and which balances move.
pub record Placed (rt : Runtime) (a : MakeBid) (args : MakeBidArgs) (ts : Tokens) (a' : MakeBid)
    (ts' : Tokens) : Type 0 where
  pub top : a'.auction.top_bid ≡ bid_made (make_bid_strategy rt a args)
  pub bidder_on_top : a'.auction.top_bidder ≡ some a.bidder.key
  pub recorded : (loaded_bid a'.bid).bid ≡ a'.auction.top_bid
  pub escrowed : balance ts' a.bid_escrow_token_account ≡ a'.auction.top_bid
  pub conserved :
      balance ts' a.bid_escrow_token_account + balance ts' a.bidder_token_account
      ≡ balance ts a.bid_escrow_token_account + balance ts a.bidder_token_account

-- The bid strategy after `set_bid_account_data`.
pub set_bid_data :
    (s r : BidStrategy) (bump : ℕ)
    → set_bid_account_data s bump ≡ ok r
    → (get_actual_bid s ≡ ok r.bid.bid)
      × (r.auction_strategy ≡ s.auction_strategy)
      × (r.bid_amount ≡ s.bid_amount)
      × (r.bidder_key ≡ s.bidder_key)
unfolding set_bid_account_data init_bid_data
set_bid_data s r bump e = elim (Result-cases (get_actual_bid s)) [
  | inr (f, bad) ↦ ground arith
  | inl (v, found) ↦ ground arith
]

set_top_bid_data :
    (s : BidStrategy) (r : AuctionStrategy)
    → set_top_bid s ≡ ok r
    → (r.auction.top_bid ≡ s.bid.bid) × (r.auction.top_bidder ≡ some s.bidder_key)
unfolding set_top_bid
set_top_bid_data s r e = ground arith

extend_keeps :
    (s r : AuctionStrategy) (now : ℤ)
    → extend_if_needed s now ≡ ok r
    → (r.auction.top_bid ≡ s.auction.top_bid) × (r.auction.top_bidder ≡ s.auction.top_bidder)
unfolding extend_if_needed extend
extend_keeps s r now e = elim (Result-cases (need_to_extend s now)) [
  | inr (f, bad) ↦ ground arith
  | inl (true, found) ↦ ground arith
  | inl (false, found) ↦ ground arith
]

-- `make_bid` changes the top bid and the bidder on top, and the end of the auction at most.
make_bid_data :
    (s r : BidStrategy)
    → make_bid s ≡ ok r
    → (r.auction_strategy.auction.top_bid ≡ s.bid.bid)
      × (r.auction_strategy.auction.top_bidder ≡ some s.bidder_key)
      × (r.bid ≡ s.bid)
unfolding make_bid
make_bid_data s r e = elim (Result-cases (set_top_bid s)) [
  | inr (f, bad) ↦ ground arith
  | inl (t, topped) ↦ elim (Result-cases (extend_if_needed t s.current_timestamp)) [
    | inr (f, bad) ↦ ground arith
    | inl (x, extended) ↦
        ground (arith, set_top_bid_data s t topped, extend_keeps t x s.current_timestamp extended)
  ]
]

-- The strategy's bid is read off the same auction before and after `set_bid_account_data`.
actual_bid_same :
    (s r : BidStrategy)
    → r.auction_strategy ≡ s.auction_strategy
    → r.bid_amount ≡ s.bid_amount
    → get_actual_bid r ≡ get_actual_bid s
unfolding get_actual_bid
actual_bid_same s r e h = rw (e, h)

-- The parts of a `place_bid` that succeeds.
pub place_bid_parts :
    (rt : Runtime) (a : MakeBid) (s : BidStrategy) (escrow funds : TokenAccount) (ts : Tokens)
    (a' : MakeBid) (ts' : Tokens)
    → place_bid rt a s escrow funds ts ≡ ok (a', ts')
    → (validate_bid s escrow funds ≡ ok tt)
      × (r m : BidStrategy) × (set_bid_account_data s
            (rt.find_program_address (bid_seeds a.auction_key a.bidder.key)).1
          ≡ ok r)
      × (transfer_bid_funds rt r a.bidder_token_account a.bid_escrow_token_account escrow ts
          ≡ ok ts')
      × (make_bid r ≡ ok m)
      × (a'.bid ≡ some m.bid)
      × (a'.auction ≡ m.auction_strategy.auction)
unfolding place_bid
place_bid_parts rt a s escrow funds ts a' ts' e =
    let bump = (rt.find_program_address (bid_seeds a.auction_key a.bidder.key)).1 in
    bind_ok (validate_bid s escrow funds) e λ _ valid e₁.
      bind_ok (set_bid_account_data s bump) e₁ λ r recorded e₂.
        bind_ok (page_id a.auction.total_bids a.global_states.num_keys_per_index_page) e₂
          λ page _ e₃.
            bind_ok
              (try_index_bid rt r (rt.find_program_address (bid_index_seeds a.auction_key page)).1
                a.bid_index a.bidder)
              e₃
              λ indexed _ e₄.
                bind_ok
                  (transfer_bid_funds rt r a.bidder_token_account a.bid_escrow_token_account escrow
                    ts)
                  e₄
                  λ ts₁ paid e₅. bind_ok (make_bid r) e₅ λ m made e₆.
                    (valid, r, m, recorded, ground arith, made, ground arith, ground arith)

module _ (rt : Runtime) (tp : IsTokenProgram rt) where
  -- The payment leaves the escrow with exactly the bid.
  transfer_bid_step :
      (s : BidStrategy) (bidder escrow : Pubkey) (loaded : TokenAccount) (v : ℕ) (ts ts' : Tokens)
      → transfer_bid_funds rt s bidder escrow loaded ts ≡ ok ts'
      → get_actual_bid s ≡ ok v
      → balance ts escrow ≡ loaded.amount
      → bidder ≢ escrow
      → (balance ts' escrow ≡ v)
        × (balance ts' escrow + balance ts' bidder ≡ balance ts escrow + balance ts bidder)
  unfolding transfer_bid_funds get_transfer_amount
  transfer_bid_step s bidder escrow loaded v ts ts' e found held apart =
      let le : leb loaded.amount v ≡ true = ground arith in
      let run : transfer_token rt bidder escrow s.bidder_key (v - loaded.amount) none ts ≡ ok ts' =
        ground arith in
      let from =
        transfer_token_from rt tp bidder escrow s.bidder_key (v - loaded.amount) none ts ts' run
          apart in
      let to =
        transfer_token_to rt tp bidder escrow s.bidder_key (v - loaded.amount) none ts ts' run
          apart in
      (omega (arith, leb→le _ _ le), omega (arith, leb→le _ _ le))

  init_keeps :
      (a : MakeBid) (ts ts' : Tokens)
      → make_bid_init rt a ts ≡ ok ts'
      → (b : Pubkey) → balance ts' b ≡ balance ts b
  unfolding make_bid_init
  init_keeps a ts ts' e b =
      bind_ok (require_pda rt (bid_seeds a.auction_key a.bidder.key) a.bid_key) e λ _ _ e₁.
        bind_ok
          (require_pda rt (bid_escrow_seeds a.auction_key a.bidder.key) a.bid_escrow_token_account)
          e₁
          λ _ _ e₂.
            init_token_keeps rt tp a.bid_escrow_token_account a.currency_token_mint a.bid_key ts ts'
              b e₂

  place_bid_effect :
      (a : MakeBid) (args : MakeBidArgs) (escrow funds : TokenAccount) (ts : Tokens) (a' : MakeBid)
      (ts' : Tokens)
      → place_bid rt a (make_bid_strategy rt a args) escrow funds ts ≡ ok (a', ts')
      → a.auction.top_bid < 2 ^ 63
      → balance ts a.bid_escrow_token_account ≡ escrow.amount
      → a.bidder_token_account ≢ a.bid_escrow_token_account
      → Placed rt a args ts a' ts'
  unfolding make_bid_strategy
  place_bid_effect a args escrow funds ts a' ts' e small held apart =
      let s = make_bid_strategy rt a args in
      let (_, r, m, recorded, paid, made, bid', auction') =
        place_bid_parts rt a s escrow funds ts a' ts' e in
      let (found, same, offered, by) = set_bid_data s r _ recorded in
      let (top, on_top, kept) = make_bid_data r m made in
      let v : r.bid.bid ≡ bid_made s = actual_bid_exact s r.bid.bid small found in
      let (escrowed, conserved) =
        transfer_bid_step r a.bidder_token_account a.bid_escrow_token_account escrow r.bid.bid ts
          ts' paid (actual_bid_same s r same offered ∙ found) held apart in
      let top' : a'.auction.top_bid ≡ r.bid.bid = ap (λ (x : Auction). x.top_bid) auction' ∙ top in
      record {
        top = top' ∙ v;
        bidder_on_top = ap (λ (x : Auction). x.top_bidder) auction' ∙ on_top ∙ ap some by;
        recorded =
            ap (λ (x : Option AuctionBid). (loaded_bid x).bid) bid'
            ∙ ap (λ (x : AuctionBid). x.bid) kept
            ∙ sym top';
        escrowed = escrowed ∙ sym top';
        conserved = conserved;
      }

  -- For a top bid below 2^63 and a bidder's account other than the escrow: an accepted bid puts
  -- the bidder on top with the bid made, the larger of the amount offered and the top bid raised
  -- by the outbid rate, records it as the bidder's bid, and leaves the bidder's escrow holding
  -- exactly the top bid; the escrow and the bidder's account together hold what they held.
  pub make_bid_handler_places :
      (a : MakeBid) (args : MakeBidArgs) (ts : Tokens) (a' : MakeBid) (ts' : Tokens)
      → make_bid_handler rt a args ts ≡ ok (a', ts')
      → a.auction.top_bid < 2 ^ 63
      → a.bidder_token_account ≢ a.bid_escrow_token_account
      → Placed rt a args ts a' ts'
  unfolding make_bid_handler make_bid_init
  make_bid_handler_places a args ts a' ts' e small apart =
      bind_ok (load_token ts a.bidder_token_account) e λ funds _ e₁.
        bind_ok (make_bid_init rt a ts) e₁ λ ts₁ created e₂.
          bind_ok (make_bid_constraints rt a args funds) e₂ λ _ _ e₃.
            bind_ok (load_token ts₁ a.bid_escrow_token_account) e₃ λ escrow loaded e₄.
              bind_ok
                (require_eligible a.auction.eligible_groups a.bidder.key
                  args.eligibility_check_input args.remaining_accounts)
                e₄
                λ _ _ e₅.
                  let placed =
                    place_bid_effect a args escrow funds ts₁ a' ts' e₅ small
                      (load_amount ts₁ _ escrow loaded) apart in
                  let keeps = init_keeps a ts ts₁ created in
                  record {
                    top = placed.top;
                    bidder_on_top = placed.bidder_on_top;
                    recorded = placed.recorded;
                    escrowed = placed.escrowed;
                    conserved = omega (
                      arith,
                      placed.conserved,
                      keeps a.bid_escrow_token_account,
                      keeps a.bidder_token_account,
                    );
                  }
