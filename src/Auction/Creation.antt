-- ===== src/Auction/Creation.antt =====
-- What a new auction is: auction/create_auction.rs with init_auction of common/auction_strategy.rs.
use raffle_auction_audited_c.Prelude.{
  ◌+◌, ◌≤◌, ◌≡◌, refl, ap, ◌≢◌, ◌||◌, none, arith, ltb, leb, ◌==◌, length, sum,
}
use raffle_auction_audited_c.Prelude.Int.{ℤ, ◌+ℤ◌}
use raffle_auction_audited_c.Failures.{JustiesErrorCode, fail_if, constraint, bind_ok, ok_inj, ok}
use raffle_auction_audited_c.Failures.Checked.{add_u64, add_i64, as_u64}
use raffle_auction_audited_c.Types.{
  Pubkey, ListingStatus, max_revenue_receivers, GlobalStates, Auction,
}
use raffle_auction_audited_c.Types.Defaults.{default_auction}
use raffle_auction_audited_c.Runtime.{
  Tokens, Runtime, balance, IsTokenProgram, load_token, get_current_timestamp, require_pda,
  require_new,
}
use raffle_auction_audited_c.Runtime.Transfers.{
  was_absent, transfer_token_from, transfer_token_to, init_new_balance,
}
use raffle_auction_audited_c.Auction.CreateAuction.{
  CreateAuction, CreateAuctionArgs, create_auction_init, create_auction_constraints, auction_input,
  create_auction_handler,
}
use raffle_auction_audited_c.Auction.Seeds.{auction_seeds, lot_escrow_seeds}
use raffle_auction_audited_c.Auction.Strategy.{
  AuctionStrategy, new_auction_strategy, init_auction, deposit_nft,
}
use raffle_auction_audited_c.Failures.Guards.{between, checked_sum}
use raffle_auction_audited_c.Revenue.{validate_share_configs, config_shares}
use raffle_auction_audited_c.Revenue.Shares.{validate_shares_sum}

-- An auction as it starts, from the settings, the accounts and the arguments of its creation.
pub record IsNewAuction (a : CreateAuction) (args : CreateAuctionArgs) (now : ℤ) (auction : Auction)
    : Type 0 where
  pub running : auction.status ≡ ListingStatus.in_progress
  pub ends : auction.expired_timestamp ≡ now +ℤ args.duration
  pub long_enough : a.global_states.min_auction_duration ≤ as_u64 args.duration
  pub short_enough : as_u64 args.duration ≤ a.global_states.max_auction_duration
  pub start : auction.start_bid ≡ args.start_bid
  pub no_bids : auction.total_bids ≡ 0
  pub no_top : auction.top_bid ≡ 0
  pub nobody : auction.top_bidder ≡ none
  pub numbered : auction.id ≡ args.id
  pub nft : auction.nft_mint_address ≡ a.nft_mint
  pub currency : auction.currency_token_mint_address ≡ a.currency_token_mint
  pub groups : auction.eligible_groups ≡ args.eligible_groups
  pub shares : auction.revenue_shares ≡ args.revenue_shares

init_auction_starts :
    (rt : Runtime) (a : CreateAuction) (args : CreateAuctionArgs) (now : ℤ) (s : AuctionStrategy)
    → init_auction
        (new_auction_strategy a.auction_key default_auction a.global_states)
        (auction_input rt a args now)
      ≡ ok s
    → IsNewAuction a args now s.auction
      × (s.global_states.total_auctions ≡ a.global_states.total_auctions + 1)
      × (s.auction.creator ≡ a.creator)
unfolding init_auction new_auction_strategy
init_auction_starts rt a args now s e =
    let g = a.global_states in
    bind_ok
      (fail_if
        (ltb (as_u64 args.duration) g.min_auction_duration
          || ltb g.max_auction_duration (as_u64 args.duration))
        JustiesErrorCode.invalid_auction_duration)
      e
      λ _ durations e₁. bind_ok (add_u64 g.total_auctions 1) e₁ λ total counted e₂.
        bind_ok (add_i64 now args.duration) e₂ λ expired summed e₃.
          let (least, most) = between _ _ _ _ durations in
          let total_is : total ≡ g.total_auctions + 1 = ground arith in
          rw (← ok_inj e₃) (
            record {
              running = refl;
              ends = checked_sum now args.duration expired summed;
              long_enough = least;
              short_enough = most;
              start = refl;
              no_bids = refl;
              no_top = refl;
              numbered = refl;
              nft = refl;
              currency = refl;
              groups = refl;
              shares = refl;
              nobody = refl;
            },
            total_is,
            refl,
          )

module _ (rt : Runtime) (tp : IsTokenProgram rt) where
  lot_balances :
      (a : CreateAuction) (args : CreateAuctionArgs) (ts ts' : Tokens)
      → create_auction_init rt a args ts ≡ ok ts'
      → (a.auction ≡ none)
        × (balance ts a.lot_escrow_nft_account ≡ 0)
        × (length args.revenue_shares ≤ max_revenue_receivers)
        × ((b : Pubkey) → balance ts' b ≡ balance ts b)
  unfolding create_auction_init
  lot_balances a args ts ts' e =
      bind_ok (require_pda rt (auction_seeds args.id) a.auction_key) e λ _ _ e₀.
        bind_ok (require_new a.auction) e₀ λ _ fresh e₁.
          bind_ok
            (constraint a.global_states.auction_creation_enabled
              JustiesErrorCode.auction_creation_disabled)
            e₁
            λ _ _ e₂.
              bind_ok
                (constraint (a.global_states.total_auctions == args.id)
                  JustiesErrorCode.invalid_auction_id)
                e₂
                λ _ _ e₃.
                  bind_ok
                    (constraint (leb (length args.revenue_shares) max_revenue_receivers)
                      JustiesErrorCode.invalid_revenue_recipient_number)
                    e₃
                    λ _ few e₄.
                      bind_ok
                        (require_pda rt (lot_escrow_seeds a.auction_key) a.lot_escrow_nft_account)
                        e₄
                        λ _ _ made.
                          let (empty, keeps) =
                            init_new_balance rt tp a.lot_escrow_nft_account a.nft_mint a.auction_key
                              ts ts' made in
                          (was_absent a.auction fresh, empty, ground arith, keeps)

  -- When the lot escrow is another account than the creator's, an auction that is created is new at
  -- its address, runs within the settings, is its creator's and has no bid; it sells the NFT for the
  -- currency, to the groups and with the shares that were given; its shares are at most six and add
  -- up to the whole, the number of auctions grows by one, and its lot escrow holds exactly the NFT,
  -- which the creator's account gave.
  pub create_auction_starts :
      (a : CreateAuction) (args : CreateAuctionArgs) (ts : Tokens) (auction' : Auction)
      (states' : GlobalStates) (ts' : Tokens)
      → create_auction_handler rt a args ts ≡ ok (auction', states', ts')
      → a.creator_nft_account ≢ a.lot_escrow_nft_account
      → IsNewAuction a args (get_current_timestamp rt a.global_states) auction'
        × (auction'.creator ≡ a.creator)
        × (a.auction ≡ none)
        × (length auction'.revenue_shares ≤ max_revenue_receivers)
        × (sum (config_shares auction'.revenue_shares) ≡ 10000)
        × (states'.total_auctions ≡ a.global_states.total_auctions + 1)
        × (balance ts' a.lot_escrow_nft_account ≡ 1)
        × (balance ts' a.creator_nft_account + 1 ≡ balance ts a.creator_nft_account)
  unfolding create_auction_handler deposit_nft
  create_auction_starts a args ts auction' states' ts' e apart =
      let now = get_current_timestamp rt a.global_states in
      bind_ok (load_token ts a.creator_nft_account) e λ funds _ e₁.
        bind_ok (create_auction_init rt a args ts) e₁ λ ts₁ made e₂.
          bind_ok (create_auction_constraints rt a funds) e₂ λ _ _ e₃.
            bind_ok (validate_share_configs (config_shares args.revenue_shares)) e₃ λ _ shared e₄.
              bind_ok
                (init_auction (new_auction_strategy a.auction_key default_auction a.global_states)
                  (auction_input rt a args now))
                e₄
                λ s inits e₅.
                  bind_ok
                    (deposit_nft rt a.creator_nft_account a.lot_escrow_nft_account a.creator ts₁) e₅
                    λ ts₂ moved e₆.
                      let (starts, total, own) = init_auction_starts rt a args now s inits in
                      let (fresh, empty, few, keeps) = lot_balances a args ts ts₁ made in
                      let from =
                        transfer_token_from rt tp a.creator_nft_account a.lot_escrow_nft_account
                          a.creator 1 none ts₁ ts₂ moved apart in
                      let to =
                        transfer_token_to rt tp a.creator_nft_account a.lot_escrow_nft_account
                          a.creator 1 none ts₁ ts₂ moved apart in
                      rw
                        (
                          ← ap (λ (x : Auction × GlobalStates × Tokens). x.0) (ok_inj e₆),
                          ← ap (λ (x : Auction × GlobalStates × Tokens). x.1) (ok_inj e₆),
                          ← ap (λ (x : Auction × GlobalStates × Tokens). x.2) (ok_inj e₆),
                        )
                        (
                          starts,
                          own,
                          fresh,
                          rw (starts.shares) few,
                          rw (starts.shares)
                              (validate_shares_sum (config_shares args.revenue_shares) shared),
                          total,
                          omega (arith, to, empty, keeps a.lot_escrow_nft_account),
                          omega (arith, from, keeps a.creator_nft_account),
                        )
