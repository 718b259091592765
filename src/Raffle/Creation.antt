-- ===== src/Raffle/Creation.antt =====
-- What a new raffle is: raffle/create_raffle.rs with init_raffle of common/raffle_strategy.rs.
use raffle_auction_audited_c.Prelude.{
  ◌+◌, ◌≤◌, ◌<◌, ◌≡◌, refl, sym, ◌∙◌, ◌≢◌, ◌||◌, none, [], arith, ltb, ◌==◌, sum,
}
use raffle_auction_audited_c.Prelude.Int.{ℤ, ◌+ℤ◌}
use raffle_auction_audited_c.Failures.{JustiesErrorCode, fail_if, constraint, bind_ok, ok_inj, ok}
use raffle_auction_audited_c.Failures.Checked.{add_u64, add_i64, as_u64}
use raffle_auction_audited_c.Types.{Pubkey, ListingStatus, Raffle}
use raffle_auction_audited_c.Types.Defaults.{default_raffle}
use raffle_auction_audited_c.Runtime.{
  Tokens, Runtime, balance, IsTokenProgram, load_token, get_current_timestamp, require_pda,
  require_new, init_token_account,
}
use raffle_auction_audited_c.Runtime.Transfers.{
  was_absent, transfer_token_from, transfer_token_to, init_new_balance,
}
use raffle_auction_audited_c.Failures.Guards.{between, positive_most, checked_sum}
use raffle_auction_audited_c.Raffle.CreateRaffle.{
  CreateRaffle, CreateRaffleArgs, create_raffle_init, create_raffle_constraints, raffle_input,
  CreatedRaffle, create_raffle_handler,
}
use raffle_auction_audited_c.Raffle.Sales.{IsAccounted}
use raffle_auction_audited_c.Raffle.Seeds.{
  raffle_seeds, rewards_escrow_seeds, revenue_escrow_seeds, ticket_stats_seeds,
}
use raffle_auction_audited_c.Raffle.Strategy.{
  deposit_nft, RaffleStrategy, new_raffle_strategy, init_raffle,
}
use raffle_auction_audited_c.Revenue.{validate_share_configs, config_shares}
use raffle_auction_audited_c.Revenue.Shares.{validate_shares_sum}

-- A raffle as it starts, from the settings, the accounts and the arguments of its creation.
pub record IsNewRaffle (a : CreateRaffle) (args : CreateRaffleArgs) (now : ℤ) (raffle : Raffle)
    : Type 0 where
  pub running : raffle.status ≡ ListingStatus.in_progress
  pub ends : raffle.expired_timestamp ≡ now +ℤ args.duration
  pub long_enough : a.global_states.min_raffle_duration ≤ as_u64 args.duration
  pub short_enough : as_u64 args.duration ≤ a.global_states.max_raffle_duration
  pub some_nft : 0 < raffle.num_raffled_nfts
  pub few_nfts : raffle.num_raffled_nfts ≤ a.global_states.max_raffled_nfts
  pub supply_least : a.global_states.min_raffle_ticket_supply ≤ raffle.ticket_supply
  pub supply_most : raffle.ticket_supply ≤ a.global_states.max_raffle_ticket_supply
  pub unsold : raffle.ticket_sold ≡ 0
  pub no_position : raffle.num_ticket_positions ≡ 0
  pub no_winner : raffle.winner_ids ≡ []
  pub no_claim : raffle.claim_mask ≡ 0
  pub numbered : raffle.id ≡ args.id
  pub nft : raffle.nft_mint_address ≡ a.nft_mint.key
  pub currency : raffle.currency_token_mint_address ≡ a.currency_token_mint
  pub groups : raffle.eligible_groups ≡ args.eligible_groups
  pub shares : raffle.revenue_shares ≡ args.revenue_shares
  pub nfts : raffle.num_raffled_nfts ≡ args.num_raffled_nfts
  pub price : raffle.ticket_price ≡ args.ticket_price
  pub supply : raffle.ticket_supply ≡ args.ticket_supply

init_raffle_starts :
    (rt : Runtime) (a : CreateRaffle) (args : CreateRaffleArgs) (now : ℤ) (s : RaffleStrategy)
    → init_raffle
        (new_raffle_strategy a.raffle_key default_raffle a.global_states)
        (raffle_input rt a args now)
      ≡ ok s
    → IsNewRaffle a args now s.raffle
      × (s.global_states.total_raffles ≡ a.global_states.total_raffles + 1)
      × (s.raffle.num_raffled_nfts ≡ args.num_raffled_nfts)
      × (s.raffle.creator ≡ a.creator)
unfolding init_raffle new_raffle_strategy
init_raffle_starts rt a args now s e =
    let g = a.global_states in
    bind_ok
      (fail_if
        (ltb (as_u64 args.duration) g.min_raffle_duration
          || ltb g.max_raffle_duration (as_u64 args.duration))
        JustiesErrorCode.invalid_raffle_duration)
      e
      λ _ durations e₁.
        bind_ok
          (fail_if (args.num_raffled_nfts == 0 || ltb g.max_raffled_nfts args.num_raffled_nfts)
            JustiesErrorCode.invalid_num_raffled_nfts)
          e₁
          λ _ nfts e₂.
            bind_ok
              (fail_if
                (ltb args.ticket_supply g.min_raffle_ticket_supply
                  || ltb g.max_raffle_ticket_supply args.ticket_supply)
                JustiesErrorCode.invalid_raffle_ticket_supply)
              e₂
              λ _ supply e₃. bind_ok (add_u64 g.total_raffles 1) e₃ λ total counted e₄.
                bind_ok (add_i64 now args.duration) e₄ λ expired summed e₅.
                  let (least, most) = between _ _ _ _ durations in
                  let (some_nft, few) = positive_most _ _ _ nfts in
                  let (supply_least, supply_most) = between _ _ _ _ supply in
                  let total_is : total ≡ g.total_raffles + 1 = ground arith in
                  let ends : expired ≡ now +ℤ args.duration =
                    checked_sum now args.duration expired summed in
                  rw (← ok_inj e₅) (
                    record {
                      running = refl;
                      ends = ends;
                      long_enough = least;
                      short_enough = most;
                      some_nft = some_nft;
                      few_nfts = few;
                      supply_least = supply_least;
                      supply_most = supply_most;
                      unsold = refl;
                      no_position = refl;
                      no_winner = refl;
                      numbered = refl;
                      nft = refl;
                      currency = refl;
                      groups = refl;
                      shares = refl;
                      nfts = refl;
                      price = refl;
                      supply = refl;
                      no_claim = refl;
                    },
                    total_is,
                    refl,
                    refl,
                  )

module _ (rt : Runtime) (tp : IsTokenProgram rt) where
  init_balances :
      (a : CreateRaffle) (args : CreateRaffleArgs) (ts ts' : Tokens)
      → create_raffle_init rt a args ts ≡ ok ts'
      → (a.raffle ≡ none)
        × (a.ticket_position_stats ≡ none)
        × (balance ts a.rewards_escrow_nft_account ≡ 0)
        × ((b : Pubkey) → balance ts' b ≡ balance ts b)
  unfolding create_raffle_init
  init_balances a args ts ts' e =
      bind_ok (require_pda rt (raffle_seeds args.id) a.raffle_key) e λ _ _ e₀.
        bind_ok (require_new a.raffle) e₀ λ _ fresh e₁.
          bind_ok
            (constraint a.global_states.raffle_creation_enabled
              JustiesErrorCode.raffle_creation_disabled)
            e₁
            λ _ _ e₂.
              bind_ok
                (constraint (a.global_states.total_raffles == args.id)
                  JustiesErrorCode.invalid_raffle_id)
                e₂
                λ _ _ e₃.
                  bind_ok
                    (require_pda rt (ticket_stats_seeds a.raffle_key) a.ticket_position_stats_key)
                    e₃
                    λ _ _ e₃₁. bind_ok (require_new a.ticket_position_stats) e₃₁ λ _ fresh_stats e₄.
                      bind_ok
                        (require_pda rt (rewards_escrow_seeds a.raffle_key)
                          a.rewards_escrow_nft_account)
                        e₄
                        λ _ _ e₅.
                          bind_ok
                            (init_token_account rt a.rewards_escrow_nft_account a.nft_mint.key
                              a.raffle_key ts)
                            e₅
                            λ ts₁ first e₆.
                              bind_ok
                                (require_pda rt (revenue_escrow_seeds a.raffle_key)
                                  a.revenue_escrow_token_account)
                                e₆
                                λ _ _ second.
                                  let (empty, keeps) =
                                    init_new_balance rt tp a.rewards_escrow_nft_account
                                      a.nft_mint.key a.raffle_key ts ts₁ first in
                                  let (_, keeps') =
                                    init_new_balance rt tp a.revenue_escrow_token_account
                                      a.currency_token_mint a.raffle_key ts₁ ts' second in
                                  (
                                    was_absent a.raffle fresh,
                                    was_absent a.ticket_position_stats fresh_stats,
                                    empty,
                                    λ b. keeps' b ∙ keeps b,
                                  )

  -- When the rewards escrow is another account than the creator's, a raffle that is created is new at
  -- its address, as are its stats, runs within the settings, is its creator's, and has sold nothing
  -- and no winner; it has the NFT, number, currency, price, supply, groups and shares that were given; its
  -- stats agree with it, its shares add up to the whole, the number of raffles grows by one, and its
  -- rewards escrow holds exactly the raffled NFTs, which the creator's account gave.
  pub create_raffle_starts :
      (a : CreateRaffle) (args : CreateRaffleArgs) (ts : Tokens) (created : CreatedRaffle)
      → create_raffle_handler rt a args ts ≡ ok created
      → a.creator_nft_account ≢ a.rewards_escrow_nft_account
      → IsNewRaffle a args (get_current_timestamp rt a.global_states) created.raffle
        × (created.raffle.creator ≡ a.creator)
        × (a.raffle ≡ none)
        × (a.ticket_position_stats ≡ none)
        × IsAccounted created.raffle created.ticket_position_stats
        × (sum (config_shares created.raffle.revenue_shares) ≡ 10000)
        × (created.global_states.total_raffles ≡ a.global_states.total_raffles + 1)
        × (balance created.tokens a.rewards_escrow_nft_account ≡ created.raffle.num_raffled_nfts)
        × (balance created.tokens a.creator_nft_account + created.raffle.num_raffled_nfts
            ≡ balance ts a.creator_nft_account)
  unfolding create_raffle_handler deposit_nft sum
  create_raffle_starts a args ts created e apart =
      let now = get_current_timestamp rt a.global_states in
      bind_ok (load_token ts a.creator_nft_account) e λ funds _ e₁.
        bind_ok (create_raffle_init rt a args ts) e₁ λ ts₁ made e₂.
          bind_ok (create_raffle_constraints rt a args funds) e₂ λ _ _ e₃.
            bind_ok (validate_share_configs (config_shares args.revenue_shares)) e₃ λ _ shared e₄.
              bind_ok
                (init_raffle (new_raffle_strategy a.raffle_key default_raffle a.global_states)
                  (raffle_input rt a args now))
                e₄
                λ s inits e₅.
                  bind_ok
                    (deposit_nft rt s a.creator_nft_account a.rewards_escrow_nft_account a.creator
                      ts₁)
                    e₅
                    λ ts₂ moved e₆.
                      let (starts, total, nfts, own) = init_raffle_starts rt a args now s inits in
                      let (fresh, fresh_stats, empty, keeps) = init_balances a args ts ts₁ made in
                      let n = s.raffle.num_raffled_nfts in
                      let from =
                        transfer_token_from rt tp a.creator_nft_account a.rewards_escrow_nft_account
                          a.creator n none ts₁ ts₂ moved apart in
                      let to =
                        transfer_token_to rt tp a.creator_nft_account a.rewards_escrow_nft_account
                          a.creator n none ts₁ ts₂ moved apart in
                      rw (← ok_inj e₆) (
                        starts,
                        own,
                        fresh,
                        fresh_stats,
                        record { total = sym starts.unsold; positions = sym starts.no_position },
                        rw (starts.shares)
                            (validate_shares_sum (config_shares args.revenue_shares) shared),
                        total,
                        omega (arith, to, empty, keeps a.rewards_escrow_nft_account),
                        omega (arith, from, keeps a.creator_nft_account),
                      )
