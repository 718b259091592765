-- ===== src/Raffle/Purchase.antt =====
-- What an accepted purchase does: raffle/buy_raffle_tickets.rs with pay_for_tickets and buy_tickets of
-- common/raffle_strategy.rs.
use raffle_auction_audited_c.Prelude.{
  ℕ, ◌+◌, ◌*◌, ◌≤◌, ◌≡◌, ap, ◌≢◌, none, some, arith, ltb, leb, get_elem?,
}
use raffle_auction_audited_c.Prelude.Int.{ℤ}
use raffle_auction_audited_c.Failures.{JustiesErrorCode, fail_if, constraint, bind_ok, ok_inj, ok}
use raffle_auction_audited_c.Failures.Checked.{add_u16, mul_u64}
use raffle_auction_audited_c.Types.{Pubkey}
use raffle_auction_audited_c.Runtime.{
  TokenAccount, Tokens, Runtime, balance, IsTokenProgram, load_token, get_current_timestamp,
  require_pda, require_pda_bump,
}
use raffle_auction_audited_c.Runtime.Transfers.{transfer_token_from, transfer_token_to}
use raffle_auction_audited_c.Accounts.{page_id}
use raffle_auction_audited_c.Eligibility.{require_eligible}
use raffle_auction_audited_c.Raffle.BuyRaffleTickets.{
  BuyRaffleTickets, BuyRaffleTicketsArgs, loaded_position, buy_tickets_constraints, sell_tickets,
  buy_raffle_tickets_handler,
}
use raffle_auction_audited_c.Raffle.Sales.{IsAccounted, IsEntered, buy_tickets_accounts}
use raffle_auction_audited_c.Raffle.Seeds.{raffle_seeds, ticket_position_seeds, ticket_index_seeds}
use raffle_auction_audited_c.Raffle.Strategy.{
  is_ended, is_cancelled, RaffleStrategy, new_raffle_strategy,
}
use raffle_auction_audited_c.Raffle.Tickets.{
  buy_tickets, try_index_ticket_position, pay_for_tickets,
}

pub record Purchased (a : BuyRaffleTickets) (n : ℕ) (ts : Tokens) (a' : BuyRaffleTickets)
    (ts' : Tokens) : Type 0 where
  pub accounted : IsAccounted a'.raffle a'.ticket_position_stats
  pub entered :
      get_elem? a'.ticket_position_stats.ticket_positions (loaded_position a'.ticket_position).id
      ≡ some (loaded_position a'.ticket_position).total_num_tickets
  pub bought :
      (loaded_position a'.ticket_position).total_num_tickets
      ≡ (loaded_position a.ticket_position).total_num_tickets + n
  pub sold : a'.raffle.ticket_sold ≡ a.raffle.ticket_sold + n
  pub within : a'.raffle.ticket_sold ≤ a.raffle.ticket_supply
  pub paid :
      balance ts' a.buyer_token_account + n * a.raffle.ticket_price
      ≡ balance ts a.buyer_token_account
  pub earned :
      balance ts' a.revenue_escrow_token_account
      ≡ balance ts a.revenue_escrow_token_account + n * a.raffle.ticket_price

purchase_checked :
    (rt : Runtime) (a : BuyRaffleTickets) (args : BuyRaffleTicketsArgs) (funds : TokenAccount)
    → buy_tickets_constraints rt a args funds ≡ ok tt
    → args.num_tickets + a.raffle.ticket_sold ≤ a.raffle.ticket_supply
unfolding buy_tickets_constraints
purchase_checked rt a args funds e =
    bind_ok (require_pda_bump rt (raffle_seeds args.raffle_id) a.raffle.bump a.raffle_key) e
      λ _ _ e₁.
        bind_ok (constraint (ltb 0 args.num_tickets) JustiesErrorCode.invalid_raffle_ticket_number)
          e₁
          λ _ _ e₂.
            bind_ok (add_u16 args.num_tickets a.raffle.ticket_sold) e₂ λ ticket_sold summed e₃.
              bind_ok
                (constraint (leb ticket_sold a.raffle.ticket_supply)
                  JustiesErrorCode.invalid_raffle_ticket_number)
                e₃ λ _ fits _. ground arith

module _ (rt : Runtime) (tp : IsTokenProgram rt) where
  payment_moves :
      (s : RaffleStrategy) (n : ℕ) (from to buyer : Pubkey) (ts ts' : Tokens)
      → pay_for_tickets rt s n from to buyer ts ≡ ok ts'
      → from ≢ to
      → (balance ts' from + n * s.raffle.ticket_price ≡ balance ts from)
        × (balance ts' to ≡ balance ts to + n * s.raffle.ticket_price)
  unfolding pay_for_tickets
  payment_moves s n from to buyer ts ts' e apart =
      bind_ok (mul_u64 n s.raffle.ticket_price) e λ payment priced e₁.
        let price : payment ≡ n * s.raffle.ticket_price = ground arith in
        rw (← price) (
          transfer_token_from rt tp from to buyer payment none ts ts' e₁ apart,
          transfer_token_to rt tp from to buyer payment none ts ts' e₁ apart,
        )

  sell_tickets_effect :
      (a : BuyRaffleTickets) (n : ℕ) (now : ℤ) (ts : Tokens) (a' : BuyRaffleTickets) (ts' : Tokens)
      → sell_tickets rt a n now ts ≡ ok (a', ts')
      → n + a.raffle.ticket_sold ≤ a.raffle.ticket_supply
      → a.buyer_token_account ≢ a.revenue_escrow_token_account
      → IsAccounted a.raffle a.ticket_position_stats
      → IsEntered (loaded_position a.ticket_position) a.ticket_position_stats
      → Purchased a n ts a' ts'
  unfolding sell_tickets new_raffle_strategy
  sell_tickets_effect a n now ts a' ts' e fits apart acc entered =
      let s = new_raffle_strategy a.raffle_key a.raffle a.global_states in
      let position = loaded_position a.ticket_position in
      bind_ok (fail_if (is_ended s now) JustiesErrorCode.raffle_ended) e λ _ _ e₁.
        bind_ok (fail_if (is_cancelled s) JustiesErrorCode.raffle_cancelled) e₁ λ _ _ e₂.
          bind_ok (page_id a.raffle.num_ticket_positions a.global_states.num_keys_per_index_page) e₂
            λ page _ e₃.
              bind_ok
                (try_index_ticket_position rt s a.ticket_position_key position
                  (rt.find_program_address (ticket_index_seeds a.raffle_key page)).1
                  a.ticket_position_index a.buyer)
                e₃
                λ indexed _ e₄.
                  bind_ok
                    (pay_for_tickets rt s n a.buyer_token_account a.revenue_escrow_token_account
                      a.buyer.key ts)
                    e₄
                    λ ts₁ paid e₅.
                      bind_ok
                        (buy_tickets rt
                          (record {
                            raffle = a.raffle;
                            ticket_position = position;
                            stats = a.ticket_position_stats;
                            stats_info = a.ticket_position_stats_info;
                            buyer = indexed.1;
                          })
                          (rt.find_program_address
                            (ticket_position_seeds a.raffle_key a.buyer.key)).1
                          n now)
                        e₅
                        λ sold bought e₆.
                          let v = buy_tickets_accounts rt _ sold _ n now bought acc entered in
                          let (from, to) =
                            payment_moves s n a.buyer_token_account a.revenue_escrow_token_account
                              a.buyer.key ts ts₁ paid apart in
                          rw
                            (
                              ← ap (λ (x : BuyRaffleTickets × Tokens). x.0) (ok_inj e₆),
                              ← ap (λ (x : BuyRaffleTickets × Tokens). x.1) (ok_inj e₆),
                            )
                            (record {
                              accounted = v.accounted;
                              entered = v.entered;
                              bought = v.bought;
                              sold = v.sold;
                              within = omega (arith, v.sold);
                              paid = from;
                              earned = to;
                            })

  -- Let the stats add up to the tickets sold, the buyer's position agree with its entry and the
  -- buyer's account be another than the revenue escrow. An accepted purchase then adds exactly
  -- the tickets asked for to the position and to the tickets sold, which stay within the supply,
  -- and moves their price from the buyer's account to the escrow; the stats and the position
  -- agree again.
  pub buy_raffle_tickets_handler_sells :
      (a : BuyRaffleTickets) (args : BuyRaffleTicketsArgs) (ts : Tokens) (a' : BuyRaffleTickets)
      (ts' : Tokens)
      → buy_raffle_tickets_handler rt a args ts ≡ ok (a', ts')
      → a.buyer_token_account ≢ a.revenue_escrow_token_account
      → IsAccounted a.raffle a.ticket_position_stats
      → IsEntered (loaded_position a.ticket_position) a.ticket_position_stats
      → Purchased a args.num_tickets ts a' ts'
  unfolding buy_raffle_tickets_handler
  buy_raffle_tickets_handler_sells a args ts a' ts' e apart acc entered =
      bind_ok (load_token ts a.revenue_escrow_token_account) e λ _ _ e₁.
        bind_ok (load_token ts a.buyer_token_account) e₁ λ funds _ e₂.
          bind_ok
            (require_pda rt (ticket_position_seeds a.raffle_key a.buyer.key) a.ticket_position_key)
            e₂
            λ _ _ e₃. bind_ok (buy_tickets_constraints rt a args funds) e₃ λ _ passed e₄.
              bind_ok
                (require_eligible a.raffle.eligible_groups a.buyer.key args.eligibility_check_input
                  args.remaining_accounts)
                e₄
                λ _ _ e₅.
                  sell_tickets_effect a args.num_tickets (get_current_timestamp rt a.global_states)
                    ts a' ts' e₅ (purchase_checked rt a args funds passed) apart acc entered
