-- ===== src/Raffle/BuyRaffleTickets.antt =====
-- raffle/buy_raffle_tickets.rs: the accounts, the constraints on them and the handler.
use raffle_auction_audited_c.Prelude.{ℕ, not, Option, none, some, List, ltb, leb, ◌==◌}
use raffle_auction_audited_c.Prelude.Int.{ℤ}
use raffle_auction_audited_c.Failures.{
  JustiesErrorCode, Result, ok, ◌>>=◌, ◌>>◌, fail_if, constraint,
}
use raffle_auction_audited_c.Failures.Checked.{add_u16, mul_u64}
use raffle_auction_audited_c.Types.{
  Pubkey, GlobalStates, EligibilityCheckInput, Raffle, RaffleTicketPosition, TicketPositionStats,
}
use raffle_auction_audited_c.Types.Defaults.{default_ticket_position}
use raffle_auction_audited_c.Runtime.{
  Runtime, Tokens, TokenAccount, get_current_timestamp, load_token, require_pda, require_pda_bump,
}
use raffle_auction_audited_c.Accounts.{AccountInfo, IndexAccount, page_id}
use raffle_auction_audited_c.Eligibility.{Payload, require_eligible}
use raffle_auction_audited_c.Auction.Seeds.{global_states_seeds}
use raffle_auction_audited_c.Raffle.Seeds.{
  raffle_seeds, revenue_escrow_seeds, ticket_position_seeds, ticket_stats_seeds, ticket_index_seeds,
}
use raffle_auction_audited_c.Raffle.Strategy.{new_raffle_strategy, is_ended, is_cancelled}
use raffle_auction_audited_c.Raffle.Tickets.{
  buy_tickets, try_index_ticket_position, pay_for_tickets,
}

-- A ticket position is `none` until `init_if_needed` creates it.
pub record BuyRaffleTickets : Type 0 where
  pub raffle_key : Pubkey
  pub raffle : Raffle
  pub global_states_key : Pubkey
  pub global_states : GlobalStates
  pub buyer : AccountInfo
  pub currency_token_mint : Pubkey
  pub revenue_escrow_token_account : Pubkey
  pub buyer_token_account : Pubkey
  pub ticket_position_key : Pubkey
  pub ticket_position : Option RaffleTicketPosition
  pub ticket_position_stats_info : AccountInfo
  pub ticket_position_stats : TicketPositionStats
  pub ticket_position_index : IndexAccount

pub record BuyRaffleTicketsArgs : Type 0 where
  pub raffle_id : ℕ
  pub num_tickets : ℕ
  pub eligibility_check_input : Option EligibilityCheckInput
  pub remaining_accounts : List Payload

abbrev pub loaded_position : Option RaffleTicketPosition → RaffleTicketPosition
loaded_position none = default_ticket_position
loaded_position (some p) = p

unfoldable pub buy_tickets_constraints :
    Runtime → BuyRaffleTickets → BuyRaffleTicketsArgs → TokenAccount → Result (Unit {0})
buy_tickets_constraints rt a args buyer_token_account = do
  require_pda_bump rt (raffle_seeds args.raffle_id) a.raffle.bump a.raffle_key
  constraint (ltb 0 args.num_tickets) JustiesErrorCode.invalid_raffle_ticket_number
  ticket_sold ← add_u16 args.num_tickets a.raffle.ticket_sold
  constraint (leb ticket_sold a.raffle.ticket_supply) JustiesErrorCode.invalid_raffle_ticket_number
  require_pda_bump rt global_states_seeds a.global_states.bump a.global_states_key
  constraint (not (a.buyer.key == a.raffle.creator))
      JustiesErrorCode.raffle_creator_cannot_buy_tickets
  constraint (a.currency_token_mint == a.raffle.currency_token_mint_address)
      JustiesErrorCode.invalid_currency_token_mint
  require_pda rt (revenue_escrow_seeds a.raffle_key) a.revenue_escrow_token_account
  constraint (buyer_token_account.owner == a.buyer.key)
      JustiesErrorCode.invalid_ticket_buyer_token_account
  constraint (buyer_token_account.mint == a.currency_token_mint)
      JustiesErrorCode.invalid_ticket_buyer_token_account
  payment ← mul_u64 args.num_tickets a.raffle.ticket_price
  constraint (leb payment buyer_token_account.amount)
      JustiesErrorCode.invalid_ticket_buyer_token_account
  require_pda_bump rt (ticket_stats_seeds a.raffle_key) a.ticket_position_stats.bump
      a.ticket_position_stats_info.key
  page ← page_id a.raffle.num_ticket_positions a.global_states.num_keys_per_index_page
  require_pda rt (ticket_index_seeds a.raffle_key page) a.ticket_position_index.info.key

-- What follows the eligibility check: the tests of the raffle, the index, the payment, the sale.
unfoldable pub sell_tickets :
    Runtime → BuyRaffleTickets → ℕ → ℤ → Tokens → Result (BuyRaffleTickets × Tokens)
sell_tickets rt a num_tickets now ts = do
  let strategy = new_raffle_strategy a.raffle_key a.raffle a.global_states
  fail_if (is_ended strategy now) JustiesErrorCode.raffle_ended
  fail_if (is_cancelled strategy) JustiesErrorCode.raffle_cancelled
  page ← page_id a.raffle.num_ticket_positions a.global_states.num_keys_per_index_page
  indexed ←
      try_index_ticket_position rt strategy a.ticket_position_key
        (loaded_position a.ticket_position)
        (rt.find_program_address (ticket_index_seeds a.raffle_key page)).1 a.ticket_position_index
        a.buyer
  ts' ←
      pay_for_tickets rt strategy num_tickets a.buyer_token_account a.revenue_escrow_token_account
        a.buyer.key ts
  sold ←
      buy_tickets rt
        (record {
          raffle = a.raffle;
          ticket_position = loaded_position a.ticket_position;
          stats = a.ticket_position_stats;
          stats_info = a.ticket_position_stats_info;
          buyer = indexed.1;
        })
        (rt.find_program_address (ticket_position_seeds a.raffle_key a.buyer.key)).1 num_tickets now
  ok (
    record a {
      raffle = sold.raffle;
      buyer = sold.buyer;
      ticket_position = some sold.ticket_position;
      ticket_position_stats = sold.stats;
      ticket_position_stats_info = sold.stats_info;
      ticket_position_index = indexed.0;
    },
    ts',
  )

unfoldable pub buy_raffle_tickets_handler :
    Runtime → BuyRaffleTickets → BuyRaffleTicketsArgs → Tokens → Result (BuyRaffleTickets × Tokens)
buy_raffle_tickets_handler rt a args ts = do
  _ ← load_token ts a.revenue_escrow_token_account
  buyer_token_account ← load_token ts a.buyer_token_account
  require_pda rt (ticket_position_seeds a.raffle_key a.buyer.key) a.ticket_position_key
  buy_tickets_constraints rt a args buyer_token_account
  require_eligible a.raffle.eligible_groups a.buyer.key args.eligibility_check_input
      args.remaining_accounts
  sell_tickets rt a args.num_tickets (get_current_timestamp rt a.global_states) ts
