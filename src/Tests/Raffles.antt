-- ===== src/Tests/Raffles.antt =====
-- Runs of the instructions that sell the tickets of a raffle and end it.
use raffle_auction_audited_c.Prelude.{
  ℕ, ◌+◌, ◌≡◌, refl, inl, inr, none, [], ◌∷◌, arith, length, sum,
}
use raffle_auction_audited_c.Prelude.Int.{ℤ, pos}
use raffle_auction_audited_c.Failures.{ok}
use raffle_auction_audited_c.Types.{ListingStatus, Raffle, TicketPositionStats}
use raffle_auction_audited_c.Types.Defaults.{default_ticket_position, default_raffle}
use raffle_auction_audited_c.Runtime.{
  Tokens, balance, get_current_timestamp, transfer_token, close_token_account_with_signer,
}
use raffle_auction_audited_c.Accounts.{
  create_pda, settle_rent, resize_account, page_id, open_index_page, index_pubkey,
}
use raffle_auction_audited_c.Eligibility.{
  read_payloads, new_eligibility_check, check_eligibility, require_eligible,
}
use raffle_auction_audited_c.Example.{address, runtime, runtime-IsTokenProgram}
use raffle_auction_audited_c.Raffle.BuyRaffleTickets.{
  BuyRaffleTickets, BuyRaffleTicketsArgs, buy_tickets_constraints, sell_tickets,
  buy_raffle_tickets_handler,
}
use raffle_auction_audited_c.Raffle.CancelRaffle.{
  CancelRaffle, cancel_raffle_constraints, cancel_raffle_handler,
}
use raffle_auction_audited_c.Raffle.Cancelling.{cancel_raffle_returns}
use raffle_auction_audited_c.Raffle.Purchase.{Purchased, buy_raffle_tickets_handler_sells}
use raffle_auction_audited_c.Raffle.Rewards.{Moved}
use raffle_auction_audited_c.Raffle.Sales.{IsAccounted, Sold, buy_tickets_accounts}
use raffle_auction_audited_c.Raffle.Seeds.{
  ticket_position_seeds, ticket_stats_seeds, ticket_index_seeds,
}
use raffle_auction_audited_c.Raffle.Strategy.{
  is_ended, is_cancelled, cancel, new_raffle_strategy, num_remaining_rewards,
  get_raffle_signer_seed, transfer_rewards, try_close_rewards_escrow_nft_account,
  close_revenue_escrow_token_account,
}
use raffle_auction_audited_c.Raffle.Tickets.{
  Sale, add_to_position, extend_position, open_position, buy_tickets, try_index_ticket_position,
  pay_for_tickets,
}
use raffle_auction_audited_c.Tests.Market.{
  got, tokens_of, holding, nft, currency, creator, buyer, associated, states_key, states,
  wallet_info, no_index, shares, raffle_key, rewards, revenue,
}

-- Five NFTs; two ticket positions with 3 and 5 tickets are sold.
abbrev raffle_at : ℤ → Raffle
raffle_at expired = record default_raffle {
  bump = 255;
  id = 1;
  nft_mint_address = nft;
  num_raffled_nfts = 5;
  num_ticket_positions = 2;
  currency_token_mint_address = currency;
  expired_timestamp = expired;
  ticket_supply = 100;
  ticket_price = 10;
  ticket_sold = 8;
  creator = creator;
  revenue_shares = shares;
}

abbrev stats : TicketPositionStats
stats = record { bump = 255; ticket_positions = 3 ∷ 5 ∷ [] }

-- The buyer, a new one, buys 4 tickets for 40.
abbrev buying : BuyRaffleTickets
buying = record {
  raffle_key = raffle_key;
  raffle = raffle_at (pos 5000);
  global_states_key = states_key;
  global_states = states;
  buyer = wallet_info buyer;
  currency_token_mint = currency;
  revenue_escrow_token_account = revenue;
  buyer_token_account = associated buyer currency;
  ticket_position_key = address (ticket_position_seeds raffle_key buyer);
  ticket_position = none;
  ticket_position_stats_info = record {
    key = address (ticket_stats_seeds raffle_key);
    lamports = 117;
    space = 17;
  };
  ticket_position_stats = stats;
  ticket_position_index = no_index (address (ticket_index_seeds raffle_key 0));
}

abbrev buy_args : BuyRaffleTicketsArgs
buy_args = record {
  raffle_id = 1;
  num_tickets = 4;
  eligibility_check_input = none;
  remaining_accounts = [];
}

abbrev buy_tokens : Tokens
buy_tokens = tokens_of (
    (associated buyer currency, holding currency buyer 100)
    ∷ (revenue, holding currency raffle_key 80)
    ∷ [])

abbrev bought : BuyRaffleTickets × Tokens
bought = got (buy_raffle_tickets_handler runtime buying buy_args buy_tokens) (buying, buy_tokens)

buy_run : buy_raffle_tickets_handler runtime buying buy_args buy_tokens ≡ ok (bought.0, bought.1)
unfolding add_to_position buy_raffle_tickets_handler buy_tickets buy_tickets_constraints
    check_eligibility create_pda extend_position get_current_timestamp index_pubkey is_cancelled
    is_ended new_eligibility_check new_raffle_strategy open_index_page open_position page_id
    pay_for_tickets read_payloads require_eligible resize_account sell_tickets settle_rent
    transfer_token try_index_ticket_position
buy_run = refl

stats-IsAccounted : IsAccounted (raffle_at (pos 5000)) stats
unfolding sum
stats-IsAccounted = record { total = refl; positions = refl }

buy_raffle_tickets_handler_sells_example :
    Purchased buying buy_args.num_tickets buy_tokens bought.0 bought.1
buy_raffle_tickets_handler_sells_example =
    buy_raffle_tickets_handler_sells runtime runtime-IsTokenProgram buying buy_args buy_tokens
      bought.0 bought.1 buy_run (λ e. omega arith) stats-IsAccounted (inl refl)

-- The holder of position 1, with 5 tickets, buys 4 more.
abbrev sale : Sale
sale = record {
  raffle = raffle_at (pos 5000);
  ticket_position = record default_ticket_position {
    bump = 255;
    id = 1;
    buyer = buyer;
    total_num_tickets = 5;
  };
  stats = stats;
  stats_info = record { key = address (ticket_stats_seeds raffle_key); lamports = 117; space = 17 };
  buyer = wallet_info buyer;
}

abbrev sold : Sale
sold = got (buy_tickets runtime sale 255 4 (pos 1000)) sale

sale_run : buy_tickets runtime sale 255 4 (pos 1000) ≡ ok sold
unfolding add_to_position buy_tickets extend_position open_position resize_account settle_rent
sale_run = refl

buy_tickets_accounts_example : Sold sale sold 4
buy_tickets_accounts_example =
    buy_tickets_accounts runtime sale sold 255 4 (pos 1000) sale_run stats-IsAccounted (inr refl)

abbrev cancelling : CancelRaffle
cancelling = record {
  raffle_key = raffle_key;
  raffle = record (raffle_at (pos 5000)) { num_ticket_positions = 0; ticket_sold = 0 };
  creator = creator;
  nft_mint = nft;
  currency_token_mint = currency;
  rewards_escrow_nft_account = rewards;
  revenue_escrow_token_account = revenue;
  creator_nft_account = associated creator nft;
  global_states_key = states_key;
  global_states = states;
}

abbrev unsold_tokens : Tokens
unsold_tokens =
    tokens_of ((rewards, holding nft raffle_key 5) ∷ (revenue, holding currency raffle_key 0) ∷ [])

abbrev cancelled : Raffle × Tokens
cancelled =
    got (cancel_raffle_handler runtime cancelling 1 unsold_tokens) (default_raffle, unsold_tokens)

cancel_run :
    cancel_raffle_handler runtime cancelling 1 unsold_tokens ≡ ok (cancelled.0, cancelled.1)
unfolding cancel cancel_raffle_constraints cancel_raffle_handler close_revenue_escrow_token_account
    close_token_account_with_signer get_raffle_signer_seed new_raffle_strategy num_remaining_rewards
    transfer_rewards transfer_token try_close_rewards_escrow_nft_account
cancel_run = refl

cancel_raffle_returns_example :
    (cancelling.raffle.creator ≡ cancelling.creator)
    × (cancelling.raffle.ticket_sold ≡ 0)
    × ((n : ℕ) × (n + length cancelling.raffle.winner_ids ≡ cancelling.raffle.num_raffled_nfts)
        × Moved unsold_tokens cancelling.rewards_escrow_nft_account cancelling.creator_nft_account n
            cancelled.1)
    × (cancelled.1 cancelling.revenue_escrow_token_account ≡ none)
    × (balance unsold_tokens cancelling.revenue_escrow_token_account ≡ 0)
    × (cancelled.0.status ≡ ListingStatus.cancelled)
cancel_raffle_returns_example =
    cancel_raffle_returns runtime runtime-IsTokenProgram cancelling 1 unsold_tokens cancelled.0
      cancelled.1 cancel_run (λ e. omega arith) (λ e. omega arith) (λ e. omega arith)
