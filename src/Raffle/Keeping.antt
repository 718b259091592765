-- ===== src/Raffle/Keeping.antt =====
-- What each instruction of raffle/ keeps of the account of its raffle.
use raffle_auction_audited_c.Prelude.{
  ℕ, ◌+◌, ◌≤◌, ◌≡◌, sym, ap, ◌∙◌, ◌≢◌, Bool, List, arith, ltb, leb, ◌==◌,
}
use raffle_auction_audited_c.Prelude.Int.{ℤ}
use raffle_auction_audited_c.Failures.{JustiesErrorCode, fail_if, constraint, bind_ok, ok_inj, ok}
use raffle_auction_audited_c.Failures.Checked.{add_u16}
use raffle_auction_audited_c.Types.{ListingStatus, status_eq, Raffle}
use raffle_auction_audited_c.Runtime.{
  TokenAccount, Tokens, Runtime, load_token, get_current_timestamp, require_pda, require_pda_bump,
  init_associated_if_needed,
}
use raffle_auction_audited_c.Accounts.{page_id}
use raffle_auction_audited_c.Auction.Seeds.{global_states_seeds}
use raffle_auction_audited_c.Eligibility.{require_eligible}
use raffle_auction_audited_c.Raffle.BuyRaffleTickets.{
  BuyRaffleTickets, BuyRaffleTicketsArgs, loaded_position, buy_tickets_constraints, sell_tickets,
  buy_raffle_tickets_handler,
}
use raffle_auction_audited_c.Raffle.CancelRaffle.{
  CancelRaffle, cancel_raffle_constraints, cancel_raffle_handler,
}
use raffle_auction_audited_c.Raffle.ClaimRaffleReward.{
  ClaimRaffleReward, claim_raffle_reward_constraints, claim_raffle_reward_handler,
}
use raffle_auction_audited_c.Raffle.Frames.{
  Kept, cancel-Kept, RaffleTerms, set_winners-Kept, make_raffle-Kept, claim_reward-Kept, Gained,
  buy_tickets-Gained,
}
use raffle_auction_audited_c.Raffle.MakeRaffle.{
  MakeRaffle, make_raffle_constraints, make_raffle_handler,
}
use raffle_auction_audited_c.Raffle.Seeds.{raffle_seeds, ticket_position_seeds, ticket_index_seeds}
use raffle_auction_audited_c.Raffle.SetRaffleWinners.{SetRaffleWinners, set_raffle_winners_handler}
use raffle_auction_audited_c.Raffle.Strategy.{
  is_ended, is_cancelled, new_raffle_strategy, num_remaining_rewards, validate_set_winners,
  validate_make_raffle, validate_claim, claim_reward, make_raffle, transfer_rewards,
  try_close_rewards_escrow_nft_account, close_revenue_escrow_token_account,
}
use raffle_auction_audited_c.Raffle.Tickets.{
  Sale, buy_tickets, try_index_ticket_position, pay_for_tickets,
}
use raffle_auction_audited_c.Random.Draw.{Sampling}

Gained-Kept :
    (x y : Raffle) (n : ℕ)
    → Gained x y n
    → x.status ≢ ListingStatus.cancelled
    → x.ticket_sold + n ≤ x.ticket_supply
    → Kept x y
Gained-Kept x y n s open_yet fits = record {
  terms = s.terms;
  sold = omega (arith, s.sold);
  within = λ h. omega (arith, s.sold, ap (λ (t : RaffleTerms). t.supply) s.terms, fits);
  cancelled = λ c. absurd (open_yet (sym s.status ∙ c));
}

refused :
    (status : ListingStatus)
    → status ≡ ListingStatus.cancelled
    → fail_if (status_eq status ListingStatus.cancelled) JustiesErrorCode.raffle_cancelled ≡ ok tt
    → ⊥
refused ListingStatus.in_progress c e = cc
refused ListingStatus.finished c e = cc
refused ListingStatus.cancelled c e = cc

in_supply :
    (n sold total supply : ℕ)
    → add_u16 n sold ≡ ok total
    → constraint (leb total supply) JustiesErrorCode.invalid_raffle_ticket_number ≡ ok tt
    → sold + n ≤ supply
in_supply n sold total supply counted within = ground arith

fitting :
    (rt : Runtime) (a : BuyRaffleTickets) (args : BuyRaffleTicketsArgs) (funds : TokenAccount)
    → buy_tickets_constraints rt a args funds ≡ ok tt
    → a.raffle.ticket_sold + args.num_tickets ≤ a.raffle.ticket_supply
unfolding buy_tickets_constraints
fitting rt a args funds e =
    bind_ok (require_pda_bump rt (raffle_seeds args.raffle_id) a.raffle.bump a.raffle_key) e
      λ _ _ e₁.
        bind_ok (constraint (ltb 0 args.num_tickets) JustiesErrorCode.invalid_raffle_ticket_number)
          e₁
          λ _ _ e₂. bind_ok (add_u16 args.num_tickets a.raffle.ticket_sold) e₂ λ total counted e₃.
            bind_ok
              (constraint (leb total a.raffle.ticket_supply)
                JustiesErrorCode.invalid_raffle_ticket_number)
              e₃
              λ _ within _.
                in_supply args.num_tickets a.raffle.ticket_sold total a.raffle.ticket_supply counted
                  within

sell_Kept :
    (rt : Runtime) (a : BuyRaffleTickets) (n : ℕ) (now : ℤ) (ts : Tokens) (a' : BuyRaffleTickets)
    (ts' : Tokens)
    → sell_tickets rt a n now ts ≡ ok (a', ts')
    → a.raffle.ticket_sold + n ≤ a.raffle.ticket_supply
    → Kept a.raffle a'.raffle
unfolding sell_tickets is_cancelled new_raffle_strategy
sell_Kept rt a n now ts a' ts' e fits =
    let s = new_raffle_strategy a.raffle_key a.raffle a.global_states in
    bind_ok (fail_if (is_ended s now) JustiesErrorCode.raffle_ended) e λ _ _ e₁.
      bind_ok (fail_if (is_cancelled s) JustiesErrorCode.raffle_cancelled) e₁ λ _ open_yet e₂.
        bind_ok (page_id a.raffle.num_ticket_positions a.global_states.num_keys_per_index_page) e₂
          λ page _ e₃.
            bind_ok
              (try_index_ticket_position rt s a.ticket_position_key
                (loaded_position a.ticket_position)
                (rt.find_program_address (ticket_index_seeds a.raffle_key page)).1
                a.ticket_position_index a.buyer)
              e₃
              λ indexed _ e₄.
                bind_ok
                  (pay_for_tickets rt s n a.buyer_token_account a.revenue_escrow_token_account
                    a.buyer.key ts)
                  e₄
                  λ ts₁ _ e₅.
                    let sale : Sale = record {
                      raffle = a.raffle;
                      ticket_position = loaded_position a.ticket_position;
                      stats = a.ticket_position_stats;
                      stats_info = a.ticket_position_stats_info;
                      buyer = indexed.1;
                    } in
                    let bump =
                      (rt.find_program_address
                        (ticket_position_seeds a.raffle_key a.buyer.key)).1 in
                    bind_ok (buy_tickets rt sale bump n now) e₅ λ sold sells e₆.
                      rw (← ap (λ (x : BuyRaffleTickets × Tokens). x.0) (ok_inj e₆)) (
                        Gained-Kept a.raffle sold.raffle n
                          (buy_tickets-Gained rt sale sold bump n now sells)
                          (λ c. refused _ c open_yet) fits)

pub buy_Kept :
    (rt : Runtime) (a : BuyRaffleTickets) (args : BuyRaffleTicketsArgs) (ts : Tokens)
    (a' : BuyRaffleTickets) (ts' : Tokens)
    → buy_raffle_tickets_handler rt a args ts ≡ ok (a', ts')
    → Kept a.raffle a'.raffle
unfolding buy_raffle_tickets_handler
buy_Kept rt a args ts a' ts' e = bind_ok (load_token ts a.revenue_escrow_token_account) e λ _ _ e₁.
    bind_ok (load_token ts a.buyer_token_account) e₁ λ funds _ e₂.
      bind_ok
        (require_pda rt (ticket_position_seeds a.raffle_key a.buyer.key) a.ticket_position_key) e₂
        λ _ _ e₃. bind_ok (buy_tickets_constraints rt a args funds) e₃ λ _ passed e₄.
          bind_ok
            (require_eligible a.raffle.eligible_groups a.buyer.key args.eligibility_check_input
              args.remaining_accounts)
            e₄
            λ _ _ e₅.
              sell_Kept rt a args.num_tickets (get_current_timestamp rt a.global_states) ts a' ts'
                e₅ (fitting rt a args funds passed)

pub make_Kept :
    (rt : Runtime) (sp : Sampling) (budget : ℕ) (a : MakeRaffle) (id : ℕ) (rerun : Bool)
    (y : Raffle)
    → make_raffle_handler rt sp budget a id rerun ≡ ok y
    → Kept a.raffle y
unfolding make_raffle_handler new_raffle_strategy
make_Kept rt sp budget a id rerun y e =
    let s = new_raffle_strategy a.raffle_key a.raffle a.global_states in
    let positions = a.ticket_position_stats.ticket_positions in
    bind_ok (make_raffle_constraints rt a id) e λ _ _ e₁.
      bind_ok (validate_make_raffle s (get_current_timestamp rt a.global_states) rerun) e₁ λ _ _ e₂.
        bind_ok (make_raffle rt sp budget s positions) e₂
          λ made makes e₃. rw (← ok_inj e₃) (make_raffle-Kept rt sp budget s made positions makes)

pub set_Kept :
    (rt : Runtime) (a : SetRaffleWinners) (id : ℕ) (winners : List ℕ) (y : Raffle)
    → set_raffle_winners_handler rt a id winners ≡ ok y
    → Kept a.raffle y
unfolding set_raffle_winners_handler new_raffle_strategy
set_Kept rt a id winners y e =
    let s = new_raffle_strategy a.raffle_key a.raffle a.global_states in
    bind_ok (require_pda_bump rt (raffle_seeds id) a.raffle.bump a.raffle_key) e λ _ _ e₁.
      bind_ok (require_pda_bump rt global_states_seeds a.global_states.bump a.global_states_key) e₁
        λ _ _ e₂.
          bind_ok
            (constraint a.global_states.is_test_environment JustiesErrorCode.not_test_environment)
            e₂
            λ _ _ e₃.
              bind_ok
                (constraint (a.global_states.authority == a.authority)
                  JustiesErrorCode.not_the_authority)
                e₃
                λ _ _ e₄.
                  bind_ok (validate_set_winners s (get_current_timestamp rt a.global_states)) e₄
                    λ _ _ e₅. rw (← ok_inj e₅) (set_winners-Kept s winners)

pub claim_Kept :
    (rt : Runtime) (a : ClaimRaffleReward) (id : ℕ) (ts : Tokens) (y : Raffle) (ts' : Tokens)
    → claim_raffle_reward_handler rt a id ts ≡ ok (y, ts')
    → Kept a.raffle y
unfolding claim_raffle_reward_handler new_raffle_strategy
claim_Kept rt a id ts y ts' e =
    let s = new_raffle_strategy a.raffle_key a.raffle a.global_states in
    bind_ok (load_token ts a.rewards_escrow_nft_account) e λ escrow _ e₁.
      bind_ok (init_associated_if_needed rt a.claimer_nft_account a.nft_mint a.claimer ts) e₁
        λ ts₁ _ e₂. bind_ok (claim_raffle_reward_constraints rt a id) e₂ λ _ _ e₃.
          bind_ok (validate_claim s a.ticket_position.id) e₃ λ _ _ e₄.
            bind_ok (claim_reward s a.ticket_position.id) e₄ λ claimed claims e₅.
              bind_ok
                (transfer_rewards rt claimed a.rewards_escrow_nft_account a.claimer_nft_account 1
                  ts₁)
                e₅
                λ ts₂ _ e₆.
                  bind_ok
                    (try_close_rewards_escrow_nft_account rt claimed a.rewards_escrow_nft_account
                      a.creator ts₂)
                    e₆
                    λ ts₃ _ e₇.
                      rw (← ap (λ (x : Raffle × Tokens). x.0) (ok_inj e₇))
                        (claim_reward-Kept s claimed a.ticket_position.id claims)

unsold :
    (rt : Runtime) (a : CancelRaffle) (id : ℕ) (rewards revenue : TokenAccount)
    → cancel_raffle_constraints rt a id rewards revenue ≡ ok tt
    → a.raffle.ticket_sold ≡ 0
unfolding cancel_raffle_constraints
unsold rt a id rewards revenue e = ground arith

pub cancel_raffle_Kept :
    (rt : Runtime) (a : CancelRaffle) (id : ℕ) (ts : Tokens) (y : Raffle) (ts' : Tokens)
    → cancel_raffle_handler rt a id ts ≡ ok (y, ts')
    → Kept a.raffle y
unfolding cancel_raffle_handler new_raffle_strategy
cancel_raffle_Kept rt a id ts y ts' e =
    let s = new_raffle_strategy a.raffle_key a.raffle a.global_states in
    bind_ok (load_token ts a.rewards_escrow_nft_account) e λ rewards _ e₁.
      bind_ok (load_token ts a.revenue_escrow_token_account) e₁ λ revenue _ e₂.
        bind_ok (init_associated_if_needed rt a.creator_nft_account a.nft_mint a.creator ts) e₂
          λ ts₁ _ e₃. bind_ok (cancel_raffle_constraints rt a id rewards revenue) e₃ λ _ passed e₄.
            bind_ok (num_remaining_rewards s) e₄ λ n _ e₅.
              bind_ok
                (transfer_rewards rt s a.rewards_escrow_nft_account a.creator_nft_account n ts₁) e₅
                λ ts₂ _ e₆.
                  bind_ok
                    (try_close_rewards_escrow_nft_account rt s a.rewards_escrow_nft_account
                      a.creator ts₂)
                    e₆
                    λ ts₃ _ e₇.
                      bind_ok
                        (close_revenue_escrow_token_account rt s a.revenue_escrow_token_account
                          a.creator ts₃)
                        e₇
                        λ ts₄ _ e₈.
                          rw (← ap (λ (x : Raffle × Tokens). x.0) (ok_inj e₈))
                            (cancel-Kept s (unsold rt a id rewards revenue passed))
