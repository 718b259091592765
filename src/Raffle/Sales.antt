-- ===== src/Raffle/Sales.antt =====
-- The ledger of tickets: buy_tickets of common/raffle_strategy.rs keeps the stats, the raffle and the
-- buyer's position in agreement.
use raffle_auction_audited_c.Prelude.{
  ℕ, ◌+◌, ◌≡◌, refl, sym, ap, ◌∙◌, ◌≢◌, ◌⊎◌, inl, inr, Bool, true, false, not, some, List, [], ◌∷◌,
  arith, ◌==◌, if◌then◌else◌, ==_iff, Bool-cases, length, get_elem?, set, sum, sum-append, sum-set,
  get_elem?-append_last, get_elem?-append_lt, get_elem?-set, get_elem?-set_other, length-append,
  length-set, get_elem?-some,
}
use raffle_auction_audited_c.Prelude.Int.{ℤ}
use raffle_auction_audited_c.Failures.{Failure, Result, or_fail, bind_ok, ok_inj, or_fail-some, ok}
use raffle_auction_audited_c.Failures.Checked.{add_u16}
use raffle_auction_audited_c.Types.{Raffle, RaffleTicketPosition, TicketPositionStats}
use raffle_auction_audited_c.Runtime.{Runtime}
use raffle_auction_audited_c.Accounts.{resize_account}
use raffle_auction_audited_c.Raffle.Claims.{some_inj}
use raffle_auction_audited_c.Raffle.Tickets.{
  ticket_stats_space, Sale, add_to_position, extend_position, open_position, buy_tickets,
}

-- What the tickets of a raffle add up to.
pub record IsAccounted (raffle : Raffle) (stats : TicketPositionStats) : Type 0 where
  pub total : sum stats.ticket_positions ≡ raffle.ticket_sold
  pub positions : length stats.ticket_positions ≡ raffle.num_ticket_positions

-- A position either holds no ticket yet, or its entry of the stats says how many it holds.
abbrev pub IsEntered : RaffleTicketPosition → TicketPositionStats → Type 0
IsEntered p stats =
    (p.total_num_tickets ≡ 0) ⊎ (get_elem? stats.ticket_positions p.id ≡ some p.total_num_tickets)

-- What the sale of `n` tickets leads to.
pub record Sold (s s' : Sale) (n : ℕ) : Type 0 where
  pub accounted : IsAccounted s'.raffle s'.stats
  pub entered :
      get_elem? s'.stats.ticket_positions s'.ticket_position.id
      ≡ some s'.ticket_position.total_num_tickets
  pub bought : s'.ticket_position.total_num_tickets ≡ s.ticket_position.total_num_tickets + n
  pub sold : s'.raffle.ticket_sold ≡ s.raffle.ticket_sold + n
  pub others :
      (j v : ℕ)
      → j ≢ s'.ticket_position.id
      → get_elem? s.stats.ticket_positions j ≡ some v
      → get_elem? s'.stats.ticket_positions j ≡ some v

add_to_position_data :
    (xs ys : List ℕ) (id n : ℕ)
    → add_to_position xs id n ≡ ok ys
    → (had : ℕ) × (get_elem? xs id ≡ some had) × (ys ≡ set xs id (had + n))
unfolding add_to_position
add_to_position_data xs ys id n e =
    bind_ok (or_fail (get_elem? xs id) Failure.index_out_of_bounds) e λ had found e₁.
      bind_ok (add_u16 had n) e₁ λ has added e₂.
        let sum_is : has ≡ had + n = ground arith in
        (had, or_fail-some _ _ found, sym (ok_inj e₂) ∙ ap (set xs id) sum_is)

-- The state between the entry and the totals.
record Entered (s m : Sale) (n : ℕ) : Type 0 where
  total : sum m.stats.ticket_positions ≡ s.raffle.ticket_sold + n
  positions : length m.stats.ticket_positions ≡ m.raffle.num_ticket_positions
  entry :
      get_elem? m.stats.ticket_positions m.ticket_position.id
      ≡ some (s.ticket_position.total_num_tickets + n)
  same_total : m.ticket_position.total_num_tickets ≡ s.ticket_position.total_num_tickets
  same_sold : m.raffle.ticket_sold ≡ s.raffle.ticket_sold
  others :
      (j v : ℕ)
      → j ≢ m.ticket_position.id
      → get_elem? s.stats.ticket_positions j ≡ some v
      → get_elem? m.stats.ticket_positions j ≡ some v

extend_position_enters :
    (s m : Sale) (n : ℕ)
    → extend_position s n ≡ ok m
    → IsAccounted s.raffle s.stats
    → get_elem? s.stats.ticket_positions s.ticket_position.id
      ≡ some s.ticket_position.total_num_tickets
    → Entered s m n
unfolding extend_position
extend_position_enters s m n e acc at_id =
    bind_ok (add_to_position s.stats.ticket_positions s.ticket_position.id n) e λ ys added e₁.
      let xs = s.stats.ticket_positions in
      let id = s.ticket_position.id in
      let had = s.ticket_position.total_num_tickets in
      let (had', found, written) = add_to_position_data xs ys id n added in
      let same : had' ≡ had = some_inj (sym found ∙ at_id) in
      let after : ys ≡ set xs id (had + n) = written ∙ ap (λ (h : ℕ). set xs id (h + n)) same in
      rw (← ok_inj e₁) (record {
        total = rw (after) (omega (arith, sum-set xs id had (had + n) at_id, acc.total));
        positions = rw (after) (length-set xs id (had + n) ∙ acc.positions);
        entry = rw (after) (get_elem?-set xs id (had + n) (get_elem?-some xs id at_id));
        same_total = refl;
        same_sold = refl;
        others = λ j v apart at_j. rw (after) (get_elem?-set_other xs id j (had + n) apart ∙ at_j);
      })

open_position_enters :
    (rt : Runtime) (s m : Sale) (bump n : ℕ)
    → open_position rt s bump n ≡ ok m
    → IsAccounted s.raffle s.stats
    → s.ticket_position.total_num_tickets ≡ 0
    → Entered s m n
unfolding open_position sum
open_position_enters rt s m bump n e acc fresh =
    bind_ok (add_u16 s.raffle.num_ticket_positions 1) e λ count counted e₁.
      bind_ok (resize_account rt s.stats_info (ticket_stats_space count) s.buyer) e₁ λ resized _ e₂.
        let xs = s.stats.ticket_positions in
        let count_is : count ≡ s.raffle.num_ticket_positions + 1 = ground arith in
        rw (← ok_inj e₂) (record {
          total = omega (arith, sum-append xs (n ∷ []), acc.total);
          positions = omega (arith, length-append xs (n ∷ []), acc.positions, count_is);
          entry = rw (← acc.positions, fresh) (get_elem?-append_last xs n ∙ ap some (omega arith));
          same_total = refl;
          same_sold = refl;
          others = λ j v apart at_j. get_elem?-append_lt xs (n ∷ []) j at_j;
        })

if_not-true : (b : Bool) (x y : Result Sale) → b ≡ true → (if not b then x else y) ≡ y
if_not-true b x y e = rw (e) refl

if_not-false : (b : Bool) (x y : Result Sale) → b ≡ false → (if not b then x else y) ≡ x
if_not-false b x y e = rw (e) refl

enters :
    (rt : Runtime) (s m : Sale) (bump n : ℕ)
    → (if not (s.ticket_position.total_num_tickets == 0)
        then extend_position s n
        else open_position rt s bump n)
      ≡ ok m
    → IsAccounted s.raffle s.stats
    → IsEntered s.ticket_position s.stats
    → Entered s m n
enters rt s m bump n e acc entered = elim (Bool-cases (s.ticket_position.total_num_tickets == 0)) [
  | inl fresh ↦
      open_position_enters rt s m bump n (sym (if_not-true _ _ _ fresh) ∙ e) acc
        ((==_iff _ 0).0 fresh)
  | inr held ↦
      extend_position_enters s m n (sym (if_not-false _ _ _ held) ∙ e) acc
        (elim entered [ inl none_held ↦ ground arith | inr at_id ↦ at_id ])
]

-- Let the stats add up to the tickets sold and the buyer's position agree with its entry. A sale
-- then adds its tickets to the position and to the tickets sold, writes them to the position's
-- entry and to no other, and leaves the stats adding up to the tickets sold, with an entry for
-- every position.
pub buy_tickets_accounts :
    (rt : Runtime) (s s' : Sale) (bump n : ℕ) (now : ℤ)
    → buy_tickets rt s bump n now ≡ ok s'
    → IsAccounted s.raffle s.stats
    → IsEntered s.ticket_position s.stats
    → Sold s s' n
unfolding buy_tickets
buy_tickets_accounts rt s s' bump n now e acc entered =
    bind_ok
      (if not (s.ticket_position.total_num_tickets == 0)
        then extend_position s n
        else open_position rt s bump n)
      e
      λ m began e₁. bind_ok (add_u16 m.ticket_position.total_num_tickets n) e₁ λ held summed e₂.
        bind_ok (add_u16 m.raffle.ticket_sold n) e₂ λ sold added e₃.
          let v = enters rt s m bump n began acc entered in
          let held_is : held ≡ m.ticket_position.total_num_tickets + n = ground arith in
          let sold_is : sold ≡ m.raffle.ticket_sold + n = ground arith in
          rw (← ok_inj e₃) (record {
            accounted = record {
              total = omega (arith, v.total, v.same_sold, sold_is);
              positions = v.positions;
            };
            entered = v.entry ∙ ap some (omega (arith, v.same_total, held_is));
            bought = omega (arith, v.same_total, held_is);
            sold = omega (arith, v.same_sold, sold_is);
            others = v.others;
          })
