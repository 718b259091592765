-- ===== src/Raffle/Tickets.antt =====
-- common/raffle_strategy.rs: buy_tickets, try_index_ticket_position and pay_for_tickets.
use raffle_auction_audited_c.Prelude.{
  ℕ, ◌+◌, ◌*◌, not, none, List, [], ◌∷◌, ◌++◌, ◌==◌, if◌then◌else◌, get_elem?, set,
}
use raffle_auction_audited_c.Prelude.Int.{ℤ}
use raffle_auction_audited_c.Failures.{Failure, Result, ok, ◌>>=◌, or_fail}
use raffle_auction_audited_c.Failures.Checked.{add_u16, mul_u64}
use raffle_auction_audited_c.Types.{Pubkey, Raffle, RaffleTicketPosition, TicketPositionStats}
use raffle_auction_audited_c.Runtime.{Runtime, Tokens, Seed, SeedLabel}
use raffle_auction_audited_c.Accounts.{AccountInfo, IndexAccount, page_id, index_pubkey}
use raffle_auction_audited_c.Runtime.{transfer_token}
use raffle_auction_audited_c.Accounts.{resize_account}
use raffle_auction_audited_c.Raffle.Strategy.{RaffleStrategy}

abbrev pub ticket_stats_init_data_size : ℕ
ticket_stats_init_data_size = 1 + 4

-- `TicketPositionStats::space`
abbrev pub ticket_stats_space : ℕ → ℕ
ticket_stats_space len = 8 + ticket_stats_init_data_size + len * 2

-- What a purchase reads and writes: the raffle, the buyer's position, the stats with their account,
-- and the buyer's account, which pays for the resizing.
pub record Sale : Type 0 where
  pub raffle : Raffle
  pub ticket_position : RaffleTicketPosition
  pub stats : TicketPositionStats
  pub stats_info : AccountInfo
  pub buyer : AccountInfo

-- `ticket_positions[id] += num_tickets`
unfoldable pub add_to_position : List ℕ → ℕ → ℕ → Result (List ℕ)
add_to_position ticket_positions id num_tickets = do
  had ← or_fail (get_elem? ticket_positions id) Failure.index_out_of_bounds
  has ← add_u16 had num_tickets
  ok (set ticket_positions id has)

-- The branch of an existing position: only the stats change.
unfoldable pub extend_position : Sale → ℕ → Result Sale
unfolding add_to_position
extend_position s num_tickets = do
  ticket_positions ← add_to_position s.stats.ticket_positions s.ticket_position.id num_tickets
  ok (record s { stats = record (s.stats) { ticket_positions = ticket_positions } })

-- The branch of a new position: a new entry of the stats, whose account grows.
unfoldable pub open_position : Runtime → Sale → ℕ → ℕ → Result Sale
open_position rt s ticket_position_bump num_tickets = do
  num_ticket_positions ← add_u16 s.raffle.num_ticket_positions 1
  resized ← resize_account rt s.stats_info (ticket_stats_space num_ticket_positions) s.buyer
  ok (record {
    raffle = record (s.raffle) { num_ticket_positions = num_ticket_positions };
    ticket_position = record (s.ticket_position) {
      bump = ticket_position_bump;
      id = s.raffle.num_ticket_positions;
      buyer = s.buyer.key;
    };
    stats = record (s.stats) { ticket_positions = s.stats.ticket_positions ++ num_tickets ∷ [] };
    stats_info = resized.0;
    buyer = resized.1;
  })

unfoldable pub buy_tickets : Runtime → Sale → ℕ → ℕ → ℤ → Result Sale
unfolding extend_position open_position
buy_tickets rt s ticket_position_bump num_tickets current_timestamp = do
  s' ←
      if not (s.ticket_position.total_num_tickets == 0)
      then extend_position s num_tickets
      else open_position rt s ticket_position_bump num_tickets
  total_num_tickets ← add_u16 s'.ticket_position.total_num_tickets num_tickets
  ticket_sold ← add_u16 s'.raffle.ticket_sold num_tickets
  ok (record s' {
    ticket_position = record (s'.ticket_position) {
      total_num_tickets = total_num_tickets;
      last_purchase_timestamp = current_timestamp;
    };
    raffle = record (s'.raffle) { ticket_sold = ticket_sold };
  })

-- `try_index_ticket_position`, for a position that holds no ticket yet; its address is `key`.
unfoldable pub try_index_ticket_position :
    Runtime
    → RaffleStrategy
    → Pubkey
    → RaffleTicketPosition
    → ℕ
    → IndexAccount
    → AccountInfo
    → Result (IndexAccount × AccountInfo)
try_index_ticket_position rt s key ticket_position index_bump index buyer =
    if not (ticket_position.total_num_tickets == 0) then ok (index, buyer) else (do
      page ← page_id s.raffle.num_ticket_positions s.global_states.num_keys_per_index_page
      index_pubkey rt key index_bump
          (Seed.label SeedLabel.raffle
            ∷ Seed.key s.raffle_key
            ∷ Seed.label SeedLabel.ticket_position_index
            ∷ Seed.number page
            ∷ Seed.bump index_bump
            ∷ [])
          index buyer)

-- buyer's token account, escrow, buyer
unfoldable pub pay_for_tickets :
    Runtime → RaffleStrategy → ℕ → Pubkey → Pubkey → Pubkey → Tokens → Result Tokens
pay_for_tickets rt s num_tickets buyer_token_account revenue_escrow_token_account buyer ts = do
  payment ← mul_u64 num_tickets s.raffle.ticket_price
  transfer_token rt buyer_token_account revenue_escrow_token_account buyer payment none ts
