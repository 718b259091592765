-- ===== src/Raffle/Life.antt =====
-- The life of a raffle: the instructions of raffle/ that write its account as steps on it, in any order and
-- by anyone.
use raffle_auction_audited_c.Prelude.{
  ℕ, ◌≤◌, ◌<◌, ◌≡◌, ap, ◌∙◌, ◌≢◌, ◌⊎◌, inl, inr, Bool, List, arith,
}
use raffle_auction_audited_c.Prelude.Int.{◌+ℤ◌}
use raffle_auction_audited_c.Failures.{ok}
use raffle_auction_audited_c.Types.{ListingStatus, Raffle}
use raffle_auction_audited_c.Runtime.{Tokens, Runtime, IsTokenProgram, get_current_timestamp}
use raffle_auction_audited_c.Raffle.BuyRaffleTickets.{
  BuyRaffleTickets, BuyRaffleTicketsArgs, buy_raffle_tickets_handler,
}
use raffle_auction_audited_c.Raffle.CancelRaffle.{CancelRaffle, cancel_raffle_handler}
use raffle_auction_audited_c.Raffle.ClaimRaffleReward.{
  ClaimRaffleReward, claim_raffle_reward_handler,
}
use raffle_auction_audited_c.Raffle.CreateRaffle.{
  CreateRaffle, CreateRaffleArgs, CreatedRaffle, create_raffle_handler,
}
use raffle_auction_audited_c.Raffle.Creation.{create_raffle_starts}
use raffle_auction_audited_c.Raffle.Frames.{Kept, same_Kept, trans_Kept, RaffleTerms}
use raffle_auction_audited_c.Raffle.Keeping.{
  buy_Kept, make_Kept, set_Kept, claim_Kept, cancel_raffle_Kept,
}
use raffle_auction_audited_c.Raffle.MakeRaffle.{MakeRaffle, make_raffle_handler}
use raffle_auction_audited_c.Raffle.SetRaffleWinners.{SetRaffleWinners, set_raffle_winners_handler}
use raffle_auction_audited_c.Random.Draw.{Sampling}
use raffle_auction_audited_c.Types.Status.{in_progress_open, cancelled_or_not}

-- An instruction that succeeds, from the raffle that it was given to the one that it leaves.
pub data Step (rt : Runtime) (sp : Sampling) : Raffle → Raffle → Type 0 where
  buy_step :
      (a : BuyRaffleTickets) (args : BuyRaffleTicketsArgs) (ts : Tokens) (a' : BuyRaffleTickets)
      (ts' : Tokens) (x y : Raffle)
      → buy_raffle_tickets_handler rt a args ts ≡ ok (a', ts')
      → x ≡ a.raffle
      → y ≡ a'.raffle
      → Step rt sp x y
  make_step :
      (budget : ℕ) (a : MakeRaffle) (raffle_id : ℕ) (rerun : Bool) (x y : Raffle)
      → make_raffle_handler rt sp budget a raffle_id rerun ≡ ok y
      → x ≡ a.raffle
      → Step rt sp x y
  set_winners_step :
      (a : SetRaffleWinners) (raffle_id : ℕ) (winner_ids : List ℕ) (x y : Raffle)
      → set_raffle_winners_handler rt a raffle_id winner_ids ≡ ok y
      → x ≡ a.raffle
      → Step rt sp x y
  claim_step :
      (a : ClaimRaffleReward) (raffle_id : ℕ) (ts ts' : Tokens) (x y : Raffle)
      → claim_raffle_reward_handler rt a raffle_id ts ≡ ok (y, ts')
      → x ≡ a.raffle
      → Step rt sp x y
  cancel_step :
      (a : CancelRaffle) (raffle_id : ℕ) (ts ts' : Tokens) (x y : Raffle)
      → cancel_raffle_handler rt a raffle_id ts ≡ ok (y, ts')
      → x ≡ a.raffle
      → Step rt sp x y

pub data Steps (rt : Runtime) (sp : Sampling) : Raffle → Raffle → Type 0 where
  no_step : (x : Raffle) → Steps rt sp x x
  next_step : (x y z : Raffle) → Steps rt sp x y → Step rt sp y z → Steps rt sp x z

Step-Kept : (rt : Runtime) (sp : Sampling) (x y : Raffle) → Step rt sp x y → Kept x y
Step-Kept rt sp _ _ (buy_step a args ts a' ts' x y e p q) =
    rw (p, q) (buy_Kept rt a args ts a' ts' e)
Step-Kept rt sp _ _ (make_step budget a id rerun x y e p) =
    rw (p) (make_Kept rt sp budget a id rerun y e)
Step-Kept rt sp _ _ (set_winners_step a id winners x y e p) = rw (p) (set_Kept rt a id winners y e)
Step-Kept rt sp _ _ (claim_step a id ts ts' x y e p) = rw (p) (claim_Kept rt a id ts y ts' e)
Step-Kept rt sp _ _ (cancel_step a id ts ts' x y e p) =
    rw (p) (cancel_raffle_Kept rt a id ts y ts' e)

Steps-Kept : (rt : Runtime) (sp : Sampling) (x y : Raffle) → Steps rt sp x y → Kept x y
Steps-Kept rt sp _ _ (no_step x) = same_Kept x
Steps-Kept rt sp _ _ (next_step x y z before last) =
    trans_Kept x y z (Steps-Kept rt sp x y before) (Step-Kept rt sp y z last)

-- A raffle that has sold a ticket and is not cancelled is never cancelled, by whatever instructions
-- follow, and no ticket is taken back.
pub tickets_prevent_cancel :
    (rt : Runtime) (sp : Sampling) (x y : Raffle)
    → Steps rt sp x y
    → 0 < x.ticket_sold
    → x.status ≢ ListingStatus.cancelled
    → (y.status ≢ ListingStatus.cancelled) × (x.ticket_sold ≤ y.ticket_sold)
tickets_prevent_cancel rt sp x y steps some_sold open_yet =
    let kept = Steps-Kept rt sp x y steps in
    (
      λ c. elim (kept.cancelled c) [
        | inl none_sold ↦ absurd (omega (arith, none_sold, kept.sold))
        | inr (before, _) ↦ open_yet before
      ],
      kept.sold,
    )

-- When its rewards escrow is another account than the creator's: a raffle that was created keeps the
-- creator, the NFT and its number, the currency, the price, the supply, the end, the groups and the
-- shares of its creation, whatever instructions follow; it never sells more tickets than its supply,
-- and if it was cancelled, it never sold one.
pub created_raffle_life :
    (rt : Runtime) (tp : IsTokenProgram rt) (sp : Sampling) (a : CreateRaffle)
    (args : CreateRaffleArgs) (ts : Tokens) (created : CreatedRaffle) (y : Raffle)
    → create_raffle_handler rt a args ts ≡ ok created
    → a.creator_nft_account ≢ a.rewards_escrow_nft_account
    → Steps rt sp created.raffle y
    → (y.creator ≡ a.creator)
      × (y.nft_mint_address ≡ a.nft_mint.key)
      × (y.num_raffled_nfts ≡ args.num_raffled_nfts)
      × (y.currency_token_mint_address ≡ a.currency_token_mint)
      × (y.ticket_price ≡ args.ticket_price)
      × (y.ticket_supply ≡ args.ticket_supply)
      × (y.expired_timestamp ≡ get_current_timestamp rt a.global_states +ℤ args.duration)
      × (y.eligible_groups ≡ args.eligible_groups)
      × (y.revenue_shares ≡ args.revenue_shares)
      × (y.ticket_sold ≤ args.ticket_supply)
      × ((y.status ≢ ListingStatus.cancelled) ⊎ (y.ticket_sold ≡ 0))
created_raffle_life rt tp sp a args ts created y made apart steps =
    let (new, own, _, _, _, _, _, _, _) = create_raffle_starts rt tp a args ts created made apart in
    let kept = Steps-Kept rt sp created.raffle y steps in
    let terms = kept.terms in
    let supply = ap (λ (t : RaffleTerms). t.supply) terms ∙ new.supply in
    let bound : y.ticket_sold ≤ y.ticket_supply = kept.within (omega (arith, new.unsold)) in
    (
      ap (λ (t : RaffleTerms). t.creator) terms ∙ own,
      ap (λ (t : RaffleTerms). t.nft) terms ∙ new.nft,
      ap (λ (t : RaffleTerms). t.nfts) terms ∙ new.nfts,
      ap (λ (t : RaffleTerms). t.currency) terms ∙ new.currency,
      ap (λ (t : RaffleTerms). t.price) terms ∙ new.price,
      supply,
      ap (λ (t : RaffleTerms). t.ends) terms ∙ new.ends,
      ap (λ (t : RaffleTerms). t.groups) terms ∙ new.groups,
      ap (λ (t : RaffleTerms). t.shares) terms ∙ new.shares,
      omega (arith, bound, supply),
      elim (cancelled_or_not y.status) [
        | inl open_yet ↦ inl open_yet
        | inr c ↦ elim (kept.cancelled c) [
          | inl none_sold ↦ inr none_sold
          | inr (before, _) ↦ absurd (in_progress_open created.raffle.status new.running before)
        ]
      ],
    )
