-- ===== src/Raffle/Frames.antt =====
-- What the operations of common/raffle_strategy.rs leave of a raffle's account.
use raffle_auction_audited_c.Prelude.{
  ℕ, ◌+◌, ◌≤◌, ◌≡◌, refl, ap, ◌∙◌, ◌⊎◌, inl, inr, not, List, arith, ◌==◌, if◌then◌else◌,
}
use raffle_auction_audited_c.Prelude.Int.{ℤ}
use raffle_auction_audited_c.Failures.{Failure, or_fail, bind_ok, ok_inj, if_ok, ok}
use raffle_auction_audited_c.Failures.Checked.{add_u16}
use raffle_auction_audited_c.Types.{Pubkey, ListingStatus, GroupConfig, RevenueShareConfig, Raffle}
use raffle_auction_audited_c.Runtime.{Runtime, get_current_timestamp}
use raffle_auction_audited_c.Accounts.{resize_account}
use raffle_auction_audited_c.Raffle.Strategy.{
  cancel, RaffleStrategy, get_winner_index, claim_bit, claim_reward, set_winners, make_raffle,
}
use raffle_auction_audited_c.Raffle.Tickets.{
  ticket_stats_space, Sale, add_to_position, extend_position, open_position, buy_tickets,
}
use raffle_auction_audited_c.Random.Draw.{Sampling, pick_winners}

-- What a raffle was created with.
pub record RaffleTerms : Type 0 where
  pub id : ℕ
  pub nft : Pubkey
  pub nfts : ℕ
  pub currency : Pubkey
  pub ends : ℤ
  pub supply : ℕ
  pub price : ℕ
  pub creator : Pubkey
  pub groups : List GroupConfig
  pub shares : List RevenueShareConfig

abbrev pub terms_of : Raffle → RaffleTerms
terms_of x = record {
  id = x.id;
  nft = x.nft_mint_address;
  nfts = x.num_raffled_nfts;
  currency = x.currency_token_mint_address;
  ends = x.expired_timestamp;
  supply = x.ticket_supply;
  price = x.ticket_price;
  creator = x.creator;
  groups = x.eligible_groups;
  shares = x.revenue_shares;
}

abbrev pub SameTerms : Raffle → Raffle → Type 0
SameTerms x y = terms_of y ≡ terms_of x

-- What a step keeps: the terms and the bound on the tickets; tickets are never taken back; and a raffle
-- that is cancelled has sold no ticket, or was cancelled already with as many.
pub record Kept (x y : Raffle) : Type 0 where
  pub terms : SameTerms x y
  pub sold : x.ticket_sold ≤ y.ticket_sold
  pub within : x.ticket_sold ≤ x.ticket_supply → y.ticket_sold ≤ y.ticket_supply
  pub cancelled :
      y.status ≡ ListingStatus.cancelled
      → (y.ticket_sold ≡ 0)
        ⊎ ((x.status ≡ ListingStatus.cancelled) × (y.ticket_sold ≡ x.ticket_sold))

pub same_Kept : (x : Raffle) → Kept x x
same_Kept x = record {
  terms = refl;
  sold = omega arith;
  within = λ h. h;
  cancelled = λ c. inr (c, refl);
}

pub trans_Kept : (x y z : Raffle) → Kept x y → Kept y z → Kept x z
trans_Kept x y z h k = record {
  terms = k.terms ∙ h.terms;
  sold = omega (arith, h.sold, k.sold);
  within = λ w. k.within (h.within w);
  cancelled = λ c. elim (k.cancelled c) [
    | inl unsold ↦ inl unsold
    | inr (before, same) ↦ elim (h.cancelled before) [
      | inl unsold ↦ inl (same ∙ unsold)
      | inr (first, same') ↦ inr (first, same ∙ same')
    ]
  ];
}

finished_open : (s : ListingStatus) → s ≡ ListingStatus.finished → s ≡ ListingStatus.cancelled → ⊥
finished_open ListingStatus.in_progress e c = cc
finished_open ListingStatus.finished e c = cc
finished_open ListingStatus.cancelled e c = cc

-- A step to a finished raffle with as many tickets.
finished_Kept :
    (x y : Raffle)
    → SameTerms x y
    → y.ticket_sold ≡ x.ticket_sold
    → y.status ≡ ListingStatus.finished
    → Kept x y
finished_Kept x y terms same done = record {
  terms = terms;
  sold = omega arith;
  within = λ h. omega (arith, h, same, ap (λ (t : RaffleTerms). t.supply) terms);
  cancelled = λ c. absurd (finished_open y.status done c);
}

pub set_winners-Kept :
    (s : RaffleStrategy) (winners : List ℕ) → Kept s.raffle (set_winners s winners).raffle
unfolding set_winners
set_winners-Kept s winners = finished_Kept s.raffle _ (refl) refl refl

pub make_raffle-Kept :
    (rt : Runtime) (sp : Sampling) (budget : ℕ) (s r : RaffleStrategy) (positions : List ℕ)
    → make_raffle rt sp budget s positions ≡ ok r
    → Kept s.raffle r.raffle
unfolding make_raffle
make_raffle-Kept rt sp budget s r positions e =
    bind_ok
      (pick_winners sp budget rt.slot positions s.raffle.ticket_sold s.raffle.num_raffled_nfts
        (get_current_timestamp rt s.global_states))
      e λ winners _ e₁. rw (← ok_inj e₁) (finished_Kept s.raffle _ (refl) refl refl)

pub cancel-Kept : (s : RaffleStrategy) → s.raffle.ticket_sold ≡ 0 → Kept s.raffle (cancel s).raffle
unfolding cancel
cancel-Kept s unsold = record {
  terms = refl;
  sold = omega arith;
  within = λ h. h;
  cancelled = λ c. inl unsold;
}

pub claim_reward-Kept :
    (s r : RaffleStrategy) (id : ℕ) → claim_reward s id ≡ ok r → Kept s.raffle r.raffle
unfolding claim_reward
claim_reward-Kept s r id e =
    bind_ok (or_fail (get_winner_index s id) Failure.unwrap_none) e λ i _ e₁.
      bind_ok (claim_bit i) e₁ λ mask _ e₂. rw (← ok_inj e₂) (record {
        terms = refl;
        sold = omega arith;
        within = λ h. h;
        cancelled = λ c. inr (c, refl);
      })

-- A sale adds its tickets.
pub record Gained (x y : Raffle) (n : ℕ) : Type 0 where
  pub terms : SameTerms x y
  pub sold : y.ticket_sold ≡ x.ticket_sold + n
  pub status : y.status ≡ x.status

open_position-Gained :
    (rt : Runtime) (s r : Sale) (bump n : ℕ)
    → open_position rt s bump n ≡ ok r
    → Gained s.raffle r.raffle 0
unfolding open_position
open_position-Gained rt s r bump n e =
    bind_ok (add_u16 s.raffle.num_ticket_positions 1) e λ total _ e₁.
      bind_ok (resize_account rt s.stats_info (ticket_stats_space total) s.buyer) e₁ λ resized _ e₂.
        rw (← ok_inj e₂) (record { terms = refl; sold = omega arith; status = refl })

extend_position-Gained :
    (s r : Sale) (n : ℕ) → extend_position s n ≡ ok r → Gained s.raffle r.raffle 0
unfolding extend_position
extend_position-Gained s r n e =
    bind_ok (add_to_position s.stats.ticket_positions s.ticket_position.id n) e λ positions _ e₁.
      rw (← ok_inj e₁) (record { terms = refl; sold = omega arith; status = refl })

more_sold :
    (x : Raffle) (y : Raffle) (n total : ℕ)
    → Gained x y 0
    → add_u16 y.ticket_sold n ≡ ok total
    → Gained x (record y { ticket_sold = total }) n
more_sold x y n total h e = record {
  terms = h.terms;
  sold = ground (arith, h.sold);
  status = h.status;
}

pub buy_tickets-Gained :
    (rt : Runtime) (s r : Sale) (bump n : ℕ) (now : ℤ)
    → buy_tickets rt s bump n now ≡ ok r
    → Gained s.raffle r.raffle n
unfolding buy_tickets
buy_tickets-Gained rt s r bump n now e =
    let held = not (s.ticket_position.total_num_tickets == 0) in
    bind_ok (if held then extend_position s n else open_position rt s bump n) e λ s' placed e₁.
      bind_ok (add_u16 s'.ticket_position.total_num_tickets n) e₁ λ total _ e₂.
        bind_ok (add_u16 s'.raffle.ticket_sold n) e₂ λ sold counted e₃.
          let first : Gained s.raffle s'.raffle 0 = elim (if_ok held _ _ placed) [
            | inl (_, extended) ↦ extend_position-Gained s s' n extended
            | inr (_, opened) ↦ open_position-Gained rt s s' bump n opened
          ] in
          rw (← ok_inj e₃) (more_sold s.raffle s'.raffle n sold first counted)
