-- ===== src/Raffle/Claims.antt =====
-- The claim mask of a raffle: validate_claim and claim_reward of common/raffle_strategy.rs, and
-- raffle/claim_raffle_reward.rs.
use raffle_auction_audited_c.Prelude.{
  ℕ, suc, ◌^◌, bit_and, bit_or, ◌≡◌, refl, sym, ap, ◌∙◌, ◌≢◌, ◌⊎◌, inl, inr, Bool, true, false,
  Option, none, some, List, [], ◌∷◌, arith, ltb, ◌==◌, if◌then◌else◌, lt→ltb, ==_iff, get_elem?,
}
use raffle_auction_audited_c.Prelude.Bits.{bit_set, bit_other, shl_pos}
use raffle_auction_audited_c.Failures.{
  JustiesErrorCode, Failure, ◌>>=◌, fail_if, or_fail, bind_ok, or_fail-some, Result-cases, ok, err,
}
use raffle_auction_audited_c.Raffle.Strategy.{
  RaffleStrategy, is_raffle_made, next_position, position_of, get_winner_index, claim_bit,
  validate_claim, claim_reward,
}

pub some_inj : {a b : ℕ} → some a ≡ some b → a ≡ b
some_inj e = ground arith

position_step :
    (b : Bool) (o : Option ℕ) (i : ℕ)
    → (if b then some 0 else next_position o) ≡ some i
    → ((b ≡ true) × (i ≡ 0)) ⊎ ((j : ℕ) × (o ≡ some j) × (i ≡ suc j))
position_step true o i e = inl (refl, some_inj (sym e))
position_step false none i e = cc
position_step false (some j) i e = inr (j, refl, some_inj (sym e))

-- Where `position_of` finds an id, the list holds it.
pub position_of-get :
    (id : ℕ) (winners : List ℕ) (i : ℕ)
    → position_of id winners ≡ some i
    → get_elem? winners i ≡ some id
unfolding position_of
position_of-get id [] i e = cc
position_of-get id (winner ∷ winners) i e =
    elim (position_step (winner == id) (position_of id winners) i e) [
      | inl (same, first) ↦ rw (first) (ap some ((==_iff winner id).0 same))
      | inr (j, found, next) ↦ rw (next) (position_of-get id winners j found)
    ]

claim_bit_exact : (i m : ℕ) → claim_bit i ≡ ok m → m ≡ 2 ^ i
unfolding claim_bit
claim_bit_exact i m e = ground arith

-- Two ids have two places.
position_of-apart :
    (id id' : ℕ) (winners : List ℕ) (i j : ℕ)
    → position_of id winners ≡ some i
    → position_of id' winners ≡ some j
    → id ≢ id'
    → i ≢ j
position_of-apart id id' winners i j e e' apart same = apart (
    some_inj (
      sym (position_of-get id winners i e)
      ∙ ap (get_elem? winners) same
      ∙ position_of-get id' winners j e'))

-- A claim that is made marks the winner's place of the mask and nothing else of the raffle.
pub claim_reward_data :
    (s s' : RaffleStrategy) (id : ℕ)
    → claim_reward s id ≡ ok s'
    → (i : ℕ) × (position_of id s.raffle.winner_ids ≡ some i)
      × (claim_bit i ≡ ok (2 ^ i))
      × (s'.raffle.claim_mask ≡ bit_or s.raffle.claim_mask (2 ^ i))
      × (s'.raffle.winner_ids ≡ s.raffle.winner_ids)
      × (s'.raffle.status ≡ s.raffle.status)
unfolding claim_reward get_winner_index
claim_reward_data s s' id e =
    bind_ok (or_fail (get_winner_index s id) Failure.unwrap_none) e λ i found e₁.
      bind_ok (claim_bit i) e₁ λ mask shifted e₂.
        let same : record s {
          raffle = record (s.raffle) { claim_mask = bit_or s.raffle.claim_mask mask };
        }
            ≡ s' =
          cc in
        let bit = claim_bit_exact i mask shifted in
        (
          i,
          or_fail-some _ _ found,
          shifted ∙ ap ok bit,
          ap (λ (x : RaffleStrategy). x.raffle.claim_mask) (sym same)
              ∙ ap (bit_or s.raffle.claim_mask) bit,
          ap (λ (x : RaffleStrategy). x.raffle.winner_ids) (sym same),
          ap (λ (x : RaffleStrategy). x.raffle.status) (sym same),
        )

-- Two masks that agree at the place found give one outcome.
mask_same :
    (o : Option ℕ) (m m' : ℕ)
    → ((j : ℕ) → o ≡ some j → bit_and m' (2 ^ j) ≡ bit_and m (2 ^ j))
    → (or_fail o (Failure.justies JustiesErrorCode.not_a_raffle_winner) >>= λ i.
        claim_bit i >>= λ mask.
        fail_if (ltb 0 (bit_and m' mask)) JustiesErrorCode.raffle_reward_claimed)
      ≡ (or_fail o (Failure.justies JustiesErrorCode.not_a_raffle_winner) >>= λ i.
          claim_bit i >>= λ mask.
          fail_if (ltb 0 (bit_and m mask)) JustiesErrorCode.raffle_reward_claimed)
mask_same none m m' agree = refl
mask_same (some j) m m' agree = elim (Result-cases (claim_bit j)) [
  | inr (f, bad) ↦ rw (bad) refl
  | inl (k, shifted) ↦ rw (shifted, claim_bit_exact j k shifted, agree j refl) refl
]

-- Once a reward of a finished raffle is claimed, its ticket position is refused as already
-- claimed, and the check of each other one ends as it did before.
pub claim_reward_once :
    (s s' : RaffleStrategy) (id : ℕ)
    → is_raffle_made s ≡ true
    → claim_reward s id ≡ ok s'
    → (validate_claim s' id ≡ err (Failure.justies JustiesErrorCode.raffle_reward_claimed))
      × ((other : ℕ) → id ≢ other → validate_claim s' other ≡ validate_claim s other)
unfolding validate_claim get_winner_index is_raffle_made
claim_reward_once s s' id made e =
    let (i, found, bit, mask, winners, status) = claim_reward_data s s' id e in
    let again : bit_and s'.raffle.claim_mask (2 ^ i) ≡ 2 ^ i =
      ap (λ (m : ℕ). bit_and m (2 ^ i)) mask ∙ bit_set s.raffle.claim_mask i in
    (
      rw (status, made, winners, found, bit, again, lt→ltb 0 (2 ^ i) (shl_pos i)) refl,
      λ other apart.
          rw (status, made, winners)
            (mask_same (position_of other s.raffle.winner_ids) s.raffle.claim_mask
              s'.raffle.claim_mask
              (λ j at_j.
                ap (λ (m : ℕ). bit_and m (2 ^ j)) mask
                ∙ bit_other s.raffle.claim_mask i j
                    (position_of-apart id other s.raffle.winner_ids i j found at_j apart))),
    )
