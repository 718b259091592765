-- ===== src/Eligibility/Access.antt =====
-- Who passes the eligibility check: require_eligible of common/eligibility_check_strategy.rs, as
-- auction/make_bid.rs and raffle/buy_raffle_tickets.rs run it.
use raffle_auction_audited_c.Prelude.{
  ℕ, suc, ◌<◌, ◌≡◌, refl, ap, ◌∙◌, inl, inr, Bool, true, false, not, ◌&&◌, ◌||◌, Option, none, some,
  List, [], ◌∷◌, arith, ◌==◌, ==_iff, get_elem?,
}
use raffle_auction_audited_c.Failures.{
  JustiesErrorCode, Failure, Result, fail_if, or_fail, bind_ok, ok_inj, if_ok, ok,
}
use raffle_auction_audited_c.Types.{
  Pubkey, GroupType, group_type_eq, GroupConfig, EligibilityCheckInput,
}
use raffle_auction_audited_c.Runtime.{TokenAccount}
use raffle_auction_audited_c.Eligibility.{
  Collection, MetadataAccount, Payload, EligibilityCheckStrategy, read_payloads,
  new_eligibility_check, is_nft_holder, is_token_holder, any_group, check_group_membership,
  membership_by_type, check_eligibility, require_eligible,
}
use raffle_auction_audited_c.Eligibility.Payloads.{read_token, read_nft}
use raffle_auction_audited_c.Failures.Guards.{passed}

-- The group that a listing is open to, and the proof of membership that it asks for.
pub data IsMember (signer : Pubkey) (payloads : List Payload) (group : GroupConfig) : Type 0 where
  holds_token :
      (t : TokenAccount)
      → get_elem? payloads 0 ≡ some (Payload.token_payload t)
      → t.owner ≡ signer
      → 0 < t.amount
      → group.group_type ≡ GroupType.token_holder_group
      → group.key ≡ t.mint
      → IsMember signer payloads group
  holds_nft :
      (t : TokenAccount) (m : MetadataAccount) (c : Collection)
      → get_elem? payloads 0 ≡ some (Payload.token_payload t)
      → get_elem? payloads 1 ≡ some (Payload.metadata_payload m)
      → t.owner ≡ signer
      → 0 < t.amount
      → t.mint ≡ m.mint
      → m.collection ≡ some c
      → c.verified ≡ true
      → group.group_type ≡ GroupType.nft_holder_group
      → group.key ≡ c.key
      → IsMember signer payloads group

any_group_found :
    (test : GroupConfig → Result Bool) (gs : List GroupConfig)
    → any_group test gs ≡ ok true
    → (i : ℕ) × (g : GroupConfig) × (get_elem? gs i ≡ some g) × (test g ≡ ok true)
unfolding any_group
any_group_found test [] e = cc
any_group_found test (g ∷ gs) e = bind_ok (test g) e λ hit tested e₁. elim (if_ok hit _ _ e₁) [
  | inl (is_hit, _) ↦ (0, g, refl, tested ∙ ap ok is_hit)
  | inr (_, later) ↦
      let (i, g', at, passes) = any_group_found test gs later in (suc i, g', at, passes)
]

check_passed :
    (s : EligibilityCheckStrategy) (test : EligibilityCheckStrategy → GroupConfig → Result Bool)
    → check_group_membership s test ≡ ok tt
    → (i : ℕ) × (g : GroupConfig) × (get_elem? s.eligible_groups i ≡ some g) × (test s g ≡ ok true)
unfolding check_group_membership
check_passed s test e = bind_ok (any_group (test s) s.eligible_groups) e λ eligible found e₁.
    any_group_found (test s) s.eligible_groups (found ∙ ap ok (passed eligible _ e₁))

token_group :
    (k : GroupType)
    → group_type_eq k GroupType.token_holder_group ≡ true
    → k ≡ GroupType.token_holder_group
token_group GroupType.nft_holder_group e = cc
token_group GroupType.token_holder_group e = refl
token_group GroupType.off_chain_nft_group e = cc

nft_group :
    (k : GroupType)
    → group_type_eq k GroupType.nft_holder_group ≡ true
    → k ≡ GroupType.nft_holder_group
nft_group GroupType.nft_holder_group e = refl
nft_group GroupType.token_holder_group e = cc
nft_group GroupType.off_chain_nft_group e = cc

both_true : (a b : Bool) → (a && b) ≡ true → (a ≡ true) × (b ≡ true)
both_true true b e = (refl, e)
both_true false b e = cc

-- What the two membership tests accept.
token_test :
    (s : EligibilityCheckStrategy) (g : GroupConfig) (t : TokenAccount)
    → s.token_account ≡ some t
    → is_token_holder s g ≡ ok true
    → (g.group_type ≡ GroupType.token_holder_group) × (g.key ≡ t.mint)
unfolding is_token_holder
token_test s g t at_t e =
    elim (if_ok (group_type_eq g.group_type GroupType.token_holder_group) _ _ e) [
      | inl (kind, rest) ↦ bind_ok (or_fail s.token_account Failure.unwrap_none) rest λ t' found e₁.
          let same : t' ≡ t = ground arith in
          (token_group _ kind, (==_iff _ _).0 (ok_inj e₁) ∙ ap (λ (x : TokenAccount). x.mint) same)
      | inr (_, wrong) ↦ cc
    ]

nft_test :
    (s : EligibilityCheckStrategy) (g : GroupConfig) (m : MetadataAccount) (c : Collection)
    → s.metadata_account ≡ some m
    → m.collection ≡ some c
    → is_nft_holder s g ≡ ok true
    → (g.group_type ≡ GroupType.nft_holder_group) × (g.key ≡ c.key)
unfolding is_nft_holder
nft_test s g m c at_m at_c e =
    let (kind, key) = both_true _ _ (ok_inj (rw (at_m, at_c) at e)) in
    (nft_group _ kind, (==_iff _ _).0 key)

abbrev with_accounts :
    List GroupConfig → GroupType → TokenAccount × Option MetadataAccount → EligibilityCheckStrategy
with_accounts groups kind read = record {
  eligible_groups = groups;
  group_type = some kind;
  token_account = some read.0;
  metadata_account = read.1;
}

IsMember-by_type :
    (kind : GroupType) (groups : List GroupConfig) (signer : Pubkey) (ps : List Payload)
    (r : TokenAccount × Option MetadataAccount)
    → read_payloads kind ps ≡ ok r
    → r.0.owner ≡ signer
    → 0 < r.0.amount
    → membership_by_type (with_accounts groups kind r) (some kind) ≡ ok tt
    → (i : ℕ) × (g : GroupConfig) × (get_elem? groups i ≡ some g) × IsMember signer ps g
unfolding membership_by_type
IsMember-by_type GroupType.token_holder_group groups signer ps r read own some_held e =
    let s = with_accounts groups GroupType.token_holder_group r in
    let (i, g, at, tested) = check_passed s is_token_holder e in
    let (kind, key) = token_test s g r.0 refl tested in
    (i, g, at, holds_token r.0 (read_token ps r read) own some_held kind key)
IsMember-by_type GroupType.nft_holder_group groups signer ps r read own some_held e =
    let s = with_accounts groups GroupType.nft_holder_group r in
    let (i, g, at, tested) = check_passed s is_nft_holder e in
    let (m, c, at_m, first, second, mint, at_c, verified) = read_nft ps r read in
    let (kind, key) = nft_test s g m c at_m at_c tested in
    (i, g, at, holds_nft r.0 m c first second own some_held mint at_c verified kind key)
IsMember-by_type GroupType.off_chain_nft_group groups signer ps r read own some_held e = cc

owner_and_amount :
    (signer owner amount : ℕ)
    → fail_if
        (not (signer == owner) || amount == 0)
        JustiesErrorCode.invalid_eligibility_checking_account
      ≡ ok tt
    → (owner ≡ signer) × (0 < amount)
owner_and_amount signer owner amount e = ground arith

-- Whoever passes the check of a listing that is open to some groups only is a member of one of them: it
-- owns a token account with a balance, given first, of the group's mint, or of an NFT whose metadata,
-- given second, name the group's collection as verified.
pub require_eligible-IsMember :
    (first : GroupConfig) (others : List GroupConfig) (signer : Pubkey)
    (input : Option EligibilityCheckInput) (ps : List Payload)
    → require_eligible (first ∷ others) signer input ps ≡ ok tt
    → (i : ℕ) × (g : GroupConfig) × (get_elem? (first ∷ others) i ≡ some g) × IsMember signer ps g
unfolding require_eligible new_eligibility_check check_eligibility membership_by_type
require_eligible-IsMember first others signer none ps e = cc
require_eligible-IsMember first others signer (some input) ps e =
    bind_ok (new_eligibility_check (first ∷ others) signer (some input) ps) e λ s made e₁.
      bind_ok (read_payloads input.group_type ps) made λ r read e₂.
        bind_ok
          (fail_if (not (signer == r.0.owner) || r.0.amount == 0)
            JustiesErrorCode.invalid_eligibility_checking_account)
          e₂
          λ _ owns e₃.
            let (own, some_held) = owner_and_amount signer r.0.owner r.0.amount owns in
            IsMember-by_type input.group_type (first ∷ others) signer ps r read own some_held
              (ap check_eligibility (ok_inj e₃) ∙ e₁)
