-- ===== src/Eligibility.antt =====
-- common/eligibility_check_strategy.rs. The accounts that follow the declared ones are payloads; one
-- deserialises as the type that it holds, and as no other.
pub mod Payloads
pub mod Access
use raffle_auction_audited_c.Prelude.{
  ℕ, Bool, true, false, not, ◌&&◌, ◌||◌, Option, none, some, List, [], ◌∷◌, ltb, ◌==◌,
  if◌then◌else◌, length, get_elem?,
}
use raffle_auction_audited_c.Failures.{
  JustiesErrorCode, Failure, Result, ok, err, ◌>>=◌, ◌>>◌, fail_if, or_fail,
}
use raffle_auction_audited_c.Types.{
  Pubkey, GroupType, group_type_eq, GroupConfig, EligibilityCheckInput,
}
use raffle_auction_audited_c.Runtime.{TokenAccount}

-- `Collection` and `MetadataAccount` of the metadata program, the fields that the program reads.
pub record Collection : Type 0 where
  pub verified : Bool
  pub key : Pubkey

pub record MetadataAccount : Type 0 where
  pub mint : Pubkey
  pub collection : Option Collection

pub data Payload : Type 0 where
  token_payload : TokenAccount → Payload
  metadata_payload : MetadataAccount → Payload
  other_payload : Payload

-- `Account::<TokenAccount>::try_from` and `Account::<MetadataAccount>::try_from`
abbrev pub as_token : Payload → Result TokenAccount
as_token (Payload.token_payload t) = ok t
as_token _ = err Failure.account_did_not_deserialize

abbrev pub as_metadata : Payload → Result MetadataAccount
as_metadata (Payload.metadata_payload m) = ok m
as_metadata _ = err Failure.account_did_not_deserialize

-- `accounts[i]`
abbrev pub payload_at : List Payload → ℕ → Result Payload
payload_at ps i = or_fail (get_elem? ps i) Failure.index_out_of_bounds

pub record EligibilityCheckStrategy : Type 0 where
  pub eligible_groups : List GroupConfig
  pub group_type : Option GroupType
  pub token_account : Option TokenAccount
  pub metadata_account : Option MetadataAccount

abbrev pub is_verified : Option Collection → Bool
is_verified none = false
is_verified (some c) = c.verified

-- The accounts that the group type asks for.
unfoldable pub read_payloads :
    GroupType → List Payload → Result (TokenAccount × Option MetadataAccount)
read_payloads GroupType.nft_holder_group ps = do
  fail_if (ltb (length ps) 2) JustiesErrorCode.not_enough_payload_accounts
  token_account ← as_token (← payload_at ps 0)
  metadata_account ← as_metadata (← payload_at ps 1)
  fail_if (not (token_account.mint == metadata_account.mint))
      JustiesErrorCode.invalid_eligibility_checking_account
  fail_if (not (is_verified metadata_account.collection))
      JustiesErrorCode.invalid_eligibility_checking_account
  ok (token_account, some metadata_account)
read_payloads GroupType.token_holder_group ps = do
  fail_if (ltb (length ps) 1) JustiesErrorCode.not_enough_payload_accounts
  token_account ← as_token (← payload_at ps 0)
  ok (token_account, none)
read_payloads GroupType.off_chain_nft_group ps =
    err (Failure.justies JustiesErrorCode.not_implemented)

-- `EligibilityCheckStrategy::new`
unfoldable pub new_eligibility_check :
    List GroupConfig
    → Pubkey
    → Option EligibilityCheckInput
    → List Payload
    → Result EligibilityCheckStrategy
unfolding read_payloads
new_eligibility_check eligible_groups signer none account_payloads = ok (record {
  eligible_groups = eligible_groups;
  group_type = none;
  token_account = none;
  metadata_account = none;
})
new_eligibility_check eligible_groups signer (some input) account_payloads = do
  read ← read_payloads input.group_type account_payloads
  fail_if (not (signer == read.0.owner) || read.0.amount == 0)
      JustiesErrorCode.invalid_eligibility_checking_account
  ok (record {
    eligible_groups = eligible_groups;
    group_type = some input.group_type;
    token_account = some read.0;
    metadata_account = read.1;
  })

-- `self.metadata_account.as_ref().unwrap().collection.as_ref().unwrap()`
abbrev collection_of : EligibilityCheckStrategy → Result Collection
collection_of s = do
  metadata_account ← or_fail s.metadata_account Failure.unwrap_none
  or_fail metadata_account.collection Failure.unwrap_none

unfoldable pub is_nft_holder : EligibilityCheckStrategy → GroupConfig → Result Bool
is_nft_holder s group = do
  collection ← collection_of s
  ok (group_type_eq group.group_type GroupType.nft_holder_group && group.key == collection.key)

unfoldable pub is_token_holder : EligibilityCheckStrategy → GroupConfig → Result Bool
is_token_holder s group =
    if group_type_eq group.group_type GroupType.token_holder_group
    then (do
      token_account ← or_fail s.token_account Failure.unwrap_none
      ok (group.key == token_account.mint))
    else ok false

-- `iter().any(…)`, which stops at the first hit.
unfoldable pub any_group : (GroupConfig → Result Bool) → List GroupConfig → Result Bool
any_group test [] = ok false
any_group test (g ∷ gs) =
    let rest = any_group test gs in test g >>= λ hit. if hit then ok true else rest

unfoldable pub check_group_membership :
    EligibilityCheckStrategy
    → (EligibilityCheckStrategy → GroupConfig → Result Bool)
    → Result (Unit {0})
unfolding any_group
check_group_membership s is_group_member_fn = do
  is_eligible ← any_group (is_group_member_fn s) s.eligible_groups
  fail_if (not is_eligible) JustiesErrorCode.ineligible

abbrev is_empty : List GroupConfig → Bool
is_empty [] = true
is_empty (g ∷ gs) = false

unfoldable pub membership_by_type : EligibilityCheckStrategy → Option GroupType → Result (Unit {0})
unfolding check_group_membership is_nft_holder is_token_holder
membership_by_type s none = err (Failure.justies JustiesErrorCode.ineligible)
membership_by_type s (some GroupType.nft_holder_group) = check_group_membership s is_nft_holder
membership_by_type s (some GroupType.token_holder_group) = check_group_membership s is_token_holder
membership_by_type s (some GroupType.off_chain_nft_group) =
    err (Failure.justies JustiesErrorCode.ineligible)

-- `EligibilityCheckStrategy::check_eligibility`
unfoldable pub check_eligibility : EligibilityCheckStrategy → Result (Unit {0})
unfolding membership_by_type
check_eligibility s =
    if is_empty s.eligible_groups then ok tt else membership_by_type s s.group_type

-- What the handlers of `make_bid` and `buy_raffle_tickets` run first.
unfoldable pub require_eligible :
    List GroupConfig → Pubkey → Option EligibilityCheckInput → List Payload → Result (Unit {0})
unfolding new_eligibility_check check_eligibility
require_eligible groups signer input payloads = do
  strategy ← new_eligibility_check groups signer input payloads
  check_eligibility strategy
