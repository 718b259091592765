-- ===== src/Failures.antt =====
-- common/error_code.rs, and how an instruction ends. A `Result` holds the value or the failure that
-- aborts the transaction: an error code of the program, a panic, or a refusal by the framework or by
-- another program. Either way nothing of the transaction is kept.
pub mod Checked
pub mod Guards
use raffle_auction_audited_c.Prelude.{
  ℕ, ◌+◌, ◌-◌, ◌*◌, ◌%◌, ◌^◌, ◌≡◌, refl, sym, ap, ◌⊎◌, inl, inr, Bool, true, false, ◌&&◌, Option,
  none, some, ltb, leb, if◌then◌else◌,
}
use raffle_auction_audited_c.Prelude.Int.{ℤ, pos, negsuc, ◌+ℤ◌, ◌-ℤ◌, ◌*ℤ◌, ltb_ℤ, leb_ℤ}

pub data JustiesErrorCode : Type 0 where
  not_met_min_outbid_rate not_met_start_bid insufficient_bid_funds bid_on_ended_auction :
      JustiesErrorCode
  ongoing_auction close_non_zero_balance_account invalid_revenue_share_config raffle_ended :
      JustiesErrorCode
  raffle_ongoing raffle_already_made not_a_raffle_winner raffle_reward_claimed : JustiesErrorCode
  raffle_not_made revenue_distribution_accounts_doesnt_match not_implemented : JustiesErrorCode
  not_enough_payload_accounts invalid_eligibility_checking_account ineligible : JustiesErrorCode
  invalid_num_raffled_nfts invalid_raffle_ticket_supply invalid_raffle_duration : JustiesErrorCode
  not_auction_creator not_raffle_creator auction_not_cancelable raffle_not_cancelable :
      JustiesErrorCode
  nft_mint_address_mismatch auction_cancelled raffle_cancelled invalid_raffle_winner_number :
      JustiesErrorCode
  no_remaining_raffle_rewards auction_creator_cannot_make_bid : JustiesErrorCode
  raffle_creator_cannot_buy_tickets not_the_authority invalid_market_fee_rate : JustiesErrorCode
  invalid_auction_extension_settings invalid_auction_duration_range_settings : JustiesErrorCode
  invalid_raffle_ticket_supply_range_settings invalid_raffle_duration_range_settings :
      JustiesErrorCode
  invalid_min_outbid_rate invalid_program_data invalid_fee_treasury_address : JustiesErrorCode
  invalid_currency_token_mint invalid_nft_collection_mint invalid_nft_collection_metadata :
      JustiesErrorCode
  not_test_environment ineligible_to_claim_revenue inconsistent_bid_escrow_account_state :
      JustiesErrorCode
  ineligible_to_claim_lot_nft invalid_bid_account inconsistent_lot_escrow_nft_account :
      JustiesErrorCode
  invalid_nft_mint invalid_auction_duration invalid_auction_id : JustiesErrorCode
  invalid_revenue_recipient_number invalid_auction_creator_nft_account invalid_nft_metadata :
      JustiesErrorCode
  nft_collection_not_in_allowlist token_not_in_allowlist invalid_bid_amount : JustiesErrorCode
  invalid_bidder_token_account not_the_bidder top_bidder_cannot_cancel_bid : JustiesErrorCode
  inconsistent_bid_escrow_token_account invalid_raffle_ticket_sale_id : JustiesErrorCode
  invalid_raffle_ticket_number invalid_ticket_buyer_token_account invalid_raffle_id :
      JustiesErrorCode
  invalid_raffle_creator_nft_account inconsistent_raffle_ticket_position : JustiesErrorCode
  auction_creation_disabled raffle_creation_disabled : JustiesErrorCode

-- The discriminants, from which the framework numbers the errors.
pub code_of : JustiesErrorCode → ℕ
code_of not_met_min_outbid_rate = 0
code_of not_met_start_bid = 1
code_of insufficient_bid_funds = 2
code_of bid_on_ended_auction = 3
code_of ongoing_auction = 4
code_of close_non_zero_balance_account = 6
code_of invalid_revenue_share_config = 7
code_of raffle_ended = 9
code_of raffle_ongoing = 10
code_of raffle_already_made = 11
code_of not_a_raffle_winner = 12
code_of raffle_reward_claimed = 13
code_of raffle_not_made = 14
code_of revenue_distribution_accounts_doesnt_match = 15
code_of not_implemented = 16
code_of not_enough_payload_accounts = 17
code_of invalid_eligibility_checking_account = 18
code_of ineligible = 19
code_of invalid_num_raffled_nfts = 20
code_of invalid_raffle_ticket_supply = 21
code_of invalid_raffle_duration = 22
code_of not_auction_creator = 23
code_of not_raffle_creator = 24
code_of auction_not_cancelable = 25
code_of raffle_not_cancelable = 26
code_of nft_mint_address_mismatch = 27
code_of auction_cancelled = 28
code_of raffle_cancelled = 29
code_of invalid_raffle_winner_number = 30
code_of no_remaining_raffle_rewards = 31
code_of auction_creator_cannot_make_bid = 32
code_of raffle_creator_cannot_buy_tickets = 33
code_of not_the_authority = 34
code_of invalid_market_fee_rate = 35
code_of invalid_auction_extension_settings = 36
code_of invalid_auction_duration_range_settings = 37
code_of invalid_raffle_ticket_supply_range_settings = 38
code_of invalid_raffle_duration_range_settings = 39
code_of invalid_min_outbid_rate = 40
code_of invalid_program_data = 41
code_of invalid_fee_treasury_address = 42
code_of invalid_currency_token_mint = 43
code_of invalid_nft_collection_mint = 44
code_of invalid_nft_collection_metadata = 45
code_of not_test_environment = 46
code_of ineligible_to_claim_revenue = 47
code_of inconsistent_bid_escrow_account_state = 48
code_of ineligible_to_claim_lot_nft = 49
code_of invalid_bid_account = 50
code_of inconsistent_lot_escrow_nft_account = 51
code_of invalid_nft_mint = 52
code_of invalid_auction_duration = 53
code_of invalid_auction_id = 54
code_of invalid_revenue_recipient_number = 55
code_of invalid_auction_creator_nft_account = 56
code_of invalid_nft_metadata = 57
code_of nft_collection_not_in_allowlist = 58
code_of token_not_in_allowlist = 59
code_of invalid_bid_amount = 60
code_of invalid_bidder_token_account = 61
code_of not_the_bidder = 62
code_of top_bidder_cannot_cancel_bid = 63
code_of inconsistent_bid_escrow_token_account = 64
code_of invalid_raffle_ticket_sale_id = 65
code_of invalid_raffle_ticket_number = 66
code_of invalid_ticket_buyer_token_account = 67
code_of invalid_raffle_id = 68
code_of invalid_raffle_creator_nft_account = 69
code_of inconsistent_raffle_ticket_position = 70
code_of auction_creation_disabled = 71
code_of raffle_creation_disabled = 72

pub data Failure : Type 0 where
  -- `err!(code)` and `@JustiesErrorCode::code`
  justies : JustiesErrorCode → Failure
  -- panics: overflow checks, an index out of bounds, `unwrap` of `None`, an empty sampling range
  overflow division_by_zero index_out_of_bounds unwrap_none empty_range : Failure
  -- the framework's own account checks
  constraint_seeds constraint_token_mint constraint_token_owner constraint_associated : Failure
  account_not_initialized account_already_in_use account_did_not_deserialize : Failure
  -- the compute budget of the transaction ran out
  compute_exceeded : Failure
  -- a refusal by the token, associated token or system program
  cpi_failed : Failure

pub data Result {ℓ} (T : Type ℓ) : Type ℓ where
  err : Failure → Result T
  ok : T → Result T

-- `?`: what follows a part that may fail.
infixl 5 ◌>>=◌
abbrev pub ◌>>=◌ {ℓ κ} : {S : Type ℓ} {T : Type κ} → Result S → (S → Result T) → Result T
err failure >>= next = err failure
ok value >>= next = next value

infixl 5 ◌>>◌
abbrev pub ◌>>◌ {ℓ} : {T : Type ℓ} → Result (Unit {0}) → Result T → Result T
check >> next = check >>= λ _. next

abbrev pub require : Bool → Failure → Result (Unit {0})
require false failure = err failure
require true failure = ok tt

-- `if b { return err!(code) }`
abbrev pub fail_if : Bool → JustiesErrorCode → Result (Unit {0})
fail_if true e = err (justies e)
fail_if false e = ok tt

-- `constraint = b @code`
abbrev pub constraint : Bool → JustiesErrorCode → Result (Unit {0})
constraint b e = require b (justies e)

abbrev pub or_fail {ℓ} : {A : Type ℓ} → Option A → Failure → Result A
or_fail none e = err e
or_fail (some a) e = ok a

-- What a `do` block that succeeds went through: its first part succeeded, and so did the rest.
pub >>=-eq-ok {ℓ κ} :
    {S : Type ℓ} {T : Type κ} (first : Result S) (rest : S → Result T) {t : T}
    → (first >>= rest) ≡ ok t
    → (s : S) × (first ≡ ok s) × (rest s ≡ ok t)
>>=-eq-ok (err failure) rest run = cc
>>=-eq-ok (ok s) rest run = (s, refl, run)

-- The same, to follow a `do` block from its first step to its last.
pub bind_ok {ℓ κ μ} :
    {A : Type ℓ} {B : Type κ} {P : Type μ} (m : Result A) {f : A → Result B} {b : B}
    → (m >>= f) ≡ ok b
    → ((a : A) → m ≡ ok a → f a ≡ ok b → P)
    → P
bind_ok (ok a) h k = k a refl h
bind_ok (err e) h k = cc

pub ok_inj {ℓ} : {A : Type ℓ} {a b : A} → ok a ≡ ok b → a ≡ b
ok_inj e = cc

pub err_inj {ℓ} : {A : Type ℓ} {m : Result A} {e f : Failure} → m ≡ err e → m ≡ err f → e ≡ f
err_inj h k = cc

pub checked_ok {ℓ} :
    {A : Type ℓ} (b : Bool) {x y : A} (f : Failure)
    → (if b then ok x else err f) ≡ ok y
    → (b ≡ true) × (y ≡ x)
checked_ok true f e = (refl, sym (ok_inj e))
checked_ok false f e = cc

pub or_fail-some {ℓ} :
    {A : Type ℓ} (o : Option A) (f : Failure) {a : A} → or_fail o f ≡ ok a → o ≡ some a
or_fail-some none f e = cc
or_fail-some (some b) f e = ap some (ok_inj e)

pub if_ok {ℓ} :
    {A : Type ℓ} (b : Bool) (m n : Result A) {y : A}
    → (if b then m else n) ≡ ok y
    → ((b ≡ true) × (m ≡ ok y)) ⊎ ((b ≡ false) × (n ≡ ok y))
if_ok true m n e = inl (refl, e)
if_ok false m n e = inr (refl, e)

-- To split on how a part ended, keeping the equation.
pub Result-cases {ℓ} :
    {A : Type ℓ} (m : Result A) → ((a : A) × (m ≡ ok a)) ⊎ ((f : Failure) × (m ≡ err f))
Result-cases (ok a) = inl (a, refl)
Result-cases (err f) = inr (f, refl)
