-- ===== src/Runtime.antt =====
-- What the program takes from its surroundings, and common/cpi_utils.rs and common/utils.rs on top of
-- it. The address derivation, the token program, the associated token program, the clock and the rent
-- are parameters, the record `Runtime`; `IsTokenProgram` states what their documentation promises.
pub mod Transfers
use raffle_auction_audited_c.Prelude.{
  ℕ, ◌+◌, ◌≡◌, ◌≢◌, not, Option, none, some, List, [], ◌∷◌, ◌++◌, ◌==◌, if◌then◌else◌, is_some_of,
}
use raffle_auction_audited_c.Prelude.Int.{ℤ}
use raffle_auction_audited_c.Failures.{
  JustiesErrorCode, Failure, Result, ◌>>=◌, ◌>>◌, require, fail_if, or_fail, ok, err,
}
use raffle_auction_audited_c.Types.{Pubkey, GlobalStates}

-- One seed of a program address: a byte literal, an id, a public key or a bump.
pub data SeedLabel : Type 0 where
  global_states raffle auction bid escrow lot_escrow bid_index rewards_escrow revenue_escrow :
      SeedLabel
  ticket_position ticket_position_stats ticket_position_index metadata : SeedLabel
  nft_allowlist_states token_allowlist_states nft_allowlist_index token_allowlist_index : SeedLabel

pub data Seed : Type 0 where
  label : SeedLabel → Seed
  number : ℕ → Seed
  key : Pubkey → Seed
  bump : ℕ → Seed

-- `TokenAccount`, the fields that the program reads.
pub record TokenAccount : Type 0 where
  pub mint : Pubkey
  pub owner : Pubkey
  pub amount : ℕ

-- The token accounts on the chain, by address.
abbrev pub Tokens : Type 0
Tokens = Pubkey → Option TokenAccount

pub record Runtime : Type 0 where
  -- The address and the bump that seeds derive, and the address of seeds that end in a bump.
  pub find_program_address : List Seed → Pubkey × ℕ
  pub create_program_address : List Seed → Option Pubkey
  -- The same for the seeds of another program, as `seeds::program` asks for, and `Metadata::id()`.
  pub find_address_of : Pubkey → List Seed → Pubkey × ℕ
  pub metadata_program_id : Pubkey
  -- The wallet's associated token account for a mint.
  pub get_associated_token_address : Pubkey → Pubkey → Pubkey
  -- The token program; the seeds sign for a program address, `none` if the authority signed itself.
  -- from, to, authority, amount
  pub transfer : Option (List Seed) → Pubkey → Pubkey → Pubkey → ℕ → Tokens → Result Tokens
  -- account, destination, authority
  pub close_account : List Seed → Pubkey → Pubkey → Pubkey → Tokens → Result Tokens
  -- Creates and initialises a token account: address, mint, authority.
  pub create_token_account : Pubkey → Pubkey → Pubkey → Tokens → Result Tokens
  -- `create_idempotent` of the associated token program: address, wallet, mint.
  pub create_idempotent : Pubkey → Pubkey → Pubkey → Tokens → Result Tokens
  -- The system program: balance of the payer, balance of the other account, lamports.
  pub system_transfer : ℕ → ℕ → ℕ → Result (ℕ × ℕ)
  -- seeds, address, lamports, space, balance of the payer; gives the payer's new balance
  pub create_account : List Seed → Pubkey → ℕ → ℕ → ℕ → Result ℕ
  -- `AccountInfo::realloc`: old and new length; gives the length that results.
  pub realloc : ℕ → ℕ → Result ℕ
  -- `Clock::get()` and `Rent::get()`
  pub unix_timestamp : ℤ
  pub slot : ℕ
  pub minimum_balance : ℕ → ℕ

abbrev pub amount_of : Option TokenAccount → ℕ
amount_of none = 0
amount_of (some t) = t.amount

-- The balance of an address; 0 where there is no token account.
abbrev pub balance : Tokens → Pubkey → ℕ
balance ts a = amount_of (ts a)

-- What the token program promises of a call that succeeds.
pub record IsTokenProgram (rt : Runtime) : Type 0 where
  -- A transfer moves exactly the amount, which the source must hold, and touches no third account.
  pub transfer_from :
      (s : Option (List Seed)) (from to auth : Pubkey) (n : ℕ) (ts ts' : Tokens)
      → rt.transfer s from to auth n ts ≡ ok ts'
      → from ≢ to
      → balance ts' from + n ≡ balance ts from
  pub transfer_to :
      (s : Option (List Seed)) (from to auth : Pubkey) (n : ℕ) (ts ts' : Tokens)
      → rt.transfer s from to auth n ts ≡ ok ts'
      → from ≢ to
      → balance ts' to ≡ balance ts to + n
  pub transfer_other :
      (s : Option (List Seed)) (from to auth : Pubkey) (n : ℕ) (ts ts' : Tokens) (a : Pubkey)
      → rt.transfer s from to auth n ts ≡ ok ts'
      → a ≢ from
      → a ≢ to
      → ts' a ≡ ts a
  -- Closing removes the account, and only it.
  pub close_self :
      (s : List Seed) (a dest auth : Pubkey) (ts ts' : Tokens)
      → rt.close_account s a dest auth ts ≡ ok ts'
      → ts' a ≡ none
  pub close_other :
      (s : List Seed) (a dest auth : Pubkey) (ts ts' : Tokens) (b : Pubkey)
      → rt.close_account s a dest auth ts ≡ ok ts'
      → b ≢ a
      → ts' b ≡ ts b
  -- A new account is empty, and an associated account that exists stays; nothing else changes.
  pub create_balance :
      (a mint auth : Pubkey) (ts ts' : Tokens) (b : Pubkey)
      → rt.create_token_account a mint auth ts ≡ ok ts'
      → balance ts' b ≡ balance ts b
  pub create_idempotent_balance :
      (a wallet mint : Pubkey) (ts ts' : Tokens) (b : Pubkey)
      → rt.create_idempotent a wallet mint ts ≡ ok ts'
      → balance ts' b ≡ balance ts b

-- What the system program and `realloc` promise of a call that succeeds.
pub record IsSystemProgram (rt : Runtime) : Type 0 where
  pub transfer_moves :
      (from to n from' to' : ℕ)
      → rt.system_transfer from to n ≡ ok (from', to')
      → (from' + n ≡ from) × (to' ≡ to + n)
  pub create_pays :
      (s : List Seed) (k : Pubkey) (n space from from' : ℕ)
      → rt.create_account s k n space from ≡ ok from'
      → from' + n ≡ from
  pub realloc_length : (old new len : ℕ) → rt.realloc old new ≡ ok len → len ≡ new

-- A token account as the framework loads it, and `reload`.
abbrev pub load_token : Tokens → Pubkey → Result TokenAccount
load_token ts a = or_fail (ts a) Failure.account_not_initialized

-- `get_current_timestamp`
unfoldable pub get_current_timestamp : Runtime → GlobalStates → ℤ
get_current_timestamp rt g =
    if not g.is_test_environment
    then rt.unix_timestamp
    else elim g.mock_timestamp [ none ↦ rt.unix_timestamp | some mock_timestamp ↦ mock_timestamp ]

-- `transfer_token`: nothing happens for an amount of 0.
unfoldable pub transfer_token :
    Runtime → Pubkey → Pubkey → Pubkey → ℕ → Option (List Seed) → Tokens → Result Tokens
transfer_token rt from to authority amount signer_seed ts =
    if amount == 0 then ok ts else rt.transfer signer_seed from to authority amount ts

-- `close_token_account_with_signer`: reloads the account, and closes it only when it is empty.
unfoldable pub close_token_account_with_signer :
    Runtime → Pubkey → Pubkey → Pubkey → List Seed → Tokens → Result Tokens
close_token_account_with_signer rt account destination authority signer_seed ts = do
  reloaded ← load_token ts account
  fail_if (not (reloaded.amount == 0)) JustiesErrorCode.close_non_zero_balance_account
  rt.close_account signer_seed account destination authority ts

-- `create_associated_token_account`
unfoldable pub create_associated_token_account :
    Runtime → Pubkey → Pubkey → Pubkey → Tokens → Result Tokens
create_associated_token_account rt associated_token authority mint ts =
    rt.create_idempotent associated_token authority mint ts

-- The account constraints `seeds = […], bump` and `seeds = […], bump = b`.
abbrev pub require_pda : Runtime → List Seed → Pubkey → Result (Unit {0})
require_pda rt seeds k = require ((rt.find_program_address seeds).0 == k) Failure.constraint_seeds

-- `seeds = […], seeds::program = p, bump`
abbrev pub require_pda_of : Runtime → Pubkey → List Seed → Pubkey → Result (Unit {0})
require_pda_of rt program seeds k =
    require ((rt.find_address_of program seeds).0 == k) Failure.constraint_seeds

abbrev pub require_pda_bump : Runtime → List Seed → ℕ → Pubkey → Result (Unit {0})
require_pda_bump rt seeds b k =
    require (is_some_of (rt.create_program_address (seeds ++ bump b ∷ [])) k)
      Failure.constraint_seeds

-- `init` of an account of the program, `none` if there is none at the address yet.
abbrev pub require_new {ℓ} : {A : Type ℓ} → Option A → Result (Unit {0})
require_new none = ok tt
require_new (some a) = err Failure.account_already_in_use

-- `init` and `init_if_needed` of a token account, and of an associated one.
abbrev pub init_token_account : Runtime → Pubkey → Pubkey → Pubkey → Tokens → Result Tokens
init_token_account rt a mint authority ts = elim (ts a) [
  | none ↦ rt.create_token_account a mint authority ts
  | some _ ↦ err Failure.account_already_in_use
]

-- `token::mint` and `token::authority` of an account that exists.
abbrev pub require_token : Pubkey → Pubkey → TokenAccount → Result (Unit {0})
require_token mint authority t =
    require (t.mint == mint) Failure.constraint_token_mint
    >> require (t.owner == authority) Failure.constraint_token_owner

abbrev pub init_token_account_if_needed :
    Runtime → Pubkey → Pubkey → Pubkey → Tokens → Result Tokens
init_token_account_if_needed rt a mint authority ts = elim (ts a) [
  | none ↦ rt.create_token_account a mint authority ts
  | some t ↦ require_token mint authority t >> ok ts
]

abbrev pub require_associated : Runtime → Pubkey → Pubkey → Pubkey → Result (Unit {0})
require_associated rt a mint authority =
    require (rt.get_associated_token_address authority mint == a) Failure.constraint_associated

abbrev pub init_associated_if_needed : Runtime → Pubkey → Pubkey → Pubkey → Tokens → Result Tokens
init_associated_if_needed rt a mint authority ts = elim (ts a) [
  | none ↦ require_associated rt a mint authority >> rt.create_idempotent a authority mint ts
  | some t ↦ require_token mint authority t >> require_associated rt a mint authority >> ok ts
]
