-- ===== src/Runtime/Transfers.antt =====
-- What transfer_token and close_token_account_with_signer of common/cpi_utils.rs do to the balances,
-- from what the token program promises.
use raffle_auction_audited_c.Prelude.{
  ℕ, ◌+◌, ◌≡◌, refl, ap, ◌≢◌, inl, inr, Option, none, some, List, arith, ◌==◌, ==_iff, Bool-cases,
  Option-cases,
}
use raffle_auction_audited_c.Failures.{Failure, ok, err}
use raffle_auction_audited_c.Types.{Pubkey}
use raffle_auction_audited_c.Runtime.{
  Seed, TokenAccount, Tokens, Runtime, amount_of, balance, IsTokenProgram, load_token,
  transfer_token, close_token_account_with_signer, require_new, init_token_account,
  init_token_account_if_needed, init_associated_if_needed,
}

-- An account that was loaded holds the balance of its address.
pub load_amount :
    (ts : Tokens) (a : Pubkey) (t : TokenAccount) → load_token ts a ≡ ok t → balance ts a ≡ t.amount
load_amount ts a t e = ground arith

in_use : {ts : Tokens} → err Failure.account_already_in_use ≡ ok ts → ⊥
in_use e = cc

-- `init` finds no account at the address.
pub was_absent {ℓ} : {A : Type ℓ} → (o : Option A) → require_new o ≡ ok tt → o ≡ none
was_absent none e = refl
was_absent (some a) e = cc

module _ (rt : Runtime) (tp : IsTokenProgram rt) where
  pub transfer_token_from :
      (from to auth : Pubkey) (n : ℕ) (s : Option (List Seed)) (ts ts' : Tokens)
      → transfer_token rt from to auth n s ts ≡ ok ts'
      → from ≢ to
      → balance ts' from + n ≡ balance ts from
  unfolding transfer_token
  transfer_token_from from to auth n s ts ts' e h = elim (Bool-cases (n == 0)) [
    | inl z ↦
        let e' : ok ts ≡ ok ts' = rw z at e in
        let same : ts ≡ ts' = cc in
        omega (arith, (==_iff n 0).0 z, ap (λ (t : Tokens). balance t from) same)
    | inr nz ↦ tp.transfer_from s from to auth n ts ts' (rw nz at e) h
  ]

  pub transfer_token_to :
      (from to auth : Pubkey) (n : ℕ) (s : Option (List Seed)) (ts ts' : Tokens)
      → transfer_token rt from to auth n s ts ≡ ok ts'
      → from ≢ to
      → balance ts' to ≡ balance ts to + n
  unfolding transfer_token
  transfer_token_to from to auth n s ts ts' e h = elim (Bool-cases (n == 0)) [
    | inl z ↦
        let e' : ok ts ≡ ok ts' = rw z at e in
        let same : ts ≡ ts' = cc in
        omega (arith, (==_iff n 0).0 z, ap (λ (t : Tokens). balance t to) same)
    | inr nz ↦ tp.transfer_to s from to auth n ts ts' (rw nz at e) h
  ]

  pub transfer_token_other :
      (from to auth : Pubkey) (n : ℕ) (s : Option (List Seed)) (ts ts' : Tokens) (a : Pubkey)
      → transfer_token rt from to auth n s ts ≡ ok ts'
      → a ≢ from
      → a ≢ to
      → balance ts' a ≡ balance ts a
  unfolding transfer_token
  transfer_token_other from to auth n s ts ts' a e h k = elim (Bool-cases (n == 0)) [
    | inl z ↦
        let e' : ok ts ≡ ok ts' = rw z at e in
        let same : ts ≡ ts' = cc in omega (arith, ap (λ (t : Tokens). balance t a) same)
    | inr nz ↦ ap amount_of (tp.transfer_other s from to auth n ts ts' a (rw nz at e) h k)
  ]

  -- Closing succeeds on an empty account only, and takes no balance from any account.
  pub close_was_empty :
      (a dest auth : Pubkey) (s : List Seed) (ts ts' : Tokens)
      → close_token_account_with_signer rt a dest auth s ts ≡ ok ts'
      → balance ts a ≡ 0
  unfolding close_token_account_with_signer
  close_was_empty a dest auth s ts ts' e = elim (Option-cases (ts a)) [
    | inl missing ↦ ground arith
    | inr (t, found) ↦ ground arith
  ]

  pub close_removes :
      (a dest auth : Pubkey) (s : List Seed) (ts ts' : Tokens)
      → close_token_account_with_signer rt a dest auth s ts ≡ ok ts'
      → ts' a ≡ none
  unfolding close_token_account_with_signer
  close_removes a dest auth s ts ts' e = elim (Option-cases (ts a)) [
    | inl missing ↦ ground arith
    | inr (t, found) ↦ ground (arith, tp.close_self s a dest auth ts ts')
  ]

  pub close_keeps :
      (a dest auth : Pubkey) (s : List Seed) (ts ts' : Tokens) (b : Pubkey)
      → close_token_account_with_signer rt a dest auth s ts ≡ ok ts'
      → b ≢ a
      → balance ts' b ≡ balance ts b
  unfolding close_token_account_with_signer
  close_keeps a dest auth s ts ts' b e h = elim (Option-cases (ts a)) [
    | inl missing ↦ ground arith
    | inr (t, found) ↦ ground (arith, tp.close_other s a dest auth ts ts' b)
  ]

  -- Creating an account where it is missing changes no balance.
  pub init_associated_keeps :
      (a mint auth : Pubkey) (ts ts' : Tokens) (b : Pubkey)
      → init_associated_if_needed rt a mint auth ts ≡ ok ts'
      → balance ts' b ≡ balance ts b
  init_associated_keeps a mint auth ts ts' b e =
      ground (arith, tp.create_idempotent_balance a auth mint ts ts' b)

  pub init_token_keeps :
      (a mint auth : Pubkey) (ts ts' : Tokens) (b : Pubkey)
      → init_token_account_if_needed rt a mint auth ts ≡ ok ts'
      → balance ts' b ≡ balance ts b
  init_token_keeps a mint auth ts ts' b e = ground (arith, tp.create_balance a mint auth ts ts' b)

  -- A new token account was empty before, and its creation changes no balance.
  pub init_new_balance :
      (a mint auth : Pubkey) (ts ts' : Tokens)
      → init_token_account rt a mint auth ts ≡ ok ts'
      → (balance ts a ≡ 0) × ((b : Pubkey) → balance ts' b ≡ balance ts b)
  init_new_balance a mint auth ts ts' e = elim (Option-cases (ts a)) [
    | inl missing ↦ (
      rw (missing) refl,
      λ b. tp.create_balance a mint auth ts ts' b (rw (init_token_account, missing) at e),
    )
    | inr (t, found) ↦ absurd (in_use (rw (init_token_account, found) at e))
  ]
