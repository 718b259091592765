-- ===== src/Accounts/Rent.antt =====
-- What an account pays for its size: resize_account of common/cpi_utils.rs, and index_pubkey of
-- common/pubkey_indexing.rs.
use raffle_auction_audited_c.Prelude.{ℕ, ◌+◌, ◌-◌, ◌≡◌, refl, ap, inl, inr, arith, ltb, ltb→lt}
use raffle_auction_audited_c.Failures.{bind_ok, ok_inj, if_ok, ok}
use raffle_auction_audited_c.Failures.Checked.{add_u64}
use raffle_auction_audited_c.Runtime.{Runtime, balance, IsSystemProgram}
use raffle_auction_audited_c.Accounts.{AccountInfo, settle_rent, resize_account}

module _ (rt : Runtime) (sys : IsSystemProgram rt) where
  settle_rent_exempt :
      (minimum balance payer : ℕ) (r : ℕ × ℕ)
      → settle_rent rt minimum balance payer ≡ ok r
      → (r.0 ≡ minimum) × (r.0 + r.1 ≡ balance + payer)
  unfolding settle_rent
  settle_rent_exempt minimum balance payer r e = elim (if_ok (ltb balance minimum) _ _ e) [
    | inl (short, pays) ↦
        bind_ok (rt.system_transfer payer balance (minimum - balance)) pays λ moved run e₁.
          let both = sys.transfer_moves payer balance (minimum - balance) moved.0 moved.1 run in
          let less = ltb→lt balance minimum short in
          rw (← ok_inj e₁) (omega (arith, both.1, less), omega (arith, both.0, both.1, less))
    | inr (enough, rest) ↦ elim (if_ok (ltb minimum balance) _ _ rest) [
      | inl (over, gives) ↦ bind_ok (add_u64 payer (balance - minimum)) gives λ richer summed e₁.
          let sum_is : richer ≡ payer + (balance - minimum) = ground arith in
          let more = ltb→lt minimum balance over in
          rw (← ok_inj e₁) (refl, omega (arith, sum_is, more))
      | inr (exact, same) ↦ rw (← ok_inj same) (ground arith, refl)
    ]
  ]

  -- An account that is resized has the new size and exactly the lamports that make it rent
  -- exempt, and account and payer together have the lamports that they had.
  pub resize_account_exempt :
      (account payer : AccountInfo) (new_space : ℕ) (account' payer' : AccountInfo)
      → resize_account rt account new_space payer ≡ ok (account', payer')
      → (account'.space ≡ new_space)
        × (account'.lamports ≡ rt.minimum_balance new_space)
        × (account'.lamports + payer'.lamports ≡ account.lamports + payer.lamports)
        × (account'.key ≡ account.key)
  unfolding resize_account
  resize_account_exempt account payer new_space account' payer' e =
      bind_ok (settle_rent rt (rt.minimum_balance new_space) account.lamports payer.lamports) e
        λ settled paid e₁. bind_ok (rt.realloc account.space new_space) e₁ λ len grown e₂.
          let (exempt, total) =
            settle_rent_exempt (rt.minimum_balance new_space) account.lamports payer.lamports
              settled paid in
          rw
            (
              ← ap (λ (x : AccountInfo × AccountInfo). x.0) (ok_inj e₂),
              ← ap (λ (x : AccountInfo × AccountInfo). x.1) (ok_inj e₂),
            )
            (sys.realloc_length account.space new_space len grown, exempt, total, refl)
