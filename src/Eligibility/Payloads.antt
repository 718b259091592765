-- ===== src/Eligibility/Payloads.antt =====
-- What the accounts that follow the declared ones hold when they are read: the constructor of
-- EligibilityCheckStrategy in common/eligibility_check_strategy.rs.
use raffle_auction_audited_c.Prelude.{
  ℕ, ◌≡◌, refl, ap, ◌∙◌, true, not, Option, none, some, List, ltb, ◌==◌, ==_iff, length, get_elem?,
}
use raffle_auction_audited_c.Failures.{JustiesErrorCode, fail_if, bind_ok, ok_inj, or_fail-some, ok}
use raffle_auction_audited_c.Types.{GroupType}
use raffle_auction_audited_c.Runtime.{TokenAccount}
use raffle_auction_audited_c.Eligibility.{
  Collection, MetadataAccount, Payload, as_token, as_metadata, payload_at, is_verified,
  read_payloads,
}
use raffle_auction_audited_c.Failures.Guards.{passed}

as_token_data : (p : Payload) (t : TokenAccount) → as_token p ≡ ok t → p ≡ Payload.token_payload t
as_token_data (Payload.token_payload t') t e = ap Payload.token_payload (ok_inj e)
as_token_data (Payload.metadata_payload m) t e = cc
as_token_data Payload.other_payload t e = cc

as_metadata_data :
    (p : Payload) (m : MetadataAccount) → as_metadata p ≡ ok m → p ≡ Payload.metadata_payload m
as_metadata_data (Payload.token_payload t) m e = cc
as_metadata_data (Payload.metadata_payload m') m e = ap Payload.metadata_payload (ok_inj e)
as_metadata_data Payload.other_payload m e = cc

-- A payload that is read stands at its place.
token_at :
    (ps : List Payload) (i : ℕ) (p : Payload) (t : TokenAccount)
    → payload_at ps i ≡ ok p
    → as_token p ≡ ok t
    → get_elem? ps i ≡ some (Payload.token_payload t)
token_at ps i p t found read = or_fail-some _ _ found ∙ ap some (as_token_data p t read)

metadata_at :
    (ps : List Payload) (i : ℕ) (p : Payload) (m : MetadataAccount)
    → payload_at ps i ≡ ok p
    → as_metadata p ≡ ok m
    → get_elem? ps i ≡ some (Payload.metadata_payload m)
metadata_at ps i p m found read = or_fail-some _ _ found ∙ ap some (as_metadata_data p m read)

verified_collection :
    (o : Option Collection)
    → is_verified o ≡ true
    → (c : Collection) × (o ≡ some c) × (c.verified ≡ true)
verified_collection none e = cc
verified_collection (some c) e = (c, refl, e)

pub read_token :
    (ps : List Payload) (r : TokenAccount × Option MetadataAccount)
    → read_payloads GroupType.token_holder_group ps ≡ ok r
    → get_elem? ps 0 ≡ some (Payload.token_payload r.0)
unfolding read_payloads
read_token ps r e =
    bind_ok (fail_if (ltb (length ps) 1) JustiesErrorCode.not_enough_payload_accounts) e λ _ _ e₁.
      bind_ok (payload_at ps 0) e₁ λ p found e₂.
        bind_ok (as_token p) e₂ λ t read e₃. rw (← ok_inj e₃) (token_at ps 0 p t found read)

pub read_nft :
    (ps : List Payload) (r : TokenAccount × Option MetadataAccount)
    → read_payloads GroupType.nft_holder_group ps ≡ ok r
    → (m : MetadataAccount) × (c : Collection) × (r.1 ≡ some m)
      × (get_elem? ps 0 ≡ some (Payload.token_payload r.0))
      × (get_elem? ps 1 ≡ some (Payload.metadata_payload m))
      × (r.0.mint ≡ m.mint)
      × (m.collection ≡ some c)
      × (c.verified ≡ true)
unfolding read_payloads
read_nft ps r e =
    bind_ok (fail_if (ltb (length ps) 2) JustiesErrorCode.not_enough_payload_accounts) e λ _ _ e₁.
      bind_ok (payload_at ps 0) e₁ λ p found e₂. bind_ok (as_token p) e₂ λ t read e₃.
        bind_ok (payload_at ps 1) e₃ λ q found' e₄. bind_ok (as_metadata q) e₄ λ m read' e₅.
          bind_ok
            (fail_if (not (t.mint == m.mint)) JustiesErrorCode.invalid_eligibility_checking_account)
            e₅
            λ _ same e₆.
              bind_ok
                (fail_if (not (is_verified m.collection))
                  JustiesErrorCode.invalid_eligibility_checking_account)
                e₆
                λ _ sure e₇.
                  let (c, at_c, verified) = verified_collection m.collection (passed _ _ sure) in
                  rw (← ok_inj e₇) (
                    m,
                    c,
                    refl,
                    token_at ps 0 p t found read,
                    metadata_at ps 1 q m found' read',
                    (==_iff _ _).0 (passed _ _ same),
                    at_c,
                    verified,
                  )
