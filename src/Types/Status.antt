-- ===== src/Types/Status.antt =====
-- The states of a listing: `ListingStatus` of common/types.rs.
use raffle_auction_audited_c.Prelude.{◌≡◌, refl, ◌≢◌, ◌⊎◌, inl, inr}
use raffle_auction_audited_c.Types.{ListingStatus}

pub in_progress_open :
    (s : ListingStatus) → s ≡ ListingStatus.in_progress → s ≢ ListingStatus.cancelled
in_progress_open ListingStatus.in_progress e = λ c. cc
in_progress_open ListingStatus.finished e = λ c. cc
in_progress_open ListingStatus.cancelled e = λ c. cc

pub cancelled_or_not :
    (s : ListingStatus) → (s ≢ ListingStatus.cancelled) ⊎ (s ≡ ListingStatus.cancelled)
cancelled_or_not ListingStatus.in_progress = inl (λ c. cc)
cancelled_or_not ListingStatus.finished = inl (λ c. cc)
cancelled_or_not ListingStatus.cancelled = inr refl
