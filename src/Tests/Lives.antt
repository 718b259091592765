-- ===== src/Tests/Lives.antt =====
-- Runs of one instruction after another on an auction.
use raffle_auction_audited_c.Prelude.{◌≤◌, ◌≡◌, refl, ◌≢◌, ◌⊎◌, arith, sum}
use raffle_auction_audited_c.Prelude.Int.{◌+ℤ◌, ◌-ℤ◌, ◌*ℤ◌}
use raffle_auction_audited_c.Failures.{ok}
use raffle_auction_audited_c.Types.{ListingStatus, Auction}
use raffle_auction_audited_c.Runtime.{
  Tokens, get_current_timestamp, transfer_token, close_token_account_with_signer,
}
use raffle_auction_audited_c.Auction.CancelAuction.{
  CancelAuction, cancel_auction_constraints, cancel_auction_handler,
}
use raffle_auction_audited_c.Auction.CreateAuction.{
  create_auction_init, listing_constraints, create_auction_constraints, create_auction_handler,
}
use raffle_auction_audited_c.Auction.Life.{Step, Steps, bids_prevent_cancel, created_auction_life}
use raffle_auction_audited_c.Auction.Strategy.{
  new_auction_strategy, init_auction, deposit_nft, cancel, get_lot_escrow_signer_seed,
  transfer_lot_nft, close_lot_escrow_nft_account,
}
use raffle_auction_audited_c.Example.{runtime, runtime-IsTokenProgram}
use raffle_auction_audited_c.Revenue.{share_sum_from, validate_share_configs, config_shares}
use raffle_auction_audited_c.Tests.Auctions.{cancelling, escrow_tokens, cancelled, cancel_bid_run}
use raffle_auction_audited_c.Tests.Creations.{
  creator_tokens, listing, listing_args, listed, listed_run, lot_apart,
}
use raffle_auction_audited_c.Tests.Market.{got, nft, creator, associated, states_key}

-- The auction of the run of the creation is cancelled by its creator.
abbrev withdrawing : CancelAuction
withdrawing = record {
  auction_key = listing.auction_key;
  auction = listed.0;
  creator = creator;
  nft_mint = nft;
  lot_escrow_nft_account = listing.lot_escrow_nft_account;
  creator_nft_account = associated creator nft;
  global_states_key = states_key;
  global_states = listed.1;
}

abbrev withdrawn : Auction × Tokens
withdrawn = got (cancel_auction_handler runtime withdrawing 1 listed.2) (listed.0, listed.2)

withdraw_run : cancel_auction_handler runtime withdrawing 1 listed.2 ≡ ok (withdrawn.0, withdrawn.1)
unfolding cancel cancel_auction_constraints cancel_auction_handler close_lot_escrow_nft_account
    close_token_account_with_signer create_auction_constraints create_auction_handler
    create_auction_init deposit_nft get_current_timestamp get_lot_escrow_signer_seed init_auction
    listing_constraints new_auction_strategy share_sum_from transfer_lot_nft transfer_token
    validate_share_configs ◌*ℤ◌ ◌+ℤ◌ ◌-ℤ◌
withdraw_run = refl

withdraw-Steps : Steps runtime listed.0 withdrawn.0
withdraw-Steps =
    Steps.followed_by listed.0 listed.0 withdrawn.0 (Steps.none_yet listed.0) (
      Step.cancel_auction withdrawing 1 listed.2 withdrawn.1 listed.0 withdrawn.0 withdraw_run refl)

created_auction_life_example :
    (withdrawn.0.creator ≡ listing.creator)
    × (withdrawn.0.nft_mint_address ≡ listing.nft_mint)
    × (withdrawn.0.currency_token_mint_address ≡ listing.currency_token_mint)
    × (withdrawn.0.start_bid ≡ listing_args.start_bid)
    × (withdrawn.0.eligible_groups ≡ listing_args.eligible_groups)
    × (withdrawn.0.revenue_shares ≡ listing_args.revenue_shares)
    × (sum (config_shares withdrawn.0.revenue_shares) ≡ 10000)
    × ((withdrawn.0.status ≢ ListingStatus.cancelled) ⊎ (withdrawn.0.total_bids ≡ 0))
created_auction_life_example =
    created_auction_life runtime runtime-IsTokenProgram listing listing_args creator_tokens listed.0
      listed.1 listed.2 withdrawn.0 listed_run lot_apart withdraw-Steps

-- A bid is taken back from an auction with another bidder on top.
refund-Steps : Steps runtime cancelling.auction cancelled.1
refund-Steps =
    Steps.followed_by cancelling.auction cancelling.auction cancelled.1
      (Steps.none_yet cancelling.auction)
      (Step.cancel_own_bid cancelling 1 escrow_tokens cancelled.0 cancelled.2 cancelling.auction
        cancelled.1 cancel_bid_run refl)

still_open : cancelling.auction.status ≢ ListingStatus.cancelled
still_open c = cc

bids_prevent_cancel_example :
    (cancelled.1.status ≢ ListingStatus.cancelled)
    × (cancelling.auction.total_bids ≤ cancelled.1.total_bids)
bids_prevent_cancel_example =
    bids_prevent_cancel runtime cancelling.auction cancelled.1 refund-Steps (omega arith) still_open
