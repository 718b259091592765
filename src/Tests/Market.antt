-- ===== src/Tests/Market.antt =====
-- The accounts that the runs share: settings, a market of two mints, and token accounts by address.
use raffle_auction_audited_c.Prelude.{ℕ, ◌+◌, ◌*◌, none, some, List, [], ◌∷◌, ◌==◌, if◌then◌else◌}
use raffle_auction_audited_c.Prelude.Int.{pos}
use raffle_auction_audited_c.Failures.{Result, ok, err}
use raffle_auction_audited_c.Types.{Pubkey, RevenueShareConfig, GlobalStates, Raffle}
use raffle_auction_audited_c.Types.Defaults.{default_raffle, default_global_states}
use raffle_auction_audited_c.Runtime.{TokenAccount, Tokens}
use raffle_auction_audited_c.Accounts.{AccountInfo, IndexAccount}
use raffle_auction_audited_c.Auction.Seeds.{global_states_seeds}
use raffle_auction_audited_c.Example.{address}
use raffle_auction_audited_c.Raffle.Seeds.{raffle_seeds, rewards_escrow_seeds, revenue_escrow_seeds}

abbrev pub got {ℓ} : {A : Type ℓ} → Result A → A → A
got (ok a) d = a
got (err f) d = d

-- Token accounts given as a list.
abbrev pub tokens_of : List (Pubkey × TokenAccount) → Tokens
tokens_of [] a = none
tokens_of ((b, t) ∷ rest) a = if a == b then some t else tokens_of rest a

abbrev pub holding : Pubkey → Pubkey → ℕ → TokenAccount
holding mint owner amount = record { mint = mint; owner = owner; amount = amount }

abbrev pub nft : Pubkey
nft = 21

abbrev pub currency : Pubkey
currency = 22

abbrev pub creator : Pubkey
creator = 11

abbrev pub buyer : Pubkey
buyer = 12

abbrev pub treasury : Pubkey
treasury = 50

-- The associated token account, as the concrete runtime computes it.
abbrev pub associated : Pubkey → Pubkey → Pubkey
associated wallet mint = wallet * 1000 + mint

abbrev pub states_key : Pubkey
states_key = address global_states_seeds

abbrev pub states : GlobalStates
states = record default_global_states {
  bump = 255;
  market_fee_rate_bps = 500;
  fee_treasury_address = 50;
  authority = 9;
  min_outbid_rate_bps = 500;
  last_minutes_for_auction_extend = 10;
  auction_extend_minutes = 10;
  min_auction_duration = 60;
  max_auction_duration = 6000;
  min_raffle_ticket_supply = 10;
  max_raffle_ticket_supply = 3000;
  max_raffled_nfts = 20;
  min_raffle_duration = 60;
  max_raffle_duration = 6000;
  num_keys_per_index_page = 100;
}

abbrev pub wallet_info : Pubkey → AccountInfo
wallet_info k = record { key = k; lamports = 100000; space = 0 }

abbrev pub no_index : Pubkey → IndexAccount
no_index k = record { info = record { key = k; lamports = 0; space = 0 }; page = none }

-- 60% and 40%.
abbrev pub shares : List RevenueShareConfig
shares =
    record { revenue_receiver = 31; share_bps = 6000 }
    ∷ record { revenue_receiver = 32; share_bps = 4000 }
    ∷ []

abbrev pub raffle_key : Pubkey
raffle_key = address (raffle_seeds 1)

abbrev pub rewards : Pubkey
rewards = address (rewards_escrow_seeds raffle_key)

abbrev pub revenue : Pubkey
revenue = address (revenue_escrow_seeds raffle_key)

-- Two NFTs, and three ticket positions with 1, 2 and 5 tickets.
abbrev pub raffle_ended : Raffle
raffle_ended = record default_raffle {
  bump = 255;
  id = 1;
  nft_mint_address = nft;
  num_raffled_nfts = 2;
  num_ticket_positions = 3;
  currency_token_mint_address = currency;
  expired_timestamp = pos 500;
  ticket_supply = 100;
  ticket_price = 10;
  ticket_sold = 8;
  creator = creator;
  revenue_shares = shares;
}
