-- ===== src/Accounts.antt =====
-- common/cpi_utils.rs (the part on lamports and account data) and common/pubkey_indexing.rs, with
-- `PubkeyIndexPage` of common/types.rs. An account here is its address, its lamports and the length of
-- its data.
pub mod Rent
pub mod Indexing
use raffle_auction_audited_c.Prelude.{
  ℕ, ◌+◌, ◌-◌, ◌*◌, ◌/◌, Bool, true, not, Option, some, List, [], ◌∷◌, ◌++◌, ltb, ◌==◌,
  if◌then◌else◌, length,
}
use raffle_auction_audited_c.Failures.{Failure, Result, ok, err, ◌>>=◌, or_fail}
use raffle_auction_audited_c.Failures.Checked.{add_u64}
use raffle_auction_audited_c.Types.{Pubkey, PubkeyIndexPage}
use raffle_auction_audited_c.Types.Defaults.{default_index_page}
use raffle_auction_audited_c.Runtime.{Runtime, Seed}

pub record AccountInfo : Type 0 where
  pub key : Pubkey
  pub lamports : ℕ
  pub space : ℕ

abbrev pub is_account_initialized : AccountInfo → Bool
is_account_initialized a = ltb 0 a.lamports

-- `create_pda`: the new account, rent exempt, and the payer after it has paid.
unfoldable pub create_pda :
    Runtime → AccountInfo → AccountInfo → ℕ → List Seed → Result (AccountInfo × AccountInfo)
create_pda rt payer pda space signer_seed = do
  let minimum_balance = rt.minimum_balance space
  payer_balance ← rt.create_account signer_seed pda.key minimum_balance space payer.lamports
  ok (
    record pda { lamports = minimum_balance; space = space },
    record payer { lamports = payer_balance },
  )

-- The lamports that `resize_account` moves before it reallocates: account, payer.
unfoldable pub settle_rent : Runtime → ℕ → ℕ → ℕ → Result (ℕ × ℕ)
settle_rent rt new_minimum_balance current_balance payer_balance =
    if ltb current_balance new_minimum_balance
    then (do
      moved ←
          rt.system_transfer payer_balance current_balance (new_minimum_balance - current_balance)
      ok (moved.1, moved.0))
    else if ltb new_minimum_balance current_balance
    then (do
      payer_balance' ← add_u64 payer_balance (current_balance - new_minimum_balance)
      ok (new_minimum_balance, payer_balance'))
    else ok (current_balance, payer_balance)

-- `resize_account`: the account and the payer afterwards.
unfoldable pub resize_account :
    Runtime → AccountInfo → ℕ → AccountInfo → Result (AccountInfo × AccountInfo)
unfolding settle_rent
resize_account rt account new_space payer = do
  settled ← settle_rent rt (rt.minimum_balance new_space) account.lamports payer.lamports
  len ← rt.realloc account.space new_space
  ok (record account { lamports = settled.0; space = len }, record payer { lamports = settled.1 })

-- An index page account: its page, if the program has written one.
pub record IndexAccount : Type 0 where
  pub info : AccountInfo
  pub page : Option PubkeyIndexPage

abbrev pub index_page_init_data_size : ℕ
index_page_init_data_size = 1 + 1 + 4

-- `PubkeyIndexPage::space`
abbrev pub index_page_space : ℕ → ℕ
index_page_space len = 8 + index_page_init_data_size + len * 32

-- `PubkeyIndexPage::page_id`: a division by zero panics.
unfoldable pub page_id : ℕ → ℕ → Result ℕ
page_id total_keys page_size =
    if page_size == 0 then err Failure.division_by_zero else ok (total_keys / page_size)

-- The page that `index_pubkey` starts from: created when the account holds no lamports, else loaded.
unfoldable pub open_index_page :
    Runtime
    → List Seed
    → IndexAccount
    → AccountInfo
    → Result (PubkeyIndexPage × AccountInfo × AccountInfo)
unfolding create_pda
open_index_page rt signer_seed index payer =
    if not (is_account_initialized index.info)
    then (do
      created ← create_pda rt payer index.info (index_page_space 1) signer_seed
      ok (default_index_page, created.0, created.1))
    else (do
      page ← or_fail index.page Failure.account_did_not_deserialize
      ok (page, index.info, payer))

-- `index_pubkey`: the page account and the payer afterwards.
unfoldable pub index_pubkey :
    Runtime
    → Pubkey
    → ℕ
    → List Seed
    → IndexAccount
    → AccountInfo
    → Result (IndexAccount × AccountInfo)
index_pubkey rt key index_page_bump signer_seed index payer = do
  opened ← open_index_page rt signer_seed index payer
  let page = opened.0
  if not page.initialized
      then ok (
        record {
          info = opened.1;
          page = some (record page {
            bump = index_page_bump;
            initialized = true;
            keys = page.keys ++ key ∷ [];
          });
        },
        opened.2,
      )
      else (do
        resized ← resize_account rt opened.1 (index_page_space (length page.keys + 1)) opened.2
        ok (
          record { info = resized.0; page = some (record page { keys = page.keys ++ key ∷ [] }) },
          resized.1,
        ))
