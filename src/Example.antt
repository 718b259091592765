-- ===== src/Example.antt =====
-- A concrete runtime, at which the theorems are applied: addresses are numbers computed from the
-- seeds, and the token program moves balances of accounts that exist and belong to the authority.
pub mod Sampler
use raffle_auction_audited_c.Prelude.{
  ℕ, ◌+◌, ◌-◌, ◌*◌, ◌≤◌, ◌≡◌, refl, ◌≢◌, not, ◌&&◌, Option, none, some, List, [], ◌∷◌, arith, leb,
  ◌==◌, if◌then◌else◌,
}
use raffle_auction_audited_c.Prelude.Int.{pos}
use raffle_auction_audited_c.Failures.{Failure, Result, ok, err}
use raffle_auction_audited_c.Types.{Pubkey}
use raffle_auction_audited_c.Runtime.{
  SeedLabel, Seed, TokenAccount, Tokens, Runtime, balance, IsTokenProgram, IsSystemProgram,
}

abbrev label_code : SeedLabel → ℕ
label_code SeedLabel.global_states = 1
label_code SeedLabel.raffle = 2
label_code SeedLabel.auction = 3
label_code SeedLabel.bid = 4
label_code SeedLabel.escrow = 5
label_code SeedLabel.lot_escrow = 6
label_code SeedLabel.bid_index = 7
label_code SeedLabel.rewards_escrow = 8
label_code SeedLabel.revenue_escrow = 9
label_code SeedLabel.ticket_position = 10
label_code SeedLabel.ticket_position_stats = 11
label_code SeedLabel.ticket_position_index = 12
label_code SeedLabel.metadata = 13
label_code SeedLabel.nft_allowlist_states = 14
label_code SeedLabel.token_allowlist_states = 15
label_code SeedLabel.nft_allowlist_index = 16
label_code SeedLabel.token_allowlist_index = 17

-- A bump is not part of the address.
abbrev pub address : List Seed → Pubkey
address [] = 1
address (Seed.label l ∷ seeds) = address seeds * 1000 + label_code l
address (Seed.number n ∷ seeds) = address seeds * 1000 + 100 + n
address (Seed.key k ∷ seeds) = address seeds * 1000000000 + k * 10
address (Seed.bump b ∷ seeds) = address seeds

abbrev pub write : Tokens → Pubkey → Option TokenAccount → Tokens
write ts a t b = if b == a then t else ts b

-- The balances of two accounts after an amount has moved.
abbrev pub moved : Pubkey → Pubkey → ℕ → TokenAccount → TokenAccount → Tokens → Tokens
moved from to n f t ts =
    write (write ts from (some (record f { amount = f.amount - n }))) to
      (some (record t { amount = t.amount + n }))

abbrev move :
    Pubkey → Pubkey → ℕ → Option TokenAccount → Option TokenAccount → Tokens → Result Tokens
move from to n (some f) (some t) ts =
    if leb n f.amount && not (from == to)
    then ok (moved from to n f t ts)
    else err Failure.cpi_failed
move from to n _ _ ts = err Failure.cpi_failed

abbrev close : Pubkey → Option TokenAccount → Tokens → Result Tokens
close a none ts = err Failure.cpi_failed
close a (some t) ts = if t.amount == 0 then ok (write ts a none) else err Failure.cpi_failed

abbrev create : Pubkey → TokenAccount → Option TokenAccount → Tokens → Result Tokens
create a t none ts = ok (write ts a (some t))
create a t (some _) ts = ok ts

abbrev pay_lamports : ℕ → ℕ → ℕ → Result (ℕ × ℕ)
pay_lamports from to n = if leb n from then ok (from - n, to + n) else err Failure.cpi_failed

abbrev pay_creation : ℕ → ℕ → Result ℕ
pay_creation n from = if leb n from then ok (from - n) else err Failure.cpi_failed

abbrev pub runtime : Runtime
runtime = record {
  find_program_address = λ seeds. (address seeds, 255);
  find_address_of = λ program seeds. (address seeds, 255);
  metadata_program_id = 5;
  create_program_address = λ seeds. some (address seeds);
  get_associated_token_address = λ wallet mint. wallet * 1000 + mint;
  transfer = λ _ from to _ n ts. move from to n (ts from) (ts to) ts;
  close_account = λ _ a _ _ ts. close a (ts a) ts;
  create_token_account =
      λ a mint owner ts. create a (record { mint = mint; owner = owner; amount = 0 }) (ts a) ts;
  create_idempotent =
      λ a wallet mint ts. create a (record { mint = mint; owner = wallet; amount = 0 }) (ts a) ts;
  system_transfer = pay_lamports;
  create_account = λ _ _ n _ from. pay_creation n from;
  realloc = λ old new. ok new;
  unix_timestamp = pos 1000;
  slot = 7;
  minimum_balance = λ space. 100 + space;
}

move_from :
    (from to : Pubkey) (n : ℕ) (f t : Option TokenAccount) (ts ts' : Tokens)
    → ts from ≡ f
    → ts to ≡ t
    → move from to n f t ts ≡ ok ts'
    → from ≢ to
    → balance ts' from + n ≡ balance ts from
move_from from to n (some f) (some t) ts ts' ef et e h =
    let run : ok (moved from to n f t ts) ≡ ok ts' = ground arith in
    let same : moved from to n f t ts ≡ ts' = cc in
    let le : n ≤ f.amount = ground arith in rw (← same) (ground arith)
move_from from to n (some f) none ts ts' ef et e h = cc
move_from from to n none t ts ts' ef et e h = cc

move_to :
    (from to : Pubkey) (n : ℕ) (f t : Option TokenAccount) (ts ts' : Tokens)
    → ts from ≡ f
    → ts to ≡ t
    → move from to n f t ts ≡ ok ts'
    → from ≢ to
    → balance ts' to ≡ balance ts to + n
move_to from to n (some f) (some t) ts ts' ef et e h =
    let run : ok (moved from to n f t ts) ≡ ok ts' = ground arith in
    let same : moved from to n f t ts ≡ ts' = cc in rw (← same) (ground arith)
move_to from to n (some f) none ts ts' ef et e h = cc
move_to from to n none t ts ts' ef et e h = cc

move_other :
    (from to : Pubkey) (n : ℕ) (f t : Option TokenAccount) (ts ts' : Tokens) (a : Pubkey)
    → move from to n f t ts ≡ ok ts'
    → a ≢ from
    → a ≢ to
    → ts' a ≡ ts a
move_other from to n (some f) (some t) ts ts' a e h k =
    let run : ok (moved from to n f t ts) ≡ ok ts' = ground arith in
    let same : moved from to n f t ts ≡ ts' = cc in rw (← same) (ground arith)
move_other from to n (some f) none ts ts' a e h k = cc
move_other from to n none t ts ts' a e h k = cc

close_self :
    (a : Pubkey) (t : Option TokenAccount) (ts ts' : Tokens) → close a t ts ≡ ok ts' → ts' a ≡ none
close_self a none ts ts' e = cc
close_self a (some t) ts ts' e =
    let run : ok (write ts a none) ≡ ok ts' = ground arith in
    let same : write ts a none ≡ ts' = cc in rw (← same) (ground arith)

close_other :
    (a : Pubkey) (t : Option TokenAccount) (ts ts' : Tokens) (b : Pubkey)
    → close a t ts ≡ ok ts'
    → b ≢ a
    → ts' b ≡ ts b
close_other a none ts ts' b e h = cc
close_other a (some t) ts ts' b e h =
    let run : ok (write ts a none) ≡ ok ts' = ground arith in
    let same : write ts a none ≡ ts' = cc in rw (← same) (ground arith)

create_keeps :
    (a mint owner : Pubkey) (t : Option TokenAccount) (ts ts' : Tokens) (b : Pubkey)
    → ts a ≡ t
    → create a (record { mint = mint; owner = owner; amount = 0 }) t ts ≡ ok ts'
    → balance ts' b ≡ balance ts b
create_keeps a mint owner none ts ts' b ea e =
    let same : write ts a (some (record { mint = mint; owner = owner; amount = 0 })) ≡ ts' = cc in
    rw (← same) (ground arith)
create_keeps a mint owner (some t) ts ts' b ea e = let same : ts ≡ ts' = cc in rw (← same)

pub runtime-IsTokenProgram : IsTokenProgram runtime
runtime-IsTokenProgram = record {
  transfer_from =
      λ _ from to _ n ts ts' e h. move_from from to n (ts from) (ts to) ts ts' refl refl e h;
  transfer_to =
      λ _ from to _ n ts ts' e h. move_to from to n (ts from) (ts to) ts ts' refl refl e h;
  transfer_other =
      λ _ from to _ n ts ts' a e h k. move_other from to n (ts from) (ts to) ts ts' a e h k;
  close_self = λ _ a _ _ ts ts' e. close_self a (ts a) ts ts' e;
  close_other = λ _ a _ _ ts ts' b e h. close_other a (ts a) ts ts' b e h;
  create_balance = λ a mint auth ts ts' b e. create_keeps a mint auth (ts a) ts ts' b refl e;
  create_idempotent_balance =
      λ a wallet mint ts ts' b e. create_keeps a mint wallet (ts a) ts ts' b refl e;
}

pub runtime-IsSystemProgram : IsSystemProgram runtime
runtime-IsSystemProgram = record {
  transfer_moves = λ from to n from' to' e. ground arith;
  create_pays = λ _ _ n _ from from' e. ground arith;
  realloc_length = λ old new len e. ground arith;
}
