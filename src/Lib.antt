-- ===== src/Lib.antt =====
-- Verification of the justies program, a Solana program of auctions and raffles of NFTs
-- (programs/justies, written with the Anchor framework).
--
-- The program. An instruction reads the accounts it is given, checks the constraints on them, and then
-- runs a handler, which writes accounts and calls the token program, the associated token program and the
-- system program. Whatever fails aborts the transaction and leaves nothing behind. An auction holds one
-- NFT in a lot escrow; each bidder has a bid account and an escrow that holds the bid; whoever is on
-- top at the end claims the NFT, and the top bid is distributed. A raffle holds its NFTs in a rewards
-- escrow and what the tickets bring in a revenue escrow; the winners are drawn among the ticket positions by
-- weight, claim one NFT each, and the revenue is distributed. The settings and the allowlists are global.
--
-- The model. Each instruction is a function of the accounts that it reads and of the state of all token
-- accounts, and returns what it wrote, or the failure (`Failures.Result`). The handlers are composed as
-- in the source, and each is preceded by the constraints of its `#[derive(Accounts)]` struct: first the
-- accounts that it creates, then the others in the order of the fields, as the framework checks them.
--   * Prelude: Booleans, `Vec`, `i64` and bit masks over native numbers, and their laws.
--   * Failures: common/error_code.rs, and in Failures/Checked the machine arithmetic. The program is built
--     with `overflow-checks = true`: an overflow is a panic, which is a failure of its own.
--   * Types: common/types.rs, admin/state.rs, auction/state.rs, raffle/state.rs; Types/Defaults: the
--     accounts as they are created.
--   * Runtime: common/utils.rs and the token part of common/cpi_utils.rs, over a record `Runtime` of what
--     is not the program's own; Runtime/Transfers derives from `IsTokenProgram` what the program's calls do.
--   * Accounts: the part of common/cpi_utils.rs on lamports and data, and common/pubkey_indexing.rs.
--   * Eligibility: common/eligibility_check_strategy.rs.
--   * Revenue: common/revenue_distribution_strategy.rs.
--   * Auction/Strategy and Auction/Bidding: common/auction_strategy.rs and common/bid_strategy.rs;
--     Auction/CreateAuction to Auction/ClaimAuctionRevenue: the files of auction/ of those names.
--   * Random: common/random_utils.rs, the table and the draw.
--   * Raffle/Strategy and Raffle/Tickets: common/raffle_strategy.rs; Raffle/CreateRaffle to
--     Raffle/ClaimRaffleRevenue: the files of raffle/ of those names.
--   * Admin: common/configs_strategy.rs and the files of admin/.
--   * Example: a concrete runtime and sampling, for which the hypotheses hold; Tests: runs on them.
--   * Auction/Life and Raffle/Life: the instructions on one listing as a step relation on its account,
--     in any order and by anyone, and what is true of whatever they reach; Frames and Keeping are what
--     the operations and the instructions keep.
-- The other files below these are named for what they prove of the component.
-- The paths are below programs/justies/src. The functions and fields keep the names of the source; a
-- strategy method that writes its accounts returns the strategy with the accounts as written.
--
-- What is not the program's own. `Runtime` has the addresses that seeds give, for this program and for
-- another one, the address of the metadata program, the calls of the token,
-- associated token and system programs, the clock and the rent; `Sampling` has the generator WyRng and the
-- set BitSet. `IsTokenProgram`, `IsSystemProgram` and `IsSampling` state what those document: a transfer
-- between two accounts moves the amount, a closed account is gone, a new one is empty, a range is
-- met, a set holds what was inserted. Balances of an address without an account count as 0.
--
-- Bounds and fuel. Amounts are natural numbers whose width shows where the source computes with them:
-- `add_u64`, `mul_u64`, `add_u16`, `sub_u`, and `i64`, `i16` through integers. The draw of winners may go on
-- for ever; `budget` is the number of rounds that the compute budget of a transaction allows. The second loop
-- of the alias table is given as many rounds as there are columns on its two stacks.
--
-- Not modelled: lib.rs, which hands the instructions to the handlers; the rent of the accounts that the
-- framework's `init` creates (that there was no account before is checked); the encoding of accounts; the TypeScript client, its tests and the migration.
pub mod Prelude
pub mod Failures
pub mod Types
pub mod Runtime
pub mod Accounts
pub mod Eligibility
pub mod Revenue
pub mod Auction
pub mod Random
pub mod Raffle
pub mod Admin
pub mod Example
pub mod Tests
