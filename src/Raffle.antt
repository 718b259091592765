-- ===== src/Raffle.antt =====
-- programs/justies/src/raffle: the raffles. `Strategy` and `Tickets` are the operations of
-- `RaffleStrategy`; a module for each instruction holds its accounts, the constraints on them and its
-- handler.
pub mod Strategy
pub mod Tickets
pub mod Seeds
pub mod CreateRaffle
pub mod BuyRaffleTickets
pub mod MakeRaffle
pub mod SetRaffleWinners
pub mod ClaimRaffleReward
pub mod ClaimRemainingRaffleRewards
pub mod CancelRaffle
pub mod ClaimRaffleRevenue
pub mod Claims
pub mod Rewards
pub mod Prizes
pub mod Remaining
pub mod Frames
pub mod Keeping
pub mod Life
pub mod Cancelling
pub mod Sales
pub mod Purchase
pub mod Drawing
pub mod Revenue
pub mod Creation
