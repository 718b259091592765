-- ===== src/Auction.antt =====
-- programs/justies/src/auction: the auctions. `Strategy` and `Bidding` are the operations of
-- `AuctionStrategy` and `BidStrategy`; a module for each instruction holds its accounts, the
-- constraints on them and its handler.
pub mod Strategy
pub mod Bidding
pub mod Outbid
pub mod Placing
pub mod Deadline
pub mod Refunds
pub mod Seeds
pub mod CreateAuction
pub mod CancelAuction
pub mod MakeBid
pub mod CancelAuctionBid
pub mod ClaimLotNft
pub mod ClaimAuctionRevenue
pub mod Closing
pub mod Rising
pub mod Frames
pub mod Keeping
pub mod Life
pub mod Revenue
pub mod Creation
