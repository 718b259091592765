-- ===== src/Tests.antt =====
-- Concrete runs of the instructions, and the theorems applied at them.
pub mod Market
pub mod Auctions
pub mod Endings
pub mod Raffles
pub mod Winners
pub mod Money
pub mod Settings
pub mod Draws
pub mod Creations
pub mod CreatedRaffles
pub mod Allowlists
pub mod Lives
pub mod RaffleLives
