-- ===== src/Random.antt =====
-- common/random_utils.rs: weighted sampling by the alias method, and the draw of the winners. A `Vec`
-- used as a stack is a list with its top first. The crates `wyhash`, `rand` and `bit-set` are the
-- parameter `Sampling`: the generator's state and the set of bits are numbers, as in their source.
pub mod Table
pub mod Draw
pub mod Shape
pub mod Winners
pub mod Rounds
