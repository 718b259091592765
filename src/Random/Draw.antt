-- ===== src/Random/Draw.antt =====
-- get_random_seed, sample and pick_winners of common/random_utils.rs.
use raffle_auction_audited_c.Prelude.{
  ℕ, zero, suc, ◌≤◌, ◌<◌, ◌≡◌, ◌⊎◌, Bool, List, [], ◌∷◌, map, ltb, ◌==◌, if◌then◌else◌, length,
  get_elem?,
}
use raffle_auction_audited_c.Prelude.Int.{ℤ, pos_part, ltb_ℤ, pos}
use raffle_auction_audited_c.Failures.{Failure, Result, ◌>>=◌, ◌>>◌, require, or_fail, ok, err}
use raffle_auction_audited_c.Failures.Checked.{add_u64, as_u64, as_u16, as_i16}
use raffle_auction_audited_c.Random.Table.{read_prob, create_alias_table}

pub record Sampling : Type 1 where
  -- `WyRng::from_seed`, and `gen_range(0..n)` of `usize` and of `i32`, each with the generator's
  -- next state.
  pub from_seed : ℕ → ℕ
  pub gen_range_usize : ℕ → ℕ → ℕ × ℕ
  pub gen_range_i32 : ℕ → ℕ → ℕ × ℕ
  -- `BitSet`, with its `new`, `insert`, `len` and `iter`
  pub BitSet : Type 0
  pub bit_set_new : BitSet
  pub bit_set_insert : BitSet → ℕ → BitSet
  pub bit_set_len : BitSet → ℕ
  pub bit_set_iter : BitSet → List ℕ

-- Membership and strict order, by recursion.
abbrev pub In : ℕ → List ℕ → Type 0
In x [] = ⊥
In x (y ∷ ys) = (x ≡ y) ⊎ In x ys

-- Strictly ascending, each element at least `lo`.
abbrev pub Ascending : ℕ → List ℕ → Type 0
Ascending lo [] = Unit {0}
Ascending lo (x ∷ xs) = (lo ≤ x) × Ascending (suc x) xs

-- What the crates document: a range is met, and a bit set holds what was inserted, in order.
pub record IsSampling (sp : Sampling) : Type 0 where
  pub range_met : (n s : ℕ) → 0 < n → (sp.gen_range_usize n s).0 < n
  pub new_empty : sp.bit_set_iter sp.bit_set_new ≡ []
  pub iter_ascending : (s : sp.BitSet) → Ascending 0 (sp.bit_set_iter s)
  pub len_iter : (s : sp.BitSet) → sp.bit_set_len s ≡ length (sp.bit_set_iter s)
  pub insert_in :
      (s : sp.BitSet) (x y : ℕ)
      → In y (sp.bit_set_iter (sp.bit_set_insert s x))
      → (y ≡ x) ⊎ In y (sp.bit_set_iter s)

-- `get_random_seed`: slot and timestamp.
unfoldable pub get_random_seed : ℕ → ℤ → Result ℕ
get_random_seed slot current_timestamp = add_u64 slot (as_u64 current_timestamp)

abbrev pub is_positive : ℤ → Bool
is_positive z = ltb_ℤ (pos 0) z

-- `sample`, with the generator's next state. An empty range panics.
unfoldable pub sample : Sampling → List ℤ → List ℕ → ℤ → ℕ → Result (ℕ × ℕ)
sample sp prob alias total_weight rng = do
  require (ltb 0 (length prob)) Failure.empty_range
  let drawn = sp.gen_range_usize (length prob) rng
  let i = drawn.0
  require (is_positive total_weight) Failure.empty_range
  let point = sp.gen_range_i32 (pos_part total_weight) drawn.1
  threshold ← read_prob prob i
  picked ←
      if ltb_ℤ (as_i16 point.0) threshold
      then ok (as_u16 i)
      else or_fail (get_elem? alias i) Failure.index_out_of_bounds
  ok (picked, point.1)

-- The loop of `pick_winners`, within the rounds that the compute budget allows.
unfoldable pub draw_winners :
    (sp : Sampling) → ℕ → List ℤ → List ℕ → ℤ → ℕ → sp.BitSet → ℕ → Result sp.BitSet
draw_winners sp zero prob alias total max_num winners rng =
    if sp.bit_set_len winners == max_num then ok winners else err Failure.compute_exceeded
draw_winners sp (suc budget) prob alias total max_num winners rng =
    let next =
      (sample sp prob alias total rng >>= λ drawn.
      draw_winners sp budget prob alias total max_num (sp.bit_set_insert winners drawn.0)
        drawn.1) in
    if sp.bit_set_len winners == max_num then ok winners else next

unfoldable pub pick_winners : Sampling → ℕ → ℕ → List ℕ → ℕ → ℕ → ℤ → Result (List ℕ)
pick_winners sp budget slot weights total_weight max_num_winners current_timestamp = do
  seed ← get_random_seed slot current_timestamp
  table ← create_alias_table weights (as_i16 total_weight)
  winner_set ←
      draw_winners sp budget table.0 table.1 (as_i16 total_weight) max_num_winners sp.bit_set_new
        (sp.from_seed seed)
  ok (map as_u16 (sp.bit_set_iter winner_set))
