-- ===== src/Random/Table.antt =====
-- create_alias_table of common/random_utils.rs.
use raffle_auction_audited_c.Prelude.{
  ℕ, zero, suc, ◌+◌, ◌≡◌, refl, List, [], ◌∷◌, ltb, if◌then◌else◌, length, get_elem?, set,
  replicate,
}
use raffle_auction_audited_c.Prelude.Int.{ℤ, pos, ◌-ℤ◌, ◌*ℤ◌, ltb_ℤ}
use raffle_auction_audited_c.Failures.{Failure, Result, ok, err, ◌>>=◌, or_fail}
use raffle_auction_audited_c.Failures.Checked.{as_u16, as_i16, mul_i16, sub_i16}

-- The local variables of `create_alias_table`.
pub record Columns : Type 0 where
  pub prob : List ℤ
  pub alias : List ℕ
  pub small : List ℕ
  pub large : List ℕ

-- `prob[i]`, `prob[i] = v` and `alias[i] = v`, which panic out of bounds.
abbrev pub read_prob : List ℤ → ℕ → Result ℤ
read_prob prob i = or_fail (get_elem? prob i) Failure.index_out_of_bounds

abbrev pub write {ℓ} : {A : Type ℓ} → List A → ℕ → A → Result (List A)
write xs i v = if ltb i (length xs) then ok (set xs i v) else err Failure.index_out_of_bounds

-- Pushes a column on the stack that its probability asks for.
unfoldable pub classify : ℤ → Columns → ℕ → ℤ → Columns
classify total c i p =
    if ltb_ℤ p total
    then record c { small = as_u16 i ∷ c.small }
    else record c { large = as_u16 i ∷ c.large }

-- The first loop, from index `i` on: scales each weight by the number of columns.
unfoldable pub scale_weights : ℤ → ℕ → ℕ → List ℕ → Columns → Result Columns
scale_weights total n i [] c = ok c
scale_weights total n i (weight ∷ weights) c = mul_i16 (as_i16 n) (as_i16 weight) >>= λ p.
    write c.prob i p >>= λ prob.
    scale_weights total n (i + 1) weights (classify total (record c { prob = prob }) i p)

-- One round of the second loop: column `l` takes what it lacks from column `g`.
unfoldable pub pair_columns : ℤ → ℕ → ℕ → Columns → Result Columns
pair_columns total l g c = do
  alias ← write c.alias l (as_u16 g)
  had ← read_prob c.prob g
  filled ← read_prob c.prob l
  lacks ← sub_i16 total filled
  left ← sub_i16 had lacks
  prob ← write c.prob g left
  ok (classify total (record c { prob = prob; alias = alias }) g left)

-- The second loop. A round removes two columns and puts one back, so as many rounds as there are
-- columns on the stacks are enough.
unfoldable pub pair_all : ℕ → ℤ → Columns → List ℕ → List ℕ → Result Columns
pair_all rounds total c [] large = ok c
pair_all rounds total c (l ∷ small) [] = ok c
pair_all zero total c (l ∷ small) (g ∷ large) = err Failure.compute_exceeded
pair_all (suc rounds) total c (l ∷ small) (g ∷ large) =
    pair_columns total l g (record c { small = small; large = large }) >>= λ c'.
    pair_all rounds total c' c'.small c'.large

-- The last two loops: every column that is left is full.
unfoldable pub fill_columns : ℤ → List ℕ → List ℤ → Result (List ℤ)
fill_columns total [] prob = ok prob
fill_columns total (i ∷ stack) prob = write prob i total >>= λ prob'. fill_columns total stack prob'

unfoldable pub create_alias_table : List ℕ → ℤ → Result (List ℤ × List ℕ)
create_alias_table weights total_weight = do
  let n = length weights
  scaled ←
      scale_weights total_weight n 0 weights
        (record { prob = replicate n (pos 0); alias = replicate n 0; small = []; large = [] })
  paired ←
      pair_all (length scaled.small + length scaled.large) total_weight scaled scaled.small
        scaled.large
  large_filled ← fill_columns total_weight paired.large paired.prob
  filled ← fill_columns total_weight paired.small large_filled
  ok (filled, paired.alias)

-- Weights 1, 2 and 5 of 8: the columns that the algorithm gives.
table_example :
    create_alias_table (1 ∷ 2 ∷ 5 ∷ []) (pos 8) ≡ ok (pos 3 ∷ pos 6 ∷ pos 8 ∷ [], 2 ∷ 2 ∷ 0 ∷ [])
unfolding create_alias_table ◌*ℤ◌ ◌-ℤ◌ scale_weights classify pair_all pair_columns fill_columns
table_example = refl
