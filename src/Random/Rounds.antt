-- ===== src/Random/Rounds.antt =====
-- The rounds that create_alias_table of common/random_utils.rs takes.
use raffle_auction_audited_c.Prelude.{
  ℕ, zero, suc, ◌+◌, ◌≤◌, ◌≡◌, refl, ap, ◌≢◌, inl, inr, List, [], ◌∷◌, arith, Bool-cases,
  Option-cases, length, get_elem?,
}
use raffle_auction_audited_c.Prelude.Int.{ℤ, ◌-ℤ◌, ◌*ℤ◌, ltb_ℤ}
use raffle_auction_audited_c.Failures.{Failure, Result, ◌>>=◌, bind_ok, ok_inj, err_inj, ok, err}
use raffle_auction_audited_c.Failures.Checked.{as_u16, as_i16, check_i16, mul_i16, sub_i16}
use raffle_auction_audited_c.Random.Table.{
  Columns, read_prob, write, classify, scale_weights, pair_columns, pair_all, fill_columns,
  create_alias_table,
}

-- The computation ends, with a value or with another failure.
abbrev pub Ends {ℓ} : {A : Type ℓ} → Result A → Type ℓ
Ends m = m ≢ err Failure.compute_exceeded

bind-Ends {ℓ κ} :
    {A : Type ℓ} {B : Type κ} (m : Result A) (f : A → Result B)
    → Ends m
    → ((a : A) → m ≡ ok a → Ends (f a))
    → Ends (m >>= f)
bind-Ends (ok a) f h k = k a refl
bind-Ends (err e) f h k = λ same. h (ap err (err_inj refl same))

write-Ends {ℓ} : {A : Type ℓ} (xs : List A) (i : ℕ) (v : A) → Ends (write xs i v)
write-Ends xs i v = λ e. ground arith

read-Ends : (prob : List ℤ) (i : ℕ) → Ends (read_prob prob i)
read-Ends prob i = elim (Option-cases (get_elem? prob i)) [
  | inl missing ↦ rw (missing) (λ e. cc)
  | inr (v, found) ↦ rw (found) (λ e. cc)
]

check_i16-Ends : (z : ℤ) → Ends (check_i16 z)
check_i16-Ends z = λ e. ground arith

classify-lengths :
    (total : ℤ) (c : Columns) (i : ℕ) (p : ℤ)
    → length (classify total c i p).small + length (classify total c i p).large
      ≡ length c.small + length c.large + 1
unfolding classify
classify-lengths total c i p = elim (Bool-cases (ltb_ℤ p total)) [
  | inl lacks ↦ rw (lacks) (omega arith)
  | inr full ↦ rw (full) (omega arith)
]

scale_weights-Ends :
    (total : ℤ) (n i : ℕ) (weights : List ℕ) (c : Columns)
    → Ends (scale_weights total n i weights c)
unfolding scale_weights
scale_weights-Ends total n i [] c = λ e. cc
scale_weights-Ends total n i (weight ∷ weights) c =
    bind-Ends (mul_i16 (as_i16 n) (as_i16 weight)) _ (check_i16-Ends (as_i16 n *ℤ as_i16 weight))
      λ p _.
        bind-Ends (write c.prob i p) _ (write-Ends c.prob i p)
          λ prob _. scale_weights-Ends total n (i + 1) weights _

pair_columns-Ends : (total : ℤ) (l g : ℕ) (c : Columns) → Ends (pair_columns total l g c)
unfolding pair_columns
pair_columns-Ends total l g c =
    bind-Ends (write c.alias l (as_u16 g)) _ (write-Ends c.alias l _) λ alias _.
      bind-Ends (read_prob c.prob g) _ (read-Ends c.prob g) λ had _.
        bind-Ends (read_prob c.prob l) _ (read-Ends c.prob l) λ filled _.
          bind-Ends (sub_i16 total filled) _ (check_i16-Ends (total -ℤ filled)) λ lacks _.
            bind-Ends (sub_i16 had lacks) _ (check_i16-Ends (had -ℤ lacks)) λ left _.
              bind-Ends (write c.prob g left) _ (write-Ends c.prob g left) λ prob _. λ e. cc

-- A round puts one column back.
pair_columns-lengths :
    (total : ℤ) (l g : ℕ) (c c' : Columns)
    → pair_columns total l g c ≡ ok c'
    → length c'.small + length c'.large ≡ length c.small + length c.large + 1
unfolding pair_columns
pair_columns-lengths total l g c c' e = bind_ok (write c.alias l (as_u16 g)) e λ alias _ e₁.
    bind_ok (read_prob c.prob g) e₁ λ had _ e₂. bind_ok (read_prob c.prob l) e₂ λ filled _ e₃.
      bind_ok (sub_i16 total filled) e₃ λ lacks _ e₄. bind_ok (sub_i16 had lacks) e₄ λ left _ e₅.
        bind_ok (write c.prob g left) e₅ λ prob _ e₆.
          rw (← ok_inj e₆) (classify-lengths total (record c { prob = prob; alias = alias }) g left)

pair_all-Ends :
    (rounds : ℕ) (total : ℤ) (c : Columns) (small large : List ℕ)
    → length small + length large ≤ rounds
    → Ends (pair_all rounds total c small large)
unfolding pair_all
pair_all-Ends rounds total c [] large h = λ e. cc
pair_all-Ends rounds total c (l ∷ small) [] h = λ e. cc
pair_all-Ends zero total c (l ∷ small) (g ∷ large) h = absurd (omega arith)
pair_all-Ends (suc rounds) total c (l ∷ small) (g ∷ large) h =
    let before = record c { small = small; large = large } in
    bind-Ends (pair_columns total l g before) _ (pair_columns-Ends total l g before) λ d paired.
      pair_all-Ends rounds total d d.small d.large
        (omega (arith, pair_columns-lengths total l g before d paired))

fill_columns-Ends :
    (total : ℤ) (stack : List ℕ) (prob : List ℤ) → Ends (fill_columns total stack prob)
unfolding fill_columns
fill_columns-Ends total [] prob = λ e. cc
fill_columns-Ends total (i ∷ stack) prob =
    bind-Ends (write prob i total) _ (write-Ends prob i total)
      λ p _. fill_columns-Ends total stack p

-- The making of the table never runs out of the rounds that the model gives its loop: for all
-- weights it ends, with a table or with a panic.
pub create_alias_table-Ends :
    (weights : List ℕ) (total : ℤ) → Ends (create_alias_table weights total)
unfolding create_alias_table
create_alias_table-Ends weights total =
    bind-Ends (scale_weights total (length weights) 0 weights _) _ (scale_weights-Ends _ _ _ _ _)
      λ scaled _.
        bind-Ends (pair_all _ total scaled scaled.small scaled.large) _
          (pair_all-Ends _ total scaled scaled.small scaled.large (omega arith))
          λ paired _.
            bind-Ends (fill_columns total paired.large paired.prob) _ (fill_columns-Ends _ _ _)
              λ large_filled _.
                bind-Ends (fill_columns total paired.small large_filled) _ (fill_columns-Ends _ _ _)
                  λ filled _. λ e. cc
