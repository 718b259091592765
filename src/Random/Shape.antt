-- ===== src/Random/Shape.antt =====
-- The shape of the alias table of common/random_utils.rs: a column for every weight, and only columns
-- as aliases.
use raffle_auction_audited_c.Prelude.{
  ℕ, zero, suc, ◌+◌, ◌<◌, ◌≡◌, refl, sym, ap, ◌∙◌, inl, inr, some, List, [], ◌∷◌, arith, ltb,
  ltb→lt, Bool-cases, length, get_elem?, set, replicate, length-set, All,
}
use raffle_auction_audited_c.Prelude.Int.{ℤ, ltb_ℤ, pos}
use raffle_auction_audited_c.Failures.{bind_ok, ok_inj, checked_ok, ok}
use raffle_auction_audited_c.Failures.Checked.{as_u16, as_i16, mul_i16, sub_i16}
use raffle_auction_audited_c.Random.Table.{
  Columns, read_prob, write, classify, scale_weights, pair_columns, pair_all, fill_columns,
  create_alias_table,
}

abbrev pub Below : ℕ → List ℕ → Type 0
Below n xs = All (λ (x : ℕ). x < n) xs

-- `n` columns, and indices of columns on the stacks and in the aliases.
pub record IsShaped (n : ℕ) (c : Columns) : Type 0 where
  pub prob_length : length c.prob ≡ n
  pub alias_length : length c.alias ≡ n
  pub alias_below : Below n c.alias
  pub small_below : Below n c.small
  pub large_below : Below n c.large

Below-set : (n : ℕ) (xs : List ℕ) (i v : ℕ) → Below n xs → v < n → Below n (set xs i v)
Below-set n [] i v h l = tt
Below-set n (x ∷ xs) zero v h l = (l, h.1)
Below-set n (x ∷ xs) (suc i) v h l = (h.0, Below-set n xs i v h.1 l)

Below-replicate : (n k : ℕ) → 0 < n → Below n (replicate k 0)
Below-replicate n zero h = tt
Below-replicate n (suc k) h = (h, Below-replicate n k h)

pub Below-get : (n : ℕ) (xs : List ℕ) (i : ℕ) {v : ℕ} → Below n xs → get_elem? xs i ≡ some v → v < n
Below-get n [] i h e = cc
Below-get n (x ∷ xs) zero h e = ground (arith, h.0)
Below-get n (x ∷ xs) (suc i) h e = Below-get n xs i h.1 e

length-replicate {ℓ} : {A : Type ℓ} (k : ℕ) (v : A) → length (replicate k v) ≡ k
length-replicate zero v = refl
length-replicate (suc k) v = ap suc (length-replicate k v)

as_u16_below : (i n : ℕ) → i < n → as_u16 i < n
as_u16_below i n h = omega arith

write_data {ℓ} :
    {A : Type ℓ} (xs ys : List A) (i : ℕ) (v : A)
    → write xs i v ≡ ok ys
    → (ys ≡ set xs i v) × (i < length xs)
write_data xs ys i v e =
    let (fits, same) = checked_ok (ltb i (length xs)) _ e in (same, ltb→lt _ _ fits)

classify-IsShaped :
    (n : ℕ) (total : ℤ) (c : Columns) (i : ℕ) (p : ℤ)
    → IsShaped n c
    → i < n
    → IsShaped n (classify total c i p)
unfolding classify
classify-IsShaped n total c i p w h = elim (Bool-cases (ltb_ℤ p total)) [
  | inl lacks ↦ rw (lacks) (record {
    prob_length = w.prob_length;
    alias_length = w.alias_length;
    alias_below = w.alias_below;
    small_below = (as_u16_below i n h, w.small_below);
    large_below = w.large_below;
  })
  | inr full ↦ rw (full) (record {
    prob_length = w.prob_length;
    alias_length = w.alias_length;
    alias_below = w.alias_below;
    small_below = w.small_below;
    large_below = (as_u16_below i n h, w.large_below);
  })
]

scale_weights-IsShaped :
    (n : ℕ) (total : ℤ) (i : ℕ) (weights : List ℕ) (c c' : Columns)
    → scale_weights total n i weights c ≡ ok c'
    → IsShaped n c
    → IsShaped n c'
unfolding scale_weights
scale_weights-IsShaped n total i [] c c' e w = rw (← ok_inj e) w
scale_weights-IsShaped n total i (weight ∷ weights) c c' e w =
    bind_ok (mul_i16 (as_i16 n) (as_i16 weight)) e λ p _ e₁.
      bind_ok (write c.prob i p) e₁ λ prob written e₂.
        let (set_is, fits) = write_data c.prob prob i p written in
        scale_weights-IsShaped n total (i + 1) weights _ c' e₂ (
          classify-IsShaped n total (record c { prob = prob }) i p
            (record {
              prob_length = rw (set_is) (length-set c.prob i p ∙ w.prob_length);
              alias_length = w.alias_length;
              alias_below = w.alias_below;
              small_below = w.small_below;
              large_below = w.large_below;
            })
            (omega (arith, fits, w.prob_length)))

pair_columns-IsShaped :
    (n : ℕ) (total : ℤ) (l g : ℕ) (c c' : Columns)
    → pair_columns total l g c ≡ ok c'
    → IsShaped n c
    → g < n
    → IsShaped n c'
unfolding pair_columns
pair_columns-IsShaped n total l g c c' e w h =
    bind_ok (write c.alias l (as_u16 g)) e λ alias aliased e₁.
      bind_ok (read_prob c.prob g) e₁ λ had _ e₂. bind_ok (read_prob c.prob l) e₂ λ filled _ e₃.
        bind_ok (sub_i16 total filled) e₃ λ lacks _ e₄. bind_ok (sub_i16 had lacks) e₄ λ left _ e₅.
          bind_ok (write c.prob g left) e₅ λ prob written e₆.
            let (alias_is, _) = write_data c.alias alias l (as_u16 g) aliased in
            let (prob_is, _) = write_data c.prob prob g left written in
            rw (← ok_inj e₆) (
              classify-IsShaped n total (record c { prob = prob; alias = alias }) g left
                (record {
                  prob_length = rw (prob_is) (length-set c.prob g left ∙ w.prob_length);
                  alias_length = rw (alias_is) (length-set c.alias l (as_u16 g) ∙ w.alias_length);
                  alias_below =
                      rw (alias_is)
                        (Below-set n c.alias l (as_u16 g) w.alias_below (as_u16_below g n h));
                  small_below = w.small_below;
                  large_below = w.large_below;
                })
                h)

pair_all-IsShaped :
    (n rounds : ℕ) (total : ℤ) (c c' : Columns) (small large : List ℕ)
    → pair_all rounds total c small large ≡ ok c'
    → IsShaped n c
    → Below n small
    → Below n large
    → IsShaped n c'
unfolding pair_all
pair_all-IsShaped n rounds total c c' [] large e w s l = rw (← ok_inj e) w
pair_all-IsShaped n rounds total c c' (x ∷ small) [] e w s l = rw (← ok_inj e) w
pair_all-IsShaped n zero total c c' (x ∷ small) (g ∷ large) e w s l = cc
pair_all-IsShaped n (suc rounds) total c c' (x ∷ small) (g ∷ large) e w s l =
    bind_ok (pair_columns total x g (record c { small = small; large = large })) e λ d paired e₁.
      let v =
        pair_columns-IsShaped n total x g (record c { small = small; large = large }) d paired
          (record {
            prob_length = w.prob_length;
            alias_length = w.alias_length;
            alias_below = w.alias_below;
            small_below = s.1;
            large_below = l.1;
          })
          l.0 in
      pair_all-IsShaped n rounds total d c' d.small d.large e₁ v v.small_below v.large_below

fill_columns-length :
    (total : ℤ) (stack : List ℕ) (prob prob' : List ℤ)
    → fill_columns total stack prob ≡ ok prob'
    → length prob' ≡ length prob
unfolding fill_columns
fill_columns-length total [] prob prob' e = ap length (sym (ok_inj e))
fill_columns-length total (i ∷ stack) prob prob' e = bind_ok (write prob i total) e λ p written e₁.
    let (set_is, _) = write_data prob p i total written in
    fill_columns-length total stack p prob' e₁ ∙ ap length set_is ∙ length-set prob i total

initial-IsShaped :
    (weights : List ℕ)
    → IsShaped (length weights) (record {
      prob = replicate (length weights) (pos 0);
      alias = replicate (length weights) 0;
      small = [];
      large = [];
    })
initial-IsShaped [] = record {
  prob_length = refl;
  alias_length = refl;
  alias_below = tt;
  small_below = tt;
  large_below = tt;
}
initial-IsShaped (x ∷ xs) = record {
  prob_length = ap suc (length-replicate (length xs) (pos 0));
  alias_length = ap suc (length-replicate (length xs) 0);
  alias_below = Below-replicate (length (x ∷ xs)) (length (x ∷ xs)) (omega arith);
  small_below = tt;
  large_below = tt;
}

-- A table that is made has a probability and an alias for every weight, and every alias is an
-- index of a weight.
pub create_alias_table-shape :
    (weights : List ℕ) (total : ℤ) (prob : List ℤ) (alias : List ℕ)
    → create_alias_table weights total ≡ ok (prob, alias)
    → (length prob ≡ length weights)
      × (length alias ≡ length weights)
      × Below (length weights) alias
unfolding create_alias_table
create_alias_table-shape weights total prob alias e =
    let n = length weights in
    bind_ok
      (scale_weights total n 0 weights
        (record { prob = replicate n (pos 0); alias = replicate n 0; small = []; large = [] }))
      e
      λ scaled scales e₁.
        bind_ok
          (pair_all (length scaled.small + length scaled.large) total scaled scaled.small
            scaled.large)
          e₁
          λ paired pairs e₂.
            bind_ok (fill_columns total paired.large paired.prob) e₂ λ large_filled fills e₃.
              bind_ok (fill_columns total paired.small large_filled) e₃ λ filled fills' e₄.
                let v =
                  scale_weights-IsShaped n total 0 weights _ scaled scales
                    (initial-IsShaped weights) in
                let w =
                  pair_all-IsShaped n _ total scaled paired scaled.small scaled.large pairs v
                    v.small_below v.large_below in
                let prob_is : filled ≡ prob = ap (λ (x : List ℤ × List ℕ). x.0) (ok_inj e₄) in
                let alias_is : paired.alias ≡ alias =
                  ap (λ (x : List ℤ × List ℕ). x.1) (ok_inj e₄) in
                (
                  rw (← prob_is) (
                      fill_columns-length total paired.small large_filled filled fills'
                      ∙ fill_columns-length total paired.large paired.prob large_filled fills
                      ∙ w.prob_length),
                  rw (← alias_is) w.alias_length,
                  rw (← alias_is) w.alias_below,
                )
