-- ===== src/Random/Winners.antt =====
-- What pick_winners of common/random_utils.rs returns.
use raffle_auction_audited_c.Prelude.{
  ℕ, zero, suc, ◌+◌, ◌^◌, ◌≤◌, ◌<◌, ◌≡◌, refl, sym, ap, ◌∙◌, ◌≢◌, ◌⊎◌, inl, inr, Bool, true, false,
  List, [], ◌∷◌, map, arith, ltb, ◌==◌, if◌then◌else◌, ltb→lt, ==_iff, length, get_elem?,
}
use raffle_auction_audited_c.Prelude.Int.{ℤ, pos_part, ltb_ℤ}
use raffle_auction_audited_c.Failures.{
  Failure, require, or_fail, bind_ok, ok_inj, checked_ok, or_fail-some, if_ok, ok,
}
use raffle_auction_audited_c.Failures.Checked.{as_u16, as_i16}
use raffle_auction_audited_c.Random.Draw.{
  Sampling, In, Ascending, IsSampling, get_random_seed, is_positive, sample, draw_winners,
  pick_winners,
}
use raffle_auction_audited_c.Random.Shape.{Below, Below-get, create_alias_table-shape}
use raffle_auction_audited_c.Random.Table.{read_prob, create_alias_table}

-- Strictly ascending elements below a bound are few.
Ascending-few :
    (lo n : ℕ) (xs : List ℕ) → Ascending lo xs → Below n xs → lo ≤ n → length xs + lo ≤ n
Ascending-few lo n [] a b le = omega arith
Ascending-few lo n (x ∷ xs) a b le = omega (arith, Ascending-few (suc x) n xs a.1 b.1 b.0, a.0)

-- Membership below a bound, as a predicate on the list.
Below-all : (n : ℕ) (xs : List ℕ) → ((x : ℕ) → In x xs → x < n) → Below n xs
Below-all n [] h = tt
Below-all n (x ∷ xs) h = (h x (inl refl), Below-all n xs (λ y i. h y (inr i)))

as_u16_same : (n : ℕ) (xs : List ℕ) → Below n xs → n ≤ 2 ^ 16 → map as_u16 xs ≡ xs
as_u16_same n [] b le = refl
as_u16_same n (x ∷ xs) b le =
    let same : as_u16 x ≡ x = omega (arith, b.0) in
    rw (same) (ap (λ (t : List ℕ). x ∷ t) (as_u16_same n xs b.1 le))

picked-Below :
    (n : ℕ) (b : Bool) (i : ℕ) (alias : List ℕ) (picked : ℕ)
    → as_u16 i < n
    → Below n alias
    → (if b then ok (as_u16 i) else or_fail (get_elem? alias i) Failure.index_out_of_bounds)
      ≡ ok picked
    → picked < n
picked-Below n true i alias picked h below e = rw (← ok_inj e) h
picked-Below n false i alias picked h below e = Below-get n alias i below (or_fail-some _ _ e)

In-empty : (x : ℕ) (xs : List ℕ) → xs ≡ [] → In x xs → ⊥
In-empty x [] e i = i
In-empty x (y ∷ ys) e i = cc

require-true : (b : Bool) (f : Failure) → require b f ≡ ok tt → b ≡ true
require-true true f e = refl
require-true false f e = cc

module _ (sp : Sampling) (laws : IsSampling sp) where
  sample-Below :
      (n : ℕ) (prob : List ℤ) (alias : List ℕ) (total : ℤ) (rng : ℕ) (r : ℕ × ℕ)
      → sample sp prob alias total rng ≡ ok r
      → length prob ≡ n
      → Below n alias
      → r.0 < n
  unfolding sample
  sample-Below n prob alias total rng r e len below =
      let i = (sp.gen_range_usize (length prob) rng).0 in
      bind_ok (require (ltb 0 (length prob)) Failure.empty_range) e λ _ some_columns e₁.
        bind_ok (require (is_positive total) Failure.empty_range) e₁ λ _ _ e₂.
          bind_ok (read_prob prob i) e₂ λ threshold _ e₃.
            let point =
              sp.gen_range_i32 (pos_part total) (sp.gen_range_usize (length prob) rng).1 in
            bind_ok
              (if ltb_ℤ (as_i16 point.0) threshold
                then ok (as_u16 i)
                else or_fail (get_elem? alias i) Failure.index_out_of_bounds)
              e₃
              λ picked chosen e₄.
                let met : i < length prob =
                  laws.range_met (length prob) rng (ltb→lt _ _ (require-true _ _ some_columns)) in
                rw (← ap (λ (x : ℕ × ℕ). x.0) (ok_inj e₄))
                  (picked-Below n _ i alias picked (omega (arith, met, len)) below chosen)

  inserted_below :
      (n : ℕ) (winners : sp.BitSet) (drawn : ℕ)
      → ((x : ℕ) → In x (sp.bit_set_iter winners) → x < n)
      → drawn < n
      → (x : ℕ) → (x ≡ drawn) ⊎ In x (sp.bit_set_iter winners)
      → x < n
  inserted_below n winners drawn inside h x (inl same) = omega arith
  inserted_below n winners drawn inside h x (inr i) = inside x i

  none_inside : {n : ℕ} (x : ℕ) → In x (sp.bit_set_iter sp.bit_set_new) → x < n
  none_inside {n} x i = absurd (In-empty x (sp.bit_set_iter sp.bit_set_new) laws.new_empty i)

  draw_winners-Below :
      (n budget : ℕ) (prob : List ℤ) (alias : List ℕ) (total : ℤ) (max_num : ℕ)
      (winners : sp.BitSet) (rng : ℕ) (set' : sp.BitSet)
      → draw_winners sp budget prob alias total max_num winners rng ≡ ok set'
      → length prob ≡ n
      → Below n alias
      → ((x : ℕ) → In x (sp.bit_set_iter winners) → x < n)
      → (sp.bit_set_len set' ≡ max_num) × ((x : ℕ) → In x (sp.bit_set_iter set') → x < n)
  unfolding draw_winners
  draw_winners-Below n zero prob alias total max_num winners rng set' e len below inside =
      let (done, same) = checked_ok (sp.bit_set_len winners == max_num) _ e in
      rw (same) ((==_iff _ _).0 done, inside)
  draw_winners-Below n (suc budget) prob alias total max_num winners rng set' e len below inside =
      elim (if_ok (sp.bit_set_len winners == max_num) _ _ e) [
        | inl (done, same) ↦ rw (← ok_inj same) ((==_iff _ _).0 done, inside)
        | inr (_, next) ↦ bind_ok (sample sp prob alias total rng) next λ drawn sampled e₁.
            draw_winners-Below n budget prob alias total max_num (sp.bit_set_insert winners drawn.0)
              drawn.1 set' e₁ len below
              (λ x i.
                inserted_below n winners drawn.0 inside
                  (sample-Below n prob alias total rng drawn sampled len below) x
                  (laws.insert_in winners drawn.0 x i))
      ]

  -- For a sampling with its documented behaviour and at most 2^16 ticket positions, the winners
  -- that a draw returns are as many as asked for, all different, in ascending order, and ticket
  -- positions of the raffle.
  pub pick_winners_distinct :
      (budget slot : ℕ) (weights : List ℕ) (total_weight max_num : ℕ) (now : ℤ) (winners : List ℕ)
      → pick_winners sp budget slot weights total_weight max_num now ≡ ok winners
      → length weights ≤ 2 ^ 16
      → (length winners ≡ max_num) × Ascending 0 winners × Below (length weights) winners
  unfolding pick_winners
  pick_winners_distinct budget slot weights total_weight max_num now winners e le =
      let n = length weights in
      let total = as_i16 total_weight in
      bind_ok (get_random_seed slot now) e λ seed _ e₁.
        bind_ok (create_alias_table weights total) e₁ λ table made e₂.
          bind_ok
            (draw_winners sp budget table.0 table.1 total max_num sp.bit_set_new
              (sp.from_seed seed))
            e₂
            λ set' drawn e₃.
              let (columns, _, below) =
                create_alias_table-shape weights total table.0 table.1 made in
              let (count, inside) =
                draw_winners-Below n budget table.0 table.1 total max_num sp.bit_set_new
                  (sp.from_seed seed) set' drawn columns below none_inside in
              let all_below = Below-all n (sp.bit_set_iter set') inside in
              let same : winners ≡ sp.bit_set_iter set' =
                sym (ok_inj e₃) ∙ as_u16_same n (sp.bit_set_iter set') all_below le in
              rw (same) (sym (laws.len_iter set') ∙ count, laws.iter_ascending set', all_below)

  -- For a sampling with its documented behaviour and at most 2^16 ticket positions, no draw of
  -- more winners than ticket positions returns any, whatever the budget.
  pub pick_winners_starves :
      (budget slot : ℕ) (weights : List ℕ) (total_weight max_num : ℕ) (now : ℤ) (winners : List ℕ)
      → length weights < max_num
      → length weights ≤ 2 ^ 16
      → pick_winners sp budget slot weights total_weight max_num now ≢ ok winners
  pick_winners_starves budget slot weights total_weight max_num now winners few le = λ e.
      let (count, ascending, below) =
        pick_winners_distinct budget slot weights total_weight max_num now winners e le in
      omega (arith, Ascending-few 0 (length weights) winners ascending below (omega arith))
