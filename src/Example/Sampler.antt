-- ===== src/Example/Sampler.antt =====
-- A concrete sampling: a generator that counts, and sets kept as lists that are sorted when they are read.
use raffle_auction_audited_c.Prelude.{
  ℕ, suc, ◌+◌, ◌%◌, ◌≤◌, ◌<◌, ◌≡◌, refl, ◌⊎◌, inl, inr, List, [], ◌∷◌, arith, ltb, ◌==◌,
  if◌then◌else◌, ltb→lt, Bool-cases, length,
}
use raffle_auction_audited_c.Random.Draw.{Sampling, In, Ascending, IsSampling}

-- Ordered insertion, without duplicates.
abbrev insert : ℕ → List ℕ → List ℕ
insert x [] = x ∷ []
insert x (y ∷ ys) = if ltb x y then x ∷ y ∷ ys else if x == y then y ∷ ys else y ∷ insert x ys

abbrev sorted : List ℕ → List ℕ
sorted [] = []
sorted (x ∷ xs) = insert x (sorted xs)

abbrev next_in : ℕ → ℕ → ℕ × ℕ
next_in n s = (s % n, s + 1)

abbrev pub sampling : Sampling
sampling = record {
  from_seed = λ seed. seed;
  gen_range_usize = next_in;
  gen_range_i32 = next_in;
  BitSet = List ℕ;
  bit_set_new = [];
  bit_set_insert = λ s x. x ∷ s;
  bit_set_len = λ s. length (sorted s);
  bit_set_iter = sorted;
}

insert-Ascending : (lo x : ℕ) (ys : List ℕ) → Ascending lo ys → lo ≤ x → Ascending lo (insert x ys)
insert-Ascending lo x [] a le = (le, tt)
insert-Ascending lo x (y ∷ ys) a le = elim (Bool-cases (ltb x y)) [
  | inl before ↦ rw (before) (le, (ltb→lt x y before, a.1))
  | inr after ↦ elim (Bool-cases (x == y)) [
    | inl same ↦ rw (after, same) a
    | inr other ↦
        let above : y < x = ground arith in
        rw (after, other) (a.0, insert-Ascending (suc y) x ys a.1 above)
  ]
]

sorted-Ascending : (s : List ℕ) → Ascending 0 (sorted s)
sorted-Ascending [] = tt
sorted-Ascending (x ∷ xs) = insert-Ascending 0 x (sorted xs) (sorted-Ascending xs) (omega arith)

In-insert : (x y : ℕ) (ys : List ℕ) → In y (insert x ys) → (y ≡ x) ⊎ In y ys
In-insert x y [] i = i
In-insert x y (z ∷ zs) i = elim (Bool-cases (ltb x z)) [
  | inl before ↦ rw (before) at i
  | inr after ↦ elim (Bool-cases (x == z)) [
    | inl same ↦ inr (rw (after, same) at i)
    | inr other ↦ elim (rw (after, other) at i) [
      | inl first ↦ inr (inl first)
      | inr later ↦ elim (In-insert x y zs later) [
        | inl it ↦ inl it
        | inr deeper ↦ inr (inr deeper)
      ]
    ]
  ]
]

pub sampling-IsSampling : IsSampling sampling
sampling-IsSampling = record {
  range_met = λ n s h. omega arith;
  new_empty = refl;
  iter_ascending = sorted-Ascending;
  len_iter = λ s. refl;
  insert_in = λ s x y i. In-insert x y (sorted s) i;
}
