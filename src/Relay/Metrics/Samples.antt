-- ===== src/Relay/Metrics/Samples.antt =====
-- The ring of routing times in crates/relay-server/src/metrics.rs, and what its percentiles are.
use native.Mathlib.Nat.{mul-le-mul_left}
use teamview.Prelude.{
  Bool-cases, inl, inr, ℕ, zero, suc, ◌+◌, ◌-◌, ◌≤◌, ◌<◌, ◌≡◌, min, refl, List, [], ◌∷◌, ◌==◌,
  length, take, set, get_or, length-take, arith,
}
use teamview.Prelude.Words.{cast}
use teamview.Relay.Metrics.{
  RouteLatencySamples, no_samples, push, insert_sample, sort_samples, percentile_index, percentile,
}

-- The ring has 64 places, and its counters point into them.
pub record IsRing (s : RouteLatencySamples) : Type 0 where
  pub places : length s.values ≡ 64
  pub filled : s.len ≤ 64
  pub inside : s.next < 64

length-set : (xs : List ℕ) (i v : ℕ) → length (set xs i v) ≡ length xs
length-set [] i v = refl
length-set (x ∷ xs) zero v = refl
length-set (x ∷ xs) (suc i) v = omega (arith, length-set xs i v)

pub no_samples-IsRing : IsRing no_samples
unfolding no_samples
no_samples-IsRing = record { places = refl; filled = omega arith; inside = omega arith }

pub push-IsRing : (s : RouteLatencySamples) (value : ℕ) → IsRing s → IsRing (push s value)
unfolding push
push-IsRing s value r = record {
  places = omega (arith, length-set s.values s.next value, r.places);
  filled = omega arith;
  inside = omega arith;
}

abbrev AscendingFrom : ℕ → List ℕ → Type 0
AscendingFrom lo [] = Unit {0}
AscendingFrom lo (x ∷ xs) = (lo ≤ x) × AscendingFrom x xs

AscendingFrom-mono : (lo hi : ℕ) (xs : List ℕ) → lo ≤ hi → AscendingFrom hi xs → AscendingFrom lo xs
AscendingFrom-mono lo hi [] h a = tt
AscendingFrom-mono lo hi (x ∷ xs) h a = (omega arith, a.1)

insert_sample-AscendingFrom :
    (lo x : ℕ) (xs : List ℕ) → lo ≤ x → AscendingFrom lo xs → AscendingFrom lo (insert_sample x xs)
unfolding insert_sample
insert_sample-AscendingFrom lo x [] h a = (h, tt)
insert_sample-AscendingFrom lo x (y ∷ ys) h a = ground (arith, insert_sample-AscendingFrom y x ys)

sort_samples-AscendingFrom : (xs : List ℕ) → AscendingFrom 0 (sort_samples xs)
unfolding sort_samples
sort_samples-AscendingFrom [] = tt
sort_samples-AscendingFrom (x ∷ xs) =
    insert_sample-AscendingFrom 0 x (sort_samples xs) (omega arith) (sort_samples-AscendingFrom xs)

length-insert_sample : (x : ℕ) (xs : List ℕ) → length (insert_sample x xs) ≡ length xs + 1
unfolding insert_sample
length-insert_sample x [] = refl
length-insert_sample x (y ∷ ys) = ground (arith, length-insert_sample x ys)

length-sort_samples : (xs : List ℕ) → length (sort_samples xs) ≡ length xs
unfolding sort_samples
length-sort_samples [] = refl
length-sort_samples (x ∷ xs) =
    omega (arith, length-insert_sample x (sort_samples xs), length-sort_samples xs)

get_or_above :
    (lo : ℕ) (xs : List ℕ) (j : ℕ) → j < length xs → AscendingFrom lo xs → lo ≤ get_or xs j 0
get_or_above lo [] j h a = absurd (omega arith)
get_or_above lo (x ∷ xs) zero h a = a.0
get_or_above lo (x ∷ xs) (suc j) h a = omega (arith, get_or_above x xs j (omega arith) a.1, a.0)

get_or_mono :
    (lo : ℕ) (xs : List ℕ) (i j : ℕ)
    → i ≤ j
    → j < length xs
    → AscendingFrom lo xs
    → get_or xs i 0 ≤ get_or xs j 0
get_or_mono lo [] i j h l a = absurd (omega arith)
get_or_mono lo (x ∷ xs) zero zero h l a = omega arith
get_or_mono lo (x ∷ xs) zero (suc j) h l a = get_or_above x xs j (omega arith) a.1
get_or_mono lo (x ∷ xs) (suc i) zero h l a = absurd (omega arith)
get_or_mono lo (x ∷ xs) (suc i) (suc j) h l a = get_or_mono x xs i j (omega arith) (omega arith) a.1

percentile_index_mono : (len p q : ℕ) → p ≤ q → percentile_index len p ≤ percentile_index len q
unfolding percentile_index
percentile_index_mono len p q h =
    let less : min p 100 ≤ min q 100 = omega arith in
    omega (arith, mul-le-mul_left (cast 32 (len - 1)) less)

percentile_index_inside : (len p : ℕ) → 0 < len → percentile_index len p < len
unfolding percentile_index
percentile_index_inside len p h = omega arith

-- The samples that `percentile` reads.
sorted_length :
    (s : RouteLatencySamples) → IsRing s → length (sort_samples (take s.len s.values)) ≡ s.len
sorted_length s r = omega (
  arith,
  length-sort_samples (take s.len s.values),
  length-take s.len s.values,
  r.places,
  r.filled,
)

-- On a ring of 64 places whose counters point into it, a higher percentile is no lower; and the
-- index that the percentile reads is inside the samples, where there are any.
pub percentile_mono :
    (s : RouteLatencySamples) (p q : ℕ)
    → IsRing s
    → p ≤ q
    → (percentile s p ≤ percentile s q)
      × (0 < s.len → percentile_index s.len q < length (sort_samples (take s.len s.values)))
unfolding percentile
percentile_mono s p q r h =
    let samples = sort_samples (take s.len s.values) in
    let n = sorted_length s r in
    let inside = λ (some_sample : 0 < s.len). percentile_index_inside s.len q some_sample in
    (
      elim (Bool-cases (s.len == 0)) [
        | inl z ↦ rw (percentile, z) (omega arith)
        | inr z ↦
            let below : percentile_index s.len q < length samples =
              omega (arith, inside (ground (arith, z)), n) in
            rw (percentile, z)
              (get_or_mono 0 samples (percentile_index s.len p) (percentile_index s.len q)
                (percentile_index_mono s.len p q h) below
                (sort_samples-AscendingFrom (take s.len s.values)))
      ],
      λ some_sample. omega (arith, inside some_sample, n),
    )
