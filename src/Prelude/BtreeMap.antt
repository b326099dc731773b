-- ===== src/Prelude/BtreeMap.antt =====
-- `BTreeMap` with unsigned keys: an association list in ascending order of its keys, which is the
-- order in which the program iterates.
use teamview.Prelude.Tests.{ltb, ◌==◌, if◌then◌else◌}
use teamview.Prelude.Lists.{length}
use teamview.Prelude.BtreeSet
use Prim.Native.Nat.{ℕ, suc, ◌+◌, ◌≤◌, ◌<◌}
use mathlib.Core.Path.{◌≡◌, refl}
use mathlib.Core.Bool.{Bool, true, false}
use mathlib.Core.Option.{Option, none, some}
use mathlib.Core.List.{List, [], ◌∷◌}
use native.Mathlib.Omega.{arith}

abbrev pub Map {ℓ} : Type ℓ → Type ℓ
Map V = List (ℕ × V)

module _ {ℓ} {V : Type ℓ} where
  unfoldable pub lookup : ℕ → Map V → Option V
  lookup k [] = none
  lookup k ((j, v) ∷ m) = if j == k then some v else lookup k m

  unfoldable pub contains_key : ℕ → Map V → Bool
  contains_key k m = elim (lookup k m) [ some v ↦ true | none ↦ false ]

  unfoldable pub insert : ℕ → V → Map V → Map V
  insert k v [] = (k, v) ∷ []
  insert k v ((j, w) ∷ m) =
      let rest = insert k v m in
      if ltb k j then (k, v) ∷ (j, w) ∷ m else if j == k then (k, v) ∷ m else (j, w) ∷ rest

  unfoldable pub remove : ℕ → Map V → Map V
  remove k [] = []
  remove k ((j, w) ∷ m) = let rest = remove k m in if j == k then rest else (j, w) ∷ rest

  unfoldable pub is_empty : Map V → Bool
  is_empty [] = true
  is_empty (e ∷ m) = false

  -- `entry(k).or_default()` and `get(k).copied().unwrap_or_default()`: the value, or a default.
  unfoldable pub get_or : ℕ → V → Map V → V
  get_or k d m = elim (lookup k m) [ some v ↦ v | none ↦ d ]

  unfoldable pub values : Map V → List V
  values [] = []
  values ((j, w) ∷ m) = w ∷ values m

  -- `retain` with a test that reads the key and the value.
  unfoldable pub retain : (ℕ → V → Bool) → Map V → Map V
  retain p [] = []
  retain p ((j, w) ∷ m) = let rest = retain p m in if p j w then (j, w) ∷ rest else rest

  -- The keys of the entries that pass, in order.
  unfoldable pub keys_where : (ℕ → V → Bool) → Map V → List ℕ
  keys_where p [] = []
  keys_where p ((j, w) ∷ m) = let rest = keys_where p m in if p j w then j ∷ rest else rest

  -- `values_mut`: every value is replaced.
  unfoldable pub map_values : (V → V) → Map V → Map V
  map_values f [] = []
  map_values f ((j, w) ∷ m) = (j, f w) ∷ map_values f m

  -- Keys ascend from `lo`.
  abbrev pub SortedFrom : ℕ → Map V → Type 0
  SortedFrom lo [] = Unit {0}
  SortedFrom lo ((j, w) ∷ m) = (lo ≤ j) × SortedFrom (suc j) m

  abbrev pub IsSorted : Map V → Type 0
  IsSorted m = SortedFrom 0 m

  -- What holds of every entry.
  abbrev pub Forall {κ} : (ℕ → V → Type κ) → Map V → Type (ℓ ⊔ κ)
  Forall P m = (k : ℕ) (v : V) → lookup k m ≡ some v → P k v

  pub lookup-insert :
      (q k : ℕ) (v : V) (m : Map V)
      → lookup q (insert k v m) ≡ (if k == q then some v else lookup q m)
  unfolding lookup insert
  lookup-insert q k v [] = ground arith
  lookup-insert q k v ((j, w) ∷ m) = ground (arith, lookup-insert q k v m)

  pub lookup-remove :
      (q k : ℕ) (m : Map V) → lookup q (remove k m) ≡ (if k == q then none else lookup q m)
  unfolding lookup remove
  lookup-remove q k [] = ground arith
  lookup-remove q k ((j, w) ∷ m) = ground (arith, lookup-remove q k m)

  pub insert-SortedFrom :
      (lo k : ℕ) (v : V) (m : Map V) → lo ≤ k → SortedFrom lo m → SortedFrom lo (insert k v m)
  unfolding insert
  insert-SortedFrom lo k v [] h s = omega arith
  insert-SortedFrom lo k v ((j, w) ∷ m) h s = ground (arith, insert-SortedFrom (suc j) k v m)

  pub SortedFrom-mono : (lo hi : ℕ) (m : Map V) → lo ≤ hi → SortedFrom hi m → SortedFrom lo m
  SortedFrom-mono lo hi [] h s = tt
  SortedFrom-mono lo hi ((j, w) ∷ m) h s = (omega arith, s.1)

  pub remove-SortedFrom : (lo k : ℕ) (m : Map V) → SortedFrom lo m → SortedFrom lo (remove k m)
  unfolding remove
  remove-SortedFrom lo k [] s = tt
  remove-SortedFrom lo k ((j, w) ∷ m) s =
      ground (arith, remove-SortedFrom (suc j) k m, SortedFrom-mono lo (suc j) (remove k m))

  pub retain-SortedFrom :
      (lo : ℕ) (p : ℕ → V → Bool) (m : Map V) → SortedFrom lo m → SortedFrom lo (retain p m)
  unfolding retain
  retain-SortedFrom lo p [] s = tt
  retain-SortedFrom lo p ((j, w) ∷ m) s =
      ground (arith, retain-SortedFrom (suc j) p m, SortedFrom-mono lo (suc j) (retain p m))

  pub map_values-SortedFrom :
      (lo : ℕ) (f : V → V) (m : Map V) → SortedFrom lo m → SortedFrom lo (map_values f m)
  unfolding map_values
  map_values-SortedFrom lo f [] s = tt
  map_values-SortedFrom lo f ((j, w) ∷ m) s = (s.0, map_values-SortedFrom (suc j) f m s.1)

  -- Below the first key there is nothing.
  pub lookup_below : (lo k : ℕ) (m : Map V) → SortedFrom lo m → k < lo → lookup k m ≡ none
  unfolding lookup
  lookup_below lo k [] s h = refl
  lookup_below lo k ((j, w) ∷ m) s h = ground (arith, lookup_below (suc j) k m)

  pub length-insert :
      (lo k : ℕ) (v : V) (m : Map V)
      → SortedFrom lo m
      → length (insert k v m) ≡ (if contains_key k m then length m else length m + 1)
  unfolding insert contains_key lookup
  length-insert lo k v [] s = omega arith
  length-insert lo k v ((j, w) ∷ m) s =
      ground (arith, length-insert (suc j) k v m, lookup_below (suc j) k m)

  pub length-remove-le : (k : ℕ) (m : Map V) → length (remove k m) ≤ length m
  unfolding remove
  length-remove-le k [] = omega arith
  length-remove-le k ((j, w) ∷ m) = ground (arith, length-remove-le k m)

  pub lookup-map_values :
      (q : ℕ) (f : V → V) (m : Map V)
      → lookup q (map_values f m) ≡ elim (lookup q m) [ some v ↦ some (f v) | none ↦ none ]
  unfolding lookup map_values
  lookup-map_values q f [] = refl
  lookup-map_values q f ((j, w) ∷ m) = ground (arith, lookup-map_values q f m)

  pub lookup-retain :
      (lo q : ℕ) (p : ℕ → V → Bool) (m : Map V)
      → SortedFrom lo m
      → lookup q (retain p m)
        ≡ elim (lookup q m) [ some v ↦ if p q v then some v else none | none ↦ none ]
  unfolding lookup retain
  lookup-retain lo q p [] s = refl
  lookup-retain lo q p ((j, w) ∷ m) s =
      let ih = lookup-retain (suc j) q p m s.1 in
      let above : j ≡ q → lookup q m ≡ none = λ e. lookup_below (suc j) q m s.1 (omega arith) in
      ground (arith, ih, above)

  -- The keys that pass are those of the entries that pass.
  pub contains-keys_where :
      (lo q : ℕ) (p : ℕ → V → Bool) (m : Map V)
      → SortedFrom lo m
      → BtreeSet.contains q (keys_where p m) ≡ elim (lookup q m) [ some v ↦ p q v | none ↦ false ]
  unfolding lookup keys_where BtreeSet.contains
  contains-keys_where lo q p [] s = refl
  contains-keys_where lo q p ((j, w) ∷ m) s =
      let ih = contains-keys_where (suc j) q p m s.1 in
      let above : j ≡ q → lookup q m ≡ none = λ e. lookup_below (suc j) q m s.1 (omega arith) in
      ground (arith, ih, above)

module _ {ℓ κ} {V : Type ℓ} (P : ℕ → V → Type κ) where
  pub Forall-insert : (k : ℕ) (v : V) (m : Map V) → P k v → Forall P m → Forall P (insert k v m)
  Forall-insert k v m h all q w e = ground (arith, lookup-insert q k v m, all q w)

  pub Forall-remove : (k : ℕ) (m : Map V) → Forall P m → Forall P (remove k m)
  Forall-remove k m all q w e = ground (arith, lookup-remove q k m, all q w)

  pub Forall-cons : (k : ℕ) (v : V) (m : Map V) → P k v → Forall P m → Forall P ((k, v) ∷ m)
  unfolding lookup
  Forall-cons k v m h all q w e = ground (arith, all q w)

  pub Forall-tail :
      (lo k : ℕ) (v : V) (m : Map V)
      → SortedFrom lo ((k, v) ∷ m)
      → Forall P ((k, v) ∷ m)
      → Forall P m
  unfolding lookup
  Forall-tail lo k v m s all q w e =
      let above : q < suc k → lookup q m ≡ none = lookup_below (suc k) q m s.1 in
      all q w (ground (arith, above))
