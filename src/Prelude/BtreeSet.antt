-- ===== src/Prelude/BtreeSet.antt =====
-- `BTreeSet` of unsigned numbers: a strictly ascending list.
use teamview.Prelude.Tests.{ltb, ◌==◌, if◌then◌else◌}
use teamview.Prelude.Lists.{length}
use Prim.Native.Nat.{ℕ, suc, ◌+◌, ◌≤◌, ◌<◌}
use mathlib.Core.Path.{◌≡◌, refl}
use mathlib.Core.Bool.{Bool, true, false}
use mathlib.Core.List.{List, [], ◌∷◌}
use native.Mathlib.Omega.{arith}

unfoldable pub contains : ℕ → List ℕ → Bool
contains k [] = false
contains k (j ∷ s) = if j == k then true else contains k s

unfoldable pub insert : ℕ → List ℕ → List ℕ
insert k [] = k ∷ []
insert k (j ∷ s) =
    let rest = insert k s in if ltb k j then k ∷ j ∷ s else if j == k then j ∷ s else j ∷ rest

unfoldable pub remove : ℕ → List ℕ → List ℕ
remove k [] = []
remove k (j ∷ s) = let rest = remove k s in if j == k then rest else j ∷ rest

unfoldable pub is_empty : List ℕ → Bool
is_empty [] = true
is_empty (j ∷ s) = false

abbrev pub SortedFrom : ℕ → List ℕ → Type 0
SortedFrom lo [] = Unit {0}
SortedFrom lo (j ∷ s) = (lo ≤ j) × SortedFrom (suc j) s

abbrev pub IsSorted : List ℕ → Type 0
IsSorted s = SortedFrom 0 s

pub contains-insert :
    (q k : ℕ) (s : List ℕ) → contains q (insert k s) ≡ (if k == q then true else contains q s)
unfolding contains insert
contains-insert q k [] = ground arith
contains-insert q k (j ∷ s) = ground (arith, contains-insert q k s)

pub contains-remove :
    (q k : ℕ) (s : List ℕ) → contains q (remove k s) ≡ (if k == q then false else contains q s)
unfolding contains remove
contains-remove q k [] = ground arith
contains-remove q k (j ∷ s) = ground (arith, contains-remove q k s)

pub insert-SortedFrom :
    (lo k : ℕ) (s : List ℕ) → lo ≤ k → SortedFrom lo s → SortedFrom lo (insert k s)
unfolding insert
insert-SortedFrom lo k [] h o = omega arith
insert-SortedFrom lo k (j ∷ s) h o = ground (arith, insert-SortedFrom (suc j) k s)

pub SortedFrom-mono : (lo hi : ℕ) (s : List ℕ) → lo ≤ hi → SortedFrom hi s → SortedFrom lo s
SortedFrom-mono lo hi [] h o = tt
SortedFrom-mono lo hi (j ∷ s) h o = (omega arith, o.1)

pub remove-SortedFrom : (lo k : ℕ) (s : List ℕ) → SortedFrom lo s → SortedFrom lo (remove k s)
unfolding remove
remove-SortedFrom lo k [] o = tt
remove-SortedFrom lo k (j ∷ s) o =
    ground (arith, remove-SortedFrom (suc j) k s, SortedFrom-mono lo (suc j) (remove k s))

pub contains_below : (lo k : ℕ) (s : List ℕ) → SortedFrom lo s → k < lo → contains k s ≡ false
unfolding contains
contains_below lo k [] o h = refl
contains_below lo k (j ∷ s) o h = ground (arith, contains_below (suc j) k s)

pub length-insert :
    (lo k : ℕ) (s : List ℕ)
    → SortedFrom lo s
    → length (insert k s) ≡ (if contains k s then length s else length s + 1)
unfolding insert contains
length-insert lo k [] o = omega arith
length-insert lo k (j ∷ s) o = ground (arith, length-insert (suc j) k s, contains_below (suc j) k s)

pub length-remove-le : (k : ℕ) (s : List ℕ) → length (remove k s) ≤ length s
unfolding remove
length-remove-le k [] = omega arith
length-remove-le k (j ∷ s) = ground (arith, length-remove-le k s)

pub insert-is_empty : (u : ℕ) (users : List ℕ) → is_empty (insert u users) ≡ false
unfolding is_empty insert
insert-is_empty u [] = refl
insert-is_empty u (v ∷ users) = ground arith
