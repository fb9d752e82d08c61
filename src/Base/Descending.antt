-- ===== src/Base/Descending.antt =====
-- Sorting by time leaves the newest first.
use Prim.Native.Nat.{ℕ, suc, zero, ◌≤◌}
use mathlib.Core.Logic.{inl, inr}
use mathlib.Core.List.{List, [], ◌∷◌}
use native.Mathlib.Omega.{arith}
use copytrade_dashboard.Base.Tests.{ltb, Bool-cases}
use copytrade_dashboard.Base.Lists.{All, take}
use copytrade_dashboard.Base.Sorting.{insert_newest, newest_first}

module _ {A : Type 0} (time : A → ℕ) where
  -- No item is newer than one before it.
  unfoldable pub IsNewestFirst : List A → Type 0
  IsNewestFirst [] = Unit
  IsNewestFirst (x ∷ xs) = All (λ y. time y ≤ time x) xs × IsNewestFirst xs

  All-older :
      (c d : A) (xs : List A)
      → time d ≤ time c
      → All (λ y. time y ≤ time d) xs
      → All (λ y. time y ≤ time c) xs
  All-older c d [] h all = tt
  All-older c d (x ∷ xs) h (first, all) = (omega (arith, first, h), All-older c d xs h all)

  All-insert_newest :
      (c d : A) (xs : List A)
      → time c ≤ time d
      → All (λ y. time y ≤ time d) xs
      → All (λ y. time y ≤ time d) (insert_newest time c xs)
  unfolding insert_newest
  All-insert_newest c d [] h all = (h, tt)
  All-insert_newest c d (x ∷ xs) h (first, all) = elim (Bool-cases (ltb (time c) (time x))) [
    | inl e ↦ rw e (first, All-insert_newest c d xs h all)
    | inr e ↦ rw e (h, (first, all))
  ]

  insert_newest-IsNewestFirst :
      (c : A) (xs : List A) → IsNewestFirst xs → IsNewestFirst (insert_newest time c xs)
  unfolding insert_newest IsNewestFirst
  insert_newest-IsNewestFirst c [] s = (tt, tt)
  insert_newest-IsNewestFirst c (x ∷ xs) (older, s) = elim (Bool-cases (ltb (time c) (time x))) [
    | inl e ↦
        rw e
          (All-insert_newest c x xs (ground (arith, e)) older, insert_newest-IsNewestFirst c xs s)
    | inr e ↦
        let before : time x ≤ time c = ground (arith, e) in
        rw e ((before, All-older c x xs before older), (older, s))
  ]

  pub newest_first-IsNewestFirst : (xs : List A) → IsNewestFirst (newest_first time xs)
  unfolding newest_first IsNewestFirst
  newest_first-IsNewestFirst [] = tt
  newest_first-IsNewestFirst (x ∷ xs) =
      insert_newest-IsNewestFirst x (newest_first time xs) (newest_first-IsNewestFirst xs)

  All-take : (P : A → Type 0) (n : ℕ) (xs : List A) → All P xs → All P (take n xs)
  All-take P zero xs all = tt
  All-take P (suc n) [] all = tt
  All-take P (suc n) (x ∷ xs) (first, all) = (first, All-take P n xs all)

  pub take-IsNewestFirst : (n : ℕ) (xs : List A) → IsNewestFirst xs → IsNewestFirst (take n xs)
  unfolding IsNewestFirst
  take-IsNewestFirst zero xs s = tt
  take-IsNewestFirst (suc n) [] s = tt
  take-IsNewestFirst (suc n) (x ∷ xs) (older, s) =
      (All-take (λ y. time y ≤ time x) n xs older, take-IsNewestFirst n xs s)
