-- ===== src/Base/Sorting.antt =====
-- `sort((a, b) => time(b) - time(a))`, which is stable, and the items of a `Set`.
use Prim.Native.Nat.{ℕ}
use mathlib.Core.Bool.{not}
use mathlib.Core.List.{List, [], ◌∷◌}
use copytrade_dashboard.Base.Tests.{ltb, ◌==◌, if◌then◌else◌}
use copytrade_dashboard.Base.Lists.{filter}

module _ {A : Type 0} (time : A → ℕ) where
  -- The newest first; items of the same moment keep their order.
  unfoldable pub insert_newest : A → List A → List A
  insert_newest c [] = c ∷ []
  insert_newest c (d ∷ rows) =
      let rest = insert_newest c rows in if ltb (time c) (time d) then d ∷ rest else c ∷ d ∷ rows

  unfoldable pub newest_first : List A → List A
  unfolding insert_newest
  newest_first [] = []
  newest_first (c ∷ rows) = insert_newest c (newest_first rows)

-- `[...new Set(xs)]`: the items in the order of insertion.
unfoldable pub distinct : List ℕ → List ℕ
distinct [] = []
distinct (x ∷ xs) = x ∷ filter (λ y. not (y == x)) (distinct xs)
