-- ===== src/MetaApi/Grouped.antt =====
-- `groupDealsIntoTrades` against a description of each trade on its own: the deals of its position.
use copytrade_dashboard.Base.{
  ℕ, ◌≡◌, refl, ap, Bool, true, false, not, ◌||◌, Option, none, some, List, [], ◌∷◌, ◌++◌, filter,
  map, take, ◌==◌, if◌then◌else◌, arith, ==_iff, Bool-cases, Option-cases, inl, inr, ◌∙◌, sym,
}
use mathlib.Core.List.{append-nil, append_assoc}
use copytrade_dashboard.Base.Sorting.{newest_first, distinct}
use copytrade_dashboard.Base.Descending.{
  IsNewestFirst, take-IsNewestFirst, newest_first-IsNewestFirst,
}
use copytrade_dashboard.Types.{AccountTrade}
use copytrade_dashboard.MetaApi.Sdk.{Deal}
use copytrade_dashboard.MetaApi.Deals.{
  position_of, add_to, add_deal, group_from, trade_of_group, collect, group_deals_into_trades,
}

abbrev is_position : ℕ → Option ℕ → Bool
is_position id none = false
is_position id (some k) = k == id

abbrev pub belongs : ℕ → Deal → Bool
belongs id d = is_position id (position_of d)

abbrev with_position : Option ℕ → List ℕ → List ℕ
with_position none ids = ids
with_position (some id) ids = id ∷ ids

-- The positions of the deals, in order.
unfoldable pub positions : List Deal → List ℕ
positions [] = []
positions (d ∷ ds) = with_position (position_of d) (positions ds)

unfoldable has : ℕ → List (ℕ × List Deal) → Bool
has id [] = false
has id ((k, group) ∷ m) = k == id || has id m

unfoldable Unique : List (ℕ × List Deal) → Type 0
unfolding has
Unique [] = Unit
Unique ((k, group) ∷ m) = (has k m ≡ false) × Unique m

-- The groups with the deals that are still to come.
unfoldable extended : List Deal → List (ℕ × List Deal) → List (ℕ × List Deal)
extended ds [] = []
extended ds ((k, group) ∷ m) = (k, group ++ filter (belongs k) ds) ∷ extended ds m

-- The groups of the positions that are not in the map.
unfoldable fresh : List (ℕ × List Deal) → List Deal → List ℕ → List (ℕ × List Deal)
unfolding has
fresh m ds [] = []
fresh m ds (id ∷ ids) =
    let rest = fresh m ds ids in if has id m then rest else (id, filter (belongs id) ds) ∷ rest

has-add_to :
    (k id : ℕ) (d : Deal) (m : List (ℕ × List Deal)) → has k (add_to id d m) ≡ (has k m || id == k)
unfolding has add_to
has-add_to k id d [] = ground arith
has-add_to k id d ((j, group) ∷ m) = ground (arith, has-add_to k id d m)

add_to-Unique : (id : ℕ) (d : Deal) (m : List (ℕ × List Deal)) → Unique m → Unique (add_to id d m)
unfolding has add_to Unique
add_to-Unique id d [] u = (refl, tt)
add_to-Unique id d ((k, group) ∷ m) (new, u) = elim (Bool-cases (k == id)) [
  | inl e ↦ rw e (new, u)
  | inr e ↦ rw e (ground (arith, has-add_to k id d m, new, e), add_to-Unique id d m u)
]

-- A deal of a position.
module _ (id : ℕ) (d : Deal) (at : position_of d ≡ some id) where
  belongs_lem : (k : ℕ) → belongs k d ≡ (id == k)
  belongs_lem k = rw at refl

  -- A deal does not show in the groups of other positions.
  extended-skip :
      (ds : List Deal) (m : List (ℕ × List Deal))
      → has id m ≡ false
      → extended (d ∷ ds) m ≡ extended ds m
  unfolding has extended
  extended-skip ds [] absent = refl
  extended-skip ds ((k, group) ∷ m) absent =
      let other : belongs k d ≡ false = ground (arith, belongs_lem k, absent) in
      rw (other, extended-skip ds m (ground (arith, absent))) refl

  extended-add_to :
      (ds : List Deal) (m : List (ℕ × List Deal))
      → Unique m
      → extended ds (add_to id d m)
        ≡ (extended (d ∷ ds) m ++ (if has id m then [] else (id, d ∷ filter (belongs id) ds) ∷ []))
  unfolding has extended add_to Unique
  extended-add_to ds [] u = refl
  extended-add_to ds ((k, group) ∷ m) (new, u) = elim (Bool-cases (k == id)) [
    | inl e ↦
        let mine : belongs k d ≡ true = ground (arith, belongs_lem k, e) in
        let same : k ≡ id = (==_iff k id).0 e in
        let absent : has id m ≡ false = rw (sym same) new in
        rw
          (
            e,
            mine,
            extended-skip ds m absent,
            append_assoc group (d ∷ []) (filter (belongs k) ds),
            append-nil (extended ds m),
          )
          refl
    | inr e ↦
        let other : belongs k d ≡ false = ground (arith, belongs_lem k, e) in
        rw (e, other) (ap (λ r. (k, group ++ filter (belongs k) ds) ∷ r) (extended-add_to ds m u))
  ]

  fresh-add_to :
      (ds : List Deal) (m : List (ℕ × List Deal)) (ids : List ℕ)
      → fresh m (d ∷ ds) (filter (λ y. not (y == id)) ids) ≡ fresh (add_to id d m) ds ids
  unfolding fresh
  fresh-add_to ds m [] = refl
  fresh-add_to ds m (y ∷ ids) = elim (Bool-cases (y == id)) [
    | inl e ↦
        let there : has y (add_to id d m) ≡ true = ground (arith, has-add_to y id d m, e) in
        rw (e, there) (fresh-add_to ds m ids)
    | inr e ↦
        let kept : has y (add_to id d m) ≡ has y m = ground (arith, has-add_to y id d m, e) in
        let other : belongs y d ≡ false = ground (arith, belongs_lem y, e) in
        rw (e, kept, other, fresh-add_to ds m ids) refl
  ]

  fresh-distinct :
      (ds : List Deal) (m : List (ℕ × List Deal)) (ids : List ℕ)
      → fresh m (d ∷ ds) (distinct (id ∷ ids)) ≡ (
          (if has id m then [] else (id, d ∷ filter (belongs id) ds) ∷ [])
          ++ fresh (add_to id d m) ds (distinct ids))
  unfolding fresh distinct
  fresh-distinct ds m ids =
      let mine : belongs id d ≡ true = ground (arith, belongs_lem id) in
      elim (Bool-cases (has id m)) [
        | inl e ↦ rw e (fresh-add_to ds m (distinct ids))
        | inr e ↦
            rw (e, mine)
              (ap (λ r. (id, d ∷ filter (belongs id) ds) ∷ r) (fresh-add_to ds m (distinct ids)))
      ]

extended-none :
    (d : Deal) (ds : List Deal) (m : List (ℕ × List Deal))
    → position_of d ≡ none
    → extended (d ∷ ds) m ≡ extended ds m
unfolding extended
extended-none d ds [] h = refl
extended-none d ds ((k, group) ∷ m) h = rw (h, extended-none d ds m h) refl

fresh-none :
    (d : Deal) (ds : List Deal) (m : List (ℕ × List Deal)) (ids : List ℕ)
    → position_of d ≡ none
    → fresh m (d ∷ ds) ids ≡ fresh m ds ids
unfolding fresh
fresh-none d ds m [] h = refl
fresh-none d ds m (y ∷ ids) h = rw (h, fresh-none d ds m ids h) refl

extended-empty : (m : List (ℕ × List Deal)) → extended [] m ≡ m
unfolding extended
extended-empty [] = refl
extended-empty ((k, group) ∷ m) = rw (append-nil group, extended-empty m) refl

-- Going through the deals adds those of each position to its group.
group_from_lem :
    (m : List (ℕ × List Deal)) (ds : List Deal)
    → Unique m
    → group_from m ds ≡ extended ds m ++ fresh m ds (distinct (positions ds))
unfolding group_from positions distinct fresh add_deal
group_from_lem m [] u = rw (extended-empty m, append-nil m) refl
group_from_lem m (d ∷ ds) u = elim (Option-cases (position_of d)) [
  | inl e ↦
      rw (e, extended-none d ds m e, fresh-none d ds m (distinct (positions ds)) e)
        (group_from_lem m ds u)
  | inr (id, e) ↦
      rw
        (
          e,
          group_from_lem (add_to id d m) ds (add_to-Unique id d m u),
          extended-add_to id d e ds m u,
          fresh-distinct id d e ds m (positions ds),
        )
        (append_assoc (extended (d ∷ ds) m) _ _)
]

fresh_all :
    (ds : List Deal) (ids : List ℕ) → fresh [] ds ids ≡ map (λ id. (id, filter (belongs id) ds)) ids
unfolding fresh has
fresh_all ds [] = refl
fresh_all ds (y ∷ ids) = ap (λ r. (y, filter (belongs y) ds) ∷ r) (fresh_all ds ids)

collect-map :
    {A B : Type 0} (f : B → Option AccountTrade) (g : A → B) (xs : List A)
    → collect f (map g xs) ≡ collect (λ x. f (g x)) xs
unfolding collect
collect-map f g [] = refl
collect-map f g (x ∷ xs) = elim (Option-cases (f (g x))) [
  | inl e ↦ rw e (collect-map f g xs)
  | inr (t, e) ↦ rw e (ap (λ r. t ∷ r) (collect-map f g xs))
]

-- The trade of one position, from the deals that belong to it.
abbrev pub trade_at : List Deal → ℕ → Option AccountTrade
trade_at deals id = trade_of_group (id, filter (belongs id) deals)

-- The trades that groupDealsIntoTrades builds by filling a Map in one pass over the deals are those of
-- each position that the deals name, once each, from all the deals that belong to the position and no
-- other, sorted by the time of closing, and the first `limit` of them. No trade in the result closed
-- later than one before it.
pub group_deals_into_trades_lem :
    (deals : List Deal) (limit : ℕ)
    → (group_deals_into_trades deals limit
        ≡ take limit (
            newest_first
              (λ t. t.closed_at)
              (collect (trade_at deals) (distinct (positions deals)))))
      × IsNewestFirst (λ (t : AccountTrade). t.closed_at) (group_deals_into_trades deals limit)
unfolding group_deals_into_trades extended Unique
group_deals_into_trades_lem deals limit = (
  ap (λ r. take limit (newest_first (λ t. t.closed_at) r))
      (ap (collect trade_of_group)
          (group_from_lem [] deals tt ∙ fresh_all deals (distinct (positions deals)))
        ∙ collect-map trade_of_group (λ id. (id, filter (belongs id) deals))
            (distinct (positions deals))),
  take-IsNewestFirst (λ (t : AccountTrade). t.closed_at) limit _
      (newest_first-IsNewestFirst (λ (t : AccountTrade). t.closed_at)
        (collect trade_of_group (group_from [] deals))),
)
