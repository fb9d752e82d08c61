-- ===== src/Reconcile/Figures.antt =====
-- The bounds of the figures of a strategy.
use copytrade_dashboard.Base.{
  map, ℕ, ◌+◌, ◌<◌, ◌≤◌, ◌∙◌, ◌≡◌, refl, Bool, true, false, ◌&&◌, ◌||◌, List, [], ◌∷◌, any, filter,
  length, arith, ltb, Bool-cases, inl, inr,
}
use copytrade_dashboard.Number.Defs.{Number, cross, AtMost, of_nat, multiply, divide, is_less}
use copytrade_dashboard.Number.Rounding.{ltb-true}
use copytrade_dashboard.Number.Signs.{IsNotNegative, above_zero}
use copytrade_dashboard.Number.Decimals.{to_fixed-bound, to_fixed-not_negative}
use copytrade_dashboard.Store.Rows.{Subscription}
use copytrade_dashboard.Ingest.State.{MasterTrade}
use copytrade_dashboard.Reconcile.Stats.{
  EquityCurve, start_curve, equity_curve, profits_of, insert_oldest, oldest_first, is_reported,
  is_of_strategy, is_win, win_rate, stats_of, profit_number,
}
use copytrade_dashboard.Reconcile.Drawdown.{
  IsCurve, equity_curve-IsCurve, start_curve-IsCurve, is_loss,
}

abbrev win_ratio : ℕ → ℕ → Number
win_ratio wins trades = multiply (divide (of_nat wins) (of_nat trades)) (of_nat 100)

win_ratio-bounds :
    (wins trades : ℕ)
    → 0 < trades
    → wins ≤ trades
    → IsNotNegative (win_ratio wins trades) × AtMost (win_ratio wins trades) (of_nat 100)
unfolding multiply divide cross
win_ratio-bounds wins trades pos le = rw (ltb-true 0 trades pos) (omega arith, omega arith)

win_rate-bounds :
    (wins trades : ℕ)
    → wins ≤ trades
    → AtMost (of_nat 0) (win_rate wins trades) × AtMost (win_rate wins trades) (of_nat 100)
unfolding win_rate cross
win_rate-bounds wins trades le = elim (Bool-cases (ltb 0 trades)) [
  | inl e ↦
      let known = win_ratio-bounds wins trades (ground arith) le in
      rw e (
        to_fixed-not_negative (win_ratio wins trades) known.0,
        to_fixed-bound (win_ratio wins trades) 100 known.0 known.1,
      )
  | inr e ↦ rw e (omega arith, omega arith)
]

-- The order of the trades does not matter to what is counted or searched.
module _ (f : MasterTrade → Bool) where
  any-insert_oldest :
      (t : MasterTrade) (rows : List MasterTrade)
      → any f (insert_oldest t rows) ≡ (f t || any f rows)
  unfolding insert_oldest
  any-insert_oldest t [] = refl
  any-insert_oldest t (u ∷ rows) = ground (arith, any-insert_oldest t rows)

  any-oldest_first : (rows : List MasterTrade) → any f (oldest_first rows) ≡ any f rows
  unfolding oldest_first
  any-oldest_first [] = refl
  any-oldest_first (t ∷ rows) =
      rw (any-insert_oldest t (oldest_first rows), any-oldest_first rows) refl

length-insert_oldest :
    (t : MasterTrade) (rows : List MasterTrade) → length (insert_oldest t rows) ≡ 1 + length rows
unfolding insert_oldest
length-insert_oldest t [] = refl
length-insert_oldest t (u ∷ rows) = ground (arith, length-insert_oldest t rows)

length-oldest_first : (rows : List MasterTrade) → length (oldest_first rows) ≡ length rows
unfolding oldest_first
length-oldest_first [] = refl
length-oldest_first (t ∷ rows) =
    ground (arith, length-oldest_first rows, length-insert_oldest t (oldest_first rows))

module _ {ℓ} {A : Type ℓ} (f g : A → Bool) where
  any-filter : (xs : List A) → any f (filter g xs) ≡ any (λ x. g x && f x) xs
  any-filter [] = refl
  any-filter (x ∷ xs) = ground (arith, any-filter xs)

  length-filter_both : (xs : List A) → length (filter (λ x. f x && g x) xs) ≤ length (filter f xs)
  length-filter_both [] = omega arith
  length-filter_both (x ∷ xs) = ground (arith, length-filter_both xs)

length-filter {ℓ} : {A : Type ℓ} → (f : A → Bool) (xs : List A) → length (filter f xs) ≤ length xs
length-filter f [] = omega arith
length-filter f (x ∷ xs) = ground (arith, length-filter f xs)

any-map {ℓ ℓ2} :
    {A : Type ℓ}
    → {B : Type ℓ2} → (f : B → Bool) (g : A → B) (xs : List A)
    → any f (map g xs) ≡ any (λ x. f (g x)) xs
any-map f g [] = refl
any-map f g (x ∷ xs) = rw (any-map f g xs) refl

-- A trade whose profit was reported as a loss.
abbrev pub is_reported_loss : ℕ → MasterTrade → Bool
is_reported_loss id t = is_reported id t && is_loss (profit_number t.profit)

profits_of-any_loss :
    (id : ℕ) (trades : List MasterTrade)
    → any is_loss (profits_of id trades) ≡ any (is_reported_loss id) trades
unfolding profits_of
profits_of-any_loss id trades =
    let of_trade = λ (t : MasterTrade). is_loss (profit_number t.profit) in
    rw
      (
        any-map is_loss (λ (t : MasterTrade). profit_number t.profit)
            (oldest_first (filter (is_reported id) trades)),
        any-oldest_first of_trade (filter (is_reported id) trades),
      )
      (any-filter of_trade (is_reported id) trades)

length-map {ℓ ℓ2} :
    {A : Type ℓ} → {B : Type ℓ2} → (g : A → B) (xs : List A) → length (map g xs) ≡ length xs
length-map g [] = refl
length-map g (x ∷ xs) = ground (arith, length-map g xs)

length-profits_of :
    (id : ℕ) (trades : List MasterTrade)
    → length (profits_of id trades) ≤ length (filter (is_of_strategy id) trades)
unfolding profits_of
length-profits_of id trades =
    rw
      (
        length-map (λ (t : MasterTrade). profit_number t.profit)
            (oldest_first (filter (is_reported id) trades)),
        length-oldest_first (filter (is_reported id) trades),
      )
      (length-filter_both (is_of_strategy id) _ trades)

is_less-seen :
    (seen : Bool) (c : EquityCurve) → IsCurve seen c → is_less (of_nat 0) c.max_drawdown ≡ seen
unfolding cross
is_less-seen true c h = above_zero c.max_drawdown (h.fall_seen refl)
is_less-seen false c h = ground (arith, (h.none_seen refl).1)

equity_curve-fall :
    (ps : List Number)
    → is_less (of_nat 0) (equity_curve start_curve ps).max_drawdown ≡ any is_loss ps
equity_curve-fall ps =
    is_less-seen (any is_loss ps) (equity_curve start_curve ps)
      (equity_curve-IsCurve false start_curve ps start_curve-IsCurve)

-- The figures of a strategy keep their ranges, whatever the trades are and however they are
-- ordered: the trades with a reported profit are at most the trades; the win rate lies between 0
-- and 100 per cent; the drawdown is not negative, and before it is rounded to hundredths it is
-- positive exactly when some closed trade of the strategy was reported with a loss.
pub stats_of_bounds :
    (id : ℕ) (trades : List MasterTrade) (subscriptions : List Subscription)
    → length (profits_of id trades) ≤ (stats_of id trades subscriptions).total_trades
      × AtMost (of_nat 0) (stats_of id trades subscriptions).win_rate_pct
      × AtMost (stats_of id trades subscriptions).win_rate_pct (of_nat 100)
      × AtMost (of_nat 0) (stats_of id trades subscriptions).max_drawdown_pct
      × (is_less (of_nat 0) (equity_curve start_curve (profits_of id trades)).max_drawdown
          ≡ any (is_reported_loss id) trades)
unfolding stats_of
stats_of_bounds id trades subscriptions =
    let profits = profits_of id trades in
    let curve = equity_curve start_curve profits in
    let rates =
      win_rate-bounds (length (filter is_win profits)) (length profits)
        (length-filter is_win profits) in
    let known = equity_curve-IsCurve false start_curve profits start_curve-IsCurve in
    (
      length-profits_of id trades,
      rates.0,
      rates.1,
      to_fixed-not_negative curve.max_drawdown known.fall_not_negative,
      equity_curve-fall profits ∙ profits_of-any_loss id trades,
    )
