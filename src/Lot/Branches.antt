-- ===== src/Lot/Branches.antt =====
-- The refusals of the calculator.
use copytrade_dashboard.Base.{
  ◌≡◌, ◌⊎◌, inl, inr, refl, sym, Bool, true, false, Option, none, some, arith, Bool-cases,
}
use copytrade_dashboard.Number.Defs.{Number, AtMost, Less, is_at_most, is_less, multiply, to_fixed}
use mathlib.Core.Path.{subst}
use copytrade_dashboard.Types.{LotMode}
use copytrade_dashboard.Lot.{
  LotInputs, LotResult, LotCode, invalid_volume, missing_stop, missing_master_balance,
  below_broker_minimum, sized, refused, RawVolume, raw, no_volume, zero_lot, round_to_step,
  contract_size_or, balance_ratio_volume, risk_percent_volume, volume_of_mode, bounded_of,
  below_minimum, fit_to_broker, bound_volume, finish, calculate_lot,
}

-- A value that was not given, or is zero or less.
abbrev pub NotPositive : Option Number → Type 0
NotPositive none = Unit
NotPositive (some x) = AtMost x zero_lot

-- The documented cause of each code.
pub data Why (i : LotInputs) : LotCode → Type 0 where
  no_stop : i.mode ≡ LotMode.risk_percent → NotPositive i.stop_distance → Why i missing_stop
  no_balance :
      i.mode ≡ LotMode.balance_ratio → NotPositive i.master_balance → Why i missing_master_balance
  no_loss :
      (d : Number)
      → i.stop_distance ≡ some d
      → AtMost (multiply d (contract_size_or i.contract_size)) zero_lot
      → Why i invalid_volume
  not_tradable :
      (r : Number) → volume_of_mode i.mode i ≡ raw r → AtMost r zero_lot → Why i invalid_volume
  too_small :
      (r : Number)
      → volume_of_mode i.mode i ≡ raw r
      → i.allow_min_lot_rounding ≡ false
      → Less (bounded_of i r) i.broker_min_lot
        ⊎ Less (round_to_step (bounded_of i r) i.broker_lot_step) i.broker_min_lot
      → Why i below_broker_minimum

not_positive : (x : Number) → is_at_most x zero_lot ≡ true → AtMost x zero_lot
not_positive x h = ground arith

is_smaller : (x y : Number) → is_less x y ≡ true → Less x y
is_smaller x y h = ground arith

abbrev WhyNone : LotInputs → RawVolume → Type 0
WhyNone i (raw r) = Unit
WhyNone i (no_volume code) = Why i code

abbrev WhyRefused : LotInputs → LotResult → Type 0
WhyRefused i (sized _ _ _) = Unit
WhyRefused i (refused code) = Why i code

module _ (i : LotInputs) where
  balance_ratio_volume-Why :
      (b : Option Number)
      → i.master_balance ≡ b
      → i.mode ≡ LotMode.balance_ratio
      → WhyNone i (balance_ratio_volume i b)
  unfolding balance_ratio_volume
  balance_ratio_volume-Why none e m = no_balance m (subst NotPositive (sym e) tt)
  balance_ratio_volume-Why (some x) e m = elim (Bool-cases (is_at_most x zero_lot)) [
    | inl low ↦ rw low (no_balance m (subst NotPositive (sym e) (not_positive x low)))
    | inr high ↦ rw high tt
  ]

  risk_percent_volume-Why :
      (d : Option Number)
      → i.stop_distance ≡ d
      → i.mode ≡ LotMode.risk_percent
      → WhyNone i (risk_percent_volume i d)
  unfolding risk_percent_volume
  risk_percent_volume-Why none e m = no_stop m (subst NotPositive (sym e) tt)
  risk_percent_volume-Why (some x) e m = elim (Bool-cases (is_at_most x zero_lot)) [
    | inl low ↦ rw low (no_stop m (subst NotPositive (sym e) (not_positive x low)))
    | inr high ↦
        rw high
          (elim (Bool-cases (is_at_most (multiply x (contract_size_or i.contract_size)) zero_lot)) [
            | inl none_lost ↦ rw none_lost (no_loss x e (not_positive _ none_lost))
            | inr some_lost ↦ rw some_lost tt
          ])
  ]

  volume_of_mode-Why : (m : LotMode) → i.mode ≡ m → WhyNone i (volume_of_mode m i)
  unfolding volume_of_mode
  volume_of_mode-Why LotMode.fixed e = tt
  volume_of_mode-Why LotMode.multiplier e = tt
  volume_of_mode-Why LotMode.balance_ratio e = balance_ratio_volume-Why i.master_balance refl e
  volume_of_mode-Why LotMode.risk_percent e = risk_percent_volume-Why i.stop_distance refl e

module _ (i : LotInputs) (r : Number) (m : volume_of_mode i.mode i ≡ raw r) where
  below_minimum-Why :
      Less (bounded_of i r) i.broker_min_lot
        ⊎ Less (round_to_step (bounded_of i r) i.broker_lot_step) i.broker_min_lot
      → WhyRefused i (below_minimum i r)
  unfolding below_minimum
  below_minimum-Why small = elim (Bool-cases i.allow_min_lot_rounding) [
    | inl e ↦ simp e tt
    | inr e ↦ simp e (too_small r m e small)
  ]

  fit_to_broker-Why : WhyRefused i (fit_to_broker i r (bounded_of i r))
  unfolding fit_to_broker
  fit_to_broker-Why =
      let v = round_to_step (bounded_of i r) i.broker_lot_step in
      elim (Bool-cases (is_less (bounded_of i r) i.broker_min_lot)) [
        | inl e ↦ rw e (below_minimum-Why (inl (is_smaller _ _ e)))
        | inr e ↦ rw e (elim (Bool-cases (is_less v i.broker_min_lot)) [
          | inl e' ↦ rw e' (below_minimum-Why (inr (is_smaller _ _ e')))
          | inr e' ↦ rw e' tt
        ])
      ]

  bound_volume-Why : WhyRefused i (bound_volume i r)
  unfolding bound_volume
  bound_volume-Why = elim (Bool-cases (is_at_most r zero_lot)) [
    | inl e ↦ rw e (not_tradable r m (not_positive r e))
    | inr e ↦ rw e fit_to_broker-Why
  ]

finish-Why :
    (i : LotInputs) (m : RawVolume)
    → volume_of_mode i.mode i ≡ m
    → WhyNone i m
    → WhyRefused i (finish i m)
unfolding finish
finish-Why i (raw r) e why = bound_volume-Why i r e
finish-Why i (no_volume code) e why = why

-- Every refusal has its documented cause: a missing or non-positive stop or master balance in the
-- mode that needs it, a raw volume or loss per lot of zero or less, or a size under the broker's
-- minimum that the member did not allow to be rounded up.
pub calculate_lot-Why :
    (i : LotInputs) {code : LotCode} → calculate_lot i ≡ refused code → Why i code
unfolding calculate_lot
calculate_lot-Why i {code} e =
    subst (WhyRefused i) e
      (finish-Why i (volume_of_mode i.mode i) refl (volume_of_mode-Why i i.mode refl))

abbrev IsSized : LotResult → Type 0
IsSized t = (v : Number) × (shown : Number) × (clamped : Bool) × (t ≡ sized v shown clamped)

below_minimum-IsSized :
    (i : LotInputs) (r : Number) → i.allow_min_lot_rounding ≡ true → IsSized (below_minimum i r)
unfolding below_minimum
below_minimum-IsSized i r allow = (i.broker_min_lot, to_fixed 9999 r, true, ground arith)

fit_to_broker-IsSized :
    (i : LotInputs) (r b : Number) → i.allow_min_lot_rounding ≡ true → IsSized (fit_to_broker i r b)
unfolding fit_to_broker
fit_to_broker-IsSized i r b allow = elim (Bool-cases (is_less b i.broker_min_lot)) [
  | inl e ↦ rw e (below_minimum-IsSized i r allow)
  | inr e ↦ rw e (elim (Bool-cases (is_less (round_to_step b i.broker_lot_step) i.broker_min_lot)) [
    | inl e' ↦ rw e' (below_minimum-IsSized i r allow)
    | inr e' ↦ rw e' (_, _, _, refl)
  ])
]

positive : (r : Number) → Less zero_lot r → is_at_most r zero_lot ≡ false
positive r h = ground arith

-- A member who allows rounding up gets a size for every positive raw volume.
pub calculate_lot_total :
    (i : LotInputs) (r : Number)
    → volume_of_mode i.mode i ≡ raw r
    → Less zero_lot r
    → i.allow_min_lot_rounding ≡ true
    → (v : Number) × (shown : Number) × (clamped : Bool) × (calculate_lot i ≡ sized v shown clamped)
unfolding calculate_lot finish bound_volume
calculate_lot_total i r m pos allow =
    rw (m, positive r pos) (fit_to_broker-IsSized i r (bounded_of i r) allow)
