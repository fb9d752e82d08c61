-- ===== src/Lot.antt =====
-- Sizing a member's trade: src/services/risk/lot-calculator.ts.
pub mod Bounds
pub mod Branches
pub mod Refix
mod Tests
use copytrade_dashboard.Base.{ℕ, Bool, true, false, ◌≡◌, Option, none, some, if◌then◌else◌}
use copytrade_dashboard.Number.Defs.{
  Number, is_less, is_at_most, of_nat, decimal, min_of, max_of, add, subtract, multiply, divide,
  absolute, floor, to_fixed,
}
use copytrade_dashboard.Types.{LotMode}

pub record LotInputs : Type 0 where
  pub mode : LotMode
  pub master_volume : Number
  pub fixed_lot : Number
  pub multiplier : Number
  pub balance_ratio : Number
  pub risk_percent : Number
  pub min_lot : Number
  pub max_lot : Number
  pub broker_min_lot : Number
  pub broker_max_lot : Number
  pub broker_lot_step : Number
  pub allow_min_lot_rounding : Bool
  pub member_balance : Number
  pub member_equity : Number
  pub master_balance : Option Number
  pub stop_distance : Option Number
  pub contract_size : Option Number

pub data LotCode : Type 0 where
  invalid_volume missing_stop missing_master_balance below_broker_minimum : LotCode

-- The reason text follows from the code and the inputs, and is left out.
pub data LotResult : Type 0 where
  sized : Number → Number → Bool → LotResult
  refused : LotCode → LotResult

abbrev pub zero_lot : Number
zero_lot = of_nat 0

-- 1e-9
abbrev pub nano : Number
nano = decimal 1 999999999

unfoldable pub round_to_step : Number → Number → Number
round_to_step volume step =
    if is_at_most step zero_lot
    then to_fixed 99 volume
    else to_fixed 9999 (multiply (floor (divide (add volume nano) step)) step)

-- The volume of a mode before any bound, or why there is none.
pub data RawVolume : Type 0 where
  raw : Number → RawVolume
  no_volume : LotCode → RawVolume

balance_ratio_volume : LotInputs → Option Number → RawVolume
balance_ratio_volume i none = no_volume missing_master_balance
balance_ratio_volume i (some master_balance) =
    if is_at_most master_balance zero_lot
    then no_volume missing_master_balance
    else raw (
        multiply (multiply i.master_volume (divide i.member_balance master_balance))
          i.balance_ratio)

-- `input.contractSize ?? 100_000`
abbrev contract_size_or : Option Number → Number
contract_size_or none = of_nat 100000
contract_size_or (some size) = size

risk_percent_volume : LotInputs → Option Number → RawVolume
risk_percent_volume i none = no_volume missing_stop
risk_percent_volume i (some stop_distance) =
    if is_at_most stop_distance zero_lot
    then no_volume missing_stop
    else (let risk_amount = divide (multiply i.member_equity i.risk_percent) (of_nat 100) in
        let loss_per_lot = multiply stop_distance (contract_size_or i.contract_size) in
        if is_at_most loss_per_lot zero_lot
        then no_volume invalid_volume
        else raw (divide risk_amount loss_per_lot))

-- The `switch` on the mode.
unfoldable pub volume_of_mode : LotMode → LotInputs → RawVolume
unfolding balance_ratio_volume risk_percent_volume
volume_of_mode LotMode.fixed i = raw i.fixed_lot
volume_of_mode LotMode.multiplier i = raw (multiply i.master_volume i.multiplier)
volume_of_mode LotMode.balance_ratio i = balance_ratio_volume i i.master_balance
volume_of_mode LotMode.risk_percent i = risk_percent_volume i i.stop_distance

abbrev pub ceiling_of : LotInputs → Number
ceiling_of i = min_of i.max_lot i.broker_max_lot

-- The member's bounds and the broker's, around the raw volume.
abbrev pub bounded_of : LotInputs → Number → Number
bounded_of i r = min_of (max_of r i.min_lot) (ceiling_of i)

-- A size under the broker's minimum: taken at the minimum only if the member asked for it.
below_minimum : LotInputs → Number → LotResult
below_minimum i r =
    if i.allow_min_lot_rounding
    then sized i.broker_min_lot (to_fixed 9999 r) true
    else refused below_broker_minimum

-- A size that was rounded down can still lie under the minimum.
accept_rounded : LotInputs → Number → Number → LotResult
unfolding below_minimum
accept_rounded i r volume =
    if is_less volume i.broker_min_lot
    then below_minimum i r
    else sized volume (to_fixed 9999 r) (is_less nano (absolute (subtract volume r)))

fit_to_broker : LotInputs → Number → Number → LotResult
unfolding accept_rounded
fit_to_broker i r bounded =
    if is_less bounded i.broker_min_lot
    then below_minimum i r
    else accept_rounded i r (round_to_step bounded i.broker_lot_step)

-- From the raw volume on. An exact fraction is always finite.
bound_volume : LotInputs → Number → LotResult
unfolding fit_to_broker
bound_volume i r =
    if is_at_most r zero_lot then refused invalid_volume else fit_to_broker i r (bounded_of i r)

finish : LotInputs → RawVolume → LotResult
finish i (no_volume code) = refused code
finish i (raw r) = bound_volume i r

unfoldable pub calculate_lot : LotInputs → LotResult
unfolding volume_of_mode bound_volume finish
calculate_lot i = finish i (volume_of_mode i.mode i)
