-- ===== src/Lot/Tests.antt =====
-- Sizing at concrete inputs.
use copytrade_dashboard.Base.{◌≡◌, refl, Bool, true, false, none, some, arith}
use copytrade_dashboard.Number.Defs.{
  Number, cross, decimal, hundredths, of_nat, add, subtract, multiply, divide, absolute, floor,
  to_fixed,
}
use copytrade_dashboard.Types.{LotMode}
use copytrade_dashboard.Lot.{
  LotInputs, sized, refused, missing_stop, below_broker_minimum, raw, volume_of_mode, round_to_step,
  bounded_of, calculate_lot,
}
use copytrade_dashboard.Lot.Bounds.{HasDecimalLimits, IsBounded, calculate_lot-IsBounded}
use copytrade_dashboard.Lot.Branches.{Why, calculate_lot-Why, calculate_lot_total}
use copytrade_dashboard.Lot.Refix.{Fits, calculate_lot-Fits}

-- Twice the master's 0.37 lots, on a broker that trades in steps of 0.1 from 0.1 to 50.
abbrev doubled : LotInputs
doubled = record {
  mode = LotMode.multiplier;
  master_volume = hundredths 37;
  fixed_lot = hundredths 120;
  multiplier = of_nat 2;
  balance_ratio = of_nat 1;
  risk_percent = of_nat 1;
  min_lot = hundredths 1;
  max_lot = of_nat 10;
  broker_min_lot = hundredths 10;
  broker_max_lot = of_nat 50;
  broker_lot_step = hundredths 10;
  allow_min_lot_rounding = false;
  member_balance = of_nat 1000;
  member_equity = of_nat 1000;
  master_balance = some (of_nat 4000);
  stop_distance = none;
  contract_size = none;
}

doubled_size : calculate_lot doubled ≡ sized (decimal 7000 9999) (decimal 7400 9999) true
unfolding calculate_lot round_to_step multiply floor divide add to_fixed absolute subtract cross
doubled_size = refl

-- A quarter of the balance gives 0.0925 lots: too small for the broker.
abbrev proportional : LotInputs
proportional = record doubled { mode = LotMode.balance_ratio }

proportional_size : calculate_lot proportional ≡ refused below_broker_minimum
unfolding calculate_lot round_to_step multiply floor divide add to_fixed absolute subtract cross
proportional_size = refl

abbrev no_stop_given : LotInputs
no_stop_given = record doubled { mode = LotMode.risk_percent }

no_stop_size : calculate_lot no_stop_given ≡ refused missing_stop
unfolding calculate_lot
no_stop_size = refl

doubled-HasDecimalLimits : HasDecimalLimits doubled
unfolding cross
doubled-HasDecimalLimits = record {
  step = 1000;
  step_positive = omega arith;
  step_exact = refl;
  max_lot = 100000;
  max_lot_exact = refl;
  broker_max_lot = 500000;
  broker_max_lot_exact = refl;
  broker_min_lot_nonneg = omega arith;
}

calculate_lot-IsBounded_example :
    (r : Number) × (volume_of_mode LotMode.multiplier doubled ≡ raw r)
    × IsBounded doubled doubled-HasDecimalLimits.step (bounded_of doubled r) (decimal 7000 9999)
calculate_lot-IsBounded_example =
    calculate_lot-IsBounded doubled doubled-HasDecimalLimits doubled_size

calculate_lot-Why_example : Why proportional below_broker_minimum
calculate_lot-Why_example = calculate_lot-Why proportional proportional_size

abbrev rounding_up : LotInputs
rounding_up = record proportional { allow_min_lot_rounding = true; mode = LotMode.multiplier }

calculate_lot_total_example :
    (v : Number) × (shown : Number) × (clamped : Bool) × (calculate_lot rounding_up
      ≡ sized v shown clamped)
unfolding volume_of_mode cross multiply
calculate_lot_total_example =
    calculate_lot_total rounding_up (multiply (hundredths 37) (of_nat 2)) refl (omega arith) refl

abbrev fixed_lot : LotInputs
fixed_lot = record doubled { mode = LotMode.fixed }

fixed_lot-Fits : Fits fixed_lot 12 1000
unfolding cross
fixed_lot-Fits = record {
  fixed_mode = refl;
  step_positive = omega arith;
  step_exact = refl;
  lot_positive = omega arith;
  lot_exact = refl;
  above_min = omega arith;
  under_ceiling = omega arith;
  above_broker_min = omega arith;
}

calculate_lot-Fits_example :
    calculate_lot fixed_lot ≡ sized (decimal 12000 9999) (decimal 12000 9999) false
calculate_lot-Fits_example = calculate_lot-Fits fixed_lot 12 1000 fixed_lot-Fits
