-- ===== src/Number/Defs.antt =====
-- Signed fractions, with the operations of JavaScript numbers that the program uses.
use copytrade_dashboard.Base.{
  ℕ, suc, ◌+◌, ◌-◌, ◌*◌, ◌/◌, ◌≤◌, ◌<◌, ◌≡◌, Bool, ltb, leb, if◌then◌else◌,
}

-- The value is (plus - minus) / (den_pred + 1).
pub record Number : Type 0 where
  pub plus : ℕ
  pub minus : ℕ
  pub den_pred : ℕ

abbrev pub denominator : Number → ℕ
denominator x = suc x.den_pred

-- `x < y` when `cross x y < cross y x`: the difference of the two is that of `x` and `y`, brought
-- to one denominator.
unfoldable pub cross : Number → Number → ℕ
cross x y = x.plus * denominator y + y.minus * denominator x

-- `x < y` and `x <= y`
abbrev pub is_less : Number → Number → Bool
is_less x y = ltb (cross x y) (cross y x)

abbrev pub is_at_most : Number → Number → Bool
is_at_most x y = leb (cross x y) (cross y x)

-- The same relations as statements, and equality of values.
abbrev pub Less : Number → Number → Type 0
Less x y = cross x y < cross y x

abbrev pub AtMost : Number → Number → Type 0
AtMost x y = cross x y ≤ cross y x

abbrev pub Same : Number → Number → Type 0
Same x y = cross x y ≡ cross y x

-- The decimal n / 10^k, with `den_pred` k nines: `decimal n 99` is n hundredths.
abbrev pub decimal : ℕ → ℕ → Number
decimal n nines = record { plus = n; minus = 0; den_pred = nines }

abbrev pub of_nat : ℕ → Number
of_nat n = decimal n 0

abbrev pub hundredths : ℕ → Number
hundredths n = decimal n 99

-- `Math.min(x, y)` and `Math.max(x, y)`
abbrev pub min_of : Number → Number → Number
min_of x y = if is_less y x then y else x

abbrev pub max_of : Number → Number → Number
max_of x y = if is_less x y then y else x

-- The predecessor of a product of two denominators.
abbrev common : Number → Number → ℕ
common x y = denominator x * denominator y - 1

unfoldable pub add : Number → Number → Number
add x y = record {
  plus = x.plus * denominator y + y.plus * denominator x;
  minus = x.minus * denominator y + y.minus * denominator x;
  den_pred = common x y;
}

unfoldable pub negate : Number → Number
negate x = record { plus = x.minus; minus = x.plus; den_pred = x.den_pred }

unfoldable pub subtract : Number → Number → Number
unfolding add negate
subtract x y = add x (negate y)

unfoldable pub multiply : Number → Number → Number
multiply x y = record {
  plus = x.plus * y.plus + x.minus * y.minus;
  minus = x.plus * y.minus + x.minus * y.plus;
  den_pred = common x y;
}

-- `x / y` for y that is not 0. The program divides only behind a guard that `y > 0`.
unfoldable pub divide : Number → Number → Number
divide x y =
    if ltb y.minus y.plus
    then record {
      plus = x.plus * denominator y;
      minus = x.minus * denominator y;
      den_pred = denominator x * (y.plus - y.minus) - 1;
    }
    else record {
      plus = x.minus * denominator y;
      minus = x.plus * denominator y;
      den_pred = denominator x * (y.minus - y.plus) - 1;
    }

-- `Math.abs(x)`
unfoldable pub absolute : Number → Number
unfolding negate
absolute x = if ltb x.plus x.minus then negate x else x

-- `Math.floor(x)`
unfoldable pub floor : Number → Number
floor x =
    if leb x.minus x.plus
    then of_nat ((x.plus - x.minus) / denominator x)
    else negate (of_nat ((x.minus - x.plus + x.den_pred) / denominator x))

-- The natural number nearest to n / d, a half upwards.
abbrev pub nearest : ℕ → ℕ → ℕ
nearest n d = (2 * n + d) / (2 * d)

-- `Number(x.toFixed(k))`, where `nines` is 10^k - 1. A half is rounded away from zero.
unfoldable pub to_fixed : ℕ → Number → Number
to_fixed nines x =
    if leb x.minus x.plus
    then decimal (nearest ((x.plus - x.minus) * suc nines) (denominator x)) nines
    else negate (decimal (nearest ((x.minus - x.plus) * suc nines) (denominator x)) nines)
