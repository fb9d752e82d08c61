-- ===== src/Mock/Prices.antt =====
-- Seeds, prices and profits. The price drifts with the sine of the clock, which is a parameter.
use Prim.Native.Nat.{bit_xor}
use copytrade_dashboard.Base.{
  ℕ, ◌-◌, ◌*◌, ◌/◌, ◌%◌, ◌^◌, arith, Option, none, some, [], ◌∷◌, if◌then◌else◌,
}
use copytrade_dashboard.Number.Defs.{
  Number, denominator, decimal, of_nat, add, subtract, negate, multiply, divide, to_fixed, Less,
  cross,
}
use copytrade_dashboard.Text.{Text, text_eq}
use copytrade_dashboard.Types.{is_buy, ProviderPosition}
use copytrade_dashboard.Mock.State.{SymbolRow, symbol_row, codes, includes}

-- The 32-bit FNV hash: `hash ^= code; hash = Math.imul(hash, 16777619)`, read without a sign.
unfoldable pub hash_from : ℕ → Text → ℕ
hash_from hash [] = hash
hash_from hash (c ∷ s) = hash_from ((bit_xor hash c * 16777619) % 2 ^ 32) s

-- A pseudo-random number below 1, in steps of 1/10000.
unfoldable pub seeded : Text → Number
unfolding hash_from
seeded seed = decimal (hash_from 2166136261 seed % 10000) 9999

pub seeded_lt_one : (seed : Text) → Less (seeded seed) (of_nat 1)
unfolding seeded cross
seeded_lt_one seed = omega arith

-- `Number(value.toFixed(digits))`
abbrev pub round : Number → ℕ → Number
round value digits = to_fixed (10 ^ digits - 1) value

-- `Math.floor` of a number that is not negative.
abbrev pub floor_of : Number → ℕ
floor_of x = (x.plus - x.minus) / denominator x

unfoldable pub drifting : (Number → Number) → ℕ → Text → SymbolRow → Number
unfolding seeded
drifting sine now symbol r =
    let wave =
      sine (add (divide (of_nat now) (of_nat 90000)) (multiply (seeded symbol) (of_nat 10))) in
    round (add r.price (multiply (multiply wave r.price) (decimal 12 9999))) r.digits

abbrev priced : (Number → Number) → ℕ → Text → Option SymbolRow → Number
priced sine now symbol none = of_nat 0
priced sine now symbol (some r) = drifting sine now symbol r

-- `currentPrice`
unfoldable pub current_price : (Number → Number) → ℕ → Text → Number
unfolding drifting symbol_row
current_price sine now symbol = priced sine now symbol (symbol_row symbol)

abbrev contract_size : Text → Number
contract_size symbol =
    if text_eq symbol (codes "XAUUSD")
    then of_nat 100
    else if includes (codes "USD") symbol
    then of_nat 100000
    else of_nat 1

abbrev signed : ProviderPosition → Number → Number
signed p x = if is_buy p.order_type then x else negate x

-- `profitOf`
unfoldable pub profit_of : (Number → Number) → ℕ → ProviderPosition → Number
unfolding current_price
profit_of sine now p =
    let moved = subtract (current_price sine now p.symbol) p.open_price in
    divide (multiply (multiply (signed p moved) p.volume) (contract_size p.symbol)) (of_nat 1000)
