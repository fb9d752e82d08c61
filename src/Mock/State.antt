-- ===== src/Mock/State.antt =====
-- What the simulated broker keeps. A `Map` is the list of its values in the order of insertion,
-- with the key in each value.
use Prim.Native.Char.{code}
use Prim.Native.String.{String}
use copytrade_dashboard.Base.{
  ℕ, Bool, true, false, ◌||◌, Option, List, [], ◌∷◌, ◌++◌, any, find, ◌==◌, if◌then◌else◌,
}
use copytrade_dashboard.Number.Defs.{Number, decimal, of_nat, hundredths}
use copytrade_dashboard.Text.{Text, text_eq, to_upper}
use copytrade_dashboard.Types.{Platform, OrderType, ProviderPosition, CloseReason}
use copytrade_dashboard.Store.Tables.{update_where}

-- The part of `ConnectAccountInput` that the simulation reads, the password decrypted.
pub record ConnectAccountInput : Type 0 where
  pub platform : Platform
  pub login : Text
  pub password : Text

-- A position of the account, with the mark of one that has ended.
pub record MockPosition : Type 0 where
  pub position : ProviderPosition
  pub closed : Bool

pub record MockClose : Type 0 where
  pub ticket : ℕ
  pub symbol : Text
  pub order_type : OrderType
  pub open_price : Number
  pub close_price : Number
  pub profit : Number
  pub volume : Number
  pub opened_at : ℕ
  pub closed_at : ℕ
  pub reason : CloseReason

-- The currency is always "USD".
pub record MockAccount : Type 0 where
  pub provider_account_id : ℕ
  pub platform : Platform
  pub login : Text
  pub balance : Number
  pub netting : Bool
  pub positions : List MockPosition
  pub closes : List MockClose
  pub next_ticket : ℕ

pub record MockBroker : Type 0 where
  pub accounts : List MockAccount
  pub now : ℕ

abbrev pub has_ticket : ℕ → MockPosition → Bool
has_ticket t p = p.position.ticket == t

abbrev pub is_close_of : ℕ → MockClose → Bool
is_close_of t c = c.ticket == t

abbrev pub has_account_id : ℕ → MockAccount → Bool
has_account_id id a = a.provider_account_id == id

-- `map.set(key, value)`: a known key keeps its place. `same` compares an entry with the key.
abbrev pub map_set : {V : Type 0} → (V → Bool) → V → List V → List V
map_set same v vs = if any same vs then update_where same (λ _. v) vs else vs ++ v ∷ []

-- The characters of a text.
abbrev pub codes : String → Text
codes String.[] = []
codes (String.◌∷◌ c s) = code c ∷ codes s

pub record SymbolRow : Type 0 where
  pub name : Text
  pub price : Number
  pub digits : ℕ
  pub min_lot : Number
  pub max_lot : Number
  pub lot_step : Number

abbrev row : String → Number → ℕ → ℕ → SymbolRow
row name price digits max_lot = record {
  name = codes name;
  price = price;
  digits = digits;
  min_lot = hundredths 1;
  max_lot = of_nat max_lot;
  lot_step = hundredths 1;
}

-- `SYMBOLS`
unfoldable pub symbol_rows : List SymbolRow
symbol_rows =
    row "XAUUSD" (decimal 33452 9) 2 50
    ∷ row "EURUSD" (decimal 10842 9999) 5 100
    ∷ row "GBPUSD" (decimal 12673 9999) 5 100
    ∷ row "USDJPY" (decimal 15241 99) 3 100
    ∷ row "US30" (of_nat 38940) 1 20
    ∷ row "BTCUSD" (of_nat 68250) 2 10
    ∷ []

-- `SYMBOLS[symbol.toUpperCase()]`
unfoldable pub symbol_row : Text → Option SymbolRow
symbol_row symbol = find (λ r. text_eq r.name (to_upper symbol)) symbol_rows

-- `text.startsWith(prefix)`, `text.includes(part)` and `text.endsWith(suffix)`
abbrev starts_with : Text → Text → Bool
starts_with [] s = true
starts_with (c ∷ t) [] = false
starts_with (c ∷ t) (d ∷ s) = if c == d then starts_with t s else false

abbrev pub includes : Text → Text → Bool
includes part [] = starts_with part []
includes part (c ∷ s) = starts_with part (c ∷ s) || includes part s

abbrev pub ends_with : Text → Text → Bool
ends_with suffix [] = text_eq suffix []
ends_with suffix (c ∷ s) = text_eq suffix (c ∷ s) || ends_with suffix s
