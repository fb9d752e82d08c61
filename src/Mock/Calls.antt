-- ===== src/Mock/Calls.antt =====
-- The calls of the provider, on the accounts that are connected.
use copytrade_dashboard.Base.{
  ℕ, ◌+◌, Bool, true, not, ◌&&◌, Option, none, some, List, [], ◌∷◌, ◌++◌, map, filter, find,
  if◌then◌else◌,
}
use copytrade_dashboard.Number.Defs.{
  Number, decimal, of_nat, hundredths, add, subtract, multiply, is_less, max_of, floor,
}
use copytrade_dashboard.Text.{Text, to_upper}
use copytrade_dashboard.Types
use copytrade_dashboard.Types.{
  Platform, PositionMode, ProviderPosition, AccountInfo, ConnectionResult, ClosedPositionResult,
  OpenPositionRequest, ModifyPositionRequest, ClosePositionRequest, OrderResult, SymbolSpec,
}
use copytrade_dashboard.Store.Rows.{TradingAccount}
use copytrade_dashboard.Store.Monad.{app_error, Result, ok, err}
use copytrade_dashboard.Store.Tables.{TradeProvider}
use copytrade_dashboard.Mock.State.{
  ConnectAccountInput, MockPosition, MockClose, MockAccount, MockBroker, SymbolRow, symbol_row,
  has_account_id, is_close_of, map_set, codes, ends_with,
}
use copytrade_dashboard.Mock.Prices.{seeded, round, floor_of, current_price, profit_of}
use copytrade_dashboard.Mock.Orders.{is_mt4, open_position, modify_position, close_position}

abbrev pub find_mock : ℕ → MockBroker → Option MockAccount
find_mock id b = find (has_account_id id) b.accounts

-- `require`
unfoldable pub require : Option MockAccount → Result MockAccount
require none = err (app_error Types.platform_connection_error)
require (some a) = ok a

abbrev pub put_account : MockAccount → MockBroker → MockBroker
put_account a b = record b {
  accounts = map_set (has_account_id a.provider_account_id) a b.accounts;
}

module _ {A : Type 0} where
  -- A call that reads the account.
  abbrev pub answer : (MockAccount → A) → Result MockAccount → Result A
  answer f (ok a) = ok (f a)
  answer f (err e) = err e

  abbrev pub query : ℕ → (MockAccount → A) → MockBroker → Result A
  query id f b = answer f (require (find_mock id b))

  abbrev pub perform :
      (MockAccount → A × MockAccount) → MockBroker → Result MockAccount → Result A × MockBroker
  perform f b (ok a) = let (r, a') = f a in (ok r, put_account a' b)
  perform f b (err e) = (err e, b)

  -- A call that changes the account in place.
  abbrev pub order : ℕ → (MockAccount → A × MockAccount) → MockBroker → Result A × MockBroker
  order id f b = perform f b (require (find_mock id b))

abbrev mode_of : Bool → PositionMode
mode_of netting = if netting then PositionMode.netting else PositionMode.hedging

abbrev usd : Text
usd = codes "USD"

-- The texts "mock-mt4-" and "mock-mt5-" before the login.
unfoldable pub mock_id : Platform → Text → Text
mock_id Platform.mt4 login = codes "mock-mt4-" ++ login
mock_id Platform.mt5 login = codes "mock-mt5-" ++ login

-- The step, which is also the minimum: a tenth on MT4, a hundredth on MT5.
unfoldable pub lot_step_of : Platform → Number
lot_step_of platform = if is_mt4 platform then decimal 1 9 else hundredths 1

unfoldable pub is_netting : Platform → Text → Bool
unfolding seeded
is_netting platform login = not (is_mt4 platform) && is_less (decimal 7 9) (seeded login)

-- A new account, or the one that is known with its balance, positions, closes and tickets.
unfoldable pub connected_account : ConnectAccountInput → ℕ → Option MockAccount → MockAccount
unfolding seeded is_netting floor
connected_account input id none = record {
  provider_account_id = id;
  platform = input.platform;
  login = input.login;
  balance =
      add (of_nat 5000)
        (floor (multiply (seeded (input.login ++ codes "-balance")) (of_nat 15000)));
  netting = is_netting input.platform input.login;
  positions = [];
  closes = [];
  next_ticket = 100000 + floor_of (multiply (seeded input.login) (of_nat 800000));
}
connected_account input id (some a) = record a {
  provider_account_id = id;
  platform = input.platform;
  login = input.login;
  netting = is_netting input.platform input.login;
}

-- The balance that is reported is always the one of a first connection.
unfoldable pub connection_of : ConnectAccountInput → ℕ → ConnectionResult
unfolding seeded is_netting lot_step_of floor
connection_of input id = record {
  provider_account_id = id;
  platform = input.platform;
  position_mode = mode_of (is_netting input.platform input.login);
  currency = usd;
  balance =
      add (of_nat 5000)
        (floor (multiply (seeded (input.login ++ codes "-balance")) (of_nat 15000)));
  min_lot = lot_step_of input.platform;
  max_lot = if is_mt4 input.platform then of_nat 50 else of_nat 100;
  lot_step = lot_step_of input.platform;
}

-- Ids are numbers in the shared types: `number_of` is the number that stands for a text.
module _ (number_of : Text → ℕ) where
  unfoldable pub admit : ConnectAccountInput → MockBroker → Result ConnectionResult × MockBroker
  unfolding connected_account connection_of mock_id
  admit input b =
      let id = number_of (mock_id input.platform input.login) in
      (ok (connection_of input id), put_account (connected_account input id (find_mock id b)) b)

  -- An empty password and a login that ends in four zeros are rejected.
  unfoldable pub connect_with :
      Text → ConnectAccountInput → MockBroker → Result ConnectionResult × MockBroker
  unfolding admit
  connect_with [] input b = (err (app_error Types.platform_connection_error), b)
  connect_with (c ∷ s) input b =
      if ends_with (codes "0000") input.login
      then (err (app_error Types.platform_connection_error), b)
      else admit input b

  unfoldable pub connect_account :
      ConnectAccountInput → MockBroker → Result ConnectionResult × MockBroker
  unfolding connect_with
  connect_account input b = connect_with input.password input b

abbrev pub open_positions : MockAccount → List MockPosition
open_positions a = filter (λ p. not p.closed) a.positions

module _ (sine : Number → Number) where
  abbrev pub marked : ℕ → MockPosition → ProviderPosition
  marked now p = record p.position {
    current_price = current_price sine now p.position.symbol;
    profit = round (profit_of sine now p.position) 2;
  }

  unfoldable pub positions_of : ℕ → MockAccount → List ProviderPosition
  unfolding current_price profit_of
  positions_of now a = map (marked now) (open_positions a)

  -- `getPositions`
  unfoldable pub get_positions : ℕ → MockBroker → Result (List ProviderPosition)
  unfolding require positions_of
  get_positions id b = query id (positions_of b.now) b

  unfoldable pub floating : ℕ → List MockPosition → Number
  unfolding profit_of
  floating now [] = of_nat 0
  floating now (p ∷ ps) = add (profit_of sine now p.position) (floating now ps)

  unfoldable pub margin_of : List MockPosition → Number
  margin_of [] = of_nat 0
  margin_of (p ∷ ps) = add (multiply p.position.volume (of_nat 1000)) (margin_of ps)

  unfoldable pub account_info : ℕ → MockAccount → AccountInfo
  unfolding floating margin_of
  account_info now a =
      let equity = add a.balance (floating now (open_positions a)) in
      let margin = margin_of (open_positions a) in
      record {
        balance = round a.balance 2;
        equity = round equity 2;
        margin = round margin 2;
        free_margin = round (subtract equity margin) 2;
        currency = usd;
        position_mode = mode_of a.netting;
      }

  -- `getAccountInfo`
  unfoldable pub get_account_info : ℕ → MockBroker → Result AccountInfo
  unfolding require account_info
  get_account_info id b = query id (account_info b.now) b

abbrev step_for : Platform → Number → Number
step_for platform step = if is_mt4 platform then max_of step (decimal 1 9) else step

unfoldable pub spec_of : Text → Option SymbolRow → MockAccount → Option SymbolSpec
spec_of symbol none a = none
spec_of symbol (some s) a = some (record {
  symbol = to_upper symbol;
  min_lot = max_of s.min_lot (step_for a.platform s.lot_step);
  max_lot = s.max_lot;
  lot_step = step_for a.platform s.lot_step;
  digits = s.digits;
  trade_allowed = true;
})

-- `getSymbolSpec`
unfoldable pub get_symbol_spec : ℕ → Text → MockBroker → Result (Option SymbolSpec)
unfolding require spec_of symbol_row
get_symbol_spec id symbol b = query id (spec_of symbol (symbol_row symbol)) b

abbrev pub closed_result : MockClose → ClosedPositionResult
closed_result c = record {
  ticket = c.ticket;
  close_price = some c.close_price;
  profit = c.profit;
  volume = some c.volume;
  closed_at = some c.closed_at;
  reason = some c.reason;
}

abbrev pub close_of : ℕ → MockAccount → Option ClosedPositionResult
close_of t a = elim (find (is_close_of t) a.closes) [
  | none ↦ none
  | some c ↦ some (closed_result c)
]

-- `getClosedPosition`
unfoldable pub get_closed_position : ℕ → ℕ → MockBroker → Result (Option ClosedPositionResult)
unfolding require
get_closed_position id ticket b = query id (close_of ticket) b

-- The simulation as a provider. `input_of` reads the credentials of an account.
unfoldable pub mock_provider :
    (Text → ℕ)
    → (Number → Number)
    → (TradingAccount → ConnectAccountInput)
    → TradeProvider MockBroker
unfolding get_account_info get_positions get_symbol_spec get_closed_position connect_account
mock_provider number_of sine input_of = record {
  get_account_info = get_account_info sine;
  get_positions = get_positions sine;
  get_symbol_spec = get_symbol_spec;
  get_closed_position = get_closed_position;
  connect_account = λ account. connect_account number_of (input_of account);
  open_position = λ id r b. order id (open_position sine b.now r) b;
  modify_position = λ id r b. order id (modify_position r) b;
  close_position = λ id r b. order id (close_position sine b.now r) b;
}
