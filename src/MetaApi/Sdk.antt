-- ===== src/MetaApi/Sdk.antt =====
-- The part of the SDK of MetaApi that the provider calls (metaapi-sdk.ts), as a parameter, and calls
-- that answer or throw.
use copytrade_dashboard.Base.{ℕ, Bool, Option, List}
use copytrade_dashboard.Number.Defs.{Number}
use copytrade_dashboard.Text.{Text}
use copytrade_dashboard.Types.{Platform, ErrorCode}

-- What the SDK throws. `details` is the JSON text of the details, if there are any.
pub record SdkError : Type 0 where
  pub message : Text
  pub status : Option ℕ
  pub details : Option Text
  pub string_code : Option Text
  pub numeric_code : Option ℕ

-- An `AppError` of the provider, or an error of the SDK.
pub data Fault : Type 0 where
  app : ErrorCode → Fault
  sdk : SdkError → Fault

pub data Reply (A : Type 0) : Type 0 where
  answered : A → Reply A
  thrown : Fault → Reply A

-- `MetaApiTradingAccount`
pub record RemoteAccount : Type 0 where
  pub id : ℕ
  pub login : Text
  pub server : Text
  pub state : Text

-- `MetaApiNewAccountDto`; the magic number is 0 and the settings of the provider are left out.
pub record NewAccount : Type 0 where
  pub name : Text
  pub login : Text
  pub password : Text
  pub server : Text
  pub platform : Platform

pub record RemoteInfo : Type 0 where
  pub platform : Text
  pub currency : Text
  pub balance : Number
  pub equity : Number
  pub margin : Number
  pub free_margin : Number
  pub margin_mode : Option Text

-- `MetaApiPosition`; a date is a number.
pub record RemotePosition : Type 0 where
  pub id : ℕ
  pub kind : Text
  pub symbol : Text
  pub time : ℕ
  pub open_price : Number
  pub current_price : Number
  pub stop_loss : Option Number
  pub take_profit : Option Number
  pub volume : Number
  pub profit : Number
  pub comment : Option ℕ
  pub client_id : Option ℕ

pub record RemoteSymbol : Type 0 where
  pub symbol : Text
  pub min_volume : Number
  pub max_volume : Number
  pub volume_step : Number
  pub digits : ℕ
  pub trade_mode : Option Text

pub record Deal : Type 0 where
  pub kind : Text
  pub entry_type : Text
  pub symbol : Option Text
  pub time : ℕ
  pub volume : Option Number
  pub price : Option Number
  pub commission : Option Number
  pub swap : Option Number
  pub profit : Option Number
  pub position_id : Option ℕ
  pub reason : Option Text

pub record Deals : Type 0 where
  pub deals : List Deal
  pub synchronizing : Bool

-- `MetaApiTradeResponse`; an empty id is none.
pub record TradeResponse : Type 0 where
  pub order_id : Option ℕ
  pub position_id : Option ℕ

pub record MarketOrder : Type 0 where
  pub is_buy : Bool
  pub symbol : Text
  pub volume : Number
  pub sl : Option Number
  pub tp : Option Number
  pub client_id : ℕ
  pub slippage : Option ℕ

abbrev pub Call : Type 0 → Type 0 → Type 0
Call S A = S → Reply A × S

-- The calls, over whatever state MetaApi keeps. A connection is named by its account.
pub record Sdk (S : Type 0) : Type 0 where
  pub get_account : ℕ → Call S RemoteAccount
  pub find_accounts : Text → Call S (List RemoteAccount)
  pub create_account : NewAccount → Call S RemoteAccount
  pub deploy : ℕ → Call S (Unit {0})
  pub undeploy : ℕ → Call S (Unit {0})
  pub wait_connected : ℕ → Call S (Unit {0})
  pub wait_deployed : ℕ → Call S (Unit {0})
  pub wait_undeployed : ℕ → Call S (Unit {0})
  pub connect : ℕ → Call S (Unit {0})
  pub wait_synchronized : ℕ → Call S (Unit {0})
  pub close : ℕ → Call S (Unit {0})
  pub get_account_information : ℕ → Call S RemoteInfo
  pub get_positions : ℕ → Call S (List RemotePosition)
  pub get_position : ℕ → ℕ → Call S RemotePosition
  pub get_symbol_specification : ℕ → Text → Call S (Option RemoteSymbol)
  pub get_deals_by_position : ℕ → ℕ → Call S (Option Deals)
  pub get_deals_by_time_range : ℕ → ℕ → ℕ → ℕ → Call S (Option Deals)
  pub create_market_order : ℕ → MarketOrder → Call S TradeResponse
  pub modify_position : ℕ → ℕ → Option Number → Option Number → Call S TradeResponse
  pub close_position : ℕ → ℕ → Call S TradeResponse
  pub close_position_partially : ℕ → ℕ → Number → Call S TradeResponse

-- The provider: the accounts whose connection is cached, and the SDK behind it.
pub record Adapter (S : Type 0) : Type 0 where
  pub cached : List ℕ
  pub remote : S

module _ {S : Type 0} where
  infixl 5 ◌>>=◌ ◌>>◌
  abbrev pub ◌>>=◌ : {A B : Type 0} → Call S A → (A → Call S B) → Call S B
  ◌>>=◌ m f s = let (r, t) = m s in elim r [ answered a ↦ f a t | thrown e ↦ (thrown e, t) ]

  abbrev pub ◌>>◌ : {A B : Type 0} → Call S A → Call S B → Call S B
  m >> k = m >>= λ _. k

  abbrev pub pure : {A : Type 0} → A → Call S A
  pure a s = (answered a, s)

  abbrev pub throw : {A : Type 0} → Fault → Call S A
  throw e s = (thrown e, s)

  -- `try { … } catch (error) { … }`
  abbrev pub try_catch : {A : Type 0} → Call S A → (Fault → Call S A) → Call S A
  try_catch m h s = let (r, t) = m s in elim r [ answered a ↦ (answered a, t) | thrown e ↦ h e t ]

  -- A call of the SDK by the provider.
  abbrev pub remotely : {A : Type 0} → Call S A → Call (Adapter S) A
  remotely f s = let (r, t) = f s.remote in (r, record s { remote = t })
