-- ===== src/MetaApi/Codes.antt =====
-- The codes of MetaApi, MT4 and MT5, and the errors that the provider throws for them.
use copytrade_dashboard.Base.{
  ℕ, Bool, true, false, ◌||◌, Option, none, some, List, [], ◌∷◌, map, leb, ◌&&◌, ◌+◌, ◌==◌,
  if◌then◌else◌,
}
use copytrade_dashboard.Text.{Text, text_eq}
use copytrade_dashboard.Types.{ErrorCode}
use copytrade_dashboard.Mock.State.{codes, includes}
use copytrade_dashboard.MetaApi.Sdk.{SdkError, Fault, app, sdk}

-- `NUMERIC_CODE_MAP`
unfoldable pub numeric_code_map : List (ℕ × ErrorCode)
numeric_code_map =
    (10004, ErrorCode.timeout)
    ∷ (10006, ErrorCode.provider_error)
    ∷ (10007, ErrorCode.provider_error)
    ∷ (10013, ErrorCode.provider_error)
    ∷ (10014, ErrorCode.invalid_volume)
    ∷ (10015, ErrorCode.invalid_stops)
    ∷ (10016, ErrorCode.invalid_stops)
    ∷ (10017, ErrorCode.market_closed)
    ∷ (10018, ErrorCode.market_closed)
    ∷ (10019, ErrorCode.insufficient_margin)
    ∷ (10020, ErrorCode.timeout)
    ∷ (10021, ErrorCode.market_closed)
    ∷ (10024, ErrorCode.rate_limited)
    ∷ (10027, ErrorCode.market_closed)
    ∷ (10030, ErrorCode.provider_error)
    ∷ (10031, ErrorCode.platform_connection_error)
    ∷ (10034, ErrorCode.invalid_volume)
    ∷ (10036, ErrorCode.position_not_found)
    ∷ (10038, ErrorCode.invalid_volume)
    ∷ (10040, ErrorCode.invalid_volume)
    ∷ (129, ErrorCode.invalid_stops)
    ∷ (130, ErrorCode.invalid_stops)
    ∷ (131, ErrorCode.invalid_volume)
    ∷ (132, ErrorCode.market_closed)
    ∷ (133, ErrorCode.market_closed)
    ∷ (134, ErrorCode.insufficient_margin)
    ∷ (135, ErrorCode.timeout)
    ∷ (136, ErrorCode.market_closed)
    ∷ (138, ErrorCode.timeout)
    ∷ (141, ErrorCode.rate_limited)
    ∷ (145, ErrorCode.invalid_stops)
    ∷ (146, ErrorCode.timeout)
    ∷ (148, ErrorCode.invalid_volume)
    ∷ []

-- `STRING_CODE_MAP`
unfoldable pub string_code_map : List (Text × ErrorCode)
string_code_map =
    (codes "TRADE_RETCODE_INVALID_VOLUME", ErrorCode.invalid_volume)
    ∷ (codes "TRADE_RETCODE_INVALID_STOPS", ErrorCode.invalid_stops)
    ∷ (codes "TRADE_RETCODE_INVALID_PRICE", ErrorCode.invalid_stops)
    ∷ (codes "TRADE_RETCODE_MARKET_CLOSED", ErrorCode.market_closed)
    ∷ (codes "TRADE_RETCODE_TRADE_DISABLED", ErrorCode.market_closed)
    ∷ (codes "TRADE_RETCODE_NO_MONEY", ErrorCode.insufficient_margin)
    ∷ (codes "TRADE_RETCODE_PRICE_CHANGED", ErrorCode.timeout)
    ∷ (codes "TRADE_RETCODE_REQUOTE", ErrorCode.timeout)
    ∷ (codes "TRADE_RETCODE_TOO_MANY_REQUESTS", ErrorCode.rate_limited)
    ∷ (codes "TRADE_RETCODE_POSITION_CLOSED", ErrorCode.position_not_found)
    ∷ (codes "TRADE_RETCODE_LIMIT_VOLUME", ErrorCode.invalid_volume)
    ∷ (codes "TRADE_RETCODE_CONNECTION", ErrorCode.platform_connection_error)
    ∷ (codes "ERR_INVALID_STOPS", ErrorCode.invalid_stops)
    ∷ (codes "ERR_INVALID_TRADE_VOLUME", ErrorCode.invalid_volume)
    ∷ (codes "ERR_MARKET_CLOSED", ErrorCode.market_closed)
    ∷ (codes "ERR_TRADE_DISABLED", ErrorCode.market_closed)
    ∷ (codes "ERR_NOT_ENOUGH_MONEY", ErrorCode.insufficient_margin)
    ∷ (codes "ERR_OFF_QUOTES", ErrorCode.market_closed)
    ∷ (codes "ERR_REQUOTE", ErrorCode.timeout)
    ∷ (codes "ERR_PRICE_CHANGED", ErrorCode.timeout)
    ∷ (codes "ERR_TRADE_CONTEXT_BUSY", ErrorCode.timeout)
    ∷ []

unfoldable pub look_up : {K : Type 0} → (K → Bool) → List (K × ErrorCode) → Option ErrorCode
look_up at [] = none
look_up at ((k, code) ∷ rows) = let rest = look_up at rows in if at k then some code else rest

abbrev pub of_string_code : Option Text → Option ErrorCode
of_string_code none = none
of_string_code (some s) = look_up (text_eq s) string_code_map

abbrev pub of_numeric_code : Option ℕ → Option ErrorCode
of_numeric_code none = none
of_numeric_code (some n) = look_up (λ k. k == n) numeric_code_map

-- `a ?? b ?? c`
abbrev pub first_of : Option ErrorCode → Option ErrorCode → ErrorCode → ErrorCode
first_of (some a) b c = a
first_of none (some b) c = b
first_of none none c = c

unfoldable pub map_trade_error_code : Option Text → Option ℕ → ErrorCode
unfolding look_up string_code_map numeric_code_map
map_trade_error_code s n = first_of (of_string_code s) (of_numeric_code n) ErrorCode.provider_error

abbrev pub is_given : {A : Type 0} → Option A → Bool
is_given none = false
is_given (some a) = true

-- `isTradeError`
abbrev pub is_trade_error : SdkError → Bool
is_trade_error e = is_given e.string_code || is_given e.numeric_code

-- `text.toLowerCase()` of a text of ASCII letters.
abbrev pub lower : Text → Text
lower s = map (λ c. if leb b'A' c && leb c b'Z' then c + 32 else c) s

abbrev details_name_auth : Option Text → Bool
details_name_auth none = false
details_name_auth (some t) = includes (codes "E_AUTH") t

-- `isBrokerAuthFailure`
unfoldable pub is_broker_auth_failure : SdkError → Bool
is_broker_auth_failure e =
    details_name_auth e.details
    || includes (codes "failed to authenticate to your broker") (lower e.message)
    || includes (codes "invalid account") (lower e.message)
    || includes (codes "account disabled") (lower e.message)

-- `connectionError`
abbrev pub connection_error : Fault → Fault
connection_error (app code) = app code
connection_error (sdk e) = app ErrorCode.platform_connection_error
