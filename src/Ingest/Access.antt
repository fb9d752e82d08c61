-- ===== src/Ingest/Access.antt =====
-- `authenticateMasterRequest`: who may publish into which strategy.
use copytrade_dashboard.Base.{
  ℕ, ◌+◌, ◌-◌, ◌*◌, Bool, true, Option, none, some, List, find, ltb, if◌then◌else◌,
}
use copytrade_dashboard.Text.{Text, text_eq}
use copytrade_dashboard.Types.{stale_request, unauthorized, invalid_signature, not_found, forbidden}
use copytrade_dashboard.Store.Monad.{app_error, other_error, Result, ok, err}
use copytrade_dashboard.Ingest.State.{Strategy, StrategyOwner}

pub record StrategyApiKey : Type 0 where
  pub id : ℕ
  pub key_id : Text
  pub strategy : Strategy
  pub secret : Text
  pub revoked_at : Option ℕ

-- The headers of the request and its body. `seconds` is `Number(timestamp)`, if that is a number.
pub record SignedRequest : Type 0 where
  pub api_key : Text
  pub timestamp : Text
  pub seconds : Option ℕ
  pub signature : Text
  pub body : Text

-- The settings of the environment that are used.
pub record Environment : Type 0 where
  pub max_skew_seconds : ℕ
  pub master_api_key : Text
  pub master_api_secret : Text
  pub now_ms : ℕ

pub record Granted : Type 0 where
  pub strategy : Strategy
  pub key_record_id : Option ℕ

-- `|now / 1000 - timestamp| > limit`, both sides taken a thousandfold.
unfoldable pub is_stale : Environment → Option ℕ → Bool
is_stale env none = true
is_stale env (some seconds) =
    let stamp = seconds * 1000 in
    ltb (env.max_skew_seconds * 1000) ((env.now_ms - stamp) + (stamp - env.now_ms))

-- `hmac secret timestamp body` is `hmacSha256Hex(secret, "timestamp.body")`, and `code_of body` the
-- strategy code of a body that parses.
module _ (hmac : Text → Text → Text → Text) (code_of : Text → Option Text) where
  unfoldable pub is_signed : Text → SignedRequest → Bool
  is_signed secret request = text_eq (hmac secret request.timestamp request.body) request.signature

  unfoldable pub with_live_key : StrategyApiKey → SignedRequest → Option ℕ → Result Granted
  with_live_key key request (some revoked_at) = err (app_error unauthorized)
  with_live_key key request none =
      if is_signed key.secret request
      then ok (record { strategy = key.strategy; key_record_id = some key.id })
      else err (app_error invalid_signature)

  unfoldable pub with_key : StrategyApiKey → SignedRequest → Result Granted
  with_key key request = with_live_key key request key.revoked_at

  -- The platform's key may publish only into the strategies that the platform owns.
  unfoldable pub named_strategy : Option Strategy → Result Granted
  named_strategy none = err (app_error not_found)
  named_strategy (some strategy) = elim strategy.owner_type [
    | StrategyOwner.platform ↦ ok (record { strategy = strategy; key_record_id = none })
    | StrategyOwner.provider ↦ err (app_error forbidden)
  ]

  unfoldable pub named_code : List Strategy → Option Text → Result Granted
  named_code strategies none = err other_error
  named_code strategies (some code) = named_strategy (find (λ s. text_eq s.code code) strategies)

  unfoldable pub with_platform_key : Environment → List Strategy → SignedRequest → Result Granted
  with_platform_key env strategies request =
      if text_eq env.master_api_key request.api_key
      then (if is_signed env.master_api_secret request
          then named_code strategies (code_of request.body)
          else err (app_error invalid_signature))
      else err (app_error unauthorized)

  unfoldable pub with_found_key :
      Environment → List Strategy → SignedRequest → Option StrategyApiKey → Result Granted
  with_found_key env strategies request none = with_platform_key env strategies request
  with_found_key env strategies request (some key) = with_key key request

  unfoldable pub authenticate_master_request :
      Environment → List StrategyApiKey → List Strategy → SignedRequest → Result Granted
  authenticate_master_request env keys strategies request =
      if is_stale env request.seconds
      then err (app_error stale_request)
      else with_found_key env strategies request (find (λ k. text_eq k.key_id request.api_key) keys)
