-- ===== src/MetaApi/Trades.antt =====
-- What a trading call comes to, by what the SDK answered.
use copytrade_dashboard.Base.{
  ℕ, ◌≡◌, refl, true, false, Option, none, some, Bool-cases, inl, inr, ◌∙◌, if◌then◌else◌,
}
use copytrade_dashboard.Types.{ErrorCode, OrderResult}
use copytrade_dashboard.MetaApi.Sdk.{
  Fault, app, sdk, SdkError, Reply, answered, thrown, TradeResponse, Call, Adapter, ◌>>=◌, pure,
  remotely,
}
use copytrade_dashboard.MetaApi.Codes.{is_trade_error, map_trade_error_code, connection_error}
use copytrade_dashboard.MetaApi.Steps.{
  bind-answered, bind-thrown, try_catch-answered, try_catch-thrown, remotely_lem,
}
use copytrade_dashboard.MetaApi.Trading.{filled, rejected, trade, trade_failed}

abbrev code_of : SdkError → ErrorCode
code_of e = map_trade_error_code e.string_code e.numeric_code

-- An answer, with a result of the property.
abbrev pub Gives : (OrderResult → Type 0) → Reply OrderResult → Type 0
Gives P (answered result) = P result
Gives P (thrown e) = ⊥

-- What an order comes to: a response gives a result of the property, a rejection one that is not
-- executed, and any other error is thrown.
abbrev pub ComesTo :
    (TradeResponse → OrderResult → Type 0) → Reply TradeResponse → Reply OrderResult → Type 0
ComesTo P (answered response) reply = Gives (P response) reply
ComesTo P (thrown (app code)) reply = reply ≡ thrown (app code)
ComesTo P (thrown (sdk e)) reply =
    if is_trade_error e
    then (reply ≡ answered (rejected (code_of e)))
    else (reply ≡ thrown (connection_error (sdk e)))

-- A trading call that answered, was refused, or failed.
module _ {S : Type 0} (send : Call S TradeResponse) (fallback : Option ℕ) (s : Adapter S)
    (t : S) where
  trade-answered :
      {response : TradeResponse}
      → send s.remote ≡ (answered response, t)
      → trade send fallback s
        ≡ (answered (filled fallback response, some response), record s { remote = t })
  unfolding trade
  trade-answered sent =
      try_catch-answered
        (remotely send >>= λ response. pure (filled fallback response, some response)) trade_failed
        s
        (bind-answered (remotely send) (λ response. pure (filled fallback response, some response))
          s (remotely_lem send s sent))

  trade-thrown :
      {e : Fault}
      → send s.remote ≡ (thrown e, t)
      → trade send fallback s ≡ trade_failed e (record s { remote = t })
  unfolding trade
  trade-thrown sent =
      try_catch-thrown
        (remotely send >>= λ response. pure (filled fallback response, some response)) trade_failed
        s
        (bind-thrown (remotely send) (λ response. pure (filled fallback response, some response)) s
          (remotely_lem send s sent))

  trade-refused :
      {code : ErrorCode}
      → send s.remote ≡ (thrown (app code), t)
      → trade send fallback s ≡ (thrown (app code), record s { remote = t })
  unfolding trade_failed
  trade-refused sent = trade-thrown sent

  trade-rejected :
      {e : SdkError}
      → send s.remote ≡ (thrown (sdk e), t)
      → is_trade_error e ≡ true
      → trade send fallback s ≡ (answered (rejected (code_of e), none), record s { remote = t })
  unfolding trade_failed
  trade-rejected {e} sent is = trade-thrown sent ∙ rw is refl

  trade-failed :
      {e : SdkError}
      → send s.remote ≡ (thrown (sdk e), t)
      → is_trade_error e ≡ false
      → trade send fallback s ≡ (thrown (connection_error (sdk e)), record s { remote = t })
  unfolding trade_failed
  trade-failed {e} sent not_trade = trade-thrown sent ∙ rw not_trade refl

-- An order whose rejection the rest of the call passes on.
module _ {S : Type 0} (P : TradeResponse → OrderResult → Type 0) (send : Call S TradeResponse)
    (fallback : Option ℕ) (rest : OrderResult × Option TradeResponse → Call (Adapter S) OrderResult)
    (given : (response : TradeResponse) (v : Adapter S)
      → Gives (P response) (rest (filled fallback response, some response) v).0)
    (passed : (code : ErrorCode) (v : Adapter S)
      → rest (rejected code, none) v ≡ (answered (rejected code), v))
    (u : Adapter S) where
  from_reply :
      (reply : Reply TradeResponse) (t : S)
      → send u.remote ≡ (reply, t)
      → ComesTo P reply ((trade send fallback >>= rest) u).0
  from_reply (answered response) t h =
      rw (bind-answered (trade send fallback) rest u (trade-answered send fallback u t h))
        (given response (record u { remote = t }))
  from_reply (thrown (app code)) t h =
      rw (bind-thrown (trade send fallback) rest u (trade-refused send fallback u t h)) refl
  from_reply (thrown (sdk e)) t h = elim (Bool-cases (is_trade_error e)) [
    | inl is ↦
        rw
          (
            is,
            bind-answered (trade send fallback) rest u (trade-rejected send fallback u t h is),
            passed (code_of e) (record u { remote = t }),
          )
          refl
    | inr other ↦
        rw
          (other, bind-thrown (trade send fallback) rest u (trade-failed send fallback u t h other))
          refl
  ]

  pub trade-ComesTo : ComesTo P (send u.remote).0 ((trade send fallback >>= rest) u).0
  trade-ComesTo = from_reply (send u.remote).0 (send u.remote).1 refl
