-- ===== src/MetaApi/Orders.antt =====
-- The three orders of the provider, by what the SDK answered.
use copytrade_dashboard.Base.{
  ◌==◌, if◌then◌else◌, arith, ℕ, ◌≡◌, ◌≢◌, ◌↔◌, refl, true, Bool-cases, Option, none, some, inl,
  inr,
}
use copytrade_dashboard.Types.{
  ErrorCode, OpenPositionRequest, ModifyPositionRequest, ClosePositionRequest, OrderResult,
}
use copytrade_dashboard.MetaApi.Sdk.{
  Fault, Reply, answered, thrown, TradeResponse, RemotePosition, Call, Sdk, Adapter, ◌>>=◌, ◌>>◌,
  pure, try_catch, remotely,
}
use copytrade_dashboard.Number.Defs.{Number}
use copytrade_dashboard.MetaApi.Steps.{
  bind-answered, bind-thrown, try_catch-answered, try_catch-thrown, remotely_lem,
}
use copytrade_dashboard.MetaApi.Session.{connection}
use copytrade_dashboard.MetaApi.Trading.{
  filled, rejected, first_id, remainder_of, closed_part, close_call, market_order, trade,
  with_details, fill_details, open_position, modify_position, close_position,
}
use copytrade_dashboard.MetaApi.Trades.{Gives, ComesTo, trade-ComesTo}

abbrev pub IsOpened : TradeResponse → OrderResult → Type 0
IsOpened response result =
    (result.executed ≡ true)
    × (result.ticket ≡ first_id response.position_id none response.order_id)

abbrev pub IsModified : ModifyPositionRequest → TradeResponse → OrderResult → Type 0
IsModified r response result =
    (result.executed ≡ true)
    × (result.ticket ≡ first_id response.position_id (some r.ticket) response.order_id)

-- A partial close keeps the ticket, and a remainder is another position that the response names.
abbrev IsClosedPart : ℕ → Option Number → TradeResponse → OrderResult → Type 0
IsClosedPart ticket none response result =
    (result.ticket ≡ first_id response.position_id (some ticket) response.order_id)
    × (result.remainder_ticket ≡ none)
IsClosedPart ticket (some volume) response result =
    (result.ticket ≡ some ticket)
    × (result.volume ≡ some volume)
    × ((k : ℕ)
        → (result.remainder_ticket ≡ some k) ↔ ((response.position_id ≡ some k) × (k ≢ ticket)))

abbrev pub IsClosed : ClosePositionRequest → TradeResponse → OrderResult → Type 0
IsClosed r response result =
    (result.executed ≡ true) × IsClosedPart r.ticket r.volume response result

other_position :
    (ticket k j : ℕ)
    → ((if j == ticket then none else some j) ≡ some k) ↔ ((some j ≡ some k) × (k ≢ ticket))
other_position ticket k j = elim (Bool-cases (j == ticket)) [
  | inl e ↦ rw e (ground (arith, e), ground (arith, e))
  | inr e ↦ rw e (ground (arith, e), ground (arith, e))
]

remainder_of_iff :
    (ticket k : ℕ) (response : TradeResponse)
    → (remainder_of ticket (some response) ≡ some k)
      ↔ ((response.position_id ≡ some k) × (k ≢ ticket))
remainder_of_iff ticket k response = from response.position_id refl
  where
    from :
        (o : Option ℕ)
        → response.position_id ≡ o
        → (remainder_of ticket (some response) ≡ some k)
          ↔ ((response.position_id ≡ some k) × (k ≢ ticket))
    from none e = rw e (ground arith, ground arith)
    from (some j) e = rw e (other_position ticket k j)

closed_part-IsClosed :
    (ticket : ℕ) (volume : Option Number) (response : TradeResponse)
    → Gives
        (IsClosed (record { ticket = ticket; volume = volume }) response)
        (answered (closed_part ticket volume (filled (some ticket) response, some response)))
unfolding closed_part
closed_part-IsClosed ticket none response = (refl, (refl, refl))
closed_part-IsClosed ticket (some volume) response =
    (refl, (refl, refl, λ k. remainder_of_iff ticket k response))

closed_part-rejected :
    (ticket : ℕ) (volume : Option Number) (code : ErrorCode)
    → closed_part ticket volume (rejected code, none) ≡ rejected code
unfolding closed_part
closed_part-rejected ticket none code = refl
closed_part-rejected ticket (some volume) code = refl

module _ {S : Type 0} (api : Sdk S) where
  -- A filled order stays one, whether or not the position can be read.
  with_details-IsOpened :
      (id : ℕ) (volume : Number) (response : TradeResponse) (ticket : Option ℕ) (s : Adapter S)
      → Gives
          (IsOpened response)
          (with_details api id volume true ticket (filled none response) s).0
  unfolding with_details fill_details
  with_details-IsOpened id volume response none s = (refl, refl)
  with_details-IsOpened id volume response (some k) s =
      from (api.get_position id k s.remote).0 (api.get_position id k s.remote).1 refl
    where
      priced : RemotePosition → OrderResult
      priced p = record (filled none response) { price = some p.open_price; volume = some p.volume }

      unpriced : Fault → Call (Adapter S) OrderResult
      unpriced e = pure (record (filled none response) { volume = some volume })

      read : Call (Adapter S) OrderResult
      read = remotely (api.get_position id k) >>= λ p. pure (priced p)

      from :
          (reply : Reply RemotePosition) (t : S)
          → api.get_position id k s.remote ≡ (reply, t)
          → Gives (IsOpened response) (try_catch read unpriced s).0
      from (answered p) t h =
          rw
            (try_catch-answered read unpriced s (
              bind-answered (remotely (api.get_position id k)) (λ p. pure (priced p)) s
                (remotely_lem (api.get_position id k) s h)))
            (refl, refl)
      from (thrown e) t h =
          rw
            (try_catch-thrown read unpriced s (
              bind-thrown (remotely (api.get_position id k)) (λ p. pure (priced p)) s
                (remotely_lem (api.get_position id k) s h)))
            (refl, refl)

  -- Once the account is connected, its order is sent.
  connected-ComesTo :
      (id : ℕ) (s u : Adapter S) (P : TradeResponse → OrderResult → Type 0)
      (send : Call S TradeResponse) (fallback : Option ℕ)
      (rest : OrderResult × Option TradeResponse → Call (Adapter S) OrderResult)
      → connection api id s ≡ (answered tt, u)
      → ((response : TradeResponse) (v : Adapter S)
          → Gives (P response) (rest (filled fallback response, some response) v).0)
      → ((code : ErrorCode) (v : Adapter S)
          → rest (rejected code, none) v ≡ (answered (rejected code), v))
      → ComesTo P (send u.remote).0 ((connection api id >> (trade send fallback >>= rest)) s).0
  connected-ComesTo id s u P send fallback rest connected given passed =
      rw (bind-answered (connection api id) (λ _. trade send fallback >>= rest) s connected)
        (trade-ComesTo P send fallback rest given passed u)

  -- Once the account is connected, each order of the MetaApi provider comes to what the SDK answers to
  -- the one call that it sends. A response gives an executed result: an opened one has the ticket of
  -- the position, or else of the order, whether or not the position can be read back; a modified or
  -- wholly closed one that of the position, or else the one asked for; a partial close keeps the ticket
  -- and names as its remainder exactly another position of the response. A rejection gives an
  -- unexecuted result with the code that the tables give, and any other error of the SDK is thrown as
  -- PLATFORM_CONNECTION_ERROR, to be retried.
  pub every_order-ComesTo :
      (id : ℕ) (o : OpenPositionRequest) (m : ModifyPositionRequest) (c : ClosePositionRequest)
      (s u : Adapter S)
      → connection api id s ≡ (answered tt, u)
      → ComesTo IsOpened
          (api.create_market_order id (market_order o) u.remote).0
          (open_position api id o s).0
        × ComesTo
            (IsModified m)
            (api.modify_position id m.ticket m.sl m.tp u.remote).0
            (modify_position api id m s).0
        × ComesTo
            (IsClosed c)
            (close_call api id c.ticket c.volume u.remote).0
            (close_position api id c s).0
  unfolding open_position modify_position close_position with_details
  every_order-ComesTo id o m c s u connected = (
    connected-ComesTo id s u IsOpened (api.create_market_order id (market_order o)) none
        (λ x. with_details api id o.volume x.0.executed x.0.ticket x.0) connected
        (λ response v. with_details-IsOpened id o.volume response (filled none response).ticket v)
        (λ code v. refl),
    connected-ComesTo id s u (IsModified m) (api.modify_position id m.ticket m.sl m.tp)
        (some m.ticket) (λ x. pure x.0) connected (λ response v. (refl, refl)) (λ code v. refl),
    connected-ComesTo id s u (IsClosed c) (close_call api id c.ticket c.volume) (some c.ticket)
        (λ x. pure (closed_part c.ticket c.volume x)) connected
        (λ response v. closed_part-IsClosed c.ticket c.volume response)
        (λ code v. rw (closed_part-rejected c.ticket c.volume code) refl),
  )
