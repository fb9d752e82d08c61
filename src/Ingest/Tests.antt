-- ===== src/Ingest/Tests.antt =====
-- The ingest at a concrete strategy and event.
use copytrade_dashboard.Base.{ℕ, ◌≡◌, refl, true, false, Option, none, some, [], ◌∷◌}
use copytrade_dashboard.Number.Defs.{Number, hundredths, of_nat}
use copytrade_dashboard.Text.{Text, text_eq}
use copytrade_dashboard.Types.{EventType, OrderType, PositionStatus}
use copytrade_dashboard.Store.Rows.{TradeEvent, EventStatus}
use copytrade_dashboard.Store.Monad.{ok}
use copytrade_dashboard.Store.Tables.{World}
use copytrade_dashboard.Engine.Process.{no_outcome, process_trade_event}
use copytrade_dashboard.Engine.Delivery.{find_event}
use copytrade_dashboard.Engine.Scenario.{broker, euro, start}
use copytrade_dashboard.Ingest.State.{
  Strategy, StrategyStatus, StrategyOwner, MasterTrade, MasterEventInput, Inbox, queued, duplicate,
  ignored,
}
use copytrade_dashboard.Ingest.Record.{upsert_trade, create_event, store_beside, store_event}
use copytrade_dashboard.Ingest.Receive.{
  claim_nonce, enqueue_copy_job, record_ignored, queue_stored, ingest_fresh, ingest_claimed,
  ingest_master_event,
}
use copytrade_dashboard.Ingest.Access.{
  StrategyApiKey, SignedRequest, Environment, is_stale, is_signed, with_live_key, with_key,
  with_found_key, authenticate_master_request,
}
use copytrade_dashboard.Ingest.Accept.{
  has_id, delivery, expiry, redis, happen_all, happen_all-IsDistinct, ingest_master_event_again,
}
use copytrade_dashboard.Ingest.Frame.{IsDistinct}
use copytrade_dashboard.Ingest.Durable.{ingest_master_event_queued, ingest_master_event_ignored}
use copytrade_dashboard.Ingest.Granting.{IsGranted, authenticate_master_request-IsGranted}

abbrev strategy : Strategy
strategy = record {
  id = 5;
  code = euro;
  owner_type = StrategyOwner.provider;
  status = StrategyStatus.active;
}

abbrev paused_strategy : Strategy
paused_strategy = record strategy { status = StrategyStatus.paused }

abbrev input : MasterEventInput
input = record {
  event_id = 11;
  event_type = EventType.partial_close;
  ticket = 300;
  symbol = euro;
  order_type = OrderType.buy;
  volume = hundredths 4;
  price = of_nat 2;
  sl = none;
  tp = none;
  profit = none;
  master_balance = none;
  timestamp = 90000000;
}

abbrev trade : MasterTrade
trade = record {
  id = 40;
  strategy_id = 5;
  ticket = 300;
  symbol = euro;
  order_type = OrderType.buy;
  volume = hundredths 10;
  open_price = of_nat 2;
  close_price = none;
  sl = none;
  tp = none;
  profit = none;
  status = PositionStatus.opened;
  opened_at = 80000000;
  closed_at = none;
}

abbrev inbox : Inbox
inbox = record {
  redis_up = true;
  nonces = [];
  jobs = [];
  trades = trade ∷ [];
  events = [];
  next_id = 1000;
  now = 90000001;
}

ingest_master_event_again_example :
    ingest_master_event paused_strategy input (ingest_master_event strategy input inbox).1
    ≡ (ok duplicate, (ingest_master_event strategy input inbox).1)
ingest_master_event_again_example =
    ingest_master_event_again strategy paused_strategy input input inbox refl refl

happen_all-IsDistinct_example :
    IsDistinct
      (happen_all
        (delivery strategy input ∷ expiry 11 ∷ redis false ∷ delivery strategy input ∷ [])
        inbox).events
happen_all-IsDistinct_example =
    happen_all-IsDistinct
      (delivery strategy input ∷ expiry 11 ∷ redis false ∷ delivery strategy input ∷ []) inbox tt

is_queued : (ingest_master_event strategy input inbox).0 ≡ ok queued
unfolding ingest_master_event claim_nonce ingest_claimed ingest_fresh store_event store_beside
    upsert_trade create_event queue_stored enqueue_copy_job
is_queued = refl

ingest_master_event_queued_example :
    let after = (ingest_master_event strategy input inbox).1 in
    ((e : TradeEvent) × (find_event 11 after.events ≡ some e) × (e.status ≡ EventStatus.queued))
    × (has_id 11 after.jobs ≡ true)
ingest_master_event_queued_example = ingest_master_event_queued strategy input inbox is_queued

is_ignored : (ingest_master_event paused_strategy input inbox).0 ≡ ok ignored
unfolding ingest_master_event claim_nonce ingest_claimed ingest_fresh store_event store_beside
    upsert_trade create_event record_ignored
is_ignored = refl

abbrev shared : World ℕ
shared = record start { events = (ingest_master_event paused_strategy input inbox).1.events }

ingest_master_event_ignored_example :
    ((ingest_master_event paused_strategy input inbox).1.jobs ≡ [])
    × (process_trade_event broker 11 shared ≡ (ok no_outcome, shared))
ingest_master_event_ignored_example =
    ingest_master_event_ignored paused_strategy input inbox broker shared is_ignored refl

-- A signature that only repeats the secret, the time and the body.
abbrev sign : Text → Text → Text → Text
sign secret timestamp body = secret

abbrev code_in : Text → Option Text
code_in body = some body

abbrev key : StrategyApiKey
key = record {
  id = 3;
  key_id = 107 ∷ [];
  strategy = strategy;
  secret = 115 ∷ [];
  revoked_at = none;
}

abbrev request : SignedRequest
request = record {
  api_key = 107 ∷ [];
  timestamp = 57 ∷ [];
  seconds = some 90000;
  signature = 115 ∷ [];
  body = euro;
}

abbrev environment : Environment
environment = record {
  max_skew_seconds = 30;
  master_api_key = 109 ∷ [];
  master_api_secret = 110 ∷ [];
  now_ms = 90010000;
}

let_through :
    authenticate_master_request sign code_in environment (key ∷ []) [] request
    ≡ ok (record { strategy = strategy; key_record_id = some 3 })
unfolding authenticate_master_request with_found_key with_key with_live_key is_signed is_stale
    text_eq
let_through = refl

authenticate_master_request-IsGranted_example :
    (is_stale environment (some 90000) ≡ false)
    × IsGranted sign code_in environment
        (key ∷ [])
        []
        request
        (record { strategy = strategy; key_record_id = some 3 })
authenticate_master_request-IsGranted_example =
    authenticate_master_request-IsGranted sign code_in environment (key ∷ []) [] request let_through
