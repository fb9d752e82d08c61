-- ===== src/Ingest/Durable.antt =====
-- The answers QUEUED and IGNORED of `ingestMasterEvent`, and what they leave stored.
use copytrade_dashboard.Base.{
  ℕ, ◌≡◌, sym, ap, ◌∙◌, Bool, true, false, Option, none, some, find, arith, Bool-cases, inl, inr,
}
use copytrade_dashboard.Number.Defs.{Number}
use copytrade_dashboard.Store.Rows.{TradeEvent, EventStatus}
use copytrade_dashboard.Store.Monad.{other_error, bind-err, ok, err, pure, bind-ok}
use copytrade_dashboard.Store.Tables.{TradeProvider, World}
use copytrade_dashboard.Engine.Process.{no_outcome, is_processed, process_trade_event}
use copytrade_dashboard.Engine.Delivery.{find_event, process_trade_event_processed}
use copytrade_dashboard.Ingest.State.{
  Strategy, MasterTrade, MasterEventInput, Inbox, queued, duplicate, ignored,
}
use copytrade_dashboard.Ingest.Record.{
  close_fraction, upsert_trade, create_event, store_beside, store_event, is_trade,
}
use copytrade_dashboard.Ingest.Receive.{
  claim_nonce, enqueue_copy_job, is_active, record_ignored, queue_stored, ingest_fresh,
  ingest_claimed, ingest_master_event,
}
use copytrade_dashboard.Ingest.Accept.{has_id, ingest_path, claim_nonce_answers}
use copytrade_dashboard.Ingest.Outcomes.{store_event_cases, enqueue_copy_job_cases}

queue_stored_lem :
    (i : MasterEventInput) (w : Inbox)
    → (queue_stored i true w).0 ≡ ok queued
    → (has_id i.event_id (queue_stored i true w).1.jobs ≡ true)
      × ((queue_stored i true w).1.events ≡ w.events)
unfolding queue_stored
queue_stored_lem i w h =
    let add = enqueue_copy_job i.event_id in
    elim (enqueue_copy_job_cases i.event_id w) [
      | inl (added, has, kept) ↦
          let same : queue_stored i true w ≡ (ok queued, (add w).1) =
            bind-ok add (λ _. pure queued) w added in
          rw same (has, kept)
      | inr down ↦
          let same : queue_stored i true w ≡ (err other_error, (add w).1) =
            bind-err add (λ _. pure queued) w down in
          let e = ap (λ x. x.0) same in cc
    ]

fresh_queued :
    (s : Strategy) (i : MasterEventInput) (w : Inbox)
    → (ingest_fresh s i true w).0 ≡ ok queued
    → let after = (ingest_fresh s i true w).1 in
      ((e : TradeEvent) × (find_event i.event_id after.events ≡ some e)
        × (e.status ≡ EventStatus.queued))
      × (has_id i.event_id after.jobs ≡ true)
unfolding ingest_fresh queue_stored
fresh_queued s i w h =
    let store = store_event s i EventStatus.queued in
    elim (store_event_cases s i EventStatus.queued w) [
      | inl twice ↦
          let same : ingest_fresh s i true w ≡ (ok duplicate, (store w).1) =
            bind-ok store (queue_stored i) w twice in
          let e = ap (λ x. x.0) same in cc
      | inr (stored, (e, found, status)) ↦
          let same : ingest_fresh s i true w ≡ queue_stored i true (store w).1 =
            bind-ok store (queue_stored i) w stored in
          let (has, kept) = queue_stored_lem i (store w).1 (ap (λ x. x.0) (sym same) ∙ h) in
          rw same ((e, rw kept found, status), has)
    ]

ignored_not_queued :
    (s : Strategy) (i : MasterEventInput) (w : Inbox) → ¬ (ingest_fresh s i false w).0 ≡ ok queued
unfolding ingest_fresh record_ignored
ignored_not_queued s i w h =
    let store = store_event s i EventStatus.processed in
    elim (store_event_cases s i EventStatus.processed w) [
      | inl twice ↦ let e = ap (λ x. x.0) (bind-ok store record_ignored w twice) in cc
      | inr (stored, found) ↦ let e = ap (λ x. x.0) (bind-ok store record_ignored w stored) in cc
    ]

claimed_queued :
    (s : Strategy) (i : MasterEventInput) (b : Bool) (w : Inbox)
    → (ingest_claimed s i b w).0 ≡ ok queued
    → let after = (ingest_claimed s i b w).1 in
      ((e : TradeEvent) × (find_event i.event_id after.events ≡ some e)
        × (e.status ≡ EventStatus.queued))
      × (has_id i.event_id after.jobs ≡ true)
unfolding ingest_claimed
claimed_queued s i false w h = cc
claimed_queued s i true w h = elim (Bool-cases (is_active s.status)) [
  | inl e ↦ rw e (fresh_queued s i w (rw e at h))
  | inr e ↦ absurd (ignored_not_queued s i w (rw e at h))
]

-- Durable acceptance: an event that is answered as queued is found under its id as queued, and the
-- queue holds its job.
pub ingest_master_event_queued :
    (s : Strategy) (i : MasterEventInput) (w : Inbox)
    → (ingest_master_event s i w).0 ≡ ok queued
    → let after = (ingest_master_event s i w).1 in
      ((e : TradeEvent) × (find_event i.event_id after.events ≡ some e)
        × (e.status ≡ EventStatus.queued))
      × (has_id i.event_id after.jobs ≡ true)
ingest_master_event_queued s i w h =
    let (b, answered) = claim_nonce_answers i.event_id w in
    let path = ingest_path s i w answered in
    rw path (claimed_queued s i b (claim_nonce i.event_id w).1 (ap (λ x. x.0) (sym path) ∙ h))

create_event_jobs :
    (s : Strategy) (i : MasterEventInput) (st : EventStatus) (f : Option Number) (id : ℕ)
    (w : Inbox)
    → (create_event s i st f id w).1.jobs ≡ w.jobs
unfolding create_event
create_event_jobs s i st f id w = ground arith

store_event_jobs :
    (s : Strategy) (i : MasterEventInput) (st : EventStatus) (w : Inbox)
    → (store_event s i st w).1.jobs ≡ w.jobs
unfolding store_event store_beside upsert_trade
store_event_jobs s i st w = from (find (is_trade s.id i.ticket) w.trades)
  where
    from : (t : Option MasterTrade) → (store_beside s i st t w).1.jobs ≡ w.jobs
    from none = create_event_jobs s i st (close_fraction i none) w.next_id _
    from (some t) = create_event_jobs s i st (close_fraction i (some t)) t.id _

claim_nonce_jobs : (id : ℕ) (w : Inbox) → (claim_nonce id w).1.jobs ≡ w.jobs
unfolding claim_nonce
claim_nonce_jobs id w = ground arith

-- What an ignored event leaves.
abbrev pub IsIgnored : MasterEventInput → Inbox → Inbox → Type 0
IsIgnored i w after =
    (after.jobs ≡ w.jobs)
    × ((e : TradeEvent) × (find_event i.event_id after.events ≡ some e)
        × (e.status ≡ EventStatus.processed))

fresh_ignored :
    (s : Strategy) (i : MasterEventInput) (w : Inbox)
    → (ingest_fresh s i false w).0 ≡ ok ignored
    → IsIgnored i w (ingest_fresh s i false w).1
unfolding ingest_fresh record_ignored
fresh_ignored s i w h =
    let store = store_event s i EventStatus.processed in
    elim (store_event_cases s i EventStatus.processed w) [
      | inl twice ↦ let e = ap (λ x. x.0) (bind-ok store record_ignored w twice) in cc
      | inr (stored, found) ↦
          let same : ingest_fresh s i false w ≡ (ok ignored, (store w).1) =
            bind-ok store record_ignored w stored in
          rw same (store_event_jobs s i EventStatus.processed w, found)
    ]

queued_not_ignored :
    (s : Strategy) (i : MasterEventInput) (w : Inbox) → ¬ (ingest_fresh s i true w).0 ≡ ok ignored
unfolding ingest_fresh queue_stored
queued_not_ignored s i w h =
    let store = store_event s i EventStatus.queued in
    let t = (store w).1 in
    let add = enqueue_copy_job i.event_id in
    elim (store_event_cases s i EventStatus.queued w) [
      | inl twice ↦ let e = ap (λ x. x.0) (bind-ok store (queue_stored i) w twice) in cc
      | inr (stored, found) ↦
          let e = ap (λ x. x.0) (bind-ok store (queue_stored i) w stored) in
          elim (enqueue_copy_job_cases i.event_id t) [
            | inl (added, has, kept) ↦
                let e' = ap (λ x. x.0) (bind-ok add (λ _. pure queued) t added) in cc
            | inr down ↦ let e' = ap (λ x. x.0) (bind-err add (λ _. pure queued) t down) in cc
          ]
    ]

claimed_ignored :
    (s : Strategy) (i : MasterEventInput) (b : Bool) (w : Inbox)
    → (ingest_claimed s i b w).0 ≡ ok ignored
    → IsIgnored i w (ingest_claimed s i b w).1
unfolding ingest_claimed
claimed_ignored s i false w h = cc
claimed_ignored s i true w h = elim (Bool-cases (is_active s.status)) [
  | inl e ↦ absurd (queued_not_ignored s i w (rw e at h))
  | inr e ↦ rw e (fresh_ignored s i w (rw e at h))
]

-- An event that is answered as ignored, because its strategy is not active, is stored but never
-- reaches a member: no job is queued for it, and a job for it that runs on a database with these
-- events answers with nothing to do and changes nothing.
pub ingest_master_event_ignored :
    {B : Type 0} (s : Strategy) (i : MasterEventInput) (w : Inbox) (p : TradeProvider B)
    (v : World B)
    → (ingest_master_event s i w).0 ≡ ok ignored
    → v.events ≡ (ingest_master_event s i w).1.events
    → ((ingest_master_event s i w).1.jobs ≡ w.jobs)
      × (process_trade_event p i.event_id v ≡ (ok no_outcome, v))
ingest_master_event_ignored s i w p v h shared =
    let (b, answered) = claim_nonce_answers i.event_id w in
    let t = (claim_nonce i.event_id w).1 in
    let path = ingest_path s i w answered in
    let (jobs, (e, found, status)) = claimed_ignored s i b t (ap (λ x. x.0) (sym path) ∙ h) in
    let after : v.events ≡ (ingest_claimed s i b t).1.events = shared ∙ ap (λ x. x.1.events) path in
    let there : find_event i.event_id v.events ≡ some e =
      ap (find_event i.event_id) after ∙ found in
    (
      ap (λ x. x.1.jobs) path ∙ jobs ∙ claim_nonce_jobs i.event_id w,
      process_trade_event_processed p i.event_id v there (ap is_processed status),
    )
