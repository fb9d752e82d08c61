-- ===== src/Ingest/Outcomes.antt =====
-- What storing an event and queueing its job come to.
use copytrade_dashboard.Base.{
  ℕ, ◌≡◌, refl, Bool, true, false, Option, none, some, find, any, ◌==◌, ==_iff, Bool-cases, inl,
  inr, ◌⊎◌,
}
use copytrade_dashboard.Number.Defs.{Number}
use copytrade_dashboard.Store.Rows.{TradeEvent, EventStatus}
use copytrade_dashboard.Store.Monad.{other_error, Result, ok, err}
use copytrade_dashboard.Store.Lookup.{find-append}
use copytrade_dashboard.Engine.Delivery.{find_event}
use copytrade_dashboard.Ingest.State.{Strategy, MasterTrade, MasterEventInput, Inbox}
use copytrade_dashboard.Ingest.Record.{
  close_fraction, upsert_trade, new_event, create_event, store_beside, store_event, is_trade,
}
use copytrade_dashboard.Ingest.Receive.{enqueue_copy_job}
use copytrade_dashboard.Ingest.Accept.{has_id}

abbrev pub StoredAs : MasterEventInput → EventStatus → Result Bool × Inbox → Type 0
StoredAs i st r = (e : TradeEvent) × (find_event i.event_id r.1.events ≡ some e) × (e.status ≡ st)

pub create_event_cases :
    (s : Strategy) (i : MasterEventInput) (st : EventStatus) (f : Option Number) (id : ℕ)
    (w : Inbox)
    → let r = create_event s i st f id w in (r.0 ≡ ok false) ⊎ ((r.0 ≡ ok true) × StoredAs i st r)
unfolding create_event new_event
create_event_cases s i st f id w =
    elim (Bool-cases (any (λ e. e.event_id == i.event_id) w.events)) [
      | inl e ↦ rw e (inl refl)
      | inr e ↦ rw e (
          inr (
            refl,
            (
              new_event s i st f id w.now,
              find-append (λ x. x.event_id == i.event_id) w.events _ e
                  ((==_iff i.event_id i.event_id).1 refl),
              refl,
            ),
          ))
    ]

pub store_event_cases :
    (s : Strategy) (i : MasterEventInput) (st : EventStatus) (w : Inbox)
    → let r = store_event s i st w in (r.0 ≡ ok false) ⊎ ((r.0 ≡ ok true) × StoredAs i st r)
unfolding store_event store_beside upsert_trade
store_event_cases s i st w = from (find (is_trade s.id i.ticket) w.trades)
  where
    from :
        (t : Option MasterTrade)
        → let r = store_beside s i st t w in (r.0 ≡ ok false) ⊎ ((r.0 ≡ ok true) × StoredAs i st r)
    from none = create_event_cases s i st (close_fraction i none) w.next_id _
    from (some t) = create_event_cases s i st (close_fraction i (some t)) t.id _

pub enqueue_copy_job_cases :
    (id : ℕ) (w : Inbox)
    → let r = enqueue_copy_job id w in
      ((r.0 ≡ ok tt) × (has_id id r.1.jobs ≡ true) × (r.1.events ≡ w.events))
      ⊎ (r.0 ≡ err other_error)
unfolding enqueue_copy_job
enqueue_copy_job_cases id w = elim (Bool-cases w.redis_up) [
  | inl up ↦ elim (Bool-cases (has_id id w.jobs)) [
    | inl e ↦ simp (up, e) (inl (refl, refl, refl))
    | inr e ↦ simp (up, e) (inl (refl, rw ((==_iff id id).1 refl) refl, refl))
  ]
  | inr down ↦ simp down (inr refl)
]
