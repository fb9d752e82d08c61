-- ===== src/Ingest/Frame.antt =====
-- What each call of the ingest leaves of the nonces, of Redis and of the events.
use copytrade_dashboard.Base.{
  ℕ, ◌≡◌, refl, ◌∙◌, Bool, true, false, Option, none, some, List, [], ◌∷◌, ◌++◌, find, any, arith,
  ◌==◌, Bool-cases, inl, inr,
}
use copytrade_dashboard.Number.Defs.{Number}
use copytrade_dashboard.Store.Rows.{TradeEvent, EventStatus}
use copytrade_dashboard.Store.Monad.{Result, ok, err, Action, ◌>>=◌, pure}
use copytrade_dashboard.Ingest.State.{Strategy, MasterTrade, MasterEventInput, Inbox, queued}
use copytrade_dashboard.Ingest.Record.{
  is_trade, close_fraction, upsert_trade, new_event, create_event, store_beside, store_event,
  remaining_volume,
}
use copytrade_dashboard.Ingest.Receive.{
  enqueue_copy_job, is_active, record_ignored, queue_stored, ingest_fresh, ingest_claimed,
}

-- No id has two events.
abbrev pub IsDistinct : List TradeEvent → Type 0
IsDistinct [] = Unit
IsDistinct (e ∷ es) = (any (λ x. x.event_id == e.event_id) es ≡ false) × IsDistinct es

any-append :
    (id : ℕ) (es : List TradeEvent) (e : TradeEvent)
    → any (λ x. x.event_id == id) es ≡ false
    → (e.event_id == id) ≡ false
    → any (λ x. x.event_id == id) (es ++ e ∷ []) ≡ false
any-append id [] e h k = rw k refl
any-append id (x ∷ es) e h k = ground (arith, any-append id es e)

pub IsDistinct-append :
    (es : List TradeEvent) (e : TradeEvent)
    → any (λ x. x.event_id == e.event_id) es ≡ false
    → IsDistinct es
    → IsDistinct (es ++ e ∷ [])
IsDistinct-append [] e h d = (refl, tt)
IsDistinct-append (x ∷ es) e h d =
    ground (arith, any-append x.event_id es e, IsDistinct-append es e)

-- What a call keeps: the events stay distinct, and the nonces and the state of Redis stay.
pub record Calm (w w' : Inbox) : Type 0 where
  pub distinct : IsDistinct w.events → IsDistinct w'.events
  pub nonces_kept : w'.nonces ≡ w.nonces
  pub redis_kept : w'.redis_up ≡ w.redis_up

pub Calm-refl : (w : Inbox) → Calm w w
Calm-refl w = record { distinct = λ d. d; nonces_kept = refl; redis_kept = refl }

pub Calm-trans : (u v w : Inbox) → Calm u v → Calm v w → Calm u w
Calm-trans u v w h k = record {
  distinct = λ d. k.distinct (h.distinct d);
  nonces_kept = k.nonces_kept ∙ h.nonces_kept;
  redis_kept = k.redis_kept ∙ h.redis_kept;
}

pub bind-Calm :
    {A C : Type 0} (m : Action Inbox A) (f : A → Action Inbox C)
    → ((w : Inbox) → Calm w (m w).1)
    → ((a : A) (w : Inbox) → Calm w (f a w).1)
    → (w : Inbox) → Calm w ((m >>= f) w).1
bind-Calm {A} {C} m f hm hf w = from (m w).0 (m w).1 (hm w)
  where
    from :
        (r : Result A) (t : Inbox)
        → Calm w t
        → let after : Result C × Inbox = elim r [ ok a ↦ f a t | err e ↦ (err e, t) ] in
          Calm w after.1
    from (ok a) t h = Calm-trans w t (f a t).1 h (hf a t)
    from (err e) t h = h

upsert_trade-Calm :
    (s : Strategy) (i : MasterEventInput) (rest : Option Number) (t : Option MasterTrade)
    (w : Inbox)
    → Calm w (upsert_trade s i rest t w).1
unfolding upsert_trade
upsert_trade-Calm s i rest none w = record {
  distinct = λ d. d;
  nonces_kept = refl;
  redis_kept = refl;
}
upsert_trade-Calm s i rest (some t) w = record {
  distinct = λ d. d;
  nonces_kept = refl;
  redis_kept = refl;
}

create_event-Calm :
    (s : Strategy) (i : MasterEventInput) (st : EventStatus) (f : Option Number) (id : ℕ)
    (w : Inbox)
    → Calm w (create_event s i st f id w).1
unfolding create_event new_event
create_event-Calm s i st f id w = elim (Bool-cases (any (λ e. e.event_id == i.event_id) w.events)) [
  | inl e ↦ rw e (Calm-refl w)
  | inr e ↦ rw e (record {
    distinct = λ d. IsDistinct-append w.events _ e d;
    nonces_kept = refl;
    redis_kept = refl;
  })
]

pub store_event-Calm :
    (s : Strategy) (i : MasterEventInput) (st : EventStatus) (w : Inbox)
    → Calm w (store_event s i st w).1
unfolding store_event store_beside
store_event-Calm s i st w =
    let t = find (is_trade s.id i.ticket) w.trades in
    bind-Calm (upsert_trade s i (remaining_volume i t) t) (create_event s i st (close_fraction i t))
      (upsert_trade-Calm s i (remaining_volume i t) t)
      (create_event-Calm s i st (close_fraction i t)) w

pub enqueue_copy_job-Calm : (id : ℕ) (w : Inbox) → Calm w (enqueue_copy_job id w).1
unfolding enqueue_copy_job
enqueue_copy_job-Calm id w = ground arith

queue_stored-Calm : (i : MasterEventInput) (b : Bool) (w : Inbox) → Calm w (queue_stored i b w).1
unfolding queue_stored
queue_stored-Calm i true w =
    bind-Calm (enqueue_copy_job i.event_id) (λ _. pure queued) (enqueue_copy_job-Calm i.event_id)
      (λ _ u. Calm-refl u) w
queue_stored-Calm i false w = Calm-refl w

record_ignored-Calm : (b : Bool) (w : Inbox) → Calm w (record_ignored b w).1
unfolding record_ignored
record_ignored-Calm true w = Calm-refl w
record_ignored-Calm false w = Calm-refl w

ingest_fresh-Calm :
    (s : Strategy) (i : MasterEventInput) (b : Bool) (w : Inbox) → Calm w (ingest_fresh s i b w).1
unfolding ingest_fresh
ingest_fresh-Calm s i true w =
    bind-Calm (store_event s i EventStatus.queued) (queue_stored i)
      (store_event-Calm s i EventStatus.queued) (queue_stored-Calm i) w
ingest_fresh-Calm s i false w =
    bind-Calm (store_event s i EventStatus.processed) record_ignored
      (store_event-Calm s i EventStatus.processed) record_ignored-Calm w

pub ingest_claimed-Calm :
    (s : Strategy) (i : MasterEventInput) (b : Bool) (w : Inbox) → Calm w (ingest_claimed s i b w).1
unfolding ingest_claimed
ingest_claimed-Calm s i false w = Calm-refl w
ingest_claimed-Calm s i true w = ingest_fresh-Calm s i (is_active s.status) w
