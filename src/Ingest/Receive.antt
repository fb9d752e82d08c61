-- ===== src/Ingest/Receive.antt =====
-- `ingestMasterEvent`: the nonce, the event, the job.
use copytrade_dashboard.Base.{ℕ, Bool, true, false, ◌∷◌, any, ◌==◌, if◌then◌else◌}
use copytrade_dashboard.Store.Rows.{EventStatus}
use copytrade_dashboard.Store.Monad.{other_error, ok, err, Action, ◌>>=◌, ◌>>◌, pure, throw}
use copytrade_dashboard.Ingest.State.{
  Strategy, StrategyStatus, MasterEventInput, Inbox, IngestResult, queued, duplicate, ignored,
}
use copytrade_dashboard.Ingest.Record.{store_event}

-- `SET … NX`: only the first claim of a nonce succeeds; without Redis every claim does.
unfoldable pub claim_nonce : ℕ → Action Inbox Bool
claim_nonce id w =
    if w.redis_up
    then (if any (λ n. n == id) w.nonces
        then (ok false, w)
        else (ok true, record w { nonces = id ∷ w.nonces }))
    else (ok true, w)

-- `queue.add` with the event's id as the id of the job: the queue holds one job for an id.
unfoldable pub enqueue_copy_job : ℕ → Action Inbox (Unit {0})
enqueue_copy_job id w =
    if w.redis_up
    then (if any (λ n. n == id) w.jobs
        then (ok tt, w)
        else (ok tt, record w { jobs = id ∷ w.jobs }))
    else (err other_error, w)

abbrev pub is_active : StrategyStatus → Bool
is_active StrategyStatus.active = true
is_active _ = false

-- For a strategy that is not active: the event is stored as processed and never fanned out.
unfoldable pub record_ignored : Bool → Action Inbox IngestResult
record_ignored true = pure ignored
record_ignored false = throw other_error

unfoldable pub queue_stored : MasterEventInput → Bool → Action Inbox IngestResult
queue_stored input true = do enqueue_copy_job input.event_id; pure queued
queue_stored input false = pure duplicate

unfoldable pub ingest_fresh : Strategy → MasterEventInput → Bool → Action Inbox IngestResult
ingest_fresh strategy input true =
    store_event strategy input EventStatus.queued >>= queue_stored input
ingest_fresh strategy input false =
    store_event strategy input EventStatus.processed >>= record_ignored

unfoldable pub ingest_claimed : Strategy → MasterEventInput → Bool → Action Inbox IngestResult
ingest_claimed strategy input true = ingest_fresh strategy input (is_active strategy.status)
ingest_claimed strategy input false = pure duplicate

unfoldable pub ingest_master_event : Strategy → MasterEventInput → Action Inbox IngestResult
ingest_master_event strategy input = claim_nonce input.event_id >>= ingest_claimed strategy input
