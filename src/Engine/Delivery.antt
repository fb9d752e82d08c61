-- ===== src/Engine/Delivery.antt =====
-- Jobs of the queue: one delivery of an event (`processTradeEvent`), and many.
use copytrade_dashboard.Base.{
  ℕ, ◌≡◌, refl, ap, ◌∙◌, true, false, Option, none, some, List, [], ◌∷◌, find, length, arith, ◌==◌,
  ==_iff, find_sound, Option-cases, Bool-cases, inl, inr,
}
use copytrade_dashboard.Types.{not_found}
use copytrade_dashboard.Store.Rows.{TradeEvent, Subscription, TradingAccount}
use copytrade_dashboard.Store.Monad.{app_error, Result, ok, err, bind-ok}
use copytrade_dashboard.Store.Tables.{TradeProvider, World, update_where}
use copytrade_dashboard.Engine.Process.{
  CopyOutcome, no_outcome, fan_out, process_found, process_trade_event, select_eligible,
  is_processed, mark_processing, mark_processed, finish_event, process_if_found,
}
use copytrade_dashboard.Engine.Frame.{keys}
use copytrade_dashboard.Engine.Frame.Copying.{IsUnique, Grows}
use copytrade_dashboard.Engine.Once.{IsBalanced, fan_out-Grows, fan_out_answers}

abbrev pub find_event : ℕ → List TradeEvent → Option TradeEvent
find_event id events = find (λ e. e.event_id == id) events

-- An update that keeps the ids of the events is seen by a look-up of the event.
find_event-update :
    (id : ℕ) (f : TradeEvent → TradeEvent) (events : List TradeEvent) {e : TradeEvent}
    → ((x : TradeEvent) → (f x).event_id ≡ x.event_id)
    → find_event id events ≡ some e
    → find_event id (update_where (λ x. x.event_id == id) f events) ≡ some (f e)
find_event-update id f [] keep h = cc
find_event-update id f (x ∷ events) {e} keep h =
    ground (arith, keep x, find_event-update id f events {e = e} keep)

-- Two updates in a row, of the event's own id.
find_event-updates :
    (id i : ℕ) (n c : ℕ) (events later : List TradeEvent) {e : TradeEvent}
    → i ≡ id
    → find_event id events ≡ some e
    → later ≡ update_where (λ x. x.event_id == i) mark_processing events
    → find_event id (update_where (λ x. x.event_id == i) (mark_processed n c) later)
      ≡ some (mark_processed n c (mark_processing e))
find_event-updates id i n c events later same h k =
    rw (same, k, same)
      (find_event-update id (mark_processed n c) _ (λ x. refl)
        (find_event-update id mark_processing events (λ x. refl) h))

module _ {B : Type 0} where
  -- The world while the event is processed, and after the fan-out.
  abbrev pub started : TradeEvent → World B → World B
  started e w = record w {
    events = update_where (λ x. x.event_id == e.event_id) mark_processing w.events;
  }

  abbrev pub eligible : TradeEvent → World B → List (Subscription × TradingAccount)
  eligible e w = select_eligible e.strategy_id (started e w) w.subscriptions

  abbrev fanned : TradeProvider B → TradeEvent → World B → Result CopyOutcome × World B
  fanned p e w = fan_out p e no_outcome (eligible e w) (started e w)

  process_found_lem :
      (p : TradeProvider B) (e : TradeEvent) (w : World B) {o : CopyOutcome}
      → (fanned p e w).0 ≡ ok o
      → let t = (fanned p e w).1 in
        process_found p e w ≡ (
          ok o,
          record t {
            events =
                update_where
                  (λ x. x.event_id == e.event_id)
                  (mark_processed t.now o.processed)
                  t.events;
          },
        )
  unfolding process_found finish_event
  process_found_lem p e w h =
      bind-ok (fan_out p e no_outcome (eligible e w)) (finish_event e) (started e w) h

  -- What one job does with an event that is there and not processed: it answers, and leaves the
  -- state of the fan-out with the event marked.
  pub record Job (p : TradeProvider B) (e : TradeEvent) (w : World B) : Type 0 where
    pub outcome : CopyOutcome
    pub balanced : IsBalanced outcome
    pub counted : outcome.processed ≡ length (eligible e w)
    pub state : World B
    pub grown : Grows (started e w) state
    pub result : process_found p e w ≡ (
      ok outcome,
      record state {
        events =
            update_where
              (λ x. x.event_id == e.event_id)
              (mark_processed state.now outcome.processed)
              state.events;
      },
    )

  job : (p : TradeProvider B) (e : TradeEvent) (w : World B) → Job p e w
  job p e w =
      let (o, answered, count, balanced) =
        fan_out_answers p e no_outcome (eligible e w) (started e w) (omega arith) in
      record {
        outcome = o;
        balanced = balanced;
        counted = omega (arith, count);
        state = (fanned p e w).1;
        grown = fan_out-Grows p e no_outcome (eligible e w) (started e w);
        result = process_found_lem p e w answered;
      }

module _ {B : Type 0} (p : TradeProvider B) (id : ℕ) (w : World B) where
  -- The event is found again after its job, marked with the count.
  job_found :
      (e : TradeEvent)
      → find_event id w.events ≡ some e
      → let j = job p e w in
        find_event id (process_found p e w).1.events
        ≡ some (mark_processed j.state.now j.outcome.processed (mark_processing e))
  job_found e h =
      let j = job p e w in
      let same : e.event_id ≡ id =
        (==_iff e.event_id id).0 (find_sound (λ x. x.event_id == id) w.events h) in
      ap (λ r. find_event id r.1.events) j.result
      ∙ find_event-updates id e.event_id j.state.now j.outcome.processed w.events j.state.events
          same h j.grown.events_kept

  process_trade_event_found :
      {e : TradeEvent}
      → find_event id w.events ≡ some e
      → is_processed e.status ≡ false
      → process_trade_event p id w ≡ process_found p e w
  unfolding process_trade_event process_if_found
  process_trade_event_found h fresh = rw (h, fresh)

  process_trade_event_missing :
      find_event id w.events ≡ none → process_trade_event p id w ≡ (err (app_error not_found), w)
  unfolding process_trade_event process_if_found
  process_trade_event_missing h = rw h

  pub process_trade_event_processed :
      {e : TradeEvent}
      → find_event id w.events ≡ some e
      → is_processed e.status ≡ true
      → process_trade_event p id w ≡ (ok no_outcome, w)
  unfolding process_trade_event process_if_found
  process_trade_event_processed h done = rw (h, done)

module _ {B : Type 0} (p : TradeProvider B) where
  -- A job whose event is stored and not processed yet answers, whatever the brokers of the members
  -- do. Its outcome counts one verdict for each subscription that was eligible once the event was
  -- marked as being processed, the three kinds of verdict add up, and the event is found again as
  -- processed, with that count as its fan-out.
  pub process_trade_event_answers :
      (id : ℕ) (w : World B) {e : TradeEvent}
      → find_event id w.events ≡ some e
      → is_processed e.status ≡ false
      → (o : CopyOutcome) × ((process_trade_event p id w).0 ≡ ok o)
        × (o.processed ≡ length (eligible e w))
        × IsBalanced o
        × (e' : TradeEvent) × (find_event id (process_trade_event p id w).1.events ≡ some e')
        × (is_processed e'.status ≡ true)
        × (e'.fan_out_count ≡ o.processed)
  process_trade_event_answers id w {e} h fresh =
      let j = job p e w in
      let same = process_trade_event_found p id w h fresh in
      (
        j.outcome,
        ap (λ r. r.0) (same ∙ j.result),
        j.counted,
        j.balanced,
        mark_processed j.state.now j.outcome.processed (mark_processing e),
        ap (λ r. find_event id r.1.events) same ∙ job_found p id w e h,
        refl,
        refl,
      )

  -- Redelivery is idempotent: once a job has answered, the same job on the state that it left
  -- answers with nothing to do and changes nothing, at the brokers or in the database.
  pub process_trade_event_again :
      (id : ℕ) (w : World B) {o : CopyOutcome}
      → (process_trade_event p id w).0 ≡ ok o
      → process_trade_event p id (process_trade_event p id w).1
        ≡ (ok no_outcome, (process_trade_event p id w).1)
  process_trade_event_again id w h = elim (Option-cases (find_event id w.events)) [
    | inl missing ↦
        let e : (process_trade_event p id w).0 ≡ err (app_error not_found) =
          ap (λ r. r.0) (process_trade_event_missing p id w missing) in
        cc
    | inr (e, found) ↦ elim (Bool-cases (is_processed e.status)) [
      | inl done ↦ let same = process_trade_event_processed p id w found done in rw same same
      | inr fresh ↦
          let (o, answered, count, balanced, e', kept, done, marked) =
            process_trade_event_answers id w found fresh in
          process_trade_event_processed p id _ kept done
    ]
  ]

  -- What a job leaves of the table of copies, on every branch.
  process_trade_event-IsUnique :
      (id : ℕ) (w : World B)
      → IsUnique (keys w.copy_trades)
      → IsUnique (keys (process_trade_event p id w).1.copy_trades)
  process_trade_event-IsUnique id w u = elim (Option-cases (find_event id w.events)) [
    | inl missing ↦ rw (process_trade_event_missing p id w missing) u
    | inr (e, found) ↦ elim (Bool-cases (is_processed e.status)) [
      | inl done ↦ rw (process_trade_event_processed p id w found done) u
      | inr fresh ↦
          rw (process_trade_event_found p id w found fresh, (job p e w).result)
            ((job p e w).grown.unique_kept u)
    ]
  ]

  -- The queue hands out jobs in any order, each as often as it likes.
  abbrev pub deliver : List ℕ → World B → World B
  deliver [] w = w
  deliver (id ∷ ids) w = deliver ids (process_trade_event p id w).1

  -- Whatever jobs are delivered, in whatever order and however often, a table of copies without two
  -- rows for one event and account stays such a table.
  pub deliver-IsUnique :
      (ids : List ℕ) (w : World B)
      → IsUnique (keys w.copy_trades)
      → IsUnique (keys (deliver ids w).copy_trades)
  deliver-IsUnique [] w u = u
  deliver-IsUnique (id ∷ ids) w u =
      deliver-IsUnique ids (process_trade_event p id w).1 (process_trade_event-IsUnique id w u)
