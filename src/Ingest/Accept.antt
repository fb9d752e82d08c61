-- ===== src/Ingest/Accept.antt =====
-- Accepting an event once: what a delivery leaves behind, and what a second one does.
use copytrade_dashboard.Base.{
  ℕ, ◌≡◌, refl, ap, ◌∙◌, Bool, true, false, List, [], ◌∷◌, filter, any, not, arith, ◌==◌, ==_iff,
  Bool-cases, inl, inr,
}
use copytrade_dashboard.Store.Monad.{Result, ok, err, bind-ok}
use copytrade_dashboard.Ingest.State.{Strategy, MasterEventInput, Inbox, IngestResult, duplicate}
use copytrade_dashboard.Ingest.Receive.{claim_nonce, ingest_claimed, ingest_master_event}
use copytrade_dashboard.Ingest.Frame.{IsDistinct, ingest_claimed-Calm}

abbrev pub has_id : ℕ → List ℕ → Bool
has_id id ids = any (λ n. n == id) ids

claim_nonce_known :
    (id : ℕ) (w : Inbox)
    → w.redis_up ≡ true
    → has_id id w.nonces ≡ true
    → claim_nonce id w ≡ (ok false, w)
unfolding claim_nonce
claim_nonce_known id w up e = simp (up, e) refl

claim_nonce_new :
    (id : ℕ) (w : Inbox)
    → w.redis_up ≡ true
    → has_id id w.nonces ≡ false
    → claim_nonce id w ≡ (ok true, record w { nonces = id ∷ w.nonces })
unfolding claim_nonce
claim_nonce_new id w up e = simp (up, e) refl

-- The nonce is there after a claim, whether the claim succeeded or not.
claim_nonce_lem :
    (id : ℕ) (w : Inbox)
    → w.redis_up ≡ true
    → (b : Bool) × ((claim_nonce id w).0 ≡ ok b)
      × (has_id id (claim_nonce id w).1.nonces ≡ true)
      × ((claim_nonce id w).1.redis_up ≡ true)
claim_nonce_lem id w up = elim (Bool-cases (has_id id w.nonces)) [
  | inl e ↦ rw (claim_nonce_known id w up e) (false, refl, e, up)
  | inr e ↦ rw (claim_nonce_new id w up e) (true, refl, rw ((==_iff id id).1 refl) refl, up)
]

pub ingest_path :
    (s : Strategy) (i : MasterEventInput) (w : Inbox) {b : Bool}
    → (claim_nonce i.event_id w).0 ≡ ok b
    → ingest_master_event s i w ≡ ingest_claimed s i b (claim_nonce i.event_id w).1
unfolding ingest_master_event
ingest_path s i w h = bind-ok (claim_nonce i.event_id) (ingest_claimed s i) w h

claimed_again :
    (s : Strategy) (i : MasterEventInput) (w : Inbox)
    → w.redis_up ≡ true
    → has_id i.event_id w.nonces ≡ true
    → ingest_master_event s i w ≡ (ok duplicate, w)
unfolding ingest_claimed
claimed_again s i w up claimed =
    let e = claim_nonce_known i.event_id w up claimed in
    ingest_path s i w (ap (λ x. x.0) e) ∙ ap (λ x. (ok duplicate, x.1)) e

-- While Redis is up and the nonce lives, a second delivery of an event's id is answered as a
-- duplicate and changes nothing, whatever the first delivery came to: stored, ignored, or ended by
-- an error.
pub ingest_master_event_again :
    (s s' : Strategy) (i i' : MasterEventInput) (w : Inbox)
    → w.redis_up ≡ true
    → i'.event_id ≡ i.event_id
    → ingest_master_event s' i' (ingest_master_event s i w).1
      ≡ (ok duplicate, (ingest_master_event s i w).1)
ingest_master_event_again s s' i i' w up same =
    let (b, answered, claimed, still_up) = claim_nonce_lem i.event_id w up in
    let t = (claim_nonce i.event_id w).1 in
    let path : ingest_master_event s i w ≡ ingest_claimed s i b t = ingest_path s i w answered in
    let calm = ingest_claimed-Calm s i b t in
    let after : Inbox = (ingest_claimed s i b t).1 in
    let known : has_id i'.event_id after.nonces ≡ true = rw (same, calm.nonces_kept) claimed in
    rw path (claimed_again s' i' after (calm.redis_kept ∙ still_up) known)

pub claim_nonce_answers : (id : ℕ) (w : Inbox) → (b : Bool) × ((claim_nonce id w).0 ≡ ok b)
unfolding claim_nonce
claim_nonce_answers id w = elim (Bool-cases w.redis_up) [
  | inl up ↦ elim (Bool-cases (has_id id w.nonces)) [
    | inl e ↦ simp (up, e) (false, refl)
    | inr e ↦ simp (up, e) (true, refl)
  ]
  | inr down ↦ simp down (true, refl)
]

-- What happens to the ingest: a delivery, a nonce that expires, Redis going down or up.
pub data Step : Type 0 where
  delivery : Strategy → MasterEventInput → Step
  expiry : ℕ → Step
  redis : Bool → Step

abbrev pub happen : Step → Inbox → Inbox
happen (delivery s i) w = (ingest_master_event s i w).1
happen (expiry id) w = record w { nonces = filter (λ n. not (n == id)) w.nonces }
happen (redis up) w = record w { redis_up = up }

abbrev pub happen_all : List Step → Inbox → Inbox
happen_all [] w = w
happen_all (x ∷ xs) w = happen_all xs (happen x w)

claim_nonce_events : (id : ℕ) (w : Inbox) → (claim_nonce id w).1.events ≡ w.events
unfolding claim_nonce
claim_nonce_events id w = ground arith

ingest_master_event-IsDistinct :
    (s : Strategy) (i : MasterEventInput) (w : Inbox)
    → IsDistinct w.events
    → IsDistinct (ingest_master_event s i w).1.events
unfolding ingest_master_event
ingest_master_event-IsDistinct s i w d =
    from (claim_nonce i.event_id w).0 (claim_nonce i.event_id w).1
      (rw (claim_nonce_events i.event_id w) d)
  where
    from :
        (r : Result Bool) (t : Inbox)
        → IsDistinct t.events
        → let after : Result IngestResult × Inbox = elim r [
          | ok b ↦ ingest_claimed s i b t
          | err e ↦ (err e, t)
        ] in
          IsDistinct after.1.events
    from (ok b) t h = (ingest_claimed-Calm s i b t).distinct h
    from (err e) t h = h

-- Whatever deliveries arrive, whatever nonces expire and however Redis comes and goes, no event id
-- is stored twice.
pub happen_all-IsDistinct :
    (xs : List Step) (w : Inbox) → IsDistinct w.events → IsDistinct (happen_all xs w).events
happen_all-IsDistinct [] w d = d
happen_all-IsDistinct (delivery s i ∷ xs) w d =
    happen_all-IsDistinct xs _ (ingest_master_event-IsDistinct s i w d)
happen_all-IsDistinct (expiry id ∷ xs) w d = happen_all-IsDistinct xs _ d
happen_all-IsDistinct (redis up ∷ xs) w d = happen_all-IsDistinct xs _ d
