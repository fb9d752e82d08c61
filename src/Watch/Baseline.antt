-- ===== src/Watch/Baseline.antt =====
-- What the first poll records.
use mathlib.Core.List.{append-nil, append_assoc}
use copytrade_dashboard.Base.{
  ℕ, ◌+◌, ◌≡◌, ◌∙◌, refl, sym, Bool, true, false, List, [], ◌∷◌, ◌++◌, any, filter, All, arith,
  ◌==◌, ==_iff, Bool-cases, inl, inr,
}
use copytrade_dashboard.Types.{ProviderPosition}
use copytrade_dashboard.Ingest.State.{MasterTrade, Inbox}
use copytrade_dashboard.Ingest.Record.{is_trade}
use copytrade_dashboard.Watch.Changes.{is_known, known_positions}
use copytrade_dashboard.Watch.Poll.{baseline_trade, record_position, record_baseline, is_live}
use copytrade_dashboard.Watch.Quiet.{IsRecorded}

-- The tickets of a report are all different.
abbrev pub AreDistinct : List ProviderPosition → Type 0
AreDistinct [] = Unit
AreDistinct (p ∷ ps) = All (λ q. (p.ticket == q.ticket) ≡ false) ps × AreDistinct ps

-- The second report has the positions of the first, in the same order, with the same tickets,
-- volumes, stops and targets. Prices and profits may have moved.
abbrev pub AreUnmoved : List ProviderPosition → List ProviderPosition → Type 0
AreUnmoved [] [] = Unit
AreUnmoved [] (q ∷ qs) = ⊥
AreUnmoved (p ∷ ps) [] = ⊥
AreUnmoved (p ∷ ps) (q ∷ qs) =
    ((p.ticket ≡ q.ticket) × (p.volume ≡ q.volume) × (p.sl ≡ q.sl) × (p.tp ≡ q.tp))
    × AreUnmoved ps qs

pub rows_from : ℕ → ℕ → List ProviderPosition → List MasterTrade
rows_from n id [] = []
rows_from n id (p ∷ ps) = baseline_trade n id p ∷ rows_from (n + 1) id ps

module _ (id : ℕ) where
  -- The strategy has no master trade yet.
  abbrev pub IsBlank : Inbox → Type 0
  IsBlank w = any (λ t. t.strategy_id == id) w.trades ≡ false

  any-is_trade :
      (ticket : ℕ) (ts : List MasterTrade)
      → any (λ t. t.strategy_id == id) ts ≡ false
      → any (is_trade id ticket) ts ≡ false
  any-is_trade ticket [] h = refl
  any-is_trade ticket (t ∷ ts) h = ground (arith, any-is_trade ticket ts)

  filter-is_known :
      (ts : List MasterTrade)
      → any (λ t. t.strategy_id == id) ts ≡ false
      → filter (is_known id) ts ≡ []
  filter-is_known [] h = refl
  filter-is_known (t ∷ ts) h = ground (arith, filter-is_known ts)

  filter-append :
      (q : MasterTrade → Bool) (ts us : List MasterTrade)
      → filter q (ts ++ us) ≡ filter q ts ++ filter q us
  filter-append q [] us = refl
  filter-append q (t ∷ ts) us = ground (arith, filter-append q ts us)

  any-append_ne :
      (ticket : ℕ) (ts : List MasterTrade) (t : MasterTrade)
      → any (is_trade id ticket) ts ≡ false
      → (t.ticket == ticket) ≡ false
      → any (is_trade id ticket) (ts ++ t ∷ []) ≡ false
  any-append_ne ticket [] t h k = ground arith
  any-append_ne ticket (u ∷ ts) t h k = ground (arith, any-append_ne ticket ts t)

  unrecorded-record :
      (n : ℕ) (p : ProviderPosition) (ts : List MasterTrade) (qs : List ProviderPosition)
      → All (λ q. (p.ticket == q.ticket) ≡ false) qs
      → All (λ q. any (is_trade id q.ticket) ts ≡ false) qs
      → All (λ q. any (is_trade id q.ticket) (ts ++ baseline_trade n id p ∷ []) ≡ false) qs
  unfolding baseline_trade
  unrecorded-record n p ts [] d h = tt
  unrecorded-record n p ts (q ∷ qs) d h = (
    any-append_ne q.ticket ts (baseline_trade n id p) h.0 d.0,
    unrecorded-record n p ts qs d.1 h.1,
  )

  abbrev with_row : ProviderPosition → Inbox → Inbox
  with_row p w = record w {
    trades = w.trades ++ baseline_trade w.next_id id p ∷ [];
    next_id = w.next_id + 1;
  }

  record_position_new :
      (p : ProviderPosition) (w : Inbox)
      → any (is_trade id p.ticket) w.trades ≡ false
      → record_position id p w ≡ with_row p w
  unfolding record_position
  record_position_new p w h = rw h refl

  record_position_again :
      (p : ProviderPosition) (w : Inbox)
      → any (is_trade id p.ticket) w.trades ≡ true
      → record_position id p w ≡ w
  unfolding record_position
  record_position_again p w h = rw h refl

  known-with_row :
      (p : ProviderPosition) (w : Inbox)
      → known_positions id (with_row p w)
        ≡ known_positions id w ++ baseline_trade w.next_id id p ∷ []
  unfolding known_positions baseline_trade
  known-with_row p w =
      filter-append (is_known id) w.trades (baseline_trade w.next_id id p ∷ [])
      ∙ rw ((==_iff id id).1 refl) refl

  -- The recorded rows come behind those that were known.
  record_baseline-known :
      (ps : List ProviderPosition) (w : Inbox)
      → AreDistinct ps
      → All (λ p. any (is_trade id p.ticket) w.trades ≡ false) ps
      → known_positions id (record_baseline id ps w)
        ≡ known_positions id w ++ rows_from w.next_id id ps
  unfolding record_baseline rows_from
  record_baseline-known [] w d h = sym (append-nil _)
  record_baseline-known (p ∷ ps) w d h = rw (record_position_new p w h.0) (
      record_baseline-known ps (with_row p w) d.1
        (unrecorded-record w.next_id p w.trades ps d.0 h.1)
      ∙ rw (known-with_row p w) (
          append_assoc (known_positions id w) (baseline_trade w.next_id id p ∷ [])
            (rows_from (w.next_id + 1) id ps)))

  All-is_trade :
      (ts : List MasterTrade) (ps : List ProviderPosition)
      → any (λ t. t.strategy_id == id) ts ≡ false
      → All (λ p. any (is_trade id p.ticket) ts ≡ false) ps
  All-is_trade ts [] h = tt
  All-is_trade ts (p ∷ ps) h = (any-is_trade p.ticket ts h, All-is_trade ts ps h)

  -- For a strategy without master trades the known positions are the recorded rows.
  pub record_baseline-rows :
      (ps : List ProviderPosition) (w : Inbox)
      → AreDistinct ps
      → IsBlank w
      → known_positions id (record_baseline id ps w) ≡ rows_from w.next_id id ps
  unfolding known_positions
  record_baseline-rows ps w d blank =
      let e : known_positions id w ≡ [] = filter-is_known w.trades blank in
      record_baseline-known ps w d (All-is_trade w.trades ps blank) ∙ rw e refl

  live_weaken :
      (q : ProviderPosition) (qs : List ProviderPosition) (ts : List MasterTrade)
      → All (λ t. is_live qs t.ticket ≡ true) ts
      → All (λ t. is_live (q ∷ qs) t.ticket ≡ true) ts
  live_weaken q qs [] h = tt
  live_weaken q qs (t ∷ ts) h = (ground arith, live_weaken q qs ts h.1)

  -- Every recorded row is still live.
  pub rows_from_live :
      (n : ℕ) (ps qs : List ProviderPosition)
      → AreUnmoved ps qs
      → All (λ t. is_live qs t.ticket ≡ true) (rows_from n id ps)
  unfolding rows_from baseline_trade
  rows_from_live n [] qs h = tt
  rows_from_live n (p ∷ ps) [] h = absurd h
  rows_from_live n (p ∷ ps) (q ∷ qs) (same, h) =
      (ground arith, live_weaken q qs (rows_from (n + 1) id ps) (rows_from_live (n + 1) ps qs h))

  other_tickets :
      (t : ℕ) (ps qs : List ProviderPosition)
      → AreUnmoved ps qs
      → All (λ q. (t == q.ticket) ≡ false) ps
      → All (λ q. (t == q.ticket) ≡ false) qs
  other_tickets t [] [] h d = tt
  other_tickets t [] (q ∷ qs) h d = absurd h
  other_tickets t (p ∷ ps) [] h d = absurd h
  other_tickets t (p ∷ ps) (q ∷ qs) (same, h) d = (rw (← same.0) d.0, other_tickets t ps qs h d.1)

  IsRecorded-weaken :
      (t : MasterTrade) (ts : List MasterTrade) (qs : List ProviderPosition)
      → All (λ q. (t.ticket == q.ticket) ≡ false) qs
      → All (IsRecorded ts) qs
      → All (IsRecorded (t ∷ ts)) qs
  IsRecorded-weaken t ts [] d h = tt
  IsRecorded-weaken t ts (q ∷ qs) d ((u, found, agrees), h) =
      ((u, rw d.0 found, agrees), IsRecorded-weaken t ts qs d.1 h)

  -- Every position of an unmoved report is recorded as it is.
  pub rows-IsRecorded :
      (n : ℕ) (ps qs : List ProviderPosition)
      → AreDistinct ps
      → AreUnmoved ps qs
      → All (IsRecorded (rows_from n id ps)) qs
  unfolding rows_from baseline_trade
  rows-IsRecorded n [] [] d h = tt
  rows-IsRecorded n [] (q ∷ qs) d h = absurd h
  rows-IsRecorded n (p ∷ ps) [] d h = absurd h
  rows-IsRecorded n (p ∷ ps) (q ∷ qs) d (same, h) =
      let rest = rows_from (n + 1) id ps in
      let row = baseline_trade n id p in
      (
        (
          row,
          rw (same.0, (==_iff q.ticket q.ticket).1 refl) refl,
          record { same_volume = same.1; same_sl = same.2; same_tp = same.3 },
        ),
        IsRecorded-weaken row rest qs (other_tickets p.ticket ps qs h d.0)
            (rows-IsRecorded (n + 1) ps qs d.1 h),
      )

  -- Recording touches no event, no job and no nonce.
  pub record_baseline_silent :
      (ps : List ProviderPosition) (w : Inbox)
      → ((record_baseline id ps w).events ≡ w.events)
        × ((record_baseline id ps w).jobs ≡ w.jobs)
        × ((record_baseline id ps w).nonces ≡ w.nonces)
  unfolding record_baseline
  record_baseline_silent [] w = (refl, refl, refl)
  record_baseline_silent (p ∷ ps) w = elim (Bool-cases (any (is_trade id p.ticket) w.trades)) [
    | inl e ↦ rw (record_position_again p w e, record_baseline) (record_baseline_silent ps w)
    | inr e ↦
        rw (record_position_new p w e, record_baseline) (record_baseline_silent ps (with_row p w))
  ]
