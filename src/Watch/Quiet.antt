-- ===== src/Watch/Quiet.antt =====
-- A poll that finds what was recorded.
use copytrade_dashboard.Base.{
  ℕ, ◌≡◌, ◌∙◌, refl, true, false, Option, some, List, [], ◌∷◌, All, arith,
}
use copytrade_dashboard.Number.Defs.{Number, subtract, add, negate, absolute, is_less, cross}
use copytrade_dashboard.Types.{EventType, ProviderPosition}
use copytrade_dashboard.Store.Monad.{ok, bind-answer}
use copytrade_dashboard.Store.Tables.{TradeProvider}
use copytrade_dashboard.Ingest.State.{MasterTrade, Inbox}
use copytrade_dashboard.Watch.State.{WatchResult, Detail, empty}
use copytrade_dashboard.Watch.Changes.{
  PublishContext, volume_epsilon, moved, watch_stops, watch_growth, watch_position,
}
use copytrade_dashboard.Watch.Poll.{recorded, is_live, watch_live, watch_vanished, publish_changes}

-- The row records this position: what can move is as it was.
pub record Agrees (t : MasterTrade) (p : ProviderPosition) : Type 0 where
  pub same_volume : t.volume ≡ p.volume
  pub same_sl : t.sl ≡ p.sl
  pub same_tp : t.tp ≡ p.tp

abbrev pub IsRecorded : List MasterTrade → ProviderPosition → Type 0
IsRecorded known p = (t : MasterTrade) × (recorded p.ticket known ≡ some t) × Agrees t p

no_difference : (v : Number) → is_less volume_epsilon (subtract v v) ≡ false
unfolding subtract add negate cross
no_difference v = ground arith

not_moved : (x : Option Number) → moved x x ≡ false
unfolding moved absolute subtract add negate cross
not_moved x = ground arith

module _ (event_id_for : ℕ → EventType → ℕ → Detail → ℕ) (context : PublishContext) where
  watch_position_quiet :
      (t : MasterTrade) (p : ProviderPosition) (total : WatchResult) (w : Inbox)
      → Agrees t p
      → watch_position event_id_for context (some t) p total w ≡ (ok total, w)
  unfolding watch_position watch_growth watch_stops
  watch_position_quiet t p total w h =
      rw (h.same_volume, h.same_sl, h.same_tp)
        (rw (no_difference p.volume, not_moved p.sl, not_moved p.tp) refl)

  watch_live_quiet :
      (known : List MasterTrade) (ps : List ProviderPosition) (total : WatchResult) (w : Inbox)
      → All (IsRecorded known) ps
      → watch_live event_id_for context known ps total w ≡ (ok total, w)
  unfolding watch_live
  watch_live_quiet known [] total w h = refl
  watch_live_quiet known (p ∷ ps) total w ((t, found, agrees), h) =
      bind-answer (watch_position event_id_for context (recorded p.ticket known) p total)
        (watch_live event_id_for context known ps) w
        (rw found (watch_position_quiet t p total w agrees))
      ∙ watch_live_quiet known ps total w h

  module _ {B : Type 0} (p : TradeProvider B) (session : ℕ) (broker : B) where
    watch_vanished_quiet :
        (ps : List ProviderPosition) (known : List MasterTrade) (total : WatchResult) (w : Inbox)
        → All (λ t. is_live ps t.ticket ≡ true) known
        → watch_vanished event_id_for p context session broker ps known total w ≡ (ok total, w)
    unfolding watch_vanished
    watch_vanished_quiet ps [] total w h = refl
    watch_vanished_quiet ps (t ∷ ts) total w (live, h) =
        rw live (watch_vanished_quiet ps ts total w h)

    pub publish_changes_quiet :
        (ps : List ProviderPosition) (known : List MasterTrade) (id : ℕ) (w : Inbox)
        → All (IsRecorded known) ps
        → All (λ t. is_live ps t.ticket ≡ true) known
        → publish_changes event_id_for p context session broker ps known id w ≡ (ok (empty id), w)
    unfolding publish_changes
    publish_changes_quiet ps known id w h live =
        bind-answer (watch_live event_id_for context known ps (empty id))
          (watch_vanished event_id_for p context session broker ps known) w
          (watch_live_quiet known ps (empty id) w h)
        ∙ watch_vanished_quiet ps known (empty id) w live
