-- ===== src/Strategy/Pausing.antt =====
-- A strategy that is taken out of ACTIVE.
use copytrade_dashboard.Base.{
  ℕ, ◌≡◌, refl, sym, ◌∙◌, false, List, [], ◌∷◌, any, All, map, arith, ◌==◌, Bool-cases, inl, inr,
}
use copytrade_dashboard.Base.Sorting.{distinct}
use copytrade_dashboard.Store.Rows.{TradingAccount, Subscription}
use copytrade_dashboard.Store.Monad.{ok, bind-answer, ◌>>◌}
use copytrade_dashboard.Store.Tables.{World, update_where}
use copytrade_dashboard.Engine.Process.{select_eligible}
use copytrade_dashboard.Ingest.State.{StrategyStatus}
use copytrade_dashboard.Ingest.Receive.{is_active}
use copytrade_dashboard.Control.State.{is_copying}
use copytrade_dashboard.Strategy.State.{Catalog, Actor, ManagedStrategy, id_of, update_strategy_row}
use copytrade_dashboard.Strategy.Access.{require_strategy_access}
use copytrade_dashboard.Strategy.Status.{
  copies, copies_to, paused_at_time, affected, pause_strategy, set_status_of, set_strategy_status,
  with_status, is_unapproved,
}
use copytrade_dashboard.Strategy.Settling.{
  settled, settled-kept, settle_accounts_lem, any-paused, any-distinct, select_eligible-paused,
  select_eligible-other,
}

-- The account shows COPYING exactly when some subscription is copying to it.
abbrev pub IsInStep : List Subscription → TradingAccount → Type 0
IsInStep ss a = is_copying a.copy_status ≡ any (copies_to a.id) ss

abbrev pub AreInStep : Catalog → Type 0
AreInStep w = All (IsInStep w.subscriptions) w.accounts

module _ (id now : ℕ) (ss : List Subscription) where
  abbrev paused_rows : List Subscription
  paused_rows = update_where (copies id) (paused_at_time now) ss

  settled-IsInStep :
      (a : TradingAccount)
      → IsInStep ss a
      → IsInStep paused_rows (settled paused_rows (distinct (affected id ss)) a)
  settled-IsInStep a h = elim (Bool-cases (any (copies_to a.id) paused_rows)) [
    | inl still ↦
        let same = settled-kept paused_rows (distinct (affected id ss)) a still in
        rw same (h ∙ any-paused id now a.id ss ∙ rw still refl)
    | inr stopped ↦ elim (Bool-cases (any (λ k. k == a.id) (distinct (affected id ss)))) [
      | inl hit ↦ rw (hit, stopped) (sym stopped)
      | inr missed ↦
          let unhit : any (λ k. k == a.id) (affected id ss) ≡ false =
            sym (any-distinct a.id (affected id ss)) ∙ missed in
          rw missed (h ∙ any-paused id now a.id ss ∙ rw (stopped, unhit) refl)
    ]
  ]

  map-settled_InStep :
      (rows : List TradingAccount)
      → All (IsInStep ss) rows
      → All (IsInStep paused_rows) (map (settled paused_rows (distinct (affected id ss))) rows)
  map-settled_InStep [] h = tt
  map-settled_InStep (a ∷ rows) h = (settled-IsInStep a h.0, map-settled_InStep rows h.1)

pause_strategy_lem :
    (id : ℕ) (w : Catalog)
    → pause_strategy id w ≡ (
      ok tt,
      record w {
        subscriptions = paused_rows id w.now w.subscriptions;
        accounts =
            map
              (settled
                (paused_rows id w.now w.subscriptions)
                (distinct (affected id w.subscriptions)))
              w.accounts;
      },
    )
unfolding pause_strategy
pause_strategy_lem id w =
    settle_accounts_lem (distinct (affected id w.subscriptions))
      (record w { subscriptions = paused_rows id w.now w.subscriptions })

set_status_path :
    (id : ℕ) (status : StrategyStatus) (actor : Actor) (w : Catalog) {x : ManagedStrategy}
    → require_strategy_access id actor w ≡ (ok x, w)
    → is_active status ≡ false
    → set_strategy_status id status actor w
      ≡ (update_strategy_row id (with_status status) >> pause_strategy id) w
unfolding set_strategy_status set_status_of
set_status_path id status actor w {x} access off =
    let approved : is_unapproved actor status x ≡ false = ground (arith, off) in
    bind-answer (require_strategy_access id actor) (set_status_of id status actor) w access
    ∙ rw (approved, off) refl

-- An actor who may reach the strategy and takes it out of ACTIVE succeeds; no subscription is then
-- selected for its events, the selection of every other strategy stays what it was, and if every
-- account showed COPYING exactly when some subscription was copying to it, every account still does.
pub set_strategy_status_pausing :
    {B : Type 0} (id other : ℕ) (status : StrategyStatus) (actor : Actor) (w : Catalog)
    (v : World B) {x : ManagedStrategy}
    → require_strategy_access id actor w ≡ (ok x, w)
    → is_active status ≡ false
    → (id == other) ≡ false
    → AreInStep w
    → let after = set_strategy_status id status actor w in
      (after.0 ≡ ok tt)
      × (select_eligible id v after.1.subscriptions ≡ [])
      × (select_eligible other v after.1.subscriptions ≡ select_eligible other v w.subscriptions)
      × AreInStep after.1
set_strategy_status_pausing id other status actor w v {x} access off ne step =
    let renamed = record w {
      strategies = update_where (λ y. id_of y == id) (with_status status) w.strategies;
    } in
    rw (set_status_path id status actor w access off ∙ pause_strategy_lem id renamed) (
      refl,
      select_eligible-paused id w.now v w.subscriptions,
      select_eligible-other id w.now other v w.subscriptions ne,
      map-settled_InStep id w.now w.subscriptions w.accounts step,
    )
