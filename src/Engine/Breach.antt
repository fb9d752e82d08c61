-- ===== src/Engine/Breach.antt =====
-- A limit on an account's losses is reached (`pauseForBreach`), and the daily risk state
-- (`loadRiskState`).
use copytrade_dashboard.Base.{
  ℕ, ◌≡◌, refl, Bool, true, false, Option, none, some, List, [], ◌∷◌, ◌++◌, find, any, All, arith,
  ◌==◌, ==_iff, if◌then◌else◌, Bool-cases, Option-cases, inl, inr, find_sound,
}
use copytrade_dashboard.Number.Defs.{Number}
use copytrade_dashboard.Text.{Text}
use copytrade_dashboard.Types.{CopyStatus, ProviderPosition}
use copytrade_dashboard.Risk
use copytrade_dashboard.Risk.{RiskReason, RiskCode, evaluate_risk}
use copytrade_dashboard.Store.Rows.{Subscription, TradingAccount, RiskState, CopySettings}
use copytrade_dashboard.Store.Monad.{ok}
use copytrade_dashboard.Store.Tables.{TradeProvider, World, update_where, start_of_day}
use copytrade_dashboard.Store.Lookup.{find-update_where, find-some-any, find-append, find-none-any}
use copytrade_dashboard.Engine.Session.{is_connected, find_account}
use copytrade_dashboard.Engine.Records.{
  skipped, new_risk_state, reset_risk_state, use_risk_state, load_risk_state, mark_breached,
  pause_for_breach, skip,
}
use copytrade_dashboard.Engine.Open.{
  MemberContext, pause_if, stops_on_breach, apply_decision, apply_state, risk_context,
}
use copytrade_dashboard.Engine.Process.{is_eligible, with_account, select_eligible}

same : (n : ℕ) → (n == n) ≡ true
same n = (==_iff n n).1 refl

abbrev pub find_risk_state : ℕ → List RiskState → Option RiskState
find_risk_state account_id states = find (λ r. r.account_id == account_id) states

-- The update that pauses a subscription.
abbrev paused_at_time : ℕ → Subscription → Subscription
paused_at_time now t = record t { copy_status = CopyStatus.paused; paused_at = some now }

abbrev pub Excludes : ℕ → List (Subscription × TradingAccount) → Type 0
Excludes id pairs = All (λ (t, a). (t.id == id) ≡ false) pairs

Excludes-if :
    (id : ℕ) (b : Bool) (xs ys : List (Subscription × TradingAccount))
    → Excludes id xs
    → Excludes id ys
    → Excludes id (if b then xs else ys)
Excludes-if id true xs ys h k = h
Excludes-if id false xs ys h k = k

Excludes-with_account :
    (id : ℕ) (s : Subscription) (a : Option TradingAccount)
    (rest : List (Subscription × TradingAccount))
    → (s.id == id) ≡ false
    → Excludes id rest
    → Excludes id (with_account s a ++ rest)
Excludes-with_account id s none rest h k = k
Excludes-with_account id s (some a) rest h k =
    elim (Bool-cases (is_connected a.connection_status)) [ inl e ↦ rw e (h, k) | inr e ↦ rw e k ]

is_eligible-paused :
    (strategy_id now : ℕ) (s : Subscription)
    → is_eligible strategy_id (paused_at_time now s) ≡ false
is_eligible-paused strategy_id now s = ground arith

module _ {B : Type 0} where
  -- An update that makes a subscription ineligible takes it out of every selection.
  pub select_eligible-Excludes :
      (id strategy_id : ℕ) (f : Subscription → Subscription) (w : World B) (ss : List Subscription)
      → ((s : Subscription) → is_eligible strategy_id (f s) ≡ false)
      → Excludes id (select_eligible strategy_id w (update_where (λ t. t.id == id) f ss))
  unfolding select_eligible
  select_eligible-Excludes id strategy_id f w [] off = tt
  select_eligible-Excludes id strategy_id f w (s ∷ ss) off =
      let rest = select_eligible-Excludes id strategy_id f w ss off in
      elim (Bool-cases (s.id == id)) [
        | inl e ↦ simp (e, off s) rest
        | inr e ↦ simp e (
            Excludes-if id (is_eligible strategy_id s) _ _
              (Excludes-with_account id s (find_account s.account_id w) _ e rest) rest)
      ]

  mark_breached_lem :
      (account_id : ℕ) (reason : RiskReason) (w : World B)
      → (r : RiskState) × (find_risk_state account_id
            (mark_breached account_id reason w).risk_states
          ≡ some r)
        × (r.breached ≡ true)
        × (r.breach_reason ≡ some reason)
  unfolding mark_breached
  mark_breached_lem account_id reason w =
      let at = λ (r : RiskState). r.account_id == account_id in
      elim (Bool-cases (any at w.risk_states)) [
        | inl e ↦
            let (r, found, fits) = find-some-any at w.risk_states e in
            rw e (_, find-update_where at at _ w.risk_states (λ x. refl) found fits, refl, refl)
        | inr e ↦ rw e (_, find-append at w.risk_states _ e (same account_id), refl, refl)
      ]

  -- Loading the risk state of an account answers with a state of the current day, and stores it: it
  -- is what the table holds for that account, so loading once more on the same day gives it back.
  pub load_risk_state_today :
      (a : TradingAccount) (w : World B)
      → (r : RiskState) × ((load_risk_state a w).0 ≡ ok r)
        × (r.trading_day ≡ start_of_day w.now)
        × (find_risk_state a.id (load_risk_state a w).1.risk_states ≡ some r)
        × (load_risk_state a (load_risk_state a w).1 ≡ load_risk_state a w)
  unfolding load_risk_state use_risk_state
  load_risk_state_today a w =
      let today = start_of_day w.now in
      let at = λ (r : RiskState). r.account_id == a.id in
      elim (Option-cases (find_risk_state a.id w.risk_states)) [
        | inl missing ↦
            let new =
              find-append at w.risk_states (new_risk_state a today)
                (find-none-any at w.risk_states missing) (same a.id) in
            rw missing (new_risk_state a today, refl, refl, new, rw (new, same today) refl)
        | inr (r, found) ↦ elim (Bool-cases (r.trading_day == today)) [
          | inl e ↦
              rw (found, e) (r, refl, (==_iff r.trading_day today).0 e, found, rw (found, e) refl)
          | inr e ↦
              let reset =
                find-update_where at at (reset_risk_state a today) w.risk_states (λ x. refl) found
                  (find_sound at w.risk_states found) in
              rw (found, e)
                (reset_risk_state a today r, refl, refl, reset, rw (reset, same today) refl)
        ]
      ]

  mark_breached_rest :
      (account_id : ℕ) (reason : RiskReason) (w : World B)
      → ((mark_breached account_id reason w).subscriptions ≡ w.subscriptions)
        × ((mark_breached account_id reason w).broker ≡ w.broker)
  unfolding mark_breached
  mark_breached_rest account_id reason w = ground arith

  -- When the risk engine refuses with a pause, and the member did not switch stopping off, the
  -- member's order is skipped without a call of the broker, the account's risk state is breached
  -- with the reason, and the subscription is eligible for no event of any strategy any more.
  pub apply_state_pausing :
      (p : TradeProvider B) (c : MemberContext) (s : CopySettings) (ps : List ProviderPosition)
      (symbol : Text) (v : Number) (id strategy_id : ℕ) (state : RiskState) (w : World B)
      {code : RiskCode} {reason : RiskReason}
      → evaluate_risk (risk_context c s symbol v ps state) ≡ Risk.refused code reason true
      → stops_on_breach c.subscription.risk_profile ≡ true
      → let after = apply_state p c s ps symbol v id state w in
        (after.0 ≡ ok skipped)
        × (after.1.broker ≡ w.broker)
        × Excludes c.subscription.id (select_eligible strategy_id after.1 after.1.subscriptions)
        × ((r : RiskState) × (find_risk_state c.subscription.account_id after.1.risk_states
              ≡ some r)
            × (r.breached ≡ true)
            × (r.breach_reason ≡ some reason))
  unfolding apply_state apply_decision pause_if pause_for_breach skip
  apply_state_pausing p c s ps symbol v id strategy_id state w {code} {reason} refused stops =
      let sub = c.subscription in
      let paused = record w {
        subscriptions = update_where (λ t. t.id == sub.id) (paused_at_time w.now) w.subscriptions;
      } in
      let rest = mark_breached_rest sub.account_id reason paused in
      rw (refused, stops)
        (
          refl,
          rest.1,
          rw rest.0 (
              select_eligible-Excludes sub.id strategy_id (paused_at_time w.now) _ w.subscriptions
                (is_eligible-paused strategy_id w.now)),
          mark_breached_lem sub.account_id reason paused,
        )
