-- ===== src/Engine/Gates.antt =====
-- The gates in front of an order: what must hold before `openForMember` changes the broker.
use copytrade_dashboard.Base.{
  ℕ, ◌≡◌, refl, ap, ◌∙◌, Bool, true, Option, none, some, List, find, arith, ◌==◌, Bool-cases,
  Option-cases, inl, inr,
}
use copytrade_dashboard.Number.Defs.{Number}
use copytrade_dashboard.Text.{Text}
use copytrade_dashboard.Types.{OrderResult, SymbolSpec, ProviderPosition}
use copytrade_dashboard.Lot
use copytrade_dashboard.Lot.{LotResult, sized, calculate_lot}
use copytrade_dashboard.Risk
use copytrade_dashboard.Risk.{RiskDecision, RiskReason, evaluate_risk}
use copytrade_dashboard.Store.Rows.{CopySettings, RiskState, SkipReason, CopyErrorCode}
use copytrade_dashboard.Store.Monad.{Result, ok, err, Action, ◌>>=◌, pure}
use copytrade_dashboard.Store.Tables.{TradeProvider, World}
use copytrade_dashboard.Engine.Records.{
  Verdict, upsert_mapping, record_fill, skip, use_risk_state, load_risk_state, mark_breached,
  pause_for_breach,
}
use copytrade_dashboard.Engine.Open.{
  MemberContext, lot_inputs, risk_context, carries_id, open_request, settle_order, order_answered,
  send_order, pause_if, apply_decision, apply_state, apply_lot, apply_spec, recover_or_open,
  open_beside, open_with_settings, open_for_member, fill_ticket, risk_error_code,
}

module _ {B : Type 0} where
  -- The broker after opening: not touched, or as one order left it that passed every gate.
  pub data Guarded (p : TradeProvider B) (c : MemberContext) (s : CopySettings) (symbol : Text)
      (id : ℕ) (w : World B) (b' : B) : Type 0 where
    untouched : b' ≡ w.broker → Guarded p c s symbol id w b'
    ordered :
        (positions : List ProviderPosition) (spec : SymbolSpec) (v shown : Number) (clamped : Bool)
        (state : RiskState)
        → p.get_positions c.provider_account_id w.broker ≡ ok positions
        → find (carries_id id) positions ≡ none
        → p.get_symbol_spec c.provider_account_id symbol w.broker ≡ ok (some spec)
        → spec.trade_allowed ≡ true
        → calculate_lot (lot_inputs c s spec symbol) ≡ sized v shown clamped
        → (load_risk_state c.account w).0 ≡ ok state
        → evaluate_risk (risk_context c s symbol v positions state) ≡ Risk.allowed
        → b' ≡ (p.open_position c.provider_account_id (open_request c s symbol v id) w.broker).1
        → Guarded p c s symbol id w b'

  abbrev pub IsKept : {A : Type 0} → Action (World B) A → Type 0
  IsKept m = (w : World B) → (m w).1.broker ≡ w.broker

  pub bind-IsKept :
      {A C : Type 0} (m : Action (World B) A) (f : A → Action (World B) C)
      → IsKept m
      → ((a : A) → IsKept (f a))
      → IsKept (m >>= f)
  bind-IsKept {A} {C} m f hm hf w = from (m w).0 (m w).1 (hm w)
    where
      from :
          (r : Result A) (t : World B)
          → t.broker ≡ w.broker
          → let after : Result C × World B = elim r [ ok a ↦ f a t | err e ↦ (err e, t) ] in
            after.1.broker ≡ w.broker
      from (ok a) t h = hf a t ∙ h
      from (err e) t h = h

  pub skip-IsKept :
      (id : ℕ) (reason : SkipReason) (code : Option CopyErrorCode) → IsKept (skip id reason code)
  unfolding skip
  skip-IsKept id reason code w = refl

  settle_order_kept :
      (c : MemberContext) (symbol : Text) (v : Number) (id : ℕ) (r : OrderResult) (t : Option ℕ)
      (w : World B)
      → (settle_order c symbol v id r t w).1.broker ≡ w.broker
  unfolding settle_order record_fill upsert_mapping
  settle_order_kept c symbol v id r none w = refl
  settle_order_kept c symbol v id r (some t) w = ground arith

  pause_if_kept :
      (pause : Bool) (c : MemberContext) (reason : RiskReason) (w : World B)
      → (pause_if pause c reason w).1.broker ≡ w.broker
  unfolding pause_if pause_for_breach mark_breached
  pause_if_kept pause c reason w = ground arith

  load_risk_state_kept :
      (c : MemberContext) (w : World B) → (load_risk_state c.account w).1.broker ≡ w.broker
  unfolding load_risk_state use_risk_state
  load_risk_state_kept c w =
      elim (Option-cases (find (λ r. r.account_id == c.account.id) w.risk_states)) [
        | inl e ↦ rw e refl
        | inr (s, e) ↦ ground (arith, e)
      ]

  send_order_moved :
      (p : TradeProvider B) (c : MemberContext) (s : CopySettings) (symbol : Text) (v : Number)
      (id : ℕ) (w : World B)
      → (send_order p c s symbol v id w).1.broker
        ≡ (p.open_position c.provider_account_id (open_request c s symbol v id) w.broker).1
  unfolding send_order order_answered
  send_order_moved p c s symbol v id w =
      let order = p.open_position c.provider_account_id (open_request c s symbol v id) w.broker in
      from order.0 order.1
    where
      from :
          (r : Result OrderResult) (b : B)
          → let t = record w { broker = b } in
            let after : Result Verdict × World B = elim r [
              | ok a ↦ order_answered c symbol v id a t
              | err e ↦ (err e, t)
            ] in
            after.1.broker ≡ b
      from (ok r) b = settle_order_kept c symbol v id r (fill_ticket r) _
      from (err e) b = refl

module _ {B : Type 0} (p : TradeProvider B) (c : MemberContext) (s : CopySettings) (symbol : Text)
    (id : ℕ) where
  apply_lot-IsGuarded :
      (ps : List ProviderPosition) (spec : SymbolSpec) (lot : LotResult) (w : World B)
      → p.get_positions c.provider_account_id w.broker ≡ ok ps
      → find (carries_id id) ps ≡ none
      → p.get_symbol_spec c.provider_account_id symbol w.broker ≡ ok (some spec)
      → spec.trade_allowed ≡ true
      → calculate_lot (lot_inputs c s spec symbol) ≡ lot
      → Guarded p c s symbol id w (apply_lot p c s ps symbol id lot w).1.broker
  unfolding apply_lot apply_state apply_decision
  apply_lot-IsGuarded ps spec (Lot.refused code) w h1 h2 h3 h4 h5 = untouched (skip-IsKept id _ _ w)
  apply_lot-IsGuarded ps spec (sized v shown clamped) w h1 h2 h3 h4 h5 =
      from (load_risk_state c.account w).0 (load_risk_state c.account w).1 refl
        (load_risk_state_kept c w)
    where
      decided :
          (d : RiskDecision) (state : RiskState) (t : World B)
          → (load_risk_state c.account w).0 ≡ ok state
          → evaluate_risk (risk_context c s symbol v ps state) ≡ d
          → t.broker ≡ w.broker
          → Guarded p c s symbol id w (apply_decision p c s symbol v id d t).1.broker
      decided Risk.allowed state t l e k =
          ordered ps spec v shown clamped state h1 h2 h3 h4 h5 l e (
            send_order_moved p c s symbol v id t
            ∙ ap (λ b. (p.open_position c.provider_account_id (open_request c s symbol v id) b).1)
                k)
      decided (Risk.refused code reason pause) state t l e k = untouched (
          bind-IsKept (pause_if pause c reason)
            (λ _. skip id (SkipReason.risk_refused reason) (some (risk_error_code code)))
            (pause_if_kept pause c reason)
            (λ _. skip-IsKept id (SkipReason.risk_refused reason) (some (risk_error_code code))) t
          ∙ k)

      from :
          (r : Result RiskState) (t : World B)
          → (load_risk_state c.account w).0 ≡ r
          → t.broker ≡ w.broker
          → let after : Result Verdict × World B = elim r [
            | ok a ↦ apply_state p c s ps symbol v id a t
            | err e ↦ (err e, t)
          ] in
            Guarded p c s symbol id w after.1.broker
      from (ok state) t l k =
          decided (evaluate_risk (risk_context c s symbol v ps state)) state t l refl k
      from (err e) t l k = untouched k

  apply_spec-IsGuarded :
      (ps : List ProviderPosition) (spec : Option SymbolSpec) (w : World B)
      → p.get_positions c.provider_account_id w.broker ≡ ok ps
      → find (carries_id id) ps ≡ none
      → p.get_symbol_spec c.provider_account_id symbol w.broker ≡ ok spec
      → Guarded p c s symbol id w (apply_spec p c s ps symbol id spec w).1.broker
  unfolding apply_spec
  apply_spec-IsGuarded ps none w h1 h2 h3 = untouched (skip-IsKept id _ _ w)
  apply_spec-IsGuarded ps (some spec) w h1 h2 h3 = elim (Bool-cases spec.trade_allowed) [
    | inl e ↦ simp e (apply_lot-IsGuarded ps spec _ w h1 h2 h3 e refl)
    | inr e ↦ simp e (untouched (skip-IsKept id _ _ w))
  ]

  record_fill-IsKept :
      (ticket : ℕ) (price : Option Number) (v : Number)
      → IsKept {B = B} (record_fill id ticket price v c.subscription c.event symbol)
  unfolding record_fill upsert_mapping
  record_fill-IsKept ticket price v w = ground arith

  recover_or_open-IsGuarded :
      (ps : List ProviderPosition) (found : Option ProviderPosition) (w : World B)
      → p.get_positions c.provider_account_id w.broker ≡ ok ps
      → find (carries_id id) ps ≡ found
      → Guarded p c s symbol id w (recover_or_open p c s ps symbol id found w).1.broker
  unfolding recover_or_open
  recover_or_open-IsGuarded ps (some e) w h1 h2 = untouched (
      bind-IsKept
        (record_fill id e.ticket (some e.open_price) e.volume c.subscription c.event symbol)
        (λ _. pure Verdict.success) (record_fill-IsKept e.ticket (some e.open_price) e.volume)
        (λ _ t. refl) w)
  recover_or_open-IsGuarded ps none w h1 h2 =
      from (p.get_symbol_spec c.provider_account_id symbol w.broker) refl
    where
      from :
          (r : Result (Option SymbolSpec))
          → p.get_symbol_spec c.provider_account_id symbol w.broker ≡ r
          → let after : Result Verdict × World B = elim r [
            | ok a ↦ apply_spec p c s ps symbol id a w
            | err e ↦ (err e, w)
          ] in
            Guarded p c s symbol id w after.1.broker
      from (ok spec) e = apply_spec-IsGuarded ps spec w h1 h2 e
      from (err x) e = untouched refl

  -- Opening a member's position changes the broker only by this copy's one order, and sends that
  -- order only after every gate: no position carries the copy's id yet, the symbol can be traded,
  -- the calculator returned the size that is sent, and the risk engine allowed it beside the
  -- positions that are open and the risk state that was loaded for the account. On every other branch the broker is as
  -- before.
  pub open_for_member-IsGuarded :
      (w : World B) → Guarded p c s symbol id w (open_for_member p c symbol id (some s) w).1.broker
  unfolding open_for_member open_with_settings open_beside
  open_for_member-IsGuarded w = from (p.get_positions c.provider_account_id w.broker) refl
    where
      from :
          (r : Result (List ProviderPosition))
          → p.get_positions c.provider_account_id w.broker ≡ r
          → let after : Result Verdict × World B = elim r [
            | ok a ↦ open_beside p c s symbol id a w
            | err e ↦ (err e, w)
          ] in
            Guarded p c s symbol id w after.1.broker
      from (ok ps) e = recover_or_open-IsGuarded ps (find (carries_id id) ps) w e refl
      from (err x) e = untouched refl
