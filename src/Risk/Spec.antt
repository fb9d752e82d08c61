-- ===== src/Risk/Spec.antt =====
-- Placing an order and pausing a copy, stated without the order of the tests in the code.
use copytrade_dashboard.Base.{
  ◌<◌, ◌≡◌, ◌↔◌, ◌⊎◌, inl, inr, refl, if◌then◌else◌, Bool, true, false, List, [], ◌∷◌, any, arith,
  sym, ◌∙◌,
}
use copytrade_dashboard.Number.Defs.{Number, AtMost, Less, add}
use copytrade_dashboard.Text.{Text, text_eq, text_eq_iff, to_upper}
use copytrade_dashboard.Types.{is_buy, is_pending_type}
use copytrade_dashboard.Risk.{
  RiskContext, RiskCode, RiskReason, RiskDecision, allowed, refused, risk_limit_reached, zero_limit,
  symbol_refused, daily_loss, loss_pct, drawdown_pct, check_account, check_exposure,
  reaches_daily_loss, reaches_daily_loss_pct, reaches_drawdown, daily_loss_reached,
  daily_loss_pct_reached, drawdown_reached, evaluate_risk,
}

-- A limit that is zero or less is disabled; else the value must not exceed it.
abbrev pub Within : Number → Number → Type 0
Within limit value = AtMost limit zero_limit ⊎ AtMost value limit

-- The same for a limit that may not be reached.
abbrev pub Below : Number → Number → Type 0
Below limit value = AtMost limit zero_limit ⊎ Less value limit

abbrev pub Among : Text → List Text → Type 0
Among s [] = ⊥
Among s (t ∷ ts) = (s ≡ t) ⊎ Among s ts

-- The member copies this kind of order and this symbol, and copying is not paused.
pub record IsWanted (c : RiskContext) : Type 0 where
  pub not_breached : c.already_breached ≡ false
  pub pending_wanted : (is_pending_type c.order_type ≡ false) ⊎ (c.copy_pending_orders ≡ true)
  pub buy_wanted : (is_buy c.order_type ≡ false) ⊎ (c.copy_buy ≡ true)
  pub sell_wanted : (is_buy c.order_type ≡ true) ⊎ (c.copy_sell ≡ true)
  pub symbol_wanted : (c.allowed_symbols ≡ []) ⊎ Among (to_upper c.symbol) c.allowed_symbols

-- One more trade of this size keeps to the limits on size and number.
pub record IsWithinExposure (c : RiskContext) : Type 0 where
  pub trades : c.open_trades < c.max_open_trades
  pub lot : Within c.max_lot_per_trade c.volume
  pub total : Within c.max_total_lot (add c.open_volume c.volume)

-- The account has not reached a limit on its losses.
pub record IsHealthy (c : RiskContext) : Type 0 where
  pub loss : Below c.max_daily_loss (daily_loss c)
  pub pct : (AtMost c.daily_start_equity zero_limit) ⊎ Below c.max_daily_loss_pct (loss_pct c)
  pub drawdown : (AtMost c.peak_equity zero_limit) ⊎ Below c.max_drawdown_pct (drawdown_pct c)

any-Among : (s : Text) (ts : List Text) → (any (text_eq s) ts ≡ true) ↔ Among s ts
any-Among s [] = ground arith
any-Among s (t ∷ ts) = ground (arith, text_eq_iff s t, any-Among s ts)

symbol_wanted_iff :
    (c : RiskContext)
    → (symbol_refused c ≡ false)
      ↔ ((c.allowed_symbols ≡ []) ⊎ Among (to_upper c.symbol) c.allowed_symbols)
unfolding symbol_refused
symbol_wanted_iff c = ground (arith, any-Among (to_upper c.symbol) c.allowed_symbols)

healthy_allowed : (c : RiskContext) → IsHealthy c → check_account c ≡ allowed
unfolding check_account
healthy_allowed c h = ground arith

allowed-IsHealthy : (c : RiskContext) → check_account c ≡ allowed → IsHealthy c
unfolding check_account
allowed-IsHealthy c h = record { loss = ground arith; pct = ground arith; drawdown = ground arith }

-- The decision is not a refusal of this one trade alone.
abbrev passes : RiskDecision → Bool
passes allowed = true
passes (refused _ _ pause) = pause

abbrev Pauses : RiskDecision → Type 0
Pauses t = (reason : RiskReason) × (t ≡ refused risk_limit_reached reason true)

exposure_through : (c : RiskContext) → IsWithinExposure c → check_exposure c ≡ check_account c
unfolding check_exposure
exposure_through c h = ground arith

exposure_needed : (c : RiskContext) → passes (check_exposure c) ≡ true → IsWithinExposure c
unfolding check_exposure
exposure_needed c h = record { trades = ground arith; lot = ground arith; total = ground arith }

wanted_through : (c : RiskContext) → IsWanted c → evaluate_risk c ≡ check_exposure c
unfolding evaluate_risk
wanted_through c h = ground (arith, (symbol_wanted_iff c).1 h.symbol_wanted)

IsWanted-needed : (c : RiskContext) → passes (evaluate_risk c) ≡ true → IsWanted c
unfolding evaluate_risk
IsWanted-needed c h = record {
  not_breached = ground arith;
  pending_wanted = ground arith;
  buy_wanted = ground arith;
  sell_wanted = ground arith;
  symbol_wanted = (symbol_wanted_iff c).0 (ground arith);
}

-- Past the checks on the order and its size, the decision is the account's.
passes_split :
    (c : RiskContext)
    → passes (evaluate_risk c) ≡ true
    → IsWanted c × IsWithinExposure c × (evaluate_risk c ≡ check_account c)
passes_split c h =
    let w = IsWanted-needed c h in
    let e = exposure_needed c (rw (wanted_through c w) at h) in
    (w, e, wanted_through c w ∙ exposure_through c e)

-- An order is allowed exactly when the member wants this kind of order and symbol and copying is
-- not paused, one more trade of this size keeps to the limits on size and number, and the account
-- has reached no limit on its losses. A limit of zero or less counts as disabled.
pub evaluate_risk-allowed_iff :
    (c : RiskContext)
    → (evaluate_risk c ≡ allowed) ↔ (IsWanted c × IsWithinExposure c × IsHealthy c)
evaluate_risk-allowed_iff c = (
  λ h. let (w, e, same) = passes_split c (rw h refl) in (w, e, allowed-IsHealthy c (sym same ∙ h)),
  λ (w, e, k). wanted_through c w ∙ exposure_through c e ∙ healthy_allowed c k,
)

pause_ladder :
    (a b c : Bool) (p q r : RiskReason)
    → let t =
        if a
        then refused risk_limit_reached p true
        else if b
        then refused risk_limit_reached q true
        else if c
        then refused risk_limit_reached r true
        else allowed in
      (t ≡ allowed) ⊎ Pauses t
pause_ladder true b c p q r = inr (p, refl)
pause_ladder false true c p q r = inr (q, refl)
pause_ladder false false true p q r = inr (r, refl)
pause_ladder false false false p q r = inl refl

unhealthy-Pauses : (c : RiskContext) → (check_account c ≡ allowed) ⊎ Pauses (check_account c)
unfolding check_account
unhealthy-Pauses c =
    pause_ladder (reaches_daily_loss c) (reaches_daily_loss_pct c) (reaches_drawdown c)
      daily_loss_reached daily_loss_pct_reached drawdown_reached

-- Copying is paused exactly when the order passes every check of its own and the account has
-- reached a limit on its losses: no refusal of a single trade ever pauses copying.
pub evaluate_risk-pauses_iff :
    (c : RiskContext)
    → ((code : RiskCode) × (reason : RiskReason) × (evaluate_risk c ≡ refused code reason true))
      ↔ (IsWanted c × IsWithinExposure c × ¬ IsHealthy c)
evaluate_risk-pauses_iff c = (
  λ (code, reason, h).
      let (w, e, same) = passes_split c (rw h refl) in
      (w, e, λ k. cc (sym h, same, healthy_allowed c k)),
  λ (w, e, ill). elim (unhealthy-Pauses c) [
    | inl fine ↦ absurd (ill (allowed-IsHealthy c fine))
    | inr (reason, h) ↦ (risk_limit_reached, reason, wanted_through c w ∙ exposure_through c e ∙ h)
  ],
)
