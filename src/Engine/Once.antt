-- ===== src/Engine/Once.antt =====
-- A second delivery of an event to a member, and the counters of the fan-out (`copyToMember`).
use copytrade_dashboard.Base.{
  ◌+◌, ◌≡◌, refl, ap, ◌∙◌, true, false, none, List, [], ◌∷◌, any, length, arith,
}
use copytrade_dashboard.Text.{Text}
use copytrade_dashboard.Store.Rows.{TradeEvent, Subscription, TradingAccount}
use copytrade_dashboard.Store.Monad.{Result, ok, err, Action, ◌>>=◌, bind-ok}
use copytrade_dashboard.Store.Tables.{TradeProvider, World}
use copytrade_dashboard.Symbol.{resolve_member_symbol}
use copytrade_dashboard.Engine.Session.{ensure_provider_session}
use copytrade_dashboard.Engine.Records.{Verdict, success, failed, skipped}
use copytrade_dashboard.Engine.Open.{MemberContext}
use copytrade_dashboard.Engine.Process.{
  CopyOutcome, is_copy_of, create_copy_trade, copy_with_row, copy_to_member, copy_in_session,
  process_subscription, tally, fan_out,
}
use copytrade_dashboard.Engine.Frame.Writes.{ensure_provider_session-IsSteady}
use copytrade_dashboard.Engine.Frame.Copying.{
  Grows, Grows-refl, Grows-trans, Steady-Grows, create-Grows, copy_with_row-IsSteady,
}

-- The counters add up.
abbrev pub IsBalanced : CopyOutcome → Type 0
IsBalanced o = o.processed ≡ o.succeeded + o.failed_count + o.skipped_count

tally-IsBalanced :
    (v : Verdict) (o : CopyOutcome)
    → IsBalanced o
    → IsBalanced (tally v o) × ((tally v o).processed ≡ o.processed + 1)
tally-IsBalanced success o h = omega arith
tally-IsBalanced failed o h = omega arith
tally-IsBalanced skipped o h = omega arith

module _ {B : Type 0} where
  bind-Grows :
      {A C : Type 0} (m : Action (World B) A) (f : A → Action (World B) C)
      → ((w : World B) → Grows w (m w).1)
      → ((a : A) (w : World B) → Grows w (f a w).1)
      → (w : World B) → Grows w ((m >>= f) w).1
  bind-Grows {A} {C} m f hm hf w = from (m w).0 (m w).1 (hm w)
    where
      from :
          (r : Result A) (t : World B)
          → Grows w t
          → let after : Result C × World B = elim r [ ok a ↦ f a t | err e ↦ (err e, t) ] in
            Grows w after.1
      from (ok a) t h = Grows-trans w t (f a t).1 h (hf a t)
      from (err e) t h = h

  create-duplicate :
      (c : MemberContext) (symbol : Text) (w : World B)
      → any (is_copy_of c.event.event_id c.account.id) w.copy_trades ≡ true
      → create_copy_trade c symbol w ≡ (ok none, w)
  unfolding create_copy_trade
  create-duplicate c symbol w h = rw h

  -- A duplicate delivery to a member: if the event and the account have a row, the copy is skipped
  -- and nothing at all changes, at the broker or in the database.
  pub copy_to_member_duplicate :
      (p : TradeProvider B) (c : MemberContext) (w : World B)
      → any (is_copy_of c.event.event_id c.account.id) w.copy_trades ≡ true
      → copy_to_member p c w ≡ (ok skipped, w)
  unfolding copy_to_member copy_with_row
  copy_to_member_duplicate p c w h =
      let symbol =
        resolve_member_symbol c.event.symbol c.event.strategy_id c.account.id w.symbol_mappings in
      let e = create-duplicate c symbol w h in
      bind-ok (create_copy_trade c symbol) (copy_with_row p c symbol) w (ap (λ rt. rt.0) e)
      ∙ ap (λ rt. (ok skipped, rt.1)) e

  pub copy_to_member-Grows :
      (p : TradeProvider B) (c : MemberContext) (w : World B) → Grows w (copy_to_member p c w).1
  unfolding copy_to_member
  copy_to_member-Grows p c w =
      let symbol =
        resolve_member_symbol c.event.symbol c.event.strategy_id c.account.id w.symbol_mappings in
      bind-Grows (create_copy_trade c symbol) (copy_with_row p c symbol) (create-Grows c symbol)
        (λ row u. Steady-Grows u _ (copy_with_row-IsSteady p c symbol row u)) w

  -- The loop's body always answers, and grows the rows.
  process_subscription-Grows :
      (p : TradeProvider B) (event : TradeEvent) (s : Subscription × TradingAccount) (w : World B)
      → Grows w (process_subscription p event s w).1
  unfolding process_subscription copy_in_session
  process_subscription-Grows p event (s, a) w =
      let m = ensure_provider_session p s.account_id false >>= copy_in_session p event s a in
      from (m w).0 (m w).1 (
        bind-Grows (ensure_provider_session p s.account_id false) (copy_in_session p event s a)
          (λ u. Steady-Grows u _ (ensure_provider_session-IsSteady p s.account_id false u))
          (λ session u. copy_to_member-Grows p _ u) w)
    where
      from :
          (r : Result Verdict) (t : World B)
          → Grows w t
          → let after : Result Verdict × World B = elim r [
            | ok v ↦ (ok v, t)
            | err e ↦ (ok failed, t)
          ] in
            Grows w after.1
      from (ok v) t h = h
      from (err e) t h = h

  process_subscription_answers :
      (p : TradeProvider B) (event : TradeEvent) (s : Subscription × TradingAccount) (w : World B)
      → (v : Verdict) × ((process_subscription p event s w).0 ≡ ok v)
  unfolding process_subscription
  process_subscription_answers p event (s, a) w =
      from ((ensure_provider_session p s.account_id false >>= copy_in_session p event s a) w).0 _
    where
      from :
          (r : Result Verdict) (t : World B)
          → (v : Verdict) × (let after : Result Verdict × World B = elim r [
            | ok v ↦ (ok v, t)
            | err e ↦ (ok failed, t)
          ] in
              after.0 ≡ ok v)
      from (ok v) t = (v, refl)
      from (err e) t = (failed, refl)

  pub fan_out-Grows :
      (p : TradeProvider B) (event : TradeEvent) (o : CopyOutcome)
      (ss : List (Subscription × TradingAccount)) (w : World B)
      → Grows w (fan_out p event o ss w).1
  unfolding fan_out
  fan_out-Grows p event o [] w = Grows-refl w
  fan_out-Grows p event o (s ∷ ss) w =
      bind-Grows (process_subscription p event s) (λ v. fan_out p event (tally v o) ss)
        (process_subscription-Grows p event s) (λ v u. fan_out-Grows p event (tally v o) ss u) w

  pub fan_out_answers :
      (p : TradeProvider B) (event : TradeEvent) (o : CopyOutcome)
      (ss : List (Subscription × TradingAccount)) (w : World B)
      → IsBalanced o
      → (o' : CopyOutcome) × ((fan_out p event o ss w).0 ≡ ok o')
        × (o'.processed ≡ o.processed + length ss)
        × IsBalanced o'
  unfolding fan_out
  fan_out_answers p event o [] w h = (o, refl, omega arith, h)
  fan_out_answers p event o (s ∷ ss) w h =
      let (v, e) = process_subscription_answers p event s w in
      let u = (process_subscription p event s w).1 in
      let t = tally-IsBalanced v o h in
      let (o', answered, count, balanced) = fan_out_answers p event (tally v o) ss u t.0 in
      let same =
        bind-ok (process_subscription p event s) (λ v'. fan_out p event (tally v' o) ss) w e in
      (o', ap (λ rt. rt.0) same ∙ answered, omega arith, balanced)
