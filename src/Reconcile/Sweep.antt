-- ===== src/Reconcile/Sweep.antt =====
-- `reconcileAllAccounts`: the sweep over the accounts, with its `catch`.
use copytrade_dashboard.Base.{
  ℕ, ◌+◌, ◌≡◌, ◌≤◌, refl, ap, ◌∙◌, Bool, true, false, ◌&&◌, Option, none, some, List, [], ◌∷◌,
  filter, length, arith,
}
use copytrade_dashboard.Types.{ConnectionStatus}
use copytrade_dashboard.Store.Rows.{TradingAccount}
use copytrade_dashboard.Store.Monad.{Result, ok, err, Action, ◌>>=◌, ◌>>◌, pure, try_catch, bind-ok}
use copytrade_dashboard.Store.Tables.{TradeProvider, World}
use copytrade_dashboard.Engine.Session.{update_account}
use copytrade_dashboard.Reconcile.Account.{ReconcileResult, is_reachable, reconcile_account}

pub record SweepResult : Type 0 where
  pub accounts : ℕ
  pub failed : ℕ
  pub closed_count : ℕ

abbrev pub has_value : Option ℕ → Bool
has_value none = false
has_value (some x) = true

-- Accounts that were connected once and have a session to restore.
abbrev pub is_swept : TradingAccount → Bool
is_swept a = is_reachable a && has_value a.provider_account_id && has_value a.encrypted_password

module _ {B : Type 0} where
  -- What one account adds to the counters: the failures and the closed positions.
  unfoldable pub sweep_one : TradeProvider B → TradingAccount → Action (World B) (ℕ × ℕ)
  sweep_one p a = try_catch (reconcile_account p a.id >>= λ r. pure (0, r.closed_mappings)) (λ e.
      update_account a.id (λ x. record x { connection_status = ConnectionStatus.error })
      >> pure (1, 0))

  unfoldable pub sweep :
      TradeProvider B → List TradingAccount → SweepResult → Action (World B) SweepResult
  sweep p [] total = pure total
  sweep p (a ∷ rest) total = do
    counts ← sweep_one p a
    sweep p rest (record total {
      failed = total.failed + counts.0;
      closed_count = total.closed_count + counts.1;
    })

  unfoldable pub reconcile_all_accounts : TradeProvider B → Action (World B) SweepResult
  reconcile_all_accounts p w =
      let selected = filter is_swept w.accounts in
      sweep p selected (record { accounts = length selected; failed = 0; closed_count = 0 }) w

  sweep_one_answers :
      (p : TradeProvider B) (a : TradingAccount) (w : World B)
      → (f : ℕ) × (c : ℕ) × ((sweep_one p a w).0 ≡ ok (f, c)) × (f ≤ 1)
  unfolding sweep_one
  sweep_one_answers p a w = from (reconcile_account p a.id w).0 (reconcile_account p a.id w).1
    where
      from :
          (r : Result ReconcileResult) (t : World B)
          → let inner : Result (ℕ × ℕ) × World B = elim r [
            | ok x ↦ (ok (0, x.closed_mappings), t)
            | err e ↦ (err e, t)
          ] in
            let after : Result (ℕ × ℕ) × World B = elim inner.0 [
              | ok x ↦ (ok x, inner.1)
              | err e ↦
                  (update_account a.id
                        (λ x. record x { connection_status = ConnectionStatus.error })
                      >> pure (1, 0))
                    inner.1
            ] in
            (f : ℕ) × (c : ℕ) × (after.0 ≡ ok (f, c)) × (f ≤ 1)
      from (ok r) t = (0, r.closed_mappings, refl, omega arith)
      from (err e) t = (1, 0, refl, omega arith)

  sweep_answers :
      (p : TradeProvider B) (rows : List TradingAccount) (total : SweepResult) (w : World B)
      → (r : SweepResult) × ((sweep p rows total w).0 ≡ ok r)
        × (r.accounts ≡ total.accounts)
        × (r.failed ≤ total.failed + length rows)
  unfolding sweep
  sweep_answers p [] total w = (total, refl, refl, omega arith)
  sweep_answers p (a ∷ rest) total w =
      let (f, c, e, few) = sweep_one_answers p a w in
      let total' = record total {
        failed = total.failed + f;
        closed_count = total.closed_count + c;
      } in
      let (r, answered, same, bound) = sweep_answers p rest total' (sweep_one p a w).1 in
      (
        r,
        ap (λ x. x.0)
              (bind-ok (sweep_one p a)
                (λ counts. sweep p rest (record total {
                  failed = total.failed + counts.0;
                  closed_count = total.closed_count + counts.1;
                }))
                w e)
            ∙ answered,
        same,
        omega (arith, few, bound),
      )

  -- The sweep always answers, whatever the brokers do: it counts every selected account, and no
  -- account fails twice.
  pub reconcile_all_accounts_answers :
      (p : TradeProvider B) (w : World B)
      → (r : SweepResult) × ((reconcile_all_accounts p w).0 ≡ ok r)
        × (r.accounts ≡ length (filter is_swept w.accounts))
        × (r.failed ≤ r.accounts)
  unfolding reconcile_all_accounts
  reconcile_all_accounts_answers p w =
      let (r, answered, same, bound) = sweep_answers p (filter is_swept w.accounts) _ w in
      (r, answered, same, omega (arith, same, bound))
