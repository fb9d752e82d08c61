-- ===== src/Reconcile/Vanished.antt =====
-- Positions that the tables call open and the broker does not report (`reconcileAccount`).
use copytrade_dashboard.Base.{
  ℕ, ◌≡◌, refl, sym, ◌∙◌, Bool, true, false, Option, none, some, List, [], ◌∷◌, filter, any, length,
  arith, ◌==◌, ==_iff, Bool-cases, inl, inr, ◌⊎◌,
}
use mathlib.Core.Path.{subst}
use copytrade_dashboard.Types.{AccountInfo, ProviderPosition, ClosedPositionResult}
use copytrade_dashboard.Store.Rows.{PositionMapping, TradingAccount}
use copytrade_dashboard.Store.Monad.{ok, Action, ◌>>◌, pure, bind-ok}
use copytrade_dashboard.Store.Tables.{TradeProvider, World, update_where}
use copytrade_dashboard.Number.Defs.{max_of}
use copytrade_dashboard.Engine.Session.{update_account}
use copytrade_dashboard.Engine.Adjust.{closed_result}
use copytrade_dashboard.Reconcile.Account.{
  ReconcileResult, is_vanished, closed_at_broker, backfilled, close_vanished, backfill_one,
  backfill, backfill_missing, reconcile_with, refreshed,
}

abbrev has_mapping : ℕ → List PositionMapping → Bool
has_mapping id ms = any (λ m. m.id == id) ms

-- A row of the table has vanished only if its id is still in the list to close.
abbrev Pending : (PositionMapping → Bool) → List PositionMapping → List PositionMapping → Type 0
Pending q ms [] = Unit
Pending q ms (x ∷ xs) = ((q x ≡ false) ⊎ (has_mapping x.id ms ≡ true)) × Pending q ms xs

module _ (q : PositionMapping → Bool) where
  Pending-weaken :
      (m : PositionMapping) (ms xs : List PositionMapping) → Pending q ms xs → Pending q (m ∷ ms) xs
  Pending-weaken m ms [] h = tt
  Pending-weaken m ms (x ∷ xs) h = ground (arith, h, Pending-weaken m ms xs)

  Pending-filter : (xs : List PositionMapping) → Pending q (filter q xs) xs
  Pending-filter [] = tt
  Pending-filter (x ∷ xs) = elim (Bool-cases (q x)) [
    | inl e ↦
        let hit : filter q (x ∷ xs) ≡ x ∷ filter q xs = rw e refl in
        let there : has_mapping x.id (x ∷ filter q xs) ≡ true =
          rw ((==_iff x.id x.id).1 refl) refl in
        subst (λ ms. Pending q ms (x ∷ xs)) (sym hit)
          (inr there, Pending-weaken x (filter q xs) xs (Pending-filter xs))
    | inr e ↦
        let miss : filter q (x ∷ xs) ≡ filter q xs = rw e refl in
        subst (λ ms. Pending q ms (x ∷ xs)) (sym miss) (inl e, Pending-filter xs)
  ]

  Pending-update :
      (m : PositionMapping) (f : PositionMapping → PositionMapping) (ms xs : List PositionMapping)
      → ((x : PositionMapping) → q (f x) ≡ false)
      → Pending q (m ∷ ms) xs
      → Pending q ms (update_where (λ x. x.id == m.id) f xs)
  Pending-update m f ms [] off h = tt
  Pending-update m f ms (x ∷ xs) off (h, hs) =
      let rest = Pending-update m f ms xs off hs in
      elim (Bool-cases (x.id == m.id)) [
        | inl e ↦ simp e (inl (off x), rest)
        | inr e ↦ simp e (ground (arith, h, e), rest)
      ]

  Pending-none : (xs : List PositionMapping) → Pending q [] xs → any q xs ≡ false
  Pending-none [] h = refl
  Pending-none (x ∷ xs) (h, hs) = ground (arith, h, Pending-none xs hs)

  any-update :
      (at : PositionMapping → Bool) (f : PositionMapping → PositionMapping)
      (xs : List PositionMapping)
      → ((x : PositionMapping) → q (f x) ≡ q x)
      → any q (update_where at f xs) ≡ any q xs
  any-update at f [] keep = refl
  any-update at f (x ∷ xs) keep = ground (arith, keep x, any-update at f xs keep)

closed_not_vanished :
    (account_id : ℕ) (positions : List ProviderPosition) (r : Option ClosedPositionResult) (now : ℕ)
    (m : PositionMapping)
    → is_vanished account_id positions (closed_at_broker r now m) ≡ false
unfolding closed_at_broker
closed_not_vanished account_id positions r now m = ground arith

backfilled_keeps :
    (account_id : ℕ) (positions : List ProviderPosition) (r : ClosedPositionResult)
    (m : PositionMapping)
    → is_vanished account_id positions (backfilled r m) ≡ is_vanished account_id positions m
unfolding backfilled
backfilled_keeps account_id positions r m = refl

module _ {B : Type 0} (account_id : ℕ) (positions : List ProviderPosition) where
  close_vanished_lem :
      (p : TradeProvider B) (session : ℕ) (ms : List PositionMapping) (w : World B)
      → Pending (is_vanished account_id positions) ms w.mappings
      → ((close_vanished p session ms w).0 ≡ ok tt)
        × (any (is_vanished account_id positions) (close_vanished p session ms w).1.mappings
            ≡ false)
  unfolding close_vanished
  close_vanished_lem p session [] w h =
      (refl, Pending-none (is_vanished account_id positions) w.mappings h)
  close_vanished_lem p session (m ∷ ms) w h =
      let result = closed_result (p.get_closed_position session m.member_ticket w.broker) in
      close_vanished_lem p session ms _ (
        Pending-update (is_vanished account_id positions) m (closed_at_broker result w.now) ms
          w.mappings (closed_not_vanished account_id positions result w.now) h)

  backfill_lem :
      (p : TradeProvider B) (session : ℕ) (ms : List PositionMapping) (w : World B)
      → ((backfill p session ms w).0 ≡ ok tt)
        × (any (is_vanished account_id positions) (backfill p session ms w).1.mappings
            ≡ any (is_vanished account_id positions) w.mappings)
  unfolding backfill backfill_one
  backfill_lem p session [] w = (refl, refl)
  backfill_lem p session (m ∷ ms) w =
      from (closed_result (p.get_closed_position session m.member_ticket w.broker))
        (backfill_lem p session ms)
    where
      from :
          (r : Option ClosedPositionResult)
          → ((u : World B)
              → ((backfill p session ms u).0 ≡ ok tt)
                × (any (is_vanished account_id positions) (backfill p session ms u).1.mappings
                    ≡ any (is_vanished account_id positions) u.mappings))
          → let after = (backfill_one m r >> backfill p session ms) w in
            (after.0 ≡ ok tt)
            × (any (is_vanished account_id positions) after.1.mappings
                ≡ any (is_vanished account_id positions) w.mappings)
      from none rest = rest w
      from (some r) rest =
          let mappings = update_where (λ x. x.id == m.id) (backfilled r) w.mappings in
          let (answered, same) = rest (record w { mappings = mappings }) in
          (
            answered,
            same
                ∙ any-update (is_vanished account_id positions) (λ x. x.id == m.id) (backfilled r)
                    w.mappings (backfilled_keeps account_id positions r),
          )

  backfill_missing_lem :
      (p : TradeProvider B) (session id : ℕ) (w : World B)
      → ((backfill_missing p session id w).0 ≡ ok tt)
        × (any (is_vanished account_id positions) (backfill_missing p session id w).1.mappings
            ≡ any (is_vanished account_id positions) w.mappings)
  unfolding backfill_missing
  backfill_missing_lem p session id w = backfill_lem p session _ w

-- Once the broker has answered, a reconcile succeeds and leaves no position of the account that the
-- tables call open and the broker does not report. The answer counts the positions of the broker and
-- the ones that were closed.
pub reconcile_with_lem :
    {B : Type 0} (p : TradeProvider B) (a : TradingAccount) (session : ℕ) (info : AccountInfo)
    (positions : List ProviderPosition) (w : World B)
    → let after = reconcile_with p a session info positions w in
      ((r : ReconcileResult) × (after.0 ≡ ok r)
        × (r.open_positions ≡ length positions)
        × (r.closed_mappings ≡ length (filter (is_vanished a.id positions) w.mappings)))
      × (any (is_vanished a.id positions) after.1.mappings ≡ false)
unfolding reconcile_with
reconcile_with_lem {B} p a session info positions w =
    let q = is_vanished a.id positions in
    let close = close_vanished p session (filter q w.mappings) in
    let (closed_all, none_left) =
      close_vanished_lem a.id positions p session (filter q w.mappings) w
        (Pending-filter q w.mappings) in
    let t = (close w).1 in
    let (filled, same) = backfill_missing_lem a.id positions p session a.id t in
    let finish : Action (World B) ReconcileResult =
      update_account a.id (refreshed info positions (max_of a.peak_equity info.equity))
      >> pure (record {
        open_positions = length positions;
        closed_mappings = length (filter q w.mappings);
        equity = info.equity;
      }) in
    let path =
      bind-ok close (λ _. backfill_missing p session a.id >> finish) w closed_all
      ∙ bind-ok (backfill_missing p session a.id) (λ _. finish) t filled in
    rw path ((_, refl, refl, refl), same ∙ none_left)
