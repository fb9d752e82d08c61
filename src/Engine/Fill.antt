-- ===== src/Engine/Fill.antt =====
-- What the broker's answer to an order becomes in the tables.
use copytrade_dashboard.Base.{
  ℕ, ◌+◌, ◌≡◌, refl, ap, ◌∙◌, true, Option, some, List, find, find_sound, any, arith, ◌==◌, ==_iff,
  Bool-cases, inl, inr,
}
use copytrade_dashboard.Number.Defs.{Number}
use copytrade_dashboard.Text.{Text}
use copytrade_dashboard.Types.{OrderResult, opened}
use copytrade_dashboard.Store.Rows.{
  CopyTrade, CopyTradeStatus, PositionMapping, Subscription, TradeEvent,
}
use copytrade_dashboard.Store.Monad.{ok}
use copytrade_dashboard.Store.Tables.{World, update_where}
use copytrade_dashboard.Store.Lookup.{find-update_where, find-some-any, find-append}
use copytrade_dashboard.Engine.Records.{
  success, or_else, is_mapping, filled, upsert_mapping, record_fill,
}
use copytrade_dashboard.Engine.Open.{
  MemberContext, attempted, fill_ticket, settle_order, order_answered,
}

abbrev pub find_copy : ℕ → List CopyTrade → Option CopyTrade
find_copy id rows = find (λ t. t.id == id) rows

-- The position of an account that a master ticket is mapped to.
abbrev pub find_mapping : ℕ → ℕ → List PositionMapping → Option PositionMapping
find_mapping account_id master_ticket rows = find (is_mapping account_id master_ticket) rows

same : (n : ℕ) → (n == n) ≡ true
same n = (==_iff n n).1 refl

-- An update of one copy, seen at that copy.
find_copy-update :
    (id : ℕ) (f : CopyTrade → CopyTrade) (rows : List CopyTrade) {t : CopyTrade}
    → ((x : CopyTrade) → (f x).id ≡ x.id)
    → find_copy id rows ≡ some t
    → find_copy id (update_where (λ x. x.id == id) f rows) ≡ some (f t)
find_copy-update id f rows keep h =
    find-update_where (λ t. t.id == id) (λ t. t.id == id) f rows (λ x. rw (keep x) refl) h
      (find_sound (λ t. t.id == id) rows h)

module _ {B : Type 0} where
  upsert_mapping_lem :
      (s : Subscription) (event : TradeEvent) (ticket : ℕ) (v open_price : Number) (symbol : Text)
      (w : World B)
      → (m : PositionMapping) × (find_mapping s.account_id event.ticket
            (upsert_mapping s event ticket v open_price symbol w).1.mappings
          ≡ some m)
        × (m.member_ticket ≡ ticket)
        × (m.volume ≡ v)
        × (m.status ≡ opened)
  unfolding upsert_mapping
  upsert_mapping_lem s event ticket v open_price symbol w =
      let at = is_mapping s.account_id event.ticket in
      elim (Bool-cases (any at w.mappings)) [
        | inl e ↦
            let (m, found, fits) = find-some-any at w.mappings e in
            rw e (_, find-update_where at at _ w.mappings (λ x. refl) found fits, refl, refl, refl)
        | inr e ↦ rw e (
          _,
          find-append at w.mappings _ e (rw (same s.account_id, same event.ticket) refl),
          refl,
          refl,
          refl,
        )
      ]

  upsert_mapping_copies :
      (s : Subscription) (event : TradeEvent) (ticket : ℕ) (v open_price : Number) (symbol : Text)
      (w : World B)
      → (upsert_mapping s event ticket v open_price symbol w).1.copy_trades ≡ w.copy_trades
  unfolding upsert_mapping
  upsert_mapping_copies s event ticket v open_price symbol w = ground arith

  -- An answer that executed the order and names a ticket is a fill: the copy is a success under that
  -- ticket, with the volume that was sent and one more attempt, and the account has an open
  -- position of that volume under that ticket for the master's ticket.
  pub order_answered_confirmed :
      (c : MemberContext) (symbol : Text) (v : Number) (id : ℕ) (r : OrderResult) (w : World B)
      {ticket : ℕ} {row : CopyTrade}
      → fill_ticket r ≡ some ticket
      → find_copy id w.copy_trades ≡ some row
      → let after = order_answered c symbol v id r w in
        (after.0 ≡ ok success)
        × ((t : CopyTrade) × (find_copy id after.1.copy_trades ≡ some t)
            × (t.status ≡ CopyTradeStatus.success)
            × (t.member_ticket ≡ some ticket)
            × (t.member_volume ≡ v)
            × (t.attempts ≡ row.attempts + 1))
        × ((m : PositionMapping) × (find_mapping c.subscription.account_id c.event.ticket
                after.1.mappings
              ≡ some m)
            × (m.member_ticket ≡ ticket)
            × (m.volume ≡ v)
            × (m.status ≡ opened))
  unfolding order_answered settle_order record_fill upsert_mapping
  order_answered_confirmed c symbol v id r w {ticket} {row} h k =
      let first = find_copy-update id attempted w.copy_trades (λ x. refl) k in
      let second = find_copy-update id (filled ticket v r.price w.now) _ (λ x. refl) first in
      let price = or_else r.price c.event.price in
      rw h (
        refl,
        (
          _,
          ap (find_copy id) (upsert_mapping_copies c.subscription c.event ticket v price symbol _)
              ∙ second,
          refl,
          refl,
          refl,
          refl,
        ),
        upsert_mapping_lem c.subscription c.event ticket v price symbol _,
      )
