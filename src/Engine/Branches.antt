-- ===== src/Engine/Branches.antt =====
-- What adjusting a position comes to on each branch.
use copytrade_dashboard.Base.{ℕ, ◌≡◌, refl, ap, ◌∙◌, true, false, none, some, List, ◌==◌, ==_iff}
use copytrade_dashboard.Base.Int.{decrement}
use copytrade_dashboard.Types.{EventType, OrderResult}
use copytrade_dashboard.Store.Rows.{PositionMapping}
use copytrade_dashboard.Store.Monad.{bind-ok, ok, ◌>>=◌}
use copytrade_dashboard.Store.Tables.{TradeProvider, World, update_where}
use copytrade_dashboard.Store.Lookup.{find-update_where}
use copytrade_dashboard.Engine.Records.{success, is_mapping, skip}
use copytrade_dashboard.Engine.Open.{MemberContext}
use copytrade_dashboard.Engine.Adjust.{
  is_closed, close_volume, adjustment_sent, adjusted, closed_result, close_mapping, send_adjustment,
  close_position_row, adjust_mapping, apply_remainder, confirm_adjustment, finish_adjustment,
  settle_adjustment, adjust_open, adjust_mapped, adjust_for_member,
}
use copytrade_dashboard.Engine.Fill.{find_mapping}

-- The mapping after an update by its own id.
pub find_mapping-update :
    (account_id ticket : ℕ) (f : PositionMapping → PositionMapping) (ms : List PositionMapping)
    {m : PositionMapping}
    → ((x : PositionMapping)
        → ((f x).account_id ≡ x.account_id) × ((f x).master_ticket ≡ x.master_ticket))
    → find_mapping account_id ticket ms ≡ some m
    → find_mapping account_id ticket (update_where (λ x. x.id == m.id) f ms) ≡ some (f m)
find_mapping-update account_id ticket f ms {m} keep h =
    find-update_where (is_mapping account_id ticket) (λ x. x.id == m.id) f ms
      (λ x. rw ((keep x).0, (keep x).1) refl) h ((==_iff m.id m.id).1 refl)

module _ {B : Type 0} (p : TradeProvider B) (c : MemberContext) (id : ℕ) (w : World B) where
  -- The state when the broker has executed the adjustment.
  abbrev pub sent_state : PositionMapping → B → World B
  sent_state m b = record w {
    broker = b;
    copy_trades = update_where (λ x. x.id == id) (adjustment_sent m) w.copy_trades;
  }

  pub adjust_for_member_open :
      {m : PositionMapping}
      → find_mapping c.account.id c.event.ticket w.mappings ≡ some m
      → is_closed m.status ≡ false
      → adjust_for_member p c id w ≡ adjust_open p c id m w
  unfolding adjust_for_member adjust_mapped
  adjust_for_member_open found live = rw (found, live) refl

  -- A position that is closed is skipped without a call of the broker.
  pub adjust_for_member_closed :
      {m : PositionMapping}
      → find_mapping c.account.id c.event.ticket w.mappings ≡ some m
      → is_closed m.status ≡ true
      → (adjust_for_member p c id w).1.broker ≡ w.broker
  unfolding adjust_for_member adjust_mapped skip
  adjust_for_member_closed found shut = rw (found, shut) refl

  pub settle_adjustment_executed :
      (m : PositionMapping) (r : OrderResult) (b : B)
      → r.executed ≡ true
      → settle_adjustment p c id m r (record w { broker = b })
        ≡ finish_adjustment p c id m r (sent_state m b)
  unfolding settle_adjustment
  settle_adjustment_executed m r b executed = simp executed refl

  -- What an adjustment does when the broker has executed it.
  pub adjust_for_member_executed :
      {m : PositionMapping} {r : OrderResult} {b : B}
      → find_mapping c.account.id c.event.ticket w.mappings ≡ some m
      → is_closed m.status ≡ false
      → send_adjustment p c m c.event.event_type w ≡ (ok r, record w { broker = b })
      → r.executed ≡ true
      → adjust_for_member p c id w ≡ finish_adjustment p c id m r (sent_state m b)
  unfolding adjust_open
  adjust_for_member_executed {m} {r} {b} found live sent executed =
      let send = send_adjustment p c m c.event.event_type in
      adjust_for_member_open found live
      ∙ bind-ok send (settle_adjustment p c id m) w (ap (λ x. x.0) sent)
      ∙ ap (λ x. settle_adjustment p c id m r x.1) sent
      ∙ settle_adjustment_executed m r b executed

  pub send_adjustment_close :
      (m : PositionMapping) (r : OrderResult) (b : B)
      → c.event.event_type ≡ EventType.close
      → p.close_position c.provider_account_id
          (record { ticket = m.member_ticket; volume = close_volume c.event m })
          w.broker
        ≡ (ok r, b)
      → send_adjustment p c m c.event.event_type w ≡ (ok r, record w { broker = b })
  unfolding send_adjustment
  send_adjustment_close m r b closing sent =
      ap (λ t. send_adjustment p c m t w) closing ∙ rw sent refl

  -- The rest of a full close.
  pub finish_adjustment_close :
      (m : PositionMapping) (r : OrderResult)
      → c.event.event_type ≡ EventType.close
      → r.remainder_ticket ≡ none
      → let done =
          closed_result (p.get_closed_position c.provider_account_id m.member_ticket w.broker) in
        (t : World B) × (finish_adjustment p c id m r w ≡ (ok success, t))
        × (t.mappings ≡ update_where (λ x. x.id == m.id) (close_mapping done w.now) w.mappings)
        × (t.broker ≡ w.broker)
  unfolding finish_adjustment apply_remainder adjust_mapping close_position_row confirm_adjustment
  finish_adjustment_close m r closing whole =
      let confirm = λ (u : Unit {0}). confirm_adjustment id m r in
      let done =
        closed_result (p.get_closed_position c.provider_account_id m.member_ticket w.broker) in
      let t = record w {
        accounts =
            update_where (λ a. a.id == c.account.id)
              (λ a. record a { open_trades = decrement a.open_trades }) w.accounts;
        copy_trades = update_where (λ x. x.id == id) (adjusted m r w.now) w.copy_trades;
        mappings = update_where (λ x. x.id == m.id) (close_mapping done w.now) w.mappings;
      } in
      (
        t,
        ap (λ o. (apply_remainder p c m r o >>= confirm) w) whole
            ∙ ap (λ t. (adjust_mapping p c m r t >>= confirm) w) closing,
        refl,
        refl,
      )
