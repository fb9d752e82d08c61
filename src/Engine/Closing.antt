-- ===== src/Engine/Closing.antt =====
-- Closing a member's position, in full and in part.
use copytrade_dashboard.Base.{
  ℕ, ◌≡◌, refl, ◌∙◌, true, false, Option, none, some, [], ◌∷◌, ◌++◌, any, ◌==◌, Bool-cases, inl,
  inr, ◌≤◌, ◌⊎◌, arith, leb,
}
use copytrade_dashboard.Base.Int.{increment, decrement, decrement-increment}
use copytrade_dashboard.Number.Defs.{
  Number, hundredths, of_nat, cross, max_of, to_fixed, is_less, negate, multiply, nearest,
}
use copytrade_dashboard.Text.{Text}
use copytrade_dashboard.Types.{EventType, OrderResult, partially_closed}
use copytrade_dashboard.Store.Rows.{PositionMapping, Subscription, TradeEvent}
use copytrade_dashboard.Store.Monad.{ok, ◌>>◌}
use copytrade_dashboard.Store.Tables.{TradeProvider, World}
use copytrade_dashboard.Store.Lookup.{update_where_undo}
use copytrade_dashboard.Engine.Records.{success, is_mapping, upsert_mapping, record_fill, or_else}
use copytrade_dashboard.Engine.Open.{MemberContext}
use copytrade_dashboard.Engine.Adjust.{
  is_closed, close_volume, remap, closed_result, close_mapping, send_adjustment, close_position_row,
  apply_remainder, confirm_adjustment, finish_adjustment, adjust_for_member, is_partial_close,
}
use copytrade_dashboard.Engine.Fill.{find_mapping}
use copytrade_dashboard.Engine.Branches.{
  find_mapping-update, sent_state, adjust_for_member_closed, adjust_for_member_executed,
  send_adjustment_close, finish_adjustment_close,
}

positive_hundredths :
    (x : Number) → (n : ℕ) × (1 ≤ n) × (max_of (to_fixed 99 x) (hundredths 1) ≡ hundredths n)
unfolding to_fixed cross negate
positive_hundredths x = elim (Bool-cases (leb x.minus x.plus)) [
  | inl e ↦ rw e (raised (nearest _ _))
  | inr e ↦ rw e (lifted (nearest _ _))
]
  where
    raised : (k : ℕ) → (n : ℕ) × (1 ≤ n) × (max_of (hundredths k) (hundredths 1) ≡ hundredths n)
    raised k = elim (Bool-cases (is_less (hundredths k) (hundredths 1))) [
      | inl e ↦ rw e (1, omega arith, refl)
      | inr e ↦ rw e (k, ground (arith, e), refl)
    ]

    lifted :
        (k : ℕ) → (n : ℕ) × (1 ≤ n) × (max_of (negate (hundredths k)) (hundredths 1) ≡ hundredths n)
    lifted k =
        let e : is_less (negate (hundredths k)) (hundredths 1) ≡ true = ground arith in
        rw e (1, omega arith, refl)

-- A partial close asks the broker for a whole positive number of hundredths of a lot, whatever the
-- fraction and the position's volume are; every other event asks for the whole position.
pub close_volume_lem :
    (event : TradeEvent) (m : PositionMapping)
    → ((is_partial_close event.event_type ≡ true)
        × ((n : ℕ) × (1 ≤ n) × (close_volume event m ≡ some (hundredths n))))
      ⊎ ((is_partial_close event.event_type ≡ false) × (close_volume event m ≡ none))
unfolding close_volume
close_volume_lem event m = elim (Bool-cases (is_partial_close event.event_type)) [
  | inl e ↦
      let (n, positive, same) =
        positive_hundredths (multiply m.volume (or_else event.close_fraction (of_nat 1))) in
      inl (e, (n, positive, rw (e, same) refl))
  | inr e ↦ inr (e, rw e refl)
]

module _ {B : Type 0} (p : TradeProvider B) (c : MemberContext) (id : ℕ) (w : World B) where
  -- A full close that the broker has executed, leaving no rest, is final: the copy is a success and
  -- the position is marked closed, and no later adjustment for the same account and master ticket
  -- calls the broker again, whatever its event is.
  pub adjust_for_member_final :
      {m : PositionMapping} {r : OrderResult} {b : B} (c' : MemberContext) (id' : ℕ)
      → find_mapping c.account.id c.event.ticket w.mappings ≡ some m
      → is_closed m.status ≡ false
      → c.event.event_type ≡ EventType.close
      → p.close_position c.provider_account_id
          (record { ticket = m.member_ticket; volume = close_volume c.event m })
          w.broker
        ≡ (ok r, b)
      → r.executed ≡ true
      → r.remainder_ticket ≡ none
      → c'.account.id ≡ c.account.id
      → c'.event.ticket ≡ c.event.ticket
      → let after = adjust_for_member p c id w in
        (after.0 ≡ ok success)
        × (after.1.broker ≡ b)
        × ((m' : PositionMapping) × (find_mapping c.account.id c.event.ticket after.1.mappings
              ≡ some m')
            × (is_closed m'.status ≡ true))
        × ((adjust_for_member p c' id' after.1).1.broker ≡ b)
  unfolding close_mapping
  adjust_for_member_final {m} {r} {b} c' id' found live closing sent executed whole account ticket =
      let done = closed_result (p.get_closed_position c.provider_account_id m.member_ticket b) in
      let mapping =
        find_mapping-update c.account.id c.event.ticket (close_mapping done w.now) w.mappings
          (λ x. (refl, refl)) found in
      let (t, same, mapped, moved) =
        finish_adjustment_close p c id (sent_state p c id w m b) m r closing whole in
      let e =
        adjust_for_member_executed p c id w found live
          (send_adjustment_close p c id w m r b closing sent) executed
        ∙ same in
      let final : find_mapping c'.account.id c'.event.ticket t.mappings
          ≡ some (close_mapping done w.now m) =
        rw (account, ticket, mapped) mapping in
      rw e (
        refl,
        moved,
        (close_mapping done w.now m, rw mapped mapping, refl),
        adjust_for_member_closed p c' id' t final refl ∙ moved,
      )

  -- An executed adjustment that leaves a rest under a new ticket, as a partial close does at some
  -- brokers: the position is found under the new ticket, the old ticket is added at the end of its
  -- history, and it counts as partially closed.
  pub adjust_for_member_remapped :
      {m : PositionMapping} {r : OrderResult} {b : B} {ticket : ℕ}
      → find_mapping c.account.id c.event.ticket w.mappings ≡ some m
      → is_closed m.status ≡ false
      → send_adjustment p c m c.event.event_type w ≡ (ok r, record w { broker = b })
      → r.executed ≡ true
      → r.remainder_ticket ≡ some ticket
      → let after = adjust_for_member p c id w in
        (after.0 ≡ ok success)
        × ((m' : PositionMapping) × (find_mapping c.account.id c.event.ticket after.1.mappings
              ≡ some m')
            × (m'.member_ticket ≡ ticket)
            × (m'.ticket_history ≡ m.ticket_history ++ m.member_ticket ∷ [])
            × (m'.status ≡ partially_closed))
  unfolding finish_adjustment apply_remainder confirm_adjustment remap
  adjust_for_member_remapped {m} {r} {b} {ticket} found live sent executed rest =
      let e = adjust_for_member_executed p c id w found live sent executed in
      let mapping =
        find_mapping-update c.account.id c.event.ticket (remap ticket r) w.mappings
          (λ x. (refl, refl)) found in
      rw (e, rest) (refl, (remap ticket r m, mapping, refl, refl, refl))

module _ {B : Type 0} where
  -- Opening and fully closing a position for one account keeps the books: the fill counts one more
  -- open trade and the close one less, so the table of accounts is what it was before both.
  pub record_fill-close_position_row :
      (p : TradeProvider B) (c : MemberContext) (m : PositionMapping) (id ticket : ℕ)
      (price : Option Number) (v : Number) (s : Subscription) (event : TradeEvent) (symbol : Text)
      (w : World B)
      → c.account.id ≡ s.account_id
      → ((record_fill id ticket price v s event symbol >> close_position_row p c m) w).1.accounts
        ≡ w.accounts
  unfolding record_fill close_position_row upsert_mapping
  record_fill-close_position_row p c m id ticket price v s event symbol w same =
      let undone =
        update_where_undo (λ a. a.id == s.account_id)
          (λ a. record a { open_trades = increment a.open_trades })
          (λ a. record a { open_trades = decrement a.open_trades }) w.accounts (λ a. refl)
          (λ a. simp (decrement-increment a.open_trades) refl) in
      elim (Bool-cases (any (is_mapping s.account_id event.ticket) w.mappings)) [
        | inl e ↦ rw (e, same) undone
        | inr e ↦ rw (e, same) undone
      ]
