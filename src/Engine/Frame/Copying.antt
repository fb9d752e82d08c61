-- ===== src/Engine/Frame/Copying.antt =====
-- What copying to one member and to all leaves of the events and of the rows of copies.
use copytrade_dashboard.Base.{
  ℕ, ◌≡◌, refl, ◌∙◌, sym, Bool, true, false, ◌&&◌, ◌||◌, Option, none, some, List, [], ◌∷◌, ◌++◌,
  any, arith, ◌==◌, if◌then◌else◌, Bool-cases, inl, inr,
}
use copytrade_dashboard.Text.{Text}
use copytrade_dashboard.Store.Rows.{CopyTrade}
use copytrade_dashboard.Store.Monad.{Failure}
use copytrade_dashboard.Store.Tables.{TradeProvider, World}
use copytrade_dashboard.Engine.Open.{MemberContext, open_for_member}
use copytrade_dashboard.Engine.Adjust.{adjust_for_member}
use copytrade_dashboard.Engine.Process.{
  is_copy_of, opens, copy_failed, new_copy_trade, create_copy_trade, record_failure, copy_with_row,
}
use copytrade_dashboard.Engine.Frame.{
  keys, Steady, IsSteady, Steady-refl, if-IsSteady, try_catch-IsSteady, keys-update_where,
}
use copytrade_dashboard.Engine.Frame.Member.{open_for_member-IsSteady}
use copytrade_dashboard.Engine.Frame.Adjusting.{adjust_for_member-IsSteady}

-- The event and account have a row.
abbrev pub has_key : ℕ → ℕ → List (ℕ × ℕ) → Bool
has_key e a [] = false
has_key e a ((i, j) ∷ ks) = (i == e && j == a) || has_key e a ks

-- No event and account have two rows.
abbrev pub IsUnique : List (ℕ × ℕ) → Type 0
IsUnique [] = Unit
IsUnique ((e, a) ∷ ks) = (has_key e a ks ≡ false) × IsUnique ks

pub any-has_key : (e a : ℕ) (ts : List CopyTrade) → any (is_copy_of e a) ts ≡ has_key e a (keys ts)
any-has_key e a [] = refl
any-has_key e a (t ∷ ts) = rw (any-has_key e a ts)

has_key-append :
    (e a i j : ℕ) (ks : List (ℕ × ℕ))
    → has_key e a (ks ++ (i, j) ∷ []) ≡ (has_key e a ks || (i == e && j == a))
has_key-append e a i j [] = ground arith
has_key-append e a i j (k ∷ ks) = ground (arith, has_key-append e a i j ks)

IsUnique-append :
    (e a : ℕ) (ks : List (ℕ × ℕ))
    → has_key e a ks ≡ false
    → IsUnique ks
    → IsUnique (ks ++ (e, a) ∷ [])
IsUnique-append e a [] h u = (refl, tt)
IsUnique-append e a (k ∷ ks) h u =
    ground (arith, IsUnique-append e a ks, has_key-append k.0 k.1 e a ks)

keys-append :
    (ts : List CopyTrade) (t : CopyTrade)
    → keys (ts ++ t ∷ []) ≡ keys ts ++ (t.event_id, t.account_id) ∷ []
keys-append [] t = refl
keys-append (x ∷ ts) t = rw (keys-append ts t)

module _ {B : Type 0} where
  pub record Grows (w w' : World B) : Type 0 where
    pub events_kept : w'.events ≡ w.events
    pub unique_kept : IsUnique (keys w.copy_trades) → IsUnique (keys w'.copy_trades)
    pub rows_kept :
        (e a : ℕ)
        → has_key e a (keys w.copy_trades) ≡ true
        → has_key e a (keys w'.copy_trades) ≡ true

  pub Grows-refl : (w : World B) → Grows w w
  Grows-refl w = record { events_kept = refl; unique_kept = λ u. u; rows_kept = λ e a h. h }

  pub Grows-trans : (u v w : World B) → Grows u v → Grows v w → Grows u w
  Grows-trans u v w h k = record {
    events_kept = k.events_kept ∙ h.events_kept;
    unique_kept = λ x. k.unique_kept (h.unique_kept x);
    rows_kept = λ e a x. k.rows_kept e a (h.rows_kept e a x);
  }

  pub Steady-Grows : (w w' : World B) → Steady w w' → Grows w w'
  Steady-Grows w w' h = record {
    events_kept = h.events_kept;
    unique_kept = λ u. rw h.keys_kept u;
    rows_kept = λ e a x. rw h.keys_kept x;
  }

  pub create-Grows :
      (c : MemberContext) (symbol : Text) (w : World B) → Grows w (create_copy_trade c symbol w).1
  unfolding create_copy_trade new_copy_trade
  create-Grows c symbol w =
      elim (Bool-cases (any (is_copy_of c.event.event_id c.account.id) w.copy_trades)) [
        | inl old ↦ rw old (Grows-refl w)
        | inr new ↦ rw new (record {
          events_kept = refl;
          unique_kept = λ u.
              rw keys-append (IsUnique-append _ _ _ (sym (any-has_key _ _ w.copy_trades) ∙ new) u);
          rows_kept = λ e a x. rw (keys-append, has_key-append, x);
        })
      ]

  record_failure-IsSteady :
      (c : MemberContext) (id : ℕ) (e : Failure) → IsSteady {B = B} (record_failure c id e)
  unfolding record_failure
  record_failure-IsSteady c id e w = record {
    events_kept = refl;
    keys_kept =
        keys-update_where (λ t. t.id == id) (copy_failed e) w.copy_trades (λ t. (refl, refl));
  }

  pub copy_with_row-IsSteady :
      (p : TradeProvider B) (c : MemberContext) (symbol : Text) (row : Option ℕ)
      → IsSteady (copy_with_row p c symbol row)
  unfolding copy_with_row
  copy_with_row-IsSteady p c symbol none w = Steady-refl w
  copy_with_row-IsSteady p c symbol (some id) w =
      let opening = open_for_member p c symbol id c.subscription.copy_settings in
      let adjust = adjust_for_member p c id in
      try_catch-IsSteady (if opens c.event.event_type then opening else adjust)
        (record_failure c id)
        (if-IsSteady (opens c.event.event_type) opening adjust
          (open_for_member-IsSteady p c symbol id c.subscription.copy_settings)
          (adjust_for_member-IsSteady p c id))
        (record_failure-IsSteady c id) w
