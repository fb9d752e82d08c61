-- ===== src/Engine/Frame.antt =====
-- What the work on one member leaves alone: the table of events, and which event and account each
-- row of the table of copies belongs to. The rules here; the functions in the children.
pub mod Writes
pub mod Member
pub mod Adjusting
pub mod Copying
use copytrade_dashboard.Base.{
  ℕ, ◌≡◌, refl, ◌∙◌, Bool, true, false, Option, none, some, List, [], ◌∷◌, ap, arith, ◌==◌,
  if◌then◌else◌,
}
use copytrade_dashboard.Store.Rows.{CopyTrade, Effect, TradingAccount, PositionMapping}
use copytrade_dashboard.Store.Monad.{
  Failure, Result, ok, err, Action, ◌>>=◌, ◌>>◌, pure, throw, gets, modify, try_catch,
}
use copytrade_dashboard.Store.Tables.{World, update_where}
use copytrade_dashboard.Engine.Session.{broker_call}
use copytrade_dashboard.Engine.Records.{update_copy_trade}

-- The event and the account of each row.
abbrev pub keys : List CopyTrade → List (ℕ × ℕ)
keys [] = []
keys (t ∷ ts) = (t.event_id, t.account_id) ∷ keys ts

module _ {B : Type 0} where
  pub record Steady (w w' : World B) : Type 0 where
    pub events_kept : w'.events ≡ w.events
    pub keys_kept : keys w'.copy_trades ≡ keys w.copy_trades

  pub Steady-refl : (w : World B) → Steady w w
  Steady-refl w = record { events_kept = refl; keys_kept = refl }

  pub Steady-trans : (u v w : World B) → Steady u v → Steady v w → Steady u w
  Steady-trans u v w h k = record {
    events_kept = k.events_kept ∙ h.events_kept;
    keys_kept = k.keys_kept ∙ h.keys_kept;
  }

  abbrev pub IsSteady : {A : Type 0} → Action (World B) A → Type 0
  IsSteady m = (w : World B) → Steady w (m w).1

  pub bind-IsSteady :
      {A C : Type 0} (m : Action (World B) A) (f : A → Action (World B) C)
      → IsSteady m
      → ((a : A) → IsSteady (f a))
      → IsSteady (m >>= f)
  bind-IsSteady {A} {C} m f hm hf w = from (m w).0 (m w).1 (hm w)
    where
      from :
          (r : Result A) (t : World B)
          → Steady w t
          → let after : Result C × World B = elim r [ ok a ↦ f a t | err e ↦ (err e, t) ] in
            Steady w after.1
      from (ok a) t h = Steady-trans w t (f a t).1 h (hf a t)
      from (err e) t h = h

  pub try_catch-IsSteady :
      {A : Type 0} (m : Action (World B) A) (h : Failure → Action (World B) A)
      → IsSteady m
      → ((e : Failure) → IsSteady (h e))
      → IsSteady (try_catch m h)
  try_catch-IsSteady {A} m h hm hh w = from (m w).0 (m w).1 (hm w)
    where
      from :
          (r : Result A) (t : World B)
          → Steady w t
          → let after : Result A × World B = elim r [ ok a ↦ (ok a, t) | err e ↦ h e t ] in
            Steady w after.1
      from (ok a) t k = k
      from (err e) t k = Steady-trans w t (h e t).1 k (hh e t)

  pub if-IsSteady :
      {A : Type 0} (b : Bool) (m n : Action (World B) A)
      → IsSteady m
      → IsSteady n
      → IsSteady (if b then m else n)
  if-IsSteady true m n hm hn = hm
  if-IsSteady false m n hm hn = hn

  pub broker_call-IsSteady : {A : Type 0} (f : B → Result A × B) → IsSteady (broker_call f)
  broker_call-IsSteady f w = record { events_kept = refl; keys_kept = refl }

pub keys-update_where :
    (p : CopyTrade → Bool) (f : CopyTrade → CopyTrade) (ts : List CopyTrade)
    → ((t : CopyTrade) → ((f t).event_id ≡ t.event_id) × ((f t).account_id ≡ t.account_id))
    → keys (update_where p f ts) ≡ keys ts
keys-update_where p f [] h = refl
keys-update_where p f (t ∷ ts) h = ground (arith, h t, keys-update_where p f ts h)

module _ {B : Type 0} where
  pub update_copy_trade-IsSteady :
      (id : ℕ) (f : CopyTrade → CopyTrade)
      → ((t : CopyTrade) → ((f t).event_id ≡ t.event_id) × ((f t).account_id ≡ t.account_id))
      → IsSteady {B = B} (update_copy_trade id f)
  update_copy_trade-IsSteady id f h w = record {
    events_kept = refl;
    keys_kept = keys-update_where _ f w.copy_trades h;
  }
