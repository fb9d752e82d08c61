-- ===== src/Store/Preserve.antt =====
-- Calls that preserve a property of the state, whether they answer or throw.
use copytrade_dashboard.Base.{Bool, true, false, if◌then◌else◌}
use copytrade_dashboard.Store.Monad.{Failure, Result, ok, err, Action, ◌>>=◌, try_catch}

module _ {S : Type 0} (Q : S → Type 0) where
  abbrev pub Preserves : {A : Type 0} → Action S A → Type 0
  Preserves m = (s : S) → Q s → Q (m s).1

  pub bind-Preserves :
      {A C : Type 0} (m : Action S A) (f : A → Action S C)
      → Preserves m
      → ((a : A) → Preserves (f a))
      → Preserves (m >>= f)
  bind-Preserves {A} {C} m f hm hf s q = from (m s).0 (m s).1 (hm s q)
    where
      from :
          (r : Result A) (t : S)
          → Q t
          → let after : Result C × S = elim r [ ok a ↦ f a t | err e ↦ (err e, t) ] in Q after.1
      from (ok a) t k = hf a t k
      from (err e) t k = k

  pub try_catch-Preserves :
      {A : Type 0} (m : Action S A) (h : Failure → Action S A)
      → Preserves m
      → ((e : Failure) → Preserves (h e))
      → Preserves (try_catch m h)
  try_catch-Preserves {A} m h hm hh s q = from (m s).0 (m s).1 (hm s q)
    where
      from :
          (r : Result A) (t : S)
          → Q t
          → let after : Result A × S = elim r [ ok a ↦ (ok a, t) | err e ↦ h e t ] in Q after.1
      from (ok a) t k = k
      from (err e) t k = hh e t k

  pub if-Preserves :
      {A : Type 0} (b : Bool) (m k : Action S A)
      → Preserves m
      → Preserves k
      → Preserves (if b then m else k)
  if-Preserves true m k hm hk = hm
  if-Preserves false m k hm hk = hk
