-- ===== src/MetaApi/Steps.antt =====
-- How a call of the provider goes on after the calls that it makes.
use copytrade_dashboard.Base.{◌≡◌, ap}
use copytrade_dashboard.MetaApi.Sdk.{
  Fault, Reply, answered, thrown, Call, Adapter, ◌>>=◌, try_catch, remotely,
}

module _ {S A B : Type 0} (m : Call S A) (f : A → Call S B) (s : S) {t : S} where
  pub bind-answered : {a : A} → m s ≡ (answered a, t) → (m >>= f) s ≡ f a t
  bind-answered h =
      ap
        (λ (r : Reply A × S).
          let after : Reply B × S = elim r.0 [
            | answered a ↦ f a r.1
            | thrown e ↦ (thrown e, r.1)
          ] in
          after)
        h

  pub bind-thrown : {e : Fault} → m s ≡ (thrown e, t) → (m >>= f) s ≡ (thrown e, t)
  bind-thrown h =
      ap
        (λ (r : Reply A × S).
          let after : Reply B × S = elim r.0 [
            | answered a ↦ f a r.1
            | thrown e ↦ (thrown e, r.1)
          ] in
          after)
        h

module _ {S A : Type 0} (m : Call S A) (h : Fault → Call S A) (s : S) {t : S} where
  pub try_catch-answered : {a : A} → m s ≡ (answered a, t) → try_catch m h s ≡ (answered a, t)
  try_catch-answered e =
      ap
        (λ (r : Reply A × S).
          let after : Reply A × S = elim r.0 [
            | answered a ↦ (answered a, r.1)
            | thrown e ↦ h e r.1
          ] in
          after)
        e

  pub try_catch-thrown : {e : Fault} → m s ≡ (thrown e, t) → try_catch m h s ≡ h e t
  try_catch-thrown e =
      ap
        (λ (r : Reply A × S).
          let after : Reply A × S = elim r.0 [
            | answered a ↦ (answered a, r.1)
            | thrown e ↦ h e r.1
          ] in
          after)
        e

pub remotely_lem :
    {S A : Type 0} (f : Call S A) (s : Adapter S) {r : Reply A} {t : S}
    → f s.remote ≡ (r, t)
    → remotely f s ≡ (r, record s { remote = t })
remotely_lem f s e = ap (λ r. (r.0, record s { remote = r.1 })) e
