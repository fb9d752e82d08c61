-- ===== src/Store/Monad.antt =====
-- An asynchronous call: state and a thrown error. What was written before an error stays written.
use copytrade_dashboard.Base.{◌≡◌, refl, ap, Bool, if◌then◌else◌, ◌⊎◌, inl, inr}
use copytrade_dashboard.Types.{ErrorCode, internal_error}

-- An `AppError` with its code, or any other `Error`.
pub data Failure : Type 0 where
  app_error : ErrorCode → Failure
  other_error : Failure

-- `error instanceof AppError ? error.code : ErrorCode.INTERNAL_ERROR`
abbrev pub code_of : Failure → ErrorCode
code_of (app_error code) = code
code_of other_error = internal_error

pub data Result (A : Type 0) : Type 0 where
  ok : A → Result A
  err : Failure → Result A

abbrev pub Action : Type 0 → Type 0 → Type 0
Action S A = S → Result A × S

module _ {S : Type 0} where
  infixl 5 ◌>>=◌ ◌>>◌
  abbrev pub ◌>>=◌ : {A B : Type 0} → Action S A → (A → Action S B) → Action S B
  ◌>>=◌ m f s = let (r, t) = m s in elim r [ ok a ↦ f a t | err e ↦ (err e, t) ]

  abbrev pub ◌>>◌ : {A B : Type 0} → Action S A → Action S B → Action S B
  m >> k = m >>= λ _. k

  abbrev pub pure : {A : Type 0} → A → Action S A
  pure a s = (ok a, s)

  abbrev pub throw : {A : Type 0} → Failure → Action S A
  throw e s = (err e, s)

  abbrev pub gets : {A : Type 0} → (S → A) → Action S A
  gets f s = (ok (f s), s)

  abbrev pub modify : (S → S) → Action S (Unit {0})
  modify f s = (ok tt, f s)

  -- A call that only reads and may throw.
  abbrev pub read : {A : Type 0} → (S → Result A) → Action S A
  read f s = (f s, s)

  -- `try { … } catch (error) { … }`
  abbrev pub try_catch : {A : Type 0} → Action S A → (Failure → Action S A) → Action S A
  try_catch m h s = let (r, t) = m s in elim r [ ok a ↦ (ok a, t) | err e ↦ h e t ]

  abbrev pub throw_if : Bool → Failure → Action S (Unit {0})
  throw_if c e s = (if c then err e else ok tt, s)

module _ {S A C : Type 0} (m : Action S A) (f : A → Action S C) (s : S) where
  -- After a call that answered, the rest goes on from the state that it left.
  pub bind-ok : {a : A} → (m s).0 ≡ ok a → (m >>= f) s ≡ f a (m s).1
  bind-ok h =
      ap
        (λ (r : Result A).
          let after : Result C × S = elim r [ ok a ↦ f a (m s).1 | err e ↦ (err e, (m s).1) ] in
          after)
        h

  -- A thrown error ends the call.
  pub bind-err : {e : Failure} → (m s).0 ≡ err e → (m >>= f) s ≡ (err e, (m s).1)
  bind-err h =
      ap
        (λ (r : Result A).
          let after : Result C × S = elim r [ ok a ↦ f a (m s).1 | err e ↦ (err e, (m s).1) ] in
          after)
        h

  -- The same where the answer and the state that the call leaves are known together.
  pub bind-answer : {a : A} {t : S} → m s ≡ (ok a, t) → (m >>= f) s ≡ f a t
  bind-answer h =
      ap
        (λ (x : Result A × S).
          let after : Result C × S = elim x.0 [ ok a ↦ f a x.1 | err e ↦ (err e, x.1) ] in after)
        h

module _ {S A : Type 0} (m : Action S A) (h : Failure → Action S A) (s : S) where
  -- `catch` is passed by after an answer, and goes on from the state that the error left.
  pub try_catch-ok : {a : A} → (m s).0 ≡ ok a → try_catch m h s ≡ (ok a, (m s).1)
  try_catch-ok e =
      ap
        (λ (r : Result A).
          let after : Result A × S = elim r [ ok a ↦ (ok a, (m s).1) | err e ↦ h e (m s).1 ] in
          after)
        e

  pub try_catch-err : {e : Failure} → (m s).0 ≡ err e → try_catch m h s ≡ h e (m s).1
  try_catch-err e =
      ap
        (λ (r : Result A).
          let after : Result A × S = elim r [ ok a ↦ (ok a, (m s).1) | err e ↦ h e (m s).1 ] in
          after)
        e

pub Result-cases :
    {A : Type 0} (r : Result A) → ((a : A) × (r ≡ ok a)) ⊎ ((e : Failure) × (r ≡ err e))
Result-cases (ok a) = inl (a, refl)
Result-cases (err e) = inr (e, refl)
