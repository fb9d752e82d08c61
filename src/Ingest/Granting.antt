-- ===== src/Ingest/Granting.antt =====
-- What a request must have shown when it is let through.
use copytrade_dashboard.Base.{
  ℕ, ◌≡◌, refl, sym, ap, ◌∙◌, true, false, Option, none, some, List, find, find_sound, Bool-cases,
  inl, inr,
}
use copytrade_dashboard.Text.{Text, text_eq, text_eq_iff}
use copytrade_dashboard.Store.Monad.{ok}
use copytrade_dashboard.Ingest.State.{Strategy, StrategyOwner}
use copytrade_dashboard.Ingest.Access.{
  StrategyApiKey, SignedRequest, Environment, Granted, is_stale, is_signed, with_live_key, with_key,
  named_strategy, named_code, with_platform_key, with_found_key, authenticate_master_request,
}

ok_injective : (x y : Granted) → ok x ≡ ok y → x ≡ y
ok_injective x y h = cc

module _ (hmac : Text → Text → Text → Text) (code_of : Text → Option Text) (env : Environment)
    (keys : List StrategyApiKey) (strategies : List Strategy) (request : SignedRequest) where
  abbrev signature_under : Text → Text
  signature_under secret = hmac secret request.timestamp request.body

  -- The two ways to be let through.
  pub data IsGranted (g : Granted) : Type 0 where
    by_own_key :
        (key : StrategyApiKey)
        → find (λ k. text_eq k.key_id request.api_key) keys ≡ some key
        → key.revoked_at ≡ none
        → signature_under key.secret ≡ request.signature
        → g.strategy ≡ key.strategy
        → IsGranted g
    by_platform_key :
        find (λ k. text_eq k.key_id request.api_key) keys ≡ none
        → env.master_api_key ≡ request.api_key
        → signature_under env.master_api_secret ≡ request.signature
        → g.strategy.owner_type ≡ StrategyOwner.platform
        → code_of request.body ≡ some g.strategy.code
        → IsGranted g

  signed :
      (secret : Text)
      → is_signed hmac code_of secret request ≡ true
      → signature_under secret ≡ request.signature
  unfolding is_signed
  signed secret h = (text_eq_iff (signature_under secret) request.signature).0 h

  own_key :
      (key : StrategyApiKey) {g : Granted}
      → with_key hmac code_of key request ≡ ok g
      → (key.revoked_at ≡ none)
        × (is_signed hmac code_of key.secret request ≡ true)
        × (g.strategy ≡ key.strategy)
  unfolding with_key with_live_key
  own_key key {g} h = from key.revoked_at refl h
    where
      from :
          (r : Option ℕ)
          → key.revoked_at ≡ r
          → with_live_key hmac code_of key request r ≡ ok g
          → (key.revoked_at ≡ none)
            × (is_signed hmac code_of key.secret request ≡ true)
            × (g.strategy ≡ key.strategy)
      from (some at) dead d = cc
      from none live d = elim (Bool-cases (is_signed hmac code_of key.secret request)) [
        | inl e ↦ (live, e, sym (ap (λ x. x.strategy) (ok_injective _ g (rw e at d))))
        | inr e ↦ let d' = rw e at d in cc
      ]

  platform_owned :
      (s : Option Strategy) {g : Granted}
      → named_strategy hmac code_of s ≡ ok g
      → (s ≡ some g.strategy) × (g.strategy.owner_type ≡ StrategyOwner.platform)
  unfolding named_strategy
  platform_owned none h = cc
  platform_owned (some s) {g} h = from s.owner_type refl
    where
      from :
          (o : StrategyOwner)
          → s.owner_type ≡ o
          → (some s ≡ some g.strategy) × (g.strategy.owner_type ≡ StrategyOwner.platform)
      from StrategyOwner.platform e =
          let same : s ≡ g.strategy = ap (λ x. x.strategy) (ok_injective _ g (simp e at h)) in
          (ap some same, ap (λ x. x.owner_type) (sym same) ∙ e)
      from StrategyOwner.provider e = let d = simp e at h in cc

  named :
      (code : Option Text) {g : Granted}
      → named_code hmac code_of strategies code ≡ ok g
      → (g.strategy.owner_type ≡ StrategyOwner.platform) × (code ≡ some g.strategy.code)
  unfolding named_code
  named none h = cc
  named (some code) {g} h =
      let (found, owned) = platform_owned (find (λ s. text_eq s.code code) strategies) h in
      let same = find_sound (λ s. text_eq s.code code) strategies found in
      (owned, ap some (sym ((text_eq_iff g.strategy.code code).0 same)))

  platform_key :
      {g : Granted}
      → with_platform_key hmac code_of env strategies request ≡ ok g
      → (env.master_api_key ≡ request.api_key)
        × (is_signed hmac code_of env.master_api_secret request ≡ true)
        × (g.strategy.owner_type ≡ StrategyOwner.platform)
        × (code_of request.body ≡ some g.strategy.code)
  unfolding with_platform_key
  platform_key {g} h = elim (Bool-cases (text_eq env.master_api_key request.api_key)) [
    | inl known ↦ elim (Bool-cases (is_signed hmac code_of env.master_api_secret request)) [
      | inl e ↦
          let (owned, code) = named (code_of request.body) {g = g} (rw (known, e) at h) in
          ((text_eq_iff env.master_api_key request.api_key).0 known, e, owned, code)
      | inr e ↦ let d = rw (known, e) at h in cc
    ]
    | inr unknown ↦ let d = rw unknown at h in cc
  ]

  -- A request that is let through is fresh and signed: either under the live key that its key id
  -- names, and then it may publish into that key's strategy and no other, or, where no key has its
  -- id, under the platform's own key, and then into the strategy of the platform that the body
  -- names.
  pub authenticate_master_request-IsGranted :
      {g : Granted}
      → authenticate_master_request hmac code_of env keys strategies request ≡ ok g
      → (is_stale env request.seconds ≡ false) × IsGranted g
  unfolding authenticate_master_request with_found_key
  authenticate_master_request-IsGranted {g} h = elim (Bool-cases (is_stale env request.seconds)) [
    | inl stale ↦ let d = rw stale at h in cc
    | inr fresh ↦
        (fresh, from (find (λ k. text_eq k.key_id request.api_key) keys) refl (rw fresh at h))
  ]
    where
      from :
          (k : Option StrategyApiKey)
          → find (λ k'. text_eq k'.key_id request.api_key) keys ≡ k
          → with_found_key hmac code_of env strategies request k ≡ ok g
          → IsGranted g
      from none e d =
          let (known, good, owned, code) = platform_key {g = g} d in
          by_platform_key e known (signed env.master_api_secret good) owned code
      from (some key) e d =
          let (live, good, same) = own_key key {g = g} d in
          by_own_key key e live (signed key.secret good) same
