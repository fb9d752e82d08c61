-- ===== src/Strategy/Keys.antt =====
-- The keys of the catalog as the signed API reads them, and a key that is revoked.
use copytrade_dashboard.Base.{
  ℕ, ◌≡◌, refl, ap, ◌∙◌, true, false, Option, none, some, List, [], ◌∷◌, ◌++◌, find, find_sound,
  ==_iff, All, arith, ◌==◌, Bool-cases, inl, inr,
}
use copytrade_dashboard.Text.{Text, text_eq}
use copytrade_dashboard.Types.{ErrorCode, unauthorized, stale_request}
use copytrade_dashboard.Store.Monad.{app_error, ok, err, bind-answer, ◌>>=◌, modify}
use copytrade_dashboard.Store.Tables.{update_where}
use copytrade_dashboard.Ingest.State.{Strategy}
use copytrade_dashboard.Ingest.Access.{
  StrategyApiKey, SignedRequest, Environment, is_stale, with_live_key, with_key, with_found_key,
  authenticate_master_request,
}
use copytrade_dashboard.Strategy.State.{
  ProviderProfile, ManagedStrategy, ApiKeyRow, Catalog, Actor, find_strategy,
}
use copytrade_dashboard.Symbol.{is_id}
use copytrade_dashboard.Strategy.Providers.{
  approved_or_throw, require_approved_provider, find_provider_of, is_approved,
}
use copytrade_dashboard.Strategy.Access.{
  require_strategy_access, access_found, access_own, own_or_throw,
}
use copytrade_dashboard.Strategy.Commands.{revoke_found, revoke_strategy_api_key, find_key}

-- `findUnique({ where: { keyId }, include: { strategy: true } })` reads a key with its strategy.
abbrev pub with_strategy : ApiKeyRow → Option ManagedStrategy → List StrategyApiKey
with_strategy k none = []
with_strategy k (some x) =
    record {
      id = k.id;
      key_id = k.key_id;
      strategy = x.watched.strategy;
      secret = k.secret;
      revoked_at = k.revoked_at;
    }
    ∷ []

unfoldable pub keys_of : Catalog → List ApiKeyRow → List StrategyApiKey
keys_of w [] = []
keys_of w (k ∷ ks) =
    let rest = keys_of w ks in with_strategy k (find_strategy k.strategy_id w) ++ rest

abbrev revoked : ℕ → ApiKeyRow → ApiKeyRow
revoked now k = record k { revoked_at = some now }

-- The key that the header names is the one with the id, and no other row.
abbrev pub Names : Text → ℕ → List ApiKeyRow → Type 0
Names api_key id rows = All (λ (k : ApiKeyRow). text_eq k.key_id api_key ≡ (k.id == id)) rows

find-other_key :
    (api_key : Text) (k : ApiKeyRow) (o : Option ManagedStrategy) (rest : List StrategyApiKey)
    → text_eq k.key_id api_key ≡ false
    → find (λ y. text_eq y.key_id api_key) (with_strategy k o ++ rest)
      ≡ find (λ y. text_eq y.key_id api_key) rest
find-other_key api_key k none rest h = refl
find-other_key api_key k (some x) rest h = rw h refl

find-keys_of-revoked :
    (w : Catalog) (api_key : Text) (id now : ℕ) (rows : List ApiKeyRow) {k : ApiKeyRow}
    {x : ManagedStrategy}
    → Names api_key id rows
    → find (λ y. y.id == id) rows ≡ some k
    → find_strategy k.strategy_id w ≡ some x
    → (key : StrategyApiKey) × (find
          (λ y. text_eq y.key_id api_key)
          (keys_of w (update_where (λ y. y.id == id) (revoked now) rows))
        ≡ some key)
      × (key.revoked_at ≡ some now)
unfolding keys_of
find-keys_of-revoked w api_key id now [] names found known = absurd (cc)
find-keys_of-revoked w api_key id now (y ∷ rows) {k} {x} names found known =
    elim (Bool-cases (y.id == id)) [
      | inl e ↦
          let same : y ≡ k = ground arith in
          let here : find_strategy y.strategy_id w ≡ some x = rw same known in
          let named : text_eq y.key_id api_key ≡ true = names.0 ∙ e in
          rw (e, here, named) (_, refl, refl)
      | inr e ↦
          let (key, here, done) =
            find-keys_of-revoked w api_key id now rows {k = k} {x = x} names.1 (rw e at found)
              known in
          rw e (
            key,
            find-other_key api_key y (find_strategy y.strategy_id w) _ (names.0 ∙ e) ∙ here,
            done,
          )
    ]

module _ (hmac : Text → Text → Text → Text) (code_of : Text → Option Text) (env : Environment)
    (strategies : List Strategy) (request : SignedRequest) where
  refused_revoked :
      (keys : List StrategyApiKey) (key : StrategyApiKey) (now : ℕ)
      → find (λ y. text_eq y.key_id request.api_key) keys ≡ some key
      → key.revoked_at ≡ some now
      → (code : ErrorCode) × (authenticate_master_request hmac code_of env keys strategies request
          ≡ err (app_error code))
  unfolding authenticate_master_request with_found_key with_key with_live_key
  refused_revoked keys key now found gone = elim (Bool-cases (is_stale env request.seconds)) [
    | inl e ↦ rw e (stale_request, refl)
    | inr e ↦ rw (e, found) (simp gone (unauthorized, refl))
  ]

-- Who may reach a strategy found it.
access-found :
    (o : Option ProviderProfile) (y x : ManagedStrategy) (w : Catalog)
    → (approved_or_throw o >>= own_or_throw y) w ≡ (ok x, w)
    → y ≡ x
unfolding approved_or_throw own_or_throw
access-found none y x w h = absurd (cc)
access-found (some p) y x w h = elim (Bool-cases (is_approved p.status)) [
  | inl e ↦ elim (Bool-cases (is_id y.provider_id p.id)) [
    | inl k ↦ let h' = rw (e, k) at h in cc
    | inr k ↦ absurd (let h' = rw (e, k) at h in cc)
  ]
  | inr e ↦ absurd (let h' = rw e at h in cc)
]

pub require_strategy_access-found :
    (id : ℕ) (actor : Actor) (w : Catalog) {x : ManagedStrategy}
    → require_strategy_access id actor w ≡ (ok x, w)
    → find_strategy id w ≡ some x
unfolding require_strategy_access access_found access_own require_approved_provider
require_strategy_access-found id actor w {x} h = from (find_strategy id w) refl h
  where
    from :
        (o : Option ManagedStrategy)
        → find_strategy id w ≡ o
        → access_found actor o w ≡ (ok x, w)
        → find_strategy id w ≡ some x
    from none e k = absurd (cc)
    from (some y) e k = elim (Bool-cases actor.is_admin) [
      | inl a ↦ let k' = simp a at k in cc
      | inr a ↦
          let k' = simp a at k in
          let same = access-found (find_provider_of actor.user_id w) y x w k' in
          e ∙ ap (λ (z : ManagedStrategy). some z) same
    ]

abbrev without : ℕ → Catalog → Catalog
without id w = record w {
  api_keys = update_where (λ (y : ApiKeyRow). y.id == id) (revoked w.now) w.api_keys;
}

revoke_path :
    (id : ℕ) (actor : Actor) (w : Catalog) {k : ApiKeyRow} {x : ManagedStrategy}
    → find_key id w ≡ some k
    → require_strategy_access k.strategy_id actor w ≡ (ok x, w)
    → revoke_strategy_api_key id actor w ≡ (ok tt, without id w)
unfolding revoke_strategy_api_key revoke_found
revoke_path id actor w {k} {x} found access =
    let same : k.id ≡ id =
      (==_iff _ _).0 (find_sound (λ (y : ApiKeyRow). y.id == id) w.api_keys found) in
    ap (λ o. revoke_found actor o w) found
    ∙ bind-answer (require_strategy_access k.strategy_id actor) (λ _. modify (without k.id)) w
        access
    ∙ ap (λ j. (ok tt, without j w)) same

-- An actor who may reach the strategy of a key revokes it, and from then on every request that names
-- the key, whatever it is signed with and whenever it comes, is refused.
pub revoke_strategy_api_key_final :
    (hmac : Text → Text → Text → Text) (code_of : Text → Option Text) (env : Environment)
    (strategies : List Strategy) (request : SignedRequest) (id : ℕ) (actor : Actor) (w : Catalog)
    {k : ApiKeyRow} {x : ManagedStrategy}
    → find_key id w ≡ some k
    → require_strategy_access k.strategy_id actor w ≡ (ok x, w)
    → Names request.api_key id w.api_keys
    → let after = revoke_strategy_api_key id actor w in
      (after.0 ≡ ok tt)
      × ((code : ErrorCode) × (authenticate_master_request hmac code_of env
              (keys_of after.1 after.1.api_keys)
              strategies
              request
            ≡ err (app_error code)))
revoke_strategy_api_key_final hmac code_of env strategies request id actor w {k} {x} found access
      names =
    let (key, here, gone) =
      find-keys_of-revoked (without id w) request.api_key id w.now w.api_keys {k = k} {x = x} names
        found (require_strategy_access-found k.strategy_id actor w access) in
    rw (revoke_path id actor w {k = k} {x = x} found access)
      (refl, refused_revoked hmac code_of env strategies request _ key w.now here gone)
