-- ===== src/Strategy/Settling.antt =====
-- What pausing the copies of a strategy leaves of the subscriptions and of the accounts.
use copytrade_dashboard.Base.{
  ℕ, ◌≡◌, refl, sym, ap, ◌∙◌, Bool, true, false, ◌&&◌, ◌||◌, not, List, [], ◌∷◌, any, filter, map,
  arith, ◌==◌, ==_iff, Bool-cases, inl, inr, if◌then◌else◌,
}
use copytrade_dashboard.Base.Sorting.{distinct}
use copytrade_dashboard.Types.{CopyStatus}
use copytrade_dashboard.Store.Rows.{TradingAccount, Subscription}
use copytrade_dashboard.Store.Monad.{ok, bind-answer}
use copytrade_dashboard.Store.Tables.{World, update_where}
use copytrade_dashboard.Engine.Process.{select_eligible, is_eligible}
use copytrade_dashboard.Strategy.State.{Catalog}
use copytrade_dashboard.Strategy.Status.{
  copies, copies_to, paused_at_time, affected, settle_account, settle_accounts,
}

module _ (id now : ℕ) where
  abbrev paused_copies : List Subscription → List Subscription
  paused_copies ss = update_where (copies id) (paused_at_time now) ss

  not_eligible :
      (s : Subscription) → is_eligible id (if copies id s then paused_at_time now s else s) ≡ false
  not_eligible s = ground arith

  -- No subscription of the strategy is selected any more.
  pub select_eligible-paused :
      {B : Type 0} (v : World B) (ss : List Subscription)
      → select_eligible id v (paused_copies ss) ≡ []
  unfolding select_eligible
  select_eligible-paused v [] = refl
  select_eligible-paused v (s ∷ ss) = rw (not_eligible s) (select_eligible-paused v ss)

  other_eligible :
      (j : ℕ) (s : Subscription)
      → (id == j) ≡ false
      → is_eligible j (if copies id s then paused_at_time now s else s) ≡ is_eligible j s
  other_eligible j s ne = ground (arith, ne)

  -- The selection of any other strategy stays what it was.
  pub select_eligible-other :
      {B : Type 0} (j : ℕ) (v : World B) (ss : List Subscription)
      → (id == j) ≡ false
      → select_eligible j v (paused_copies ss) ≡ select_eligible j v ss
  unfolding select_eligible
  select_eligible-other j v [] ne = refl
  select_eligible-other j v (s ∷ ss) ne =
      let rest = select_eligible-other j v ss ne in
      elim (Bool-cases (copies id s)) [
        | inl e ↦
            let off : is_eligible j s ≡ false = ground (arith, ne) in
            rw (other_eligible j s ne, off) rest
        | inr e ↦ rw (e, rest) refl
      ]

  -- Something copied to an account before exactly if something still does or it was affected.
  pub any-paused :
      (account_id : ℕ) (ss : List Subscription)
      → any (copies_to account_id) ss ≡ (
          any (copies_to account_id) (paused_copies ss)
          || any (λ k. k == account_id) (affected id ss))
  any-paused account_id [] = refl
  any-paused account_id (s ∷ ss) = ground (arith, any-paused account_id ss)

any-filter_ne :
    (x k : ℕ) (xs : List ℕ)
    → (x == k) ≡ false
    → any (λ y. y == k) (filter (λ y. not (y == x)) xs) ≡ any (λ y. y == k) xs
any-filter_ne x k [] ne = refl
any-filter_ne x k (y ∷ xs) ne = ground (arith, any-filter_ne x k xs)

pub any-distinct : (k : ℕ) (xs : List ℕ) → any (λ y. y == k) (distinct xs) ≡ any (λ y. y == k) xs
unfolding distinct
any-distinct k [] = refl
any-distinct k (x ∷ xs) = elim (Bool-cases (x == k)) [
  | inl e ↦ rw e refl
  | inr e ↦ rw e (any-filter_ne x k (distinct xs) e ∙ any-distinct k xs)
]

abbrev pub idle : TradingAccount → TradingAccount
idle a = record a { copy_status = CopyStatus.idle }

-- The account after the affected ones were settled.
abbrev pub settled : List Subscription → List ℕ → TradingAccount → TradingAccount
settled ss ids a = if any (λ k. k == a.id) ids && not (any (copies_to a.id) ss) then idle a else a

settled-copied :
    (k : ℕ) (ss : List Subscription) (a : TradingAccount)
    → any (copies_to k) ss ≡ true
    → settled ss (k ∷ []) a ≡ a
settled-copied k ss a h = elim (Bool-cases (k == a.id)) [
  | inl e ↦ let same : k ≡ a.id = (==_iff _ _).0 e in rw (e, rw same at h) refl
  | inr e ↦ rw e refl
]

settled-uncopied :
    (k : ℕ) (ss : List Subscription) (a : TradingAccount)
    → any (copies_to k) ss ≡ false
    → settled ss (k ∷ []) a ≡ (if a.id == k then idle a else a)
settled-uncopied k ss a h = elim (Bool-cases (k == a.id)) [
  | inl e ↦
      let same : k ≡ a.id = (==_iff _ _).0 e in
      rw (e, rw same at h, (==_iff a.id k).1 (sym same)) refl
  | inr e ↦ ground (arith, e)
]

map-settled_copied :
    (k : ℕ) (ss : List Subscription) (rows : List TradingAccount)
    → any (copies_to k) ss ≡ true
    → map (settled ss (k ∷ [])) rows ≡ rows
map-settled_copied k ss [] h = refl
map-settled_copied k ss (a ∷ rows) h = cc (settled-copied k ss a h, map-settled_copied k ss rows h)

map-settled_uncopied :
    (k : ℕ) (ss : List Subscription) (rows : List TradingAccount)
    → any (copies_to k) ss ≡ false
    → map (settled ss (k ∷ [])) rows ≡ update_where (λ a. a.id == k) idle rows
map-settled_uncopied k ss [] h = refl
map-settled_uncopied k ss (a ∷ rows) h =
    cc (settled-uncopied k ss a h, map-settled_uncopied k ss rows h)

settle_account_lem :
    (k : ℕ) (w : Catalog)
    → settle_account k w
      ≡ (ok tt, record w { accounts = map (settled w.subscriptions (k ∷ [])) w.accounts })
unfolding settle_account
settle_account_lem k w = elim (Bool-cases (any (copies_to k) w.subscriptions)) [
  | inl e ↦ rw e (
      ap (λ (rows : List TradingAccount). (ok tt, record w { accounts = rows }))
        (sym (map-settled_copied k w.subscriptions w.accounts e)))
  | inr e ↦ rw e (
      ap (λ (rows : List TradingAccount). (ok tt, record w { accounts = rows }))
        (sym (map-settled_uncopied k w.subscriptions w.accounts e)))
]

idle_twice :
    (m b : Bool) (a : TradingAccount) → (if m && not b then idle (idle a) else idle a) ≡ idle a
idle_twice true true a = refl
idle_twice true false a = refl
idle_twice false b a = refl

kept_if : (m b : Bool) (a : TradingAccount) → b ≡ true → (if m && not b then idle a else a) ≡ a
kept_if m b a h = ground (arith, h)

pub settled-kept :
    (ss : List Subscription) (ids : List ℕ) (a : TradingAccount)
    → any (copies_to a.id) ss ≡ true
    → settled ss ids a ≡ a
settled-kept ss ids a h = kept_if (any (λ k. k == a.id) ids) (any (copies_to a.id) ss) a h

settled-settled :
    (ss : List Subscription) (k : ℕ) (ids : List ℕ) (a : TradingAccount)
    → settled ss ids (settled ss (k ∷ []) a) ≡ settled ss (k ∷ ids) a
settled-settled ss k ids a = elim (Bool-cases (k == a.id)) [
  | inl e ↦ elim (Bool-cases (any (copies_to a.id) ss)) [
    | inl c ↦
        ap (settled ss ids) (settled-kept ss (k ∷ []) a c)
        ∙ settled-kept ss ids a c
        ∙ sym (settled-kept ss (k ∷ ids) a c)
    | inr n ↦ rw (e, n) (idle_twice (any (λ j. j == a.id) ids) (any (copies_to a.id) ss) a)
  ]
  | inr e ↦ rw e refl
]

map-settled-settled :
    (ss : List Subscription) (k : ℕ) (ids : List ℕ) (rows : List TradingAccount)
    → map (settled ss ids) (map (settled ss (k ∷ [])) rows) ≡ map (settled ss (k ∷ ids)) rows
map-settled-settled ss k ids [] = refl
map-settled-settled ss k ids (a ∷ rows) =
    cc (settled-settled ss k ids a, map-settled-settled ss k ids rows)

map-settled_none :
    (ss : List Subscription) (rows : List TradingAccount) → map (settled ss []) rows ≡ rows
map-settled_none ss [] = refl
map-settled_none ss (a ∷ rows) = cc (map-settled_none ss rows)

pub settle_accounts_lem :
    (ids : List ℕ) (w : Catalog)
    → settle_accounts ids w
      ≡ (ok tt, record w { accounts = map (settled w.subscriptions ids) w.accounts })
unfolding settle_accounts
settle_accounts_lem [] w =
    ap (λ (rows : List TradingAccount). (ok tt, record w { accounts = rows }))
      (sym (map-settled_none w.subscriptions w.accounts))
settle_accounts_lem (k ∷ ids) w =
    let first = map (settled w.subscriptions (k ∷ [])) w.accounts in
    bind-answer (settle_account k) (λ _. settle_accounts ids) w (settle_account_lem k w)
    ∙ settle_accounts_lem ids (record w { accounts = first })
    ∙ ap (λ (rows : List TradingAccount). (ok tt, record w { accounts = rows }))
        (map-settled-settled w.subscriptions k ids w.accounts)
