-- ===== src/Mock/Maps.antt =====
-- Writing an entry of a map, and what a search finds afterwards.
use copytrade_dashboard.Base.{
  ℕ, ◌≡◌, refl, Bool, true, false, some, List, [], ◌∷◌, ◌++◌, arith, any, find, ◌==◌, Bool-cases,
  inl, inr,
}
use copytrade_dashboard.Store.Tables.{update_where}
use copytrade_dashboard.Mock.State.{map_set}

module _ {V : Type 0} where
  -- A change of entries that keeps the test of each of them.
  pub any-update_where :
      (q at : V → Bool) (f : V → V) (vs : List V)
      → ((x : V) → at x ≡ true → q (f x) ≡ q x)
      → any q (update_where at f vs) ≡ any q vs
  any-update_where q at f [] keep = refl
  any-update_where q at f (x ∷ vs) keep = ground (arith, keep x, any-update_where q at f vs keep)

  any-append : (q : V → Bool) (vs : List V) (v : V) → q v ≡ true → any q (vs ++ v ∷ []) ≡ true
  any-append q [] v h = ground arith
  any-append q (x ∷ vs) v h = ground (arith, any-append q vs v)

  any-append_old :
      (q : V → Bool) (vs : List V) (v : V) → any q vs ≡ true → any q (vs ++ v ∷ []) ≡ true
  any-append_old q [] v h = cc
  any-append_old q (x ∷ vs) v h = ground (arith, any-append_old q vs v)

  any-update_where_written :
      (q at : V → Bool) (v : V) (vs : List V)
      → q v ≡ true
      → any at vs ≡ true
      → any q (update_where at (λ _. v) vs) ≡ true
  any-update_where_written q at v [] h k = cc
  any-update_where_written q at v (x ∷ vs) h k = ground (arith, any-update_where_written q at v vs)

  any-update_where_other :
      (q at : V → Bool) (v : V) (vs : List V)
      → ((x : V) → q x ≡ true → at x ≡ false)
      → any q vs ≡ true
      → any q (update_where at (λ _. v) vs) ≡ true
  any-update_where_other q at v [] other h = cc
  any-update_where_other q at v (x ∷ vs) other h =
      ground (arith, other x, any-update_where_other q at v vs other)

  -- The entry that is written is there.
  pub any-map_set :
      (q same : V → Bool) (v : V) (vs : List V) → q v ≡ true → any q (map_set same v vs) ≡ true
  any-map_set q same v vs h = elim (Bool-cases (any same vs)) [
    | inl known ↦ rw known (any-update_where_written q same v vs h known)
    | inr new ↦ rw new (any-append q vs v h)
  ]

  -- An entry that is not the one replaced stays.
  pub any-map_set_other :
      (q same : V → Bool) (v : V) (vs : List V)
      → ((x : V) → q x ≡ true → same x ≡ false)
      → any q vs ≡ true
      → any q (map_set same v vs) ≡ true
  any-map_set_other q same v vs other h = elim (Bool-cases (any same vs)) [
    | inl known ↦ rw known (any-update_where_other q same v vs other h)
    | inr new ↦ rw new (any-append_old q vs v h)
  ]

module _ {V : Type 0} (key : V → ℕ) (v : V) where
  find-update_where_same :
      (vs : List V)
      → any (λ x. key x == key v) vs ≡ true
      → find (λ x. key x == key v) (update_where (λ x. key x == key v) (λ _. v) vs) ≡ some v
  find-update_where_same [] h = cc
  find-update_where_same (x ∷ vs) h = ground (arith, find-update_where_same vs)

  find-update_where_ne :
      (j : ℕ) (vs : List V)
      → (key v == j) ≡ false
      → find (λ x. key x == j) (update_where (λ x. key x == key v) (λ _. v) vs)
        ≡ find (λ x. key x == j) vs
  find-update_where_ne j [] h = refl
  find-update_where_ne j (x ∷ vs) h = ground (arith, find-update_where_ne j vs h)

  find-append_same :
      (vs : List V)
      → any (λ x. key x == key v) vs ≡ false
      → find (λ x. key x == key v) (vs ++ v ∷ []) ≡ some v
  find-append_same [] h = ground arith
  find-append_same (x ∷ vs) h = ground (arith, find-append_same vs)

  find-append_ne :
      (j : ℕ) (vs : List V)
      → (key v == j) ≡ false
      → find (λ x. key x == j) (vs ++ v ∷ []) ≡ find (λ x. key x == j) vs
  find-append_ne j [] h = ground arith
  find-append_ne j (x ∷ vs) h = ground (arith, find-append_ne j vs)

  pub find-map_set :
      (vs : List V) → find (λ x. key x == key v) (map_set (λ x. key x == key v) v vs) ≡ some v
  find-map_set vs = elim (Bool-cases (any (λ x. key x == key v) vs)) [
    | inl known ↦ rw known (find-update_where_same vs known)
    | inr new ↦ rw new (find-append_same vs new)
  ]

  pub find-map_set_ne :
      (j : ℕ) (vs : List V)
      → (key v == j) ≡ false
      → find (λ x. key x == j) (map_set (λ x. key x == key v) v vs) ≡ find (λ x. key x == j) vs
  find-map_set_ne j vs h = elim (Bool-cases (any (λ x. key x == key v) vs)) [
    | inl known ↦ rw known (find-update_where_ne j vs h)
    | inr new ↦ rw new (find-append_ne j vs h)
  ]
