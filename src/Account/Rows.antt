-- ===== src/Account/Rows.antt =====
-- A row that is written by its primary key, and what a look-up finds afterwards.
use copytrade_dashboard.Base.{
  ℕ, ◌≡◌, refl, Bool, false, none, some, List, [], ◌∷◌, ◌++◌, find, All, arith, ◌==◌, ==_iff,
  Bool-cases, Option-cases, find_sound, ◌⊎◌, inl, inr,
}
use copytrade_dashboard.Account.State.{
  ManagedAccount, Book, has_id, update_row, find_row, find_owned,
}

module _ (id : ℕ) (f : ManagedAccount → ManagedAccount) where
  pub find-update_row :
      (rows : List ManagedAccount) {a : ManagedAccount}
      → ((x : ManagedAccount) → (f x).row.id ≡ x.row.id)
      → find (has_id id) rows ≡ some a
      → find (has_id id) (update_row id f rows) ≡ some (f a)
  find-update_row [] keep h = cc
  find-update_row (x ∷ rows) {a} keep h = ground (arith, keep x, find-update_row rows {a = a} keep)

  pub find-update_row_ne :
      (j : ℕ) (rows : List ManagedAccount)
      → ((x : ManagedAccount) → (f x).row.id ≡ x.row.id)
      → (id == j) ≡ false
      → find (has_id j) (update_row id f rows) ≡ find (has_id j) rows
  find-update_row_ne j [] keep h = refl
  find-update_row_ne j (x ∷ rows) keep h = ground (arith, keep x, find-update_row_ne j rows keep h)

  -- Only the row that is found is written.
  pub All-update_row :
      (P : ManagedAccount → Type 0) (rows : List ManagedAccount)
      → ((a : ManagedAccount) → find (has_id id) rows ≡ some a → P a → P (f a))
      → All P rows
      → All P (update_row id f rows)
  All-update_row P [] keep h = tt
  All-update_row P (x ∷ rows) keep h = elim (Bool-cases (has_id id x)) [
    | inl e ↦ rw e (keep x (rw e refl) h.0, h.1)
    | inr e ↦ rw e (h.0, All-update_row P rows (λ a k. keep a (rw e k)) h.1)
  ]

pub All-append :
    (P : ManagedAccount → Type 0) (rows : List ManagedAccount) (a : ManagedAccount)
    → All P rows
    → P a
    → All P (rows ++ a ∷ [])
All-append P [] a h k = (k, tt)
All-append P (x ∷ rows) a h k = (h.0, All-append P rows a h.1 k)

pub find-append_old :
    (q : ManagedAccount → Bool) (rows : List ManagedAccount) (x : ManagedAccount)
    {a : ManagedAccount}
    → find q rows ≡ some a
    → find q (rows ++ x ∷ []) ≡ some a
find-append_old q [] x h = cc
find-append_old q (y ∷ rows) x {a} h = ground (arith, find-append_old q rows x {a = a})

-- A row that is found as the user's own is the row of that id.
pub owned-found :
    {B : Type 0} (id user_id : ℕ) (s : Book B) (a : ManagedAccount)
    → find_owned id user_id s ≡ some a
    → (find_row id s ≡ some a) × (a.row.id ≡ id)
owned-found id user_id s a h = from (Option-cases (find_row id s)) h
  where
    from :
        ((find_row id s ≡ none) ⊎ ((x : ManagedAccount) × (find_row id s ≡ some x)))
        → find_owned id user_id s ≡ some a
        → (find_row id s ≡ some a) × (a.row.id ≡ id)
    from (inl e) k = absurd (let k' = rw (e, find_owned) at k in cc)
    from (inr (x, e)) k = elim (Bool-cases (x.row.user_id == user_id)) [
      | inl u ↦
          let same : x ≡ a = ground arith in
          rw (← same) (e, (==_iff _ _).0 (find_sound (has_id id) s.accounts e))
      | inr u ↦ absurd (ground arith)
    ]
