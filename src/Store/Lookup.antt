-- ===== src/Store/Lookup.antt =====
-- Looking up a row of a table after an update and after an insert.
use copytrade_dashboard.Base.{
  ◌≡◌, refl, Bool, true, false, none, some, List, [], ◌∷◌, ◌++◌, arith, find, any, Bool-cases, inl,
  inr,
}
use copytrade_dashboard.Store.Tables.{update_where}

module _ {R : Type 0} (q : R → Bool) where
  -- The row that a query finds is found again, updated, if the update keeps what the query reads
  -- and reaches that row.
  pub find-update_where :
      (at : R → Bool) (f : R → R) (rows : List R) {r : R}
      → ((x : R) → q (f x) ≡ q x)
      → find q rows ≡ some r
      → at r ≡ true
      → find q (update_where at f rows) ≡ some (f r)
  find-update_where at f [] keep h k = cc
  find-update_where at f (x ∷ rows) {r} keep h k =
      ground (arith, keep x, find-update_where at f rows {r = r} keep)

  -- If some row fits, one is found.
  pub find-some-any :
      (rows : List R) → any q rows ≡ true → (r : R) × (find q rows ≡ some r) × (q r ≡ true)
  find-some-any [] h = cc
  find-some-any (x ∷ rows) h = elim (Bool-cases (q x)) [
    | inl e ↦ (x, rw e refl, e)
    | inr e ↦ let (r, found, fits) = find-some-any rows (rw e at h) in (r, rw e found, fits)
  ]

  pub find-none-any : (rows : List R) → find q rows ≡ none → any q rows ≡ false
  find-none-any [] h = refl
  find-none-any (x ∷ rows) h = ground (arith, find-none-any rows)

  -- A new row that fits is found behind rows that do not.
  pub find-append :
      (rows : List R) (r : R) → any q rows ≡ false → q r ≡ true → find q (rows ++ r ∷ []) ≡ some r
  find-append [] r h k = rw k refl
  find-append (x ∷ rows) r h k = ground (arith, find-append rows r)

-- Updates that undo each other leave the table as it was.
pub update_where_undo :
    {R : Type 0} (at : R → Bool) (f g : R → R) (rows : List R)
    → ((x : R) → at (f x) ≡ at x)
    → ((x : R) → g (f x) ≡ x)
    → update_where at g (update_where at f rows) ≡ rows
update_where_undo at f g [] keep undo = refl
update_where_undo at f g (x ∷ rows) keep undo =
    ground (arith, keep x, undo x, update_where_undo at f g rows keep undo)
