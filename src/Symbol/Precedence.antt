-- ===== src/Symbol/Precedence.antt =====
-- The precedence of the scopes of a mapping: account, strategy, global.
use copytrade_dashboard.Base.{
  ℕ, ◌≡◌, ◌≢◌, ◌⊎◌, inl, inr, Bool, false, ◌&&◌, Option, none, some, List, [], ◌∷◌, ◌++◌, filter,
  arith,
}
use copytrade_dashboard.Text.{Text, text_eq, text_eq_iff, to_upper, to_upper_idem}
use copytrade_dashboard.Store.Rows.{SymbolMapping}
use copytrade_dashboard.Symbol.{is_candidate, first_of_scopes, resolve_member_symbol}

-- The row names this symbol and is enabled, and stands in the scope.
abbrev pub enabled_for : Text → (SymbolMapping → Bool) → SymbolMapping → Bool
enabled_for master_symbol scope m = text_eq m.master_symbol master_symbol && m.enabled && scope m

first_of_scopes-upper :
    (name : Text) (a b c : Option SymbolMapping)
    → to_upper name ≡ name
    → to_upper (first_of_scopes name a b c) ≡ first_of_scopes name a b c
first_of_scopes-upper name (some m) b c h = to_upper_idem m.member_symbol
first_of_scopes-upper name none (some m) c h = to_upper_idem m.member_symbol
first_of_scopes-upper name none none (some m) h = to_upper_idem m.member_symbol
first_of_scopes-upper name none none none h = h

pub resolve_member_symbol-upper :
    (symbol : Text) (s a : ℕ) (table : List SymbolMapping)
    → to_upper (resolve_member_symbol symbol s a table) ≡ resolve_member_symbol symbol s a table
unfolding resolve_member_symbol
resolve_member_symbol-upper symbol s a table =
    first_of_scopes-upper (to_upper symbol) _ _ _ (to_upper_idem symbol)

filter_drop :
    (q : SymbolMapping → Bool) (xs ys : List SymbolMapping) (m : SymbolMapping)
    → q m ≡ false
    → filter q (xs ++ m ∷ ys) ≡ filter q (xs ++ ys)
filter_drop q [] ys m h = rw h
filter_drop q (x ∷ xs) ys m h = rw (filter_drop q xs ys m h)

-- The row has no bearing on this symbol and account.
abbrev pub IsIrrelevant : Text → ℕ → SymbolMapping → Type 0
IsIrrelevant name a m =
    (m.enabled ≡ false) ⊎ ((m.master_symbol ≢ name) ⊎ ((b : ℕ) × (m.account_id ≡ some b) × (b ≢ a)))

irrelevant_filtered :
    (name : Text) (s a : ℕ) (m : SymbolMapping)
    → IsIrrelevant name a m
    → is_candidate name s a m ≡ false
unfolding is_candidate
irrelevant_filtered name s a m (inl off) = ground arith
irrelevant_filtered name s a m (inr (inl ne)) = ground (arith, text_eq_iff m.master_symbol name)
irrelevant_filtered name s a m (inr (inr (b, e, ne))) = rw e (ground arith)

-- A row that is disabled, names another symbol, or is bound to another account has no influence,
-- wherever it stands in the table.
pub resolve_member_symbol-irrelevant :
    (symbol : Text) (s a : ℕ) (xs ys : List SymbolMapping) (m : SymbolMapping)
    → IsIrrelevant (to_upper symbol) a m
    → resolve_member_symbol symbol s a (xs ++ m ∷ ys) ≡ resolve_member_symbol symbol s a (xs ++ ys)
unfolding resolve_member_symbol
resolve_member_symbol-irrelevant symbol s a xs ys m h =
    rw (filter_drop _ xs ys m (irrelevant_filtered (to_upper symbol) s a m h))
