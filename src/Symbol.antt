-- ===== src/Symbol.antt =====
-- The member's name of a symbol: src/services/symbol-mapping.service.ts.
pub mod Precedence
mod Tests
use copytrade_dashboard.Base.{
  ℕ, Bool, true, false, ◌&&◌, ◌||◌, Option, none, some, List, filter, find, ◌==◌,
}
use copytrade_dashboard.Text.{Text, text_eq, to_upper}
use copytrade_dashboard.Store.Rows.{SymbolMapping}

-- `column === id`
abbrev pub is_id : Option ℕ → ℕ → Bool
is_id none id = false
is_id (some i) id = i == id

-- `!column`
abbrev pub is_null : Option ℕ → Bool
is_null none = true
is_null (some _) = false

-- The `where` of the query: the symbol, enabled, and one of the three scopes.
unfoldable pub is_candidate : Text → ℕ → ℕ → SymbolMapping → Bool
is_candidate master_symbol strategy_id account_id m =
    text_eq m.master_symbol master_symbol
    && m.enabled
    && (is_id m.account_id account_id
        || (is_id m.strategy_id strategy_id && is_null m.account_id)
        || (is_null m.strategy_id && is_null m.account_id))

abbrev pub account_scoped : ℕ → SymbolMapping → Bool
account_scoped account_id m = is_id m.account_id account_id

abbrev pub strategy_scoped : ℕ → SymbolMapping → Bool
strategy_scoped strategy_id m = is_id m.strategy_id strategy_id && is_null m.account_id

abbrev pub is_global : SymbolMapping → Bool
is_global m = is_null m.strategy_id && is_null m.account_id

-- The first mapping found of the three, else the symbol itself.
abbrev pub first_of_scopes :
    Text → Option SymbolMapping → Option SymbolMapping → Option SymbolMapping → Text
first_of_scopes master_symbol (some m) _ _ = to_upper m.member_symbol
first_of_scopes master_symbol none (some m) _ = to_upper m.member_symbol
first_of_scopes master_symbol none none (some m) = to_upper m.member_symbol
first_of_scopes master_symbol none none none = master_symbol

unfoldable pub resolve_member_symbol : Text → ℕ → ℕ → List SymbolMapping → Text
resolve_member_symbol symbol strategy_id account_id table =
    let master_symbol = to_upper symbol in
    let mappings = filter (is_candidate master_symbol strategy_id account_id) table in
    first_of_scopes master_symbol (find (account_scoped account_id) mappings)
      (find (strategy_scoped strategy_id) mappings) (find is_global mappings)
