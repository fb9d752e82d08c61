-- ===== src/Symbol/Tests.antt =====
-- Gold, called `XAUUSD` by the master.
use copytrade_dashboard.Base.{◌≡◌, refl, true, none, some, List, [], ◌∷◌}
use copytrade_dashboard.Text.{Text, text_eq, to_upper}
use copytrade_dashboard.Store.Rows.{SymbolMapping}
use copytrade_dashboard.Symbol.{is_candidate, resolve_member_symbol}

abbrev gold : Text
gold = b'X' ∷ b'A' ∷ b'U' ∷ []

-- The operator's default, `gold`, and the suffix of the broker of account 7.
abbrev default_row : SymbolMapping
default_row = record {
  master_symbol = gold;
  member_symbol = b'g' ∷ b'o' ∷ b'l' ∷ b'd' ∷ [];
  enabled = true;
  account_id = none;
  strategy_id = none;
}

abbrev broker_row : SymbolMapping
broker_row = record default_row {
  member_symbol = b'x' ∷ b'a' ∷ b'u' ∷ b'.' ∷ b'm' ∷ [];
  account_id = some 7;
}

abbrev table : List SymbolMapping
table = default_row ∷ broker_row ∷ []

account_wins : resolve_member_symbol gold 1 7 table ≡ b'X' ∷ b'A' ∷ b'U' ∷ b'.' ∷ b'M' ∷ []
unfolding resolve_member_symbol is_candidate text_eq to_upper
account_wins = refl

default_wins : resolve_member_symbol gold 1 8 table ≡ b'G' ∷ b'O' ∷ b'L' ∷ b'D' ∷ []
unfolding resolve_member_symbol is_candidate text_eq to_upper
default_wins = refl
