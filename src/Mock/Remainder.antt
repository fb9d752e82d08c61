-- ===== src/Mock/Remainder.antt =====
-- A partial close on any account that calls of the provider can lead to.
use copytrade_dashboard.Base.{ℕ, ◌-◌, ◌<◌, ◌≡◌, true, some, List, [], find}
use copytrade_dashboard.Number.Defs.{Number, hundredths}
use copytrade_dashboard.Text.{Text}
use copytrade_dashboard.Mock.State.{
  MockPosition, MockClose, MockAccount, MockBroker, is_close_of, has_account_id,
}
use copytrade_dashboard.Mock.Orders.{find_open, close_position}
use copytrade_dashboard.Mock.Calls.{find_mock}
use copytrade_dashboard.Mock.History.{Call, after_all}
use copytrade_dashboard.Mock.Partial.{closing_part, close_position-Left}
use copytrade_dashboard.Mock.Lookup.{IsFresh, Left}
use copytrade_dashboard.Mock.Fresh.{All-find, after_all-AllFresh}

-- The simulation before the first connection.
abbrev pub nobody : ℕ → MockBroker
nobody now = record { accounts = []; now = now }

-- On an account that any calls have led to from the empty simulation, closing `c` hundredths of a
-- lot of an open position of `v` hundredths, with `c < v`: the answer is a fill of `c`, and the
-- close is on record with the volume `c`. On MT4 the ticket is no longer open, the next ticket is
-- named as the remainder and holds the same position with the volume `v - c`; on MT5 the ticket
-- stays open with the volume `v - c`. The search for any other ticket finds what it found before.
pub close_position_reached :
    (number_of : Text → ℕ) (sine : Number → Number) (calls : List Call) (start id now u v c : ℕ)
    (a : MockAccount) (p : MockPosition)
    → find_mock id (after_all number_of sine calls (nobody start)) ≡ some a
    → find_open u a ≡ some p
    → p.position.volume ≡ hundredths v
    → c < v
    → let out = close_position sine now (closing_part u c) a in
      (out.0.executed ≡ true)
      × (out.0.volume ≡ some (hundredths c))
      × ((k : MockClose) × (find (is_close_of u) out.1.closes ≡ some k) × (k.volume ≡ hundredths c))
      × Left a.platform u p (hundredths (v - c)) a out.0.remainder_ticket out.1
close_position_reached number_of sine calls start id now u v c a p reached found e h =
    close_position-Left sine now u v c p a fresh found e h
  where
    fresh : IsFresh a
    fresh =
        All-find IsFresh (has_account_id id)
          (after_all number_of sine calls (nobody start)).accounts
          (after_all-AllFresh number_of sine calls (nobody start) tt) reached
