-- ===== src/Account/Attempt.antt =====
-- What a connection that is tried leaves of the table.
use copytrade_dashboard.Base.{◌≡◌, ◌∙◌, ◌⊎◌, refl, ap, List, inl, inr}
use copytrade_dashboard.Types.{ConnectionResult, AccountInfo, ProviderPosition}
use copytrade_dashboard.Store.Monad.{
  Failure, Result, ok, err, Action, ◌>>=◌, bind-ok, bind-err, Result-cases,
}
use copytrade_dashboard.Store.Tables.{TradeProvider}
use copytrade_dashboard.Account.State.{
  Deployment, ManagedAccount, Book, update_row, write_account, at_broker, ask_broker,
}
use copytrade_dashboard.Account.Connection.{connected_row, attempt}

module _ {B : Type 0} (p : TradeProvider B) (d : Deployment B) (a : ManagedAccount)
    (s : Book B) where
  -- Either the provider has failed and the table is as it was, or the row of the account is stored
  -- as connected.
  abbrev pub Outcome : Result (Unit {0}) × Book B → Type 0
  Outcome (r, t) =
      ((e : Failure) × (r ≡ err e) × (t.accounts ≡ s.accounts))
      ⊎ ((r ≡ ok tt)
          × ((result : ConnectionResult) × (info : AccountInfo) × (positions : List
                ProviderPosition)
              × (t.accounts
                  ≡ update_row a.row.id (connected_row result info positions s.now) s.accounts)))

  module _ (result : ConnectionResult) where
    abbrev store : AccountInfo → List ProviderPosition → Action (Book B) (Unit {0})
    store info positions t = write_account a.row.id (connected_row result info positions t.now) t

    abbrev ask_positions : AccountInfo → Action (Book B) (Unit {0})
    ask_positions info = ask_broker (p.get_positions result.provider_account_id) >>= store info

    abbrev ask_all : Action (Book B) (Unit {0})
    ask_all = ask_broker (p.get_account_info result.provider_account_id) >>= ask_positions

    ask_positions_lem :
        (info : AccountInfo) (t : Book B)
        → t.accounts ≡ s.accounts
        → t.now ≡ s.now
        → Outcome (ask_positions info t)
    ask_positions_lem info t same clock =
        elim (Result-cases (p.get_positions result.provider_account_id t.broker)) [
          | inl (positions, e) ↦
              let path =
                bind-ok (ask_broker (p.get_positions result.provider_account_id)) (store info) t
                  e in
              inr (
                ap (λ x. x.0) path,
                (
                  result,
                  info,
                  positions,
                  ap (λ x. x.1.accounts) path
                      ∙ ap
                          (λ n.
                            update_row a.row.id (connected_row result info positions n) t.accounts)
                          clock
                      ∙ ap (update_row a.row.id (connected_row result info positions s.now)) same,
                ),
              )
          | inr (e, h) ↦
              let path =
                bind-err (ask_broker (p.get_positions result.provider_account_id)) (store info) t
                  h in
              inl (e, ap (λ x. x.0) path, ap (λ x. x.1.accounts) path ∙ same)
        ]

    ask_all_lem : (t : Book B) → t.accounts ≡ s.accounts → t.now ≡ s.now → Outcome (ask_all t)
    ask_all_lem t same clock =
        elim (Result-cases (p.get_account_info result.provider_account_id t.broker)) [
          | inl (info, e) ↦
              rw
                (bind-ok (ask_broker (p.get_account_info result.provider_account_id)) ask_positions
                  t e)
                (ask_positions_lem info t same clock)
          | inr (e, h) ↦
              rw
                (bind-err (ask_broker (p.get_account_info result.provider_account_id)) ask_positions
                  t h)
                (inl (e, refl, same))
        ]

  pub attempt_lem : Outcome (attempt p d a s)
  unfolding attempt
  attempt_lem = elim (Result-cases (p.connect_account a.row s.broker).0) [
    | inl (result, e) ↦
        rw (bind-ok (at_broker (p.connect_account a.row)) ask_all s e) (
          ask_all_lem result (record s { broker = (p.connect_account a.row s.broker).1 }) refl refl)
    | inr (e, h) ↦
        rw (bind-err (at_broker (p.connect_account a.row)) ask_all s h) (inl (e, refl, refl))
  ]
