-- ===== src/Mock/Accounted.antt =====
-- The interface of the provider, from a filled order to the queries long after it.
use copytrade_dashboard.Base.{
  ℕ, ◌≡◌, ◌∙◌, ◌⊎◌, refl, ap, true, false, not, Option, some, none, List, [], ◌∷◌, arith, any, find,
  filter, map, ◌==◌, ==_iff, Bool-cases, find_sound, inl, inr,
}
use copytrade_dashboard.Number.Defs.{Number}
use copytrade_dashboard.Text.{Text}
use copytrade_dashboard.Types.{
  ProviderPosition, OrderResult, ClosedPositionResult, OpenPositionRequest,
}
use copytrade_dashboard.Store.Rows.{TradingAccount}
use copytrade_dashboard.Store.Monad.{ok, err}
use copytrade_dashboard.Store.Tables.{TradeProvider}
use copytrade_dashboard.Store.Lookup.{find-some-any}
use copytrade_dashboard.Mock.State.{
  ConnectAccountInput, MockPosition, MockClose, MockAccount, MockBroker, has_account_id,
  is_close_of,
}
use copytrade_dashboard.Mock.Maps.{find-map_set}
use copytrade_dashboard.Mock.Orders.{open_position}
use copytrade_dashboard.Mock.Calls.{
  order, perform, require, find_mock, closed_result, close_of, marked, mock_provider, get_positions,
  get_closed_position, positions_of,
}
use copytrade_dashboard.Mock.Trace.{is_open, open_position-Keeps}
use copytrade_dashboard.Mock.Fills.{open_position-traced}
use copytrade_dashboard.Mock.History.{Call, after_all, HasTrace, after_all-HasTrace}

-- The provider lists the ticket as open, or answers with its close.
abbrev pub Accounted : TradeProvider MockBroker → ℕ → ℕ → MockBroker → Type 0
Accounted p id t b =
    ((ps : List ProviderPosition) × (p.get_positions id b ≡ ok ps)
      × (any (λ q. q.ticket == t) ps ≡ true))
    ⊎ ((c : ClosedPositionResult) × (p.get_closed_position id t b ≡ ok (some c)) × (c.ticket ≡ t))

any-marked :
    (sine : Number → Number) (now t : ℕ) (ps : List MockPosition)
    → any (λ q. q.ticket == t) (map (marked sine now) (filter (λ p. not p.closed) ps))
      ≡ any (is_open t) ps
any-marked sine now t [] = refl
any-marked sine now t (p ∷ ps) = ground (arith, any-marked sine now t ps)

any_found :
    (t : ℕ) (cs : List MockClose)
    → any (is_close_of t) cs ≡ true
    → (c : MockClose) × (find (is_close_of t) cs ≡ some c) × (c.ticket ≡ t)
any_found t cs h =
    let (c, found, fits) = find-some-any (is_close_of t) cs h in (c, found, (==_iff _ _).0 fits)

module _ (id t : ℕ) (sine : Number → Number) (r : OpenPositionRequest) (b : MockBroker) where
  open_order-HasTrace :
      (o : Option MockAccount) (result : OrderResult)
      → find_mock id b ≡ o
      → (perform (open_position sine b.now r) b (require o)).0 ≡ ok result
      → result.ticket ≡ some t
      → HasTrace id t (perform (open_position sine b.now r) b (require o)).1
  unfolding require
  open_order-HasTrace none result e h k = absurd (let h' : err _ ≡ ok result = h in cc)
  open_order-HasTrace (some a) result e h k = (
    (open_position sine b.now r a).1,
    rw (← same)
        (find-map_set (λ x. x.provider_account_id) (open_position sine b.now r a).1 b.accounts),
    open_position-traced sine b.now t r a (cc),
  )
    where
      same : (open_position sine b.now r a).1.provider_account_id ≡ id
      same =
          (open_position-Keeps sine b.now t r a).same_id
          ∙ (==_iff _ _).0 (find_sound (has_account_id id) b.accounts e)

module _ (number_of : Text → ℕ) (sine : Number → Number)
    (input_of : TradingAccount → ConnectAccountInput) (id t : ℕ) where
  HasTrace-Accounted :
      (b : MockBroker) → HasTrace id t b → Accounted (mock_provider number_of sine input_of) id t b
  unfolding mock_provider get_positions get_closed_position positions_of require
  HasTrace-Accounted b (a, found, h) = from (Bool-cases (any (is_open t) a.positions))
    where
      from :
          ((any (is_open t) a.positions ≡ true) ⊎ (any (is_open t) a.positions ≡ false))
          → Accounted (mock_provider number_of sine input_of) id t b
      from (inl e) =
          inl (positions_of sine b.now a, rw found refl, any-marked sine b.now t a.positions ∙ e)
      from (inr e) =
          let (c, known, same) = any_found t a.closes (ground arith) in
          inr (closed_result c, rw found (rw (known, close_of) refl), same)

  -- A ticket that an order was filled with is never lost: after any further calls, on this
  -- account and on others, `getPositions` lists it or `getClosedPosition` answers with its close.
  pub open_position-Accounted :
      (r : OpenPositionRequest) (b b' : MockBroker) (result : OrderResult) (calls : List Call)
      → (mock_provider number_of sine input_of).open_position id r b ≡ (ok result, b')
      → result.ticket ≡ some t
      → Accounted (mock_provider number_of sine input_of) id t (after_all number_of sine calls b')
  unfolding mock_provider
  open_position-Accounted r b b' result calls h k =
      HasTrace-Accounted _ (after_all-HasTrace id t number_of sine calls b' start)
    where
      start : HasTrace id t b'
      start =
          let e : (order id (open_position sine b.now r) b).1 ≡ b' = ap (λ x. x.1) h in
          rw (← e)
            (open_order-HasTrace id t sine r b (find_mock id b) result refl (ap (λ x. x.0) h) k)
