-- ===== src/Mock/History.antt =====
-- Any sequence of calls of the simulated broker, and the trace of a ticket through it.
use copytrade_dashboard.Base.{
  ℕ, ◌+◌, ◌≡◌, ◌∙◌, refl, true, Option, some, none, List, [], ◌∷◌, ◌==◌, ==_iff, Bool-cases, inl,
  inr, find_sound,
}
use copytrade_dashboard.Number.Defs.{Number}
use copytrade_dashboard.Text.{Text}
use copytrade_dashboard.Types.{OpenPositionRequest, ModifyPositionRequest, ClosePositionRequest}
use copytrade_dashboard.Mock.State.{
  ConnectAccountInput, MockAccount, MockBroker, has_account_id, codes, ends_with,
}
use copytrade_dashboard.Mock.Maps.{find-map_set, find-map_set_ne}
use copytrade_dashboard.Mock.Orders.{open_position, modify_position, close_position}
use copytrade_dashboard.Mock.Calls.{
  order, require, find_mock, put_account, perform, connect_account, connect_with, admit, mock_id,
  connected_account,
}
use copytrade_dashboard.Mock.Trace.{
  traced, Keeps, open_position-Keeps, modify_position-Keeps, close_position-Keeps,
}

-- The calls that change the broker, and the passing of time.
pub data Call : Type 0 where
  connect : ConnectAccountInput → Call
  open_order : ℕ → OpenPositionRequest → Call
  modify_order : ℕ → ModifyPositionRequest → Call
  close_order : ℕ → ClosePositionRequest → Call
  wait : ℕ → Call

module _ (number_of : Text → ℕ) (sine : Number → Number) where
  abbrev pub after : Call → MockBroker → MockBroker
  after (connect input) b = (connect_account number_of input b).1
  after (open_order id r) b = (order id (open_position sine b.now r) b).1
  after (modify_order id r) b = (order id (modify_position r) b).1
  after (close_order id r) b = (order id (close_position sine b.now r) b).1
  after (wait n) b = record b { now = b.now + n }

  unfoldable pub after_all : List Call → MockBroker → MockBroker
  after_all [] b = b
  after_all (c ∷ cs) b = after_all cs (after c b)

-- The account has this trace of the ticket.
abbrev pub HasTrace : ℕ → ℕ → MockBroker → Type 0
HasTrace id t b = (a : MockAccount) × (find_mock id b ≡ some a) × (traced t a ≡ true)

module _ (id t : ℕ) where
  -- An account that is put back under its id, with the trace kept.
  pub put_account-HasTrace :
      (a : MockAccount) (b : MockBroker)
      → ((x : MockAccount)
          → find_mock a.provider_account_id b ≡ some x
          → traced t x ≡ true
          → traced t a ≡ true)
      → HasTrace id t b
      → HasTrace id t (put_account a b)
  put_account-HasTrace a b keep (x, found, k) = elim (Bool-cases (a.provider_account_id == id)) [
    | inl e ↦
        let here : a.provider_account_id ≡ id = (==_iff _ _).0 e in
        (
          a,
          rw (← here) (find-map_set (λ x. x.provider_account_id) a b.accounts),
          keep x (rw here found) k,
        )
    | inr e ↦ (x, find-map_set_ne (λ x. x.provider_account_id) a id b.accounts e ∙ found, k)
  ]

  module _ {A : Type 0} (j : ℕ) (f : MockAccount → A × MockAccount) (b : MockBroker) where
    perform-HasTrace :
        (o : Option MockAccount)
        → find_mock j b ≡ o
        → ((a : MockAccount) → Keeps t a (f a).1)
        → HasTrace id t b
        → HasTrace id t (perform f b (require o)).1
    unfolding require
    perform-HasTrace none e keep h = h
    perform-HasTrace (some a) e keep h = put_account-HasTrace (f a).1 b from h
      where
        a_id : a.provider_account_id ≡ j
        a_id = (==_iff _ _).0 (find_sound (has_account_id j) b.accounts e)

        from :
            (x : MockAccount)
            → find_mock (f a).1.provider_account_id b ≡ some x
            → traced t x ≡ true
            → traced t (f a).1 ≡ true
        from x e' k =
            let same : (f a).1.provider_account_id ≡ j = (keep a).same_id ∙ a_id in
            let e'' : find_mock j b ≡ some x = rw (← same) e' in
            let x_is_a : x ≡ a = cc in (keep a).still_traced (rw (← x_is_a) k)

    order-HasTrace :
        ((a : MockAccount) → Keeps t a (f a).1) → HasTrace id t b → HasTrace id t (order j f b).1
    order-HasTrace keep h = perform-HasTrace (find_mock j b) refl keep h

  -- A connection keeps the positions and the closes of the account.
  connected_account-HasTrace :
      (input : ConnectAccountInput) (j : ℕ) (b : MockBroker) (o : Option MockAccount)
      → find_mock j b ≡ o
      → HasTrace id t b
      → HasTrace id t (put_account (connected_account input j o) b)
  unfolding connected_account
  connected_account-HasTrace input j b none e h =
      put_account-HasTrace (connected_account input j none) b (λ x e' k. cc) h
  connected_account-HasTrace input j b (some a) e h =
      put_account-HasTrace (connected_account input j (some a)) b
        (λ x e' k. let x_is_a : x ≡ a = cc in rw (← x_is_a) k) h

  module _ (number_of : Text → ℕ) (input : ConnectAccountInput) (b : MockBroker) where
    connect_with-HasTrace :
        (s : Text) → HasTrace id t b → HasTrace id t (connect_with number_of s input b).1
    unfolding connect_with admit
    connect_with-HasTrace [] h = h
    connect_with-HasTrace (c ∷ s) h = elim (Bool-cases (ends_with (codes "0000") input.login)) [
      | inl e ↦ rw e h
      | inr e ↦
          let j = number_of (mock_id input.platform input.login) in
          rw e (connected_account-HasTrace input j b (find_mock j b) refl h)
    ]

  module _ (number_of : Text → ℕ) (sine : Number → Number) where
    after-HasTrace :
        (c : Call) (b : MockBroker) → HasTrace id t b → HasTrace id t (after number_of sine c b)
    unfolding connect_account
    after-HasTrace (connect input) b h = connect_with-HasTrace number_of input b input.password h
    after-HasTrace (open_order j r) b h =
        order-HasTrace j (open_position sine b.now r) b (open_position-Keeps sine b.now t r) h
    after-HasTrace (modify_order j r) b h =
        order-HasTrace j (modify_position r) b (modify_position-Keeps t r) h
    after-HasTrace (close_order j r) b h =
        order-HasTrace j (close_position sine b.now r) b (close_position-Keeps sine b.now t r) h
    after-HasTrace (wait n) b h = h

    pub after_all-HasTrace :
        (cs : List Call) (b : MockBroker)
        → HasTrace id t b
        → HasTrace id t (after_all number_of sine cs b)
    unfolding after_all
    after_all-HasTrace [] b h = h
    after_all-HasTrace (c ∷ cs) b h =
        after_all-HasTrace cs (after number_of sine c b) (after-HasTrace c b h)
