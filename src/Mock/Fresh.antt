-- ===== src/Mock/Fresh.antt =====
-- The tickets of an account through all calls.
use copytrade_dashboard.Base.{
  ℕ, ◌+◌, ◌≡◌, ◌<◌, ◌⊎◌, refl, Bool, true, false, ◌||◌, Option, some, none, List, [], ◌∷◌, ◌++◌,
  arith, any, find, All, Bool-cases, inl, inr,
}
use copytrade_dashboard.Number.Defs.{Number, is_less, is_at_most, subtract}
use copytrade_dashboard.Text.{Text}
use copytrade_dashboard.Types.{
  Platform, ProviderPosition, OpenPositionRequest, ModifyPositionRequest, ClosePositionRequest,
}
use copytrade_dashboard.Store.Tables.{update_where}
use copytrade_dashboard.Mock.State.{
  ConnectAccountInput, MockPosition, MockAccount, MockBroker, SymbolRow, symbol_row, has_ticket,
  map_set, has_account_id, codes, ends_with,
}
use copytrade_dashboard.Mock.Prices.{round, current_price}
use copytrade_dashboard.Mock.Orders.{
  write_position, mark_closed, add_position, new_position, same_type, netted, fill_order, open_row,
  open_position, book_close, reduce, settle_close, close_found, close_position, closing_volume,
  find_open, modify_found, modify_position,
}
use copytrade_dashboard.Mock.Calls.{
  perform, require, find_mock, put_account, connect_account, connect_with, admit, mock_id,
  connected_account,
}
use copytrade_dashboard.Mock.Lookup.{IsFresh}
use copytrade_dashboard.Mock.History.{
  Call, connect, open_order, modify_order, close_order, wait, after, after_all,
}

module _ {V : Type 0} (P : V → Type 0) where
  All-update_where :
      (at : V → Bool) (f : V → V) (vs : List V)
      → ((x : V) → P x → P (f x))
      → All P vs
      → All P (update_where at f vs)
  All-update_where at f [] keep h = h
  All-update_where at f (x ∷ vs) keep h = elim (Bool-cases (at x)) [
    | inl e ↦ rw e (keep x h.0, All-update_where at f vs keep h.1)
    | inr e ↦ rw e (h.0, All-update_where at f vs keep h.1)
  ]

  All-append : (vs : List V) (v : V) → All P vs → P v → All P (vs ++ v ∷ [])
  All-append [] v h k = (k, tt)
  All-append (x ∷ vs) v h k = (h.0, All-append vs v h.1 k)

  All-map_set : (same : V → Bool) (v : V) (vs : List V) → All P vs → P v → All P (map_set same v vs)
  All-map_set same v vs h k = elim (Bool-cases (any same vs)) [
    | inl e ↦ rw e (All-update_where same (λ _. v) vs (λ x _. k) h)
    | inr e ↦ rw e (All-append vs v h k)
  ]

  pub All-find : (q : V → Bool) (vs : List V) {x : V} → All P vs → find q vs ≡ some x → P x
  All-find q [] h e = cc
  All-find q (y ∷ vs) {x} h e = from (Bool-cases (q y)) (All-find q vs {x = x} h.1) e
    where
      from :
          ((q y ≡ true) ⊎ (q y ≡ false))
          → (find q vs ≡ some x → P x)
          → find q (y ∷ vs) ≡ some x
          → P x
      from (inl k) rest e = let same : y ≡ x = (let e' = rw k at e in cc) in rw (← same) h.0
      from (inr k) rest e = rest (rw k at e)

All-lt_suc :
    (n : ℕ) (ps : List MockPosition)
    → All (λ p. p.position.ticket < n) ps
    → All (λ p. p.position.ticket < n + 1) ps
All-lt_suc n [] h = h
All-lt_suc n (p ∷ ps) h = (omega arith, All-lt_suc n ps h.1)

module _ (a : MockAccount) (fresh : IsFresh a) where
  write_position-IsFresh :
      (u : ℕ) (f : ProviderPosition → ProviderPosition)
      → ((p : ProviderPosition) → (f p).ticket ≡ p.ticket)
      → IsFresh (write_position u f a)
  write_position-IsFresh u f keep =
      All-update_where (λ p. p.position.ticket < a.next_ticket) (has_ticket u) _ a.positions
        (λ p h. let e = keep p.position in omega arith) fresh

  mark_closed-IsFresh : (u : ℕ) → IsFresh (mark_closed u a)
  mark_closed-IsFresh u =
      All-update_where (λ p. p.position.ticket < a.next_ticket) (has_ticket u) _ a.positions
        (λ p h. h) fresh

  add_position-IsFresh : (p : ProviderPosition) → IsFresh (add_position p a)
  add_position-IsFresh p =
      All-map_set (λ q. q.position.ticket < a.next_ticket + 1) (has_ticket a.next_ticket) _
        a.positions (All-lt_suc a.next_ticket a.positions fresh) (omega arith)

  modify_found-IsFresh :
      (r : ModifyPositionRequest) (o : Option MockPosition) → IsFresh (modify_found r o a).1
  unfolding modify_found
  modify_found-IsFresh r none = fresh
  modify_found-IsFresh r (some p) = write_position-IsFresh r.ticket _ (λ q. refl)

  modify_position-IsFresh : (r : ModifyPositionRequest) → IsFresh (modify_position r a).1
  unfolding modify_position
  modify_position-IsFresh r = modify_found-IsFresh r (find_open r.ticket a)

reduce-IsFresh :
    (m : Platform) (p : ProviderPosition) (v : Number) (a : MockAccount)
    → IsFresh a
    → IsFresh (reduce m p v a).1
unfolding reduce
reduce-IsFresh Platform.mt4 p v a fresh =
    add_position-IsFresh (mark_closed p.ticket a) (mark_closed-IsFresh a fresh p.ticket)
      (record p { volume = round (subtract p.volume v) 2 })
reduce-IsFresh Platform.mt5 p v a fresh = write_position-IsFresh a fresh p.ticket _ (λ q. refl)

settle_close-IsFresh :
    (p : ProviderPosition) (v : Number) (a : MockAccount)
    → IsFresh a
    → IsFresh (settle_close p v a).1
unfolding settle_close
settle_close-IsFresh p v a fresh = elim (Bool-cases (is_at_most p.volume v)) [
  | inl e ↦ rw e (mark_closed-IsFresh a fresh p.ticket)
  | inr e ↦ rw e (reduce-IsFresh a.platform p v a fresh)
]

module _ (sine : Number → Number) (now : ℕ) (a : MockAccount) (fresh : IsFresh a) where
  close_found-IsFresh :
      (r : ClosePositionRequest) (o : Option MockPosition) → IsFresh (close_found sine now r o a).1
  unfolding close_found book_close
  close_found-IsFresh r none = fresh
  close_found-IsFresh r (some p) =
      let v = closing_volume r.volume p.position in
      settle_close-IsFresh p.position v (book_close sine now p.position v a) fresh

  close_position-IsFresh : (r : ClosePositionRequest) → IsFresh (close_position sine now r a).1
  unfolding close_position
  close_position-IsFresh r = close_found-IsFresh r (find_open r.ticket a)

  fill_order-IsFresh :
      (r : OpenPositionRequest) (price : Number) (s : SymbolRow) (o : Option MockPosition)
      → IsFresh (fill_order now r price s o a).1
  unfolding fill_order
  fill_order-IsFresh r price s none =
      add_position-IsFresh a fresh (new_position a.next_ticket r price now)
  fill_order-IsFresh r price s (some p) =
      elim (Bool-cases (same_type p.position.order_type r.order_type)) [
        | inl e ↦ rw e (write_position-IsFresh a fresh p.position.ticket _ (λ q. refl))
        | inr e ↦ rw e (add_position-IsFresh a fresh (new_position a.next_ticket r price now))
      ]

  open_row-IsFresh :
      (r : OpenPositionRequest) (o : Option SymbolRow) → IsFresh (open_row sine now r o a).1
  unfolding open_row
  open_row-IsFresh r none = fresh
  open_row-IsFresh r (some s) =
      elim (Bool-cases (is_less r.volume s.min_lot || is_less s.max_lot r.volume)) [
        | inl e ↦ rw e fresh
        | inr e ↦ rw e (fill_order-IsFresh r (current_price sine now r.symbol) s (netted r a))
      ]

  open_position-IsFresh : (r : OpenPositionRequest) → IsFresh (open_position sine now r a).1
  unfolding open_position
  open_position-IsFresh r = open_row-IsFresh r (symbol_row r.symbol)

abbrev pub AllFresh : MockBroker → Type 0
AllFresh b = All IsFresh b.accounts

put_account-AllFresh :
    (a : MockAccount) (b : MockBroker) → IsFresh a → AllFresh b → AllFresh (put_account a b)
put_account-AllFresh a b h all =
    All-map_set IsFresh (has_account_id a.provider_account_id) a b.accounts all h

module _ (b : MockBroker) (all : AllFresh b) where
  perform-AllFresh :
      {A : Type 0} (j : ℕ) (f : MockAccount → A × MockAccount) (o : Option MockAccount)
      → find_mock j b ≡ o
      → ((a : MockAccount) → IsFresh a → IsFresh (f a).1)
      → AllFresh (perform f b (require o)).1
  unfolding require
  perform-AllFresh j f none e keep = all
  perform-AllFresh j f (some a) e keep =
      put_account-AllFresh (f a).1 b (keep a (All-find IsFresh (has_account_id j) b.accounts all e))
        all

  connected_account-IsFresh :
      (input : ConnectAccountInput) (j : ℕ) (o : Option MockAccount)
      → find_mock j b ≡ o
      → IsFresh (connected_account input j o)
  unfolding connected_account
  connected_account-IsFresh input j none e = tt
  connected_account-IsFresh input j (some a) e =
      All-find IsFresh (has_account_id j) b.accounts all e

  connect_with-AllFresh :
      (number_of : Text → ℕ) (input : ConnectAccountInput) (s : Text)
      → AllFresh (connect_with number_of s input b).1
  unfolding connect_with admit
  connect_with-AllFresh number_of input [] = all
  connect_with-AllFresh number_of input (c ∷ s) =
      elim (Bool-cases (ends_with (codes "0000") input.login)) [
        | inl e ↦ rw e all
        | inr e ↦
            let j = number_of (mock_id input.platform input.login) in
            rw e (
              put_account-AllFresh (connected_account input j (find_mock j b)) b
                (connected_account-IsFresh input j (find_mock j b) refl) all)
      ]

  after-AllFresh :
      (number_of : Text → ℕ) (sine : Number → Number) (c : Call)
      → AllFresh (after number_of sine c b)
  unfolding connect_account
  after-AllFresh number_of sine (connect input) =
      connect_with-AllFresh number_of input input.password
  after-AllFresh number_of sine (open_order j r) =
      perform-AllFresh j (open_position sine b.now r) (find_mock j b) refl
        (λ a h. open_position-IsFresh sine b.now a h r)
  after-AllFresh number_of sine (modify_order j r) =
      perform-AllFresh j (modify_position r) (find_mock j b) refl
        (λ a h. modify_position-IsFresh a h r)
  after-AllFresh number_of sine (close_order j r) =
      perform-AllFresh j (close_position sine b.now r) (find_mock j b) refl
        (λ a h. close_position-IsFresh sine b.now a h r)
  after-AllFresh number_of sine (wait n) = all

-- Any calls keep every ticket of every account below the next ticket of its account.
pub after_all-AllFresh :
    (number_of : Text → ℕ) (sine : Number → Number) (cs : List Call) (b : MockBroker)
    → AllFresh b
    → AllFresh (after_all number_of sine cs b)
unfolding after_all
after_all-AllFresh number_of sine [] b all = all
after_all-AllFresh number_of sine (c ∷ cs) b all =
    after_all-AllFresh number_of sine cs (after number_of sine c b)
      (after-AllFresh b all number_of sine c)
