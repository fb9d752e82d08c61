-- ===== src/Mock/Trace.antt =====
-- What an order does to the trace of a ticket: it is open, or its close is on record.
use copytrade_dashboard.Base.{
  ℕ, ◌≡◌, ◌∙◌, ◌⊎◌, refl, Bool, true, false, not, ◌&&◌, ◌||◌, Option, some, none, arith, any, ◌==◌,
  Bool-cases, inl, inr,
}
use copytrade_dashboard.Number.Defs.{Number, subtract, is_less, is_at_most}
use copytrade_dashboard.Types.{
  Platform, ProviderPosition, OpenPositionRequest, ModifyPositionRequest, ClosePositionRequest,
}
use copytrade_dashboard.Mock.State.{
  MockPosition, MockAccount, SymbolRow, symbol_row, has_ticket, is_close_of,
}
use copytrade_dashboard.Mock.Maps.{any-update_where, any-map_set, any-map_set_other}
use copytrade_dashboard.Mock.Prices.{round, current_price}
use copytrade_dashboard.Mock.Orders.{
  write_position, mark_closed, add_position, netted, fill_order, open_row, open_position,
  close_record, book_close, reduce, settle_close, find_open, modify_found, modify_position,
  close_found, close_position, closing_volume, same_type, new_position,
}

abbrev pub is_open : ℕ → MockPosition → Bool
is_open t p = has_ticket t p && not p.closed

abbrev pub traced : ℕ → MockAccount → Bool
traced t a = any (is_open t) a.positions || any (is_close_of t) a.closes

-- The account keeps its id, and the ticket its trace.
pub record Keeps (t : ℕ) (a a' : MockAccount) : Type 0 where
  pub same_id : a'.provider_account_id ≡ a.provider_account_id
  pub still_traced : traced t a ≡ true → traced t a' ≡ true

Keeps-refl : (t : ℕ) (a : MockAccount) → Keeps t a a
Keeps-refl t a = record { same_id = refl; still_traced = λ h. h }

module _ (t : ℕ) (a : MockAccount) where
  pub write_position-Keeps :
      (u : ℕ) (f : ProviderPosition → ProviderPosition)
      → ((p : ProviderPosition) → (f p).ticket ≡ p.ticket)
      → Keeps t a (write_position u f a)
  write_position-Keeps u f keep = record {
    same_id = refl;
    still_traced = λ h. ground (
      arith,
      any-update_where (is_open t) (has_ticket u)
          (λ (p : MockPosition). record p { position = f p.position }) a.positions
          (λ p k. let e = keep p.position in ground arith),
    );
  }

  add_position-Keeps : (p : ProviderPosition) → Keeps t a (add_position p a)
  add_position-Keeps p = record {
    same_id = refl;
    still_traced = λ h. kept (Bool-cases (any (is_open t) a.positions)) h;
  }
    where
      added : MockPosition
      added = record { position = record p { ticket = a.next_ticket }; closed = false }

      kept_open :
          any (is_open t) a.positions ≡ true → any (is_open t) (add_position p a).positions ≡ true
      kept_open h = elim (Bool-cases (a.next_ticket == t)) [
        | inl e ↦
            any-map_set (is_open t) (has_ticket a.next_ticket) added a.positions (ground arith)
        | inr e ↦
            any-map_set_other (is_open t) (has_ticket a.next_ticket) added a.positions
              (λ x k. ground arith) h
      ]

      kept :
          ((any (is_open t) a.positions ≡ true) ⊎ (any (is_open t) a.positions ≡ false))
          → traced t a ≡ true
          → traced t (add_position p a) ≡ true
      kept (inl e) h = rw (kept_open e) refl
      kept (inr e) h = ground arith

  -- A ticket may be marked once its close is on record.
  mark_closed-Keeps : (u : ℕ) → any (is_close_of u) a.closes ≡ true → Keeps t a (mark_closed u a)
  mark_closed-Keeps u known = record { same_id = refl; still_traced = from (Bool-cases (u == t)) }
    where
      from :
          (((u == t) ≡ true) ⊎ ((u == t) ≡ false))
          → traced t a ≡ true
          → traced t (mark_closed u a) ≡ true
      from (inl e) h =
          let u_is_t : u ≡ t = ground arith in
          let k : any (is_close_of t) a.closes ≡ true = rw (← u_is_t) known in ground arith
      from (inr e) h = ground (
        arith,
        any-update_where (is_open t) (has_ticket u)
            (λ (p : MockPosition). record p { closed = true }) a.positions (λ p k. ground arith),
      )

Keeps-trans : (t : ℕ) {a b c : MockAccount} → Keeps t a b → Keeps t b c → Keeps t a c
Keeps-trans t h k = record {
  same_id = k.same_id ∙ h.same_id;
  still_traced = λ e. k.still_traced (h.still_traced e);
}

module _ (sine : Number → Number) (now t : ℕ) where
  booked :
      (p : ProviderPosition) (v : Number) (a : MockAccount)
      → any (is_close_of p.ticket) (book_close sine now p v a).closes ≡ true
  unfolding book_close close_record
  booked p v a = any-map_set (is_close_of p.ticket) (is_close_of p.ticket) _ a.closes (ground arith)

  book_close-Keeps :
      (p : ProviderPosition) (v : Number) (a : MockAccount) → Keeps t a (book_close sine now p v a)
  unfolding book_close close_record
  book_close-Keeps p v a = record {
    same_id = refl;
    still_traced = λ h. from (Bool-cases (any (is_close_of t) a.closes)) h;
  }
    where
      kept :
          any (is_close_of t) a.closes ≡ true
          → any (is_close_of t) (book_close sine now p v a).closes ≡ true
      kept h = elim (Bool-cases (p.ticket == t)) [
        | inl e ↦ any-map_set (is_close_of t) (is_close_of p.ticket) _ a.closes (ground arith)
        | inr e ↦
            any-map_set_other (is_close_of t) (is_close_of p.ticket) _ a.closes
              (λ x k. ground arith) h
      ]

      from :
          ((any (is_close_of t) a.closes ≡ true) ⊎ (any (is_close_of t) a.closes ≡ false))
          → traced t a ≡ true
          → traced t (book_close sine now p v a) ≡ true
      from (inl e) h = let k = kept e in ground arith
      from (inr e) h = ground arith

  reduce-Keeps :
      (m : Platform) (p : ProviderPosition) (v : Number) (a : MockAccount)
      → any (is_close_of p.ticket) a.closes ≡ true
      → Keeps t a (reduce m p v a).1
  unfolding reduce
  reduce-Keeps Platform.mt4 p v a known = Keeps-trans t (mark_closed-Keeps t a p.ticket known) (
      add_position-Keeps t (mark_closed p.ticket a)
        (record p { volume = round (subtract p.volume v) 2 }))
  reduce-Keeps Platform.mt5 p v a known = write_position-Keeps t a p.ticket _ (λ q. refl)

  settle_close-Keeps :
      (p : ProviderPosition) (v : Number) (a : MockAccount)
      → any (is_close_of p.ticket) a.closes ≡ true
      → Keeps t a (settle_close p v a).1
  unfolding settle_close
  settle_close-Keeps p v a known = elim (Bool-cases (is_at_most p.volume v)) [
    | inl e ↦ rw e (mark_closed-Keeps t a p.ticket known)
    | inr e ↦ rw e (reduce-Keeps a.platform p v a known)
  ]

  close_found-Keeps :
      (r : ClosePositionRequest) (o : Option MockPosition) (a : MockAccount)
      → Keeps t a (close_found sine now r o a).1
  unfolding close_found
  close_found-Keeps r none a = Keeps-refl t a
  close_found-Keeps r (some p) a =
      let v = closing_volume r.volume p.position in
      Keeps-trans t (book_close-Keeps p.position v a) (
        settle_close-Keeps p.position v (book_close sine now p.position v a)
          (booked p.position v a))

  pub close_position-Keeps :
      (r : ClosePositionRequest) (a : MockAccount) → Keeps t a (close_position sine now r a).1
  unfolding close_position
  close_position-Keeps r a = close_found-Keeps r (find_open r.ticket a) a

  fill_order-Keeps :
      (r : OpenPositionRequest) (price : Number) (s : SymbolRow) (o : Option MockPosition)
      (a : MockAccount)
      → Keeps t a (fill_order now r price s o a).1
  unfolding fill_order
  fill_order-Keeps r price s none a =
      add_position-Keeps t a (new_position a.next_ticket r price now)
  fill_order-Keeps r price s (some p) a =
      elim (Bool-cases (same_type p.position.order_type r.order_type)) [
        | inl e ↦ rw e (write_position-Keeps t a p.position.ticket _ (λ q. refl))
        | inr e ↦ rw e (add_position-Keeps t a (new_position a.next_ticket r price now))
      ]

  open_row-Keeps :
      (r : OpenPositionRequest) (o : Option SymbolRow) (a : MockAccount)
      → Keeps t a (open_row sine now r o a).1
  unfolding open_row
  open_row-Keeps r none a = Keeps-refl t a
  open_row-Keeps r (some s) a =
      elim (Bool-cases (is_less r.volume s.min_lot || is_less s.max_lot r.volume)) [
        | inl e ↦ rw e (Keeps-refl t a)
        | inr e ↦ rw e (fill_order-Keeps r (current_price sine now r.symbol) s (netted r a) a)
      ]

  pub open_position-Keeps :
      (r : OpenPositionRequest) (a : MockAccount) → Keeps t a (open_position sine now r a).1
  unfolding open_position
  open_position-Keeps r a = open_row-Keeps r (symbol_row r.symbol) a

modify_found-Keeps :
    (t : ℕ) (r : ModifyPositionRequest) (o : Option MockPosition) (a : MockAccount)
    → Keeps t a (modify_found r o a).1
unfolding modify_found
modify_found-Keeps t r none a = Keeps-refl t a
modify_found-Keeps t r (some p) a = write_position-Keeps t a r.ticket _ (λ q. refl)

pub modify_position-Keeps :
    (t : ℕ) (r : ModifyPositionRequest) (a : MockAccount) → Keeps t a (modify_position r a).1
unfolding modify_position
modify_position-Keeps t r a = modify_found-Keeps t r (find_open r.ticket a) a
