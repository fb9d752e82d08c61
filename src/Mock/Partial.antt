-- ===== src/Mock/Partial.antt =====
-- A partial close: what MT4 and MT5 leave of the position.
use copytrade_dashboard.Base.{ℕ, ◌-◌, ◌<◌, ◌≡◌, ◌∙◌, refl, true, Option, some, arith, find}
use copytrade_dashboard.Number.Defs.{Number, hundredths, subtract, multiply, divide}
use copytrade_dashboard.Types.{Platform, ProviderPosition, ClosePositionRequest}
use copytrade_dashboard.Mock.State.{MockPosition, MockClose, MockAccount, is_close_of}
use copytrade_dashboard.Mock.Maps.{find-map_set}
use copytrade_dashboard.Mock.Prices.{round, profit_of}
use copytrade_dashboard.Mock.Orders.{
  close_position, close_found, settle_close, reduce, book_close, close_record, find_open,
  mark_closed,
}
use copytrade_dashboard.Mock.Lookup.{
  IsFresh, remainder_exact, not-is_at_most, find_open-mark_closed, find_open-write_position,
  find_open-add_position, Left, find_open_fits, find-lt,
}

reduce-Left :
    (m : Platform) (u v c : ℕ) (p : MockPosition) (a : MockAccount)
    → c < v
    → IsFresh a
    → find_open u a ≡ some p
    → p.position.volume ≡ hundredths v
    → let out = reduce m p.position (hundredths c) a in
      Left m u p (hundredths (v - c)) a out.0.remainder_ticket out.1
unfolding reduce
reduce-Left Platform.mt4 u v c p a h fresh found e =
    let (live, ticket, at) = find_open_fits u a p found in
    let below : u < a.next_ticket = find-lt a.next_ticket u a.positions fresh at in
    let exact : round (subtract p.position.volume (hundredths c)) 2 ≡ hundredths (v - c) =
      rw e (remainder_exact v c h) in
    let rest = record p.position { volume = hundredths (v - c) } in
    rw (exact, ticket)
      (
        refl,
        find_open-add_position u rest (mark_closed u a)
            ∙ ground (arith, find_open-mark_closed u u a),
        find_open-add_position a.next_ticket rest (mark_closed u a) ∙ ground arith,
        λ t not_u not_next.
            find_open-add_position t rest (mark_closed u a)
            ∙ ground (arith, find_open-mark_closed u t a),
      )
reduce-Left Platform.mt5 u v c p a h fresh found e =
    let (live, ticket, at) = find_open_fits u a p found in
    let exact : round (subtract p.position.volume (hundredths c)) 2 ≡ hundredths (v - c) =
      rw e (remainder_exact v c h) in
    rw (exact, ticket)
      (
        refl,
        find_open-write_position u u (λ q. record q { volume = hundredths (v - c) }) a (λ q. refl)
            ∙ ground arith,
        λ t not_u.
            find_open-write_position u t (λ q. record q { volume = hundredths (v - c) }) a
              (λ q. refl)
            ∙ ground arith,
      )

settle_close-reduce :
    (p : ProviderPosition) (v c : ℕ) (a : MockAccount)
    → p.volume ≡ hundredths v
    → c < v
    → settle_close p (hundredths c) a ≡ reduce a.platform p (hundredths c) a
unfolding settle_close
settle_close-reduce p v c a e h = rw (e, not-is_at_most v c h) refl

reduce_fills :
    (m : Platform) (p : ProviderPosition) (volume : Number) (a : MockAccount)
    → ((reduce m p volume a).0.executed ≡ true)
      × ((reduce m p volume a).0.volume ≡ some volume)
      × ((reduce m p volume a).1.closes ≡ a.closes)
unfolding reduce
reduce_fills Platform.mt4 p volume a = (refl, refl, refl)
reduce_fills Platform.mt5 p volume a = (refl, refl, refl)

-- The request to close `c` hundredths of a lot of the ticket `u`.
abbrev pub closing_part : ℕ → ℕ → ClosePositionRequest
closing_part u c = record { ticket = u; volume = some (hundredths c) }

module _ (sine : Number → Number) (now u v c : ℕ) (p : MockPosition) (a : MockAccount) where
  booked_volume :
      p.position.ticket ≡ u
      → (k : MockClose) × (find
            (is_close_of u)
            (book_close sine now p.position (hundredths c) a).closes
          ≡ some k)
        × (k.volume ≡ hundredths c)
  unfolding book_close close_record
  booked_volume e =
      let profit =
        round (multiply (profit_of sine now p.position) (divide (hundredths c) p.position.volume))
          2 in
      let k = close_record sine now p.position (hundredths c) profit in
      (k, rw (← e) (find-map_set (λ (x : MockClose). x.ticket) k a.closes), refl)

  -- The booking leaves the positions and the next ticket alone.
  Left-book_close :
      (m : Platform) (rest : Number) (remainder : Option ℕ) (b : MockAccount)
      → Left m u p rest (book_close sine now p.position (hundredths c) a) remainder b
      → Left m u p rest a remainder b
  unfolding book_close
  Left-book_close Platform.mt4 rest remainder b h = h
  Left-book_close Platform.mt5 rest remainder b h = h

  close_position-reduce :
      find_open u a ≡ some p
      → p.position.volume ≡ hundredths v
      → c < v
      → close_position sine now (closing_part u c) a
        ≡ reduce a.platform p.position
            (hundredths c)
            (book_close sine now p.position (hundredths c) a)
  unfolding close_position close_found book_close
  close_position-reduce found e h =
      rw found
        (settle_close-reduce p.position v c (book_close sine now p.position (hundredths c) a) e h)

  -- The answer, the record of the close and what is left, on an account with fresh tickets.
  pub close_position-Left :
      IsFresh a
      → find_open u a ≡ some p
      → p.position.volume ≡ hundredths v
      → c < v
      → let out = close_position sine now (closing_part u c) a in
        (out.0.executed ≡ true)
        × (out.0.volume ≡ some (hundredths c))
        × ((k : MockClose) × (find (is_close_of u) out.1.closes ≡ some k)
            × (k.volume ≡ hundredths c))
        × Left a.platform u p (hundredths (v - c)) a out.0.remainder_ticket out.1
  unfolding book_close
  close_position-Left fresh found e h =
      let b = book_close sine now p.position (hundredths c) a in
      let (executed, volume, closes) = reduce_fills a.platform p.position (hundredths c) b in
      let (live, ticket, at) = find_open_fits u a p found in
      let (k, known, amount) = booked_volume ticket in
      rw (close_position-reduce found e h) (
        executed,
        volume,
        (k, rw closes known, amount),
        Left-book_close a.platform _ _ _ (reduce-Left a.platform u v c p b h fresh found e),
      )
