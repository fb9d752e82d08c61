-- ===== src/Mock/Lookup.antt =====
-- What a look-up finds behind the writes of an order.
use mathlib.Core.Option
use copytrade_dashboard.Base.{
  ℕ, ◌-◌, ◌<◌, ◌≡◌, ◌≢◌, ◌⊎◌, refl, true, false, Option, some, none, List, [], ◌∷◌, arith, find,
  All, ◌==◌, ==_iff, if◌then◌else◌, Bool-cases, Option-cases, find_sound, inl, inr,
}
use copytrade_dashboard.Number.Defs.{Number, hundredths, subtract, to_fixed, is_at_most, cross}
use copytrade_dashboard.Types.{Platform, ProviderPosition}
use copytrade_dashboard.Mock.State.{MockPosition, MockAccount, has_ticket}
use copytrade_dashboard.Store.Tables.{update_where}
use copytrade_dashboard.Mock.Maps.{find-map_set, find-map_set_ne}
use copytrade_dashboard.Mock.Prices.{round}
use copytrade_dashboard.Mock.Orders.{find_open, mark_closed, write_position, add_position}

-- Every ticket lies below the next one.
abbrev pub IsFresh : MockAccount → Type 0
IsFresh a = All (λ p. p.position.ticket < a.next_ticket) a.positions

-- Hundredths of a lot are subtracted without a rounding error.
pub remainder_exact :
    (v c : ℕ) → c < v → round (subtract (hundredths v) (hundredths c)) 2 ≡ hundredths (v - c)
unfolding subtract to_fixed
remainder_exact v c h = ground arith

pub not-is_at_most : (v c : ℕ) → c < v → is_at_most (hundredths v) (hundredths c) ≡ false
unfolding cross
not-is_at_most v c h = ground arith

-- A change of the position under one ticket, seen through the search for a ticket.
pub find-change :
    (g : MockPosition → MockPosition) (u t : ℕ) (ps : List MockPosition)
    → ((p : MockPosition) → (g p).position.ticket ≡ p.position.ticket)
    → find (has_ticket t) (update_where (has_ticket u) g ps)
      ≡ (if u == t then Option.map g (find (has_ticket t) ps) else find (has_ticket t) ps)
find-change g u t [] keep = ground arith
find-change g u t (p ∷ ps) keep = ground (arith, keep p, find-change g u t ps keep)

pub find_open-mark_closed :
    (u t : ℕ) (a : MockAccount)
    → find_open t (mark_closed u a) ≡ (if u == t then none else find_open t a)
find_open-mark_closed u t a = ground (
  arith,
  find-change (λ (p : MockPosition). record p { closed = true }) u t a.positions (λ p. refl),
)

pub find_open-write_position :
    (u t : ℕ) (f : ProviderPosition → ProviderPosition) (a : MockAccount)
    → ((p : ProviderPosition) → (f p).ticket ≡ p.ticket)
    → find_open t (write_position u f a) ≡ (
        if u == t
        then Option.map (λ (p : MockPosition). record p { position = f p.position }) (find_open t a)
        else find_open t a)
find_open-write_position u t f a keep = ground (
  arith,
  find-change (λ (p : MockPosition). record p { position = f p.position }) u t a.positions
      (λ p. keep p.position),
)

pub find_open-add_position :
    (t : ℕ) (p : ProviderPosition) (a : MockAccount)
    → find_open t (add_position p a) ≡ (
        if a.next_ticket == t
        then some (record { position = record p { ticket = a.next_ticket }; closed = false })
        else find_open t a)
find_open-add_position t p a = from (Bool-cases (a.next_ticket == t))
  where
    added : MockPosition
    added = record { position = record p { ticket = a.next_ticket }; closed = false }

    from :
        (((a.next_ticket == t) ≡ true) ⊎ ((a.next_ticket == t) ≡ false))
        → find_open t (add_position p a)
          ≡ (if a.next_ticket == t then some added else find_open t a)
    from (inl e) =
        let same : a.next_ticket ≡ t = (==_iff _ _).0 e in
        rw (← same) (ground (arith, find-map_set (λ x. x.position.ticket) added a.positions))
    from (inr e) = ground (arith, find-map_set_ne (λ x. x.position.ticket) added t a.positions e)

-- What is left of the position `p` with the ticket `u` in the accounts `a` before and `b` after,
-- where the answer named `remainder` as the ticket of the rest.
abbrev pub Left :
    Platform → ℕ → MockPosition → Number → MockAccount → Option ℕ → MockAccount → Type 0
Left Platform.mt4 u p rest a remainder b =
    (remainder ≡ some a.next_ticket)
    × (find_open u b ≡ none)
    × (find_open a.next_ticket b
        ≡ some
            (record p { position = record p.position { ticket = a.next_ticket; volume = rest } }))
    × ((t : ℕ) → t ≢ u → t ≢ a.next_ticket → find_open t b ≡ find_open t a)
Left Platform.mt5 u p rest a remainder b =
    (remainder ≡ none)
    × (find_open u b ≡ some (record p { position = record p.position { volume = rest } }))
    × ((t : ℕ) → t ≢ u → find_open t b ≡ find_open t a)

pub find_open_fits :
    (u : ℕ) (a : MockAccount) (p : MockPosition)
    → find_open u a ≡ some p
    → (p.closed ≡ false) × (p.position.ticket ≡ u) × (find (has_ticket u) a.positions ≡ some p)
find_open_fits u a p h = from (Option-cases (find (has_ticket u) a.positions)) h
  where
    from :
        ((find (has_ticket u) a.positions ≡ none)
          ⊎ ((q : MockPosition) × (find (has_ticket u) a.positions ≡ some q)))
        → find_open u a ≡ some p
        → (p.closed ≡ false) × (p.position.ticket ≡ u) × (find (has_ticket u) a.positions ≡ some p)
    from (inl e) k = absurd (let k' = rw (e, find_open) at k in cc)
    from (inr (q, e)) k = elim (Bool-cases q.closed) [
      | inl c ↦ absurd (ground arith)
      | inr c ↦
          let same : q ≡ p = ground arith in
          rw (← same) (c, (==_iff _ _).0 (find_sound (has_ticket u) a.positions e), e)
    ]

pub find-lt :
    (n u : ℕ) (ps : List MockPosition) {p : MockPosition}
    → All (λ q. q.position.ticket < n) ps
    → find (has_ticket u) ps ≡ some p
    → u < n
find-lt n u [] fresh h = cc
find-lt n u (q ∷ ps) {p} fresh h = ground (arith, find-lt n u ps {p = p})
