-- ===== src/Mock/Fills.antt =====
-- What a filled order leaves: a ticket that the broker can account for ever after.
use copytrade_dashboard.Base.{
  ℕ, ◌≡◌, ◌⊎◌, refl, Bool, true, false, not, ◌&&◌, ◌||◌, Option, some, none, List, [], ◌∷◌, arith,
  any, find, Bool-cases, find_sound, inl, inr,
}
use copytrade_dashboard.Number.Defs.{Number, is_less}
use copytrade_dashboard.Text.{text_eq, to_upper}
use copytrade_dashboard.Types.{ProviderPosition, OpenPositionRequest}
use copytrade_dashboard.Mock.State.{MockPosition, MockAccount, SymbolRow, symbol_row, has_ticket}
use copytrade_dashboard.Mock.Maps.{any-map_set}
use copytrade_dashboard.Mock.Prices.{current_price}
use copytrade_dashboard.Mock.Orders.{
  new_position, open_position, open_row, fill_order, netted, same_type, merged_into, write_position,
  add_position,
}
use copytrade_dashboard.Mock.Trace.{is_open, traced, write_position-Keeps}

any-find :
    {V : Type 0} (p q : V → Bool) (vs : List V) {x : V}
    → find p vs ≡ some x
    → q x ≡ true
    → any q vs ≡ true
any-find p q [] h k = cc
any-find p q (y ∷ vs) {x} h k = ground (arith, any-find p q vs {x = x})

-- The position that a netting account merges with is open.
netted_open :
    (r : OpenPositionRequest) (a : MockAccount) (p : MockPosition)
    → netted r a ≡ some p
    → any (is_open p.position.ticket) a.positions ≡ true
unfolding netted
netted_open r a p h = from (Bool-cases a.netting) h
  where
    fits : MockPosition → Bool
    fits q = not q.closed && text_eq q.position.symbol (to_upper r.symbol)

    of_found : find fits a.positions ≡ some p → any (is_open p.position.ticket) a.positions ≡ true
    of_found e =
        let k : fits p ≡ true = find_sound fits a.positions e in
        any-find fits (is_open p.position.ticket) a.positions e (ground arith)

    from :
        ((a.netting ≡ true) ⊎ (a.netting ≡ false))
        → netted r a ≡ some p
        → any (is_open p.position.ticket) a.positions ≡ true
    from (inl e) h = of_found (simp e at h)
    from (inr e) h = absurd (let k = simp e at h in cc)

add_position-traced :
    (t : ℕ) (p : ProviderPosition) (a : MockAccount)
    → a.next_ticket ≡ t
    → traced t (add_position p a) ≡ true
add_position-traced t p a e =
    let added : MockPosition = record {
      position = record p { ticket = a.next_ticket };
      closed = false;
    } in
    let k = any-map_set (is_open t) (has_ticket a.next_ticket) added a.positions (ground arith) in
    ground arith

merge_traced :
    (t : ℕ) (f : ProviderPosition → ProviderPosition) (p : ProviderPosition) (a : MockAccount)
    → ((q : ProviderPosition) → (f q).ticket ≡ q.ticket)
    → any (is_open p.ticket) a.positions ≡ true
    → p.ticket ≡ t
    → traced t (write_position p.ticket f a) ≡ true
merge_traced t f p a keep h e =
    let k : any (is_open t) a.positions ≡ true = rw (← e) h in
    (write_position-Keeps t a p.ticket f keep).still_traced (ground arith)

module _ (sine : Number → Number) (now t : ℕ) (r : OpenPositionRequest) (a : MockAccount) where
  fill_order-traced :
      (price : Number) (s : SymbolRow) (o : Option MockPosition)
      → netted r a ≡ o
      → (fill_order now r price s o a).0.ticket ≡ some t
      → traced t (fill_order now r price s o a).1 ≡ true
  unfolding fill_order
  fill_order-traced price s none e h =
      add_position-traced t (new_position a.next_ticket r price now) a cc
  fill_order-traced price s (some p) e h =
      from (Bool-cases (same_type p.position.order_type r.order_type)) h
    where
      from :
          (same : (same_type p.position.order_type r.order_type ≡ true)
            ⊎ (same_type p.position.order_type r.order_type ≡ false))
          → (fill_order now r price s (some p) a).0.ticket ≡ some t
          → traced t (fill_order now r price s (some p) a).1 ≡ true
      from (inl k) h =
          let h' = rw k at h in
          rw k (
            merge_traced t (merged_into r price s) p.position a (λ q. refl) (netted_open r a p e)
              cc)
      from (inr k) h =
          let h' = rw k at h in
          rw k (add_position-traced t (new_position a.next_ticket r price now) a cc)

  open_row-traced :
      (o : Option SymbolRow)
      → (open_row sine now r o a).0.ticket ≡ some t
      → traced t (open_row sine now r o a).1 ≡ true
  unfolding open_row
  open_row-traced none h = cc
  open_row-traced (some s) h =
      from (Bool-cases (is_less r.volume s.min_lot || is_less s.max_lot r.volume)) h
    where
      from :
          (fits : (is_less r.volume s.min_lot || is_less s.max_lot r.volume ≡ true)
            ⊎ (is_less r.volume s.min_lot || is_less s.max_lot r.volume ≡ false))
          → (open_row sine now r (some s) a).0.ticket ≡ some t
          → traced t (open_row sine now r (some s) a).1 ≡ true
      from (inl k) h = let h' = rw k at h in cc
      from (inr k) h =
          let h' = rw k at h in
          rw k (fill_order-traced (current_price sine now r.symbol) s (netted r a) refl h')

  pub open_position-traced :
      (open_position sine now r a).0.ticket ≡ some t
      → traced t (open_position sine now r a).1 ≡ true
  unfolding open_position
  open_position-traced h = open_row-traced (symbol_row r.symbol) h
