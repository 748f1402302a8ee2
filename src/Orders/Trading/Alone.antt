-- ===== src/Orders/Trading/Alone.antt =====
-- Sequences of calls of the methods of TradingService (internal/broker/trading.go, order_workflow.go
-- and order_quote.go) through many connections, and of the same calls of one provider alone.
pub mod Laws
use traio.Prelude.{String, Bool, List, [], ◌∷◌, Option, none, some, Result, err, if◌then◌else◌}
use traio.Prelude.Int.{ℤ}
use traio.Activity.Types.{eq_ℤ}
use traio.Orders.{OrderRequest, Order, Instrument}
use traio.Orders.Session.{OrderAttemptState}
use traio.Orders.Trading.{
  TradingError, connection_unavailable, no_interactive_orders, no_order_quotes, Answer, OrderQuery,
  OrderPreview, TradingAccount, OrderWorkflowProvider, TradingProvider, Entry, Service,
  with_provider, with_workflow, place_order, get_order, list_orders, cancel_order, trading_accounts,
  search_order_instruments, order_instrument, preview_order, reply_order, order_attempt,
  order_quote,
}

-- A call of one of the service's methods, without its connection.
pub data ServiceCall : Type 0 where
  place : OrderRequest → ServiceCall
  get : String → String → ServiceCall
  list : OrderQuery → ServiceCall
  cancel : String → String → ServiceCall
  accounts : ServiceCall
  search_instruments : String → ServiceCall
  instrument : String → ServiceCall
  preview : OrderRequest → ServiceCall
  reply : String → String → Bool → ServiceCall
  read_attempt : String → String → ServiceCall
  quote : String → ServiceCall

-- What a call answers.
pub data Reply (Q : Type 0) : Type 0 where
  one_order : Result TradingError Order → Reply Q
  some_orders : Result TradingError (List Order) → Reply Q
  canceled : Result TradingError (Unit {0}) → Reply Q
  some_accounts : Result TradingError (List TradingAccount) → Reply Q
  some_instruments : Result TradingError (List Instrument) → Reply Q
  one_instrument : Result TradingError Instrument → Reply Q
  a_preview : Result TradingError OrderPreview → Reply Q
  an_attempt : Result TradingError OrderAttemptState → Reply Q
  a_quote : Result TradingError Q → Reply Q

abbrev answers {ℓ} :
    {A Q : Type 0} {S : Type ℓ}
    → (Result TradingError A → Reply Q)
    → Result TradingError A × S
    → Reply Q × S
answers wrap (a, s) = (wrap a, s)

-- The answer where the connection has no provider.
abbrev pub unavailable : {Q : Type 0} → ℤ → ServiceCall → Reply Q
unavailable id (place r) = one_order (err (connection_unavailable id))
unavailable id (get account order) = one_order (err (connection_unavailable id))
unavailable id (list q) = some_orders (err (connection_unavailable id))
unavailable id (cancel account order) = canceled (err (connection_unavailable id))
unavailable id accounts = some_accounts (err (connection_unavailable id))
unavailable id (search_instruments query) = some_instruments (err (connection_unavailable id))
unavailable id (instrument conid) = one_instrument (err (connection_unavailable id))
unavailable id (preview r) = a_preview (err (connection_unavailable id))
unavailable id (reply account i confirmed) = one_order (err (connection_unavailable id))
unavailable id (read_attempt account i) = an_attempt (err (connection_unavailable id))
unavailable id (quote conid) = a_quote (err (connection_unavailable id))

module _ {P Q : Type 0} where
  -- A call of the service through a connection.
  unfoldable pub serve : ℤ → ServiceCall → Service P Q → Reply Q × Service P Q
  unfolding with_provider with_workflow
  serve id (place r) s = answers one_order (place_order id r s)
  serve id (get account order) s = answers one_order (get_order id account order s)
  serve id (list q) s = answers some_orders (list_orders id q s)
  serve id (cancel account order) s = answers canceled (cancel_order id account order s)
  serve id accounts s = answers some_accounts (trading_accounts id s)
  serve id (search_instruments query) s =
      answers some_instruments (search_order_instruments id query s)
  serve id (instrument conid) s = answers one_instrument (order_instrument id conid s)
  serve id (preview r) s = answers a_preview (preview_order id r s)
  serve id (reply account i confirmed) s = answers one_order (reply_order id account i confirmed s)
  serve id (read_attempt account i) s = answers an_attempt (order_attempt id account i s)
  serve id (quote conid) s = answers a_quote (order_quote id conid s)

  -- The calls of a sequence, each through its connection: what each answers, and the service left.
  unfoldable pub serve_all : List (ℤ × ServiceCall) → Service P Q → List (ℤ × Reply Q) × Service P Q
  unfolding serve
  serve_all [] s = ([], s)
  serve_all ((id, c) ∷ cs) s =
      let (r, t) = serve id c s in let (rs, u) = serve_all cs t in ((id, r) ∷ rs, u)

  -- The same calls of one provider that nobody else calls.
  abbrev pub workflow_reply :
      {A : Type 0}
      → (Result TradingError A → Reply Q)
      → (OrderWorkflowProvider P → P → Answer A P)
      → Entry P Q
      → Reply Q × P
  workflow_reply wrap f (p, x) = elim p.workflow [
    | none ↦ (wrap (err no_interactive_orders), x)
    | some w ↦ answers wrap (f w x)
  ]

  abbrev pub direct : ServiceCall → Entry P Q → Reply Q × P
  direct (place r) (p, x) = answers one_order (p.place_order r x)
  direct (get account order) (p, x) = answers one_order (p.get_order account order x)
  direct (list q) (p, x) = answers some_orders (p.list_orders q x)
  direct (cancel account order) (p, x) = answers canceled (p.cancel_order account order x)
  direct accounts e = workflow_reply some_accounts (λ w y. w.trading_accounts y) e
  direct (search_instruments query) e =
      workflow_reply some_instruments (λ w y. w.search_order_instruments query y) e
  direct (instrument conid) e = workflow_reply one_instrument (λ w y. w.order_instrument conid y) e
  direct (preview r) e = workflow_reply a_preview (λ w y. w.preview_order r y) e
  direct (reply account i confirmed) e =
      workflow_reply one_order (λ w y. w.reply_order account i confirmed y) e
  direct (read_attempt account i) e =
      workflow_reply an_attempt (λ w y. w.order_attempt account i y) e
  direct (quote conid) (p, x) = elim p.order_quote [
    | none ↦ (a_quote (err no_order_quotes), x)
    | some q ↦ answers a_quote (q conid x)
  ]

  abbrev pub direct_at : ℤ → ServiceCall → Option (Entry P Q) → Reply Q × Option (Entry P Q)
  direct_at id c none = (unavailable id c, none)
  direct_at id c (some e) = let (r, y) = direct c e in (r, some (e.0, y))

  unfoldable pub alone :
      ℤ → List ServiceCall → Option (Entry P Q) → List (Reply Q) × Option (Entry P Q)
  alone id [] o = ([], o)
  alone id (c ∷ cs) o =
      let (r, o') = direct_at id c o in let (rs, last) = alone id cs o' in (r ∷ rs, last)

-- The calls of a sequence that go through one connection, and the answers to them.
unfoldable pub calls_to : ℤ → List (ℤ × ServiceCall) → List ServiceCall
calls_to k [] = []
calls_to k ((id, c) ∷ cs) = let rest = calls_to k cs in if eq_ℤ id k then c ∷ rest else rest

unfoldable pub replies_to : {Q : Type 0} → ℤ → List (ℤ × Reply Q) → List (Reply Q)
replies_to k [] = []
replies_to k ((id, r) ∷ rs) = let rest = replies_to k rs in if eq_ℤ id k then r ∷ rest else rest
