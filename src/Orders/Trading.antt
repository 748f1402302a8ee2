-- ===== src/Orders/Trading.antt =====
-- TradingService of internal/broker/trading.go, order_workflow.go and order_quote.go: the entry point
-- of every order call, which picks the provider by its connection. A provider is a parameter: a state
-- and its operations, each of which answers and leaves a state. The service's lock is held for the
-- whole of a call, so calls follow one another.
pub mod Laws
pub mod Alone
use traio.Prelude.{String, Bool, List, [], ◌∷◌, Option, none, some, Result, ok, err, if◌then◌else◌}
use traio.Prelude.Int.{ℤ}
use traio.Activity.Types.{eq_ℤ}
use traio.Orders.{OrderRequest, Order, Instrument}
use traio.Orders.Session.{OrderAttemptState}

pub data TradingError : Type 0 where
  connection_unavailable : ℤ → TradingError
  no_interactive_orders : TradingError
  no_order_quotes : TradingError
  provider_error : String → TradingError

-- What a call leaves: its answer and the provider's state.
abbrev pub Answer : Type 0 → Type 0 → Type 0
Answer A P = Result TradingError A × P

pub record OrderQuery : Type 0 where
  pub fresh : Bool
  pub account_id : String
  pub status : String
  pub limit : ℤ

pub record OrderImpact : Type 0 where
  pub current : String
  pub change : String
  pub after : String

pub record OrderPreview : Type 0 where
  pub amount : String
  pub commission : String
  pub total : String
  pub equity : OrderImpact
  pub initial_margin : OrderImpact
  pub maintenance_margin : OrderImpact
  pub position : OrderImpact
  pub warnings : List String

pub record TradingAccount : Type 0 where
  pub id : String
  pub name : String
  pub is_paper : Option Bool
  pub supports_fractions : Bool
  pub allow_customer_time : Bool

-- The optional interface OrderWorkflowProvider.
pub record OrderWorkflowProvider (P : Type 0) : Type 0 where
  pub order_attempt : String → String → P → Answer OrderAttemptState P
  pub trading_accounts : P → Answer (List TradingAccount) P
  pub search_order_instruments : String → P → Answer (List Instrument) P
  pub order_instrument : String → P → Answer Instrument P
  pub preview_order : OrderRequest → P → Answer OrderPreview P
  pub reply_order : String → String → Bool → P → Answer Order P

-- TradingProvider, with the optional interfaces that it may implement. `Q` is the type of a quote.
pub record TradingProvider (P Q : Type 0) : Type 0 where
  pub place_order : OrderRequest → P → Answer Order P
  pub get_order : String → String → P → Answer Order P
  pub list_orders : OrderQuery → P → Answer (List Order) P
  pub cancel_order : String → String → P → Answer (Unit {0}) P
  pub workflow : Option (OrderWorkflowProvider P)
  pub order_quote : Option (String → P → Answer Q P)

-- A provider: its operations and its state.
abbrev pub Entry : Type 0 → Type 0 → Type 0
Entry P Q = TradingProvider P Q × P

-- The map from connections to providers.
abbrev pub Service : Type 0 → Type 0 → Type 0
Service P Q = List (ℤ × Entry P Q)

module _ {P Q : Type 0} where
  -- `s.providers[id]`, which is nil where there is none.
  unfoldable pub provider : ℤ → Service P Q → Option (Entry P Q)
  provider id [] = none
  provider id ((j, p) ∷ s) = if eq_ℤ j id then some p else provider id s

  -- The provider's state after its call.
  unfoldable pub set_state : ℤ → P → Service P Q → Service P Q
  set_state id x [] = []
  set_state id x ((j, p) ∷ s) = if eq_ℤ j id then (j, (p.0, x)) ∷ s else (j, p) ∷ set_state id x s

  abbrev pub answered :
      {A : Type 0} → ℤ → Answer A P → Service P Q → Result TradingError A × Service P Q
  answered id a s = (a.0, set_state id a.1 s)

  unfoldable pub on_provider :
      {A : Type 0}
      → ℤ
      → (Entry P Q → Answer A P)
      → Option (Entry P Q)
      → Service P Q
      → Result TradingError A × Service P Q
  unfolding set_state
  on_provider id f none s = (err (connection_unavailable id), s)
  on_provider id f (some p) s = answered id (f p) s

  -- `providerLocked`, and the call of the provider it finds.
  unfoldable pub with_provider :
      {A : Type 0}
      → ℤ
      → (Entry P Q → Answer A P)
      → Service P Q
      → Result TradingError A × Service P Q
  unfolding on_provider provider
  with_provider id f s = on_provider id f (provider id s) s

  abbrev pub if_workflow :
      {A : Type 0} → (OrderWorkflowProvider P → P → Answer A P) → Entry P Q → Answer A P
  if_workflow f (p, x) = elim p.workflow [ none ↦ (err no_interactive_orders, x) | some w ↦ f w x ]

  -- `workflowLocked`, and the call of the provider it finds.
  unfoldable pub with_workflow :
      {A : Type 0}
      → ℤ
      → (OrderWorkflowProvider P → P → Answer A P)
      → Service P Q
      → Result TradingError A × Service P Q
  unfolding with_provider
  with_workflow id f s = with_provider id (if_workflow f) s

  abbrev pub replace : Service P Q → Service P Q → Service P Q
  replace providers s = providers

  abbrev pub place_order : ℤ → OrderRequest → Service P Q → Result TradingError Order × Service P Q
  place_order id r s = with_provider id (λ p. p.0.place_order r p.1) s

  abbrev pub get_order : ℤ → String → String → Service P Q → Result TradingError Order × Service P Q
  get_order id account order s = with_provider id (λ p. p.0.get_order account order p.1) s

  abbrev pub list_orders :
      ℤ → OrderQuery → Service P Q → Result TradingError (List Order) × Service P Q
  list_orders id q s = with_provider id (λ p. p.0.list_orders q p.1) s

  abbrev pub cancel_order :
      ℤ → String → String → Service P Q → Result TradingError (Unit {0}) × Service P Q
  cancel_order id account order s = with_provider id (λ p. p.0.cancel_order account order p.1) s

  abbrev pub trading_accounts :
      ℤ → Service P Q → Result TradingError (List TradingAccount) × Service P Q
  trading_accounts id s = with_workflow id (λ w x. w.trading_accounts x) s

  abbrev pub search_order_instruments :
      ℤ → String → Service P Q → Result TradingError (List Instrument) × Service P Q
  search_order_instruments id query s =
      with_workflow id (λ w x. w.search_order_instruments query x) s

  abbrev pub order_instrument :
      ℤ → String → Service P Q → Result TradingError Instrument × Service P Q
  order_instrument id conid s = with_workflow id (λ w x. w.order_instrument conid x) s

  abbrev pub preview_order :
      ℤ → OrderRequest → Service P Q → Result TradingError OrderPreview × Service P Q
  preview_order id r s = with_workflow id (λ w x. w.preview_order r x) s

  abbrev pub reply_order :
      ℤ → String → String → Bool → Service P Q → Result TradingError Order × Service P Q
  reply_order id account reply confirmed s =
      with_workflow id (λ w x. w.reply_order account reply confirmed x) s

  abbrev pub order_attempt :
      ℤ → String → String → Service P Q → Result TradingError OrderAttemptState × Service P Q
  order_attempt id account client_id s =
      with_workflow id (λ w x. w.order_attempt account client_id x) s

  abbrev pub if_quotes : String → Entry P Q → Answer Q P
  if_quotes conid (p, x) = elim p.order_quote [
    | none ↦ (err no_order_quotes, x)
    | some q ↦ q conid x
  ]

  abbrev pub order_quote : ℤ → String → Service P Q → Result TradingError Q × Service P Q
  order_quote id conid s = with_provider id (if_quotes conid) s
