-- ===== src/Orders/Session.antt =====
-- internal/broker/order_session.go: the order session of one connection. Each method holds the
-- mutex for the whole of its access, so a run is a sequence of calls. Times are nanoseconds.
pub mod Laws
pub mod Answers
use traio.Prelude.{
  ℕ, ◌+◌, ◌*◌, String, Bool, true, false, not, ◌&&◌, ◌||◌, Option, none, some, List, [], ◌∷◌, ◌++◌,
  Result, ok, err, ltb, leb, ◌==◌, str_eq, is_empty, all, length, if◌then◌else◌, guard,
}
use traio.Text.{Text, text_eq, is_digit}
use traio.Orders.{OrderRequest, Order, no_order, OrderError, Float64, float_eq, eq_bool}

pub record OrderAttemptState : Type 0 where
  pub request : OrderRequest
  pub order : Order
  pub error : String
  pub code : String

pub record Preview : Type 0 where
  pub request : OrderRequest
  pub at : ℕ

-- A Go map with string keys.
abbrev pub lookup {ℓ} : {A : Type ℓ} → Text → List (Text × A) → Option A
lookup k [] = none
lookup k ((j, a) ∷ m) = if text_eq j k then some a else lookup k m

abbrev pub insert {ℓ} : {A : Type ℓ} → Text → A → List (Text × A) → List (Text × A)
insert k a [] = (k, a) ∷ []
insert k a ((j, b) ∷ m) = if text_eq j k then (j, a) ∷ m else (j, b) ∷ insert k a m

abbrev pub delete {ℓ} : {A : Type ℓ} → Text → List (Text × A) → List (Text × A)
delete k [] = []
delete k ((j, b) ∷ m) = if text_eq j k then delete k m else (j, b) ∷ delete k m

pub record OrderSessionState : Type 0 where
  pub attempts : List (Text × OrderAttemptState)
  pub previews : List (Text × Preview)

-- `^[A-Za-z0-9_-]{1,64}$`
abbrev pub is_client_char : ℕ → Bool
is_client_char c =
    is_digit c || (leb b'A' c && leb c b'Z') || (leb b'a' c && leb c b'z') || c == b'_' || c == b'-'

abbrev pub refused : String → String → OrderError
refused code message = record { code = code; message = message }

pub validate_client_order_id : Text → Result OrderError (Unit {0})
validate_client_order_id value =
    guard (all is_client_char value && leb 1 (length value) && leb (length value) 64) (
      refused "invalid_order"
        "client_order_id must use 1–64 letters, numbers, hyphens or underscores")

-- `==` on requests, field by field.
unfoldable pub same_request : OrderRequest → OrderRequest → Bool
same_request a b =
    text_eq a.account_id b.account_id
    && text_eq a.symbol b.symbol
    && text_eq a.instrument_id b.instrument_id
    && str_eq a.asset_class b.asset_class
    && str_eq a.side b.side
    && str_eq a.position_effect b.position_effect
    && str_eq a.order_type b.order_type
    && float_eq a.quantity b.quantity
    && float_eq a.notional b.notional
    && float_eq a.limit_price b.limit_price
    && float_eq a.stop_price b.stop_price
    && float_eq a.trail_price b.trail_price
    && float_eq a.trail_percent b.trail_percent
    && text_eq a.time_in_force b.time_in_force
    && eq_bool a.extended_hours b.extended_hours
    && text_eq a.client_order_id b.client_order_id
    && str_eq a.currency b.currency

abbrev pub ten_minutes : ℕ
ten_minutes = 10 * 60 * 1000000000

-- The last test of `Begin`: a preview of the same request, at most ten minutes old.
unfoldable pub is_previewed : ℕ → OrderRequest → Option Preview → Bool
is_previewed now req none = false
is_previewed now req (some p) = same_request p.request req && not (ltb (p.at + ten_minutes) now)

abbrev pub in_progress : OrderRequest → OrderAttemptState
in_progress req = record {
  request = req;
  order = no_order;
  error = "submission is in progress; check broker status before trying again";
  code = "order_outcome_unknown";
}

-- The answer to a request whose client id has an attempt.
unfoldable pub repeated :
    OrderRequest → OrderAttemptState → Result OrderError (Option OrderAttemptState)
repeated req old =
    if same_request old.request req
    then ok (some old)
    else err (refused "duplicate_order" "client_order_id belongs to another order")

pub begin_new :
    ℕ
    → OrderRequest
    → OrderSessionState
    → Result OrderError (Option OrderAttemptState) × OrderSessionState
unfolding is_previewed
begin_new now req s =
    if is_previewed now req (lookup req.client_order_id s.previews)
    then (
      ok none,
      record s {
        attempts = insert req.client_order_id (in_progress req) s.attempts;
        previews = delete req.client_order_id s.previews;
      },
    )
    else (
      err (
          refused "invalid_order"
            "order preview expired or changed; preview again before submitting"),
      s,
    )

pub begin_known :
    ℕ
    → OrderRequest
    → Option OrderAttemptState
    → OrderSessionState
    → Result OrderError (Option OrderAttemptState) × OrderSessionState
unfolding repeated begin_new
begin_known now req (some old) s = (repeated req old, s)
begin_known now req none s = begin_new now req s

-- `Begin`: `ok none` lets the caller send the order, `ok (some old)` is the stored attempt of a
-- repeated request.
pub begin :
    ℕ
    → OrderRequest
    → OrderSessionState
    → Result OrderError (Option OrderAttemptState) × OrderSessionState
unfolding begin_known
begin now req s =
    if is_empty req.client_order_id
    then (err (refused "invalid_order" "client_order_id is required"), s)
    else begin_known now req (lookup req.client_order_id s.attempts) s

pub remember_preview : ℕ → OrderRequest → OrderSessionState → OrderSessionState
remember_preview now req s = if is_empty req.client_order_id then s else record s {
  previews = insert req.client_order_id (record { request = req; at = now }) s.previews;
}

-- The error that a provider returns: an `*OrderError` or any other.
pub data Failure : Type 0 where
  classified : OrderError → Failure
  other : String → Failure

pub outcome : OrderRequest → Order → Option Failure → OrderAttemptState
outcome req order none = record { request = req; order = order; error = ""; code = "" }
outcome req order (some (classified e)) = record {
  request = req;
  order = order;
  error = e.message;
  code = e.code;
}
outcome req order (some (other m)) = record {
  request = req;
  order = order;
  error = m;
  code = "order_outcome_unknown";
}

pub finish : OrderRequest → Order → Option Failure → OrderSessionState → OrderSessionState
unfolding outcome
finish req order e s = record s {
  attempts = insert req.client_order_id (outcome req order e) s.attempts;
}

pub checked_attempt : Text → Option OrderAttemptState → Result String OrderAttemptState
checked_attempt account none =
    err "order attempt not found; reconcile with broker before resubmitting"
checked_attempt account (some state) =
    if text_eq state.request.account_id account
    then ok state
    else err "order attempt not found; reconcile with broker before resubmitting"

pub attempt : Text → Text → OrderSessionState → Result String OrderAttemptState
unfolding checked_attempt
attempt account client_id s = checked_attempt account (lookup client_id s.attempts)

-- A call of one of the methods that change attempts or previews.
pub data Call : Type 0 where
  preview_call : ℕ → OrderRequest → Call
  begin_call : ℕ → OrderRequest → Call
  finish_call : OrderRequest → Order → Option Failure → Call

-- What a begin sends: the client id of an order that it lets through.
pub sent : Text → Result OrderError (Option OrderAttemptState) → List Text
sent id (ok none) = id ∷ []
sent id _ = []

pub call : Call → OrderSessionState → List Text × OrderSessionState
unfolding begin remember_preview finish sent
call (preview_call now req) s = ([], remember_preview now req s)
call (begin_call now req) s = (sent req.client_order_id (begin now req s).0, (begin now req s).1)
call (finish_call req order e) s = ([], finish req order e s)

-- The client ids that a sequence of calls lets through, in order.
unfoldable pub submissions : List Call → OrderSessionState → List Text
unfolding call
submissions [] s = []
submissions (c ∷ cs) s = (call c s).0 ++ submissions cs (call c s).1
