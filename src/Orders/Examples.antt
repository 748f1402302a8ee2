-- ===== src/Orders/Examples.antt =====
-- Orders and an order session at concrete inputs.
use traio.Prelude.{
  ℕ, ◌+◌, ◌≡◌, ◌↔◌, refl, false, List, [], ◌∷◌, none, some, ok, err, if◌then◌else◌, is_empty,
}
use traio.Prelude.Int.{ℤ, pos}
use traio.Text.Trim.{trim_space}
use traio.Text.{codes, text_eq}
use traio.Orders.{OrderRequest, fin, no_order, validate_order}
use traio.Orders.Trading.{TradingProvider, no_order_quotes, Service}
use traio.Orders.Trading.Alone.{ServiceCall, place, cancel, accounts, quote}
use traio.Orders.Valid.{IsValidOrder, validate_order_iff}
use traio.Orders.Session.{
  OrderSessionState, same_request, begin, remember_preview, finish, attempt, refused, other, Call,
  preview_call, begin_call, finish_call, submissions, lookup, is_previewed, repeated,
}
use traio.Orders.Session.Laws.{HasNoRepeats, IsFresh, begin_sends, submissions-HasNoRepeats}
use traio.Orders.Session.Answers.{stored, after_calls, attempt-finish}

abbrev buy_ten : OrderRequest
buy_ten = record {
  account_id = codes "U1";
  symbol = codes "AAPL";
  instrument_id = codes "265598";
  asset_class = "equity";
  side = "buy";
  position_effect = "";
  order_type = "limit";
  quantity = fin (pos 10);
  notional = fin (pos 0);
  limit_price = fin (pos 150);
  stop_price = fin (pos 0);
  trail_price = fin (pos 0);
  trail_percent = fin (pos 0);
  time_in_force = codes "day";
  extended_hours = false;
  client_order_id = codes "c-1";
  currency = "USD";
}

abbrev buy_eleven : OrderRequest
buy_eleven = record buy_ten { quantity = fin (pos 11) }

abbrev no_session : OrderSessionState
no_session = record { attempts = []; previews = [] }

abbrev previewed : OrderSessionState
previewed = remember_preview 50 buy_ten no_session

-- A preview, two submissions of it, the answer and a third submission.
abbrev calls : List Call
calls =
    preview_call 50 buy_ten
    ∷ begin_call 60 buy_ten
    ∷ begin_call 61 buy_ten
    ∷ finish_call buy_ten no_order none
    ∷ begin_call 70 buy_ten
    ∷ []

sends_once : submissions calls no_session ≡ codes "c-1" ∷ []
unfolding submissions same_request is_previewed repeated
sends_once = refl

submissions-HasNoRepeats_example : HasNoRepeats (submissions calls no_session)
submissions-HasNoRepeats_example = submissions-HasNoRepeats calls no_session

begin_sends_example : ((begin 60 buy_ten previewed).0 ≡ ok none) ↔ (
    (is_empty buy_ten.client_order_id ≡ false)
    × (lookup buy_ten.client_order_id previewed.attempts ≡ none)
    × IsFresh 60 buy_ten (lookup buy_ten.client_order_id previewed.previews))
begin_sends_example = begin_sends 60 buy_ten previewed

-- A preview and a begin of another order under the same client id come after the answer.
abbrev further_calls : List Call
further_calls = preview_call 80 buy_eleven ∷ begin_call 85 buy_eleven ∷ []

attempt-finish_example :
    (attempt
        (codes "U1")
        buy_ten.client_order_id
        (after_calls further_calls (finish buy_ten no_order (some (other "timeout")) previewed))
      ≡ (if text_eq buy_ten.account_id (codes "U1")
          then ok (stored buy_ten no_order (some (other "timeout")))
          else err "order attempt not found; reconcile with broker before resubmitting"))
    × ((begin 90 buy_eleven (
          after_calls further_calls (finish buy_ten no_order (some (other "timeout")) previewed))).0
        ≡ (if same_request buy_ten buy_eleven
            then ok (some (stored buy_ten no_order (some (other "timeout"))))
            else err (refused "duplicate_order" "client_order_id belongs to another order")))
attempt-finish_example =
    attempt-finish buy_ten buy_eleven no_order (some (other "timeout")) further_calls (codes "U1")
      90 previewed refl refl (tt, (tt, tt))

accepted : validate_order buy_ten ≡ ok tt
unfolding validate_order trim_space
accepted = refl

validate_order_iff_example : (validate_order buy_ten ≡ ok tt) ↔ IsValidOrder buy_ten
validate_order_iff_example = validate_order_iff buy_ten

-- Two connections, whose providers count their calls and answer no order.
abbrev counting : TradingProvider ℕ ℕ
counting = record {
  place_order = λ r n. (ok no_order, n + 1);
  get_order = λ a o n. (err no_order_quotes, n);
  list_orders = λ q n. (ok [], n);
  cancel_order = λ a o n. (ok tt, n);
  workflow = none;
  order_quote = none;
}

abbrev two_connections : Service ℕ ℕ
two_connections = (pos 1, (counting, 0)) ∷ (pos 2, (counting, 5)) ∷ []

-- Through both, and through a connection that has no provider.
abbrev mixed_calls : List (ℤ × ServiceCall)
mixed_calls =
    (pos 1, place buy_ten)
    ∷ (pos 2, cancel "U2" "o-1")
    ∷ (pos 3, accounts)
    ∷ (pos 1, quote "265598")
    ∷ []
