-- ===== src/Orders/Session/Answers.antt =====
-- What is read back of an attempt, once the provider's answer is recorded.
use traio.Prelude.{
  ℕ, ◌≡◌, refl, ◌∙◌, String, false, Option, none, some, List, [], ◌∷◌, ok, err, arith, All,
  if◌then◌else◌, Bool-cases, Option-cases, inl, inr, is_empty,
}
use traio.Text.{Text, text_eq, text_eq_iff}
use traio.Orders.{OrderRequest, Order}
use traio.Orders.Session.{
  OrderAttemptState, lookup, insert, OrderSessionState, same_request, is_previewed, in_progress,
  refused, repeated, begin_new, begin_known, begin, remember_preview, Failure, classified, other,
  outcome, finish, checked_attempt, attempt, Call, preview_call, begin_call, finish_call, call,
}
use traio.Orders.Session.Laws.{lookup-insert, inserted}

-- The message and the code of a provider's answer.
abbrev pub message_of : Option Failure → String
message_of none = ""
message_of (some (classified e)) = e.message
message_of (some (other m)) = m

abbrev pub code_of : Option Failure → String
code_of none = ""
code_of (some (classified e)) = e.code
code_of (some (other m)) = "order_outcome_unknown"

abbrev pub stored : OrderRequest → Order → Option Failure → OrderAttemptState
stored req order e = record { request = req; order = order; error = message_of e; code = code_of e }

outcome-stored :
    (req : OrderRequest) (order : Order) (e : Option Failure)
    → outcome req order e ≡ stored req order e
unfolding outcome
outcome-stored req order none = refl
outcome-stored req order (some (classified e)) = refl
outcome-stored req order (some (other m)) = refl

-- The session after a sequence of calls.
unfoldable pub after_calls : List Call → OrderSessionState → OrderSessionState
after_calls [] s = s
after_calls (c ∷ cs) s = after_calls cs (call c s).1

-- The call records no answer under this client id.
abbrev pub FinishesOther : Text → Call → Type 0
FinishesOther id (finish_call req order e) = text_eq req.client_order_id id ≡ false
FinishesOther id (begin_call now req) = Unit
FinishesOther id (preview_call now req) = Unit

insert-other :
    (k j : Text) (a b : OrderAttemptState) (m : List (Text × OrderAttemptState))
    → text_eq j k ≡ false
    → lookup k m ≡ some a
    → lookup k (insert j b m) ≡ some a
insert-other k j a b m n h = ground (arith, lookup-insert k j b m, n, h)

begin-keeps :
    (k : Text) (a : OrderAttemptState) (now : ℕ) (req : OrderRequest) (s : OrderSessionState)
    → lookup k s.attempts ≡ some a
    → lookup k (begin now req s).1.attempts ≡ some a
unfolding begin begin_known begin_new repeated
begin-keeps k a now req s h = elim (Bool-cases (is_empty req.client_order_id)) [
  | inl e ↦ rw e h
  | inr e ↦ elim (Option-cases (lookup req.client_order_id s.attempts)) [
    | inr (b, f) ↦ rw (e, f) h
    | inl f ↦ elim (Bool-cases (is_previewed now req (lookup req.client_order_id s.previews))) [
      | inl g ↦
          rw (e, f, g)
            (insert-other k req.client_order_id a (in_progress req) s.attempts
              (ground (arith, text_eq_iff req.client_order_id k, f, h)) h)
      | inr g ↦ rw (e, f, g) h
    ]
  ]
]

call-keeps :
    (k : Text) (a : OrderAttemptState) (c : Call) (s : OrderSessionState)
    → FinishesOther k c
    → lookup k s.attempts ≡ some a
    → lookup k (call c s).1.attempts ≡ some a
unfolding call remember_preview finish
call-keeps k a (preview_call now req) s n h = elim (Bool-cases (is_empty req.client_order_id)) [
  | inl e ↦ rw e h
  | inr e ↦ rw e h
]
call-keeps k a (begin_call now req) s n h = begin-keeps k a now req s h
call-keeps k a (finish_call req order e) s n h =
    insert-other k req.client_order_id a (outcome req order e) s.attempts n h

after_calls-keeps :
    (k : Text) (a : OrderAttemptState) (cs : List Call) (s : OrderSessionState)
    → All (FinishesOther k) cs
    → lookup k s.attempts ≡ some a
    → lookup k (after_calls cs s).attempts ≡ some a
unfolding after_calls
after_calls-keeps k a [] s n h = h
after_calls-keeps k a (c ∷ cs) s n h =
    after_calls-keeps k a cs (call c s).1 n.1 (call-keeps k a c s n.0 h)

finished :
    (req : OrderRequest) (order : Order) (e : Option Failure) (s : OrderSessionState)
    → lookup req.client_order_id (finish req order e s).attempts ≡ some (stored req order e)
unfolding finish
finished req order e s =
    inserted req.client_order_id (outcome req order e) s.attempts
    ∙ rw (outcome-stored req order e) refl

-- Once the provider's answer to a request is recorded, and whatever calls follow that record no answer
-- under its client id, the attempt read back has the request, the answer's order, and its message and
-- code (none for a success, the error's own where it is classified, the unknown outcome otherwise),
-- under the request's own account only; the same request sent again gets this attempt and is not
-- sent, and a different one with this client id is refused as a duplicate.
pub attempt-finish :
    (req again : OrderRequest) (order : Order) (e : Option Failure) (cs : List Call)
    (account : Text) (now : ℕ) (s : OrderSessionState)
    → is_empty req.client_order_id ≡ false
    → again.client_order_id ≡ req.client_order_id
    → All (FinishesOther req.client_order_id) cs
    → (attempt account req.client_order_id (after_calls cs (finish req order e s)) ≡ (
        if text_eq req.account_id account
        then ok (stored req order e)
        else err "order attempt not found; reconcile with broker before resubmitting"))
      × ((begin now again (after_calls cs (finish req order e s))).0 ≡ (
          if same_request req again
          then ok (some (stored req order e))
          else err (refused "duplicate_order" "client_order_id belongs to another order")))
unfolding attempt checked_attempt begin begin_known repeated
attempt-finish req again order e cs account now s h k n =
    let found =
      after_calls-keeps req.client_order_id (stored req order e) cs (finish req order e s) n
        (finished req order e s) in
    (rw found refl, rw (k, h, found) refl)
