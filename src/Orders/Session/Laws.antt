-- ===== src/Orders/Session/Laws.antt =====
-- What an order session lets through.
use traio.Prelude.{
  ℕ, ◌+◌, ◌≤◌, ◌≡◌, refl, ◌↔◌, ◌⊎◌, inl, inr, true, false, Option, none, some, List, [], ◌∷◌, ok,
  arith, All, if◌then◌else◌, Bool-cases, Option-cases, some-eq, is_empty,
}
use traio.Text.{Text, text_eq, text_eq_iff}
use traio.Orders.{OrderRequest}
use traio.Orders.Session.{
  OrderAttemptState, Preview, lookup, insert, OrderSessionState, same_request, ten_minutes,
  is_previewed, in_progress, repeated, begin_new, begin_known, begin, remember_preview, outcome,
  finish, Call, preview_call, begin_call, finish_call, sent, call, submissions,
}

pub lookup-insert {ℓ} :
    {A : Type ℓ} (k j : Text) (a : A) (m : List (Text × A))
    → lookup k (insert j a m) ≡ (if text_eq j k then some a else lookup k m)
lookup-insert k j a [] = refl
lookup-insert k j a ((i, b) ∷ m) =
    ground (arith, text_eq_iff i j, text_eq_iff i k, text_eq_iff j k, lookup-insert k j a m)

-- What the last test of `Begin` asks of the stored preview.
abbrev pub IsFresh : ℕ → OrderRequest → Option Preview → Type 0
IsFresh now req o =
    (p : Preview) × (o ≡ some p) × (same_request p.request req ≡ true) × (now ≤ p.at + ten_minutes)

none-some {ℓ} : {A : Type ℓ} {a : A} → none ≡ some a → ⊥
none-some h = cc

previewed_iff :
    (now : ℕ) (req : OrderRequest) (o : Option Preview)
    → (is_previewed now req o ≡ true) ↔ IsFresh now req o
unfolding is_previewed
previewed_iff now req none = (λ h. cc, λ (p, e, _, _). absurd (none-some e))
previewed_iff now req (some p) = (
  λ h. (p, refl, ground (arith, h), ground (arith, h)),
  λ (q, e, h, l). let k : p ≡ q = some-eq e in rw k (ground (arith, h, l)),
)

-- `Begin` lets an order through exactly when it has a client id with no attempt yet, and the last
-- preview under that id was of the same request, at most ten minutes ago.
pub begin_sends :
    (now : ℕ) (req : OrderRequest) (s : OrderSessionState)
    → ((begin now req s).0 ≡ ok none) ↔ (
        (is_empty req.client_order_id ≡ false)
        × (lookup req.client_order_id s.attempts ≡ none)
        × IsFresh now req (lookup req.client_order_id s.previews))
unfolding begin begin_known begin_new repeated
begin_sends now req s = (
  λ h. elim (Option-cases (lookup req.client_order_id s.attempts)) [
    | inl e ↦ (
      ground (arith, h),
      e,
      (previewed_iff now req (lookup req.client_order_id s.previews)).0 (ground (arith, h, e)),
    )
    | inr (a, e) ↦ absurd (ground (arith, h, e))
  ],
  λ (h, e, f).
      ground (arith, h, e, (previewed_iff now req (lookup req.client_order_id s.previews)).1 f),
)

-- The state after a call keeps an attempt for each id that had one, and has one for each id sent.
abbrev IsTried : Text → OrderSessionState → Type 0
IsTried k s = (a : OrderAttemptState) × (lookup k s.attempts ≡ some a)

insert-IsTried :
    (k j : Text) (a : OrderAttemptState) (m : List (Text × OrderAttemptState))
    → ((b : OrderAttemptState) × (lookup k m ≡ some b))
    → (b : OrderAttemptState) × (lookup k (insert j a m) ≡ some b)
insert-IsTried k j a m (b, h) = elim (Bool-cases (text_eq j k)) [
  | inl e ↦ (a, ground (arith, lookup-insert k j a m))
  | inr e ↦ (b, ground (arith, lookup-insert k j a m))
]

call-IsTried : (k : Text) (c : Call) (s : OrderSessionState) → IsTried k s → IsTried k (call c s).1
unfolding call begin begin_known begin_new repeated remember_preview finish
call-IsTried k (preview_call now req) s t = elim (Bool-cases (is_empty req.client_order_id)) [
  | inl e ↦ rw e t
  | inr e ↦ rw e t
]
call-IsTried k (begin_call now req) s t = elim (Bool-cases (is_empty req.client_order_id)) [
  | inl e ↦ rw e t
  | inr e ↦ elim (Option-cases (lookup req.client_order_id s.attempts)) [
    | inr (a, f) ↦ rw (e, f) t
    | inl f ↦ elim (Bool-cases (is_previewed now req (lookup req.client_order_id s.previews))) [
      | inl g ↦ rw (e, f, g) (insert-IsTried k req.client_order_id (in_progress req) s.attempts t)
      | inr g ↦ rw (e, f, g) t
    ]
  ]
]
call-IsTried k (finish_call req order e) s t =
    insert-IsTried k req.client_order_id (outcome req order e) s.attempts t

-- A call sends nothing, or one id that had no attempt before it and has one after it.
abbrev IsFirst : List Text → OrderSessionState → OrderSessionState → Type 0
IsFirst ids s t =
    (ids ≡ []) ⊎ ((id : Text) × (ids ≡ id ∷ []) × (lookup id s.attempts ≡ none) × IsTried id t)

text_eq_refl : (k : Text) → text_eq k k ≡ true
text_eq_refl k = (text_eq_iff k k).1 refl

pub inserted :
    (k : Text) (a : OrderAttemptState) (m : List (Text × OrderAttemptState))
    → lookup k (insert k a m) ≡ some a
inserted k a m = ground (arith, lookup-insert k k a m, text_eq_refl k)

call-IsFirst : (c : Call) (s : OrderSessionState) → IsFirst (call c s).0 s (call c s).1
unfolding call begin begin_known begin_new repeated sent
call-IsFirst (preview_call now req) s = inl refl
call-IsFirst (finish_call req order e) s = inl refl
call-IsFirst (begin_call now req) s = elim (Bool-cases (is_empty req.client_order_id)) [
  | inl e ↦ rw e (inl refl)
  | inr e ↦ elim (Option-cases (lookup req.client_order_id s.attempts)) [
    | inr (a, f) ↦ elim (Bool-cases (same_request a.request req)) [
      | inl g ↦ rw (e, f, g) (inl refl)
      | inr g ↦ rw (e, f, g) (inl refl)
    ]
    | inl f ↦ elim (Bool-cases (is_previewed now req (lookup req.client_order_id s.previews))) [
      | inl g ↦
          rw (e, f, g)
            (inr (
              req.client_order_id,
              refl,
              f,
              (in_progress req, inserted req.client_order_id (in_progress req) s.attempts),
            ))
      | inr g ↦ rw (e, f, g) (inl refl)
    ]
  ]
]

-- None of the ids is the given one.
abbrev pub Avoids : Text → List Text → Type 0
Avoids k ids = All (λ j. text_eq j k ≡ false) ids

abbrev pub HasNoRepeats : List Text → Type 0
HasNoRepeats [] = Unit
HasNoRepeats (k ∷ ids) = Avoids k ids × HasNoRepeats ids

other_id :
    (j k : Text) (s : OrderSessionState)
    → IsTried k s
    → lookup j s.attempts ≡ none
    → text_eq j k ≡ false
other_id j k s (a, t) h = ground (arith, text_eq_iff j k, t, h)

tried_avoided :
    (k : Text) (cs : List Call) (s : OrderSessionState) → IsTried k s → Avoids k (submissions cs s)
unfolding submissions
tried_avoided k [] s t = tt
tried_avoided k (c ∷ cs) s t =
    let rest = tried_avoided k cs (call c s).1 (call-IsTried k c s t) in
    elim (call-IsFirst c s) [
      | inl e ↦ rw e rest
      | inr (id, e, n, _) ↦ rw e (other_id id k s t n, rest)
    ]

-- Whatever calls of its methods a session sees, in whatever order and at whatever times, it lets at
-- most one submission through for each client id: no id occurs twice among those it sends.
pub submissions-HasNoRepeats :
    (cs : List Call) (s : OrderSessionState) → HasNoRepeats (submissions cs s)
unfolding submissions
submissions-HasNoRepeats [] s = tt
submissions-HasNoRepeats (c ∷ cs) s =
    let rest = submissions-HasNoRepeats cs (call c s).1 in
    elim (call-IsFirst c s) [
      | inl e ↦ rw e rest
      | inr (id, e, _, t) ↦ rw e (tried_avoided id cs (call c s).1 t, rest)
    ]
