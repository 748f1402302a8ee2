-- ===== src/Orders/Trading/Laws.antt =====
-- What a call through one connection does to the providers.
use traio.Prelude.{
  ◌≡◌, refl, sym, ◌∙◌, Bool, true, false, [], ◌∷◌, Option, none, some, Result, err, arith,
  if◌then◌else◌, Bool-cases, inl, inr,
}
use traio.Prelude.Int.{ℤ}
use traio.Activity.Types.{eq_ℤ}
use traio.Orders.Trading.{
  TradingError, connection_unavailable, Answer, Entry, Service, provider, set_state, on_provider,
  with_provider,
}

-- A provider after its state is set.
abbrev at_state : {P Q : Type 0} → Bool → P → Option (Entry P Q) → Option (Entry P Q)
at_state touched x none = none
at_state touched x (some p) = if touched then some (p.0, x) else some p

same_id : (a b c : ℤ) → eq_ℤ a b ≡ true → eq_ℤ b c ≡ eq_ℤ a c
same_id a b c h = ground (arith, h)

same_key : (a b c : ℤ) → eq_ℤ a b ≡ false → eq_ℤ a c ≡ true → eq_ℤ b c ≡ false
same_key a b c h k = ground (arith, h, k)

untouched : {P Q : Type 0} (x : P) (o : Option (Entry P Q)) → o ≡ at_state false x o
untouched x none = refl
untouched x (some p) = refl

provider-set_state :
    {P Q : Type 0} (id k : ℤ) (x : P) (s : Service P Q)
    → provider k (set_state id x s) ≡ at_state (eq_ℤ id k) x (provider k s)
unfolding provider set_state
provider-set_state id k x [] = refl
provider-set_state id k x ((j, p) ∷ s) = elim (Bool-cases (eq_ℤ j id)) [
  | inl e ↦ elim (Bool-cases (eq_ℤ j k)) [
    | inl f ↦ rw (e, f, same_id j id k e, f) refl
    | inr f ↦ rw (e, f, same_id j id k e, f) (untouched x (provider k s))
  ]
  | inr e ↦ elim (Bool-cases (eq_ℤ j k)) [
    | inl f ↦ rw (e, f, same_key j id k e f) refl
    | inr f ↦ rw (e, f) (provider-set_state id k x s)
  ]
]

-- What a call through one connection does to the provider of another or of the same connection.
abbrev pub after_call :
    {P Q A : Type 0} → Bool → (Entry P Q → Answer A P) → Option (Entry P Q) → Option (Entry P Q)
after_call here f none = none
after_call here f (some p) = if here then some (p.0, (f p).1) else some p

abbrev pub answer_of :
    {P Q A : Type 0} → ℤ → (Entry P Q → Answer A P) → Option (Entry P Q) → Result TradingError A
answer_of id f none = err (connection_unavailable id)
answer_of id f (some p) = (f p).0

provider-same :
    {P Q : Type 0} (id k : ℤ) (s : Service P Q) → eq_ℤ id k ≡ true → provider k s ≡ provider id s
unfolding provider
provider-same id k [] h = refl
provider-same id k ((j, p) ∷ s) h = rw (same_right j id k h, provider-same id k s h) refl
  where
    same_right : (a b c : ℤ) → eq_ℤ b c ≡ true → eq_ℤ a c ≡ eq_ℤ a b
    same_right a b c h = ground (arith, h)

on_provider-isolated :
    {P Q A : Type 0} (id k : ℤ) (f : Entry P Q → Answer A P) (s : Service P Q)
    (o : Option (Entry P Q))
    → provider id s ≡ o
    → ((on_provider id f o s).0 ≡ answer_of id f o)
      × (provider k (on_provider id f o s).1
          ≡ (if eq_ℤ id k then after_call true f o else provider k s))
unfolding on_provider
on_provider-isolated id k f s none e = (
  refl,
  elim (Bool-cases (eq_ℤ id k)) [ inl h ↦ rw h (provider-same id k s h ∙ e) | inr h ↦ rw h refl ],
)
on_provider-isolated id k f s (some p) e = (
  refl,
  elim (Bool-cases (eq_ℤ id k)) [
    | inl h ↦ provider-set_state id k (f p).1 s ∙ rw (h, provider-same id k s h, e) refl
    | inr h ↦ provider-set_state id k (f p).1 s ∙ rw h (sym (untouched (f p).1 (provider k s)))
  ],
)

-- A call through a connection gets the answer of its own provider, or the error that the connection is
-- unavailable where it has none; only this provider's state is changed by it: the provider of every
-- other connection is as it was.
pub with_provider-isolated :
    {P Q A : Type 0} (id k : ℤ) (f : Entry P Q → Answer A P) (s : Service P Q)
    → ((with_provider id f s).0 ≡ answer_of id f (provider id s))
      × (provider k (with_provider id f s).1
          ≡ (if eq_ℤ id k then after_call true f (provider id s) else provider k s))
unfolding with_provider
with_provider-isolated id k f s = on_provider-isolated id k f s (provider id s) refl
