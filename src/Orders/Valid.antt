-- ===== src/Orders/Valid.antt =====
-- Which orders `ValidateOrder` accepts.
use traio.Prelude.{
  ℕ, ◌≡◌, refl, ◌↔◌, ◌⊎◌, inl, inr, Bool, true, false, not, ◌&&◌, ◌||◌, List, [], ◌∷◌, ok, err,
  guard, ◌>>◌, All, any, arith, str_eq, eq_iff, Bool-cases, Result,
}
use traio.Prelude.Int.{pos, negsuc}
use traio.Orders.{
  Float64, nan, pos_inf, neg_inf, fin, is_positive, is_bad_amount, OrderRequest, amounts, is_blank,
  eq_bool, check_prices, validate_order,
}

-- A finite number that is not negative.
abbrev pub IsAmount : Float64 → Type 0
IsAmount v = (n : ℕ) × (v ≡ fin (pos n))

abbrev pub IsPositive : Float64 → Type 0
IsPositive v = is_positive v ≡ true

abbrev pub ExactlyOne : Float64 → Float64 → Type 0
ExactlyOne v w = (IsPositive v × (is_positive w ≡ false)) ⊎ ((is_positive v ≡ false) × IsPositive w)

-- The prices that an order type wants.
abbrev pub HasPrices : OrderRequest → Type 0
HasPrices r =
    (r.order_type ≡ "market")
    ⊎ ((r.order_type ≡ "limit") × IsPositive r.limit_price)
    ⊎ ((r.order_type ≡ "stop") × IsPositive r.stop_price)
    ⊎ ((r.order_type ≡ "stop_limit") × IsPositive r.stop_price × IsPositive r.limit_price)
    ⊎ ((r.order_type ≡ "trailing_stop") × ExactlyOne r.trail_price r.trail_percent)

pub record IsValidOrder (r : OrderRequest) : Type 0 where
  finite : All IsAmount (amounts r)
  account : is_blank r.account_id ≡ false
  instrument : (is_blank r.symbol ≡ false) ⊎ (is_blank r.instrument_id ≡ false)
  side : (r.side ≡ "buy") ⊎ (r.side ≡ "sell")
  size : ExactlyOne r.quantity r.notional
  prices : HasPrices r
  duration : is_blank r.time_in_force ≡ false

is_bad_amount-IsAmount : (v : Float64) → (is_bad_amount v ≡ false) ↔ IsAmount v
is_bad_amount-IsAmount nan = (λ h. cc, λ h. cc)
is_bad_amount-IsAmount pos_inf = (λ h. cc, λ h. cc)
is_bad_amount-IsAmount neg_inf = (λ h. cc, λ h. cc)
is_bad_amount-IsAmount (fin (pos n)) = (λ h. (n, refl), λ h. refl)
is_bad_amount-IsAmount (fin (negsuc n)) = (λ h. ground (arith, h), λ h. cc)

amounts_iff : (vs : List Float64) → (any is_bad_amount vs ≡ false) ↔ All IsAmount vs
amounts_iff [] = (λ h. tt, λ h. refl)
amounts_iff (v ∷ vs) = (
  λ h. ((is_bad_amount-IsAmount v).0 (ground (arith, h)), (amounts_iff vs).0 (ground (arith, h))),
  λ h. rw ((is_bad_amount-IsAmount v).1 h.0) ((amounts_iff vs).1 h.1),
)

one_iff : (v w : Float64) → (eq_bool (is_positive v) (is_positive w) ≡ false) ↔ ExactlyOne v w
one_iff v w = ground arith

guard-ok {ℓ} : {E : Type ℓ} (b : Bool) (e : E) → guard b e ≡ ok tt → b ≡ true
guard-ok true e h = refl
guard-ok false e h = cc

>>-ok {ℓ} : {E : Type ℓ} (m k : Result E (Unit {0})) → (m >> k) ≡ ok tt → (m ≡ ok tt) × (k ≡ ok tt)
>>-ok (ok tt) k h = (refl, h)
>>-ok (err e) k h = cc

check_prices-HasPrices : (r : OrderRequest) → check_prices r ≡ ok tt → HasPrices r
unfolding check_prices
check_prices-HasPrices r h = elim (Bool-cases (str_eq r.order_type "market")) [
  | inl e ↦ inl ((eq_iff r.order_type "market").0 e)
  | inr e ↦ elim (Bool-cases (str_eq r.order_type "limit")) [
    | inl f ↦ inr (inl ((eq_iff r.order_type "limit").0 f, ground (arith, e, f, h)))
    | inr f ↦ elim (Bool-cases (str_eq r.order_type "stop")) [
      | inl g ↦ inr (inr (inl ((eq_iff r.order_type "stop").0 g, ground (arith, e, f, g, h))))
      | inr g ↦ elim (Bool-cases (str_eq r.order_type "stop_limit")) [
        | inl k ↦ inr (
            inr (
              inr (
                inl (
                  (eq_iff r.order_type "stop_limit").0 k,
                  ground (arith, e, f, g, k, h),
                  ground (arith, e, f, g, k, h),
                ))))
        | inr k ↦ elim (Bool-cases (str_eq r.order_type "trailing_stop")) [
          | inl l ↦ inr (
              inr (
                inr (
                  inr (
                    (eq_iff r.order_type "trailing_stop").0 l,
                    (one_iff r.trail_price r.trail_percent).0 (ground (arith, e, f, g, k, l, h)),
                  ))))
          | inr l ↦ absurd (ground (arith, e, f, g, k, l, h))
        ]
      ]
    ]
  ]
]

HasPrices-ok : (r : OrderRequest) → HasPrices r → check_prices r ≡ ok tt
unfolding check_prices
HasPrices-ok r (inl e) = rw e refl
HasPrices-ok r (inr (inl (e, h))) = rw (e, h) refl
HasPrices-ok r (inr (inr (inl (e, h)))) = rw (e, h) refl
HasPrices-ok r (inr (inr (inr (inl (e, h, k))))) = rw (e, h, k) refl
HasPrices-ok r (inr (inr (inr (inr (e, h))))) =
    rw (e, (one_iff r.trail_price r.trail_percent).1 h) refl

not-eq_true : (b : Bool) → not b ≡ true → b ≡ false
not-eq_true b h = ground (arith, h)

named : (a b : Bool) → not (a && b) ≡ true → (a ≡ false) ⊎ (b ≡ false)
named a b h = ground (arith, h)

unnamed : (a b : Bool) → (a ≡ false) ⊎ (b ≡ false) → (a && b) ≡ false
unnamed a b h = ground (arith, h)

sided :
    (r : OrderRequest)
    → (str_eq r.side "buy" || str_eq r.side "sell") ≡ true
    → (r.side ≡ "buy") ⊎ (r.side ≡ "sell")
sided r h = ground (arith, h, eq_iff r.side "buy", eq_iff r.side "sell")

is_side :
    (r : OrderRequest)
    → (r.side ≡ "buy") ⊎ (r.side ≡ "sell")
    → (str_eq r.side "buy" || str_eq r.side "sell") ≡ true
is_side r (inl e) = rw e refl
is_side r (inr e) = rw e refl

-- `ValidateOrder` accepts an order exactly when its six amounts are finite and not negative, it names
-- an account, an instrument, a side and a duration, it has exactly one of quantity and notional, and
-- its type is known and has the prices it needs.
pub validate_order_iff : (r : OrderRequest) → (validate_order r ≡ ok tt) ↔ IsValidOrder r
unfolding validate_order
validate_order_iff r = (
  λ h.
      let (h6, g) = >>-ok _ _ h in
      let (h5, f) = >>-ok _ _ h6 in
      let (h4, e) = >>-ok _ _ h5 in
      let (h3, d) = >>-ok _ _ h4 in
      let (h2, c) = >>-ok _ _ h3 in
      let (a, b) = >>-ok _ _ h2 in
      record {
        finite = (amounts_iff (amounts r)).0 (not-eq_true _ (guard-ok _ _ a));
        account = not-eq_true _ (guard-ok _ _ b);
        instrument = named _ _ (guard-ok _ _ c);
        side = sided r (guard-ok _ _ d);
        size = (one_iff r.quantity r.notional).0 (not-eq_true _ (guard-ok _ _ e));
        prices = check_prices-HasPrices r f;
        duration = not-eq_true _ (guard-ok _ _ g);
      },
  λ v.
      rw
        (
          (amounts_iff (amounts r)).1 v.finite,
          v.account,
          unnamed _ _ v.instrument,
          is_side r v.side,
          (one_iff r.quantity r.notional).1 v.size,
          HasPrices-ok r v.prices,
          v.duration,
        )
        refl,
)
