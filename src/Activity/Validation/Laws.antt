-- ===== src/Activity/Validation/Laws.antt =====
-- What `Validate` leaves of an activity that it accepts.
use traio.Prelude.{
  ◌≡◌, refl, ap, ◌∙◌, ◌⊎◌, inl, inr, String, List, [], ◌∷◌, none, some, Result, ok, err, All,
  str_eq, eq_iff, Bool-cases,
}
use traio.Text.{Text}
use traio.Activity.Decimal.{canonical_decimal}
use traio.Activity.Decimal.Exact.{canonical_decimal_idem}
use traio.Activity.Types.{Leg, Activity}
use traio.Activity.Validation.Cash.{cash_effects}
use traio.Activity.Validation.{
  Checked, then_check, fail_if, check_date, canonicalize, check_cash_leg, check_position_leg,
  check_leg_kind, check_leg, check_each, check_header, check_optional_fill, check_cost_adjustment,
  set_effects, validate,
}

-- A leg in the form of its kind, with a canonical amount.
abbrev pub IsLeg : Leg → Type 0
IsLeg l =
    ((l.kind ≡ "cash") × (canonical_decimal l.cash_delta ≡ ok l.cash_delta))
    ⊎ ((l.kind ≡ "position") × (canonical_decimal l.quantity_delta ≡ ok l.quantity_delta))

then-none :
    {A : Type 0} (m : Checked A) (f : A → Checked A) {b : A}
    → then_check m f ≡ (b, none)
    → (m.1 ≡ none) × (f m.0 ≡ (b, none))
then-none (a, none) f h = (refl, h)
then-none (a, some e) f h = cc (ap (λ (v : Checked _). v.1) h)

canonicalize-none :
    (s : Text)
    → (canonicalize s).1 ≡ none
    → canonical_decimal (canonicalize s).0 ≡ ok (canonicalize s).0
unfolding canonicalize
canonicalize-none s h = from (canonical_decimal s) refl h
  where
    after : Result String Text → Checked Text
    after m = elim m [ ok n ↦ (n, none) | err e ↦ (s, some e) ]

    from :
        (m : Result String Text)
        → canonical_decimal s ≡ m
        → (after m).1 ≡ none
        → canonical_decimal (after m).0 ≡ ok (after m).0
    from (ok n) e h = canonical_decimal_idem s e
    from (err x) e h = cc

check_leg_kind-IsLeg : (l : Leg) {k : Leg} → check_leg_kind l ≡ (k, none) → IsLeg k
unfolding check_leg_kind check_cash_leg check_position_leg
check_leg_kind-IsLeg l h = elim (Bool-cases (str_eq l.kind "cash")) [
  | inl e ↦
      let (_, r) =
        then-none (fail_if _ "invalid cash leg" l)
          (λ l. (
            record l { cash_delta = (canonicalize l.cash_delta).0 },
            (canonicalize l.cash_delta).1,
          ))
          (rw e at h) in
      let p = ap (λ (v : Checked Leg). v.0) r in
      rw (← p) (
        inl (
          (eq_iff l.kind "cash").0 e,
          canonicalize-none l.cash_delta (ap (λ (v : Checked Leg). v.1) r),
        ))
  | inr e ↦ elim (Bool-cases (str_eq l.kind "position")) [
    | inl f ↦
        let (_, r) =
          then-none (fail_if _ "invalid position leg" l)
            (λ l. (
              record l { quantity_delta = (canonicalize l.quantity_delta).0 },
              (canonicalize l.quantity_delta).1,
            ))
            (rw (e, f) at h) in
        let p = ap (λ (v : Checked Leg). v.0) r in
        rw (← p) (
          inr (
            (eq_iff l.kind "position").0 f,
            canonicalize-none l.quantity_delta (ap (λ (v : Checked Leg). v.1) r),
          ))
    | inr f ↦ cc (ap (λ (v : Checked Leg). v.1) (rw (e, f) at h))
  ]
]

check_leg-IsLeg : (l : Leg) {k : Leg} → check_leg l ≡ (k, none) → IsLeg k
unfolding check_leg
check_leg-IsLeg l h =
    let (_, r) =
      then-none (check_date l.effective_date l)
        (λ l. then_check (check_date l.settlement_date l) λ l. check_leg_kind l) h in
    let (_, q) = then-none (check_date l.settlement_date l) (λ l. check_leg_kind l) r in
    check_leg_kind-IsLeg l q

pair_of : {A : Type 0} (v : Checked A) → v.1 ≡ none → v ≡ (v.0, none)
pair_of (a, none) h = refl
pair_of (a, some e) h = cc

check_each-IsLeg :
    (ls : List Leg) → (check_each check_leg ls).1 ≡ none → All IsLeg (check_each check_leg ls).0
unfolding check_each
check_each-IsLeg [] h = tt
check_each-IsLeg (l ∷ ls) h = from (check_each-IsLeg ls) (check_leg l) refl h
  where
    tail : Checked (List Leg)
    tail = check_each check_leg ls

    step : Checked Leg → Checked (List Leg)
    step v = elim v.1 [ none ↦ (v.0 ∷ tail.0, tail.1) | some m ↦ (v.0 ∷ ls, some m) ]

    from :
        (tail.1 ≡ none → All IsLeg tail.0)
        → (v : Checked Leg) → check_leg l ≡ v
        → (step v).1 ≡ none
        → All IsLeg (step v).0
    from rest (k, none) e h = (check_leg-IsLeg l e, rest h)
    from rest (k, some m) e h = cc

set_effects-none :
    (a : Activity) {b : Activity}
    → set_effects a ≡ (b, none)
    → (a.legs ≡ b.legs) × (cash_effects a.legs ≡ ok b.cash_effects_by_currency)
unfolding set_effects
set_effects-none a {b} h = from (cash_effects a.legs) refl h
  where
    after : Result String (List (Text × Text)) → Checked Activity
    after m = elim m [
      | ok effects ↦ (record a { cash_effects_by_currency = effects }, none)
      | err e ↦ (a, some e)
    ]

    from :
        (m : Result String (List (Text × Text)))
        → cash_effects a.legs ≡ m
        → after m ≡ (b, none)
        → (a.legs ≡ b.legs) × (cash_effects a.legs ≡ ok b.cash_effects_by_currency)
    from (ok effects) e h = (
      ap (λ (v : Checked Activity). v.0.legs) h,
      e ∙ ap (λ (v : Checked Activity). ok v.0.cash_effects_by_currency) h,
    )
    from (err x) e h = cc (ap (λ (v : Checked Activity). v.1) h)

-- An activity that `Validate` accepts is left with cash and position legs only, each with a canonical
-- amount, and with the cash effects that `CashEffects` answers for these legs.
pub validate-legs :
    (a : Activity) {b : Activity}
    → validate a ≡ (b, none)
    → All IsLeg b.legs × (cash_effects b.legs ≡ ok b.cash_effects_by_currency)
unfolding validate
validate-legs a {b} h =
    let (_, r1) = then-none (check_header a) _ h in
    let c = (check_header a).0 in
    let (e2, r2) =
      then-none
        (record c { legs = (check_each check_leg c.legs).0 }, (check_each check_leg c.legs).1) _
        r1 in
    let d : Activity = record c { legs = (check_each check_leg c.legs).0 } in
    let (_, r3) =
      then-none (record d { fill = (check_optional_fill d.fill).0 }, (check_optional_fill d.fill).1)
        _ r2 in
    let f : Activity = record d { fill = (check_optional_fill d.fill).0 } in
    let (_, r4) =
      then-none
        (
          record f { cost_adjustments = (check_each check_cost_adjustment f.cost_adjustments).0 },
          (check_each check_cost_adjustment f.cost_adjustments).1,
        )
        _ r3 in
    let g : Activity = record f {
      cost_adjustments = (check_each check_cost_adjustment f.cost_adjustments).0;
    } in
    let (p, q) = set_effects-none g r4 in (rw (← p) (check_each-IsLeg c.legs e2), rw (← p) q)
