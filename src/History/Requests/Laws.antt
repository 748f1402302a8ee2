-- ===== src/History/Requests/Laws.antt =====
-- Which source a request without one gets, and which dates a request is let through with.
use traio.Prelude.{
  ℕ, ◌+◌, ◌-◌, ◌≤◌, ◌≡◌, ◌≢◌, refl, ◌⊎◌, inl, inr, String, Bool, true, false, not, ◌&&◌, ◌||◌,
  Option, none, some, ok, >>=-eq-ok, ok-eq, guard, arith, ltb, leb, str_eq, eq_iff, is_empty,
  if◌then◌else◌, Bool-cases,
}
use traio.Text.{Text, codes, text_eq_iff, text_lt}
use traio.Date.{parse_day, format_day}
use traio.History.Requests.{
  BrokerConnection, to_upper, is_provider, flex_ready, gateway_ready, preferred_ibkr,
  preferred_source, not_supported, invalid_range, invalid_request, validate_ibkr,
  validate_connection_source, RequestDates, with_dates, check_days, normalize_request_dates,
  validate_history_dates,
}

-- What is known of a choice: it is accepted, or there is none and no source is accepted.
abbrev pub IsChoice : BrokerConnection → String → Type 0
IsChoice c s =
    (validate_connection_source c s ≡ ok tt)
    ⊎ ((s ≡ "") × ((other : String) → validate_connection_source c other ≢ ok tt))

abbrev IsChoiceIbkr : BrokerConnection → String → Type 0
IsChoiceIbkr c s =
    (validate_ibkr c s ≡ ok tt) ⊎ ((s ≡ "") × ((other : String) → validate_ibkr c other ≢ ok tt))

nothing_ready :
    (c : BrokerConnection) (other : String)
    → flex_ready c ≡ false
    → gateway_ready c ≡ false
    → validate_ibkr c other ≢ ok tt
unfolding validate_ibkr
nothing_ready c other e k h = elim (Bool-cases (str_eq other "flex")) [
  | inl f ↦ absurd (ground (arith, e, f, h, eq_iff other "flex"))
  | inr f ↦ absurd (ground (arith, k, f, h))
]

preferred-IsChoice :
    (c : BrokerConnection) (is_old : Bool)
    → IsChoiceIbkr c (preferred_ibkr (flex_ready c) (gateway_ready c) is_old)
unfolding preferred_ibkr validate_ibkr
preferred-IsChoice c is_old = elim (Bool-cases (flex_ready c)) [
  | inl e ↦ elim (Bool-cases (is_old)) [
    | inl o ↦ inl (rw (e, o) refl)
    | inr o ↦ elim (Bool-cases (gateway_ready c)) [
      | inl k ↦ inl (rw (e, o, k) refl)
      | inr k ↦ inl (rw (e, o, k) refl)
    ]
  ]
  | inr e ↦ elim (Bool-cases (gateway_ready c)) [
    | inl k ↦ inl (rw (e, k) refl)
    | inr k ↦ inr (rw (e, k) refl, λ other. nothing_ready c other e k)
  ]
]

other_provider :
    (c : BrokerConnection)
    → is_provider c "IBKR" ≡ true
    → (is_provider c "SCHWAB" ≡ false) × (is_provider c "ALPACA" ≡ false)
other_provider c h =
    let e = (text_eq_iff (to_upper c.provider_code) (codes "IBKR")).0 h in (rw e refl, rw e refl)

-- For an enabled connection of Interactive Brokers, the source that is preferred for a request
-- without one is a source that the connection is accepted for; where none is preferred, the
-- connection is accepted for no source at all.
pub preferred_source-IsChoice :
    (c : BrokerConnection) (from : Text) (today : ℕ)
    → c.enabled ≡ true
    → is_provider c "IBKR" ≡ true
    → IsChoice c (preferred_source c from today)
unfolding preferred_source validate_connection_source
preferred_source-IsChoice c from today e h =
    let (s, a) = other_provider c h in
    rw (s, a, e, h)
      (preferred-IsChoice c (not (is_empty from) && text_lt from (format_day (today - 7))))

-- What the dates of a request that was let through satisfy.
pub record IsDated (today : ℕ) (r : RequestDates) : Type 0 where
  pub start : ℕ
  pub start_read : parse_day r.from ≡ some start
  pub end : ℕ
  pub end_read : parse_day r.to ≡ some end
  pub in_order : text_lt r.to r.from ≡ false
  pub not_ahead : end ≤ today
  pub recent : str_eq r.source "gateway" ≡ true → today - 7 ≤ start
  pub one_year : str_eq r.source "flex" ≡ true → end ≤ start + 364

guard-ok : {E : Type 0} (b : Bool) (reason : E) → guard b reason ≡ ok tt → b ≡ true
guard-ok true reason h = refl
guard-ok false reason h = cc

check_days-IsDated :
    (today : ℕ) (r : RequestDates) (a b : Option ℕ)
    → parse_day r.from ≡ a
    → parse_day r.to ≡ b
    → text_lt r.to r.from ≡ false
    → check_days r.source today a b ≡ ok tt
    → IsDated today r
unfolding check_days
check_days-IsDated today r (some a) (some b) ea eb l h =
    let (_, h1, h2) =
      >>=-eq-ok _ (λ x. guard (not (str_eq r.source "flex" && ltb (a + 364) b)) invalid_request)
        h in
    let (_, h3, h4) =
      >>=-eq-ok _ (λ x. guard (not (str_eq r.source "gateway" && ltb a (today - 7))) not_supported)
        h1 in
    let p = guard-ok (leb b today) invalid_request h3 in
    let q = guard-ok (not (str_eq r.source "gateway" && ltb a (today - 7))) not_supported h4 in
    let s = guard-ok (not (str_eq r.source "flex" && ltb (a + 364) b)) invalid_request h2 in
    record {
      start = a;
      start_read = ea;
      end = b;
      end_read = eb;
      in_order = l;
      not_ahead = ground (arith, p);
      recent = λ g. ground (arith, q, g);
      one_year = λ g. ground (arith, s, g);
    }
check_days-IsDated today r (some a) none ea eb l h = cc
check_days-IsDated today r none b ea eb l h = cc

unordered :
    (from to : Text)
    → is_empty from ≡ false
    → is_empty to ≡ false
    → (is_empty from || is_empty to || not (text_lt to from)) ≡ true
    → text_lt to from ≡ false
unordered from to p q h = ground (arith, h, p, q)

given : (s t : Text) → is_empty t ≡ false → is_empty (if is_empty s then t else s) ≡ false
given s t h = elim (Bool-cases (is_empty s)) [ inl e ↦ rw e h | inr e ↦ rw e e ]

format_given : (d : ℕ) → is_empty (format_day d) ≡ false
unfolding format_day
format_given d = refl

-- A request that is let through has two dates in order, the last of them not after today; one to the
-- gateway starts within the last week, and one to Flex spans at most 365 days.
pub normalize-IsDated :
    (today : ℕ) (r q : RequestDates) → normalize_request_dates today r ≡ ok q → IsDated today q
unfolding normalize_request_dates validate_history_dates
normalize-IsDated today r q h =
    let w = with_dates today r in
    let (_, h1, h2) = >>=-eq-ok _ (λ (u : Unit {0}). ok w) h in
    let (_, h3, h4) =
      >>=-eq-ok _ (λ (u : Unit {0}). check_days w.source today (parse_day w.from) (parse_day w.to))
        h1 in
    let (_, h5, h6) =
      >>=-eq-ok _
        (λ (u : Unit {0}).
          guard (is_empty w.from || is_empty w.to || not (text_lt w.to w.from)) invalid_range)
        h3 in
    let l =
      unordered w.from w.to (given r.from (format_day (today - 7)) (format_given (today - 7)))
        (given r.to (format_day today) (format_given today))
        (guard-ok (is_empty w.from || is_empty w.to || not (text_lt w.to w.from)) invalid_range
          h6) in
    let e : w ≡ q = ok-eq h2 in
    rw (← e) (check_days-IsDated today w (parse_day w.from) (parse_day w.to) refl refl l h4)
