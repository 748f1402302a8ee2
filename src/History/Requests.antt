-- ===== src/History/Requests.antt =====
-- internal/history/service.go: which source and which dates a request may ask for. Days are day
-- numbers of UTC; `today` is the day of `now`. A configuration value that is no text is not listed.
pub mod Laws
use traio.Prelude.{
  ℕ, ◌+◌, ◌-◌, String, Bool, true, false, not, ◌&&◌, ◌||◌, ◌==◌, List, [], ◌∷◌, Option, none, some,
  Result, ok, err, ◌>>=◌, ◌>>◌, guard, ltb, leb, str_eq, is_empty, map, if◌then◌else◌,
}
use traio.Text.{Text, codes, text_eq, text_lt}
use traio.Text.Trim.{trim_space}
use traio.Date.{parse_day, format_day}

-- What the checks read of store.BrokerConnection.
pub record BrokerConnection : Type 0 where
  pub provider_code : Text
  pub enabled : Bool
  pub config : List (String × Text)
  pub secrets : List (String × Text)

-- `strings.ToUpper`, as far as a comparison with an upper-case ASCII text sees it: two letters
-- outside ASCII have an ASCII letter as their upper case.
abbrev pub upper_code : ℕ → ℕ
upper_code c =
    if leb b'a' c && leb c b'z'
    then c - 32
    else if c == 0x131
    then b'I'
    else if c == 0x17f
    then b'S'
    else c

abbrev pub to_upper : Text → Text
to_upper s = map upper_code s

-- `m[key]`, "" where there is none.
unfoldable pub value_of : String → List (String × Text) → Text
value_of k [] = []
value_of k ((j, v) ∷ m) = if str_eq j k then v else value_of k m

-- `configString(...) != ""`
abbrev pub has_config : BrokerConnection → String → Bool
has_config c key = not (is_empty (trim_space (value_of key c.config)))

-- `strings.TrimSpace(connection.Secrets[...]) != ""`
abbrev pub has_token : BrokerConnection → String → Bool
has_token c key = not (is_empty (trim_space (value_of key c.secrets)))

-- `connection.Secrets[...] != ""`
abbrev pub has_secret : BrokerConnection → String → Bool
has_secret c key = not (is_empty (value_of key c.secrets))

abbrev pub is_provider : BrokerConnection → String → Bool
is_provider c p = text_eq (to_upper c.provider_code) (codes p)

abbrev pub history_provider_supported : BrokerConnection → Bool
history_provider_supported c =
    is_provider c "IBKR" || is_provider c "SCHWAB" || is_provider c "ALPACA"

abbrev pub flex_ready : BrokerConnection → Bool
flex_ready c = has_config c "flex_activity_query_id" && has_token c "flex_token"

abbrev pub gateway_ready : BrokerConnection → Bool
gateway_ready c = has_config c "gateway_url" && has_token c "gateway_token"

-- The lines of `preferredSource` after the switch.
unfoldable pub preferred_ibkr : Bool → Bool → Bool → String
preferred_ibkr flex gateway is_old =
    if flex && is_old then "flex" else if gateway then "gateway" else if flex then "flex" else ""

unfoldable pub preferred_source : BrokerConnection → Text → ℕ → String
unfolding preferred_ibkr
preferred_source c from today =
    if is_provider c "SCHWAB"
    then "schwab"
    else if is_provider c "ALPACA"
    then "alpaca"
    else preferred_ibkr (flex_ready c) (gateway_ready c)
        (not (is_empty from) && text_lt from (format_day (today - 7)))

pub data RequestError : Type 0 where
  not_supported not_configured invalid_request invalid_date invalid_range : RequestError

-- The lines for Interactive Brokers.
unfoldable pub validate_ibkr : BrokerConnection → String → Result RequestError (Unit {0})
validate_ibkr c source =
    if not (str_eq source "gateway") && not (str_eq source "flex")
    then err not_supported
    else if str_eq source "flex"
    then guard (flex_ready c) not_configured
    else guard (gateway_ready c) not_configured

unfoldable pub validate_connection_source :
    BrokerConnection → String → Result RequestError (Unit {0})
unfolding validate_ibkr
validate_connection_source c source =
    if not (history_provider_supported c)
    then err not_supported
    else if not c.enabled
    then err not_configured
    else if is_provider c "SCHWAB"
    then guard (str_eq source "schwab") not_supported
      >> guard (has_secret c "access_token") not_configured
    else if is_provider c "ALPACA"
    then guard (str_eq source "alpaca") not_supported
      >> guard (has_secret c "api_key" && has_secret c "api_secret") not_configured
    else validate_ibkr c source

-- `store.ValidateHistoryDates`: each date that is given is a date.
abbrev pub is_date : Text → Bool
is_date s = is_empty s || elim (parse_day s) [ none ↦ false | some d ↦ true ]

unfoldable pub validate_history_dates : Text → Text → Result RequestError (Unit {0})
validate_history_dates from to =
    guard (is_date from && is_date to) invalid_date
    >> guard (is_empty from || is_empty to || not (text_lt to from)) invalid_range

pub record RequestDates : Type 0 where
  pub source : String
  pub from : Text
  pub to : Text

-- `if req.To == "" { ... }; if req.From == "" { ... }`
abbrev pub with_dates : ℕ → RequestDates → RequestDates
with_dates today r = record r {
  from = if is_empty r.from then format_day (today - 7) else r.from;
  to = if is_empty r.to then format_day today else r.to;
}

-- The tests on the dates read. A text that is no date has been refused before.
unfoldable pub check_days : String → ℕ → Option ℕ → Option ℕ → Result RequestError (Unit {0})
check_days source today (some start) (some end) =
    guard (leb end today) invalid_request
    >> guard (not (str_eq source "gateway" && ltb start (today - 7))) not_supported
    >> guard (not (str_eq source "flex" && ltb (start + 364) end)) invalid_request
check_days source today _ _ = err invalid_date

unfoldable pub normalize_request_dates : ℕ → RequestDates → Result RequestError RequestDates
unfolding check_days validate_history_dates
normalize_request_dates today r =
    let q = with_dates today r in
    validate_history_dates q.from q.to
    >> check_days q.source today (parse_day q.from) (parse_day q.to)
    >>= λ u. ok q
