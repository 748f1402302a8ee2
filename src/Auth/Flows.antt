-- ===== src/Auth/Flows.antt =====
-- The flows of internal/store/auth.go: the rows `auth_flows` and `broker_oauth_flows`, which a sign-in
-- leaves before it sends the browser away, and takes when the browser comes back with the state.
-- The two tables have the same operations over rows of their own: `state_hash` and `expires_at` are
-- the columns of a row. An operation answers with the table that it leaves.
pub mod Once
pub mod Returned
use traio.Prelude.{
  ℕ, ◌≡◌, Bool, true, false, not, ◌&&◌, ◌||◌, List, [], ◌∷◌, Option, none, some, Result, ok, err,
  if◌then◌else◌,
}
use traio.Text.{Text, text_eq}
use traio.Auth.Stamp.{Instant, stamp_le}
use traio.Auth.Tables.{AuthFlow, BrokerOAuthFlow, AuthError, not_found, expired, duplicate_key}

module _ {A : Type 0} (state_hash : A → Text) (expires_at : A → Instant) where
  -- `DELETE FROM ... WHERE expires_at <= ?`
  unfoldable pub drop_expired : Instant → List A → List A
  drop_expired now [] = []
  drop_expired now (f ∷ fs) =
      let rest = drop_expired now fs in if stamp_le (expires_at f) now then rest else f ∷ rest

  unfoldable pub find_flow : Text → List A → Option A
  find_flow h [] = none
  find_flow h (f ∷ fs) = if text_eq (state_hash f) h then some f else find_flow h fs

  unfoldable pub remove_flow : Text → List A → List A
  remove_flow h [] = []
  remove_flow h (f ∷ fs) =
      let rest = remove_flow h fs in if text_eq (state_hash f) h then rest else f ∷ rest

  -- `INSERT`, under the primary key.
  unfoldable pub insert_flow : A → Option A → List A → Result AuthError (Unit {0}) × List A
  insert_flow f (some g) fs = (err duplicate_key, fs)
  insert_flow f none fs = (ok tt, f ∷ fs)

  unfoldable pub create_flow : Instant → A → List A → Result AuthError (Unit {0}) × List A
  unfolding drop_expired find_flow insert_flow
  create_flow now f fs =
      insert_flow f (find_flow (state_hash f) (drop_expired now fs)) (drop_expired now fs)

  -- The row is deleted and read; where it is expired the deletion is rolled back.
  unfoldable pub take_flow : Text → Instant → Option A → List A → Result AuthError A × List A
  unfolding remove_flow
  take_flow h now none fs = (err not_found, fs)
  take_flow h now (some f) fs =
      if stamp_le (expires_at f) now then (err expired, fs) else (ok f, remove_flow h fs)

  unfoldable pub consume_flow : Text → Instant → List A → Result AuthError A × List A
  unfolding find_flow take_flow
  consume_flow h now fs = take_flow h now (find_flow h fs) fs

unfoldable pub create_auth_flow :
    Instant → AuthFlow → List AuthFlow → Result AuthError (Unit {0}) × List AuthFlow
unfolding create_flow
create_auth_flow = create_flow (λ f. f.state_hash) (λ f. f.expires_at)

unfoldable pub consume_auth_flow :
    Text → Instant → List AuthFlow → Result AuthError AuthFlow × List AuthFlow
unfolding consume_flow
consume_auth_flow = consume_flow (λ f. f.state_hash) (λ f. f.expires_at)

unfoldable pub create_broker_oauth_flow :
    Instant
    → BrokerOAuthFlow
    → List BrokerOAuthFlow
    → Result AuthError (Unit {0}) × List BrokerOAuthFlow
unfolding create_flow
create_broker_oauth_flow = create_flow (λ f. f.state_hash) (λ f. f.expires_at)

unfoldable pub consume_broker_oauth_flow :
    Text → Instant → List BrokerOAuthFlow → Result AuthError BrokerOAuthFlow × List BrokerOAuthFlow
unfolding consume_flow
consume_broker_oauth_flow = consume_flow (λ f. f.state_hash) (λ f. f.expires_at)
