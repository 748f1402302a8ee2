-- ===== src/Auth/Sessions/Login.antt =====
-- A session from its start to its end.
use traio.Prelude.{
  ℕ, ◌<◌, ◌≡◌, ◌↔◌, refl, true, false, List, [], ◌∷◌, none, some, Result, ok, err, All, Bool-cases,
  Option-cases, inl, inr, is_empty,
}
use traio.Text.{Text, text_eq, text_eq_iff}
use traio.Text.Trim.{trim_space, trim_left, trim_right}
use traio.Text.Hex.{hex_decode-hex_encode}
use traio.Auth.Stamp.{Instant, is_after, add_seconds}
use traio.Auth.Tables.{AuthSession, AuthIdentity, Directory, AuthError, not_found}
use traio.Auth.Sessions.{
  LoginResult, find_session, drop_expired_sessions, insert_session, create_auth_session,
  get_auth_session, delete_auth_session, Mode, principal_of, hash_token, new_session, login_result,
  create_login_session, check_session, authenticate, validate_csrf, logout,
}
use traio.Auth.Sessions.Laws.{IsIdentity, authenticate_iff}

text_eq_self : (s : Text) → text_eq s s ≡ true
text_eq_self s = (text_eq_iff s s).1 refl

find_session-deleted :
    (h : Text) (ss : List AuthSession) → find_session h (delete_auth_session h ss) ≡ none
unfolding find_session delete_auth_session
find_session-deleted h [] = refl
find_session-deleted h (s ∷ ss) = elim (Bool-cases (text_eq s.token_hash h)) [
  | inl e ↦ rw e (find_session-deleted h ss)
  | inr e ↦ rw (e, e) (find_session-deleted h ss)
]

created_session :
    (now : Instant) (s : AuthSession) (ss : List AuthSession)
    → (create_auth_session now s ss).0 ≡ ok tt
    → find_session s.token_hash (create_auth_session now s ss).1 ≡ some s
unfolding create_auth_session insert_session find_session
created_session now s ss h =
    elim (Option-cases (find_session s.token_hash (drop_expired_sessions now ss))) [
      | inl n ↦
          rw (create_auth_session, n, insert_session, find_session, text_eq_self s.token_hash) refl
      | inr (t, n) ↦ absurd (cc (rw (create_auth_session, n) at h))
    ]

module _ (digest : Text → List ℕ) (mode : Mode) where
  login_result-eq :
      (session_token csrf_token : Text) (now : Instant) (ttl : ℕ) (i : AuthIdentity)
      (o : Result AuthError (Unit {0})) {r : LoginResult}
      → login_result digest session_token csrf_token now ttl i o ≡ ok r
      → o ≡ ok tt
  login_result-eq session_token csrf_token now ttl i (ok tt) h = refl
  login_result-eq session_token csrf_token now ttl i (err reason) h = cc

  trimmed_nonempty : (t : Text) → is_empty (trim_space t) ≡ false → is_empty t ≡ false
  unfolding trim_space trim_left trim_right
  trimmed_nonempty [] h = cc
  trimmed_nonempty (c ∷ t) h = refl

  logged_out :
      (session_token : Text) (now : Instant) (d : Directory)
      → is_empty (trim_space session_token) ≡ false
      → (authenticate digest mode session_token now (logout digest session_token d)).0
        ≡ err not_found
  unfolding authenticate logout check_session get_auth_session
  logged_out session_token now d t =
      rw
        (
          authenticate,
          t,
          logout,
          trimmed_nonempty session_token t,
          get_auth_session,
          find_session-deleted (hash_token digest session_token) d.sessions,
          check_session,
        )
        refl

  csrf_iff :
      (session_token csrf_token raw_token : Text) (now : Instant) (ttl : ℕ) (i : AuthIdentity)
      → ((t : Text) → All (λ b. b < 256) (digest t))
      → (validate_csrf digest (new_session digest session_token csrf_token now ttl i) raw_token
          ≡ true)
        ↔ (digest csrf_token ≡ digest raw_token)
  unfolding validate_csrf hash_token
  csrf_iff session_token csrf_token raw_token now ttl i b =
      rw
        (
          hex_decode-hex_encode (digest csrf_token) (b csrf_token),
          hex_decode-hex_encode (digest raw_token) (b raw_token),
        )
        (text_eq_iff (digest csrf_token) (digest raw_token))

  created_login :
      (session_token csrf_token : Text) (now : Instant) (ttl : ℕ) (i : AuthIdentity) (d : Directory)
      {r : LoginResult}
      → (create_login_session digest session_token csrf_token now ttl i d).0 ≡ ok r
      → find_session
          (hash_token digest session_token)
          (create_login_session digest session_token csrf_token now ttl i d).1.sessions
        ≡ some (new_session digest session_token csrf_token now ttl i)
  unfolding create_login_session
  created_login session_token csrf_token now ttl i d h =
      created_session now (new_session digest session_token csrf_token now ttl i) d.sessions
        (login_result-eq session_token csrf_token now ttl i _ h)

  -- After a login that succeeds, for an identity that the tables have and a digest of bytes: until the
  -- lifetime is over the session's token authenticates as this identity; the session accepts as its
  -- CSRF token exactly those with the digest of the one handed out; and once the token has been
  -- logged out it authenticates no more, at any time.
  pub login_authenticates :
      (session_token csrf_token raw_token : Text) (now now' now'' : Instant) (ttl : ℕ)
      (i : AuthIdentity) (d : Directory) (r : LoginResult)
      → ((t : Text) → All (λ b. b < 256) (digest t))
      → is_empty (trim_space session_token) ≡ false
      → IsIdentity d (new_session digest session_token csrf_token now ttl i) i
      → (create_login_session digest session_token csrf_token now ttl i d).0 ≡ ok r
      → is_after (add_seconds now ttl) now' ≡ true
      → let s = new_session digest session_token csrf_token now ttl i in
        let d' = (create_login_session digest session_token csrf_token now ttl i d).1 in
        ((authenticate digest mode session_token now' d').0 ≡ ok (principal_of mode i, s))
        × ((validate_csrf digest s raw_token ≡ true) ↔ (digest csrf_token ≡ digest raw_token))
        × ((authenticate digest mode session_token now'' (logout digest session_token d')).0
            ≡ err not_found)
  unfolding create_login_session
  login_authenticates session_token csrf_token raw_token now now' now'' ttl i d r b t k h l =
      let s = new_session digest session_token csrf_token now ttl i in
      let d' = (create_login_session digest session_token csrf_token now ttl i d).1 in
      (
        (authenticate_iff digest mode session_token now' d' (principal_of mode i) s).1 (
          t,
          created_login session_token csrf_token now ttl i d h,
          l,
          (i, record { user = k.user; workspace = k.workspace; role = k.role }, refl),
        ),
        csrf_iff session_token csrf_token raw_token now ttl i b,
        logged_out session_token now'' d' t,
      )
