-- ===== src/Auth/Login/Proven.antt =====
-- What a sign-in through a provider rests on, and whom the state of a broker's authorization serves.
use traio.Prelude.{
  ℕ, ◌≡◌, refl, sym, ap, ◌∙◌, Bool, true, false, not, ◌||◌, List, [], ◌∷◌, Option, none, some,
  Result, ok, err, guard, >>=-eq-ok, ok-eq, str_eq, eq_iff, is_empty, Bool-cases, Option-cases, inl,
  inr, arith,
}
use traio.Text.{Text}
use traio.Text.Trim.{trim_space}
use traio.Auth.Stamp.{Instant, stamp_le}
use traio.Auth.Tables.{AuthFlow, AuthIdentity, Directory, AuthError, invalid}
use traio.Auth.Flows.{find_flow, take_flow, consume_flow, consume_auth_flow}
use traio.Auth.Flows.Returned.{find_flow-removed}
use traio.Auth.Members.Admitted.{IsAdmitted, upsert_oidc_identity-IsAdmitted}
use traio.Auth.Members.Join.{upsert_oidc_identity}
use traio.Auth.Sessions.{
  LoginResult, hash_token, create_login_session, login_result, create_auth_session, new_session,
}
use traio.Auth.Login.{
  AuthState, Claims, Provider, id_token, identify, start_session, sign_in_as, with_flow,
  complete_login,
}

abbrev flow_of : Text → List AuthFlow → Option AuthFlow
flow_of = find_flow (λ f. f.state_hash) (λ f. f.expires_at)

-- The provider's claims for a flow: from an ID token that the code was exchanged for, with the flow's
-- nonce and a verified email.
pub record IsIdentified (provider : Provider) (code : Text) (flow : AuthFlow) (issuer : Text)
    (c : Claims) : Type 0 where
  pub raw_token : Text
  pub exchanged : provider.exchange code flow.code_verifier ≡ ok (some raw_token)
  pub verified : provider.verify raw_token ≡ ok issuer
  pub claimed : provider.claims raw_token ≡ ok c
  pub nonce : c.nonce ≡ flow.nonce
  pub email : is_empty (trim_space c.email) ≡ false
  pub email_verified : c.email_verified ≡ true

guard-eq : (b : Bool) (reason : AuthError) → guard b reason ≡ ok tt → b ≡ true
guard-eq true reason h = refl
guard-eq false reason h = cc

id_token-eq : (o : Option Text) {t : Text} → id_token o ≡ ok t → o ≡ some t
id_token-eq none h = cc
id_token-eq (some []) h = cc
id_token-eq (some (c ∷ s)) h = cc

verified_email :
    (email : Text) (b : Bool)
    → not (is_empty (trim_space email) || not b) ≡ true
    → (is_empty (trim_space email) ≡ false) × (b ≡ true)
verified_email email b h = ground (arith, h)

identify_lem :
    (provider : Provider) (code : Text) (flow : AuthFlow) (issuer : Text) (c : Claims)
    → identify provider code flow ≡ ok (issuer, c)
    → IsIdentified provider code flow issuer c
unfolding identify
identify_lem provider code flow issuer c h =
    let (token, e1, h1) = >>=-eq-ok (provider.exchange code flow.code_verifier) _ h in
    let (raw, e2, h2) = >>=-eq-ok (id_token token) _ h1 in
    let (issuer', e3, h3) = >>=-eq-ok (provider.verify raw) _ h2 in
    let (c', e4, h4) = >>=-eq-ok (provider.claims raw) _ h3 in
    let (t, e5, h5) = >>=-eq-ok (guard (str_eq c'.nonce flow.nonce) _) _ h4 in
    let (t', e6, h6) =
      >>=-eq-ok (guard (not (is_empty (trim_space c'.email) || not c'.email_verified)) _) _ h5 in
    let si : issuer' ≡ issuer = ap (λ (x : Text × Claims). x.0) (ok-eq h6) in
    let sc : c' ≡ c = ap (λ (x : Text × Claims). x.1) (ok-eq h6) in
    record {
      raw_token = raw;
      exchanged = e1 ∙ ap ok (id_token-eq token e2);
      verified = e3 ∙ ap ok si;
      claimed = e4 ∙ ap ok sc;
      nonce = rw (← sc) (
          (eq_iff c'.nonce flow.nonce).0
            (guard-eq (str_eq c'.nonce flow.nonce) (invalid "OIDC nonce mismatch") e5));
      email =
          rw (← sc)
            (verified_email c'.email c'.email_verified
              (guard-eq _ (invalid "OIDC identity must include a verified email") e6)).0;
      email_verified =
          rw (← sc)
            (verified_email c'.email c'.email_verified
              (guard-eq _ (invalid "OIDC identity must include a verified email") e6)).1;
    }

consumed_flow :
    (h : Text) (now : Instant) (fs : List AuthFlow) (flow : AuthFlow)
    → (consume_auth_flow h now fs).0 ≡ ok flow
    → (flow_of h fs ≡ some flow)
      × (stamp_le flow.expires_at now ≡ false)
      × (flow_of h (consume_auth_flow h now fs).1 ≡ none)
unfolding consume_auth_flow consume_flow take_flow
consumed_flow h now fs flow e = elim (Option-cases (flow_of h fs)) [
  | inl n ↦ absurd (cc (rw (consume_auth_flow, consume_flow, n) at e))
  | inr (f, n) ↦ elim (Bool-cases (stamp_le f.expires_at now)) [
    | inl k ↦ absurd (cc (rw (consume_auth_flow, consume_flow, n, take_flow, k) at e))
    | inr k ↦
        let same : f ≡ flow = ok-eq (rw (consume_auth_flow, consume_flow, n, take_flow, k) at e) in
        (
          n ∙ ap some same,
          rw (← same) k,
          rw (consume_auth_flow, consume_flow, n, take_flow, k)
              (find_flow-removed (λ f. f.state_hash) (λ f. f.expires_at) h fs),
        )
  ]
]

result_identity :
    (digest : Text → List ℕ) (session_token csrf_token : Text) (now : Instant) (ttl : ℕ)
    (i : AuthIdentity) (r : LoginResult) (o : Result AuthError (Unit {0}))
    → login_result digest session_token csrf_token now ttl i o ≡ ok r
    → r.identity ≡ i
result_identity digest session_token csrf_token now ttl i r (err reason) h = cc
result_identity digest session_token csrf_token now ttl i r (ok t) h =
    ap (λ (x : LoginResult). x.identity) (sym (ok-eq h))

module _ (digest : Text → List ℕ) (db_lower : Text → Text) (provider : Provider) where
  -- What a sign-in with a state and a code that answers a login rests on, and what it leaves.
  pub record IsLogin (state code : Text) (now : Instant) (s s' : AuthState) (i : AuthIdentity)
      : Type 0 where
    pub flow : AuthFlow
    pub issuer : Text
    pub claims : Claims
    pub directory : Directory
    pub stored : flow_of (hash_token digest (trim_space state)) s.auth_flows ≡ some flow
    pub unexpired : stamp_le flow.expires_at now ≡ false
    pub identified : IsIdentified provider (trim_space code) flow issuer claims
    pub user_issuer : i.user.issuer ≡ trim_space issuer
    pub user_subject : i.user.subject ≡ trim_space claims.subject
    pub admitted : IsAdmitted db_lower claims.email s.directory i directory
    pub taken : flow_of (hash_token digest (trim_space state)) s'.auth_flows ≡ none

  login_identity :
      (session_token csrf_token : Text) (now : Instant) (ttl : ℕ) (i : AuthIdentity) (d : Directory)
      (r : LoginResult)
      → (create_login_session digest session_token csrf_token now ttl i d).0 ≡ ok r
      → r.identity ≡ i
  unfolding create_login_session
  login_identity session_token csrf_token now ttl i d r h =
      result_identity digest session_token csrf_token now ttl i r
        (create_auth_session now (new_session digest session_token csrf_token now ttl i)
          d.sessions).0
        h

  started :
      (session_token csrf_token : Text) (now : Instant) (ttl : ℕ)
      (o : Result AuthError (AuthIdentity × Directory)) (s : AuthState) (r : LoginResult)
      → (start_session digest session_token csrf_token now ttl o s).0 ≡ ok r
      → ((d : Directory) × (o ≡ ok (r.identity, d)))
        × ((start_session digest session_token csrf_token now ttl o s).1.auth_flows ≡ s.auth_flows)
  unfolding start_session
  started session_token csrf_token now ttl (err reason) s r h = cc
  started session_token csrf_token now ttl (ok (i, d)) s r h = (
    (d, ap (λ j. ok (j, d)) (sym (login_identity session_token csrf_token now ttl i d r h))),
    refl,
  )

  signed_in :
      (session_token csrf_token : Text) (now : Instant) (ttl : ℕ)
      (o : Result AuthError (Text × Claims)) (s : AuthState) (r : LoginResult)
      → (sign_in_as digest db_lower session_token csrf_token now ttl o s).0 ≡ ok r
      → ((issuer : Text) × (c : Claims) × (d : Directory) × (o ≡ ok (issuer, c))
          × (upsert_oidc_identity db_lower issuer c.subject c.email c.name s.directory
              ≡ ok (r.identity, d)))
        × ((sign_in_as digest db_lower session_token csrf_token now ttl o s).1.auth_flows
            ≡ s.auth_flows)
  unfolding sign_in_as
  signed_in session_token csrf_token now ttl (err reason) s r h = cc
  signed_in session_token csrf_token now ttl (ok (issuer, c)) s r h =
      let ((d, e), k) =
        started session_token csrf_token now ttl
          (upsert_oidc_identity db_lower issuer c.subject c.email c.name s.directory) s r h in
      ((issuer, c, d, refl, e), k)

  with_flow_lem :
      (code session_token csrf_token : Text) (now : Instant) (ttl : ℕ)
      (o : Result AuthError AuthFlow) (s : AuthState) (r : LoginResult)
      → (with_flow digest db_lower provider code session_token csrf_token now ttl o s).0 ≡ ok r
      → ((flow : AuthFlow) × (o ≡ ok flow)
          × (issuer : Text) × (c : Claims) × (d : Directory) × (identify provider code flow
              ≡ ok (issuer, c))
          × (upsert_oidc_identity db_lower issuer c.subject c.email c.name s.directory
              ≡ ok (r.identity, d)))
        × ((with_flow digest db_lower provider code session_token csrf_token now ttl o
              s).1.auth_flows
            ≡ s.auth_flows)
  unfolding with_flow
  with_flow_lem code session_token csrf_token now ttl (err reason) s r h = cc
  with_flow_lem code session_token csrf_token now ttl (ok flow) s r h =
      let ((issuer, c, d, e, u), k) =
        signed_in session_token csrf_token now ttl (identify provider code flow) s r h in
      ((flow, refl, issuer, c, d, e, u), k)

  -- A sign-in through a provider that answers a login took the flow stored under the hash of its
  -- trimmed state, which had not expired and is stored no more; its trimmed code was exchanged, with
  -- the flow's verifier, for an ID token that verifies, with the flow's nonce and a verified email;
  -- and the identity is the token's issuer and subject, admitted to the default workspace as a
  -- member that it was, its first member, or by an invitation of the claimed email.
  pub complete_login-IsLogin :
      (state code session_token csrf_token : Text) (now : Instant) (ttl : ℕ) (s : AuthState)
      (r : LoginResult)
      → (complete_login digest db_lower provider state code session_token csrf_token now ttl s).0
        ≡ ok r
      → IsLogin state code now s
          (complete_login digest db_lower provider state code session_token csrf_token now ttl s).1
          r.identity
  unfolding complete_login with_flow
  complete_login-IsLogin state code session_token csrf_token now ttl s r h =
      elim (Bool-cases (is_empty (trim_space state) || is_empty (trim_space code))) [
        | inl e ↦ absurd (cc (rw (complete_login, e) at h))
        | inr e ↦
            let hash = hash_token digest (trim_space state) in
            let taken = consume_auth_flow hash now s.auth_flows in
            let s1 : AuthState = record s { auth_flows = taken.1 } in
            let ((flow, k, issuer, c, d, f, u), kept) =
              with_flow_lem (trim_space code) session_token csrf_token now ttl taken.0 s1 r
                (rw (complete_login, e) at h) in
            let (stored, fresh, gone) = consumed_flow hash now s.auth_flows flow k in
            let (a, b, m) =
              upsert_oidc_identity-IsAdmitted db_lower issuer c.subject c.email c.name s.directory d
                r.identity u in
            rw (complete_login, e)
              (record {
                flow = flow;
                issuer = issuer;
                claims = c;
                directory = d;
                stored = stored;
                unexpired = fresh;
                identified = identify_lem provider (trim_space code) flow issuer c f;
                user_issuer = a;
                user_subject = b;
                admitted = m;
                taken = ap (flow_of hash) kept ∙ gone;
              })
      ]
