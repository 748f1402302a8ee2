-- ===== src/Auth/Login/Broker.antt =====
-- The authorization of a broker's connection: whom its state serves.
use traio.Prelude.{
  ℕ, ◌≡◌, refl, ap, ◌∙◌, false, not, ◌&&◌, ◌||◌, List, ok, err, Bool-cases, inl, inr, if◌then◌else◌,
}
use traio.Prelude.Int.{ℤ, pos, ltb_ℤ}
use traio.Text.{Text}
use traio.Text.Trim.{trim_space}
use traio.Activity.Types.{eq_ℤ}
use traio.Auth.Stamp.{Instant, stamp_le, add_seconds}
use traio.Auth.Tables.{BrokerOAuthFlow, not_found, invalid}
use traio.Auth.Flows.{create_flow, create_broker_oauth_flow, consume_broker_oauth_flow}
use traio.Auth.Flows.Once.{FlowCall, run_flows}
use traio.Auth.Flows.Returned.{LeavesFlow, created_flow_returns}
use traio.Auth.Sessions.{Principal, hash_token}
use traio.Auth.Login.{AuthState, own_connection, begin_broker_oauth, consume_broker_oauth}

abbrev pub state_hash : BrokerOAuthFlow → Text
state_hash f = f.state_hash

abbrev pub expires_at : BrokerOAuthFlow → Instant
expires_at f = f.expires_at

own_connection_lem :
    (q : Principal) (f : BrokerOAuthFlow)
    → own_connection q (ok f) ≡ (
        if eq_ℤ f.workspace_id q.workspace_id && eq_ℤ f.user_id q.user_id
        then ok f.connection_id
        else err (invalid "broker OAuth state does not belong to this session"))
own_connection_lem q f = elim (Bool-cases (eq_ℤ f.workspace_id q.workspace_id)) [
  | inl e ↦ elim (Bool-cases (eq_ℤ f.user_id q.user_id)) [
    | inl k ↦ rw (e, k) refl
    | inr k ↦ rw (e, k) refl
  ]
  | inr e ↦ rw e refl
]

module _ (digest : Text → List ℕ) where
  abbrev pub flow_begun : ℕ → Text → Principal → ℤ → Instant → BrokerOAuthFlow
  flow_begun ttl state p connection now = record {
    state_hash = hash_token digest state;
    connection_id = connection;
    workspace_id = p.workspace_id;
    user_id = p.user_id;
    expires_at = add_seconds now ttl;
  }

  begun :
      (ttl : ℕ) (state : Text) (p : Principal) (connection : ℤ) (now : Instant) (s : AuthState)
      → (begin_broker_oauth digest ttl state p connection now s).0 ≡ ok tt
      → let f = flow_begun ttl state p connection now in
        ((create_flow state_hash expires_at now f s.broker_flows).0 ≡ ok tt)
        × ((begin_broker_oauth digest ttl state p connection now s).1.broker_flows
            ≡ (create_flow state_hash expires_at now f s.broker_flows).1)
  unfolding begin_broker_oauth create_broker_oauth_flow
  begun ttl state p connection now s h =
      elim (Bool-cases (
        not (ltb_ℤ (pos 0) p.user_id)
        || not (ltb_ℤ (pos 0) p.workspace_id)
        || not (ltb_ℤ (pos 0) connection))) [
          | inl e ↦ absurd (cc (rw (begin_broker_oauth, e) at h))
          | inr e ↦ (rw (begin_broker_oauth, e) at h, rw (begin_broker_oauth, e) refl)
        ]

  -- The state that a user's authorization of a connection began with, whatever flows are begun before
  -- its expiry, and whatever other states are taken, between: before the expiry it answers the
  -- connection to a session of the same user and workspace, and an error to any other. It is used up
  -- either way: another call with it finds nothing.
  pub broker_oauth_returns :
      (ttl : ℕ) (state : Text) (p q : Principal) (connection : ℤ) (now now' now'' : Instant)
      (cs : List (FlowCall BrokerOAuthFlow)) (s s' : AuthState)
      → trim_space state ≡ state
      → (begin_broker_oauth digest ttl state p connection now s).0 ≡ ok tt
      → LeavesFlow state_hash expires_at (flow_begun ttl state p connection now) cs
      → s'.broker_flows
        ≡ (run_flows state_hash expires_at cs
            (begin_broker_oauth digest ttl state p connection now s).1.broker_flows).1
      → stamp_le (add_seconds now ttl) now' ≡ false
      → let (r, s'') = consume_broker_oauth digest q state now' s' in
        (r ≡ (
          if eq_ℤ p.workspace_id q.workspace_id && eq_ℤ p.user_id q.user_id
          then ok connection
          else err (invalid "broker OAuth state does not belong to this session")))
        × ((consume_broker_oauth digest q state now'' s'').0 ≡ err not_found)
  unfolding consume_broker_oauth consume_broker_oauth_flow
  broker_oauth_returns ttl state p q connection now now' now'' cs s s' t b l e k =
      let f = flow_begun ttl state p connection now in
      let (c, kept) = begun ttl state p connection now s b in
      let (one, two) =
        created_flow_returns state_hash expires_at now now' now'' f cs s.broker_flows c l k in
      let fs =
        (run_flows state_hash expires_at cs
          (create_flow state_hash expires_at now f s.broker_flows).1).1 in
      let stored : s'.broker_flows ≡ fs =
        e ∙ ap (λ x. (run_flows state_hash expires_at cs x).1) kept in
      (
        simp (t, stored) (ap (own_connection q) one ∙ own_connection_lem q f),
        simp (t, stored) (ap (own_connection q) two),
      )
