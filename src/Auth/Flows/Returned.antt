-- ===== src/Auth/Flows/Returned.antt =====
-- A flow that is created comes back: until it expires, and once.
use traio.Prelude.{
  ◌≡◌, refl, ap, ◌∙◌, true, false, List, [], ◌∷◌, none, some, ok, err, Bool-cases, Option-cases,
  inl, inr, some-eq,
}
use traio.Text.{Text, text_eq, text_eq_iff}
use traio.Auth.Stamp.{Instant, stamp_le}
use traio.Auth.Tables.{not_found}
use traio.Auth.Flows.{
  drop_expired, find_flow, remove_flow, insert_flow, create_flow, take_flow, consume_flow,
}
use traio.Auth.Flows.Once.{FlowCall, create, consume, run_flows}

pub text_eq_refl : (s : Text) → text_eq s s ≡ true
text_eq_refl s = (text_eq_iff s s).1 refl

module _ {A : Type 0} (state_hash : A → Text) (expires_at : A → Instant) where
  -- The calls that leave a flow where it is: none consumes its hash, and all that create one are
  -- before its expiry.
  abbrev pub LeavesFlow : A → List (FlowCall A) → Type 0
  LeavesFlow f [] = Unit {0}
  LeavesFlow f (create now g ∷ cs) = (stamp_le (expires_at f) now ≡ false) × LeavesFlow f cs
  LeavesFlow f (consume h now ∷ cs) = (text_eq (state_hash f) h ≡ false) × LeavesFlow f cs

  find_flow-drop_expired :
      (h : Text) (now : Instant) (f : A) (fs : List A)
      → find_flow state_hash expires_at h fs ≡ some f
      → stamp_le (expires_at f) now ≡ false
      → find_flow state_hash expires_at h (drop_expired state_hash expires_at now fs) ≡ some f
  unfolding find_flow drop_expired
  find_flow-drop_expired h now f [] e k = cc
  find_flow-drop_expired h now f (x ∷ fs) e k = elim (Bool-cases (text_eq (state_hash x) h)) [
    | inl t ↦
        let s : x ≡ f = some-eq (rw t at e) in
        let kept : stamp_le (expires_at x) now ≡ false = rw s k in rw (kept, t) (ap some s)
    | inr t ↦ elim (Bool-cases (stamp_le (expires_at x) now)) [
      | inl d ↦ rw d (find_flow-drop_expired h now f fs (rw t at e) k)
      | inr d ↦ rw (d, t) (find_flow-drop_expired h now f fs (rw t at e) k)
    ]
  ]

  find_flow-remove_flow :
      (h g : Text) (fs : List A)
      → text_eq h g ≡ false
      → find_flow state_hash expires_at h (remove_flow state_hash expires_at g fs)
        ≡ find_flow state_hash expires_at h fs
  unfolding find_flow remove_flow
  find_flow-remove_flow h g [] n = refl
  find_flow-remove_flow h g (x ∷ fs) n = elim (Bool-cases (text_eq (state_hash x) g)) [
    | inl t ↦ elim (Bool-cases (text_eq (state_hash x) h)) [
      | inl k ↦ absurd (
          cc (
            (text_eq_iff (state_hash x) g).0 t,
            (text_eq_iff (state_hash x) h).0 k,
            text_eq_refl g,
          ))
      | inr k ↦ rw (t, k) (find_flow-remove_flow h g fs n)
    ]
    | inr t ↦ elim (Bool-cases (text_eq (state_hash x) h)) [
      | inl k ↦ rw (t, k) refl
      | inr k ↦ rw (t, k) (find_flow-remove_flow h g fs n)
    ]
  ]

  pub find_flow-removed :
      (h : Text) (fs : List A)
      → find_flow state_hash expires_at h (remove_flow state_hash expires_at h fs) ≡ none
  unfolding find_flow remove_flow
  find_flow-removed h [] = refl
  find_flow-removed h (x ∷ fs) = elim (Bool-cases (text_eq (state_hash x) h)) [
    | inl t ↦ rw t (find_flow-removed h fs)
    | inr t ↦ rw (t, t) (find_flow-removed h fs)
  ]

  -- Another call keeps the row.
  create-keeps :
      (h : Text) (now : Instant) (f g : A) (fs : List A)
      → find_flow state_hash expires_at h fs ≡ some f
      → stamp_le (expires_at f) now ≡ false
      → find_flow state_hash expires_at h (create_flow state_hash expires_at now g fs).1 ≡ some f
  unfolding create_flow insert_flow find_flow
  create-keeps h now f g fs e k =
      let kept = drop_expired state_hash expires_at now fs in
      let here = find_flow-drop_expired h now f fs e k in
      elim (Option-cases (find_flow state_hash expires_at (state_hash g) kept)) [
        | inr (x, d) ↦ rw (create_flow, d) here
        | inl d ↦ elim (Bool-cases (text_eq (state_hash g) h)) [
          | inl t ↦ absurd (cc ((text_eq_iff (state_hash g) h).0 t, here, d))
          | inr t ↦ rw (create_flow, d, insert_flow, find_flow, t) here
        ]
      ]

  consume-keeps :
      (h g : Text) (now : Instant) (f : A) (fs : List A)
      → find_flow state_hash expires_at h fs ≡ some f
      → text_eq h g ≡ false
      → find_flow state_hash expires_at h (consume_flow state_hash expires_at g now fs).1 ≡ some f
  unfolding consume_flow take_flow
  consume-keeps h g now f fs e n = elim (Option-cases (find_flow state_hash expires_at g fs)) [
    | inl d ↦ rw (consume_flow, d) e
    | inr (x, d) ↦ elim (Bool-cases (stamp_le (expires_at x) now)) [
      | inl k ↦ rw (consume_flow, d, take_flow, k) e
      | inr k ↦ rw (consume_flow, d, take_flow, k) (find_flow-remove_flow h g fs n ∙ e)
    ]
  ]

  run_flows-keeps :
      (f : A) (cs : List (FlowCall A)) (fs : List A)
      → LeavesFlow f cs
      → find_flow state_hash expires_at (state_hash f) fs ≡ some f
      → find_flow state_hash expires_at (state_hash f) (run_flows state_hash expires_at cs fs).1
        ≡ some f
  unfolding run_flows
  run_flows-keeps f [] fs l e = e
  run_flows-keeps f (create now g ∷ cs) fs l e =
      run_flows-keeps f cs _ l.1 (create-keeps (state_hash f) now f g fs e l.0)
  run_flows-keeps f (consume h now ∷ cs) fs l e =
      run_flows-keeps f cs _ l.1 (consume-keeps (state_hash f) h now f fs e l.0)

  created-IsStored :
      (now : Instant) (f : A) (fs : List A)
      → (create_flow state_hash expires_at now f fs).0 ≡ ok tt
      → find_flow state_hash expires_at
          (state_hash f)
          (create_flow state_hash expires_at now f fs).1
        ≡ some f
  unfolding create_flow insert_flow find_flow
  created-IsStored now f fs e =
      elim (Option-cases (
        find_flow state_hash expires_at (state_hash f)
          (drop_expired state_hash expires_at now fs))) [
            | inl d ↦ rw (create_flow, d, insert_flow, find_flow, text_eq_refl (state_hash f)) refl
            | inr (x, d) ↦ absurd (cc (rw (create_flow, d) at e))
          ]

  -- A flow that was created with success is handed out to a call with its hash before it expires,
  -- whatever calls come between, as long as they consume other hashes and create flows before that
  -- expiry. A second call with its hash finds nothing, at any time.
  pub created_flow_returns :
      (now now' now'' : Instant) (f : A) (cs : List (FlowCall A)) (fs : List A)
      → (create_flow state_hash expires_at now f fs).0 ≡ ok tt
      → LeavesFlow f cs
      → stamp_le (expires_at f) now' ≡ false
      → let fs1 =
          (run_flows state_hash expires_at cs (create_flow state_hash expires_at now f fs).1).1 in
        let (r, fs2) = consume_flow state_hash expires_at (state_hash f) now' fs1 in
        (r ≡ ok f)
        × ((consume_flow state_hash expires_at (state_hash f) now'' fs2).0 ≡ err not_found)
  unfolding consume_flow take_flow
  created_flow_returns now now' now'' f cs fs c l k =
      let fs1 =
        (run_flows state_hash expires_at cs (create_flow state_hash expires_at now f fs).1).1 in
      let e = run_flows-keeps f cs _ l (created-IsStored now f fs c) in
      rw (consume_flow, e, take_flow, k)
        (refl, rw (consume_flow, find_flow-removed (state_hash f) fs1) refl)
