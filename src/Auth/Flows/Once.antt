-- ===== src/Auth/Flows/Once.antt =====
-- The flows under any sequence of calls that create and consume them.
use traio.Prelude.{
  ℕ, ◌+◌, ◌≤◌, ◌≡◌, refl, List, [], ◌∷◌, some, Result, ok, err, if◌then◌else◌, arith, Bool-cases,
  Option-cases, inl, inr, some-eq,
}
use traio.Text.{Text, text_eq}
use traio.Auth.Stamp.{Instant, stamp_le}
use traio.Auth.Tables.{AuthError}
use traio.Auth.Flows.{
  drop_expired, find_flow, remove_flow, insert_flow, create_flow, take_flow, consume_flow,
}

pub data FlowCall (A : Type 0) : Type 0 where
  create : Instant → A → FlowCall A
  consume : Text → Instant → FlowCall A

module _ {A : Type 0} (state_hash : A → Text) (expires_at : A → Instant) where
  -- The number of rows with a hash.
  unfoldable pub rows_of : Text → List A → ℕ
  rows_of h [] = 0
  rows_of h (f ∷ fs) = (if text_eq (state_hash f) h then 1 else 0) + rows_of h fs

  -- The calls that create a hash.
  unfoldable pub created_of : Text → List (FlowCall A) → ℕ
  created_of h [] = 0
  created_of h (create now f ∷ cs) = (if text_eq (state_hash f) h then 1 else 0) + created_of h cs
  created_of h (consume g now ∷ cs) = created_of h cs

  abbrev taken : Result AuthError A → List A → List A
  taken (ok f) fs = f ∷ fs
  taken (err reason) fs = fs

  -- The flows that the calls hand out, and the table left.
  unfoldable pub run_flows : List (FlowCall A) → List A → List A × List A
  unfolding create_flow consume_flow
  run_flows [] fs = ([], fs)
  run_flows (create now f ∷ cs) fs = run_flows cs (create_flow state_hash expires_at now f fs).1
  run_flows (consume h now ∷ cs) fs =
      let (r, fs') = consume_flow state_hash expires_at h now fs in
      let (out, left) = run_flows cs fs' in (taken r out, left)

  rows_of-drop_expired :
      (h : Text) (now : Instant) (fs : List A)
      → rows_of h (drop_expired state_hash expires_at now fs) ≤ rows_of h fs
  unfolding rows_of drop_expired
  rows_of-drop_expired h now [] = omega arith
  rows_of-drop_expired h now (f ∷ fs) = elim (Bool-cases (stamp_le (expires_at f) now)) [
    | inl e ↦ rw e (omega (arith, rows_of-drop_expired h now fs))
    | inr e ↦ rw e (omega (arith, rows_of-drop_expired h now fs))
  ]

  rows_of-create :
      (h : Text) (now : Instant) (f : A) (fs : List A)
      → rows_of h (create_flow state_hash expires_at now f fs).1
        ≤ (if text_eq (state_hash f) h then 1 else 0) + rows_of h fs
  unfolding rows_of create_flow insert_flow
  rows_of-create h now f fs =
      let kept = drop_expired state_hash expires_at now fs in
      elim (Option-cases (find_flow state_hash expires_at (state_hash f) kept)) [
        | inl e ↦ rw (create_flow, e) (omega (arith, rows_of-drop_expired h now fs))
        | inr (g, e) ↦ rw (create_flow, e) (omega (arith, rows_of-drop_expired h now fs))
      ]

  rows_of-remove_flow :
      (h g : Text) (fs : List A) → rows_of h (remove_flow state_hash expires_at g fs) ≤ rows_of h fs
  unfolding rows_of remove_flow
  rows_of-remove_flow h g [] = omega arith
  rows_of-remove_flow h g (f ∷ fs) = elim (Bool-cases (text_eq (state_hash f) g)) [
    | inl e ↦ rw e (omega (arith, rows_of-remove_flow h g fs))
    | inr e ↦ rw e (omega (arith, rows_of-remove_flow h g fs))
  ]

  -- A row that is handed out is gone.
  rows_of-take :
      (h g : Text) (f : A) (fs : List A)
      → find_flow state_hash expires_at g fs ≡ some f
      → (if text_eq (state_hash f) h then 1 else 0)
          + rows_of h (remove_flow state_hash expires_at g fs)
        ≤ rows_of h fs
  unfolding rows_of remove_flow find_flow
  rows_of-take h g f [] e = cc
  rows_of-take h g f (x ∷ fs) e = elim (Bool-cases (text_eq (state_hash x) g)) [
    | inl k ↦
        let s : x ≡ f = some-eq (rw k at e) in rw (k, s) (omega (arith, rows_of-remove_flow h g fs))
    | inr k ↦ rw k (omega (arith, rows_of-take h g f fs (rw k at e)))
  ]

  rows_of-consume :
      (h g : Text) (now : Instant) (fs out : List A)
      → rows_of h (taken (consume_flow state_hash expires_at g now fs).0 out)
          + rows_of h (consume_flow state_hash expires_at g now fs).1
        ≤ rows_of h out + rows_of h fs
  unfolding rows_of consume_flow take_flow
  rows_of-consume h g now fs out = elim (Option-cases (find_flow state_hash expires_at g fs)) [
    | inl e ↦ rw (consume_flow, e) (omega arith)
    | inr (f, e) ↦ elim (Bool-cases (stamp_le (expires_at f) now)) [
      | inl k ↦ rw (consume_flow, e, take_flow, k) (omega arith)
      | inr k ↦ rw (consume_flow, e, take_flow, k) (omega (arith, rows_of-take h g f fs e))
    ]
  ]

  rows_of-nil : (h : Text) → rows_of h [] ≡ 0
  unfolding rows_of
  rows_of-nil h = refl

  -- Whatever calls create and consume flows, one transaction each: the flows of a hash that they hand
  -- out, with those still stored at the end, are no more than those stored at the start and the calls
  -- that created one. So a hash that is created once is handed out once at most.
  pub run_flows_once :
      (h : Text) (cs : List (FlowCall A)) (fs : List A)
      → rows_of h (run_flows cs fs).0 + rows_of h (run_flows cs fs).1
        ≤ rows_of h fs + created_of h cs
  unfolding run_flows created_of
  run_flows_once h [] fs = rw (rows_of-nil h) (omega arith)
  run_flows_once h (create now f ∷ cs) fs = omega (
    arith,
    run_flows_once h cs (create_flow state_hash expires_at now f fs).1,
    rows_of-create h now f fs,
  )
  run_flows_once h (consume g now ∷ cs) fs =
      let fs' = (consume_flow state_hash expires_at g now fs).1 in
      omega (arith, run_flows_once h cs fs', rows_of-consume h g now fs (run_flows cs fs').0)
