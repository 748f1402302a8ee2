-- ===== src/History/Jobs/Ready.antt =====
-- Which row a claim takes, written with the row's fields and without the tests of the code.
use mathlib.Core.List.{Memᴰ}
use traio.Prelude.{
  ℕ, ◌≤◌, ◌<◌, ◌+◌, ◌≡◌, ◌≢◌, ◌↔◌, ◌⊎◌, refl, String, Bool, true, false, ◌&&◌, List, [], ◌∷◌, map,
  Option, none, some, Result, ok, err, arith, str_eq, eq_iff, Bool-cases, inl, inr, if◌then◌else◌,
}
use traio.History.Jobs.{
  Clock, now_key, nano_key, Status, queued, running, retry_wait, Job, JobError, not_found,
  worker_owner_required, is_running, is_live, same_scope, is_busy, is_ready, is_candidate, older,
  oldest_candidate, set_where, leased, has_id, lease_picked, claim,
}
use traio.History.Jobs.Exclusive.{oldest_candidate-mem}
use traio.History.Jobs.Claim.{not_busy}

running_iff : (s : Status) → (is_running s ≡ true) ↔ (s ≡ running)
running_iff running = (λ h. refl, λ e. refl)
running_iff s = ground arith

module _ {R : Type 0} where
  -- It waits and its time has come, or it runs under a lease that has run out.
  abbrev pub IsReady : ℕ → Job R → Type 0
  IsReady now j =
      (((j.status ≡ queued) ⊎ (j.status ≡ retry_wait)) × (j.next_attempt_at ≤ now))
      ⊎ ((j.status ≡ running) × (j.lease_until < now))

  -- No other row of its source and connection runs under a lease that has not run out.
  abbrev pub IsFree : ℕ → List (Job R) → Job R → Type 0
  IsFree now table j =
      (b : Job R)
      → Memᴰ b table
      → b.status ≡ running
      → now < b.lease_until
      → b.source ≡ j.source
      → b.connection ≡ j.connection
      → b.id ≡ j.id

  is_ready_iff : (now : ℕ) (j : Job R) → (is_ready now j ≡ true) ↔ IsReady now j
  unfolding is_ready
  is_ready_iff now j = from j.status refl
    where
      from : (s : Status) → j.status ≡ s → (is_ready now j ≡ true) ↔ IsReady now j
      from queued e = ground (arith, e)
      from retry_wait e = ground (arith, e)
      from running e = ground (arith, e)
      from s e = ground (arith, e)

  is_live_iff :
      (now : ℕ) (b : Job R)
      → (is_live now b ≡ true) ↔ ((b.status ≡ running) × (now < b.lease_until))
  unfolding is_live
  is_live_iff now b = ground (arith, running_iff b.status)

  same_scope_iff :
      (a b : Job R)
      → (same_scope a b ≡ true) ↔ ((a.source ≡ b.source) × (a.connection ≡ b.connection))
  same_scope_iff a b = ground (arith, eq_iff a.source b.source)

  not_busy-IsFree :
      (now : ℕ) (j : Job R) (rows : List (Job R)) → IsFree now rows j → is_busy now j rows ≡ false
  unfolding is_busy
  not_busy-IsFree now j [] h = refl
  not_busy-IsFree now j (b ∷ rows) h =
      let rest = not_busy-IsFree now j rows (λ x m. h x (Memᴰ.tail m)) in
      elim (Bool-cases (is_live now b && same_scope b j)) [
        | inl e ↦
            let (r, l) = (is_live_iff now b).0 (ground (arith, e)) in
            let (s, c) = (same_scope_iff b j).0 (ground (arith, e)) in
            let k = h b (Memᴰ.head refl) r l s c in ground (arith, rest, k, eq_iff b.id j.id)
        | inr e ↦ ground (arith, rest, e)
      ]

  is_busy_iff :
      (now : ℕ) (table : List (Job R)) (j : Job R)
      → (is_busy now j table ≡ false) ↔ IsFree now table j
  is_busy_iff now table j = (
    λ e b m r l s c. ground (
      arith,
      not_busy now j table e m,
      (is_live_iff now b).1 (r, l),
      (same_scope_iff b j).1 (s, c),
      eq_iff b.id j.id,
    ),
    not_busy-IsFree now j table,
  )

  is_candidate_iff :
      (now : ℕ) (table : List (Job R)) (j : Job R)
      → (is_candidate now table j ≡ true) ↔ (IsReady now j × IsFree now table j)
  is_candidate_iff now table j = (
    λ h. (
      (is_ready_iff now j).0 (ground (arith, h)),
      (is_busy_iff now table j).0 (ground (arith, h)),
    ),
    λ (r, f). ground (arith, (is_ready_iff now j).1 r, (is_busy_iff now table j).1 f),
  )

  -- No row of the list that may be taken is older than the one picked, if one is.
  abbrev NoneOlder : ℕ → List (Job R) → List (Job R) → Option (Job R) → Type 0
  NoneOlder now table rows none = (b : Job R) → Memᴰ b rows → is_candidate now table b ≡ true → ⊥
  NoneOlder now table rows (some k) =
      (b : Job R) → Memᴰ b rows → is_candidate now table b ≡ true → k.created_at ≤ b.created_at

  older-NoneOlder :
      (now : ℕ) (table : List (Job R)) (j : Job R) (rows : List (Job R)) (o : Option (Job R))
      → NoneOlder now table rows o
      → NoneOlder now table (j ∷ rows) (some (older j o))
  older-NoneOlder now table j rows none h b (Memᴰ.head p) c = rw p (omega arith)
  older-NoneOlder now table j rows none h b (Memᴰ.tail m) c = absurd (h b m c)
  older-NoneOlder now table j rows (some k) h b (Memᴰ.head p) c = rw p (ground arith)
  older-NoneOlder now table j rows (some k) h b (Memᴰ.tail m) c = ground (arith, h b m c)

  skip_mem :
      (now : ℕ) (table : List (Job R)) (j : Job R) (rows : List (Job R))
      → is_candidate now table j ≡ false
      → {b : Job R} → Memᴰ b (j ∷ rows)
      → is_candidate now table b ≡ true
      → Memᴰ b rows
  skip_mem now table j rows n (Memᴰ.head p) c = cc
  skip_mem now table j rows n (Memᴰ.tail m) c = m

  skip-NoneOlder :
      (now : ℕ) (table : List (Job R)) (j : Job R) (rows : List (Job R)) (o : Option (Job R))
      → is_candidate now table j ≡ false
      → NoneOlder now table rows o
      → NoneOlder now table (j ∷ rows) o
  skip-NoneOlder now table j rows none n h = λ b m c. h b (skip_mem now table j rows n m c) c
  skip-NoneOlder now table j rows (some k) n h = λ b m c. h b (skip_mem now table j rows n m c) c

  oldest-NoneOlder :
      (now : ℕ) (table rows : List (Job R))
      → NoneOlder now table rows (oldest_candidate now table rows)
  unfolding oldest_candidate
  oldest-NoneOlder now table [] = λ b m c. elim m [ ]
  oldest-NoneOlder now table (j ∷ rows) = elim (Bool-cases (is_candidate now table j)) [
    | inl c ↦ rw c (
        older-NoneOlder now table j rows (oldest_candidate now table rows)
          (oldest-NoneOlder now table rows))
    | inr c ↦ rw c (
        skip-NoneOlder now table j rows (oldest_candidate now table rows) c
          (oldest-NoneOlder now table rows))
  ]

  -- The row that a claim leaves of the one picked.
  abbrev pub taken_row : String → Clock → Job R → Job R
  taken_row owner c j = record j {
    status = running;
    lease_owner = owner;
    lease_generation = j.lease_generation + 1;
    lease_until = nano_key c 120;
    attempt = j.attempt + 1;
    updated_at = now_key c;
  }

  set_where-map :
      (p : Job R → Bool) (f : Job R → Job R) (table : List (Job R))
      → set_where p f table ≡ map (λ b. if p b then f b else b) table
  unfolding set_where
  set_where-map p f [] = refl
  set_where-map p f (j ∷ rows) = rw (set_where-map p f rows) refl

  -- The job that is answered, and the table left.
  pub record IsClaim (owner : String) (c : Clock) (table : List (Job R)) (j : Job R)
      (t : List (Job R)) : Type 0 where
    pub picked : Job R
    pub member : Memᴰ picked table
    pub is_due : IsReady (now_key c) picked
    pub is_free : IsFree (now_key c) table picked
    pub is_oldest :
        (b : Job R)
        → Memᴰ b table
        → IsReady (now_key c) b
        → IsFree (now_key c) table b
        → picked.created_at ≤ b.created_at
    pub job : j ≡ taken_row owner c picked
    pub left : t ≡ map (λ b. if str_eq b.id picked.id then taken_row owner c b else b) table

  -- What a claim answers on a table.
  abbrev pub Claims :
      String → Clock → List (Job R) → Result JobError (Job R × List (Job R)) → Type 0
  Claims owner c table (ok (j, t)) = (owner ≢ "") × IsClaim owner c table j t
  Claims owner c table (err e) =
      ((owner ≡ "") × (e ≡ worker_owner_required))
      ⊎ ((e ≡ not_found)
          × ((b : Job R) → Memᴰ b table → IsReady (now_key c) b → IsFree (now_key c) table b → ⊥))

  picked-Claims :
      (owner : String) (c : Clock) (table : List (Job R)) (o : Option (Job R))
      → owner ≢ ""
      → oldest_candidate (now_key c) table table ≡ o
      → NoneOlder (now_key c) table table o
      → Claims owner c table (lease_picked owner c table o)
  unfolding lease_picked
  picked-Claims owner c table none n e h =
      inr (refl, λ b m r f. h b m ((is_candidate_iff (now_key c) table b).1 (r, f)))
  picked-Claims owner c table (some k) n e h =
      let (m, d) = oldest_candidate-mem (now_key c) table table e in
      let (r, f) = (is_candidate_iff (now_key c) table k).0 d in
      (
        n,
        record {
          picked = k;
          member = m;
          is_due = r;
          is_free = f;
          is_oldest = λ b l s g. h b l ((is_candidate_iff (now_key c) table b).1 (s, g));
          job = refl;
          left = set_where-map (has_id k.id) (leased owner c) table;
        },
      )

  -- A claim without an owner is refused. Another answers a job exactly where some row is due (it waits
  -- and its time has come, or its lease has run out) and free (no other row of its source and
  -- connection runs under a live lease): the oldest such row, running for two minutes under this owner,
  -- with the next generation and attempt; the table left is the one before with this row so changed.
  -- Where no row is due and free, it answers that there is none.
  pub claim-Claims :
      (owner : String) (c : Clock) (table : List (Job R))
      → Claims owner c table (claim owner c table)
  unfolding claim
  claim-Claims owner c table = elim (Bool-cases (str_eq owner "")) [
    | inl b ↦ rw b (inl ((eq_iff owner "").0 b, refl))
    | inr b ↦ rw b (
        picked-Claims owner c table (oldest_candidate (now_key c) table table)
          (λ e. cc (b, (eq_iff owner "").1 e)) refl (oldest-NoneOlder (now_key c) table table))
  ]
