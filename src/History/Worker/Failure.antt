-- ===== src/History/Worker/Failure.antt =====
-- When a job that failed is taken up again.
use mathlib.Core.List.{Memᴰ}
use traio.Prelude.{
  ℕ, ◌*◌, ◌≡◌, refl, min, String, Bool, true, not, ◌&&◌, ◌||◌, List, [], ◌∷◌, ok, arith, ltb, leb,
  str_eq, if◌then◌else◌, Bool-cases, inl, inr,
}
use traio.History.Jobs.{
  Clock, nano_key, Status, needs_action, failed, retry_wait, Job, is_ready, is_final, retry_delay,
  holds_lease, rows_affected, set_where, under_lease, finished_job, finish,
}
use traio.History.Worker.{failure, needs_user, failure_status, finish_failure}

-- The failures that are for the user.
abbrev pub is_for_user : String → Bool
is_for_user code =
    str_eq code "source_not_configured"
    || str_eq code "source_authentication_required"
    || str_eq code "history_not_supported"
    || str_eq code "history_account_not_found"
    || str_eq code "history_account_not_connected"
    || str_eq code "import_invalid"
    || str_eq code "import_expired"

needs_user-for_user : (code : String) → needs_user code ≡ is_for_user code
needs_user-for_user code = ground arith

status_lem :
    (attempt : ℕ) (code : String)
    → failure_status attempt code
      ≡ (if is_for_user code then needs_action else if ltb attempt 5 then retry_wait else failed)
unfolding failure_status
status_lem attempt code = elim (Bool-cases (leb 5 attempt)) [
  | inl e ↦ rw (needs_user-for_user code) (ground (arith, e))
  | inr e ↦ rw (needs_user-for_user code) (ground (arith, e))
]

status-final : (attempt : ℕ) (code : String) → is_final (failure_status attempt code) ≡ true
unfolding failure_status
status-final attempt code = elim (Bool-cases (needs_user code)) [
  | inl e ↦ rw e refl
  | inr e ↦ elim (Bool-cases (leb 5 attempt)) [ inl f ↦ rw (e, f) refl | inr f ↦ rw (e, f) refl ]
]

module _ {R : Type 0} where
  mem-set_where_held :
      (p : Job R → Bool) (f : Job R → Job R) (table : List (Job R)) {x : Job R}
      → Memᴰ x table
      → p x ≡ true
      → Memᴰ (f x) (set_where p f table)
  unfolding set_where
  mem-set_where_held p f [] m h = elim m [ ]
  mem-set_where_held p f (j ∷ rows) {x} (Memᴰ.head e) h = Memᴰ.head (rw (← e, h) refl)
  mem-set_where_held p f (j ∷ rows) (Memᴰ.tail m) h = Memᴰ.tail (mem-set_where_held p f rows m h)

  -- What is left of the row of a job that failed.
  pub record IsFailed (c : Clock) (job : Job R) (code : String) (table : List (Job R)) (row : Job R)
      : Type 0 where
    pub left : Job R
    pub member : Memᴰ left table
    pub same_id : left.id ≡ row.id
    pub same_request : left.request ≡ row.request
    pub same_phase : left.phase ≡ row.phase
    pub reason : left.error ≡ code
    pub no_lease : left.lease_until ≡ 0
    pub status : left.status ≡ (
        if is_for_user code then needs_action else if ltb job.attempt 5 then retry_wait else failed)
    pub ready :
        (now : ℕ)
        → is_ready now left ≡ (
            not (is_for_user code)
            && ltb job.attempt 5
            && leb (nano_key c (60 * min (job.attempt * job.attempt) 60)) now)

  -- When the row left is ready.
  failed-ready :
      (c : Clock) (job row : Job R) (code : String) (now : ℕ)
      → is_ready now (finished_job c job (failure_status job.attempt code) job.counts code row) ≡ (
          not (is_for_user code)
          && ltb job.attempt 5
          && leb (nano_key c (60 * min (job.attempt * job.attempt) 60)) now)
  unfolding is_ready failure_status retry_delay
  failed-ready c job row code now =
      rw (← needs_user-for_user code) (elim (Bool-cases (needs_user code)) [
        | inl e ↦ rw e refl
        | inr e ↦ elim (Bool-cases (leb 5 job.attempt)) [
          | inl f ↦ rw (e, f) (ground (arith, f))
          | inr f ↦ rw (e, f) (ground (arith, f))
        ]
      ])

  finish-held :
      (c : Clock) (job : Job R) (status : Status) (message : String) (table : List (Job R))
      → is_final status ≡ true
      → rows_affected (holds_lease c job) table ≡ 1
      → finish c job status job.counts message table
        ≡ ok (set_where (holds_lease c job) (finished_job c job status job.counts message) table)
  unfolding finish under_lease
  finish-held c job status message table h n = rw (h, n) refl

  finish_failure-held :
      (c : Clock) (job : Job R) (code : String) (table : List (Job R))
      → rows_affected (holds_lease c job) table ≡ 1
      → finish_failure c job (failure code) table
        ≡ set_where
            (holds_lease c job)
            (finished_job c job (failure_status job.attempt code) job.counts code)
            table
  unfolding finish_failure
  finish_failure-held c job code table n =
      rw
        (
          finish_failure,
          finish-held c job (failure_status job.attempt code) code table
              (status-final job.attempt code) n,
        )
        refl

  -- A failure is recorded while the job's lease is held: of the row under the lease, finishFailure
  -- leaves one with its id, request and phase, the failure's code as its error and no lease. Its status
  -- asks for the user where the failure is one of the seven that are for the user, and else is to be
  -- retried, or failed from the fifth attempt on. A worker may claim it again only where it is to be
  -- retried, and then from the end of a wait of 60 seconds times the square of the attempt, an hour at
  -- most.
  pub finish_failure-IsFailed :
      (c : Clock) (job row : Job R) (code : String) (table : List (Job R))
      → rows_affected (holds_lease c job) table ≡ 1
      → Memᴰ row table
      → holds_lease c job row ≡ true
      → IsFailed c job code (finish_failure c job (failure code) table) row
  finish_failure-IsFailed c job row code table n m h =
      let f = finished_job c job (failure_status job.attempt code) job.counts code in
      rw (finish_failure-held c job code table n) (record {
        left = f row;
        member = mem-set_where_held (holds_lease c job) f table m h;
        same_id = refl;
        same_request = refl;
        same_phase = refl;
        reason = refl;
        no_lease = refl;
        status = status_lem job.attempt code;
        ready = λ now. failed-ready c job row code now;
      })
