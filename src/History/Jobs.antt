-- ===== src/History/Jobs.antt =====
-- internal/store/activity_jobs.go: the table `broker_history_jobs` and the operations that move a job
-- between its statuses under a lease. The table is the list of its rows, and an operation is one
-- transaction: a function from the table to the table left.
--
-- Each operation reads the clock once.
--
-- Times. The database compares time texts. `now` is written in whole seconds (time.RFC3339), a lease or
-- a next attempt with its fraction (time.RFC3339Nano, no fraction where it is 0). A text with a
-- fraction sorts before the text of its own whole second ('.' < 'Z'), so the order of the texts is
-- that of the keys below; 0 is the empty text. Two texts with fractions are never compared.
pub mod Exclusive
pub mod Claim
pub mod Ready
pub mod Reach
pub mod Fencing
use traio.Prelude.{
  ℕ, ◌+◌, ◌*◌, min, String, Bool, true, false, not, ◌&&◌, ◌||◌, ◌==◌, List, [], ◌∷◌, Option, none,
  some, Result, ok, err, ltb, leb, str_eq, map, if◌then◌else◌,
}
use traio.Prelude.Int.{ℤ}
use traio.Activity.Types.{eq_ℤ}

pub record Clock : Type 0 where
  pub seconds : ℕ
  pub nanos : ℕ

-- The key of `nowRFC3339()`.
abbrev pub now_key : Clock → ℕ
now_key c = 2 * c.seconds + 1

-- The key of `time.Now().UTC().Add(d).Format(time.RFC3339Nano)`, for d whole seconds.
abbrev pub nano_key : Clock → ℕ → ℕ
nano_key c d = if c.nanos == 0 then 2 * (c.seconds + d) + 1 else 2 * (c.seconds + d)

pub data Status : Type 0 where
  queued running succeeded partial retry_wait needs_action failed cancelled : Status

pub data Phase : Type 0 where
  fetch normalize : Phase

pub record HistoryCounts : Type 0 where
  pub records : ℕ
  pub added : ℕ
  pub updated : ℕ
  pub duplicates : ℕ
  pub unsupported : ℕ
  pub conflicts : ℕ

-- A row. `connection` is 0 where the column is NULL, so that equal numbers are SQL's
-- `a=b OR (a IS NULL AND b IS NULL)`. `R` is the type of the request's JSON.
pub record Job (R : Type 0) : Type 0 where
  pub id : String
  pub connection : ℤ
  pub source : String
  pub request : R
  pub status : Status
  pub phase : Phase
  pub lease_owner : String
  pub lease_generation : ℕ
  pub lease_until : ℕ
  pub attempt : ℕ
  pub next_attempt_at : ℕ
  pub counts : HistoryCounts
  pub error : String
  pub created_at : ℕ
  pub updated_at : ℕ

pub data JobError : Type 0 where
  not_found lease_lost invalid_job_status worker_owner_required : JobError

abbrev pub is_running : Status → Bool
is_running running = true
is_running _ = false

abbrev pub is_waiting : Status → Bool
is_waiting queued = true
is_waiting retry_wait = true
is_waiting _ = false

abbrev pub lease_seconds : ℕ
lease_seconds = 120

-- The statuses that a job may be finished with.
abbrev pub is_final : Status → Bool
is_final queued = false
is_final running = false
is_final _ = true

-- The wait before the next attempt, in seconds.
unfoldable pub retry_delay : ℕ → ℕ
retry_delay attempt = 60 * min (attempt * attempt) 60

abbrev pub next_attempt : Clock → Status → ℕ → ℕ
next_attempt c retry_wait attempt = nano_key c (retry_delay attempt)
next_attempt c _ attempt = 0

abbrev pub is_active : Status → Bool
is_active queued = true
is_active running = true
is_active retry_wait = true
is_active _ = false

module _ {R : Type 0} where
  -- A lease that has not run out: `status='running' AND lease_until>now`.
  unfoldable pub is_live : ℕ → Job R → Bool
  is_live now j = is_running j.status && ltb now j.lease_until

  abbrev pub same_scope : Job R → Job R → Bool
  same_scope a b = str_eq a.source b.source && eq_ℤ a.connection b.connection

  -- Another live job of the same source and connection.
  unfoldable pub is_busy : ℕ → Job R → List (Job R) → Bool
  unfolding is_live
  is_busy now j [] = false
  is_busy now j (b ∷ rows) =
      not (str_eq b.id j.id) && is_live now b && same_scope b j || is_busy now j rows

  unfoldable pub is_ready : ℕ → Job R → Bool
  is_ready now j =
      is_waiting j.status && leb j.next_attempt_at now
      || is_running j.status && ltb j.lease_until now

  abbrev pub is_candidate : ℕ → List (Job R) → Job R → Bool
  is_candidate now table j = is_ready now j && not (is_busy now j table)

  -- `ORDER BY created_at LIMIT 1`: the first of the oldest.
  abbrev pub older : Job R → Option (Job R) → Job R
  older j none = j
  older j (some k) = if leb j.created_at k.created_at then j else k

  unfoldable pub oldest_candidate : ℕ → List (Job R) → List (Job R) → Option (Job R)
  unfolding is_ready is_busy
  oldest_candidate now table [] = none
  oldest_candidate now table (j ∷ rows) =
      let rest = oldest_candidate now table rows in
      if is_candidate now table j then some (older j rest) else rest

  -- `UPDATE ... SET f WHERE p`
  unfoldable pub set_where : (Job R → Bool) → (Job R → Job R) → List (Job R) → List (Job R)
  set_where p f [] = []
  set_where p f (j ∷ rows) = (if p j then f j else j) ∷ set_where p f rows

  unfoldable pub rows_affected : (Job R → Bool) → List (Job R) → ℕ
  rows_affected p [] = 0
  rows_affected p (j ∷ rows) = (if p j then 1 else 0) + rows_affected p rows

  abbrev pub leased : String → Clock → Job R → Job R
  leased owner c j = record j {
    status = running;
    lease_owner = owner;
    lease_generation = j.lease_generation + 1;
    lease_until = nano_key c lease_seconds;
    attempt = j.attempt + 1;
    updated_at = now_key c;
  }

  abbrev pub has_id : String → Job R → Bool
  has_id i j = str_eq j.id i

  -- The row that was picked is updated and returned.
  unfoldable pub lease_picked :
      String → Clock → List (Job R) → Option (Job R) → Result JobError (Job R × List (Job R))
  unfolding set_where
  lease_picked owner c table none = err not_found
  lease_picked owner c table (some j) =
      ok (leased owner c j, set_where (has_id j.id) (leased owner c) table)

  -- `ClaimHistoryJob`, without the expiry of import previews (another table).
  unfoldable pub claim : String → Clock → List (Job R) → Result JobError (Job R × List (Job R))
  unfolding oldest_candidate lease_picked
  claim owner c table =
      if str_eq owner ""
      then err worker_owner_required
      else lease_picked owner c table (oldest_candidate (now_key c) table table)

  -- The guard of every write under a lease.
  unfoldable pub holds_lease : Clock → Job R → Job R → Bool
  holds_lease c handle j =
      str_eq j.id handle.id
      && is_running j.status
      && str_eq j.lease_owner handle.lease_owner
      && j.lease_generation == handle.lease_generation
      && ltb (now_key c) j.lease_until

  -- `n, _ := res.RowsAffected(); if n != 1 { return ErrHistoryLeaseLost }`
  unfoldable pub under_lease :
      Clock → Job R → (Job R → Job R) → List (Job R) → Result JobError (List (Job R))
  unfolding holds_lease set_where rows_affected
  under_lease c handle f table =
      if rows_affected (holds_lease c handle) table == 1
      then ok (set_where (holds_lease c handle) f table)
      else err lease_lost

  abbrev pub renewed_job : Clock → Job R → Job R
  renewed_job c j = record j { lease_until = nano_key c lease_seconds; updated_at = now_key c }

  unfoldable pub renew : Clock → Job R → List (Job R) → Result JobError (List (Job R))
  unfolding under_lease
  renew c handle table = under_lease c handle (renewed_job c) table

  abbrev pub touched_job : Clock → Job R → Job R
  touched_job c j = record j { updated_at = now_key c }

  -- `checkHistoryLease` of internal/store/activity_records.go
  unfoldable pub check_lease : Clock → Job R → List (Job R) → Result JobError (List (Job R))
  unfolding under_lease
  check_lease c handle table = under_lease c handle (touched_job c) table

  abbrev pub finished_job : Clock → Job R → Status → HistoryCounts → String → Job R → Job R
  finished_job c handle status counts message j = record j {
    status = status;
    counts = counts;
    error = message;
    next_attempt_at = next_attempt c status handle.attempt;
    lease_until = 0;
    updated_at = now_key c;
  }

  -- `FinishHistoryJob`
  unfoldable pub finish :
      Clock
      → Job R
      → Status
      → HistoryCounts
      → String
      → List (Job R)
      → Result JobError (List (Job R))
  unfolding under_lease retry_delay
  finish c handle status counts message table =
      if not (is_final status)
      then err invalid_job_status
      else under_lease c handle (finished_job c handle status counts message) table

  -- The last write of `SaveHistoryRaw`: the phase moves on, by the row's id.
  unfoldable pub save_phase : Job R → R → List (Job R) → List (Job R)
  unfolding set_where
  save_phase handle request table =
      set_where (has_id handle.id) (λ j. record j { phase = normalize; request = request }) table

  -- `RetryHistoryConnectionFetches`
  unfoldable pub is_retryable : ℤ → Job R → Bool
  is_retryable connection j =
      eq_ℤ j.connection connection
      && str_eq j.source "flex"
      && elim j.phase [ fetch ↦ true | normalize ↦ false ]
      && elim j.status [ retry_wait ↦ true | needs_action ↦ true | _ ↦ false ]

  abbrev pub requeued : Clock → Job R → Job R
  requeued c j = record j {
    status = queued;
    attempt = 0;
    error = "";
    next_attempt_at = 0;
    updated_at = now_key c;
  }

  unfoldable pub retry_connection : Clock → ℤ → List (Job R) → List (Job R)
  unfolding is_retryable set_where
  retry_connection c connection table = set_where (is_retryable connection) (requeued c) table

  -- The oldest active job with the same request.
  unfoldable pub active_duplicate : (R → R → Bool) → R → List (Job R) → Option (Job R)
  active_duplicate same request [] = none
  active_duplicate same request (j ∷ rows) =
      let rest = active_duplicate same request rows in
      if is_active j.status && same j.request request then some (older j rest) else rest

  abbrev pub new_job : Clock → String → ℤ → String → R → Job R
  new_job c id connection source request = record {
    id = id;
    connection = connection;
    source = source;
    request = request;
    status = queued;
    phase = fetch;
    lease_owner = "";
    lease_generation = 0;
    lease_until = 0;
    attempt = 0;
    next_attempt_at = 0;
    counts = record {
      records = 0;
      added = 0;
      updated = 0;
      duplicates = 0;
      unsupported = 0;
      conflicts = 0;
    };
    error = "";
    created_at = now_key c;
    updated_at = now_key c;
  }

  -- `createHistoryJobTx`, once the account ids are sorted; `id` is the new UUID.
  unfoldable pub create :
      (R → R → Bool) → Clock → String → ℤ → String → R → List (Job R) → Job R × List (Job R)
  unfolding active_duplicate
  create same c id connection source request table = elim (active_duplicate same request table) [
    | some j ↦ (j, table)
    | none ↦
        (new_job c id connection source request, new_job c id connection source request ∷ table)
  ]
