-- ===== src/History/Jobs/Fencing.antt =====
-- Workers whose lease was taken over: the generation of their handle is behind the row's.
use mathlib.Core.List.{Memᴰ}
use traio.Prelude.{
  ℕ, ◌+◌, ◌≤◌, ◌<◌, ◌≡◌, refl, ap, String, Bool, true, false, List, [], ◌∷◌, Option, none, some, ok,
  err, arith, str_eq, eq_iff, Bool-cases, inl, inr,
}
use traio.History.Jobs.{
  Clock, Status, HistoryCounts, Job, lease_lost, is_final, set_where, rows_affected, leased, has_id,
  claim, holds_lease, under_lease, renew, renewed_job, check_lease, touched_job, finish,
  finished_job, save_phase, is_retryable, requeued, retry_connection, create, active_duplicate,
  new_job, normalize,
}
use traio.History.Jobs.Exclusive.{IsExclusive, changed, mem-set_where}
use traio.History.Jobs.Claim.{claim-IsPick}
use traio.History.Jobs.Reach.{
  System, Step, tick, claimed, renewed, checked, finished, saved, retried, created, Reach, here,
  next, finish-eq, fresh_ne,
}

module _ {R : Type 0} where
  -- The row of a handle is there, and is of a later generation than the handle.
  pub record IsStale (handle : Job R) (table : List (Job R)) : Type 0 where
    pub row : Job R
    pub member : Memᴰ row table
    pub same_id : str_eq row.id handle.id ≡ true
    pub behind :
        (x : Job R)
        → Memᴰ x table
        → str_eq x.id handle.id ≡ true
        → handle.lease_generation < x.lease_generation

  mem_changed :
      (p : Job R → Bool) (f : Job R → Job R) (table : List (Job R)) {x : Job R}
      → Memᴰ x table
      → Memᴰ (changed p f x) (set_where p f table)
  unfolding set_where
  mem_changed p f [] m = elim m [ ]
  mem_changed p f (j ∷ rows) (Memᴰ.head e) = Memᴰ.head (ap (changed p f) e)
  mem_changed p f (j ∷ rows) (Memᴰ.tail m) = Memᴰ.tail (mem_changed p f rows m)

  -- An update that keeps ids and never lowers a generation.
  record IsForward (g : Job R → Job R) : Type 0 where
    keeps_id : (j : Job R) → (g j).id ≡ j.id
    climbs : (j : Job R) → j.lease_generation ≤ (g j).lease_generation

  set_where-IsStale :
      (handle : Job R) (p : Job R → Bool) (f : Job R → Job R) (table : List (Job R))
      → IsForward (changed p f)
      → IsStale handle table
      → IsStale handle (set_where p f table)
  set_where-IsStale handle p f table w h = record {
    row = changed p f h.row;
    member = mem_changed p f table h.member;
    same_id = rw (w.keeps_id h.row) h.same_id;
    behind = λ x m e.
        let (y, n, q) = mem-set_where p f table m in
        let i : str_eq y.id handle.id ≡ true = rw (← w.keeps_id y, ← q) e in
        let l = h.behind y n i in let c = w.climbs y in rw q (omega (arith, l, c));
  }

  no_rows :
      (c : Clock) (handle : Job R) (table : List (Job R))
      → ((x : Job R) → Memᴰ x table → holds_lease c handle x ≡ false)
      → rows_affected (holds_lease c handle) table ≡ 0
  unfolding rows_affected
  no_rows c handle [] h = refl
  no_rows c handle (j ∷ rows) h =
      rw (h j (Memᴰ.head refl), no_rows c handle rows (λ x m. h x (Memᴰ.tail m))) refl

  stale_fails :
      (c : Clock) (handle x : Job R)
      → (str_eq x.id handle.id ≡ true → handle.lease_generation < x.lease_generation)
      → holds_lease c handle x ≡ false
  unfolding holds_lease
  stale_fails c handle x h = elim (Bool-cases (str_eq x.id handle.id)) [
    | inl e ↦ let l = h e in ground (arith, l, e)
    | inr e ↦ ground (arith, e)
  ]

  under_lease-IsStale :
      (c : Clock) (handle : Job R) (f : Job R → Job R) (table : List (Job R))
      → IsStale handle table
      → under_lease c handle f table ≡ err lease_lost
  unfolding under_lease
  under_lease-IsStale c handle f table h =
      rw (no_rows c handle table (λ x m. stale_fails c handle x (h.behind x m))) refl

  -- A stale handle can neither renew nor check nor finish: the lease is lost.
  pub stale_refused :
      (c : Clock) (handle : Job R) (status : Status) (counts : HistoryCounts) (message : String)
      (table : List (Job R))
      → IsStale handle table
      → is_final status ≡ true
      → (renew c handle table ≡ err lease_lost)
        × (check_lease c handle table ≡ err lease_lost)
        × (finish c handle status counts message table ≡ err lease_lost)
  unfolding renew check_lease finish
  stale_refused c handle status counts message table h f = (
    under_lease-IsStale c handle (renewed_job c) table h,
    under_lease-IsStale c handle (touched_job c) table h,
    rw f (under_lease-IsStale c handle (finished_job c handle status counts message) table h),
  )

  leased-IsForward :
      (owner : String) (c : Clock) (i : String) → IsForward (changed (has_id i) (leased owner c))
  leased-IsForward owner c i = record { keeps_id = λ j. ground arith; climbs = λ j. ground arith }

  -- A claim leaves every earlier handle of its job behind.
  claim-IsStale :
      (owner : String) (c : Clock) (table : List (Job R)) (handle : Job R) {now : ℕ} {j : Job R}
      {t : List (Job R)}
      → IsExclusive now table
      → claim owner c table ≡ ok (j, t)
      → str_eq j.id handle.id ≡ true
      → handle.lease_generation < j.lease_generation
      → IsStale handle t
  claim-IsStale owner c table handle {now} {j} {t} h e i l =
      let p = claim-IsPick owner c table e in
      let ip : str_eq p.picked.id handle.id ≡ true = rw (← p.job) at i in
      let lp : handle.lease_generation < p.picked.lease_generation + 1 = rw (← p.job) at l in
      rw (← p.left) (record {
        row = changed (has_id p.picked.id) (leased owner c) p.picked;
        member = mem_changed (has_id p.picked.id) (leased owner c) table p.member;
        same_id = rw ((leased-IsForward owner c p.picked.id).keeps_id p.picked) ip;
        behind = λ x m q.
            let (y, n, r) = mem-set_where (has_id p.picked.id) (leased owner c) table m in
            let k : str_eq y.id handle.id ≡ true =
              rw (← (leased-IsForward owner c p.picked.id).keeps_id y, ← r) q in
            let s : str_eq y.id p.picked.id ≡ true = ground (
              arith,
              k,
              ip,
              eq_iff y.id handle.id,
              eq_iff p.picked.id handle.id,
              eq_iff y.id p.picked.id,
            ) in
            let u = h.unique y p.picked n p.member s in rw r (rw s (rw u lp));
      })

  under_lease-keeps_IsStale :
      (c : Clock) (handle other : Job R) (f : Job R → Job R) (table : List (Job R))
      {t : List (Job R)}
      → IsForward (changed (holds_lease c other) f)
      → under_lease c other f table ≡ ok t
      → IsStale handle table
      → IsStale handle t
  unfolding under_lease
  under_lease-keeps_IsStale c handle other f table {t} w e h =
      let r : set_where (holds_lease c other) f table ≡ t = ground (arith, e) in
      rw (← r) (set_where-IsStale handle (holds_lease c other) f table w h)

  created-IsStale :
      (handle : Job R) (new : Job R) (table : List (Job R))
      → ((b : Job R) → Memᴰ b table → str_eq b.id new.id ≡ false)
      → IsStale handle table
      → IsStale handle (new ∷ table)
  created-IsStale handle new table f h = record {
    row = h.row;
    member = Memᴰ.tail h.member;
    same_id = h.same_id;
    behind = λ x m e. later x m e;
  }
    where
      later :
          (x : Job R)
          → Memᴰ x (new ∷ table)
          → str_eq x.id handle.id ≡ true
          → handle.lease_generation < x.lease_generation
      later x (Memᴰ.head p) e =
          let d = f h.row h.member in
          let g : str_eq new.id handle.id ≡ true = rw p at e in
          absurd (
            ground (
              arith,
              d,
              g,
              h.same_id,
              eq_iff new.id handle.id,
              eq_iff h.row.id handle.id,
              eq_iff h.row.id new.id,
            ))
      later x (Memᴰ.tail m) e = h.behind x m e

  pub Step-IsStale :
      (same : R → R → Bool) (handle : Job R) {s t : System R}
      → Step same s t
      → IsStale handle s.table
      → IsStale handle t.table
  unfolding renew check_lease save_phase retry_connection create
  Step-IsStale same handle {s} {t} (tick le e) h = rw (← e) h
  Step-IsStale same handle {s} {t} (claimed owner j c e) h =
      let p = claim-IsPick owner s.clock s.table e in
      rw (← p.left) (
        set_where-IsStale handle (has_id p.picked.id) (leased owner s.clock) s.table
          (leased-IsForward owner s.clock p.picked.id) h)
  Step-IsStale same handle {s} {t} (renewed other c e) h =
      under_lease-keeps_IsStale s.clock handle other (renewed_job s.clock) s.table
        (record { keeps_id = λ j. ground arith; climbs = λ j. ground arith }) e h
  Step-IsStale same handle {s} {t} (checked other c e) h =
      under_lease-keeps_IsStale s.clock handle other (touched_job s.clock) s.table
        (record { keeps_id = λ j. ground arith; climbs = λ j. ground arith }) e h
  Step-IsStale same handle {s} {t} (finished other status counts message c e) h =
      under_lease-keeps_IsStale s.clock handle other
        (finished_job s.clock other status counts message) s.table
        (record { keeps_id = λ j. ground arith; climbs = λ j. ground arith })
        (finish-eq s.clock other status counts message s.table e) h
  Step-IsStale same handle {s} {t} (saved other request c e) h = rw (← e) (
      set_where-IsStale handle (has_id other.id)
        (λ j. record j { phase = normalize; request = request }) s.table
        (record { keeps_id = λ j. ground arith; climbs = λ j. ground arith }) h)
  Step-IsStale same handle {s} {t} (retried connection c e) h = rw (← e) (
      set_where-IsStale handle (is_retryable connection) (requeued s.clock) s.table
        (record { keeps_id = λ j. ground arith; climbs = λ j. ground arith }) h)
  Step-IsStale same handle {s} {t} (created id connection source request f c e) h =
      rw (← e) (from (active_duplicate same request s.table) refl)
    where
      from :
          (o : Option (Job R))
          → active_duplicate same request s.table ≡ o
          → IsStale handle (create same s.clock id connection source request s.table).1
      from none q =
          rw (create, q)
            (created-IsStale handle (new_job s.clock id connection source request) s.table
              (λ b m. fresh_ne id s.table f m) h)
      from (some j) q = rw (create, q) h

  Reach-IsStale :
      (same : R → R → Bool) (handle : Job R) {s t : System R}
      → Reach same s t
      → IsStale handle s.table
      → IsStale handle t.table
  Reach-IsStale same handle here h = h
  Reach-IsStale same handle (next r st) h =
      Step-IsStale same handle st (Reach-IsStale same handle r h)

  -- Once a job has been claimed anew, from a table with unique ids and exclusive leases, a worker whose
  -- handle is of an earlier generation of it has lost the lease for good: after any further operations
  -- and at any time it can neither renew nor check the lease nor finish the job.
  pub fenced :
      (same : R → R → Bool) (owner : String) (s t u : System R) (j handle : Job R) {now : ℕ}
      (status : Status) (counts : HistoryCounts) (message : String)
      → IsExclusive now s.table
      → claim owner s.clock s.table ≡ ok (j, t.table)
      → str_eq j.id handle.id ≡ true
      → handle.lease_generation < j.lease_generation
      → Reach same t u
      → is_final status ≡ true
      → (renew u.clock handle u.table ≡ err lease_lost)
        × (check_lease u.clock handle u.table ≡ err lease_lost)
        × (finish u.clock handle status counts message u.table ≡ err lease_lost)
  fenced same owner s t u j handle status counts message h e i l r f =
      stale_refused u.clock handle status counts message u.table
        (Reach-IsStale same handle r (claim-IsStale owner s.clock s.table handle h e i l)) f
