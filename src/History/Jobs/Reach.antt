-- ===== src/History/Jobs/Reach.antt =====
-- The job table under any sequence of operations of any workers, as time goes on.
use mathlib.Core.List.{Memᴰ}
use traio.Prelude.{
  ℕ, ◌≤◌, ◌≡◌, refl, sym, ◌∙◌, String, Bool, true, false, List, [], ◌∷◌, Option, none, some, ok,
  arith, str_eq, eq_iff, Bool-cases, inl, inr, All,
}
use traio.Prelude.Int.{ℤ}
use traio.History.Jobs.{
  Clock, now_key, Status, HistoryCounts, Job, is_live, same_scope, claim, renew, check_lease,
  finish, is_final, under_lease, renewed_job, touched_job, finished_job, save_phase,
  retry_connection, create, new_job, active_duplicate,
}
use traio.History.Jobs.Exclusive.{
  IsExclusive, IsExclusive-later, Keeps, under_lease-IsExclusive, save_phase-IsExclusive,
  retry_connection-IsExclusive,
}
use traio.History.Jobs.Claim.{claim-IsExclusive}

pub record System (R : Type 0) : Type 0 where
  pub clock : Clock
  pub table : List (Job R)

-- A new id that no row has, as a UUID is.
abbrev pub IsFresh : {R : Type 0} → String → List (Job R) → Type 0
IsFresh id = All (λ j. str_eq j.id id ≡ false)

-- One operation of some worker, or the passing of time. A handle is any job value that a worker has.
pub data Step {R : Type 0} (same : R → R → Bool) (s t : System R) : Type 0 where
  tick : now_key s.clock ≤ now_key t.clock → s.table ≡ t.table → Step same s t
  claimed :
      (owner : String) (j : Job R)
      → s.clock ≡ t.clock
      → claim owner s.clock s.table ≡ ok (j, t.table)
      → Step same s t
  renewed :
      (handle : Job R)
      → s.clock ≡ t.clock
      → renew s.clock handle s.table ≡ ok t.table
      → Step same s t
  checked :
      (handle : Job R)
      → s.clock ≡ t.clock
      → check_lease s.clock handle s.table ≡ ok t.table
      → Step same s t
  finished :
      (handle : Job R) (status : Status) (counts : HistoryCounts) (message : String)
      → s.clock ≡ t.clock
      → finish s.clock handle status counts message s.table ≡ ok t.table
      → Step same s t
  saved :
      (handle : Job R) (request : R)
      → s.clock ≡ t.clock
      → save_phase handle request s.table ≡ t.table
      → Step same s t
  retried :
      (connection : ℤ)
      → s.clock ≡ t.clock
      → retry_connection s.clock connection s.table ≡ t.table
      → Step same s t
  created :
      (id : String) (connection : ℤ) (source : String) (request : R)
      → IsFresh id s.table
      → s.clock ≡ t.clock
      → (create same s.clock id connection source request s.table).1 ≡ t.table
      → Step same s t

pub data Reach {R : Type 0} (same : R → R → Bool) (s : System R) : System R → Type 0 where
  here : Reach same s s
  next : {t u : System R} → Reach same s t → Step same t u → Reach same s u

clash : (i j : String) → str_eq i j ≡ true → str_eq j i ≡ false → ⊥
clash i j h k = ground (arith, eq_iff i j, eq_iff j i)

module _ {R : Type 0} where
  pub fresh_ne :
      (id : String) (table : List (Job R)) {b : Job R}
      → IsFresh id table
      → Memᴰ b table
      → str_eq b.id id ≡ false
  fresh_ne id [] f m = elim m [ ]
  fresh_ne id (k ∷ rows) f (Memᴰ.head p) = rw p f.0
  fresh_ne id (k ∷ rows) f (Memᴰ.tail m) = fresh_ne id rows f.1 m

  create_table-IsExclusive :
      (now : ℕ) (c : Clock) (id : String) (connection : ℤ) (source : String) (request : R)
      (table : List (Job R))
      → IsFresh id table
      → IsExclusive now table
      → IsExclusive now (new_job c id connection source request ∷ table)
  unfolding is_live
  create_table-IsExclusive now c id connection source request table f h = record {
    unique = λ a b m n e. unique_new a b m n e;
    apart = λ a b m n la lb s. apart_new a b m n la lb s;
  }
    where
      unique_new :
          (a b : Job R)
          → Memᴰ a (new_job c id connection source request ∷ table)
          → Memᴰ b (new_job c id connection source request ∷ table)
          → str_eq a.id b.id ≡ true
          → a ≡ b
      unique_new a b (Memᴰ.head p) (Memᴰ.head q) e = p ∙ sym q
      unique_new a b (Memᴰ.head p) (Memᴰ.tail n) e =
          absurd (clash id b.id (rw p at e) (fresh_ne id table f n))
      unique_new a b (Memᴰ.tail m) (Memᴰ.head q) e =
          let d : str_eq a.id id ≡ true = rw q at e in let g = fresh_ne id table f m in cc
      unique_new a b (Memᴰ.tail m) (Memᴰ.tail n) e = h.unique a b m n e

      apart_new :
          (a b : Job R)
          → Memᴰ a (new_job c id connection source request ∷ table)
          → Memᴰ b (new_job c id connection source request ∷ table)
          → is_live now a ≡ true
          → is_live now b ≡ true
          → same_scope a b ≡ true
          → a ≡ b
      apart_new a b (Memᴰ.head p) n la lb s = cc (rw p at la)
      apart_new a b (Memᴰ.tail m) (Memᴰ.head q) la lb s = cc (rw q at lb)
      apart_new a b (Memᴰ.tail m) (Memᴰ.tail n) la lb s = h.apart a b m n la lb s

  create-IsExclusive :
      (same : R → R → Bool) (now : ℕ) (c : Clock) (id : String) (connection : ℤ) (source : String)
      (request : R) (table : List (Job R))
      → IsFresh id table
      → IsExclusive now table
      → IsExclusive now (create same c id connection source request table).1
  unfolding create
  create-IsExclusive same now c id connection source request table f h =
      from (active_duplicate same request table) refl
    where
      from :
          (o : Option (Job R))
          → active_duplicate same request table ≡ o
          → IsExclusive now (create same c id connection source request table).1
      from none e =
          rw (create, e) (create_table-IsExclusive now c id connection source request table f h)
      from (some j) e = rw (create, e) h

  Keeps-finish :
      (c : Clock) (handle : Job R) (status : Status) (counts : HistoryCounts) (message : String)
      → Keeps (finished_job c handle status counts message)
  Keeps-finish c handle status counts message = record {
    keeps_id = λ j. refl;
    keeps_source = λ j. refl;
    keeps_connection = λ j. refl;
  }

  pub finish-eq :
      (c : Clock) (handle : Job R) (status : Status) (counts : HistoryCounts) (message : String)
      (table : List (Job R)) {t : List (Job R)}
      → finish c handle status counts message table ≡ ok t
      → under_lease c handle (finished_job c handle status counts message) table ≡ ok t
  unfolding finish
  finish-eq c handle status counts message table e = elim (Bool-cases (is_final status)) [
    | inl b ↦ rw b at e
    | inr b ↦ cc (rw b at e)
  ]

  pub Step-IsExclusive :
      (same : R → R → Bool) {s t : System R}
      → Step same s t
      → IsExclusive (now_key s.clock) s.table
      → IsExclusive (now_key t.clock) t.table
  unfolding renew check_lease
  Step-IsExclusive same {s} {t} (tick le e) h =
      rw (← e) (IsExclusive-later (now_key s.clock) (now_key t.clock) s.table le h)
  Step-IsExclusive same {s} {t} (claimed owner j c e) h =
      rw (← c) (claim-IsExclusive owner s.clock s.table e h)
  Step-IsExclusive same {s} {t} (renewed handle c e) h = rw (← c) (
      under_lease-IsExclusive s.clock handle (renewed_job s.clock) s.table
        (record { keeps_id = λ j. refl; keeps_source = λ j. refl; keeps_connection = λ j. refl }) e
        h)
  Step-IsExclusive same {s} {t} (checked handle c e) h = rw (← c) (
      under_lease-IsExclusive s.clock handle (touched_job s.clock) s.table
        (record { keeps_id = λ j. refl; keeps_source = λ j. refl; keeps_connection = λ j. refl }) e
        h)
  Step-IsExclusive same {s} {t} (finished handle status counts message c e) h = rw (← c) (
      under_lease-IsExclusive s.clock handle (finished_job s.clock handle status counts message)
        s.table (Keeps-finish s.clock handle status counts message)
        (finish-eq s.clock handle status counts message s.table e) h)
  Step-IsExclusive same {s} {t} (saved handle request c e) h =
      rw (← c, ← e) (save_phase-IsExclusive (now_key s.clock) handle request s.table h)
  Step-IsExclusive same {s} {t} (retried connection c e) h =
      rw (← c, ← e) (retry_connection-IsExclusive (now_key s.clock) s.clock connection s.table h)
  Step-IsExclusive same {s} {t} (created id connection source request f c e) h =
      rw (← c, ← e)
        (create-IsExclusive same (now_key s.clock) s.clock id connection source request s.table f h)

  -- From a table where it holds on, whatever operations of the workers follow one another and however
  -- time passes: ids are unique, and two live jobs of one source and connection are one job.
  pub Reach-IsExclusive :
      (same : R → R → Bool) {s t : System R}
      → Reach same s t
      → IsExclusive (now_key s.clock) s.table
      → IsExclusive (now_key t.clock) t.table
  Reach-IsExclusive same here h = h
  Reach-IsExclusive same (next r st) h = Step-IsExclusive same st (Reach-IsExclusive same r h)

  pub empty-IsExclusive : (now : ℕ) → IsExclusive {R = R} now []
  empty-IsExclusive now = record {
    unique = λ a b m n e. elim m [ ];
    apart = λ a b m n la lb s. elim m [ ];
  }
