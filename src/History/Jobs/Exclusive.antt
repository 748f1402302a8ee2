-- ===== src/History/Jobs/Exclusive.antt =====
-- The invariant of the live leases, and the updates that keep scopes and bring no job to life.
use mathlib.Core.List.{Memᴰ}
use traio.Prelude.{
  ℕ, ◌≤◌, ◌≡◌, refl, sym, ap, ◌∙◌, Bool, true, List, [], ◌∷◌, Option, none, some, ok, some-eq,
  arith, leb, str_eq, if◌then◌else◌, Bool-cases, inl, inr,
}
use traio.Prelude.Int.{ℤ}
use traio.History.Jobs.{
  Clock, now_key, Job, is_live, same_scope, is_candidate, older, oldest_candidate, set_where,
  has_id, holds_lease, under_lease, save_phase, is_retryable, requeued, retry_connection,
}

module _ {R : Type 0} where
  -- The primary key, and: two live jobs of one source and connection are one job.
  pub record IsExclusive (now : ℕ) (table : List (Job R)) : Type 0 where
    pub unique : (a b : Job R) → Memᴰ a table → Memᴰ b table → str_eq a.id b.id ≡ true → a ≡ b
    pub apart :
        (a b : Job R)
        → Memᴰ a table
        → Memᴰ b table
        → is_live now a ≡ true
        → is_live now b ≡ true
        → same_scope a b ≡ true
        → a ≡ b

  abbrev pub changed : (Job R → Bool) → (Job R → Job R) → Job R → Job R
  changed p f j = if p j then f j else j

  -- Where a row of an updated table comes from.
  pub mem-set_where :
      (p : Job R → Bool) (f : Job R → Job R) (table : List (Job R)) {x : Job R}
      → Memᴰ x (set_where p f table)
      → (y : Job R) × Memᴰ y table × (x ≡ changed p f y)
  unfolding set_where
  mem-set_where p f [] m = elim m [ ]
  mem-set_where p f (j ∷ rows) (Memᴰ.head e) = (j, Memᴰ.head refl, e)
  mem-set_where p f (j ∷ rows) (Memᴰ.tail m) =
      let (y, n, e) = mem-set_where p f rows m in (y, Memᴰ.tail n, e)

  -- An update that keeps ids and scopes, and brings no job to life.
  pub record IsTame (now : ℕ) (g : Job R → Job R) : Type 0 where
    pub keeps_id : (j : Job R) → (g j).id ≡ j.id
    pub keeps_source : (j : Job R) → (g j).source ≡ j.source
    pub keeps_connection : (j : Job R) → (g j).connection ≡ j.connection
    pub no_life : (j : Job R) → is_live now (g j) ≡ true → is_live now j ≡ true

  pub set_where-IsExclusive :
      (now : ℕ) (p : Job R → Bool) (f : Job R → Job R) (table : List (Job R))
      → IsTame now (changed p f)
      → IsExclusive now table
      → IsExclusive now (set_where p f table)
  set_where-IsExclusive now p f table t h = record {
    unique = λ a b m n e.
        let (x, mx, ex) = mem-set_where p f table m in
        let (y, my, ey) = mem-set_where p f table n in
        let k = h.unique x y mx my (rw (← t.keeps_id x, ← t.keeps_id y, ← ex, ← ey) e) in
        ex ∙ ap (changed p f) k ∙ sym ey;
    apart = λ a b m n la lb s.
        let (x, mx, ex) = mem-set_where p f table m in
        let (y, my, ey) = mem-set_where p f table n in
        let k = h.apart x y mx my (t.no_life x (rw (← ex) la)) (t.no_life y (rw (← ey) lb)) (
          rw
            (
              ← t.keeps_source x,
              ← t.keeps_source y,
              ← t.keeps_connection x,
              ← t.keeps_connection y,
              ← ex,
              ← ey,
            )
            s) in
        ex ∙ ap (changed p f) k ∙ sym ey;
  }

  -- Writes under a lease touch only live rows; `f` keeps what names a row and its scope.
  pub record Keeps (f : Job R → Job R) : Type 0 where
    pub keeps_id : (j : Job R) → (f j).id ≡ j.id
    pub keeps_source : (j : Job R) → (f j).source ≡ j.source
    pub keeps_connection : (j : Job R) → (f j).connection ≡ j.connection

  lease-IsTame :
      (c : Clock) (handle : Job R) (f : Job R → Job R)
      → Keeps f
      → IsTame (now_key c) (changed (holds_lease c handle) f)
  unfolding holds_lease is_live
  lease-IsTame c handle f k = record {
    keeps_id = λ j. ground (arith, k.keeps_id j);
    keeps_source = λ j. ground (arith, k.keeps_source j);
    keeps_connection = λ j. ground (arith, k.keeps_connection j);
    no_life = λ j l. elim (Bool-cases (holds_lease c handle j)) [
      | inl e ↦ ground (arith, e)
      | inr e ↦ rw e at l
    ];
  }

  pub under_lease-IsExclusive :
      (c : Clock) (handle : Job R) (f : Job R → Job R) (table : List (Job R)) {t : List (Job R)}
      → Keeps f
      → under_lease c handle f table ≡ ok t
      → IsExclusive (now_key c) table
      → IsExclusive (now_key c) t
  unfolding under_lease
  under_lease-IsExclusive c handle f table {t} k e h =
      let r : set_where (holds_lease c handle) f table ≡ t = ground (arith, e) in
      rw (← r) (
        set_where-IsExclusive (now_key c) (holds_lease c handle) f table (lease-IsTame c handle f k)
          h)

  pub save_phase-IsExclusive :
      (now : ℕ) (handle : Job R) (request : R) (table : List (Job R))
      → IsExclusive now table
      → IsExclusive now (save_phase handle request table)
  unfolding save_phase is_live
  save_phase-IsExclusive now handle request table h =
      set_where-IsExclusive now (has_id handle.id) _ table
        (record {
          keeps_id = λ j. ground arith;
          keeps_source = λ j. ground arith;
          keeps_connection = λ j. ground arith;
          no_life = λ j l. ground arith;
        })
        h

  pub retry_connection-IsExclusive :
      (now : ℕ) (c : Clock) (connection : ℤ) (table : List (Job R))
      → IsExclusive now table
      → IsExclusive now (retry_connection c connection table)
  unfolding retry_connection is_live
  retry_connection-IsExclusive now c connection table h =
      set_where-IsExclusive now (is_retryable connection) (requeued c) table
        (record {
          keeps_id = λ j. ground arith;
          keeps_source = λ j. ground arith;
          keeps_connection = λ j. ground arith;
          no_life = λ j l. ground arith;
        })
        h

  live_earlier :
      (now later : ℕ) (j : Job R) → now ≤ later → is_live later j ≡ true → is_live now j ≡ true
  unfolding is_live
  live_earlier now later j le l = ground arith

  -- A lease that is live later is live now.
  pub IsExclusive-later :
      (now later : ℕ) (table : List (Job R))
      → now ≤ later
      → IsExclusive now table
      → IsExclusive later table
  IsExclusive-later now later table le h = record {
    unique = h.unique;
    apart = λ a b m n la lb s.
        h.apart a b m n (live_earlier now later a le la) (live_earlier now later b le lb) s;
  }

  older-mem :
      (now : ℕ) (table : List (Job R)) (k : Job R) (rows : List (Job R))
      → is_candidate now table k ≡ true
      → (o : Option (Job R))
      → ((i : Job R) → o ≡ some i → Memᴰ i rows × (is_candidate now table i ≡ true))
      → {j : Job R} → some (older k o) ≡ some j
      → Memᴰ j (k ∷ rows) × (is_candidate now table j ≡ true)
  older-mem now table k rows c none h e = let p = some-eq e in (Memᴰ.head (sym p), rw (← p) c)
  older-mem now table k rows c (some i) h e = elim (Bool-cases (leb k.created_at i.created_at)) [
    | inl l ↦ let p : k ≡ _ = some-eq (rw l at e) in (Memᴰ.head (sym p), rw (← p) c)
    | inr l ↦
        let p : i ≡ _ = some-eq (rw l at e) in
        let (m, d) = h i refl in (rw (← p) (Memᴰ.tail m), rw (← p) d)
  ]

  -- The candidate that a claim picks.
  pub oldest_candidate-mem :
      (now : ℕ) (table rows : List (Job R)) {j : Job R}
      → oldest_candidate now table rows ≡ some j
      → Memᴰ j rows × (is_candidate now table j ≡ true)
  unfolding oldest_candidate
  oldest_candidate-mem now table [] e = cc
  oldest_candidate-mem now table (k ∷ rows) {j} e = elim (Bool-cases (is_candidate now table k)) [
    | inl c ↦
        older-mem now table k rows c (oldest_candidate now table rows)
          (λ i p. oldest_candidate-mem now table rows p) (rw c at e)
    | inr c ↦ let (m, d) = oldest_candidate-mem now table rows (rw c at e) in (Memᴰ.tail m, d)
  ]
