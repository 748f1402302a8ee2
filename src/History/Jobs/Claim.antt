-- ===== src/History/Jobs/Claim.antt =====
-- What a claim does to the table of jobs.
use mathlib.Core.List.{Memᴰ}
use traio.Prelude.{
  ℕ, ◌≡◌, refl, sym, ap, ◌∙◌, String, true, false, not, ◌&&◌, List, [], ◌∷◌, Option, none, some, ok,
  ok-eq, arith, str_eq, eq_iff, Bool-cases, inl, inr,
}
use traio.History.Jobs.{
  Clock, now_key, Job, is_live, same_scope, is_busy, is_candidate, oldest_candidate, set_where,
  leased, has_id, lease_picked, claim,
}
use traio.History.Jobs.Exclusive.{IsExclusive, mem-set_where, changed, oldest_candidate-mem}

module _ {R : Type 0} where
  pub not_busy :
      (now : ℕ) (j : Job R) (table : List (Job R)) {b : Job R}
      → is_busy now j table ≡ false
      → Memᴰ b table
      → (not (str_eq b.id j.id) && is_live now b && same_scope b j) ≡ false
  unfolding is_busy
  not_busy now j [] e m = elim m [ ]
  not_busy now j (k ∷ rows) e (Memᴰ.head p) = rw p (ground (arith, e))
  not_busy now j (k ∷ rows) e (Memᴰ.tail m) = not_busy now j rows (ground (arith, e)) m

  same_scope_sym : (a b : Job R) → same_scope a b ≡ true → same_scope b a ≡ true
  same_scope_sym a b h = ground (arith, eq_iff a.source b.source, eq_iff b.source a.source)

  -- The claimed row and another live row of its scope cannot both be.
  claimed_alone :
      (owner : String) (c : Clock) (j : Job R) (table : List (Job R))
      → IsExclusive (now_key c) table
      → Memᴰ j table
      → is_busy (now_key c) j table ≡ false
      → {x y : Job R} → Memᴰ x table
      → Memᴰ y table
      → has_id j.id x ≡ true
      → has_id j.id y ≡ false
      → is_live (now_key c) y ≡ true
      → same_scope y x ≡ true
      → ⊥
  claimed_alone owner c j table h mj nb {x} {y} mx my ix iy l s =
      let e = h.unique x j mx mj ix in
      let s' : same_scope y j ≡ true = rw (← e) s in
      let n = not_busy (now_key c) j table nb my in ground (arith, n, iy, l, s')

  id_kept :
      (owner : String) (c : Clock) (j x : Job R)
      → (changed (has_id j.id) (leased owner c) x).id ≡ x.id
  id_kept owner c j x = ground arith

  claimed_pair :
      (owner : String) (c : Clock) (j : Job R) (table : List (Job R))
      → IsExclusive (now_key c) table
      → Memᴰ j table
      → is_busy (now_key c) j table ≡ false
      → (x y : Job R) → Memᴰ x table
      → Memᴰ y table
      → is_live (now_key c) (changed (has_id j.id) (leased owner c) x) ≡ true
      → is_live (now_key c) (changed (has_id j.id) (leased owner c) y) ≡ true
      → same_scope
          (changed (has_id j.id) (leased owner c) x)
          (changed (has_id j.id) (leased owner c) y)
        ≡ true
      → x ≡ y
  claimed_pair owner c j table h mj nb x y mx my lx ly s = elim (Bool-cases (has_id j.id x)) [
    | inl ix ↦ elim (Bool-cases (has_id j.id y)) [
      | inl iy ↦
          h.unique x y mx my
            (ground (arith, ix, iy, eq_iff x.id j.id, eq_iff y.id j.id, eq_iff x.id y.id))
      | inr iy ↦ absurd (
          claimed_alone owner c j table h mj nb mx my ix iy (rw iy at ly)
            (same_scope_sym x y (ground (arith, ix, iy, s))))
    ]
    | inr ix ↦ elim (Bool-cases (has_id j.id y)) [
      | inl iy ↦ absurd (
          claimed_alone owner c j table h mj nb my mx iy ix (rw ix at lx)
            (ground (arith, ix, iy, s)))
      | inr iy ↦ h.apart x y mx my (rw ix at lx) (rw iy at ly) (ground (arith, ix, iy, s))
    ]
  ]

  claim_table-IsExclusive :
      (owner : String) (c : Clock) (j : Job R) (table : List (Job R))
      → IsExclusive (now_key c) table
      → Memᴰ j table
      → is_busy (now_key c) j table ≡ false
      → IsExclusive (now_key c) (set_where (has_id j.id) (leased owner c) table)
  claim_table-IsExclusive owner c j table h mj nb = record {
    unique = λ a b m n e.
        let (x, mx, ex) = mem-set_where (has_id j.id) (leased owner c) table m in
        let (y, my, ey) = mem-set_where (has_id j.id) (leased owner c) table n in
        let k =
          h.unique x y mx my (rw (← id_kept owner c j x, ← id_kept owner c j y, ← ex, ← ey) e) in
        ex ∙ ap (changed (has_id j.id) (leased owner c)) k ∙ sym ey;
    apart = λ a b m n la lb s.
        let (x, mx, ex) = mem-set_where (has_id j.id) (leased owner c) table m in
        let (y, my, ey) = mem-set_where (has_id j.id) (leased owner c) table n in
        let k =
          claimed_pair owner c j table h mj nb x y mx my (rw ex at la) (rw ey at lb)
            (rw ey at (rw ex at s)) in
        ex ∙ ap (changed (has_id j.id) (leased owner c)) k ∙ sym ey;
  }

  candidate_alone :
      (now : ℕ) (table : List (Job R)) (j : Job R)
      → is_candidate now table j ≡ true
      → is_busy now j table ≡ false
  candidate_alone now table j h = ground (arith, h)

  -- What a claim has done: it leased a ready row whose scope had no other live row.
  pub record IsPick (owner : String) (c : Clock) (table : List (Job R)) (j : Job R)
      (t : List (Job R)) : Type 0 where
    pub picked : Job R
    pub member : Memᴰ picked table
    pub candidate : is_candidate (now_key c) table picked ≡ true
    pub job : leased owner c picked ≡ j
    pub left : set_where (has_id picked.id) (leased owner c) table ≡ t

  lease_picked-IsPick :
      (owner : String) (c : Clock) (table : List (Job R)) (o : Option (Job R))
      → oldest_candidate (now_key c) table table ≡ o
      → {j : Job R} {t : List (Job R)} → lease_picked owner c table o ≡ ok (j, t)
      → IsPick owner c table j t
  unfolding lease_picked
  lease_picked-IsPick owner c table none p e = cc
  lease_picked-IsPick owner c table (some k) p {j} {t} e =
      let (m, d) = oldest_candidate-mem (now_key c) table table p in
      let q = ok-eq e in
      record {
        picked = k;
        member = m;
        candidate = d;
        job = ap (λ (v : Job R × List (Job R)). v.0) q;
        left = ap (λ (v : Job R × List (Job R)). v.1) q;
      }

  pub claim-IsPick :
      (owner : String) (c : Clock) (table : List (Job R)) {j : Job R} {t : List (Job R)}
      → claim owner c table ≡ ok (j, t)
      → IsPick owner c table j t
  unfolding claim
  claim-IsPick owner c table e = elim (Bool-cases (str_eq owner "")) [
    | inl b ↦ cc (rw b at e)
    | inr b ↦
        lease_picked-IsPick owner c table (oldest_candidate (now_key c) table table) refl
          (rw b at e)
  ]

  pub claim-IsExclusive :
      (owner : String) (c : Clock) (table : List (Job R)) {j : Job R} {t : List (Job R)}
      → claim owner c table ≡ ok (j, t)
      → IsExclusive (now_key c) table
      → IsExclusive (now_key c) t
  claim-IsExclusive owner c table e h =
      let p = claim-IsPick owner c table e in
      rw (← p.left) (
        claim_table-IsExclusive owner c p.picked table h p.member
          (candidate_alone (now_key c) table p.picked p.candidate))
