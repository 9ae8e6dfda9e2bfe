-- ===== src/Approval/Leases.antt =====
-- One reviewer holds the lease.
use mathlib.Core.Path.{subst}
use hire_ai.Prelude.{
  ℕ, ◌+◌, ◌≤◌, ◌≡◌, ◌≢◌, refl, sym, ap, ◌∙◌, inl, inr, Bool, true, false, ◌&&◌, none, some, List,
  [], ◌∷◌, map, All, find-update_first, update_first, ltb, ◌==◌, Bool-cases, Option-cases, arith,
}
use hire_ai.Approval.{
  is_pending, GovernanceApproval, ApprovalDb, is_row, get_approval, may_lease, leased_row,
  acquire_lease,
}

module _ (now approval_id user_id lease_minutes : ℕ) (db : ApprovalDb) where
  pub acquire_missing :
      get_approval approval_id db ≡ none
      → acquire_lease now approval_id user_id lease_minutes db ≡ (false, db)
  unfolding acquire_lease
  acquire_missing e = rw (e, acquire_lease) refl

  module _ (a : GovernanceApproval) (found : get_approval approval_id db ≡ some a) where
    pub acquire_denied :
        (is_pending a.status && may_lease now user_id a) ≡ false
        → acquire_lease now approval_id user_id lease_minutes db ≡ (false, db)
    unfolding acquire_lease
    acquire_denied e = rw (found, acquire_lease) (rw (e, acquire_lease) refl)

    pub acquire_granted :
        (is_pending a.status && may_lease now user_id a) ≡ true
        → acquire_lease now approval_id user_id lease_minutes db ≡ (
          true,
          record db {
            approvals =
                update_first
                  (is_row approval_id)
                  (leased_row user_id (now + lease_minutes))
                  db.approvals;
          },
        )
    unfolding acquire_lease
    acquire_granted e = rw (found, acquire_lease) (rw (e, acquire_lease) refl)

-- The row after a call that granted the lease.
acquired_row :
    (now approval_id user_id lease_minutes : ℕ) (db db' : ApprovalDb)
    → acquire_lease now approval_id user_id lease_minutes db ≡ (true, db')
    → (a : GovernanceApproval) × (get_approval approval_id db'
        ≡ some (leased_row user_id (now + lease_minutes) a))
unfolding get_approval
acquired_row now approval_id user_id lease_minutes db db' e =
    elim (Option-cases (get_approval approval_id db)) [
      | inl gone ↦
          absurd (wrong (sym (acquire_missing now approval_id user_id lease_minutes db gone) ∙ e))
      | inr (a, found) ↦ elim (Bool-cases (is_pending a.status && may_lease now user_id a)) [
        | inr denied ↦ absurd (
            wrong
              (sym (acquire_denied now approval_id user_id lease_minutes db a found denied) ∙ e))
        | inl granted ↦ (
          a,
          subst
              (λ (r : Bool × ApprovalDb).
                get_approval approval_id r.1 ≡ some (leased_row user_id (now + lease_minutes) a))
              (sym (acquire_granted now approval_id user_id lease_minutes db a found granted) ∙ e)
              (find-update_first (is_row approval_id) (leased_row user_id (now + lease_minutes))
                (λ x h. h) db.approvals a found),
        )
      ]
    ]
  where
    wrong : {d d' : ApprovalDb} → ◌≡◌ {A = Bool × ApprovalDb} (false, d) (true, d') → ⊥
    wrong p = cc (ap (λ (r : Bool × ApprovalDb). r.0) p)

still_held :
    (later user_id other until : ℕ) (b : Bool) (a : GovernanceApproval)
    → later ≤ until
    → other ≢ user_id
    → (b && may_lease later other (leased_row user_id until a)) ≡ false
still_held later user_id other until false a h different = refl
still_held later user_id other until true a h different = rw (in_time, another) refl
  where
    in_time : ltb until later ≡ false
    in_time = ground (arith, h)

    another : (user_id == other) ≡ false
    another = ground (arith, different)

denied_while_held :
    (now later approval_id user_id other lease_minutes other_minutes : ℕ) (db db' : ApprovalDb)
    → acquire_lease now approval_id user_id lease_minutes db ≡ (true, db')
    → later ≤ now + lease_minutes
    → other ≢ user_id
    → acquire_lease later approval_id other other_minutes db' ≡ (false, db')
denied_while_held now later approval_id user_id other lease_minutes other_minutes db db' e h
      different =
    let r = acquired_row now approval_id user_id lease_minutes db db' e in
    acquire_denied later approval_id other other_minutes db'
      (leased_row user_id (now + lease_minutes) r.0) r.1
      (still_held later user_id other (now + lease_minutes) (is_pending r.0.status) r.0 h different)

-- One call of `acquire_lease`.
pub record Attempt : Type 0 where
  pub at : ℕ
  pub reviewer : ℕ
  pub minutes : ℕ

-- The answers to several attempts, one after the other.
abbrev pub acquire_all : (approval_id : ℕ) → List Attempt → ApprovalDb → List Bool × ApprovalDb
acquire_all approval_id [] db = ([], db)
acquire_all approval_id (a ∷ rest) db =
    let asked = acquire_lease a.at approval_id a.reviewer a.minutes db in
    let others = acquire_all approval_id rest asked.1 in (asked.0 ∷ others.0, others.1)

-- Mutual exclusion: after a reviewer was granted a lease, and before it has run out, any sequence of
-- attempts by other reviewers, each a step of its own, is denied throughout and changes nothing.
pub acquire_lease-exclusive :
    (now approval_id user_id lease_minutes : ℕ) (db db' : ApprovalDb) (attempts : List Attempt)
    → acquire_lease now approval_id user_id lease_minutes db ≡ (true, db')
    → All (λ a. (a.at ≤ now + lease_minutes) × (a.reviewer ≢ user_id)) attempts
    → acquire_all approval_id attempts db' ≡ (map (λ a. false) attempts, db')
acquire_lease-exclusive now approval_id user_id lease_minutes db db' [] e h = refl
acquire_lease-exclusive now approval_id user_id lease_minutes db db' (a ∷ rest) e h =
    rw
      (denied_while_held now a.at approval_id user_id a.reviewer lease_minutes a.minutes db db' e
        h.0.0 h.0.1)
      (ap (λ (r : List Bool × ApprovalDb). (false ∷ r.0, r.1))
        (acquire_lease-exclusive now approval_id user_id lease_minutes db db' rest e h.1))
