-- ===== src/Approval/Final.antt =====
-- A decided approval stays as it is.
use mathlib.Core.Path.{subst}
use mathlib.Core.Option.{some-injective}
use hire_ai.Prelude.{
  ℕ, ◌+◌, String, ◌≡◌, refl, sym, ap, ◌∙◌, inl, inr, Bool, true, false, ◌&&◌, Option, none, some,
  List, [], ◌∷◌, ◌++◌, find, find-update_apart, find-update_where, update_first, ltb, ◌==◌, ==_iff,
  Bool-cases, Option-cases, arith,
}
use hire_ai.Approval.Leases.{acquire_missing, acquire_denied, acquire_granted}
use hire_ai.Approval.{
  ApprovalStatus, approved, rejected, expired, is_pending, GovernanceApproval, ApprovalDb, Decided,
  decided, refused, approval_not_found, not_pending, is_row, get_approval, may_lease, leased_row,
  acquire_lease, decide_row, decide, is_stale, expire_stale_approvals,
}

decide_row-id :
    (status : ApprovalStatus) (now approver_id : ℕ) (comment : Option String)
    (x : GovernanceApproval)
    → (decide_row status now approver_id comment x).id ≡ x.id
unfolding decide_row
decide_row-id ApprovalStatus.pending now approver_id comment x = refl
decide_row-id approved now approver_id comment x = refl
decide_row-id rejected now approver_id comment x = refl
decide_row-id expired now approver_id comment x = refl
decide_row-id ApprovalStatus.auto_approved now approver_id comment x = refl

module _ (status : ApprovalStatus) (now approval_id approver_id : ℕ) (comment : Option String) where
  module _ (db : ApprovalDb) where
    decide_missing :
        get_approval approval_id db ≡ none
        → decide status now approval_id approver_id comment db ≡ (refused approval_not_found, db)
    unfolding decide
    decide_missing e = rw (e, decide) refl

    module _ (a : GovernanceApproval) (found : get_approval approval_id db ≡ some a) where
      decide_closed :
          is_pending a.status ≡ false
          → decide status now approval_id approver_id comment db
            ≡ (refused (not_pending a.status), db)
      unfolding decide
      decide_closed e = rw (found, decide) (rw (e, decide) refl)

      decide_open :
          is_pending a.status ≡ true
          → decide status now approval_id approver_id comment db ≡ (
            decided (decide_row status now approver_id comment a),
            record {
              approvals =
                  update_first
                    (is_row approval_id)
                    (decide_row status now approver_id comment)
                    db.approvals;
              audits =
                  db.audits
                  ++ record { audited_id = a.id; audit_user = approver_id; decision = status } ∷ [];
            },
          )
      unfolding decide
      decide_open e = rw (found, decide) (rw (e, decide) refl)

-- The operations of the engine.
pub data ApprovalOp : Type 0 where
  acquire_op : (now approval_id user_id lease_minutes : ℕ) → ApprovalOp
  approve_op reject_op : (now approval_id approver_id : ℕ) → Option String → ApprovalOp
  expire_op : (now : ℕ) → ApprovalOp

unfoldable pub run_op : ApprovalOp → ApprovalDb → ApprovalDb
run_op (acquire_op now approval_id user_id lease_minutes) db =
    (acquire_lease now approval_id user_id lease_minutes db).1
run_op (approve_op now approval_id approver_id comment) db =
    (decide approved now approval_id approver_id comment db).1
run_op (reject_op now approval_id approver_id comment) db =
    (decide rejected now approval_id approver_id comment db).1
run_op (expire_op now) db = (expire_stale_approvals now db).1

unfoldable pub run_ops : List ApprovalOp → ApprovalDb → ApprovalDb
run_ops [] db = db
run_ops (o ∷ os) db = run_ops os (run_op o db)

module _ (key : ℕ) (a : GovernanceApproval) (settled : is_pending a.status ≡ false) where
  -- Another row is updated, or this one is not pending.
  update_other :
      (approval_id : ℕ) (f : GovernanceApproval → GovernanceApproval) (db : ApprovalDb)
      → ((x : GovernanceApproval) → (f x).id ≡ x.id)
      → (key == approval_id) ≡ false
      → find (is_row key) (update_first (is_row approval_id) f db.approvals) ≡ get_approval key db
  unfolding get_approval
  update_other approval_id f db keeps other =
      find-update_apart (is_row key) (is_row approval_id) f
        (λ x. λ (hit : (x.id == approval_id) ≡ true).
          (apart x.id hit, ap (λ i. i == key) (keeps x) ∙ apart x.id hit))
        db.approvals
    where
      apart : (i : ℕ) → (i == approval_id) ≡ true → (i == key) ≡ false
      apart i hit = ground arith

  not_pending_here :
      (approval_id : ℕ) (db : ApprovalDb) (x : GovernanceApproval)
      → get_approval key db ≡ some a
      → get_approval approval_id db ≡ some x
      → (key == approval_id) ≡ true
      → is_pending x.status ≡ false
  not_pending_here approval_id db x found here same =
      let one : a ≡ x =
        some-injective _ _
          (sym found ∙ ap (λ i. get_approval i db) ((==_iff key approval_id).0 same) ∙ here) in
      ap (λ (r : GovernanceApproval). is_pending r.status) (sym one) ∙ settled

  acquire-keeps :
      (now approval_id user_id lease_minutes : ℕ) (db : ApprovalDb)
      → get_approval key db ≡ some a
      → get_approval key (acquire_lease now approval_id user_id lease_minutes db).1 ≡ some a
  unfolding get_approval
  acquire-keeps now approval_id user_id lease_minutes db found =
      elim (Option-cases (get_approval approval_id db)) [
        | inl gone ↦
            subst (λ (r : Bool × ApprovalDb). get_approval key r.1 ≡ some a)
              (sym (acquire_missing now approval_id user_id lease_minutes db gone)) found
        | inr (x, here) ↦ elim (Bool-cases (is_pending x.status && may_lease now user_id x)) [
          | inr denied ↦
              subst (λ (r : Bool × ApprovalDb). get_approval key r.1 ≡ some a)
                (sym (acquire_denied now approval_id user_id lease_minutes db x here denied)) found
          | inl granted ↦
              subst (λ (r : Bool × ApprovalDb). get_approval key r.1 ≡ some a)
                (sym (acquire_granted now approval_id user_id lease_minutes db x here granted))
                (elim (Bool-cases (key == approval_id)) [
                  | inl same ↦ absurd (
                      clash (is_pending x.status) _ granted
                        (not_pending_here approval_id db x found here same))
                  | inr other ↦
                      update_other approval_id (leased_row user_id (now + lease_minutes)) db
                        (λ y. refl) other
                      ∙ found
                ])
        ]
      ]
    where
      clash : (b c : Bool) → (b && c) ≡ true → b ≡ false → ⊥
      clash true c h e = cc (e)
      clash false c h e = cc (h)

  decide-keeps :
      (status : ApprovalStatus) (now approval_id approver_id : ℕ) (comment : Option String)
      (db : ApprovalDb)
      → get_approval key db ≡ some a
      → get_approval key (decide status now approval_id approver_id comment db).1 ≡ some a
  unfolding get_approval
  decide-keeps status now approval_id approver_id comment db found =
      elim (Option-cases (get_approval approval_id db)) [
        | inl gone ↦
            subst (λ (r : Decided × ApprovalDb). get_approval key r.1 ≡ some a)
              (sym (decide_missing status now approval_id approver_id comment db gone)) found
        | inr (x, here) ↦ elim (Bool-cases (is_pending x.status)) [
          | inr closed ↦
              subst (λ (r : Decided × ApprovalDb). get_approval key r.1 ≡ some a)
                (sym (decide_closed status now approval_id approver_id comment db x here closed))
                found
          | inl open_still ↦
              subst (λ (r : Decided × ApprovalDb). get_approval key r.1 ≡ some a)
                (sym (decide_open status now approval_id approver_id comment db x here open_still))
                (elim (Bool-cases (key == approval_id)) [
                  | inl same ↦
                      absurd (cc (open_still, not_pending_here approval_id db x found here same))
                  | inr other ↦
                      update_other approval_id (decide_row status now approver_id comment) db
                        (decide_row-id status now approver_id comment) other
                      ∙ found
                ])
        ]
      ]

  run_op-keeps :
      (o : ApprovalOp) (db : ApprovalDb)
      → get_approval key db ≡ some a
      → get_approval key (run_op o db) ≡ some a
  unfolding run_op expire_stale_approvals get_approval
  run_op-keeps (acquire_op now approval_id user_id lease_minutes) db found =
      acquire-keeps now approval_id user_id lease_minutes db found
  run_op-keeps (approve_op now approval_id approver_id comment) db found =
      decide-keeps approved now approval_id approver_id comment db found
  run_op-keeps (reject_op now approval_id approver_id comment) db found =
      decide-keeps rejected now approval_id approver_id comment db found
  run_op-keeps (expire_op now) db found =
      find-update_where (is_row key) (is_stale now) _ (λ x. refl) db.approvals a found
        (ap (λ b. b && ltb a.expires_at now) settled)

-- A decision is final: an approval that is no longer pending stays as it is, its status, its approver and
-- its comment, whatever leases, approvals, rejections and expiries are asked for afterwards.
pub run_ops-final :
    (key : ℕ) (a : GovernanceApproval) (os : List ApprovalOp) (db : ApprovalDb)
    → is_pending a.status ≡ false
    → get_approval key db ≡ some a
    → get_approval key (run_ops os db) ≡ some a
unfolding run_ops
run_ops-final key a [] db settled found = found
run_ops-final key a (o ∷ os) db settled found =
    run_ops-final key a os (run_op o db) settled (run_op-keeps key a settled o db found)
