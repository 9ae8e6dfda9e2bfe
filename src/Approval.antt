-- ===== src/Approval.antt =====
-- governance/approval_engine.py: the human approvals of governed actions, with the leases of their reviewers.
-- Instants are minutes. Each operation is one step; the source reads and writes without a lock.
mod Tests
pub mod Leases
pub mod Final
use hire_ai.Prelude.{
  ℕ, ◌+◌, ◌*◌, String, Bool, true, false, ◌&&◌, ◌||◌, Option, none, some, List, [], ◌∷◌, ◌++◌, find,
  update_where, update_first, count_where, ltb, ◌==◌, if◌then◌else◌,
}

-- `GovernanceApprovalStatus`
pub data ApprovalStatus : Type 0 where
  pending approved rejected expired auto_approved : ApprovalStatus

abbrev pub is_pending : ApprovalStatus → Bool
is_pending pending = true
is_pending _ = false

-- `GovernanceApproval`
pub record GovernanceApproval : Type 0 where
  pub id : ℕ
  pub governance_decision_id : ℕ
  pub organization_id : ℕ
  pub requested_to : Option ℕ
  pub status : ApprovalStatus
  pub reason : String
  pub expires_at : ℕ
  pub created_at : ℕ
  pub leased_by : Option ℕ
  pub lease_until : Option ℕ
  pub approver_id : Option ℕ
  pub approved_at : Option ℕ
  pub rejected_at : Option ℕ
  pub comment : Option String

-- What `AuditLogger.log` is asked to write.
pub record Audit : Type 0 where
  pub audited_id : ℕ
  pub audit_user : ℕ
  pub decision : ApprovalStatus

pub record ApprovalDb : Type 0 where
  pub approvals : List GovernanceApproval
  pub audits : List Audit

pub data ApprovalError : Type 0 where
  approval_not_found : ApprovalError
  not_pending : ApprovalStatus → ApprovalError

pub data Decided : Type 0 where
  decided : GovernanceApproval → Decided
  refused : ApprovalError → Decided

abbrev pub is_row : ℕ → GovernanceApproval → Bool
is_row approval_id a = a.id == approval_id

unfoldable pub get_approval : ℕ → ApprovalDb → Option GovernanceApproval
get_approval approval_id db = find (is_row approval_id) db.approvals

-- `create_approval_request`; the identifier is a fresh one.
unfoldable pub create_approval_request :
    (now new_id governance_decision_id organization_id : ℕ)
    → String
    → (requested_to : Option ℕ) → (expiry_hours : ℕ) → ApprovalDb
    → GovernanceApproval × ApprovalDb
create_approval_request now new_id governance_decision_id organization_id reason requested_to
      expiry_hours db =
    let a : GovernanceApproval = record {
      id = new_id;
      governance_decision_id = governance_decision_id;
      organization_id = organization_id;
      requested_to = requested_to;
      status = pending;
      reason = reason;
      expires_at = now + expiry_hours * 60;
      created_at = now;
      leased_by = none;
      lease_until = none;
      approver_id = none;
      approved_at = none;
      rejected_at = none;
      comment = none;
    } in
    (a, record db { approvals = db.approvals ++ a ∷ [] })

-- The lease is unheld, expired, or held by the reviewer.
abbrev pub may_lease : (now user_id : ℕ) → GovernanceApproval → Bool
may_lease now user_id a = elim a.leased_by [
  | none ↦ true
  | some holder ↦ elim a.lease_until [
    | none ↦ true
    | some until ↦ ltb until now || (holder == user_id)
  ]
]

abbrev pub leased_row : (user_id lease_until : ℕ) → GovernanceApproval → GovernanceApproval
leased_row user_id lease_until a = record a {
  leased_by = some user_id;
  lease_until = some lease_until;
}

-- `acquire_lease`
unfoldable pub acquire_lease :
    (now approval_id user_id lease_minutes : ℕ) → ApprovalDb → Bool × ApprovalDb
acquire_lease now approval_id user_id lease_minutes db = elim (get_approval approval_id db) [
  | none ↦ (false, db)
  | some a ↦
      if is_pending a.status && may_lease now user_id a
      then (
        true,
        record db {
          approvals =
              update_first (is_row approval_id) (leased_row user_id (now + lease_minutes))
                db.approvals;
        },
      )
      else (false, db)
]

-- The row that a decision writes.
unfoldable pub decide_row :
    ApprovalStatus → (now approver_id : ℕ) → Option String → GovernanceApproval → GovernanceApproval
decide_row rejected now approver_id comment a = record a {
  status = rejected;
  approver_id = some approver_id;
  rejected_at = some now;
  comment = comment;
  leased_by = none;
  lease_until = none;
}
decide_row status now approver_id comment a = record a {
  status = status;
  approver_id = some approver_id;
  approved_at = some now;
  comment = comment;
  leased_by = none;
  lease_until = none;
}

-- The common text of `approve_request` and `reject_request`.
unfoldable pub decide :
    ApprovalStatus
    → (now approval_id approver_id : ℕ) → Option String
    → ApprovalDb
    → Decided × ApprovalDb
decide status now approval_id approver_id comment db = elim (get_approval approval_id db) [
  | none ↦ (refused approval_not_found, db)
  | some a ↦
      if is_pending a.status
      then (
        decided (decide_row status now approver_id comment a),
        record {
          approvals =
              update_first (is_row approval_id) (decide_row status now approver_id comment)
                db.approvals;
          audits =
              db.audits
              ++ record { audited_id = a.id; audit_user = approver_id; decision = status } ∷ [];
        },
      )
      else (refused (not_pending a.status), db)
]

-- `approve_request`
abbrev pub approve_request :
    (now approval_id approver_id : ℕ) → Option String → ApprovalDb → Decided × ApprovalDb
approve_request = decide approved

-- `reject_request`
abbrev pub reject_request :
    (now approval_id approver_id : ℕ) → Option String → ApprovalDb → Decided × ApprovalDb
reject_request = decide rejected

abbrev pub is_stale : (now : ℕ) → GovernanceApproval → Bool
is_stale now a = is_pending a.status && ltb a.expires_at now

-- `expire_stale_approvals`, with its row count
unfoldable pub expire_stale_approvals : (now : ℕ) → ApprovalDb → ℕ × ApprovalDb
expire_stale_approvals now db = (
  count_where (is_stale now) db.approvals,
  record db {
    approvals =
        update_where (is_stale now)
          (λ a. record a { status = expired; leased_by = none; lease_until = none }) db.approvals;
  },
)
