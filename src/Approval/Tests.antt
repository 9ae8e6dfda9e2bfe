-- ===== src/Approval/Tests.antt =====
-- The laws of the approvals at a table with one row.
use hire_ai.Prelude.{◌≡◌, ◌≢◌, refl, ℕ, true, false, none, some, List, [], ◌∷◌, arith}
use hire_ai.Approval.{ApprovalStatus, GovernanceApproval, ApprovalDb, get_approval, acquire_lease}
use hire_ai.Approval.Leases.{Attempt, acquire_all, acquire_lease-exclusive}
use hire_ai.Approval.Final.{acquire_op, reject_op, expire_op, run_ops, run_ops-final}

abbrev row : ApprovalStatus → GovernanceApproval
row status = record {
  id = 1;
  governance_decision_id = 2;
  organization_id = 7;
  requested_to = none;
  status = status;
  reason = "risk";
  expires_at = 1440;
  created_at = 0;
  leased_by = none;
  lease_until = none;
  approver_id = none;
  approved_at = none;
  rejected_at = none;
  comment = none;
}

abbrev table : ApprovalStatus → ApprovalDb
table status = record { approvals = row status ∷ []; audits = [] }

abbrev leased : ApprovalDb
leased = (acquire_lease 10 1 5 15 (table ApprovalStatus.pending)).1

granted : acquire_lease 10 1 5 15 (table ApprovalStatus.pending) ≡ (true, leased)
unfolding acquire_lease get_approval
granted = refl

someone_else : ◌≢◌ {A = ℕ} 6 5
someone_else h = let p : ◌≡◌ {A = ℕ} 6 5 = h in omega (arith, p)

another : ◌≢◌ {A = ℕ} 7 5
another h = let p : ◌≡◌ {A = ℕ} 7 5 = h in omega (arith, p)

abbrev attempts : List Attempt
attempts =
    record { at = 20; reviewer = 6; minutes = 15 }
    ∷ record { at = 25; reviewer = 7; minutes = 5 }
    ∷ []

acquire_lease-exclusive_example : acquire_all 1 attempts leased ≡ (false ∷ false ∷ [], leased)
acquire_lease-exclusive_example =
    acquire_lease-exclusive 10 1 5 15 (table ApprovalStatus.pending) leased attempts granted
      ((omega arith, someone_else), ((omega arith, another), tt))

is_there : get_approval 1 (table ApprovalStatus.approved) ≡ some (row ApprovalStatus.approved)
unfolding get_approval
is_there = refl

run_ops-final_example :
    get_approval 1 (
      run_ops
        (reject_op 20 1 6 none ∷ expire_op 2000 ∷ acquire_op 30 1 6 15 ∷ [])
        (table ApprovalStatus.approved))
    ≡ some (row ApprovalStatus.approved)
run_ops-final_example =
    run_ops-final 1 (row ApprovalStatus.approved)
      (reject_op 20 1 6 none ∷ expire_op 2000 ∷ acquire_op 30 1 6 15 ∷ [])
      (table ApprovalStatus.approved) refl is_there
