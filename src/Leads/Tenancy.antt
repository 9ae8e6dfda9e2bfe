-- ===== src/Leads/Tenancy.antt =====
-- The leads of the other organizations.
use hire_ai.Prelude.{
  ℕ, ◌≡◌, refl, ap, ◌∙◌, inl, inr, Bool, false, Option, List, [], ◌∷◌, ◌++◌, filter, update_first,
  All, ◌==◌, if◌then◌else◌, Bool-cases,
}
use hire_ai.Task.{RequestContext}
use hire_ai.Leads.{Text, Lead, LeadDb}
use hire_ai.Leads.Commands.{
  LeadCall, run_call, run_calls, LeadStep, kept, added, changed, restored, IsOwn, SameKeys, key_of,
  is_restore,
}
use hire_ai.Leads.Steps.{run_command-LeadStep}

abbrev pub is_of : (org_id : ℕ) → Lead → Bool
is_of org_id l = l.organization_id == org_id

module _ (org_id : ℕ) where
  filter_append_other :
      (ls : List Lead) (l : Lead)
      → is_of org_id l ≡ false
      → filter (is_of org_id) (ls ++ l ∷ []) ≡ filter (is_of org_id) ls
  filter_append_other [] l away = rw away refl
  filter_append_other (m ∷ ls) l away = elim (Bool-cases (is_of org_id m)) [
    | inl ours ↦ rw ours (ap (λ r. m ∷ r) (filter_append_other ls l away))
    | inr theirs ↦ rw theirs (filter_append_other ls l away)
  ]

  filter_update_other :
      (ctx : RequestContext) (p : Lead → Bool) (f : Lead → Lead)
      → (ctx.tenant_id == org_id) ≡ false
      → IsOwn ctx p
      → SameKeys f
      → (ls : List Lead) → filter (is_of org_id) (update_first p f ls) ≡ filter (is_of org_id) ls
  filter_update_other ctx p f away own keys [] = refl
  filter_update_other ctx p f away own keys (m ∷ ls) = elim (Bool-cases (p m)) [
    | inl hit ↦
        let theirs : (m.organization_id == org_id) ≡ false =
          ap (λ n. n == org_id) (own m hit) ∙ away in
        rw (hit, theirs)
          (ap (λ b. if b then f m ∷ filter (is_of org_id) ls else filter (is_of org_id) ls)
            (ap (λ n. n == org_id) (keys m).1 ∙ theirs))
    | inr miss ↦ rw miss (
        ap (λ r. if is_of org_id m then m ∷ r else r)
          (filter_update_other ctx p f away own keys ls))
  ]

  step_isolated :
      (lower : Text → Text) (ctx : RequestContext) (key : Option ℕ) (back : Bool) (db db' : LeadDb)
      → (ctx.tenant_id == org_id) ≡ false
      → LeadStep lower ctx key back db db'
      → filter (is_of org_id) db'.leads ≡ filter (is_of org_id) db.leads
  step_isolated lower ctx key back db db' away (kept el es) = ap (filter (is_of org_id)) el
  step_isolated lower ctx key back db db' away (added lead id own num unclaimed el es) =
      ap (filter (is_of org_id)) el
      ∙ filter_append_other db.leads lead (ap (λ n. n == org_id) own ∙ away)
  step_isolated lower ctx key back db db' away (changed p f own keys active free el es) =
      ap (filter (is_of org_id)) el ∙ filter_update_other ctx p f away own keys db.leads
  step_isolated lower ctx key back db db' away (restored p f own keys undone el es) =
      ap (filter (is_of org_id)) el ∙ filter_update_other ctx p f away own keys db.leads

  -- Calls by other organizations, however many, leave the leads of an organization as they are, the
  -- deleted ones included.
  pub run_calls_isolated :
      (lower : Text → Text) (isdigit : ℕ → Bool) (calls : List LeadCall) (db : LeadDb)
      → All (λ c. (c.ctx.tenant_id == org_id) ≡ false) calls
      → filter (is_of org_id) (run_calls lower isdigit calls db).leads
        ≡ filter (is_of org_id) db.leads
  run_calls_isolated lower isdigit [] db away = refl
  run_calls_isolated lower isdigit (c ∷ cs) db away =
      run_calls_isolated lower isdigit cs (run_call lower isdigit c db) away.1
      ∙ step_isolated lower c.ctx (key_of c.command) (is_restore c.command) db
          (run_call lower isdigit c db) away.0
          (run_command-LeadStep lower isdigit c.ctx c.now db c.command)
