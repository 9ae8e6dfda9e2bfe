-- ===== src/Leads/Numbers.antt =====
-- The numbers of the leads.
use mathlib.Core.Path.{subst}
use mathlib.Core.Option.{none-ne-some, some-injective}
use hire_ai.Prelude.{
  ℕ, ◌+◌, ◌<◌, ◌≡◌, ◌≢◌, refl, sym, ap, ◌∙◌, inl, inr, Bool, true, false, Option, none, some, List,
  [], ◌∷◌, ◌++◌, update_first, All, All-append, All-weaken, All-update_first, Pairwise,
  Pairwise-append, Pairwise-update_first, ◌==◌, if◌then◌else◌, Bool-cases, Option-cases, arith,
}
use hire_ai.Task.{RequestContext}
use hire_ai.Leads.{Text, Lead, LeadDb}
use hire_ai.Leads.Update.{next_number, put_number, generate_lead_number}
use hire_ai.Leads.Commands.{
  LeadCall, run_call, run_calls, LeadStep, kept, added, changed, restored, SameKeys, key_of,
  is_restore,
}
use hire_ai.Leads.Steps.{run_command-LeadStep}

-- Two leads of an organization have different numbers.
abbrev pub HaveNumbers : Lead → Lead → Type 0
HaveNumbers l m = l.organization_id ≡ m.organization_id → l.lead_number ≢ m.lead_number

-- The organization's next number is above the lead's.
abbrev pub IsBelow : List (ℕ × ℕ) → Lead → Type 0
IsBelow sequences l =
    (n : ℕ) × (next_number l.organization_id sequences ≡ some n) × (l.lead_number < n)

abbrev pub AreNumbered : LeadDb → Type 0
AreNumbered db = All (IsBelow db.sequences) db.leads × Pairwise HaveNumbers db.leads

next_number-append :
    (org_id o n m : ℕ) (s : List (ℕ × ℕ))
    → next_number org_id s ≡ some n
    → next_number org_id (s ++ (o, m) ∷ []) ≡ some n
next_number-append org_id o n m [] h = absurd (none-ne-some _ h)
next_number-append org_id o n m ((k, v) ∷ s) h = elim (Bool-cases (k == org_id)) [
  | inl hit ↦ rw hit (rw hit at h)
  | inr miss ↦ rw miss (next_number-append org_id o n m s (rw miss at h))
]

next_number-new :
    (org_id m : ℕ) (s : List (ℕ × ℕ))
    → next_number org_id s ≡ none
    → next_number org_id (s ++ (org_id, m) ∷ []) ≡ some m
next_number-new org_id m [] h = rw (same org_id) refl
  where
    same : (n : ℕ) → (n == n) ≡ true
    same n = ground arith
next_number-new org_id m ((k, v) ∷ s) h = elim (Bool-cases (k == org_id)) [
  | inl hit ↦ absurd (none-ne-some _ (sym (rw hit at h)))
  | inr miss ↦ rw miss (next_number-new org_id m s (rw miss at h))
]

next_number-put :
    (org_id n m : ℕ) (s : List (ℕ × ℕ))
    → next_number org_id s ≡ some n
    → next_number org_id (put_number org_id m s) ≡ some m
next_number-put org_id n m [] h = absurd (none-ne-some _ h)
next_number-put org_id n m ((k, v) ∷ s) h = elim (Bool-cases (k == org_id)) [
  | inl hit ↦ rw (hit, hit) refl
  | inr miss ↦ rw (miss, miss) (next_number-put org_id n m s (rw miss at h))
]

next_number-put_other :
    (org_id o m : ℕ) (s : List (ℕ × ℕ))
    → (o == org_id) ≡ false
    → next_number org_id (put_number o m s) ≡ next_number org_id s
next_number-put_other org_id o m [] h = refl
next_number-put_other org_id o m ((k, v) ∷ s) h = elim (Bool-cases (k == o)) [
  | inl hit ↦ rw (hit, away k hit) refl
  | inr miss ↦
      rw miss (ap (λ r. if k == org_id then some v else r) (next_number-put_other org_id o m s h))
]
  where
    away : (k : ℕ) → (k == o) ≡ true → (k == org_id) ≡ false
    away k hit = ground (arith, hit, h)

-- Drawing a number keeps every organization's next number above its leads.
generate-IsBelow :
    (org_id : ℕ) (s : List (ℕ × ℕ)) (l : Lead)
    → IsBelow s l
    → IsBelow (generate_lead_number org_id s).1 l
unfolding generate_lead_number
generate-IsBelow org_id s l (n, e, below) = elim (Option-cases (next_number org_id s)) [
  | inl none_yet ↦
      rw (none_yet, generate_lead_number)
        (n, next_number-append l.organization_id org_id n 1002 s e, below)
  | inr (m, at_m) ↦
      rw (at_m, generate_lead_number)
        (elim (Bool-cases (org_id == l.organization_id)) [
          | inl same ↦
              let eq : org_id ≡ l.organization_id = ground (arith, same) in
              let known : n ≡ m =
                some-injective _ _ (sym e ∙ ap (λ k. next_number k s) (sym eq) ∙ at_m) in
              (
                m + 1,
                ap (λ k. next_number k (put_number org_id (m + 1) s)) (sym eq)
                    ∙ next_number-put org_id m (m + 1) s at_m,
                omega (arith, below, known),
              )
          | inr other ↦
              (n, next_number-put_other l.organization_id org_id (m + 1) s other ∙ e, below)
        ])
]

-- The drawn number is below the next one, and no lead of the organization has it.
generate-new :
    (org_id : ℕ) (s : List (ℕ × ℕ))
    → (n : ℕ) × (next_number org_id (generate_lead_number org_id s).1 ≡ some n)
      × ((generate_lead_number org_id s).0 < n)
unfolding generate_lead_number
generate-new org_id s = elim (Option-cases (next_number org_id s)) [
  | inl none_yet ↦
      rw (none_yet, generate_lead_number)
        (1002, next_number-new org_id 1002 s none_yet, omega arith)
  | inr (m, at_m) ↦
      rw (at_m, generate_lead_number) (m + 1, next_number-put org_id m (m + 1) s at_m, omega arith)
]

generate-above :
    (org_id : ℕ) (s : List (ℕ × ℕ)) (l : Lead)
    → IsBelow s l
    → l.organization_id ≡ org_id
    → l.lead_number < (generate_lead_number org_id s).0
unfolding generate_lead_number
generate-above org_id s l (n, e, below) own = elim (Option-cases (next_number org_id s)) [
  | inl none_yet ↦ absurd (none-ne-some _ (sym none_yet ∙ ap (λ k. next_number k s) (sym own) ∙ e))
  | inr (m, at_m) ↦
      rw (at_m, generate_lead_number)
        (let known : n ≡ m = some-injective _ _ (sym e ∙ ap (λ k. next_number k s) own ∙ at_m) in
          omega (arith, below, known))
]

rewritten-AreNumbered :
    (db db' : LeadDb) (p : Lead → Bool) (f : Lead → Lead)
    → SameKeys f
    → db'.leads ≡ update_first p f db.leads
    → db'.sequences ≡ db.sequences
    → AreNumbered db
    → AreNumbered db'
rewritten-AreNumbered db db' p f keys el es h =
    subst (λ s. All (IsBelow s) db'.leads × Pairwise HaveNumbers db'.leads) (sym es)
      (subst (λ ls. All (IsBelow db.sequences) ls × Pairwise HaveNumbers ls) (sym el)
        (
          All-update_first (IsBelow db.sequences) p f still db.leads h.0,
          Pairwise-update_first HaveNumbers (λ l. Unit {0}) p f
              (λ l m hit q r same e. r (sym (keys l).1 ∙ same) (sym (keys l).2 ∙ e))
              (λ l m hit q r same e. r (same ∙ (keys m).1) (e ∙ (keys m).2)) db.leads
              (units db.leads) h.1,
        ))
  where
    still : (l : Lead) → IsBelow db.sequences l → IsBelow db.sequences (f l)
    still l (n, e, below) = (
      n,
      ap (λ k. next_number k db.sequences) (keys l).1 ∙ e,
      subst (λ k. k < n) (sym (keys l).2) below,
    )

    units : (ls : List Lead) → All (λ l. Unit {0}) ls
    units [] = tt
    units (l ∷ ls) = (tt, units ls)

step-AreNumbered :
    (lower : Text → Text) (ctx : RequestContext) (key : Option ℕ) (back : Bool) (db db' : LeadDb)
    → LeadStep lower ctx key back db db'
    → AreNumbered db
    → AreNumbered db'
step-AreNumbered lower ctx key back db db' (kept el es) h =
    rewritten-AreNumbered db db' (λ l. false) (λ l. l) (λ l. (refl, refl, refl))
      (el ∙ sym (none_hit db.leads)) es h
  where
    none_hit : (ls : List Lead) → update_first (λ l. false) (λ l. l) ls ≡ ls
    none_hit [] = refl
    none_hit (l ∷ ls) = ap (λ r. l ∷ r) (none_hit ls)
step-AreNumbered lower ctx key back db db' (added lead id own num free el es) h =
    subst (λ s. All (IsBelow s) db'.leads × Pairwise HaveNumbers db'.leads) (sym es)
      (subst
        (λ ls.
          All (IsBelow (generate_lead_number ctx.tenant_id db.sequences).1) ls
          × Pairwise HaveNumbers ls)
        (sym el)
        (
          All-append _ db.leads (lead ∷ [])
              (All-weaken _ _ db.leads (λ l. generate-IsBelow ctx.tenant_id db.sequences l) h.0)
              (fresh_below, tt),
          Pairwise-append HaveNumbers db.leads lead h.1 (
              All-weaken _ _ db.leads
                (λ l below same e.
                  omega
                    (arith, generate-above ctx.tenant_id db.sequences l below (same ∙ own), e, num))
                h.0),
        ))
  where
    fresh_below : IsBelow (generate_lead_number ctx.tenant_id db.sequences).1 lead
    fresh_below =
        let g = generate-new ctx.tenant_id db.sequences in
        (
          g.0,
          ap (λ k. next_number k (generate_lead_number ctx.tenant_id db.sequences).1) own ∙ g.1,
          subst (λ k. k < g.0) (sym num) g.2,
        )
step-AreNumbered lower ctx key back db db' (changed p f own keys active free el es) h =
    rewritten-AreNumbered db db' p f keys el es h
step-AreNumbered lower ctx key back db db' (restored p f own keys undone el es) h =
    rewritten-AreNumbered db db' p f keys el es h

-- If the leads of every organization have different numbers, all below the organization's next
-- number, then so they have after any sequence of calls, by whichever organizations.
pub run_calls-AreNumbered :
    (lower : Text → Text) (isdigit : ℕ → Bool) (calls : List LeadCall) (db : LeadDb)
    → AreNumbered db
    → AreNumbered (run_calls lower isdigit calls db)
run_calls-AreNumbered lower isdigit [] db h = h
run_calls-AreNumbered lower isdigit (c ∷ cs) db h =
    run_calls-AreNumbered lower isdigit cs (run_call lower isdigit c db) (
      step-AreNumbered lower c.ctx (key_of c.command) (is_restore c.command) db
        (run_call lower isdigit c db) (run_command-LeadStep lower isdigit c.ctx c.now db c.command)
        h)
