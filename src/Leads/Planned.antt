-- ===== src/Leads/Planned.antt =====
-- A plan assigns at most one address, and one that no other active lead has.
use mathlib.Core.Path.{subst}
use mathlib.Core.Bool.{false≢true}
use hire_ai.Prelude.{
  ℕ, ◌≡◌, refl, sym, ap, inl, inr, ◌⊎◌, Bool, true, false, Option, none, some, List, [], ◌∷◌, ◌++◌,
  All, Bool-cases,
}
use hire_ai.Task.{RequestContext}
use hire_ai.Leads.{
  Text, LeadStatus, Lead, LeadDb, LeadUpdateRequest, same_status, valid_transitions,
}
use hire_ai.Leads.Contact.{normalize_phone}
use hire_ai.Leads.Repository.{same_option, email_exists, phone_exists}
use hire_ai.Leads.Update.{
  LeadResult, LeadError, ok, err, LeadField, set_email, apply_field, simple_part,
}
use hire_ai.Leads.Plan.{
  Logs, email_part, phone_part, status_part, assignee_part, website_part, plan_update,
}
use hire_ai.Leads.Fields.{
  IsEmailless, both, simple_part-IsEmailless, website_part-IsEmailless, assignee_part-IsEmailless,
}

-- Which result it is, and its value.
abbrev is_err {ℓ} : {A : Type ℓ} → LeadResult A → Bool
is_err (ok a) = false
is_err (err e) = true

abbrev value_or {ℓ} : {A : Type ℓ} → A → LeadResult A → A
value_or d (ok a) = a
value_or d (err e) = d

ok-injective {ℓ} : {A : Type ℓ} (a b : A) → ok a ≡ ok b → a ≡ b
ok-injective a b e = ap (value_or a) e

err-ne-ok {ℓ} : {A : Type ℓ} (e : LeadError) (a : A) → ¬ (err e ≡ ok a)
err-ne-ok e a h = false≢true (sym (ap is_err h))

pub LeadResult-cases {ℓ} :
    {A : Type ℓ} (r : LeadResult A) → ((e : LeadError) × (r ≡ err e)) ⊎ ((a : A) × (r ≡ ok a))
LeadResult-cases (ok a) = inr (a, refl)
LeadResult-cases (err e) = inl (e, refl)

status_part-IsEmailless :
    (lead : Lead) (o : Option LeadStatus) (us : List LeadField) (logs : Logs)
    → status_part lead o ≡ ok (us, logs)
    → All IsEmailless us
unfolding status_part apply_field
status_part-IsEmailless lead none us logs e =
    subst (All IsEmailless) (ap (λ (p : List LeadField × Logs). p.0) (ok-injective _ _ e)) tt
status_part-IsEmailless lead (some s) us logs e = elim (Bool-cases (same_status s lead.status)) [
  | inl same ↦
      subst (All IsEmailless)
        (ap (λ (p : List LeadField × Logs). p.0) (ok-injective _ _ (rw (same, status_part) at e)))
        tt
  | inr differs ↦ elim (Bool-cases (valid_transitions lead.status s)) [
    | inl valid ↦
        subst (All IsEmailless)
          (ap (λ (p : List LeadField × Logs). p.0)
            (ok-injective _ _ (rw (differs, status_part) at (rw (valid, status_part) at e))))
          ((λ l. refl), tt)
    | inr invalid ↦
        absurd (err-ne-ok _ _ (rw (differs, status_part) at (rw (invalid, status_part) at e)))
  ]
]

module _ (lower : Text → Text) (isdigit : ℕ → Bool) (ctx : RequestContext) (lead : Lead)
    (db : LeadDb) where
  phone_part-IsEmailless :
      (o : Option Text) (us : List LeadField)
      → phone_part lower isdigit ctx lead o db ≡ ok us
      → All IsEmailless us
  unfolding phone_part apply_field
  phone_part-IsEmailless none us e = subst (All IsEmailless) (ok-injective _ _ e) tt
  phone_part-IsEmailless (some p) us e =
      elim (Bool-cases (same_option (normalize_phone isdigit (some p)) lead.phone)) [
        | inl same ↦ subst (All IsEmailless) (ok-injective _ _ (rw (same, phone_part) at e)) tt
        | inr differs ↦
            elim (Bool-cases
              (phone_exists ctx (normalize_phone isdigit (some p)) (some lead.id) db)) [
                | inl taken ↦
                    absurd
                      (err-ne-ok _ _ (rw (differs, phone_part) at (rw (taken, phone_part) at e)))
                | inr free ↦
                    subst (All IsEmailless)
                      (ok-injective _ _ (rw (differs, phone_part) at (rw (free, phone_part) at e)))
                      ((λ l. refl), tt)
              ]
      ]

  -- The assignments to the address: none, or one that no other active lead has.
  abbrev pub IsFreeEmail : List LeadField → Type 0
  IsFreeEmail us =
      (us ≡ [])
      ⊎ ((e : Text) × (us ≡ set_email e ∷ [])
          × (email_exists lower ctx e (some lead.id) db ≡ false))

  email_part-IsFreeEmail :
      (o : Option Text) (us : List LeadField)
      → email_part lower isdigit ctx lead o db ≡ ok us
      → IsFreeEmail us
  unfolding email_part
  email_part-IsFreeEmail none us e = inl (sym (ok-injective _ _ e))
  email_part-IsFreeEmail (some m) us e =
      elim (Bool-cases (same_option (some (lower m)) lead.email)) [
        | inl same ↦ inl (sym (ok-injective _ _ (rw (same, email_part) at e)))
        | inr differs ↦ elim (Bool-cases (email_exists lower ctx (lower m) (some lead.id) db)) [
          | inl taken ↦
              absurd (err-ne-ok _ _ (rw (differs, email_part) at (rw (taken, email_part) at e)))
          | inr free ↦ inr (
            lower m,
            sym (ok-injective _ _ (rw (differs, email_part) at (rw (free, email_part) at e))),
            free,
          )
        ]
      ]

  pub plan_update-parts :
      (request : LeadUpdateRequest) (us : List LeadField) (logs : Logs)
      → plan_update lower isdigit ctx lead request db ≡ ok (us, logs)
      → (emails : List LeadField) × (rest : List LeadField) × (us ≡ emails ++ rest)
        × IsFreeEmail emails
        × All IsEmailless rest
  unfolding plan_update
  plan_update-parts request us logs e =
      elim (LeadResult-cases (email_part lower isdigit ctx lead request.email db)) [
        | inl (x, failed) ↦ absurd (err-ne-ok _ _ (rw (failed, plan_update) at e))
        | inr (emails, e₁) ↦
            elim (LeadResult-cases (phone_part lower isdigit ctx lead request.phone db)) [
              | inl (x, failed) ↦
                  absurd (err-ne-ok _ _ (rw (failed, plan_update) at (rw (e₁, plan_update) at e)))
              | inr (phones, e₂) ↦ elim (LeadResult-cases (status_part lead request.status)) [
                | inl (x, failed) ↦ absurd (
                    err-ne-ok _ _ (
                      rw (failed, plan_update) at
                        (rw (e₂, plan_update) at (rw (e₁, plan_update) at e))))
                | inr ((statuses, moved), e₃) ↦ (
                  emails,
                  phones
                      ++ (statuses
                          ++ ((assignee_part lead request.assigned_to).0
                              ++ (website_part request.website ++ simple_part request))),
                  ap (λ (p : List LeadField × Logs). p.0)
                      (sym (
                        ok-injective _ _ (
                          rw (e₃, plan_update) at
                            (rw (e₂, plan_update) at (rw (e₁, plan_update) at e))))),
                  email_part-IsFreeEmail request.email emails e₁,
                  both _ _ (phone_part-IsEmailless request.phone phones e₂) (
                      both _ _ (status_part-IsEmailless lead request.status statuses moved e₃) (
                        both _ _ (assignee_part-IsEmailless lead request.assigned_to) (
                          both _ _ (website_part-IsEmailless request.website)
                            (simple_part-IsEmailless request)))),
                )
              ]
            ]
      ]
