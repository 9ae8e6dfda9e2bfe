-- ===== src/Leads/Fields.antt =====
-- What the assignments of an update leave alone: the keys, and most of them the address.
use hire_ai.Prelude.{
  ℕ, ◌≡◌, refl, ◌∙◌, inl, inr, Option, none, some, List, [], ◌∷◌, ◌++◌, All, All-append, Bool-cases,
}
use hire_ai.Leads.{Text, Lead, LeadUpdateRequest}
use hire_ai.Leads.Update.{
  LeadField, set_email, set_phone, set_website, set_status, set_assigned_to, set_first_name,
  set_last_name, set_company_name, set_job_title, set_country, set_city, set_currency, set_source,
  set_priority, set_estimated_value, set_is_starred, set_last_activity_at, set_updated_by,
  apply_field, apply_fields, simple, simple_part,
}
use hire_ai.Leads.Plan.{is_assignee, assignee_part, website_part}

-- The columns that no method but deletion and restoration writes.
abbrev pub SameRow : Lead → Lead → Type 0
SameRow l l' =
    (l'.id ≡ l.id)
    × (l'.organization_id ≡ l.organization_id)
    × (l'.lead_number ≡ l.lead_number)
    × (l'.deleted_at ≡ l.deleted_at)

apply_field-SameRow : (u : LeadField) (l : Lead) → SameRow l (apply_field u l)
unfolding apply_field
apply_field-SameRow (set_email e) l = (refl, refl, refl, refl)
apply_field-SameRow (set_phone p) l = (refl, refl, refl, refl)
apply_field-SameRow (set_website w) l = (refl, refl, refl, refl)
apply_field-SameRow (set_status s) l = (refl, refl, refl, refl)
apply_field-SameRow (set_assigned_to a) l = (refl, refl, refl, refl)
apply_field-SameRow (set_first_name n) l = (refl, refl, refl, refl)
apply_field-SameRow (set_last_name n) l = (refl, refl, refl, refl)
apply_field-SameRow (set_company_name n) l = (refl, refl, refl, refl)
apply_field-SameRow (set_job_title t) l = (refl, refl, refl, refl)
apply_field-SameRow (set_country c) l = (refl, refl, refl, refl)
apply_field-SameRow (set_city c) l = (refl, refl, refl, refl)
apply_field-SameRow (set_currency c) l = (refl, refl, refl, refl)
apply_field-SameRow (set_source s) l = (refl, refl, refl, refl)
apply_field-SameRow (set_priority p) l = (refl, refl, refl, refl)
apply_field-SameRow (set_estimated_value v) l = (refl, refl, refl, refl)
apply_field-SameRow (set_is_starred b) l = (refl, refl, refl, refl)
apply_field-SameRow (set_last_activity_at n) l = (refl, refl, refl, refl)
apply_field-SameRow (set_updated_by u) l = (refl, refl, refl, refl)

pub apply_fields-SameRow : (us : List LeadField) (l : Lead) → SameRow l (apply_fields us l)
unfolding apply_fields
apply_fields-SameRow [] l = (refl, refl, refl, refl)
apply_fields-SameRow (u ∷ us) l =
    let one = apply_field-SameRow u l in
    let rest = apply_fields-SameRow us (apply_field u l) in
    (rest.0 ∙ one.0, rest.1 ∙ one.1, rest.2 ∙ one.2, rest.3 ∙ one.3)

-- An assignment that is not to the e-mail address.
abbrev pub IsEmailless : LeadField → Type 0
IsEmailless u = (l : Lead) → (apply_field u l).email ≡ l.email

pub apply_fields-emailless :
    (us : List LeadField) → All IsEmailless us → (l : Lead) → (apply_fields us l).email ≡ l.email
unfolding apply_fields
apply_fields-emailless [] h l = refl
apply_fields-emailless (u ∷ us) h l = apply_fields-emailless us h.1 (apply_field u l) ∙ h.0 l

simple-IsEmailless :
    {A : Type 0} (set : A → LeadField)
    → ((a : A) → IsEmailless (set a))
    → (o : Option A) → All IsEmailless (simple set o)
simple-IsEmailless set h none = tt
simple-IsEmailless set h (some a) = (h a, tt)

pub both :
    (us vs : List LeadField) → All IsEmailless us → All IsEmailless vs → All IsEmailless (us ++ vs)
both us vs = All-append IsEmailless us vs

pub simple_part-IsEmailless : (r : LeadUpdateRequest) → All IsEmailless (simple_part r)
unfolding simple_part apply_field
simple_part-IsEmailless r =
    both _ _ (simple-IsEmailless set_first_name (λ a l. refl) r.first_name) (
      both _ _ (simple-IsEmailless set_last_name (λ a l. refl) r.last_name) (
        both _ _ (simple-IsEmailless set_company_name (λ a l. refl) r.company_name) (
          both _ _ (simple-IsEmailless set_job_title (λ a l. refl) r.job_title) (
            both _ _ (simple-IsEmailless set_country (λ a l. refl) r.country) (
              both _ _ (simple-IsEmailless set_city (λ a l. refl) r.city) (
                both _ _ (simple-IsEmailless set_source (λ a l. refl) r.source) (
                  both _ _ (simple-IsEmailless set_priority (λ a l. refl) r.priority) (
                    both _ _
                      (simple-IsEmailless set_estimated_value (λ a l. refl) r.estimated_value)
                      (both _ _ (simple-IsEmailless set_currency (λ a l. refl) r.currency)
                        (simple-IsEmailless set_is_starred (λ a l. refl) r.is_starred))))))))))

pub website_part-IsEmailless : (o : Option Text) → All IsEmailless (website_part o)
unfolding website_part apply_field
website_part-IsEmailless none = tt
website_part-IsEmailless (some url) = ((λ l. refl), tt)

pub assignee_part-IsEmailless :
    (lead : Lead) (o : Option ℕ) → All IsEmailless (assignee_part lead o).0
unfolding assignee_part apply_field
assignee_part-IsEmailless lead none = tt
assignee_part-IsEmailless lead (some a) = elim (Bool-cases (is_assignee a lead.assigned_to)) [
  | inl same ↦ rw (same, assignee_part) tt
  | inr other ↦ rw (other, assignee_part) ((λ l. refl), tt)
]
