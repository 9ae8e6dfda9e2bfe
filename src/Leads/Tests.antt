-- ===== src/Leads/Tests.antt =====
-- Two leads, created and changed by two organizations.
use mathlib.Core.Option.{none-ne-some, some-injective}
use hire_ai.Prelude.{
  ℕ, ◌+◌, ◌≡◌, refl, Bool, false, ◌&&◌, none, some, List, [], ◌∷◌, map, filter, leb, ltb, ◌==◌,
  if◌then◌else◌, arith,
}
use hire_ai.Task.{RequestContext}
use hire_ai.Leads.{
  Text, Lead, LeadDb, LeadCreateRequest, LeadUpdateRequest, new, contacted, LeadPriority,
  LeadSource, manual_ui,
}
use hire_ai.Leads.Contact.{normalize_phone, place_plus}
use hire_ai.Leads.Commands.{LeadCall, create_cmd, update_cmd, run_calls}
use hire_ai.Leads.Numbers.{AreNumbered, run_calls-AreNumbered}
use hire_ai.Leads.Emails.{HasUniqueEmails, ArePermitted, run_calls-HasUniqueEmails}
use hire_ai.Leads.Tenancy.{is_of, run_calls_isolated}

abbrev isdigit : ℕ → Bool
isdigit c = leb 48 c && ltb c 58

-- The capitals of ASCII.
abbrev lower_code : ℕ → ℕ
lower_code c = if leb 65 c && ltb c 91 then c + 32 else c

abbrev lower : Text → Text
lower cs = map lower_code cs

-- " +1+2" becomes "+12".
abbrev phone : Text
phone = 32 ∷ 43 ∷ 49 ∷ 43 ∷ 50 ∷ []

normalized : normalize_phone isdigit (some phone) ≡ some (43 ∷ 49 ∷ 50 ∷ [])
unfolding normalize_phone place_plus
normalized = refl

abbrev caller : ℕ → RequestContext
caller org_id = record { tenant_id = org_id; user_id = 9; request_id = "r" }

abbrev request : Text → LeadCreateRequest
request email = record {
  first_name = "Ada";
  last_name = "Byron";
  company_name = "Engines";
  job_title = "Analyst";
  email = some email;
  phone = none;
  website = none;
  country = none;
  city = none;
  source = LeadSource.manual;
  created_source = manual_ui;
  status = new;
  priority = LeadPriority.low;
  estimated_value = 0;
  currency = "USD";
  is_starred = false;
  assigned_to = none;
}

abbrev move : LeadUpdateRequest
move = record {
  version = 1;
  first_name = none;
  last_name = none;
  company_name = none;
  job_title = none;
  email = some (65 ∷ []);
  phone = none;
  website = none;
  country = none;
  city = none;
  source = none;
  status = some contacted;
  priority = none;
  estimated_value = none;
  currency = none;
  is_starred = none;
  assigned_to = none;
}

abbrev empty : LeadDb
empty = record {
  leads = [];
  notes = [];
  tags = [];
  assignments = [];
  activities = [];
  sequences = (1, 7) ∷ [];
  currencies = (1, "EUR") ∷ [];
  tasks = [];
  published = [];
}

-- "B" is created, "b" refused, and the first lead becomes "a".
abbrev calls : List LeadCall
calls =
    record { ctx = caller 1; now = 5; command = create_cmd 20 (request (66 ∷ [])) }
    ∷ record { ctx = caller 1; now = 6; command = create_cmd 21 (request (98 ∷ [])) }
    ∷ record { ctx = caller 1; now = 7; command = update_cmd 20 move }
    ∷ []

run_calls-AreNumbered_example : AreNumbered (run_calls lower isdigit calls empty)
run_calls-AreNumbered_example = run_calls-AreNumbered lower isdigit calls empty (tt, tt)

run_calls_isolated_example : filter (is_of 2) (run_calls lower isdigit calls empty).leads ≡ []
run_calls_isolated_example =
    run_calls_isolated 2 lower isdigit calls empty (refl, (refl, (refl, tt)))

abbrev lead : Lead
lead = record {
  id = 20;
  organization_id = 1;
  lead_number = 6;
  created_by = 9;
  updated_by = 9;
  assigned_to = none;
  first_name = "Ada";
  last_name = "Byron";
  company_name = "Engines";
  job_title = "Analyst";
  email = some (66 ∷ []);
  phone = none;
  website = none;
  country = none;
  city = none;
  source = LeadSource.manual;
  created_source = manual_ui;
  status = new;
  priority = LeadPriority.low;
  estimated_value = 0;
  currency = "EUR";
  is_starred = false;
  version = 1;
  last_activity_at = 0;
  deleted_at = none;
}

abbrev with_lead : LeadDb
with_lead = record empty { leads = lead ∷ [] }

-- "b" is refused, and the lead becomes "a".
abbrev later : List LeadCall
later =
    record { ctx = caller 1; now = 6; command = create_cmd 21 (request (98 ∷ [])) }
    ∷ record { ctx = caller 1; now = 7; command = update_cmd 20 move }
    ∷ []

fresh_key : (n : ℕ) → some 21 ≡ some n → (20 == n) ≡ false
fresh_key n e = ground (arith, some-injective _ _ e)

later-ArePermitted : ArePermitted lower isdigit later with_lead
later-ArePermitted =
    (((λ n e. (fresh_key n e, tt)), refl), (((λ n e. absurd (none-ne-some n e)), refl), tt))

run_calls-HasUniqueEmails_example : HasUniqueEmails lower (run_calls lower isdigit later with_lead)
run_calls-HasUniqueEmails_example =
    run_calls-HasUniqueEmails lower isdigit later with_lead later-ArePermitted (tt, tt)
