-- ===== src/Leads/Emails.antt =====
-- The addresses of the active leads.
use mathlib.Core.Path.{subst}
use mathlib.Core.Bool.{false≢true}
use mathlib.Core.Option.{none-ne-some, some-injective}
use hire_ai.Prelude.{
  ℕ, ◌≡◌, refl, sym, ap, ◌∙◌, inl, inr, Bool, true, false, not, ◌&&◌, ◌||◌, Option, none, some,
  List, [], ◌∷◌, any, update_first, All, All-weaken, Pairwise, Pairwise-append,
  Pairwise-update_first, ◌==◌, if◌then◌else◌, Bool-cases, arith,
}
use hire_ai.Task.{RequestContext}
use hire_ai.Leads.{Text, Lead, LeadDb}
use hire_ai.Leads.Repository.{is_active, is_other, same_text, has_email, email_exists}
use hire_ai.Leads.Service.{clashing_email, truthy}
use hire_ai.Leads.Commands.{
  LeadCommand, LeadCall, run_call, run_calls, LeadStep, kept, added, changed, restored, SameKeys,
  IsFree, IsOwn, key_of, is_restore,
}
use hire_ai.Leads.Steps.{run_command-LeadStep}

module _ (lower : Text → Text) where
  -- Two rows with different keys, which if both are active in one organization have different
  -- addresses, apart from case.
  abbrev pub AreApart : Lead → Lead → Type 0
  AreApart l m =
      ((l.id == m.id) ≡ false)
      × (l.organization_id ≡ m.organization_id
          → is_active l ≡ true
          → is_active m ≡ true
          → (e e' : Text) → l.email ≡ some e
          → m.email ≡ some e'
          → truthy (some e) ≡ true
          → truthy (some e') ≡ true
          → same_text (lower e) (lower e') ≡ false)

  abbrev pub HasUniqueEmails : LeadDb → Type 0
  HasUniqueEmails db = Pairwise AreApart db.leads

  -- A created lead has a new key, and nothing is restored.
  abbrev pub IsPermitted : LeadCommand → LeadDb → Type 0
  IsPermitted c db =
      ((n : ℕ) → key_of c ≡ some n → All (λ l. (l.id == n) ≡ false) db.leads)
      × (is_restore c ≡ false)

  module _ (isdigit : ℕ → Bool) where
    abbrev pub ArePermitted : List LeadCall → LeadDb → Type 0
    ArePermitted [] db = Unit
    ArePermitted (c ∷ cs) db =
        IsPermitted c.command db × ArePermitted cs (run_call lower isdigit c db)

All-any-false :
    {A : Type 0} (xs : List A) → All (λ x. (p : A → Bool) → any p xs ≡ false → p x ≡ false) xs
All-any-false [] = tt
All-any-false (x ∷ xs) = (
  (λ p h. left_false (p x) (any p xs) h),
  All-weaken _ _ xs (λ y k p h. k p (right_false (p x) (any p xs) h)) (All-any-false xs),
)
  where
    left_false : (a b : Bool) → (a || b) ≡ false → a ≡ false
    left_false a b h = ground (arith, h)

    right_false : (a b : Bool) → (a || b) ≡ false → b ≡ false
    right_false a b h = ground (arith, h)

same_text-sym : (a b : Text) → same_text a b ≡ same_text b a
same_text-sym [] [] = refl
same_text-sym [] (y ∷ b) = refl
same_text-sym (x ∷ a) [] = refl
same_text-sym (x ∷ a) (y ∷ b) =
    ap (λ r. (x == y) && r) (same_text-sym a b) ∙ ap (λ r. r && same_text b a) (flip x y)
  where
    flip : (m n : ℕ) → (m == n) ≡ (n == m)
    flip m n = ground arith

same_number : (m n : ℕ) → m ≡ n → (m == n) ≡ true
same_number m n e = ground (arith, e)

third_false :
    (a b c d : Bool) → (a && (b && (c && d))) ≡ false → a ≡ true → c ≡ true → d ≡ true → b ≡ false
third_false a b c d h ha hc hd = ground (arith, h, ha, hc, hd)

-- A row that the search for an address passed over has another address.
missed :
    (lower : Text → Text) (ctx : RequestContext) (e : Text) (o : Option ℕ) (l : Lead)
    → (l.organization_id == ctx.tenant_id && (has_email lower e l && (is_active l && is_other o l)))
      ≡ false
    → l.organization_id ≡ ctx.tenant_id
    → is_active l ≡ true
    → is_other o l ≡ true
    → (e' : Text) → l.email ≡ some e'
    → same_text (lower e') (lower e) ≡ false
missed lower ctx e o l h own active away e' here =
    ap (λ x. elim x [ none ↦ false | some y ↦ same_text (lower y) (lower e) ]) (sym here)
    ∙ third_false _ _ _ _ h (same_number _ _ own) active away

AreApart-sym : (lower : Text → Text) (l m : Lead) → AreApart lower l m → AreApart lower m l
AreApart-sym lower l m (keys, r) = (
  flip l.id m.id keys,
  λ same am al e e' he he' te te'.
      same_text-sym (lower e) (lower e') ∙ r (sym same) al am e' e he' he te' te,
)
  where
    flip : (a b : ℕ) → (a == b) ≡ false → (b == a) ≡ false
    flip a b h = ground (arith, h)

module _ (lower : Text → Text) (ctx : RequestContext) (db : LeadDb) (p : Lead → Bool)
    (f : Lead → Lead) (own : IsOwn ctx p) (keys : SameKeys f)
    (active : (l : Lead) → is_active (f l) ≡ true → is_active l ≡ true)
    (free : IsFree lower ctx db p f) where
  -- What a search without a hit says of a row.
  abbrev IsSearched : Lead → Type 0
  IsSearched y = (q : Lead → Bool) → any q db.leads ≡ false → q y ≡ false

  rewritten-AreApart :
      (x y : Lead) → p x ≡ true → IsSearched y → AreApart lower x y → AreApart lower (f x) y
  unfolding email_exists
  rewritten-AreApart x y hit searched (differ, r) = (
    ap (λ n. n == y.id) (keys x).0 ∙ differ,
    λ same ax ay e e' he he' te te'. elim (free x hit) [
      | inl mail ↦ r (sym (keys x).1 ∙ same) (active x ax) ay e e' (sym mail ∙ he) he' te te'
      | inr (n, mail, unused) ↦
          let known : e ≡ n = some-injective _ _ (sym he ∙ mail) in
          same_text-sym (lower e) (lower e')
          ∙ ap (λ k. same_text (lower e') (lower k)) known
          ∙ missed lower ctx n (some x.id) y (searched _ unused) (sym same ∙ (keys x).1 ∙ own x hit)
              ay (other x.id y.id differ) e' he'
    ],
  )
    where
      other : (a b : ℕ) → (a == b) ≡ false → not (b == a) ≡ true
      other a b h = ground (arith, h)

  rewritten-HasUniqueEmails :
      HasUniqueEmails lower db → Pairwise (AreApart lower) (update_first p f db.leads)
  rewritten-HasUniqueEmails h =
      Pairwise-update_first (AreApart lower) IsSearched p f
        (λ x y hit searched r. rewritten-AreApart x y hit searched r)
        (λ x y hit searched r.
          AreApart-sym lower (f y) x
            (rewritten-AreApart y x hit searched (AreApart-sym lower x y r)))
        db.leads (All-any-false db.leads) h

new-AreApart :
    (lower : Text → Text) (ctx : RequestContext) (db : LeadDb) (lead : Lead)
    → lead.organization_id ≡ ctx.tenant_id
    → clashing_email lower ctx lead.email db ≡ none
    → (ls : List Lead) → All (λ l. (l.id == lead.id) ≡ false) ls
    → All (λ l. (q : Lead → Bool) → any q db.leads ≡ false → q l ≡ false) ls
    → All (λ l. AreApart lower l lead) ls
unfolding email_exists
new-AreApart lower ctx db lead own unclaimed [] fresh searched = tt
new-AreApart lower ctx db lead own unclaimed (l ∷ ls) fresh searched = (
  (
    fresh.0,
    λ same al am e e' he he' te te'.
        missed lower ctx e' none l (searched.0 _ (unfound e' te' he')) (same ∙ own) al refl e he,
  ),
  new-AreApart lower ctx db lead own unclaimed ls fresh.1 searched.1,
)
  where
    unfound :
        (m : Text)
        → truthy (some m) ≡ true
        → lead.email ≡ some m
        → email_exists lower ctx m none db ≡ false
    unfound [] t here = absurd (false≢true t)
    unfound (c ∷ cs) t here = elim (Bool-cases (email_exists lower ctx (c ∷ cs) none db)) [
      | inr miss ↦ miss
      | inl hit ↦ absurd (
          none-ne-some _ (
            sym unclaimed
            ∙ ap (λ o. clashing_email lower ctx o db) here
            ∙ ap (λ b. if b then some (c ∷ cs) else none) hit))
    ]

step-HasUniqueEmails :
    (lower : Text → Text) (ctx : RequestContext) (key : Option ℕ) (back : Bool) (db db' : LeadDb)
    → LeadStep lower ctx key back db db'
    → ((n : ℕ) → key ≡ some n → All (λ l. (l.id == n) ≡ false) db.leads)
    → back ≡ false
    → HasUniqueEmails lower db
    → HasUniqueEmails lower db'
step-HasUniqueEmails lower ctx key back db db' (kept el es) fresh only h =
    subst (Pairwise (AreApart lower)) (sym el) h
step-HasUniqueEmails lower ctx key back db db' (added lead id own num unclaimed el es) fresh only
      h =
    subst (Pairwise (AreApart lower)) (sym el) (
      Pairwise-append (AreApart lower) db.leads lead h (
        new-AreApart lower ctx db lead own unclaimed db.leads (fresh lead.id id)
          (All-any-false db.leads)))
step-HasUniqueEmails lower ctx key back db db' (changed p f own keys active free el es) fresh only
      h =
    subst (Pairwise (AreApart lower)) (sym el)
      (rewritten-HasUniqueEmails lower ctx db p f own keys active free h)
step-HasUniqueEmails lower ctx key back db db' (restored p f own keys undone el es) fresh only h =
    absurd (false≢true (sym only ∙ undone))

-- If leads have different keys and active leads of an organization have different e-mail addresses,
-- apart from case, then after any sequence of calls they still do, provided that every created lead
-- gets a new key and no deleted lead is restored.
pub run_calls-HasUniqueEmails :
    (lower : Text → Text) (isdigit : ℕ → Bool) (calls : List LeadCall) (db : LeadDb)
    → ArePermitted lower isdigit calls db
    → HasUniqueEmails lower db
    → HasUniqueEmails lower (run_calls lower isdigit calls db)
run_calls-HasUniqueEmails lower isdigit [] db ok h = h
run_calls-HasUniqueEmails lower isdigit (c ∷ cs) db ok h =
    run_calls-HasUniqueEmails lower isdigit cs (run_call lower isdigit c db) ok.1 (
      step-HasUniqueEmails lower c.ctx (key_of c.command) (is_restore c.command) db
        (run_call lower isdigit c db) (run_command-LeadStep lower isdigit c.ctx c.now db c.command)
        ok.0.0 ok.0.1 h)
