-- ===== src/Job/Submitting.antt =====
-- What a submission promises: a bounded queue, and one job for one idempotency key.
use mathlib.Core.Path.{subst}
use mathlib.Core.Option.{none-ne-some}
use hire_ai.Prelude.{
  ℕ, ◌⊎◌, String, ◌≡◌, refl, sym, ap, ◌∙◌, inl, inr, true, false, Option, none, some, List, [], ◌∷◌,
  ◌++◌, find, leb, str_eq, eq_refl, if◌then◌else◌, Bool-cases, Option-cases,
}
use hire_ai.Queue.{QueueType, open_queue, get_depth}
use hire_ai.Job.{AiJob, JobDb}
use hire_ai.Job.Repository.{
  NewJob, fresh_job, find_existing, get_job_by_idempotency_key, has_key, create_job, insert_job,
  enqueue_job, add_job_event,
}
use hire_ai.Job.Submit.{
  Reply, done, refused, queue_full, reject_threshold, throttle_threshold, check_backpressure,
  JobContext, Submission, new_job, hash_of, submit_accepted, submit_job,
}

abbrev pub opened_for : QueueType → JobDb → JobDb
opened_for name db = record db { queues = open_queue name db.queues }

-- There is room in the queue for a job.
abbrev pub HasRoom : QueueType → JobDb → Type 0
HasRoom name db = leb reject_threshold (get_depth name (opened_for name db).queues) ≡ false

module _ (md5 : Submission → ℕ) (meanwhile : JobDb → JobDb) (ctx : JobContext) (now new_id : ℕ)
    (s : Submission) (db : JobDb) where
  submit_full :
      leb reject_threshold (get_depth s.queue_name (opened_for s.queue_name db).queues) ≡ true
      → submit_job md5 meanwhile ctx now new_id s db ≡ (
        refused (queue_full (get_depth s.queue_name (opened_for s.queue_name db).queues)),
        opened_for s.queue_name db,
      )
  unfolding submit_job check_backpressure
  submit_full full = rw (full, submit_job) refl

  -- It is accepted at once, or after the sleep.
  submit_room :
      HasRoom s.queue_name db
      → (submit_job md5 meanwhile ctx now new_id s db
          ≡ submit_accepted md5 ctx now new_id s (opened_for s.queue_name db))
        ⊎ (submit_job md5 meanwhile ctx now new_id s db
            ≡ submit_accepted md5 ctx now new_id s (meanwhile (opened_for s.queue_name db)))
  unfolding submit_job check_backpressure
  submit_room room =
      elim (Bool-cases
        (leb throttle_threshold (get_depth s.queue_name (opened_for s.queue_name db).queues))) [
          | inl slow ↦ inr (rw (room, submit_job) (rw (slow, submit_job) refl))
          | inr fast ↦ inl (rw (room, submit_job) (rw (fast, submit_job) refl))
        ]

module _ (md5 : Submission → ℕ) (ctx : JobContext) (now new_id : ℕ) (s : Submission)
    (db : JobDb) where
  accepted_old :
      (j : AiJob)
      → find_existing s.key db ≡ some j
      → submit_accepted md5 ctx now new_id s db ≡ (done j, db)
  unfolding submit_accepted
  accepted_old j e = rw (e, submit_accepted) refl

  accepted_new :
      find_existing s.key db ≡ none
      → submit_accepted md5 ctx now new_id s db ≡ (
        done (fresh_job (new_job ctx new_id (hash_of md5 s) s)),
        insert_job now (new_job ctx new_id (hash_of md5 s) s) db,
      )
  unfolding submit_accepted create_job
  accepted_new e = rw (e, submit_accepted) (rw (e, create_job) refl)

abbrev DoneOf : Reply AiJob × JobDb → Type 0
DoneOf (done j, db) = Unit
DoneOf (refused e, db) = ⊥

found_again :
    (key : String) (js : List AiJob) (n : NewJob)
    → n.new_key ≡ some key
    → find (has_key key) js ≡ none
    → find (has_key key) (js ++ fresh_job n ∷ []) ≡ some (fresh_job n)
found_again key [] n e h =
    ap
      (λ (o : Option String).
        if elim o [ none ↦ false | some k ↦ str_eq k key ] then some (fresh_job n) else none)
      e
    ∙ ap (λ b. if b then some (fresh_job n) else none) (eq_refl key)
found_again key (j ∷ js) n e h = elim (Bool-cases (has_key key j)) [
  | inl hit ↦ absurd (none-ne-some _ (sym (rw hit at h)))
  | inr miss ↦ rw miss (found_again key js n e (rw miss at h))
]

module _ (md5 : Submission → ℕ) (ctx : JobContext) (now new_id : ℕ) (s : Submission) (key : String)
    (keyed : s.key ≡ some key) (named : str_eq key "" ≡ false) where
  existing_key : (db : JobDb) → find_existing s.key db ≡ find_existing (some key) db
  existing_key db = ap (λ o. find_existing o db) keyed

  find_existing-accepted :
      (db db' : JobDb) (j : AiJob)
      → submit_accepted md5 ctx now new_id s db ≡ (done j, db')
      → find_existing (some key) db' ≡ some j
  unfolding insert_job add_job_event enqueue_job find_existing get_job_by_idempotency_key
  find_existing-accepted db db' j e = elim (Option-cases (find_existing s.key db)) [
    | inr (old, found) ↦
        subst (λ (r : Reply AiJob × JobDb). Answers r)
          (sym (accepted_old md5 ctx now new_id s db old found) ∙ e) (sym (existing_key db) ∙ found)
    | inl fresh ↦
        subst (λ (r : Reply AiJob × JobDb). Answers r)
          (sym (accepted_new md5 ctx now new_id s db fresh) ∙ e)
          (rw named (
            found_again key db.jobs (new_job ctx new_id (hash_of md5 s) s) keyed
              (rw named at (sym (existing_key db) ∙ fresh))))
  ]
    where
      Answers : Reply AiJob × JobDb → Type 0
      Answers (done k, d) = find_existing (some key) d ≡ some k
      Answers (refused x, d) = Unit

submitted_key :
    (md5 : Submission → ℕ) (meanwhile : JobDb → JobDb) (ctx : JobContext) (now new_id : ℕ)
    (s : Submission) (key : String)
    → s.key ≡ some key
    → str_eq key "" ≡ false
    → (db db' : JobDb) (j : AiJob) → submit_job md5 meanwhile ctx now new_id s db ≡ (done j, db')
    → find_existing (some key) db' ≡ some j
submitted_key md5 meanwhile ctx now new_id s key keyed named db db' j e =
    let p = opened_for s.queue_name db in
    elim (Bool-cases (leb reject_threshold (get_depth s.queue_name p.queues))) [
      | inl full ↦
          absurd (subst DoneOf (sym e ∙ submit_full md5 meanwhile ctx now new_id s db full) tt)
      | inr room ↦ elim (submit_room md5 meanwhile ctx now new_id s db room) [
        | inl fast ↦
            find_existing-accepted md5 ctx now new_id s key keyed named p db' j (sym fast ∙ e)
        | inr slow ↦
            find_existing-accepted md5 ctx now new_id s key keyed named (meanwhile p) db' j
              (sym slow ∙ e)
      ]
    ]

-- The job with this key stays where it is found.
abbrev pub KeepsKey : String → (JobDb → JobDb) → Type 0
KeepsKey key change =
    (d : JobDb) (j : AiJob)
    → find_existing (some key) d ≡ some j
    → find_existing (some key) (change d) ≡ some j

-- Idempotency: once a submission with a key that is not empty was accepted, and whatever happens before
-- it is repeated and while it sleeps, if only the job with the key stays, the same submission, by any
-- user of any organization, is answered with that same job if its queue has room, and nothing is created.
pub submit_job_idem :
    (md5 : Submission → ℕ) (first between second : JobDb → JobDb) (ctx ctx2 : JobContext)
    (now new_id now2 new_id2 : ℕ) (s : Submission) (key : String) (db db' : JobDb) (j : AiJob)
    → s.key ≡ some key
    → str_eq key "" ≡ false
    → KeepsKey key between
    → KeepsKey key second
    → submit_job md5 first ctx now new_id s db ≡ (done j, db')
    → HasRoom s.queue_name (between db')
    → (submit_job md5 second ctx2 now2 new_id2 s (between db')
        ≡ (done j, opened_for s.queue_name (between db')))
      ⊎ (submit_job md5 second ctx2 now2 new_id2 s (between db')
          ≡ (done j, second (opened_for s.queue_name (between db'))))
unfolding find_existing get_job_by_idempotency_key
submit_job_idem md5 first between second ctx ctx2 now new_id now2 new_id2 s key db db' j keyed named
      stays slept e room =
    let p = opened_for s.queue_name db in
    let q = opened_for s.queue_name (between db') in
    let there = submitted_key md5 first ctx now new_id s key keyed named db db' j e in
    elim (submit_room md5 second ctx2 now2 new_id2 s (between db') room) [
      | inl fast ↦ inl (fast ∙ again q (stays db' j there))
      | inr slow ↦ inr (slow ∙ again (second q) (slept q j (stays db' j there)))
    ]
  where
    again :
        (x : JobDb)
        → find_existing (some key) x ≡ some j
        → submit_accepted md5 ctx2 now2 new_id2 s x ≡ (done j, x)
    again x found =
        accepted_old md5 ctx2 now2 new_id2 s x j
          (existing_key md5 ctx2 now2 new_id2 s key keyed named x ∙ found)
