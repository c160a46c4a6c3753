-- ===== src/Scheduler/CloudTasks/Vouched.antt =====
-- What `ScheduleBulk` of internal/scheduler/cloudtasks.go has done for the jobs whose results have an ID.
use mathlib.Core.Option.{some-injective}
use jack_service.Common.{
  ℕ, zero, suc, ◌<◌, ◌≡◌, ◌≢◌, refl, sym, ap, ◌∙◌, inl, inr, List, [], ◌∷◌, Option, none, some,
  arith, eqb, ltb, eqb_iff, Bool-cases, Option-cases, Result-cases, length, set, get_elem?,
  replicate, get_elem?-set_self, get_elem?-set_ne, lt-length_of_get_elem?, length-set,
}
use jack_service.Go.{Error, Instant}
use jack_service.World.{World, Env, Event, Extends, Extends-trans, now}
use jack_service.Queue.{Job, EnqueueResult}
use jack_service.Queue.Contract.{BulkVouches, Paired-at}
use jack_service.Scheduler.{Codec, marshal_job}
use jack_service.Scheduler.CloudTasks.{
  CloudTasksScheduler, Client, max_task_body_size, create_task, task_for, submit, schedule,
  result_of, run_one, run_all, schedule_bulk,
}
use jack_service.Scheduler.CloudTasks.Created.{Created, cloud_tasks_scheduler-Vouches}

module _ (env : Env) (codec : Codec) (client : Client) (s : CloudTasksScheduler) where
  submit-Extends :
      (job : Job) (start : Instant) (body : List ℕ) (w : World)
      → Extends w.history (submit env codec client s job start body w).1.history
  unfolding submit create_task
  submit-Extends job start body w =
      elim (Option-cases (client.create_task w.history (task_for env codec client s job body))) [
        | inl fine ↦ rw (fine, submit) (_ ∷ _ ∷ _ ∷ _ ∷ [], refl)
        | inr (e, bad) ↦ rw (bad, submit) (_ ∷ _ ∷ [], refl)
      ]

  schedule-Extends :
      (job : Job) (w : World) → Extends w.history (schedule env codec client s job w).1.history
  unfolding schedule
  schedule-Extends job w = elim (Result-cases (marshal_job codec job)) [
    | inr (e, bad) ↦ rw (bad, schedule) (_ ∷ _ ∷ [], refl)
    | inl (body, good) ↦ elim (Bool-cases (ltb max_task_body_size (length body))) [
      | inl large ↦ rw (good, large, schedule) (_ ∷ _ ∷ [], refl)
      | inr small ↦
          rw (good, small, schedule)
            (Extends-trans w.history _ _ (_ ∷ [], refl)
              (submit-Extends job (now env w).0 body (now env w).1))
    ]
  ]

  -- Every entry with an ID is that of a job whose task has been created.
  record Vouched (jobs : List Job) (results : List EnqueueResult) (history : List Event)
      : Type 0 where
    at :
        (i : ℕ) (job : Job) (r : EnqueueResult)
        → get_elem? jobs i ≡ some job
        → get_elem? results i ≡ some r
        → r.job_id ≢ ""
        → Created env codec client s job history

  Vouched-later :
      (jobs : List Job) (results : List EnqueueResult) (h h' : List Event)
      → Extends h h'
      → Vouched jobs results h
      → Vouched jobs results h'
  Vouched-later jobs results h h' later v = record {
    at = λ i job r ej er named.
        (cloud_tasks_scheduler-Vouches env codec client s).lasting job h h' later
          (v.at i job r ej er named);
  }

  result_of-Created :
      (job : Job) (w : World) (o : Option Error)
      → (schedule env codec client s job w).0 ≡ o
      → (result_of env codec client s job o).job_id ≢ ""
      → Created env codec client s job (schedule env codec client s job w).1.history
  result_of-Created job w (some e) h named = absurd (named refl)
  result_of-Created job w none h named =
      (cloud_tasks_scheduler-Vouches env codec client s).vouched job w h

  write-Vouched :
      (jobs : List Job) (results : List EnqueueResult) (i : ℕ) (job : Job) (w : World)
      → get_elem? jobs i ≡ some job
      → Vouched jobs results w.history
      → (let (o, v) = schedule env codec client s job w in
          Vouched jobs (set results i (result_of env codec client s job o)) v.history)
  write-Vouched jobs results i job w e v = record {
    at = λ k j r ej er named.
        let written = result_of env codec client s job (schedule env codec client s job w).0 in
        elim (Bool-cases (eqb i k)) [
          | inr other ↦
              let ne : i ≢ k = ground (arith, other) in
              (Vouched-later jobs results w.history _ (schedule-Extends job w) v).at k j r ej
                (rw (get_elem?-set_ne results i k written ne) at er) named
          | inl same ↦
              let at_k = (eqb_iff i k).0 same in
              let er' : get_elem? (set results i written) i ≡ some r =
                ap (get_elem? (set results i written)) at_k ∙ er in
              let in_range : i < length results = omega (
                arith,
                length-set results i written,
                lt-length_of_get_elem? (set results i written) i er',
              ) in
              let same_result : written ≡ r =
                some-injective _ _ (sym (get_elem?-set_self results i written in_range) ∙ er') in
              let same_job : job ≡ j = some-injective _ _ (sym e ∙ ap (get_elem? jobs) at_k ∙ ej) in
              rw (← same_job) (
                result_of-Created job w _ refl
                  (λ unnamed. named (ap (λ x. x.job_id) (sym same_result) ∙ unnamed)))
        ];
  }

  run_one-Vouched :
      (jobs : List Job) (i : ℕ) (results : List EnqueueResult) (w : World)
      → Vouched jobs results w.history
      → (let (results', v) = run_one env codec client s jobs i results w in
          Vouched jobs results' v.history × Extends w.history v.history)
  unfolding run_one
  run_one-Vouched jobs i results w v = elim (Option-cases (get_elem? jobs i)) [
    | inl out ↦ rw (out, run_one) (v, ([], refl))
    | inr (job, e) ↦
        rw (e, run_one) (write-Vouched jobs results i job w e v, schedule-Extends job w)
  ]

  run_all-Vouched :
      (jobs : List Job) (order : List ℕ) (results : List EnqueueResult) (w : World)
      → Vouched jobs results w.history
      → (let (results', v) = run_all env codec client s jobs order results w in
          Vouched jobs results' v.history × Extends w.history v.history)
  unfolding run_all
  run_all-Vouched jobs [] results w v = (v, ([], refl))
  run_all-Vouched jobs (i ∷ order) results w v =
      let (results', w') = run_one env codec client s jobs i results w in
      let (first, later) = run_one-Vouched jobs i results w v in
      let (all, last) = run_all-Vouched jobs order results' w' first in
      (all, Extends-trans w.history w'.history _ later last)

  -- No entry of the fresh slice has an ID.
  fresh_unnamed :
      (n i : ℕ) (r : EnqueueResult)
      → get_elem? (replicate n (record { job_id = ""; error = none })) i ≡ some r
      → r.job_id ≢ ""
      → ⊥
  fresh_unnamed zero i r e named = absurd (cc)
  fresh_unnamed (suc n) zero r e named = named (ap (λ x. x.job_id) (sym (some-injective _ _ e)))
  fresh_unnamed (suc n) (suc i) r e named = fresh_unnamed n i r e named

  -- In whatever order the goroutines run, and whether all of them do.
  pub schedule_bulk-BulkVouches :
      (order : ℕ → List ℕ)
      → BulkVouches (schedule_bulk env codec client s order) (Created env codec client s)
  unfolding schedule_bulk
  schedule_bulk-BulkVouches order = record {
    vouched = λ jobs w job r paired fine named.
        let (i, at, at') = Paired-at paired in (ran jobs w).0.at i job r at at' named;
    appends = λ jobs w. (ran jobs w).1;
    lasting = (cloud_tasks_scheduler-Vouches env codec client s).lasting;
  }
    where
      ran :
          (jobs : List Job) (w : World)
          → (let (results, v) = schedule_bulk env codec client s order jobs w in
              Vouched jobs results v.history × Extends w.history v.history)
      ran jobs w =
          run_all-Vouched jobs (order (length jobs)) _ w (record {
            at = λ i job r ej er named. absurd (fresh_unnamed (length jobs) i r er named);
          })
