-- ===== src/Scheduler/CloudTasks/Bulk.antt =====
-- `ScheduleBulk` of internal/scheduler/cloudtasks.go, whatever the order in which its goroutines run.
use jack_service.Common.{
  ℕ, suc, ◌<◌, ◌≡◌, ◌≢◌, refl, ◌∙◌, ◌⊎◌, inl, inr, Bool, true, false, ◌||◌, List, [], ◌∷◌, Option,
  none, some, arith, eqb, eqb_iff, Bool-cases, Option-cases, length, set, get_elem?, length-set,
  length-replicate, get_elem?-set_self, get_elem?-set_ne, lt-length_of_get_elem?,
}
use jack_service.Go.{Error}
use jack_service.World.{World, Env}
use jack_service.Queue.{Job, EnqueueResult}
use jack_service.Queue.Contract.{Answers}
use jack_service.Scheduler.{Codec, IsScheduler}
use jack_service.Scheduler.CloudTasks.{
  CloudTasksScheduler, Client, result_of, run_one, run_all, schedule_bulk, cloud_tasks_scheduler,
}

abbrev pub elem : ℕ → List ℕ → Bool
elem i [] = false
elem i (j ∷ js) = eqb i j || elem i js

-- Every goroutine runs: each index below `n` is in the order for `n` goroutines.
abbrev pub RunsAll : (ℕ → List ℕ) → Type 0
RunsAll order = (n i : ℕ) → i < n → elem i (order n) ≡ true

abbrev IsGood : Job → EnqueueResult → Type 0
IsGood j r = r.error ≡ none → r.job_id ≡ j.id

-- The entry at an index is that of its job.
record IsGoodAt (jobs : List Job) (results : List EnqueueResult) (i : ℕ) : Type 0 where
  at :
      (j : Job) (r : EnqueueResult)
      → get_elem? jobs i ≡ some j
      → get_elem? results i ≡ some r
      → IsGood j r

Answers-of_good :
    (jobs : List Job) (results : List EnqueueResult)
    → length results ≡ length jobs
    → ((i : ℕ) → i < length jobs → IsGoodAt jobs results i)
    → Answers jobs results
Answers-of_good [] [] n h = tt
Answers-of_good [] (r ∷ rs) n h = absurd (omega arith)
Answers-of_good (j ∷ js) [] n h = absurd (omega arith)
Answers-of_good (j ∷ js) (r ∷ rs) n h = (
  (h 0 (omega arith)).at j r refl refl,
  Answers-of_good js rs (omega arith) (λ i lt. record { at = (h (suc i) (omega arith)).at }),
)

module _ (env : Env) (codec : Codec) (client : Client) (s : CloudTasksScheduler) where
  result_of-IsGood : (j : Job) (o : Option Error) → IsGood j (result_of env codec client s j o)
  result_of-IsGood j none e = refl
  result_of-IsGood j (some x) e = cc

  record Progress (jobs : List Job) (i : ℕ) (before after : List EnqueueResult) : Type 0 where
    as_long : length after ≡ length before
    done : length before ≡ length jobs → IsGoodAt jobs after i
    kept : (k : ℕ) → length before ≡ length jobs → IsGoodAt jobs before k → IsGoodAt jobs after k

  set-IsGoodAt :
      (jobs : List Job) (i : ℕ) (results : List EnqueueResult) (j : Job) (o : Option Error)
      → get_elem? jobs i ≡ some j
      → length results ≡ length jobs
      → IsGoodAt jobs (set results i (result_of env codec client s j o)) i
  set-IsGoodAt jobs i results j o e n = record {
    at = λ j' r' ej er.
        let wrote =
          get_elem?-set_self results i (result_of env codec client s j o)
            (omega (arith, n, lt-length_of_get_elem? jobs i e)) in
        let same_job : j' ≡ j = cc in
        let same_result : r' ≡ result_of env codec client s j o = cc (wrote) in
        rw (same_job, same_result) (result_of-IsGood j o);
  }

  set-kept :
      (jobs : List Job) (i k : ℕ) (results : List EnqueueResult) (v : EnqueueResult)
      → i ≢ k
      → IsGoodAt jobs results k
      → IsGoodAt jobs (set results i v) k
  set-kept jobs i k results v ne g = record {
    at = λ j r ej er. g.at j r ej (rw (get_elem?-set_ne results i k v ne) at er);
  }

  write-Progress :
      (jobs : List Job) (i : ℕ) (results : List EnqueueResult) (j : Job) (o : Option Error)
      → get_elem? jobs i ≡ some j
      → Progress jobs i results (set results i (result_of env codec client s j o))
  write-Progress jobs i results j o e = record {
    as_long = length-set results i _;
    done = λ n. set-IsGoodAt jobs i results j o e n;
    kept = λ k n g. elim (Bool-cases (eqb i k)) [
      | inl same ↦ rw (← (eqb_iff i k).0 same) (set-IsGoodAt jobs i results j o e n)
      | inr other ↦ set-kept jobs i k results _ (ne_of_eqb i k other) g
    ];
  }
    where
      ne_of_eqb : (i k : ℕ) → eqb i k ≡ false → i ≢ k
      ne_of_eqb i k h = ground arith

  run_one-Progress :
      (jobs : List Job) (i : ℕ) (results : List EnqueueResult) (w : World)
      → Progress jobs i results (run_one env codec client s jobs i results w).0
  run_one-Progress jobs i results w = elim (Option-cases (get_elem? jobs i)) [
    | inl out ↦
        unfold run_one in
        rw (out, run_one)
          (record {
            as_long = refl;
            done = λ n. record { at = λ j r ej er. cc };
            kept = λ k n g. g;
          })
    | inr (j, e) ↦ unfold run_one in rw (e, run_one) (write-Progress jobs i results j _ e)
  ]

  run_all-good :
      (jobs : List Job) (order : List ℕ) (results : List EnqueueResult) (w : World)
      → length results ≡ length jobs
      → (length (run_all env codec client s jobs order results w).0 ≡ length jobs)
        × ((i : ℕ)
            → (elem i order ≡ true) ⊎ IsGoodAt jobs results i
            → IsGoodAt jobs (run_all env codec client s jobs order results w).0 i)
  unfolding run_all
  run_all-good jobs [] results w n = (n, λ i h. elim h [ inl e ↦ cc | inr g ↦ g ])
  run_all-good jobs (k ∷ order) results w n =
      let (results', w') = run_one env codec client s jobs k results w in
      let p = run_one-Progress jobs k results w in
      let (m, later) = run_all-good jobs order results' w' (p.as_long ∙ n) in
      (m, λ i h. later i (first k i order p n h))
    where
      first :
          (k i : ℕ) (order : List ℕ) {after : List EnqueueResult}
          → Progress jobs k results after
          → length results ≡ length jobs
          → (elem i (k ∷ order) ≡ true) ⊎ IsGoodAt jobs results i
          → (elem i order ≡ true) ⊎ IsGoodAt jobs after i
      first k i order p n (inr g) = inr (p.kept i n g)
      first k i order p n (inl e) = elim (Bool-cases (eqb i k)) [
        | inl same ↦ inr (rw ((eqb_iff i k).0 same) (p.done n))
        | inr other ↦ inl (rw other at e)
      ]

  pub cloud_tasks_scheduler-IsScheduler :
      (order : ℕ → List ℕ)
      → RunsAll order
      → IsScheduler (cloud_tasks_scheduler env codec client s order)
  unfolding schedule_bulk
  cloud_tasks_scheduler-IsScheduler order all = record {
    answers = λ jobs w.
        let (n, good) =
          run_all-good jobs (order (length jobs)) _ w (length-replicate (length jobs) _) in
        Answers-of_good jobs _ n (λ i lt. good i (inl (all (length jobs) i lt)));
  }
