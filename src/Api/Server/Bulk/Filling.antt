-- ===== src/Api/Server/Bulk/Filling.antt =====
-- What the writes by index of `EnqueueBulk` (internal/api/server.go) leave in each result.
use mathlib.Core.List.{append_assoc}
use jack_service.Common.{
  ℕ, zero, suc, ◌≤◌, ◌<◌, ◌≡◌, ◌∙◌, sym, refl, ap, List, [], ◌∷◌, ◌++◌, none, some, arith, All,
  length, length-append,
}
use jack_service.Proto.{BulkResult}
use jack_service.Queue.{Job, EnqueueResult}
use jack_service.Queue.Contract.{Answers, Paired, here, there}
use jack_service.Api.Server.Bulk.{
  Slot, Indexed, jobs_of, indexes_of, update_at, with_outcome, fill_outcomes,
}
use jack_service.Api.Server.Bulk.Partition.{Division, done, skipped, to_backend, to_scheduler}

-- An outcome for a job: an error, or its own ID, with what `P` says of the two.
pub record IsOutcome (P : Job → EnqueueResult → Type 0) (job : Job) (br : EnqueueResult)
    : Type 0 where
  pub own : br.error ≡ none → br.job_id ≡ job.id
  pub from : P job br

-- Each result of a slot with a job has taken an outcome for that job; any other is as it was.
pub data Filled (P : Job → EnqueueResult → Type 0)
    : List Slot → List BulkResult → List BulkResult → Type 0 where
  none_left : Filled P [] [] []
  kept :
      {slot : Slot} {slots : List Slot} {r : BulkResult} {before after : List BulkResult}
      → slot.job ≡ none
      → Filled P slots before after
      → Filled P (slot ∷ slots) (r ∷ before) (r ∷ after)
  taken :
      {slot : Slot} {slots : List Slot} {r : BulkResult} {before after : List BulkResult}
      {job : Job} {br : EnqueueResult}
      → slot.job ≡ some job
      → IsOutcome P job br
      → Filled P slots before after
      → Filled P (slot ∷ slots) (r ∷ before) (with_outcome br r ∷ after)

update_at-append :
    (front : List BulkResult) (f : BulkResult → BulkResult) (r : BulkResult)
    (rest : List BulkResult)
    → update_at (length front) f (front ++ r ∷ rest) ≡ (front ++ f r ∷ []) ++ rest
unfolding update_at
update_at-append [] f r rest = refl
update_at-append (x ∷ front) f r rest = ap (λ l. x ∷ l) (update_at-append front f r rest)

update_at_comm :
    (i j : ℕ) (f g : BulkResult → BulkResult) (rs : List BulkResult)
    → i < j
    → update_at i f (update_at j g rs) ≡ update_at j g (update_at i f rs)
unfolding update_at
update_at_comm i j f g [] h = refl
update_at_comm zero zero f g (r ∷ rs) h = absurd (omega arith)
update_at_comm zero (suc j) f g (r ∷ rs) h = refl
update_at_comm (suc i) zero f g (r ∷ rs) h = absurd (omega arith)
update_at_comm (suc i) (suc j) f g (r ∷ rs) h =
    ap (λ l. r ∷ l) (update_at_comm i j f g rs (omega arith))

-- A write before all the indexes of a loop may be made first.
fill_outcomes-update_at :
    (i : ℕ) (f : BulkResult → BulkResult) (indexes : List ℕ) (outcomes : List EnqueueResult)
    (rs : List BulkResult)
    → All (λ j. i < j) indexes
    → update_at i f (fill_outcomes indexes outcomes rs)
      ≡ fill_outcomes indexes outcomes (update_at i f rs)
unfolding fill_outcomes
fill_outcomes-update_at i f [] outcomes rs h = refl
fill_outcomes-update_at i f (j ∷ js) [] rs h = refl
fill_outcomes-update_at i f (j ∷ js) (br ∷ brs) rs (p, h) =
    fill_outcomes-update_at i f js brs (update_at j (with_outcome br) rs) h
    ∙ ap (fill_outcomes js brs) (update_at_comm i j f (with_outcome br) rs p)

All-weaken : (i : ℕ) (js : List ℕ) → All (λ j. suc i ≤ j) js → All (λ j. i ≤ j) js
All-weaken i [] h = tt
All-weaken i (j ∷ js) (p, h) = (omega arith, All-weaken i js h)

Division-bounds :
    {i : ℕ} {slots : List Slot} {immediate future : Indexed}
    → Division i slots immediate future
    → All (λ j. i ≤ j) (indexes_of immediate) × All (λ j. i ≤ j) (indexes_of future)
Division-bounds done = (tt, tt)
Division-bounds {i} (skipped e d) =
    let (a, b) = Division-bounds d in (All-weaken i _ a, All-weaken i _ b)
Division-bounds {i} (to_backend e d) =
    let (a, b) = Division-bounds d in ((omega arith, All-weaken i _ a), All-weaken i _ b)
Division-bounds {i} (to_scheduler e d) =
    let (a, b) = Division-bounds d in (All-weaken i _ a, (omega arith, All-weaken i _ b))

-- The two loops, over the results `front` of the earlier slots and `rest` of the slots divided here.
abbrev fill_both :
    Indexed → Indexed → List EnqueueResult → List EnqueueResult → List BulkResult → List BulkResult
fill_both immediate future irs frs rs =
    fill_outcomes (indexes_of future) frs (fill_outcomes (indexes_of immediate) irs rs)

snoc_length :
    (front : List BulkResult) (r : BulkResult) (i : ℕ)
    → length front ≡ i
    → length (front ++ r ∷ []) ≡ suc i
snoc_length front r i e = omega (arith, length-append front (r ∷ []))

write_front :
    (front : List BulkResult) (i : ℕ) (f : BulkResult → BulkResult) (r : BulkResult)
    (rest : List BulkResult)
    → length front ≡ i
    → update_at i f (front ++ r ∷ rest) ≡ (front ++ f r ∷ []) ++ rest
write_front front i f r rest e = rw (← e) (update_at-append front f r rest)

module _ (P : Job → EnqueueResult → Type 0) where
  abbrev Fills :
      List Slot
      → Indexed
      → Indexed
      → List EnqueueResult
      → List EnqueueResult
      → List BulkResult
      → List BulkResult
      → Type 0
  Fills slots immediate future irs frs front rest =
      (after : List BulkResult) × Filled P slots rest after
      × (fill_both immediate future irs frs (front ++ rest) ≡ front ++ after)

  -- The results answer the jobs, and `P` holds of each job and its result.
  pub record Answered (jobs : List Job) (results : List EnqueueResult) : Type 0 where
    pub answers : Answers jobs results
    pub each : (job : Job) (br : EnqueueResult) → Paired jobs results job br → P job br

  Answered-tail :
      {job : Job} {jobs : List Job} {br : EnqueueResult} {results : List EnqueueResult}
      → Answered (job ∷ jobs) (br ∷ results)
      → Answered jobs results
  Answered-tail a = record { answers = a.answers.1; each = λ j r p. a.each j r (there p) }

  Answered-IsOutcome :
      {job : Job} {jobs : List Job} {br : EnqueueResult} {results : List EnqueueResult}
      → Answered (job ∷ jobs) (br ∷ results)
      → IsOutcome P job br
  Answered-IsOutcome a = record { own = a.answers.0; from = a.each _ _ here }

  pub fills :
      {i : ℕ} {slots : List Slot} {immediate future : Indexed}
      → Division i slots immediate future
      → (front rest : List BulkResult) (irs frs : List EnqueueResult) → length front ≡ i
      → length rest ≡ length slots
      → Answered (jobs_of immediate) irs
      → Answered (jobs_of future) frs
      → Fills slots immediate future irs frs front rest
  unfolding fill_outcomes
  fills done front [] irs frs n m a b = ([], none_left, refl)
  fills done front (r ∷ rest) irs frs n m a b = absurd (omega arith)
  fills (skipped e d) front [] irs frs n m a b = absurd (omega arith)
  fills {i} (skipped {immediate = im} {future = fu} e d) front (r ∷ rest) irs frs n m a b =
      let (after, filled, same) =
        fills d (front ++ r ∷ []) rest irs frs (snoc_length front r i n) (omega arith) a b in
      (
        r ∷ after,
        kept e filled,
        ap (fill_both im fu irs frs) (sym (append_assoc front (r ∷ []) rest))
            ∙ same
            ∙ append_assoc front (r ∷ []) after,
      )
  fills (to_backend e d) front rest [] frs n m a b = absurd a.answers
  fills (to_backend e d) front [] (br ∷ irs) frs n m a b = absurd (omega arith)
  fills {i} (to_backend {immediate = im} {future = fu} e d) front (r ∷ rest) (br ∷ irs) frs n m a
        b =
      let x = with_outcome br r in
      let (after, filled, same) =
        fills d (front ++ x ∷ []) rest irs frs (snoc_length front x i n) (omega arith)
          (Answered-tail a) b in
      (
        x ∷ after,
        taken e (Answered-IsOutcome a) filled,
        ap (fill_both im fu irs frs) (write_front front i (with_outcome br) r rest n)
            ∙ same
            ∙ append_assoc front (x ∷ []) after,
      )
  fills (to_scheduler e d) front rest irs [] n m a b = absurd b.answers
  fills (to_scheduler e d) front [] irs (br ∷ frs) n m a b = absurd (omega arith)
  fills {i} (to_scheduler {immediate = im} {future = fu} e d) front (r ∷ rest) irs (br ∷ frs) n m a
        b =
      let x = with_outcome br r in
      let (after, filled, same) =
        fills d (front ++ x ∷ []) rest irs frs (snoc_length front x i n) (omega arith) a
          (Answered-tail b) in
      (
        x ∷ after,
        taken e (Answered-IsOutcome b) filled,
        ap (fill_outcomes (indexes_of fu) frs) (
              fill_outcomes-update_at i (with_outcome br) (indexes_of im) irs (front ++ r ∷ rest)
                (Division-bounds d).0)
            ∙ ap (fill_both im fu irs frs) (write_front front i (with_outcome br) r rest n)
            ∙ same
            ∙ append_assoc front (x ∷ []) after,
      )
