-- ===== src/Api/Server/Bulk/Accounted.antt =====
-- What has happened to the jobs of `EnqueueBulk` (internal/api/server.go) when it answers.
use mathlib.Core.Option.{some-injective}
use jack_service.Common.{
  ℕ, zero, suc, Bool, true, false, String, ◌≡◌, ◌≢◌, refl, sym, ap, ◌∙◌, inl, inr, List, [], ◌∷◌,
  none, some, Option-cases, get_elem?, ∷-injective, if◌then◌else◌,
}
use jack_service.Common.Text.{◌==◌}
use jack_service.Proto.{EnqueueRequest, BulkResult}
use jack_service.Queue.{Job, EnqueueResult}
use jack_service.Api.Server.{Server, Libraries}
use jack_service.Api.Server.Made.{IsJobOf}
use jack_service.Api.Server.Bulk.{
  Slot, with_validation, with_outcome, initial_results, fill_validation,
}
use jack_service.Api.Server.Bulk.Filling.{IsOutcome, Filled, none_left, kept, taken}
use jack_service.Api.Server.Bulk.Results.{SlotFor, refused, made, SlotsFor}

module _ (lib : Libraries) (shadow : Bool) (X : Job → Type 0) where
  -- A job that was made of the request has this ID, and what `X` says has happened to it.
  abbrev pub Accounted : EnqueueRequest → String → Type 0
  Accounted q id = (job : Job) × IsJobOf lib shadow q job × (id ≡ job.id) × X job

  -- What `X` says has happened to the job if the outcome names it.
  abbrev pub Named : Job → EnqueueResult → Type 0
  Named job br = br.error ≡ none → br.job_id ≢ "" → X job

  abbrev pub EachAccounted : List EnqueueRequest → List BulkResult → Type 0
  EachAccounted [] rs = Unit
  EachAccounted (q ∷ qs) [] = Unit
  EachAccounted (q ∷ qs) (r ∷ rs) = (r.job_id ≢ "" → Accounted q r.job_id) × EachAccounted qs rs

  pub EachAccounted-at :
      (qs : List EnqueueRequest) (rs : List BulkResult) (i : ℕ) (q : EnqueueRequest)
      (r : BulkResult)
      → EachAccounted qs rs
      → get_elem? qs i ≡ some q
      → get_elem? rs i ≡ some r
      → r.job_id ≢ ""
      → Accounted q r.job_id
  EachAccounted-at [] rs i q r a eq er named = absurd (cc)
  EachAccounted-at (p ∷ qs) [] i q r a eq er named = absurd (cc)
  EachAccounted-at (p ∷ qs) (t ∷ rs) zero q r (a, rest) eq er named =
      rw (← (some-injective _ _ eq), ← (some-injective _ _ er))
        (a (λ e. named (ap (λ x. x.job_id) (sym (some-injective _ _ er)) ∙ e)))
  EachAccounted-at (p ∷ qs) (t ∷ rs) (suc i) q r (a, rest) eq er named =
      EachAccounted-at qs rs i q r rest eq er named

  with_validation_unnamed :
      (slot : Slot) (r : BulkResult) → (with_validation slot r).job_id ≡ r.job_id
  with_validation_unnamed slot r = unnamed (slot.error == "")
    where
      unnamed :
          (b : Bool)
          → (if b then r else record r { error = slot.error; reason = slot.reason }).job_id
            ≡ r.job_id
      unnamed true = refl
      unnamed false = refl

  with_outcome-Accounted :
      (s : Server) (q : EnqueueRequest) (slot : Slot) (r : BulkResult) (job : Job)
      (br : EnqueueResult)
      → r.job_id ≡ ""
      → slot.job ≡ some job
      → IsOutcome Named job br
      → SlotFor lib shadow s q slot
      → (with_outcome br r).job_id ≢ ""
      → Accounted q (with_outcome br r).job_id
  with_outcome-Accounted s q slot r job br fresh has o (refused bad no_job w) named = absurd (cc)
  with_outcome-Accounted s q slot r job br fresh has o (made {job = j} valid e t is) named =
      elim (Option-cases br.error) [
        | inr (x, bad) ↦ absurd ((rw bad at named) fresh)
        | inl fine ↦
            let same : j ≡ job = some-injective _ _ (sym e ∙ has) in
            rw fine (job, rw (← same) is, o.own fine, o.from fine (rw fine at named))
      ]

  pub Filled-Accounted :
      (s : Server) (i : ℕ) (qs : List EnqueueRequest) {slots : List Slot}
      {before after : List BulkResult}
      → Filled Named slots before after
      → SlotsFor lib shadow s qs slots
      → before ≡ fill_validation slots (initial_results i qs slots)
      → EachAccounted qs after
  unfolding fill_validation initial_results
  Filled-Accounted s i [] f fs e = tt
  Filled-Accounted s i (q ∷ qs) none_left fs e = tt
  Filled-Accounted s i (q ∷ qs) (kept {slot = slot} h rest) (f, fs) e =
      let (a, b) = ∷-injective e in
      (
        λ named. absurd (named (ap (λ x. x.job_id) a ∙ with_validation_unnamed slot _)),
        Filled-Accounted s (suc i) qs rest fs b,
      )
  Filled-Accounted s i (q ∷ qs) (taken {slot = slot} {job = job} {br = br} h o rest) (f, fs) e =
      let (a, b) = ∷-injective e in
      (
        with_outcome-Accounted s q slot _ job br
            (ap (λ x. x.job_id) a ∙ with_validation_unnamed slot _) h o f,
        Filled-Accounted s (suc i) qs rest fs b,
      )
