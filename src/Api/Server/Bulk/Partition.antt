-- ===== src/Api/Server/Bulk/Partition.antt =====
-- How `EnqueueBulk` (internal/api/server.go) divides the valid jobs between the backend and the scheduler.
use mathlib.Core.List.{Perm}
use mathlib.Core.List.Perm
use jack_service.Common.{
  ℕ, suc, ◌≡◌, refl, List, [], ◌∷◌, Option, none, some, Option-cases, inl, inr,
}
use jack_service.World.{World}
use jack_service.Queue.{Job}
use jack_service.Api.Server.{Server, Libraries, scheduler_for}
use jack_service.Api.Server.Bulk.{Slot, Indexed, place, partition}

-- A division of the slots from the index `i` on: each job stands in one of the two lists, with its index
-- and in the order of the slots.
pub data Division : ℕ → List Slot → Indexed → Indexed → Type 0 where
  done : {i : ℕ} → Division i [] [] []
  skipped :
      {i : ℕ} {slot : Slot} {slots : List Slot} {immediate future : Indexed}
      → slot.job ≡ none
      → Division (suc i) slots immediate future
      → Division i (slot ∷ slots) immediate future
  to_backend :
      {i : ℕ} {slot : Slot} {slots : List Slot} {immediate future : Indexed} {job : Job}
      → slot.job ≡ some job
      → Division (suc i) slots immediate future
      → Division i (slot ∷ slots) ((i, job) ∷ immediate) future
  to_scheduler :
      {i : ℕ} {slot : Slot} {slots : List Slot} {immediate future : Indexed} {job : Job}
      → slot.job ≡ some job
      → Division (suc i) slots immediate future
      → Division i (slot ∷ slots) immediate ((i, job) ∷ future)

place-Division :
    {A : Type 0} (i : ℕ) (slot : Slot) (slots : List Slot) (job : Job) (delayed : Option A)
    (rest : Indexed × Indexed)
    → slot.job ≡ some job
    → Division (suc i) slots rest.0 rest.1
    → Division i (slot ∷ slots) (place i job delayed rest).0 (place i job delayed rest).1
place-Division i slot slots job none rest e d = to_backend e d
place-Division i slot slots job (some a) rest e d = to_scheduler e d

-- The jobs of the slots.
abbrev pub valid_jobs : List Slot → List Job
valid_jobs [] = []
valid_jobs (slot ∷ slots) = elim slot.job [
  | none ↦ valid_jobs slots
  | some job ↦ job ∷ valid_jobs slots
]

module _ (lib : Libraries) (s : Server) where
  partition-skipped :
      (i : ℕ) (slot : Slot) (slots : List Slot) (w : World)
      → slot.job ≡ none
      → partition lib s i (slot ∷ slots) w ≡ partition lib s (suc i) slots w
  unfolding partition
  partition-skipped i slot slots w e = rw (e, partition)

  partition-placed :
      (i : ℕ) (slot : Slot) (slots : List Slot) (w : World) (job : Job)
      → slot.job ≡ some job
      → (partition lib s i (slot ∷ slots) w).0
        ≡ place i job
            (scheduler_for lib s job w).0
            (partition lib s (suc i) slots (scheduler_for lib s job w).1).0
  unfolding partition
  partition-placed i slot slots w job e = rw (e, partition)

  pub partition-Division :
      (i : ℕ) (slots : List Slot) (w : World)
      → Division i slots (partition lib s i slots w).0.0 (partition lib s i slots w).0.1
  partition-Division i [] w = unfold partition in done
  partition-Division i (slot ∷ slots) w = elim (Option-cases slot.job) [
    | inl invalid ↦
        rw (partition-skipped i slot slots w invalid)
          (skipped invalid (partition-Division (suc i) slots w))
    | inr (job, valid) ↦
        let w' = (scheduler_for lib s job w).1 in
        rw (partition-placed i slot slots w job valid)
          (place-Division i slot slots job _ _ valid (partition-Division (suc i) slots w'))
  ]

  place-immediate :
      (job : Job) (w : World) (i : ℕ) (rest : Indexed × Indexed)
      → s.scheduler ≡ none
      → rest.1 ≡ []
      → (place i job (scheduler_for lib s job w).0 rest).1 ≡ []
  unfolding scheduler_for
  place-immediate job w i rest missing e = rw (missing, scheduler_for) e

  -- Without a scheduler every job goes to the backend.
  pub partition-immediate :
      (i : ℕ) (slots : List Slot) (w : World)
      → s.scheduler ≡ none
      → (partition lib s i slots w).0.1 ≡ []
  partition-immediate i [] w missing = unfold partition in refl
  partition-immediate i (slot ∷ slots) w missing = elim (Option-cases slot.job) [
    | inl invalid ↦
        rw (partition-skipped i slot slots w invalid) (partition-immediate (suc i) slots w missing)
    | inr (job, valid) ↦ rw (partition-placed i slot slots w job valid) (
        place-immediate job w i _ missing
          (partition-immediate (suc i) slots (scheduler_for lib s job w).1 missing))
  ]
