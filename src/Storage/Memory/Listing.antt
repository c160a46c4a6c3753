-- ===== src/Storage/Memory/Listing.antt =====
-- The two list operations of internal/storage/memory.go against the lookups.
use mathlib.Core.HLevel.{×_prop}
use mathlib.Core.Logic.Or
use mathlib.Core.List.Perm
use mathlib.Core.List.{Mem, Mem-prop, not-mem-nil, mem-cons, mem-cons_of_mem}
use jack_service.Common.{
  String, ◌≡◌, refl, sym, ap, ◌∙◌, ◌↔◌, List, [], ◌∷◌, Option, some, ok, inl, inr, Bool-cases,
  Option-cases, ok-injective,
}
use jack_service.Common.Map.{lookup}
use jack_service.Common.Map.Keys.{mem-values_of_lookup, lookup_of_mem-values}
use jack_service.Common.Text.{◌==◌, eq_iff, String-set}
use jack_service.Proto.{Producer, JobType}
use jack_service.World.{World, Env}
use jack_service.Storage.{Services, job_type_key, of_producer}
use jack_service.Storage.Laws.{IsRegistry, VisitsAll}
use jack_service.Storage.Memory.{get_producer, list_producers, get_job_type, list_job_types}

Option_Producer-set : IsSet (Option Producer)
Option_Producer-set = hlevel (String-set)

Option_JobType-set : IsSet (Option JobType)
Option_JobType-set = hlevel (String-set)

-- The loop of ListJobTypes keeps the job types of the producer.
mem-of_producer :
    (producer_id : String) (jts : List JobType) (jt : JobType)
    → Mem jt (of_producer producer_id jts) ↔ (Mem jt jts × (jt.producer_id ≡ producer_id))
unfolding of_producer
mem-of_producer producer_id [] jt = (λ h. absurd (not-mem-nil h), λ h. absurd (not-mem-nil h.0))
mem-of_producer producer_id (x ∷ jts) jt =
    let ih = mem-of_producer producer_id jts jt in
    elim (Bool-cases (x.producer_id == producer_id)) [
      | inl same ↦
          rw (same, of_producer)
            (
              λ h.
                  Or.elim (×_prop Mem-prop (String-set _ _)) (mem-cons.0 h)
                    (λ e.
                      (mem-cons.1 (∣ inl e ∣₁), ap (λ t. t.producer_id) e ∙ (eq_iff _ _).0 same))
                    (λ later. (mem-cons_of_mem x (ih.0 later).0, (ih.0 later).1)),
              λ (h, mine).
                  Or.elim Mem-prop (mem-cons.0 h) (λ e. mem-cons.1 (∣ inl e ∣₁))
                    (λ later. mem-cons_of_mem x (ih.1 (later, mine))),
            )
      | inr other ↦
          rw (other, of_producer)
            (
              λ h. (mem-cons_of_mem x (ih.0 h).0, (ih.0 h).1),
              λ (h, mine).
                  Or.elim Mem-prop (mem-cons.0 h)
                    (λ e.
                      absurd (cc (other, (eq_iff _ _).1 (sym (ap (λ t. t.producer_id) e) ∙ mine))))
                    (λ later. ih.1 (later, mine)),
            )
    ]

module _ (env : Env) (services : Services) where
  pub get_producer-lookup :
      (id : String) (p : Producer) (w : World)
      → ((get_producer env services id w).0 ≡ ok p) ↔ (lookup id w.producers ≡ some p)
  unfolding get_producer
  get_producer-lookup id p w = elim (Option-cases (lookup id w.producers)) [
    | inl missing ↦ rw (missing, get_producer) (λ h. cc, λ h. cc)
    | inr (q, there) ↦ rw (there, get_producer) (λ h. ap some (ok-injective h), λ h. cc)
  ]

  pub get_job_type-lookup :
      (id name : String) (jt : JobType) (w : World)
      → ((get_job_type env services id name w).0 ≡ ok jt)
        ↔ (lookup (job_type_key id name) w.job_types ≡ some jt)
  unfolding get_job_type
  get_job_type-lookup id name jt w =
      elim (Option-cases (lookup (job_type_key id name) w.job_types)) [
        | inl missing ↦ rw (missing, get_job_type) (λ h. cc, λ h. cc)
        | inr (old, there) ↦ rw (there, get_job_type) (λ h. ap some (ok-injective h), λ h. cc)
      ]

  module _ (visits : VisitsAll services) where
    -- Where the maps are well formed, ListProducers returns just the producers that GetProducer returns for their
    -- IDs.
    pub list_producers-get_producer :
        (w : World)
        → IsRegistry w
        → (ps : List Producer) × ((list_producers env services w).0 ≡ ok ps)
          × ((p : Producer) → Mem p ps ↔ ((get_producer env services p.producer_id w).0 ≡ ok p))
    unfolding list_producers
    list_producers-get_producer w r = (
      services.range_producers w.producers,
      refl,
      λ p.
          let found = get_producer-lookup p.producer_id p w in
          let visited = Perm.mem_iff (visits.producers_visited w.producers) in
          (
            λ h. found.1 (
                lookup_of_mem-values (λ q. q.producer_id) Option_Producer-set p w.producers
                  r.producers_once r.producer_keyed (visited.0 h)),
            λ h. visited.1 (
                mem-values_of_lookup (λ q. q.producer_id) Option_Producer-set p.producer_id p
                  w.producers (found.0 h)),
          ),
    )

    -- Where the maps are well formed, ListJobTypes returns just the job types of the producer that GetJobType returns for
    -- their names.
    pub list_job_types-get_job_type :
        (producer_id : String) (w : World)
        → IsRegistry w
        → (jts : List JobType) × ((list_job_types env services producer_id w).0 ≡ ok jts)
          × ((jt : JobType)
              → Mem jt jts ↔ (
                  (jt.producer_id ≡ producer_id)
                  × ((get_job_type env services jt.producer_id jt.name w).0 ≡ ok jt)))
    unfolding list_job_types
    list_job_types-get_job_type producer_id w r = (
      of_producer producer_id (services.range_job_types w.job_types),
      refl,
      λ jt.
          let found = get_job_type-lookup jt.producer_id jt.name jt w in
          let visited = Perm.mem_iff (visits.job_types_visited w.job_types) in
          let kept = mem-of_producer producer_id (services.range_job_types w.job_types) jt in
          (
            λ h. (
              (kept.0 h).1,
              found.1 (
                  lookup_of_mem-values (λ j. job_type_key j.producer_id j.name) Option_JobType-set
                    jt w.job_types r.job_types_once r.job_type_keyed (visited.0 (kept.0 h).0)),
            ),
            λ (mine, h). kept.1 (
              visited.1 (
                  mem-values_of_lookup (λ j. job_type_key j.producer_id j.name) Option_JobType-set
                    (job_type_key jt.producer_id jt.name) jt w.job_types (found.0 h)),
              mine,
            ),
          ),
    )
