-- ===== src/Jack/Runs/Grown.antt =====
-- What the maps of a process (cmd/jack/main.go) hold after a run, against before it.
use jack_service.Common.{
  ◌≡◌, ap, ◌∙◌, String, none, some, ok, if◌then◌else◌, Bool-cases, Option-cases, inl, inr, Option,
}
use jack_service.Common.Map.{Map, lookup, insert, lookup-insert}
use jack_service.Common.Text.{◌==◌, eq_iff}
use jack_service.Proto.{Producer, JobType, CreateProducerRequest, CreateJobTypeRequest}
use jack_service.World.{World, Env}
use jack_service.Storage.{Store, Services, job_type_key}
use jack_service.Storage.Contract.{IsStore, Creates-keeps}
use jack_service.Storage.Memory
use jack_service.Storage.Memory.{put_producer, put_job_type}
use jack_service.Api.Admin.{
  producer_of, job_type_of, generate_producer_id, create_producer, create_job_type,
}
use jack_service.Api.Server.{Libraries}
use jack_service.Config.{Config}
use jack_service.Jack.{Platform, Process, start}
use jack_service.Jack.Assembled.{start-IsStore}
use jack_service.Jack.Runs.{Reaches}
use jack_service.Jack.Runs.Apart.{run_keeps}

-- What stands under a key stands there still.
pub record Within {A : Type 0} (before after : Map A) : Type 0 where
  pub still : (k : String) (a : A) → lookup k before ≡ some a → lookup k after ≡ some a

Within-refl : {A : Type 0} (m : Map A) → Within m m
Within-refl m = record { still = λ k a h. h }

Within-trans : {A : Type 0} (a b c : Map A) → Within a b → Within b c → Within a c
Within-trans a b c f g = record { still = λ k x h. g.still k x (f.still k x h) }

-- A new key.
insert-Within :
    {A : Type 0} (k : String) (a : A) (m : Map A) → lookup k m ≡ none → Within m (insert k a m)
insert-Within k a m new = record {
  still = λ j b h. elim (Bool-cases (k == j)) [
    | inl same ↦ absurd (none-some (rw ((eq_iff k j).0 same) at new) h)
    | inr other ↦ lookup-insert k j a m ∙ ap (λ t. if t then some a else lookup j m) other ∙ h
  ];
}
  where
    none-some : {A : Type 0} {o : Option A} {x : A} → o ≡ none → o ≡ some x → ⊥
    none-some h e = cc

abbrev pub AreWithin : World → Map Producer → Map JobType → Type 0
AreWithin u producers job_types = Within u.producers producers × Within u.job_types job_types

module _ (env : Env) (services : Services) where
  memory_producer-Within :
      (p : Producer) (w : World)
      → (let v = (Memory.create_producer env services p w).1 in AreWithin w v.producers v.job_types)
  unfolding Memory.create_producer put_producer
  memory_producer-Within p w = elim (Option-cases (lookup p.producer_id w.producers)) [
    | inr (old, there) ↦
        rw (there, Memory.create_producer) (Within-refl w.producers, Within-refl w.job_types)
    | inl new ↦
        rw (new, Memory.create_producer)
          (insert-Within p.producer_id _ w.producers new, Within-refl w.job_types)
  ]

  memory_job_type-Within :
      (jt : JobType) (w : World)
      → (let v = (Memory.create_job_type env services jt w).1 in
          AreWithin w v.producers v.job_types)
  unfolding Memory.create_job_type put_job_type
  memory_job_type-Within jt w = elim (Option-cases (lookup jt.producer_id w.producers)) [
    | inl missing ↦
        rw (missing, Memory.create_job_type) (Within-refl w.producers, Within-refl w.job_types)
    | inr (p, there) ↦
        elim (Option-cases (lookup (job_type_key jt.producer_id jt.name) w.job_types)) [
          | inr (old, found) ↦
              rw (there, found, Memory.create_job_type)
                (Within-refl w.producers, Within-refl w.job_types)
          | inl new ↦
              rw (there, new, Memory.create_job_type)
                (
                  Within-refl w.producers,
                  insert-Within (job_type_key jt.producer_id jt.name) _ w.job_types new,
                )
        ]
  ]

  module _ (s : Store) (is : IsStore env services s) where
    create_producer-Within :
        (req : CreateProducerRequest) (w : World)
        → (let v = (create_producer env s req w).1 in AreWithin w v.producers v.job_types)
    unfolding create_producer generate_producer_id
    create_producer-Within req w = elim (Bool-cases (req.name == "")) [
      | inl unnamed ↦
          rw (unnamed, create_producer) (Within-refl w.producers, Within-refl w.job_types)
      | inr named ↦
          let (id, drawn) = generate_producer_id env w in
          rw (named, create_producer)
            (Creates-keeps (AreWithin w) drawn _ _ (is.creates_producer (producer_of req id) drawn)
              (memory_producer-Within (producer_of req id) drawn)
              (Within-refl w.producers, Within-refl w.job_types))
    ]

    create_job_type-Within :
        (req : CreateJobTypeRequest) (w : World)
        → (let v = (create_job_type env s req w).1 in AreWithin w v.producers v.job_types)
    unfolding create_job_type
    create_job_type-Within req w = elim (Bool-cases (req.producer_id == "")) [
      | inl missing ↦
          rw (missing, create_job_type) (Within-refl w.producers, Within-refl w.job_types)
      | inr given ↦ elim (Bool-cases (req.name == "")) [
        | inl missing ↦
            rw (given, missing, create_job_type) (Within-refl w.producers, Within-refl w.job_types)
        | inr named ↦
            rw (given, named, create_job_type)
              (Creates-keeps (AreWithin w) w _ _ (is.creates_job_type (job_type_of req) w)
                (memory_job_type-Within (job_type_of req) w)
                (Within-refl w.producers, Within-refl w.job_types))
      ]
    ]

-- However many calls a started process answers, no producer and no job type in its maps is lost or changed.
pub run-Within :
    (platform : Platform) (cfg : Config) (w : World) (p : Process)
    → (start platform cfg w).0 ≡ ok p
    → (lib : Libraries) (u v : World) → Reaches lib platform cfg p u v
    → AreWithin u v.producers v.job_types
run-Within platform cfg w p h lib u v run =
    let is = start-IsStore platform cfg w p h in
    run_keeps platform cfg w p h lib (AreWithin u)
      (λ req x (ps, jts).
        let (qs, kts) =
          create_producer-Within platform.env platform.services p.admin_store is req x in
        (Within-trans _ _ _ ps qs, Within-trans _ _ _ jts kts))
      (λ req x (ps, jts).
        let (qs, kts) =
          create_job_type-Within platform.env platform.services p.admin_store is req x in
        (Within-trans _ _ _ ps qs, Within-trans _ _ _ jts kts))
      u v run (Within-refl u.producers, Within-refl u.job_types)
