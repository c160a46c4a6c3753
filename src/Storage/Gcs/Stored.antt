-- ===== src/Storage/Gcs/Stored.antt =====
-- What the bucket of internal/storage/gcs.go holds of the two maps: what a load would make of its objects.
use text.Mathlib.TextLemmas.{append_cancel_left}
use jack_service.Common.{
  ℕ, String, Bool, false, ◌≡◌, refl, ap, List, [], ◌∷◌, Option, none, some, ok, inl, inr,
  Bool-cases, arith,
}
use jack_service.Common.Map.{Map, lookup}
use jack_service.Common.Map.Keys.{NodupKeys, Keyed, lookup-index_by}
use jack_service.Common.Text.{◌==◌, ◌+++◌, eq_iff, String-set}
use jack_service.Go.{Error}
use jack_service.Proto.{Producer, JobType}
use jack_service.World.{Event, object_written}
use jack_service.Storage.{job_type_key, Services}
use jack_service.Storage.Laws.{VisitsAll}
use jack_service.Storage.Bucket.{
  Bucket, fetched, object_path, producers_file, job_types_file, load_producers, load_job_types,
}
use jack_service.Storage.Gcs.{index_producers, index_job_types}

-- The event is a write to the object that has succeeded.
abbrev pub overwrites : String → Event → Bool
overwrites path (object_written p bytes none) = p == path
overwrites path (object_written p bytes (some e)) = false
overwrites path other = false

-- Cloud Storage: an object holds what was last written to it without an error, and nothing else writes to the
-- bucket. protojson: what was written is read back.
pub record IsBucket (bucket : Bucket) : Type 0 where
  pub read_written :
      (history : List Event) (path : String) (bytes : List ℕ)
      → bucket.read (object_written path bytes none ∷ history) path ≡ fetched bytes
  pub read_later :
      (history : List Event) (path : String) (e : Event)
      → overwrites path e ≡ false
      → bucket.read (e ∷ history) path ≡ bucket.read history path
  pub unmarshal-marshal_producers :
      (ps : List Producer) (bytes : List ℕ)
      → bucket.marshal_producers ps ≡ ok bytes
      → bucket.unmarshal_producers bytes ≡ ok ps
  pub unmarshal-marshal_job_types :
      (jts : List JobType) (bytes : List ℕ)
      → bucket.marshal_job_types jts ≡ ok bytes
      → bucket.unmarshal_job_types bytes ≡ ok jts

Option_Producer-set : IsSet (Option Producer)
Option_Producer-set = hlevel (String-set)

Option_JobType-set : IsSet (Option JobType)
Option_JobType-set = hlevel (String-set)

abbrev pub id_of : Producer → String
id_of p = p.producer_id

abbrev pub key_of : JobType → String
unfolding job_type_key
key_of jt = job_type_key jt.producer_id jt.name

-- The two objects have different paths.
paths_differ :
    (store_prefix : String)
    → (object_path store_prefix producers_file == object_path store_prefix job_types_file) ≡ false
unfolding object_path
paths_differ store_prefix = elim (Bool-cases (store_prefix == "")) [
  | inl empty ↦ rw empty refl
  | inr given ↦
      rw given
        (elim (Bool-cases
          (store_prefix +++ "/producers.json" == store_prefix +++ "/job_types.json")) [
            | inr differ ↦ differ
            | inl same ↦ absurd (
                cc (
                  ap (λ s. s == "/producers.json")
                    (append_cancel_left store_prefix "/producers.json" "/job_types.json"
                      ((eq_iff _ _).0 same))))
          ])
]

differ_sym : (a b : String) → (a == b) ≡ false → (b == a) ≡ false
differ_sym a b h = ground (arith, eq_iff a b, eq_iff b a)

-- A write to one object is not one to the other.
pub job_types_write_quiet :
    (store_prefix : String) (bytes : List ℕ) (outcome : Option Error)
    → overwrites
        (object_path store_prefix producers_file)
        (object_written (object_path store_prefix job_types_file) bytes outcome)
      ≡ false
job_types_write_quiet store_prefix bytes none = differ_sym _ _ (paths_differ store_prefix)
job_types_write_quiet store_prefix bytes (some e) = refl

pub producers_write_quiet :
    (store_prefix : String) (bytes : List ℕ) (outcome : Option Error)
    → overwrites
        (object_path store_prefix job_types_file)
        (object_written (object_path store_prefix producers_file) bytes outcome)
      ≡ false
producers_write_quiet store_prefix bytes none = paths_differ store_prefix
producers_write_quiet store_prefix bytes (some e) = refl

module _ (bucket : Bucket) (store_prefix : String) where
  -- A load finds a list from which it makes a map that answers as `m`.
  abbrev pub ProducersStored : List Event → Map Producer → Type 0
  ProducersStored history m =
      (ps : List Producer) × (load_producers bucket store_prefix history ≡ ok ps)
      × ((k : String) → lookup k (index_producers ps []) ≡ lookup k m)

  abbrev pub JobTypesStored : List Event → Map JobType → Type 0
  JobTypesStored history m =
      (jts : List JobType) × (load_job_types bucket store_prefix history ≡ ok jts)
      × ((k : String) → lookup k (index_job_types jts []) ≡ lookup k m)

  module _ (is : IsBucket bucket) where
    pub later-ProducersStored :
        (history : List Event) (m : Map Producer) (e : Event)
        → overwrites (object_path store_prefix producers_file) e ≡ false
        → ProducersStored history m
        → ProducersStored (e ∷ history) m
    unfolding load_producers
    later-ProducersStored history m e quiet (ps, found, same) =
        (ps, rw (is.read_later history _ e quiet, load_producers) found, same)

    pub later-JobTypesStored :
        (history : List Event) (m : Map JobType) (e : Event)
        → overwrites (object_path store_prefix job_types_file) e ≡ false
        → JobTypesStored history m
        → JobTypesStored (e ∷ history) m
    unfolding load_job_types
    later-JobTypesStored history m e quiet (jts, found, same) =
        (jts, rw (is.read_later history _ e quiet, load_job_types) found, same)

    module _ (services : Services) (visits : VisitsAll services) where
      pub written-ProducersStored :
          (history : List Event) (m : Map Producer) (bytes : List ℕ)
          → NodupKeys m
          → Keyed id_of m
          → bucket.marshal_producers (services.range_producers m) ≡ ok bytes
          → ProducersStored
              (object_written (object_path store_prefix producers_file) bytes none ∷ history)
              m
      unfolding load_producers index_producers
      written-ProducersStored history m bytes u keyed made = (
        services.range_producers m,
        rw
            (
              is.read_written history (object_path store_prefix producers_file) bytes,
              is.unmarshal-marshal_producers _ bytes made,
              load_producers,
            )
            refl,
        λ k. lookup-index_by id_of Option_Producer-set k _ m (visits.producers_visited m) u keyed,
      )

      pub written-JobTypesStored :
          (history : List Event) (m : Map JobType) (bytes : List ℕ)
          → NodupKeys m
          → Keyed key_of m
          → bucket.marshal_job_types (services.range_job_types m) ≡ ok bytes
          → JobTypesStored
              (object_written (object_path store_prefix job_types_file) bytes none ∷ history)
              m
      unfolding load_job_types index_job_types
      written-JobTypesStored history m bytes u keyed made = (
        services.range_job_types m,
        rw
            (
              is.read_written history (object_path store_prefix job_types_file) bytes,
              is.unmarshal-marshal_job_types _ bytes made,
              load_job_types,
            )
            refl,
        λ k. lookup-index_by key_of Option_JobType-set k _ m (visits.job_types_visited m) u keyed,
      )
