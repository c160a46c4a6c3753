-- ===== src/Examples/Stores.antt =====
-- The theorems on the stores at concrete inputs.
use jack_service.Common.{◌↔◌, List, ◌≡◌, refl, String, [], ◌∷◌, none, ok, arith}
use jack_service.Common.Map.{lookup, values}
use jack_service.Go.{text}
use jack_service.Storage.{job_type_key}
use jack_service.Storage.Keys.{NoColon, job_type_key-injective, job_type_key_collision}
use jack_service.Storage.Laws.{VisitsAll, IsRegistry}
use jack_service.Storage.Memory.{
  create_producer, get_producer, create_job_type, get_job_type, list_producers, list_job_types,
}
use jack_service.Storage.Memory.Listing.{list_producers-get_producer, list_job_types-get_job_type}
use jack_service.Storage.Contract.{IsStore}
use jack_service.Storage.Gcs.Kept.{gcs_store-IsStore}
use mathlib.Core.List.Perm
use mathlib.Core.List.{Mem}
use jack_service.Proto.{Producer, JobType}
use jack_service.World.{World}
use jack_service.Storage.Memory.Lookup.{get-create_producer}
use jack_service.Storage.Memory.Laws.{create_producer-IsRegistry, create_job_type-IsRegistry}
use jack_service.Storage.Gcs
use jack_service.Storage.Bucket.{Bucket, write_failed, written, fetched}
use jack_service.Examples.{env, services, crm, mails, nothing_yet}

nothing_yet-IsRegistry : IsRegistry nothing_yet
unfolding lookup
nothing_yet-IsRegistry = record {
  producers_once = tt;
  job_types_once = tt;
  producer_keyed = λ k p h. cc;
  job_type_keyed = λ k jt h. cc;
  job_type_owned = λ k jt h e. cc;
}

get-create_producer_example :
    ((create_producer env services crm nothing_yet).0.0 ≡ none)
    × ((get_producer env services "prod_1" (create_producer env services crm nothing_yet).1).0
        ≡ ok (create_producer env services crm nothing_yet).0.1)
unfolding create_producer lookup
get-create_producer_example = get-create_producer env services crm nothing_yet "prod_1"

prod_1-NoColon : NoColon "prod_1"
prod_1-NoColon =
    (omega arith, (omega arith, (omega arith, (omega arith, (omega arith, (omega arith, tt))))))

abbrev crm_id : String
crm_id = "prod_1"

abbrev mail_name : String
mail_name = "a:b"

job_type_key-injective_example : (crm_id ≡ crm_id) × (mail_name ≡ mail_name)
job_type_key-injective_example =
    job_type_key-injective crm_id crm_id mail_name mail_name prod_1-NoColon prod_1-NoColon refl

job_type_key_collision_example : job_type_key "a:b" "c" ≡ job_type_key "a" "b:c"
job_type_key_collision_example = job_type_key_collision "a" "b" "c"

-- A bucket that takes every write, and one that refuses each.
abbrev pub open_bucket : Bucket
open_bucket = record {
  write = λ history path bytes. written;
  read = λ history path. fetched [];
  close = λ history. none;
  marshal_producers = λ ps. ok (1 ∷ []);
  marshal_job_types = λ jts. ok (2 ∷ []);
  unmarshal_producers = λ bytes. ok [];
  unmarshal_job_types = λ bytes. ok [];
}

abbrev closed_bucket : Bucket
closed_bucket = record open_bucket {
  write = λ history path bytes. write_failed (text "no permission");
}

pub services-VisitsAll : VisitsAll services
services-VisitsAll = record {
  producers_visited = λ m. Perm.refl (values m);
  job_types_visited = λ m. Perm.refl (values m);
}

gcs_store-IsStore_example : IsStore env services (Gcs.gcs_store env services closed_bucket "jack")
gcs_store-IsStore_example = gcs_store-IsStore env services closed_bucket "jack"

with_both : World
with_both = (create_job_type env services mails (create_producer env services crm nothing_yet).1).1

with_both-IsRegistry : IsRegistry with_both
unfolding with_both
with_both-IsRegistry =
    create_job_type-IsRegistry env services mails (create_producer env services crm nothing_yet).1
      (create_producer-IsRegistry env services crm nothing_yet nothing_yet-IsRegistry)

list_producers-get_producer_example :
    (ps : List Producer) × ((list_producers env services with_both).0 ≡ ok ps)
    × ((p : Producer) → Mem p ps ↔ ((get_producer env services p.producer_id with_both).0 ≡ ok p))
list_producers-get_producer_example =
    list_producers-get_producer env services services-VisitsAll with_both with_both-IsRegistry

list_job_types-get_job_type_example :
    (jts : List JobType) × ((list_job_types env services "prod_1" with_both).0 ≡ ok jts)
    × ((jt : JobType)
        → Mem jt jts ↔ (
            (jt.producer_id ≡ "prod_1")
            × ((get_job_type env services jt.producer_id jt.name with_both).0 ≡ ok jt)))
list_job_types-get_job_type_example =
    list_job_types-get_job_type env services services-VisitsAll "prod_1" with_both
      with_both-IsRegistry
