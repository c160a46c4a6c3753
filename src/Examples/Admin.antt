-- ===== src/Examples/Admin.antt =====
-- The theorems on the administration of producers and job types at concrete inputs.
use jack_service.Common.{◌≡◌, ◌≢◌, refl, String, Option, none, some, ok}
use jack_service.Common.Int.{pos}
use jack_service.Common.Map.{lookup, insert}
use jack_service.Proto.{Producer, JobType, CreateProducerRequest, CreateJobTypeRequest, queue_low}
use jack_service.World.{World}
use jack_service.Storage.Keys.{NoColon}
use jack_service.Storage.Memory
use jack_service.Storage.Memory.Kept.{memory_store-IsStore}
use jack_service.Storage.Memory.{memory_store}
use jack_service.Api.Admin.{create_producer, get_producer, create_job_type}
use jack_service.Api.Admin.Producers.{get_producer-create_producer}
use jack_service.Api.Admin.Invariant.{
  IsAdministered, create_producer-IsAdministered, create_job_type-IsAdministered, get_job_type-own,
}
use jack_service.Examples.{env, services, nothing_yet}

abbrev pub shop : CreateProducerRequest
shop = record { name = "shop"; description = "" }

-- The ID of four bytes that are all 7.
abbrev shop_id : String
shop_id = "prod_07070707"

abbrev receipts : CreateJobTypeRequest
receipts = record {
  producer_id = shop_id;
  name = "receipt";
  queue = queue_low;
  max_retries = pos 0;
  description = "";
}

abbrev with_shop : World
with_shop = (create_producer env (memory_store env services) shop nothing_yet).1

abbrev with_receipts : World
with_receipts = (create_job_type env (memory_store env services) receipts with_shop).1

abbrev stored_shop : Producer
stored_shop = record {
  producer_id = shop_id;
  name = "shop";
  description = "";
  rate_limit_rps = pos 1000;
  created_at = some (record { seconds = pos 0; nanos = pos 0 });
  updated_at = some (record { seconds = pos 0; nanos = pos 0 });
}

abbrev stored_receipts : JobType
stored_receipts = record {
  producer_id = shop_id;
  name = "receipt";
  queue = queue_low;
  max_retries = pos 3;
  description = "";
  created_at = some (record { seconds = pos 0; nanos = pos 0 });
  updated_at = some (record { seconds = pos 0; nanos = pos 0 });
}

get_producer-create_producer_example :
    (stored_shop.name ≡ shop.name)
    × (stored_shop.description ≡ shop.description)
    × NoColon shop_id
    × (lookup shop_id nothing_yet.producers ≡ none)
    × ((get_producer env (memory_store env services) shop_id with_shop).0 ≡ ok stored_shop)
unfolding create_producer lookup Memory.create_producer
get_producer-create_producer_example =
    get_producer-create_producer env services (memory_store env services)
      (memory_store-IsStore env services) shop nothing_yet stored_shop refl

pub nothing_yet-IsAdministered : IsAdministered nothing_yet
unfolding lookup
nothing_yet-IsAdministered = record {
  registry = record {
    producers_once = tt;
    job_types_once = tt;
    producer_keyed = λ k p h. cc;
    job_type_keyed = λ k jt h. cc;
    job_type_owned = λ k jt h e. cc;
  };
  ids = record { plain = λ k h. absurd (h refl) };
}

with_shop-IsAdministered : IsAdministered with_shop
with_shop-IsAdministered =
    create_producer-IsAdministered env services (memory_store env services)
      (memory_store-IsStore env services) shop nothing_yet nothing_yet-IsAdministered

is_there : (o : Option Producer) (p : Producer) → o ≡ some p → o ≢ none
is_there o p e h = cc

get_job_type-own_example :
    (stored_receipts.producer_id ≡ shop_id) × (stored_receipts.name ≡ receipts.name)
unfolding create_producer create_job_type lookup insert Memory.create_producer
    Memory.create_job_type Memory.get_job_type
get_job_type-own_example =
    get_job_type-own env services (memory_store env services) (memory_store-IsStore env services)
      shop_id "receipt" with_receipts stored_receipts
      (create_job_type-IsAdministered env services (memory_store env services)
        (memory_store-IsStore env services) receipts with_shop with_shop-IsAdministered)
      (is_there _ stored_shop refl) refl
