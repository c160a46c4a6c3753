-- ===== src/Api/Admin/Producers.antt =====
-- CreateProducer of internal/api/admin_server.go over a store with its contract.
use jack_service.Common.{
  String, true, false, ◌≡◌, ◌≢◌, refl, sym, ap, ◌∙◌, Option, none, some, ok, if◌then◌else◌,
  Bool-cases, Option-cases, inl, inr,
}
use jack_service.Common.Map.{lookup, insert, lookup-insert}
use text.Mathlib.TextLemmas.{cons-append}
use jack_service.Common.Text.{◌==◌, eq_iff, eq_refl, of_chars}
use jack_service.Go.{Error, Sentinel, error_is}
use jack_service.Proto.{Producer, CreateProducerRequest}
use jack_service.World.{World, Env, now, draw}
use jack_service.Storage.Contract.{IsStore}
use jack_service.Storage.{Store, Services, stamp_producer}
use jack_service.Storage.Keys.{NoColon}
use jack_service.Storage.Memory
use jack_service.Storage.Memory.{memory_store, put_producer, put_job_type}
use jack_service.Api.Admin.{
  hex_encode, producer_of, generate_producer_id, created_producer_reply, create_producer,
  get_producer, found_producer_reply,
}
use jack_service.Api.Admin.Ids.{generate_producer_id-NoColon}

created_producer_reply-ok :
    (outcome : Option Error × Producer) (p : Producer)
    → created_producer_reply outcome ≡ ok p
    → outcome ≡ (none, p)
unfolding created_producer_reply
created_producer_reply-ok (none, q) p h = cc
created_producer_reply-ok (some e, q) p h = elim (Bool-cases (error_is e Sentinel.already_exists)) [
  | inl taken ↦ absurd (cc (rw taken at h))
  | inr other ↦ absurd (cc (rw other at h))
]

module _ (env : Env) (services : Services) where
  -- A creation in the memory store that succeeds, and one in any store.
  stored_in_memory :
      (p stored : Producer) (w : World)
      → (Memory.create_producer env services p w).0 ≡ (none, stored)
      → (stored ≡ stamp_producer (services.timestamp_of (now env w).0) p)
        × (lookup p.producer_id w.producers ≡ none)
        × ((Memory.create_producer env services p w).1.producers
            ≡ insert p.producer_id stored w.producers)
  unfolding Memory.create_producer put_producer
  stored_in_memory p stored w h = elim (Option-cases (lookup p.producer_id w.producers)) [
    | inr (old, there) ↦ absurd (cc (rw (there, Memory.create_producer) at h))
    | inl new ↦
        let same = ap (λ x. x.1) (rw (new, Memory.create_producer) at h) in
        (
          sym same,
          new,
          rw (new, Memory.create_producer) (ap (λ q. insert p.producer_id q w.producers) same),
        )
  ]

  module _ (s : Store) (is : IsStore env services s) where
    stored_producer :
        (p stored : Producer) (w : World)
        → (s.create_producer p w).0 ≡ (none, stored)
        → (stored ≡ stamp_producer (services.timestamp_of (now env w).0) p)
          × (lookup p.producer_id w.producers ≡ none)
          × ((s.create_producer p w).1.producers ≡ insert p.producer_id stored w.producers)
    stored_producer p stored w h =
        let (same, maps) = (is.creates_producer p w).made (ap (λ x. x.0) h) in
        let (stamped, free, kept) = stored_in_memory p stored w (sym same ∙ h) in
        (stamped, free, maps.same_producers ∙ kept)

    create_producer-named :
        (req : CreateProducerRequest) (w : World)
        → (req.name == "") ≡ false
        → create_producer env s req w ≡ (
            let (id, drawn) = generate_producer_id env w in
            let outcome = s.create_producer (producer_of req id) drawn in
            (created_producer_reply outcome.0, outcome.1))
    unfolding create_producer
    create_producer-named req w h = rw (h, create_producer) refl

    found_after :
        (id : String) (w : World) {p : Producer}
        → (id == "") ≡ false
        → lookup id w.producers ≡ some p
        → (get_producer env s id w).0 ≡ ok p
    unfolding get_producer Memory.get_producer found_producer_reply
    found_after id w named found =
        rw (named, is.gets_producer id w, found, get_producer, Memory.get_producer) refl

    generated_id_named : (w : World) → ((generate_producer_id env w).0 == "") ≡ false
    unfolding generate_producer_id
    generated_id_named w = elim (Bool-cases ((generate_producer_id env w).0 == "")) [
      | inr named ↦ named
      | inl empty ↦ absurd (
          cc (
            sym (cons-append "p" "rod_" (of_chars (hex_encode (draw env 4 w).0)))
            ∙ (eq_iff (generate_producer_id env w).0 "").0 empty))
    ]

    create_producer-refused :
        (req : CreateProducerRequest) (w : World) {p : Producer}
        → (req.name == "") ≡ true
        → (create_producer env s req w).0 ≢ ok p
    unfolding create_producer
    create_producer-refused req w h e = cc (rw (h, create_producer) at e)

    -- A producer that CreateProducer returns has the name and the description of the request, and an ID that
    -- was free and holds no colon; and GetProducer then returns it for this ID.
    pub get_producer-create_producer :
        (req : CreateProducerRequest) (w : World) (p : Producer)
        → (create_producer env s req w).0 ≡ ok p
        → (p.name ≡ req.name)
          × (p.description ≡ req.description)
          × NoColon p.producer_id
          × (lookup p.producer_id w.producers ≡ none)
          × ((get_producer env s p.producer_id (create_producer env s req w).1).0 ≡ ok p)
    unfolding generate_producer_id
    get_producer-create_producer req w p h = elim (Bool-cases (req.name == "")) [
      | inl unnamed ↦ absurd (create_producer-refused req w unnamed h)
      | inr named ↦
          let (id, drawn) = generate_producer_id env w in
          let outcome = s.create_producer (producer_of req id) drawn in
          let run = create_producer-named req w named in
          let made = created_producer_reply-ok outcome.0 p (ap (λ x. x.0) (sym run) ∙ h) in
          let (stamped, free, kept) = stored_producer (producer_of req id) p drawn made in
          let same : p.producer_id ≡ id = ap (λ q. q.producer_id) stamped in
          let there : lookup id outcome.1.producers ≡ some p =
            ap (lookup id) kept
            ∙ lookup-insert id id p drawn.producers
            ∙ ap (λ b. if b then some p else lookup id drawn.producers) (eq_refl id) in
          (
            ap (λ q. q.name) stamped,
            ap (λ q. q.description) stamped,
            rw same (generate_producer_id-NoColon env w),
            rw same free,
            ap (λ x. (get_producer env s x (create_producer env s req w).1).0) same
                ∙ ap (λ x. (get_producer env s id x.1).0) run
                ∙ found_after id outcome.1 (generated_id_named w) there,
          )
    ]
