-- ===== src/Api/Server/Bulk/Entries.antt =====
-- The entries of the results of `EnqueueBulk` (internal/api/server.go), from the slots and from what has been
-- written into them.
use jack_service.Common.{
  ℕ, suc, String, Bool, ◌≡◌, refl, sym, ap, ◌∙◌, true, false, List, [], ◌∷◌, Option, none, some,
  inl, inr, if◌then◌else◌, Option-cases, length, ∷-injective,
}
use mathlib.Core.Option.{some-injective}
use jack_service.Common.Int.{pos, ltb_ℤ}
use jack_service.Common.Text.{◌==◌}
use jack_service.Go.{to_int32, Error, error_text}
use jack_service.Proto.{EnqueueRequest, BulkResult}
use jack_service.World.{World}
use jack_service.Queue.{Job, EnqueueResult}
use jack_service.Api.Server.{Server, Libraries}
use jack_service.Api.Server.Made.{IsJobOf, prepare_job-IsJobOf}
use jack_service.Api.Server.Bulk.{
  Slot, rejection, with_validation, with_outcome, initial_results, fill_validation,
  reason_validation_error, reason_payload_too_large, reason_internal_error, prepare_slot,
  prepare_slots,
}
use jack_service.Api.Server.Bulk.Filling.{IsOutcome, Filled, none_left, kept, taken}
use jack_service.Api.Server.Bulk.Results.{
  Came, OutcomeFor, rejected, accepted, failed, Described, SlotFor, refused, made, SlotsFor,
}

-- The texts of the validation are not empty.
abbrev text_empty : Option (String × String) → Bool
text_empty none = false
text_empty (some (e, why)) = e == ""

choice_text :
    (a b c : Bool)
    → text_empty (
        if a
        then some ("producer_id is required", reason_validation_error)
        else if b
        then some ("job_type is required", reason_validation_error)
        else if c
        then some ("payload exceeds max size", reason_payload_too_large)
        else none)
      ≡ false
choice_text true b c = refl
choice_text false true c = refl
choice_text false false true = refl
choice_text false false false = refl

rejection_text :
    (s : Server) (q : EnqueueRequest) {e why : String}
    → rejection s q ≡ some (e, why)
    → (e == "") ≡ false
unfolding rejection
rejection_text s q h =
    ap text_empty (sym h)
    ∙ choice_text (q.producer_id == "") (q.job_type == "")
        (ltb_ℤ s.config.max_payload_size (pos (length q.payload)))

-- The entry before the validation error is written.
abbrev initial : ℕ → EnqueueRequest → Slot → BulkResult
initial i q slot = record {
  index = to_int32 i;
  job_id = "";
  error = "";
  error_messages = slot.warnings;
  correlation_id = q.correlation_id;
  reason = "";
}

with_validation-refused :
    (slot : Slot) (r : BulkResult)
    → (slot.error == "") ≡ false
    → with_validation slot r ≡ record r { error = slot.error; reason = slot.reason }
with_validation-refused slot r h = rw h refl

with_validation-made : (slot : Slot) (r : BulkResult) → slot.error ≡ "" → with_validation slot r ≡ r
with_validation-made slot r h =
    ap (λ b. if b then r else record r { error = slot.error; reason = slot.reason })
      (ap (λ e. e == "") h)

with_outcome-none :
    (br : EnqueueResult) (r : BulkResult)
    → br.error ≡ none
    → with_outcome br r ≡ record r { job_id = br.job_id }
with_outcome-none br r h = rw h refl

with_outcome-some :
    (br : EnqueueResult) (r : BulkResult) {e : Error}
    → br.error ≡ some e
    → with_outcome br r ≡ record r { error = error_text e; reason = reason_internal_error }
with_outcome-some br r h = rw h refl

module _ (lib : Libraries) (shadow : Bool) (s : Server) where
  abbrev EntryFor : ℕ → EnqueueRequest → BulkResult → Type 0
  EntryFor i q r =
      (r.index ≡ to_int32 i) × (r.correlation_id ≡ q.correlation_id) × OutcomeFor lib shadow s q r

  kept-EntryFor :
      (i : ℕ) (q : EnqueueRequest) (slot : Slot)
      → slot.job ≡ none
      → SlotFor lib shadow s q slot
      → EntryFor i q (with_validation slot (initial i q slot))
  kept-EntryFor i q slot none_made (refused bad e w) =
      rw (with_validation-refused slot (initial i q slot) (rejection_text s q bad))
        (refl, refl, rejected bad refl w)
  kept-EntryFor i q slot none_made (made valid e t is) = absurd (cc)

  taken-EntryFor :
      (i : ℕ) (q : EnqueueRequest) (slot : Slot) (job : Job) (br : EnqueueResult)
      → slot.job ≡ some job
      → IsOutcome (Came s) job br
      → SlotFor lib shadow s q slot
      → EntryFor i q (with_outcome br (with_validation slot (initial i q slot)))
  taken-EntryFor i q slot job br has o (refused bad e w) = absurd (cc)
  taken-EntryFor i q slot job br has o (made {job = j} valid e t is) =
      let same : j ≡ job = some-injective _ _ (sym e ∙ has) in
      let own : IsJobOf lib shadow q job = rw (← same) is in
      rw (with_validation-made slot (initial i q slot) t) (elim (Option-cases br.error) [
        | inl fine ↦
            rw (with_outcome-none br (initial i q slot) fine)
              (refl, refl, accepted valid own o.from fine refl refl (o.own fine))
        | inr (e, bad) ↦
            rw (with_outcome-some br (initial i q slot) bad)
              (refl, refl, failed valid own o.from bad refl refl refl)
      ])

  prepare_slot-SlotFor :
      (q : EnqueueRequest) (w : World) → SlotFor lib shadow s q (prepare_slot lib s shadow q w).0
  unfolding prepare_slot
  prepare_slot-SlotFor q w = elim (Option-cases (rejection s q)) [
    | inl valid ↦
        rw (valid, prepare_slot) (made valid refl refl (prepare_job-IsJobOf lib s shadow q w))
    | inr ((e, why), bad) ↦ rw (bad, prepare_slot) (refused bad refl refl)
  ]

  pub prepare_slots-SlotsFor :
      (qs : List EnqueueRequest) (w : World)
      → SlotsFor lib shadow s qs (prepare_slots lib s shadow qs w).0
  unfolding prepare_slots
  prepare_slots-SlotsFor [] w = tt
  prepare_slots-SlotsFor (q ∷ qs) w =
      (prepare_slot-SlotFor q w, prepare_slots-SlotsFor qs (prepare_slot lib s shadow q w).1)

  pub SlotsFor-Described :
      (i : ℕ) (qs : List EnqueueRequest) {slots : List Slot} {before after : List BulkResult}
      → Filled (Came s) slots before after
      → SlotsFor lib shadow s qs slots
      → before ≡ fill_validation slots (initial_results i qs slots)
      → Described lib shadow s i qs after
  unfolding fill_validation initial_results
  SlotsFor-Described i [] none_left f e = tt
  SlotsFor-Described i (q ∷ qs) none_left f e = absurd f
  SlotsFor-Described i [] (kept h rest) f e = absurd f
  SlotsFor-Described i [] (taken h own rest) f e = absurd f
  SlotsFor-Described i (q ∷ qs) (kept {slot = slot} h rest) (f, fs) e =
      let (a, b) = ∷-injective e in
      let (x, y, z) = kept-EntryFor i q slot h f in
      rw a (x, y, z, SlotsFor-Described (suc i) qs rest fs b)
  SlotsFor-Described i (q ∷ qs) (taken {slot = slot} {job = job} {br = br} h own rest) (f, fs) e =
      let (a, b) = ∷-injective e in
      let (x, y, z) = taken-EntryFor i q slot job br h own f in
      rw a (x, y, z, SlotsFor-Described (suc i) qs rest fs b)
