-- ===== src/EntryBuffer.antt =====
-- crates/consensus/src/entry_buffer.rs: entries of the session log that arrive out of order, and
-- the submission whose entries are awaited. `from_value` and `to_value` stand for the conversions
-- that `serde` derives. `apply_payload` builds no error, so the operators `?` on its result are
-- left out, and `apply_or_buffer_entry` returns a list.
pub mod Delivery
pub mod Complete
pub mod Submission
use prosthetic_conscience.Prelude.{
  ℕ, zero, suc, Bool, true, false, String, List, [], ◌∷◌, Option, none, some, Eq, ◌==◌, ltb, leb,
  nat_eq, nat_ord, if◌then◌else◌, is_empty, length, get_elem?, add64,
}
use prosthetic_conscience.Map.{Map, get, without}
use prosthetic_conscience.Map.Ordered.{update}
use prosthetic_conscience.Json.{Parsed, parsed, failed}
use prosthetic_conscience.Types.{ClaimId, Entry}
use prosthetic_conscience.Drafts.{EngineError}
use prosthetic_conscience.Drafts
use prosthetic_conscience.Engine.{ConsensusEngine, append, SubmissionBundle, submission_bundle}
use prosthetic_conscience.Engine
use prosthetic_conscience.Engine.Drafting.{remove_draft}

pub data ApplyResult : Type 0 where
  applied : Entry → ApplyResult
  skipped : (error : String) → ApplyResult

pub data EntryBufferError : Type 0 where
  engine_error : EngineError → EntryBufferError
  serialize_error : String → EntryBufferError

pub data Result (A : Type 0) : Type 0 where
  ok : A → Result A
  err : EntryBufferError → Result A

pub record PendingSubmission (Value : Type 0) : Type 0 where
  pub draft_ids : List ℕ
  pub payloads : List Value
  pub next_entry : ℕ

pub record EntryBuffer (Value : Type 0) : Type 0 where
  pub engine : ConsensusEngine
  pub next_index : ℕ
  pub buffered_entries : Map ℕ Value
  pub pending_submission : Option (PendingSubmission Value)

abbrev pub new : {Value : Type 0} → String → EntryBuffer Value
new participant = record {
  engine = Engine.new participant;
  next_index = 0;
  buffered_entries = [];
  pending_submission = none;
}

abbrev pub is_complete : {Value : Type 0} → Option (PendingSubmission Value) → Bool
is_complete none = false
is_complete (some pending) = leb (length pending.payloads) pending.next_entry

abbrev pub is_submission_complete : {Value : Type 0} → EntryBuffer Value → Bool
is_submission_complete buffer = is_complete buffer.pending_submission

module _ {Value : Type 0} ⦃eq : Eq Value⦄ where
  -- The body of the `if let` chain on the pending submission.
  unfoldable pub note_pending : PendingSubmission Value → Value → PendingSubmission Value
  note_pending pending payload = elim (get_elem? pending.payloads pending.next_entry) [
    | none ↦ pending
    | some expected ↦
        if expected == payload
        then record pending { next_entry = add64 pending.next_entry 1 }
        else pending
  ]

  unfoldable pub note_submission_payload : EntryBuffer Value → Value → EntryBuffer Value
  unfolding note_pending
  note_submission_payload buffer payload = elim buffer.pending_submission [
    | none ↦ buffer
    | some pending ↦ record buffer { pending_submission = some (note_pending pending payload) }
  ]

  abbrev pub append_parsed : EntryBuffer Value → Parsed Entry → EntryBuffer Value × ApplyResult
  append_parsed buffer (parsed entry) =
      (record buffer { engine = append buffer.engine entry }, applied entry)
  append_parsed buffer (failed error) = (buffer, skipped error)

  unfoldable pub apply_payload :
      (Value → Parsed Entry) → EntryBuffer Value → Value → EntryBuffer Value × ApplyResult
  unfolding note_submission_payload
  apply_payload from_value buffer payload =
      append_parsed (note_submission_payload buffer payload) (from_value payload)

  -- A payload applied at the next index, and the step of the index.
  unfoldable pub apply_next :
      (Value → Parsed Entry) → EntryBuffer Value → Value → EntryBuffer Value × ApplyResult
  unfolding apply_payload
  apply_next from_value buffer payload =
      let (next, result) = apply_payload from_value buffer payload in
      (record next { next_index = add64 next.next_index 1 }, result)

  -- The loop that drains the entries that have become contiguous. It removes an entry in each
  -- round, so that their number is fuel enough.
  unfoldable pub drain :
      ℕ → (Value → Parsed Entry) → EntryBuffer Value → EntryBuffer Value × List (ℕ × ApplyResult)
  unfolding apply_next
  drain zero from_value buffer = (buffer, [])
  drain (suc fuel) from_value buffer = elim (get buffer.buffered_entries buffer.next_index) [
    | none ↦ (buffer, [])
    | some buffered ↦
        let (next, result) =
          apply_next from_value
            (record buffer { buffered_entries = without buffer.buffered_entries buffer.next_index })
            buffered in
        let (last, results) = drain fuel from_value next in
        (last, (buffer.next_index, result) ∷ results)
  ]

  unfoldable pub apply_or_buffer_entry :
      (Value → Parsed Entry)
      → EntryBuffer Value
      → ℕ
      → Value
      → EntryBuffer Value × List (ℕ × ApplyResult)
  unfolding drain
  apply_or_buffer_entry from_value buffer index payload =
      let (next, result) = apply_next from_value buffer payload in
      let (last, results) = drain (length next.buffered_entries) from_value next in
      if ltb index buffer.next_index
      then (buffer, [])
      else if ltb buffer.next_index index
      then (record buffer { buffered_entries = update buffer.buffered_entries index payload }, [])
      else (last, (buffer.next_index, result) ∷ results)

-- The loop of `finish_submission`: the engine when the loop stops, and the error it stops with.
unfoldable pub remove_drafts : ConsensusEngine → List ℕ → ConsensusEngine × Option EngineError
remove_drafts engine [] = (engine, none)
remove_drafts engine (draft_id ∷ draft_ids) = elim (remove_draft engine draft_id) [
  | Drafts.err error ↦ (engine, some error)
  | Drafts.ok next ↦ remove_drafts next draft_ids
]

abbrev pub finished : Option EngineError → Result Bool
finished none = ok true
finished (some error) = err (engine_error error)

-- `entries.iter().map(serde_json::to_value).collect::<Result<_, _>>()`.
abbrev pub serialized : {Value : Type 0} → (Entry → Parsed Value) → List Entry → Parsed (List Value)
serialized to_value [] = parsed []
serialized to_value (entry ∷ entries) = elim (to_value entry) [
  | failed error ↦ failed error
  | parsed payload ↦ elim (serialized to_value entries) [
    | failed error ↦ failed error
    | parsed payloads ↦ parsed (payload ∷ payloads)
  ]
]

module _ {Value : Type 0} where
  abbrev pub begun :
      EntryBuffer Value
      → List ℕ
      → Parsed (List Value)
      → EntryBuffer Value × Result (Option (PendingSubmission Value))
  begun buffer draft_ids (failed error) = (buffer, err (serialize_error error))
  begun buffer draft_ids (parsed payloads) =
      let pending : PendingSubmission Value = record {
        draft_ids = draft_ids;
        payloads = payloads;
        next_entry = 0;
      } in
      (record buffer { pending_submission = some pending }, ok (some pending))

  unfoldable pub begin_submission :
      (Entry → Parsed Value)
      → EntryBuffer Value
      → (ℕ → ClaimId)
      → EntryBuffer Value × Result (Option (PendingSubmission Value))
  begin_submission to_value buffer fresh = elim (submission_bundle buffer.engine fresh) [
    | Drafts.err error ↦ (buffer, err (engine_error error))
    | Drafts.ok bundle ↦
        if is_empty bundle.entries
        then (buffer, ok none)
        else begun buffer bundle.draft_ids (serialized to_value bundle.entries)
  ]

  unfoldable pub finish_submission : EntryBuffer Value → EntryBuffer Value × Result Bool
  unfolding remove_drafts
  finish_submission buffer = elim buffer.pending_submission [
    | none ↦ (buffer, ok false)
    | some pending ↦
        let (next, stopped) = remove_drafts buffer.engine pending.draft_ids in
        (record buffer { engine = next; pending_submission = none }, finished stopped)
  ]
