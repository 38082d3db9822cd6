-- ===== src/App/Tools.antt =====
-- What a batch of tool calls does to the application of app.rs.
use prosthetic_conscience.Prelude.{
  ℕ, ◌+◌, ◌<◌, ◌≤◌, ◌≡◌, Bool, false, List, [], ◌∷◌, Option, none, some, map, length, u64_mod,
  add64_lem, arith, inl, inr, Bool-cases, Option-cases,
}
use prosthetic_conscience.Json.{Json}
use prosthetic_conscience.Drafts
use prosthetic_conscience.Drafts.{
  EngineError, DraftContent, guarded, ok, err, push_draft, find_draft, is_claim, referencing,
}
use prosthetic_conscience.Drafts.Closed.{
  IsClosed, YieldsClosed, claim-YieldsClosed, relation-YieldsClosed, stance-YieldsClosed,
  resolve-YieldsClosed, comment-YieldsClosed, remove-YieldsClosed,
}
use prosthetic_conscience.Response.{RawToolCall}
use prosthetic_conscience.AppTools
use prosthetic_conscience.AppTools.{AppTool, decode_tool_call}
use prosthetic_conscience.App.Frames.{batch-Frames, batch-ids}
use prosthetic_conscience.App.{
  State, ToolOutput, viewed, drafted, removed, execute_tool, executed, run_decoded,
  execute_tool_calls,
}

-- A tool keeps the drafts closed and takes at most one number.
abbrev Keeps : State → State → Type 0
Keeps s next = IsClosed next.drafts × (next.drafts.next_draft_id ≤ s.drafts.next_draft_id + 1)

abbrev ToolKeeps : State → Drafts.Result (State × ToolOutput × Bool) → Type 0
ToolKeeps s (ok (next, output, mutated)) = Keeps s next
ToolKeeps s (err error) = Unit

module _ (s : State) (c : IsClosed s.drafts) where
  viewed-Keeps :
      {A : Type 0} (output : A → ToolOutput) (r : Drafts.Result A) → ToolKeeps s (viewed s output r)
  viewed-Keeps output (ok a) = (c, omega arith)
  viewed-Keeps output (err error) = tt

  -- What an operation on drafts returns is closed, with at most one number more.
  abbrev Grows : {A : Type 0} → (A → Drafts.State) → Drafts.Result A → Type 0
  Grows f (ok a) = (f a).next_draft_id ≤ s.drafts.next_draft_id + 1
  Grows f (err error) = Unit

  drafted-Keeps :
      (output : ℕ → ToolOutput) (r : Drafts.Result (Drafts.State × ℕ))
      → YieldsClosed (λ p. p.0) r
      → Grows (λ p. p.0) r
      → ToolKeeps s (drafted s output r)
  drafted-Keeps output (ok (drafts, draft_id)) k g = (k, g)
  drafted-Keeps output (err error) k g = tt

  removed-Keeps :
      (draft_id : ℕ) (r : Drafts.Result Drafts.State)
      → YieldsClosed (λ x. x) r
      → Grows (λ x. x) r
      → ToolKeeps s (removed s draft_id r)
  removed-Keeps draft_id (ok drafts) k g = (k, g)
  removed-Keeps draft_id (err error) k g = tt

  guarded-Grows :
      (check : Option EngineError) (r : Drafts.Result (Drafts.State × ℕ))
      → Grows (λ p. p.0) r
      → Grows (λ p. p.0) (guarded check r)
  guarded-Grows none r g = g
  guarded-Grows (some error) r g = tt

  push-Grows :
      (room : s.drafts.next_draft_id + 1 < u64_mod) (check : Option EngineError)
      (content : DraftContent)
      → Grows (λ p. p.0) (guarded check (ok (push_draft s.drafts content)))
  unfolding push_draft
  push-Grows room check content =
      guarded-Grows check (ok (push_draft s.drafts content))
        (omega (arith, add64_lem s.drafts.next_draft_id 1 room))

  remove-Grows : (draft_id : ℕ) → Grows (λ x. x) (Drafts.remove_draft s.drafts draft_id)
  unfolding Drafts.remove_draft
  remove-Grows draft_id = elim (Option-cases (find_draft s.drafts.drafts draft_id)) [
    | inl g ↦ rw (Drafts.remove_draft, g) tt
    | inr (d, g) ↦ elim (Bool-cases (is_claim d.entry)) [
      | inr h ↦ rw (Drafts.remove_draft, g, h) (omega arith)
      | inl h ↦ elim (Option-cases (referencing s.drafts.drafts draft_id)) [
        | inl f ↦ rw (Drafts.remove_draft, g, h, f) (omega arith)
        | inr (other, f) ↦ rw (Drafts.remove_draft, g, h, f) tt
      ]
    ]
  ]

  execute_tool-Keeps :
      (room : s.drafts.next_draft_id + 1 < u64_mod) (tool : AppTool)
      → ToolKeeps s (execute_tool s tool)
  unfolding execute_tool Drafts.draft_claim Drafts.draft_relation Drafts.draft_stance
      Drafts.draft_resolve Drafts.draft_comment
  execute_tool-Keeps room AppTools.overview = (c, omega arith)
  execute_tool-Keeps room AppTools.show_drafts = (c, omega arith)
  execute_tool-Keeps room (AppTools.claim_detail claim_id) = (c, omega arith)
  execute_tool-Keeps room AppTools.preview_overview = viewed-Keeps _ _
  execute_tool-Keeps room (AppTools.preview_claim_detail claim_ref) = viewed-Keeps _ _
  execute_tool-Keeps room AppTools.impact_analysis = viewed-Keeps _ _
  execute_tool-Keeps room (AppTools.draft_claim body kind parent) =
      drafted-Keeps _ _ (claim-YieldsClosed s.drafts room c body kind parent) (
        push-Grows room (Drafts.validate_optional_claim_ref s.drafts parent)
          (Drafts.claim body kind parent))
  execute_tool-Keeps room (AppTools.draft_relation source target kind) =
      drafted-Keeps _ _ (relation-YieldsClosed s.drafts room c source target kind) (
        guarded-Grows (Drafts.validate_claim_ref s.drafts source)
          (guarded (Drafts.validate_claim_ref s.drafts target)
            (ok (push_draft s.drafts (Drafts.relation source target kind))))
          (push-Grows room (Drafts.validate_claim_ref s.drafts target)
            (Drafts.relation source target kind)))
  execute_tool-Keeps room (AppTools.draft_stance target position) =
      drafted-Keeps _ _ (stance-YieldsClosed s.drafts room c target position) (
        push-Grows room (Drafts.validate_claim_ref s.drafts target) (Drafts.stance target position))
  execute_tool-Keeps room (AppTools.draft_resolve claim_ref outcome) =
      drafted-Keeps _ _ (resolve-YieldsClosed s.drafts room c claim_ref outcome) (
        push-Grows room (Drafts.validate_claim_ref s.drafts claim_ref)
          (Drafts.resolve claim_ref outcome))
  execute_tool-Keeps room (AppTools.draft_comment body claim_ref) =
      drafted-Keeps _ _ (comment-YieldsClosed s.drafts room c body claim_ref) (
        push-Grows room (Drafts.validate_optional_claim_ref s.drafts claim_ref)
          (Drafts.comment claim_ref body))
  execute_tool-Keeps room (AppTools.remove_draft draft_id) =
      removed-Keeps draft_id _ (remove-YieldsClosed s.drafts c draft_id) (remove-Grows draft_id)

  executed-Keeps :
      (r : Drafts.Result (State × ToolOutput × Bool))
      → ToolKeeps s r
      → let (next, outcome, mutated) = executed s r in Keeps s next
  executed-Keeps (ok (next, output, mutated)) k = k
  executed-Keeps (err error) k = (c, omega arith)

  run_decoded-Keeps :
      (room : s.drafts.next_draft_id + 1 < u64_mod) (decoded : AppTools.Result AppTool)
      → let (next, outcome, mutated) = run_decoded s decoded in Keeps s next
  unfolding run_decoded
  run_decoded-Keeps room (AppTools.ok tool) =
      executed-Keeps (execute_tool s tool) (execute_tool-Keeps room tool)
  run_decoded-Keeps room (AppTools.err error) = (c, omega arith)

module _ {Value : Type 0} (json : Json Value) where
  batch-IsClosed :
      (s : State) (calls : List RawToolCall)
      → s.drafts.next_draft_id + length calls < u64_mod
      → IsClosed s.drafts
      → IsClosed (execute_tool_calls json s calls).state.drafts
  unfolding execute_tool_calls
  batch-IsClosed s [] room c = c
  batch-IsClosed s (call ∷ calls) room c =
      let next = (run_decoded s (decode_tool_call json call)).0 in
      let (closed, grown) =
        run_decoded-Keeps s c (omega (arith, room)) (decode_tool_call json call) in
      batch-IsClosed next calls (omega (arith, room, grown)) closed

  -- If the drafts are closed and there are numbers for as many drafts as there are calls, a batch
  -- of tool calls gives one outcome for each call, in their order; it changes nothing of the
  -- state but the drafts, and not even these if it does not say that the domain has changed; and
  -- it keeps the drafts closed.
  pub execute_tool_calls_lem :
      (s : State) (calls : List RawToolCall)
      → s.drafts.next_draft_id + length calls < u64_mod
      → IsClosed s.drafts
      → let batch = execute_tool_calls json s calls in
        (map (λ x. x.call_id) batch.outcomes ≡ map (λ x. x.id) calls)
        × (batch.state ≡ record s { drafts = batch.state.drafts })
        × (batch.domain_mutated ≡ false → batch.state ≡ s)
        × IsClosed batch.state.drafts
  execute_tool_calls_lem s calls room c =
      let (frame, quiet) = batch-Frames json s calls in
      (batch-ids json s calls, frame, quiet, batch-IsClosed s calls room c)
