-- ===== src/App/Frames.antt =====
-- What tools leave alone in the application of app.rs.
use prosthetic_conscience.Prelude.{
  ℕ, ◌≡◌, refl, ap, ◌∙◌, Bool, true, false, ◌||◌, List, [], ◌∷◌, map,
}
use prosthetic_conscience.Json.{Json}
use prosthetic_conscience.Drafts
use prosthetic_conscience.Drafts.{ok, err}
use prosthetic_conscience.Response.{RawToolCall}
use prosthetic_conscience.AppTools
use prosthetic_conscience.AppTools.{AppTool, decode_tool_call}
use prosthetic_conscience.App.{
  State, ToolOutput, viewed, drafted, removed, execute_tool, executed, run_decoded,
  execute_tool_calls,
}

-- A tool changes no more than the drafts, and nothing at all if it does not say so.
abbrev pub Frames : State → State → Bool → Type 0
Frames s next mutated = (next ≡ record s { drafts = next.drafts }) × (mutated ≡ false → next ≡ s)

abbrev ToolFrames : State → Drafts.Result (State × ToolOutput × Bool) → Type 0
ToolFrames s (ok (next, output, mutated)) = Frames s next mutated
ToolFrames s (err error) = Unit

viewed-Frames :
    {A : Type 0} (s : State) (output : A → ToolOutput) (r : Drafts.Result A)
    → ToolFrames s (viewed s output r)
viewed-Frames s output (ok a) = (refl, λ e. refl)
viewed-Frames s output (err error) = tt

drafted-Frames :
    (s : State) (output : ℕ → ToolOutput) (r : Drafts.Result (Drafts.State × ℕ))
    → ToolFrames s (drafted s output r)
drafted-Frames s output (ok (drafts, draft_id)) = (refl, λ e. cc)
drafted-Frames s output (err error) = tt

removed-Frames :
    (s : State) (draft_id : ℕ) (r : Drafts.Result Drafts.State)
    → ToolFrames s (removed s draft_id r)
removed-Frames s draft_id (ok drafts) = (refl, λ e. cc)
removed-Frames s draft_id (err error) = tt

execute_tool-Frames : (s : State) (tool : AppTool) → ToolFrames s (execute_tool s tool)
unfolding execute_tool
execute_tool-Frames s AppTools.overview = (refl, λ e. refl)
execute_tool-Frames s AppTools.show_drafts = (refl, λ e. refl)
execute_tool-Frames s (AppTools.claim_detail claim_id) = (refl, λ e. refl)
execute_tool-Frames s AppTools.preview_overview = viewed-Frames s _ _
execute_tool-Frames s (AppTools.preview_claim_detail claim_ref) = viewed-Frames s _ _
execute_tool-Frames s AppTools.impact_analysis = viewed-Frames s _ _
execute_tool-Frames s (AppTools.draft_claim body kind parent) = drafted-Frames s _ _
execute_tool-Frames s (AppTools.draft_relation source target kind) = drafted-Frames s _ _
execute_tool-Frames s (AppTools.draft_stance target position) = drafted-Frames s _ _
execute_tool-Frames s (AppTools.draft_resolve claim_ref outcome) = drafted-Frames s _ _
execute_tool-Frames s (AppTools.draft_comment body claim_ref) = drafted-Frames s _ _
execute_tool-Frames s (AppTools.remove_draft draft_id) = removed-Frames s draft_id _

executed-Frames :
    (s : State) (r : Drafts.Result (State × ToolOutput × Bool))
    → ToolFrames s r
    → let (next, outcome, mutated) = executed s r in Frames s next mutated
executed-Frames s (ok (next, output, mutated)) k = k
executed-Frames s (err error) k = (refl, λ e. refl)

run_decoded-Frames :
    (s : State) (decoded : AppTools.Result AppTool)
    → let (next, outcome, mutated) = run_decoded s decoded in Frames s next mutated
unfolding run_decoded
run_decoded-Frames s (AppTools.ok tool) =
    executed-Frames s (execute_tool s tool) (execute_tool-Frames s tool)
run_decoded-Frames s (AppTools.err error) = (refl, λ e. refl)

or_false : (a b : Bool) → (a || b) ≡ false → (a ≡ false) × (b ≡ false)
or_false true b e = absurd (cc)
or_false false b e = (refl, e)

module _ {Value : Type 0} (json : Json Value) where
  pub batch-Frames :
      (s : State) (calls : List RawToolCall)
      → let batch = execute_tool_calls json s calls in Frames s batch.state batch.domain_mutated
  unfolding execute_tool_calls
  batch-Frames s [] = (refl, λ e. refl)
  batch-Frames s (call ∷ calls) =
      let (next, outcome, mutated) = run_decoded s (decode_tool_call json call) in
      let (frame, quiet) = run_decoded-Frames s (decode_tool_call json call) in
      let rest = execute_tool_calls json next calls in
      let (frames, quiets) = batch-Frames next calls in
      (
        frames ∙ ap {A = State} (λ x. record x { drafts = rest.state.drafts }) frame,
        λ e. let (f, g) = or_false mutated rest.domain_mutated e in quiets g ∙ quiet f,
      )

  -- One outcome for each call, in the order of the calls.
  pub batch-ids :
      (s : State) (calls : List RawToolCall)
      → map (λ x. x.call_id) (execute_tool_calls json s calls).outcomes ≡ map (λ x. x.id) calls
  unfolding execute_tool_calls
  batch-ids s [] = refl
  batch-ids s (call ∷ calls) =
      ap (◌∷◌ call.id) (batch-ids (run_decoded s (decode_tool_call json call)).0 calls)
