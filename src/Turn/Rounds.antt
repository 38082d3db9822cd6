-- ===== src/Turn/Rounds.antt =====
-- When process_llm_response of crates/consensus/src/llm_turn.rs asks for another request.
use prosthetic_conscience.Prelude.{
  subst, ◌≡◌, ◌<◌, refl, sym, ap, true, false, List, [], some, is_empty, leb, any, arith, inl, inr,
  Bool-cases, ◌∙◌, ◌≤◌, leb→le, ◌⊎◌, ◌++◌,
}
use prosthetic_conscience.Json.{Json, Parsed}
use prosthetic_conscience.Engine.{ConsensusEngine}
use prosthetic_conscience.Response.{RawToolCall, CompletedAssistantMessage, assemble}
use prosthetic_conscience.Response
use prosthetic_conscience.App.Prompt.{ToolDef}
use prosthetic_conscience.ToolDispatch.{Shown}
use prosthetic_conscience.Turn.{
  Outcome, step, process_response_error, Dispatched, Processed, process_assembled, new_trace,
  dispatch_calls, close_round, process_message, process_llm_response,
}
use prosthetic_conscience.Turn.Trace.{
  final, needs_request, max_rounds_exceeded, TurnConfig, LlmRoundTrace,
}
use prosthetic_conscience.Turn.Tools.{if_cases}
use prosthetic_conscience.Turn.Calls.{
  are_safe, has_drafted, AreTraced, dispatch_calls-kept, dispatch_calls-IsTracked,
  dispatch_calls-AreTraced,
}

module _ {Value : Type 0} (json : Json Value) (to_value : Shown → Parsed Value) where
  module _ (config : TurnConfig) where
    -- A round that has executed its calls, with their traces.
    abbrev pub IsRun :
        ConsensusEngine → List RawToolCall → LlmRoundTrace Value → ConsensusEngine → Type 0
    IsRun before calls trace after =
        (config.round < config.max_rounds)
        × (is_empty calls ≡ false)
        × AreTraced json to_value before calls trace.tool_results after

    -- What the round of a message is, by its outcome, with the engine before and after it.
    abbrev pub IsRound :
        ConsensusEngine → CompletedAssistantMessage → ConsensusEngine → Outcome Value → Type 0
    IsRound before msg after (step (final message trace)) =
        ((is_empty msg.tool_calls ≡ true) × (message ≡ msg) × (after ≡ before))
        ⊎ (IsRun before msg.tool_calls trace after × (any has_drafted trace.tool_results ≡ true))
    IsRound before msg after (step (needs_request payload trace)) =
        IsRun before msg.tool_calls trace after
        × (any has_drafted trace.tool_results ≡ false)
        × ((are_safe msg.tool_calls ≡ false) ⊎ (after ≡ before))
    IsRound before msg after (step (max_rounds_exceeded trace)) =
        (is_empty msg.tool_calls ≡ false) × (config.max_rounds ≤ config.round) × (after ≡ before)
    IsRound before msg after (process_response_error error) = ⊥

    -- Chunks that are no message end the turn in their error, and change nothing.
    abbrev pub IsProcessed :
        ConsensusEngine
        → List Value
        → Response.Result CompletedAssistantMessage
        → Processed Value
        → Type 0
    IsProcessed engine history (Response.err error) p =
        (p.outcome ≡ process_response_error error) × (p.engine ≡ engine) × (p.history ≡ history)
    IsProcessed engine history (Response.ok msg) p = IsRound engine msg p.engine p.outcome

  module _ (tool_definitions : List (ToolDef Value)) (config : TurnConfig) where
    closed-IsRound :
        (trace : LlmRoundTrace Value) (d : Dispatched Value) (msg : CompletedAssistantMessage)
        → d.tool_results ≡ []
        → d.mutated_drafts ≡ false
        → is_empty msg.tool_calls ≡ false
        → leb config.max_rounds config.round ≡ false
        → let p =
            close_round json to_value tool_definitions config trace
              (dispatch_calls json to_value d msg.tool_calls) in
          IsRound config d.engine msg p.engine p.outcome
    unfolding close_round
    closed-IsRound trace d msg r m some_calls rounds =
        let after = dispatch_calls json to_value d msg.tool_calls in
        let tracked =
          dispatch_calls-IsTracked json to_value d msg.tool_calls
            (m ∙ ap (any has_drafted) (sym r)) in
        let done : LlmRoundTrace Value = record trace { tool_results = after.tool_results } in
        let (traces, e, t) = dispatch_calls-AreTraced json to_value d msg.tool_calls in
        let ran : IsRun config d.engine msg.tool_calls done after.engine = (
          ground (arith, rounds),
          some_calls,
          subst (λ xs. AreTraced json to_value d.engine msg.tool_calls xs after.engine)
              (sym (e ∙ ap (λ xs. xs ++ traces) r)) t,
        ) in
        elim (Bool-cases after.mutated_drafts) [
          | inl e ↦ rw e (inr (ran, sym tracked ∙ e))
          | inr e ↦ rw e (
            ran,
            sym tracked ∙ e,
            elim (Bool-cases (are_safe msg.tool_calls)) [
              | inl safe ↦ inr (dispatch_calls-kept json to_value d msg.tool_calls safe e).0
              | inr u ↦ inl u
            ],
          )
        ]

    process_message-IsRound :
        (trace : LlmRoundTrace Value) (engine : ConsensusEngine) (history : List Value)
        (msg : CompletedAssistantMessage)
        → let p = process_message json to_value tool_definitions config trace engine history msg in
          IsRound config engine msg p.engine p.outcome
    unfolding process_message
    process_message-IsRound trace engine history msg =
        let said : LlmRoundTrace Value = record trace { assistant_message = some msg } in
        let P : Processed Value → Type 0 = λ p. IsRound config engine msg p.engine p.outcome in
        if_cases P (is_empty msg.tool_calls) (λ e. inl (e, refl, refl))
          (λ some_calls.
            if_cases P (leb config.max_rounds config.round)
              (λ out. (some_calls, leb→le _ _ out, refl))
              (λ rounds. closed-IsRound said _ msg refl refl some_calls rounds))

    process_assembled-IsProcessed :
        (trace : LlmRoundTrace Value) (engine : ConsensusEngine) (history : List Value)
        (r : Response.Result CompletedAssistantMessage)
        → IsProcessed config engine history r
            (process_assembled json to_value tool_definitions config trace engine history r)
    process_assembled-IsProcessed trace engine history (Response.ok msg) =
        process_message-IsRound trace engine history msg
    process_assembled-IsProcessed trace engine history (Response.err error) = (refl, refl, refl)

    -- Chunks that are no message end the turn in their error, and change neither engine nor
    -- history. A message without tool calls is final, and one with tool calls that finds no
    -- rounds left ends the turn; both leave the engine as it was. Else rounds are left, and the
    -- calls are executed one after the other, each as `dispatch` does it, or not at all if its
    -- arguments are no JSON, and each leaves a trace with its error, if there is one; the round
    -- is final if, by a trace, a drafting tool has succeeded, and asks for another request if
    -- none has; the engine is then as it was, unless a call names `submit_drafts` or
    -- `clear_drafts`.
    pub process_llm_response-IsProcessed :
        (chunks : List Value) (engine : ConsensusEngine) (history : List Value)
        → IsProcessed config engine history
            (assemble json chunks)
            (process_llm_response json to_value tool_definitions config chunks engine history)
    unfolding process_llm_response
    process_llm_response-IsProcessed chunks engine history =
        process_assembled-IsProcessed
          (new_trace json to_value tool_definitions config chunks history) engine history
          (assemble json chunks)
