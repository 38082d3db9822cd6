-- ===== src/Turn/Calls.antt =====
-- The calls of a round of crates/consensus/src/llm_turn.rs: their execution, their traces, and
-- whether the drafts have changed.
use mathlib.Core.Bool.{false≢true}
use mathlib.Core.List.{append-nil, append_assoc}
use prosthetic_conscience.Prelude.{
  Option, none, ◌||◌, neither, ◌≡◌, refl, sym, ap, Bool, true, false, not, ◌&&◌, String, List, [],
  ◌∷◌, some, is_some, all, any, any-append, arith, ◌∙◌, ◌++◌,
}
use prosthetic_conscience.Json.{Json, Parsed, parsed, failed}
use prosthetic_conscience.Engine.{ConsensusEngine}
use prosthetic_conscience.Response.{RawToolCall}
use prosthetic_conscience.ToolDispatch.{Shown, dispatch}
use prosthetic_conscience.ToolDispatch.Arguments.{Result, ok, err, tool_error_text}
use prosthetic_conscience.Turn.{Dispatched, answer, run_call, dispatch_call, dispatch_calls}
use prosthetic_conscience.Turn.Trace.{ToolExecutionTrace, is_draft_mutation_tool}
use prosthetic_conscience.Turn.Tools.{is_safe, succeeded, dispatch-IsHonest}

-- None of the calls names a tool that is not advertised.
abbrev pub are_safe : List RawToolCall → Bool
are_safe calls = all (λ call. is_safe call.function.name) calls

both : (a b : Bool) → (a && b) ≡ true → (a ≡ true) × (b ≡ true)
both true b h = (refl, h)
both false b h = absurd (false≢true h)

-- The call has changed the drafts by a drafting tool.
abbrev pub has_drafted : {Value : Type 0} → ToolExecutionTrace Value → Bool
has_drafted x = not (is_some x.dispatch_error) && is_draft_mutation_tool x.function_name

any-snoc :
    {A : Type 0} (p : A → Bool) (m n : Bool) (xs : List A) (x : A)
    → m ≡ any p xs
    → p x ≡ n
    → (m || n) ≡ any p (xs ++ x ∷ [])
any-snoc p m n xs x h g = ground (arith, any-append p xs (x ∷ []), h, g)

module _ {Value : Type 0} (json : Json Value) (to_value : Shown → Parsed Value) where
  answer-succeeded : (r : Result Value) → not (is_some (answer json to_value r).1) ≡ succeeded r
  answer-succeeded (ok value) = refl
  answer-succeeded (err error) = refl

  run_call-kept :
      (engine : ConsensusEngine) (name : String) (arguments : Parsed Value)
      → is_safe name ≡ true
      → (not (is_some (run_call json to_value engine name arguments).2)
          && is_draft_mutation_tool name)
        ≡ false
      → (run_call json to_value engine name arguments).0 ≡ engine
  run_call-kept engine name (parsed arguments) safe h =
      let r = (dispatch json to_value engine name arguments).1 in
      (dispatch-IsHonest json to_value engine name arguments safe).undrafted
        (ap (λ b. b && is_draft_mutation_tool name) (sym (answer-succeeded r)) ∙ h)
  run_call-kept engine name (failed error) safe h = refl

  dispatch_call-kept :
      (d : Dispatched Value) (call : RawToolCall)
      → is_safe call.function.name ≡ true
      → (dispatch_call json to_value d call).mutated_drafts ≡ false
      → ((dispatch_call json to_value d call).engine ≡ d.engine) × (d.mutated_drafts ≡ false)
  unfolding dispatch_call
  dispatch_call-kept d call safe quiet =
      let (before, now) = neither d.mutated_drafts _ quiet in
      (
        run_call-kept d.engine call.function.name (json.from_str call.function.arguments) safe now,
        before,
      )

  pub dispatch_calls-kept :
      (d : Dispatched Value) (calls : List RawToolCall)
      → are_safe calls ≡ true
      → (dispatch_calls json to_value d calls).mutated_drafts ≡ false
      → ((dispatch_calls json to_value d calls).engine ≡ d.engine) × (d.mutated_drafts ≡ false)
  unfolding dispatch_calls
  dispatch_calls-kept d [] safe quiet = (refl, quiet)
  dispatch_calls-kept d (call ∷ calls) safe quiet =
      let (here, there) = both (is_safe call.function.name) (are_safe calls) safe in
      let (later, so_far) =
        dispatch_calls-kept (dispatch_call json to_value d call) calls there quiet in
      let (now, before) = dispatch_call-kept d call here so_far in (later ∙ now, before)

  -- Whether the drafts have changed is known by the traces of the calls.
  abbrev pub IsTracked : Dispatched Value → Type 0
  IsTracked d = d.mutated_drafts ≡ any has_drafted d.tool_results

  dispatch_call-IsTracked :
      (d : Dispatched Value) (call : RawToolCall)
      → IsTracked d
      → IsTracked (dispatch_call json to_value d call)
  unfolding dispatch_call
  dispatch_call-IsTracked d call h = any-snoc has_drafted d.mutated_drafts _ d.tool_results _ h refl

  pub dispatch_calls-IsTracked :
      (d : Dispatched Value) (calls : List RawToolCall)
      → IsTracked d
      → IsTracked (dispatch_calls json to_value d calls)
  unfolding dispatch_calls
  dispatch_calls-IsTracked d [] h = h
  dispatch_calls-IsTracked d (call ∷ calls) h =
      dispatch_calls-IsTracked (dispatch_call json to_value d call) calls
        (dispatch_call-IsTracked d call h)

  abbrev pub error_of_result : Result Value → Option String
  error_of_result (ok value) = none
  error_of_result (err error) = some (tool_error_text error)

  -- The execution of a call: arguments that are no JSON are an error, and change nothing; others are
  -- dispatched, which gives the engine that is next, and the error, if there is one.
  abbrev pub IsExecuted :
      ConsensusEngine → String → Parsed Value → Option String → ConsensusEngine → Type 0
  IsExecuted engine name (failed error) dispatch_error next =
      (next ≡ engine) × (is_some dispatch_error ≡ true)
  IsExecuted engine name (parsed arguments) dispatch_error next =
      let (after, result) = dispatch json to_value engine name arguments in
      (next ≡ after) × (dispatch_error ≡ error_of_result result)

  -- The calls are executed one after the other, and each has its trace.
  abbrev pub AreTraced :
      ConsensusEngine
      → List RawToolCall
      → List (ToolExecutionTrace Value)
      → ConsensusEngine
      → Type 0
  AreTraced engine [] [] after = after ≡ engine
  AreTraced engine (call ∷ calls) (x ∷ traces) after =
      (x.call_id ≡ call.id)
      × (x.function_name ≡ call.function.name)
      × (next : ConsensusEngine) × IsExecuted engine call.function.name
          (json.from_str call.function.arguments) x.dispatch_error next
      × AreTraced next calls traces after
  AreTraced _ _ _ _ = ⊥

  answer-error : (r : Result Value) → (answer json to_value r).1 ≡ error_of_result r
  answer-error (ok value) = refl
  answer-error (err error) = refl

  run_call-IsExecuted :
      (engine : ConsensusEngine) (name : String) (arguments : Parsed Value)
      → let r = run_call json to_value engine name arguments in
        IsExecuted engine name arguments r.2 r.0
  run_call-IsExecuted engine name (failed error) = (refl, refl)
  run_call-IsExecuted engine name (parsed arguments) =
      (refl, answer-error (dispatch json to_value engine name arguments).1)

  pub dispatch_calls-AreTraced :
      (d : Dispatched Value) (calls : List RawToolCall)
      → let after = dispatch_calls json to_value d calls in
        (traces : List (ToolExecutionTrace Value)) × (after.tool_results ≡ d.tool_results ++ traces)
        × AreTraced d.engine calls traces after.engine
  unfolding dispatch_calls dispatch_call
  dispatch_calls-AreTraced d [] = ([], sym (append-nil _), refl)
  dispatch_calls-AreTraced d (call ∷ calls) =
      let next = dispatch_call json to_value d call in
      let (traces, e, t) = dispatch_calls-AreTraced next calls in
      (
        _ ∷ traces,
        e ∙ append_assoc d.tool_results (_ ∷ []) traces,
        (
          refl,
          refl,
          next.engine,
          run_call-IsExecuted d.engine call.function.name (json.from_str call.function.arguments),
          t,
        ),
      )
