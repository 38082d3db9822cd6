-- ===== src/Response/Outcomes.antt =====
-- What comes of chunks in response.rs, errors included.
use prosthetic_conscience.Prelude.{
  ℕ, suc, ◌+◌, ◌≡◌, ◌≢◌, ◌⊎◌, refl, sym, subst, Bool, true, false, not, ◌&&◌, String, List, [], ◌∷◌,
  Option, none, some, ◌==◌, string_eq, all, take, get_elem?, arith, inl, inr, Bool-cases,
  Option-cases, is_empty, is_empty_text, if◌then◌else◌, ap, ◌∙◌, equals→eq,
}
use text.Mathlib.TextLemmas.{nil-append}
use mathlib.Core.Bool.{false≢true}
use prosthetic_conscience.Json.{Json}
use prosthetic_conscience.Response.{
  empty, missing_choices, empty_choices, unexpected_role, Result, ok, err, Assembly,
  CompletedAssistantMessage, no_assembly, push_content, take_first, str_at, array_at, push_choice,
  push_chunks, close, assemble,
}

module _ {Value : Type 0} (json : Json Value) where
  -- The chunk has a choice.
  abbrev pub has_choices : Value → Bool
  has_choices chunk = elim (array_at json chunk "choices") [
    | none ↦ false
    | some [] ↦ false
    | some (choice ∷ choices) ↦ true
  ]

  -- The text that the delta of a choice adds to the content.
  abbrev pub choice_text : Value → Option String
  choice_text choice = elim (json.get choice "delta") [
    | none ↦ none
    | some delta ↦ str_at json delta "content"
  ]

  abbrev pub chunk_text : Value → Option String
  chunk_text chunk = elim (array_at json chunk "choices") [
    | none ↦ none
    | some [] ↦ none
    | some (choice ∷ choices) ↦ choice_text choice
  ]

  -- The texts of all chunks, one after the other; none if there is no text.
  abbrev pub joined : Option String → List Value → Option String
  joined content [] = content
  joined content (chunk ∷ chunks) = joined (push_content content (chunk_text chunk)) chunks

  -- Chunk `k` is the first without a choice, and its choices are `found`.
  abbrev pub IsFirstFault : List Value → ℕ → Option (List Value) → Type 0
  IsFirstFault chunks k found =
      (chunk : Value) × (get_elem? chunks k ≡ some chunk)
      × (array_at json chunk "choices" ≡ found)
      × (all has_choices (take k chunks) ≡ true)

  abbrev pub choice_role : Value → Option String
  choice_role choice = elim (json.get choice "delta") [
    | none ↦ none
    | some delta ↦ str_at json delta "role"
  ]

  abbrev pub chunk_role : Value → Option String
  chunk_role chunk = elim (array_at json chunk "choices") [
    | none ↦ none
    | some [] ↦ none
    | some (choice ∷ choices) ↦ choice_role choice
  ]

  -- The first of a role that is there and not empty, and of what follows.
  abbrev pub role_or : Option String → String → String
  role_or none rest = rest
  role_or (some role) rest = if is_empty_text role then rest else role

  -- The role that the chunks name first; empty if none names one.
  abbrev pub first_role : List Value → String
  first_role [] = ""
  first_role (chunk ∷ chunks) = role_or (chunk_role chunk) (first_role chunks)

  abbrev Pushed : ℕ → Assembly → List Value → Result Assembly → Type 0
  Pushed n a chunks (ok b) =
      (all has_choices chunks ≡ true)
      × (b.content ≡ joined a.content chunks)
      × (b.role ≡ role_or (some a.role) (first_role chunks))
  Pushed n a chunks (err (missing_choices i)) = (k : ℕ) × (i ≡ n + k) × IsFirstFault chunks k none
  Pushed n a chunks (err (empty_choices i)) =
      (k : ℕ) × (i ≡ n + k) × IsFirstFault chunks k (some [])
  Pushed n a chunks (err _) = ⊥

  push_choice-content :
      (a : Assembly) (choice : Value)
      → (push_choice json a choice).content ≡ push_content a.content (choice_text choice)
  unfolding push_choice
  push_choice-content a choice = elim (Option-cases (json.get choice "delta")) [
    | inl g ↦ rw (push_choice, choice_text, g) refl
    | inr (delta, g) ↦ rw (push_choice, choice_text, g) refl
  ]

  take_first-role_or :
      (current rest : String) (role : Option String)
      → role_or (some (take_first current role)) rest ≡ role_or (some current) (role_or role rest)
  take_first-role_or current rest none = refl
  take_first-role_or String.[] rest (some String.[]) = refl
  take_first-role_or String.[] rest (some (String.◌∷◌ c s)) = rw (nil-append (String.◌∷◌ c s)) refl
  take_first-role_or (String.◌∷◌ c s) rest (some role) = refl

  role_or-empty : (role : String) → role ≡ role_or (some role) ""
  role_or-empty String.[] = refl
  role_or-empty (String.◌∷◌ c s) = refl

  -- A role that is not refused.
  accepted :
      (role : String)
      → (not (is_empty_text role) && not (role == "assistant")) ≡ false
      → (role ≡ "") ⊎ (role ≡ "assistant")
  accepted String.[] h = inl refl
  accepted (String.◌∷◌ c s) h = elim (Bool-cases (String.◌∷◌ c s == "assistant")) [
    | inl e ↦ inr (equals→eq _ _ e)
    | inr e ↦ absurd (false≢true (sym h ∙ rw e refl))
  ]

  push_choice-role :
      (a : Assembly) (choice : Value)
      → (push_choice json a choice).role ≡ take_first a.role (choice_role choice)
  unfolding push_choice
  push_choice-role a choice = elim (Option-cases (json.get choice "delta")) [
    | inl g ↦ rw (push_choice, choice_role, g) refl
    | inr (delta, g) ↦ rw (push_choice, choice_role, g) refl
  ]

  next-Pushed :
      (n : ℕ) (a b : Assembly) (chunk choice : Value) (choices chunks : List Value)
      (r : Result Assembly)
      → array_at json chunk "choices" ≡ some (choice ∷ choices)
      → b.content ≡ push_content a.content (choice_text choice)
      → b.role ≡ take_first a.role (choice_role choice)
      → Pushed (suc n) b chunks r
      → Pushed n a (chunk ∷ chunks) r
  next-Pushed n a b chunk choice choices chunks (ok c) g e f p = (
    rw (has_choices, g) p.0,
    rw (chunk_text, g, sym e) p.1,
    p.2
        ∙ ap (λ r. role_or (some r) (first_role chunks)) f
        ∙ take_first-role_or a.role (first_role chunks) (choice_role choice)
        ∙ rw (chunk_role, g) refl,
  )
  next-Pushed n a b chunk choice choices chunks (err (missing_choices i)) g e role
        (k, j, (x, at, f, q)) =
      (suc k, omega (arith, j), (x, at, f, rw (has_choices, g) q))
  next-Pushed n a b chunk choice choices chunks (err (empty_choices i)) g e role
        (k, j, (x, at, f, q)) =
      (suc k, omega (arith, j), (x, at, f, rw (has_choices, g) q))
  next-Pushed n a b chunk choice choices chunks (err empty) g e f p = p
  next-Pushed n a b chunk choice choices chunks (err (unexpected_role role)) g e f p = p

  push_chunks-Pushed :
      (n : ℕ) (a : Assembly) (chunks : List Value) → Pushed n a chunks (push_chunks json n a chunks)
  unfolding push_chunks
  push_chunks-Pushed n a [] = (refl, refl, role_or-empty a.role)
  push_chunks-Pushed n a (chunk ∷ chunks) = elim (Option-cases (array_at json chunk "choices")) [
    | inl g ↦ rw (push_chunks, g) (0, omega arith, (chunk, refl, g, refl))
    | inr ([], g) ↦ rw (push_chunks, g) (0, omega arith, (chunk, refl, g, refl))
    | inr (choice ∷ choices, g) ↦
        rw (push_chunks, g)
          (next-Pushed n a (push_choice json a choice) chunk choice choices chunks _ g
            (push_choice-content a choice) (push_choice-role a choice)
            (push_chunks-Pushed (suc n) (push_choice json a choice) chunks))
  ]

  -- A message comes of chunks that all have a choice and name no role first but that of an
  -- assistant, and its content is their texts. An error says that there are no chunks, which chunk
  -- is the first without a choice, or which other role is named first.
  abbrev pub IsOutcome : List Value → Result CompletedAssistantMessage → Type 0
  IsOutcome chunks (ok message) =
      (is_empty chunks ≡ false)
      × (all has_choices chunks ≡ true)
      × ((first_role chunks ≡ "") ⊎ (first_role chunks ≡ "assistant"))
      × (message.content ≡ joined none chunks)
  IsOutcome chunks (err empty) = chunks ≡ []
  IsOutcome chunks (err (missing_choices i)) = IsFirstFault chunks i none
  IsOutcome chunks (err (empty_choices i)) = IsFirstFault chunks i (some [])
  IsOutcome chunks (err (unexpected_role role)) =
      (all has_choices chunks ≡ true)
      × (role ≡ first_role chunks)
      × (role ≢ "")
      × (role ≢ "assistant")

  close-IsOutcome :
      (chunks : List Value) (r : Result Assembly)
      → is_empty chunks ≡ false
      → Pushed 0 no_assembly chunks r
      → IsOutcome chunks (close r)
  unfolding close
  close-IsOutcome chunks (ok a) h p =
      elim (Bool-cases (not (is_empty_text a.role) && not (a.role == "assistant"))) [
        | inl c ↦ rw c (p.0, p.2, λ e. absurd (cc (rw e at c)), λ e. absurd (cc (rw e at c)))
        | inr c ↦
            rw c (h, p.0, subst (λ r. (r ≡ "") ⊎ (r ≡ "assistant")) p.2 (accepted a.role c), p.1)
      ]
  close-IsOutcome chunks (err (missing_choices i)) h (k, j, fault) =
      subst (λ x. IsFirstFault chunks x none) (omega (arith, j)) fault
  close-IsOutcome chunks (err (empty_choices i)) h (k, j, fault) =
      subst (λ x. IsFirstFault chunks x (some [])) (omega (arith, j)) fault
  close-IsOutcome chunks (err empty) h p = absurd p
  close-IsOutcome chunks (err (unexpected_role role)) h p = absurd p

  -- Chunks are put together to a message only if there are any, all have a choice, and the first
  -- role that they name, if any, is that of an assistant; then the content of the message is
  -- their texts, one after the other. An error says that there are no chunks, which chunk is the
  -- first without choices or with an empty list of them, or that all chunks have a choice, and
  -- which role, not that of an assistant, they name first.
  pub assemble-IsOutcome : (chunks : List Value) → IsOutcome chunks (assemble json chunks)
  unfolding assemble
  assemble-IsOutcome [] = refl
  assemble-IsOutcome (chunk ∷ chunks) =
      close-IsOutcome (chunk ∷ chunks) _ refl (push_chunks-Pushed 0 no_assembly (chunk ∷ chunks))
