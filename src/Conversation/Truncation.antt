-- ===== src/Conversation/Truncation.antt =====
-- The bound on the history that conversation.rs sends.
use prosthetic_conscience.Prelude.{
  ℕ, suc, ◌+◌, ◌-◌, ◌≤◌, ◌<◌, ◌≡◌, ◌⊎◌, refl, true, false, List, [], ◌∷◌, some, length, drop, take,
  any, ltb, leb, get_elem?, arith, inl, inr, Bool-cases, length-drop, get_elem?-drop,
  lt_of_get_elem?,
}
use prosthetic_conscience.Json.{Json}
use prosthetic_conscience.Conversation.{is_start, find_cut, truncate_history}

module _ {Value : Type 0} (json : Json Value) where
  -- Where the loop stops: behind the last value, or at the first that a history may begin with.
  find_cut-cases :
      (cut : ℕ) (values : List Value)
      → ((any (is_start json) values ≡ false) × (find_cut json cut values ≡ cut + length values))
        ⊎ ((k : ℕ) × (value : Value) × (find_cut json cut values ≡ cut + k)
            × (get_elem? values k ≡ some value)
            × (is_start json value ≡ true)
            × (any (is_start json) (take k values) ≡ false))
  unfolding find_cut
  find_cut-cases cut [] = inl (refl, omega arith)
  find_cut-cases cut (value ∷ values) = elim (Bool-cases (is_start json value)) [
    | inl h ↦ rw h (inr (0, value, omega arith, refl, h, refl))
    | inr h ↦ elim (find_cut-cases (suc cut) values) [
      | inl (none_there, e) ↦ inl (ground (arith, h, none_there), ground (arith, h, e))
      | inr (k, v, e, g, s, before) ↦
          inr (suc k, v, ground (arith, h, e), g, s, ground (arith, h, before))
    ]
  ]

  -- A history that is short enough is kept whole. One that is too long is kept whole for want of a
  -- beginning behind the excess; else the result begins at the first of these, and is short enough.
  abbrev pub IsTruncated : List Value → ℕ → List Value → Type 0
  IsTruncated history max result =
      let excess = length history - max in
      ((length history ≤ max) × (result ≡ history))
      ⊎ ((max < length history)
          × (result ≡ history)
          × (any (is_start json) (drop excess history) ≡ false))
      ⊎ ((max < length history)
          × (k : ℕ) × (value : Value) × (result ≡ drop (excess + k) history)
          × (length result ≤ max)
          × (get_elem? history (excess + k) ≡ some value)
          × (is_start json value ≡ true)
          × (any (is_start json) (take k (drop excess history)) ≡ false))

  -- A history that is no longer than the bound is kept whole. One that is longer is kept whole,
  -- however long, if none of its values behind the excess can begin a history; else it is cut
  -- before the first of these that can, and at most as many values are left as the bound says.
  pub truncate_history-IsTruncated :
      (history : List Value) (max : ℕ) → IsTruncated history max (truncate_history json history max)
  unfolding truncate_history
  truncate_history-IsTruncated history max =
      let excess = length history - max in
      elim (Bool-cases (leb (length history) max)) [
        | inl h ↦ inl (ground arith, rw h refl)
        | inr h ↦ elim (find_cut-cases excess (drop excess history)) [
          | inl (none_there, e) ↦
              let out : ltb (excess + length (drop excess history)) (length history) ≡ false =
                ground (arith, length-drop excess history) in
              inr (inl (ground (arith, h), ground (arith, h, e, out), none_there))
          | inr (k, value, e, g, s, before) ↦
              let at : get_elem? history (excess + k) ≡ some value =
                ground (arith, get_elem?-drop excess history k, g) in
              let lt = lt_of_get_elem? history (excess + k) at in
              inr (
                inr (
                  ground (arith, h),
                  k,
                  value,
                  ground (arith, h, e, lt),
                  ground (arith, h, e, lt, length-drop (excess + k) history),
                  at,
                  s,
                  before,
                ))
        ]
      ]
