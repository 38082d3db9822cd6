-- ===== src/Drafts/Reduced.antt =====
-- References between drafts under the reducer of drafts.rs.
use prosthetic_conscience.Prelude.{ℕ, ◌+◌, ◌<◌, u64_mod}
use prosthetic_conscience.Drafts.{
  State, Event, draft_claim_requested, remove_draft_requested, Result, ok, err, noticed, state_of,
  draft_claim, remove_draft, reduce,
}
use prosthetic_conscience.Drafts.Closed.{
  IsClosed, YieldsClosed, remove-YieldsClosed, claim-YieldsClosed,
}

noticed-IsClosed :
    (s : State) (r : Result State) → IsClosed s → YieldsClosed (λ x. x) r → IsClosed (noticed s r)
noticed-IsClosed s (ok next) c y = record {
  below = y.below;
  distinct = y.distinct;
  resolved = y.resolved;
}
noticed-IsClosed s (err error) c y = record {
  below = c.below;
  distinct = c.distinct;
  resolved = c.resolved;
}

state_of-YieldsClosed :
    (r : Result (State × ℕ)) → YieldsClosed (λ p. p.0) r → YieldsClosed (λ x. x) (state_of r)
state_of-YieldsClosed (ok p) y = y
state_of-YieldsClosed (err error) y = tt

-- If the next draft number is not the last machine word, every event keeps the drafts closed:
-- their numbers are below the next one and stand once, and every reference to a draft targets a
-- claim among them.
pub reduce-IsClosed :
    (s : State) (event : Event)
    → s.next_draft_id + 1 < u64_mod
    → IsClosed s
    → IsClosed (reduce s event).state
unfolding reduce
reduce-IsClosed s (draft_claim_requested body kind parent) room c =
    noticed-IsClosed s (state_of (draft_claim s body kind parent)) c (
      state_of-YieldsClosed (draft_claim s body kind parent)
        (claim-YieldsClosed s room c body kind parent))
reduce-IsClosed s (remove_draft_requested draft_id) room c =
    noticed-IsClosed s (remove_draft s draft_id) c (remove-YieldsClosed s c draft_id)
