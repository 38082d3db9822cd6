-- ===== src/Gateway/ChannelRegistry/Handles.antt =====
-- Workers that are registered in the channel registry, and taken from it.
use mathlib.Core.List.{append-nil, append_assoc}
use prosthetic_conscience.Prelude.{
  neither, ◌≡◌, refl, sym, ap, false, List, [], ◌∷◌, ◌++◌, Option, some, ◌==◌, Eq, string_eq,
  beq_refl, map, ◌∙◌, arith,
}
use prosthetic_conscience.Map.{
  Map, get, update, without, contains_key, keys, IsUnique, contains_key-update,
}
use prosthetic_conscience.Gateway.ChannelRegistry.{
  WorkerId, ChannelRegistry, register_worker, take_worker,
}

module _ {K V : Type 0} ⦃e : Eq K⦄ where
  update_fresh :
      (m : Map K V) (k : K) (v : V) → contains_key m k ≡ false → update m k v ≡ m ++ (k, v) ∷ []
  unfolding update contains_key
  update_fresh [] k v h = refl
  update_fresh ((j, w) ∷ m) k v h =
      let (differ, absent) = neither (j == k) _ h in
      rw differ (ap (◌∷◌ (j, w)) (update_fresh m k v absent))

  get_fresh :
      (m : Map K V) (k : K) (v : V) (rest : Map K V)
      → contains_key m k ≡ false
      → get (m ++ (k, v) ∷ rest) k ≡ some v
  unfolding get contains_key
  get_fresh [] k v rest h = rw (beq_refl k) refl
  get_fresh ((j, w) ∷ m) k v rest h =
      let (differ, absent) = neither (j == k) _ h in rw differ (get_fresh m k v rest absent)

  without_absent : (m : Map K V) (k : K) → contains_key m k ≡ false → without m k ≡ m
  unfolding without contains_key
  without_absent [] k h = refl
  without_absent ((j, w) ∷ m) k h =
      let (differ, absent) = neither (j == k) _ h in
      rw differ (ap (◌∷◌ (j, w)) (without_absent m k absent))

  without_fresh :
      (m : Map K V) (k : K) (v : V) (rest : Map K V)
      → contains_key m k ≡ false
      → contains_key rest k ≡ false
      → without (m ++ (k, v) ∷ rest) k ≡ m ++ rest
  unfolding without contains_key
  without_fresh [] k v rest h g = rw (beq_refl k) (without_absent rest k g)
  without_fresh ((j, w) ∷ m) k v rest h g =
      let (differ, absent) = neither (j == k) _ h in
      rw differ (ap (◌∷◌ (j, w)) (without_fresh m k v rest absent g))

  -- No key of the second map is known to the first.
  abbrev pub AreFresh : Map K V → Map K V → Type 0
  AreFresh m [] = Unit
  AreFresh m ((k, v) ∷ rest) = (contains_key m k ≡ false) × AreFresh m rest

  update-AreFresh :
      (m rest : Map K V) (k : K) (v : V)
      → AreFresh m rest
      → contains_key rest k ≡ false
      → AreFresh (update m k v) rest
  unfolding contains_key
  update-AreFresh m [] k v fresh absent = tt
  update-AreFresh m ((j, w) ∷ rest) k v (new, fresh) absent =
      let (differ, other) = neither (j == k) _ absent in
      (
        ground
            (arith, contains_key-update m k j v, new, differ, e.equals_iff k j, e.equals_iff j k),
        update-AreFresh m rest k v fresh other,
      )

module _ {W S B : Type 0} where
  -- Workers that register one after the other.
  abbrev pub register_all : ChannelRegistry W S B → Map WorkerId W → ChannelRegistry W S B
  register_all r [] = r
  register_all r ((worker_id, handle) ∷ ws) = register_all (register_worker r worker_id handle) ws

  -- Workers that are taken one after the other: the registry that is left, and the handles.
  abbrev pub take_all :
      ChannelRegistry W S B → List WorkerId → ChannelRegistry W S B × List (Option W)
  take_all r [] = (r, [])
  take_all r (worker_id ∷ worker_ids) =
      let (next, handle) = take_worker r worker_id in
      let (rest, handles) = take_all next worker_ids in (rest, handle ∷ handles)

  abbrev with_workers : ChannelRegistry W S B → Map WorkerId W → ChannelRegistry W S B
  with_workers r ws = record r { workers = r.workers ++ ws }

  take_all-with_workers :
      (r : ChannelRegistry W S B) (ws : Map WorkerId W)
      → AreFresh r.workers ws
      → IsUnique ws
      → take_all (with_workers r ws) (keys ws) ≡ (r, map (λ w. some w.1) ws)
  unfolding take_worker
  take_all-with_workers r [] fresh unique =
      ap (λ ws. (record r { workers = ws }, [])) (append-nil r.workers)
  take_all-with_workers r ((k, v) ∷ ws) (new, fresh) (once, unique) =
      rw (without_fresh r.workers k v ws new once, get_fresh r.workers k v ws new)
        (ap (λ p. (p.0, some v ∷ p.1)) (take_all-with_workers r ws fresh unique))

  register_all-with_workers :
      (r : ChannelRegistry W S B) (ws : Map WorkerId W)
      → AreFresh r.workers ws
      → IsUnique ws
      → register_all r ws ≡ with_workers r ws
  unfolding register_worker
  register_all-with_workers r [] fresh unique =
      ap (λ ws. record r { workers = ws }) (sym (append-nil r.workers))
  register_all-with_workers r ((k, v) ∷ ws) (new, fresh) (once, unique) =
      register_all-with_workers (register_worker r k v) ws
        (update-AreFresh r.workers ws k v fresh once) unique
      ∙ ap (λ m. record r { workers = m })
          (ap (λ m. m ++ ws) (update_fresh r.workers k v new)
            ∙ append_assoc r.workers ((k, v) ∷ []) ws)

  -- If workers register under distinct identifiers that the registry does not know, as those of
  -- `Uuid::new_v4` are, then taking them in the same order gives the handle of each, and leaves
  -- the registry as it was before.
  pub take_all-register_all :
      (r : ChannelRegistry W S B) (ws : Map WorkerId W)
      → AreFresh r.workers ws
      → IsUnique ws
      → take_all (register_all r ws) (keys ws) ≡ (r, map (λ w. some w.1) ws)
  take_all-register_all r ws fresh unique =
      ap (λ x. take_all x (keys ws)) (register_all-with_workers r ws fresh unique)
      ∙ take_all-with_workers r ws fresh unique
