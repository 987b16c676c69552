-- ===== src/Outbox/Again.antt =====
-- game_service/local_backend.py: an operation that is resolved again with the winner that answered it.
use mathlib.Core.Path.{subst}
use classic_games.Prelude.{
  ℕ, ◌≡◌, refl, sym, ap, ◌∙◌, Bool, true, false, Bool-cases, inl, inr, ◌&&◌, not, Option,
  if◌then◌else◌, if_intro, ◌==◌, arith,
}
use classic_games.Prelude.Results.{Result, ok, ◌>>=◌, Ensures, Ensures-any, bind-Ensures, ensured}
use classic_games.Prelude.Texts.{Text, text_eq, text_eq_refl}
use classic_games.Prelude.Json.{Json}
use classic_games.Outbox.Operation.{
  Body, Arguments, Operation, Kind, profile, setting, progress, slot, kind_of, same_kind,
  Resolution, duplicate, incoming, superseded, merged, set_progress, merge_progress, is_merge,
  progress_components, component_relation, precedes, same_order,
}
use classic_games.Outbox.Operation
use classic_games.Outbox.Resolve.{
  merge_operations, merge_arguments, later_wins, resolve_methods, resolve_orders, resolve_progress,
  resolve_operations, is_published,
}
use classic_games.Outbox.Dominance.{absorbs, resolve_operations-merged}

-- the winner, by the resolution
abbrev pub Winner : Operation → Operation → Operation × Resolution → Type 0
Winner existing o (w, duplicate) = w ≡ existing
Winner existing o (w, superseded) = w ≡ existing
Winner existing o (w, incoming) = w ≡ o
Winner existing o (w, merged) = Unit

module _ (isdigit : ℕ → Bool) (decimal : ℕ → Option ℕ) (digest : Json → Text)
    (existing o : Operation) where
  abbrev Won : Result Operation.Fault (Operation × Resolution) → Type 0
  Won = Ensures (Winner existing o)

  later_wins-Winner : Won (later_wins isdigit decimal digest existing o)
  unfolding later_wins
  later_wins-Winner = if_intro Won (precedes o existing) _ _ (λ _. refl) (λ _. refl)

  merge_operations-Winner :
      (old new : Arguments) → Won (merge_operations isdigit decimal digest existing o old new)
  unfolding merge_operations
  merge_operations-Winner old new =
      bind-Ensures (λ _. Unit) (Winner existing o)
        (merge_arguments isdigit decimal digest existing o old new) (λ w. ok (w, merged))
        (Ensures-any (merge_arguments isdigit decimal digest existing o old new)) (λ _ _. tt)

  resolve_methods-Winner :
      (b c : Body) → Won (resolve_methods isdigit decimal digest existing o b c)
  unfolding resolve_methods
  resolve_methods-Winner (set_progress old) (merge_progress new) =
      if_intro Won (precedes o existing) (ok (existing, superseded))
        (merge_operations isdigit decimal digest existing o old new) (λ _. refl)
        (λ _. merge_operations-Winner old new)
  resolve_methods-Winner (merge_progress old) (merge_progress new) = merge_operations-Winner old new
  resolve_methods-Winner b c = later_wins-Winner

  resolve_orders-Winner : Won (resolve_orders isdigit decimal digest existing o)
  unfolding resolve_orders
  resolve_orders-Winner =
      if_intro Won (same_order o existing) _ _
        (λ _. if_intro Won (text_eq o.payload_hash existing.payload_hash) _ _ (λ _. refl) (λ _. tt))
        (λ _. resolve_methods-Winner existing.body o.body)

  resolve_progress-Winner : Won (resolve_progress isdigit decimal digest existing o)
  unfolding resolve_progress
  resolve_progress-Winner =
      bind-Ensures (λ _. Unit) (Winner existing o) (component_relation existing o) _
        (Ensures-any (component_relation existing o))
        (λ absorbed _.
          if_intro Won absorbed (ok (existing, duplicate))
            (component_relation o existing >>= decide) (λ _. refl)
            (λ _.
              bind-Ensures (λ _. Unit) (Winner existing o) (component_relation o existing) decide
                (Ensures-any (component_relation o existing))
                (λ absorbing _.
                  if_intro Won absorbing (ok (o, incoming))
                    (resolve_orders isdigit decimal digest existing o) (λ _. refl)
                    (λ _. resolve_orders-Winner))))
    where
      decide : Bool → Result Operation.Fault (Operation × Resolution)
      decide absorbing =
          if absorbing then ok (o, incoming) else resolve_orders isdigit decimal digest existing o

  resolve_operations-Winner : Won (resolve_operations isdigit decimal digest existing o)
  unfolding resolve_operations
  resolve_operations-Winner =
      if_intro Won
        (not (text_eq existing.key o.key && same_kind (kind_of existing.body) (kind_of o.body))) _ _
        (λ _. tt)
        (λ _.
          if_intro Won (same_kind (kind_of o.body) progress) _ _ (λ _. resolve_progress-Winner)
            (λ _. resolve_orders-Winner))

same_kind_refl : (k : Kind) → same_kind k k ≡ true
same_kind_refl profile = refl
same_kind_refl setting = refl
same_kind_refl progress = refl
same_kind_refl slot = refl

module _ (isdigit : ℕ → Bool) (decimal : ℕ → Option ℕ) (digest : Json → Text) where
  orders_self : (o : Operation) → resolve_orders isdigit decimal digest o o ≡ ok (o, duplicate)
  unfolding resolve_orders
  orders_self o =
      rw (num_refl o.logical_revision, text_eq_refl o.operation_id, text_eq_refl o.payload_hash)
        refl
    where
      num_refl : (n : ℕ) → (n == n) ≡ true
      num_refl n = ground arith

  progress_self : (o : Operation) → resolve_progress isdigit decimal digest o o ≡ ok (o, duplicate)
  unfolding resolve_progress component_relation
  progress_self o = elim (Bool-cases (is_merge o.body)) [
    | inl e ↦ rw (absorbs o o e (λ id h l. l)) refl
    | inr e ↦ rw e (orders_self o)
  ]

  resolve_self : (o : Operation) → resolve_operations isdigit decimal digest o o ≡ ok (o, duplicate)
  unfolding resolve_operations
  resolve_self o =
      rw (text_eq_refl o.key, same_kind_refl (kind_of o.body))
        (if_intro (λ m. m ≡ ok (o, duplicate)) (same_kind (kind_of o.body) progress) _ _
          (λ _. progress_self o) (λ _. orders_self o))

  -- the operation, resolved with `w`, leaves it as it is and is not published
  abbrev pub IsAnswered : Operation → Operation → Type 0
  IsAnswered w o =
      (s : Resolution) × (resolve_operations isdigit decimal digest w o ≡ ok (w, s))
      × (is_published s ≡ false)

  winner :
      (existing o w : Operation) (r : Resolution)
      → resolve_operations isdigit decimal digest existing o ≡ ok (w, r)
      → Winner existing o (w, r)
  winner existing o w r h =
      ensured (Winner existing o) (resolve_operations isdigit decimal digest existing o) h
        (resolve_operations-Winner isdigit decimal digest existing o)

  -- Two operations that are resolved without an error, in whatever way: the winner, resolved again
  -- with the second of them, stays as it is, and the resolution is one that is not published.
  pub resolve_again :
      (existing o w : Operation) (r : Resolution)
      → resolve_operations isdigit decimal digest existing o ≡ ok (w, r)
      → IsAnswered w o
  unfolding is_published
  resolve_again existing o w duplicate h = (
    duplicate,
    ap (λ x. resolve_operations isdigit decimal digest x o) (winner existing o w duplicate h) ∙ h,
    refl,
  )
  resolve_again existing o w superseded h = (
    superseded,
    ap (λ x. resolve_operations isdigit decimal digest x o) (winner existing o w superseded h) ∙ h,
    refl,
  )
  resolve_again existing o w incoming h = (
    duplicate,
    subst (λ x. resolve_operations isdigit decimal digest x o ≡ ok (x, duplicate))
        (sym (winner existing o w incoming h)) (resolve_self o),
    refl,
  )
  resolve_again existing o w merged h =
      (duplicate, (resolve_operations-merged isdigit decimal digest existing o w h).1, refl)
