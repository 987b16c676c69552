-- ===== src/Outbox/Absorb.antt =====
-- game_service/local_backend.py: an aggregate absorbs the two operations that it was made of.
use mathlib.Core.Path.{subst}
use classic_games.Prelude.{
  ℕ, ◌≡◌, refl, ap, ◌∙◌, Bool, true, ◌&&◌, not, Option, none, some, List, ltb, if◌then◌else◌,
  if_intro, arith,
}
use classic_games.Prelude.Results.{Result, ok, err, ◌>>=◌, >>=-ok, ok_inj}
use classic_games.Prelude.Texts.{Text, text_eq}
use classic_games.Prelude.Json.{Json}
use classic_games.Outbox.Operation.{
  Fault, Component, Arguments, Body, set_progress, merge_progress, Operation, progress, kind_of,
  same_kind, Resolution, duplicate, incoming, superseded, merged, max_revision, max_timestamp,
  sort_components, component_relation, precedes, same_order,
}
use classic_games.Outbox.Resolve.{
  from_shape, aggregate, merge_arguments, later_wins, merge_operations, resolve_methods,
  resolve_orders, resolve_progress, resolve_operations,
}

module _ (digest : Json → Text) where
  -- what an aggregate is
  pub record IsAggregate (key : Text) (args : Arguments) (revision : ℕ)
      (components : List Component) (w : Operation) : Type 0 where
    pub same_key : w.key ≡ key
    pub body : w.body ≡ merge_progress args
    pub revision_kept : w.logical_revision ≡ revision
    pub sorted : w.components ≡ sort_components components

  pub aggregate-IsAggregate :
      (key : Text) (args : Arguments) (rules : Text) (revision : ℕ) (components : List Component)
      (updated : ℕ) (w : Operation)
      → aggregate digest key args rules revision components updated ≡ ok w
      → IsAggregate key args revision components w
  unfolding aggregate
  aggregate-IsAggregate key args rules revision components updated w =
      if_intro (λ m. m ≡ ok w → IsAggregate key args revision components w)
        (ltb max_revision revision) _ _ (λ _ h. absurd (err_ne h))
        (λ _.
          if_intro (λ m. m ≡ ok w → IsAggregate key args revision components w)
            (ltb max_timestamp updated) _ _ (λ _ h. absurd (err_ne h))
            (λ _ h.
              let (_, _, e) = >>=-ok (from_shape _) _ h in
              subst (IsAggregate key args revision components) (ok_inj e)
                (record { same_key = refl; body = refl; revision_kept = refl; sorted = refl })))
    where
      err_ne : {f : Fault} {a : Operation} → ◌≡◌ {A = Result Fault Operation} (err f) (ok a) → ⊥
      err_ne d = cc

-- the winner of a resolution that is not a merge
abbrev NotMerged : Resolution → Type 0
NotMerged merged = ⊥
NotMerged _ = Unit

unmerged :
    (o w : Operation) (r : Resolution)
    → NotMerged r
    → ◌≡◌ {A = Result Fault (Operation × Resolution)} (ok (o, r)) (ok (w, merged))
    → ⊥
unmerged o w r h e = subst NotMerged (ap (λ p. p.1) (ok_inj e)) h

pub err_ne_ok : {A : Type 0} {f : Fault} {a : A} → ◌≡◌ {A = Result Fault A} (err f) (ok a) → ⊥
err_ne_ok d = cc

-- the arguments of a progress operation
abbrev pub arguments_of : Body → Option Arguments
arguments_of (set_progress a) = some a
arguments_of (merge_progress a) = some a
arguments_of _ = none

module _ (isdigit : ℕ → Bool) (decimal : ℕ → Option ℕ) (digest : Json → Text)
    (existing o w : Operation) where
  merged_operations :
      (old new : Arguments)
      → merge_operations isdigit decimal digest existing o old new ≡ ok (w, merged)
      → merge_arguments isdigit decimal digest existing o old new ≡ ok w
  unfolding merge_operations
  merged_operations old new h =
      let (v, e, k) = >>=-ok (merge_arguments isdigit decimal digest existing o old new) _ h in
      e ∙ ap (λ p. ok p.0) (ok_inj k)

  later_unmerged : later_wins isdigit decimal digest existing o ≡ ok (w, merged) → ⊥
  unfolding later_wins
  later_unmerged =
      if_intro (λ m. m ≡ ok (w, merged) → ⊥) (precedes o existing) (ok (existing, superseded))
        (ok (o, incoming)) (λ _ h. unmerged existing w superseded tt h)
        (λ _ h. unmerged o w incoming tt h)

  -- a merge joins two progress operations
  abbrev pub Merge : Body → Body → Type 0
  Merge b c =
      (kind_of b ≡ progress)
      × (kind_of c ≡ progress)
      × ((old : Arguments) × (new : Arguments) × (arguments_of b ≡ some old)
          × (arguments_of c ≡ some new)
          × (merge_arguments isdigit decimal digest existing o old new ≡ ok w))

  abbrev pub IsMerge : Type 0
  IsMerge = Merge existing.body o.body

  merged_methods :
      (b c : Body)
      → resolve_methods isdigit decimal digest existing o b c ≡ ok (w, merged)
      → Merge b c
  unfolding resolve_methods kind_of
  merged_methods (set_progress old) (merge_progress new) h =
      if_intro (λ m. m ≡ ok (w, merged) → Merge (set_progress old) (merge_progress new))
        (precedes o existing) (ok (existing, superseded))
        (merge_operations isdigit decimal digest existing o old new)
        (λ _ h. absurd (unmerged existing w superseded tt h))
        (λ _ h. (refl, refl, (old, new, refl, refl, merged_operations old new h))) h
  merged_methods (merge_progress old) (merge_progress new) h =
      (refl, refl, (old, new, refl, refl, merged_operations old new h))
  merged_methods b c h = absurd (later_unmerged h)

  merged_orders : resolve_orders isdigit decimal digest existing o ≡ ok (w, merged) → IsMerge
  unfolding resolve_orders
  merged_orders =
      if_intro (λ m. m ≡ ok (w, merged) → IsMerge) (same_order o existing) _ _
        (λ _.
          if_intro (λ m. m ≡ ok (w, merged) → IsMerge)
            (text_eq o.payload_hash existing.payload_hash) _ _
            (λ _ h. absurd (unmerged existing w duplicate tt h)) (λ _ h. absurd (err_ne_ok h)))
        (λ _. merged_methods existing.body o.body)

  merged_progress : resolve_progress isdigit decimal digest existing o ≡ ok (w, merged) → IsMerge
  unfolding resolve_progress
  merged_progress h =
      let (absorbed, _, k) = >>=-ok (component_relation existing o) _ h in
      if_intro (λ m. m ≡ ok (w, merged) → IsMerge) absorbed (ok (existing, duplicate))
        (component_relation o existing >>= decide)
        (λ _ h. absurd (unmerged existing w duplicate tt h))
        (λ _ h.
          let (absorbing, _, l) = >>=-ok (component_relation o existing) decide h in
          if_intro (λ m. m ≡ ok (w, merged) → IsMerge) absorbing (ok (o, incoming))
            (resolve_orders isdigit decimal digest existing o)
            (λ _ h. absurd (unmerged o w incoming tt h)) (λ _. merged_orders) l)
        k
    where
      decide : Bool → Result Fault (Operation × Resolution)
      decide absorbing =
          if absorbing then ok (o, incoming) else resolve_orders isdigit decimal digest existing o

  -- what a resolution that merged has joined
  pub merged_of :
      resolve_operations isdigit decimal digest existing o ≡ ok (w, merged)
      → (text_eq existing.key o.key ≡ true) × IsMerge
  unfolding resolve_operations
  merged_of =
      if_intro (λ m. m ≡ ok (w, merged) → (text_eq existing.key o.key ≡ true) × IsMerge)
        (not (text_eq existing.key o.key && same_kind (kind_of existing.body) (kind_of o.body))) _ _
        (λ _ h. absurd (err_ne_ok h))
        (λ e h. (
          ground (arith, e),
          if_intro (λ m. m ≡ ok (w, merged) → IsMerge) (same_kind (kind_of o.body) progress) _ _
              (λ _. merged_progress) (λ _. merged_orders) h,
        ))
