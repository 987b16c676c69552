-- ===== src/Outbox/Dominance.antt =====
-- game_service/local_backend.py: an operation that was merged is a duplicate when it comes again.
use classic_games.Prelude.{
  ℕ, ◌≡◌, refl, sym, ◌∙◌, max, Bool, true, not, Option, some, List, [], if_intro, arith,
}
use classic_games.Prelude.Results.{ok, >>=-ok}
use classic_games.Prelude.Texts.{Text, text_eq, text_eq_iff, text_eq_refl}
use classic_games.Prelude.Json.{Json}
use classic_games.Outbox.Values.{merge_values}
use classic_games.Outbox.Operation.{
  Component, Arguments, Operation, progress, kind_of, duplicate, merged, hash_of, sort_components,
  add_components, progress_components, component_relation, is_merge,
}
use classic_games.Outbox.Resolve.{
  from_value, same_row, merge_arguments, resolve_progress, resolve_operations,
}
use classic_games.Outbox.Components.{
  IsDict, Within, sorted_twice, Joins, Joins-add_components, any_differs-Within, all_within-Within,
}
use classic_games.Outbox.Absorb.{IsAggregate, aggregate-IsAggregate, err_ne_ok, merged_of}

-- what a merge of two operations consists of
module _ (isdigit : ℕ → Bool) (decimal : ℕ → Option ℕ) (digest : Json → Text)
    (existing o : Operation) where
  pub record IsJoined (old new : Arguments) (w : Operation) : Type 0 where
    pub rows : same_row old new ≡ true
    pub value : Json
    pub value_read :
        from_value (merge_values isdigit decimal new.game_id new.item old.value new.value)
        ≡ ok value
    pub all : List Component
    pub all_distinct : IsDict all
    pub has_existing : Within (progress_components existing) all
    pub has_incoming : Within (progress_components o) all
    pub result :
        IsAggregate digest o.key
          (record new { value = value })
          (max existing.logical_revision o.logical_revision)
          (sort_components all)
          w

  pub joined :
      (old new : Arguments) (w : Operation)
      → merge_arguments isdigit decimal digest existing o old new ≡ ok w
      → IsJoined old new w
  unfolding merge_arguments Joins
  joined old new w =
      if_intro (λ m. m ≡ ok w → IsJoined old new w) (not (same_row old new)) _ _
        (λ _ h. absurd (err_ne_ok h))
        (λ e.
          if_intro (λ m. m ≡ ok w → IsJoined old new w)
            (not (text_eq existing.ruleset_version o.ruleset_version)) _ _
            (λ _ h. absurd (err_ne_ok h))
            (λ _ h.
              let (value, v, h1) =
                >>=-ok
                  (from_value
                    (merge_values isdigit decimal new.game_id new.item old.value new.value))
                  _ h in
              let (first, f, h2) = >>=-ok (add_components (progress_components existing) []) _ h1 in
              let (all, a, h3) = >>=-ok (add_components (progress_components o) first) _ h2 in
              let (d, _, p) = Joins-add_components (progress_components existing) [] first tt f in
              let (c, x, q) = Joins-add_components (progress_components o) first all d a in
              record {
                rows = ground (arith, e);
                value = value;
                value_read = v;
                all = all;
                all_distinct = c;
                has_existing = λ id k l. x id k (p id k l);
                has_incoming = q;
                result = aggregate-IsAggregate digest o.key _ _ _ _ _ w h3;
              }))

pub absorbs :
    (w x : Operation)
    → is_merge w.body ≡ true
    → Within (progress_components x) (progress_components w)
    → component_relation w x ≡ ok true
unfolding component_relation
absorbs w x e h =
    rw
      (
        e,
        any_differs-Within (progress_components w) (progress_components x) (progress_components x)
            h,
        all_within-Within (progress_components w) (progress_components x) h,
      )
      refl

module _ (isdigit : ℕ → Bool) (decimal : ℕ → Option ℕ) (digest : Json → Text) where
  duplicate_of :
      (w x : Operation)
      → text_eq w.key x.key ≡ true
      → kind_of w.body ≡ progress
      → kind_of x.body ≡ progress
      → component_relation w x ≡ ok true
      → resolve_operations isdigit decimal digest w x ≡ ok (w, duplicate)
  unfolding resolve_operations resolve_progress
  duplicate_of w x k a b r = rw (k, a, b, r) refl

  aggregate_absorbs :
      (existing o w x : Operation) (old new : Arguments)
      → (j : IsJoined isdigit decimal digest existing o old new w) → text_eq o.key x.key ≡ true
      → kind_of x.body ≡ progress
      → Within (progress_components x) j.all
      → resolve_operations isdigit decimal digest w x ≡ ok (w, duplicate)
  unfolding kind_of progress_components
  aggregate_absorbs existing o w x old new j k b h =
      duplicate_of w x (rw j.result.same_key k) (rw j.result.body refl) b
        (absorbs w x (rw j.result.body refl) (λ id v l. components_in id v (h id v l)))
    where
      components_in :
          (id v : Text) → hash_of id j.all ≡ some v → hash_of id (progress_components w) ≡ some v
      components_in id v l =
          rw (j.result.body, j.result.sorted) (sorted_twice id j.all j.all_distinct ∙ l)

  -- Two journals that are resolved by a merge: the aggregate, resolved again with either of the two,
  -- stays as it is, and that operation is a duplicate.
  pub resolve_operations-merged :
      (existing o w : Operation)
      → resolve_operations isdigit decimal digest existing o ≡ ok (w, merged)
      → (resolve_operations isdigit decimal digest w existing ≡ ok (w, duplicate))
        × (resolve_operations isdigit decimal digest w o ≡ ok (w, duplicate))
  resolve_operations-merged existing o w h =
      let (k, (ke, ko, (old, new, _, _, m))) = merged_of isdigit decimal digest existing o w h in
      let j = joined isdigit decimal digest existing o old new w m in
      (
        aggregate_absorbs existing o w existing old new j (id_sym existing.key o.key k) ke
            j.has_existing,
        aggregate_absorbs existing o w o old new j (text_eq_refl o.key) ko j.has_incoming,
      )
    where
      id_sym : (a b : Text) → text_eq a b ≡ true → text_eq b a ≡ true
      id_sym a b e = (text_eq_iff b a).1 (sym ((text_eq_iff a b).0 e))
