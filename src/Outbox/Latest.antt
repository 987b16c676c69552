-- ===== src/Outbox/Latest.antt =====
-- game_service/local_backend.py: of the profiles, settings and slots of one key the latest wins.
use mathlib.Core.Path.{subst}
use classic_games.Prelude.{
  ℕ, ◌≡◌, refl, sym, ap, ◌∙◌, ◌⊎◌, Bool, true, false, inl, inr, Option, List, [], ◌∷◌, All,
  if_intro,
}
use classic_games.Prelude.Results.{Result, ok, ◌>>=◌}
use classic_games.Prelude.Texts.{Text, text_eq, text_eq_iff}
use classic_games.Prelude.Json.{Json}
use classic_games.Outbox.Operation.{
  Body, ensure_profile, set_setting, save_slot, set_progress, merge_progress, Operation, Kind,
  profile, setting, progress, slot, kind_of, same_kind, Resolution, duplicate, incoming, superseded,
  merged, precedes, same_order,
}
use classic_games.Outbox.Operation
use classic_games.Outbox.Resolve.{later_wins, resolve_methods, resolve_orders, resolve_operations}
use classic_games.Outbox.Order.{
  precedes_irrefl, precedes-asym, precedes-later, same_order-eq, same_order-precedes,
}

-- operations of one key and kind, where revision and ID determine the hash
pub record IsAlike (key : Text) (kind : Kind) (hash : ℕ → Text → Text) (o : Operation)
    : Type 0 where
  pub key_is : o.key ≡ key
  pub kind_is : kind_of o.body ≡ kind
  pub hash_is : o.payload_hash ≡ hash o.logical_revision o.operation_id

abbrev pub In : Operation → List Operation → Type 0
In o [] = ⊥
In o (p ∷ ps) = (o ≡ p) ⊎ In o ps

same_kind_self : (k : Kind) → same_kind k k ≡ true
same_kind_self profile = refl
same_kind_self setting = refl
same_kind_self progress = refl
same_kind_self slot = refl

module _ (isdigit : ℕ → Bool) (decimal : ℕ → Option ℕ) (digest : Json → Text) where
  -- the journal after the operations have been resolved one after the other
  unfoldable pub deliver : Operation → List Operation → Result Operation.Fault Operation
  deliver existing [] = ok existing
  deliver existing (o ∷ os) =
      resolve_operations isdigit decimal digest existing o >>= λ r. deliver r.0 os

  methods_later :
      (existing o : Operation) (b c : Body)
      → same_kind (kind_of b) progress ≡ false
      → resolve_methods isdigit decimal digest existing o b c
        ≡ later_wins isdigit decimal digest existing o
  unfolding resolve_methods kind_of
  methods_later existing o (set_progress a) c h = cc
  methods_later existing o (merge_progress a) c h = cc
  methods_later existing o (ensure_profile a) c h = refl
  methods_later existing o (set_setting a) c h = refl
  methods_later existing o (save_slot a) c h = refl

  module _ (key : Text) (kind : Kind) (hash : ℕ → Text → Text)
      (other : same_kind kind progress ≡ false) where
    abbrev Alike : Operation → Type 0
    Alike = IsAlike key kind hash

    abbrev IsLater :
        Operation → Operation → Result Operation.Fault (Operation × Resolution) → Type 0
    IsLater existing o m =
        (w : Operation) × (r : Resolution) × (m ≡ ok (w, r))
        × ((w ≡ existing) ⊎ (w ≡ o))
        × (precedes w existing ≡ false)
        × (precedes w o ≡ false)

    same_hash :
        (existing o : Operation)
        → Alike existing
        → Alike o
        → same_order o existing ≡ true
        → text_eq o.payload_hash existing.payload_hash ≡ true
    same_hash existing o a b e =
        let (r, i) = same_order-eq o existing e in
        (text_eq_iff o.payload_hash existing.payload_hash).1 (
          b.hash_is
          ∙ ((ap (λ n. hash n o.operation_id) r ∙ ap (hash existing.logical_revision) i)
              ∙ sym a.hash_is))

    same_key :
        (existing o : Operation) → Alike existing → Alike o → text_eq existing.key o.key ≡ true
    same_key existing o a b = (text_eq_iff existing.key o.key).1 (a.key_is ∙ sym b.key_is)

    same_kinds :
        (existing o : Operation)
        → Alike existing
        → Alike o
        → same_kind (kind_of existing.body) (kind_of o.body) ≡ true
    same_kinds existing o a b = rw (a.kind_is, b.kind_is) (same_kind_self kind)

    not_progress : (o : Operation) → Alike o → same_kind (kind_of o.body) progress ≡ false
    not_progress o a = rw a.kind_is other

    orders-IsLater :
        (existing o : Operation)
        → Alike existing
        → Alike o
        → IsLater existing o (resolve_orders isdigit decimal digest existing o)
    unfolding resolve_orders later_wins
    orders-IsLater existing o a b =
        if_intro (IsLater existing o) (same_order o existing) _ _
          (λ e. rw (same_hash existing o a b e) (
            existing,
            duplicate,
            refl,
            inl refl,
            precedes_irrefl existing,
            same_order-precedes o existing e,
          ))
          (λ _. rw (methods_later existing o existing.body o.body (not_progress existing a)) (
            if_intro (IsLater existing o) (precedes o existing) _ _
              (λ e. (
                existing,
                superseded,
                refl,
                inl refl,
                precedes_irrefl existing,
                precedes-asym o existing e,
              ))
              (λ e. (o, incoming, refl, inr refl, e, precedes_irrefl o))))

    step-IsLater :
        (existing o : Operation)
        → Alike existing
        → Alike o
        → IsLater existing o (resolve_operations isdigit decimal digest existing o)
    unfolding resolve_operations
    step-IsLater existing o a b =
        rw (same_key existing o a b, same_kinds existing o a b, not_progress o b)
          (orders-IsLater existing o a b)

    either :
        (existing o w : Operation) → Alike existing → Alike o → (w ≡ existing) ⊎ (w ≡ o) → Alike w
    either existing o w a b (inl e) = subst Alike (sym e) a
    either existing o w a b (inr e) = subst Alike (sym e) b

    member :
        (existing o w v : Operation) (os : List Operation)
        → (w ≡ existing) ⊎ (w ≡ o)
        → In v (w ∷ os)
        → In v (existing ∷ o ∷ os)
    member existing o w v os (inl e) (inl f) = inl (f ∙ e)
    member existing o w v os (inr e) (inl f) = inr (inl (f ∙ e))
    member existing o w v os e (inr f) = inr (inr f)

    -- Profiles, settings or slots of one key, in which a revision and an ID determine the hash, are
    -- resolved one after the other, in any order: none is refused, and the journal holds one of them
    -- that no other one follows in the order of revision and ID.
    pub deliver-latest :
        (existing : Operation) (os : List Operation)
        → IsAlike key kind hash existing
        → All (IsAlike key kind hash) os
        → (w : Operation) × (deliver existing os ≡ ok w)
          × In w (existing ∷ os)
          × All (λ o. precedes w o ≡ false) (existing ∷ os)
    unfolding deliver
    deliver-latest existing [] a _ = (existing, refl, inl refl, (precedes_irrefl existing, tt))
    deliver-latest existing (o ∷ os) a (b, c) =
        let (w, r, e, from, h, k) = step-IsLater existing o a b in
        let (v, f, m, (g, l)) = deliver-latest w os (either existing o w a b from) c in
        (
          v,
          rw e f,
          member existing o w v os from m,
          (precedes-later v w existing g h, (precedes-later v w o g k, l)),
        )
