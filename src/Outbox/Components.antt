-- ===== src/Outbox/Components.antt =====
-- game_service/local_backend.py: the components of an aggregate hold those of its two parts.
use mathlib.Core.Path.{subst}
use classic_games.Prelude.{
  ◌≡◌, refl, sym, ap, ◌∙◌, true, false, Bool-cases, inl, inr, Option, none, some, List, [], ◌∷◌,
  if◌then◌else◌, if_intro, arith,
}
use classic_games.Prelude.Results.{Result, ok, err, >>=-ok, ok_inj}
use classic_games.Prelude.Texts.{Text, text_eq, text_eq_iff, text_eq_refl, text_ltb}
use classic_games.Outbox.Operation.{
  Fault, Component, hash_of, insert_component, sort_components, add_component, add_components,
  any_differs, all_within, differs,
}

-- no two entries have an ID in common
abbrev pub IsDict : List Component → Type 0
IsDict [] = Unit
IsDict (c ∷ cs) = (hash_of c.operation_id cs ≡ none) × IsDict cs

-- each hash of the one is that of the other
abbrev pub Within : List Component → List Component → Type 0
Within cs ds = (id h : Text) → hash_of id cs ≡ some h → hash_of id ds ≡ some h

id_eq : (s t : Text) → text_eq s t ≡ true → s ≡ t
id_eq s t = (text_eq_iff s t).0

both_ids : (a b c : Text) → text_eq a c ≡ true → text_eq b c ≡ true → text_eq b a ≡ true
both_ids a b c e d = (text_eq_iff b a).1 (id_eq b c d ∙ sym (id_eq a c e))

-- an ID that a list does not have
absent_tail :
    (id : Text) (d : Component) (ds : List Component)
    → hash_of id (d ∷ ds) ≡ none
    → (hash_of id ds ≡ none) × (text_eq d.operation_id id ≡ false)
unfolding hash_of
absent_tail id d ds h = (ground arith, ground arith)

hash_of-insert_component :
    (id : Text) (c : Component) (cs : List Component)
    → hash_of c.operation_id cs ≡ none
    → hash_of id (insert_component c cs) ≡ hash_of id (c ∷ cs)
unfolding hash_of insert_component
hash_of-insert_component id c [] h = refl
hash_of-insert_component id c (d ∷ ds) h =
    let (k, l) = absent_tail c.operation_id d ds h in
    ground (arith, hash_of-insert_component id c ds k, l, both_ids c.operation_id d.operation_id id)

insert_component-IsDict :
    (c : Component) (cs : List Component)
    → hash_of c.operation_id cs ≡ none
    → IsDict cs
    → IsDict (insert_component c cs)
unfolding insert_component hash_of
insert_component-IsDict c [] h s = (refl, tt)
insert_component-IsDict c (d ∷ ds) h (p, s) =
    let (k, l) = absent_tail c.operation_id d ds h in
    if_intro IsDict (text_ltb d.operation_id c.operation_id) _ _
      (λ _. (
        hash_of-insert_component d.operation_id c ds k
            ∙ rw p (ground (arith, l, id_sym c.operation_id d.operation_id)),
        insert_component-IsDict c ds k s,
      ))
      (λ _. (h, (p, s)))
  where
    id_sym : (a b : Text) → text_eq a b ≡ true → text_eq b a ≡ true
    id_sym a b e = (text_eq_iff b a).1 (sym (id_eq a b e))

hash_of-sort_components :
    (id : Text) (cs : List Component)
    → IsDict cs
    → (hash_of id (sort_components cs) ≡ hash_of id cs) × IsDict (sort_components cs)
unfolding sort_components hash_of
hash_of-sort_components id [] s = (refl, tt)
hash_of-sort_components id (c ∷ cs) (p, s) =
    let none_sorted : hash_of c.operation_id (sort_components cs) ≡ none =
      (hash_of-sort_components c.operation_id cs s).0 ∙ p in
    let (e, t) = hash_of-sort_components id cs s in
    (
      hash_of-insert_component id c (sort_components cs) none_sorted ∙ rw (hash_of, e) refl,
      insert_component-IsDict c (sort_components cs) none_sorted t,
    )

-- an aggregate sorts its components, and `_operation` sorts them again
pub sorted_twice :
    (id : Text) (cs : List Component)
    → IsDict cs
    → hash_of id (sort_components (sort_components cs)) ≡ hash_of id cs
sorted_twice id cs s =
    let (e, t) = hash_of-sort_components id cs s in
    (hash_of-sort_components id (sort_components cs) t).0 ∙ e

none_ne_some : {A : Type 0} {a : A} → none ≡ some a → ⊥
none_ne_some d = cc

-- what a dictionary is after more entries have joined it
unfoldable pub Joins : List Component → List Component → List Component → Type 0
Joins cs dict dict' = IsDict dict' × Within dict dict' × Within cs dict'

Joins-add_component :
    (c : Component) (o : Option Text) (dict dict' : List Component)
    → IsDict dict
    → hash_of c.operation_id dict ≡ o
    → add_component c o dict ≡ ok dict'
    → Joins (c ∷ []) dict dict'
unfolding add_component hash_of Joins
Joins-add_component c none dict dict' s e k =
    subst (Joins (c ∷ []) dict) (ok_inj k) ((e, s), (λ id h l. rw l refl), alone)
  where
    alone : Within (c ∷ []) (c ∷ dict)
    alone id h l = elim (Bool-cases (text_eq c.operation_id id)) [
      | inl t ↦ rw (sym (ap (λ i. hash_of i dict) (id_eq c.operation_id id t)) ∙ e, t) (rw t at l)
      | inr t ↦ absurd (none_ne_some (rw t at l))
    ]
Joins-add_component c (some v) dict dict' s e k = elim (Bool-cases (text_eq v c.payload_hash)) [
  | inl t ↦ subst (Joins (c ∷ []) dict) (ok_inj (rw t at k)) (s, (λ id h l. l), there t)
  | inr t ↦ absurd (err_ne (rw t at k))
]
  where
    there : text_eq v c.payload_hash ≡ true → Within (c ∷ []) dict
    there same id h l = elim (Bool-cases (text_eq c.operation_id id)) [
      | inl t ↦
          sym (ap (λ i. hash_of i dict) (id_eq c.operation_id id t))
          ∙ (e ∙ (ap some (id_eq v c.payload_hash same) ∙ rw t at l))
      | inr t ↦ absurd (none_ne_some (rw t at l))
    ]

    err_ne : {A : Type 0} {f : Fault} {a : A} → ◌≡◌ {A = Result Fault A} (err f) (ok a) → ⊥
    err_ne d = cc

pub Joins-add_components :
    (cs dict dict' : List Component)
    → IsDict dict
    → add_components cs dict ≡ ok dict'
    → Joins cs dict dict'
unfolding add_components Joins hash_of
Joins-add_components [] dict dict' s h =
    subst (Joins [] dict) (ok_inj h) (s, (λ id v l. l), λ id v l. absurd (none_ne_some l))
Joins-add_components (c ∷ cs) dict dict' s h =
    let (next, e, k) =
      >>=-ok (add_component c (hash_of c.operation_id dict) dict) (add_components cs) h in
    let (t, w, l) = Joins-add_component c (hash_of c.operation_id dict) dict next s refl e in
    let (u, x, m) = Joins-add_components cs next dict' t k in
    (u, (λ id v q. x id v (w id v q)), λ id v q. split next id v q x l m)
  where
    split :
        (next : List Component) (id v : Text)
        → hash_of id (c ∷ cs) ≡ some v
        → Within next dict'
        → Within (c ∷ []) next
        → Within cs dict'
        → hash_of id dict' ≡ some v
    split next id v q x l m = by_later (hash_of id cs) refl q
      where
        by_later :
            (o : Option Text)
            → hash_of id cs ≡ o
            → elim o [
              | some h ↦ some h
              | none ↦ if text_eq c.operation_id id then some c.payload_hash else none
            ]
              ≡ some v
            → hash_of id dict' ≡ some v
        by_later (some h) e q = m id v (e ∙ q)
        by_later none e q = x id v (l id v q)

-- a list that lies within a dictionary agrees with it, and is absorbed by it
differs-Within :
    (dict own : List Component) (id : Text)
    → Within own dict
    → differs (hash_of id dict) (hash_of id own) ≡ false
differs-Within dict own id w = by_hash (hash_of id own) refl
  where
    by_hash : (o : Option Text) → hash_of id own ≡ o → differs (hash_of id dict) o ≡ false
    by_hash none e = no_hash (hash_of id dict)
      where
        no_hash : (p : Option Text) → differs p none ≡ false
        no_hash none = refl
        no_hash (some h) = refl
    by_hash (some h) e = rw (w id h e, text_eq_refl h) refl

pub any_differs-Within :
    (dict own cs : List Component) → Within own dict → any_differs dict own cs ≡ false
unfolding any_differs
any_differs-Within dict own [] w = refl
any_differs-Within dict own (c ∷ cs) w =
    rw (differs-Within dict own c.operation_id w) (any_differs-Within dict own cs w)

pub all_within-Within : (dict cs : List Component) → Within cs dict → all_within dict cs ≡ true
unfolding all_within hash_of
all_within-Within dict [] w = refl
all_within-Within dict (c ∷ cs) w =
    let (h, e) = own_hash (hash_of c.operation_id cs) in
    rw (w c.operation_id h e) (all_within-Within dict cs (λ id v l. w id v (rw l refl)))
  where
    own_hash :
        (o : Option Text)
        → (h : Text) × (elim o [
          | some h ↦ some h
          | none ↦ if text_eq c.operation_id c.operation_id then some c.payload_hash else none
        ]
            ≡ some h)
    own_hash (some h) = (h, refl)
    own_hash none = (c.payload_hash, rw (text_eq_refl c.operation_id) refl)
