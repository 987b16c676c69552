-- ===== src/Outbox/Order.antt =====
-- game_service/local_backend.py: the order of operations, by revision and then by ID.
use classic_games.Prelude.{◌≡◌, refl, true, false, [], ◌∷◌, arith}
use classic_games.Prelude.Texts.{Text, text_eq_iff, text_ltb}
use classic_games.Outbox.Operation.{Operation, precedes, same_order}

text_ltb_irrefl : (s : Text) → text_ltb s s ≡ false
unfolding text_ltb
text_ltb_irrefl [] = refl
text_ltb_irrefl (a ∷ s) = ground (arith, text_ltb_irrefl s)

text_ltb-asym : (s t : Text) → text_ltb s t ≡ true → text_ltb t s ≡ false
unfolding text_ltb
text_ltb-asym [] [] h = refl
text_ltb-asym [] (b ∷ t) h = refl
text_ltb-asym (a ∷ s) [] h = ground arith
text_ltb-asym (a ∷ s) (b ∷ t) h = ground (arith, text_ltb-asym s t)

-- what is no less than a text that is no less than a third is no less than that
text_ltb-later : (r s t : Text) → text_ltb r s ≡ false → text_ltb s t ≡ false → text_ltb r t ≡ false
unfolding text_ltb
text_ltb-later r s [] h k = refl
text_ltb-later r [] (c ∷ t) h k = ground arith
text_ltb-later [] (b ∷ s) (c ∷ t) h k = ground arith
text_ltb-later (a ∷ r) (b ∷ s) (c ∷ t) h k = ground (arith, text_ltb-later r s t)

pub precedes_irrefl : (o : Operation) → precedes o o ≡ false
precedes_irrefl o = ground (arith, text_ltb_irrefl o.operation_id)

pub precedes-asym : (o p : Operation) → precedes o p ≡ true → precedes p o ≡ false
precedes-asym o p h = ground (arith, h, text_ltb-asym o.operation_id p.operation_id)

pub precedes-later :
    (o p q : Operation) → precedes o p ≡ false → precedes p q ≡ false → precedes o q ≡ false
precedes-later o p q h k =
    ground (arith, h, k, text_ltb-later o.operation_id p.operation_id q.operation_id)

pub same_order-eq :
    (o p : Operation)
    → same_order o p ≡ true
    → (o.logical_revision ≡ p.logical_revision) × (o.operation_id ≡ p.operation_id)
same_order-eq o p h =
    (ground (arith, h), (text_eq_iff o.operation_id p.operation_id).0 (ground (arith, h)))

pub same_order-precedes : (o p : Operation) → same_order o p ≡ true → precedes p o ≡ false
same_order-precedes o p h = let (r, i) = same_order-eq o p h in rw (r, i) (precedes_irrefl p)
