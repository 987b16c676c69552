-- ===== src/Store/Rows.antt =====
-- Tables of attempts: unique keys, and rows that are kept by a later table.
use mathlib.Core.Path.{subst}
use classic_games.Prelude.{
  ℕ, suc, ◌≤◌, ◌<◌, ◌≡◌, ◌⊎◌, inl, inr, refl, sym, ap, ◌∙◌, Bool, true, false, none, some,
  Bool-cases, List, [], ◌∷◌, ==_iff, if_intro, All, arith,
}
use classic_games.Prelude.Texts.{Text, text_eq, text_eq_iff}
use classic_games.Store.Attempts.{Attempt, Database, select, by_uuid, by_request, by_id, update_row}

abbrev pub In : Attempt → List Attempt → Type 0
In a [] = ⊥
In a (b ∷ rows) = (b ≡ a) ⊎ In a rows

-- no key in common
abbrev pub Apart : Attempt → Attempt → Type 0
Apart a b =
    (a.id ≡ b.id → ⊥) × (a.attempt_uuid ≡ b.attempt_uuid → ⊥) × (a.request_id ≡ b.request_id → ⊥)

abbrev pub IsUnique : List Attempt → Type 0
IsUnique [] = Unit
IsUnique (a ∷ rows) = All (Apart a) rows × IsUnique rows

-- the three UNIQUE columns, and the counter of the ids
abbrev pub IsLedger : Database → Type 0
IsLedger db = IsUnique db.attempts × All (λ a. a.id < db.next_id) db.attempts

-- the same attempt, no lower in score or revision
pub record Later (a b : Attempt) : Type 0 where
  pub same_id : b.id ≡ a.id
  pub same_uuid : b.attempt_uuid ≡ a.attempt_uuid
  pub same_request_id : b.request_id ≡ a.request_id
  pub same_profile : b.profile_id ≡ a.profile_id
  pub same_game_id : b.game_id ≡ a.game_id
  pub same_mode : b.mode ≡ a.mode
  pub same_ruleset : b.ruleset_version ≡ a.ruleset_version
  pub same_status_of : b.status ≡ a.status
  pub score_le : a.score ≤ b.score
  pub revision_le : a.revision ≤ b.revision

abbrev pub Kept : List Attempt → Attempt → Type 0
Kept rows a = (b : Attempt) × In b rows × Later a b

-- every attempt of the first list is kept in the second
abbrev pub Extends : List Attempt → List Attempt → Type 0
Extends rows later = All (Kept later) rows

pub All-map {ℓ κ μ} :
    {A : Type ℓ} (P : A → Type κ) (Q : A → Type μ) (xs : List A)
    → ((x : A) → P x → Q x)
    → All P xs
    → All Q xs
All-map P Q [] f h = tt
All-map P Q (x ∷ xs) f (p, h) = (f x p, All-map P Q xs f h)

pub All-In :
    (P : Attempt → Type 0) (rows : List Attempt) (a : Attempt) → All P rows → In a rows → P a
All-In P [] a h i = absurd i
All-In P (b ∷ rows) a (p, h) (inl e) = subst P e p
All-In P (b ∷ rows) a (p, h) (inr i) = All-In P rows a h i

pub All-of_In :
    (P : Attempt → Type 0) (rows : List Attempt) → ((a : Attempt) → In a rows → P a) → All P rows
All-of_In P [] f = tt
All-of_In P (b ∷ rows) f = (f b (inl refl), All-of_In P rows (λ a i. f a (inr i)))

pub select-In :
    (p : Attempt → Bool) (rows : List Attempt) (a : Attempt)
    → select p rows ≡ some a
    → In a rows × (p a ≡ true)
unfolding select
select-In p [] a e = cc
select-In p (b ∷ rows) a e = elim (Bool-cases (p b)) [
  | inl h ↦ let same : some b ≡ some a = rw h at e in (inl (cc), rw (← (some_inj same)) h)
  | inr h ↦ let (i, t) = select-In p rows a (rw h at e) in (inr i, t)
]
  where
    some_inj : {b a : Attempt} → some b ≡ some a → b ≡ a
    some_inj e = cc

pub select-none :
    (p : Attempt → Bool) (rows : List Attempt) → select p rows ≡ none → All (λ a. p a ≡ false) rows
unfolding select
select-none p [] e = tt
select-none p (b ∷ rows) e = elim (Bool-cases (p b)) [
  | inl h ↦ absurd (some_ne (rw h at e))
  | inr h ↦ (h, select-none p rows (rw h at e))
]
  where
    some_ne : {b : Attempt} → some b ≡ none → ⊥
    some_ne e = cc

pub Later-refl : (a : Attempt) → Later a a
Later-refl a = ground arith

pub Later-trans : {a b c : Attempt} → Later a b → Later b c → Later a c
Later-trans p q = ground arith

pub Extends-refl : (rows : List Attempt) → Extends rows rows
Extends-refl rows = All-of_In (Kept rows) rows (λ a i. (a, i, Later-refl a))

pub Extends-trans : (xs ys zs : List Attempt) → Extends xs ys → Extends ys zs → Extends xs zs
Extends-trans xs ys zs h k =
    All-map (Kept ys) (Kept zs) xs
      (λ a p.
        let (b, i, l) = p in let (c, j, m) = All-In (Kept zs) ys b k i in (c, j, Later-trans l m))
      h

-- UPDATE keeps each row that its function keeps
update_row-Extends :
    (i : ℕ) (f : Attempt → Attempt) (rows : List Attempt)
    → All (λ c. c.id ≡ i → Later c (f c)) rows
    → Extends rows (update_row i f rows)
unfolding update_row
update_row-Extends i f [] h = tt
update_row-Extends i f (c ∷ rows) (p, h) = (
  elim (Bool-cases (by_id i c)) [
    | inl e ↦ (f c, inl (rw e), p ((==_iff c.id i).0 e))
    | inr e ↦ (c, inl (rw e), Later-refl c)
  ],
  All-map (Kept (update_row i f rows)) (Kept (update_row i f (c ∷ rows))) rows
      (λ a k. (k.0, inr k.1, k.2)) (update_row-Extends i f rows h),
)

-- a function on rows that leaves the keys alone
abbrev pub SameKeys : (Attempt → Attempt) → Type 0
SameKeys f =
    (a : Attempt)
    → ((f a).id ≡ a.id) × ((f a).attempt_uuid ≡ a.attempt_uuid) × ((f a).request_id ≡ a.request_id)

module _ (i : ℕ) (f : Attempt → Attempt) (keys : SameKeys f) where
  update-Apart :
      (b : Attempt) (rows : List Attempt) → All (Apart b) rows → All (Apart b) (update_row i f rows)
  unfolding update_row
  update-Apart b [] h = tt
  update-Apart b (c ∷ rows) (p, h) = (
    if_intro (Apart b) (by_id i c) (f c) c
        (λ _. (λ e. p.0 (e ∙ (keys c).0), λ e. p.1 (e ∙ (keys c).1), λ e. p.2 (e ∙ (keys c).2)))
        (λ _. p),
    update-Apart b rows h,
  )

  Apart-updated : (b c : Attempt) → Apart b c → Apart (f b) c
  Apart-updated b c p =
      (λ e. p.0 (sym (keys b).0 ∙ e), λ e. p.1 (sym (keys b).1 ∙ e), λ e. p.2 (sym (keys b).2 ∙ e))

  pub update_row-IsUnique : (rows : List Attempt) → IsUnique rows → IsUnique (update_row i f rows)
  unfolding update_row
  update_row-IsUnique [] h = tt
  update_row-IsUnique (b ∷ rows) (p, h) = (
    if_intro (λ c. All (Apart c) (update_row i f rows)) (by_id i b) (f b) b
        (λ _.
          All-map (Apart b) (Apart (f b)) (update_row i f rows) (Apart-updated b)
            (update-Apart b rows p))
        (λ _. update-Apart b rows p),
    update_row-IsUnique rows h,
  )

  pub update_row_below :
      (n : ℕ) (rows : List Attempt)
      → All (λ a. a.id < n) rows
      → All (λ a. a.id < n) (update_row i f rows)
  unfolding update_row
  update_row_below n [] h = tt
  update_row_below n (b ∷ rows) (p, h) = (
    if_intro (λ c. c.id < n) (by_id i b) (f b) b (λ _. omega (arith, (keys b).0)) (λ _. p),
    update_row_below n rows h,
  )

-- among unique rows the id of a row is that of no other
id_unique :
    (rows : List Attempt) (a c : Attempt)
    → IsUnique rows
    → In a rows
    → In c rows
    → c.id ≡ a.id
    → a ≡ c
id_unique [] a c u i j e = absurd i
id_unique (b ∷ rows) a c u (inl p) (inl q) e = sym p ∙ q
id_unique (b ∷ rows) a c u (inl p) (inr q) e =
    absurd ((All-In (Apart b) rows c u.0 q).0 (ap (λ (x : Attempt). x.id) p ∙ sym e))
id_unique (b ∷ rows) a c u (inr p) (inl q) e =
    absurd ((All-In (Apart b) rows a u.0 p).0 (ap (λ (x : Attempt). x.id) q ∙ e))
id_unique (b ∷ rows) a c u (inr p) (inr q) e = id_unique rows a c u.1 p q e

-- an update of one row that is kept
pub update_row-kept :
    (f : Attempt → Attempt) (rows : List Attempt) (a : Attempt)
    → IsUnique rows
    → In a rows
    → Later a (f a)
    → Extends rows (update_row a.id f rows)
update_row-kept f rows a u i l = update_row-Extends a.id f rows (
    All-of_In (λ c. c.id ≡ a.id → Later c (f c)) rows
      (λ c j e. subst (λ x. Later x (f x)) (id_unique rows a c u i j e) l))

-- a row with new keys
pub insert-IsLedger :
    (a : Attempt) (rows : List Attempt) (next : ℕ)
    → a.id ≡ next
    → select (by_uuid a.attempt_uuid) rows ≡ none
    → select (by_request a.request_id) rows ≡ none
    → IsUnique rows
    → All (λ c. c.id < next) rows
    → IsUnique (a ∷ rows) × All (λ c. c.id < suc next) (a ∷ rows)
insert-IsLedger a rows next e no_uuid no_request u b = (
  (
    All-of_In (Apart a) rows (λ c i. (
      λ h. absurd (omega (arith, e, h, All-In (λ d. d.id < next) rows c b i)),
      λ h. taken _ _ (sym h) (
          All-In (λ d. by_uuid a.attempt_uuid d ≡ false) rows c
            (select-none (by_uuid a.attempt_uuid) rows no_uuid) i),
      λ h. taken _ _ (sym h) (
          All-In (λ d. by_request a.request_id d ≡ false) rows c
            (select-none (by_request a.request_id) rows no_request) i),
    )),
    u,
  ),
  (
    omega (arith, e),
    All-map (λ c. c.id < next) (λ c. c.id < suc next) rows (λ c h. omega (arith, h)) b,
  ),
)
  where
    taken : (s t : Text) → s ≡ t → text_eq s t ≡ false → ⊥
    taken s t e h = true_ne (sym ((text_eq_iff s t).1 e) ∙ h)
      where
        true_ne : true ≡ false → ⊥
        true_ne e = cc

pub insert-Extends : (a : Attempt) (rows : List Attempt) → Extends rows (a ∷ rows)
insert-Extends a rows = All-of_In (Kept (a ∷ rows)) rows (λ c i. (c, inr i, Later-refl c))
