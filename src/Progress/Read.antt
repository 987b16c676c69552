-- ===== src/Progress/Read.antt =====
-- A canonical value of progress, written as a dictionary, is read back by `validate_progress`.
use mathlib.Core.List.{append-nil, append_assoc}
use classic_games.Prelude.{
  ℕ, ◌+◌, ◌-◌, ◌/◌, ◌%◌, ◌≤◌, ◌<◌, ◌≡◌, refl, sym, ap, ◌∙◌, Bool, true, false, Bool-cases, inl, inr,
  ◌&&◌, Option, none, some, List, [], ◌∷◌, ◌++◌, ltb, if_intro, arith,
}
use classic_games.Prelude.Results.{Result, ok}
use classic_games.Prelude.Texts.{Text, text_eq, text_eq_iff, all_codes, is_digit}
use classic_games.Prelude.Json.{Json, Fields, end, field, get, has_text, keys_within}
use classic_games.Progress.Policy.{
  Fault, sokoban_levels, zuma_levels, max_score, bounded_int, Metric, assign, lookup, Progress,
  optional, int_of, level_key, metric_fields, level_metric, optional_field, level_text, number,
  metric_of, metric_json,
}
use classic_games.Progress.Canonical.{IsSorted, IsMetric, lookup-assign}

abbrev pub Opt : {A : Type 0} → (A → Type 0) → Option A → Type 0
Opt P none = Unit
Opt P (some a) = P a

-- a dictionary whose keys are all allowed has no other key
pub get-absent :
    (allowed : List Text) (k : Text) (v : Fields)
    → keys_within allowed v ≡ true
    → has_text allowed k ≡ false
    → get k v ≡ none
unfolding get keys_within
get-absent allowed k end h e = refl
get-absent allowed k (field j v rest) h e =
    if_intro (λ o. o ≡ none) (text_eq j k) _ _ (λ same. absurd (clash ((text_eq_iff j k).0 same) h))
      (λ _. get-absent allowed k rest (ground (arith, h)) e)
  where
    clash : j ≡ k → (has_text allowed j && keys_within allowed rest) ≡ true → ⊥
    clash same t = cc (rw (same, e) at t)

module _ {A : Type 0} (enc : A → Json) (j : Text) where
  pub get-optional_hit :
      (o : Option A) (rest : Fields) (check : Json → Result Fault A)
      → text_eq j j ≡ true
      → get j rest ≡ none
      → Opt (λ a. check (enc a) ≡ ok a) o
      → optional check (get j (optional_field enc j o rest)) ≡ ok o
  unfolding get
  get-optional_hit none rest check e n h = rw n
  get-optional_hit (some a) rest check e n h = rw (e, h)

  pub get-optional_miss :
      (k : Text) (o : Option A) (rest : Fields)
      → text_eq j k ≡ false
      → get k (optional_field enc j o rest) ≡ get k rest
  unfolding get
  get-optional_miss k none rest e = refl
  get-optional_miss k (some a) rest e = rw e

  pub keys_within-optional :
      (allowed : List Text) (o : Option A) (rest : Fields)
      → has_text allowed j ≡ true
      → keys_within allowed rest ≡ true
      → keys_within allowed (optional_field enc j o rest) ≡ true
  unfolding keys_within
  keys_within-optional allowed none rest e h = h
  keys_within-optional allowed (some a) rest e h = rw (e, h)

pub bounded_int_lem : (low high n : ℕ) → low ≤ n → n ≤ high → bounded_int low high (number n) ≡ ok n
unfolding bounded_int
bounded_int_lem low high n h k = ground arith

-- what is asked of the Unicode database: the ASCII digits are digits, with their values
pub record IsUnicode (isdigit : ℕ → Bool) (decimal : ℕ → Option ℕ) : Type 0 where
  pub digits : (c : ℕ) → is_digit c ≡ true → isdigit c ≡ true
  pub decimals : (c : ℕ) → is_digit c ≡ true → decimal c ≡ some (c - 48)

-- keys of the one metric that the other does not have
Absent : Metric → Metric → Type 0
Absent acc [] = Unit
Absent acc ((k, n) ∷ m) = (lookup k acc ≡ none) × Absent acc m

Absent-assign :
    (k n : ℕ) (acc m : Metric) → lookup k m ≡ none → Absent acc m → Absent (assign k n acc) m
unfolding Absent lookup
Absent-assign k n acc [] h a = tt
Absent-assign k n acc ((j, v) ∷ m) h (p, a) =
    (ground (arith, lookup-assign k n j acc, h, p), Absent-assign k n acc m (ground (arith, h)) a)

assign-absent : (k n : ℕ) (acc : Metric) → lookup k acc ≡ none → assign k n acc ≡ acc ++ (k, n) ∷ []
unfolding assign lookup
assign-absent k n [] h = refl
assign-absent k n ((j, v) ∷ acc) h = ground (arith, assign-absent k n acc)

-- a canonical value of sokoban, for the campaign or for practice
pub record IsSokoban (campaign : Bool) (p : Progress) : Type 0 where
  pub unlocked : Opt (λ n. (1 ≤ n) × (n ≤ sokoban_levels)) p.unlocked_level
  pub completed : Opt (IsSorted sokoban_levels) p.completed_levels
  pub scores : Opt (IsMetric sokoban_levels) p.level_scores
  pub moves : Opt (IsMetric sokoban_levels) p.best_moves
  pub pushes : Opt (IsMetric sokoban_levels) p.best_pushes
  pub no_highest : p.highest_score ≡ none
  pub no_all : p.completed_all ≡ none
  pub practice_locked : campaign ≡ false → p.unlocked_level ≡ none

-- a canonical value of zuma
pub record IsZuma (p : Progress) : Type 0 where
  pub unlocked : Opt (λ n. (1 ≤ n) × (n ≤ zuma_levels)) p.unlocked_level
  pub highest : Opt (λ n. n ≤ max_score) p.highest_score
  pub no_completed : p.completed_levels ≡ none
  pub no_scores : p.level_scores ≡ none
  pub no_moves : p.best_moves ≡ none
  pub no_pushes : p.best_pushes ≡ none

module _ (isdigit : ℕ → Bool) (decimal : ℕ → Option ℕ) (u : IsUnicode isdigit decimal) where
  level_key_lem :
      (n : ℕ) → n < sokoban_levels → level_key isdigit decimal sokoban_levels (level_text n) ≡ ok n
  unfolding level_key level_text int_of all_codes
  level_key_lem n h = elim (Bool-cases (ltb n 10)) [
    | inl e ↦
        let d : is_digit (48 + n) ≡ true = ground (arith, e) in
        rw (e, u.digits (48 + n) d, u.decimals (48 + n) d) (ground (arith, h))
    | inr e ↦
        let c : is_digit (48 + n / 10) ≡ true = ground (arith, h) in
        let d : is_digit (48 + n % 10) ≡ true = ground (arith, h) in
        rw
          (
            e,
            u.digits (48 + n / 10) c,
            u.digits (48 + n % 10) d,
            u.decimals (48 + n / 10) c,
            u.decimals (48 + n % 10) d,
          )
          (ground (arith, h))
  ]

  metric_fields_lem :
      (m acc : Metric)
      → IsMetric sokoban_levels m
      → Absent acc m
      → metric_fields isdigit decimal sokoban_levels acc (metric_of m) ≡ ok (acc ++ m)
  unfolding metric_fields metric_of Absent
  metric_fields_lem [] acc s a = ap ok (sym (append-nil acc))
  metric_fields_lem ((k, n) ∷ m) acc (p, q, r, s) (x, a) =
      rw (level_key_lem k p, bounded_int_lem 0 max_score n (omega arith) q)
        (metric_fields_lem m (assign k n acc) s (Absent-assign k n acc m r a)
          ∙ ap ok (ap (λ l. l ++ m) (assign-absent k n acc x) ∙ append_assoc acc ((k, n) ∷ []) m))

  Absent-nil : (m : Metric) → Absent [] m
  unfolding Absent lookup
  Absent-nil [] = tt
  Absent-nil ((k, n) ∷ m) = (refl, Absent-nil m)

  pub level_metric_lem :
      (m : Metric)
      → IsMetric sokoban_levels m
      → level_metric isdigit decimal sokoban_levels (metric_json m) ≡ ok m
  unfolding level_metric
  level_metric_lem m s = metric_fields_lem m [] s (Absent-nil m)
