-- ===== src/Store/Attempts.antt =====
-- game_service/store.py: the rows of `attempts`, `save_requests` and `profiles`, and the queries on
-- them; game_service/mutation.py: `ScoreMutation`. Times are in milliseconds.
use classic_games.Prelude.{
  ℕ, suc, ◌+◌, max, Bool, true, false, ◌&&◌, ◌||◌, not, Option, none, some, List, [], ◌∷◌, ltb,
  ◌==◌, if◌then◌else◌,
}
use classic_games.Prelude.Texts.{Text, text_eq}
use classic_games.Catalog.{GameId, same_game}

pub data Status : Type 0 where
  completed practice : Status

abbrev pub same_status : Status → Status → Bool
same_status completed completed = true
same_status practice practice = true
same_status _ _ = false

-- the column extra_json: a canonical text, or NULL
abbrev pub same_extra : Option Text → Option Text → Bool
same_extra none none = true
same_extra (some a) (some b) = text_eq a b
same_extra _ _ = false

-- `semantic_payload`, what the hash of a mutation covers
pub record Payload : Type 0 where
  pub game_id : GameId
  pub player : Text
  pub score : ℕ
  pub extra_json : Option Text
  pub replace : Bool
  pub submission_id : Option ℕ
  pub attempt_uuid : Text
  pub revision : ℕ
  pub profile_id : Text
  pub mode : Text
  pub ruleset_version : Text
  pub status : Status

-- `ScoreMutation`
pub record Mutation : Type 0 where
  pub payload : Payload
  pub request_id : Text
  pub attempt_uuid_provided : Bool
  pub revision_provided : Bool

pub record Attempt : Type 0 where
  pub id : ℕ
  pub attempt_uuid : Text
  pub request_id : Text
  pub profile_id : Text
  pub game_id : GameId
  pub player : Text
  pub mode : Text
  pub ruleset_version : Text
  pub status : Status
  pub revision : ℕ
  pub score : ℕ
  pub extra_json : Option Text
  pub started_at : ℕ
  pub finished_at : ℕ
  pub score_achieved_at : ℕ
  pub created_at : ℕ
  pub updated_at : ℕ

pub record Response : Type 0 where
  pub id : ℕ
  pub attempt_uuid : Text
  pub revision : ℕ
  pub status : Status
  pub request_id : Text
  pub rank : Option ℕ
  pub score : ℕ
  pub new_personal_best : Bool
  pub personal_best : ℕ
  pub updated : Bool
  pub no_op : Bool
  pub stale_revision : Bool
  pub duplicate_request : Bool
  pub receipt_rebuilt : Bool
  pub clock_adjusted : Bool

-- a row of save_requests; `response` is what response_json reads back, and none where it is damaged
pub record Receipt : Type 0 where
  pub request_id : Text
  pub payload_hash : Text
  pub attempt_uuid : Text
  pub revision : ℕ
  pub response : Option Response
  pub created_at : ℕ
  pub expires_at : Option ℕ

pub record Profile : Type 0 where
  pub profile_id : Text
  pub display_name : Text
  pub created_at : ℕ
  pub last_used : ℕ

-- `next_id` is the counter of AUTOINCREMENT
pub record Database : Type 0 where
  pub attempts : List Attempt
  pub receipts : List Receipt
  pub profiles : List Profile
  pub next_id : ℕ

-- SELECT * … WHERE: the first row that the test takes
unfoldable pub select {ℓ} : {A : Type ℓ} → (A → Bool) → List A → Option A
select p [] = none
select p (a ∷ rows) = let later = select p rows in if p a then some a else later

-- DELETE … WHERE
unfoldable pub delete {ℓ} : {A : Type ℓ} → (A → Bool) → List A → List A
delete p [] = []
delete p (a ∷ rows) = let later = delete p rows in if p a then later else a ∷ later

abbrev pub by_uuid : Text → Attempt → Bool
by_uuid u a = text_eq a.attempt_uuid u

abbrev pub by_request : Text → Attempt → Bool
by_request r a = text_eq a.request_id r

abbrev pub by_id : ℕ → Attempt → Bool
by_id i a = a.id == i

abbrev pub receipt_of : Text → Receipt → Bool
receipt_of r a = text_eq a.request_id r

-- UPDATE attempts … WHERE id=?
unfoldable pub update_row : ℕ → (Attempt → Attempt) → List Attempt → List Attempt
update_row i f [] = []
update_row i f (a ∷ rows) = (if by_id i a then f a else a) ∷ update_row i f rows

unfoldable pub identity_matches : Attempt → Mutation → Bool
identity_matches a m =
    same_game a.game_id m.payload.game_id
    && text_eq a.profile_id m.payload.profile_id
    && text_eq a.mode m.payload.mode
    && text_eq a.ruleset_version m.payload.ruleset_version

-- the attempts of `_best_filter`
unfoldable pub in_ranking : Mutation → Attempt → Bool
in_ranking m a =
    same_game a.game_id m.payload.game_id
    && text_eq a.mode m.payload.mode
    && text_eq a.ruleset_version m.payload.ruleset_version
    && same_status a.status completed

-- MAX over NULL and a score
abbrev pub max_score : Option ℕ → ℕ → Option ℕ
max_score none n = some n
max_score (some m) n = some (max m n)

-- SELECT MAX(score) … WHERE profile_id=? AND …
unfoldable pub best_of : Text → Mutation → List Attempt → Option ℕ
best_of profile m [] = none
best_of profile m (a ∷ rows) =
    let rest = best_of profile m rows in
    if text_eq a.profile_id profile && in_ranking m a then max_score rest a.score else rest

unfoldable pub personal_best : List Attempt → Mutation → Option ℕ
personal_best rows m = best_of m.payload.profile_id m rows

-- the profiles of GROUP BY, each once
unfoldable pub has_profile : Text → List Text → Bool
has_profile p [] = false
has_profile p (q ∷ profiles) = text_eq q p || has_profile p profiles

unfoldable pub ranked_profiles : Mutation → List Attempt → List Text
ranked_profiles m [] = []
ranked_profiles m (a ∷ rows) =
    let rest = ranked_profiles m rows in
    if in_ranking m a && not (has_profile a.profile_id rest) then a.profile_id ∷ rest else rest

abbrev pub exceeds : ℕ → Option ℕ → Bool
exceeds n none = false
exceeds n (some best) = ltb n best

-- COUNT(*) … WHERE best > ?
unfoldable pub count_better : ℕ → Mutation → List Attempt → List Text → ℕ
count_better n m rows [] = 0
count_better n m rows (p ∷ profiles) =
    let rest = count_better n m rows profiles in
    if exceeds n (best_of p m rows) then suc rest else rest

unfoldable pub rank_for : List Attempt → Mutation → Option ℕ → Option ℕ
rank_for rows m none = none
rank_for rows m (some best) =
    if same_status m.payload.status completed
    then some (count_better best m rows (ranked_profiles m rows) + 1)
    else none
