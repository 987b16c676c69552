-- ===== src/Mutation/Normalize.antt =====
-- game_service/mutation.py: `normalize_score_mutation`; game_service/profile.py: `ProfileIdentity`.
-- The arguments are Python values, None as null. The last test of the source, that a score in bounds
-- is finite, cannot fail and is left out.
use classic_games.Prelude.{
  ℕ, Bool, true, false, ◌&&◌, ◌||◌, not, Option, none, some, ◌++◌, ltb, leb, ◌==◌, length,
  if◌then◌else◌,
}
use classic_games.Prelude.Int.{pos}
use classic_games.Prelude.Results.{Result, ok, err, ◌>>=◌}
use classic_games.Prelude.Texts.{Text, codes, text_eq, all_codes, is_digit, is_ascii_alnum}
use classic_games.Prelude.Json.{Json, null, boolean, integer, string, object}
use classic_games.Catalog.{GameId, game_named, ruleset_version}
use classic_games.Store.Attempts.{Status, completed, practice, Mutation}

-- what the code asks of the Unicode database, of uuid and of json: `uuid5` is the hex of the name's
-- UUID under NAMESPACE_URL, `dumps` is none where json raises, `uuid4` the next random hex
pub record Platform : Type 0 where
  pub nfc : Text → Text
  pub strip : Text → Text
  pub lower : Text → Text
  pub casefold : Text → Text
  pub is_control : ℕ → Bool
  pub uuid5 : Text → Text
  pub uuid4 : Text
  pub dumps : Json → Option Text
  pub utf8_length : Text → ℕ

-- the codes of MutationError; `invalid` has the field's name
pub data Fault : Type 0 where
  invalid : Text → Fault
  unknown_game extra_too_large : Fault

abbrev pub max_score : ℕ
max_score = 2147483647

abbrev pub max_sqlite_integer : ℕ
max_sqlite_integer = 9223372036854775807

abbrev pub max_extra_bytes : ℕ
max_extra_bytes = 8192

abbrev pub is_hex : ℕ → Bool
is_hex c = is_digit c || leb b'a' c && leb c b'f'

abbrev pub is_token : ℕ → Bool
is_token c = is_ascii_alnum c || (c == b'-' || c == b'_')

-- _transport_id, on a value that is given
unfoldable pub transport_id : Text → Json → Result Fault Text
transport_id name (string t) =
    if leb 16 (length t) && leb (length t) 64 && all_codes is_token t
    then ok t
    else err (invalid name)
transport_id name _ = err (invalid name)

-- an integer within bounds
unfoldable pub integer_in : Text → ℕ → ℕ → Json → Result Fault ℕ
integer_in name low high (integer (pos n)) =
    if leb low n && leb n high then ok n else err (invalid name)
integer_in name low high _ = err (invalid name)

unfoldable pub checked_replace : Json → Result Fault Bool
checked_replace (boolean b) = ok b
checked_replace _ = err (invalid (codes "replace"))

unfoldable pub checked_submission : Json → Result Fault (Option ℕ)
checked_submission null = ok none
checked_submission v =
    integer_in (codes "submission_id") 1 max_sqlite_integer v >>= λ n. ok (some n)

unfoldable pub checked_revision : Json → Result Fault ℕ
checked_revision null = ok 1
checked_revision v = integer_in (codes "revision") 1 max_sqlite_integer v

abbrev pub is_given : Json → Bool
is_given null = false
is_given _ = true

unfoldable pub checked_status : Text → Result Fault Status
checked_status t =
    if text_eq t (codes "completed")
    then ok completed
    else if text_eq t (codes "practice")
    then ok practice
    else err (invalid (codes "status"))

unfoldable pub found_game : Option GameId → Result Fault GameId
found_game none = err unknown_game
found_game (some game) = ok game

-- the arguments of normalize_score_mutation
pub record Submission : Type 0 where
  pub game_id : Json
  pub player : Json
  pub score : Json
  pub extra : Json
  pub replace : Json
  pub submission_id : Json
  pub request_id : Json
  pub attempt_uuid : Json
  pub revision : Json
  pub profile_id : Json
  pub mode : Json
  pub ruleset_version : Json
  pub status : Json

module _ (platform : Platform) where
  -- _identifier
  unfoldable pub identified : Text → ℕ → Text → Result Fault Text
  identified name high t =
      let v : Text = platform.strip (platform.nfc t) in
      if not (leb 1 (length v) && leb (length v) high)
      then err (invalid name)
      else if not (all_codes (λ c. not (platform.is_control c)) v)
      then err (invalid name)
      else ok v

  unfoldable pub identifier : Text → ℕ → Text → Json → Result Fault Text
  identifier name high default null = identified name high default
  identifier name high default (string t) = identified name high t
  identifier name high default _ = err (invalid name)

  -- a blank player is anonymous
  unfoldable pub player_or_anonymous : Json → Json
  player_or_anonymous (string t) =
      if leb 1 (length (platform.strip t)) then string t else string (codes "anonymous")
  player_or_anonymous v = v

  -- normalize_display_name
  unfoldable pub display_name : Text → Result Fault Text
  display_name t =
      let v : Text = platform.strip (platform.nfc t) in
      let name : Text = if leb 1 (length v) then v else codes "anonymous" in
      if ltb 32 (length name)
      then err (invalid (codes "profile_id"))
      else if not (all_codes (λ c. not (platform.is_control c)) name)
      then err (invalid (codes "profile_id"))
      else ok name

  abbrev pub profile_name : Text → Text
  profile_name name =
      let folded : Text = platform.casefold name in
      if text_eq folded (codes "guest") || text_eq folded (codes "anonymous")
      then codes "guest"
      else name

  unfoldable pub from_legacy_name : Text → Result Fault Text
  from_legacy_name t = display_name t >>= λ name.
      ok (platform.uuid5 (codes "classic-games-local-profile:" ++ profile_name name))

  -- validate_uuid
  unfoldable pub validate_uuid : Text → Result Fault Text
  validate_uuid t =
      let v : Text = platform.lower (platform.strip t) in
      if not (length v == 32) || not (all_codes is_hex v)
      then err (invalid (codes "profile_id"))
      else ok v

  -- _profile_id
  unfoldable pub profile_id : Json → Text → Result Fault Text
  profile_id null player = from_legacy_name player
  profile_id (string t) player = validate_uuid t
  profile_id _ player = err (invalid (codes "profile_id"))

  unfoldable pub sized_extra : Option Text → Result Fault (Option Text)
  sized_extra none = err (invalid (codes "extra"))
  sized_extra (some t) =
      if ltb max_extra_bytes (platform.utf8_length t) then err extra_too_large else ok (some t)

  unfoldable pub checked_extra : Json → Result Fault (Option Text)
  checked_extra null = ok none
  checked_extra (object v) = sized_extra (platform.dumps (object v))
  checked_extra _ = err (invalid (codes "extra"))

  unfoldable pub game : Json → Result Fault GameId
  game (string t) = found_game (game_named (platform.strip t))
  game _ = err (invalid (codes "game_id"))

  -- an ID that is not given is random, or for an attempt follows from the request
  unfoldable pub request : Json → Result Fault Text
  request null = transport_id (codes "request_id") (string platform.uuid4)
  request v = transport_id (codes "request_id") v

  unfoldable pub attempt : Json → Text → Result Fault Text
  attempt null request_id =
      transport_id (codes "attempt_uuid")
        (string (platform.uuid5 (codes "classic-games-attempt:" ++ request_id)))
  attempt v request_id = transport_id (codes "attempt_uuid") v

  unfoldable pub normalize_score_mutation : Submission → Result Fault Mutation
  normalize_score_mutation s = do
    game_id ← game s.game_id
    name ← identifier (codes "player") 32 (codes "anonymous") (player_or_anonymous s.player)
    profile ← profile_id s.profile_id (platform.nfc name)
    score ← integer_in (codes "score") 0 max_score s.score
    extra ← checked_extra s.extra
    replace ← checked_replace s.replace
    submission ← checked_submission s.submission_id
    request_id ← request s.request_id
    attempt_uuid ← attempt s.attempt_uuid request_id
    revision ← checked_revision s.revision
    mode ← identifier (codes "mode") 32 (codes "classic") s.mode
    rules ← identifier (codes "ruleset_version") 32 (ruleset_version game_id) s.ruleset_version
    status_text ← identifier (codes "status") 16 (codes "completed") s.status
    status ← checked_status status_text
    ok (record {
      payload = record {
        game_id = game_id;
        player = platform.nfc name;
        score = score;
        extra_json = extra;
        replace = replace;
        submission_id = submission;
        attempt_uuid = attempt_uuid;
        revision = revision;
        profile_id = profile;
        mode = mode;
        ruleset_version = rules;
        status = status;
      };
      request_id = request_id;
      attempt_uuid_provided = is_given s.attempt_uuid;
      revision_provided = is_given s.revision;
    })
