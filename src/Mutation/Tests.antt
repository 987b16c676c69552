-- ===== src/Mutation/Tests.antt =====
-- A run of the normalization, on a platform where texts are stripped of nothing.
use classic_games.Prelude.{◌≡◌, refl, ltb, true, false, none, []}
use classic_games.Prelude.Int.{pos}
use classic_games.Prelude.Results.{ok}
use classic_games.Prelude.Texts.{Text, codes, text_eq, all_codes}
use classic_games.Prelude.Json.{null, boolean, integer, string}
use classic_games.Catalog.{snake, game_named, text_of, ruleset_version}
use classic_games.Store.Attempts.{completed, Mutation}
use classic_games.Mutation.Normalize.{
  Platform, transport_id, integer_in, checked_replace, checked_submission, checked_revision,
  checked_status, found_game, Submission, identified, identifier, player_or_anonymous, display_name,
  from_legacy_name, profile_id, checked_extra, game, request, attempt, normalize_score_mutation,
}
use classic_games.Mutation.Bounds.{IsPlatform, IsNormal}
use classic_games.Mutation.Normal.{normalize_score_mutation-IsNormal}

abbrev hex : Text
hex = codes "0123456789abcdef0123456789abcdef"

abbrev plain : Platform
plain = record {
  nfc = λ t. t;
  strip = λ t. t;
  lower = λ t. t;
  casefold = λ t. t;
  is_control = λ c. ltb c 32;
  uuid5 = λ t. hex;
  uuid4 = hex;
  dumps = λ v. none;
  utf8_length = λ t. 0;
}

plain-IsPlatform : IsPlatform plain
unfolding all_codes
plain-IsPlatform = record {
  nfc_stripped = λ t. refl;
  uuid_length = λ t. refl;
  uuid_hex = λ t. refl;
}

abbrev submission : Submission
submission = record {
  game_id = string (codes "snake");
  player = string [];
  score = integer (pos 120);
  extra = null;
  replace = boolean true;
  submission_id = null;
  request_id = string hex;
  attempt_uuid = null;
  revision = integer (pos 9223372036854775807);
  profile_id = null;
  mode = null;
  ruleset_version = null;
  status = null;
}

abbrev normal : Mutation
normal = record {
  payload = record {
    game_id = snake;
    player = codes "anonymous";
    score = 120;
    extra_json = none;
    replace = true;
    submission_id = none;
    attempt_uuid = hex;
    revision = 9223372036854775807;
    profile_id = hex;
    mode = codes "classic";
    ruleset_version = codes "snake-classic-1";
    status = completed;
  };
  request_id = hex;
  attempt_uuid_provided = false;
  revision_provided = true;
}

normalizes : normalize_score_mutation plain submission ≡ ok normal
unfolding normalize_score_mutation game found_game game_named text_of text_eq identifier identified
    player_or_anonymous profile_id from_legacy_name display_name all_codes integer_in checked_extra
    checked_replace checked_submission request transport_id attempt checked_revision checked_status
    ruleset_version
normalizes = refl

normalize_score_mutation-IsNormal_example : IsNormal plain normal
normalize_score_mutation-IsNormal_example =
    normalize_score_mutation-IsNormal plain plain-IsPlatform submission normal normalizes
