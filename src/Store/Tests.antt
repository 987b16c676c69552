-- ===== src/Store/Tests.antt =====
-- Runs of the score store's model. The digest is the attempt's identifier.
use classic_games.Prelude.{ℕ, ◌≡◌, refl, true, false, none, [], ◌∷◌}
use classic_games.Prelude.Results.{Result, ok, err}
use classic_games.Prelude.Texts.{Text, codes, text_eq}
use classic_games.Catalog.{game_2048}
use classic_games.Store.Attempts.{
  completed, Payload, Mutation, Response, Database, select, in_ranking, best_of, personal_best,
}
use classic_games.Store.Record.{
  Fault, validate_occurred_at, live_receipts, insert_attempt, apply_to, find_attempt, respond,
  from_attempts, record_mutation,
}
use classic_games.Store.Ledger.{Request, Continues, submit_all, empty, submit_all-Keeps}
use classic_games.Store.Retry.{repeated, record_mutation-record_mutation}

abbrev digest : Payload → Text
digest p = p.attempt_uuid

abbrev payload : ℕ → ℕ → Payload
payload score revision = record {
  game_id = game_2048;
  player = codes "ann";
  score = score;
  extra_json = none;
  replace = false;
  submission_id = none;
  attempt_uuid = codes "attempt-000000001";
  revision = revision;
  profile_id = codes "profile-1";
  mode = codes "classic";
  ruleset_version = codes "2048-classic-2";
  status = completed;
}

abbrev mutation : Text → ℕ → ℕ → Mutation
mutation request score revision = record {
  payload = payload score revision;
  request_id = request;
  attempt_uuid_provided = true;
  revision_provided = true;
}

abbrev first : Request
first = record {
  mutation = mutation (codes "request-1") 100 1;
  occurred_at = none;
  now = 1000000000000;
}

abbrev second : Request
second = record {
  mutation = mutation (codes "request-2") 180 2;
  occurred_at = none;
  now = 1000000001000;
}

submit_all-Keeps_example :
    Continues
      (submit_all digest empty (first ∷ []))
      (submit_all digest (submit_all digest empty (first ∷ [])) (second ∷ first ∷ []))
submit_all-Keeps_example = submit_all-Keeps digest (first ∷ []) (second ∷ first ∷ [])

abbrev value : Result Fault (Response × Database) → Response → Response × Database
value (ok v) r = v
value (err e) r = (r, empty)

abbrev blank : Response
blank = record {
  id = 0;
  attempt_uuid = [];
  revision = 0;
  status = completed;
  request_id = [];
  rank = none;
  score = 0;
  new_personal_best = false;
  personal_best = 0;
  updated = false;
  no_op = false;
  stale_revision = false;
  duplicate_request = false;
  receipt_rebuilt = false;
  clock_adjusted = false;
}

abbrev recorded : Response × Database
recorded = value (record_mutation digest first.mutation none first.now empty) blank

answers_first : record_mutation digest first.mutation none first.now empty ≡ ok recorded
unfolding record_mutation validate_occurred_at select live_receipts from_attempts find_attempt
    apply_to
answers_first = refl

scores_100 : recorded.0.personal_best ≡ 100
unfolding record_mutation validate_occurred_at select live_receipts from_attempts find_attempt
    apply_to respond personal_best best_of insert_attempt text_eq in_ranking
scores_100 = refl

record_mutation-record_mutation_example :
    record_mutation digest first.mutation none 1000000002000 recorded.1
    ≡ ok (repeated (recorded.0), recorded.1)
unfolding record_mutation validate_occurred_at select live_receipts from_attempts find_attempt
    apply_to text_eq
record_mutation-record_mutation_example =
    record_mutation-record_mutation digest first.mutation none none first.now 1000000002000 empty
      recorded.1 recorded.0 (1000000002000, false) answers_first refl refl
