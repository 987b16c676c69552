-- ===== src/Store/Record.antt =====
-- game_service/store.py: `record_mutation`. A raised error rolls the transaction back, so it leaves the
-- database as it was. `digest` is the parameter that answers SHA-256 of a payload's canonical JSON.
use classic_games.Prelude.{
  ℕ, suc, ◌+◌, max, Bool, true, false, ◌&&◌, ◌||◌, not, Option, none, some, List, [], ◌∷◌, ltb,
  ◌==◌, if◌then◌else◌,
}
use classic_games.Prelude.Results.{Result, ok, err, ◌>>=◌}
use classic_games.Prelude.Texts.{Text, text_eq}
use classic_games.Catalog.{same_game, ScorePolicy, final_only, monotonic_revision, score_policy}
use classic_games.Store.Attempts.{
  completed, same_status, same_extra, Payload, Mutation, Attempt, Response, Receipt, Profile,
  Database, select, delete, by_uuid, by_request, by_id, receipt_of, update_row, identity_matches,
  personal_best, rank_for,
}

pub data Fault : Type 0 where
  invalid_occurred_at request_id_conflict submission_not_found submission_mismatch : Fault
  attempt_identity_conflict attempt_status_conflict attempt_finalized score_regression : Fault
  revision_conflict : Fault

abbrev pub or_zero : Option ℕ → ℕ
or_zero none = 0
or_zero (some n) = n

-- the time of completion, and whether the clock was ahead
unfoldable pub validate_occurred_at : Option ℕ → ℕ → Result Fault (ℕ × Bool)
validate_occurred_at none now = ok (now, false)
validate_occurred_at (some t) now =
    if ltb t 946684800000
    then err invalid_occurred_at
    else if ltb (now + 300000) t
    then ok (now, true)
    else ok (t, false)

-- 180 days
abbrev pub retention : ℕ
retention = 15552000000

abbrev pub expired : ℕ → Option ℕ → Bool
expired now none = false
expired now (some t) = ltb t now

abbrev pub row_expired : ℕ → Option Receipt → Bool
row_expired now none = false
row_expired now (some r) = expired now r.expires_at

-- the receipt of the request, after an expired one is deleted
unfoldable pub live_receipts : ℕ → Text → List Receipt → List Receipt
live_receipts now request rows =
    if row_expired now (select (receipt_of request) rows)
    then delete (receipt_of request) rows
    else rows

-- the fields by which a row with the same request is the same request
unfoldable pub same_request : Attempt → Mutation → Bool
same_request a m =
    text_eq a.attempt_uuid m.payload.attempt_uuid
    && text_eq a.profile_id m.payload.profile_id
    && same_game a.game_id m.payload.game_id
    && text_eq a.mode m.payload.mode
    && text_eq a.ruleset_version m.payload.ruleset_version
    && same_status a.status m.payload.status
    && (a.revision == m.payload.revision)
    && (a.score == m.payload.score)
    && same_extra a.extra_json m.payload.extra_json

-- INSERT INTO profiles … ON CONFLICT(profile_id) DO UPDATE SET last_used=MAX(…)
unfoldable pub touch_profile : Text → Text → ℕ → List Profile → List Profile
touch_profile p name at [] =
    record { profile_id = p; display_name = name; created_at = at; last_used = at } ∷ []
touch_profile p name at (q ∷ rows) =
    let rest = touch_profile p name at rows in
    if text_eq q.profile_id p then record q { last_used = max q.last_used at } ∷ rows else q ∷ rest

-- what the transaction makes of the attempt, before the response
pub record Outcome : Type 0 where
  pub db : Database
  pub row : Attempt
  pub updated : Bool
  pub no_op : Bool
  pub stale : Bool

abbrev pub touched : Mutation → ℕ → Database → Database
touched m at db = record db {
  profiles = touch_profile m.payload.profile_id m.payload.player at db.profiles;
}

abbrev pub new_row : Mutation → ℕ → ℕ → ℕ → Attempt
new_row m i at now = record {
  id = i;
  attempt_uuid = m.payload.attempt_uuid;
  request_id = m.request_id;
  profile_id = m.payload.profile_id;
  game_id = m.payload.game_id;
  player = m.payload.player;
  mode = m.payload.mode;
  ruleset_version = m.payload.ruleset_version;
  status = m.payload.status;
  revision = m.payload.revision;
  score = m.payload.score;
  extra_json = m.payload.extra_json;
  started_at = at;
  finished_at = at;
  score_achieved_at = at;
  created_at = at;
  updated_at = now;
}

unfoldable pub insert_attempt : Mutation → ℕ → ℕ → Database → Outcome
insert_attempt m at now db =
    let row = new_row m db.next_id at now in
    record {
      db = record (touched m at db) { attempts = row ∷ db.attempts; next_id = suc db.next_id };
      row = row;
      updated = false;
      no_op = false;
      stale = false;
    }

-- the two UPDATE statements; the revision is that of the row, or of the mutation
abbrev pub revised : Mutation → ℕ → ℕ → ℕ → Attempt → Attempt
revised m revision at now a = record a {
  score = m.payload.score;
  extra_json = m.payload.extra_json;
  revision = revision;
  score_achieved_at = if ltb a.score m.payload.score then at else a.score_achieved_at;
  updated_at = now;
  finished_at = at;
}

abbrev pub rewrite : Mutation → ℕ → ℕ → ℕ → Attempt → Database → Outcome
rewrite m revision at now a db = record {
  db = record (touched m at db) {
    attempts = update_row a.id (revised m revision at now) db.attempts;
  };
  row = revised m revision at now a;
  updated = true;
  no_op = false;
  stale = false;
}

abbrev pub unchanged : Bool → Attempt → Database → Outcome
unchanged stale a db = record { db = db; row = a; updated = false; no_op = true; stale = stale }

abbrev pub is_final : ScorePolicy → Bool
is_final final_only = true
is_final monotonic_revision = false

-- a caller that knows only the row's id
unfoldable pub legacy_update : Mutation → ℕ → ℕ → Attempt → Database → Result Fault Outcome
legacy_update m at now a db =
    if is_final (score_policy m.payload.game_id)
    then err attempt_finalized
    else if ltb m.payload.score a.score
    then err score_regression
    else if ltb a.score m.payload.score
        || (m.payload.score == a.score) && not (same_extra m.payload.extra_json a.extra_json)
    then ok (rewrite m a.revision at now a db)
    else ok (unchanged false a db)

-- by revision: a late one, the same one again, or the next
unfoldable pub revise : Mutation → ℕ → ℕ → Attempt → Database → Result Fault Outcome
revise m at now a db =
    if ltb m.payload.revision a.revision
    then ok (unchanged true a db)
    else if m.payload.revision == a.revision
    then (if (m.payload.score == a.score)
          && same_extra m.payload.extra_json a.extra_json
          && same_status m.payload.status a.status
        then ok (unchanged false a db)
        else err revision_conflict)
    else if is_final (score_policy m.payload.game_id)
    then err attempt_finalized
    else if ltb m.payload.score a.score
    then err score_regression
    else ok (rewrite m m.payload.revision at now a db)

abbrev has_submission : Option ℕ → Bool
has_submission none = false
has_submission (some _) = true

unfoldable pub is_legacy : Mutation → Bool
is_legacy m =
    has_submission m.payload.submission_id && not m.attempt_uuid_provided && not m.revision_provided

unfoldable pub apply_to : Mutation → ℕ → ℕ → Option Attempt → Database → Result Fault Outcome
apply_to m at now none db = ok (insert_attempt m at now db)
apply_to m at now (some a) db =
    if not (identity_matches a m)
    then err attempt_identity_conflict
    else if not (same_status m.payload.status a.status)
    then err attempt_status_conflict
    else if is_legacy m
    then legacy_update m at now a db
    else revise m at now a db

abbrev pub differs : Option Attempt → Attempt → Bool
differs none b = false
differs (some a) b = not (a.id == b.id)

abbrev pub check_submission :
    Mutation → Option Attempt → Option Attempt → Result Fault (Option Attempt)
check_submission m attempt none = err submission_not_found
check_submission m attempt (some b) =
    if not (identity_matches b m)
    then err submission_mismatch
    else if m.attempt_uuid_provided && not (text_eq b.attempt_uuid m.payload.attempt_uuid)
    then err submission_mismatch
    else if differs attempt b
    then err submission_mismatch
    else ok (some b)

abbrev pub by_submission :
    Mutation → Option ℕ → Option Attempt → List Attempt → Result Fault (Option Attempt)
by_submission m none attempt rows = ok attempt
by_submission m (some i) attempt rows = check_submission m attempt (select (by_id i) rows)

-- the attempt that the mutation is about
unfoldable pub find_attempt : Mutation → List Attempt → Result Fault (Option Attempt)
find_attempt m rows =
    by_submission m m.payload.submission_id (select (by_uuid m.payload.attempt_uuid) rows) rows

abbrev improves : Option ℕ → ℕ → Bool
improves none best = true
improves (some before) best = ltb before best

unfoldable pub respond : Mutation → Bool → Option ℕ → Outcome → Response
respond m adjusted before o =
    let after = personal_best o.db.attempts m in
    record {
      id = o.row.id;
      attempt_uuid = o.row.attempt_uuid;
      revision = o.row.revision;
      status = o.row.status;
      request_id = m.request_id;
      rank = rank_for o.db.attempts m after;
      score = o.row.score;
      new_personal_best = same_status m.payload.status completed && improves before (or_zero after);
      personal_best = or_zero after;
      updated = o.updated;
      no_op = o.no_op;
      stale_revision = o.stale;
      duplicate_request = false;
      receipt_rebuilt = false;
      clock_adjusted = adjusted;
    }

-- the response for a row whose receipt was lost
unfoldable pub rebuilt : Mutation → Bool → Attempt → List Attempt → Response
rebuilt m adjusted a rows =
    let best = personal_best rows m in
    record {
      id = a.id;
      attempt_uuid = a.attempt_uuid;
      revision = a.revision;
      status = a.status;
      request_id = m.request_id;
      rank = rank_for rows m best;
      score = a.score;
      new_personal_best = false;
      personal_best = or_zero best;
      updated = false;
      no_op = true;
      stale_revision = false;
      duplicate_request = true;
      receipt_rebuilt = true;
      clock_adjusted = adjusted;
    }

module _ (digest : Payload → Text) where
  abbrev pub receipt : Mutation → ℕ → Text → Response → Receipt
  receipt m now uuid response = record {
    request_id = m.request_id;
    payload_hash = digest m.payload;
    attempt_uuid = uuid;
    revision = m.payload.revision;
    response = some response;
    created_at = now;
    expires_at = some (now + retention);
  }

  abbrev pub file_receipt : Mutation → ℕ → Text → Response → Database → Response × Database
  file_receipt m now uuid response db =
      (response, record db { receipts = receipt m now uuid response ∷ db.receipts })

  -- the end of the transaction
  abbrev pub finish : Mutation → Bool → ℕ → Option ℕ → Outcome → Response × Database
  finish m adjusted now before o =
      file_receipt m now o.row.attempt_uuid (respond m adjusted before o) o.db

  unfoldable pub from_attempts :
      Mutation → ℕ → Bool → ℕ → Database → Result Fault (Response × Database)
  from_attempts m at adjusted now db = do
    found ← find_attempt m db.attempts
    o ← apply_to m at now found db
    ok (finish m adjusted now (personal_best db.attempts m) o)

  abbrev pub from_request :
      Mutation → ℕ → Bool → ℕ → Option Attempt → Database → Result Fault (Response × Database)
  from_request m at adjusted now none db = from_attempts m at adjusted now db
  from_request m at adjusted now (some a) db =
      if not (same_request a m)
      then err request_id_conflict
      else ok (file_receipt m now m.payload.attempt_uuid (rebuilt m adjusted a db.attempts) db)

  abbrev pub without_answer :
      Mutation → ℕ → Bool → ℕ → Database → Result Fault (Response × Database)
  without_answer m at adjusted now db =
      from_request m at adjusted now (select (by_request m.request_id) db.attempts) db

  abbrev pub answer :
      Mutation → ℕ → Bool → ℕ → Option Response → Database → Result Fault (Response × Database)
  answer m at adjusted now (some r) db = ok (record r { duplicate_request = true }, db)
  answer m at adjusted now none db =
      without_answer m at adjusted now
        (record db { receipts = delete (receipt_of m.request_id) db.receipts })

  abbrev pub from_receipt :
      Mutation → ℕ → Bool → ℕ → Option Receipt → Database → Result Fault (Response × Database)
  from_receipt m at adjusted now none db = without_answer m at adjusted now db
  from_receipt m at adjusted now (some r) db =
      if not (text_eq r.payload_hash (digest m.payload))
      then err request_id_conflict
      else answer m at adjusted now r.response db

  abbrev pub transaction : Mutation → ℕ → Bool → ℕ → Database → Result Fault (Response × Database)
  transaction m at adjusted now db =
      from_receipt m at adjusted now (select (receipt_of m.request_id) db.receipts) db

  unfoldable pub record_mutation :
      Mutation → Option ℕ → ℕ → Database → Result Fault (Response × Database)
  record_mutation m occurred_at now db = do
    (at, adjusted) ← validate_occurred_at occurred_at now
    transaction m at adjusted now
        (record db { receipts = live_receipts now m.request_id db.receipts })
