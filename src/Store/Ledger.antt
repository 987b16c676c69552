-- ===== src/Store/Ledger.antt =====
-- What `record_mutation` keeps true of the table of attempts.
use mathlib.Core.List.{foldl}
use classic_games.Prelude.{
  ℕ, ◌≤◌, ◌≡◌, refl, Bool, true, false, ◌&&◌, ◌||◌, not, Option, none, some, List, [], ◌∷◌, ltb,
  ◌==◌, if_intro, arith,
}
use classic_games.Prelude.Results.{Result, ok, err, Ensures, Ensures-any, bind-Ensures}
use classic_games.Prelude.Texts.{Text, text_eq}
use classic_games.Catalog.{score_policy}
use classic_games.Store.Attempts.{
  Payload, Mutation, Attempt, Response, Receipt, Database, select, by_uuid, by_request, by_id,
  identity_matches, same_extra, same_status,
}
use classic_games.Store.Record.{
  Fault, Outcome, validate_occurred_at, same_request, insert_attempt, revised, rewrite, unchanged,
  is_final, legacy_update, revise, is_legacy, apply_to, check_submission, by_submission,
  find_attempt, from_attempts, from_request, answer, from_receipt, record_mutation, new_row,
  differs,
}
use classic_games.Store.Rows.{
  In, IsLedger, Extends, SameKeys, select-In, Extends-refl, Extends-trans, update_row-kept,
  update_row-IsUnique, update_row_below, insert-IsLedger, insert-Extends,
}

-- a database that keeps what another has recorded
abbrev pub Continues : Database → Database → Type 0
Continues db later = IsLedger later × Extends db.attempts later.attempts

abbrev Next : Database → Outcome → Type 0
Next db o = Continues db o.db

unchanged-Next :
    (stale : Bool) (a : Attempt) (db : Database) → IsLedger db → Next db (unchanged stale a db)
unchanged-Next stale a db l = (l, Extends-refl db.attempts)

revised-SameKeys : (m : Mutation) (revision at now : ℕ) → SameKeys (revised m revision at now)
revised-SameKeys m revision at now a = (refl, refl, refl)

rewrite-Next :
    (m : Mutation) (revision at now : ℕ) (a : Attempt) (db : Database)
    → IsLedger db
    → In a db.attempts
    → a.score ≤ m.payload.score
    → a.revision ≤ revision
    → Next db (rewrite m revision at now a db)
rewrite-Next m revision at now a db (u, b) i s r =
    let f = revised m revision at now in
    let keys = revised-SameKeys m revision at now in
    (
      (
        update_row-IsUnique a.id f keys db.attempts u,
        update_row_below a.id f keys db.next_id db.attempts b,
      ),
      update_row-kept f db.attempts a u i (ground (arith, s, r)),
    )

module _ (m : Mutation) (at now : ℕ) (a : Attempt) (db : Database) (l : IsLedger db)
    (i : In a db.attempts) where
  legacy_update-Next : Ensures (Next db) (legacy_update m at now a db)
  unfolding legacy_update
  legacy_update-Next =
      if_intro (Ensures (Next db)) (is_final (score_policy m.payload.game_id)) _ _ (λ _. tt)
        (λ _.
          if_intro (Ensures (Next db)) (ltb m.payload.score a.score) _ _ (λ _. tt)
            (λ s.
              if_intro (Ensures (Next db))
                (ltb a.score m.payload.score
                  || (m.payload.score == a.score)
                    && not (same_extra m.payload.extra_json a.extra_json))
                (ok (rewrite m a.revision at now a db)) (ok (unchanged false a db))
                (λ _. rewrite-Next m a.revision at now a db l i (ground (arith, s)) (omega arith))
                (λ _. unchanged-Next false a db l)))

  revise-Next : Ensures (Next db) (revise m at now a db)
  unfolding revise
  revise-Next =
      if_intro (Ensures (Next db)) (ltb m.payload.revision a.revision) _ _
        (λ _. unchanged-Next true a db l)
        (λ r.
          if_intro (Ensures (Next db)) (m.payload.revision == a.revision) _ _
            (λ _.
              if_intro (Ensures (Next db))
                ((m.payload.score == a.score)
                  && same_extra m.payload.extra_json a.extra_json
                  && same_status m.payload.status a.status)
                _ _ (λ _. unchanged-Next false a db l) (λ _. tt))
            (λ _.
              if_intro (Ensures (Next db)) (is_final (score_policy m.payload.game_id)) _ _ (λ _. tt)
                (λ _.
                  if_intro (Ensures (Next db)) (ltb m.payload.score a.score) _ _ (λ _. tt)
                    (λ s.
                      rewrite-Next m m.payload.revision at now a db l i (ground (arith, s))
                        (ground (arith, r))))))

-- the attempt that was found is in the table, or the keys of the mutation are free
abbrev Found : Mutation → List Attempt → Option Attempt → Type 0
Found m rows none = select (by_uuid m.payload.attempt_uuid) rows ≡ none
Found m rows (some a) = In a rows

apply_to-Next :
    (m : Mutation) (at now : ℕ) (found : Option Attempt) (db : Database)
    → IsLedger db
    → select (by_request m.request_id) db.attempts ≡ none
    → Found m db.attempts found
    → Ensures (Next db) (apply_to m at now found db)
unfolding apply_to insert_attempt
apply_to-Next m at now none db (u, b) no_request no_uuid = (
  insert-IsLedger (new_row m db.next_id at now) db.attempts db.next_id refl no_uuid no_request u b,
  insert-Extends (new_row m db.next_id at now) db.attempts,
)
apply_to-Next m at now (some a) db l no_request i =
    if_intro (Ensures (Next db)) (not (identity_matches a m)) _ _ (λ _. tt)
      (λ _.
        if_intro (Ensures (Next db)) (not (same_status m.payload.status a.status)) _ _ (λ _. tt)
          (λ _.
            if_intro (Ensures (Next db)) (is_legacy m) _ _
              (λ _. legacy_update-Next m at now a db l i) (λ _. revise-Next m at now a db l i)))

check_submission-Found :
    (m : Mutation) (attempt b : Option Attempt) (rows : List Attempt)
    → ((c : Attempt) → b ≡ some c → In c rows)
    → Ensures (Found m rows) (check_submission m attempt b)
check_submission-Found m attempt none rows h = tt
check_submission-Found m attempt (some b) rows h =
    if_intro (Ensures (Found m rows)) (not (identity_matches b m)) _ _ (λ _. tt)
      (λ _.
        if_intro (Ensures (Found m rows))
          (m.attempt_uuid_provided && not (text_eq b.attempt_uuid m.payload.attempt_uuid)) _ _
          (λ _. tt)
          (λ _.
            if_intro (Ensures (Found m rows)) (differs attempt b) _ _ (λ _. tt) (λ _. h b refl)))

by_submission-Found :
    (m : Mutation) (submission : Option ℕ) (rows : List Attempt)
    → Ensures
        (Found m rows)
        (by_submission m submission (select (by_uuid m.payload.attempt_uuid) rows) rows)
by_submission-Found m none rows = by_key (select (by_uuid m.payload.attempt_uuid) rows) refl
  where
    by_key :
        (o : Option Attempt) → select (by_uuid m.payload.attempt_uuid) rows ≡ o → Found m rows o
    by_key none e = e
    by_key (some a) e = (select-In (by_uuid m.payload.attempt_uuid) rows a e).0
by_submission-Found m (some i) rows =
    check_submission-Found m (select (by_uuid m.payload.attempt_uuid) rows) (select (by_id i) rows)
      rows (λ c e. (select-In (by_id i) rows c e).0)

-- a request for a score: the mutation, the time it occurred, the time it is recorded
pub record Request : Type 0 where
  pub mutation : Mutation
  pub occurred_at : Option ℕ
  pub now : ℕ

module _ (digest : Payload → Text) where
  abbrev Reply : Database → Response × Database → Type 0
  Reply db r = Continues db r.1

  from_request-Reply :
      (m : Mutation) (at : ℕ) (adjusted : Bool) (now : ℕ) (o : Option Attempt) (db : Database)
      → IsLedger db
      → select (by_request m.request_id) db.attempts ≡ o
      → Ensures (Reply db) (from_request digest m at adjusted now o db)
  unfolding from_attempts find_attempt
  from_request-Reply m at adjusted now none db l no_request =
      bind-Ensures (Found m db.attempts) (Reply db) (find_attempt m db.attempts) _
        (by_submission-Found m m.payload.submission_id db.attempts)
        (λ found f.
          bind-Ensures (Next db) (Reply db) (apply_to m at now found db) _
            (apply_to-Next m at now found db l no_request f) (λ o n. n))
  from_request-Reply m at adjusted now (some a) db l e =
      if_intro (Ensures (Reply db)) (not (same_request a m)) _ _ (λ _. tt)
        (λ _. (l, Extends-refl db.attempts))

  from_receipt-Reply :
      (m : Mutation) (at : ℕ) (adjusted : Bool) (now : ℕ) (o : Option Receipt) (db : Database)
      → IsLedger db
      → Ensures (Reply db) (from_receipt digest m at adjusted now o db)
  from_receipt-Reply m at adjusted now none db l = from_request-Reply m at adjusted now _ db l refl
  from_receipt-Reply m at adjusted now (some r) db l =
      if_intro (Ensures (Reply db)) (not (text_eq r.payload_hash (digest m.payload))) _ _ (λ _. tt)
        (λ _. answered r.response)
    where
      answered : (o : Option Response) → Ensures (Reply db) (answer digest m at adjusted now o db)
      answered none = from_request-Reply m at adjusted now _ _ l refl
      answered (some s) = (l, Extends-refl db.attempts)

  record_mutation-Reply :
      (m : Mutation) (occurred_at : Option ℕ) (now : ℕ) (db : Database)
      → IsLedger db
      → Ensures (Reply db) (record_mutation digest m occurred_at now db)
  unfolding record_mutation
  record_mutation-Reply m occurred_at now db l =
      bind-Ensures (λ _. Unit) (Reply db) (validate_occurred_at occurred_at now) _
        (Ensures-any (validate_occurred_at occurred_at now))
        (λ t _. from_receipt-Reply m t.0 t.1 now _ _ l)

  abbrev pub settle : Database → Result Fault (Response × Database) → Database
  settle db (err e) = db
  settle db (ok (r, later)) = later

  -- a database after a request, answered or refused
  unfoldable pub submit : Database → Request → Database
  submit db r = settle db (record_mutation digest r.mutation r.occurred_at r.now db)

  submit-Continues : (db : Database) (r : Request) → IsLedger db → Continues db (submit db r)
  unfolding submit
  submit-Continues db r l =
      settled (record_mutation digest r.mutation r.occurred_at r.now db)
        (record_mutation-Reply r.mutation r.occurred_at r.now db l)
    where
      settled :
          (o : Result Fault (Response × Database))
          → Ensures (Reply db) o
          → Continues db (settle db o)
      settled (err e) h = (l, Extends-refl db.attempts)
      settled (ok (s, later)) h = h

  abbrev pub submit_all : Database → List Request → Database
  submit_all db requests = foldl submit db requests

  pub submit_all-Continues :
      (requests : List Request) (db : Database)
      → IsLedger db
      → Continues db (submit_all db requests)
  submit_all-Continues [] db l = (l, Extends-refl db.attempts)
  submit_all-Continues (r ∷ requests) db l =
      let first = submit-Continues db r l in
      let rest = submit_all-Continues requests (submit db r) first.0 in
      (
        rest.0,
        Extends-trans db.attempts (submit db r).attempts
            (submit_all (submit db r) requests).attempts first.1 rest.1,
      )

abbrev pub empty : Database
empty = record { attempts = []; receipts = []; profiles = []; next_id = 1 }

-- From an empty store, after any earlier and later requests, answered or refused: no two attempts
-- have an id, an attempt_uuid or a request_id in common, and each attempt that the earlier requests
-- recorded is still there after the later ones, of the same game, profile, mode, ruleset and status,
-- with no lower score and no lower revision.
pub submit_all-Keeps :
    (digest : Payload → Text) (earlier later : List Request)
    → let db = submit_all digest empty earlier in Continues db (submit_all digest db later)
submit_all-Keeps digest earlier later =
    submit_all-Continues digest later (submit_all digest empty earlier)
      (submit_all-Continues digest earlier empty (tt, tt)).0
