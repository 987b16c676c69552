-- ===== src/Store/Retry.antt =====
-- `record_mutation` repeated: the receipt of a recorded request answers it again.
use mathlib.Core.Path.{subst}
use classic_games.Prelude.{
  ℕ, ◌≡◌, refl, ap, Bool, true, false, not, Option, none, some, if_intro, arith,
}
use classic_games.Prelude.Results.{ok, Ensures, Ensures-any, bind-Ensures}
use classic_games.Prelude.Texts.{Text, text_eq, text_eq_iff, text_eq_refl}
use classic_games.Store.Attempts.{
  Payload, Mutation, Attempt, Response, Receipt, Database, select, receipt_of,
}
use classic_games.Store.Record.{
  validate_occurred_at, live_receipts, row_expired, same_request, apply_to, find_attempt,
  from_attempts, from_request, answer, from_receipt, record_mutation, file_receipt, receipt,
  rebuilt,
}

-- the response, as a repeated request gets it
abbrev pub repeated : Response → Response
repeated r = record r { duplicate_request = true }

module _ (digest : Payload → Text) (m : Mutation) where
  -- a receipt that answers the mutation by the response
  record Answers (r : Response) (o : Option Receipt) : Type 0 where
    filed : Receipt
    found : o ≡ some filed
    hashed : filed.payload_hash ≡ digest m.payload
    stored : Response
    readable : filed.response ≡ some stored
    same : repeated stored ≡ repeated r

  Filed : Response × Database → Type 0
  Filed (r, db) = Answers r (select (receipt_of m.request_id) db.receipts)

  file_receipt-Filed :
      (now : ℕ) (uuid : Text) (r : Response) (db : Database)
      → Filed (file_receipt digest m now uuid r db)
  unfolding Filed select
  file_receipt-Filed now uuid r db = record {
    filed = receipt digest m now uuid r;
    found = rw (text_eq_refl m.request_id);
    hashed = refl;
    stored = r;
    readable = refl;
    same = refl;
  }

  from_request-Filed :
      (at : ℕ) (adjusted : Bool) (now : ℕ) (o : Option Attempt) (db : Database)
      → Ensures Filed (from_request digest m at adjusted now o db)
  unfolding from_attempts
  from_request-Filed at adjusted now none db =
      bind-Ensures (λ _. Unit) Filed (find_attempt m db.attempts) _ (Ensures-any _)
        (λ found _.
          bind-Ensures (λ _. Unit) Filed (apply_to m at now found db) _ (Ensures-any _)
            (λ o _. file_receipt-Filed now _ _ o.db))
  from_request-Filed at adjusted now (some a) db =
      if_intro (Ensures Filed) (not (same_request a m)) _ _ (λ _. tt)
        (λ _. file_receipt-Filed now m.payload.attempt_uuid (rebuilt m adjusted a db.attempts) db)

  from_receipt-Filed :
      (at : ℕ) (adjusted : Bool) (now : ℕ) (o : Option Receipt) (db : Database)
      → select (receipt_of m.request_id) db.receipts ≡ o
      → Ensures Filed (from_receipt digest m at adjusted now o db)
  unfolding Filed
  from_receipt-Filed at adjusted now none db e = from_request-Filed at adjusted now _ db
  from_receipt-Filed at adjusted now (some c) db e =
      if_intro (Ensures Filed) (not (text_eq c.payload_hash (digest m.payload))) _ _ (λ _. tt)
        (λ h. answered c.response refl (equal h))
    where
      equal :
          not (text_eq c.payload_hash (digest m.payload)) ≡ false
          → c.payload_hash ≡ digest m.payload
      equal h = (text_eq_iff c.payload_hash (digest m.payload)).0 (ground (arith, h))

      answered :
          (o : Option Response)
          → c.response ≡ o
          → c.payload_hash ≡ digest m.payload
          → Ensures Filed (answer digest m at adjusted now o db)
      answered none r h = from_request-Filed at adjusted now _ _
      answered (some s) r h = record {
        filed = c;
        found = e;
        hashed = h;
        stored = s;
        readable = r;
        same = refl;
      }

  record_mutation-Filed :
      (occurred_at : Option ℕ) (now : ℕ) (db : Database)
      → Ensures Filed (record_mutation digest m occurred_at now db)
  unfolding record_mutation
  record_mutation-Filed occurred_at now db =
      bind-Ensures (λ _. Unit) Filed (validate_occurred_at occurred_at now) _
        (Ensures-any (validate_occurred_at occurred_at now))
        (λ t _. from_receipt-Filed t.0 t.1 now _ _ refl)

  from_receipt-Answers :
      (at : ℕ) (adjusted : Bool) (now : ℕ) (r : Response) (o : Option Receipt) (db : Database)
      → Answers r o
      → from_receipt digest m at adjusted now o db ≡ ok (repeated r, db)
  from_receipt-Answers at adjusted now r o db a =
      rw (a.found, a.hashed, text_eq_refl (digest m.payload), a.readable)
        (ap (λ s. ok (s, db)) a.same)

  -- A request that was recorded is answered again, at any time at which its receipt is not expired and
  -- with any time of completion that is accepted: the response is the first one, marked as a duplicate,
  -- and nothing in the store changes.
  pub record_mutation-record_mutation :
      (occurred_at again : Option ℕ) (now later : ℕ) (db db' : Database) (r : Response)
      (t : ℕ × Bool)
      → record_mutation digest m occurred_at now db ≡ ok (r, db')
      → validate_occurred_at again later ≡ ok t
      → row_expired later (select (receipt_of m.request_id) db'.receipts) ≡ false
      → record_mutation digest m again later db' ≡ ok (repeated r, db')
  unfolding record_mutation live_receipts Filed
  record_mutation-record_mutation occurred_at again now later db db' r t e v live =
      let a : Filed (r, db') = subst (Ensures Filed) e (record_mutation-Filed occurred_at now db) in
      rw (v, live) (from_receipt-Answers t.0 t.1 later r _ db' a)
