-- ===== src/Mutation/Bounds.antt =====
-- game_service/mutation.py: what `normalize_score_mutation` lets through.
use classic_games.Prelude.{
  ℕ, ◌≤◌, ◌≡◌, refl, true, ◌&&◌, not, Option, none, some, ◌++◌, ltb, leb, length, if_intro, arith,
}
use classic_games.Prelude.Int.{pos, negsuc}
use classic_games.Prelude.Results.{ok, Ensures, bind-Ensures}
use classic_games.Prelude.Texts.{Text, codes, all_codes}
use classic_games.Prelude.Json.{Json, null, boolean, integer, real, string, array, object}
use classic_games.Store.Attempts.{Mutation}
use classic_games.Mutation.Normalize.{
  Platform, max_score, max_sqlite_integer, max_extra_bytes, is_hex, is_token, transport_id,
  integer_in, checked_submission, checked_revision, identified, identifier, sized_extra,
  checked_extra, request, attempt,
}

-- what is asked of the platform: a stripped text keeps its normal form, a UUID has 32 digits
pub record IsPlatform (platform : Platform) : Type 0 where
  pub nfc_stripped :
      (t : Text) → platform.nfc (platform.strip (platform.nfc t)) ≡ platform.strip (platform.nfc t)
  pub uuid_length : (t : Text) → length (platform.uuid5 t) ≡ 32
  pub uuid_hex : (t : Text) → all_codes is_hex (platform.uuid5 t) ≡ true

abbrev pub IsToken : Text → Type 0
IsToken t = (16 ≤ length t) × (length t ≤ 64) × (all_codes is_token t ≡ true)

abbrev pub IsUuid : Text → Type 0
IsUuid t = (length t ≡ 32) × (all_codes is_hex t ≡ true)

abbrev pub IsBetween : ℕ → ℕ → ℕ → Type 0
IsBetween low high n = (low ≤ n) × (n ≤ high)

abbrev pub Opt : {A : Type 0} → (A → Type 0) → Option A → Type 0
Opt P none = Unit
Opt P (some a) = P a

-- a text of printable characters, no longer than `high`
abbrev pub IsLabel : Platform → ℕ → Text → Type 0
IsLabel platform high t =
    (1 ≤ length t) × (length t ≤ high) × (all_codes (λ c. not (platform.is_control c)) t ≡ true)

pub record IsNormal (platform : Platform) (m : Mutation) : Type 0 where
  pub player : IsLabel platform 32 m.payload.player
  pub score : m.payload.score ≤ max_score
  pub extra : Opt (λ t. platform.utf8_length t ≤ max_extra_bytes) m.payload.extra_json
  pub submission : Opt (IsBetween 1 max_sqlite_integer) m.payload.submission_id
  pub request : IsToken m.request_id
  pub attempt : IsToken m.payload.attempt_uuid
  pub revision : IsBetween 1 max_sqlite_integer m.payload.revision
  pub profile : IsUuid m.payload.profile_id
  pub mode : IsLabel platform 32 m.payload.mode
  pub rules : IsLabel platform 32 m.payload.ruleset_version

transport_id-IsToken : (name : Text) (v : Json) → Ensures IsToken (transport_id name v)
unfolding transport_id
transport_id-IsToken name (string t) =
    if_intro (Ensures IsToken) (leb 16 (length t) && leb (length t) 64 && all_codes is_token t) _ _
      (λ e. (ground (arith, e), ground (arith, e), ground (arith, e))) (λ _. tt)
transport_id-IsToken name null = tt
transport_id-IsToken name (boolean v) = tt
transport_id-IsToken name (integer v) = tt
transport_id-IsToken name (real v) = tt
transport_id-IsToken name (array v) = tt
transport_id-IsToken name (object v) = tt

pub integer_in-IsBetween :
    (name : Text) (low high : ℕ) (v : Json)
    → Ensures (IsBetween low high) (integer_in name low high v)
unfolding integer_in
integer_in-IsBetween name low high (integer (pos n)) =
    if_intro (Ensures (IsBetween low high)) (leb low n && leb n high) _ _
      (λ e. (ground (arith, e), ground (arith, e))) (λ _. tt)
integer_in-IsBetween name low high (integer (negsuc n)) = tt
integer_in-IsBetween name low high (string t) = tt
integer_in-IsBetween name low high null = tt
integer_in-IsBetween name low high (boolean v) = tt
integer_in-IsBetween name low high (real v) = tt
integer_in-IsBetween name low high (array v) = tt
integer_in-IsBetween name low high (object v) = tt

pub checked_submission-Opt :
    (v : Json) → Ensures (Opt (IsBetween 1 max_sqlite_integer)) (checked_submission v)
unfolding checked_submission
checked_submission-Opt null = tt
checked_submission-Opt v =
    bind-Ensures (IsBetween 1 max_sqlite_integer) (Opt (IsBetween 1 max_sqlite_integer))
      (integer_in (codes "submission_id") 1 max_sqlite_integer v) (λ n. ok (some n))
      (integer_in-IsBetween (codes "submission_id") 1 max_sqlite_integer v) (λ n h. h)

pub checked_revision-IsBetween :
    (v : Json) → Ensures (IsBetween 1 max_sqlite_integer) (checked_revision v)
unfolding checked_revision
checked_revision-IsBetween null = (omega arith, omega arith)
checked_revision-IsBetween v = integer_in-IsBetween (codes "revision") 1 max_sqlite_integer v

module _ (platform : Platform) where
  pub request-IsToken : (v : Json) → Ensures IsToken (request platform v)
  unfolding request
  request-IsToken null = transport_id-IsToken (codes "request_id") (string platform.uuid4)
  request-IsToken v = transport_id-IsToken (codes "request_id") v

  pub attempt-IsToken : (v : Json) (r : Text) → Ensures IsToken (attempt platform v r)
  unfolding attempt
  attempt-IsToken null r =
      transport_id-IsToken (codes "attempt_uuid")
        (string (platform.uuid5 (codes "classic-games-attempt:" ++ r)))
  attempt-IsToken v r = transport_id-IsToken (codes "attempt_uuid") v

  -- what was read of a text is in the form that `strip` and `nfc` leave
  abbrev pub IsStripped : ℕ → Text → Type 0
  IsStripped high v = IsLabel platform high v × ((t : Text) × (v ≡ platform.strip (platform.nfc t)))

  identified-IsStripped :
      (name : Text) (high : ℕ) (t : Text)
      → Ensures (IsStripped high) (identified platform name high t)
  unfolding identified
  identified-IsStripped name high t =
      if_intro (Ensures (IsStripped high)) (not (leb 1 (length v) && leb (length v) high)) _ _
        (λ _. tt)
        (λ e.
          if_intro (Ensures (IsStripped high))
            (not (all_codes (λ c. not (platform.is_control c)) v)) _ _ (λ _. tt)
            (λ d. ((ground (arith, e), ground (arith, e), ground (arith, d)), (t, refl))))
    where
      v : Text
      v = platform.strip (platform.nfc t)

  pub identifier-IsStripped :
      (name : Text) (high : ℕ) (default : Text) (v : Json)
      → Ensures (IsStripped high) (identifier platform name high default v)
  unfolding identifier
  identifier-IsStripped name high default null = identified-IsStripped name high default
  identifier-IsStripped name high default (string t) = identified-IsStripped name high t
  identifier-IsStripped name high default (boolean v) = tt
  identifier-IsStripped name high default (integer v) = tt
  identifier-IsStripped name high default (real v) = tt
  identifier-IsStripped name high default (array v) = tt
  identifier-IsStripped name high default (object v) = tt

  pub checked_extra-Opt :
      (v : Json)
      → Ensures (Opt (λ t. platform.utf8_length t ≤ max_extra_bytes)) (checked_extra platform v)
  unfolding checked_extra sized_extra
  checked_extra-Opt null = tt
  checked_extra-Opt (object v) = sized (platform.dumps (object v))
    where
      sized :
          (o : Option Text)
          → Ensures (Opt (λ t. platform.utf8_length t ≤ max_extra_bytes)) (sized_extra platform o)
      sized none = tt
      sized (some t) =
          if_intro (Ensures (Opt (λ t. platform.utf8_length t ≤ max_extra_bytes)))
            (ltb max_extra_bytes (platform.utf8_length t)) _ _ (λ _. tt) (λ e. ground (arith, e))
  checked_extra-Opt (string t) = tt
  checked_extra-Opt (boolean v) = tt
  checked_extra-Opt (integer v) = tt
  checked_extra-Opt (real v) = tt
  checked_extra-Opt (array v) = tt
