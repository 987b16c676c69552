-- ===== src/Mutation/Normal.antt =====
-- game_service/mutation.py: every field of a normalized mutation is within its bounds.
use mathlib.Core.Path.{subst}
use classic_games.Prelude.{ℕ, ◌≤◌, ◌≡◌, sym, ap, ◌∙◌, ◌||◌, not, ◌==◌, length, if_intro, arith}
use classic_games.Prelude.Results.{ok, Ensures, Ensures-any, bind-Ensures, ensured}
use classic_games.Prelude.Texts.{Text, codes, all_codes}
use classic_games.Prelude.Json.{Json, null, boolean, integer, real, string, array, object}
use classic_games.Catalog.{ruleset_version}
use classic_games.Store.Attempts.{Mutation}
use classic_games.Mutation.Normalize.{
  Platform, max_score, max_sqlite_integer, max_extra_bytes, is_hex, integer_in, checked_replace,
  checked_submission, checked_revision, checked_status, Submission, identifier, player_or_anonymous,
  display_name, from_legacy_name, validate_uuid, profile_id, checked_extra, game, request, attempt,
  normalize_score_mutation,
}
use classic_games.Mutation.Bounds.{
  IsPlatform, IsToken, IsUuid, IsBetween, Opt, IsLabel, IsNormal, integer_in-IsBetween,
  checked_submission-Opt, checked_revision-IsBetween, request-IsToken, attempt-IsToken, IsStripped,
  identifier-IsStripped, checked_extra-Opt,
}

module _ (platform : Platform) (p : IsPlatform platform) where
  validate_uuid-IsUuid : (t : Text) → Ensures IsUuid (validate_uuid platform t)
  unfolding validate_uuid
  validate_uuid-IsUuid t =
      if_intro (Ensures IsUuid) (not (length v == 32) || not (all_codes is_hex v)) _ _ (λ _. tt)
        (λ e. (ground (arith, e), ground (arith, e)))
    where
      v : Text
      v = platform.lower (platform.strip t)

  profile_id-IsUuid : (v : Json) (player : Text) → Ensures IsUuid (profile_id platform v player)
  unfolding profile_id from_legacy_name
  profile_id-IsUuid null player =
      bind-Ensures (λ _. Unit) IsUuid (display_name platform player) _
        (Ensures-any (display_name platform player)) (λ name _. (p.uuid_length _, p.uuid_hex _))
  profile_id-IsUuid (string t) player = validate_uuid-IsUuid t
  profile_id-IsUuid (boolean v) player = tt
  profile_id-IsUuid (integer v) player = tt
  profile_id-IsUuid (real v) player = tt
  profile_id-IsUuid (array v) player = tt
  profile_id-IsUuid (object v) player = tt

  -- the second normalization of a player's name changes nothing
  nfc-IsLabel :
      (high : ℕ) (v : Text) → IsStripped platform high v → IsLabel platform high (platform.nfc v)
  nfc-IsLabel high v (l, (t, e)) =
      subst (IsLabel platform high) (e ∙ (sym (p.nfc_stripped t) ∙ ap platform.nfc (sym e))) l

  normalize_score_mutation-Ensures :
      (s : Submission) → Ensures (IsNormal platform) (normalize_score_mutation platform s)
  unfolding normalize_score_mutation
  normalize_score_mutation-Ensures s =
      bind-Ensures (λ _. Unit) (IsNormal platform) (game platform s.game_id) _
        (Ensures-any (game platform s.game_id))
        (λ game_id _.
          bind-Ensures (IsStripped platform 32) (IsNormal platform)
            (identifier platform (codes "player") 32 (codes "anonymous")
              (player_or_anonymous platform s.player))
            _
            (identifier-IsStripped platform (codes "player") 32 (codes "anonymous")
              (player_or_anonymous platform s.player))
            (λ name n.
              bind-Ensures IsUuid (IsNormal platform)
                (profile_id platform s.profile_id (platform.nfc name)) _
                (profile_id-IsUuid s.profile_id (platform.nfc name))
                (λ profile u.
                  bind-Ensures (IsBetween 0 max_score) (IsNormal platform)
                    (integer_in (codes "score") 0 max_score s.score) _
                    (integer_in-IsBetween (codes "score") 0 max_score s.score)
                    (λ score c.
                      bind-Ensures (Opt (λ t. platform.utf8_length t ≤ max_extra_bytes))
                        (IsNormal platform) (checked_extra platform s.extra) _
                        (checked_extra-Opt platform s.extra)
                        (λ extra x.
                          bind-Ensures (λ _. Unit) (IsNormal platform) (checked_replace s.replace) _
                            (Ensures-any (checked_replace s.replace))
                            (λ replace _.
                              bind-Ensures (Opt (IsBetween 1 max_sqlite_integer))
                                (IsNormal platform) (checked_submission s.submission_id) _
                                (checked_submission-Opt s.submission_id)
                                (λ submission b.
                                  bind-Ensures IsToken (IsNormal platform)
                                    (request platform s.request_id) _
                                    (request-IsToken platform s.request_id)
                                    (λ request_id q.
                                      bind-Ensures IsToken (IsNormal platform)
                                        (attempt platform s.attempt_uuid request_id) _
                                        (attempt-IsToken platform s.attempt_uuid request_id)
                                        (λ attempt_uuid a.
                                          bind-Ensures (IsBetween 1 max_sqlite_integer)
                                            (IsNormal platform) (checked_revision s.revision) _
                                            (checked_revision-IsBetween s.revision)
                                            (λ revision r.
                                              bind-Ensures (IsStripped platform 32)
                                                (IsNormal platform)
                                                (identifier platform (codes "mode") 32
                                                  (codes "classic") s.mode)
                                                _
                                                (identifier-IsStripped platform (codes "mode") 32
                                                  (codes "classic") s.mode)
                                                (λ mode m.
                                                  bind-Ensures (IsStripped platform 32)
                                                    (IsNormal platform)
                                                    (identifier platform (codes "ruleset_version")
                                                      32 (ruleset_version game_id)
                                                      s.ruleset_version)
                                                    _
                                                    (identifier-IsStripped platform
                                                      (codes "ruleset_version") 32
                                                      (ruleset_version game_id) s.ruleset_version)
                                                    (λ rules l.
                                                      bind-Ensures (λ _. Unit) (IsNormal platform)
                                                        (identifier platform (codes "status") 16
                                                          (codes "completed") s.status)
                                                        _
                                                        (Ensures-any (
                                                          identifier platform (codes "status") 16
                                                            (codes "completed") s.status))
                                                        (λ status_text _.
                                                          bind-Ensures (λ _. Unit)
                                                            (IsNormal platform)
                                                            (checked_status status_text) _
                                                            (Ensures-any
                                                            (checked_status status_text))
                                                            (λ status _. record {
                                                            player = nfc-IsLabel 32 name n;
                                                            score = c.1;
                                                            extra = x;
                                                            submission = b;
                                                            request = q;
                                                            attempt = a;
                                                            revision = r;
                                                            profile = u;
                                                            mode = m.0;
                                                            rules = l.0;
                                                            }))))))))))))))

  -- On a platform whose normal form of a text survives stripping and whose UUIDs have 32 hexadecimal
  -- digits, a submission that is accepted is within bounds: score, revision and submission id are
  -- integers that SQLite holds, request and attempt are tokens of 16 to 64 ASCII characters, the
  -- profile is a UUID, the player, the mode and the ruleset are labels of 1 to 32 characters without a control character,
  -- and the extra data has at most 8192 bytes.
  pub normalize_score_mutation-IsNormal :
      (s : Submission) (m : Mutation)
      → normalize_score_mutation platform s ≡ ok m
      → IsNormal platform m
  normalize_score_mutation-IsNormal s m h =
      ensured (IsNormal platform) (normalize_score_mutation platform s) h
        (normalize_score_mutation-Ensures s)
