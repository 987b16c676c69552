-- ===== src/Profile.antt =====
-- client/profile_controller.py: the launcher's choice of a profile, the operations that run for it,
-- and the launch that waits for it. Identifiers, which are only compared, are numbers; `done` is
-- the parameter that answers `future.done()`.
pub mod Launch
mod Tests
use package.classic_games.Prelude.{
  ℕ, ◌+◌, Bool, true, false, ◌&&◌, not, Option, none, some, List, [], ◌∷◌, ◌==◌, if◌then◌else◌,
}

pub data Startup : Type 0 where
  loading resolved load_failed : Startup

pub record Operation : Type 0 where
  pub kind : ℕ
  pub future : ℕ
  pub generation : ℕ
  pub expected : Option ℕ

pub record Token : Type 0 where
  pub game_id : ℕ
  pub generation : ℕ
  pub expected : Option ℕ

pub record Controller : Type 0 where
  pub generation : ℕ
  pub profile_id : ℕ
  pub identity_resolved : Bool
  pub startup_state : Startup
  pub operations : List Operation
  pub queued_launch : Option Token

-- ProfileController(profile_id)
unfoldable pub start : ℕ → Controller
start p = record {
  generation = 0;
  profile_id = p;
  identity_resolved = false;
  startup_state = loading;
  operations = [];
  queued_launch = none;
}

unfoldable pub select : ℕ → Controller → Controller
select p c = record c {
  generation = c.generation + 1;
  profile_id = p;
  identity_resolved = true;
  startup_state = resolved;
  queued_launch = none;
}

abbrev pub is_none : Option ℕ → Bool
is_none none = true
is_none (some _) = false

-- the token of a launch that was queued before the profile was known
abbrev pub bind_token : ℕ → ℕ → Option Token → Option Token
bind_token generation p none = none
bind_token generation p (some t) =
    if t.generation == generation && is_none t.expected
    then some (record t { expected = some p })
    else some t

unfoldable pub resolve : ℕ → Controller → Controller
resolve p c = record c {
  profile_id = p;
  identity_resolved = true;
  startup_state = resolved;
  queued_launch = bind_token c.generation p c.queued_launch;
}

unfoldable pub start_load : Controller → Controller
start_load c = record c { identity_resolved = false; startup_state = loading }

unfoldable pub fail_load : Controller → Controller
fail_load c = if not c.identity_resolved then record c { startup_state = load_failed } else c

-- the dictionary of operations, by kind
unfoldable pub lookup : ℕ → List Operation → Option Operation
lookup kind [] = none
lookup kind (o ∷ rest) = let later = lookup kind rest in if o.kind == kind then some o else later

unfoldable pub discard : ℕ → List Operation → List Operation
discard kind [] = []
discard kind (o ∷ rest) =
    let later = discard kind rest in if o.kind == kind then later else o ∷ later

abbrev pub expected_for : Bool → Option ℕ → ℕ → Option ℕ
expected_for match_profile none p = if match_profile then some p else none
expected_for match_profile (some e) p = some e

unfoldable pub bind : ℕ → ℕ → Option ℕ → Bool → Controller → Operation × Controller
bind kind future expected match_profile c =
    let o : Operation = record {
      kind = kind;
      future = future;
      generation = c.generation;
      expected = expected_for match_profile expected c.profile_id;
    } in
    (o, record c { operations = o ∷ discard kind c.operations })

-- an expectation that the current profile meets
abbrev pub agrees : Option ℕ → ℕ → Bool
agrees none p = true
agrees (some e) p = e == p

unfoldable pub is_current : Operation → Controller → Bool
is_current o c = (o.generation == c.generation) && agrees o.expected c.profile_id

abbrev current_in : Controller → Option Operation → Bool
current_in c none = false
current_in c (some o) = is_current o c

unfoldable pub has_operation : ℕ → Controller → Bool
has_operation kind c = current_in c (lookup kind c.operations)

unfoldable pub queue_launch : ℕ → Controller → Controller
queue_launch game c = record c {
  queued_launch = some (record {
    game_id = game;
    generation = c.generation;
    expected = if c.identity_resolved then some c.profile_id else none;
  });
}

abbrev pub deliver : Controller → Token → Option ℕ
deliver c t =
    if not (t.generation == c.generation)
    then none
    else if not (agrees t.expected c.profile_id)
    then none
    else some t.game_id

abbrev pub pop_token : Controller → Option Token → Option ℕ × Controller
pop_token c none = (none, c)
pop_token c (some t) = (deliver c t, record c { queued_launch = none })

unfoldable pub pop_ready_launch : Bool → Controller → Option ℕ × Controller
pop_ready_launch ready c = if ready then pop_token c c.queued_launch else (none, c)

module _ (done : ℕ → Bool) where
  abbrev pub finish : ℕ → Controller → Option Operation → Option Operation × Controller
  finish kind c none = (none, c)
  finish kind c (some o) =
      if done o.future
      then (some o, record c { operations = discard kind c.operations })
      else (none, c)

  unfoldable pub completed : ℕ → Controller → Option Operation × Controller
  completed kind c = finish kind c (lookup kind c.operations)
