-- ===== src/Profile/Tests.antt =====
-- Runs of the profile controller's model.
use classic_games.Prelude.{
  ℕ, false, ◌≡◌, ◌↔◌, refl, Bool, true, none, some, List, [], ◌∷◌, ◌&&◌, ◌==◌, if◌then◌else◌,
}
use classic_games.Profile.{
  start, bind, queue_launch, pop_ready_launch, is_current, agrees, expected_for, select, resolve,
}
use classic_games.Profile.Launch.{
  Call, resolving, binding, completing, popping, selections, launches, takes, profile_after,
  bound_to, calls_on, known, is_current-bind, pop_ready_launch-queue_launch,
}

abbrev all_done : ℕ → Bool
all_done future = true

abbrev calls : List Call
calls = popping false ∷ binding 1 4 none true ∷ resolving 7 ∷ completing 1 ∷ []

is_current-bind_example :
    (is_current
        (bind 2 5 none true (start 0)).0
        (calls_on all_done (bind 2 5 none true (start 0)).1 calls)
      ≡ true)
    ↔ ((selections calls ≡ 0)
        × ((p : ℕ) → expected_for true none 0 ≡ some p → profile_after 0 calls ≡ p))
unfolding start
is_current-bind_example = is_current-bind all_done 2 5 none true (start 0) calls

pop_ready_launch-queue_launch_example :
    (pop_ready_launch true (calls_on all_done (queue_launch 3 (start 0)) calls)).0 ≡ (
      if (selections calls == 0)
        && (takes calls == 0)
        && agrees (bound_to (known (start 0)) calls) (profile_after 0 calls)
      then some 3
      else none)
unfolding start launches
pop_ready_launch-queue_launch_example =
    pop_ready_launch-queue_launch all_done 3 (start 0) calls refl

-- a launch is taken once, and a later one takes the place of the first
launch_taken_once :
    (pop_ready_launch true (pop_ready_launch true (queue_launch 3 (resolve 7 (start 0)))).1).0
    ≡ none
unfolding pop_ready_launch queue_launch resolve start
launch_taken_once = refl

launches_for_resolved : (pop_ready_launch true (queue_launch 3 (resolve 7 (start 0)))).0 ≡ some 3
unfolding pop_ready_launch queue_launch resolve start
launches_for_resolved = refl

forgets_on_selection :
    (pop_ready_launch true (select 8 (queue_launch 3 (resolve 7 (start 0))))).0 ≡ none
unfolding pop_ready_launch queue_launch resolve start select
forgets_on_selection = refl
