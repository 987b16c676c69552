-- ===== src/Profile/Launch.antt =====
-- client/profile_controller.py: what a launch and an operation see of the calls made while they wait.
use mathlib.Core.List.{foldl}
use mathlib.Core.Path.{subst}
use classic_games.Prelude.{
  ℕ, ◌+◌, ◌≡◌, refl, sym, ap, ◌∙◌, Bool, true, false, ◌↔◌, ◌&&◌, not, Option, none, some, List, [],
  ◌∷◌, ◌==◌, if◌then◌else◌, if_intro, arith,
}
use classic_games.Profile.{
  Controller, Token, finish, Operation, select, resolve, start_load, fail_load, bind, completed,
  queue_launch, pop_ready_launch, bind_token, pop_token, expected_for, is_current, agrees, lookup,
}

-- every method that changes the controller
pub data Call : Type 0 where
  selecting resolving : ℕ → Call
  starting failing : Call
  binding : ℕ → ℕ → Option ℕ → Bool → Call
  completing : ℕ → Call
  launching : ℕ → Call
  popping : Bool → Call

-- how often a profile is selected, a launch is queued, and one is taken
unfoldable pub selections : List Call → ℕ
selections [] = 0
selections (selecting _ ∷ calls) = selections calls + 1
selections (_ ∷ calls) = selections calls

unfoldable pub launches : List Call → ℕ
launches [] = 0
launches (launching _ ∷ calls) = launches calls + 1
launches (_ ∷ calls) = launches calls

unfoldable pub takes : List Call → ℕ
takes [] = 0
takes (popping ready ∷ calls) = if ready then takes calls + 1 else takes calls
takes (_ ∷ calls) = takes calls

-- the profile chosen or resolved last
unfoldable pub profile_after : ℕ → List Call → ℕ
profile_after p [] = p
profile_after p (selecting q ∷ calls) = profile_after q calls
profile_after p (resolving q ∷ calls) = profile_after q calls
profile_after p (_ ∷ calls) = profile_after p calls

-- the profile a launch is bound to: the one known when it was queued, else the first resolved
unfoldable pub bound_to : Option ℕ → List Call → Option ℕ
bound_to (some p) calls = some p
bound_to none [] = none
bound_to none (resolving p ∷ calls) = some p
bound_to none (_ ∷ calls) = bound_to none calls

module _ (done : ℕ → Bool) where
  unfoldable pub call : Controller → Call → Controller
  call c (selecting p) = select p c
  call c (resolving p) = resolve p c
  call c starting = start_load c
  call c failing = fail_load c
  call c (binding kind future expected match_profile) =
      (bind kind future expected match_profile c).1
  call c (completing kind) = (completed done kind c).1
  call c (launching game) = queue_launch game c
  call c (popping ready) = (pop_ready_launch ready c).1

  abbrev pub calls_on : Controller → List Call → Controller
  calls_on c calls = foldl call c calls

-- the token of a launch
abbrev queued : ℕ → ℕ → Option ℕ → Option Token
queued game generation e = some (record { game_id = game; generation = generation; expected = e })

-- the profile that the launcher knows when the launch is queued
abbrev pub known : Controller → Option ℕ
known c = if c.identity_resolved then some c.profile_id else none

-- the calls that leave generation and profile alone, and the launch too
Steady : Controller → Controller → Type 0
Steady c d = (d.generation ≡ c.generation) × (d.profile_id ≡ c.profile_id)

Fixed : Controller → Controller → Type 0
Fixed c d =
    (d.generation ≡ c.generation)
    × (d.profile_id ≡ c.profile_id)
    × (d.queued_launch ≡ c.queued_launch)

failing-Fixed : (c : Controller) → Fixed c (fail_load c)
unfolding Fixed fail_load
failing-Fixed c =
    if_intro (Fixed c) (not c.identity_resolved) _ _ (λ _. (refl, refl, refl))
      (λ _. (refl, refl, refl))

popping-Steady : (ready : Bool) (c : Controller) → Steady c (pop_ready_launch ready c).1
unfolding Steady pop_ready_launch
popping-Steady false c = (refl, refl)
popping-Steady true c = popped c.queued_launch
  where
    popped : (o : Option Token) → Steady c (pop_token c o).1
    popped none = (refl, refl)
    popped (some t) = (refl, refl)

-- nothing waits after a launch is taken
taken : (c : Controller) → (pop_ready_launch true c).1.queued_launch ≡ none
unfolding pop_ready_launch
taken c = gone c.queued_launch refl
  where
    gone : (o : Option Token) → c.queued_launch ≡ o → (pop_token c o).1.queued_launch ≡ none
    gone none e = e
    gone (some t) e = refl

popped_none :
    (ready : Bool) (c : Controller)
    → c.queued_launch ≡ none
    → (pop_ready_launch ready c).1.queued_launch ≡ none
unfolding pop_ready_launch
popped_none false c h = h
popped_none true c h = taken c

taken_already :
    (b : Bool) (n : ℕ) (t : Option Token) → (if b && (n + 1 == 0) then t else none) ≡ none
taken_already b n t = ground arith

popping_idle : (c : Controller) → (pop_ready_launch false c).1 ≡ c
unfolding pop_ready_launch
popping_idle c = refl

popped_launch :
    (d : Controller) (game g n k : ℕ) (e : Option ℕ) (q : ℕ)
    → d.generation ≡ g + n
    → d.profile_id ≡ q
    → d.queued_launch ≡ (if (n == 0) && (k == 0) then queued game g e else none)
    → (pop_ready_launch true d).0 ≡ (if (n == 0) && (k == 0) && agrees e q then some game else none)
unfolding pop_ready_launch
popped_launch d game g n k e q x y w = rw w (ground (arith, x, y))

some_inj : (a b : ℕ) → some a ≡ some b → a ≡ b
some_inj a b e = cc

-- what an expectation asks of the profile
agrees_iff : (o : Option ℕ) (q : ℕ) → (agrees o q ≡ true) ↔ ((p : ℕ) → o ≡ some p → q ≡ p)
agrees_iff none q = (λ _ p e. cc, λ _. refl)
agrees_iff (some v) q =
    (λ h p e. sym (ground (arith, h)) ∙ some_inj v p e, λ f. ground (arith, f v refl))

current_iff :
    (g x n : ℕ) (o : Option ℕ) (q : ℕ)
    → x ≡ g + n
    → (((g == x) && agrees o q) ≡ true) ↔ ((n ≡ 0) × ((p : ℕ) → o ≡ some p → q ≡ p))
current_iff g x n o q e = (
  λ h. (ground (arith, h, e), (agrees_iff o q).0 (ground (arith, h))),
  λ (z, f). ground (arith, z, e, (agrees_iff o q).1 f),
)

module _ (done : ℕ → Bool) where
  finish-Fixed :
      (kind : ℕ) (c : Controller) (o : Option Operation) → Fixed c ((finish done kind c o).1)
  unfolding Fixed
  finish-Fixed kind c none = (refl, refl, refl)
  finish-Fixed kind c (some o) =
      if_intro (λ (r : Option Operation × Controller). Fixed c (r.1)) (done o.future) _ _
        (λ _. (refl, refl, refl)) (λ _. (refl, refl, refl))

  completing-Fixed : (kind : ℕ) (c : Controller) → Fixed c ((completed done kind c).1)
  unfolding completed
  completing-Fixed kind c = finish-Fixed kind c (lookup kind c.operations)

  -- a call that leaves generation and profile alone
  steady :
      (calls : List Call) (c d : Controller)
      → d.generation ≡ c.generation
      → d.profile_id ≡ c.profile_id
      → ((calls_on done d calls).generation ≡ d.generation + selections calls)
        × ((calls_on done d calls).profile_id ≡ profile_after d.profile_id calls)
      → ((calls_on done d calls).generation ≡ c.generation + selections calls)
        × ((calls_on done d calls).profile_id ≡ profile_after c.profile_id calls)
  steady calls c d g p (x, y) = (omega (arith, g, x), y ∙ ap (λ q. profile_after q calls) p)

  generation-grows :
      (calls : List Call) (c : Controller)
      → ((calls_on done c calls).generation ≡ c.generation + selections calls)
        × ((calls_on done c calls).profile_id ≡ profile_after c.profile_id calls)
  unfolding call selections profile_after Fixed Steady select resolve start_load bind queue_launch
  generation-grows [] c = (omega arith, refl)
  generation-grows (selecting p ∷ calls) c =
      let (g, p) = generation-grows calls (select p c) in (omega (arith, g), p)
  generation-grows (resolving p ∷ calls) c = generation-grows calls (resolve p c)
  generation-grows (starting ∷ calls) c = generation-grows calls (start_load c)
  generation-grows (failing ∷ calls) c =
      steady calls c (fail_load c) (failing-Fixed c).0 (failing-Fixed c).1
        (generation-grows calls (fail_load c))
  generation-grows (binding kind f e m ∷ calls) c = generation-grows calls (bind kind f e m c).1
  generation-grows (completing kind ∷ calls) c =
      steady calls c (completed done kind c).1 (completing-Fixed kind c).0
        (completing-Fixed kind c).1 (generation-grows calls (completed done kind c).1)
  generation-grows (launching game ∷ calls) c = generation-grows calls (queue_launch game c)
  generation-grows (popping ready ∷ calls) c =
      steady calls c (pop_ready_launch ready c).1 (popping-Steady ready c).0
        (popping-Steady ready c).1 (generation-grows calls (pop_ready_launch ready c).1)

  -- An operation that is bound, and any calls of the controller after it: it is current exactly when
  -- no profile has been selected since, and the profile chosen or resolved last is the one that it
  -- expects, if it expects one.
  pub is_current-bind :
      (kind future : ℕ) (expected : Option ℕ) (match_profile : Bool) (c : Controller)
      (calls : List Call)
      → let (o, bound) = bind kind future expected match_profile c in
        (is_current o (calls_on done bound calls) ≡ true) ↔ (
          (selections calls ≡ 0)
          × ((p : ℕ)
              → expected_for match_profile expected c.profile_id ≡ some p
              → profile_after c.profile_id calls ≡ p))
  unfolding is_current bind
  is_current-bind kind future e m c calls =
      let (g, p) = generation-grows calls (bind kind future e m c).1 in
      rw p (
        current_iff c.generation _ (selections calls) (expected_for m e c.profile_id)
          (profile_after c.profile_id calls) g)

  no_launch :
      (calls : List Call) (c : Controller)
      → launches calls ≡ 0
      → c.queued_launch ≡ none
      → (calls_on done c calls).queued_launch ≡ none
  unfolding call launches Fixed select resolve start_load bind queue_launch
  no_launch [] c l h = h
  no_launch (selecting p ∷ calls) c l h = no_launch calls (select p c) l refl
  no_launch (resolving p ∷ calls) c l h =
      no_launch calls (resolve p c) l (ap (bind_token c.generation p) h)
  no_launch (starting ∷ calls) c l h = no_launch calls (start_load c) l h
  no_launch (failing ∷ calls) c l h = no_launch calls (fail_load c) l ((failing-Fixed c).2 ∙ h)
  no_launch (binding kind f e m ∷ calls) c l h = no_launch calls ((bind kind f e m c).1) l h
  no_launch (completing kind ∷ calls) c l h =
      no_launch calls ((completed done kind c).1) l ((completing-Fixed kind c).2 ∙ h)
  no_launch (launching game ∷ calls) c l h = absurd (omega (arith, l))
  no_launch (popping ready ∷ calls) c l h =
      no_launch calls (pop_ready_launch ready c).1 l (popped_none ready c h)

  -- the launch after the calls
  Waits : ℕ → ℕ → Option ℕ → List Call → Controller → Type 0
  Waits game generation e calls d = d.queued_launch ≡ (
      if (selections calls == 0) && (takes calls == 0)
      then queued game generation (bound_to e calls)
      else none)

  queue_launch-Waits :
      (game generation : ℕ) (e : Option ℕ) (calls : List Call) (c : Controller)
      → launches calls ≡ 0
      → c.generation ≡ generation
      → c.queued_launch ≡ queued game generation e
      → Waits game generation e calls (calls_on done c calls)
  unfolding call selections launches takes bound_to Waits Fixed select resolve start_load bind
      queue_launch
  queue_launch-Waits game g none [] c l i h = h
  queue_launch-Waits game g (some p) [] c l i h = h
  queue_launch-Waits game g e (selecting p ∷ calls) c l i h =
      ground (arith, no_launch calls (select p c) l refl)
  queue_launch-Waits game g none (resolving p ∷ calls) c l i h =
      queue_launch-Waits game g (some p) calls (resolve p c) l i (ground (arith, i, h))
  queue_launch-Waits game g (some q) (resolving p ∷ calls) c l i h =
      queue_launch-Waits game g (some q) calls (resolve p c) l i (ground (arith, i, h))
  queue_launch-Waits game g none (starting ∷ calls) c l i h =
      queue_launch-Waits game g none calls (start_load c) l i h
  queue_launch-Waits game g (some q) (starting ∷ calls) c l i h =
      queue_launch-Waits game g (some q) calls (start_load c) l i h
  queue_launch-Waits game g none (failing ∷ calls) c l i h =
      queue_launch-Waits game g none calls (fail_load c) l ((failing-Fixed c).0 ∙ i)
        ((failing-Fixed c).2 ∙ h)
  queue_launch-Waits game g (some q) (failing ∷ calls) c l i h =
      queue_launch-Waits game g (some q) calls (fail_load c) l ((failing-Fixed c).0 ∙ i)
        ((failing-Fixed c).2 ∙ h)
  queue_launch-Waits game g none (binding kind f x m ∷ calls) c l i h =
      queue_launch-Waits game g none calls ((bind kind f x m c).1) l i h
  queue_launch-Waits game g (some q) (binding kind f x m ∷ calls) c l i h =
      queue_launch-Waits game g (some q) calls ((bind kind f x m c).1) l i h
  queue_launch-Waits game g none (completing kind ∷ calls) c l i h =
      queue_launch-Waits game g none calls ((completed done kind c).1) l
        ((completing-Fixed kind c).0 ∙ i) ((completing-Fixed kind c).2 ∙ h)
  queue_launch-Waits game g (some q) (completing kind ∷ calls) c l i h =
      queue_launch-Waits game g (some q) calls ((completed done kind c).1) l
        ((completing-Fixed kind c).0 ∙ i) ((completing-Fixed kind c).2 ∙ h)
  queue_launch-Waits game g none (launching other ∷ calls) c l i h = absurd (omega (arith, l))
  queue_launch-Waits game g (some q) (launching other ∷ calls) c l i h = absurd (omega (arith, l))
  queue_launch-Waits game g none (popping false ∷ calls) c l i h =
      subst (λ d. Waits game g none calls (calls_on done d calls)) (sym (popping_idle c))
        (queue_launch-Waits game g none calls c l i h)
  queue_launch-Waits game g (some q) (popping false ∷ calls) c l i h =
      subst (λ d. Waits game g (some q) calls (calls_on done d calls)) (sym (popping_idle c))
        (queue_launch-Waits game g (some q) calls c l i h)
  queue_launch-Waits game g none (popping true ∷ calls) c l i h =
      no_launch calls (pop_ready_launch true c).1 l (taken c)
      ∙ sym (taken_already (selections calls == 0) (takes calls) _)
  queue_launch-Waits game g (some q) (popping true ∷ calls) c l i h =
      no_launch calls (pop_ready_launch true c).1 l (taken c)
      ∙ sym (taken_already (selections calls == 0) (takes calls) _)

  -- A launch that is queued, whatever the controller did before, and any calls after it that queue no
  -- other launch: it is delivered exactly when no launch has been taken and no profile selected since,
  -- and the profile chosen or resolved last is the one that it is bound to, the profile known when it
  -- was queued or else the first one resolved since; else nothing is.
  pub pop_ready_launch-queue_launch :
      (game : ℕ) (c : Controller) (calls : List Call)
      → launches calls ≡ 0
      → (pop_ready_launch true (calls_on done (queue_launch game c) calls)).0 ≡ (
          if (selections calls == 0)
            && (takes calls == 0)
            && agrees (bound_to (known c) calls) (profile_after c.profile_id calls)
          then some game
          else none)
  unfolding Waits queue_launch
  pop_ready_launch-queue_launch game c calls l =
      let (g, p) = generation-grows calls (queue_launch game c) in
      popped_launch (calls_on done (queue_launch game c) calls) game c.generation (selections calls)
        (takes calls) (bound_to (known c) calls) (profile_after c.profile_id calls) g p
        (queue_launch-Waits game c.generation (known c) calls (queue_launch game c) l refl refl)
