-- ===== src/TaskExecution/Loop.antt =====
-- What the loop over the events of the runtime leaves.
use auto_reign.Prelude.{
  ◌≡◌, refl, ◌⊎◌, inl, inr, Bool, true, false, List, [], ◌∷◌, ◌++◌, Result, arith, Bool-cases,
  Result-cases,
}
use auto_reign.Prelude.Exec.{Exec, continue, ◌>>=◌}
use auto_reign.RuntimeTypes.{RuntimeEvent}
use auto_reign.ChatBlocks.{Fresh}
use auto_reign.Reducer.{Emission, Python, accept}
use auto_reign.TaskExecution.Failures.{Exit, failure, closed}
use auto_reign.TaskExecution.World.{
  PreparedTaskExecution, Payload, emitted, TaskExecutionEvent, World, head_or, check_cancel,
  yield_event,
}
use auto_reign.TaskExecution.Execute.{
  Item, event, raises, unless, send_all, reduce, next_event, run_stream,
}
use auto_reign.TaskExecution.Ends.{
  Holds, Holds-bind, is_open, all_open, event_of, Going, Silent, Told, Ended, arrive-Going,
}

all_open-append :
    (events : List TaskExecutionEvent) (e : TaskExecutionEvent)
    → all_open events ≡ true
    → is_open e.payload ≡ true
    → all_open (events ++ (e ∷ [])) ≡ true
all_open-append [] e h k = ground arith
all_open-append (x ∷ events) e h k = ground (arith, all_open-append events e)

-- Where the execution may be when an exception leaves the `try` block, or a part of it.
abbrev pub Attempted : PreparedTaskExecution → Exit → World → Type 0
Attempted p (failure f) w = ((begun : Bool) × Going begun w) ⊎ Silent w
Attempted p closed w = Ended p w ⊎ Going true w

-- The reader that goes away at the last event.
abbrev pub Left : PreparedTaskExecution → Exit → World → Type 0
Left p (failure f) w = ⊥
Left p closed w = Ended p w

module _ (p : PreparedTaskExecution) where
  pub unless-Going :
      (stops : Bool) (rest : Exec World Exit (Unit {0})) (w : World)
      → Going true w
      → Holds (λ _. Going true) (Attempted p) (rest w)
      → Holds (λ _. Going true) (Attempted p) (unless stops rest w)
  unless-Going true rest w g h = g
  unless-Going false rest w g h = h

  pub check_cancel-Going :
      (begun : Bool) (w : World)
      → Going begun w
      → Holds (λ stops. Going begun) (Attempted p) (check_cancel w)
  unfolding check_cancel
  check_cancel-Going begun w g = arrive-Going begun w g

  pub yield_open-Going :
      (payload : Payload) (w : World)
      → is_open payload ≡ true
      → Going true w
      → Holds (λ _. Going true) (Attempted p) (yield_event p payload w)
  unfolding yield_event
  yield_open-Going payload w h g =
      let sent_open = all_open-append w.sent (event_of p payload) g.sent_open h in
      elim (Bool-cases (head_or false w.leaves)) [
        | inl goes ↦
            rw goes (inr (record { sent_open = sent_open; unclaimed = g.unclaimed; flag = g.flag }))
        | inr stays ↦
            rw stays (record { sent_open = sent_open; unclaimed = g.unclaimed; flag = g.flag })
      ]

  pub yield_last-Ended :
      (payload : Payload) (w : World)
      → all_open w.sent ≡ true
      → Told p payload w
      → Holds (λ _. Ended p) (Left p) (yield_event p payload w)
  unfolding yield_event
  yield_last-Ended payload w h told = elim (Bool-cases (head_or false w.leaves)) [
    | inl goes ↦
        rw goes
          (record { earlier = w.sent; last = payload; sent = refl; earlier_open = h; told = told })
    | inr stays ↦
        rw stays
          (record { earlier = w.sent; last = payload; sent = refl; earlier_open = h; told = told })
  ]

  send_all-Going :
      (emissions : List Emission) (w : World)
      → Going true w
      → Holds (λ _. Going true) (Attempted p) (send_all p emissions w)
  unfolding send_all
  send_all-Going [] w g = g
  send_all-Going (e ∷ emissions) w g =
      Holds-bind (λ _. Going true) (λ _. Going true) (Attempted p) (Attempted p)
        (yield_event p (emitted e) w) _ (yield_open-Going (emitted e) w refl g)
        (λ _ v k.
          Holds-bind (λ stops. Going true) (λ _. Going true) (Attempted p) (Attempted p)
            (check_cancel v) _ (check_cancel-Going true v k)
            (λ stops u l.
              unless-Going stops (send_all p emissions) u l (send_all-Going emissions u l))
            (λ e v h. h))
        (λ e v h. h)

  reduce-Going :
      (python : Python) (fresh : Fresh) (e : RuntimeEvent) (w : World)
      → Going true w
      → Holds (λ emissions. Going true) (Attempted p) (reduce python fresh e w)
  unfolding reduce
  reduce-Going python fresh e w g = elim (Result-cases (accept python fresh e w.reducer).0) [
    | inl (emissions, returned) ↦
        rw returned (record { sent_open = g.sent_open; unclaimed = g.unclaimed; flag = g.flag })
    | inr (raised, h) ↦
        rw h
          (inl (true, record { sent_open = g.sent_open; unclaimed = g.unclaimed; flag = g.flag }))
  ]

  next_event-Going :
      (item : Item) (w : World)
      → Going true w
      → Holds (λ _. Going true) (Attempted p) (next_event item w)
  unfolding next_event
  next_event-Going (event fresh e) w g = g
  next_event-Going (raises f) w g = inl (true, g)

  -- A step after which the loop looks whether it is to stop.
  then_check-Going :
      {A : Type 0} (m : Result Exit A × World) (rest : A → Exec World Exit (Unit {0}))
      → Holds (λ _. Going true) (Attempted p) m
      → ((a : A) (w : World) → Going true w → Holds (λ _. Going true) (Attempted p) (rest a w))
      → Holds
          (λ _. Going true)
          (Attempted p)
          (continue m.0 (λ a. check_cancel >>= λ stops. unless stops (rest a)) m.1)
  then_check-Going m rest h next =
      Holds-bind (λ _. Going true) (λ _. Going true) (Attempted p) (Attempted p) m _ h
        (λ a v k.
          Holds-bind (λ stops. Going true) (λ _. Going true) (Attempted p) (Attempted p)
            (check_cancel v) _ (check_cancel-Going true v k)
            (λ stops u l. unless-Going stops (rest a) u l (next a u l)) (λ e v h. h))
        (λ e v h. h)

  pub run_stream-Going :
      (python : Python) (items : List Item) (w : World)
      → Going true w
      → Holds (λ _. Going true) (Attempted p) (run_stream python p items w)
  unfolding run_stream
  run_stream-Going python [] w g =
      Holds-bind (λ stops. Going true) (λ _. Going true) (Attempted p) (Attempted p)
        (check_cancel w) _ (check_cancel-Going true w g) (λ stops u l. l) (λ e v h. h)
  run_stream-Going python (item ∷ items) w g =
      Holds-bind (λ stops. Going true) (λ _. Going true) (Attempted p) (Attempted p)
        (check_cancel w) _ (check_cancel-Going true w g)
        (λ stops u l. unless-Going stops _ u l (
          then_check-Going (next_event item u) _ (next_event-Going item u l) (λ met v k.
            then_check-Going (reduce python met.0 met.1 v) _ (reduce-Going python met.0 met.1 v k)
              (λ emissions x m.
                then_check-Going (send_all p emissions x) _ (send_all-Going emissions x m)
                  (λ _ y n. run_stream-Going python items y n)))))
        (λ e v h. h)
