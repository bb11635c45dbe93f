-- ===== src/Service/Stopping.antt =====
-- `Stop` is called once for each call of `Main` of src/Linux/ServiceLinux.cpp.
use mathlib.Core.Path.{subst}
use system_abstractions.Base.{
  ℕ, suc, ◌≡◌, refl, sym, ap, ◌∙◌, inl, inr, Bool, true, false, List, [], ◌∷◌, ◌++◌, if◌then◌else◌,
  Bool-cases,
}
use system_abstractions.Service.{
  Worker, polling, ended, Main, running, joining, returned, Service, begin, stop, poll, interrupt,
  run_returns, join_at, Action, interrupts, polls, joins, returns, act, run,
}

abbrev pub stops_for : Worker → ℕ
stops_for polling = 0
stops_for ended = 1

abbrev pub is_told : Main → Bool
is_told running = false
is_told joining = true
is_told returned = true

abbrev pub has_handler : Main → Bool
has_handler running = true
has_handler joining = true
has_handler returned = false

abbrev worker_gone : Main → Worker → Bool
worker_gone returned polling = false
worker_gone _ _ = true

pub record IsValid (s : Service) : Type 0 where
  pub stops : s.stops ≡ stops_for s.worker
  pub told : s.told ≡ is_told s.main
  pub handler : s.handler ≡ has_handler s.main
  pub gone : worker_gone s.main s.worker ≡ true

worker_gone-ended : (m : Main) → worker_gone m ended ≡ true
worker_gone-ended running = refl
worker_gone-ended joining = refl
worker_gone-ended returned = refl

IsValid-stop : (s : Service) → s.worker ≡ polling → IsValid s → IsValid (stop s)
IsValid-stop s w v = record {
  stops = ap suc (v.stops ∙ ap stops_for w);
  told = v.told;
  handler = v.handler;
  gone = worker_gone-ended s.main;
}

IsValid-poll : (w : Worker) (s : Service) → s.worker ≡ w → IsValid s → IsValid (poll w s)
unfolding poll
IsValid-poll ended s w v = v
IsValid-poll polling s w v =
    let F : Bool → Bool → Service = λ a b. if a then stop s else if b then stop s else s in
    elim (Bool-cases s.shut_down) [
      | inl e ↦ subst IsValid (sym (ap (λ a. F a s.told) e)) (IsValid-stop s w v)
      | inr e ↦ subst IsValid (sym (ap (λ a. F a s.told) e)) (elim (Bool-cases s.told) [
        | inl t ↦ subst IsValid (sym (ap (F false) t)) (IsValid-stop s w v)
        | inr t ↦ subst IsValid (sym (ap (F false) t)) v
      ])
    ]

IsValid-interrupt : (s : Service) → IsValid s → IsValid (interrupt s)
unfolding interrupt
IsValid-interrupt s v =
    let F : Bool → Service = λ a. if a then record s { shut_down = true } else s in
    elim (Bool-cases s.handler) [
      | inl e ↦
          subst IsValid (sym (ap F e))
            (record { stops = v.stops; told = v.told; handler = v.handler; gone = v.gone })
      | inr e ↦ subst IsValid (sym (ap F e)) v
    ]

IsValid-run_returns :
    (m : Main) (s : Service) (result : ℕ)
    → s.main ≡ m
    → IsValid s
    → IsValid (run_returns m s result)
unfolding run_returns
IsValid-run_returns running s result m v = record {
  stops = v.stops;
  told = refl;
  handler = v.handler ∙ ap has_handler m;
  gone = refl;
}
IsValid-run_returns joining s result m v = v
IsValid-run_returns returned s result m v = v

IsValid-join_at :
    (m : Main) (w : Worker) (s : Service)
    → s.main ≡ m
    → s.worker ≡ w
    → IsValid s
    → IsValid (join_at m w s)
unfolding join_at
IsValid-join_at joining ended s m w v = record {
  stops = v.stops;
  told = v.told ∙ ap is_told m;
  handler = refl;
  gone = ap (worker_gone returned) w;
}
IsValid-join_at joining polling s m w v = v
IsValid-join_at running w s m e v = v
IsValid-join_at returned w s m e v = v

IsValid-act : (s : Service) (a : Action) → IsValid s → IsValid (act s a)
unfolding act
IsValid-act s interrupts v = IsValid-interrupt s v
IsValid-act s polls v = IsValid-poll s.worker s refl v
IsValid-act s joins v = IsValid-join_at s.main s.worker s refl refl v
IsValid-act s (returns result) v = IsValid-run_returns s.main s result refl v

IsValid-run : (s : Service) (actions : List Action) → IsValid s → IsValid (run s actions)
unfolding run
IsValid-run s [] v = v
IsValid-run s (a ∷ actions) v = IsValid-run (act s a) actions (IsValid-act s a v)

gone_ended : (w : Worker) → worker_gone returned w ≡ true → stops_for w ≡ 1
gone_ended ended g = refl
gone_ended polling g = absurd (cc g)

IsValid-main : (shut_down : Bool) (actions : List Action) → IsValid (run (begin shut_down) actions)
unfolding begin
IsValid-main shut_down actions =
    IsValid-run (begin shut_down) actions
      (record { stops = refl; told = refl; handler = refl; gone = refl })

-- In every order of signals, rounds of the thread and the end of `Run`, with the flag set from the
-- start or not: once `Main` has returned, `Stop` was called exactly once and SIGTERM has its
-- former handler.
pub main_stops_once :
    (shut_down : Bool) (actions : List Action)
    → (run (begin shut_down) actions).main ≡ returned
    → ((run (begin shut_down) actions).stops ≡ 1)
      × ((run (begin shut_down) actions).handler ≡ false)
main_stops_once shut_down actions e =
    let s : Service = run (begin shut_down) actions in
    let v = IsValid-main shut_down actions in
    (
      v.stops ∙ gone_ended s.worker (sym (ap (λ m. worker_gone m s.worker) e) ∙ v.gone),
      v.handler ∙ ap has_handler e,
    )

run-append :
    (s : Service) (early later : List Action) → run s (early ++ later) ≡ run (run s early) later
unfolding run
run-append s [] later = refl
run-append s (a ∷ early) later = run-append (act s a) early later

-- Where `Run` runs and the thread polls, SIGTERM leads to a call of `Stop` in the thread's next
-- round.
pub interrupt_stops :
    (shut_down : Bool) (actions : List Action)
    → (run (begin shut_down) actions).worker ≡ polling
    → (run (begin shut_down) actions).main ≡ running
    → (run (begin shut_down) (actions ++ interrupts ∷ polls ∷ [])).stops ≡ 1
unfolding run act interrupt poll
interrupt_stops shut_down actions w m =
    let s : Service = run (begin shut_down) actions in
    let v = IsValid-main shut_down actions in
    let asked : Service = record s { shut_down = true } in
    ap (λ x. x.stops) (run-append (begin shut_down) actions (interrupts ∷ polls ∷ []))
    ∙ ap (λ b. (poll (if b then asked else s).worker (if b then asked else s)).stops)
        (v.handler ∙ ap has_handler m)
    ∙ ap (λ x. (poll x asked).stops) w
    ∙ ap suc (v.stops ∙ ap stops_for w)
