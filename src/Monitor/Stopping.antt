-- ===== src/Monitor/Stopping.antt =====
-- The descriptors of src/Linux/DirectoryMonitorLinux.cpp, and the end of its thread.
use mathlib.Core.Path.{subst}
use system_abstractions.Base.{
  ℕ, ◌≡◌, refl, sym, ap, ◌∙◌, inl, inr, Bool, true, false, ◌&&◌, ◌||◌, ◌==◌, arith, not, map, List,
  [], ◌∷◌, Option, none, some, if◌then◌else◌, Bool-cases,
}
use system_abstractions.Subprocess.Posix.System.{without, to_list}
use system_abstractions.Subprocess.Posix.Joining.{without-head}
use system_abstractions.Monitor.{
  Effect, opened, closed, called, Worker, no_worker, waiting, calling, ended, Monitor, round,
  call_back, round_at, close_queue, stop_signalled, stop_joined, Answers, give_up, with_watch,
  with_queue, start, Action, signals, joins, starts, goes_on, start_at, act, run, stop,
}

-- The queues that effects leave open.
unfoldable pub still_open : List Effect → List ℕ
still_open [] = []
still_open (opened fd ∷ log) = fd ∷ still_open log
still_open (closed fd ∷ log) = without fd (still_open log)
still_open (called f ∷ log) = still_open log

unfoldable pub is_in : ℕ → List ℕ → Bool
is_in fd [] = false
is_in fd (g ∷ gs) = fd == g || is_in fd gs

-- Whether effects close only queues that are open.
unfoldable pub closes_open : List Effect → Bool
closes_open [] = true
closes_open (opened fd ∷ log) = closes_open log
closes_open (closed fd ∷ log) = is_in fd (still_open log) && closes_open log
closes_open (called f ∷ log) = closes_open log

-- A queue is held, with a watch, as long as the thread is there.
abbrev pub IsHeld : Worker → Option ℕ → Type 0
IsHeld no_worker q = q ≡ none
IsHeld waiting q = (fd : ℕ) × (q ≡ some fd)
IsHeld calling q = (fd : ℕ) × (q ≡ some fd)
IsHeld ended q = (fd : ℕ) × (q ≡ some fd)

pub record HoldsQueue (m : Monitor) : Type 0 where
  pub opens : still_open m.log ≡ to_list m.queue
  pub held : IsHeld m.worker m.queue
  pub sound : closes_open m.log ≡ true

-- A queue that is open is closed.
close_sound :
    (fd : ℕ) (gs : List ℕ) (log : List Effect)
    → still_open log ≡ fd ∷ gs
    → closes_open log ≡ true
    → closes_open (closed fd ∷ log) ≡ true
unfolding closes_open is_in
close_sound fd gs log o s = let e : (fd == fd) ≡ true = ground arith in rw (o, e, s)

pub close_queue_sound :
    (q : Option ℕ) (log : List Effect)
    → still_open log ≡ to_list q
    → closes_open log ≡ true
    → closes_open (close_queue q log) ≡ true
close_queue_sound none log o s = s
close_queue_sound (some fd) log o s = close_sound fd [] log o s

pub close_queue_lem :
    (q : Option ℕ) (log : List Effect)
    → still_open log ≡ to_list q
    → still_open (close_queue q log) ≡ []
unfolding still_open
close_queue_lem none log o = o
close_queue_lem (some fd) log o = ap (without fd) o ∙ without-head fd []

HoldsQueue-give_up :
    (m : Monitor) (fd : ℕ)
    → still_open m.log ≡ []
    → closes_open m.log ≡ true
    → m.worker ≡ no_worker
    → HoldsQueue (give_up m fd).0
unfolding give_up still_open closes_open
HoldsQueue-give_up m fd o s w = record {
  sound = close_sound fd (still_open m.log) (opened fd ∷ m.log) refl s;
  opens = without-head fd (still_open m.log) ∙ o;
  held = subst (λ x. IsHeld x none) (sym w) refl;
}

HoldsQueue-with_watch :
    (m : Monitor) (fd : ℕ) (watch : Option ℕ)
    → still_open m.log ≡ []
    → closes_open m.log ≡ true
    → m.worker ≡ no_worker
    → HoldsQueue (with_watch m fd watch).0
unfolding with_watch still_open closes_open
HoldsQueue-with_watch m fd none o s w =
    let v = HoldsQueue-give_up m fd o s w in
    record { sound = v.sound; opens = v.opens; held = v.held }
HoldsQueue-with_watch m fd (some watch) o s w = record {
  sound = s;
  opens = ap (◌∷◌ fd) o;
  held = (fd, refl);
}

HoldsQueue-with_queue :
    (m : Monitor) (a : Answers) (q : Option ℕ)
    → still_open m.log ≡ []
    → closes_open m.log ≡ true
    → m.worker ≡ no_worker
    → HoldsQueue (with_queue m a q).0
unfolding with_queue
HoldsQueue-with_queue m a none o s w = record {
  sound = s;
  opens = o;
  held = subst (λ x. IsHeld x none) (sym w) refl;
}
HoldsQueue-with_queue m a (some fd) o s w = elim (Bool-cases a.flags_read) [
  | inr f ↦ rw (f, with_queue) (HoldsQueue-give_up m fd o s w)
  | inl f ↦ elim (Bool-cases a.flags_set) [
    | inr g ↦ rw (f, g, with_queue) (HoldsQueue-give_up m fd o s w)
    | inl g ↦ rw (f, g, with_queue) (HoldsQueue-with_watch m fd a.watch o s w)
  ]
]

HoldsQueue-start :
    (m : Monitor) (callback : ℕ) (a : Answers)
    → m.worker ≡ no_worker
    → HoldsQueue m
    → HoldsQueue (start m callback a).0
unfolding start
HoldsQueue-start m callback a w v =
    let q : m.queue ≡ none = subst (λ x. IsHeld x m.queue) w v.held in
    let n : Monitor = record m { stop_signal = false; callback = callback } in
    let F : Bool → Monitor = λ b. (if not b then (m, false) else with_queue n a a.queue).0 in
    elim (Bool-cases a.signal_made) [
      | inr e ↦ subst HoldsQueue (sym (ap F e)) v
      | inl e ↦
          subst HoldsQueue (sym (ap F e))
            (HoldsQueue-with_queue n a a.queue (v.opens ∙ ap to_list q) v.sound w)
    ]

HoldsQueue-round :
    (m : Monitor) (changed : Bool)
    → m.worker ≡ waiting
    → HoldsQueue m
    → HoldsQueue (round m changed)
unfolding round
HoldsQueue-round m changed e v =
    let h : IsHeld waiting m.queue = subst (λ x. IsHeld x m.queue) e v.held in
    elim (Bool-cases m.stop_signal) [
      | inl s ↦ rw (s, round) (record { opens = v.opens; held = h; sound = v.sound })
      | inr s ↦ elim (Bool-cases changed) [
        | inl c ↦ rw (s, c, round) (record { opens = v.opens; held = h; sound = v.sound })
        | inr c ↦ rw (s, c, round) (record { opens = v.opens; held = v.held; sound = v.sound })
      ]
    ]

HoldsQueue-round_at :
    (w : Worker) (m : Monitor) (changed : Bool)
    → m.worker ≡ w
    → HoldsQueue m
    → HoldsQueue (round_at w m changed)
unfolding round_at call_back still_open closes_open
HoldsQueue-round_at no_worker m changed e v = v
HoldsQueue-round_at ended m changed e v = v
HoldsQueue-round_at calling m changed e v = record {
  opens = v.opens;
  held = subst (λ x. IsHeld x m.queue) e v.held;
  sound = v.sound;
}
HoldsQueue-round_at waiting m changed e v = HoldsQueue-round m changed e v

HoldsQueue-stop_signalled :
    (w : Worker) (m : Monitor) → HoldsQueue m → HoldsQueue (stop_signalled w m)
unfolding stop_signalled
HoldsQueue-stop_signalled no_worker m v = v
HoldsQueue-stop_signalled calling m v = record { sound = v.sound; opens = v.opens; held = v.held }
HoldsQueue-stop_signalled waiting m v = record { sound = v.sound; opens = v.opens; held = v.held }
HoldsQueue-stop_signalled ended m v = record { sound = v.sound; opens = v.opens; held = v.held }

HoldsQueue-stop_joined : (w : Worker) (m : Monitor) → HoldsQueue m → HoldsQueue (stop_joined w m)
unfolding stop_joined
HoldsQueue-stop_joined no_worker m v = v
HoldsQueue-stop_joined waiting m v = v
HoldsQueue-stop_joined calling m v = v
HoldsQueue-stop_joined ended m v = record {
  opens = close_queue_lem m.queue m.log v.opens;
  sound = close_queue_sound m.queue m.log v.opens v.sound;
  held = refl;
}

HoldsQueue-start_at :
    (w : Worker) (m : Monitor) (callback : ℕ) (a : Answers)
    → m.worker ≡ w
    → HoldsQueue m
    → HoldsQueue (start_at w m callback a)
unfolding start_at
HoldsQueue-start_at no_worker m callback a e v = HoldsQueue-start m callback a e v
HoldsQueue-start_at waiting m callback a e v = v
HoldsQueue-start_at calling m callback a e v = v
HoldsQueue-start_at ended m callback a e v = v

HoldsQueue-act : (m : Monitor) (a : Action) → HoldsQueue m → HoldsQueue (act m a)
unfolding act
HoldsQueue-act m signals v = HoldsQueue-stop_signalled m.worker m v
HoldsQueue-act m joins v = HoldsQueue-stop_joined m.worker m v
HoldsQueue-act m (starts callback a) v = HoldsQueue-start_at m.worker m callback a refl v
HoldsQueue-act m (goes_on changed) v = HoldsQueue-round_at m.worker m changed refl v

-- In every order of the parts of `Start` and `Stop` and the thread's steps, whatever the operating
-- system answers, the queues left open are the one that the monitor holds, and it holds one if and
-- only if its thread is there: none is lost where `Start` fails, and only an open one is closed.
pub run-HoldsQueue :
    (m : Monitor) (actions : List Action) → HoldsQueue m → HoldsQueue (run m actions)
unfolding run
run-HoldsQueue m [] v = v
run-HoldsQueue m (a ∷ actions) v = run-HoldsQueue (act m a) actions (HoldsQueue-act m a v)

-- Without a thread nothing goes on.
run-idle : (m : Monitor) (later : List Bool) → m.worker ≡ no_worker → run m (map goes_on later) ≡ m
unfolding run act round_at
run-idle m [] w = refl
run-idle m (changed ∷ later) w =
    ap (λ x. run (round_at x m changed) (map goes_on later)) w ∙ run-idle m later w

-- The thread is there and has not ended.
abbrev pub is_going : Worker → Bool
is_going no_worker = false
is_going waiting = true
is_going calling = true
is_going ended = false

-- The call that is still to come where `select` has returned for a change.
abbrev pub with_last_call : Worker → ℕ → List Effect → List Effect
with_last_call calling callback log = called callback ∷ log
with_last_call no_worker callback log = log
with_last_call waiting callback log = log
with_last_call ended callback log = log

stopped : Worker → Monitor → Monitor
stopped w m = record m {
  worker = no_worker;
  watch = none;
  queue = none;
  stop_signal = true;
  log = close_queue m.queue (with_last_call w m.callback m.log);
}

stop-stopped :
    (w : Worker) (m : Monitor) (changed changed_again : Bool)
    → m.worker ≡ w
    → is_going w ≡ true
    → stop m changed changed_again ≡ stopped w m
unfolding run act stop_signalled round_at round call_back stop_joined stopped
stop-stopped no_worker m changed changed_again w g = cc
stop-stopped ended m changed changed_again w g = cc
stop-stopped waiting m changed changed_again w g =
    let m₁ : Monitor = record m { stop_signal = true } in
    let later = goes_on changed_again ∷ joins ∷ [] in
    ap (λ x. run (stop_signalled x m) (goes_on changed ∷ later)) w
    ∙ ap (λ x. run (round_at x m₁ changed) later) w
stop-stopped calling m changed changed_again w g =
    let m₁ : Monitor = record m { stop_signal = true } in
    let later = goes_on changed_again ∷ joins ∷ [] in
    ap (λ x. run (stop_signalled x m) (goes_on changed ∷ later)) w
    ∙ ap (λ x. run (round_at x m₁ changed) later) w

last_call_opens :
    (w : Worker) (callback : ℕ) (log : List Effect)
    → still_open (with_last_call w callback log) ≡ still_open log
unfolding still_open
last_call_opens no_worker callback log = refl
last_call_opens waiting callback log = refl
last_call_opens calling callback log = refl
last_call_opens ended callback log = refl

-- Where the thread of a monitor is there and has not ended, `Stop` ends it within two of its
-- steps, whatever changed; no queue is open afterwards, the owner's function was called once more
-- where `select` had returned for a change ahead of the stop, and otherwise not, and it is not
-- called until the next `Start`.
pub stop_lem :
    (m : Monitor) (changed changed_again : Bool) (later : List Bool)
    → is_going m.worker ≡ true
    → HoldsQueue m
    → let m' = run (stop m changed changed_again) (map goes_on later) in
      (still_open m'.log ≡ [])
      × (m'.worker ≡ no_worker)
      × (m'.log ≡ close_queue m.queue (with_last_call m.worker m.callback m.log))
unfolding stopped
stop_lem m changed changed_again later g v =
    let e : run (stop m changed changed_again) (map goes_on later) ≡ stopped m.worker m =
      ap (λ n. run n (map goes_on later)) (stop-stopped m.worker m changed changed_again refl g)
      ∙ run-idle (stopped m.worker m) later refl in
    let o = last_call_opens m.worker m.callback m.log ∙ v.opens in
    (
      ap (λ n. still_open n.log) e ∙ close_queue_lem m.queue _ o,
      ap (λ n. n.worker) e,
      ap (λ n. n.log) e,
    )
