-- ===== src/Express/CircuitBreaker/Laws.antt =====
-- The state machine of the Express circuit breaker.
use lupid_sdk.Prelude.{
  ℕ, ◌+◌, ◌≤◌, ◌<◌, ◌≡◌, refl, ◌∙◌, ◌≢◌, ◌↔◌, ◌⊎◌, Bool, true, false, List, [], ◌∷◌, ◌++◌, map,
  arith, length, All,
}
use lupid_sdk.Express.CircuitBreaker.{
  BreakerState, closed, open_, half_open, CircuitBreaker, make, should_skip, Event, asks, succeeds,
  fails, step, run,
}

-- What each state says of the counter and of the probe flag.
abbrev pub Fits : BreakerState → CircuitBreaker → Type 0
Fits closed b = (b.failures < b.threshold) × (b.probing ≡ false)
Fits open_ b = (b.threshold ≤ b.failures) × (b.probing ≡ false)
Fits half_open b = (b.threshold ≤ b.failures) × (b.probing ≡ true)

pub record IsValid (b : CircuitBreaker) : Type 0 where
  pub positive : 0 < b.threshold
  pub fits : Fits b.state b

-- A probe is in flight until its caller reports.
abbrev pub IsReport : Event → Type 0
IsReport (asks now) = ⊥
IsReport succeeds = Unit
IsReport (fails now) = Unit

pub make-IsValid : (n t : ℕ) → IsValid (make n t)
unfolding make
make-IsValid n t = ground arith

module _ (f o t r : ℕ) (p : Bool) where
  abbrev at : BreakerState → CircuitBreaker
  at s = record {
    state = s;
    failures = f;
    opened_at = o;
    probing = p;
    threshold = t;
    reset_timeout_ms = r;
  }

  step-at-IsValid : (s : BreakerState) (e : Event) → IsValid (at s) → IsValid (step (at s) e)
  unfolding step
  step-at-IsValid closed (asks now) v = ground arith
  step-at-IsValid open_ (asks now) v = ground arith
  step-at-IsValid half_open (asks now) v = ground arith
  step-at-IsValid s succeeds v = ground arith
  step-at-IsValid closed (fails now) v = ground arith
  step-at-IsValid open_ (fails now) v = ground arith
  step-at-IsValid half_open (fails now) v = ground arith

pub step-IsValid : (b : CircuitBreaker) (e : Event) → IsValid b → IsValid (step b e)
step-IsValid b e v =
    step-at-IsValid b.failures b.opened_at b.threshold b.reset_timeout_ms b.probing b.state e v

-- After any history of calls the three states mean what they say: closed has fewer failures than
-- the threshold, open and half-open at least as many, and a probe is out exactly in half-open.
pub run-IsValid : (b : CircuitBreaker) (es : List Event) → IsValid b → IsValid (run b es)
unfolding run
run-IsValid b [] v = v
run-IsValid b (e ∷ es) v = run-IsValid (step b e) es (step-IsValid b e v)

-- When a caller may go to the network: in the closed state, or as the first to ask once the reset
-- timeout of an open breaker has run out.
pub should_skip-eq-false_iff :
    (b : CircuitBreaker) (now : ℕ)
    → IsValid b
    → ((should_skip b now).1 ≡ false)
      ↔ ((b.state ≡ closed) ⊎ ((b.state ≡ open_) × (b.opened_at + b.reset_timeout_ms ≤ now)))
unfolding should_skip
should_skip-eq-false_iff b now v = (ground (arith, v.fits), ground (arith, v.fits))

step_waiting : (b : CircuitBreaker) (e : Event) → b.state ≡ half_open → ¬ IsReport e → step b e ≡ b
unfolding step
step_waiting b (asks now) w h = ground arith
step_waiting b succeeds w h = absurd (h tt)
step_waiting b (fails now) w h = absurd (h tt)

run_waiting :
    (b : CircuitBreaker) (es : List Event)
    → b.state ≡ half_open
    → All (λ e. ¬ IsReport e) es
    → run b es ≡ b
unfolding run
run_waiting b [] w h = refl
run_waiting b (e ∷ es) w (h, hs) = rw (step_waiting b e w h) (run_waiting b es w hs)

pub should_skip-half_open :
    (b : CircuitBreaker) (now : ℕ) → b.state ≡ half_open → (should_skip b now).1 ≡ true
unfolding should_skip
should_skip-half_open b now w = ground arith

pub should_skip-eq_half_open :
    (b : CircuitBreaker) (now : ℕ) → b.state ≡ half_open → should_skip b now ≡ (b, true)
unfolding should_skip
should_skip-eq_half_open b now w = ground arith

pub should_skip_probe :
    (b : CircuitBreaker) (now : ℕ)
    → b.state ≢ closed
    → (should_skip b now).1 ≡ false
    → (should_skip b now).0.state ≡ half_open
unfolding should_skip
should_skip_probe b now ne pass = ground arith

-- After the question that lets a caller of a breaker that is not closed through, as the probe, every
-- other caller is refused at whatever time, until somebody records an outcome, be it that of the probe
-- or the late one of an older request.
pub single_probe :
    (b : CircuitBreaker) (now later : ℕ) (es : List Event)
    → b.state ≢ closed
    → (should_skip b now).1 ≡ false
    → All (λ e. ¬ IsReport e) es
    → (should_skip (run (should_skip b now).0 es) later).1 ≡ true
single_probe b now later es ne pass quiet =
    let w = should_skip_probe b now ne pass in
    rw (run_waiting (should_skip b now).0 es w quiet)
      (should_skip-half_open (should_skip b now).0 later w)

run-append : (b : CircuitBreaker) (xs ys : List Event) → run b (xs ++ ys) ≡ run (run b xs) ys
unfolding run
run-append b [] ys = refl
run-append b (x ∷ xs) ys = run-append (step b x) xs ys

step_threshold : (b : CircuitBreaker) (e : Event) → (step b e).threshold ≡ b.threshold
unfolding step
step_threshold b (asks now) = ground arith
step_threshold b succeeds = refl
step_threshold b (fails now) = ground arith

run_threshold : (b : CircuitBreaker) (es : List Event) → (run b es).threshold ≡ b.threshold
unfolding run
run_threshold b [] = refl
run_threshold b (e ∷ es) = run_threshold (step b e) es ∙ step_threshold b e

-- One failure outside the half-open state.
step_fails :
    (b : CircuitBreaker) (now : ℕ)
    → IsValid b
    → b.state ≢ half_open
    → ((step b (fails now)).state ≢ half_open) × ((step b (fails now)).failures ≡ b.failures + 1)
unfolding step
step_fails b now v ne = ground (arith, v.fits)

run_fails :
    (b : CircuitBreaker) (ts : List ℕ)
    → IsValid b
    → b.state ≢ half_open
    → ((run b (map fails ts)).state ≡ open_) ↔ (b.threshold ≤ b.failures + length ts)
unfolding run
run_fails b [] v ne = (ground (arith, v.fits), ground (arith, v.fits))
run_fails b (t ∷ ts) v ne =
    let (still, more) = step_fails b t v ne in
    let (to, from) = run_fails (step b (fails t)) ts (step-IsValid b (fails t) v) still in
    (
      λ e. omega (arith, to e, step_threshold b (fails t), more),
      λ h. from (omega (arith, step_threshold b (fails t), more)),
    )

step_succeeds :
    (b : CircuitBreaker)
    → ((step b succeeds).failures ≡ 0)
      × ((step b succeeds).state ≡ closed)
      × ((step b succeeds).threshold ≡ b.threshold)
unfolding step
step_succeeds b = (refl, refl, refl)

run_succeeds_fails :
    (b : CircuitBreaker) (ts : List ℕ)
    → IsValid b
    → ((run b (succeeds ∷ map fails ts)).state ≡ open_) ↔ (b.threshold ≤ length ts)
unfolding run
run_succeeds_fails b ts v =
    let (none_yet, shut, same) = step_succeeds b in
    let (to, from) =
      run_fails (step b succeeds) ts (step-IsValid b succeeds v) (λ e. cc (shut, e)) in
    (λ e. omega (arith, to e, same, none_yet), λ h. from (omega (arith, same, none_yet)))

-- Whatever came before, a success starts the count anew: the failures that follow it open the
-- breaker exactly when there are at least as many of them as the threshold.
pub opens_iff_consecutive :
    (b : CircuitBreaker) (before : List Event) (ts : List ℕ)
    → IsValid b
    → ((run b (before ++ succeeds ∷ map fails ts)).state ≡ open_) ↔ (b.threshold ≤ length ts)
opens_iff_consecutive b before ts v =
    let (to, from) = run_succeeds_fails (run b before) ts (run-IsValid b before v) in
    rw (run-append b before (succeeds ∷ map fails ts)) (
      λ e. omega (arith, to e, run_threshold b before),
      λ h. from (omega (arith, run_threshold b before)),
    )
