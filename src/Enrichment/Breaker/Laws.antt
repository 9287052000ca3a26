-- ===== src/Enrichment/Breaker/Laws.antt =====
-- What the breaker of a reference keeps, when it opens, and what it lets through.
use lupid_sdk.Prelude.{
  ℕ, ◌+◌, ◌≤◌, ◌<◌, ◌≡◌, refl, ap, ◌∙◌, ◌≢◌, ◌⊎◌, String, List, [], ◌∷◌, ◌++◌, arith, eq_iff,
  eq_refl, ltb, length, All, Bool-cases, inl, inr,
}
use lupid_sdk.JsMap
use lupid_sdk.JsMap.{JsMap}
use lupid_sdk.JsMap.Laws.{get-set}
use lupid_sdk.Enrichment.Breaker.{
  closed, open_, half_open, RefState, get, check, check_breaker, succeed, drop_old, count_failure,
  fail, record_breaker_failure, record_breaker_success,
}

-- Fewer than five failures are kept, and none unless the breaker is closed.
pub record IsValid (s : RefState) : Type 0 where
  pub few : length s.failure_times < 5
  pub only_closed : (s.state ≡ closed) ⊎ (s.failure_times ≡ [])

pub data Event : Type 0 where
  checks : ℕ → Event
  succeeds : Event
  fails : ℕ → Event

unfoldable pub step : RefState → Event → RefState
step s (checks now) = check now s
step s succeeds = succeed s
step s (fails now) = fail now s

-- The newest event first.
unfoldable pub run : RefState → List Event → RefState
unfolding step
run s [] = s
run s (event ∷ before) = step (run s before) event

check-IsValid : (now : ℕ) (s : RefState) → IsValid s → IsValid (check now s)
unfolding check
check-IsValid now s v = record {
  few = ground (arith, v.few);
  only_closed = ground (arith, v.only_closed);
}

fail-IsValid : (now : ℕ) (s : RefState) → IsValid s → IsValid (fail now s)
unfolding fail count_failure
fail-IsValid now s v = record {
  few = ground (arith, v.few);
  only_closed = ground (arith, v.only_closed);
}

-- Whatever is checked and recorded, fewer than five failure times are kept, and none by a breaker
-- that is open or half open.
pub run_keeps_few : (s : RefState) (events : List Event) → IsValid s → IsValid (run s events)
unfolding run step succeed
run_keeps_few s [] v = v
run_keeps_few s (checks now ∷ before) v =
    check-IsValid now (run s before) (run_keeps_few s before v)
run_keeps_few s (succeeds ∷ before) v = record { few = omega arith; only_closed = inl refl }
run_keeps_few s (fails now ∷ before) v = fail-IsValid now (run s before) (run_keeps_few s before v)

-- The times never fall, and the first is at least `low`.
abbrev pub Rising : ℕ → List ℕ → Type 0
Rising low [] = Unit
Rising low (t ∷ ts) = (low ≤ t) × Rising t ts

-- Within the window of 30 s before `now`.
abbrev pub Recent : ℕ → ℕ → Type 0
Recent now t = now ≤ t + 30000

Rising-Recent :
    (now low : ℕ) (ts : List ℕ) → Rising low ts → now ≤ low + 30000 → All (Recent now) ts
Rising-Recent now low [] r h = tt
Rising-Recent now low (t ∷ ts) (up, r) h = (omega arith, Rising-Recent now t ts r (omega arith))

drop_old_suffix :
    (now low : ℕ) (ts : List ℕ)
    → Rising low ts
    → (older : List ℕ) × (ts ≡ older ++ drop_old now ts) × All (Recent now) (drop_old now ts)
unfolding drop_old
drop_old_suffix now low [] r = ([], refl, tt)
drop_old_suffix now low (t ∷ ts) (up, r) =
    let (older, same, recent) = drop_old_suffix now t ts r in
    elim (Bool-cases (ltb (t + 30000) now)) [
      | inl past ↦ (t ∷ older, rw past (ap (λ xs. t ∷ xs) same), rw past recent)
      | inr young ↦
          let near : now ≤ t + 30000 = ground (arith, young) in
          ([], rw young refl, rw young (near, Rising-Recent now t ts r near))
    ]

opened_by :
    (now : ℕ) (s : RefState)
    → s.state ≡ closed
    → (fail now s).state ≡ open_
    → 5 ≤ length (drop_old now (s.failure_times ++ now ∷ []))
unfolding fail count_failure
opened_by now s was is = ground (arith, was, is)

-- A closed breaker whose failures were recorded in the order of their times opens only on five
-- failures of the last 30 s: the newest of those on record, this one included.
pub opens_on_window :
    (now low : ℕ) (s : RefState)
    → Rising low (s.failure_times ++ now ∷ [])
    → s.state ≡ closed
    → (fail now s).state ≡ open_
    → (older : List ℕ) × (recent : List ℕ) × (s.failure_times ++ now ∷ [] ≡ older ++ recent)
      × (5 ≤ length recent)
      × All (Recent now) recent
opens_on_window now low s rising was is =
    let times = s.failure_times ++ now ∷ [] in
    let (older, same, recent) = drop_old_suffix now low times rising in
    (older, drop_old now times, same, opened_by now s was is, recent)

-- The checks of one reference at these times, the newest first.
unfoldable pub checked : String → JsMap RefState → List ℕ → JsMap RefState
checked ref m [] = m
checked ref m (now ∷ before) = (check_breaker ref now (checked ref m before)).0

get-set_same : (ref : String) (s : RefState) (m : JsMap RefState) → get ref (JsMap.set ref s m) ≡ s
unfolding get
get-set_same ref s m = ground (arith, eq_refl ref, get-set ref ref s m)

check_half_open : (now : ℕ) (s : RefState) → s.state ≡ half_open → (check now s).state ≡ half_open
unfolding check
check_half_open now s h = ground (arith, h)

checked_half_open :
    (ref : String) (m : JsMap RefState) (nows : List ℕ)
    → (get ref m).state ≡ half_open
    → (get ref (checked ref m nows)).state ≡ half_open
unfolding checked check_breaker
checked_half_open ref m [] h = h
checked_half_open ref m (now ∷ before) h =
    let s = get ref (checked ref m before) in
    ap (λ x. x.state) (get-set_same ref (check now s) (checked ref m before))
    ∙ check_half_open now s (checked_half_open ref m before h)

-- A half-open breaker answers half open to every caller, however many have asked, until an outcome is
-- recorded: it does not hold back all but one.
pub half_open_lets_all :
    (ref : String) (m : JsMap RefState) (nows : List ℕ) (now : ℕ)
    → (get ref m).state ≡ half_open
    → (check_breaker ref now (checked ref m nows)).1 ≡ half_open
unfolding check_breaker
half_open_lets_all ref m nows now h =
    check_half_open now (get ref (checked ref m nows)) (checked_half_open ref m nows h)

get-set_other :
    (ref other : String) (s : RefState) (m : JsMap RefState)
    → ref ≢ other
    → get other (JsMap.set ref s m) ≡ get other m
unfolding get
get-set_other ref other s m apart = ground (arith, eq_iff ref other, get-set ref other s m)

-- The breaker of a reference is not touched by what is recorded for another one.
pub breakers_are_separate :
    (ref other : String) (now : ℕ) (m : JsMap RefState)
    → ref ≢ other
    → (get other (record_breaker_failure ref now m) ≡ get other m)
      × (get other (record_breaker_success ref m) ≡ get other m)
      × (get other (check_breaker ref now m).0 ≡ get other m)
unfolding record_breaker_failure record_breaker_success check_breaker
breakers_are_separate ref other now m apart =
    let s = get ref m in
    (
      get-set_other ref other (fail now s) m apart,
      get-set_other ref other (succeed s) m apart,
      get-set_other ref other (check now s) m apart,
    )
