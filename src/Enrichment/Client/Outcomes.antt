-- ===== src/Enrichment/Client/Outcomes.antt =====
-- What a call of an enrichment webhook gives, and what it does to the guards.
use lupid_sdk.Prelude.{
  ℕ, String, true, false, Option, none, some, [], ◌∷◌, ◌≡◌, ◌⊎◌, refl, ap, ◌∙◌, arith, Option-cases,
  Bool-cases, eq_refl, inl, inr, if◌then◌else◌, get_or,
}
use lupid_sdk.JsMap
use mathlib.Core.Option
use lupid_sdk.Enrichment.Breaker.{
  open_, check_breaker, record_breaker_success, record_breaker_failure,
}
use lupid_sdk.Enrichment.RateLimit.{Config}
use lupid_sdk.Enrichment.Response.{Shape, Values, validate_response_shape}
use lupid_sdk.Enrichment.Client.{
  EnrichmentDefFull, EnrichmentResult, resolved, Guards, Reply, fetch_threw, http, finished,
  failure_result, past_breaker, fetch_start, fetch_end, ttl_of, refresh_settle, extract_value,
  needs_refresh, dimension,
}

-- A reply that counts as a success: a 2xx response with a JSON body of the declared shape.
unfoldable pub good_values : Shape → Reply → Option Values
good_values shape (http true (some parsed)) = validate_response_shape shape parsed
good_values shape _ = none

-- On a good reply the fetch gives its values and records a success; on any other it records a
-- failure and gives what `on_failure` says, for any definition, clock and guards.
pub fetch_end_cases :
    (ref : String) (def : EnrichmentDefFull) (reply : Reply) (now : ℕ) (g : Guards)
    → ((values : Values) × (good_values def.shape reply ≡ some values)
        × (fetch_end ref def reply now g ≡ (
          record g { breakers = record_breaker_success ref g.breakers },
          resolved (record { values = values; cached_at = now; is_negative = false }),
        )))
      ⊎ ((good_values def.shape reply ≡ none)
          × (fetch_end ref def reply now g ≡ (
            record g { breakers = record_breaker_failure ref now g.breakers },
            failure_result ref def now,
          )))
unfolding good_values fetch_end failure_result
fetch_end_cases ref def fetch_threw now g = inr (refl, refl)
fetch_end_cases ref def (http false body) now g = inr (refl, refl)
fetch_end_cases ref def (http true none) now g = inr (refl, refl)
fetch_end_cases ref def (http true (some parsed)) now g =
    elim (Option-cases (validate_response_shape def.shape parsed)) [
      | inl off ↦ inr (off, ground (arith, off))
      | inr (values, on) ↦ inl (values, on, ground (arith, on))
    ]

module _ (bucket_config : Config) (env : String → Option String) (json : Values → String)
    (sign : String → String → Option String) where
  -- Whatever a fetch ends with before its request: nothing is sent while the breaker is open, and no
  -- token is taken either.
  pub open_sends_nothing :
      (ref : String) (def : EnrichmentDefFull) (dims : Values) (now : ℕ) (g : Guards)
      → (check_breaker ref now g.breakers).1 ≡ open_
      → fetch_start bucket_config env json sign ref def dims now g ≡ (
        record g { breakers = (check_breaker ref now g.breakers).0 },
        finished (failure_result ref def now),
      )
  unfolding fetch_start past_breaker
  open_sends_nothing ref def dims now g is =
      ap
        (λ state.
          past_breaker bucket_config env json sign state ref def dims now
            (record g { breakers = (check_breaker ref now g.breakers).0 }))
        is

-- What a failed refresh writes over the entry of a fail-open enrichment.
abbrev negative : String → ℕ → EnrichmentResult
negative ref now = record { values = (ref, none) ∷ []; cached_at = now; is_negative = true }

failed_refresh :
    {Lru : Type 0} (lru_set : String → EnrichmentResult → ℕ → Lru → Lru) (ref : String)
    (def : EnrichmentDefFull) (cache_key : String) (reply : Reply) (now : ℕ) (g : Guards)
    (cache : Lru)
    → good_values def.shape reply ≡ none
    → refresh_settle lru_set def cache_key ((fetch_end ref def reply now g).1) cache ≡ (
        if def.fail_closed
        then cache
        else lru_set cache_key (negative ref now) (get_or def.negative_ttl_ms def.ttl_ms) cache)
unfolding refresh_settle failure_result ttl_of
failed_refresh lru_set ref def cache_key reply now g cache bad =
    elim (fetch_end_cases ref def reply now g) [
      | inl (values, good, is) ↦ absurd (ground (arith, bad, good))
      | inr (off, is) ↦ ap (λ x. refresh_settle lru_set def cache_key (x.1) cache) is ∙ by_mode
    ]
  where
    by_mode : refresh_settle lru_set def cache_key (failure_result ref def now) cache ≡ (
        if def.fail_closed
        then cache
        else lru_set cache_key (negative ref now) (get_or def.negative_ttl_ms def.ttl_ms) cache)
    by_mode = ground arith

negative_is_lost :
    (ref : String) (def : EnrichmentDefFull) (now t : ℕ)
    → (extract_value ref (negative ref now) ≡ none)
      × (needs_refresh def t (negative ref now) ≡ false)
unfolding extract_value needs_refresh dimension JsMap.get
negative_is_lost ref def now t = (ground (arith, eq_refl ref), refl)

-- The value of an entry that is still alive when its background refresh ends with a failing reply is
-- lost, where the enrichment is fail-open: what the cache then gives reads as null and starts no other
-- refresh at any time; where it is fail-closed the value stays. It rests on one law of the LRU cache:
-- a `get` right after a `set` of its key gives what was set.
pub failed_refresh_overwrites :
    {Lru : Type 0} (lru_get : String → Lru → Option EnrichmentResult)
    (lru_set : String → EnrichmentResult → ℕ → Lru → Lru) (ref : String) (def : EnrichmentDefFull)
    (cache_key v : String) (reply : Reply) (now t : ℕ) (g : Guards) (cache : Lru)
    (hit : EnrichmentResult)
    → ((k : String) (r : EnrichmentResult) (ttl : ℕ) (c : Lru)
        → lru_get k (lru_set k r ttl c) ≡ some r)
    → lru_get cache_key cache ≡ some hit
    → extract_value ref hit ≡ some v
    → good_values def.shape reply ≡ none
    → let after = refresh_settle lru_set def cache_key ((fetch_end ref def reply now g).1) cache in
      (Option.map (extract_value ref) (lru_get cache_key after)
        ≡ some (if def.fail_closed then some v else none))
      × (Option.map (needs_refresh def t) (lru_get cache_key after)
          ≡ some (if def.fail_closed then needs_refresh def t hit else false))
failed_refresh_overwrites lru_get lru_set ref def cache_key v reply now t g cache hit law alive is_v
      bad =
    let settled = failed_refresh lru_set ref def cache_key reply now g cache bad in
    let ttl = get_or def.negative_ttl_ms def.ttl_ms in
    let written = lru_set cache_key (negative ref now) ttl cache in
    let kept = law cache_key (negative ref now) ttl cache in
    let (reads_null, starts_none) = negative_is_lost ref def now t in
    elim (Bool-cases def.fail_closed) [
      | inl closed ↦
          let same : lru_get cache_key
                (refresh_settle lru_set def cache_key ((fetch_end ref def reply now g).1) cache)
              ≡ some hit =
            ap (lru_get cache_key) (settled ∙ ap (λ b. if b then cache else written) closed)
            ∙ alive in
          simp (same, closed) (ap some is_v, refl)
      | inr open_mode ↦
          let same : lru_get cache_key
                (refresh_settle lru_set def cache_key ((fetch_end ref def reply now g).1) cache)
              ≡ some (negative ref now) =
            ap (lru_get cache_key) (settled ∙ ap (λ b. if b then cache else written) open_mode)
            ∙ kept in
          simp (same, open_mode) (ap some reads_null, ap some starts_none)
    ]
