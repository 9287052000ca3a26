-- ===== src/Enrichment/Client/FailClosed.antt =====
-- A fail-closed enrichment (packages/sdk/src/enrichment/client.ts) never gives `null`.
use lupid_sdk.Prelude.{
  ℕ, String, Bool, true, false, Option, none, some, [], ◌∷◌, ◌≡◌, sym, arith, inl, inr, subst,
  if◌then◌else◌,
}
use lupid_sdk.JsMap
use lupid_sdk.JsMap.{JsMap}
use lupid_sdk.Pii.Json.{Value}
use lupid_sdk.Enrichment.Breaker.{BreakerState, closed, open_, half_open, check_breaker}
use lupid_sdk.Enrichment.RateLimit.{Config, try_acquire_token}
use lupid_sdk.Enrichment.Response.{required_string, Values, response_of}
use lupid_sdk.Enrichment.Response.Acceptance.{accepted_reply_conforms}
use lupid_sdk.Enrichment.Client.{
  EnrichmentDefFull, EnrichmentResult, resolved, failed_error, config_error, Guards, Reply,
  fetch_threw, http, Start, finished, sends, failure_result, past_breaker, fetch_start,
  extract_value, dimension, Resolution, value, throws_failed, throws_config, settle, resolve_miss,
  signed_request, get_secret, request_body, end_of, build_cache_key,
}
use lupid_sdk.Enrichment.Client.Outcomes.{good_values, fetch_end_cases}

-- A result that the fetch of a fail-closed definition with a required text of its own name gives
-- has that text.
typed_value :
    (ref : String) (raw : Option Value) (def : EnrichmentDefFull) (reply : Reply) (values : Values)
    → response_of ref raw ≡ some def.shape
    → JsMap.get ref def.shape ≡ some required_string
    → good_values def.shape reply ≡ some values
    → (s : String) × (dimension ref values ≡ some s)
unfolding good_values dimension
typed_value ref raw def fetch_threw values is on good = absurd (cc good)
typed_value ref raw def (http false body) values is on good = absurd (cc good)
typed_value ref raw def (http true none) values is on good = absurd (cc good)
typed_value ref raw def (http true (some parsed)) values is on good =
    let (fs, same, each) = accepted_reply_conforms ref raw def.shape parsed values is good in
    let (v, kept, (s, given, text)) = each ref required_string on in (s, ground (arith, kept, text))

-- How a call ends that does not fail open: with a text, or with one of the two errors.
abbrev pub HasText : Resolution → Type 0
HasText (value none) = ⊥
HasText (value (some s)) = Unit
HasText throws_failed = Unit
HasText throws_config = Unit

-- A start that does not end with a result.
abbrev StartFails : Start → Type 0
StartFails (finished (resolved r)) = ⊥
StartFails (finished failed_error) = Unit
StartFails (finished config_error) = Unit
StartFails (sends body sig) = Unit

StartFails-if :
    (b : Bool) (x y : Start) → StartFails x → StartFails y → StartFails (if b then x else y)
StartFails-if true x y one two = one
StartFails-if false x y one two = two

failure-StartFails :
    (ref : String) (def : EnrichmentDefFull) (now : ℕ)
    → def.fail_closed ≡ true
    → StartFails (finished (failure_result ref def now))
unfolding failure_result
failure-StartFails ref def now is =
    subst
      (λ b. StartFails (
        finished (
          if b
          then failed_error
          else resolved
              (record { values = (ref, none) ∷ []; cached_at = now; is_negative = true }))))
      (sym is) tt

module _ (bucket_config : Config) (env : String → Option String) (json : Values → String)
    (sign : String → String → Option String) where
  signed-StartFails :
      (def : EnrichmentDefFull) (dims : Values)
      → StartFails (signed_request bucket_config env json sign def dims)
  unfolding signed_request
  signed-StartFails def dims =
      elim (get_secret env def.secret_ref)
        as (λ o. StartFails (elim o [
          | none ↦ finished config_error
          | some secret ↦ elim (sign (json (request_body def.include_dimensions dims [])) secret) [
            | none ↦ finished config_error
            | some sig ↦ sends (json (request_body def.include_dimensions dims [])) sig
          ]
        ])) [
          | none ↦ tt
          | some secret ↦
              elim (sign (json (request_body def.include_dimensions dims [])) secret)
                as (λ o. StartFails (elim o [
                  | none ↦ finished config_error
                  | some sig ↦ sends (json (request_body def.include_dimensions dims [])) sig
                ])) [ none ↦ tt | some sig ↦ tt ]
        ]

  past-StartFails :
      (state : BreakerState) (ref : String) (def : EnrichmentDefFull) (dims : Values) (now : ℕ)
      (g : Guards)
      → def.fail_closed ≡ true
      → StartFails ((past_breaker bucket_config env json sign state ref def dims now g).1)
  unfolding past_breaker
  past-StartFails open_ ref def dims now g is = failure-StartFails ref def now is
  past-StartFails closed ref def dims now g is =
      StartFails-if ((try_acquire_token bucket_config ref now g.buckets).1)
        (signed_request bucket_config env json sign def dims)
        (finished (failure_result ref def now)) (signed-StartFails def dims)
        (failure-StartFails ref def now is)
  past-StartFails half_open ref def dims now g is =
      StartFails-if ((try_acquire_token bucket_config ref now g.buckets).1)
        (signed_request bucket_config env json sign def dims)
        (finished (failure_result ref def now)) (signed-StartFails def dims)
        (failure-StartFails ref def now is)

module _ {Lru : Type 0} (lru_set : String → EnrichmentResult → ℕ → Lru → Lru)
    (bucket_config : Config) (env : String → Option String) (json : Values → String)
    (sign : String → String → Option String) where
  settle-HasText :
      (ref : String) (def : EnrichmentDefFull) (cache_key : String) (cache : Lru)
      (r : EnrichmentResult) (s : String)
      → dimension ref r.values ≡ some s
      → HasText ((settle lru_set ref def cache_key (resolved r) cache).1)
  unfolding settle extract_value
  settle-HasText ref def cache_key cache r s is = subst (λ v. HasText (value v)) (sym is) tt

  failure-HasText :
      (ref : String) (def : EnrichmentDefFull) (now : ℕ) (cache_key : String) (cache : Lru)
      → def.fail_closed ≡ true
      → HasText ((settle lru_set ref def cache_key (failure_result ref def now) cache).1)
  unfolding settle failure_result
  failure-HasText ref def now cache_key cache is =
      subst
        (λ b. HasText (
          (settle lru_set ref def cache_key
            (if b
              then failed_error
              else resolved
                  (record { values = (ref, none) ∷ []; cached_at = now; is_negative = true }))
            cache).1))
        (sym is) tt

  end-HasText :
      (ref : String) (raw : Option Value) (def : EnrichmentDefFull) (reply : Reply) (later : ℕ)
      (start : Start) (g : Guards) (cache_key : String) (cache : Lru)
      → def.fail_closed ≡ true
      → response_of ref raw ≡ some def.shape
      → JsMap.get ref def.shape ≡ some required_string
      → StartFails start
      → HasText
          ((settle lru_set ref def cache_key ((end_of ref def reply later start g).1) cache).1)
  unfolding end_of settle
  end-HasText ref raw def reply later (finished (resolved r)) g cache_key cache is shaped on u =
      absurd u
  end-HasText ref raw def reply later (finished failed_error) g cache_key cache is shaped on u = tt
  end-HasText ref raw def reply later (finished config_error) g cache_key cache is shaped on u = tt
  end-HasText ref raw def reply later (sends body sig) g cache_key cache is shaped on u =
      elim (fetch_end_cases ref def reply later g) [
        | inl (values, good, ended) ↦
            let (s, text) = typed_value ref raw def reply values shaped on good in
            subst (λ x. HasText ((settle lru_set ref def cache_key (x.1) cache).1)) (sym ended)
              (settle-HasText ref def cache_key cache
                (record { values = values; cached_at = later; is_negative = false }) s text)
        | inr (bad, ended) ↦
            subst (λ x. HasText ((settle lru_set ref def cache_key (x.1) cache).1)) (sym ended)
              (failure-HasText ref def later cache_key cache is)
      ]

  -- A call of a fail-closed enrichment that misses the cache ends with a text or with an error,
  -- never with `null`: where the manifest's check accepts the response block, whose shape has a
  -- `"string"` under the reference's own name. For any reply, clock, guards and cache.
  pub fail_closed_gives_text :
      (ref : String) (raw : Option Value) (def : EnrichmentDefFull) (dims : Values) (now : ℕ)
      (reply : Reply) (later : ℕ) (g : Guards) (cache : Lru)
      → def.fail_closed ≡ true
      → response_of ref raw ≡ some def.shape
      → JsMap.get ref def.shape ≡ some required_string
      → HasText (
          (resolve_miss lru_set bucket_config env json sign ref def dims now reply later g
            cache).1.1)
  unfolding resolve_miss fetch_start
  fail_closed_gives_text ref raw def dims now reply later g cache closed_ is on =
      end-HasText ref raw def reply later
        ((fetch_start bucket_config env json sign ref def dims now g).1)
        ((fetch_start bucket_config env json sign ref def dims now g).0) (build_cache_key def dims)
        cache closed_ is on
        (past-StartFails bucket_config env json sign ((check_breaker ref now g.breakers).1) ref def
          dims now (record g { breakers = (check_breaker ref now g.breakers).0 }) closed_)
