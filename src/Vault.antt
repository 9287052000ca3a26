-- ===== src/Vault.antt =====
-- packages/sdk/src/vault/resolver.ts: placeholders of secrets in the headers of a request. `central`
-- is what central gives for a lease, with `none` where the request fails, is refused or has no value.
-- The cache is only touched by the call at hand, for which the clock stands still; a header is a name
-- and its text.
pub mod FailClosed
pub mod Prefixes
mod Tests
use Prim.Native.Char.{Char, code}
use Prim.Native.String
use lupid_sdk.Prelude.{
  ℕ, zero, suc, ◌+◌, ◌-◌, String, Bool, true, false, ◌&&◌, ◌||◌, Option, none, some, List, [], ◌∷◌,
  leb, ltb, eqb, is_some, if◌then◌else◌,
}
use lupid_sdk.Prelude.Text.{is_digit}
use lupid_sdk.JsMap.{JsMap, get, set}
use lupid_sdk.Pii.Path.{is_code, text_length, no_text}
use lupid_sdk.Pii.Path.RoundTrip.{joined}

abbrev pub placeholder_prefix : String
placeholder_prefix = "agentum://SECRET/"

pub record CacheEntry : Type 0 where
  pub value : String
  pub expires_at : ℕ

abbrev pub Cache : Type 0
Cache = JsMap CacheEntry

-- `cached && cached.expiresAt > now`
unfoldable pub live_value : ℕ → String → Cache → Option String
unfolding get
live_value now lease cache = elim (get lease cache) [
  | none ↦ none
  | some e ↦ if ltb now e.expires_at then some (e.value) else none
]

-- What follows a text at the start of another.
unfoldable pub after : String → String → Option String
after String.[] s = some s
after (String.◌∷◌ c p) String.[] = none
after (String.◌∷◌ c p) (String.◌∷◌ d s) = if eqb (code c) (code d) then after p s else none

abbrev pub is_id : Char → Bool
is_id c =
    (leb b'A' (code c) && leb (code c) b'Z')
    || (leb b'a' (code c) && leb (code c) b'z')
    || is_digit (code c)
    || is_code b'_' c
    || is_code b'-' c

-- `[A-Za-z0-9_-]{0,n}`, as many as there are.
unfoldable pub take_id : ℕ → String → String
take_id n String.[] = ""
take_id zero (String.◌∷◌ c s) = ""
take_id (suc n) (String.◌∷◌ c s) =
    let rest = take_id n s in if is_id c then String.◌∷◌ c rest else ""

-- The lease of a match of `PLACEHOLDER_REGEX` at the start of a text.
unfoldable pub lease_at : String → Option String
unfolding after take_id
lease_at s = elim (after placeholder_prefix s) [ none ↦ none | some t ↦ some_id (take_id 128 t) ]
  where
    some_id : String → Option String
    some_id id = if no_text id then none else some id

-- `v.matchAll(PLACEHOLDER_REGEX)`, where the number is how many characters a match has left.
unfoldable pub leases : ℕ → String → List String
unfolding lease_at
leases n String.[] = []
leases (suc n) (String.◌∷◌ c s) = leases n s
leases zero (String.◌∷◌ c s) = elim (lease_at (String.◌∷◌ c s)) [
  | none ↦ leases zero s
  | some id ↦ id ∷ leases (text_length placeholder_prefix + text_length id - 1) s
]

-- `resolved.split(ph).join(secret)`, where the number is how many characters of `ph` are left.
unfoldable pub replaced : String → String → ℕ → String → String
unfolding after
replaced ph secret n String.[] = ""
replaced ph secret (suc n) (String.◌∷◌ c s) = replaced ph secret n s
replaced ph secret zero (String.◌∷◌ c s) = elim (after ph (String.◌∷◌ c s)) [
  | none ↦ String.◌∷◌ c (replaced ph secret zero s)
  | some t ↦ joined secret (replaced ph secret (text_length ph - 1) s)
]

unfoldable pub includes : String → String → Bool
unfolding after
includes p String.[] = no_text p
includes p (String.◌∷◌ c s) = is_some (after p (String.◌∷◌ c s)) || includes p s

module _ (central : String → Option String) (ttl now : ℕ) where
  unfoldable pub resolve_placeholder : String → Cache → Option (Cache × String)
  unfolding live_value set
  resolve_placeholder lease cache = elim (live_value now lease cache) [
    | some v ↦ some (cache, v)
    | none ↦ elim (central lease) [
      | none ↦ none
      | some v ↦ some (set lease (record { value = v; expires_at = now + ttl }) cache, v)
    ]
  ]

  -- The loop over the matches of one header.
  unfoldable pub resolve_leases : List String → String → Cache → Option (Cache × String)
  unfolding resolve_placeholder replaced
  resolve_leases [] v cache = some (cache, v)
  resolve_leases (lease ∷ rest) v cache = elim (resolve_placeholder lease cache) [
    | none ↦ none
    | some r ↦ resolve_leases rest (replaced (joined placeholder_prefix lease) (r.1) zero v) (r.0)
  ]

  unfoldable pub resolve_header : String → Cache → Option (Cache × String)
  unfolding resolve_leases leases includes
  resolve_header v cache = elim (includes placeholder_prefix v) [
    | false ↦ some (cache, v)
    | true ↦ resolve_leases (leases zero v) v cache
  ]

  -- The loop over the headers.
  unfoldable pub resolve_header_placeholders :
      List (String × String) → Cache → Option (Cache × List (String × String))
  unfolding resolve_header
  resolve_header_placeholders [] cache = some (cache, [])
  resolve_header_placeholders ((k, v) ∷ headers) cache = elim (resolve_header v cache) [
    | none ↦ none
    | some r ↦ elim (resolve_header_placeholders headers (r.0)) [
      | none ↦ none
      | some q ↦ some (q.0, (k, r.1) ∷ q.1)
    ]
  ]
