-- ===== src/Vault/Tests.antt =====
-- Runs of the vault resolver on small headers, and its theorems at them.
use lupid_sdk.Prelude.{
  String, true, false, Option, none, some, List, [], ◌∷◌, ◌≡◌, refl, sym, subst, if◌then◌else◌,
  ◌==◌,
}
use mathlib.Core.List.{Memᴰ}
use lupid_sdk.JsMap.{get, set}
use lupid_sdk.Vault.{
  Cache, resolve_placeholder, resolve_header, live_value, leases, includes, placeholder_prefix,
  resolve_header_placeholders,
}
use lupid_sdk.Vault.FailClosed.{refused_lease_rejects}
use lupid_sdk.Vault.Prefixes.{longer_lease_is_lost, has_code}

abbrev test_central : String → Option String
test_central lease = if lease == "a" then some "X" else if lease == "ab" then some "Y" else none

-- The secret of the lease "ab" never arrives.
two_leases :
    resolve_header_placeholders test_central 5 1
      (("x", "agentum://SECRET/a agentum://SECRET/ab") ∷ [])
      []
    ≡ some (
      ("a", record { value = "X"; expires_at = 6 })
          ∷ ("ab", record { value = "Y"; expires_at = 6 })
          ∷ [],
      ("x", "X Xb") ∷ [],
    )
unfolding resolve_header_placeholders get set
two_leases = refl

abbrev test_headers : List (String × String)
test_headers = ("x", "Bearer agentum://SECRET/a") ∷ ("y", "agentum://SECRET/gone") ∷ []

has_prefix : includes placeholder_prefix "agentum://SECRET/gone" ≡ true
unfolding includes
has_prefix = refl

one_lease : leases 0 "agentum://SECRET/gone" ≡ "gone" ∷ []
unfolding leases
one_lease = refl

nothing_cached : live_value 1 "gone" [] ≡ none
unfolding live_value get
nothing_cached = refl

lease_there : Memᴰ "gone" (leases 0 "agentum://SECRET/gone")
lease_there = subst (Memᴰ "gone") (sym one_lease) (Memᴰ.head refl)

refused_lease_rejects_example : resolve_header_placeholders test_central 5 1 test_headers [] ≡ none
refused_lease_rejects_example =
    refused_lease_rejects test_central 5 1 "gone" test_headers [] "y" "agentum://SECRET/gone"
      (Memᴰ.tail (Memᴰ.head refl)) has_prefix lease_there (refl, nothing_cached)

abbrev after_a : Cache
after_a = ("a", record { value = "X"; expires_at = 6 }) ∷ []

abbrev after_ab : Cache
after_ab =
    ("a", record { value = "X"; expires_at = 6 })
    ∷ ("ab", record { value = "Y"; expires_at = 6 })
    ∷ []

resolves_a : resolve_placeholder test_central 5 1 "a" [] ≡ some (after_a, "X")
unfolding resolve_placeholder live_value get set
resolves_a = refl

resolves_ab : resolve_placeholder test_central 5 1 "ab" after_a ≡ some (after_ab, "Y")
unfolding resolve_placeholder live_value get set
resolves_ab = refl

both_leases : leases 0 "agentum://SECRET/a agentum://SECRET/ab" ≡ "a" ∷ "ab" ∷ []
unfolding leases
both_leases = refl

plain_texts :
    (has_code b'a' " " ≡ false)
    × (has_code b':' " " ≡ false)
    × (has_code b':' "X" ≡ false)
    × (has_code b':' "b" ≡ false)
unfolding has_code
plain_texts = (refl, refl, refl, refl)

longer_lease_is_lost_example :
    resolve_header test_central 5 1 "agentum://SECRET/a agentum://SECRET/ab" []
    ≡ some (after_ab, "X Xb")
longer_lease_is_lost_example =
    longer_lease_is_lost "a" "b" " " "X" test_central 5 1 "Y" [] after_a after_ab resolves_a
      resolves_ab both_leases plain_texts.0 plain_texts.1 plain_texts.2 plain_texts.3
