-- ===== src/SimulateCache/Tests.antt =====
-- Runs of the cache of simulated decisions at concrete inputs.
use lupid_sdk.Prelude.{ℕ, ◌<◌, ◌≡◌, refl, true, some, List, [], ◌∷◌}
use lupid_sdk.JsMap
use lupid_sdk.SimulateCache
use lupid_sdk.SimulateCache.{CacheEntry, make_room, get_entry}
use lupid_sdk.SimulateCache.Laws
use lupid_sdk.SimulateCache.Laws.{Op, gets, puts, observes, last_put}

abbrev ops : List (Op ℕ)
ops =
    gets "k" 12
    ∷ puts "j" 8 5 11
    ∷ puts "k" 7 100 10
    ∷ observes (some 4)
    ∷ puts "k" 1 100 9
    ∷ observes (some 3)
    ∷ []

answer_is_current_example :
    (e : CacheEntry ℕ) × (last_put "k" ops ≡ some e) × (e.value ≡ 7) × (20 < e.expires_at)
unfolding SimulateCache.make SimulateCache.get get_entry SimulateCache.put make_room
    SimulateCache.observe_generation SimulateCache.invalidate_all JsMap.get JsMap.set JsMap.delete
    Laws.run Laws.step
answer_is_current_example = Laws.answer_is_current (some true) (some 8) ops "k" 20 7 refl
