-- ===== src/Cedar/Ledger.antt =====
-- The ledger of approvals: which grant a lookup finds, and for which arguments.
use lupid_sdk.Prelude.{
  ℕ, ◌+◌, ◌≤◌, ◌<◌, String, ◌≡◌, refl, ap, inl, inr, ◌&&◌, Option, none, some, List, [], ◌∷◌, arith,
  ◌==◌, eq_iff, if◌then◌else◌, Bool-eq_of_iff, Option-cases, All,
}
use Prim.Native.String.{count}
use text.Mathlib.TextLemmas.{append_cancel_left, append_inj, length-append as count-append}
use lupid_sdk.Prelude.Text.{◌+++◌}
use lupid_sdk.JsMap
use lupid_sdk.JsMap.Laws.{
  get-set, get-delete, get-drop_oldest, size-set, size-delete-le, size-drop_oldest,
}
use lupid_sdk.Express.DecisionCache.Laws.{get-bump}
use lupid_sdk.Cedar.{ApprovalGrantEntry, ApprovalGrantCache}
use lupid_sdk.Cedar.Grants
use lupid_sdk.Cedar.Grants.{make_room, put_last, find_entry}

-- Two keys of one agent, with hashes of one length, are equal only if their parts are: a "|" in a
-- tool's name cannot make it pass for another tool.
pub key_injective :
    (agent tool hash tool' hash' : String)
    → count hash ≡ count hash'
    → Grants.key agent tool hash ≡ Grants.key agent tool' hash'
    → (tool ≡ tool') × (hash ≡ hash')
unfolding Grants.key
key_injective agent tool hash tool' hash' same e =
    let rest = append_cancel_left "|" _ _ (append_cancel_left agent _ _ e) in
    let lengths : count tool ≡ count tool' = omega (
      arith,
      ap count rest,
      count-append tool ("|" +++ hash),
      count-append tool' ("|" +++ hash'),
      count-append "|" hash,
      count-append "|" hash',
    ) in
    let (tools, tails) = append_inj rest lengths in (tools, append_cancel_left "|" _ _ tails)

pub data Op : Type 0 where
  -- The tool, the hash, the time to live, the request and the time.
  puts : String → String → ℕ → Option String → ℕ → Op
  finds : String → String → ℕ → Op
  clears : Op

module _ (agent : String) where
  unfoldable pub step : ApprovalGrantCache → Op → ApprovalGrantCache
  step g (puts tool hash ttl request now) = Grants.put agent tool hash ttl request now g
  step g (finds tool hash now) = (Grants.find agent tool hash now g).0
  step g clears = Grants.clear g

  unfoldable pub run : ApprovalGrantCache → List Op → ApprovalGrantCache
  run g [] = g
  run g (op ∷ before) = step (run g before) op

-- The grant that was given last for this tool and these arguments, since the ledger was cleared.
abbrev pub last_grant : String → String → List Op → Option ApprovalGrantEntry
last_grant tool hash [] = none
last_grant tool hash (puts t h ttl request now ∷ before) =
    if t == tool && h == hash
    then some (record { expires_at = now + ttl; request_id = request })
    else last_grant tool hash before
last_grant tool hash (finds t h now ∷ before) = last_grant tool hash before
last_grant tool hash (clears ∷ before) = none

-- Every hash of the history has the 64 digits of a SHA-256.
abbrev pub HasSha256 : Op → Type 0
HasSha256 (puts t h ttl request now) = count h ≡ 64
HasSha256 (finds t h now) = Unit
HasSha256 clears = Unit

module _ (agent : String) where
  put_entry :
      (t h tool hash : String) (ttl now : ℕ) (request : Option String) (g : ApprovalGrantCache)
      (e : ApprovalGrantEntry)
      → JsMap.get (Grants.key agent tool hash) (Grants.put agent t h ttl request now g).entries
        ≡ some e
      → (if Grants.key agent t h == Grants.key agent tool hash
          then some (record { expires_at = now + ttl; request_id = request })
          else JsMap.get (Grants.key agent tool hash) g.entries)
        ≡ some e
  unfolding Grants.put
  put_entry t h tool hash ttl now request g e found =
      let k = Grants.key agent t h in
      let entry : ApprovalGrantEntry = record { expires_at = now + ttl; request_id = request } in
      let emptied = JsMap.delete k g.entries in
      ground (
        arith,
        eq_iff k (Grants.key agent tool hash),
        get-set k (Grants.key agent tool hash) entry emptied,
        get-set k (Grants.key agent tool hash) entry (JsMap.drop_oldest emptied),
        get-drop_oldest (Grants.key agent tool hash) emptied,
        get-delete k (Grants.key agent tool hash) g.entries,
      )

  find_entry_back :
      (t h tool hash : String) (now : ℕ) (g : ApprovalGrantCache) (e : ApprovalGrantEntry)
      → JsMap.get (Grants.key agent tool hash) (Grants.find agent t h now g).0.entries ≡ some e
      → JsMap.get (Grants.key agent tool hash) g.entries ≡ some e
  unfolding Grants.find
  find_entry_back t h tool hash now g e found =
      elim (Option-cases (JsMap.get (Grants.key agent t h) g.entries)) [
        | inl miss ↦ ground (arith, miss)
        | inr (x, hit) ↦ ground (
          arith,
          hit,
          get-bump (Grants.key agent t h) (Grants.key agent tool hash) x g.entries hit,
          get-delete (Grants.key agent t h) (Grants.key agent tool hash) g.entries,
        )
      ]

  find_live :
      (tool hash : String) (now : ℕ) (g : ApprovalGrantCache) (e : ApprovalGrantEntry)
      → (Grants.find agent tool hash now g).1 ≡ some e
      → (JsMap.get (Grants.key agent tool hash) g.entries ≡ some e) × (now < e.expires_at)
  unfolding Grants.find
  find_live tool hash now g e found =
      elim (Option-cases (JsMap.get (Grants.key agent tool hash) g.entries)) [
        | inl miss ↦ absurd (ground (arith, miss))
        | inr (x, hit) ↦ ground (arith, hit)
      ]

  same_key :
      (t h tool hash : String)
      → count h ≡ count hash
      → (Grants.key agent t h == Grants.key agent tool hash) ≡ (t == tool && h == hash)
  same_key t h tool hash len =
      Bool-eq_of_iff _ _
        (λ e.
          let (tools, hashes) = key_injective agent t h tool hash len ((eq_iff _ _).0 e) in
          ground (arith, (eq_iff t tool).1 tools, (eq_iff h hash).1 hashes))
        (λ e.
          let tools : t ≡ tool = (eq_iff t tool).0 (ground (arith, e)) in
          let hashes : h ≡ hash = (eq_iff h hash).0 (ground (arith, e)) in
          (eq_iff _ _).1 (cc (tools, hashes)))

  run_held :
      (g : ApprovalGrantCache) (ops : List Op) (tool hash : String) (e : ApprovalGrantEntry)
      → g.entries ≡ []
      → count hash ≡ 64
      → All HasSha256 ops
      → JsMap.get (Grants.key agent tool hash) (run agent g ops).entries ≡ some e
      → last_grant tool hash ops ≡ some e
  unfolding run step
  run_held g [] tool hash e new len all found = unfold JsMap.get in absurd (cc (found, new))
  run_held g (puts t h ttl request now ∷ before) tool hash e new len (sha, all) found = ground (
    arith,
    same_key t h tool hash (omega arith),
    put_entry t h tool hash ttl now request (run agent g before) e found,
    run_held g before tool hash e new len all,
  )
  run_held g (finds t h now ∷ before) tool hash e new len (_, all) found =
      run_held g before tool hash e new len all
        (find_entry_back t h tool hash now (run agent g before) e found)
  run_held g (clears ∷ before) tool hash e new len all found =
      unfold Grants.clear JsMap.get in absurd (cc found)

  -- A lookup finds a grant only if it is the last one that was given, since the ledger was cleared,
  -- for this very tool and this very hash of the arguments, and only before it expires.
  pub find_sound :
      (max_size : ℕ) (ops : List Op) (tool hash : String) (now : ℕ) (e : ApprovalGrantEntry)
      → count hash ≡ 64
      → All HasSha256 ops
      → (Grants.find agent tool hash now
          (run agent (record { max_size = max_size; entries = [] }) ops)).1
        ≡ some e
      → (last_grant tool hash ops ≡ some e) × (now < e.expires_at)
  find_sound max_size ops tool hash now e len all found =
      let g : ApprovalGrantCache = record { max_size = max_size; entries = [] } in
      let (held, live) = find_live tool hash now (run agent g ops) e found in
      (run_held g ops tool hash e refl len all held, live)

-- The ledger never outgrows its capacity.
pub size-put-le :
    (agent tool hash : String) (ttl now : ℕ) (request : Option String) (g : ApprovalGrantCache)
    → 0 < g.max_size
    → Grants.size g ≤ g.max_size
    → Grants.size (Grants.put agent tool hash ttl request now g) ≤ g.max_size
unfolding Grants.put Grants.size
size-put-le agent tool hash ttl now request g pos bound =
    let k = Grants.key agent tool hash in
    let entry : ApprovalGrantEntry = record { expires_at = now + ttl; request_id = request } in
    let emptied = JsMap.delete k g.entries in
    ground (
      arith,
      size-set k entry emptied,
      size-set k entry (JsMap.drop_oldest emptied),
      size-drop_oldest emptied,
      size-delete-le k g.entries,
    )
