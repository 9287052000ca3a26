-- ===== src/Cedar/Grants.antt =====
-- packages/sdk/src/evaluation/cedar-client.ts, `ApprovalGrantCache`: the ledger of human approvals.
use lupid_sdk.Prelude.{ℕ, ◌+◌, String, Option, none, some, [], leb, if◌then◌else◌}
use lupid_sdk.Prelude.Text.{◌+++◌}
use lupid_sdk.JsMap
use lupid_sdk.Cedar.{ApprovalGrantEntry, ApprovalGrantCache}

unfoldable pub key : String → String → String → String
key agent_id tool_name args_hash = agent_id +++ "|" +++ tool_name +++ "|" +++ args_hash

unfoldable pub make_room : ApprovalGrantCache → ApprovalGrantCache
make_room g =
    if leb g.max_size (JsMap.size g.entries)
    then record g { entries = JsMap.drop_oldest g.entries }
    else g

unfoldable pub put_last : String → ApprovalGrantEntry → ApprovalGrantCache → ApprovalGrantCache
put_last k e g = record g { entries = JsMap.set k e g.entries }

unfoldable pub put :
    String → String → String → ℕ → Option String → ℕ → ApprovalGrantCache → ApprovalGrantCache
unfolding make_room put_last
put agent_id tool_name args_hash ttl_ms request_id now g =
    let k = key agent_id tool_name args_hash in
    put_last k (record { expires_at = now + ttl_ms; request_id = request_id })
      (make_room (record g { entries = JsMap.delete k g.entries }))

unfoldable pub find_entry :
    String
    → ℕ
    → ApprovalGrantCache
    → ApprovalGrantEntry
    → ApprovalGrantCache × Option ApprovalGrantEntry
find_entry k now g e =
    if leb e.expires_at now
    then (record g { entries = JsMap.delete k g.entries }, none)
    else (record g { entries = JsMap.set k e (JsMap.delete k g.entries) }, some e)

unfoldable pub find :
    String
    → String
    → String
    → ℕ
    → ApprovalGrantCache
    → ApprovalGrantCache × Option ApprovalGrantEntry
unfolding find_entry
find agent_id tool_name args_hash now g =
    let k = key agent_id tool_name args_hash in
    elim (JsMap.get k g.entries) [ none ↦ (g, none) | some e ↦ find_entry k now g e ]

unfoldable pub clear : ApprovalGrantCache → ApprovalGrantCache
clear g = record g { entries = [] }

unfoldable pub size : ApprovalGrantCache → ℕ
size g = JsMap.size g.entries
