-- ===== src/Analytics/Tests.antt =====
-- Sessions that repeat a call, page through a list and open one workspace again.
use code_suit.Base.{
  length, In, ◌≤◌, subst, arith, str_dec, String, List, [], ◌∷◌, none, ◌≡◌, refl, map, ℕ, All,
  string_eq,
}
use code_suit.Base.Dict.{Dict, lookup, insert}
use code_suit.Base.Groups.{group_by}
use code_suit.Base.Int.{ℤ, pos}
use code_suit.Base.Order.{sorted, is_sorted, str_le}
use code_suit.Analytics.{
  CallKey, CallKey-discrete, call_key, AnalyticsEvent, AnalyticsStatus, started, success, error,
  Json, integer, text, InefficiencyDetector, InefficiencyFinding, FindingKind, duplicate_call,
  pagination_thrash, workspace_churn, detect, duplicate_call_findings, pagination_thrash_findings,
  workspace_churn_findings, broad_exploration_findings, unused_tool_findings, session_findings,
  group_findings, calls_of, call_key_eq,
}
use code_suit.Analytics.Repeated.{calls_with, IsRepeated, duplicate_call_findings-IsRepeated}
use code_suit.Analytics.Samples.{IsFinding, detect-AreFindings}

abbrev detector : InefficiencyDetector
detector = record { tool_catalog = "build_target" ∷ []; excluded_tools = "get_status" ∷ [] }

abbrev event :
    String → String → String → Dict String Json → String → AnalyticsStatus → AnalyticsEvent
event id session tool arguments fingerprint status = record {
  event_id = id;
  session_id = session;
  tool_name = tool;
  repository_root = none;
  arguments_redacted = arguments;
  arguments_fingerprint = fingerprint;
  status = status;
}

abbrev opening : String → String → AnalyticsStatus → AnalyticsEvent
opening id session = event id session "open_workspace" (("repository_path", text "/r") ∷ []) "a"

abbrev page : String → ℕ → AnalyticsEvent
page id offset =
    event id "s2" "list_files" (("limit", integer (pos 20)) ∷ ("offset", integer (pos offset)) ∷ [])
      id success

abbrev recorded : List AnalyticsEvent
recorded =
    page "p1" 0
    ∷ opening "o1" "s1" success
    ∷ opening "o2" "s1" started
    ∷ opening "o3" "s1" success
    ∷ page "p2" 20
    ∷ opening "o4" "s1" error
    ∷ page "p3" 40
    ∷ opening "o5" "s1" success
    ∷ page "p4" 60
    ∷ []

abbrev unlettered : ℤ → String
unlettered z = "n"

abbrev unstripped : String → String
unstripped s = s

abbrev read : InefficiencyFinding → FindingKind × ℕ × List String
read f = (f.kind, f.count, f.sample_event_ids)

detected :
    map read (detect unlettered unstripped detector recorded)
    ≡ (duplicate_call, 3, "o1" ∷ "o3" ∷ "o5" ∷ [])
      ∷ (workspace_churn, 3, "o1" ∷ "o3" ∷ "o5" ∷ [])
      ∷ (pagination_thrash, 4, "p1" ∷ "p2" ∷ "p3" ∷ "p4" ∷ [])
      ∷ []
unfolding detect session_findings duplicate_call_findings pagination_thrash_findings
    workspace_churn_findings broad_exploration_findings unused_tool_findings group_findings group_by
    lookup insert sorted is_sorted str_le string_eq call_key_eq calls_of
detected = refl

detect-AreFindings_example :
    All (IsFinding detector recorded) (detect unlettered unstripped detector recorded)
detect-AreFindings_example = detect-AreFindings unlettered unstripped detector recorded

abbrev opened : List AnalyticsEvent
opened = opening "o1" "s1" success ∷ opening "o3" "s1" success ∷ opening "o5" "s1" success ∷ []

abbrev opening_key : CallKey
opening_key = call_key (opening "o1" "s1" success)

three_openings : 3 ≡ length (calls_with opening_key opened)
unfolding call_key_eq CallKey-discrete str_dec
three_openings = refl

duplicate_call_findings-IsRepeated_example :
    (f : InefficiencyFinding) × In f (duplicate_call_findings opened "s1")
    × IsRepeated opening_key opened f
duplicate_call_findings-IsRepeated_example =
    duplicate_call_findings-IsRepeated opened "s1" opening_key
      (subst (λ n. 3 ≤ n) three_openings (omega arith))
