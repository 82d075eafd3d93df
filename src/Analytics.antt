-- ===== src/Analytics.antt =====
-- src/suitcode/analytics/inefficiency.py: wasteful sequences of calls in the recorded events.
pub mod Samples
pub mod Repeated
mod Tests
use code_suit.Base.{
  String, Bool, true, false, not, ◌&&◌, ◌||◌, Option, none, some, List, [], ◌∷◌, ◌++◌, ◌≡◌, ◌==◌, ℕ,
  ◌+◌, zero, suc, Eq, contains, filter, map, length, take, ltb, leb, str_dec, string_eq,
  if◌then◌else◌,
}
use code_suit.Base.Dict.{Dict, lookup, insert}
use code_suit.Base.Groups.{group_by}
use code_suit.Base.Int.{ℤ, pos, negsuc, int_le}
use code_suit.Base.Order.{sorted, is_sorted, str_le}
use Prim.Native.String

-- A JSON value. `other` is a float, a list or a dictionary: its truth and its `str`.
pub data Json : Type 0 where
  null : Json
  boolean : Bool → Json
  integer : ℤ → Json
  text : String → Json
  other : Bool → String → Json

pub data AnalyticsStatus : Type 0 where
  started success error interrupted : AnalyticsStatus

pub record AnalyticsEvent : Type 0 where
  pub event_id : String
  pub session_id : String
  pub tool_name : String
  pub repository_root : Option String
  pub arguments_redacted : Dict String Json
  pub arguments_fingerprint : String
  pub status : AnalyticsStatus

pub data FindingKind : Type 0 where
  duplicate_call pagination_thrash workspace_churn broad_exploration unused_tool : FindingKind

pub record InefficiencyFinding : Type 0 where
  pub kind : FindingKind
  pub tool_name : Option String
  pub session_id : String
  pub count : ℕ
  pub description : String
  pub sample_event_ids : List String

pub record InefficiencyDetector : Type 0 where
  pub tool_catalog : List String
  pub excluded_tools : List String

abbrev pub high_value_tools : List String
high_value_tools =
    "analyze_change" ∷ "get_minimum_verified_change_set" ∷ "get_truth_coverage"
    ∷ "describe_components" ∷ "describe_files" ∷ "describe_symbol_context" ∷ "describe_test_target"
    ∷ "describe_runner" ∷ "run_test_targets" ∷ "run_runner" ∷ "build_target" ∷ "build_project" ∷ []

abbrev pub broad_tools : List String
broad_tools =
    "list_components" ∷ "list_files" ∷ "find_symbols" ∷ "list_symbols_in_file" ∷ "list_tests" ∷ []

abbrev pub is_started : AnalyticsStatus → Bool
is_started started = true
is_started _ = false

abbrev pub is_success : AnalyticsStatus → Bool
is_success success = true
is_success _ = false

abbrev pub is_finished : InefficiencyDetector → AnalyticsEvent → Bool
unfolding string_eq
is_finished d e = not (contains d.excluded_tools e.tool_name) && not (is_started e.status)

-- The key of a group: the tool, and the arguments or the place.
pub record CallKey : Type 0 where
  pub tool : String
  pub within : String

unfoldable pub CallKey-discrete : Discrete CallKey
unfolding str_dec
CallKey-discrete = hlevel str_dec

instance unfoldable pub call_key_eq : Eq CallKey
unfolding CallKey-discrete
call_key_eq = record { dec = CallKey-discrete }

abbrev pub samples : List AnalyticsEvent → List String
samples events = map (λ e. e.event_id) (take 5 events)

-- The finding on a group, if the group has the least number of calls.
abbrev pub group_finding :
    ℕ → FindingKind → String → String → String → List AnalyticsEvent → List InefficiencyFinding
group_finding least kind tool session description group =
    if ltb (length group) least
    then []
    else record {
      kind = kind;
      tool_name = some tool;
      session_id = session;
      count = length group;
      description = description;
      sample_event_ids = samples group;
    }
      ∷ []

abbrev pub successful : List AnalyticsEvent → List AnalyticsEvent
successful = filter (λ e. is_success e.status)

abbrev pub call_key : AnalyticsEvent → CallKey
call_key e = record { tool = e.tool_name; within = e.arguments_fingerprint }

-- `for key, group in grouped.items()`
module _ {K : Type 0} (finding : K → List AnalyticsEvent → List InefficiencyFinding) where
  unfoldable pub group_findings : Dict K (List AnalyticsEvent) → List InefficiencyFinding
  group_findings [] = []
  group_findings ((key, group) ∷ groups) = finding key group ++ group_findings groups

abbrev pub duplicate_finding : String → CallKey → List AnalyticsEvent → List InefficiencyFinding
duplicate_finding session key =
    group_finding 3 duplicate_call key.tool session
      (String.◌++◌ "`" (String.◌++◌ key.tool "` was called repeatedly with identical arguments."))

unfoldable pub duplicate_call_findings : List AnalyticsEvent → String → List InefficiencyFinding
unfolding group_findings group_by call_key_eq
duplicate_call_findings events session =
    group_findings (duplicate_finding session) (group_by call_key (successful events))

-- `args.get(name)`
abbrev argument : String → AnalyticsEvent → Json
unfolding lookup string_eq
argument name e = elim (lookup name e.arguments_redacted) [ none ↦ null | some value ↦ value ]

-- `isinstance(value, int)`, which a Boolean is as well.
abbrev as_int : Json → Option ℤ
as_int (integer z) = some z
as_int (boolean true) = some (pos 1)
as_int (boolean false) = some (pos 0)
as_int _ = none

abbrev is_small_page : Option ℤ → Option ℤ → Bool
is_small_page (some (pos limit)) (some _) = leb limit 50
is_small_page (some (negsuc _)) (some _) = true
is_small_page _ _ = false

abbrev pub has_small_page : AnalyticsEvent → Bool
unfolding lookup string_eq
has_small_page e = is_small_page (as_int (argument "limit" e)) (as_int (argument "offset" e))

-- Every grouped event has an offset.
abbrev int_of : Option ℤ → ℤ
int_of none = pos 0
int_of (some z) = z

abbrev offset_of : AnalyticsEvent → ℤ
unfolding lookup string_eq
offset_of e = int_of (as_int (argument "offset" e))

-- A list equals its sorted copy exactly when it is sorted.
abbrev pub has_ordered_offsets : List AnalyticsEvent → Bool
unfolding lookup string_eq is_sorted
has_ordered_offsets calls = is_sorted int_le (map offset_of calls)

abbrev pub pagination_finding : String → CallKey → List AnalyticsEvent → List InefficiencyFinding
unfolding lookup string_eq is_sorted
pagination_finding session key calls =
    if has_ordered_offsets calls
    then group_finding 4 pagination_thrash key.tool session
        (String.◌++◌ "`"
          (String.◌++◌ key.tool "` shows repeated small-page pagination progression."))
        calls
    else []

-- The path under which an `open_workspace` counts; an empty root is no root.
abbrev path_or : Option String → String
unfolding string_eq
path_or none = "<unknown>"
path_or (some root) = if root == "" then "<unknown>" else root

abbrev pub churn_finding : String → String → List AnalyticsEvent → List InefficiencyFinding
churn_finding session path = group_finding 3 workspace_churn "open_workspace" session (
    String.◌++◌ "`open_workspace` was called repeatedly for `"
      (String.◌++◌ path "` in the same session."))

-- What `str` makes of an integer.
module _ (int_text : ℤ → String) where
  -- `str(value or "")`
  abbrev text_or_empty : Json → String
  text_or_empty null = ""
  text_or_empty (boolean b) = if b then "True" else ""
  text_or_empty (integer (pos zero)) = ""
  text_or_empty (integer z) = int_text z
  text_or_empty (text s) = s
  text_or_empty (other b s) = if b then s else ""

  abbrev pub place_key : AnalyticsEvent → CallKey
  unfolding lookup string_eq
  place_key e = record {
    tool = e.tool_name;
    within =
        String.◌++◌ (text_or_empty (argument "workspace_id" e))
          (String.◌++◌ ":" (text_or_empty (argument "repository_id" e)));
  }

  unfoldable pub pagination_thrash_findings :
      List AnalyticsEvent → String → List InefficiencyFinding
  unfolding group_findings group_by call_key_eq lookup string_eq is_sorted
  pagination_thrash_findings events session =
      group_findings (pagination_finding session)
        (group_by place_key (filter has_small_page (successful events)))

-- `str.strip`
module _ (strip : String → String) where
  abbrev path_key_of : Json → Option String → String
  unfolding string_eq
  path_key_of (text path) root = if strip path == "" then path_or root else strip path
  path_key_of _ root = path_or root

  abbrev pub path_key : AnalyticsEvent → String
  unfolding lookup string_eq
  path_key e = path_key_of (argument "repository_path" e) e.repository_root

  unfoldable pub workspace_churn_findings : List AnalyticsEvent → String → List InefficiencyFinding
  unfolding group_findings group_by lookup string_eq sorted str_le
  workspace_churn_findings events session = group_findings (churn_finding session) (
      sorted (λ a b. str_le (a.0) (b.0))
        (group_by path_key (filter (λ e. e.tool_name == "open_workspace") (successful events))))

-- The number of calls of the tools.
unfoldable pub calls_of : List String → List AnalyticsEvent → ℕ
unfolding string_eq
calls_of tools [] = 0
calls_of tools (e ∷ events) =
    let rest = calls_of tools events in if contains tools e.tool_name then suc rest else rest

-- Too few calls, or too few broad ones, or one with a tool of high value.
abbrev pub is_focused : List AnalyticsEvent → Bool
unfolding calls_of
is_focused events =
    ltb (length events) 20
    || (ltb (calls_of broad_tools events) 12 || ltb 0 (calls_of high_value_tools events))

-- None or one: the caller adds it to its findings.
unfoldable pub broad_exploration_findings : List AnalyticsEvent → String → List InefficiencyFinding
unfolding calls_of
broad_exploration_findings events session =
    if is_focused events
    then []
    else record {
      kind = broad_exploration;
      tool_name = none;
      session_id = session;
      count = calls_of broad_tools events;
      description =
          "Session uses broad exploratory tools heavily without high-value deterministic tools.";
      sample_event_ids = samples events;
    }
      ∷ []

abbrev pub unused_tool_finding : String → String → InefficiencyFinding
unused_tool_finding session tool = record {
  kind = unused_tool;
  tool_name = some tool;
  session_id = session;
  count = 0;
  description = String.◌++◌ "High-value deterministic tool `" (String.◌++◌ tool "` is unused.");
  sample_event_ids = [];
}

abbrev is_unused : InefficiencyDetector → List String → String → Bool
unfolding string_eq
is_unused d called tool =
    contains d.tool_catalog tool && not (contains d.excluded_tools tool || contains called tool)

unfoldable pub unused_tool_findings :
    InefficiencyDetector → List AnalyticsEvent → String → List InefficiencyFinding
unfolding string_eq sorted str_le
unused_tool_findings d events session =
    if ltb (length events) 10
    then []
    else map (unused_tool_finding session)
        (filter (is_unused d (map (λ e. e.tool_name) events)) (sorted str_le high_value_tools))

module _ (int_text : ℤ → String) (strip : String → String) (d : InefficiencyDetector) where
  -- The findings on one session.
  unfoldable pub session_findings : String → List AnalyticsEvent → List InefficiencyFinding
  unfolding duplicate_call_findings pagination_thrash_findings workspace_churn_findings
      broad_exploration_findings unused_tool_findings
  session_findings session events =
      duplicate_call_findings events session
      ++ (pagination_thrash_findings int_text events session
          ++ (workspace_churn_findings strip events session
              ++ (broad_exploration_findings events session
                  ++ unused_tool_findings d events session)))

  unfoldable pub detect : List AnalyticsEvent → List InefficiencyFinding
  unfolding group_findings session_findings group_by sorted str_le string_eq
  detect events = group_findings session_findings (
      sorted (λ a b. str_le (a.0) (b.0))
        (group_by (λ e. e.session_id) (filter (is_finished d) events)))
