-- ===== src/Analytics/Samples.antt =====
-- The events that a finding names are calls of its session.
use code_suit.Base.{
  String, Bool, true, false, ◌||◌, List, [], ◌∷◌, ◌++◌, map, ℕ, zero, suc, ◌≤◌, min, ◌≡◌, ◌∙◌, refl,
  sym, subst, ◌==◌, Eq, eq_of_==, ltb, ltb→le, Bool-cases, inl, inr, arith, All, In, All-append,
  All-of_In, In-of_All, In-of-filter, filter, length, take, string_eq,
}
use code_suit.Base.Dict.{Dict, lookup, insert}
use code_suit.Base.Groups.{bucket, group_into, group_by}
use code_suit.Base.Int.{ℤ}
use code_suit.Base.Order.{sorted, str_le, All-sorted}
use code_suit.Analytics.{
  AnalyticsEvent, InefficiencyFinding, InefficiencyDetector, FindingKind, CallKey, is_finished,
  is_success, successful, group_finding, group_findings, duplicate_call_findings, call_key,
  call_key_eq, duplicate_finding, has_small_page, pagination_finding, place_key, path_key,
  pagination_thrash_findings, workspace_churn_findings, churn_finding, broad_exploration_findings,
  unused_tool_findings, unused_tool_finding, has_ordered_offsets, is_focused, calls_of, broad_tools,
  high_value_tools, session_findings, detect,
}

module _ {A : Type 0} (P : A → Type 0) where
  All-filter : (p : A → Bool) (xs : List A) → All P xs → All P (filter p xs)
  All-filter p xs h =
      All-of_In P (filter p xs) (λ a m. In-of_All P xs h a ((In-of-filter p a xs m).0))

module _ {K A : Type 0} ⦃e : Eq K⦄ (key : A → K) (Q : K → A → Type 0) where
  -- Each bucket holds what its key admits.
  abbrev Buckets : Dict K (List A) → Type 0
  Buckets = All (λ row. All (Q (row.0)) (row.1))

  Buckets-insert :
      (k : K) (v : List A) (d : Dict K (List A)) → All (Q k) v → Buckets d → Buckets (insert k v d)
  unfolding insert
  Buckets-insert k v [] q h = (q, tt)
  Buckets-insert k v ((j, xs) ∷ d) q h = elim (Bool-cases (k == j)) [
    | inl same ↦ rw same (q, h.1)
    | inr differ ↦ rw differ (h.0, Buckets-insert k v d q h.1)
  ]

  bucket-All : (k : K) (d : Dict K (List A)) → Buckets d → All (Q k) (bucket k d)
  unfolding lookup
  bucket-All k [] h = tt
  bucket-All k ((j, xs) ∷ d) h = elim (Bool-cases (k == j)) [
    | inl same ↦ rw same (subst (λ i. All (Q i) xs) (sym (eq_of_== k j same)) h.0)
    | inr differ ↦ rw differ (bucket-All k d h.1)
  ]

  Buckets-group_into :
      (d : Dict K (List A)) (xs : List A)
      → Buckets d
      → All (λ x. Q (key x) x) xs
      → Buckets (group_into key d xs)
  unfolding group_into
  Buckets-group_into d [] h q = h
  Buckets-group_into d (x ∷ xs) h q =
      Buckets-group_into (insert (key x) (bucket (key x) d ++ x ∷ []) d) xs
        (Buckets-insert (key x) (bucket (key x) d ++ x ∷ []) d
          (All-append (Q (key x)) (bucket (key x) d) (x ∷ []) (bucket-All (key x) d h) (q.0, tt)) h)
        q.1

  Buckets-group_by : (xs : List A) → All (λ x. Q (key x) x) xs → Buckets (group_by key xs)
  unfolding group_by
  Buckets-group_by xs q = Buckets-group_into [] xs tt q

-- One of the finished events of the session has the id.
abbrev pub IsSample : InefficiencyDetector → List AnalyticsEvent → String → String → Type 0
IsSample d events session id =
    (e : AnalyticsEvent) × In e events
    × (is_finished d e ≡ true)
    × (e.session_id ≡ session)
    × (e.event_id ≡ id)

-- What a finding names: as many events as it counts, but at most five.
pub record IsFinding (d : InefficiencyDetector) (events : List AnalyticsEvent)
    (f : InefficiencyFinding) : Type 0 where
  pub counted : length f.sample_event_ids ≡ min 5 f.count
  pub sampled : All (IsSample d events f.session_id) f.sample_event_ids

at_least :
    (a m b n : ℕ) (other : Bool) → (ltb m a || (ltb n b || other)) ≡ false → (a ≤ m) × (b ≤ n)
at_least a m b n other h = (ltb→le m a (ground arith), ltb→le n b (ground arith))

both_five : (m n : ℕ) → 20 ≤ m → 12 ≤ n → min 5 m ≡ min 5 n
both_five m n h k = omega arith

module _ (d : InefficiencyDetector) (all_events : List AnalyticsEvent) (session : String) where
  -- An event of the session.
  abbrev IsCall : AnalyticsEvent → Type 0
  IsCall e = IsSample d all_events session e.event_id

  abbrev AreFindings : List InefficiencyFinding → Type 0
  AreFindings = All (IsFinding d all_events)

  take-IsSample :
      (n : ℕ) (es : List AnalyticsEvent)
      → All IsCall es
      → All (IsSample d all_events session) (map (λ e. e.event_id) (take n es))
  take-IsSample zero es h = tt
  take-IsSample (suc n) [] h = tt
  take-IsSample (suc n) (e ∷ es) h = (h.0, take-IsSample n es h.1)

  length-samples :
      (n : ℕ) (es : List AnalyticsEvent)
      → length (map (λ e. e.event_id) (take n es)) ≡ min n (length es)
  length-samples zero es = omega arith
  length-samples (suc n) [] = omega arith
  length-samples (suc n) (e ∷ es) = omega (arith, length-samples n es)

  group_finding-AreFindings :
      (least : ℕ) (kind : FindingKind) (tool description : String) (group : List AnalyticsEvent)
      → All IsCall group
      → AreFindings (group_finding least kind tool session description group)
  group_finding-AreFindings least kind tool description group h =
      elim (Bool-cases (ltb (length group) least)) [
        | inl few ↦ rw few tt
        | inr enough ↦
            rw enough
              (record { counted = length-samples 5 group; sampled = take-IsSample 5 group h }, tt)
      ]

  group_findings-AreFindings :
      {K : Type 0} (finding : K → List AnalyticsEvent → List InefficiencyFinding)
      (groups : Dict K (List AnalyticsEvent))
      → ((k : K) (g : List AnalyticsEvent) → All IsCall g → AreFindings (finding k g))
      → All (λ row. All IsCall (row.1)) groups
      → AreFindings (group_findings finding groups)
  unfolding group_findings
  group_findings-AreFindings finding [] h k = tt
  group_findings-AreFindings finding ((key, group) ∷ groups) h k =
      All-append (IsFinding d all_events) (finding key group) (group_findings finding groups)
        (h key group k.0) (group_findings-AreFindings finding groups h k.1)

  -- Any grouping of calls that a filter leaves has calls of the session only.
  group_by-AreCalls :
      {K : Type 0} ⦃e : Eq K⦄ (key : AnalyticsEvent → K) (es : List AnalyticsEvent)
      → All IsCall es
      → All (λ row. All IsCall (row.1)) (group_by key es)
  group_by-AreCalls key es h = Buckets-group_by key (λ k. IsCall) es h

  successful-AreCalls : (es : List AnalyticsEvent) → All IsCall es → All IsCall (successful es)
  successful-AreCalls es h = All-filter IsCall (λ e. is_success e.status) es h

  duplicate_call_findings-AreFindings :
      (es : List AnalyticsEvent) → All IsCall es → AreFindings (duplicate_call_findings es session)
  unfolding duplicate_call_findings call_key_eq
  duplicate_call_findings-AreFindings es h =
      group_findings-AreFindings (duplicate_finding session) (group_by call_key (successful es))
        (λ k g c. group_finding-AreFindings 3 _ k.tool _ g c)
        (group_by-AreCalls call_key (successful es) (successful-AreCalls es h))

  pagination_finding-AreFindings :
      (k : CallKey) (g : List AnalyticsEvent)
      → All IsCall g
      → AreFindings (pagination_finding session k g)
  unfolding pagination_finding
  pagination_finding-AreFindings k g c = elim (Bool-cases (has_ordered_offsets g)) [
    | inl ordered ↦ rw ordered (group_finding-AreFindings 4 _ k.tool _ g c)
    | inr not_ordered ↦ rw not_ordered tt
  ]

  broad_exploration_findings-AreFindings :
      (es : List AnalyticsEvent)
      → All IsCall es
      → AreFindings (broad_exploration_findings es session)
  unfolding broad_exploration_findings
  broad_exploration_findings-AreFindings es h = elim (Bool-cases (is_focused es)) [
    | inl focused ↦ rw focused tt
    | inr broad ↦
        let many =
          at_least 20 (length es) 12 (calls_of broad_tools es)
            (ltb 0 (calls_of high_value_tools es)) broad in
        let (events, broad_calls) = many in
        rw broad (
          record {
            counted =
                length-samples 5 es
                ∙ both_five (length es) (calls_of broad_tools es) events broad_calls;
            sampled = take-IsSample 5 es h;
          },
          tt,
        )
  ]

  unused-AreFindings : (tools : List String) → AreFindings (map (unused_tool_finding session) tools)
  unused-AreFindings [] = tt
  unused-AreFindings (t ∷ ts) = (record { counted = refl; sampled = tt }, unused-AreFindings ts)

  unused_tool_findings-AreFindings :
      (es : List AnalyticsEvent) → AreFindings (unused_tool_findings d es session)
  unfolding unused_tool_findings
  unused_tool_findings-AreFindings es = elim (Bool-cases (ltb (length es) 10)) [
    | inl few ↦ rw few tt
    | inr enough ↦ rw enough (unused-AreFindings _)
  ]

  module _ (int_text : ℤ → String) (strip : String → String) where
    pagination_thrash_findings-AreFindings :
        (es : List AnalyticsEvent)
        → All IsCall es
        → AreFindings (pagination_thrash_findings int_text es session)
    unfolding pagination_thrash_findings call_key_eq
    pagination_thrash_findings-AreFindings es h =
        let pages = filter has_small_page (successful es) in
        let paged = All-filter IsCall has_small_page (successful es) (successful-AreCalls es h) in
        group_findings-AreFindings (pagination_finding session)
          (group_by (place_key int_text) pages) pagination_finding-AreFindings
          (group_by-AreCalls (place_key int_text) pages paged)

    workspace_churn_findings-AreFindings :
        (es : List AnalyticsEvent)
        → All IsCall es
        → AreFindings (workspace_churn_findings strip es session)
    unfolding workspace_churn_findings
    workspace_churn_findings-AreFindings es h =
        let opens = filter is_open (successful es) in
        let opened = All-filter IsCall is_open (successful es) (successful-AreCalls es h) in
        let groups = group_by (path_key strip) opens in
        group_findings-AreFindings (churn_finding session)
          (sorted (λ a b. str_le (a.0) (b.0)) groups)
          (λ k g c. group_finding-AreFindings 3 _ "open_workspace" _ g c)
          (All-sorted (λ a b. str_le (a.0) (b.0)) (λ row. All IsCall (row.1)) groups
            (group_by-AreCalls (path_key strip) opens opened))
      where
        is_open : AnalyticsEvent → Bool
        is_open e = e.tool_name == "open_workspace"

    session_findings-AreFindings :
        (es : List AnalyticsEvent)
        → All IsCall es
        → AreFindings (session_findings int_text strip d session es)
    unfolding session_findings
    session_findings-AreFindings es h =
        All-append P _ _ (duplicate_call_findings-AreFindings es h) (
          All-append P _ _ (pagination_thrash_findings-AreFindings es h) (
            All-append P _ _ (workspace_churn_findings-AreFindings es h) (
              All-append P _ _ (broad_exploration_findings-AreFindings es h)
                (unused_tool_findings-AreFindings es))))
      where
        P : InefficiencyFinding → Type 0
        P = IsFinding d all_events

module _ (int_text : ℤ → String) (strip : String → String) (d : InefficiencyDetector)
    (events : List AnalyticsEvent) where
  detect_sessions :
      (groups : Dict String (List AnalyticsEvent))
      → All (λ row. All (IsCall d events (row.0)) (row.1)) groups
      → All (IsFinding d events) (group_findings (session_findings int_text strip d) groups)
  unfolding group_findings
  detect_sessions [] h = tt
  detect_sessions ((session, es) ∷ groups) h =
      All-append (IsFinding d events) _ _
        (session_findings-AreFindings d events session int_text strip es h.0)
        (detect_sessions groups h.1)

  finished-IsCall : All (λ e. IsCall d events e.session_id e) (filter (is_finished d) events)
  finished-IsCall =
      All-of_In (λ e. IsCall d events e.session_id e) (filter (is_finished d) events)
        (λ e m.
          let (there, finished) = In-of-filter (is_finished d) e events m in
          (e, there, finished, refl, refl))

  -- Every finding names as many events as it counts, or five if it counts more, and each is one of
  -- the given events, of the session of the finding, neither started nor of an excluded tool.
  pub detect-AreFindings : All (IsFinding d events) (detect int_text strip d events)
  unfolding detect
  detect-AreFindings = detect_sessions _ (
      All-sorted (λ a b. str_le (a.0) (b.0)) (λ row. All (IsCall d events (row.0)) (row.1)) _
        (Buckets-group_by (λ e. e.session_id) (IsCall d events) (filter (is_finished d) events)
          finished-IsCall))
