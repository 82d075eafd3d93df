-- ===== src/Analytics/Repeated.antt =====
-- Which calls count as repeated.
use Prim.Native.String
use code_suit.Base.{
  String, false, List, [], ◌∷◌, ◌++◌, some, ◌≤◌, ◌≡◌, refl, subst, ◌==◌, Eq, eq_of_==, ltb,
  Bool-cases, inl, inr, arith, In, filter, length,
}
use code_suit.Base.Dict.{Dict, lookup}
use code_suit.Base.Groups.{bucket, group_by, bucket-group_by}
use code_suit.Analytics.{
  AnalyticsEvent, InefficiencyFinding, CallKey, call_key, call_key_eq, samples, successful,
  duplicate_call, duplicate_finding, duplicate_call_findings, group_findings,
}

module _ {A : Type 0} where
  In-append_left : (a : A) (xs ys : List A) → In a xs → In a (xs ++ ys)
  In-append_left a [] ys m = absurd m
  In-append_left a (x ∷ xs) ys (inl e) = inl e
  In-append_left a (x ∷ xs) ys (inr m) = inr (In-append_left a xs ys m)

  In-append_right : (a : A) (xs ys : List A) → In a ys → In a (xs ++ ys)
  In-append_right a [] ys m = m
  In-append_right a (x ∷ xs) ys m = inr (In-append_right a xs ys m)

-- What is found on a group that is not empty is among the findings.
module _ {K : Type 0} ⦃e : Eq K⦄
    (finding : K → List AnalyticsEvent → List InefficiencyFinding) where
  In-group_findings :
      (k : K) (groups : Dict K (List AnalyticsEvent)) (f : InefficiencyFinding)
      → 1 ≤ length (bucket k groups)
      → In f (finding k (bucket k groups))
      → In f (group_findings finding groups)
  unfolding group_findings lookup
  In-group_findings k [] f h m = absurd (omega arith)
  In-group_findings k ((j, g) ∷ groups) f h m = elim (Bool-cases (k == j)) [
    | inl same ↦
        In-append_left f (finding j g) (group_findings finding groups)
          (subst (λ i. In f (finding i g)) (eq_of_== k j same) (rw same at m))
    | inr differ ↦
        In-append_right f (finding j g) (group_findings finding groups)
          (In-group_findings k groups f (rw differ at h) (rw differ at m))
  ]

-- The successful calls with the key.
abbrev pub calls_with : CallKey → List AnalyticsEvent → List AnalyticsEvent
unfolding call_key_eq
calls_with k events = filter (λ e. k == call_key e) (successful events)

pub record IsRepeated (k : CallKey) (events : List AnalyticsEvent) (f : InefficiencyFinding)
    : Type 0 where
  tool : f.tool_name ≡ some k.tool
  counted : f.count ≡ length (calls_with k events)
  first : f.sample_event_ids ≡ samples (calls_with k events)

-- Where a session has at least three successful calls with the same tool and arguments, a finding
-- names the tool, their number and the first five of them.
pub duplicate_call_findings-IsRepeated :
    (events : List AnalyticsEvent) (session : String) (k : CallKey)
    → 3 ≤ length (calls_with k events)
    → (f : InefficiencyFinding) × In f (duplicate_call_findings events session)
      × IsRepeated k events f
unfolding duplicate_call_findings call_key_eq
duplicate_call_findings-IsRepeated events session k h =
    let same = bucket-group_by call_key k (successful events) in
    let enough : ltb (length (calls_with k events)) 3 ≡ false = ground arith in
    (
      record {
        kind = duplicate_call;
        tool_name = some k.tool;
        session_id = session;
        count = length (calls_with k events);
        description =
            String.◌++◌ "`"
              (String.◌++◌ k.tool "` was called repeatedly with identical arguments.");
        sample_event_ids = samples (calls_with k events);
      },
      In-group_findings (duplicate_finding session) k (group_by call_key (successful events)) _
          (rw same (omega (arith, h))) (rw (same, enough) (inl refl)),
      record { tool = refl; counted = refl; first = refl },
    )
