-- ===== src/Api.antt =====
-- api/v1alpha1: the custom resources that the controllers read and write. A pointer field is an
-- Option, a time is a number of nanoseconds since Go's zero time, and an int64 is a number.
use kube_diagnose.Common.{ℕ, List, Bool, Option, Text, Float64}

-- `unset` is the empty string that an object has before its first status patch.
pub data IncidentPhase : Type 0 where
  unset detecting analyzing notified acknowledged resolved archived : IncidentPhase

pub record AffectedResource : Type 0 where
  pub kind : Text
  pub name : Text
  pub namespace : Text
  pub container : Text

pub record RecommendedAction : Type 0 where
  pub step : ℕ
  pub action : Text
  pub command : Text
  pub priority : Text

pub record AiAnalysis : Type 0 where
  pub root_cause : Text
  pub confidence : Float64
  pub impact : Text
  pub severity : Text
  pub recommended_actions : List RecommendedAction
  pub related_runbooks : List Text
  pub analysis_source : Text
  pub analyzed_at : Option ℕ
  pub tokens_used : ℕ

pub record Condition : Type 0 where
  pub kind : Text
  pub status : Bool
  pub reason : Text
  pub message : Text
  pub last_transition_time : ℕ

pub record IncidentSpec : Type 0 where
  pub acknowledged : Bool
  pub acknowledged_by : Text
  pub notes : Text

pub record PatternWindow : Type 0 where
  pub window : Text
  pub count : ℕ
  pub rate : Float64

pub record IncidentStatus : Type 0 where
  pub phase : IncidentPhase
  pub fingerprint : Text
  pub pattern : Text
  pub count : ℕ
  pub affected_resources : List AffectedResource
  pub sample_log_message : Text
  pub first_seen : Option ℕ
  pub last_seen : Option ℕ
  pub frequency_windows : List PatternWindow
  pub analysis : Option AiAnalysis
  pub severity : Text
  pub is_notified : Bool
  pub notified_at : Option ℕ
  pub is_resolved : Bool
  pub resolved_at : Option ℕ
  pub policy_ref : Text
  pub conditions : List Condition

-- Of the object's metadata: its name, namespace and labels.
pub record Incident : Type 0 where
  pub name : Text
  pub namespace : Text
  pub labels : List (Text × Text)
  pub spec : IncidentSpec
  pub status : IncidentStatus

-- A status that no controller has written.
abbrev pub empty_status : IncidentStatus
empty_status = record {
  phase = unset;
  fingerprint = List.[];
  pattern = List.[];
  count = 0;
  affected_resources = List.[];
  sample_log_message = List.[];
  first_seen = Option.none;
  last_seen = Option.none;
  frequency_windows = List.[];
  analysis = Option.none;
  severity = List.[];
  is_notified = Bool.false;
  notified_at = Option.none;
  is_resolved = Bool.false;
  resolved_at = Option.none;
  policy_ref = List.[];
  conditions = List.[];
}
