-- ===== src/Aggregator/Store/Tests.antt =====
-- internal/aggregator/incident_store.go: the store at concrete inputs.
use kube_diagnose.Common.{
  ℕ, ◌*◌, ◌/◌, ℕ, List, [], ◌∷◌, true, false, none, some, Text, Text-discrete, ◌≡◌, refl, arith,
  codes, length, ltb, if◌then◌else◌, lookup, insert,
}
use kube_diagnose.Api.{IncidentStatus, empty_status, analyzing, detecting, notified}
use kube_diagnose.Aggregator.Store.{
  IncidentRecord, Records, Event, record_event, get_or_create, update_record, new_record,
  severity_low,
}
use kube_diagnose.Aggregator.Store.Counting.{
  record_events, matching, origin, recorded, placeholder_stays_empty,
}
use kube_diagnose.Aggregator.Store.Status.{sync_status, load_existing_incidents}
use kube_diagnose.Aggregator.Store.History.{Reach, here, next, records, sync_sets_back}
use kube_diagnose.Aggregator.Store.Recovery.{remembered}
use kube_diagnose.Aggregator.Store.Loading.{listed}
use kube_diagnose.Aggregator.Store.Uploading.{Apart}
use kube_diagnose.Aggregator.Store.Restart.{restart}
use kube_diagnose.Aggregator.Store.Sync.{Faults, object_key, sync_to_kubernetes}

abbrev refused : Text → Event
refused pod = record {
  namespace = codes "shop";
  policy_name = codes "all";
  fingerprint = codes "f1";
  pattern = codes "refused";
  sample_msg = codes "dial refused";
  pod_name = pod;
}

abbrev timeout : Event
timeout = record (refused (codes "web")) { fingerprint = codes "f2"; pattern = codes "timeout" }

abbrev three : List (Event × ℕ)
three = (refused (codes "web"), 10) ∷ (timeout, 20) ∷ (refused [], 30) ∷ []

three-matching : matching (codes "f1") three ≡ (refused (codes "web"), 10) ∷ (refused [], 30) ∷ []
unfolding Text-discrete
three-matching = refl

recorded_example :
    (rec : IncidentRecord) × (lookup Text-discrete (codes "f1") (record_events three []) ≡ some rec)
    × (rec.count ≡ 2)
    × (rec.last_seen ≡ 30)
    × (origin rec ≡ (
      codes "f1",
      codes "refused",
      codes "dial refused",
      codes "shop",
      codes "all",
      10,
      severity_low,
      false,
    ))
recorded_example =
    recorded (codes "f1") three ((refused [], 30) ∷ []) (refused (codes "web"), 10) three-matching

none_yet : lookup {V = IncidentRecord} Text-discrete (codes "f1") [] ≡ none
unfolding lookup
none_yet = refl

placeholder_stays_empty_example :
    (rec : IncidentRecord) × (lookup Text-discrete
        (codes "f1")
        (record_events three (get_or_create (codes "f1") 5 []).0)
      ≡ some rec)
    × (rec.count ≡ length (matching (codes "f1") three))
    × (origin rec ≡ (codes "f1", [], [], [], [], 5, [], false))
placeholder_stays_empty_example = placeholder_stays_empty (codes "f1") 5 [] three none_yet

abbrev once : Records
once = (record_event (refused (codes "web")) 10 []).0

reached : Reach once
reached = next here (records (refused (codes "web")) 10 [] (λ e. ground arith))

once_found :
    lookup Text-discrete (codes "f1") once
    ≡ some (update_record (refused (codes "web")) 10 (new_record (refused (codes "web")) 10))
unfolding lookup record_event insert Text-discrete
once_found = refl

abbrev notified_status : IncidentStatus
notified_status = record empty_status { phase = notified; is_resolved = true }

abbrev first_record : IncidentRecord
first_record = update_record (refused (codes "web")) 10 (new_record (refused (codes "web")) 10)

sync_sets_back_example :
    ((sync_status first_record notified_status).is_resolved ≡ false)
    × ((sync_status first_record notified_status).phase
        ≡ (if ltb 1 first_record.count then analyzing else detecting))
sync_sets_back_example = sync_sets_back reached (codes "f1") first_record notified_status once_found

abbrev no_faults : Faults
no_faults = record { create_or_patch = λ k. false; get = λ k. false; patch_status = λ k. false }

-- The encoding of a time keeps whole seconds.
abbrev seconds : ℕ → ℕ
seconds t = 1000000000 * (t / 1000000000)

alone : Apart (λ t. t) no_faults (codes "f1") (object_key (λ t. t) no_faults first_record) once
unfolding record_event lookup insert Text-discrete
alone = ((λ h. absurd (h refl)), tt)

restart_example :
    let cluster = (sync_to_kubernetes (λ t. t) no_faults once []).1 in
    lookup Text-discrete
      (codes "f1")
      (load_existing_incidents (some (listed seconds (λ t. t) cluster)) []).0
    ≡ some
        (remembered seconds (λ t. t) (object_key (λ t. t) no_faults first_record).name first_record)
restart_example =
    restart seconds (λ t. t) (λ t. t) no_faults (codes "f1") first_record reached once_found alone
      refl
