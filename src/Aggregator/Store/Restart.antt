-- ===== src/Aggregator/Store/Restart.antt =====
-- internal/aggregator/incident_store.go: a synchronisation to an empty cluster and a restart.
use kube_diagnose.Common.{
  ℕ, [], map, true, false, none, some, Text, ◌≡◌, ◌≢◌, refl, ap, sym, ◌∙◌, if_neg, Text-discrete,
  lookup, Distinct, lookup-All,
}
use kube_diagnose.Api.{Incident}
use kube_diagnose.Aggregator.Store.{IncidentRecord, Records}
use kube_diagnose.Aggregator.Store.History.{Sound, Reach, Reach-AllSound}
use kube_diagnose.Aggregator.Store.Recovery.{reread, remembered, recovered-sync_status}
use kube_diagnose.Aggregator.Store.Status.{
  sync_status, recovered, is_skipped, load_existing_incidents,
}
use kube_diagnose.Aggregator.Store.Sync.{
  ObjectKey, Faults, existing, labelled, object_key, sync_to_kubernetes,
}
use kube_diagnose.Aggregator.Store.Sync.Written.{written, is_faulty}
use kube_diagnose.Aggregator.Store.Loading.{listed, load_items-at}
use kube_diagnose.Aggregator.Store.Uploading.{Apart, only_at, sync_records-OnlyAt, sync_records-at}

module _ (kept_time : ℕ → ℕ) (kept_text : Text → Text) (unicode_lower : Text → Text)
    (f : Faults) where
  not_skipped :
      (rec : IncidentRecord) (o : Incident)
      → rec.is_resolved ≡ false
      → rec.fingerprint ≢ []
      → is_skipped (reread kept_time kept_text (written rec o)) ≡ false
  unfolding is_skipped sync_status labelled
  not_skipped rec o r n = rw (r, if_neg (Text-discrete rec.fingerprint []) n true false) refl

  recovered-written :
      (rec : IncidentRecord) (key : ObjectKey)
      → object_key unicode_lower f rec ≡ key
      → Distinct Text-discrete rec.affected_pods
      → recovered (reread kept_time kept_text (written rec (existing key none)))
        ≡ remembered kept_time kept_text key.name rec
  unfolding labelled
  recovered-written rec key is_key d =
      recovered-sync_status kept_time kept_text rec (labelled rec (existing key none)) d
        (sym (ap (λ k. k.namespace) is_key))

  -- After any calls on an empty store, a synchronisation to a cluster without incidents and a restart
  -- find the record of a fingerprint again, whatever calls fail for the objects of other records, if
  -- no call fails for its own and no other record has the same object: its pattern, its sample
  -- message and its times as the encoding of objects gives them back, the name of its object, no
  -- window events, and the rest as it was.
  pub restart :
      {s : Records} (fp : Text) (rec : IncidentRecord)
      → Reach s
      → lookup Text-discrete fp s ≡ some rec
      → let key = object_key unicode_lower f rec in
        Apart unicode_lower f fp key s
        → is_faulty unicode_lower f key ≡ false
        → let cluster = (sync_to_kubernetes unicode_lower f s []).1 in
          lookup Text-discrete fp
            (load_existing_incidents (some (listed kept_time kept_text cluster)) []).0
          ≡ some (remembered kept_time kept_text key.name rec)
  unfolding load_existing_incidents sync_to_kubernetes lookup sync_status labelled
  restart {s} fp rec reach found apart fine =
      let sound = Reach-AllSound reach in
      let own = lookup-All Text-discrete Sound fp rec s found sound.1 in
      let key = object_key unicode_lower f rec in
      let named : fp ≢ [] = own.1 in
      let placed =
        sync_records-OnlyAt unicode_lower f fp named key (map (λ entry. entry.1) s) []
          (only_at unicode_lower f fp named key rec refl s found sound.0 sound.1) tt tt in
      load_items-at kept_time kept_text fp key (written rec (existing key none)) _ []
        (sync_records-at unicode_lower f fp named key rec refl s [] found sound.0 apart fine)
        placed.0 placed.1 own.0
        (not_skipped rec (existing key none) own.2 (λ e. named (sym own.0 ∙ e)))
      ∙ ap some (recovered-written rec key refl own.3)
