-- ===== src/Aggregator/Store/Loading.antt =====
-- internal/aggregator/incident_store.go: what loading makes of the object of one fingerprint.
use kube_diagnose.Common.{
  ℕ, List, [], ◌∷◌, map, Bool, true, false, none, some, Text, ◌≡◌, ◌≢◌, refl, sym, ◌∙◌, arith,
  if_pos, if_neg, if◌then◌else◌, subst, Text-discrete, lookup, insert, lookup-insert_self,
  lookup-insert_ne, Distinct, absent-All, All,
}
use kube_diagnose.Api.{Incident}
use kube_diagnose.Aggregator.Store.{IncidentRecord, Records}
use kube_diagnose.Aggregator.Store.Recovery.{reread}
use kube_diagnose.Aggregator.Store.Status.{recovered, is_skipped, load_items}
use kube_diagnose.Aggregator.Store.Sync.{ObjectKey, ObjectKey-discrete, Objects}

-- The objects of a list of entries, as the API server gives them back.
abbrev pub listed : (ℕ → ℕ) → (Text → Text) → Objects → List Incident
listed kept_time kept_text = map (λ entry. reread kept_time kept_text entry.1)

-- What loading one object makes of the records.
abbrev loaded : Incident → Records → Records
loaded item acc =
    if is_skipped item
    then acc
    else insert Text-discrete item.status.fingerprint (recovered item) acc

passed_over :
    (b : Bool) (k fp : Text) (rec : IncidentRecord) (acc : Records)
    → k ≢ fp
    → lookup Text-discrete fp (if b then acc else insert Text-discrete k rec acc)
      ≡ lookup Text-discrete fp acc
passed_over true k fp rec acc h = refl
passed_over false k fp rec acc h = lookup-insert_ne Text-discrete k fp rec acc h

kept_entry :
    (b : Bool) (k fp : Text) (rec : IncidentRecord) (acc : Records)
    → b ≡ false
    → k ≡ fp
    → lookup Text-discrete fp (if b then acc else insert Text-discrete k rec acc) ≡ some rec
kept_entry true k fp rec acc e h = absurd (cc)
kept_entry false k fp rec acc e h = rw (← h) (lookup-insert_self Text-discrete k rec acc)

module _ (kept_time : ℕ → ℕ) (kept_text : Text → Text) (fp : Text) where
  load_items-elsewhere :
      (objects : Objects) (acc : Records)
      → All (λ entry. entry.1.status.fingerprint ≢ fp) objects
      → lookup Text-discrete fp (load_items (listed kept_time kept_text objects) acc)
        ≡ lookup Text-discrete fp acc
  unfolding load_items
  load_items-elsewhere [] acc h = refl
  load_items-elsewhere (entry ∷ objects) acc h =
      let item : Incident = reread kept_time kept_text entry.1 in
      load_items-elsewhere objects (loaded item acc) h.1
      ∙ passed_over (is_skipped item) item.status.fingerprint fp (recovered item) acc h.0

  others_elsewhere :
      (key : ObjectKey) (objects : Objects)
      → All (λ entry. entry.0 ≢ key) objects
      → All (λ entry. entry.1.status.fingerprint ≡ fp → entry.0 ≡ key) objects
      → All (λ entry. entry.1.status.fingerprint ≢ fp) objects
  others_elsewhere key [] a u = tt
  others_elsewhere key (entry ∷ objects) a u =
      ((λ e. a.0 (u.0 e)), others_elsewhere key objects a.1 u.1)

  -- The object of a key is loaded, when it is the only one with the fingerprint.
  pub load_items-at :
      (key : ObjectKey) (o : Incident) (objects : Objects) (acc : Records)
      → lookup ObjectKey-discrete key objects ≡ some o
      → Distinct ObjectKey-discrete objects
      → All (λ entry. entry.1.status.fingerprint ≡ fp → entry.0 ≡ key) objects
      → o.status.fingerprint ≡ fp
      → is_skipped (reread kept_time kept_text o) ≡ false
      → lookup Text-discrete fp (load_items (listed kept_time kept_text objects) acc)
        ≡ some (recovered (reread kept_time kept_text o))
  unfolding load_items lookup
  load_items-at key o [] acc e d u f s = ground arith
  load_items-at key o (entry ∷ objects) acc e d u f s = elim (ObjectKey-discrete entry.0 key) [
    | yes same ↦
        let mine = found (sym (if_pos (ObjectKey-discrete entry.0 key) same _ _) ∙ e) in
        let item : Incident = reread kept_time kept_text o in
        subst
          (λ x.
            lookup Text-discrete fp (
              load_items (listed kept_time kept_text objects)
                (loaded (reread kept_time kept_text x) acc))
            ≡ some (recovered item))
          (sym mine)
          (load_items-elsewhere objects (loaded item acc) (
              others_elsewhere key objects
                (absent-All ObjectKey-discrete key objects
                  (subst (λ k. lookup ObjectKey-discrete k objects ≡ none) same d.0))
                u.1)
            ∙ kept_entry (is_skipped item) item.status.fingerprint fp (recovered item) acc s f)
    | no differ ↦
        load_items-at key o objects (loaded (reread kept_time kept_text entry.1) acc)
          (sym (if_neg (ObjectKey-discrete entry.0 key) differ _ _) ∙ e) d.1 u.1 f s
  ]
    where
      found : {x : Incident} → some x ≡ some o → x ≡ o
      found h = ground arith
