-- ===== src/Aggregator/Store/Sync/Written.antt =====
-- internal/aggregator/incident_store.go: what a synchronisation leaves in the cluster.
use kube_diagnose.Common.{
  List, [], ◌∷◌, ◌++◌, map, Bool, true, false, ◌||◌, Option, some, Text, lookup, lookup-insert_self,
  lookup-insert_ne, insert, ◌≡◌, ◌≢◌, refl, ap, ◌∙◌, arith, All,
}
use kube_diagnose.Api.{Incident}
use kube_diagnose.Aggregator.Store.{IncidentRecord, Records}
use kube_diagnose.Aggregator.Store.Sync.{
  ObjectKey, ObjectKey-discrete, Objects, Faults, existing, labelled, with_status, object_key,
  write_object, sync_record, sync_records, sync_to_kubernetes,
}

-- What a record makes of its object.
abbrev pub written : IncidentRecord → Incident → Incident
written rec o = with_status rec (labelled rec o)

write_object-other :
    (x y : Bool) (own key : ObjectKey) (placed final : Incident) (objects : Objects)
    → own ≢ key
    → lookup ObjectKey-discrete key (write_object x y own placed final objects).0
      ≡ lookup ObjectKey-discrete key objects
write_object-other true y own key placed final objects h = refl
write_object-other false true own key placed final objects h =
    lookup-insert_ne ObjectKey-discrete own key placed objects h
write_object-other false false own key placed final objects h =
    lookup-insert_ne ObjectKey-discrete own key final (insert ObjectKey-discrete own placed objects)
      h
    ∙ lookup-insert_ne ObjectKey-discrete own key placed objects h

write_object-own :
    (x y : Bool) (own : ObjectKey) (placed final : Incident) (objects : Objects)
    → (x || y) ≡ false
    → lookup ObjectKey-discrete own (write_object x y own placed final objects).0 ≡ some final
write_object-own true y own placed final objects h = ground arith
write_object-own false true own placed final objects h = ground arith
write_object-own false false own placed final objects h =
    lookup-insert_self ObjectKey-discrete own final (insert ObjectKey-discrete own placed objects)

write_object-flag :
    (x y : Bool) (own : ObjectKey) (placed final : Incident) (objects : Objects)
    → (write_object x y own placed final objects).1 ≡ (x || y)
write_object-flag true y own placed final objects = refl
write_object-flag false true own placed final objects = refl
write_object-flag false false own placed final objects = refl

module _ (unicode_lower : Text → Text) (f : Faults) where
  abbrev pub is_faulty : ObjectKey → Bool
  is_faulty key = f.create_or_patch key || (f.get key || f.patch_status key)

  abbrev pub at : ObjectKey → Objects → Option Incident
  at key objects = lookup ObjectKey-discrete key objects

  pub sync_record-other :
      (rec : IncidentRecord) (objects : Objects) (key : ObjectKey)
      → object_key unicode_lower f rec ≢ key
      → at key (sync_record unicode_lower f rec objects).0 ≡ at key objects
  unfolding sync_record
  sync_record-other rec objects key h =
      let own = object_key unicode_lower f rec in
      let placed = labelled rec (existing own (at own objects)) in
      write_object-other (f.create_or_patch own) (f.get own || f.patch_status own) own key placed
        (with_status rec placed) objects h

  pub sync_record-own :
      (rec : IncidentRecord) (objects : Objects)
      → let key = object_key unicode_lower f rec in
        is_faulty key ≡ false
        → at key (sync_record unicode_lower f rec objects).0
          ≡ some (written rec (existing key (at key objects)))
  unfolding sync_record
  sync_record-own rec objects h =
      let own = object_key unicode_lower f rec in
      let placed = labelled rec (existing own (at own objects)) in
      write_object-own (f.create_or_patch own) (f.get own || f.patch_status own) own placed
        (with_status rec placed) objects h

  sync_record-flag :
      (rec : IncidentRecord) (objects : Objects)
      → (sync_record unicode_lower f rec objects).1 ≡ is_faulty (object_key unicode_lower f rec)
  unfolding sync_record
  sync_record-flag rec objects =
      let own = object_key unicode_lower f rec in
      let placed = labelled rec (existing own (at own objects)) in
      write_object-flag (f.create_or_patch own) (f.get own || f.patch_status own) own placed
        (with_status rec placed) objects

  -- No record of a list has an object of a key.
  abbrev pub Spares : ObjectKey → List IncidentRecord → Type 0
  Spares key = All (λ rec. object_key unicode_lower f rec ≢ key)

  pub sync_records-other :
      (recs : List IncidentRecord) (objects : Objects) (key : ObjectKey)
      → Spares key recs
      → at key (sync_records unicode_lower f recs objects).0 ≡ at key objects
  unfolding sync_records
  sync_records-other [] objects key h = refl
  sync_records-other (rec ∷ recs) objects key h =
      sync_records-other recs (sync_record unicode_lower f rec objects).0 key h.1
      ∙ sync_record-other rec objects key h.0

  abbrev pub any_faulty : List IncidentRecord → Bool
  any_faulty [] = false
  any_faulty (rec ∷ recs) = is_faulty (object_key unicode_lower f rec) || any_faulty recs

  sync_records-flag :
      (recs : List IncidentRecord) (objects : Objects)
      → (sync_records unicode_lower f recs objects).1 ≡ any_faulty recs
  unfolding sync_records
  sync_records-flag [] objects = refl
  sync_records-flag (rec ∷ recs) objects =
      rw
        (
          sync_record-flag rec objects,
          sync_records-flag recs (sync_record unicode_lower f rec objects).0,
        )
        refl

  sync_records-own :
      (before after : List IncidentRecord) (rec : IncidentRecord) (objects : Objects)
      → let key = object_key unicode_lower f rec in
        is_faulty key ≡ false
        → Spares key before
        → Spares key after
        → at key (sync_records unicode_lower f (before ++ (rec ∷ after)) objects).0
          ≡ some (written rec (existing key (at key objects)))
  unfolding sync_records
  sync_records-own [] after rec objects h b a =
      sync_records-other after (sync_record unicode_lower f rec objects).0
        (object_key unicode_lower f rec) a
      ∙ sync_record-own rec objects h
  sync_records-own (r ∷ before) after rec objects h b a =
      sync_records-own before after rec (sync_record unicode_lower f r objects).0 h b.1 a
      ∙ ap (λ o. some (written rec (existing (object_key unicode_lower f rec) o)))
          (sync_record-other r objects (object_key unicode_lower f rec) b.0)

  -- Whatever calls fail for the objects of other records, a synchronisation writes the object of a
  -- record for which none fails, when no other record has the same object: its labels and its
  -- status, on the object that was there or on a new one. It reports an error exactly when a call
  -- fails for some record.
  pub sync_to_kubernetes-written :
      (s : Records) (before after : List IncidentRecord) (rec : IncidentRecord) (objects : Objects)
      → let key = object_key unicode_lower f rec in
        map (λ entry. entry.1) s ≡ before ++ (rec ∷ after)
        → is_faulty key ≡ false
        → Spares key before
        → Spares key after
        → let r = sync_to_kubernetes unicode_lower f s objects in
          (at key r.1 ≡ some (written rec (existing key (at key objects))))
          × (r.2 ≡ any_faulty (map (λ entry. entry.1) s))
  unfolding sync_to_kubernetes
  sync_to_kubernetes-written s before after rec objects e h b a = (
    ap (λ recs. at (object_key unicode_lower f rec) (sync_records unicode_lower f recs objects).0) e
        ∙ sync_records-own before after rec objects h b a,
    sync_records-flag (map (λ entry. entry.1) s) objects,
  )
