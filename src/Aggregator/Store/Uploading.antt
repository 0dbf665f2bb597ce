-- ===== src/Aggregator/Store/Uploading.antt =====
-- internal/aggregator/incident_store.go: where a synchronisation puts the object of one fingerprint.
use kube_diagnose.Common.{
  List, [], ◌∷◌, map, Bool, true, false, ◌||◌, Option, none, some, Text, ◌≡◌, ◌≢◌, refl, ap, sym,
  ◌∙◌, arith, if_pos, if_neg, subst, Text-discrete, lookup, Distinct, insert-Distinct, insert-All,
  lookup-All, absent-All, All,
}
use kube_diagnose.Api.{Incident}
use kube_diagnose.Aggregator.Store.{IncidentRecord, Records}
use kube_diagnose.Aggregator.Store.History.{Sound}
use kube_diagnose.Aggregator.Store.Status.{sync_status}
use kube_diagnose.Aggregator.Store.Sync.{
  ObjectKey, ObjectKey-discrete, Objects, Faults, existing, labelled, with_status, object_key,
  write_object, sync_record, sync_records,
}
use kube_diagnose.Aggregator.Store.Sync.Written.{
  written, at, is_faulty, sync_record-other, sync_record-own, sync_records-other, Spares,
}

-- Every object of a cluster that shows a fingerprint stands at a key.
abbrev OnlyAt : Text → ObjectKey → Objects → Type 0
OnlyAt fp key = All (λ entry. entry.1.status.fingerprint ≡ fp → entry.0 ≡ key)

write_object-Distinct :
    (x y : Bool) (own : ObjectKey) (placed final : Incident) (objects : Objects)
    → Distinct ObjectKey-discrete objects
    → Distinct ObjectKey-discrete (write_object x y own placed final objects).0
write_object-Distinct true y own placed final objects d = d
write_object-Distinct false true own placed final objects d =
    insert-Distinct ObjectKey-discrete own placed objects d
write_object-Distinct false false own placed final objects d =
    insert-Distinct ObjectKey-discrete own final _
      (insert-Distinct ObjectKey-discrete own placed objects d)

write_object-OnlyAt :
    (fp : Text) (key : ObjectKey) (x y : Bool) (own : ObjectKey) (placed final : Incident)
    (objects : Objects)
    → (placed.status.fingerprint ≡ fp → own ≡ key)
    → (final.status.fingerprint ≡ fp → own ≡ key)
    → OnlyAt fp key objects
    → OnlyAt fp key (write_object x y own placed final objects).0
write_object-OnlyAt fp key true y own placed final objects p q h = h
write_object-OnlyAt fp key false true own placed final objects p q h =
    insert-All ObjectKey-discrete _ own placed objects p h
write_object-OnlyAt fp key false false own placed final objects p q h =
    insert-All ObjectKey-discrete _ own final _ q
      (insert-All ObjectKey-discrete _ own placed objects p h)

-- The other records of some entries have other objects than that of the key.
abbrev pub Apart : (Text → Text) → Faults → Text → ObjectKey → Records → Type 0
Apart unicode_lower f fp key =
    All (λ entry. entry.0 ≢ fp → object_key unicode_lower f entry.1 ≢ key)

module _ (unicode_lower : Text → Text) (f : Faults) (fp : Text) (has_fingerprint : fp ≢ [])
    (key : ObjectKey) where
  -- The object before a write shows the fingerprint at the key alone: a new one shows none.
  existing-OnlyAt :
      (own : ObjectKey) (objects : Objects) (o : Option Incident)
      → lookup ObjectKey-discrete own objects ≡ o
      → OnlyAt fp key objects
      → (existing own o).status.fingerprint ≡ fp
      → own ≡ key
  existing-OnlyAt own objects none e h shown = absurd (has_fingerprint (sym shown))
  existing-OnlyAt own objects (some o) e h shown =
      lookup-All ObjectKey-discrete (λ entry. entry.1.status.fingerprint ≡ fp → entry.0 ≡ key) own o
        objects e h shown

  pub sync_records-OnlyAt :
      (recs : List IncidentRecord) (objects : Objects)
      → All (λ rec. rec.fingerprint ≡ fp → object_key unicode_lower f rec ≡ key) recs
      → Distinct ObjectKey-discrete objects
      → OnlyAt fp key objects
      → let r = sync_records unicode_lower f recs objects in
        Distinct ObjectKey-discrete r.0 × OnlyAt fp key r.0
  unfolding sync_records sync_record labelled sync_status
  sync_records-OnlyAt [] objects a d h = (d, h)
  sync_records-OnlyAt (rec ∷ recs) objects a d h =
      let own = object_key unicode_lower f rec in
      let placed = labelled rec (existing own (lookup ObjectKey-discrete own objects)) in
      sync_records-OnlyAt recs (sync_record unicode_lower f rec objects).0 a.1
        (write_object-Distinct (f.create_or_patch own) (f.get own || f.patch_status own) own placed
          (with_status rec placed) objects d)
        (write_object-OnlyAt fp key (f.create_or_patch own) (f.get own || f.patch_status own) own
          placed (with_status rec placed) objects (existing-OnlyAt own objects _ refl h) a.0 h)

  pub Apart-Spares :
      (s : Records)
      → All (λ entry. entry.0 ≢ fp) s
      → Apart unicode_lower f fp key s
      → Spares unicode_lower f key (map (λ entry. entry.1) s)
  Apart-Spares [] n a = tt
  Apart-Spares (entry ∷ s) n a = (a.0 n.0, Apart-Spares s n.1 a.1)

  absent_elsewhere :
      (s : Records)
      → All Sound s
      → All (λ entry. entry.0 ≢ fp) s
      → All
          (λ rec. rec.fingerprint ≡ fp → object_key unicode_lower f rec ≡ key)
          (map (λ entry. entry.1) s)
  absent_elsewhere [] h n = tt
  absent_elsewhere (entry ∷ s) h n =
      ((λ e. absurd (n.0 (sym h.0.0 ∙ e))), absent_elsewhere s h.1 n.1)

  module _ (rec : IncidentRecord) (is_key : object_key unicode_lower f rec ≡ key) where
    pub only_at :
        (s : Records)
        → lookup Text-discrete fp s ≡ some rec
        → Distinct Text-discrete s
        → All Sound s
        → All
            (λ r. r.fingerprint ≡ fp → object_key unicode_lower f r ≡ key)
            (map (λ entry. entry.1) s)
    unfolding lookup
    only_at [] e d h = tt
    only_at (entry ∷ s) e d h = elim (Text-discrete entry.0 fp) [
      | yes same ↦ (
        (λ _.
            subst (λ r. object_key unicode_lower f r ≡ key)
              (sym (found (sym (if_pos (Text-discrete entry.0 fp) same _ _) ∙ e))) is_key),
        absent_elsewhere s h.1
            (absent-All Text-discrete fp s (subst (λ k. lookup Text-discrete k s ≡ none) same d.0)),
      )
      | no differ ↦ (
        (λ shown. absurd (differ (sym h.0.0 ∙ shown))),
        only_at s (sym (if_neg (Text-discrete entry.0 fp) differ _ _) ∙ e) d.1 h.1,
      )
    ]
      where
        found : {x : IncidentRecord} → some x ≡ some rec → x ≡ rec
        found h = ground arith

    sync_record-at :
        (objects : Objects)
        → is_faulty unicode_lower f key ≡ false
        → at unicode_lower f key (sync_record unicode_lower f rec objects).0
          ≡ some (written rec (existing key (at unicode_lower f key objects)))
    sync_record-at objects =
        subst
          (λ k.
            is_faulty unicode_lower f k ≡ false
            → at unicode_lower f k (sync_record unicode_lower f rec objects).0
              ≡ some (written rec (existing k (at unicode_lower f k objects))))
          is_key (sync_record-own unicode_lower f rec objects)

    pub sync_records-at :
        (s : Records) (objects : Objects)
        → lookup Text-discrete fp s ≡ some rec
        → Distinct Text-discrete s
        → Apart unicode_lower f fp key s
        → is_faulty unicode_lower f key ≡ false
        → at unicode_lower f key (sync_records unicode_lower f (map (λ entry. entry.1) s) objects).0
          ≡ some (written rec (existing key (at unicode_lower f key objects)))
    unfolding sync_records lookup
    sync_records-at [] objects e d a h = ground arith
    sync_records-at (entry ∷ s) objects e d a h = elim (Text-discrete entry.0 fp) [
      | yes same ↦
          let mine = found (sym (if_pos (Text-discrete entry.0 fp) same _ _) ∙ e) in
          let gone =
            absent-All Text-discrete fp s (subst (λ k. lookup Text-discrete k s ≡ none) same d.0) in
          sync_records-other unicode_lower f (map (λ entry. entry.1) s)
            (sync_record unicode_lower f entry.1 objects).0 key (Apart-Spares s gone a.1)
          ∙ subst
              (λ r.
                at unicode_lower f key (sync_record unicode_lower f r objects).0
                ≡ some (written rec (existing key (at unicode_lower f key objects))))
              (sym mine) (sync_record-at objects h)
      | no differ ↦
          sync_records-at s (sync_record unicode_lower f entry.1 objects).0
            (sym (if_neg (Text-discrete entry.0 fp) differ _ _) ∙ e) d.1 a.1 h
          ∙ ap (λ o. some (written rec (existing key o)))
              (sync_record-other unicode_lower f entry.1 objects key (a.0 differ))
    ]
      where
        found : {x : IncidentRecord} → some x ≡ some rec → x ≡ rec
        found h = ground arith
