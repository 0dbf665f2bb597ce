-- ===== src/Rag/Engine/Payload.antt =====
-- internal/rag/engine.go: documents read back from their payloads.
use kube_diagnose.Common.{
  List, [], ◌∷◌, map, none, some, Text, Text-discrete, ◌≡◌, refl, ap, lookup,
}
use kube_diagnose.Rag.Document.{
  Document, DocumentType, runbook, postmortem, guide, incident, unknown,
}
use kube_diagnose.Rag.Engine.{
  Value, text, texts, items, other, Payload, point_of, type_text, strings, document_type_of,
  document_from_payload,
}

-- What encoding/json makes of a value and reads back into an interface, by what it makes of a text:
-- a text that is not valid UTF-8 is changed. The keys and the names of the types are plain ASCII.
abbrev pub json_value : (Text → Text) → Value → Value
json_value round_trip (text t) = text (round_trip t)
json_value round_trip (texts ts) = items (map (λ t. some (round_trip t)) ts)
json_value round_trip (items ts) =
    items (map (λ o. elim o [ none ↦ none | some t ↦ some (round_trip t) ]) ts)
json_value round_trip other = other

abbrev pub json_payload : (Text → Text) → Payload → Payload
json_payload round_trip = map (λ entry. (entry.0, json_value round_trip entry.1))

strings-some :
    (round_trip : Text → Text) (ts : List Text)
    → strings (map (λ t. some (round_trip t)) ts) ≡ map round_trip ts
strings-some round_trip [] = refl
strings-some round_trip (t ∷ ts) = ap (◌∷◌ (round_trip t)) (strings-some round_trip ts)

document_type_of-type_text : (k : DocumentType) → document_type_of (type_text k) ≡ k
unfolding document_type_of Text-discrete
document_type_of-type_text runbook = refl
document_type_of-type_text postmortem = refl
document_type_of-type_text guide = refl
document_type_of-type_text incident = refl
document_type_of-type_text unknown = refl

-- A document whose payload went to the store and came back as JSON is the document it was, with each
-- of its texts as the encoding gives it back, if the encoding keeps the names of the types.
pub document_from_payload-point_of :
    {V : Type 0} (round_trip : Text → Text) (doc : Document) (vec : V)
    → ((k : DocumentType) → round_trip (type_text k) ≡ type_text k)
    → document_from_payload (json_payload round_trip (point_of doc vec).payload) ≡ record {
      id = round_trip doc.id;
      kind = doc.kind;
      title = round_trip doc.title;
      content = round_trip doc.content;
      source = round_trip doc.source;
      tags = map round_trip doc.tags;
    }
unfolding document_from_payload lookup Text-discrete
document_from_payload-point_of round_trip doc vec names =
    rw (names doc.kind, document_type_of-type_text doc.kind, strings-some round_trip doc.tags) refl
