-- ===== src/Rag/Engine.antt =====
-- internal/rag/engine.go: documents as points of the vector store, their indexing in batches,
-- and retrieval. The embedder, the vector store and the sorting of results are parameters; `V`
-- is the type of vectors. A payload is what encoding/json makes of the map and reads back; a search
-- result always has one, as it is asked for.
pub mod Uuid
pub mod Payload
pub mod Batches
pub mod Ranking
mod Tests
use kube_diagnose.Common.{
  ℕ, zero, suc, ◌+◌, ◌*◌, List, [], ◌∷◌, ◌++◌, Bool, true, false, Option, none, some, Text,
  Text-discrete, codes, ite, ltb, leb, ◌==◌, if◌then◌else◌, length, take, lookup, ℤ, pos, negsuc,
  Float64, float_lt, float_one, float_zero, float_add, float_half, decimal, join,
}
use kube_diagnose.Rag.Document.{
  Document, DocumentType, runbook, postmortem, guide, incident, unknown,
}
use kube_diagnose.Rag.Engine.Uuid.{doc_uuid}

-- A value of a payload: a string, a []string, a []interface{} with its strings, or another one.
pub data Value : Type 0 where
  text : Text → Value
  texts : List Text → Value
  items : List (Option Text) → Value
  other : Value

abbrev pub Payload : Type 0
Payload = List (Text × Value)

pub record QdrantPoint (V : Type 0) : Type 0 where
  pub id : Text
  pub vector : V
  pub payload : Payload

pub record SearchResult : Type 0 where
  pub id : Text
  pub score : Float64
  pub payload : Payload

abbrev pub type_text : DocumentType → Text
type_text runbook = codes "runbook"
type_text postmortem = codes "postmortem"
type_text guide = codes "guide"
type_text incident = codes "incident"
type_text unknown = codes "unknown"

abbrev pub point_of : {V : Type 0} → Document → V → QdrantPoint V
point_of doc vec = record {
  id = doc_uuid doc.id;
  vector = vec;
  payload =
      (codes "id", text doc.id)
      ∷ (codes "title", text doc.title)
      ∷ (codes "content", text doc.content)
      ∷ (codes "type", text (type_text doc.kind))
      ∷ (codes "source", text doc.source)
      ∷ (codes "tags", texts doc.tags)
      ∷ [];
}

-- The calls on the embedder and on the store, whose state is `Q`; a flag is an error.
pub record Services (V Q : Type 0) : Type 0 where
  pub embed : Text → Option V
  pub upsert : Text → List (QdrantPoint V) → Q → Q × Bool
  pub search : Text → V → ℕ → Option (List SearchResult)

abbrev pub collection_runbooks : Text
collection_runbooks = codes "runbooks"

abbrev pub collection_incidents : Text
collection_incidents = codes "incidents"

abbrev pub collection_metadata : Text
collection_metadata = codes "metadata"

abbrev pub index_batch_size : ℕ
index_batch_size = 20

pub data Indexed : Type 0 where
  done : Indexed
  cancelled_at : ℕ → Indexed
  upsert_failed : Indexed
  none_indexed : Indexed

module _ {V Q : Type 0} (s : Services V Q) where
  abbrev pub finish : ℕ → Indexed
  finish count = if count == 0 then none_indexed else done

  -- The last, partial batch.
  unfoldable pub flush_last : List (QdrantPoint V) → ℕ → Q → Q × Indexed
  flush_last [] count q = (q, finish count)
  flush_last (p ∷ ps) count q =
      let r = s.upsert collection_runbooks (p ∷ ps) q in
      (r.0, if r.1 then upsert_failed else finish (count + length (p ∷ ps)))

  -- The loop over the documents: the index of the next, the batch, the points stored so far.
  unfoldable pub index_loop :
      (ℕ → Bool) → ℕ → List Document → List (QdrantPoint V) → ℕ → Q → Q × Indexed
  index_loop cancelled i [] batch count q = flush_last batch count q
  index_loop cancelled i (doc ∷ docs) batch count q = elim (cancelled i) [
    | true ↦ (q, cancelled_at i)
    | false ↦ elim (s.embed doc.content) [
      | none ↦ index_loop cancelled (suc i) docs batch count q
      | some vec ↦
          let full = batch ++ (point_of doc vec ∷ []) in
          elim (leb index_batch_size (length full)) [
            | false ↦ index_loop cancelled (suc i) docs full count q
            | true ↦
                let r = s.upsert collection_runbooks full q in
                elim r.1 [
                  | true ↦ (r.0, upsert_failed)
                  | false ↦ index_loop cancelled (suc i) docs [] (count + length full) r.0
                ]
          ]
    ]
  ]

  unfoldable pub index_documents : (ℕ → Bool) → List Document → Q → Q × Indexed
  index_documents cancelled [] q = (q, done)
  index_documents cancelled (doc ∷ docs) q = index_loop cancelled 0 (doc ∷ docs) [] 0 q

  abbrev pub build_incident_text : Text → Text → Text → Text → Text
  build_incident_text pattern root_cause resolution namespace =
      codes "Incident Pattern: "
      ++ (pattern
          ++ (codes "\nNamespace: "
              ++ (namespace
                  ++ (codes "\nRoot Cause: "
                      ++ (root_cause ++ (codes "\nResolution: " ++ resolution))))))

  abbrev pub incident_point : Text → Text → Text → Text → Text → V → QdrantPoint V
  incident_point fingerprint pattern root_cause resolution namespace vec = record {
    id = doc_uuid fingerprint;
    vector = vec;
    payload =
        (codes "id", text fingerprint)
        ∷ (codes "title", text (codes "Resolved incident: " ++ pattern))
        ∷ (codes "content", text (build_incident_text pattern root_cause resolution namespace))
        ∷ (codes "type", text (codes "incident"))
        ∷ (codes "source", text (codes "incident_history"))
        ∷ (codes "fingerprint", text fingerprint)
        ∷ (codes "pattern", text pattern)
        ∷ (codes "root_cause", text root_cause)
        ∷ (codes "resolution", text resolution)
        ∷ (codes "namespace", text namespace)
        ∷ [];
  }

  -- The flag is an error.
  unfoldable pub index_resolved_incident : Text → Text → Text → Text → Text → Q → Q × Bool
  index_resolved_incident fingerprint pattern root_cause resolution namespace q =
      elim (s.embed (build_incident_text pattern root_cause resolution namespace)) [
        | none ↦ (q, true)
        | some vec ↦
            s.upsert collection_incidents
              (incident_point fingerprint pattern root_cause resolution namespace vec ∷ []) q
      ]

abbrev pub string_of : Option Value → Text
string_of (some (text t)) = t
string_of _ = []

abbrev pub strings : List (Option Text) → List Text
strings [] = []
strings (some t ∷ ts) = t ∷ strings ts
strings (none ∷ ts) = strings ts

abbrev pub string_slice_of : Option Value → List Text
string_slice_of (some (texts ts)) = ts
string_slice_of (some (items ts)) = strings ts
string_slice_of _ = []

abbrev pub get_string : Text → Payload → Text
get_string key payload = string_of (lookup Text-discrete key payload)

unfoldable pub document_type_of : Text → DocumentType
document_type_of t = ite (Text-discrete t (codes "runbook")) runbook (
    ite (Text-discrete t (codes "postmortem")) postmortem (
      ite (Text-discrete t (codes "guide")) guide
        (ite (Text-discrete t (codes "incident")) incident unknown)))

unfoldable pub document_from_payload : Payload → Document
document_from_payload payload = record {
  id = get_string (codes "id") payload;
  title = get_string (codes "title") payload;
  content = get_string (codes "content") payload;
  kind = document_type_of (get_string (codes "type") payload);
  source = get_string (codes "source") payload;
  tags = string_slice_of (lookup Text-discrete (codes "tags") payload);
}

-- (raw + 1) / 2, clamped to [0, 1].
unfoldable pub normalise_score : Float64 → Float64
normalise_score raw =
    let normalised = float_half (float_add raw float_one) in
    if float_lt normalised float_zero
    then float_zero
    else if float_lt float_one normalised
    then float_one
    else normalised

pub record RetrievalResult : Type 0 where
  pub score : Float64
  pub document : Document
  pub source : Text

abbrev pub results_of : Text → List SearchResult → List RetrievalResult
results_of col [] = []
results_of col (r ∷ rs) =
    record {
      score = normalise_score r.score;
      document = document_from_payload r.payload;
      source = col;
    }
    ∷ results_of col rs

-- A collection whose search fails gives no results.
abbrev pub found_in : Text → Option (List SearchResult) → List RetrievalResult
found_in col none = []
found_in col (some rs) = results_of col rs

abbrev pub top_k_of : ℤ → ℕ
top_k_of (pos n) = if n == 0 then 5 else n
top_k_of (negsuc n) = 5

abbrev pub per_collection_limit : ℕ → ℕ
per_collection_limit top_k = if ltb (top_k * 2) 5 then 5 else top_k * 2

pub record Retrieved : Type 0 where
  pub results : List RetrievalResult
  pub max_confidence : Float64

abbrev pub first_score : List RetrievalResult → Float64
first_score [] = float_zero
first_score (r ∷ rs) = r.score

module _ {V Q : Type 0} (s : Services V Q)
    (sort : List RetrievalResult → List RetrievalResult) where
  unfoldable pub candidates : V → ℕ → List RetrievalResult
  candidates vec limit =
      found_in collection_runbooks (s.search collection_runbooks vec limit)
      ++ (found_in collection_incidents (s.search collection_incidents vec limit)
          ++ found_in collection_metadata (s.search collection_metadata vec limit))

  abbrev pub ranked : ℕ → List RetrievalResult → Retrieved
  ranked top_k [] = record { results = []; max_confidence = float_zero }
  ranked top_k (r ∷ rs) =
      let sorted = sort (r ∷ rs) in
      let kept = if ltb top_k (length sorted) then take top_k sorted else sorted in
      record { results = kept; max_confidence = first_score kept }

  -- none is an error: the query could not be embedded.
  unfoldable pub retrieve : Text → ℤ → Option Retrieved
  retrieve query top_k = elim (s.embed query) [
    | none ↦ none
    | some vec ↦
        some (ranked (top_k_of top_k) (candidates vec (per_collection_limit (top_k_of top_k))))
  ]

-- `%.1f%%` of a hundred times a score.
module _ (percent : Float64 → Text) where
  abbrev pub tags_line : List Text → Text
  tags_line [] = []
  tags_line (t ∷ ts) = codes "- **Tags**: " ++ (join (t ∷ ts) (codes ", ") ++ codes "\n")

  abbrev pub format_result : ℕ → RetrievalResult → Text
  format_result number r =
      codes "### ["
      ++ (decimal number
          ++ (codes "] "
              ++ (r.document.title
                  ++ (codes "\n- **Source**: "
                      ++ (r.source
                          ++ (codes "\n- **Type**: "
                              ++ (type_text r.document.kind
                                  ++ (codes "\n- **Relevance**: "
                                      ++ (percent r.score
                                          ++ (codes "\n"
                                              ++ (tags_line r.document.tags
                                                  ++ (codes "\n"
                                                      ++ (r.document.content
                                                          ++ codes "\n\n")))))))))))))

  unfoldable pub format_results : ℕ → List RetrievalResult → Text
  format_results number [] = []
  format_results number (r ∷ []) = format_result number r
  format_results number (r ∷ s ∷ rs) =
      format_result number r ++ (codes "---\n\n" ++ format_results (suc number) (s ∷ rs))

  unfoldable pub format_context : List RetrievalResult → Text
  format_context [] = []
  format_context (r ∷ rs) =
      codes "## Retrieved Context\n\n"
      ++ (codes "The following documents were retrieved from the knowledge base "
          ++ (codes "based on semantic similarity to your query:\n\n" ++ format_results 1 (r ∷ rs)))
