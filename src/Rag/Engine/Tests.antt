-- ===== src/Rag/Engine/Tests.antt =====
-- internal/rag/engine.go: the engine at concrete inputs.
use kube_diagnose.Common.{
  ℕ, suc, map, ltb, if◌then◌else◌, List, [], ◌∷◌, false, Option, none, some, Text, Text-discrete,
  codes, ◌≡◌, refl, length, ite, negsuc, float_lt, float_add, float_half, float_zero, float_ratio,
}
use mathlib.Core.List.{Permᴰ}
use kube_diagnose.Rag.Document.{
  Document, DocumentType, runbook, postmortem, guide, incident, unknown,
}
use kube_diagnose.Rag.Engine.{
  text, type_text, SearchResult, Services, point_of, index_documents, document_from_payload,
  Retrieved, candidates, retrieve, normalise_score, top_k_of, per_collection_limit,
}
use kube_diagnose.Rag.Engine.Uuid.{doc_uuid, fnv_rounds, hex_fixed, uuid_text}
use kube_diagnose.Rag.Engine.Payload.{json_payload, document_from_payload-point_of}
use kube_diagnose.Rag.Engine.Batches.{pieces, points_of, upsert_all, index_documents-pieces}
use kube_diagnose.Rag.Engine.Ranking.{Sorts, Ranking, retrieve-Ranking}

-- Half of 0.5 + 1 is 0.75, and of 1/3 + 1 is 2/3.
normalise_score-half : normalise_score (float_ratio 1 2) ≡ float_ratio 3 4
unfolding normalise_score float_add float_half float_lt float_ratio
normalise_score-half = refl

normalise_score-third : normalise_score (float_ratio 1 3) ≡ float_ratio 2 3
unfolding normalise_score float_add float_half float_lt float_ratio
normalise_score-third = refl

-- -1 gives 0.
normalise_score-least : normalise_score 0xBFF0000000000000 ≡ float_zero
unfolding normalise_score float_add float_half float_lt
normalise_score-least = refl

doc_uuid-empty : doc_uuid [] ≡ codes "cbf29ce4-8422-2325-14c4-b09d7afb5f99"
unfolding doc_uuid uuid_text fnv_rounds hex_fixed
doc_uuid-empty = refl

abbrev restart_guide : Document
restart_guide = record {
  id = codes "guides-restart";
  title = codes "Restart";
  content = codes "kubectl rollout restart";
  kind = runbook;
  source = codes "guides/restart.md";
  tags = codes "guides" ∷ codes "restart" ∷ [];
}

abbrev empty_guide : Document
empty_guide = record {
  id = codes "empty";
  title = codes "Empty";
  content = [];
  kind = incident;
  source = codes "empty.md";
  tags = [];
}

-- A text without bytes cannot be embedded.
abbrev embed_length : Text → Option ℕ
embed_length [] = none
embed_length (b ∷ bs) = some (suc (length bs))

abbrev hit : ℕ → ℕ → SearchResult
hit num den = record {
  id = codes "p";
  score = float_ratio num den;
  payload = (codes "id", text (codes "r")) ∷ [];
}

-- Only the collection of runbooks answers; the store is the sizes of its upserts, the last first.
abbrev small_services : Services ℕ (List ℕ)
small_services = record {
  embed = embed_length;
  upsert = λ collection points q. (length points ∷ q, false);
  search = λ collection vec limit.
      ite (Text-discrete collection (codes "runbooks")) (some (hit 1 2 ∷ hit 1 3 ∷ [])) none;
}

-- A byte that is not ASCII is replaced.
abbrev ascii_only : Text → Text
ascii_only = map (λ c. if ltb c 128 then c else 63)

ascii_names : (k : DocumentType) → ascii_only (type_text k) ≡ type_text k
ascii_names runbook = refl
ascii_names postmortem = refl
ascii_names guide = refl
ascii_names incident = refl
ascii_names unknown = refl

document_from_payload-point_of_example :
    document_from_payload (json_payload ascii_only (point_of {V = ℕ} restart_guide 7).payload)
    ≡ record restart_guide {
      id = ascii_only restart_guide.id;
      title = ascii_only restart_guide.title;
      content = ascii_only restart_guide.content;
      source = ascii_only restart_guide.source;
      tags = map ascii_only restart_guide.tags;
    }
document_from_payload-point_of_example =
    document_from_payload-point_of {V = ℕ} ascii_only restart_guide 7 ascii_names

index_documents-pieces_example :
    index_documents small_services (λ n. false) (empty_guide ∷ restart_guide ∷ []) []
    ≡ upsert_all small_services
        (pieces
          (length (points_of small_services (empty_guide ∷ restart_guide ∷ [])))
          20
          (points_of small_services (empty_guide ∷ restart_guide ∷ [])))
        0
        []
index_documents-pieces_example =
    index_documents-pieces small_services (λ n. false) empty_guide (restart_guide ∷ []) []
      (λ n. refl)

-- The candidates of the query stand in order.
in_order :
    Sorts
      (λ rs. rs)
      (candidates small_services (λ rs. rs) 4 (per_collection_limit (top_k_of (negsuc 0))))
unfolding candidates Text-discrete normalise_score float_add float_half float_lt float_ratio
in_order = record {
  same_elements = Permᴰ.cons refl (Permᴰ.cons refl Permᴰ.nil);
  descending = ((refl, tt), (tt, tt));
}

retrieve-Ranking_example :
    (r : Retrieved) × (retrieve small_services (λ rs. rs) (codes "oops") (negsuc 0) ≡ some r)
    × Ranking
        (top_k_of (negsuc 0))
        (candidates small_services (λ rs. rs) 4 (per_collection_limit (top_k_of (negsuc 0))))
        r
retrieve-Ranking_example =
    retrieve-Ranking small_services (λ rs. rs) (codes "oops") (negsuc 0) 4 refl in_order
