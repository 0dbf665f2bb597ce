-- ===== src/Rag/Document.antt =====
-- internal/rag/document_loader.go: the document that the retrieval system handles.
use kube_diagnose.Common.{List, Text}

-- `incident` is the type that resolved incidents are stored under.
pub data DocumentType : Type 0 where
  runbook postmortem guide incident unknown : DocumentType

pub record Document : Type 0 where
  pub id : Text
  pub title : Text
  pub content : Text
  pub kind : DocumentType
  pub source : Text
  pub tags : List Text
