-- ===== src/Rag/Chunks/Tests.antt =====
-- Runs of the chunker, and its theorem at an input.
use kube_diagnose.Common.{
  List, [], ◌∷◌, Text, codes, ◌≡◌, refl, arith, pos, decimal, join, space_width,
}
use kube_diagnose.Rag.Document.{Document, runbook}
use kube_diagnose.Rag.Chunks.{
  tokenize_words, scan_words, short_words, effective_size, effective_overlap, chunk_document,
  chunk_loop, chunk,
}
use kube_diagnose.Rag.Chunks.Cover.{number, Covers, chunk_document-Covers}

abbrev guide_text : Document
guide_text = record {
  id = codes "oom";
  title = codes "Oom";
  content = codes " a b  c\td e ";
  kind = runbook;
  source = [];
  tags = [];
}

words_of_guide :
    tokenize_words guide_text.content
    ≡ codes "a" ∷ codes "b" ∷ codes "c" ∷ codes "d" ∷ codes "e" ∷ []
unfolding tokenize_words scan_words short_words space_width
words_of_guide = refl

-- Chunks of three words, of which one is repeated.
abbrev two_chunks : List Document
two_chunks =
    record guide_text {
      id = codes "oom_chunk_0";
      title = codes "Oom (chunk 0)";
      content = codes "a b c";
    }
    ∷ record guide_text {
      id = codes "oom_chunk_1";
      title = codes "Oom (chunk 1)";
      content = codes "c d e";
    }
    ∷ []

chunks_of_guide : chunk_document guide_text (pos 3) (pos 1) ≡ two_chunks
unfolding chunk_document chunk_loop chunk effective_size effective_overlap tokenize_words scan_words
    short_words space_width decimal join
chunks_of_guide = refl

chunk_document-Covers_example :
    (first : List Text) × (rest : List (List Text)) × (chunk_document guide_text (pos 3) (pos 1)
      ≡ number guide_text 0 (first ∷ rest))
    × Covers
        (effective_size (pos 3))
        (effective_overlap (pos 1) (effective_size (pos 3)))
        (tokenize_words guide_text.content)
        first
        rest
unfolding effective_size tokenize_words scan_words short_words space_width
chunk_document-Covers_example = chunk_document-Covers guide_text (pos 3) (pos 1) (omega arith)
