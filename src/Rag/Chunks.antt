-- ===== src/Rag/Chunks.antt =====
-- internal/rag/document_loader.go: splitting a document into overlapping chunks of words.
pub mod Cover
mod Tests
use kube_diagnose.Common.{
  ℕ, zero, suc, ◌+◌, ◌-◌, ◌/◌, List, [], ◌∷◌, ◌++◌, Bool, Text, codes, ltb, leb, ◌==◌,
  if◌then◌else◌, length, take, drop, decimal, join, space_width, ℤ, pos, negsuc,
}
use kube_diagnose.Rag.Document.{Document}

abbrev pub default_chunk_size : ℕ
default_chunk_size = 512

abbrev pub default_overlap : ℕ
default_overlap = 50

-- bufio.MaxScanTokenSize: a word that fills the scanner's buffer ends the scan.
abbrev pub max_token : ℕ
max_token = 65536

-- bufio.ScanWords over the whole text; `word` is the word read so far.
unfoldable pub scan_words : Text → Text → ℕ → List Text
scan_words [] word skip = if length word == 0 then [] else word ∷ []
scan_words (c ∷ text) word (suc skip) = scan_words text word skip
scan_words (c ∷ text) word zero = elim (space_width (c ∷ text)) [
  | zero ↦ scan_words text (word ++ c ∷ []) 0
  | suc skip ↦ if length word == 0 then scan_words text [] skip else word ∷ scan_words text [] skip
]

-- The scanner stops for good at a word that is too long.
unfoldable pub short_words : List Text → List Text
short_words [] = []
short_words (w ∷ ws) = if ltb (length w) max_token then w ∷ short_words ws else []

unfoldable pub tokenize_words : Text → List Text
tokenize_words text = short_words (scan_words text [] 0)

unfoldable pub effective_size : ℤ → ℕ
effective_size (pos n) = if n == 0 then default_chunk_size else n
effective_size (negsuc n) = default_chunk_size

-- The overlap for a chunk size: the default for a negative one, half the size for a large one.
unfoldable pub effective_overlap : ℤ → ℕ → ℕ
effective_overlap (pos n) size = if leb size n then size / 2 else n
effective_overlap (negsuc n) size = if leb size default_overlap then size / 2 else default_overlap

unfoldable pub chunk : Document → ℕ → List Text → Document
chunk doc index words = record {
  id = doc.id ++ codes "_chunk_" ++ decimal index;
  title = doc.title ++ codes " (chunk " ++ decimal index ++ codes ")";
  content = join words (codes " ");
  kind = doc.kind;
  source = doc.source;
  tags = doc.tags;
}

abbrev pub slice : List Text → ℕ → ℕ → List Text
slice words start end = take (end - start) (drop start words)

-- The loop over the chunks, on fuel: each round moves `start` on by `step`.
unfoldable pub chunk_loop : ℕ → Document → ℕ → ℕ → List Text → ℕ → ℕ → List Document
chunk_loop zero doc size step words start index = []
chunk_loop (suc fuel) doc size step words start index =
    let end = if ltb (length words) (start + size) then length words else start + size in
    let rest = chunk_loop fuel doc size step words (start + step) (index + 1) in
    let more = if step == 0 then [] else if leb (length words) end then [] else rest in
    if ltb start (length words) then chunk doc index (slice words start end) ∷ more else []

unfoldable pub chunk_document : Document → ℤ → ℤ → List Document
chunk_document doc chunk_size overlap =
    let size = effective_size chunk_size in
    let lap = effective_overlap overlap size in
    let words = tokenize_words doc.content in
    if leb (length words) size
    then doc ∷ []
    else chunk_loop (length words) doc size (size - lap) words 0 0
