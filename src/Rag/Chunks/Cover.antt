-- ===== src/Rag/Chunks/Cover.antt =====
-- internal/rag/document_loader.go: the chunks of a document cover its words.
use kube_diagnose.Common.{
  ℕ, zero, suc, ◌+◌, ◌-◌, ◌≤◌, ◌<◌, List, [], ◌∷◌, ◌++◌, Text, ◌≡◌, refl, sym, ap, ◌∙◌, arith,
  length, take, drop, All, append-nil, append_assoc, length-take, length-drop, take-append-drop,
  drop-drop, drop-take, take-take, take_all, dec_lt, ℤ, pos, negsuc,
}
use kube_diagnose.Rag.Document.{Document}
use kube_diagnose.Rag.Chunks.{
  tokenize_words, effective_size, effective_overlap, chunk, chunk_loop, chunk_document,
}

-- What the chunks hold, in order, each counted from `index`.
pub number : Document → ℕ → List (List Text) → List Document
number doc index [] = []
number doc index (p ∷ ps) = chunk doc index p ∷ number doc (index + 1) ps

-- The words of the pieces, the first `lap` of each but the first left out.
abbrev pub fresh_words : ℕ → List (List Text) → List Text
fresh_words lap [] = []
fresh_words lap (p ∷ ps) = drop lap p ++ fresh_words lap ps

abbrev pub unlap : ℕ → List (List Text) → List Text
unlap lap [] = []
unlap lap (p ∷ ps) = p ++ fresh_words lap ps

-- Each piece begins with the last `lap` words of the one before it, which has `size` words.
abbrev pub Linked : ℕ → ℕ → List Text → List (List Text) → Type 0
Linked size lap p [] = Unit {0}
Linked size lap p (q ∷ qs) =
    (length p ≡ size) × (take lap q ≡ drop (size - lap) p) × Linked size lap q qs

pub record Covers (size lap : ℕ) (words first : List Text) (rest : List (List Text)) : Type 0 where
  pub whole : unlap lap (first ∷ rest) ≡ words
  pub bounded : All (λ p. length p ≤ size) (first ∷ rest)
  pub linked : Linked size lap first rest

-- One piece from `start` and the pieces behind it.
record From (doc : Document) (size lap : ℕ) (words : List Text) (start index fuel : ℕ)
    (rest : List (List Text)) : Type 0 where
  runs :
      chunk_loop fuel doc size (size - lap) words start index
      ≡ number doc index (take size (drop start words) ∷ rest)
  fresh : fresh_words lap (take size (drop start words) ∷ rest) ≡ drop (start + lap) words
  bounded : All (λ p. length p ≤ size) (take size (drop start words) ∷ rest)
  linked : Linked size lap (take size (drop start words)) rest

module _ (doc : Document) (size lap : ℕ) (words : List Text) (small : lap < size) where
  last_round :
      (fuel start index : ℕ)
      → start < length words
      → length words ≤ start + size
      → From doc size lap words start index (suc fuel) []
  unfolding chunk_loop number
  last_round fuel start index lt end = record {
    runs = ground (
      arith,
      take_all size (drop start words) (omega (arith, length-drop start words)),
      take_all (length words - start) (drop start words) (omega (arith, length-drop start words)),
    );
    fresh =
        append-nil _
        ∙ ap (drop lap) (take_all size (drop start words) (omega (arith, length-drop start words)))
        ∙ drop-drop lap start (start + lap) words refl;
    bounded = (omega (arith, length-take size (drop start words)), tt);
    linked = tt;
  }

  middle_round :
      (fuel start index : ℕ)
      → start + size < length words
      → chunk_loop (suc fuel) doc size (size - lap) words start index
        ≡ chunk doc index (take size (drop start words))
          ∷ chunk_loop fuel doc size (size - lap) words (start + (size - lap)) (index + 1)
  unfolding chunk_loop
  middle_round fuel start index lt = ground arith

  next_round :
      (fuel start index : ℕ) (rest : List (List Text))
      → start + size < length words
      → From doc size lap words (start + (size - lap)) (index + 1) fuel rest
      → From doc size lap words start index
          (suc fuel)
          (take size (drop (start + (size - lap)) words) ∷ rest)
  unfolding number
  next_round fuel start index rest lt k = record {
    runs =
        middle_round fuel start index lt
        ∙ ap (◌∷◌ (chunk doc index (take size (drop start words)))) k.runs;
    fresh =
        rw
          (
            drop-take lap size (size - lap) (drop start words) (omega arith),
            drop-drop lap start (start + lap) words refl,
            k.fresh,
            ← drop-drop (size - lap) (start + lap) (start + (size - lap) + lap) words (omega arith),
          )
          (take-append-drop (size - lap) (drop (start + lap) words));
    bounded = (omega (arith, length-take size (drop start words)), k.bounded);
    linked = (
      omega (arith, length-take size (drop start words), length-drop start words),
      take-take lap size _ (omega arith)
          ∙ ap (take lap) (sym (drop-drop (size - lap) start (start + (size - lap)) words refl))
          ∙ sym (drop-take (size - lap) size lap (drop start words) (omega arith)),
      k.linked,
    );
  }

  all_rounds :
      (fuel start index : ℕ)
      → start < length words
      → length words ≤ start + fuel
      → (rest : List (List Text)) × From doc size lap words start index fuel rest
  all_rounds zero start index lt enough = absurd (omega arith)
  all_rounds (suc fuel) start index lt enough = elim (dec_lt (start + size) (length words)) [
    | yes more ↦
        let next = all_rounds fuel (start + (size - lap)) (index + 1) (omega arith) (omega arith) in
        (
          take size (drop (start + (size - lap)) words) ∷ next.0,
          next_round fuel start index next.0 more next.1,
        )
    | no done ↦ ([], last_round fuel start index lt (omega arith))
  ]

effective_overlap-lt : (overlap : ℤ) (size : ℕ) → 0 < size → effective_overlap overlap size < size
unfolding effective_overlap
effective_overlap-lt (pos n) size h = ground arith
effective_overlap-lt (negsuc n) size h = ground arith

effective_size_pos : (n : ℤ) → 0 < effective_size n
unfolding effective_size
effective_size_pos (pos n) = ground arith
effective_size_pos (negsuc n) = ground arith

unlap_of :
    (size lap : ℕ) (words : List Text) (rest : List (List Text))
    → lap < size
    → size < length words
    → fresh_words lap (take size words ∷ rest) ≡ drop lap words
    → unlap lap (take size words ∷ rest) ≡ words
unlap_of size lap words rest small long e =
    ap (λ x. x ++ fresh_words lap rest) split
    ∙ append_assoc (take lap words) (drop lap (take size words)) (fresh_words lap rest)
    ∙ ap (◌++◌ (take lap words)) e
    ∙ take-append-drop lap words
  where
    split : take size words ≡ take lap words ++ drop lap (take size words)
    split =
        sym (take-append-drop lap (take size words))
        ∙ ap (λ x. x ++ drop lap (take size words)) (take-take lap size words (omega arith))

-- A document with more words than the chunk size is split, within the fuel given, into numbered
-- chunks that inherit its metadata: their words, with the repeated ones left out, are all its
-- words in order, no chunk has more words than the size, every chunk but the last has exactly
-- that many, and each chunk begins with the last words, as many as the overlap, of the one before.
-- The size is the default one if it is not positive; the overlap is the default one if it is
-- negative, zero if it is zero, and half of the size if it is not below the size.
pub chunk_document-Covers :
    (doc : Document) (chunk_size overlap : ℤ)
    → effective_size chunk_size < length (tokenize_words doc.content)
    → (first : List Text) × (rest : List (List Text)) × (chunk_document doc chunk_size overlap
        ≡ number doc 0 (first ∷ rest))
      × Covers
          (effective_size chunk_size)
          (effective_overlap overlap (effective_size chunk_size))
          (tokenize_words doc.content)
          first
          rest
unfolding chunk_document
chunk_document-Covers doc cs ov long =
    let size = effective_size cs in
    let lap = effective_overlap ov size in
    let words = tokenize_words doc.content in
    let small = effective_overlap-lt ov size (effective_size_pos cs) in
    let r = all_rounds doc size lap words small (length words) 0 0 (omega arith) (omega arith) in
    (
      take size words,
      r.0,
      ground (arith, r.1.runs),
      record {
        whole =
            unlap_of size lap words r.0 small (omega arith)
              (r.1.fresh ∙ ap (λ n. drop n words) (omega arith));
        bounded = r.1.bounded;
        linked = r.1.linked;
      },
    )
