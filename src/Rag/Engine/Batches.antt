-- ===== src/Rag/Engine/Batches.antt =====
-- internal/rag/engine.go: IndexDocuments as the upserts of a plain list of batches.
use kube_diagnose.Common.{
  ℕ, zero, suc, ◌+◌, ◌-◌, ◌≤◌, ◌<◌, List, [], ◌∷◌, ◌++◌, append-nil, append_assoc, Bool, true,
  false, none, some, ◌≡◌, refl, ap, sym, ◌∙◌, arith, inl, inr, Bool-cases, Option-cases, length,
  length-append, take, drop, take_all, drop_all, take-append_exact, drop-append_exact, leb,
  if◌then◌else◌,
}
use kube_diagnose.Rag.Document.{Document}
use kube_diagnose.Rag.Engine.{
  QdrantPoint, Services, point_of, collection_runbooks, index_batch_size, Indexed, upsert_failed,
  finish, flush_last, index_loop, index_documents,
}

-- The list in pieces of a size, on fuel; a list is cut in at most as many pieces as it has items.
abbrev pub pieces {ℓ} : {A : Type ℓ} → ℕ → ℕ → List A → List (List A)
pieces zero size xs = []
pieces (suc fuel) size [] = []
pieces (suc fuel) size (x ∷ xs) = take size (x ∷ xs) ∷ pieces fuel size (drop size (x ∷ xs))

module _ {V Q : Type 0} (s : Services V Q) where
  -- The points of the documents that can be embedded, in order.
  unfoldable pub points_of : List Document → List (QdrantPoint V)
  points_of [] = []
  points_of (doc ∷ docs) = elim (s.embed doc.content) [
    | none ↦ points_of docs
    | some vec ↦ point_of doc vec ∷ points_of docs
  ]

  -- One upsert after the other, up to the first that fails.
  unfoldable pub upsert_all : List (List (QdrantPoint V)) → ℕ → Q → Q × Indexed
  upsert_all [] count q = (q, finish s count)
  upsert_all (b ∷ bs) count q =
      let r = s.upsert collection_runbooks b q in
      elim r.1 [ true ↦ (r.0, upsert_failed) | false ↦ upsert_all bs (count + length b) r.0 ]

  module _ (cancelled : ℕ → Bool) where
    skipped :
        (i : ℕ) (doc : Document) (docs : List Document) (batch : List (QdrantPoint V)) (count : ℕ)
        (q : Q)
        → cancelled i ≡ false
        → s.embed doc.content ≡ none
        → index_loop s cancelled i (doc ∷ docs) batch count q
          ≡ index_loop s cancelled (suc i) docs batch count q
    unfolding index_loop
    skipped i doc docs batch count q c e = rw (c, e, index_loop) refl

    added :
        (i : ℕ) (doc : Document) (docs : List Document) (batch : List (QdrantPoint V)) (count : ℕ)
        (q : Q) (vec : V)
        → cancelled i ≡ false
        → s.embed doc.content ≡ some vec
        → leb index_batch_size (length (batch ++ (point_of doc vec ∷ []))) ≡ false
        → index_loop s cancelled i (doc ∷ docs) batch count q
          ≡ index_loop s cancelled (suc i) docs (batch ++ (point_of doc vec ∷ [])) count q
    unfolding index_loop
    added i doc docs batch count q vec c e l = rw (c, e, l, index_loop) refl

    flushed :
        (i : ℕ) (doc : Document) (docs : List Document) (batch : List (QdrantPoint V)) (count : ℕ)
        (q : Q) (vec : V)
        → cancelled i ≡ false
        → s.embed doc.content ≡ some vec
        → leb index_batch_size (length (batch ++ (point_of doc vec ∷ []))) ≡ true
        → let full = batch ++ (point_of doc vec ∷ []) in
          let r = s.upsert collection_runbooks full q in
          index_loop s cancelled i (doc ∷ docs) batch count q ≡ (
            if r.1
            then (r.0, upsert_failed)
            else index_loop s cancelled (suc i) docs [] (count + length full) r.0)
    unfolding index_loop
    flushed i doc docs batch count q vec c e l = rw (c, e, l, index_loop) (ground arith)

  nothing_left : (fuel : ℕ) → pieces {A = QdrantPoint V} fuel 20 [] ≡ []
  nothing_left zero = refl
  nothing_left (suc fuel) = refl

  -- A partial batch is one piece.
  partial_piece :
      (fuel : ℕ) (p : QdrantPoint V) (ps : List (QdrantPoint V))
      → length (p ∷ ps) ≤ suc fuel
      → length (p ∷ ps) < 20
      → pieces (suc fuel) 20 (p ∷ ps) ≡ (p ∷ ps) ∷ []
  partial_piece fuel p ps f l =
      rw (take_all 20 (p ∷ ps) (omega arith), drop_all 20 (p ∷ ps) (omega arith), nothing_left fuel)
        refl

  -- A full batch is the first piece.
  full_piece :
      (fuel : ℕ) (full rest : List (QdrantPoint V))
      → length full ≡ 20
      → pieces (suc fuel) 20 (full ++ rest) ≡ full ∷ pieces fuel 20 rest
  full_piece fuel [] rest l = absurd (omega arith)
  full_piece fuel (p ∷ ps) rest l =
      rw (take-append_exact 20 (p ∷ ps) rest l, drop-append_exact 20 (p ∷ ps) rest l) refl

  flush_last-pieces :
      (batch : List (QdrantPoint V)) (count : ℕ) (q : Q) (fuel : ℕ)
      → length batch < 20
      → length batch ≤ fuel
      → flush_last s batch count q ≡ upsert_all (pieces fuel 20 batch) count q
  unfolding flush_last upsert_all
  flush_last-pieces [] count q fuel l f = rw (nothing_left fuel) refl
  flush_last-pieces (p ∷ ps) count q zero l f = absurd (omega arith)
  flush_last-pieces (p ∷ ps) count q (suc fuel) l f =
      one_batch ∙ ap (λ bs. upsert_all bs count q) (sym (partial_piece fuel p ps f l))
    where
      one_batch : flush_last s (p ∷ ps) count q ≡ upsert_all ((p ∷ ps) ∷ []) count q
      one_batch = ground arith

  -- A full batch is upserted, and the loop goes on with an empty one if that succeeds.
  upsert_full :
      (full rest : List (QdrantPoint V)) (count : ℕ) (q : Q) (fuel : ℕ) (loop : ℕ → Q → Q × Indexed)
      → length full ≡ 20
      → length (full ++ rest) ≤ fuel
      → ((n : ℕ) (q : Q) → loop n q ≡ upsert_all (pieces (fuel - 1) 20 rest) n q)
      → let r = s.upsert collection_runbooks full q in
        (if r.1 then (r.0, upsert_failed) else loop (count + length full) r.0)
        ≡ upsert_all (pieces fuel 20 (full ++ rest)) count q
  unfolding upsert_all
  upsert_full full rest count q fuel loop l f same =
      branches ∙ ap (λ bs. upsert_all bs count q) (sym cut)
    where
      enough : fuel ≡ suc (fuel - 1)
      enough = omega (arith, length-append full rest)

      cut : pieces fuel 20 (full ++ rest) ≡ full ∷ pieces (fuel - 1) 20 rest
      cut = ap (λ n. pieces n 20 (full ++ rest)) enough ∙ full_piece (fuel - 1) full rest l

      branches :
          (if (s.upsert collection_runbooks full q).1
            then ((s.upsert collection_runbooks full q).0, upsert_failed)
            else loop (count + length full) (s.upsert collection_runbooks full q).0)
          ≡ upsert_all (full ∷ pieces (fuel - 1) 20 rest) count q
      branches = elim (Bool-cases (s.upsert collection_runbooks full q).1) [
        | inl e ↦ rw (e, upsert_all) refl
        | inr e ↦
            rw (e, upsert_all) (same (count + length full) (s.upsert collection_runbooks full q).0)
      ]

  index_loop-pieces :
      (cancelled : ℕ → Bool) (i : ℕ) (docs : List Document) (batch : List (QdrantPoint V))
      (count : ℕ) (q : Q) (fuel : ℕ)
      → ((n : ℕ) → cancelled n ≡ false)
      → length batch < 20
      → length (batch ++ points_of docs) ≤ fuel
      → index_loop s cancelled i docs batch count q
        ≡ upsert_all (pieces fuel 20 (batch ++ points_of docs)) count q
  unfolding index_loop points_of
  index_loop-pieces cancelled i [] batch count q fuel go l f =
      rw (append-nil batch)
        (flush_last-pieces batch count q fuel l (omega (arith, length-append batch [])))
  index_loop-pieces cancelled i (doc ∷ docs) batch count q fuel go l f =
      elim (Option-cases (s.embed doc.content)) [
        | inl e ↦
            skipped cancelled i doc docs batch count q (go i) e
            ∙ index_loop-pieces cancelled (suc i) docs batch count q fuel go l
                (rw (unembedded e) at f)
            ∙ ap (λ pts. upsert_all (pieces fuel 20 (batch ++ pts)) count q) (sym (unembedded e))
        | inr (vec, e) ↦
            let full = batch ++ (point_of doc vec ∷ []) in
            let whole : batch ++ points_of (doc ∷ docs) ≡ full ++ points_of docs = embedded vec e in
            let f' : length (full ++ points_of docs) ≤ fuel = rw whole at f in
            elim (Bool-cases (leb index_batch_size (length full))) [
              | inl big ↦
                  flushed cancelled i doc docs batch count q vec (go i) e big
                  ∙ upsert_full full (points_of docs) count q fuel
                      (λ n q. index_loop s cancelled (suc i) docs [] n q)
                      (ground (arith, length-append batch (point_of doc vec ∷ []))) f'
                      (λ n q.
                        index_loop-pieces cancelled (suc i) docs [] n q (fuel - 1) go (omega arith)
                          (ground (arith, length-append full (points_of docs))))
                  ∙ ap (λ pts. upsert_all (pieces fuel 20 pts) count q) (sym whole)
              | inr small ↦
                  added cancelled i doc docs batch count q vec (go i) e small
                  ∙ index_loop-pieces cancelled (suc i) docs full count q fuel go (ground arith) f'
                  ∙ ap (λ pts. upsert_all (pieces fuel 20 pts) count q) (sym whole)
            ]
      ]
    where
      unembedded : s.embed doc.content ≡ none → points_of (doc ∷ docs) ≡ points_of docs
      unembedded e = rw (e, points_of) refl

      embedded :
          (vec : V)
          → s.embed doc.content ≡ some vec
          → batch ++ points_of (doc ∷ docs) ≡ (batch ++ (point_of doc vec ∷ [])) ++ points_of docs
      embedded vec e =
          rw (e, points_of) (sym (append_assoc batch (point_of doc vec ∷ []) (points_of docs)))

  -- Without a cancellation, indexing some documents upserts the points of those that can be
  -- embedded, in order and in pieces of 20, up to the first upsert that fails, and ends with the
  -- same store and outcome as those upserts.
  pub index_documents-pieces :
      (cancelled : ℕ → Bool) (doc : Document) (docs : List Document) (q : Q)
      → ((n : ℕ) → cancelled n ≡ false)
      → index_documents s cancelled (doc ∷ docs) q
        ≡ upsert_all (pieces (length (points_of (doc ∷ docs))) 20 (points_of (doc ∷ docs))) 0 q
  unfolding index_documents
  index_documents-pieces cancelled doc docs q go =
      index_loop-pieces cancelled 0 (doc ∷ docs) [] 0 q (length (points_of (doc ∷ docs))) go
        (omega arith) (omega arith)
