-- ===== src/Rag/Loader/Ids.antt =====
-- internal/rag/document_loader.go: the identifiers of documents.
use kube_diagnose.Common.{
  ℕ, ◌-◌, [], ◌∷◌, ◌++◌, some, Text, Text-discrete, codes, ◌≡◌, refl, arith, if_pos, length,
  length-append, take-append_exact, drop-append_exact,
}
use kube_diagnose.Rag.Loader.{Paths, ext, trim_suffix, document_id}

-- A text that is its own extension is the extension of what ends in it.
ext-append : (stem e : Text) (c : ℕ) → ext (c ∷ e) ≡ c ∷ e → ext (stem ++ (c ∷ e)) ≡ c ∷ e
unfolding ext
ext-append [] e c h = h
ext-append (s ∷ stem) e c h = rw (ext-append stem e c h) refl

trim_suffix-append : (stem e : Text) → trim_suffix (stem ++ e) e ≡ stem
unfolding trim_suffix
trim_suffix-append stem e =
    let start : length (stem ++ e) - length e ≡ length stem = omega (arith, length-append stem e) in
    rw
      (
        start,
        drop-append_exact (length stem) stem e refl,
        take-append_exact (length stem) stem e refl,
      )
      (if_pos (Text-discrete e e) refl stem (stem ++ e))

stem_of :
    (stem e : Text) (c : ℕ)
    → ext (c ∷ e) ≡ c ∷ e
    → trim_suffix (stem ++ (c ∷ e)) (ext (stem ++ (c ∷ e))) ≡ stem
stem_of stem e c h = rw (ext-append stem e c h) (trim_suffix-append stem (c ∷ e))

md : ext (codes ".md") ≡ codes ".md"
unfolding ext
md = refl

txt : ext (codes ".txt") ≡ codes ".txt"
unfolding ext
txt = refl

-- A Markdown file and a text file with the same stem get the same identifier.
document_id_collision :
    (p : Paths) (dir markdown text stem : Text)
    → p.relative dir markdown ≡ some (stem ++ codes ".md")
    → p.relative dir text ≡ some (stem ++ codes ".txt")
    → document_id p dir markdown ≡ document_id p dir text
unfolding document_id
document_id_collision p dir markdown text stem m t =
    rw (m, t, stem_of stem (codes "md") 46 md, stem_of stem (codes "txt") 46 txt) refl
