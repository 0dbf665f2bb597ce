-- ===== src/Controller/Pipeline/Jobs.antt =====
-- internal/controller/logintelligenceplatform_controller.go: the jobs and the record of one
-- fingerprint.
use kube_diagnose.Common.{
  ℕ, zero, suc, ◌+◌, min, List, [], ◌∷◌, ◌++◌, Option, none, some, Text, ◌≡◌, ◌≢◌, refl, ap, ◌∙◌,
  arith, get_elem?, ite, if_pos, if_neg, Text-discrete, lookup, insert, lookup-insert,
}
use kube_diagnose.Aggregator.Store.{IncidentRecord, Records, AnalysisResultData}
use kube_diagnose.Controller.Pipeline.{Job, replace_at}

-- A text is another one: 1, or 0.
abbrev pub same : Text → Text → ℕ
same a b = ite (Text-discrete a b) 1 0

-- The jobs under way for a fingerprint.
abbrev pub jobs_of : Text → List Job → ℕ
jobs_of fp [] = 0
jobs_of fp (j ∷ js) = same j.fingerprint fp + jobs_of fp js

pub same_yes : (a b : Text) → a ≡ b → same a b ≡ 1
same_yes a b e = if_pos (Text-discrete a b) e 1 0

pub same_no : (a b : Text) → a ≢ b → same a b ≡ 0
same_no a b h = if_neg (Text-discrete a b) h 1 0

abbrev pub has_result : Option AnalysisResultData → ℕ
has_result none = 0
has_result (some _) = 1

-- The records, the events and the results that a place of the store holds.
abbrev pub present : Option IncidentRecord → ℕ
present none = 0
present (some rec) = 1

abbrev pub counted : Option IncidentRecord → ℕ
counted none = 0
counted (some rec) = rec.count

abbrev pub results : Option IncidentRecord → ℕ
results none = 0
results (some rec) = has_result rec.analysis

pub jobs_of-append :
    (fp : Text) (js ks : List Job) → jobs_of fp (js ++ ks) ≡ jobs_of fp js + jobs_of fp ks
jobs_of-append fp [] ks = omega arith
jobs_of-append fp (j ∷ js) ks = omega (arith, jobs_of-append fp js ks)

-- A job that gets on stays the job of its fingerprint, and one that ends is taken out.
pub jobs_of-replace_at :
    (fp : Text) (i : ℕ) (js : List Job) (j k : Job)
    → get_elem? js i ≡ some j
    → j.fingerprint ≡ k.fingerprint
    → (jobs_of fp (replace_at i (some k) js) ≡ jobs_of fp js)
      × (jobs_of fp (replace_at i none js) + same j.fingerprint fp ≡ jobs_of fp js)
unfolding replace_at
jobs_of-replace_at fp i [] j k h e = ground arith
jobs_of-replace_at fp zero (x ∷ js) j k h e =
    let same_job : x.fingerprint ≡ j.fingerprint =
      ap (λ o. elim o [ none ↦ x.fingerprint | some y ↦ y.fingerprint ]) h in
    rw (same_job, e) (refl, omega arith)
jobs_of-replace_at fp (suc i) (x ∷ js) j k h e =
    let ih = jobs_of-replace_at fp i js j k h e in (omega (arith, ih.0), omega (arith, ih.1))

-- What holds of a fingerprint that had no record, after some entries with it.
pub record Once (seen : ℕ) (o : Option IncidentRecord) (jobs : ℕ) : Type 0 where
  pub number : counted o ≡ seen
  pub is_there : present o ≡ min 1 seen
  pub one_analysis : jobs + results o ≡ min 1 seen

pub lookup-insert_same :
    (own fp : Text) (rec : IncidentRecord) (s : Records)
    → own ≡ fp
    → lookup Text-discrete fp (insert Text-discrete own rec s) ≡ some rec
lookup-insert_same own fp rec s e =
    lookup-insert Text-discrete own fp rec s
    ∙ if_pos (Text-discrete own fp) e (some rec) (lookup Text-discrete fp s)

pub none_more : (n : ℕ) → 0 + n ≡ n
none_more n = omega arith

-- A job of another fingerprint that is taken out, and one of the fingerprint without a record.
pub Once-other :
    (fp : Text) (i : ℕ) (js : List Job) (job : Job) (seen : ℕ) (o : Option IncidentRecord)
    → get_elem? js i ≡ some job
    → job.fingerprint ≢ fp
    → Once seen o (jobs_of fp js)
    → Once seen o (jobs_of fp (replace_at i none js))
Once-other fp i js job seen o at_i other w = record {
  number = w.number;
  is_there = w.is_there;
  one_analysis = omega (
    arith,
    w.one_analysis,
    (jobs_of-replace_at fp i js job job at_i refl).1,
    same_no job.fingerprint fp other,
  );
}
