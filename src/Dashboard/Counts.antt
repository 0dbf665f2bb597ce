-- ===== src/Dashboard/Counts.antt =====
-- internal/dashboard/handlers.go: the numbers that the pages show.
use kube_diagnose.Common.{
  ℕ, suc, ◌+◌, ◌≤◌, List, [], ◌∷◌, Bool, not, Option, some, Text-discrete, codes, ◌≡◌, refl, arith,
  length, keep, Bool-cases, inl, inr,
}
use kube_diagnose.Aggregator.Store.{IncidentRecord, Records}
use kube_diagnose.Llm.Analyzer.{Analyzer}
use kube_diagnose.Dashboard.{
  list_records, count_states, count_critical, api_stats, IndexData, index_page,
}

abbrev is_active : IncidentRecord → Bool
is_active rec = not rec.is_resolved

count_states-length :
    (recs : List IncidentRecord) (a r : ℕ)
    → let c = count_states recs a r in
      (c.0 ≡ a + length (keep is_active recs)) × (c.0 + c.1 ≡ a + r + length recs)
unfolding count_states
count_states-length [] a r = (omega arith, omega arith)
count_states-length (rec ∷ recs) a r = elim (Bool-cases rec.is_resolved) [
  | inl e ↦ let ih = count_states-length recs a (suc r) in ground (arith, ih.0, ih.1)
  | inr e ↦ let ih = count_states-length recs (suc a) r in ground (arith, ih.0, ih.1)
]

count_critical-length :
    (recs : List IncidentRecord) (a c : ℕ)
    → let n = count_critical recs a c in
      (n.0 ≡ a + length (keep is_active recs)) × (n.1 + a ≤ n.0 + c)
unfolding count_critical
count_critical-length [] a c = (omega arith, omega arith)
count_critical-length (rec ∷ recs) a c = elim (Bool-cases rec.is_resolved) [
  | inl e ↦ let ih = count_critical-length recs a c in ground (arith, ih.0, ih.1)
  | inr e ↦ elim (Text-discrete rec.severity (codes "critical")) [
    | yes s ↦ let ih = count_critical-length recs (suc a) (suc c) in ground (arith, ih.0, ih.1)
    | no s ↦ let ih = count_critical-length recs (suc a) c in ground (arith, ih.0, ih.1)
  ]
]

list_records-length : (s : Records) → length (list_records s) ≡ length s
list_records-length [] = refl
list_records-length (e ∷ s) = omega (arith, list_records-length s)

abbrev index_data : Records → IndexData
index_data s = record {
  active_incidents = (count_critical (list_records s) 0 0).0;
  critical_incidents = (count_critical (list_records s) 0 0).1;
  total_incidents = length (list_records s);
}

shown : (s : Records) → index_page (codes "/") s ≡ some (index_data s)
unfolding index_page Text-discrete
shown s = refl

-- Every record is either active or resolved in the statistics, and the main page agrees with them:
-- it is shown for the root path, with the same totals, and no more critical incidents than active
-- ones.
pub index_page-api_stats :
    (s : Records) (analyzer : Option Analyzer)
    → let t = api_stats s analyzer in
      (t.total_incidents ≡ length s)
      × (t.active_incidents + t.resolved_incidents ≡ t.total_incidents)
      × ((d : IndexData) × (index_page (codes "/") s ≡ some d)
          × (d.total_incidents ≡ t.total_incidents)
          × (d.active_incidents ≡ t.active_incidents)
          × (d.critical_incidents ≤ d.active_incidents))
unfolding api_stats
index_page-api_stats s analyzer =
    let states = count_states-length (list_records s) 0 0 in
    let critical = count_critical-length (list_records s) 0 0 in
    (
      list_records-length s,
      omega (arith, states.1),
      (index_data s, shown s, refl, omega (arith, states.0, critical.0), omega (arith, critical.1)),
    )
