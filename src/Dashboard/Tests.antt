-- ===== src/Dashboard/Tests.antt =====
-- internal/dashboard/handlers.go: the pages at concrete inputs.
use kube_diagnose.Common.{
  ◌+◌, ◌≤◌, [], ◌∷◌, true, none, some, Text-discrete, codes, ◌≡◌, refl, length,
}
use kube_diagnose.Aggregator.Store.{Records, placeholder}
use kube_diagnose.Dashboard.{api_stats, index_page, IndexData, count_critical, truncate}
use kube_diagnose.Dashboard.Counts.{index_page-api_stats}

abbrev three : Records
three =
    (codes "a", record (placeholder (codes "a") 1) { severity = codes "critical" })
    ∷ (
      codes "b",
      record (placeholder (codes "b") 2) { severity = codes "critical"; is_resolved = true },
    )
    ∷ (codes "c", placeholder (codes "c") 3)
    ∷ []

index_page-three :
    index_page (codes "/") three
    ≡ some (record { active_incidents = 2; critical_incidents = 1; total_incidents = 3 })
unfolding index_page count_critical Text-discrete
index_page-three = refl

index_page-other : index_page (codes "/x") three ≡ none
unfolding index_page Text-discrete
index_page-other = refl

index_page-api_stats_example :
    ((api_stats three none).total_incidents ≡ length three)
    × ((api_stats three none).active_incidents + (api_stats three none).resolved_incidents
        ≡ (api_stats three none).total_incidents)
    × ((d : IndexData) × (index_page (codes "/") three ≡ some d)
        × (d.total_incidents ≡ (api_stats three none).total_incidents)
        × (d.active_incidents ≡ (api_stats three none).active_incidents)
        × (d.critical_incidents ≤ d.active_incidents))
index_page-api_stats_example = index_page-api_stats three none

-- The cut may fall inside a character: two bytes of the three of an ellipsis stay.
truncate-inside : truncate (0xE2 ∷ 0x80 ∷ 0xA6 ∷ []) 2 ≡ 0xE2 ∷ 0x80 ∷ 0xE2 ∷ 0x80 ∷ 0xA6 ∷ []
unfolding truncate
truncate-inside = refl
