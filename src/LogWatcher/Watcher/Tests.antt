-- ===== src/LogWatcher/Watcher/Tests.antt =====
-- internal/logwatcher/watcher.go: the watcher at concrete inputs.
use kube_diagnose.Common.{
  ◌+◌, [], ◌∷◌, false, none, some, Text-discrete, ◌≡◌, refl, lookup, insert, All,
}
use kube_diagnose.LogWatcher.Watcher.{
  WatcherKey, WatcherKey-discrete, Watcher, new_watcher, start_watching_pod, stop_watching_pod,
  exit, find_goroutine,
}
use kube_diagnose.LogWatcher.Watcher.Tracking.{Reach, here, next, starts, stops, Reach-AllTracked}
use kube_diagnose.LogWatcher.Watcher.Orphans.{restart_orphans}

abbrev web : WatcherKey
web = record { namespace = 100 ∷ []; pod = 119 ∷ 101 ∷ []; container = 99 ∷ [] }

abbrev db : WatcherKey
db = record { namespace = 100 ∷ []; pod = 100 ∷ 98 ∷ []; container = 99 ∷ [] }

abbrev one : Watcher
one = start_watching_pod new_watcher db

one_lacks_web : lookup WatcherKey-discrete web one.watchers ≡ none
unfolding lookup WatcherKey-discrete start_watching_pod insert Text-discrete
one_lacks_web = refl

restart_orphans_example :
    (find_goroutine
        (one.next_id + 1)
        (exit
          (start_watching_pod (stop_watching_pod (start_watching_pod one web) web) web)
          one.next_id).goroutines
      ≡ some (record { id = one.next_id + 1; key = web; is_cancelled = false }))
    × (stop_watching_pod
          (exit
            (start_watching_pod (stop_watching_pod (start_watching_pod one web) web) web)
            one.next_id)
          web
        ≡ exit
            (start_watching_pod (stop_watching_pod (start_watching_pod one web) web) web)
            one.next_id)
restart_orphans_example = restart_orphans one web one_lacks_web

abbrev two : Watcher
two = stop_watching_pod (start_watching_pod one web) db

reached : Reach two
reached =
    next (next (next here (starts new_watcher db)) (starts one web))
      (stops (start_watching_pod one web) db)

Reach-AllTracked_example :
    All
      (λ g. g.is_cancelled ≡ false → lookup WatcherKey-discrete g.key two.watchers ≡ some g.id)
      two.goroutines
Reach-AllTracked_example = Reach-AllTracked reached
