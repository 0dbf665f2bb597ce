-- ===== src/LogWatcher/Watcher/Orphans.antt =====
-- internal/logwatcher/watcher.go: a stream that is stopped and started again before its first
-- goroutine has exited.
use kube_diagnose.Common.{
  ℕ, ◌+◌, List, ◌∷◌, true, false, none, some, ◌≡◌, refl, arith, lookup, insert, delete,
  lookup-insert_self, lookup-delete,
}
use kube_diagnose.LogWatcher.Watcher.{
  WatcherKey, WatcherKey-discrete, Goroutine, Watcher, start_watching_pod, stop_watching_pod, exit,
  cancel, find_goroutine, remove_goroutine,
}

pub start_absent :
    (w : Watcher) (key : WatcherKey)
    → lookup WatcherKey-discrete key w.watchers ≡ none
    → start_watching_pod w key ≡ record {
      watchers = insert WatcherKey-discrete key w.next_id w.watchers;
      goroutines = record { id = w.next_id; key = key; is_cancelled = false } ∷ w.goroutines;
      next_id = w.next_id + 1;
    }
unfolding start_watching_pod
start_absent w key e = rw (e, start_watching_pod) refl

pub start_present :
    (w : Watcher) (key : WatcherKey) (id : ℕ)
    → lookup WatcherKey-discrete key w.watchers ≡ some id
    → start_watching_pod w key ≡ w
unfolding start_watching_pod
start_present w key id e = rw (e, start_watching_pod) refl

pub stop_present :
    (w : Watcher) (key : WatcherKey) (id : ℕ)
    → lookup WatcherKey-discrete key w.watchers ≡ some id
    → stop_watching_pod w key ≡ record {
      watchers = delete WatcherKey-discrete key w.watchers;
      goroutines = cancel id w.goroutines;
      next_id = w.next_id;
    }
unfolding stop_watching_pod
stop_present w key id e = rw (e, stop_watching_pod) refl

pub stop_absent :
    (w : Watcher) (key : WatcherKey)
    → lookup WatcherKey-discrete key w.watchers ≡ none
    → stop_watching_pod w key ≡ w
unfolding stop_watching_pod
stop_absent w key e = rw (e, stop_watching_pod) refl

pub exit_found :
    (w : Watcher) (id : ℕ) (g : Goroutine)
    → find_goroutine id w.goroutines ≡ some g
    → exit w id ≡ record {
      watchers = delete WatcherKey-discrete g.key w.watchers;
      goroutines = remove_goroutine id w.goroutines;
      next_id = w.next_id;
    }
unfolding exit
exit_found w id g e = rw (e, exit) refl

pub exit_absent : (w : Watcher) (id : ℕ) → find_goroutine id w.goroutines ≡ none → exit w id ≡ w
unfolding exit
exit_absent w id e = rw (e, exit) refl

pub lookup-delete_self :
    (key : WatcherKey) (m : List (WatcherKey × ℕ))
    → lookup WatcherKey-discrete key (delete WatcherKey-discrete key m) ≡ none
lookup-delete_self key m = ground (arith, lookup-delete WatcherKey-discrete key key m)

abbrev pub started : Watcher → WatcherKey → Watcher
started w key = record {
  watchers = insert WatcherKey-discrete key w.next_id w.watchers;
  goroutines = record { id = w.next_id; key = key; is_cancelled = false } ∷ w.goroutines;
  next_id = w.next_id + 1;
}

abbrev pub stopped : Watcher → WatcherKey → ℕ → Watcher
stopped w key id = record {
  watchers = delete WatcherKey-discrete key w.watchers;
  goroutines = cancel id w.goroutines;
  next_id = w.next_id;
}

restarted :
    (w : Watcher) (key : WatcherKey)
    → lookup WatcherKey-discrete key w.watchers ≡ none
    → start_watching_pod (stop_watching_pod (start_watching_pod w key) key) key
      ≡ started (stopped (started w key) key w.next_id) key
restarted w key e =
    rw
      (
        start_absent w key e,
        stop_present (started w key) key w.next_id
            (lookup-insert_self WatcherKey-discrete key w.next_id w.watchers),
        start_absent (stopped (started w key) key w.next_id) key (lookup-delete_self key _),
      )
      refl

found_first :
    (w : Watcher) (key : WatcherKey)
    → find_goroutine w.next_id (started (stopped (started w key) key w.next_id) key).goroutines
      ≡ some (record { id = w.next_id; key = key; is_cancelled = true })
unfolding find_goroutine cancel
found_first w key = ground arith

found_second :
    (id : ℕ) (key : WatcherKey) (gs : List Goroutine)
    → find_goroutine
        (id + 1)
        (remove_goroutine id (record { id = id + 1; key = key; is_cancelled = false } ∷ gs))
      ≡ some (record { id = id + 1; key = key; is_cancelled = false })
unfolding find_goroutine remove_goroutine
found_second id key gs = ground arith

-- When a container that was not watched is started, stopped and started again and its first
-- goroutine exits only then, the second one streams on uncancelled, and stopping the container
-- changes nothing.
pub restart_orphans :
    (w : Watcher) (key : WatcherKey)
    → lookup WatcherKey-discrete key w.watchers ≡ none
    → let again = start_watching_pod (stop_watching_pod (start_watching_pod w key) key) key in
      let after = exit again w.next_id in
      (find_goroutine (w.next_id + 1) after.goroutines
        ≡ some (record { id = w.next_id + 1; key = key; is_cancelled = false }))
      × (stop_watching_pod after key ≡ after)
restart_orphans w key e =
    rw
      (
        restarted w key e,
        exit_found (started (stopped (started w key) key w.next_id) key) w.next_id _
            (found_first w key),
      )
      (found_second w.next_id key _, stop_absent _ key (lookup-delete_self key _))
