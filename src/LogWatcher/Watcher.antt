-- ===== src/LogWatcher/Watcher.antt =====
-- internal/logwatcher/watcher.go: the map of watched containers and the goroutines that stream
-- them. A goroutine is known by a number; its context is cancelled through the entry of the map.
pub mod Tracking
pub mod Orphans
mod Tests
use kube_diagnose.Common.{
  ℕ, ◌+◌, List, [], ◌∷◌, ◌++◌, Bool, true, false, Option, none, some, Text, Text-discrete, ◌==◌,
  if◌then◌else◌, length, lookup, insert, delete,
}

pub record WatcherKey : Type 0 where
  pub namespace : Text
  pub pod : Text
  pub container : Text

unfoldable pub WatcherKey-discrete : Discrete WatcherKey
unfolding Text-discrete
WatcherKey-discrete = hlevel Text-discrete

-- A running `streamLoop`.
pub record Goroutine : Type 0 where
  pub id : ℕ
  pub key : WatcherKey
  pub is_cancelled : Bool

pub record Watcher : Type 0 where
  pub watchers : List (WatcherKey × ℕ)
  pub goroutines : List Goroutine
  pub next_id : ℕ

abbrev pub new_watcher : Watcher
new_watcher = record { watchers = []; goroutines = []; next_id = 0 }

unfoldable pub start_watching_pod : Watcher → WatcherKey → Watcher
start_watching_pod w key = elim (lookup WatcherKey-discrete key w.watchers) [
  | some _ ↦ w
  | none ↦ record {
    watchers = insert WatcherKey-discrete key w.next_id w.watchers;
    goroutines = record { id = w.next_id; key = key; is_cancelled = false } ∷ w.goroutines;
    next_id = w.next_id + 1;
  }
]

-- Calling a cancel function marks its goroutine's context.
unfoldable pub cancel : ℕ → List Goroutine → List Goroutine
cancel id [] = []
cancel id (g ∷ gs) = (if g.id == id then record g { is_cancelled = true } else g) ∷ cancel id gs

unfoldable pub stop_watching_pod : Watcher → WatcherKey → Watcher
stop_watching_pod w key = elim (lookup WatcherKey-discrete key w.watchers) [
  | none ↦ w
  | some id ↦ record w {
    watchers = delete WatcherKey-discrete key w.watchers;
    goroutines = cancel id w.goroutines;
  }
]

unfoldable pub cancel_all : List (WatcherKey × ℕ) → List Goroutine → List Goroutine
cancel_all [] gs = gs
cancel_all (entry ∷ rest) gs = cancel_all rest (cancel entry.1 gs)

unfoldable pub stop_all : Watcher → Watcher
stop_all w = record w { watchers = []; goroutines = cancel_all w.watchers w.goroutines }

unfoldable pub watched_count : Watcher → ℕ
watched_count w = length w.watchers

unfoldable pub find_goroutine : ℕ → List Goroutine → Option Goroutine
find_goroutine id [] = none
find_goroutine id (g ∷ gs) = if g.id == id then some g else find_goroutine id gs

unfoldable pub remove_goroutine : ℕ → List Goroutine → List Goroutine
remove_goroutine id [] = []
remove_goroutine id (g ∷ gs) =
    if g.id == id then remove_goroutine id gs else g ∷ remove_goroutine id gs

-- The deferred clean-up of `streamLoop`: whatever stands at the goroutine's key is deleted.
unfoldable pub exit : Watcher → ℕ → Watcher
exit w id = elim (find_goroutine id w.goroutines) [
  | none ↦ w
  | some g ↦ record w {
    watchers = delete WatcherKey-discrete g.key w.watchers;
    goroutines = remove_goroutine id w.goroutines;
  }
]
