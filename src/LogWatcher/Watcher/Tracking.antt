-- ===== src/LogWatcher/Watcher/Tracking.antt =====
-- internal/logwatcher/watcher.go: the goroutines that the map keeps track of.
use kube_diagnose.Common.{
  ℕ, List, [], ◌∷◌, true, false, none, some, ◌≡◌, ◌≢◌, inl, inr, refl, sym, ◌∙◌, arith, ◌==◌,
  lookup, insert, delete, lookup-insert_self, lookup-insert, lookup-delete, All, Option-cases,
  Bool-cases, if◌then◌else◌,
}
use kube_diagnose.LogWatcher.Watcher.{
  WatcherKey, WatcherKey-discrete, Goroutine, Watcher, start_watching_pod, stop_watching_pod,
  stop_all, exit, cancel, cancel_all, find_goroutine, remove_goroutine, new_watcher, watched_count,
}
use kube_diagnose.LogWatcher.Watcher.Orphans.{
  start_absent, start_present, stop_present, stop_absent, exit_found,
}

-- A goroutine whose context is not cancelled is the map's entry at its key.
abbrev pub Tracked : List (WatcherKey × ℕ) → Goroutine → Type 0
Tracked m g = g.is_cancelled ≡ false → lookup WatcherKey-discrete g.key m ≡ some g.id

abbrev pub AllTracked : Watcher → Type 0
AllTracked w = All (Tracked w.watchers) w.goroutines

insert-Tracked :
    (m : List (WatcherKey × ℕ)) (key : WatcherKey) (id : ℕ) (gs : List Goroutine)
    → lookup WatcherKey-discrete key m ≡ none
    → All (Tracked m) gs
    → All (Tracked (insert WatcherKey-discrete key id m)) gs
insert-Tracked m key id [] e h = tt
insert-Tracked m key id (g ∷ gs) e h = (
  λ live. ground (arith, lookup-insert WatcherKey-discrete key g.key id m, h.0 live),
  insert-Tracked m key id gs e h.1,
)

start-Tracked :
    (w : Watcher) (key : WatcherKey) → AllTracked w → AllTracked (start_watching_pod w key)
start-Tracked w key h = elim (Option-cases (lookup WatcherKey-discrete key w.watchers)) [
  | inl e ↦ rw (start_absent w key e) (
    λ _. lookup-insert_self WatcherKey-discrete key w.next_id w.watchers,
    insert-Tracked w.watchers key w.next_id w.goroutines e h,
  )
  | inr (id, e) ↦ rw (start_present w key id e) h
]

-- A goroutine stays tracked in a smaller map that lacks only the cancelled goroutine's entry.
narrowed :
    (m n : List (WatcherKey × ℕ)) (id : ℕ) (g : Goroutine)
    → (g.id ≢ id
        → lookup WatcherKey-discrete g.key m ≡ some g.id
        → lookup WatcherKey-discrete g.key n ≡ some g.id)
    → Tracked m g
    → Tracked n (if g.id == id then record g { is_cancelled = true } else g)
narrowed m n id g step h = elim (Bool-cases (g.id == id)) [
  | inl t ↦ rw t (λ live. ground arith)
  | inr f ↦ rw f (λ live. step (λ e. ground arith) (h live))
]

deleted :
    (m : List (WatcherKey × ℕ)) (key asked : WatcherKey) (id other : ℕ)
    → lookup WatcherKey-discrete key m ≡ some id
    → other ≢ id
    → lookup WatcherKey-discrete asked m ≡ some other
    → lookup WatcherKey-discrete asked (delete WatcherKey-discrete key m) ≡ some other
deleted m key asked id other e n h = elim (WatcherKey-discrete key asked) [
  | yes same ↦ absurd (clash n (sym h ∙ rw (← same) e))
  | no differ ↦ ground (arith, lookup-delete WatcherKey-discrete key asked m)
]
  where
    clash : {a b : ℕ} → a ≢ b → some a ≡ some b → ⊥
    clash n e = ground arith

delete-Tracked :
    (m : List (WatcherKey × ℕ)) (key : WatcherKey) (id : ℕ) (gs : List Goroutine)
    → lookup WatcherKey-discrete key m ≡ some id
    → All (Tracked m) gs
    → All (Tracked (delete WatcherKey-discrete key m)) (cancel id gs)
unfolding cancel
delete-Tracked m key id [] e h = tt
delete-Tracked m key id (g ∷ gs) e h = (
  narrowed m (delete WatcherKey-discrete key m) id g (deleted m key g.key id g.id e) h.0,
  delete-Tracked m key id gs e h.1,
)

cancel-Tracked :
    (entry : WatcherKey × ℕ) (m : List (WatcherKey × ℕ)) (gs : List Goroutine)
    → All (Tracked (entry ∷ m)) gs
    → All (Tracked m) (cancel entry.1 gs)
unfolding cancel lookup
cancel-Tracked entry m [] h = tt
cancel-Tracked entry m (g ∷ gs) h =
    (narrowed (entry ∷ m) m entry.1 g (λ n e. ground arith) h.0, cancel-Tracked entry m gs h.1)

cancel_all-Tracked :
    (m : List (WatcherKey × ℕ)) (gs : List Goroutine)
    → All (Tracked m) gs
    → All (Tracked []) (cancel_all m gs)
unfolding cancel_all
cancel_all-Tracked [] gs h = h
cancel_all-Tracked (entry ∷ m) gs h =
    cancel_all-Tracked m (cancel entry.1 gs) (cancel-Tracked entry m gs h)

remove-Tracked :
    (m : List (WatcherKey × ℕ)) (key : WatcherKey) (id : ℕ) (gs : List Goroutine)
    → ((other : ℕ) → lookup WatcherKey-discrete key m ≡ some other → other ≡ id)
    → All (Tracked m) gs
    → All (Tracked (delete WatcherKey-discrete key m)) (remove_goroutine id gs)
unfolding remove_goroutine
remove-Tracked m key id [] own h = tt
remove-Tracked m key id (g ∷ gs) own h =
    let rest = remove-Tracked m key id gs own h.1 in
    elim (Bool-cases (g.id == id)) [
      | inl t ↦ rw t rest
      | inr f ↦ rw f (
        λ live. elim (WatcherKey-discrete key g.key) [
          | yes same ↦ absurd (differs f (own g.id (rw same (h.0 live))))
          | no differ ↦ ground (arith, lookup-delete WatcherKey-discrete key g.key m, h.0 live)
        ],
        rest,
      )
    ]
  where
    differs : {a b : ℕ} → (a == b) ≡ false → a ≢ b
    differs f e = ground arith

stop-Tracked :
    (w : Watcher) (key : WatcherKey) → AllTracked w → AllTracked (stop_watching_pod w key)
stop-Tracked w key h = elim (Option-cases (lookup WatcherKey-discrete key w.watchers)) [
  | inl e ↦ rw (stop_absent w key e) h
  | inr (id, e) ↦ rw (stop_present w key id e) (delete-Tracked w.watchers key id w.goroutines e h)
]

-- One call on the watcher, or the exit of a goroutine whose key no other goroutine has taken.
pub data Step : Watcher → Watcher → Type 0 where
  starts : (w : Watcher) (key : WatcherKey) → Step w (start_watching_pod w key)
  stops : (w : Watcher) (key : WatcherKey) → Step w (stop_watching_pod w key)
  stops_all : (w : Watcher) → Step w (stop_all w)
  exits :
      (w : Watcher) (id : ℕ) (g : Goroutine)
      → find_goroutine id w.goroutines ≡ some g
      → ((other : ℕ) → lookup WatcherKey-discrete g.key w.watchers ≡ some other → other ≡ id)
      → Step w (exit w id)

pub data Reach : Watcher → Type 0 where
  here : Reach new_watcher
  next : {w v : Watcher} → Reach w → Step w v → Reach v

stop_all-Tracked : (w : Watcher) → AllTracked w → AllTracked (stop_all w)
unfolding stop_all
stop_all-Tracked w h = cancel_all-Tracked w.watchers w.goroutines h

Step-Tracked : {w v : Watcher} → Step w v → AllTracked w → AllTracked v
Step-Tracked (starts w key) h = start-Tracked w key h
Step-Tracked (stops w key) h = stop-Tracked w key h
Step-Tracked (stops_all w) h = stop_all-Tracked w h
Step-Tracked (exits w id g e own) h =
    rw (exit_found w id g e) (remove-Tracked w.watchers g.key id w.goroutines own h)

-- After any starts, stops and exits in which no goroutine exits while another one has its key,
-- every goroutine that is not cancelled is the map's entry at its key.
pub Reach-AllTracked :
    {w : Watcher}
    → Reach w
    → All
        (λ g. g.is_cancelled ≡ false → lookup WatcherKey-discrete g.key w.watchers ≡ some g.id)
        w.goroutines
Reach-AllTracked here = tt
Reach-AllTracked (next r s) = Step-Tracked s (Reach-AllTracked r)

none_live : (gs : List Goroutine) → All (Tracked []) gs → All (λ g. g.is_cancelled ≡ true) gs
unfolding lookup
none_live [] h = tt
none_live (g ∷ gs) h = (
  elim (Bool-cases g.is_cancelled) [ inl t ↦ t | inr f ↦ absurd (empty (h.0 f)) ],
  none_live gs h.1,
)
  where
    empty : {id : ℕ} → none ≡ some id → ⊥
    empty e = ground arith

-- After such a history StopAll cancels every goroutine and empties the map.
pub stop_all_reaches :
    {w : Watcher}
    → Reach w
    → (All (λ g. g.is_cancelled ≡ true) (stop_all w).goroutines) × (watched_count (stop_all w) ≡ 0)
unfolding stop_all watched_count
stop_all_reaches {w} r =
    (none_live _ (cancel_all-Tracked w.watchers w.goroutines (Reach-AllTracked r)), refl)
