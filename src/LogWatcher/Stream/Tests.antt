-- ===== src/LogWatcher/Stream/Tests.antt =====
-- internal/logwatcher/watcher.go: retries at concrete inputs.
use kube_diagnose.Common.{
  ℕ, ◌-◌, ◌^◌, List, [], ◌∷◌, false, none, some, codes, ℤ, pos, negsuc, ◌≡◌, inl, inr, refl, arith,
  All,
}
use kube_diagnose.LogWatcher.Stream.{
  backoff_duration, ContainerStatus, Attempt, open_error, read_error, stream_end, Round,
  stream_loop,
}
use kube_diagnose.LogWatcher.Stream.Backoff.{backoff_duration_overflows}
use kube_diagnose.LogWatcher.Stream.Retries.{all_delays, Transient, stream_loop_retries}

-- The conversion on amd64.
abbrev least : ℕ → ℤ
least n = negsuc (2 ^ 63 - 1)

third : backoff_duration least 3 ≡ pos 4000000000
unfolding backoff_duration
third = refl

backoff_duration_overflows_example : backoff_duration least 35 ≡ negsuc (2 ^ 63 - 1)
backoff_duration_overflows_example = backoff_duration_overflows least 35 (λ n h. refl) (omega arith)

abbrev round : Attempt → Round
round attempt = record { cancelled_before = false; cancelled_in_delay = false; attempt = attempt }

abbrev gone : List Round
gone = round (read_error false) ∷ round (stream_end false none) ∷ round (open_error false) ∷ []

gone-Transient : All Transient gone
gone-Transient =
    ((refl, refl, inr (inl refl)), ((refl, refl, inr (inr refl)), ((refl, refl, inl refl), tt)))

stream_loop_retries_example :
    stream_loop least (codes "web") 0 gone
    ≡ record { delays = all_delays least 0 3; opened = 3; is_returned = false }
stream_loop_retries_example = stream_loop_retries least (codes "web") 0 gone gone-Transient

abbrev sidecar : ContainerStatus
sidecar = record { name = codes "log"; terminated = none }

abbrev web : ContainerStatus
web = record { name = codes "web"; terminated = some (pos 0) }
