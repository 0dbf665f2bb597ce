-- ===== src/LogWatcher/Stream.antt =====
-- internal/logwatcher/watcher.go: the retries of a stream. What a goroutine meets, its context,
-- the log stream and the API server's answers, is an argument; the lines that are read are not
-- modelled here. A duration is a number of nanoseconds.
pub mod Backoff
pub mod Retries
mod Tests
use kube_diagnose.Common.{
  ℕ, zero, suc, ◌+◌, ◌-◌, ◌*◌, ◌^◌, List, [], ◌∷◌, Bool, true, false, Option, none, some, Text,
  Text-discrete, ℤ, pos, negsuc, ite, ltb, ◌==◌, if◌then◌else◌,
}

abbrev pub second : ℕ
second = 1000000000

abbrev pub backoff_base : ℕ
backoff_base = 1 * second

abbrev pub backoff_max : ℕ
backoff_max = 30 * second

-- The float64 product is exact: a power of two times 10⁹, which has fewer than 53 bits.
abbrev pub backoff_exact : ℕ → ℕ
backoff_exact attempt = backoff_base * 2 ^ (attempt - 1)

-- Called with an attempt of one or more. `out_of_range` is the conversion of a float64 that no int64 equals, which Go leaves to the
-- implementation.
unfoldable pub backoff_duration : (ℕ → ℤ) → ℕ → ℤ
backoff_duration out_of_range attempt =
    let d =
      if ltb (backoff_exact attempt) (2 ^ 63)
      then pos (backoff_exact attempt)
      else out_of_range (backoff_exact attempt) in
    elim d [ pos n ↦ if ltb backoff_max n then pos backoff_max else pos n | negsuc n ↦ negsuc n ]

pub data PodPhase : Type 0 where
  pending running succeeded failed unknown : PodPhase

pub data RestartPolicy : Type 0 where
  always on_failure never : RestartPolicy

-- Of a container's status: its name and, if it has terminated, its exit code.
pub record ContainerStatus : Type 0 where
  pub name : Text
  pub terminated : Option ℤ

pub record Pod : Type 0 where
  pub phase : PodPhase
  pub container_statuses : List ContainerStatus
  pub restart_policy : RestartPolicy

abbrev pub is_zero : ℤ → Bool
is_zero (pos n) = n == 0
is_zero (negsuc n) = false

abbrev pub stays_terminated : RestartPolicy → Option ℤ → Bool
stays_terminated policy none = false
stays_terminated always (some code) = false
stays_terminated on_failure (some code) = is_zero code
stays_terminated never (some code) = true

-- The first status of the container's name decides.
unfoldable pub container_running : RestartPolicy → Text → List ContainerStatus → Bool
container_running policy name [] = true
container_running policy name (cs ∷ rest) =
    ite (Text-discrete cs.name name) (if stays_terminated policy cs.terminated then false else true)
      (container_running policy name rest)

unfoldable pub is_pod_still_running : Text → Pod → Bool
is_pod_still_running name pod = elim pod.phase [
  | running ↦ container_running pod.restart_policy name pod.container_statuses
  | pending ↦ container_running pod.restart_policy name pod.container_statuses
  | _ ↦ false
]

-- What one call of streamOnce meets; the flags say whether the context is cancelled by then.
pub data Attempt : Type 0 where
  open_error : Bool → Attempt
  cancelled_in_stream : Attempt
  read_error : Bool → Attempt
  -- The server closed the stream; none is an error of the pod's lookup.
  stream_end : Bool → Option Pod → Attempt

pub record Ended : Type 0 where
  pub done : Bool
  pub permanent : Bool

unfoldable pub stream_once : Text → Attempt → Ended
stream_once name (open_error cancelled) = record { done = cancelled; permanent = false }
stream_once name cancelled_in_stream = record { done = true; permanent = false }
stream_once name (read_error cancelled) = record { done = cancelled; permanent = false }
stream_once name (stream_end true pod) = record { done = true; permanent = false }
stream_once name (stream_end false none) = record { done = false; permanent = false }
stream_once name (stream_end false (some pod)) = record {
  done = false;
  permanent = if is_pod_still_running name pod then false else true;
}

-- One round of the loop: the context before the attempt, and at the end of the delay.
pub record Round : Type 0 where
  pub cancelled_before : Bool
  pub cancelled_in_delay : Bool
  pub attempt : Attempt

-- The rounds that streamLoop enters, the delays it starts and whether it has returned.
pub record Trace : Type 0 where
  pub delays : List ℤ
  pub opened : ℕ
  pub is_returned : Bool

abbrev pub returned : List ℤ → ℕ → Trace
returned delays opened = record { delays = delays; opened = opened; is_returned = true }

abbrev pub delayed : (ℕ → ℤ) → ℕ → List ℤ
delayed out_of_range zero = []
delayed out_of_range (suc n) = backoff_duration out_of_range (suc n) ∷ []

abbrev pub in_delay : ℕ → Round → Bool
in_delay zero round = false
in_delay (suc n) round = round.cancelled_in_delay

abbrev pub after_round : List ℤ → Trace → Trace
after_round [] t = record t { opened = suc t.opened }
after_round (d ∷ ds) t = record t { delays = d ∷ t.delays; opened = suc t.opened }

unfoldable pub stream_loop : (ℕ → ℤ) → Text → ℕ → List Round → Trace
stream_loop out_of_range name attempt [] = record { delays = []; opened = 0; is_returned = false }
stream_loop out_of_range name attempt (round ∷ rounds) =
    let ended = stream_once name round.attempt in
    let delay = delayed out_of_range attempt in
    let rest = stream_loop out_of_range name (suc attempt) rounds in
    if round.cancelled_before
    then returned [] 0
    else if in_delay attempt round
    then returned delay 0
    else if ended.done
    then returned delay 1
    else if ended.permanent
    then returned delay 1
    else after_round delay rest
