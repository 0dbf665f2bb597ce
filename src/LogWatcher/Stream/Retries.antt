-- ===== src/LogWatcher/Stream/Retries.antt =====
-- internal/logwatcher/watcher.go: when the loop around a stream returns.
use kube_diagnose.Common.{
  ℕ, zero, suc, List, [], ◌∷◌, ◌++◌, Bool, true, false, none, Text, Text-discrete, ℤ, if◌then◌else◌,
  length, ◌≡◌, ◌≢◌, ◌↔◌, ◌⊎◌, inl, inr, refl, ap, sym, if_pos, if_neg, ◌∙◌, arith, All,
}
use kube_diagnose.LogWatcher.Stream.{
  PodPhase, running, pending, succeeded, failed, unknown, RestartPolicy, ContainerStatus,
  open_error, read_error, stream_end, Round, stays_terminated, container_running,
  is_pod_still_running, stream_once, stream_loop, backoff_duration, delayed, in_delay, after_round,
}

-- The delays of the attempts from a number on, one for each round, without one before the first.
abbrev pub all_delays : (ℕ → ℤ) → ℕ → ℕ → List ℤ
all_delays out_of_range attempt zero = []
all_delays out_of_range zero (suc n) = all_delays out_of_range 1 n
all_delays out_of_range (suc a) (suc n) =
    backoff_duration out_of_range (suc a) ∷ all_delays out_of_range (suc (suc a)) n

-- A round without a cancellation whose stream cannot be opened, breaks off, or ends while the
-- pod cannot be looked up.
abbrev pub Transient : Round → Type 0
Transient round =
    (round.cancelled_before ≡ false)
    × (round.cancelled_in_delay ≡ false)
    × ((round.attempt ≡ open_error false)
        ⊎ ((round.attempt ≡ read_error false) ⊎ (round.attempt ≡ stream_end false none)))

retried :
    (name : Text) (round : Round)
    → Transient round
    → stream_once name round.attempt ≡ record { done = false; permanent = false }
unfolding stream_once
retried name round (b, d, inl e) = rw e refl
retried name round (b, d, inr (inl e)) = rw e refl
retried name round (b, d, inr (inr e)) = rw e refl

not_in_delay :
    (attempt : ℕ) (round : Round)
    → round.cancelled_in_delay ≡ false
    → in_delay attempt round ≡ false
not_in_delay zero round e = refl
not_in_delay (suc a) round e = e

one_more :
    (out : ℕ → ℤ) (name : Text) (attempt : ℕ) (round : Round) (rounds : List Round)
    → Transient round
    → stream_loop out name attempt (round ∷ rounds)
      ≡ after_round (delayed out attempt) (stream_loop out name (suc attempt) rounds)
unfolding stream_loop
one_more out name attempt round rounds t =
    rw (not_in_delay attempt round t.1, retried name round t, t.0, stream_loop) refl

no_rounds :
    (out : ℕ → ℤ) (name : Text) (attempt : ℕ)
    → stream_loop out name attempt [] ≡ record { delays = []; opened = 0; is_returned = false }
unfolding stream_loop
no_rounds out name attempt = refl

-- However many transient rounds a goroutine meets, it never returns, even if the pod is gone and
-- each lookup fails: it opens the stream once for each, with one more attempt in each delay.
pub stream_loop_retries :
    (out_of_range : ℕ → ℤ) (name : Text) (attempt : ℕ) (rounds : List Round)
    → All Transient rounds
    → stream_loop out_of_range name attempt rounds ≡ record {
      delays = all_delays out_of_range attempt (length rounds);
      opened = length rounds;
      is_returned = false;
    }
stream_loop_retries out name attempt [] h = no_rounds out name attempt
stream_loop_retries out name zero (round ∷ rounds) h =
    one_more out name zero round rounds h.0
    ∙ ap (after_round []) (stream_loop_retries out name 1 rounds h.1)
stream_loop_retries out name (suc a) (round ∷ rounds) h =
    one_more out name (suc a) round rounds h.0
    ∙ ap (after_round (delayed out (suc a))) (stream_loop_retries out name (suc (suc a)) rounds h.1)

first_decides :
    (policy : RestartPolicy) (name : Text) (before after : List ContainerStatus)
    (cs : ContainerStatus)
    → All (λ c. c.name ≢ name) before
    → cs.name ≡ name
    → container_running policy name (before ++ (cs ∷ after))
      ≡ (if stays_terminated policy cs.terminated then false else true)
unfolding container_running
first_decides policy name [] after cs h e = if_pos (Text-discrete cs.name name) e _ _
first_decides policy name (c ∷ before) after cs h e =
    if_neg (Text-discrete c.name name) h.0 _ _ ∙ first_decides policy name before after cs h.1 e

-- The pod counts as running exactly when its phase is Running or Pending and its container, by
-- the first status of its name, has not terminated for good under the pod's restart policy.
pub is_pod_still_running_iff :
    (name : Text) (phase : PodPhase) (policy : RestartPolicy) (before after : List ContainerStatus)
    (cs : ContainerStatus)
    → All (λ c. c.name ≢ name) before
    → cs.name ≡ name
    → (is_pod_still_running name (record {
      phase = phase;
      container_statuses = before ++ (cs ∷ after);
      restart_policy = policy;
    })
        ≡ true)
      ↔ (((phase ≡ running) ⊎ (phase ≡ pending)) × (stays_terminated policy cs.terminated ≡ false))
unfolding is_pod_still_running
is_pod_still_running_iff name phase policy before after cs h e = by_phase phase
  where
    first :
        container_running policy name (before ++ (cs ∷ after))
        ≡ (if stays_terminated policy cs.terminated then false else true)
    first = first_decides policy name before after cs h e

    lives : (b : Bool) → ((if b then false else true) ≡ true) → b ≡ false
    lives b t = ground arith

    alive : (b : Bool) → b ≡ false → (if b then false else true) ≡ true
    alive b f = ground arith

    by_phase :
        (phase : PodPhase)
        → (is_pod_still_running name (record {
          phase = phase;
          container_statuses = before ++ (cs ∷ after);
          restart_policy = policy;
        })
            ≡ true)
          ↔ (((phase ≡ running) ⊎ (phase ≡ pending))
              × (stays_terminated policy cs.terminated ≡ false))
    by_phase running = (λ t. (inl refl, lives _ (sym first ∙ t)), λ p. first ∙ alive _ p.1)
    by_phase pending = (λ t. (inr refl, lives _ (sym first ∙ t)), λ p. first ∙ alive _ p.1)
    by_phase succeeded = (λ t. ground arith, λ p. ground arith)
    by_phase failed = (λ t. ground arith, λ p. ground arith)
    by_phase unknown = (λ t. ground arith, λ p. ground arith)
