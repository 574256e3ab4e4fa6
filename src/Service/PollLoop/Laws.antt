-- ===== src/Service/PollLoop/Laws.antt =====
-- The bounds of the intervals and of the backoff, and the interval in force.
use native.Mathlib.Nat.{mul_assoc, mul_comm, pow-suc}
use native.Mathlib.Decide.{dec_le}
use nexus_link.Base.{
  All, List, Result, String, [], ap, arith, err, get_elem?, length, min, none, ok, refl, some, suc,
  zero, ℕ, ◌*◌, ◌<◌, ◌^◌, ◌∙◌, ◌∷◌, ◌≡◌, ◌≤◌,
}
use nexus_link.Core.Config.{Config}
use nexus_link.Service.Poller.{PollEnd, hinted, panicked, poll_error}
use nexus_link.Service.PollLoop.{next_interval, poll_intervals, poll_loop, reconnect, run, sleeps}

poll_intervals-pos :
    (default current : ℕ) (ends : List PollEnd)
    → 0 < default
    → 0 < current
    → All (λ i. 0 < i) (poll_intervals default current ends)
unfolding poll_intervals next_interval
poll_intervals-pos default current [] h k = (k, tt)
poll_intervals-pos default current (hinted none ∷ es) h k =
    (k, poll_intervals-pos default current es h k)
poll_intervals-pos default current (hinted (some n) ∷ es) h k =
    ground (arith, poll_intervals-pos default current es h k, poll_intervals-pos default n es h)
poll_intervals-pos default current (poll_error e ∷ es) h k =
    (k, poll_intervals-pos default default es h h)
poll_intervals-pos default current (panicked ∷ es) h k = (k, tt)

-- If the configured interval is positive, so is each interval that the loop sleeps, whatever the
-- backend hints.
pub poll_loop-pos :
    (config : Config) (ends : List PollEnd)
    → 0 < config.agent.poll_sec
    → All (λ i. 0 < i) (poll_loop config ends)
unfolding poll_loop
poll_loop-pos config ends h =
    ground (arith, poll_intervals-pos config.agent.poll_sec config.agent.poll_sec ends h h)

-- The interval in force after some cycles, the latest first: the latest positive hint since the
-- latest error, and else the default.
abbrev pub in_force : ℕ → List PollEnd → ℕ
in_force default [] = default
in_force default (hinted none ∷ past) = in_force default past
in_force default (hinted (some zero) ∷ past) = in_force default past
in_force default (hinted (some (suc n)) ∷ past) = suc n
in_force default (poll_error e ∷ past) = default
in_force default (panicked ∷ past) = in_force default past

abbrev pub NoPanic : PollEnd → Type 0
NoPanic panicked = ⊥
NoPanic _ = Unit

abbrev reverse_onto : List PollEnd → List PollEnd → List PollEnd
reverse_onto [] past = past
reverse_onto (e ∷ es) past = reverse_onto es (e ∷ past)

abbrev pub last_or : ℕ → List ℕ → ℕ
last_or d [] = d
last_or d (x ∷ xs) = last_or x xs

last_or-poll_intervals :
    (d default current : ℕ) (ends past : List PollEnd)
    → All NoPanic ends
    → current ≡ in_force default past
    → last_or d (poll_intervals default current ends) ≡ in_force default (reverse_onto ends past)
unfolding poll_intervals next_interval
last_or-poll_intervals d default current [] past h e = e
last_or-poll_intervals d default current (hinted none ∷ es) past (_, h) e =
    last_or-poll_intervals current default current es (hinted none ∷ past) h e
last_or-poll_intervals d default current (hinted (some zero) ∷ es) past (_, h) e =
    last_or-poll_intervals current default current es (hinted (some zero) ∷ past) h e
last_or-poll_intervals d default current (hinted (some (suc n)) ∷ es) past (_, h) e =
    ground (
      arith,
      last_or-poll_intervals current default (suc n) es (hinted (some (suc n)) ∷ past) h refl,
    )
last_or-poll_intervals d default current (poll_error x ∷ es) past (_, h) e =
    last_or-poll_intervals current default default es (poll_error x ∷ past) h refl
last_or-poll_intervals d default current (panicked ∷ es) past (h, _) e = absurd h

-- While no cycle panics, the timeout of the next sleep of a node with a command token is the latest
-- positive hint since the latest error, and else the configured interval.
pub poll_loop-in_force :
    (config : Config) (cmd : String) (ends : List PollEnd)
    → config.compose.cmd_token ≡ some cmd
    → All NoPanic ends
    → last_or 0 (poll_loop config ends) ≡ in_force config.agent.poll_sec (reverse_onto ends [])
unfolding poll_loop
poll_loop-in_force config cmd ends e h =
    rw e (last_or-poll_intervals 0 config.agent.poll_sec config.agent.poll_sec ends [] h refl)

abbrev pub IsErr : Result (Unit {0}) String → Type 0
IsErr (ok _) = ⊥
IsErr (err e) = Unit

pow-suc_two : (k : ℕ) → 2 ^ suc k ≡ 2 * 2 ^ k
pow-suc_two k = pow-suc 2 k ∙ mul_comm (2 ^ k) 2

two_pow-pos : (k : ℕ) → 1 ≤ 2 ^ k
two_pow-pos zero = omega arith
two_pow-pos (suc k) = rw pow-suc_two (omega (arith, two_pow-pos k))

capped_large : (b p : ℕ) → 1 ≤ p → 15 < b → 30 ≤ b * (2 * p)
capped_large b p h k = grind arith

capped_double : (b p : ℕ) → 1 ≤ p → min (min (b * 2) 30 * p) 30 ≡ min (b * (2 * p)) 30
capped_double b p h = elim (dec_le b 15) [
  | yes k ↦
      let small : min (b * 2) 30 ≡ b * 2 = omega arith in
      rw small (ap (λ x. min x 30) (mul_assoc b 2 p))
  | no k ↦
      let large : min (b * 2) 30 ≡ 30 = omega arith in
      rw large (omega (arith, capped_large b p h (omega arith)))
]

sleeps-errors :
    (b k : ℕ) (rs : List (Result (Unit {0}) String))
    → b ≤ 30
    → All IsErr rs
    → k < length rs
    → get_elem? (sleeps b rs) k ≡ some (min (b * 2 ^ k) 30)
unfolding sleeps reconnect
sleeps-errors b k [] h es lt = absurd (omega arith)
sleeps-errors b zero (err e ∷ rs) h (_, es) lt = ap some (omega arith)
sleeps-errors b (suc k) (err e ∷ rs) h (_, es) lt =
    sleeps-errors (min (b * 2) 30) k rs (omega arith) es (omega arith)
    ∙ ap some (rw pow-suc_two (capped_double b (2 ^ k) (two_pow-pos k)))
sleeps-errors b k (ok _ ∷ rs) h (x, es) lt = absurd x

-- While the connection only fails, the waits double from one second up to thirty.
pub run-errors :
    (config : Config) (url : String) (k : ℕ) (rs : List (Result (Unit {0}) String))
    → config.api.database_url ≡ some url
    → All IsErr rs
    → k < length rs
    → get_elem? (run config rs) k ≡ some (min (2 ^ k) 30)
unfolding run
run-errors config url k rs e h lt =
    rw e (sleeps-errors 1 k rs (omega arith) h lt ∙ ap some (omega arith))
