-- ===== src/Mirror/Retries.antt =====
-- src/sync/Mirror.js: a mirror that is offline tries again, and one that was stopped does not.
use canvas_stored.Prelude.{
  ℕ, ◌≡◌, refl, Bool, true, false, not, ◌&&◌, ◌||◌, List, [], ◌∷◌, arith, leb, ltb, all,
}
use canvas_stored.Mirror.Link.{
  Phase, stopped, is_offline_phase, Link, schedule_online, go_offline, send_probe, take_answer,
  stop, start, begin_pass, end_pass, Event, fails, fires, nudged, begins, ends, stops, starts,
  ready, scans, answers, step, steps, at_rest,
}

-- A mirror that is offline and not stopping has its timer set or a probe on its way.
abbrev pub retries : Link → Bool
retries l = not (is_offline_phase l.phase) || (l.is_stopping || (l.timer || ltb 0 l.probes))

step-retries :
    (delays : List ℕ) (l : Link) (e : Event) → retries l ≡ true → retries (step delays l e) ≡ true
unfolding step begin_pass end_pass go_offline send_probe take_answer stop start schedule_online
step-retries delays l fails h = ground arith
step-retries delays l fires h = ground arith
step-retries delays l nudged h = ground arith
step-retries delays l begins h = ground arith
step-retries delays l ends h = ground arith
step-retries delays l stops h = ground arith
step-retries delays l starts h = ground arith
step-retries delays l (answers live) h = ground arith
step-retries delays l ready h = refl
step-retries delays l scans h = refl

steps-retries :
    (delays : List ℕ) (events : List Event) (l : Link)
    → retries l ≡ true
    → retries (steps delays l events) ≡ true
steps-retries delays [] l h = h
steps-retries delays (e ∷ events) l h =
    steps-retries delays events (step delays l e) (step-retries delays l e h)

-- Whatever happens to a mirror in whatever order, where it is offline and not stopping, its timer is
-- set or a probe is on its way.
pub steps-at_rest :
    (delays : List ℕ) (events : List Event) → retries (steps delays at_rest events) ≡ true
steps-at_rest delays events = steps-retries delays events at_rest refl

abbrev pub is_stopped_phase : Phase → Bool
is_stopped_phase stopped = true
is_stopped_phase _ = false

-- What can still happen to a mirror that was stopped: all but `start` and what it begins, which are
-- the end of its first pass and a rebuild.
abbrev pub is_late : Event → Bool
is_late starts = false
is_late ready = false
is_late scans = false
is_late _ = true

-- The mirror is stopping, has no timer set and no more probes than so many on their way, and its word
-- is `stopped`, unless there were some.
abbrev pub is_quiet : ℕ → Link → Bool
is_quiet probes l =
    l.is_stopping
    && (not l.timer && (leb l.probes probes && (is_stopped_phase l.phase || ltb 0 probes)))

step-is_quiet :
    (delays : List ℕ) (probes : ℕ) (l : Link) (e : Event)
    → is_late e ≡ true
    → is_quiet probes l ≡ true
    → is_quiet probes (step delays l e) ≡ true
unfolding step begin_pass end_pass go_offline send_probe take_answer stop schedule_online
step-is_quiet delays probes l fails late h = ground arith
step-is_quiet delays probes l fires late h = ground arith
step-is_quiet delays probes l nudged late h = ground arith
step-is_quiet delays probes l begins late h = ground arith
step-is_quiet delays probes l ends late h = ground arith
step-is_quiet delays probes l stops late h = ground arith
step-is_quiet delays probes l (answers live) late h = ground arith
step-is_quiet delays probes l starts late h = absurd (ground (arith, late))
step-is_quiet delays probes l ready late h = absurd (ground (arith, late))
step-is_quiet delays probes l scans late h = absurd (ground (arith, late))

stop-is_quiet :
    (delays : List ℕ) (l : Link)
    → l.is_started ≡ true
    → is_quiet l.probes (step delays l stops) ≡ true
unfolding step stop
stop-is_quiet delays l started = ground (arith, started)

steps-is_quiet :
    (delays : List ℕ) (probes : ℕ) (events : List Event) (l : Link)
    → all is_late events ≡ true
    → is_quiet probes l ≡ true
    → is_quiet probes (steps delays l events) ≡ true
steps-is_quiet delays probes [] l late h = h
steps-is_quiet delays probes (e ∷ events) l late h =
    steps-is_quiet delays probes events (step delays l e) (ground (arith, late))
      (step-is_quiet delays probes l e (ground (arith, late)) h)

-- A mirror that was started, whatever happened to it, and is stopped: whatever happens next, `start`,
-- the end of its first pass and a rebuild excepted, it is stopping, its timer is not set, no more
-- probes are on their way than when it was stopped, and its word is `stopped` unless there were such
-- probes.
pub steps-stops :
    (delays : List ℕ) (before later : List Event)
    → (steps delays at_rest before).is_started ≡ true
    → all is_late later ≡ true
    → is_quiet
        (steps delays at_rest before).probes
        (steps delays (step delays (steps delays at_rest before) stops) later)
      ≡ true
steps-stops delays before later started late =
    steps-is_quiet delays (steps delays at_rest before).probes later
      (step delays (steps delays at_rest before) stops) late
      (stop-is_quiet delays (steps delays at_rest before) started)
