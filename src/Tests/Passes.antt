-- ===== src/Tests/Passes.antt =====
-- src/sync/Mirror.js: runs of the passes and of the offline state machine.
use canvas_stored.Prelude.{ℕ, ◌≡◌, refl, true, false, List, [], ◌∷◌, Text, codes}
use canvas_stored.Mirror.Engine.{View}
use canvas_stored.Mirror.Link.{
  Link, online, Event, fires, begins, ends, stop, take_answer, fails, nudged, stops, starts, ready,
  answers, steps, at_rest, step, go_offline, send_probe, schedule_online, start,
}
use canvas_stored.Mirror.Retries.{retries, steps-at_rest, is_quiet, steps-stops}
use canvas_stored.Tests.Scenes.{two_versions}

abbrev same_view : Text → View
same_view key = two_versions

abbrev one_key : List Text
one_key = codes "a.txt" ∷ []

abbrev delays : List ℕ
delays = 5000 ∷ 10000 ∷ []

-- A start, a failure, and a nudge that sends a probe.
abbrev goes_offline : List Event
goes_offline = starts ∷ ready ∷ fails ∷ nudged ∷ []

steps-at_rest_example : retries (steps delays at_rest goes_offline) ≡ true
steps-at_rest_example = steps-at_rest delays goes_offline

abbrev before_stop : Link
before_stop = steps delays at_rest goes_offline

-- Events of all kinds behind the stop, of which one is the answer to the probe that was on its way.
abbrev after_stop : List Event
after_stop = fails ∷ nudged ∷ answers false ∷ fires ∷ begins ∷ ends ∷ []

steps-stops_example :
    is_quiet before_stop.probes (steps delays (step delays before_stop stops) after_stop) ≡ true
unfolding step go_offline send_probe schedule_online start
steps-stops_example = steps-stops delays goes_offline after_stop refl refl

-- The answer that the root is there sets the word of a mirror that was stopped to `online`.
online_after_stop :
    let l = steps delays before_stop (stops ∷ answers true ∷ []) in
    (l.phase ≡ online) × (l.is_stopping ≡ true) × (l.is_started ≡ false)
unfolding step go_offline send_probe schedule_online start stop take_answer
online_after_stop = (refl, refl, refl)
