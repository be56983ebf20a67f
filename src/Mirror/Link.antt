-- ===== src/Mirror/Link.antt =====
-- src/sync/Mirror.js: the engine's state word with the offline timer: `#goOffline`,
-- `#scheduleOnline`, `#tryOnline` and the state changes of `start` and `stop`, as a step per event.
-- The probe of `#tryOnline` (`verifyRoot`) is awaited: it is sent in one step and answered in
-- another.
use canvas_stored.Prelude.{
  ℕ, ◌+◌, ◌-◌, min, Bool, true, false, not, ◌||◌, Option, none, some, List, [], ◌∷◌, ◌==◌, length,
  if◌then◌else◌,
}

-- The values of `#state`.
pub data Phase : Type 0 where
  idle starting online syncing scanning offline stopping stopped : Phase

abbrev pub is_offline_phase : Phase → Bool
is_offline_phase offline = true
is_offline_phase _ = false

abbrev pub is_online_phase : Phase → Bool
is_online_phase online = true
is_online_phase _ = false

abbrev pub is_working_phase : Phase → Bool
is_working_phase syncing = true
is_working_phase scanning = true
is_working_phase _ = false

-- `timer` is whether `#offlineTimer` is set, `delay` what it was last set to, `probes` how many
-- probes are not answered yet.
pub record Link : Type 0 where
  pub phase : Phase
  pub timer : Bool
  pub delay : Option ℕ
  pub attempts : ℕ
  pub probes : ℕ
  pub is_stopping : Bool
  pub is_started : Bool

-- `delays[i]`
unfoldable pub delay_at : List ℕ → ℕ → Option ℕ
delay_at [] i = none
delay_at (d ∷ ds) i = let rest = delay_at ds (i - 1) in if i == 0 then some d else rest

-- `#scheduleOnline`
unfoldable pub schedule_online : List ℕ → Link → Link
unfolding delay_at
schedule_online delays l = if l.timer || l.is_stopping then l else record l {
  timer = true;
  delay = delay_at delays (min l.attempts (length delays - 1));
  attempts = l.attempts + 1;
}

-- `#goOffline`
unfoldable pub go_offline : List ℕ → Link → Link
unfolding schedule_online
go_offline delays l =
    if is_offline_phase l.phase || l.is_stopping
    then l
    else schedule_online delays (record l { phase = offline })

-- `#tryOnline` up to its probe.
unfoldable pub send_probe : Link → Link
send_probe l =
    if l.is_stopping || not (is_offline_phase l.phase)
    then l
    else record l { probes = l.probes + 1 }

-- `#tryOnline` from the answer on.
unfoldable pub take_answer : List ℕ → Bool → Link → Link
unfolding schedule_online
take_answer delays live l =
    if not live then schedule_online delays l else record l { phase = online; attempts = 0 }

-- `stop`, once it waited for the running work.
unfoldable pub stop : Link → Link
stop l =
    if not l.is_started
    then l
    else record l { phase = stopped; timer = false; is_stopping = true; is_started = false }

-- `start`, up to its first scan.
unfoldable pub start : Link → Link
start l =
    if l.is_started
    then l
    else record l { phase = starting; is_started = true; is_stopping = false }

-- `#reconcileDirty` sets the word while it works, and back when it is done.
unfoldable pub begin_pass : Link → Link
begin_pass l = if is_online_phase l.phase then record l { phase = syncing } else l

unfoldable pub end_pass : Link → Link
end_pass l =
    if is_working_phase l.phase
    then record l { phase = if l.is_stopping then stopping else online }
    else l

-- `ready` is the end of `start`'s first pass, `scans` the beginning of `#rebuild`.
pub data Event : Type 0 where
  fails fires nudged begins ends stops starts ready scans : Event
  answers : Bool → Event

unfoldable pub step : List ℕ → Link → Event → Link
unfolding go_offline send_probe take_answer stop start begin_pass end_pass
step delays l fails = go_offline delays l
step delays l fires = if l.timer then send_probe (record l { timer = false }) else l
step delays l nudged = send_probe l
step delays l begins = begin_pass l
step delays l ends = end_pass l
step delays l stops = stop l
step delays l starts = start l
step delays l ready = record l { phase = online }
step delays l scans = record l { phase = scanning }
step delays l (answers live) =
    if l.probes == 0 then l else take_answer delays live (record l { probes = l.probes - 1 })

abbrev pub steps : List ℕ → Link → List Event → Link
steps delays l [] = l
steps delays l (e ∷ es) = steps delays (step delays l e) es

-- The fields as they are declared.
abbrev pub at_rest : Link
at_rest = record {
  phase = idle;
  timer = false;
  delay = none;
  attempts = 0;
  probes = 0;
  is_stopping = false;
  is_started = false;
}
