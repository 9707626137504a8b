-- ===== src/Examples/Runs.antt =====
-- The theorems on runs and their events at concrete inputs.
use kkode.Prelude.{ℕ, ◌↔◌, ◌++◌, List, [], ◌∷◌, All, ◌≡◌, refl, arith, true, false, some, ok}
use kkode.Prelude.Int.{pos}
use kkode.Strings.{codes, is_empty}
use kkode.Gateway.Runs.{completed, Run, StartRequest, is_terminal, clone_run}
use kkode.Gateway.Runs.Settling.{IsKnownResult}
use kkode.Gateway.Manager.{
  waiting, ended, ManagedRun, Manager, find, modify, to_waiting, to_stopped, changed, cancel_owned,
  to_refused, shut_down_all, shut_down_events,
}
use kkode.Gateway.Manager.Starting.{Claim, start, look_up, claimed, entered, accepted}
use kkode.Gateway.Manager.Steps.{submit, answer, cancel, stop, refuse, Reach, here, next}
use kkode.Gateway.Manager.Invariant.{SlotsFit, holders}
use kkode.Gateway.Manager.Reachable.{fresh, Reach-slots, Reach-ended}
use kkode.Gateway.Manager.Queries.{RunQuery}
use kkode.Gateway.Events.{EventBus, publish, change_event, clone_event}
use kkode.Gateway.Events.Delivery.{IsBounded, IsTold, publish-IsTold}
use kkode.Gateway.Events.Sequence.{IsSublist, Act, sent, read, after, all_sent, after-IsSublist}

abbrev request : StartRequest
request = record {
  run_id = codes "r";
  session_id = codes "s";
  prompt = codes "p";
  provider = [];
  model = [];
  working_directory = [];
  max_preview_bytes = pos 0;
  max_output_tokens = pos 0;
  mcp_servers = [];
  skills = [];
  subagents = [];
  enabled_tools = [];
  disabled_tools = [];
  context_blocks = [];
  metadata = some ((codes "idempotency_key", codes "k") ∷ []);
}

abbrev take_in : Claim
take_in run = ok (run, true)

abbrev empty_manager : Manager
empty_manager = fresh (some 1)

abbrev one_waiting : Manager
one_waiting = (start take_in request 5 empty_manager).1

abbrev waiting_run : ManagedRun
waiting_run = to_waiting (entered (accepted (codes "r") request 5))

abbrev one_asked : Manager
one_asked = changed one_waiting (codes "r") (cancel_owned 6)

abbrev asked_run : ManagedRun
asked_run = cancel_owned 6 waiting_run

abbrev one_stopped : Manager
one_stopped = record one_asked { runs = modify (codes "r") to_stopped one_asked.runs }

abbrev one_ended : Manager
one_ended = changed one_stopped (codes "r") (to_refused 7 (codes "context canceled"))

abbrev ended_run : ManagedRun
ended_run = to_refused 7 (codes "context canceled") (to_stopped asked_run)

claiming_found :
    find (codes "r") (look_up request 5 empty_manager).1.runs
    ≡ some (entered (accepted (codes "r") request 5))
unfolding look_up find
claiming_found = refl

asked_found : find (codes "r") one_asked.runs ≡ some asked_run
unfolding changed start find look_up claimed modify
asked_found = refl

is_asked : asked_run.asked ≡ true
unfolding cancel_owned accepted
is_asked = refl

stopped_found : find (codes "r") one_stopped.runs ≡ some (to_stopped asked_run)
unfolding changed start find look_up claimed modify
stopped_found = refl

stopped_waits : asked_run.phase ≡ waiting
unfolding cancel_owned accepted
stopped_waits = refl

ended_found : find (codes "r") one_ended.runs ≡ some ended_run
unfolding changed start find look_up claimed modify
ended_found = refl

to_waiting_run : Reach IsKnownResult (fresh (some 1)) one_waiting
unfolding start look_up claimed accepted
to_waiting_run = next (next here (submit request 5 refl)) (
    answer (codes "r") (entered (accepted (codes "r") request 5)) request
      (ok (accepted (codes "r") request 5, true)) claiming_found refl refl)

one_ended-Reach : Reach IsKnownResult (fresh (some 1)) one_ended
one_ended-Reach =
    next
      (next (next to_waiting_run (cancel (codes "r") 6 refl))
        (stop (codes "r") asked_run asked_found is_asked refl))
      (refuse (codes "r") (to_stopped asked_run) 7 (codes "context canceled") stopped_found
        stopped_waits refl refl)

Reach-slots_example : SlotsFit one_waiting.slots one_waiting.occupied (holders one_waiting.runs)
Reach-slots_example = Reach-slots IsKnownResult (some 1) (λ x k. k) to_waiting_run

Reach-ended_example :
    ((is_terminal ended_run.run.status ≡ true) ↔ (ended_run.phase ≡ ended))
    × (ended_run.stopped ≡ true → ended_run.asked ≡ true)
Reach-ended_example =
    Reach-ended IsKnownResult (some 1) (codes "r") ended_run (λ x k. k) one_ended-Reach ended_found

abbrev shut : Manager
shut = record one_ended {
  runs = shut_down_all 9 one_ended.runs;
  snapshots = one_ended.snapshots ++ shut_down_events 9 one_ended.runs;
}

abbrev accepted_run : Run
accepted_run = accepted (codes "r") request 5

abbrev query : RunQuery
query = record {
  session_id = codes "s";
  turn_id = [];
  status = [];
  provider = [];
  model = [];
  request_id = [];
  idempotency_key_value = [];
  limit = pos 2;
  offset = pos 0;
}

abbrev done_run : Run
done_run = record accepted_run { status = completed }

abbrev bus : EventBus
bus = record {
  subscribers = record { run_id = codes "r"; channel = 0; buffer = accepted_run ∷ [] } ∷ [];
  event_subscribers = record { run_id = codes "r"; channel = 1; buffer = [] } ∷ [];
}

bus-IsBounded : IsBounded bus
bus-IsBounded = record { runs_fit = (omega arith, tt); events_fit = (omega arith, tt) }

has_id : is_empty done_run.id ≡ false
unfolding is_empty accepted
has_id = refl

is_done : is_terminal done_run.status ≡ true
unfolding is_terminal
is_done = refl

publish-IsTold_example :
    All (IsTold done_run.id (clone_run done_run)) (publish done_run bus).subscribers
    × All
        (IsTold done_run.id (clone_event (change_event done_run)))
        (publish done_run bus).event_subscribers
publish-IsTold_example = publish-IsTold done_run bus has_id is_done bus-IsBounded

abbrev acts : List (Act ℕ)
acts = sent false 1 ∷ sent false 2 ∷ sent true 3 ∷ read ∷ []

after-IsSublist_example :
    IsSublist ((after 2 acts ([], [])).0 ++ (after 2 acts ([], [])).1) (all_sent acts)
after-IsSublist_example = after-IsSublist 2 acts
