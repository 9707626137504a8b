-- ===== src/Gateway/Events.antt =====
-- gateway/event_bus.go: the channels that follow the runs of one gateway process. A channel with a
-- buffer is the list of what it holds, oldest first; a bus lists the channels that are open.
pub mod Delivery
pub mod Sequence
use kkode.Prelude.{
  ℕ, suc, ◌+◌, Bool, true, false, List, [], ◌∷◌, ◌++◌, ltb, ◌==◌, if◌then◌else◌, length, drop, ◌&&◌,
}
use kkode.Strings.{Text, codes, is_empty, text_eq}
use kkode.Gateway.Runs.{
  Status, queued, running, cancelling, completed, failed, cancelled, other, Run, is_terminal,
  clone_run,
}

-- `RunEventDTO`
pub record RunEvent : Type 0 where
  pub seq : ℕ
  pub at : ℕ
  pub kind : Text
  pub tool : Text
  pub message : Text
  pub error : Text
  pub payload : List ℕ
  pub run : Run

-- A channel under the id of the run that it follows.
pub record Subscription {ℓ} (A : Type ℓ) : Type ℓ where
  pub run_id : Text
  pub channel : ℕ
  pub buffer : List A

-- `RunEventBus`
pub record EventBus : Type 0 where
  pub subscribers : List (Subscription Run)
  pub event_subscribers : List (Subscription RunEvent)

abbrev pub run_capacity : ℕ
run_capacity = 16

abbrev pub event_capacity : ℕ
event_capacity = 32

-- The name of a status in the source.
abbrev pub status_text : Status → Text
status_text queued = codes "queued"
status_text running = codes "running"
status_text cancelling = codes "cancelling"
status_text completed = codes "completed"
status_text failed = codes "failed"
status_text cancelled = codes "cancelled"
status_text (other t) = t

-- `runEventType`
unfoldable pub run_event_type : Status → Text
unfolding is_empty
run_event_type s =
    if is_empty (status_text s) then codes "run.updated" else codes "run." ++ status_text s

module _ {ℓ} {A : Type ℓ} where
  -- A send that does not wait: what finds no room is dropped.
  unfoldable pub try_send : ℕ → A → List A → List A
  try_send capacity x buffer = if ltb (length buffer) capacity then buffer ++ x ∷ [] else buffer

  -- A message that ends its run takes the place of the oldest one when there is no room.
  unfoldable pub send : ℕ → Bool → A → List A → List A
  unfolding try_send
  send capacity last x buffer =
      if ltb (length buffer) capacity
      then buffer ++ x ∷ []
      else if last
      then try_send capacity x (drop 1 buffer)
      else buffer

  -- One delivery to each channel of the run.
  unfoldable pub send_all : (List A → List A) → Text → List (Subscription A) → List (Subscription A)
  unfolding text_eq
  send_all deliver id [] = []
  send_all deliver id (s ∷ ss) =
      (if text_eq s.run_id id then record s { buffer = deliver s.buffer } else s)
      ∷ send_all deliver id ss

  -- `unsubscribe`
  unfoldable pub remove_channel : ℕ → List (Subscription A) → List (Subscription A)
  remove_channel c [] = []
  remove_channel c (s ∷ ss) =
      let rest = remove_channel c ss in if s.channel == c then rest else s ∷ rest

-- `publishRunToChannel`
unfoldable pub publish_run_to_channel : Run → List Run → List Run
unfolding send is_terminal clone_run
publish_run_to_channel r = send run_capacity (is_terminal r.status) (clone_run r)

unfoldable pub clone_event : RunEvent → RunEvent
unfolding clone_run
clone_event e = record e { run = clone_run e.run }

-- `publishEventToChannel`
unfoldable pub publish_event_to_channel : RunEvent → List RunEvent → List RunEvent
unfolding send is_terminal clone_event
publish_event_to_channel e = send event_capacity (is_terminal e.run.status) (clone_event e)

-- `Subscribe`, with the channel that it makes
unfoldable pub subscribe : Text → ℕ → EventBus → EventBus
subscribe id c bus = record bus {
  subscribers = record { run_id = id; channel = c; buffer = [] } ∷ bus.subscribers;
}

-- `SubscribeEvents`
unfoldable pub subscribe_events : Text → ℕ → EventBus → EventBus
subscribe_events id c bus = record bus {
  event_subscribers = record { run_id = id; channel = c; buffer = [] } ∷ bus.event_subscribers;
}

-- `PublishEvent`
unfoldable pub publish_event : RunEvent → EventBus → EventBus
unfolding send_all is_empty publish_event_to_channel
publish_event e bus = if is_empty e.run.id then bus else record bus {
  event_subscribers = send_all (publish_event_to_channel e) e.run.id bus.event_subscribers;
}

-- The event of a run's change.
abbrev pub change_event : Run → RunEvent
change_event r = record {
  seq = 0;
  at = 0;
  kind = run_event_type r.status;
  tool = [];
  message = [];
  error = [];
  payload = [];
  run = r;
}

-- `Publish`
unfoldable pub publish : Run → EventBus → EventBus
unfolding publish_event send_all is_empty publish_run_to_channel
publish r bus =
    if is_empty r.id
    then bus
    else publish_event (change_event r)
        (record bus { subscribers = send_all (publish_run_to_channel r) r.id bus.subscribers })
