-- ===== src/Gateway/Events/Delivery.antt =====
-- What a subscriber of gateway/event_bus.go can count on.
use kkode.Prelude.{
  ℕ, ◌≤◌, Bool, true, false, List, [], ◌∷◌, ◌++◌, ltb, length, drop, ◌≡◌, refl, arith, Bool-cases,
  inl, inr, All, length-append, length-drop,
}
use kkode.Strings.{Text, is_empty, text_eq}
use kkode.Gateway.Runs.{Run, is_terminal, clone_run}
use kkode.Gateway.Events.{
  RunEvent, publish_run_to_channel, publish_event_to_channel, Subscription, EventBus, run_capacity,
  event_capacity, try_send, send, send_all, clone_event, publish_event, change_event, publish,
}

module _ {ℓ} {A : Type ℓ} where
  pub send-bound :
      (capacity : ℕ) (last : Bool) (x : A) (buffer : List A)
      → length buffer ≤ capacity
      → length (send capacity last x buffer) ≤ capacity
  unfolding send try_send
  send-bound capacity last x buffer h =
      grind (arith, length-append buffer (x ∷ []), length-append (drop 1 buffer) (x ∷ []))

  -- The buffer ends with the message.
  abbrev pub EndsWith : A → List A → Type ℓ
  EndsWith x buffer = (rest : List A) × (buffer ≡ rest ++ x ∷ [])

  pub send-EndsWith :
      (capacity : ℕ) (x : A) (buffer : List A)
      → 1 ≤ capacity
      → length buffer ≤ capacity
      → EndsWith x (send capacity true x buffer)
  unfolding send try_send
  send-EndsWith capacity x buffer k h = elim (Bool-cases (ltb (length buffer) capacity)) [
    | inl e ↦ rw e (buffer, refl)
    | inr e ↦ rw e (rw (room e) (drop 1 buffer, refl))
  ]
    where
      room : ltb (length buffer) capacity ≡ false → ltb (length (drop 1 buffer)) capacity ≡ true
      room e = grind (arith, length-drop 1 buffer)

  abbrev pub IsWithin : ℕ → Subscription A → Type 0
  IsWithin capacity s = length s.buffer ≤ capacity

  pub send_all-bound :
      (capacity : ℕ) (deliver : List A → List A) (id : Text) (ss : List (Subscription A))
      → ((b : List A) → length b ≤ capacity → length (deliver b) ≤ capacity)
      → All (IsWithin capacity) ss
      → All (IsWithin capacity) (send_all deliver id ss)
  unfolding send_all
  send_all-bound capacity deliver id [] k h = tt
  send_all-bound capacity deliver id (s ∷ ss) k h = elim (Bool-cases (text_eq s.run_id id)) [
    | inl e ↦ rw e (k s.buffer h.0, send_all-bound capacity deliver id ss k h.1)
    | inr e ↦ rw e (h.0, send_all-bound capacity deliver id ss k h.1)
  ]

  -- Each channel of the run ends with the message.
  abbrev pub IsTold : Text → A → Subscription A → Type ℓ
  IsTold id x s = text_eq s.run_id id ≡ true → EndsWith x s.buffer

  pub send_all-IsTold :
      (capacity : ℕ) (deliver : List A → List A) (id : Text) (x : A) (ss : List (Subscription A))
      → ((b : List A) → length b ≤ capacity → EndsWith x (deliver b))
      → All (IsWithin capacity) ss
      → All (IsTold id x) (send_all deliver id ss)
  unfolding send_all
  send_all-IsTold capacity deliver id x [] k h = tt
  send_all-IsTold capacity deliver id x (s ∷ ss) k h = elim (Bool-cases (text_eq s.run_id id)) [
    | inl e ↦ rw e (λ _. k s.buffer h.0, send_all-IsTold capacity deliver id x ss k h.1)
    | inr e ↦ rw e (λ q. absurd (clash e q), send_all-IsTold capacity deliver id x ss k h.1)
  ]
    where
      clash : {b : Bool} → b ≡ false → b ≡ true → ⊥
      clash e q = cc

publish_run-bound :
    (r : Run) (b : List Run)
    → length b ≤ run_capacity
    → length (publish_run_to_channel r b) ≤ run_capacity
unfolding publish_run_to_channel
publish_run-bound r b h = send-bound run_capacity (is_terminal r.status) (clone_run r) b h

publish_event-bound :
    (e : RunEvent) (b : List RunEvent)
    → length b ≤ event_capacity
    → length (publish_event_to_channel e b) ≤ event_capacity
unfolding publish_event_to_channel
publish_event-bound e b h = send-bound event_capacity (is_terminal e.run.status) (clone_event e) b h

publish_run-EndsWith :
    (r : Run) (b : List Run)
    → is_terminal r.status ≡ true
    → length b ≤ run_capacity
    → EndsWith (clone_run r) (publish_run_to_channel r b)
unfolding publish_run_to_channel
publish_run-EndsWith r b t h = rw t (send-EndsWith run_capacity (clone_run r) b (omega arith) h)

publish_event-EndsWith :
    (e : RunEvent) (b : List RunEvent)
    → is_terminal e.run.status ≡ true
    → length b ≤ event_capacity
    → EndsWith (clone_event e) (publish_event_to_channel e b)
unfolding publish_event_to_channel
publish_event-EndsWith e b t h =
    rw t (send-EndsWith event_capacity (clone_event e) b (omega arith) h)

-- No channel of the bus holds more than it was made for.
pub record IsBounded (bus : EventBus) : Type 0 where
  pub runs_fit : All (IsWithin run_capacity) bus.subscribers
  pub events_fit : All (IsWithin event_capacity) bus.event_subscribers

-- Publishing a run never puts more into a channel than its buffer takes.
pub publish-IsBounded : (r : Run) (bus : EventBus) → IsBounded bus → IsBounded (publish r bus)
unfolding publish publish_event
publish-IsBounded r bus h = elim (Bool-cases (is_empty r.id)) [
  | inl e ↦ rw e h
  | inr e ↦ rw e (record {
    runs_fit = send_all-bound run_capacity _ r.id bus.subscribers (publish_run-bound r) h.runs_fit;
    events_fit =
        send_all-bound event_capacity _ r.id bus.event_subscribers
          (publish_event-bound (change_event r)) h.events_fit;
  })
]

-- When a run that is over is published, every channel that follows it holds that run, or the event
-- of it, as its last message, however full the channel was. The run has an id, and the channels
-- hold no more than they were made for.
pub publish-IsTold :
    (r : Run) (bus : EventBus)
    → is_empty r.id ≡ false
    → is_terminal r.status ≡ true
    → IsBounded bus
    → All (IsTold r.id (clone_run r)) (publish r bus).subscribers
      × All (IsTold r.id (clone_event (change_event r))) (publish r bus).event_subscribers
unfolding publish publish_event
publish-IsTold r bus e t h = rw e (
  send_all-IsTold run_capacity _ r.id (clone_run r) bus.subscribers
      (λ b k. publish_run-EndsWith r b t k) h.runs_fit,
  send_all-IsTold event_capacity _ r.id (clone_event (change_event r)) bus.event_subscribers
      (λ b k. publish_event-EndsWith (change_event r) b t k) h.events_fit,
)
