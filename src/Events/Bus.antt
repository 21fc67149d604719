-- ===== src/Events/Bus.antt =====
-- events/event_bus.py, over any state `W` that handlers change. A handler that raises has made what
-- changes it made before.
use teleautomation_messaging.Prelude.{
  ◌≡◌, ◌≢◌, refl, String, Bool, true, false, Option, none, some, List, [], ◌∷◌, ◌++◌, Dict, lookup,
  insert, lookup-insert, str_eq, if◌then◌else◌, eq_iff, sym, Bool-cases, inl, inr,
}
use mathlib.Core.List.{append_assoc}
use teleautomation_messaging.Events.Types.{
  EventType, SubscriberChannel, ui, crm, logs, metrics, EventData,
}

-- The state after the handler, and whether it raised.
abbrev pub Handler : Type 0 → Type 0
Handler W = String → EventType → EventData → W → W × Bool

pub record EventBus (W : Type 0) : Type 0 where
  pub channels : List (SubscriberChannel × List (Handler W))
  pub account_handlers : Dict (List (Handler W))
  pub on_state_push : Option (W → W × Bool)
  pub broadcast : EventType → String → EventData → W → W

abbrev same_channel : SubscriberChannel → SubscriberChannel → Bool
same_channel ui ui = true
same_channel crm crm = true
same_channel logs logs = true
same_channel metrics metrics = true
same_channel _ _ = false

module _ {W : Type 0} where
  -- `self._channels[channel].append(handler)` on a `defaultdict(list)`
  add_to_channel :
      SubscriberChannel
      → Handler W
      → List (SubscriberChannel × List (Handler W))
      → List (SubscriberChannel × List (Handler W))
  add_to_channel c h [] = (c, h ∷ []) ∷ []
  add_to_channel c h ((d, hs) ∷ rest) =
      if same_channel d c then (d, hs ++ h ∷ []) ∷ rest else (d, hs) ∷ add_to_channel c h rest

  abbrev or_none : Option (List (Handler W)) → List (Handler W)
  or_none none = []
  or_none (some hs) = hs

  subscribe_channel : Handler W → Option SubscriberChannel → EventBus W → EventBus W
  subscribe_channel h none bus = bus
  subscribe_channel h (some c) bus = record bus { channels = add_to_channel c h bus.channels }

  subscribe_account : Handler W → Option String → EventBus W → EventBus W
  subscribe_account h none bus = bus
  subscribe_account h (some id) bus = if str_eq id "" then bus else record bus {
    account_handlers =
        insert id (or_none (lookup id bus.account_handlers) ++ h ∷ []) bus.account_handlers;
  }

  unfoldable pub subscribe :
      Handler W → Option SubscriberChannel → Option String → EventBus W → EventBus W
  unfolding subscribe_channel subscribe_account add_to_channel
  subscribe h channel account_id bus =
      subscribe_account h account_id (subscribe_channel h channel bus)

  unfoldable pub set_state_push : (W → W × Bool) → EventBus W → EventBus W
  set_state_push cb bus = record bus { on_state_push = some cb }

  unfoldable pub all_channel_handlers :
      List (SubscriberChannel × List (Handler W)) → List (Handler W)
  all_channel_handlers [] = []
  all_channel_handlers ((c, hs) ∷ rest) = hs ++ all_channel_handlers rest

  unfoldable pub handlers_for : EventBus W → String → List (Handler W)
  handlers_for bus id =
      all_channel_handlers bus.channels ++ or_none (lookup id bus.account_handlers)

  -- `gather` over `_safe`: every handler runs, and whether one raised is dropped.
  unfoldable pub run_handlers : List (Handler W) → String → EventType → EventData → W → W
  run_handlers [] id event info w = w
  run_handlers (h ∷ hs) id event info w = run_handlers hs id event info (h id event info w).0

  abbrev push_state_with : Option (W → W × Bool) → W → W
  push_state_with none w = w
  push_state_with (some cb) w = (cb w).0

  unfoldable pub publish :
      EventBus W → EventType → String → EventData → (push_state broadcast_ws : Bool) → W → W
  publish bus event id info push_state broadcast_ws w =
      let w₁ = if broadcast_ws then bus.broadcast event id info w else w in
      let w₂ = run_handlers (handlers_for bus id) id event info w₁ in
      if push_state then push_state_with bus.on_state_push w₂ else w₂

  run_handlers-append :
      (hs ks : List (Handler W)) (id : String) (event : EventType) (info : EventData) (w : W)
      → run_handlers (hs ++ ks) id event info w
        ≡ run_handlers ks id event info (run_handlers hs id event info w)
  unfolding run_handlers
  run_handlers-append [] ks id event info w = refl
  run_handlers-append (h ∷ hs) ks id event info w =
      run_handlers-append hs ks id event info (h id event info w).0

  account_bus : EventBus W → Handler W → String → EventBus W
  account_bus bus h a = record bus {
    account_handlers =
        insert a (or_none (lookup a bus.account_handlers) ++ h ∷ []) bus.account_handlers;
  }

  subscribe-account_bus :
      (bus : EventBus W) (h : Handler W) (a : String)
      → a ≢ ""
      → subscribe h none (some a) bus ≡ account_bus bus h a
  unfolding subscribe account_bus
  subscribe-account_bus bus h a ne = elim (Bool-cases (str_eq a "")) [
    | inl e ↦ absurd (ne ((eq_iff _ _).0 e))
    | inr e ↦ rw e
  ]

  handlers_for-account_bus :
      (bus : EventBus W) (h : Handler W) (a id : String)
      → handlers_for (account_bus bus h a) id
        ≡ (if str_eq a id then handlers_for bus id ++ h ∷ [] else handlers_for bus id)
  unfolding handlers_for account_bus
  handlers_for-account_bus bus h a id = elim (Bool-cases (str_eq a id)) [
    | inl same ↦
        let e : a ≡ id = (eq_iff _ _).0 same in
        rw (lookup-insert a id, same)
          (rw e (sym (append_assoc (all_channel_handlers bus.channels) _ (h ∷ []))))
    | inr other ↦ rw (lookup-insert a id, other) refl
  ]

  -- A handler that subscribes to one account runs last on each event of that account, and never on an
  -- event of another account.
  pub publish-subscribe_account :
      (bus : EventBus W) (h : Handler W) (a id : String) (event : EventType) (info : EventData)
      (broadcast_ws : Bool) (w : W)
      → a ≢ ""
      → publish (subscribe h none (some a) bus) event id info false broadcast_ws w ≡ (
          if str_eq a id
          then (h id event info (publish bus event id info false broadcast_ws w)).0
          else publish bus event id info false broadcast_ws w)
  unfolding publish
  publish-subscribe_account bus h a id event info broadcast_ws w ne =
      rw (subscribe-account_bus bus h a ne, handlers_for-account_bus bus h a id)
        elim (Bool-cases (str_eq a id)) [
          | inl same ↦ rw same (
              unfold account_bus run_handlers in
              run_handlers-append (handlers_for bus id) (h ∷ []) id event info _)
          | inr other ↦ rw other (unfold account_bus in refl)
        ]
