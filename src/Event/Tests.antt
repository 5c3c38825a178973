-- ===== src/Event/Tests.antt =====
-- `nan_dispatch_event` with three listeners.
use opennan.Prelude.{ℕ, ◌*◌, ◌≡◌, Option, none, some, List, [], ◌∷◌, map, keep}
use opennan.Event.{
  Listener, EventState, EventType, Event, dispatch, type_receive, type_discovery_result,
}
use opennan.Event.Dispatch.{call_of, is_called, dispatch_lem}

abbrev listener : ℕ → EventType → Option (List ℕ) → Listener
listener ref event service_name = record {
  ref = ref;
  event = event;
  service_name = service_name;
  listener = 100 * ref;
  additional_data = 7;
}

abbrev listeners : EventState
listeners = record {
  listeners =
      listener 1 type_receive none
      ∷ listener 2 type_discovery_result none
      ∷ listener 3 type_receive (some (104 ∷ 105 ∷ []))
      ∷ [];
}

abbrev received : Event
received = Event.receive (record {
  instance_id = 1;
  peer_instance_id = 2;
  service_specific_info = none;
  service_specific_info_length = 0;
  address = record { octet0 = 2; octet1 = 0; octet2 = 0; octet3 = 0; octet4 = 0; octet5 = 9 };
})

dispatch_lem_example :
    dispatch listeners received (104 ∷ 105 ∷ 33 ∷ [])
    ≡ map (call_of received) (keep (is_called received (104 ∷ 105 ∷ 33 ∷ [])) listeners.listeners)
dispatch_lem_example = dispatch_lem listeners received (104 ∷ 105 ∷ 33 ∷ [])
