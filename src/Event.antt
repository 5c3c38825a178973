-- ===== src/Event.antt =====
-- The events of src/event.c and src/event.h. A string is its characters before the NUL; a listener
-- is the address of a function, and each call of one is recorded in order.
pub mod Dispatch
mod Tests
use opennan.Prelude.{
  ℕ, suc, ◌≡◌, Bool, true, false, ◌&&◌, Option, none, some, List, [], ◌∷◌, ◌++◌, ◌==◌,
  if◌then◌else◌,
}
use opennan.LinkedList.{list_init, list_add, list_remove_if, list_filter_for_each}
use opennan.Utils.{EtherAddr}

-- `struct nan_event_discovery_result` and `struct nan_event_receive`.
pub record DiscoveryResult : Type 0 where
  pub subscribe_id : ℕ
  pub service_specific_info : Option (List ℕ)
  pub service_specific_info_length : ℕ
  pub service_update_indicator : ℕ
  pub publish_id : ℕ
  pub address : EtherAddr

pub record Receive : Type 0 where
  pub instance_id : ℕ
  pub peer_instance_id : ℕ
  pub service_specific_info : Option (List ℕ)
  pub service_specific_info_length : ℕ
  pub address : EtherAddr

-- The event and its data in one; nothing dispatches the other three.
pub data Event : Type 0 where
  discovery_result : DiscoveryResult → Event
  receive : Receive → Event

-- `enum nan_event_type`.
pub data EventType : Type 0 where
  type_discovery_result type_replied type_publish_terminated type_subscribe_terminated : EventType
  type_receive : EventType

abbrev pub event_type : Event → EventType
event_type (discovery_result d) = type_discovery_result
event_type (receive r) = type_receive

abbrev pub event_code : EventType → ℕ
event_code type_discovery_result = 0
event_code type_replied = 1
event_code type_publish_terminated = 2
event_code type_subscribe_terminated = 3
event_code type_receive = 4

-- `struct nan_event_listeners_item`.
pub record Listener : Type 0 where
  pub ref : ℕ
  pub event : EventType
  pub service_name : Option (List ℕ)
  pub listener : ℕ
  pub additional_data : ℕ

pub record EventState : Type 0 where
  pub listeners : List Listener

-- A call of a listener.
pub record Call : Type 0 where
  pub function : ℕ
  pub event : Event
  pub argument : ℕ

unfoldable pub init : EventState
unfolding list_init
init = record { listeners = list_init }

unfoldable pub add_listener : EventState → ℕ → EventType → Option (List ℕ) → ℕ → ℕ → EventState
unfolding list_add
add_listener s ref event service_name listener additional_data = record s {
  listeners = list_add s.listeners (record {
    ref = ref;
    event = event;
    service_name = service_name;
    listener = listener;
    additional_data = additional_data;
  });
}

unfoldable pub remove_listener : EventState → ℕ → EventState
unfolding list_remove_if
remove_listener s listener = record s {
  listeners =
      (list_remove_if (λ a b. b.ref == a.ref) (λ item. item.listener == listener) s.listeners).1;
}

-- Whether `text` begins with `needle`.
unfoldable pub starts_with : List ℕ → List ℕ → Bool
starts_with text [] = true
starts_with [] (c ∷ needle) = false
starts_with (d ∷ text) (c ∷ needle) = d == c && starts_with text needle

-- `strstr`: how far into `text` the first occurrence of `needle` is, if there is one.
unfoldable pub strstr : List ℕ → List ℕ → Option ℕ
unfolding starts_with
strstr [] needle = if starts_with [] needle then some 0 else none
strstr (c ∷ text) needle =
    let later = elim (strstr text needle) as (λ o. Option ℕ) [
      | none ↦ none
      | some n ↦ some (suc n)
    ] in
    if starts_with (c ∷ text) needle then some 0 else later

abbrev pub is_at_start : Option ℕ → Bool
is_at_start none = false
is_at_start (some n) = n == 0

unfoldable pub matches_event : Listener → EventType → List ℕ → Bool
matches_event item event service_name =
    if event_code item.event == event_code event
    then elim item.service_name as (λ o. Bool) [
      | none ↦ true
      | some name ↦ is_at_start (strstr service_name name)
    ]
    else false

unfoldable pub dispatch : EventState → Event → List ℕ → List Call
unfolding list_filter_for_each matches_event
dispatch s event service_name =
    list_filter_for_each (λ item. matches_event item (event_type event) service_name)
      (λ calls item.
        calls
        ++ record { function = item.listener; event = event; argument = item.additional_data } ∷ [])
      [] s.listeners
