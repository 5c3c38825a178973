-- ===== src/Service/Defs/Announce.antt =====
-- The announcement of services, and what is received, of src/service.c and src/service.h.
use opennan.Prelude.{
  ℕ, ◌+◌, ◌%◌, ◌^◌, Bool, true, false, not, ◌&&◌, Option, none, some, List, [], ◌==◌, if◌then◌else◌,
}
use opennan.Prelude.Int.{ℤ, pos, ◌-ℤ◌, ltb_ℤ, pos_part, neg_part}
use opennan.Utils.{EtherAddr, ether_addr_equal}
use opennan.LinkedList.{list_add, list_for_each, list_filter_for_each}
use opennan.Event
use opennan.Event.{EventState, Call, dispatch}
use opennan.Service.Defs.State.{
  is_published, publish_solicited, subscribe_passive, Service, ServiceState, published, subscribed,
  get_by_service_id, modify_service,
}

abbrev pub is_zero : ℤ → Bool
is_zero z = pos_part z + neg_part z == 0

unfoldable pub should_announce : Service → Bool
should_announce x =
    if is_published x.type
    then if is_zero x.time_to_live
      then false
      else if x.parameter_type == publish_solicited && not x.flag
      then false
      else true
    else if x.parameter_type == subscribe_passive
    then false
    else if x.flag
    then false
    else if is_zero x.time_to_live
    then false
    else true

-- `nan_get_services_to_announce`: the addresses that it adds to `announced`.
unfoldable pub get_services_to_announce : ServiceState → List ℕ → List ℕ
unfolding list_add list_filter_for_each should_announce
get_services_to_announce s announced =
    let add_ref : List ℕ → Service → List ℕ = λ refs x. list_add refs x.ref in
    list_filter_for_each should_announce add_ref
      (list_filter_for_each should_announce add_ref announced s.published_services)
      s.subscribed_services

-- The body of the loop of `nan_update_announced_services`.
unfoldable pub announced_once : Service → Service
announced_once x =
    let counted =
      if ltb_ℤ (pos 0) x.time_to_live
      then record x { time_to_live = x.time_to_live -ℤ pos 1 }
      else x in
    if is_published x.type then record counted { flag = false } else counted

unfoldable pub update_announced_services : ServiceState → List ℕ → ServiceState
unfolding list_for_each modify_service announced_once
update_announced_services s announced =
    list_for_each (λ s' ref. modify_service s' ref announced_once) s announced

-- `nan_updated_replied_service`
unfoldable pub updated_replied_service : Service → Service
updated_replied_service x = record x { flag = true }

-- `struct nan_service_descriptor_attribute`; `control` is the octet of its bit fields.
pub record ServiceDescriptor : Type 0 where
  pub service_id : List ℕ
  pub instance_id : ℕ
  pub requestor_instance_id : ℕ
  pub control : ℕ
  pub service_info : Option (List ℕ)
  pub service_info_length : ℕ

abbrev pub service_control_type : ServiceDescriptor → ℕ
service_control_type d = d.control % 2 ^ 2

unfoldable pub handle_received_service_discovery :
    ServiceState
    → EventState
    → EtherAddr
    → EtherAddr
    → EtherAddr
    → ServiceDescriptor
    → List Call × ServiceState
unfolding modify_service dispatch get_by_service_id
handle_received_service_discovery s events self source destination d =
    if service_control_type d == 0
    then elim (get_by_service_id s d.service_id (some subscribed)) [
      | none ↦ ([], s)
      | some service ↦ (
        dispatch events
            (Event.discovery_result (record {
              subscribe_id = service.instance_id;
              service_specific_info = d.service_info;
              service_specific_info_length = d.service_info_length;
              service_update_indicator = service.service_update_indicator;
              publish_id = d.instance_id;
              address = source;
            }))
            service.service_name,
        s,
      )
    ]
    else if service_control_type d == 1
    then elim (get_by_service_id s d.service_id (some published)) [
      | none ↦ ([], s)
      | some service ↦ ([], modify_service s service.ref (λ x. record x { flag = true }))
    ]
    else if service_control_type d == 2
    then if not (ether_addr_equal self destination)
      then ([], s)
      else elim (get_by_service_id s d.service_id none) [
        | none ↦ ([], s)
        | some service ↦ (
          dispatch events
              (Event.receive (record {
                instance_id = service.instance_id;
                peer_instance_id = d.instance_id;
                service_specific_info = d.service_info;
                service_specific_info_length = d.service_info_length;
                address = source;
              }))
              service.service_name,
          s,
        )
      ]
    else ([], s)
