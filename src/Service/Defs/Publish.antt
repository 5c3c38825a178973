-- ===== src/Service/Defs/Publish.antt =====
-- The functions of src/service.c that add, update and cancel services.
use opennan.Prelude.{
  ℕ, ◌+◌, Bool, false, ◌&&◌, Option, none, some, List, map, take, ltb, leb, ◌==◌, if◌then◌else◌,
}
use opennan.Prelude.Int.{ℤ, pos, minus_one}
use opennan.Utils.{increase_non_zero_id}
use opennan.LinkedList.{list_add, list_find, list_remove_if}
use opennan.Service.Defs.State.{Service, ServiceState, published, subscribed, modify_service}

-- `tolower` in the C locale.
abbrev pub to_lower : ℕ → ℕ
to_lower c = if leb 65 c && leb c 90 then c + 32 else c

module _ (sha256 : List ℕ → List ℕ) where
  unfoldable pub service_id_create : List ℕ → List ℕ
  service_id_create service_name = take 6 (sha256 (map to_lower service_name))

  -- `raw` is the block that `malloc` returned; `service_update_indicator` keeps what was in it. A
  -- NULL info is `none`.
  unfoldable pub new :
      ServiceState → Service → List ℕ → ℤ → Option (List ℕ) → ℕ → Service × ServiceState
  unfolding service_id_create
  new s raw service_name time_to_live info info_length =
      let id = increase_non_zero_id s.last_instance_id in
      let bare = record raw {
        time_to_live = time_to_live;
        instance_id = id;
        service_name = service_name;
        service_id = service_id_create service_name;
        service_specific_info = none;
        service_specific_info_length = 0;
      } in
      let filled = elim info as (λ o. Service) [
        | none ↦ bare
        | some bytes ↦
            if ltb 0 info_length
            then record bare {
              service_specific_info = some (take info_length bytes);
              service_specific_info_length = info_length;
            }
            else bare
      ] in
      (filled, record s { last_instance_id = id })

  unfoldable pub publish :
      ServiceState → Service → List ℕ → ℕ → ℤ → Option (List ℕ) → ℕ → ℕ × ServiceState
  unfolding list_add new
  publish s raw service_name type time_to_live info info_length =
      let (service, s') = new s raw service_name time_to_live info info_length in
      let ready = record service { type = published; parameter_type = type; flag = false } in
      (ready.instance_id, record s' { published_services = list_add s'.published_services ready })

  unfoldable pub subscribe :
      ServiceState → Service → List ℕ → ℕ → ℤ → Option (List ℕ) → ℕ → ℕ × ServiceState
  unfolding list_add new
  subscribe s raw service_name type time_to_live info info_length =
      let (service, s') = new s raw service_name time_to_live info info_length in
      let ready = record service { type = subscribed; parameter_type = type; flag = false } in
      (ready.instance_id, record s' { subscribed_services = list_add s'.subscribed_services ready })

-- The length stays as it was.
unfoldable pub update_publish : ServiceState → ℕ → List ℕ → ℕ → ℤ × ServiceState
unfolding list_find modify_service
update_publish s publish_id info info_length =
    elim (list_find (λ x. x.instance_id == publish_id) s.published_services) [
      | none ↦ (minus_one, s)
      | some service ↦ (
        pos 0,
        modify_service s service.ref
            (λ x. record x { service_specific_info = some (take info_length info) }),
      )
    ]

abbrev pub same : Service → Service → Bool
same a b = b.ref == a.ref

abbrev pub found_status : Option Service → ℤ
found_status none = minus_one
found_status (some service) = pos 0

unfoldable pub cancel_publish : ServiceState → ℕ → ℤ × ServiceState
unfolding list_remove_if
cancel_publish s publish_id =
    let (found, rest) =
      list_remove_if same (λ x. x.instance_id == publish_id) s.published_services in
    (found_status found, record s { published_services = rest })

unfoldable pub cancel_subscribe : ServiceState → ℕ → ℤ × ServiceState
unfolding list_remove_if
cancel_subscribe s subscribe_id =
    let (found, rest) =
      list_remove_if same (λ x. x.instance_id == subscribe_id) s.subscribed_services in
    (found_status found, record s { subscribed_services = rest })
