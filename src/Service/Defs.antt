-- ===== src/Service/Defs.antt =====
-- The data and the functions of src/service.c. `sha256` of src/sha256.c is a parameter.
pub mod State
pub mod Publish
pub mod Announce
pub use State.{
  ServiceType, is_published, publish_unsolicited, publish_solicited, publish_both,
  subscribe_passive, subscribe_active, Service, ServiceState, equal, published, subscribed,
}
unfoldable pub use State.{
  init, find_service, get_by_service_id, get_by_instance_id, get_by_name, modify, modify_service,
}
pub use Publish.{to_lower, same, found_status}
unfoldable pub use Publish.{
  service_id_create, new, publish, subscribe, update_publish, cancel_publish, cancel_subscribe,
}
pub use Announce.{is_zero, ServiceDescriptor, service_control_type}
unfoldable pub use Announce.{
  should_announce, get_services_to_announce, announced_once, update_announced_services,
  updated_replied_service, handle_received_service_discovery,
}
