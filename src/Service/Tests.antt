-- ===== src/Service/Tests.antt =====
-- A state with two services, and the theorems at it.
use opennan.Prelude.{ℕ, ◌≡◌, true, none, [], ◌∷◌, ◌++◌, map, arith}
use opennan.Prelude.Int.{ℤ, pos, negsuc}
use opennan.Service.Defs.{
  get_services_to_announce, Service, ServiceState, ServiceType, published, subscribed,
}
use opennan.Service.Announce.{turns, aged}
use opennan.Service.Rounds.{turn_refs, frames, frames_lem}

abbrev service : ℕ → ServiceType → ℤ → Service
service ref type time_to_live = record {
  ref = ref;
  service_name = [];
  type = type;
  instance_id = ref;
  service_id = [];
  service_specific_info = none;
  service_specific_info_length = 0;
  service_update_indicator = 0;
  time_to_live = time_to_live;
  parameter_type = 1;
  flag = true;
}

abbrev active : ℤ → Service
active time_to_live = record (service 3 published time_to_live) { parameter_type = 0 }

abbrev state : ServiceState
state = record {
  published_services = service 1 published (pos 4) ∷ active (negsuc 0) ∷ [];
  subscribed_services = service 2 subscribed (pos 2) ∷ [];
  last_instance_id = 3;
}

frames_lem_example :
    (frames 6 state ≡ record state {
      published_services = map (λ x. aged (turns 6 x) x) state.published_services;
      subscribed_services = map (λ x. aged (turns 6 x) x) state.subscribed_services;
    })
    × (get_services_to_announce (frames 6 state) []
        ≡ turn_refs 6 state.published_services ++ turn_refs 6 state.subscribed_services)
frames_lem_example = frames_lem 6 state (record {
  published_once = ((omega arith, tt), (tt, tt));
  subscribed_once = (tt, tt);
  apart = ((omega arith, tt), ((omega arith, tt), tt));
})
