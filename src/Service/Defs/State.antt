-- ===== src/Service/Defs/State.antt =====
-- The state of src/service.c, the functions that look a service up, and a write to a service.
use opennan.Prelude.{
  ℕ, Bool, true, false, ◌&&◌, Option, none, some, List, [], ◌∷◌, ◌==◌, if◌then◌else◌,
}
use opennan.Prelude.Int.{ℤ}
use opennan.LinkedList.{list_init, list_find}

-- `enum nan_service_type`; a function that takes `type` or -1 takes an option.
pub data ServiceType : Type 0 where
  published subscribed : ServiceType

abbrev pub is_published : ServiceType → Bool
is_published published = true
is_published subscribed = false

-- The values of `enum nan_publish_type` and of `enum nan_subscribe_type`.
abbrev pub publish_unsolicited : ℕ
publish_unsolicited = 0

abbrev pub publish_solicited : ℕ
publish_solicited = 1

abbrev pub publish_both : ℕ
publish_both = 2

abbrev pub subscribe_passive : ℕ
subscribe_passive = 0

abbrev pub subscribe_active : ℕ
subscribe_active = 1

-- `struct nan_service`. Both structs of the union have an enum and then a `bool`: `flag` is
-- `do_publish` of a published service and `is_subscribed` of a subscribed one.
pub record Service : Type 0 where
  pub ref : ℕ
  pub service_name : List ℕ
  pub type : ServiceType
  pub instance_id : ℕ
  pub service_id : List ℕ
  pub service_specific_info : Option (List ℕ)
  pub service_specific_info_length : ℕ
  pub service_update_indicator : ℕ
  pub time_to_live : ℤ
  pub parameter_type : ℕ
  pub flag : Bool

-- `struct nan_service_state`.
pub record ServiceState : Type 0 where
  pub published_services : List Service
  pub subscribed_services : List Service
  pub last_instance_id : ℕ

unfoldable pub init : ServiceState
unfolding list_init
init = record {
  published_services = list_init;
  subscribed_services = list_init;
  last_instance_id = 0;
}

-- `memcmp` or `strcmp` of two sequences.
abbrev pub equal : List ℕ → List ℕ → Bool
equal [] [] = true
equal [] (y ∷ ys) = false
equal (x ∷ xs) [] = false
equal (x ∷ xs) (y ∷ ys) = x == y && equal xs ys

-- The search that the three functions `nan_get_service_by_…` share: in the subscribed services, and
-- then, for -1 only if nothing was found, in the published ones.
unfoldable pub find_service : ServiceState → (Service → Bool) → Option ServiceType → Option Service
unfolding list_find
find_service s condition (some subscribed) = list_find condition s.subscribed_services
find_service s condition (some published) = list_find condition s.published_services
find_service s condition none = elim (list_find condition s.subscribed_services) [
  | some service ↦ some service
  | none ↦ list_find condition s.published_services
]

unfoldable pub get_by_service_id : ServiceState → List ℕ → Option ServiceType → Option Service
unfolding find_service
get_by_service_id s service_id type = find_service s (λ x. equal service_id x.service_id) type

unfoldable pub get_by_instance_id : ServiceState → ℕ → Option ServiceType → Option Service
unfolding find_service
get_by_instance_id s instance_id type = find_service s (λ x. x.instance_id == instance_id) type

unfoldable pub get_by_name : ServiceState → List ℕ → Option ServiceType → Option Service
unfolding find_service
get_by_name s name type = find_service s (λ x. equal name x.service_name) type

-- A write through the pointer `ref` is seen in both lists.
unfoldable pub modify : ℕ → (Service → Service) → List Service → List Service
modify ref f [] = []
modify ref f (x ∷ xs) = (if x.ref == ref then f x else x) ∷ modify ref f xs

unfoldable pub modify_service : ServiceState → ℕ → (Service → Service) → ServiceState
unfolding modify
modify_service s ref f = record s {
  published_services = modify ref f s.published_services;
  subscribed_services = modify ref f s.subscribed_services;
}
