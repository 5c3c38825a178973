-- ===== src/Cmd/Defs.antt =====
-- The handlers of daemon/cmd.c. Printing is recorded: what is printed, or that a command is refused
-- with a message. `null_pointer` is a use of NULL as a string, or a call of NULL.
use opennan.Prelude.{
  ℕ, ◌+◌, Bool, true, false, not, ◌&&◌, ◌||◌, Option, none, some, List, [], ◌^◌, length, ◌==◌,
  if◌then◌else◌,
}
use opennan.Prelude.Int.{ℤ, pos, minus_one, residue, ltb_ℤ, pos_part, neg_part}
use opennan.Utils.{ether_addr_to_string}
use opennan.LinkedList.{list_find}
use opennan.Event
use opennan.Event.{EventState, DiscoveryResult, Receive, strstr}
use opennan.Peer.{Peer, Callback}
use opennan.Peer.Defs as Peers
use opennan.Sync.Defs.{SyncState, update_master_rank}
use opennan.Service.Defs.{
  Service, ServiceState, equal, get_by_name, publish, subscribe, publish_both, subscribe_passive,
}
use opennan.State.{NanState}
use opennan.Cmd.Text.{codes, strtok, strtok_args, cut, atoi}

-- What a command shows.
pub data Output : Type 0 where
  help device sync peers : Output
  services : Bool → Bool → Output
  increased decreased : Output
  registered : ℕ → Output
  value_set : Output
  removed : Callback → Output
  refused nothing : Output

pub data Outcome : Type 0 where
  done : Output → NanState → Outcome
  null_pointer : Outcome

-- What surrounds the commands: `sha256`, the addresses of the two listeners and of the state, and
-- the blocks that `malloc` returns for a service and for a listener.
pub record Context : Type 0 where
  pub sha256 : List ℕ → List ℕ
  pub handle_event_receive : ℕ
  pub handle_event_discovery_result : ℕ
  pub state : ℕ
  pub service_block : Service
  pub listener_block : ℕ

-- `nan_cmd_print_services_info`: whether it prints the published and the subscribed services.
unfoldable pub print_services_info : Option (List ℕ) → Output
print_services_info none = services true true
print_services_info (some args) =
    services (not (equal args (codes "sub"))) (not (equal args (codes "pub")))

-- `nan_add_event_listener` with the state as its additional data.
abbrev pub listen : Context → NanState → Event.EventType → List ℕ → ℕ → NanState
listen c s event service_name listener = record s {
  events = Event.add_listener s.events c.listener_block event (some service_name) listener c.state;
}

abbrev pub is_registered : ServiceState → List ℕ → Bool
is_registered s name = elim (get_by_name s name none) [ none ↦ false | some x ↦ true ]

abbrev pub string_or_empty : Option (List ℕ) → List ℕ
string_or_empty none = []
string_or_empty (some text) = text

unfoldable pub publish_service : Context → NanState → Option (List ℕ) → Outcome
unfolding strtok_args strtok get_by_name publish Event.add_listener
publish_service c s args =
    let (service_name, rest) = strtok_args args in
    let info = string_or_empty (strtok rest).0 in
    elim service_name [
      | none ↦ null_pointer
      | some name ↦
          let (publish_id, services') =
            publish c.sha256 s.services c.service_block name publish_both minus_one (some info)
              (length info) in
          let listening =
            listen c (record s { services = services' }) Event.type_receive name
              c.handle_event_receive in
          if is_registered s.services name
          then done refused s
          else done (registered publish_id) listening
    ]

-- The name is looked up as `args`, which begins with the spaces that `strtok` passed over.
unfoldable pub subscribe_service : Context → NanState → Option (List ℕ) → Outcome
unfolding strtok cut get_by_name subscribe Event.add_listener
subscribe_service c s none = null_pointer
subscribe_service c s (some args) =
    let subscribed_to : Outcome = elim (strtok args).0 as (λ o. Outcome) [
      | none ↦ null_pointer
      | some name ↦
          let (subscribe_id, services') =
            subscribe c.sha256 s.services c.service_block name subscribe_passive minus_one none 0 in
          done (registered subscribe_id) (
            listen c (record s { services = services' }) Event.type_discovery_result name
              c.handle_event_discovery_result)
    ] in
    if is_registered s.services (cut args) then done refused s else subscribed_to

abbrev pub is_zero : ℤ → Bool
is_zero z = pos_part z + neg_part z == 0

unfoldable pub validate_number : List ℕ → Bool
unfolding atoi
validate_number value =
    not (is_zero (atoi value) && not (equal value []) && not (equal value (codes "0")))

unfoldable pub validate_number_range : List ℕ → ℤ → ℤ → Bool
unfolding validate_number atoi
validate_number_range value min max =
    if not (validate_number value)
    then false
    else not (ltb_ℤ (atoi value) min || ltb_ℤ max (atoi value))

-- `nan_update_master_rank` with the new preference or factor.
abbrev pub with_rank : NanState → SyncState → NanState
with_rank s sync' = record s { sync = (update_master_rank sync' (some s.interface_address)).1 }

unfoldable pub set_target : NanState → List ℕ → List ℕ → Outcome
unfolding validate_number_range atoi update_master_rank
set_target s target value =
    let number = residue (2 ^ 8) (atoi value) in
    let valid = validate_number_range value (pos 0) (pos 255) in
    if equal target (codes "rf")
    then if valid
      then done value_set (with_rank s (record s.sync { random_factor = number }))
      else done refused s
    else if equal target (codes "mp")
    then if valid
      then done value_set (with_rank s (record s.sync { master_preference = number }))
      else done refused s
    else done refused s

unfoldable pub set_value : NanState → Option (List ℕ) → Outcome
unfolding strtok_args strtok set_target
set_value s args =
    let (target, rest) = strtok_args args in
    elim target [
      | none ↦ done refused s
      | some t ↦ elim (strtok rest).0 as (λ o. Outcome) [
        | none ↦ done refused s
        | some value ↦ set_target s t value
      ]
    ]

abbrev pub is_found : Option ℕ → Bool
is_found none = false
is_found (some n) = true

unfoldable pub get_peer : NanState → List ℕ → Option Peer
unfolding list_find strstr ether_addr_to_string
get_peer s peer_address_arg =
    list_find (λ p. is_found (strstr (ether_addr_to_string p.addr) peer_address_arg)) s.peers.peers

-- `nan_cmd_peer_set_value` knows no field.
unfoldable pub peer_command : NanState → Peer → List ℕ → Outcome
unfolding Peers.remove
peer_command s peer cmd =
    if equal cmd (codes "set")
    then done refused s
    else if equal cmd (codes "rm")
    then elim (Peers.remove s.peers peer) as (λ o. Outcome) [
      | none ↦ null_pointer
      | some (call, peers') ↦ done (removed call) (record s { peers = peers' })
    ]
    else done refused s

-- The address is looked up as `args`, which begins with the spaces that `strtok` passed over.
unfoldable pub peer : NanState → Option (List ℕ) → Outcome
unfolding strtok cut get_peer peer_command
peer s none = done refused s
peer s (some args) =
    let (address, rest) = strtok args in
    elim address [
      | none ↦ done refused s
      | some a ↦ elim (strtok rest).0 as (λ o. Outcome) [
        | none ↦ done refused s
        | some cmd ↦ elim (get_peer s (cut args)) as (λ o. Outcome) [
          | none ↦ done refused s
          | some p ↦ peer_command s p cmd
        ]
      ]
    ]
