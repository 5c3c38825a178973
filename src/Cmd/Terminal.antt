-- ===== src/Cmd/Terminal.antt =====
-- `nan_handle_cmd` and the two listeners of daemon/cmd.c, and `stdin_ready` of daemon/core.c.
use opennan.Prelude.{ℕ, suc, Option, none, some, List, [], ◌∷◌, take, ◌==◌, if◌then◌else◌}
use opennan.Wire.{Buf}
use opennan.Event
use opennan.Event.{Event, Call, DiscoveryResult, Receive}
use opennan.Service.Defs.{
  equal, get_by_instance_id, subscribed, is_published, cancel_publish, cancel_subscribe,
}
use opennan.Ieee80211.{Radiotap}
use opennan.State.{NanState}
use opennan.Tx.Frames.{transmit}
use opennan.Cmd.Text.{codes, non_empty, strtok, cut}
use opennan.Cmd.Defs.{
  Output, Outcome, Context, help, device, sync, peers, increased, decreased, refused, nothing, done,
  null_pointer, print_services_info, publish_service, subscribe_service, set_value, peer, listen,
}

-- The state, and the last command.
pub record Terminal : Type 0 where
  pub nan_state : NanState
  pub last_cmd : Option (List ℕ)

pub data Handled : Type 0 where
  handled : Output → Terminal → Handled
  crashed : Handled

-- The commands that print information, which an empty line repeats.
unfoldable pub information : List ℕ → Option (List ℕ) → Option Output
unfolding print_services_info
information cmd args =
    if equal cmd (codes "help")
    then some help
    else if equal cmd (codes "device")
    then some device
    else if equal cmd (codes "sync")
    then some sync
    else if equal cmd (codes "peers")
    then some peers
    else if equal cmd (codes "services")
    then some (print_services_info args)
    else none

-- The other commands.
unfoldable pub action : Context → NanState → List ℕ → Option (List ℕ) → Outcome
unfolding publish_service subscribe_service set_value peer
action c s cmd args =
    if equal cmd (codes "v+")
    then done increased s
    else if equal cmd (codes "v-")
    then done decreased s
    else if equal cmd (codes "publish")
    then publish_service c s args
    else if equal cmd (codes "subscribe")
    then subscribe_service c s args
    else if equal cmd (codes "set")
    then set_value s args
    else if equal cmd (codes "peer")
    then peer s args
    else done refused s

-- After an action there is no last command.
abbrev pub forget : Outcome → Handled
forget (done output s) = handled output (record { nan_state = s; last_cmd = none })
forget null_pointer = crashed

-- A line that is not empty. What `strtok` leaves of it becomes the last command.
unfoldable pub handle_line : Context → Terminal → List ℕ → Handled
unfolding strtok cut information action
handle_line c t input =
    let (cmd, rest) = strtok input in
    let args = non_empty rest in
    elim cmd [
      | none ↦ crashed
      | some word ↦ elim (information word args) as (λ o. Handled) [
        | some output ↦ handled output (record t { last_cmd = some (cut input) })
        | none ↦ forget (action c t.nan_state word args)
      ]
    ]

-- `nan_handle_cmd`
unfoldable pub handle_cmd : Context → Terminal → List ℕ → Handled
unfolding handle_line
handle_cmd c t (x ∷ input) = handle_line c t (x ∷ input)
handle_cmd c t [] = elim t.last_cmd [
  | none ↦ handled nothing t
  | some input ↦ handle_line c t input
]

-- How many characters are before the first line feed.
unfoldable pub line_length : List ℕ → Option ℕ
line_length [] = none
line_length (x ∷ buf) =
    let later : Option ℕ = elim (line_length buf) [ none ↦ none | some n ↦ some (suc n) ] in
    if x == b'\n' then some 0 else later

-- The characters before the first NUL.
unfoldable pub c_string : List ℕ → List ℕ
c_string [] = []
c_string (x ∷ text) = if x == 0 then [] else x ∷ c_string text

-- `stdin_ready`: `buf` is the array on the stack after `fgets`. `none`: the loop leaves the array.
unfoldable pub stdin_ready : Context → Terminal → List ℕ → Option Handled
unfolding line_length c_string handle_cmd
stdin_ready c t buf = elim (line_length buf) as (λ o. Option Handled) [
  | none ↦ none
  | some n ↦ some (handle_cmd c t (c_string (take n buf)))
]

unfoldable pub handle_event_receive : Context → NanState → Receive → NanState
unfolding get_by_instance_id cancel_publish cancel_subscribe Event.remove_listener
handle_event_receive c s event = elim (get_by_instance_id s.services event.instance_id none) [
  | none ↦ s
  | some service ↦
      let services' =
        if is_published service.type
        then (cancel_publish s.services service.instance_id).1
        else (cancel_subscribe s.services service.instance_id).1 in
      record s {
        services = services';
        events = Event.remove_listener s.events c.handle_event_receive;
      }
]

-- `memory` and `ref` are the block and the address of the frame that is sent, if there is one: it
-- is the last component.
unfoldable pub handle_event_discovery_result :
    Context → Radiotap → List ℕ → ℕ → NanState → DiscoveryResult → NanState × Option Buf
unfolding get_by_instance_id transmit Event.remove_listener Event.add_listener
handle_event_discovery_result c r memory ref s event =
    elim (get_by_instance_id s.services event.subscribe_id (some subscribed)) [
      | none ↦ (s, none)
      | some service ↦
          let (_, s', frame) =
            transmit r memory ref s event.address event.subscribe_id event.publish_id
              (some (codes "Hello world!")) 12 in
          let removed = record s' {
            events = Event.remove_listener s'.events c.handle_event_discovery_result;
          } in
          (listen c removed Event.type_receive service.service_name c.handle_event_receive, frame)
    ]
