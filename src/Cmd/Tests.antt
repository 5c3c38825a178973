-- ===== src/Cmd/Tests.antt =====
-- Some lines, and the theorems at them.
use opennan.Prelude.{
  ℕ, ◌%◌, ◌^◌, ◌≤◌, ◌<◌, ◌≡◌, ◌⊎◌, refl, false, true, none, some, [], ◌∷◌, ◌++◌, replicate, arith,
}
use opennan.Prelude.Int.{pos, negsuc, minus_one}
use opennan.Utils.{EtherAddr, ether_addr_to_string}
use opennan.Event.{Receive, dispatch, receive}
use opennan.Service.Defs.{Service, get_by_name, published}
use opennan.State.{NanState, init_nan_state}
use opennan.Cmd.Text.{codes, atoi}
use opennan.Cmd.Defs.{Context, services, value_set, registered, refused, with_rank, is_registered}
use opennan.Cmd.Terminal.{Terminal, handled, crashed, handle_cmd, information, stdin_ready}
use opennan.Cmd.Set.{random_factor, assign, IsNumber, set_lem}
use opennan.Cmd.Repeat.{handle_cmd-repeated}
use opennan.Cmd.Register.{handle_cmd-publish}

abbrev addr : EtherAddr
addr = record { octet0 = 2; octet1 = 0; octet2 = 0xab; octet3 = 0; octet4 = 0; octet5 = 3 }

addr_text : ether_addr_to_string addr ≡ codes "02:00:ab:00:00:03"
unfolding ether_addr_to_string
addr_text = refl

-- White space, a sign, and what is behind the digits.
atoi_signed : atoi (codes " -12x") ≡ negsuc 11
unfolding atoi
atoi_signed = refl

-- Beyond the largest `long`, `strtol` gives that, and `atoi` its low 32 bits.
atoi_large : atoi (codes "99999999999999999999") ≡ minus_one
unfolding atoi
atoi_large = refl

abbrev state : NanState
state =
    init_nan_state (replicate 16 0) (record { cluster_id = addr; cluster_grade = 0 }) 1 2 [] addr
      (pos 6) 1000000

abbrev terminal : Terminal
terminal = record { nan_state = state; last_cmd = none }

abbrev block : Service
block = record {
  ref = 7;
  service_name = [];
  type = published;
  instance_id = 0;
  service_id = [];
  service_specific_info = none;
  service_specific_info_length = 0;
  service_update_indicator = 0;
  time_to_live = pos 0;
  parameter_type = 0;
  flag = false;
}

abbrev context : Context
context = record {
  sha256 = λ xs. xs;
  handle_event_receive = 100;
  handle_event_discovery_result = 101;
  state = 200;
  service_block = block;
  listener_block = 300;
}

-- A line of spaces only is a use of NULL.
spaces_crash : stdin_ready context terminal (codes "  " ++ b'\n' ∷ []) ≡ some crashed
unfolding stdin_ready
spaces_crash = refl

set_lem_example :
    (IsNumber (2 ∷ 5 ∷ 5 ∷ [])
      → 255 % 2 ^ 32 ≤ 255
      → handle_cmd context terminal (codes "set rf 255")
        ≡ handled value_set (record {
          nan_state = with_rank state (assign random_factor 255 state.sync);
          last_cmd = none;
        }))
    × ((255 < 255 % 2 ^ 32) ⊎ (¬ IsNumber (2 ∷ 5 ∷ 5 ∷ []))
        → handle_cmd context terminal (codes "set rf 255")
          ≡ handled refused (record { nan_state = state; last_cmd = none }))
set_lem_example = set_lem context terminal random_factor 2 (5 ∷ 5 ∷ []) (omega arith) (omega arith)

handle_cmd-repeated_example :
    let after = record terminal { last_cmd = some (codes "services") } in
    (handle_cmd context terminal (codes "services pub") ≡ handled (services true false) after)
    × (handle_cmd context after [] ≡ handled (services true true) after)
unfolding information
handle_cmd-repeated_example =
    handle_cmd-repeated context terminal b's' (codes "ervices") (codes "pub") (services true false)
      (services true true) (omega arith) refl refl

handle_cmd-publish_example :
    let line = codes "publish ab hi" in
    (is_registered state.services (codes "ab") ≡ true
      → handle_cmd context terminal line ≡ handled refused terminal)
    × (is_registered state.services (codes "ab") ≡ false
        → (id : ℕ) × (s : NanState) × (handle_cmd context terminal line
            ≡ handled (registered id) (record { nan_state = s; last_cmd = none }))
          × ((service : Service) × (get_by_name s.services (codes "ab") none ≡ some service)
              × (service.instance_id ≡ id)
              × (service.type ≡ published)
              × (service.time_to_live ≡ minus_one)
              × (service.service_specific_info ≡ some (codes "hi")))
          × ((r : Receive)
              → dispatch s.events (receive r) (codes "ab")
                ≡ dispatch state.events (receive r) (codes "ab")
                  ++ record { function = 100; event = receive r; argument = 200 } ∷ [])
          × (handle_cmd context (record { nan_state = s; last_cmd = none }) line
              ≡ handled refused (record { nan_state = s; last_cmd = none })))
handle_cmd-publish_example =
    handle_cmd-publish context terminal b'a' (b'b' ∷ []) b'h' (b'i' ∷ []) (omega arith)
      (omega arith)
