-- ===== src/Rx/Discovery.antt =====
-- Service discovery frames of src/rx.c: the parsers of service descriptors and of their extensions,
-- and the handler. `raw` is what `malloc` returned, so a field that is not read keeps what was
-- there.
use opennan.Prelude.{
  ℕ, ◌+◌, ◌/◌, ◌%◌, ◌^◌, Bool, not, Option, none, some, List, [], ◌++◌, length, ltb, ◌==◌,
  if◌then◌else◌,
}
use opennan.Prelude.Int.{ℤ, pos, ltb_ℤ, sub_ℕ, residue}
use opennan.Utils.{EtherAddr}
use opennan.LinkedList.{list_init, list_add, list_for_each}
use opennan.Wire.{Buf}
use opennan.Wire.Defs.{
  buf_advance, buf_error, buf_position, read_u8, read_le16, read_bytes, read_decoded,
}
use opennan.Event.{EventState, Call}
use opennan.Service.Defs.{ServiceState, ServiceDescriptor, handle_received_service_discovery}
use opennan.Rx.Defs.{
  Attribute, iterate_attributes, is_zero, value_or, rx_ok, rx_ignore, rx_too_short,
}

-- `struct nan_service_descriptor_extension_attribute`; `control` is the 16 bits of its bit fields.
-- The information is a pointer into the frame: the octets from there on, with the length in its own
-- field. The fields that nothing sets are left out.
pub record ServiceDescriptorExtension : Type 0 where
  pub instance_id : ℕ
  pub control : ℕ
  pub service_update_indicator : ℕ
  pub oui : List ℕ
  pub service_specific_info : Option (List ℕ)
  pub service_specific_info_length : ℕ

-- The bit field `n` of a control.
abbrev pub bit_set : ℕ → ℕ → Bool
bit_set control n = control / 2 ^ n % 2 == 1

-- A field with a length in front of it is passed over.
unfoldable pub skip_field : Bool → Buf → Buf
unfolding buf_advance read_decoded
skip_field present b =
    if present
    then (let (_, length, b') = read_u8 b in (buf_advance b' (value_or 0 length)).1)
    else b

unfoldable pub read_service_info : Bool → ServiceDescriptor → Buf → ServiceDescriptor × Buf
unfolding read_bytes read_decoded
read_service_info present d b =
    let (_, length, b1) = read_u8 b in
    let info_length = value_or d.service_info_length length in
    let (_, info, b2) = read_bytes b1 info_length in
    if present
    then (
      record d { service_info_length = info_length; service_info = some (value_or [] info) },
      b2,
    )
    else (d, b)

-- The fields that are always there.
unfoldable pub read_descriptor_fields : ServiceDescriptor → Buf → ServiceDescriptor × Buf
unfolding read_bytes read_decoded
read_descriptor_fields raw b =
    let (_, service_id, b1) = read_bytes b 6 in
    let (_, instance_id, b2) = read_u8 b1 in
    let (_, requestor_instance_id, b3) = read_u8 b2 in
    let (_, control, b4) = read_u8 b3 in
    (
      record raw {
        service_id = value_or raw.service_id service_id;
        instance_id = value_or raw.instance_id instance_id;
        requestor_instance_id = value_or raw.requestor_instance_id requestor_instance_id;
        control = value_or raw.control control;
      },
      b4,
    )

-- The fields behind them that are passed over: the binding bitmap and two filters.
unfoldable pub skip_fields : ℕ → Buf → Buf
unfolding buf_advance skip_field
skip_fields control b =
    let b1 = if bit_set control 6 then (buf_advance b 2).1 else b in
    skip_field (bit_set control 3) (skip_field (bit_set control 2) b1)

abbrev pub sda_result :
    List ServiceDescriptor → ServiceDescriptor × Buf → ℤ × List ServiceDescriptor
sda_result service_descriptors (attribute, b) =
    if not (is_zero (buf_error b))
    then (rx_too_short, service_descriptors)
    else (rx_ok, list_add service_descriptors attribute)

unfoldable pub parse_sda :
    ServiceDescriptor → Buf → List ServiceDescriptor → ℤ × List ServiceDescriptor
unfolding buf_error list_add read_descriptor_fields skip_fields read_service_info
parse_sda raw b service_descriptors =
    let (head, b1) = read_descriptor_fields raw b in
    sda_result service_descriptors
      (read_service_info (bit_set head.control 4) head (skip_fields head.control b1))

-- What follows the control fields, if it is there: its length counts an OUI and a type, and the
-- difference is converted to a `size_t`.
unfoldable pub read_extension_info :
    Bool → ServiceDescriptorExtension → Buf → ServiceDescriptorExtension × Buf
unfolding read_bytes read_decoded buf_advance
read_extension_info present d b =
    let (_, length, b1) = read_le16 b in
    let (_, oui, b2) = read_bytes b1 3 in
    let (_, b3) = buf_advance b2 1 in
    let info_length = residue (2 ^ 64) (sub_ℕ (value_or 0 length) 4) in
    let (_, info, b4) = read_bytes b3 info_length in
    if present
    then (
      record d {
        oui = value_or d.oui oui;
        service_specific_info_length = info_length;
        service_specific_info = elim info as (λ o. Option (List ℕ)) [
          | none ↦ d.service_specific_info
          | some xs ↦ some xs
        ];
      },
      b4,
    )
    else (d, b)

unfoldable pub parse_sdea :
    ServiceDescriptorExtension
    → Buf
    → ℕ
    → List ServiceDescriptorExtension
    → ℤ × List ServiceDescriptorExtension
unfolding read_decoded buf_advance buf_error buf_position list_add read_extension_info
parse_sdea raw b length service_descriptor_extensions =
    let (_, instance_id, b1) = read_u8 b in
    let (_, read_control, b2) = read_le16 b1 in
    let control = value_or raw.control read_control in
    let b3 = if bit_set control 8 then (buf_advance b2 4).1 else b2 in
    let (_, indicator, b4) = read_u8 b3 in
    let (service_update_indicator, b5) =
      if bit_set control 9
      then (value_or raw.service_update_indicator indicator, b4)
      else (raw.service_update_indicator, b3) in
    let head : ServiceDescriptorExtension = record raw {
      instance_id = value_or raw.instance_id instance_id;
      control = control;
      service_update_indicator = service_update_indicator;
    } in
    let (attribute, b6) = read_extension_info (ltb (buf_position b5 + 2) length) head b5 in
    if not (is_zero (buf_error b6))
    then (rx_too_short, service_descriptor_extensions)
    else (rx_ok, list_add service_descriptor_extensions attribute)

-- What `malloc` returns for the next attribute of each kind, by the number of those before it.
pub record Blocks : Type 0 where
  pub descriptor : ℕ → ServiceDescriptor
  pub extension : ℕ → ServiceDescriptorExtension

abbrev pub Found : Type 0
Found = List ServiceDescriptor × List ServiceDescriptorExtension

-- The `switch` of `nan_rx_service_discovery`; the state is the two lists.
unfoldable pub discovery_attribute : Blocks → Attribute → Buf → Found → ℤ × Found
unfolding parse_sda parse_sdea
discovery_attribute blocks attribute b (descriptors, extensions) =
    let (sda_result, descriptors') =
      parse_sda (blocks.descriptor (length descriptors)) b descriptors in
    let (sdea_result, extensions') =
      parse_sdea (blocks.extension (length extensions)) b attribute.length extensions in
    if attribute.id == 3
    then (sda_result, (descriptors', extensions))
    else if attribute.id == 14
    then (sdea_result, (descriptors, extensions'))
    else (rx_ignore, (descriptors, extensions))

-- The addresses of a frame that the handler passes on.
pub record Parties : Type 0 where
  pub self : EtherAddr
  pub source : EtherAddr
  pub destination : EtherAddr

-- The body of the loop over the descriptors, with the calls of listeners so far.
unfoldable pub handle_descriptor :
    EventState → Parties → List Call × ServiceState → ServiceDescriptor → List Call × ServiceState
unfolding handle_received_service_discovery
handle_descriptor events p (calls, services) d =
    let (more, services') =
      handle_received_service_discovery services events p.self p.source p.destination d in
    (calls ++ more, services')

-- After the loop over the attributes.
unfoldable pub handle_found :
    EventState
    → Parties
    → ServiceState
    → Option (ℤ × Found × Buf)
    → Option (ℤ × List Call × ServiceState)
unfolding list_for_each handle_descriptor
handle_found events p services none = none
handle_found events p services (some (result, (descriptors, extensions), frame)) =
    let (calls, services') =
      list_for_each (handle_descriptor events p) ([], services) descriptors in
    some (if ltb_ℤ result (pos 0) then (result, [], services) else (result, calls, services'))

-- `nan_rx_service_discovery`: the result, the calls of listeners, and the services.
unfoldable pub rx_service_discovery :
    ℕ
    → Blocks
    → Buf
    → Attribute
    → EventState
    → Parties
    → ServiceState
    → Option (ℤ × List Call × ServiceState)
unfolding iterate_attributes discovery_attribute handle_found list_init
rx_service_discovery fuel blocks frame stack events p services =
    handle_found events p services (
      iterate_attributes (discovery_attribute blocks) fuel frame stack rx_ok (list_init, list_init))
