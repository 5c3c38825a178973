-- ===== src/Tx/DescriptorRoundTrip.antt =====
-- A service descriptor with service information: what `nan_add_service_descriptor_attribute`
-- writes, the reader of attributes and `nan_parse_sda` read.
use opennan.Prelude.{ℕ, ◌+◌, ◌%◌, ◌^◌, ◌≤◌, ◌<◌, ◌≡◌, ap, ◌∙◌, some, List, [], ◌∷◌, arith, length}
use opennan.Prelude.Int.{pos}
use opennan.Wire.{Buf}
use opennan.Wire.Defs.{buf_new_const}
use opennan.Wire.Bounds.{IsValid}
use opennan.LinkedList.{list_add}
use opennan.Service.Defs.{Service, ServiceDescriptor}
use opennan.Rx.Defs.{Attribute, attribute_read_next, rx_ok}
use opennan.Rx.Discovery.{parse_sda}
use opennan.Tx.DescriptorParse.{parse_descriptor}
use opennan.Tx.Attributes.{add_service_descriptor_attribute}
use opennan.Tx.DescriptorStored.{written-eq, read_back}

-- A service descriptor with less than 256 octets of service information, which fits into a valid
-- buffer without an error, is read back: the next attribute of what was written has the id of a
-- service descriptor and the length that was written, and `nan_parse_sda` accepts its data and adds
-- to the list a descriptor with the service id, both instance ids, the control type next to the bit
-- of the service information, and that information. The instance ids have eight bits.
pub add_service_descriptor-parse_sda :
    (b : Buf) (x : Service) (s0 s1 s2 s3 s4 s5 control_type requestor : ℕ) (info : List ℕ)
    (last : Attribute) (raw : ServiceDescriptor) (descriptors : List ServiceDescriptor)
    → IsValid b
    → b.error ≡ pos 0
    → length info < 256
    → b.position + 13 + length info ≤ b.end
    → x.instance_id < 2 ^ 8
    → requestor < 2 ^ 8
    → let service = record x { service_id = s0 ∷ s1 ∷ s2 ∷ s3 ∷ s4 ∷ s5 ∷ [] } in
      let written =
        (add_service_descriptor_attribute b service control_type requestor
          (some info)
          (length info)).1 in
      let read =
        attribute_read_next
          (record written { position = b.position; end = written.position })
          last in
      (read.0 ≡ pos (13 + length info))
      × (read.1.id ≡ 3)
      × (parse_sda raw (buf_new_const read.1.data_bytes read.1.length) descriptors ≡ (
        rx_ok,
        list_add descriptors (record raw {
          service_id = s0 ∷ s1 ∷ s2 ∷ s3 ∷ s4 ∷ s5 ∷ [];
          instance_id = x.instance_id;
          requestor_instance_id = requestor;
          control = control_type % 2 ^ 2 + 2 ^ 4;
          service_info_length = length info;
          service_info = some info;
        }),
      ))
add_service_descriptor-parse_sda b x s0 s1 s2 s3 s4 s5 control_type requestor info last raw
      descriptors v e short room small_id small_requestor =
    let w =
      written-eq b x s0 s1 s2 s3 s4 s5 control_type requestor info v short room small_id
        small_requestor in
    let r =
      ap (λ z. attribute_read_next (record z { position = b.position; end = z.position }) last) w
      ∙ read_back b x s0 s1 s2 s3 s4 s5 control_type requestor info v short room small_id
          small_requestor last e in
    let parsed =
      parse_descriptor s0 s1 s2 s3 s4 s5 x.instance_id requestor control_type info
        (omega (arith, short)) raw descriptors in
    (
      ap (λ z. z.0) r,
      ap (λ z. z.1.id) r,
      ap (λ z. parse_sda raw (buf_new_const z.1.data_bytes z.1.length) descriptors) r ∙ parsed,
    )
