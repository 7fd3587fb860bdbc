-- ===== src/Protocol/Leaves/Interface.antt =====
-- The counter structure of sflow/sflow_protocol_leaf_ifgeneric.h, which is packed: the fields in
-- the order of their bytes, before the pointer to the flat function.
use sflow.Common.{ℕ, List, [], ◌∷◌}
use sflow.Memory.Layout.{Field, u32, u64}

-- sflow_cr_if_generic_t
pub record IfGeneric : Type 0 where
  pub if_index : ℕ
  pub if_type : ℕ
  pub if_speed : ℕ
  pub if_direction : ℕ
  pub if_status : ℕ
  pub if_in_octets : ℕ
  pub if_in_ucast_pkts : ℕ
  pub if_in_multicast_pkts : ℕ
  pub if_in_broadcast_pkts : ℕ
  pub if_in_discards : ℕ
  pub if_in_errors : ℕ
  pub if_in_unknown_protos : ℕ
  pub if_out_octets : ℕ
  pub if_out_ucast_pkts : ℕ
  pub if_out_multicast_pkts : ℕ
  pub if_out_broadcast_pkts : ℕ
  pub if_out_discards : ℕ
  pub if_out_errors : ℕ
  pub if_promiscuous_mode : ℕ

unfoldable pub if_generic_fields : IfGeneric → List Field
if_generic_fields x =
    u32 x.if_index
    ∷ u32 x.if_type
    ∷ u64 x.if_speed
    ∷ u32 x.if_direction
    ∷ u32 x.if_status
    ∷ u64 x.if_in_octets
    ∷ u32 x.if_in_ucast_pkts
    ∷ u32 x.if_in_multicast_pkts
    ∷ u32 x.if_in_broadcast_pkts
    ∷ u32 x.if_in_discards
    ∷ u32 x.if_in_errors
    ∷ u32 x.if_in_unknown_protos
    ∷ u64 x.if_out_octets
    ∷ u32 x.if_out_ucast_pkts
    ∷ u32 x.if_out_multicast_pkts
    ∷ u32 x.if_out_broadcast_pkts
    ∷ u32 x.if_out_discards
    ∷ u32 x.if_out_errors
    ∷ u32 x.if_promiscuous_mode
    ∷ []

-- sizeof (sflow_cr_if_generic_t)
abbrev pub sizeof_if_generic : ℕ
sizeof_if_generic = 96
