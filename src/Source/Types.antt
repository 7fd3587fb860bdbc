-- ===== src/Source/Types.antt =====
-- The types of sflow/sflow_source.h: a source, the union of its two kinds, and what its
-- `src_specific_data` points to. A union is read as the kind that was written last; as another
-- kind, and a pointer as another type, it is a fault.
use sflow.Common.{ℕ, List, Outcome, ok, fault, bad_cast}

-- sflow_source_type_t; `inter_poll_separation` is the line between the two kinds.
pub data SourceType : Type 0 where
  flowsample inter_poll_separation ifgeneric phyhost vhost flowstat : SourceType

abbrev pub type_number : SourceType → ℕ
type_number flowsample = 0
type_number inter_poll_separation = 1
type_number ifgeneric = 2
type_number phyhost = 3
type_number vhost = 4
type_number flowstat = 5

-- sflow_source_poll_t and sflow_source_interrupt_t, less their `get_sample` functions, which the
-- type decides.
pub record Poll : Type 0 where
  pub thread : ℕ
  pub interval : ℕ

pub record Interrupt : Type 0 where
  pub fd : ℕ
  pub rate : ℕ

pub data Kind : Type 0 where
  poll : Poll → Kind
  interrupt : Interrupt → Kind

-- ssd_flowsample_t
pub record FlowsampleData : Type 0 where
  pub datalink : ℕ
  pub pool : ℕ
  pub drops : ℕ

pub data Specific : Type 0 where
  flowsample_data : FlowsampleData → Specific
  ifgeneric_data : (datalink : ℕ) → Specific
  hostv_data : (zone_id : ℕ) → Specific
  no_data : Specific

-- sflow_source_t
pub record Source : Type 0 where
  pub name : List ℕ
  pub source_type : SourceType
  pub kind : Kind
  pub count : ℕ
  pub id_type : ℕ
  pub id : ℕ
  pub ent : ℕ
  pub fmt : ℕ
  pub specific : Specific

abbrev pub as_interrupt : Kind → Outcome Interrupt
as_interrupt (interrupt i) = ok i
as_interrupt (poll p) = fault bad_cast

abbrev pub as_poll : Kind → Outcome Poll
as_poll (poll p) = ok p
as_poll (interrupt i) = fault bad_cast

abbrev pub as_flowsample_data : Specific → Outcome FlowsampleData
as_flowsample_data (flowsample_data d) = ok d
as_flowsample_data _ = fault bad_cast

abbrev pub as_ifgeneric_data : Specific → Outcome ℕ
as_ifgeneric_data (ifgeneric_data d) = ok d
as_ifgeneric_data _ = fault bad_cast

unfoldable pub as_hostv_data : Specific → Outcome ℕ
as_hostv_data (hostv_data zone_id) = ok zone_id
as_hostv_data _ = fault bad_cast
