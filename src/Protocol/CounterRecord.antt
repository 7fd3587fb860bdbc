-- ===== src/Protocol/CounterRecord.antt =====
-- Counter records of sflow/sflow_protocol_branches.c: the record is packed with the length of its
-- data, and flattened by the flat function that its format calls for.
pub mod Data
pub mod Bytes
use sflow.Common.{ℕ, ◌+◌, ◌%◌, ◌^◌, ◌&&◌, List, [], ◌∷◌, ◌==◌, if◌then◌else◌, Outcome, ok, fault}
use sflow.Memory.Endian.{Endian, htonl}
use sflow.Memory.Layout.{Field, u32, struct_image}
use sflow.Memory.Buffer.{Cmd, pure, fail, ◌>>=◌, ◌>>◌, memcpy}
use sflow.Protocol.Format.{set_data_format, get_data_ent, get_data_fmt}
use sflow.Protocol.Counter.{
  Counter, as_if_generic, as_host_descr, as_host_adapters, as_host_parent, as_host_cpu,
  as_host_memory, as_host_disk_io, as_host_net_io, as_virt_leaf, as_virt_cpu, as_virt_memory,
  as_virt_net_io, as_flow_stat, counter_generic_flat, host_descr_flat, host_adapters_flat,
  host_parent_flat, host_cpu_flat, host_memory_flat, host_disk_io_flat, host_net_io_flat,
  virt_leaf_flat, virt_cpu_flat, virt_memory_flat, virt_net_io_flat, flow_stat_flat,
}
use sflow.Protocol.CounterLen.{counter_len}

-- sflow_cr_t, packed: the two words are in network order; the pointers are not sent.
pub record CounterRecord : Type 0 where
  pub dfmt : ℕ
  pub len : ℕ
  pub content : Counter

-- sizeof (sflow_cr_t)
abbrev pub sizeof_counter_record : ℕ
sizeof_counter_record = 24

unfoldable pub counter_record_fields : CounterRecord → List Field
counter_record_fields cr = u32 cr.dfmt ∷ u32 cr.len ∷ []

abbrev pub record_of : Endian → ℕ → ℕ → Counter → Outcome ℕ → Outcome CounterRecord
record_of e ent fmt d (ok len) = ok (record {
  dfmt = htonl e (set_data_format 0 ent fmt);
  len = htonl e (len % 2 ^ 32);
  content = d;
})
record_of e ent fmt d (fault f) = fault f

-- sflow_counter_record_pack: `counter_data` has to be of the type that the format stands for.
unfoldable pub counter_record_pack : Endian → Counter → ℕ → ℕ → Outcome CounterRecord
counter_record_pack e d ent fmt = record_of e ent fmt d (counter_len ent fmt d)

-- The ladder of sflow_counter_record_flat; for a format that it does not know nothing is written.
unfoldable pub counter_data_flat : Endian → ℕ → ℕ → ℕ → Counter → Cmd ℕ
unfolding as_if_generic as_host_descr as_host_adapters as_host_parent as_host_cpu as_host_memory
    as_host_disk_io as_host_net_io as_virt_leaf as_virt_cpu as_virt_memory as_virt_net_io
    as_flow_stat
counter_data_flat e ent fmt at d =
    if ent == 0 && fmt == 1
    then (do x ← fail (as_if_generic d); counter_generic_flat e at x)
    else if ent == 0 && fmt == 2000
    then (do x ← fail (as_host_descr d); host_descr_flat e at x)
    else if ent == 0 && fmt == 2001
    then (do x ← fail (as_host_adapters d); host_adapters_flat e at x)
    else if ent == 0 && fmt == 2002
    then (do x ← fail (as_host_parent d); host_parent_flat e at x)
    else if ent == 0 && fmt == 2003
    then (do x ← fail (as_host_cpu d); host_cpu_flat e at x)
    else if ent == 0 && fmt == 2004
    then (do x ← fail (as_host_memory d); host_memory_flat e at x)
    else if ent == 0 && fmt == 2005
    then (do x ← fail (as_host_disk_io d); host_disk_io_flat e at x)
    else if ent == 0 && fmt == 2006
    then (do x ← fail (as_host_net_io d); host_net_io_flat e at x)
    else if ent == 0 && fmt == 2100
    then (do x ← fail (as_virt_leaf d); virt_leaf_flat e at x)
    else if ent == 0 && fmt == 2101
    then (do x ← fail (as_virt_cpu d); virt_cpu_flat e at x)
    else if ent == 0 && fmt == 2102
    then (do x ← fail (as_virt_memory d); virt_memory_flat e at x)
    else if ent == 0 && fmt == 2104
    then (do x ← fail (as_virt_net_io d); virt_net_io_flat e at x)
    else if ent == 52 && fmt == 52
    then (do x ← fail (as_flow_stat d); flow_stat_flat e at x)
    else pure 0

unfoldable pub counter_record_flat : Endian → ℕ → CounterRecord → Cmd ℕ
counter_record_flat e at cr = do
  memcpy at (struct_image e (counter_record_fields cr))
  let dfmt = htonl e cr.dfmt
  n ← counter_data_flat e (get_data_ent dfmt) (get_data_fmt dfmt) (at + 8) cr.content
  pure (8 + n)
