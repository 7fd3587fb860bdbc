-- ===== src/Protocol/CounterRecord/Data.antt =====
-- The data of a counter record on the wire: the flat function that the format calls for writes the
-- structure's image, and the length computed from the format is the image's.
use sflow.Common.{
  Option, some, or_fault, out_of_bounds, ℕ, ◌+◌, ◌≡◌, refl, sym, ap, ◌∙◌, List, [], ◌∷◌, arith,
  length, le→leb, take, ok,
}
use sflow.Memory.Endian.{Endian}
use sflow.Memory.Layout.{struct_image, struct_size, field_size, length-struct_image}
use sflow.Memory.Buffer.{pure, fail, Writes, memcpy, memcpy-Writes, map-Writes}
use sflow.Memory.Flat.{struct-Writes}
use sflow.Protocol.Leaves.Interface.{if_generic_fields}
use sflow.Protocol.Leaves.Host.{
  host_descr_fields, host_parent_fields, host_cpu_fields, host_memory_fields, host_disk_io_fields,
  host_net_io_fields,
}
use sflow.Protocol.Leaves.Virtual.{
  virt_leaf_fields, virt_cpu_fields, virt_memory_fields, virt_net_io_fields,
}
use sflow.Protocol.Counter.{
  Counter, host_adapters_fields, copy_adapters, if_generic, host_descr, host_adapters, host_parent,
  host_cpu, host_memory, host_disk_io, host_net_io, virt_leaf, virt_cpu, virt_memory, virt_net_io,
  flow_stat, null, counter_generic_flat, host_descr_flat, host_adapters_flat, host_parent_flat,
  host_cpu_flat, host_memory_flat, host_disk_io_flat, host_net_io_flat, virt_leaf_flat,
  virt_cpu_flat, virt_memory_flat, virt_net_io_flat, flow_stat_flat,
}
use sflow.Protocol.CounterLen.{counter_len}
use sflow.Protocol.CounterRecord.{counter_data_flat}

-- The enterprise and format numbers of a structure, from the comments in the headers.
abbrev pub enterprise : Counter → ℕ
enterprise (if_generic x) = 0
enterprise (host_descr x) = 0
enterprise (host_adapters x) = 0
enterprise (host_parent x) = 0
enterprise (host_cpu x) = 0
enterprise (host_memory x) = 0
enterprise (host_disk_io x) = 0
enterprise (host_net_io x) = 0
enterprise (virt_leaf x) = 0
enterprise (virt_cpu x) = 0
enterprise (virt_memory x) = 0
enterprise (virt_net_io x) = 0
enterprise (flow_stat x) = 52
enterprise null = 0

abbrev pub format : Counter → ℕ
format (if_generic x) = 1
format (host_descr x) = 2000
format (host_adapters x) = 2001
format (host_parent x) = 2002
format (host_cpu x) = 2003
format (host_memory x) = 2004
format (host_disk_io x) = 2005
format (host_net_io x) = 2006
format (virt_leaf x) = 2100
format (virt_cpu x) = 2101
format (virt_memory x) = 2102
format (virt_net_io x) = 2104
format (flow_stat x) = 52
format null = 0

unfoldable pub counter_bytes : Endian → Counter → List ℕ
counter_bytes e (if_generic x) = struct_image e (if_generic_fields x)
counter_bytes e (host_descr x) = struct_image e (host_descr_fields x)
counter_bytes e (host_adapters x) = struct_image e (host_adapters_fields x)
counter_bytes e (host_parent x) = struct_image e (host_parent_fields x)
counter_bytes e (host_cpu x) = struct_image e (host_cpu_fields x)
counter_bytes e (host_memory x) = struct_image e (host_memory_fields x)
counter_bytes e (host_disk_io x) = struct_image e (host_disk_io_fields x)
counter_bytes e (host_net_io x) = struct_image e (host_net_io_fields x)
counter_bytes e (virt_leaf x) = struct_image e (virt_leaf_fields x)
counter_bytes e (virt_cpu x) = struct_image e (virt_cpu_fields x)
counter_bytes e (virt_memory x) = struct_image e (virt_memory_fields x)
counter_bytes e (virt_net_io x) = struct_image e (virt_net_io_fields x)
counter_bytes e (flow_stat x) = x.bytes
counter_bytes e null = []

-- The adapters' length covers the whole object and is still there when the object was freed, and the size of a flow_stat structure is what its
-- flat function writes and the pointer; NULL is none.
abbrev pub IsCounter : Counter → Type 0
IsCounter (host_adapters x) =
    (x.len ≡ struct_size (host_adapters_fields x)) × (x.freed_len ≡ some x.len)
IsCounter (flow_stat x) = x.struct_size ≡ length x.bytes + 8
IsCounter null = ⊥
IsCounter _ = Unit {0}

take_all : (bs : List ℕ) → take (length bs) bs ≡ bs
take_all [] = refl
take_all (b ∷ bs) = ap (◌∷◌ b) (take_all bs)

copy_adapters-Writes :
    (at n : ℕ) (bs : List ℕ) → n ≡ length bs → Writes at bs tt (copy_adapters at n bs)
unfolding copy_adapters
copy_adapters-Writes at n bs h =
    rw (h, le→leb (length bs) (length bs) (omega arith), take_all bs) (memcpy-Writes at bs)

module _ (e : Endian) where
  -- For every structure, under its own format, the ladder calls the flat function that writes
  -- the structure's image and returns the image's length.
  pub counter_data-Writes :
      (d : Counter) (at : ℕ)
      → IsCounter d
      → Writes at
          (counter_bytes e d)
          (length (counter_bytes e d))
          (counter_data_flat e (enterprise d) (format d) at d)
  unfolding counter_data_flat counter_bytes struct_size field_size counter_generic_flat
      host_descr_flat host_adapters_flat host_parent_flat host_cpu_flat host_memory_flat
      host_disk_io_flat host_net_io_flat virt_leaf_flat virt_cpu_flat virt_memory_flat
      virt_net_io_flat flow_stat_flat if_generic_fields host_descr_fields host_parent_fields
      host_cpu_fields host_memory_fields host_disk_io_fields host_net_io_fields virt_leaf_fields
      virt_cpu_fields virt_memory_fields virt_net_io_fields
  counter_data-Writes (if_generic x) at h = struct-Writes e at _ (if_generic_fields x) refl
  counter_data-Writes (host_descr x) at h = struct-Writes e at _ (host_descr_fields x) refl
  counter_data-Writes (host_adapters x) at h =
      let bs = struct_image e (host_adapters_fields x) in
      let size : x.len ≡ length bs = h.0 ∙ sym (length-struct_image e (host_adapters_fields x)) in
      map-Writes at bs tt (length bs) (copy_adapters at x.len bs)
        (λ _. fail (or_fault x.freed_len out_of_bounds)) (copy_adapters-Writes at x.len bs size)
        (ap (λ (o : Option ℕ). fail (or_fault o out_of_bounds)) (h.1 ∙ ap some size))
  counter_data-Writes (host_parent x) at h = struct-Writes e at _ (host_parent_fields x) refl
  counter_data-Writes (host_cpu x) at h = struct-Writes e at _ (host_cpu_fields x) refl
  counter_data-Writes (host_memory x) at h = struct-Writes e at _ (host_memory_fields x) refl
  counter_data-Writes (host_disk_io x) at h = struct-Writes e at _ (host_disk_io_fields x) refl
  counter_data-Writes (host_net_io x) at h = struct-Writes e at _ (host_net_io_fields x) refl
  counter_data-Writes (virt_leaf x) at h = struct-Writes e at _ (virt_leaf_fields x) refl
  counter_data-Writes (virt_cpu x) at h = struct-Writes e at _ (virt_cpu_fields x) refl
  counter_data-Writes (virt_memory x) at h = struct-Writes e at _ (virt_memory_fields x) refl
  counter_data-Writes (virt_net_io x) at h = struct-Writes e at _ (virt_net_io_fields x) refl
  counter_data-Writes (flow_stat x) at h =
      map-Writes at x.bytes tt (length x.bytes) (memcpy at x.bytes) (λ _. pure (length x.bytes))
        (memcpy-Writes at x.bytes) refl
  counter_data-Writes null at h = elim h [ ]

  -- The length computed from the format is that of the image.
  pub counter_len_lem :
      (d : Counter)
      → IsCounter d
      → counter_len (enterprise d) (format d) d ≡ ok (length (counter_bytes e d))
  unfolding counter_len counter_bytes struct_size field_size if_generic_fields host_descr_fields
      host_parent_fields host_cpu_fields host_memory_fields host_disk_io_fields host_net_io_fields
      virt_leaf_fields virt_cpu_fields virt_memory_fields virt_net_io_fields
  counter_len_lem (if_generic x) h = ap ok (sym (length-struct_image e (if_generic_fields x)))
  counter_len_lem (host_descr x) h = ap ok (sym (length-struct_image e (host_descr_fields x)))
  counter_len_lem (host_adapters x) h =
      ap ok (h.0 ∙ sym (length-struct_image e (host_adapters_fields x)))
  counter_len_lem (host_parent x) h = ap ok (sym (length-struct_image e (host_parent_fields x)))
  counter_len_lem (host_cpu x) h = ap ok (sym (length-struct_image e (host_cpu_fields x)))
  counter_len_lem (host_memory x) h = ap ok (sym (length-struct_image e (host_memory_fields x)))
  counter_len_lem (host_disk_io x) h = ap ok (sym (length-struct_image e (host_disk_io_fields x)))
  counter_len_lem (host_net_io x) h = ap ok (sym (length-struct_image e (host_net_io_fields x)))
  counter_len_lem (virt_leaf x) h = ap ok (sym (length-struct_image e (virt_leaf_fields x)))
  counter_len_lem (virt_cpu x) h = ap ok (sym (length-struct_image e (virt_cpu_fields x)))
  counter_len_lem (virt_memory x) h = ap ok (sym (length-struct_image e (virt_memory_fields x)))
  counter_len_lem (virt_net_io x) h = ap ok (sym (length-struct_image e (virt_net_io_fields x)))
  counter_len_lem (flow_stat x) h = ap ok (omega arith)
  counter_len_lem null h = elim h [ ]
