-- ===== src/Leaf/Hostphy/Memory.antt =====
-- The memory of sflow/sflow_protocol_leaf_hostphy.c: walk_cpu_instances_for_mem_counters,
-- walk_swap_instances_for_mem_counters and sflow_cr_host_memory_pack.
pub mod Laws
use sflow.Common.{
  ℕ, ◌+◌, ◌*◌, ◌/◌, ◌%◌, ◌^◌, List, [], ◌∷◌, Option, none, some, Outcome, ok, ◌>>=◌, or_fault,
  uninitialised, for_range, ◌==◌, if◌then◌else◌,
}
use sflow.Common.Text.{codes}
use sflow.Memory.Endian.{Endian, htonl}
use sflow.Util.Hyper.{hton_h}
use sflow.Util.Kstat.{Kernel, uint32, uint64, query_kstat}
use sflow.Util.Machine.{mem_bytes, page_size}
use sflow.Protocol.Leaves.Host.{HostMemory}
use sflow.Leaf.System.{SwapEntry, System}

-- buf_64 = 0; sflow_query_kstat ("cpu", i, "vm", ...)
unfoldable pub vm_stat : Kernel → ℕ → List ℕ → ℕ
vm_stat kernel i stat = elim (query_kstat kernel (codes "cpu") i (codes "vm") stat uint64) [
  | none ↦ 0
  | some buf_64 ↦ buf_64 % 2 ^ 64
]

-- One round of the loop over the processors
unfoldable pub mem_round : Kernel → ℕ → ℕ → HostMemory → Outcome HostMemory
mem_round kernel cpu_num i h = ok (record h {
  page_in = (h.page_in + vm_stat kernel i (codes "pgpgin") / cpu_num % 2 ^ 32) % 2 ^ 32;
  page_out = (h.page_out + vm_stat kernel i (codes "pgout") / cpu_num % 2 ^ 32) % 2 ^ 32;
  swap_in = (h.swap_in + vm_stat kernel i (codes "swapin") / cpu_num % 2 ^ 32) % 2 ^ 32;
  swap_out = (h.swap_out + vm_stat kernel i (codes "swapout") / cpu_num % 2 ^ 32) % 2 ^ 32;
})

-- Unlike that of the other loop, `cpu_num` was never written where the query fails.
unfoldable pub walk_cpus_for_mem : Kernel → HostMemory → Outcome HostMemory
walk_cpus_for_mem kernel h = do
  cpu_num ←
      or_fault (query_kstat kernel (codes "unix") 0 (codes "system_misc") (codes "ncpus") uint32)
        uninitialised
  for_range (cpu_num % 2 ^ 32) 0 (mem_round kernel (cpu_num % 2 ^ 32)) h

-- sysconf (_SC_PAGESIZE) >> DEV_BSHIFT, and DEV_BSIZE
abbrev pub page_bytes : System → ℕ
page_bytes sys = sys.sys_page_size / 512 * 512

-- The loop over the devices
unfoldable pub add_swap : System → List SwapEntry → HostMemory → HostMemory
add_swap sys [] m = m
add_swap sys (swapent ∷ rest) m = add_swap sys rest (record m {
  swap_total = (m.swap_total + swapent.pages * page_bytes sys) % 2 ^ 64;
  swap_free = (m.swap_free + swapent.free * page_bytes sys) % 2 ^ 64;
})

-- With the result, for the two `malloc` succeed: 2 where swapctl fails, 1 where there is no device
unfoldable pub walk_swap : System → HostMemory → ℕ × HostMemory
walk_swap sys m = elim sys.swap_count [
  | none ↦ (2, m)
  | some num ↦
      if num == 0
      then (1, m)
      else elim sys.swap_list [ none ↦ (2, m) | some entries ↦ (0, add_swap sys entries m) ]
]

-- The pages that are free
unfoldable pub pages_free : Kernel → ℕ
pages_free kernel =
    elim (query_kstat kernel (codes "unix") 0 (codes "system_pages") (codes "pagesfree") uint32) [
      | none ↦ 0
      | some buf_32 ↦ buf_32 % 2 ^ 32
    ]

abbrev pub cleared_memory : HostMemory
cleared_memory = record {
  total = 0;
  free = 0;
  shared = 0;
  buffers = 0;
  cached = 0;
  swap_total = 0;
  swap_free = 0;
  page_in = 0;
  page_out = 0;
  swap_in = 0;
  swap_out = 0;
}

-- sflow_cr_host_memory_pack, which does not look at the loops' results
unfoldable pub memory_pack : Endian → System → Outcome HostMemory
memory_pack e sys = do
  m ← walk_cpus_for_mem sys.kernel (record cleared_memory {
    total = mem_bytes sys.kernel sys.architecture;
    free = pages_free sys.kernel * page_size sys.architecture;
  })
  let m' = (walk_swap sys m).1
  ok (record m' {
    total = hton_h e m'.total;
    free = hton_h e m'.free;
    swap_free = hton_h e m'.swap_free;
    swap_total = hton_h e m'.swap_total;
    swap_in = htonl e m'.swap_in;
    swap_out = htonl e m'.swap_out;
    page_in = htonl e m'.page_in;
    page_out = htonl e m'.page_out;
  })
