-- ===== src/Leaf/Hostphy/Descr.antt =====
-- The description of the host, its parent and the disk counters of
-- sflow/sflow_protocol_leaf_hostphy.c.
use sflow.Common.{ℕ, List, drop, take}
use sflow.Memory.Endian.{Endian, htonl, value}
use sflow.Util.Machine.{machine_type, machine_number}
use sflow.Protocol.Leaves.Host.{HostDescr, HostParent, HostDiskIo}
use sflow.Leaf.System.{System, sysinfo, randomize}

-- OS_SOLARIS
abbrev pub os_solaris : ℕ
os_solaris = 12

unfoldable pub descr_pack : Endian → System → HostDescr
descr_pack e sys = record {
  name_len = htonl e 60;
  name = sysinfo sys.host_name 60;
  uuid = sysinfo sys.serial 16;
  machine_type = htonl e (machine_number (machine_type sys.architecture));
  os_name = htonl e os_solaris;
  os_release_len = htonl e 28;
  os_release = sysinfo sys.release 28;
}

-- Packed, but never attached to a sample of the physical host
unfoldable pub parent_pack : HostParent
parent_pack = record { container_type = 0; container_index = 0 }

-- The word of `width` bytes at `offset`
abbrev word_at : Endian → List ℕ → ℕ → ℕ → ℕ
word_at e bytes offset width = value e (take width (drop offset bytes))

-- The structure with random bytes in it, those of the pointer included; then the last word is set.
unfoldable pub disk_io_pack : Endian → System → HostDiskIo
disk_io_pack e sys =
    let bytes = randomize sys.random 0 60 in
    record {
      total = word_at e bytes 0 8;
      free = word_at e bytes 8 8;
      part_max_used = word_at e bytes 16 4;
      reads = word_at e bytes 20 4;
      bytes_read = word_at e bytes 24 8;
      read_time = word_at e bytes 32 4;
      writes = word_at e bytes 36 4;
      bytes_written = word_at e bytes 40 8;
      write_time = htonl e 0;
    }
