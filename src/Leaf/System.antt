-- ===== src/Leaf/System.antt =====
-- What the host samplers of sflow/sflow_protocol_leaf_hostphy.c and
-- sflow/sflow_protocol_leaf_hostv.c ask of the operating system.
use sflow.Common.{ℕ, zero, suc, ◌-◌, ◌%◌, List, [], ◌∷◌, Option, take}
use sflow.Util.Kstat.{Kernel}

-- A datalink that dladm_walk_datalinks calls back for. `mac_address` is the text and the number of
-- values of the link's property, `none` where dladm_get_linkprop fails.
pub record Link : Type 0 where
  pub linkid : ℕ
  pub name : List ℕ
  pub mac_address : Option (List ℕ × ℕ)

-- A walk: the links that it calls back for, and its status, 0 being DLADM_STATUS_OK. `none` where
-- dladm_open fails.
abbrev pub Walk : Type 0
Walk = Option (List Link × ℕ)

-- An entry of /proc. `psinfo` is the state's letter, `none` where its file cannot be opened or
-- read.
pub record Process : Type 0 where
  pub name : List ℕ
  pub psinfo : Option ℕ

-- swapent_t: the pages of a swap device, all and free
pub record SwapEntry : Type 0 where
  pub pages : ℕ
  pub free : ℕ

pub record System : Type 0 where
  pub kernel : Kernel
  -- sysinfo: SI_HOSTNAME, SI_RELEASE, SI_HW_SERIAL and SI_ARCHITECTURE
  pub host_name : List ℕ
  pub release : List ℕ
  pub serial : List ℕ
  pub architecture : List ℕ
  -- getloadavg, as the words that hold the three `float`s
  pub load_one : ℕ
  pub load_five : ℕ
  pub load_fifteen : ℕ
  -- /proc, `none` where opendir fails
  pub proc_dir : Option (List Process)
  -- get_up_time_sec_safe
  pub up_time : ℕ
  -- The walk of all links
  pub links : Walk
  -- What realloc leaves in the two last bytes of an adapter's address
  pub stale : ℕ → List ℕ
  -- What a length word reads as once `free` got its block, `none` where reading it fails
  pub after_free : ℕ → Option ℕ
  -- swapctl: SC_GETNSWP and SC_LIST, `none` where it fails
  pub swap_count : Option ℕ
  pub swap_list : Option (List SwapEntry)
  -- sysconf (_SC_PAGESIZE)
  pub sys_page_size : ℕ
  -- rand, by the number of the call
  pub random : ℕ → ℕ

-- The string that sysinfo leaves in a buffer of `size` bytes, cut to leave room for the 0
abbrev pub sysinfo : List ℕ → ℕ → List ℕ
sysinfo info size = take (size - 1) info

-- randomize (start, s), of sflow/sflow_util.c, from byte `off` on with the rounds left
unfoldable pub randomize : (ℕ → ℕ) → ℕ → ℕ → List ℕ
randomize random off zero = []
randomize random off (suc left) = random off % 256 ∷ randomize random (suc off) left
