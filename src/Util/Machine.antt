-- ===== src/Util/Machine.antt =====
-- What sflow/sflow_util.c finds out about the machine: its type, the size of a page, the physical
-- memory, and the time since it was booted.
pub mod Laws
use sflow.Common.{
  ℕ, zero, suc, ◌+◌, ◌-◌, ◌*◌, ◌/◌, ◌%◌, ◌^◌, ◌≡◌, refl, Bool, true, false, ◌&&◌, List, [], ◌∷◌,
  Option, none, some, Outcome, ok, ◌>>=◌, or_fault, uninitialised, ltb, ◌==◌, if◌then◌else◌,
  Bool-cases, inl, inr,
}
use sflow.Common.Text.{codes}
use sflow.Source.Text.{starts_with}
use sflow.Util.Kstat.{Kernel, uint32, query_kstat}

-- machine_type_t, as far as the code names its members
pub data MachineType : Type 0 where
  mt_unknown mt_x86 mt_sparc : MachineType

abbrev pub machine_number : MachineType → ℕ
machine_number mt_unknown = 0
machine_number mt_x86 = 2
machine_number mt_sparc = 5

-- get_host_phys_machine_type, for the architecture that sysinfo names
unfoldable pub machine_type : List ℕ → MachineType
machine_type architecture = if starts_with architecture (codes "i386") then mt_x86 else mt_unknown

page_size_of : MachineType → ℕ
page_size_of mt_x86 = 1024 * 4
page_size_of mt_sparc = 1024 * 8
page_size_of mt_unknown = 1024 * 4

-- get_host_phys_page_size
unfoldable pub page_size : List ℕ → ℕ
unfolding page_size_of
page_size architecture = page_size_of (machine_type architecture)

-- get_host_phys_mem_bytes
unfoldable pub mem_bytes : Kernel → List ℕ → ℕ
unfolding page_size
mem_bytes kernel architecture =
    elim (query_kstat kernel (codes "unix") 0 (codes "system_pages") (codes "physmem") uint32) [
      | none ↦ 0
      | some buf_32 ↦ buf_32 % 2 ^ 32 * page_size architecture
    ]

-- get_host_phys_page_size is 4096 for every architecture: the machine type is never MT_SPARC.
pub page_size-4096 : (architecture : List ℕ) → page_size architecture ≡ 4096
unfolding page_size page_size_of machine_type
page_size-4096 architecture = elim (Bool-cases (starts_with architecture (codes "i386"))) [
  | inl t ↦ rw t refl
  | inr t ↦ rw t refl
]

-- struct utmpx: a record of USER_PROCESS does nothing, and neither does one of another type.
pub data UtmpEntry : Type 0 where
  boot_time : ℕ → UtmpEntry
  other_entry : UtmpEntry

-- (uint32_t)(now - start + 30)
abbrev pub since : ℕ → ℕ → ℕ
since now start = (now + 30 + (2 ^ 32 - start % 2 ^ 32)) % 2 ^ 32

-- Where the loop of get_up_time_sec breaks: unless both hours and minutes are positive, in time_t.
unfoldable pub stops_at : ℕ → ℕ → Bool
stops_at now start =
    let rest = (now + 30 - start) % (60 * 60 * 24) in
    if ltb 0 (rest / (60 * 60)) && ltb 0 (rest % (60 * 60) / 60) then false else true

-- The loop: the `entries` left, the records left, `start_time` and `ret`
unfoldable pub scan_utmp : ℕ → List UtmpEntry → ℕ → ℕ → Option ℕ → ℕ × Option ℕ
scan_utmp zero us now start ret = (start, ret)
scan_utmp (suc entries) [] now start ret = (start, ret)
scan_utmp (suc entries) (other_entry ∷ us) now start ret = scan_utmp entries us now start ret
scan_utmp (suc entries) (boot_time t ∷ us) now start ret = elim (stops_at now t) [
  | true ↦ (t, some (since now t))
  | false ↦ scan_utmp entries us now t (some (since now t))
]

-- get_up_time_sec: `start_time` before and after, and the result. The file of the records is
-- there (else the program ends), and its size gives `entries`; without a record of the boot the
-- result is a variable that was never written.
unfoldable pub up_time_sec : ℕ → List UtmpEntry → ℕ → ℕ → Outcome (ℕ × ℕ)
up_time_sec entries us now start =
    if start == 0
    then (do
      let (start', ret) = scan_utmp entries us now 0 none
      found ← or_fault ret uninitialised
      ok (start', found))
    else ok (start, since now start)
