-- ===== src/Leaf/Hostphy/Memory/Laws.antt =====
-- The memory counters: the averages over the processors and the sums over the swap devices.
use sflow.Common.{
  ℕ, ◌+◌, ◌*◌, ◌/◌, ◌%◌, ◌^◌, ◌<◌, ◌≡◌, refl, ap, ◌∙◌, List, [], ◌∷◌, none, some, ok, arith,
  Bool-cases, Option-cases, inl, inr, ◌==◌, if◌then◌else◌, for_range_inv, for_range, sum_below,
  sum_below-next,
}
use sflow.Common.Text.{codes}
use sflow.Memory.Endian.{Endian, htonl}
use sflow.Util.Hyper.{hton_h}
use sflow.Util.Kstat.{Kernel, uint32, query_kstat}
use sflow.Util.Machine.{mem_bytes, page_size, page_size-4096}
use sflow.Protocol.Leaves.Host.{HostMemory}
use sflow.Protocol.Sequence.{total}
use sflow.Leaf.System.{SwapEntry, System}
use sflow.Leaf.Hostphy.Memory.{
  vm_stat, mem_round, walk_cpus_for_mem, page_bytes, add_swap, walk_swap, pages_free,
  cleared_memory, memory_pack,
}

-- The number of processors, as the kernel tells it
abbrev pub TellsCpus : Kernel → ℕ → Type 0
TellsCpus kernel n =
    query_kstat kernel (codes "unix") 0 (codes "system_misc") (codes "ncpus") uint32 ≡ some n

-- A number of pages that the kernel tells, 0 where it has none
unfoldable pub pages : Kernel → List ℕ → ℕ
pages kernel stat = elim (query_kstat kernel (codes "unix") 0 (codes "system_pages") stat uint32) [
  | none ↦ 0
  | some n ↦ n % 2 ^ 32
]

pages_free-pages : (kernel : Kernel) → pages_free kernel ≡ pages kernel (codes "pagesfree")
unfolding pages_free pages
pages_free-pages kernel = refl

pub mem_bytes-pages :
    (kernel : Kernel) (architecture : List ℕ)
    → mem_bytes kernel architecture ≡ pages kernel (codes "physmem") * 4096
unfolding mem_bytes pages
mem_bytes-pages kernel architecture =
    elim (Option-cases
      (query_kstat kernel (codes "unix") 0 (codes "system_pages") (codes "physmem") uint32)) [
        | inl e ↦ rw (e, mem_bytes, pages) refl
        | inr (n, e) ↦ rw (e, mem_bytes, pages, page_size-4096 architecture) refl
      ]

module _ (kernel : Kernel) (n : ℕ) where
  -- The share of each of the n processors, summed up, after `i` of them
  abbrev pub paged : HostMemory → ℕ → HostMemory
  paged h i = record h {
    page_in = sum_below i (λ j. vm_stat kernel j (codes "pgpgin") / n) % 2 ^ 32;
    page_out = sum_below i (λ j. vm_stat kernel j (codes "pgout") / n) % 2 ^ 32;
    swap_in = sum_below i (λ j. vm_stat kernel j (codes "swapin") / n) % 2 ^ 32;
    swap_out = sum_below i (λ j. vm_stat kernel j (codes "swapout") / n) % 2 ^ 32;
  }

  sum_round :
      (i : ℕ) (f : ℕ → ℕ)
      → (sum_below i f % 2 ^ 32 + f i % 2 ^ 32) % 2 ^ 32 ≡ sum_below (i + 1) f % 2 ^ 32
  sum_round i f = omega (arith, sum_below-next i f)

  mem_round_lem : (h : HostMemory) (i : ℕ) → mem_round kernel n i (paged h i) ≡ ok (paged h (i + 1))
  unfolding mem_round
  mem_round_lem h i =
      rw
        (
          sum_round i (λ j. vm_stat kernel j (codes "pgpgin") / n),
          sum_round i (λ j. vm_stat kernel j (codes "pgout") / n),
          sum_round i (λ j. vm_stat kernel j (codes "swapin") / n),
          sum_round i (λ j. vm_stat kernel j (codes "swapout") / n),
        )
        refl

  abbrev pub unpaged : HostMemory → HostMemory
  unpaged h = record h { page_in = 0; page_out = 0; swap_in = 0; swap_out = 0 }

  paged-unpaged : (h : HostMemory) → unpaged h ≡ paged h 0
  unfolding sum_below
  paged-unpaged h = refl

  mem_loop : (h : HostMemory) → for_range n 0 (mem_round kernel n) (unpaged h) ≡ ok (paged h n)
  mem_loop h =
      let P = λ (i : ℕ) (m : HostMemory). m ≡ paged h i in
      let keep : (i : ℕ) (m : HostMemory)
          → i < n
          → P i m
          → (m' : HostMemory) × (mem_round kernel n i m ≡ ok m') × P (i + 1) m' =
        λ i m small eq. (
          paged h (i + 1),
          ap (λ (x : HostMemory). mem_round kernel n i x) eq ∙ mem_round_lem h i,
          refl,
        ) in
      let (m, e_m, p) =
        for_range_inv P (mem_round kernel n) n keep n 0 (unpaged h) (omega arith)
          (paged-unpaged h) in
      e_m ∙ ap (λ (x : HostMemory). ok x) p

  pub walk_cpus_for_mem_lem :
      (h : HostMemory)
      → n < 2 ^ 32
      → TellsCpus kernel n
      → walk_cpus_for_mem kernel (unpaged h) ≡ ok (paged h n)
  unfolding walk_cpus_for_mem
  walk_cpus_for_mem_lem h small is =
      let wide : n % 2 ^ 32 ≡ n = omega arith in rw is (rw wide (mem_loop h))

module _ (sys : System) where
  -- The bytes of the devices
  abbrev swap_pages : List SwapEntry → ℕ
  swap_pages = total (λ s. s.pages * page_bytes sys)

  abbrev swap_free_pages : List SwapEntry → ℕ
  swap_free_pages = total (λ s. s.free * page_bytes sys)

  abbrev swapped : HostMemory → List SwapEntry → HostMemory
  swapped m entries = record m {
    swap_total = (m.swap_total + swap_pages entries) % 2 ^ 64;
    swap_free = (m.swap_free + swap_free_pages entries) % 2 ^ 64;
  }

  -- Adding up the swap devices
  pub add_swap_lem :
      (entries : List SwapEntry) (m : HostMemory)
      → m.swap_total < 2 ^ 64
      → m.swap_free < 2 ^ 64
      → add_swap sys entries m ≡ swapped m entries
  unfolding add_swap
  add_swap_lem [] m t f =
      let t' : (m.swap_total + 0) % 2 ^ 64 ≡ m.swap_total = omega arith in
      let f' : (m.swap_free + 0) % 2 ^ 64 ≡ m.swap_free = omega arith in rw (t', f') refl
  add_swap_lem (s ∷ rest) m t f =
      let m' = record m {
        swap_total = (m.swap_total + s.pages * page_bytes sys) % 2 ^ 64;
        swap_free = (m.swap_free + s.free * page_bytes sys) % 2 ^ 64;
      } in
      let e_t : (swapped m' rest).swap_total ≡ (swapped m (s ∷ rest)).swap_total = omega arith in
      let e_f : (swapped m' rest).swap_free ≡ (swapped m (s ∷ rest)).swap_free = omega arith in
      add_swap_lem rest m' (omega arith) (omega arith) ∙ rw (e_t, e_f) refl

  -- The devices that swapctl lists: none where it fails or counts none
  unfoldable pub swap_entries : List SwapEntry
  swap_entries = elim sys.swap_count [
    | none ↦ []
    | some num ↦ if num == 0 then [] else elim sys.swap_list [ none ↦ [] | some entries ↦ entries ]
  ]

  walk_swap_lem :
      (m : HostMemory)
      → m.swap_total < 2 ^ 64
      → m.swap_free < 2 ^ 64
      → (walk_swap sys m).1 ≡ swapped m swap_entries
  unfolding walk_swap swap_entries add_swap
  walk_swap_lem m t f = elim (Option-cases sys.swap_count) [
    | inl e ↦ rw (e, swap_entries) (add_swap_lem [] m t f)
    | inr (num, e) ↦ elim (Bool-cases (num == 0)) [
      | inl z ↦ rw (e, z, swap_entries) (add_swap_lem [] m t f)
      | inr z ↦ elim (Option-cases sys.swap_list) [
        | inl l ↦ rw (e, z, l, swap_entries) (add_swap_lem [] m t f)
        | inr (entries, l) ↦ rw (e, z, l, swap_entries) (add_swap_lem entries m t f)
      ]
    ]
  ]

  -- The structure for `n` processors and these swap devices
  abbrev pub memory_of : Endian → ℕ → HostMemory
  memory_of e n = record {
    total = hton_h e (pages sys.kernel (codes "physmem") * 4096);
    free = hton_h e (pages sys.kernel (codes "pagesfree") * 4096);
    shared = 0;
    buffers = 0;
    cached = 0;
    swap_total = hton_h e (swap_pages swap_entries % 2 ^ 64);
    swap_free = hton_h e (swap_free_pages swap_entries % 2 ^ 64);
    page_in = htonl e (paged sys.kernel n cleared_memory n).page_in;
    page_out = htonl e (paged sys.kernel n cleared_memory n).page_out;
    swap_in = htonl e (paged sys.kernel n cleared_memory n).swap_in;
    swap_out = htonl e (paged sys.kernel n cleared_memory n).swap_out;
  }

  -- Where the kernel tells the number n of processors, below 2 ^ 32, sflow_cr_host_memory_pack
  -- succeeds with the memory, the numbers of all and of free pages times 4096, the paging averages
  -- and the sums over the swap devices that swapctl lists.
  pub memory_pack-memory_of :
      (e : Endian) (n : ℕ)
      → n < 2 ^ 32
      → TellsCpus sys.kernel n
      → memory_pack e sys ≡ ok (memory_of e n)
  unfolding memory_pack
  memory_pack-memory_of e n small is =
      let start = record cleared_memory {
        total = mem_bytes sys.kernel sys.architecture;
        free = pages_free sys.kernel * page_size sys.architecture;
      } in
      let z : (t : ℕ) → 0 + t ≡ t = λ t. omega arith in
      rw
        (
          walk_cpus_for_mem_lem sys.kernel n start small is,
          walk_swap_lem (paged sys.kernel n start n) (omega arith) (omega arith),
          z (swap_pages swap_entries),
          z (swap_free_pages swap_entries),
          page_size-4096 sys.architecture,
          mem_bytes-pages sys.kernel sys.architecture,
          pages_free-pages sys.kernel,
        )
        refl
