-- ===== src/Leaf/Hostphy/Links/Laws.antt =====
-- The adapters of a walk over the links.
use sflow.Common.{
  ℕ, ◌+◌, ◌*◌, ◌%◌, ◌^◌, ◌<◌, ◌≡◌, refl, ap, ◌∙◌, ok-injective, List, [], ◌∷◌, ◌++◌, append_assoc,
  append-nil, arith, length, none, some, ok,
}
use sflow.Common.Int.{ℤ, pos, negsuc}
use sflow.Memory.Endian.{Endian, htonl}
use sflow.Memory.Layout.{struct_size, field_size}
use sflow.Util.Mac.{mac_convert}
use sflow.Protocol.Counter.{Adapter, HostAdapters, adapter_fields, host_adapters_fields}
use sflow.Protocol.Sequence.{All}
use sflow.Leaf.System.{Link, Walk, System}
use sflow.Leaf.Hostphy.Links.{walk_datalinks, walk_links, gather_adapter, adapters_pack}

-- The links of a walk: none where dladm_open fails
abbrev pub links_of : Walk → List Link
links_of none = []
links_of (some (links, status)) = links

-- The callbacks' walk, for a walk of either outcome
pub walk_links_lem :
    {A : Type 0} (walk : Walk) (cb : _) (a a' : A)
    → walk_datalinks cb (links_of walk) a ≡ ok a'
    → (status : ℤ) × (walk_links walk cb a ≡ ok (status, a'))
unfolding walk_links walk_datalinks
walk_links_lem none cb a a' h = (negsuc 0, ap (λ x. ok (negsuc 0, x)) (ok-injective h))
walk_links_lem (some (links, status)) cb a a' h = (pos status, rw h refl)

-- The link has an address property, and its text can be read.
pub record HasMac (di : Link) : Type 0 where
  pub text : List ℕ
  pub values : ℕ
  pub mac : List ℕ
  pub is : di.mac_address ≡ some (text, values)
  pub reads : mac_convert text ≡ ok mac

module _ (e : Endian) (sys : System) where
  abbrev pub adapter_of : ℕ → (di : Link) → HasMac di → Adapter
  adapter_of i di h = record {
    if_index = htonl e di.linkid;
    mac_count = htonl e h.values;
    mac = h.mac ++ sys.stale i;
  }

  -- An adapter for each link, from number `i` on
  abbrev pub adapters_of : ℕ → (links : List Link) → All HasMac links → List Adapter
  adapters_of i [] h = []
  adapters_of i (di ∷ rest) (h, hs) = adapter_of i di h ∷ adapters_of (i + 1) rest hs

  pub length-adapters_of :
      (i : ℕ) (links : List Link) (h : All HasMac links)
      → length (adapters_of i links h) ≡ length links
  length-adapters_of i [] h = refl
  length-adapters_of i (di ∷ rest) (h, hs) = omega (arith, length-adapters_of (i + 1) rest hs)

  -- The object after `n` adapters
  abbrev gathered : ℕ → List Adapter → HostAdapters
  gathered n adapters = record {
    len = 4 + 16 * n;
    freed_len = sys.after_free (4 + 16 * n);
    count = n;
    adapters = adapters;
  }

  gather_adapter_lem :
      (n : ℕ) (adapters : List Adapter) (di : Link) (h : HasMac di)
      → 16 * n + 20 < 2 ^ 32
      → gather_adapter e sys di (gathered n adapters)
        ≡ ok (gathered (n + 1) (adapters ++ adapter_of n di h ∷ []))
  unfolding gather_adapter
  gather_adapter_lem n adapters di h small =
      let len : (4 + (n + 1) * (8 + 8)) % 2 ^ 32 ≡ 4 + 16 * (n + 1) = omega arith in
      let count : (n + 1) % 2 ^ 32 ≡ n + 1 = omega arith in rw (h.is, h.reads, len, count) refl

  walk-adapters :
      (links : List Link) (h : All HasMac links) (n : ℕ) (adapters : List Adapter)
      → 16 * (n + length links) + 4 < 2 ^ 32
      → walk_datalinks (gather_adapter e sys) links (gathered n adapters)
        ≡ ok (gathered (n + length links) (adapters ++ adapters_of n links h))
  unfolding walk_datalinks
  walk-adapters [] h n adapters small =
      let none_more : n + 0 ≡ n = omega arith in rw (none_more, append-nil adapters) refl
  walk-adapters (di ∷ rest) (h, hs) n adapters small =
      let more : n + length (di ∷ rest) ≡ n + 1 + length rest = omega arith in
      rw (gather_adapter_lem n adapters di h (omega arith), more)
        (walk-adapters rest hs (n + 1) (adapters ++ adapter_of n di h ∷ []) (omega arith)
          ∙ ap (λ (ads : List Adapter). ok (gathered (n + 1 + length rest) ads))
              (append_assoc adapters (adapter_of n di h ∷ []) (adapters_of (n + 1) rest hs)))

  abbrev pub adapters_record : (h : All HasMac (links_of sys.links)) → HostAdapters
  adapters_record h = record {
    len = 4 + 16 * length (links_of sys.links);
    freed_len = sys.after_free (4 + 16 * length (links_of sys.links));
    count = htonl e (length (links_of sys.links));
    adapters = adapters_of 0 (links_of sys.links) h;
  }

  -- Packing the adapters of links whose addresses can be read succeeds with an adapter for each
  -- link, in the order of the walk.
  pub adapters_pack_lem :
      (h : All HasMac (links_of sys.links))
      → 16 * length (links_of sys.links) + 4 < 2 ^ 32
      → adapters_pack e sys ≡ ok (adapters_record h)
  unfolding adapters_pack
  adapters_pack_lem h small =
      let links = links_of sys.links in
      let from_zero : 0 + length links ≡ length links = omega arith in
      let (status, walked) =
        walk_links_lem sys.links (gather_adapter e sys) (gathered 0 [])
          (gathered (length links) (adapters_of 0 links h))
          (walk-adapters links h 0 [] (omega arith)
            ∙ ap (λ (n : ℕ). ok (gathered n (adapters_of 0 links h))) from_zero) in
      rw walked refl

  struct_size-adapter_fields :
      (ads : List Adapter) → struct_size (adapter_fields ads) ≡ 16 * length ads
  unfolding struct_size field_size adapter_fields
  struct_size-adapter_fields [] = refl
  struct_size-adapter_fields (a ∷ ads) = omega (arith, struct_size-adapter_fields ads)

  -- The length word of the adapters covers the count and all adapters.
  pub adapters_record-len :
      (h : All HasMac (links_of sys.links))
      → (adapters_record h).len ≡ struct_size (host_adapters_fields (adapters_record h))
  unfolding host_adapters_fields struct_size field_size
  adapters_record-len h = omega (
    arith,
    struct_size-adapter_fields (adapters_of 0 (links_of sys.links) h),
    length-adapters_of 0 (links_of sys.links) h,
  )
