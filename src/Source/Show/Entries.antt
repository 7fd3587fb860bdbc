-- ===== src/Source/Show/Entries.antt =====
-- The entry of a source in the reply of sflow_show_src.
use sflow.Common.{
  some, ℕ, ◌%◌, ◌^◌, ◌<◌, ◌≡◌, refl, ap, true, false, ◌⊎◌, inl, inr, List, [], arith, length, ltb,
  lt→ltb, ok,
}
use sflow.Common.Text.{codes}
use sflow.Memory.Layout.{char_array}
use sflow.Util.Itoa.{itoa, itoa-length}
use sflow.Source.Types.{
  Source, SourceType, Poll, poll, Interrupt, interrupt, type_number, flowsample,
  inter_poll_separation, ifgeneric, phyhost, vhost, flowstat,
}
use sflow.Source.Remove.{type_of}
use sflow.Source.Show.{
  max_link_namelen, SourceFields, to_char_array, type_text, named_fields, fields_of,
}

-- A number below 2^31 is written in decimal.
to_char_array_lem :
    (n : ℕ)
    → n < 2 ^ 31
    → (s : List ℕ) × (itoa n ≡ ok s) × (to_char_array n max_link_namelen ≡ ok s)
unfolding to_char_array
to_char_array_lem n h =
    let (s, e, le) = itoa-length n 9 (omega arith) in
    let low : n % 2 ^ 32 ≡ n = omega arith in
    (s, e, rw (low, lt→ltb n (2 ^ 31) h, e, lt→ltb (length s) max_link_namelen (omega arith)) refl)

-- The kind of a source is that of its type, and its number is an `int`.
abbrev pub IsShown : ℕ × Source → Type 0
IsShown (address, src) =
    ((p : Poll) × (src.kind ≡ poll p)
      × (p.interval < 2 ^ 31)
      × (ltb (type_number inter_poll_separation) (type_number src.source_type) ≡ true))
    ⊎ ((i : Interrupt) × (src.kind ≡ interrupt i)
        × (i.rate < 2 ^ 31)
        × (ltb (type_number inter_poll_separation) (type_number src.source_type) ≡ false))

-- The name of a type, as the requests write it
abbrev pub type_word : SourceType → List ℕ
type_word flowsample = codes "flow_sample"
type_word ifgeneric = codes "if_generic"
type_word flowstat = codes "flow_stat"
type_word phyhost = codes "host_phys"
type_word vhost = codes "host_virt"
type_word inter_poll_separation = codes "???"

-- The name is one that a request reads back as the type; only the separator has none.
abbrev pub IsRead : SourceType → Type 0
IsRead t = (type_of (type_word t) ≡ some t) ⊎ (t ≡ inter_poll_separation)

type_word-IsRead : (t : SourceType) → IsRead t
unfolding type_of
type_word-IsRead flowsample = inl refl
type_word-IsRead ifgeneric = inl refl
type_word-IsRead flowstat = inl refl
type_word-IsRead phyhost = inl refl
type_word-IsRead vhost = inl refl
type_word-IsRead inter_poll_separation = inr refl

-- An entry shows the name, the type, and in decimal the interval of a polling source or the rate
-- of another one; the other number is empty.
pub record IsEntry (f : SourceFields) (src : Source) : Type 0 where
  pub src_name : f.src_name ≡ char_array max_link_namelen src.name
  pub type_name : f.type_name ≡ char_array max_link_namelen (type_word src.source_type)
  pub is_read : IsRead src.source_type
  pub number :
      ((p : Poll) × (s : List ℕ) × (src.kind ≡ poll p)
        × (itoa p.interval ≡ ok s)
        × (f.interval ≡ char_array max_link_namelen s)
        × (f.rate ≡ char_array max_link_namelen []))
      ⊎ ((i : Interrupt) × (s : List ℕ) × (src.kind ≡ interrupt i)
          × (itoa i.rate ≡ ok s)
          × (f.rate ≡ char_array max_link_namelen s)
          × (f.interval ≡ char_array max_link_namelen []))

type_text-type_word : (t : SourceType) → type_text t ≡ type_word t
type_text-type_word flowsample = refl
type_text-type_word ifgeneric = refl
type_text-type_word flowstat = refl
type_text-type_word phyhost = refl
type_text-type_word vhost = refl
type_text-type_word inter_poll_separation = refl

pub fields_of-IsEntry :
    (address : ℕ) (src : Source)
    → IsShown (address, src)
    → (f : SourceFields) × (fields_of src ≡ ok f) × IsEntry f src
unfolding fields_of
fields_of-IsEntry address src (inl (p, k, small, t)) =
    let (s, e, made) = to_char_array_lem p.interval small in
    (
      record (named_fields src) { interval = char_array max_link_namelen s },
      rw (t, k, made) refl,
      record {
        src_name = refl;
        type_name = ap (char_array max_link_namelen) (type_text-type_word src.source_type);
        is_read = type_word-IsRead src.source_type;
        number = inl (p, s, k, e, refl, refl);
      },
    )
fields_of-IsEntry address src (inr (i, k, small, t)) =
    let (s, e, made) = to_char_array_lem i.rate small in
    (
      record (named_fields src) { rate = char_array max_link_namelen s },
      rw (t, k, made) refl,
      record {
        src_name = refl;
        type_name = ap (char_array max_link_namelen) (type_text-type_word src.source_type);
        is_read = type_word-IsRead src.source_type;
        number = inr (i, s, k, e, refl, refl);
      },
    )
