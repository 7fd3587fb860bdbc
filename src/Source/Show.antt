-- ===== src/Source/Show.antt =====
-- sflow_show_src of sflow/sflow_source.c, and toCharArray of sflow/sflow_util.c, which it calls. The
-- reply's buffer is the reply's header and an entry for each source.
pub mod Entries
pub mod Laws
use sflow.Common.{
  ℕ, ◌+◌, ◌-◌, ◌*◌, ◌%◌, ◌^◌, List, [], ◌∷◌, ◌++◌, length, ltb, if◌then◌else◌, Outcome, ok, fault,
  ◌>>=◌, out_of_bounds,
}
use sflow.Common.Text.{codes}
use sflow.Memory.Layout.{char_array}
use sflow.Util.Itoa.{itoa}
use sflow.Source.Text.{remove_space}
use sflow.Source.Types.{
  Source, SourceType, flowsample, inter_poll_separation, ifgeneric, phyhost, vhost, flowstat,
  type_number, as_poll, as_interrupt,
}
use sflow.Source.Registry.{Registry}
use sflow.Source.Remove.{type_of, filter_of, TypeFilter, matches}

-- MAX_LINK_NAMELEN
abbrev pub max_link_namelen : ℕ
max_link_namelen = 32

-- sflow_src_fields_t, four arrays of that size
pub record SourceFields : Type 0 where
  pub src_name : List ℕ
  pub type_name : List ℕ
  pub rate : List ℕ
  pub interval : List ℕ

-- sflowd_ssr_t and the entries behind it; `len` is what is passed back as the size.
pub record ShowReply : Type 0 where
  pub err : ℕ
  pub link_count : ℕ
  pub entries : List SourceFields
  pub len : ℕ

-- sprintf (str, "%d", num) into `len` bytes
unfoldable pub to_char_array : ℕ → ℕ → Outcome (List ℕ)
to_char_array num len = do
  str ←
      (if ltb (num % 2 ^ 32) (2 ^ 31)
        then itoa (num % 2 ^ 32)
        else (do s ← itoa (2 ^ 32 - num % 2 ^ 32); ok (45 ∷ s)))
  if ltb (length str) len then ok str else fault out_of_bounds

-- The `switch`
abbrev pub type_text : SourceType → List ℕ
type_text flowsample = codes "flow_sample"
type_text ifgeneric = codes "if_generic"
type_text flowstat = codes "flow_stat"
type_text phyhost = codes "host_phys"
type_text vhost = codes "host_virt"
type_text inter_poll_separation = codes "???"

-- The fields that every source has; the arrays were cleared, and strncpy cuts what is too long.
abbrev pub named_fields : Source → SourceFields
named_fields src = record {
  src_name = char_array max_link_namelen src.name;
  type_name = char_array max_link_namelen (type_text src.source_type);
  rate = char_array max_link_namelen [];
  interval = char_array max_link_namelen [];
}

unfoldable pub fields_of : Source → Outcome SourceFields
fields_of src =
    if ltb (type_number inter_poll_separation) (type_number src.source_type)
    then (do
      p ← as_poll src.kind
      str_val ← to_char_array p.interval max_link_namelen
      ok (record (named_fields src) { interval = char_array max_link_namelen str_val }))
    else (do
      i ← as_interrupt src.kind
      str_val ← to_char_array i.rate max_link_namelen
      ok (record (named_fields src) { rate = char_array max_link_namelen str_val }))

-- The body of the loop
unfoldable pub show_one : ShowReply → Source → Outcome ShowReply
show_one buf src = do
  to_add ← fields_of src
  ok (record buf {
    link_count = buf.link_count + 1;
    entries = buf.entries ++ to_add ∷ [];
    len = buf.len + 4 * max_link_namelen;
  })

unfoldable pub show_each : TypeFilter → List ℕ → List (ℕ × Source) → ShowReply → Outcome ShowReply
show_each filter srcname [] buf = ok buf
show_each filter srcname ((address, src) ∷ rest) buf = do
  hit ← matches filter srcname src
  buf' ← (if hit then show_one buf src else ok buf)
  show_each filter srcname rest buf'

-- sizeof (sflowd_ssr_t)
abbrev pub sizeof_ssr : ℕ
sizeof_ssr = 8

unfoldable pub show_src : List ℕ → List ℕ → Registry → Outcome ShowReply
show_src srcname typestr r = do
  name ← remove_space srcname
  typ ← remove_space typestr
  show_each (filter_of typ (type_of typ)) name r.all_sources
      (record { err = 0; link_count = 0; entries = []; len = sizeof_ssr })
