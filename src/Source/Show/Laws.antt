-- ===== src/Source/Show/Laws.antt =====
-- What sflow_show_src replies.

use sflow.Common.{
  ℕ, suc, ◌+◌, ◌*◌, ◌≡◌, refl, ap, ◌∙◌, true, Bool-cases, inl, inr, List, [], ◌∷◌, ◌++◌,
  append_assoc, append-nil, arith, length, if◌then◌else◌, ok,
}
use sflow.Protocol.Sequence.{All}
use sflow.Source.Text.Laws.{NoTab, without_blanks, remove_space_lem}
use sflow.Source.Types.{Source}
use sflow.Source.Registry.{Registry}
use sflow.Source.Registry.Laws.{IsFdTable}
use sflow.Source.Remove.{type_of, TypeFilter, filter_of, remove_source}
use sflow.Source.Remove.Laws.{fits, left, is_set, IsMade, matches-fits, remove_source-left}
use sflow.Source.Show.{
  max_link_namelen, SourceFields, ShowReply, show_one, show_each, sizeof_ssr, show_src,
}
use sflow.Source.Show.Entries.{IsShown, IsEntry, fields_of-IsEntry}

abbrev pub AreEntries : List SourceFields → List (ℕ × Source) → Type 0
AreEntries [] [] = Unit {0}
AreEntries [] (x ∷ xs) = ⊥
AreEntries (f ∷ fs) [] = ⊥
AreEntries (f ∷ fs) ((address, src) ∷ xs) = IsEntry f src × AreEntries fs xs

-- The sources of the list that a request means
abbrev pub shown : TypeFilter → List ℕ → List (ℕ × Source) → List (ℕ × Source)
shown filter srcname [] = []
shown filter srcname ((address, src) ∷ rest) =
    if fits filter srcname src
    then (address, src) ∷ shown filter srcname rest
    else shown filter srcname rest

-- The reply with these entries behind those that it has
abbrev with_entries : ShowReply → List SourceFields → ShowReply
with_entries buf fs = record buf {
  link_count = buf.link_count + length fs;
  entries = buf.entries ++ fs;
  len = buf.len + 4 * max_link_namelen * length fs;
}

entries-entries :
    (buf : ShowReply) (f : SourceFields) (fs : List SourceFields)
    → with_entries (with_entries buf (f ∷ [])) fs ≡ with_entries buf (f ∷ fs)
entries-entries buf f fs =
    let c : buf.link_count + 1 + length fs ≡ buf.link_count + suc (length fs) = omega arith in
    let l : buf.len + 4 * max_link_namelen + 4 * max_link_namelen * length fs
        ≡ buf.len + 4 * max_link_namelen * suc (length fs) =
      omega arith in
    rw (c, l, append_assoc buf.entries (f ∷ []) fs) refl

show_each_lem :
    (filter : TypeFilter) (srcname : List ℕ) (xs : List (ℕ × Source)) (buf : ShowReply)
    → is_set filter ≡ true
    → All IsShown xs
    → (fs : List SourceFields) × (show_each filter srcname xs buf ≡ ok (with_entries buf fs))
      × AreEntries fs (shown filter srcname xs)
unfolding show_each show_one
show_each_lem filter srcname [] buf set h =
    let c : buf.link_count + 0 ≡ buf.link_count = omega arith in
    let l : buf.len + 0 ≡ buf.len = omega arith in ([], rw (c, l, append-nil buf.entries) refl, tt)
show_each_lem filter srcname ((address, src) ∷ xs) buf set (h, hs) =
    elim (Bool-cases (fits filter srcname src)) [
      | inl t ↦
          let (f, made, is) = fields_of-IsEntry address src h in
          let next = with_entries buf (f ∷ []) in
          let (fs, e, are) = show_each_lem filter srcname xs next set hs in
          (
            f ∷ fs,
            rw (matches-fits filter srcname src set, t, made)
                (e ∙ ap (λ (b : ShowReply). ok b) (entries-entries buf f fs)),
            rw t (is, are),
          )
      | inr t ↦
          let (fs, e, are) = show_each_lem filter srcname xs buf set hs in
          (fs, rw (matches-fits filter srcname src set, t) e, rw t are)
    ]

-- The filter of a type's text
abbrev pub asked : List ℕ → TypeFilter
asked typestr = filter_of (without_blanks typestr) (type_of (without_blanks typestr))

abbrev pub reply_of : List SourceFields → ShowReply
reply_of fs = record {
  err = 0;
  link_count = length fs;
  entries = fs;
  len = sizeof_ssr + 4 * max_link_namelen * length fs;
}

-- For a name and a type without tabs, the type being known or "all", and sources whose kind is
-- that of their type and whose numbers are below 2 ^ 31, sflow_show_src replies with one entry for
-- each source of that type whose name begins with the given one, or for each source of that type
-- if the given name begins with "all", in the order of the list; an entry has the source's name,
-- the name of its type, which a request reads back as that type, and in decimal its interval or
-- rate, the other of which is empty, and the reply's count and size are those of the entries.
pub show_src-shown :
    (srcname typestr : List ℕ) (r : Registry)
    → NoTab srcname
    → NoTab typestr
    → is_set (asked typestr) ≡ true
    → All IsShown r.all_sources
    → (fs : List SourceFields) × (show_src srcname typestr r ≡ ok (reply_of fs))
      × AreEntries fs (shown (asked typestr) (without_blanks srcname) r.all_sources)
unfolding show_src
show_src-shown srcname typestr r tabs tabs' set h =
    let start = reply_of [] in
    let (fs, e, are) =
      show_each_lem (asked typestr) (without_blanks srcname) r.all_sources start set h in
    let z : 0 + length fs ≡ length fs = omega arith in
    (fs, rw (remove_space_lem srcname tabs, remove_space_lem typestr tabs', e, z) refl, are)

shown-left :
    (filter : TypeFilter) (srcname : List ℕ) (xs : List (ℕ × Source))
    → shown filter srcname (left filter srcname xs) ≡ []
shown-left filter srcname [] = refl
shown-left filter srcname ((address, src) ∷ xs) = elim (Bool-cases (fits filter srcname src)) [
  | inl t ↦ rw t (shown-left filter srcname xs)
  | inr t ↦ rw (t, t) (shown-left filter srcname xs)
]

left-IsShown :
    (filter : TypeFilter) (srcname : List ℕ) (xs : List (ℕ × Source))
    → All IsShown xs
    → All IsShown (left filter srcname xs)
left-IsShown filter srcname [] h = tt
left-IsShown filter srcname ((address, src) ∷ xs) (h, hs) =
    elim (Bool-cases (fits filter srcname src)) [
      | inl t ↦ rw t (left-IsShown filter srcname xs hs)
      | inr t ↦ rw t (h, left-IsShown filter srcname xs hs)
    ]

no_entries :
    (fs : List SourceFields) (xs : List (ℕ × Source)) → xs ≡ [] → AreEntries fs xs → fs ≡ []
no_entries [] xs e h = refl
no_entries (f ∷ fs) xs e h = elim (rw e at h) [ ]

-- For a name and a type without tabs, the type being known or "all", on a registry that agrees,
-- with sources as the add functions make them and numbers below 2 ^ 31: sflow_remove_source
-- succeeds, and sflow_show_src for the same name and type then replies with no source.
pub show_src-remove_source :
    (cancel : ℕ → ℕ) (srcname typestr : List ℕ) (r : Registry)
    → NoTab srcname
    → NoTab typestr
    → is_set (asked typestr) ≡ true
    → IsFdTable r
    → All IsMade r.all_sources
    → All IsShown r.all_sources
    → (r' : Registry) × (remove_source cancel srcname typestr r ≡ ok r')
      × (show_src srcname typestr r' ≡ ok (reply_of []))
show_src-remove_source cancel srcname typestr r tabs tabs' set table made h =
    let name = without_blanks srcname in
    let (r', e, same, _) = remove_source-left cancel srcname typestr r tabs tabs' set table made in
    let h' : All IsShown r'.all_sources =
      rw same (left-IsShown (asked typestr) name r.all_sources h) in
    let (fs, e', are) = show_src-shown srcname typestr r' tabs tabs' set h' in
    let none_left : shown (asked typestr) name r'.all_sources ≡ [] =
      rw same (shown-left (asked typestr) name r.all_sources) in
    (
      r',
      e,
      e'
          ∙ ap (λ (l : List SourceFields). ok (reply_of l))
              (no_entries fs (shown (asked typestr) name r'.all_sources) none_left are),
    )
