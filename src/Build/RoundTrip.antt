-- ===== src/Build/RoundTrip.antt =====
-- A message that a client fills with nla_put, read back with nlmsg_find_attr and nlmsg_parse.
use mathlib.Core.Option
use mathlib.Core.Path.{subst}
use libnl.Prelude.{
  All, drop, inl, inr, ltb→lt, length-append, ℕ, ◌+◌, ◌-◌, ◌^◌, ◌≤◌, ◌<◌, ◌≡◌, refl, sym, ap, ◌∙◌,
  false, Option, none, some, List, [], ◌∷◌, ◌++◌, ltb, length, arith, Bool-cases, map, append-nil,
  append_assoc, if◌then◌else◌, ◌==◌, get_or,
}
use libnl.Prelude.Int.{pos}
use libnl.Prelude.Bytes.{align}
use libnl.Errno.{Outcome, success}
use libnl.Attr.{validate_if, Attr, Table, nla_total_size}
use libnl.Attr.Stream.{Stream}
use libnl.Attr.Parse.{
  last_with, first_with, good_prefix, verdict, check, nla_parse_lem, nla_find_lem,
}
use libnl.Msg.{nlmsg_parse, nlmsg_find_attr, nlmsg_attrdata, nlmsg_attrlen, nlmsg_valid_hdr}
use libnl.Msg.Buffer.{NlMsg, nlmsg_put, nlmsg_alloc_size, reserved, with_header}
use libnl.Msg.Buffer.Valid.{
  IsValid, nlmsg_alloc_size-IsValid, nlmsg_alloc_size_room, too_long, padded_four, reserved_in,
  nlmsg_reserve-fits, reserved_in-Reserves,
}
use libnl.Build.{nla_put}
use libnl.Build.Put.{encode, length-encode, nla_put_lem}
use libnl.Build.Content.{
  IsWhole, Item, plain, encodes, Holds-aligned, Fits, item_at, Stream-encodes, Holds, Enters-Holds,
}

-- The next call is made only if the one before succeeded.
abbrev pub and_then : Outcome × NlMsg → (NlMsg → Outcome × NlMsg) → Outcome × NlMsg
and_then (success, m) f = f m
and_then (o, m) f = (o, m)

-- What a client does with the attributes of a list: a call of nla_put for each, up to an error.
pub put_all : NlMsg → List Item → Outcome × NlMsg
put_all m [] = (success, m)
put_all m ((t, d) ∷ l) = and_then (nla_put m t (pos (length d)) d) (λ m'. put_all m' l)

-- The last payload given for a type, and the first.
abbrev pub last_item : ℕ → List Item → Option Item
last_item t [] = none
last_item t (a ∷ l) = elim (last_item t l) [
  | some b ↦ some b
  | none ↦ if a.0 == t then some a else none
]

abbrev pub first_item : ℕ → List Item → Option Item
first_item t [] = none
first_item t (a ∷ l) = if a.0 == t then some a else first_item t l

last_with-last_item :
    (t : ℕ) (l : List Attr) → Option.map item_at (last_with t l) ≡ last_item t (map item_at l)
last_with-last_item t [] = refl
last_with-last_item t (a ∷ l) = ground (arith, last_with-last_item t l)

pub first_with-first_item :
    (t : ℕ) (l : List Attr) → Option.map item_at (first_with t l) ≡ first_item t (map item_at l)
first_with-first_item t [] = refl
first_with-first_item t (a ∷ l) = ground (arith, first_with-first_item t l)

-- What the walk over a message's attributes visits.
pub message-Stream :
    {m : NlMsg} {h : ℕ} {l : List Item}
    → Holds m h l
    → Fits l
    → (visited : List Attr) × Stream
        (nlmsg_attrdata m.nm_nlh h)
        (pos (nlmsg_attrlen m.nm_nlh h))
        visited
      × (map item_at visited ≡ map plain l)
      × All IsWhole visited
unfolding nlmsg_attrdata nlmsg_attrlen
message-Stream {m} {h} {l} was f =
    let size : m.nm_nlh.nlmsg_len - 16 - align h ≡ length (encodes l) = omega (arith, was.extent) in
    let (visited, s, e, w) = Stream-encodes l was.rest (m.nm_nlh.nlmsg_len - 16 - align h) f size in
    (
      visited,
      subst (λ p. Stream p (pos (m.nm_nlh.nlmsg_len - 16 - align h)) visited) (sym was.content) s,
      e,
      w,
    )

-- Of the attributes that a message holds nlmsg_find_attr returns the first with the type: its type
-- without the flags, and its payload, are those that were put. It returns NULL if there is none.
pub nlmsg_find_attr-Holds :
    {m : NlMsg} {h : ℕ} {l : List Item} (t : ℕ)
    → Holds m h l
    → Fits l
    → Option.map (Option.map item_at) (nlmsg_find_attr m.nm_nlh h t)
      ≡ some (first_item t (map plain l))
unfolding nlmsg_find_attr
nlmsg_find_attr-Holds t was f =
    let (visited, s, e, w) = message-Stream was f in
    ap (Option.map (Option.map item_at)) (nla_find_lem t s)
    ∙ ap some (first_with-first_item t visited ∙ ap (first_item t) e)

-- With no policy every attribute passes.
good_prefix_all :
    (maxtype : ℕ) (l : List Attr)
    → (good_prefix (check maxtype none) l ≡ l) × (verdict (check maxtype none) l ≡ success)
unfolding validate_if
good_prefix_all maxtype [] = (refl, refl)
good_prefix_all maxtype (a ∷ l) = let (g, v) = good_prefix_all maxtype l in (ap (λ r. a ∷ r) g, v)

-- nlmsg_parse with no policy succeeds on a message that holds attributes. The entry for each type up
-- to `maxtype` is then the last attribute put with the type, with its payload, or empty.
pub nlmsg_parse-Holds :
    {m : NlMsg} {h : ℕ} {l : List Item} (maxtype : ℕ) (tb : Table)
    → Holds m h l
    → Fits l
    → (tb' : Table) × (nlmsg_parse m.nm_nlh h maxtype none tb ≡ some (success, tb'))
      × ((t : ℕ) → t ≤ maxtype → Option.map item_at (get_or tb' t none) ≡ last_item t (map plain l))
unfolding nlmsg_parse nlmsg_valid_hdr
nlmsg_parse-Holds {m} {h} {l} maxtype tb was f =
    let (visited, s, e, w) = message-Stream was f in
    let (tb', run, entries) = nla_parse_lem maxtype none s in
    let (good, fine) = good_prefix_all maxtype visited in
    let enough : ltb m.nm_nlh.nlmsg_len (16 + h) ≡ false = ground (arith, was.extent) in
    (
      tb',
      rw enough (rw fine at run),
      λ t le.
          ap (Option.map item_at) (entries t le ∙ ap (last_with t) good)
          ∙ last_with-last_item t visited
          ∙ ap (last_item t) e,
    )

-- The calls of nla_put for a list of attributes all succeed if their encodings fit behind what the
-- message holds, and leave it holding them behind the old ones, in their order.
pub put_all-Holds :
    {m : NlMsg} (h : ℕ) (l new : List Item)
    → Holds m h l
    → Fits new
    → m.nm_nlh.nlmsg_len + length (encodes new) ≤ m.nm_size
    → (m' : NlMsg) × (put_all m new ≡ (success, m')) × Holds m' h (l ++ new)
unfolding put_all encodes
put_all-Holds {m} h l [] was f room = (m, refl, subst (Holds m h) (sym (append-nil l)) was)
put_all-Holds {m} h l ((t, d) ∷ new) was f room =
    let size : length (encodes ((t, d) ∷ new)) ≡ nla_total_size (length d) + length (encodes new) =
      length-append (encode t d) (encodes new)
      ∙ ap (λ n. n + length (encodes new)) (length-encode t d) in
    elim ((nla_put_lem t d was.valid f.0).1) [
      | inl (full, _) ↦ absurd (omega (arith, Holds-aligned was, ltb→lt _ _ full))
      | inr (_, (m₁, run, e)) ↦
          let (m₂, runs, holds) =
            put_all-Holds h (l ++ (t, d) ∷ []) new (Enters-Holds h t l d was e) f.1
              (omega (arith, e.grown, e.same_size, Holds-aligned was)) in
          (
            m₂,
            ap (λ r. and_then r (λ m'. put_all m' new)) run ∙ runs,
            subst (Holds m₂ h) (append_assoc l ((t, d) ∷ []) new) holds,
          )
    ]

encodes_none : length (encodes []) ≡ 0
unfolding encodes
encodes_none = refl

-- nlmsg_put on a message that holds a bare header reserves the protocol header: no attributes yet.
nlmsg_put-Holds :
    {m : NlMsg} (pid seq type h flags : ℕ)
    → IsValid m
    → m.nm_nlh.nlmsg_len ≡ 16
    → 16 + align h ≤ m.nm_size
    → (m' : NlMsg) × (nlmsg_put m pid seq type h flags ≡ (success, m'))
      × Holds m' h []
      × (m'.nm_size ≡ m.nm_size)
unfolding nlmsg_put encodes
nlmsg_put-Holds {m} pid seq type h flags v bare room =
    let headed = with_header m pid seq type flags in
    let v' : IsValid headed = omega (arith, v.memory, v.has_header, v.fits, v.small) in
    let has_header : ltb m.nm_nlh.nlmsg_len 16 ≡ false = ground arith in
    elim (Bool-cases (ltb 0 h)) [
      | inl some_header ↦
          let fits : too_long headed h 4 ≡ false = ground (arith, padded_four h) in
          let r = reserved_in-Reserves headed h 4 v' fits in
          (
            reserved_in headed h 4,
            rw (has_header, some_header) (ap reserved (nlmsg_reserve-fits headed h 4 fits)),
            record {
              valid = r.valid;
              rest = drop (align h) (reserved_in headed h 4).nm_nlh.payload;
              content = refl;
              extent = omega (arith, r.grown, padded_four h);
            },
            r.same_size,
          )
      | inr empty_header ↦ (
        headed,
        rw (has_header, empty_header),
        record {
          valid = v';
          rest = drop (align h) m.nm_nlh.payload;
          content = refl;
          extent = ground arith;
        },
        refl,
      )
    ]

-- A new message of `size` bytes, a header for `h` bytes of protocol header by nlmsg_put, and one
-- nla_put for each attribute of a list: if all of it fits into `size`, every call succeeds, and on
-- the result nlmsg_parse with no policy succeeds with a table whose entry for each type up to
-- `maxtype` is the last attribute of the list with that type, flags aside, with its payload.
pub build_parse :
    (size pid seq type h flags maxtype : ℕ) (l : List Item) (tb : Table)
    → size < 2 ^ 31
    → Fits l
    → 16 + align h + length (encodes l) ≤ size
    → (m m' : NlMsg) × (nlmsg_put (nlmsg_alloc_size size) pid seq type h flags ≡ (success, m))
      × (put_all m l ≡ (success, m'))
      × ((tb' : Table) × (nlmsg_parse m'.nm_nlh h maxtype none tb ≡ some (success, tb'))
          × ((t : ℕ)
              → t ≤ maxtype
              → Option.map item_at (get_or tb' t none) ≡ last_item t (map plain l)))
build_parse size pid seq type h flags maxtype l tb small f room =
    let (valid, bare) = nlmsg_alloc_size-IsValid size small in
    let total = nlmsg_alloc_size_room size (omega arith) in
    let (m, run, holds, same) =
      nlmsg_put-Holds pid seq type h flags valid bare (omega (arith, total)) in
    let (m', runs, holds') =
      put_all-Holds h [] l holds f (omega (arith, holds.extent, same, total, encodes_none)) in
    (m, m', run, runs, nlmsg_parse-Holds maxtype tb holds' f)
