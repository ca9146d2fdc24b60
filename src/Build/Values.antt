-- ===== src/Build/Values.antt =====
-- A value that is put into a message, found again by its type and read.
use libnl.Prelude.{
  some, none, map, subst, Option-cases, ltb→lt, inl, inr, ℕ, ◌+◌, ◌-◌, ◌^◌, ◌<◌, ◌≤◌, ◌≡◌, refl,
  sym, ap, ◌∙◌, List, [], ◌∷◌, ◌++◌, take, replicate, min, length, arith, length-append,
}
use libnl.Prelude.Int.{pos}
use libnl.Prelude.Bytes.{length-to_bytes, to_bytes}
use mathlib.Core.Option
use libnl.Attr.{Attr, nla_total_size}
use libnl.Attr.Parse.{first_with, nla_find_lem}
use libnl.Attr.Bounds.{All-first_with}
use libnl.Errno.{success}
use libnl.Msg.{nlmsg_find_attr}
use libnl.Msg.Buffer.{NlMsg}
use libnl.Build.{nla_put, nla_put_uint, nla_put_string}
use libnl.Build.Put.{nla_put_lem}
use libnl.Build.Content.{
  Item, item_at, Carries, IsWhole, Holds, Fits, plain, Holds-aligned, Enters-Holds,
}
use libnl.Build.RoundTrip.{first_item, first_with-first_item, message-Stream}
use libnl.Attr.Payload.{nla_get_uint, nla_strlcpy}
use libnl.Build.Payload.{nla_get_uint-Carries, nla_strlcpy-Carries}

first_item_snoc :
    (t u : ℕ) (d : List ℕ) (l : List Item)
    → t ≡ u
    → first_item t (map plain l) ≡ none
    → u < 2 ^ 14
    → first_item t (map plain (l ++ (u, d) ∷ [])) ≡ some (u, d)
first_item_snoc t u d [] e h small = ground arith
first_item_snoc t u d (a ∷ l) e h small = ground (arith, first_item_snoc t u d l e)

item_of : (nla : Attr) {b : Item} → some (item_at nla) ≡ some b → item_at nla ≡ b
item_of nla e = cc

Fits-snoc :
    (l : List Item) (t : ℕ) (d : List ℕ) → Fits l → length d ≤ 65531 → Fits (l ++ (t, d) ∷ [])
Fits-snoc [] t d f h = (h, tt)
Fits-snoc (a ∷ l) t d f h = (f.0, Fits-snoc l t d f.1 h)

-- The attribute that nlmsg_find_attr finds has the payload that was put.
pub nlmsg_find_attr-Carries :
    {m : NlMsg} {h : ℕ} {l : List Item} (t : ℕ) {u : ℕ} {d : List ℕ}
    → Holds m h l
    → Fits l
    → first_item t (map plain l) ≡ some (u, d)
    → (nla : Attr) × (nlmsg_find_attr m.nm_nlh h t ≡ some (some nla)) × Carries nla d
unfolding nlmsg_find_attr
nlmsg_find_attr-Carries {l = l} t {u = u} {d = d} was f first =
    let (visited, s, e, w) = message-Stream was f in
    let same : Option.map item_at (first_with t visited) ≡ some (u, d) =
      first_with-first_item t visited ∙ ap (first_item t) e ∙ first in
    elim (Option-cases (first_with t visited)) [
      | inl absent ↦ absurd (ground arith)
      | inr (nla, found) ↦ (
        nla,
        nla_find_lem t s ∙ ap some found,
        subst (λ b. Carries nla b.1) (item_of nla (sym (ap (Option.map item_at) found) ∙ same))
            (All-first_with IsWhole t visited w found),
      )
    ]

-- A payload that nla_put enters for a type that the message does not hold is the one that
-- nlmsg_find_attr returns for the type.
pub nla_put-find :
    {m : NlMsg} {h : ℕ} {l : List Item} (t : ℕ) (d : List ℕ)
    → Holds m h l
    → Fits l
    → first_item t (map plain l) ≡ none
    → t < 2 ^ 14
    → length d ≤ 65531
    → m.nm_nlh.nlmsg_len + nla_total_size (length d) ≤ m.nm_size
    → (m' : NlMsg) × (nla_put m t (pos (length d)) d ≡ (success, m'))
      × ((nla : Attr) × (nlmsg_find_attr m'.nm_nlh h t ≡ some (some nla)) × Carries nla d)
nla_put-find {m} {h} {l} t d was f new small fits room = elim (nla_put_lem t d was.valid fits).1 [
  | inl (full, _) ↦ absurd (omega (arith, Holds-aligned was, ltb→lt _ _ full))
  | inr (_, (m', run, e)) ↦ (
    m',
    run,
    nlmsg_find_attr-Carries t (Enters-Holds h t l d was e) (Fits-snoc l t d f fits)
        (first_item_snoc t t d l refl new small),
  )
]

-- The writers of numbers and texts, as calls of nla_put.
put_uint_as :
    (w t value : ℕ) (m : NlMsg)
    → nla_put_uint w m t value ≡ nla_put m t (pos (length (to_bytes w value))) (to_bytes w value)
unfolding nla_put_uint
put_uint_as w t value m =
    ap (λ n. nla_put m t (pos n) (to_bytes w value)) (sym (length-to_bytes w value))

put_string_as :
    (t : ℕ) (str : List ℕ) (m : NlMsg)
    → nla_put_string m t str ≡ nla_put m t (pos (length (str ++ 0 ∷ []))) (str ++ 0 ∷ [])
unfolding nla_put_string
put_string_as t str m =
    ap (λ n. nla_put m t (pos n) (str ++ 0 ∷ [])) (omega (arith, length-append str (0 ∷ [])))

-- A number of w bytes that is put for a type that the message does not hold yet is read back with the
-- same width from what nlmsg_find_attr returns for the type. The message holds well-formed
-- attributes and has room for one more.
pub nla_get_uint-put :
    {m : NlMsg} {h : ℕ} {l : List Item} (w t value : ℕ)
    → Holds m h l
    → Fits l
    → first_item t (map plain l) ≡ none
    → t < 2 ^ 14
    → w ≤ 8
    → value < 256 ^ w
    → m.nm_nlh.nlmsg_len + nla_total_size w ≤ m.nm_size
    → (m' : NlMsg) × (nla_put_uint w m t value ≡ (success, m'))
      × ((nla : Attr) × (nlmsg_find_attr m'.nm_nlh h t ≡ some (some nla))
          × (nla_get_uint w nla ≡ value))
nla_get_uint-put {m} w t value was f new small narrow range room =
    let size = length-to_bytes w value in
    let (m', run, (nla, found, c)) =
      nla_put-find t (to_bytes w value) was f new small (omega arith) (omega arith) in
    (
      m',
      put_uint_as w t value m ∙ run,
      (nla, found, nla_get_uint-Carries w value (256 ^ w) nla refl range c),
    )

-- A text that is put for a type that the message does not hold yet is copied back by nla_strlcpy from
-- what nlmsg_find_attr returns for the type, whatever the size of the destination: the result is the
-- length of the text, and the destination has as much of the text as leaves room for a NUL, and zeros
-- behind it. The message holds well-formed attributes and has room for one more.
pub nla_strlcpy-put :
    {m : NlMsg} {h : ℕ} {l : List Item} (t : ℕ) (str : List ℕ) (dstsize : ℕ)
    → Holds m h l
    → Fits l
    → first_item t (map plain l) ≡ none
    → t < 2 ^ 14
    → length str < 65531
    → m.nm_nlh.nlmsg_len + nla_total_size (length str + 1) ≤ m.nm_size
    → 0 < dstsize
    → (m' : NlMsg) × (nla_put_string m t str ≡ (success, m'))
      × ((nla : Attr) × (nlmsg_find_attr m'.nm_nlh h t ≡ some (some nla))
          × (nla_strlcpy nla dstsize ≡ (
            length str,
            take (min (length str) (dstsize - 1)) str
                ++ replicate (dstsize - min (length str) (dstsize - 1)) 0,
          )))
nla_strlcpy-put {m} t str dstsize was f new small short room some_room =
    let size = length-append str (0 ∷ []) in
    let (m', run, (nla, found, c)) =
      nla_put-find t (str ++ 0 ∷ []) was f new small (omega arith) (omega arith) in
    (m', put_string_as t str m ∙ run, (nla, found, nla_strlcpy-Carries nla str dstsize c some_room))
