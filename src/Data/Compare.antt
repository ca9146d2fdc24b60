-- ===== src/Data/Compare.antt =====
-- What nl_data_cmp tells of two data.
use libnl.Prelude.{
  Bool-cases, inl, inr, ℕ, ◌+◌, ◌<◌, ◌≤◌, ◌≡◌, ◌≢◌, ◌↔◌, refl, sym, ap, ◌∙◌, true, some, List, ◌++◌,
  ltb, ◌==◌, if◌then◌else◌, length, take, take-length, take-append_eq, length-append, length-take,
  arith,
}
use libnl.Prelude.Int.{pos, negsuc}
use libnl.Errno.{success}
use libnl.Attr.Payload.{memcmp}
use libnl.Build.Payload.{memcmp-eq}
use libnl.Data.{NlData, nl_data_alloc, nl_data_append, nl_data_clone, nl_data_cmp, nl_data_get}

-- The size is that of the bytes.
abbrev pub IsSized : NlData → Type 0
IsSized d = d.d_size ≡ length d.d_data

nl_data_cmp-memcmp :
    (a b : NlData)
    → IsSized a
    → 0 < a.d_size
    → 0 < b.d_size
    → nl_data_cmp a b ≡ memcmp a.d_data (take a.d_size b.d_data)
unfolding nl_data_cmp nl_data_get
nl_data_cmp-memcmp a b s pa pb =
    ground (arith, ap (λ p. memcmp p (take a.d_size b.d_data)) (take-length a.d_size a.d_data s))

-- Two data of the same size, which is not 0, compare as 0 exactly when their bytes are the same.
pub nl_data_cmp_lem :
    (a b : NlData)
    → IsSized a
    → IsSized b
    → a.d_size ≡ b.d_size
    → 0 < a.d_size
    → (nl_data_cmp a b ≡ pos 0) ↔ (a.d_data ≡ b.d_data)
nl_data_cmp_lem a b sa sb same some_size =
    let whole = take-length a.d_size b.d_data (same ∙ sb) in
    let run = nl_data_cmp-memcmp a b sa some_size (omega arith) ∙ ap (memcmp a.d_data) whole in
    let (there, back) = memcmp-eq a.d_data b.d_data (sym sa ∙ same ∙ sb) in
    (λ h. there (sym run ∙ h), λ h. run ∙ back h)

-- Data that goes on where other data ends compares as equal to it, although the two differ: only as
-- many bytes are compared as the first has, and the sizes are not. The first must have some bytes.
pub nl_data_cmp_prefix :
    (d : NlData) (buf : List ℕ) (size : ℕ)
    → IsSized d
    → 0 < d.d_size
    → 0 < size
    → size ≤ length buf
    → let (o, longer) = nl_data_append d (some buf) size in
      (o ≡ success) × (nl_data_cmp d longer ≡ pos 0) × (longer.d_size ≢ d.d_size) × IsSized longer
unfolding nl_data_append
nl_data_cmp_prefix d buf size s some_size more enough =
    let longer : NlData = record { d_size = d.d_size + size; d_data = d.d_data ++ take size buf } in
    let cut = take-append_eq d.d_size d.d_data (take size buf) s in
    let (_, back) = memcmp-eq d.d_data d.d_data refl in
    let equal : nl_data_cmp d longer ≡ pos 0 =
      nl_data_cmp-memcmp d longer s some_size (omega arith)
      ∙ ap (memcmp d.d_data) cut
      ∙ back refl in
    let sized : IsSized longer =
      omega (arith, length-append d.d_data (take size buf), length-take size buf) in
    let run : ltb 0 size ≡ true = ground arith in rw run (refl, equal, omega arith, sized)

clone_same : (d : NlData) → IsSized d → nl_data_clone d ≡ d
unfolding nl_data_clone nl_data_alloc
clone_same d s =
    ap (λ bytes. record { d_size = d.d_size; d_data = bytes }) (take-length d.d_size d.d_data s)

-- A copy matches its original, unless there are no bytes: data of size 0 does not even match itself.
pub nl_data_cmp-clone :
    (d : NlData)
    → IsSized d
    → nl_data_cmp d (nl_data_clone d) ≡ (if d.d_size == 0 then negsuc 0 else pos 0)
unfolding nl_data_cmp nl_data_get
nl_data_cmp-clone d s = elim (Bool-cases (d.d_size == 0)) [
  | inl none_there ↦ rw none_there (ground arith)
  | inr some_size ↦
      let same = clone_same d s in
      let (_, back) = memcmp-eq d.d_data d.d_data refl in
      rw some_size (
        ap (nl_data_cmp d) same
        ∙ nl_data_cmp-memcmp d d s (ground arith) (ground arith)
        ∙ ap (memcmp d.d_data) (take-length d.d_size d.d_data s)
        ∙ back refl)
]
