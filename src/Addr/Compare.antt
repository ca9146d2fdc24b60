-- ===== src/Addr/Compare.antt =====
-- nl_addr_cmp against the equality of addresses.
use libnl.Prelude.{
  ℕ, zero, suc, ◌≤◌, ◌≡◌, ◌↔◌, ◌⊎◌, refl, sym, ap, ◌∙◌, Option, none, some, List, ltb, length, take,
  length-take, Bool-cases, inl, inr, arith,
}
use libnl.Prelude.Int.{pos, sub_ℕ}
use libnl.Build.Payload.{memcmp-eq}
use libnl.Addr.{cmp_addr, NlAddr, nl_addr_cmp}

-- An address has no more bytes than were allocated for it.
abbrev pub IsAddr : NlAddr → Type 0
IsAddr a = (a.a_len ≤ a.a_maxsize) × (length a.a_addr ≡ a.a_maxsize)

-- Two addresses are the same if they have the same family and the same bytes and, unless they have no
-- bytes, the same prefix length.
pub record Same (a b : NlAddr) : Type 0 where
  pub family : a.a_family ≡ b.a_family
  pub len : a.a_len ≡ b.a_len
  pub bytes : take a.a_len a.a_addr ≡ take b.a_len b.a_addr
  pub prefix : (a.a_len ≡ 0) ⊎ (a.a_prefixlen ≡ b.a_prefixlen)

pub bytes_of : (a : NlAddr) → IsAddr a → length (take a.a_len a.a_addr) ≡ a.a_len
bytes_of a v = ground (arith, length-take a.a_len a.a_addr)

pub take_none : (n : ℕ) (p q : List ℕ) → n ≡ 0 → take n p ≡ take n q
take_none zero p q e = refl
take_none (suc n) p q e = absurd (omega arith)

sub-zero : (a b : ℕ) → (sub_ℕ a b ≡ pos 0) ↔ (a ≡ b)
sub-zero a b = (λ h. ground arith, λ h. ground arith)

cmp_addr-Same : (a b : NlAddr) → IsAddr a → IsAddr b → cmp_addr a b ≡ pos 0 → Same a b
unfolding cmp_addr
cmp_addr-Same a b va vb h =
    let family : a.a_family ≡ b.a_family = ground arith in
    let len : a.a_len ≡ b.a_len = ground arith in
    elim (Bool-cases (ltb 0 a.a_len)) [
      | inl some_bytes ↦
          let (there, back) =
            memcmp-eq (take a.a_len a.a_addr) (take b.a_len b.a_addr)
              (bytes_of a va ∙ len ∙ sym (bytes_of b vb)) in
          record {
            family = family;
            len = len;
            bytes = there (ground (arith, ap (λ n. take n b.a_addr) len));
            prefix = inr (ground arith);
          }
      | inr empty ↦ record {
        family = family;
        len = len;
        bytes = take_none a.a_len a.a_addr b.a_addr (ground arith) ∙ ap (λ n. take n b.a_addr) len;
        prefix = inl (ground arith);
      }
    ]

Same-cmp_addr : (a b : NlAddr) → IsAddr a → IsAddr b → Same a b → cmp_addr a b ≡ pos 0
unfolding cmp_addr
Same-cmp_addr a b va vb s =
    let (there, back) =
      memcmp-eq (take a.a_len a.a_addr) (take b.a_len b.a_addr)
        (bytes_of a va ∙ s.len ∙ sym (bytes_of b vb)) in
    elim s.prefix [
      | inl empty ↦ ground (arith, s.family, s.len)
      | inr prefix ↦ ground (arith, s.family, s.len, back s.bytes, ap (λ n. take n b.a_addr) s.len)
    ]

abbrev pub IsAddrIf : Option NlAddr → Type 0
IsAddrIf none = Unit
IsAddrIf (some a) = IsAddr a

abbrev pub SameIf : Option NlAddr → Option NlAddr → Type 0
SameIf none none = Unit
SameIf (some a) (some b) = Same a b
SameIf a b = ⊥

-- nl_addr_cmp returns 0 exactly when both addresses are NULL or the two are the same: of one family,
-- with the same bytes and, unless they have none, of the same prefix length. No address has more bytes
-- than were allocated for it.
pub nl_addr_cmp_lem :
    (a b : Option NlAddr) → IsAddrIf a → IsAddrIf b → (nl_addr_cmp a b ≡ pos 0) ↔ SameIf a b
unfolding nl_addr_cmp
nl_addr_cmp_lem none none va vb = (λ h. tt, λ h. refl)
nl_addr_cmp_lem none (some b) va vb = (λ h. absurd (ground arith), λ h. absurd h)
nl_addr_cmp_lem (some a) none va vb = (λ h. absurd (ground arith), λ h. absurd h)
nl_addr_cmp_lem (some a) (some b) va vb = (cmp_addr-Same a b va vb, Same-cmp_addr a b va vb)

Same-symm : (a b : NlAddr) → Same a b → Same b a
Same-symm a b s = record {
  family = sym s.family;
  len = sym s.len;
  bytes = sym s.bytes;
  prefix = ground (arith, s.prefix, s.len);
}

Same-trans : (a b c : NlAddr) → Same a b → Same b c → Same a c
Same-trans a b c s t = record {
  family = s.family ∙ t.family;
  len = s.len ∙ t.len;
  bytes = s.bytes ∙ t.bytes;
  prefix = ground (arith, s.prefix, t.prefix, s.len);
}

SameIf-refl : (a : Option NlAddr) → SameIf a a
SameIf-refl none = tt
SameIf-refl (some a) = record { family = refl; len = refl; bytes = refl; prefix = inr refl }

SameIf-symm : (a b : Option NlAddr) → SameIf a b → SameIf b a
SameIf-symm none none s = tt
SameIf-symm none (some b) s = absurd s
SameIf-symm (some a) none s = absurd s
SameIf-symm (some a) (some b) s = Same-symm a b s

SameIf-trans : (a b c : Option NlAddr) → SameIf a b → SameIf b c → SameIf a c
SameIf-trans none none c s t = t
SameIf-trans none (some b) c s t = absurd s
SameIf-trans (some a) none c s t = absurd s
SameIf-trans (some a) (some b) none s t = absurd t
SameIf-trans (some a) (some b) (some c) s t = Same-trans a b c s t

-- Comparing as 0 is reflexive, symmetric and transitive.
pub nl_addr_cmp_refl : (a : Option NlAddr) → IsAddrIf a → nl_addr_cmp a a ≡ pos 0
nl_addr_cmp_refl a va = (nl_addr_cmp_lem a a va va).1 (SameIf-refl a)

pub nl_addr_cmp_symm :
    (a b : Option NlAddr)
    → IsAddrIf a
    → IsAddrIf b
    → nl_addr_cmp a b ≡ pos 0
    → nl_addr_cmp b a ≡ pos 0
nl_addr_cmp_symm a b va vb h =
    (nl_addr_cmp_lem b a vb va).1 (SameIf-symm a b ((nl_addr_cmp_lem a b va vb).0 h))

pub nl_addr_cmp_trans :
    (a b c : Option NlAddr)
    → IsAddrIf a
    → IsAddrIf b
    → IsAddrIf c
    → nl_addr_cmp a b ≡ pos 0
    → nl_addr_cmp b c ≡ pos 0
    → nl_addr_cmp a c ≡ pos 0
nl_addr_cmp_trans a b c va vb vc h h' =
    (nl_addr_cmp_lem a c va vc).1
      (SameIf-trans a b c ((nl_addr_cmp_lem a b va vb).0 h) ((nl_addr_cmp_lem b c vb vc).0 h'))
