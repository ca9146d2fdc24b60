-- ===== src/Socket/Uses.antt =====
-- The set of ports in use, as the bits of used_ports_map, when a bit is set or cleared.
use libnl.Prelude.{
  ℕ, ◌+◌, ◌*◌, ◌/◌, ◌%◌, ◌^◌, ◌<◌, ◌≡◌, refl, ap, ◌∙◌, Bool, true, false, List, ◌==◌, if◌then◌else◌,
  inl, inr, Bool-cases, arith, length, set, get_or-set, length-set,
}
use libnl.Prelude.Word.{
  bit, set_bit, clear_bit, bit-set_bit, bit-clear_bit, set_bit-lt, clear_bit-le, bits_of_full,
}
use libnl.Socket.{word, full_word}

-- Whether the port with this number is in use.
abbrev pub in_use : List ℕ → ℕ → Bool
in_use ports nr = bit (word ports (nr / 32)) (nr % 32)

pub record IsMap (ports : List ℕ) : Type 0 where
  pub width : length ports ≡ 32
  pub words : (j : ℕ) → word ports j < 2 ^ 32

module _ {ports : List ℕ} (v : IsMap ports) where
  in_use-set :
      (i b w q : ℕ) (on : Bool)
      → i < 32
      → b < 32
      → ((m : ℕ) → bit w m ≡ (if b == m then on else bit (word ports i) m))
      → in_use (set ports i w) q ≡ (if (b + i * 32) == q then on else in_use ports q)
  in_use-set i b w q on il bl edit =
      let stored =
        ap (λ x. bit x (q % 32)) (get_or-set ports i (q / 32) w 0 (omega (arith, v.width))) in
      elim (Bool-cases (i == q / 32)) [
        | inl same ↦
            let at : i ≡ q / 32 = ground arith in
            ground (arith, stored, edit (q % 32), ap (λ j. bit (word ports j) (q % 32)) at)
        | inr other ↦ ground (arith, stored)
      ]

  set-IsMap : (i w : ℕ) → i < 32 → w < 2 ^ 32 → IsMap (set ports i w)
  set-IsMap i w il h = record {
    width = length-set ports i w ∙ v.width;
    words = λ j. ground (arith, get_or-set ports i j w 0 (omega (arith, v.width)), v.words j);
  }

  pub full_in_use :
      ((t : ℕ) → t < 32 → word ports t ≡ full_word) → (q : ℕ) → q < 1024 → in_use ports q ≡ true
  full_in_use full q l =
      ap (λ w. bit w (q % 32)) (full (q / 32) (omega arith))
      ∙ bits_of_full 32 full_word (q % 32) refl (omega arith)

-- The port for a bit that was free.
abbrev pub port_of : ℕ → ℕ → ℕ
port_of getpid nr = let port = getpid % 2 ^ 22 + nr * 2 ^ 22 in if port == 0 then 1024 else port

-- The map after the port with number nr was taken or given back.
pub record Changes (on : Bool) (nr : ℕ) (ports ports' : List ℕ) : Type 0 where
  pub still_map : IsMap ports'
  pub uses : (q : ℕ) → in_use ports' q ≡ (if nr == q then on else in_use ports q)

pub taken :
    {ports : List ℕ} (v : IsMap ports) (i b : ℕ)
    → i < 32
    → b < 32
    → Changes true (b + i * 32) ports (set ports i (set_bit (word ports i) b))
taken {ports = ports} v i b il bl = record {
  still_map =
      set-IsMap v i (set_bit (word ports i) b) il (set_bit-lt 32 (word ports i) b bl (v.words i));
  uses =
      λ q. in_use-set v i b (set_bit (word ports i) b) q true il bl (bit-set_bit (word ports i) b);
}

pub given_back :
    {ports : List ℕ} (v : IsMap ports) (i b : ℕ)
    → i < 32
    → b < 32
    → Changes false (b + i * 32) ports (set ports i (clear_bit (word ports i) b))
given_back {ports = ports} v i b il bl = record {
  still_map =
      set-IsMap v i (clear_bit (word ports i) b) il
        (omega (arith, clear_bit-le (word ports i) b, v.words i));
  uses = λ q.
      in_use-set v i b (clear_bit (word ports i) b) q false il bl (bit-clear_bit (word ports i) b);
}
