-- ===== src/Socket/Ports.antt =====
-- generate_local_port and release_local_port against the set of ports in use.
use libnl.Prelude.{
  ℕ, ◌+◌, ◌*◌, ◌/◌, ◌%◌, ◌^◌, ◌<◌, ◌≡◌, ◌≢◌, ◌⊎◌, sym, ap, ap₂, subst, ◌∙◌, true, false, some, List,
  ◌==◌, inl, inr, Bool-cases, Option-cases, arith, set,
}
use libnl.Prelude.Word.{bit, clear_bit}
use libnl.Errno.{success, bug}
use libnl.Socket.{
  PortMap, word, find_port, next_index, take_port, generate_local_port, release_local_port,
}
use libnl.Socket.Uses.{in_use, IsMap, Changes, port_of, taken, given_back, full_in_use}
use libnl.Socket.Walk.{find_port_full, find_port-some}

-- The number of the port for a bit.
number_of : (getpid i b : ℕ) → i < 32 → b < 32 → port_of getpid (b + i * 32) / 2 ^ 22 ≡ b + i * 32
number_of getpid i b il bl = ground arith

port_of_nonzero : (getpid nr : ℕ) → port_of getpid nr ≢ 0
port_of_nonzero getpid nr = ground arith

take_port_number :
    (m : PortMap) (getpid idx i b : ℕ)
    → i < 32
    → b < 32
    → (take_port m (getpid % 2 ^ 22) idx (some (i, b))).0 ≡ port_of getpid (b + i * 32)
unfolding take_port
take_port_number m getpid idx i b il bl = ground arith

word_number : (i b : ℕ) → b < 32 → (b + i * 32) / 32 ≡ i
word_number i b l = omega arith

bit_number : (i b : ℕ) → b < 32 → (b + i * 32) % 32 ≡ b
bit_number i b l = omega arith

free_bit :
    (ports : List ℕ) (i b : ℕ)
    → b < 32
    → bit (word ports i) b ≡ false
    → in_use ports (b + i * 32) ≡ false
free_bit ports i b bl free =
    ap₂ (λ j n. bit (word ports j) n) (word_number i b bl) (bit_number i b bl) ∙ free

-- generate_local_port returns 0 exactly when all 1024 ports are in use, and then no bit of the map
-- changes. Otherwise it takes a port that was free, changes no other, and returns a number that is
-- not 0 and tells the port.
pub generate_local_port_lem :
    (m : PortMap) (getpid time : ℕ)
    → IsMap m.used_ports_map
    → (((q : ℕ) → q < 1024 → in_use m.used_ports_map q ≡ true)
        × ((generate_local_port m getpid time).0 ≡ 0)
        × ((generate_local_port m getpid time).1.used_ports_map ≡ m.used_ports_map))
      ⊎ ((nr : ℕ) × (nr < 1024)
          × (in_use m.used_ports_map nr ≡ false)
          × Changes true nr m.used_ports_map (generate_local_port m getpid time).1.used_ports_map
          × ((generate_local_port m getpid time).0 ≡ port_of getpid nr)
          × (port_of getpid nr ≢ 0)
          × (port_of getpid nr / 2 ^ 22 ≡ nr))
unfolding generate_local_port take_port
generate_local_port_lem m getpid time v =
    let idx = next_index time m.idx_state in
    elim (Option-cases (find_port 32 m.used_ports_map (idx / 32) idx)) [
      | inl absent ↦ inl (
        full_in_use v (λ t l. find_port_full m.used_ports_map (idx / 32) idx t v.words absent l),
        ap (λ o. (take_port m (getpid % 2 ^ 22) idx o).0) absent,
        ap (λ o. (take_port m (getpid % 2 ^ 22) idx o).1.used_ports_map) absent,
      )
      | inr ((i, b), found) ↦
          let (il, bl, free) = find_port-some 32 m.used_ports_map (idx / 32) idx i b found in
          inr (
            b + i * 32,
            omega arith,
            free_bit m.used_ports_map i b bl free,
            subst
                (λ o.
                  Changes true (b + i * 32) m.used_ports_map
                    (take_port m (getpid % 2 ^ 22) idx o).1.used_ports_map)
                (sym found) (taken v i b il bl),
            ap (λ o. (take_port m (getpid % 2 ^ 22) idx o).0) found
                ∙ take_port_number m getpid idx i b il bl,
            port_of_nonzero getpid (b + i * 32),
            number_of getpid i b il bl,
          )
    ]

number_parts : (nr : ℕ) → nr % 32 + nr / 32 * 32 ≡ nr
number_parts nr = omega arith

release-Changes :
    (m : PortMap) (port : ℕ)
    → IsMap m.used_ports_map
    → port < 2 ^ 32
    → in_use m.used_ports_map (port / 2 ^ 22) ≡ true
    → (port == 0) ≡ false
    → Changes false (port / 2 ^ 22) m.used_ports_map (release_local_port m port).1.used_ports_map
unfolding release_local_port
release-Changes m port v l used number =
    let nr = port / 2 ^ 22 in
    rw (number, used)
      (subst
        (λ x.
          Changes false x m.used_ports_map (
            set m.used_ports_map (nr / 32) (clear_bit (word m.used_ports_map (nr / 32)) (nr % 32))))
        (number_parts nr) (given_back v (nr / 32) (nr % 32) (omega arith) (omega arith)))

-- release_local_port ends in BUG() and changes nothing for the number 0 and for a port that is not in
-- use; it frees any other, and touches no other port.
pub release_local_port_lem :
    (m : PortMap) (port : ℕ)
    → IsMap m.used_ports_map
    → port < 2 ^ 32
    → (((port ≡ 0) ⊎ (in_use m.used_ports_map (port / 2 ^ 22) ≡ false))
        × (release_local_port m port ≡ (bug, m)))
      ⊎ ((port ≢ 0)
          × (in_use m.used_ports_map (port / 2 ^ 22) ≡ true)
          × ((release_local_port m port).0 ≡ success)
          × Changes false
              (port / 2 ^ 22)
              m.used_ports_map
              (release_local_port m port).1.used_ports_map)
unfolding release_local_port
release_local_port_lem m port v l =
    let w = word m.used_ports_map (port / 2 ^ 22 / 32) in
    elim (Bool-cases (bit w (port / 2 ^ 22 % 32))) [
      | inr free ↦ inl (inr free, ground arith)
      | inl used ↦ elim (Bool-cases (port == 0)) [
        | inl null ↦ inl (inl (ground arith), rw null)
        | inr number ↦
            inr (ground arith, used, ground arith, release-Changes m port v l used number)
      ]
    ]

port_of-lt : (getpid nr : ℕ) → nr < 1024 → port_of getpid nr < 2 ^ 32
port_of-lt getpid nr l = ground arith

-- Taking a free port and giving it back.
back_again :
    {nr : ℕ} {ports ports' ports'' : List ℕ}
    → in_use ports nr ≡ false
    → Changes true nr ports ports'
    → Changes false nr ports' ports''
    → (q : ℕ) → in_use ports'' q ≡ in_use ports q
back_again {nr = nr} {ports = ports} free there back q = elim (Bool-cases (nr == q)) [
  | inl same ↦
      let at : nr ≡ q = ground arith in
      back.uses q ∙ rw same (sym free ∙ ap (λ n. in_use ports n) at)
  | inr other ↦ back.uses q ∙ rw other (there.uses q ∙ rw other)
]

-- A port that was generated, when one was free, can be released, and then the ports in use are those
-- from before.
pub release-generate :
    (m : PortMap) (getpid time : ℕ)
    → IsMap m.used_ports_map
    → (generate_local_port m getpid time).0 ≢ 0
    → let (port, m') = generate_local_port m getpid time in
      let (o, m'') = release_local_port m' port in
      (o ≡ success) × ((q : ℕ) → in_use m''.used_ports_map q ≡ in_use m.used_ports_map q)
release-generate m getpid time v some_port = elim (generate_local_port_lem m getpid time v) [
  | inl (_, null, _) ↦ absurd (some_port null)
  | inr (nr, l, free, there, e, nonzero, number) ↦
      let (port, m') = generate_local_port m getpid time in
      let nr_of : port / 2 ^ 22 ≡ nr = ap (λ p. p / 2 ^ 22) e ∙ number in
      let bound : port < 2 ^ 32 = omega (arith, port_of-lt getpid nr l) in
      elim (release_local_port_lem m' port there.still_map bound) [
        | inl (inl null, _) ↦ absurd (some_port null)
        | inl (inr unused, _) ↦
            absurd (ground (arith, there.uses nr, ap (λ n. in_use m'.used_ports_map n) nr_of))
        | inr (_, _, fine, back) ↦ (
          fine,
          back_again free there (
              subst
                (λ n.
                  Changes false n m'.used_ports_map (release_local_port m' port).1.used_ports_map)
                nr_of back),
        )
      ]
]
