-- ===== src/Socket.antt =====
-- lib/socket.c: the local ports of the sockets of a process. The process number and the time are
-- arguments; the lock is left out, as each function here runs inside it.
pub mod Walk
pub mod Uses
pub mod Ports
pub mod Life
use Prim.Native.Nat.{bit_xor}
use libnl.Prelude.{
  ℕ, zero, suc, ◌+◌, ◌-◌, ◌*◌, ◌/◌, ◌%◌, ◌^◌, Bool, true, false, not, Option, none, some, List,
  ◌==◌, if◌then◌else◌, get_or, set,
}
use libnl.Prelude.Word.{bit, set_bit, clear_bit}
use libnl.Errno.{Outcome, success, bug}

-- The 32 words of used_ports_map, and idx_state.
pub record PortMap : Type 0 where
  pub used_ports_map : List ℕ
  pub idx_state : ℕ

abbrev pub word : List ℕ → ℕ → ℕ
word ports i = get_or ports i 0

abbrev pub full_word : ℕ
full_word = 2 ^ 32 - 1

unfoldable pub next_index : ℕ → ℕ → ℕ
next_index time idx =
    if idx == 0
    then bit_xor (bit_xor time (time / 2 ^ 16)) 0x3047 % 2 ^ 16
    else (idx + 20011) % 2 ^ 16

-- The inner loop: the first free bit, and n at its end.
unfoldable pub find_free : ℕ → ℕ → ℕ → Option ℕ
find_free zero w n = none
find_free (suc left) w n =
    let n' = (n + 13) % 32 in if bit w n' then find_free left w n' else some n'

-- What n is after the inner loop found no free bit.
unfoldable pub after_bits : ℕ → ℕ → ℕ
after_bits zero n = n
after_bits (suc left) n = after_bits left ((n + 13) % 32)

unfoldable pub next_block : ℕ → ℕ → ℕ
next_block j i = if j == 31 then 0 else (i + 6) % 31 + 1

-- One turn of the outer loop: a word with no free bit is passed over, else the inner loop runs; and
-- what n is afterwards if no bit was found.
unfoldable pub try_word : ℕ → ℕ → Option ℕ
try_word w n = if w == full_word then none else find_free 32 w n

unfoldable pub after_word : ℕ → ℕ → ℕ
after_word w n = if w == full_word then n else after_bits 32 n

-- The outer loop, with `left` turns left of the 32: the word and the bit of a port that is free.
unfoldable pub find_port : ℕ → List ℕ → ℕ → ℕ → Option (ℕ × ℕ)
find_port zero ports i n = none
find_port (suc left) ports i n =
    let i' = next_block (31 - left) i in
    elim (try_word (word ports i') n) [
      | some b ↦ some (i', b)
      | none ↦ find_port left ports i' (after_word (word ports i') n)
    ]

-- The port for a free bit, and the map with the bit set.
unfoldable pub take_port : PortMap → ℕ → ℕ → Option (ℕ × ℕ) → ℕ × PortMap
take_port m pid idx none = (0, record m { idx_state = idx })
take_port m pid idx (some (i, b)) = (
  let port = (pid + (b + i * 32) * 2 ^ 22) % 2 ^ 32 in if port == 0 then 1024 else port,
  record {
    used_ports_map = set m.used_ports_map i (set_bit (word m.used_ports_map i) b);
    idx_state = idx;
  },
)

unfoldable pub generate_local_port : PortMap → ℕ → ℕ → ℕ × PortMap
generate_local_port m getpid time =
    let idx = next_index time m.idx_state in
    take_port m (getpid % 2 ^ 22) idx (find_port 32 m.used_ports_map (idx / 32) idx)

unfoldable pub release_local_port : PortMap → ℕ → Outcome × PortMap
release_local_port m port =
    let nr = port / 2 ^ 22 in
    let i = nr / 32 in
    let w = word m.used_ports_map i in
    if port == 0
    then (bug, m)
    else if bit w (nr % 32)
    then (success, record m { used_ports_map = set m.used_ports_map i (clear_bit w (nr % 32)) })
    else (bug, m)

-- What the functions on ports read and write of a struct nl_sock: `own_port` is NL_OWN_PORT.
pub record PortSock : Type 0 where
  pub local_pid : ℕ
  pub own_port : Bool

unfoldable pub set_local_port_no_release :
    PortSock → Bool → PortMap → ℕ → ℕ → ℕ × PortSock × PortMap
set_local_port_no_release sk generate_other m getpid time =
    let (port, m') = if generate_other then generate_local_port m getpid time else (0, m) in
    (port, record { local_pid = port; own_port = port == 0 }, m')

unfoldable pub nl_socket_get_local_port : PortSock → PortMap → ℕ → ℕ → ℕ × PortSock × PortMap
nl_socket_get_local_port sk m getpid time =
    if sk.local_pid == 0
    then (let (port, m') = generate_local_port m getpid time in
        if port == 0
        then (2 ^ 32 - 1, record { local_pid = 2 ^ 32 - 1; own_port = true }, m')
        else (port, record { local_pid = port; own_port = false }, m'))
    else (sk.local_pid, sk, m)

unfoldable pub nl_socket_set_local_port : PortSock → ℕ → PortMap → Outcome × PortSock × PortMap
nl_socket_set_local_port sk port m =
    let (o, m') = if sk.own_port then (success, m) else release_local_port m sk.local_pid in
    elim o [
      | success ↦ (success, record { local_pid = port; own_port = true }, m')
      | e ↦ (e, sk, m')
    ]

-- The part of nl_socket_free that is about the port.
unfoldable pub free_port : PortSock → PortMap → Outcome × PortMap
free_port sk m = if sk.own_port then (success, m) else release_local_port m sk.local_pid
