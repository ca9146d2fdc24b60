-- ===== src/Socket/Life.antt =====
-- The local port over the life of a socket.
use libnl.Prelude.{ℕ, ◌-◌, ◌^◌, ◌≡◌, ◌≢◌, refl, ap, true, false, ◌==◌, inl, inr, Bool-cases, arith}
use libnl.Errno.{success}
use libnl.Socket.{PortMap, PortSock, generate_local_port, nl_socket_get_local_port, free_port}
use libnl.Socket.Uses.{in_use, IsMap}
use libnl.Socket.Ports.{generate_local_port_lem, release-generate}

get_taken :
    (sk : PortSock) (m : PortMap) (getpid time : ℕ)
    → sk.local_pid ≡ 0
    → (generate_local_port m getpid time).0 ≢ 0
    → nl_socket_get_local_port sk m getpid time ≡ (
      (generate_local_port m getpid time).0,
      record { local_pid = (generate_local_port m getpid time).0; own_port = false },
      (generate_local_port m getpid time).1,
    )
unfolding nl_socket_get_local_port
get_taken sk m getpid time fresh some_port = ground arith

get_none :
    (sk : PortSock) (m : PortMap) (getpid time : ℕ)
    → sk.local_pid ≡ 0
    → (generate_local_port m getpid time).0 ≡ 0
    → nl_socket_get_local_port sk m getpid time ≡ (
      2 ^ 32 - 1,
      record { local_pid = 2 ^ 32 - 1; own_port = true },
      (generate_local_port m getpid time).1,
    )
unfolding nl_socket_get_local_port
get_none sk m getpid time fresh no_port = ground arith

-- A socket with an unspecified port gets one that is not 0 when it is first asked for, and when the
-- socket is freed, the ports in use are those from before: also where no port was free, since the
-- number UINT32_MAX that the socket gets then is not released.
pub free-get :
    (sk : PortSock) (m : PortMap) (getpid time : ℕ)
    → IsMap m.used_ports_map
    → sk.local_pid ≡ 0
    → let (port, sk', m') = nl_socket_get_local_port sk m getpid time in
      let (o, m'') = free_port sk' m' in
      (port ≢ 0)
      × (o ≡ success)
      × ((q : ℕ) → in_use m''.used_ports_map q ≡ in_use m.used_ports_map q)
unfolding free_port
free-get sk m getpid time v fresh = elim (generate_local_port_lem m getpid time v) [
  | inl (_, null, same) ↦
      rw (get_none sk m getpid time fresh null)
        (omega arith, refl, λ q. ap (λ ports. in_use ports q) same)
  | inr (nr, l, free, there, e, nonzero, number) ↦
      let some_port : (generate_local_port m getpid time).0 ≢ 0 = omega arith in
      let (fine, back) = release-generate m getpid time v some_port in
      rw (get_taken sk m getpid time fresh some_port) (some_port, fine, back)
]

get_again :
    (sk : PortSock) (m : PortMap) (getpid time : ℕ)
    → sk.local_pid ≢ 0
    → nl_socket_get_local_port sk m getpid time ≡ (sk.local_pid, sk, m)
unfolding nl_socket_get_local_port
get_again sk m getpid time known = ground arith

-- Asked again at any time, a socket gives the same port, and neither the socket nor the map changes.
pub get-get :
    (sk : PortSock) (m : PortMap) (getpid time time' : ℕ)
    → let (port, sk', m') = nl_socket_get_local_port sk m getpid time in
      nl_socket_get_local_port sk' m' getpid time' ≡ (port, sk', m')
get-get sk m getpid time time' = elim (Bool-cases (sk.local_pid == 0)) [
  | inr known ↦
      let again = get_again sk m getpid time (ground arith) in
      rw (again, get_again sk m getpid time' (ground arith)) refl
  | inl fresh ↦ elim (Bool-cases ((generate_local_port m getpid time).0 == 0)) [
    | inl null ↦
        rw (get_none sk m getpid time (ground arith) (ground arith))
          (get_again _ _ getpid time' (omega arith))
    | inr some_port ↦
        rw (get_taken sk m getpid time (ground arith) (ground arith))
          (get_again _ _ getpid time' (ground arith))
  ]
]

-- The port of a socket is never the unspecified one once it was asked for.
pub local_port-nonzero :
    (sk : PortSock) (m : PortMap) (getpid time : ℕ)
    → (nl_socket_get_local_port sk m getpid time).0 ≢ 0
unfolding nl_socket_get_local_port
local_port-nonzero sk m getpid time = ground arith
