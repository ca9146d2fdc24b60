-- ===== src/Tests/Ports.antt =====
-- lib/socket.c with the ports 32 to 63 in use, and the process number 5.
use libnl.Prelude.{
  ℕ, zero, suc, ◌-◌, ◌/◌, ◌^◌, ◌<◌, ◌≡◌, ◌≢◌, ◌⊎◌, refl, true, false, ◌∷◌, replicate,
  get_or-replicate, arith,
}
use libnl.Errno.{success}
use libnl.Socket.{PortSock, nl_socket_get_local_port, free_port, PortMap, word, generate_local_port}
use libnl.Socket.Uses.{in_use, IsMap, Changes, port_of}
use libnl.Socket.Life.{free-get}
use libnl.Socket.Ports.{generate_local_port_lem}

abbrev ports_used : PortMap
ports_used = record { used_ports_map = 0 ∷ (2 ^ 32 - 1) ∷ replicate 30 0; idx_state = 1 }

port_words : (j : ℕ) → word ports_used.used_ports_map j < 2 ^ 32
port_words zero = omega arith
port_words (suc zero) = omega arith
port_words (suc (suc j)) = omega (arith, get_or-replicate {A = ℕ} 30 j 0)

ports-IsMap : IsMap ports_used.used_ports_map
ports-IsMap = record { width = refl; words = port_words }

generate_local_port_lem_example :
    (((q : ℕ) → q < 1024 → in_use ports_used.used_ports_map q ≡ true)
      × ((generate_local_port ports_used 5 0).0 ≡ 0)
      × ((generate_local_port ports_used 5 0).1.used_ports_map ≡ ports_used.used_ports_map))
    ⊎ ((nr : ℕ) × (nr < 1024)
        × (in_use ports_used.used_ports_map nr ≡ false)
        × Changes true nr ports_used.used_ports_map
            (generate_local_port ports_used 5 0).1.used_ports_map
        × ((generate_local_port ports_used 5 0).0 ≡ port_of 5 nr)
        × (port_of 5 nr ≢ 0)
        × (port_of 5 nr / 2 ^ 22 ≡ nr))
generate_local_port_lem_example = generate_local_port_lem ports_used 5 0 ports-IsMap

abbrev fresh_sock : PortSock
fresh_sock = record { local_pid = 0; own_port = true }

free-get_example :
    let (port, sk', m') = nl_socket_get_local_port fresh_sock ports_used 5 0 in
    let (o, m'') = free_port sk' m' in
    (port ≢ 0)
    × (o ≡ success)
    × ((q : ℕ) → in_use m''.used_ports_map q ≡ in_use ports_used.used_ports_map q)
free-get_example = free-get fresh_sock ports_used 5 0 ports-IsMap refl
