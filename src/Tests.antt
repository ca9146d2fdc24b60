-- ===== src/Tests.antt =====
-- Concrete messages, runs of the code on them, and the theorems at these inputs.
mod Attrs
mod Messages
mod Building
mod Large
mod Tables
mod DataTests
mod Values
mod Ports
mod Receiving
mod Interrupted
mod Caches
mod Steps
mod Routes
mod Types
mod Handles
use libnl.Prelude.{ℕ, List, [], ◌∷◌, ◌++◌, replicate}
use libnl.Prelude.Int.{pos, negsuc}
use libnl.Msg.{Nlmsghdr}
use libnl.Msg.Buffer.{NlMsg, no_addr, no_creds}

-- Two attributes, a u8 of type 1 with its padding and a flag of type 2, and two bytes left over.
abbrev pub two_attrs : List ℕ
two_attrs = 5 ∷ 0 ∷ 1 ∷ 0 ∷ 42 ∷ 0 ∷ 0 ∷ 0 ∷ 4 ∷ 0 ∷ 2 ∷ 0 ∷ 9 ∷ 9 ∷ []

-- A message of 64 bytes that holds 4 bytes of protocol header and an attribute of type 3.
abbrev pub sample : NlMsg
sample = record {
  nm_protocol = negsuc 0;
  nm_flags = 0;
  nm_src = no_addr;
  nm_dst = no_addr;
  nm_creds = no_creds;
  nm_nlh = record {
    nlmsg_len = 28;
    nlmsg_type = 16;
    nlmsg_flags = 1;
    nlmsg_seq = 0;
    nlmsg_pid = 0;
    payload = 2 ∷ 0 ∷ 0 ∷ 0 ∷ 7 ∷ 0 ∷ 3 ∷ 0 ∷ 7 ∷ 8 ∷ 9 ∷ 0 ∷ replicate 36 0;
  };
  nm_size = 64;
  nm_refcnt = pos 1;
}
