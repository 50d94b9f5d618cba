-- ===== src/InetAddress.antt =====
-- matelib/InetAddress.h: the address of an end of a connection, and its text. The text of the IP
-- address is what `inet_ntop` makes of it.
use matelib.Prelude.{ℕ, List, ◌++◌, take}
use matelib.Prelude.Text.{codes, decimal}

pub record InetAddress : Type 0 where
  pub ip : List ℕ
  pub port : ℕ

-- `snprintf` into 16 bytes.
abbrev pub to_port : InetAddress → List ℕ
to_port addr = take 15 (decimal addr.port)

abbrev pub to_ip_port : InetAddress → List ℕ
to_ip_port addr = addr.ip ++ (codes ":" ++ to_port addr)
