-- ===== src/TcpServer/Naming.antt =====
-- The names that matelib/TcpServer.cc gives to connections, cut to 31 bytes.
use matelib.Prelude.{
  ℕ, zero, suc, ◌^◌, ◌<◌, ◌≡◌, ◌≢◌, refl, sym, ap, ◌∙◌, List, [], ◌∷◌, ◌++◌, arith, length, take,
  drop, ◌==◌, ne→==_false, lt→ltb, if◌then◌else◌,
}
use matelib.Prelude.Text.{
  codes, decimal, value_from, value-decimal, AllDigits, decimal-AllDigits, length-decimal,
}
use matelib.InetAddress.{InetAddress, to_port, to_ip_port}
use matelib.TcpServer.{int_text, connection_name}

-- The number between the first byte and the first colon.
abbrev before_colon : List ℕ → List ℕ
before_colon [] = []
before_colon (x ∷ xs) = if x == b':' then [] else x ∷ before_colon xs

abbrev pub id_of : List ℕ → ℕ
id_of name = value_from 0 (before_colon (drop 1 name))

before_colon-take :
    (n : ℕ) (ds rest : List ℕ)
    → AllDigits ds
    → length ds < n
    → before_colon (take n (ds ++ (b':' ∷ rest))) ≡ ds
before_colon-take zero ds rest h bound = absurd (omega arith)
before_colon-take (suc n) [] rest h bound = refl
before_colon-take (suc n) (d ∷ ds) rest (digit, h) bound =
    rw (ne→==_false d b':' (λ e. absurd (omega (arith, e, digit.1))))
      (ap (◌∷◌ d) (before_colon-take n ds rest h (omega arith)))

pub id_of-connection_name :
    (id fd : ℕ) (local peer : InetAddress)
    → id < 2 ^ 31
    → id_of (connection_name id local fd peer) ≡ id
unfolding connection_name
id_of-connection_name id fd local peer small = rw (lt→ltb id (2 ^ 31) small) (
    ap (value_from 0) (
      before_colon-take 30 (decimal id)
        (to_port local ++ (codes "." ++ (int_text fd ++ (codes "-" ++ to_ip_port peer))))
        (decimal-AllDigits id) (omega (arith, length-decimal 9 id (omega arith))))
    ∙ value-decimal id)

pub connection_name-distinct :
    (i j fd fd' : ℕ) (local peer local' peer' : InetAddress)
    → i < 2 ^ 31
    → j < 2 ^ 31
    → i ≢ j
    → connection_name i local fd peer ≢ connection_name j local' fd' peer'
connection_name-distinct i j fd fd' local peer local' peer' h k ne e = ne (
    sym (id_of-connection_name i fd local peer h)
    ∙ ap id_of e
    ∙ id_of-connection_name j fd' local' peer' k)
