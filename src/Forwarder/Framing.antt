-- ===== src/Forwarder/Framing.antt =====
-- forwarder.py, `_send_tcp`: how a message is framed on a TCP connection. The payload is bytes; the
-- decimal number has the number itself as fuel.
use mini_siem.Base.{
  ℕ, zero, suc, ◌+◌, ◌/◌, ◌%◌, true, false, List, [], ◌∷◌, ◌++◌, ltb, if◌then◌else◌, string_eq,
  nat_eq, ◌==◌, length, Text, codes, text_eq,
}

-- `f"{n}"`
unfoldable pub digits : ℕ → ℕ → Text
digits zero n = (b'0' + n % 10) ∷ []
digits (suc fuel) n = elim (ltb n 10) [
  | true ↦ (b'0' + n) ∷ []
  | false ↦ digits fuel (n / 10) ++ (b'0' + n % 10) ∷ []
]

abbrev pub decimal : ℕ → Text
decimal n = digits n n

-- the framed payload, `framing` being `tcp_framing`
unfoldable pub framed : Text → Text → Text
unfolding digits
framed framing payload =
    if framing == codes "octet"
    then decimal (length payload) ++ b' ' ∷ payload
    else payload ++ b'\n' ∷ []

-- the bytes of messages sent one after the other
unfoldable pub send_all : Text → List Text → Text
unfolding framed
send_all framing [] = []
send_all framing (m ∷ ms) = framed framing m ++ send_all framing ms
