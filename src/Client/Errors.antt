-- ===== src/Client/Errors.antt =====
-- common/masque_connectip.go and masque_proxy.go: what the proxies make of the errors of a
-- connection.
use Prim.Native.String.{String, [], ◌∷◌, ◌++◌ as str_append}
use Prim.Native.String.append
use Prim.Native.Char.{Char, code}
use text.Mathlib.Text.{◌==◌ as str_eq}
use text.Mathlib.TextEquality.{eq_iff}
use masque_vpn.Prelude.{
  ℕ, ◌≡◌, ◌≢◌, refl, sym, ap, subst, inl, inr, Bool, true, false, Option, none, some, Result, ok,
  err, List, arith, Bool-cases,
}
use masque_vpn.Server.Proxy.{IoError, is_network_closed}
use masque_vpn.Client.Stream.{
  wrapped, plain_error, Source, after_stream_read, read_source, read_packet, Sink, write_sink,
  write_packet,
}

first_code : String → ℕ
first_code [] = 0
first_code (c ∷ s) = code c

first_code-append : (c : Char) (s t : String) → first_code (str_append (c ∷ s) t) ≡ code c
unfolding first_code
first_code-append c s t = ap first_code (append.cons c s t)

other_text : (s t : String) → first_code s ≢ first_code t → str_eq s t ≡ false
other_text s t h = elim (Bool-cases (str_eq s t)) [
  | inl same ↦ absurd (h (ap first_code ((eq_iff s t).0 same)))
  | inr apart ↦ apart
]

-- The texts that stand for a closed network begin with E, c and u.
abbrev IsOther : ℕ → Type 0
IsOther n = (n ≢ 69) × (n ≢ 99) × (n ≢ 117)

not_closed :
    (text : String) → IsOther (first_code text) → is_network_closed (plain_error text) ≡ false
unfolding is_network_closed first_code
not_closed text (e, c, u) = rw (
  other_text text "EOF" e,
  other_text text "connection reset by peer" c,
  other_text text "use of closed network connection" u,
  is_network_closed,
)

-- An error that is wrapped is not taken for a closed network.
wrapped-open :
    (c : Char)
    → IsOther (code c)
    → (s : String) (e : IoError) → is_network_closed (wrapped (c ∷ s) e) ≡ false
wrapped-open c other s e =
    not_closed (str_append (c ∷ s) e.text)
      (subst IsOther (sym (first_code-append c s e.text)) other)

r-IsOther : IsOther (code "r")
r-IsOther = ((λ h. omega (arith, h)), (λ h. omega (arith, h)), (λ h. omega (arith, h)))

f-IsOther : IsOther (code "f")
f-IsOther = ((λ h. omega (arith, h)), (λ h. omega (arith, h)), (λ h. omega (arith, h)))

-- The errors of a read: on a connection that was closed, `EOF`; else one that no proxy takes for a
-- closed network or for a timeout.
abbrev pub ReadFails : Bool → Result IoError (List ℕ) → Type 0
ReadFails closed (ok packet) = closed ≡ false
ReadFails closed (err e) = (e.timeout ≡ false) × (is_network_closed e ≡ closed)

after_stream_read-ReadFails : (r : Result IoError (List ℕ)) → ReadFails false (after_stream_read r)
after_stream_read-ReadFails (ok packet) = refl
after_stream_read-ReadFails (err e) = elim (Bool-cases e.timeout) [
  | inl late ↦ rw late (refl, wrapped-open "r" r-IsOther "ead timeout: " e)
  | inr other ↦ rw other (refl, wrapped-open "f" f-IsOther "ailed to read from MASQUE stream: " e)
]

read_source-ReadFails : (s : Source) → ReadFails false (read_source s)
unfolding is_network_closed
read_source-ReadFails (Source.stream (some e) read) =
    (refl, wrapped-open "f" f-IsOther "ailed to set read deadline: " e)
read_source-ReadFails (Source.stream none read) = after_stream_read-ReadFails read
read_source-ReadFails (Source.channel (some packet)) = refl
read_source-ReadFails (Source.channel none) = (refl, refl)

abbrev pub WriteFails : Option IoError → Type 0
WriteFails none = Unit
WriteFails (some e) = is_network_closed e ≡ false

write_sink-WriteFails : (s : Sink) → WriteFails (write_sink s)
unfolding is_network_closed
write_sink-WriteFails (Sink.stream (some e) write) =
    wrapped-open "f" f-IsOther "ailed to set write deadline: " e
write_sink-WriteFails (Sink.stream none (some e)) =
    wrapped-open "f" f-IsOther "ailed to write to MASQUE stream: " e
write_sink-WriteFails (Sink.stream none none) = tt
write_sink-WriteFails (Sink.channel true) = tt
write_sink-WriteFails (Sink.channel false) = refl

-- Whatever the stream or the channel answers, timeouts included: `ReadPacket` fails on a connection
-- that was closed, no error of its is a timeout to the proxies, and they take its error for a closed
-- network exactly if the connection was closed at its end. No error of `WritePacket` is one of a
-- closed network to them, not even that of a connection that was closed.
pub packet_errors :
    (closed : Bool) (source : Source) (sink : Sink)
    → ReadFails closed (read_packet closed source) × WriteFails (write_packet closed sink)
unfolding read_packet write_packet is_network_closed
packet_errors true source sink = ((refl, refl), refl)
packet_errors false source sink = (read_source-ReadFails source, write_sink-WriteFails sink)
