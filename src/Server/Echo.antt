-- ===== src/Server/Echo.antt =====
-- vpn_server/internal/server/masque_handler.go: the proxies of a session over the connection that
-- `handleMASQUERequest` makes for it with `NewMASQUEConnForServer` (common/masque_connectip.go).
use masque_vpn.Prelude.{
  All-snoc, ℕ, ◌≤◌, ◌≡◌, sym, subst, inl, inr, Bool, true, false, Option, none, some, Result, ok,
  err, List, [], ◌∷◌, ◌++◌, length, All, ◌==◌, Bool-cases,
}
use masque_vpn.Ip.Addr.{Addr, bytes_eq}
use masque_vpn.Tunnel.Loopback.{Packet}
use masque_vpn.Tunnel.Calls.{new_line, Move, moves}
use masque_vpn.Tunnel.Flow.{nonempty}
use masque_vpn.Tunnel.Written.{writes, received_was_written}
use masque_vpn.Server.Parse.{ParseError, parse_source_ip}
use masque_vpn.Server.Proxy.{
  IoError, is_network_closed, Round, Proxied, Progress, goes_on, returns, pass_on, if_from,
  after_read, after_round, proxy, nothing_passed, proxy_client_to_tun,
}
use masque_vpn.Server.Filtering.{proxies_no_spoofing}

-- The packets that the rounds of a proxy read.
abbrev pub packets_of : Result IoError Packet → List Packet
packets_of (ok packet) = packet ∷ []
packets_of (err e) = []

abbrev pub read_in : List Round → List Packet
read_in [] = []
read_in (r ∷ rounds) = packets_of r.read ++ read_in rounds

module _ (P : Packet → Type 0) (parse : List ℕ → Result ParseError Addr) (client_ip : Addr) where
  abbrev HoldsIn : Progress → Type 0
  HoldsIn (goes_on s) = All P s.passed
  HoldsIn (returns s e) = All P s.passed

  pass_on-HoldsIn :
      (s : Proxied) (packet : Packet) (w : Option IoError)
      → All P s.passed
      → P packet
      → HoldsIn (pass_on s packet w)
  pass_on-HoldsIn s packet none a b = All-snoc P s.passed packet a b
  pass_on-HoldsIn s packet (some e) a b = elim (Bool-cases (is_network_closed e)) [
    | inl shut ↦ rw shut a
    | inr other ↦ rw other a
  ]

  if_from-HoldsIn :
      (s : Proxied) (packet : Packet) (w : Option IoError) (r : Result ParseError Addr)
      → All P s.passed
      → P packet
      → HoldsIn (if_from client_ip s packet w r)
  if_from-HoldsIn s packet w (err e) a b = a
  if_from-HoldsIn s packet w (ok ip) a b = elim (Bool-cases (bytes_eq ip client_ip)) [
    | inl mine ↦ rw mine (pass_on-HoldsIn s packet w a b)
    | inr other ↦ rw other a
  ]

  after_read-HoldsIn :
      (s : Proxied) (w : Option IoError) (r : Result IoError Packet)
      → All P s.passed
      → All P (nonempty (packets_of r))
      → HoldsIn (after_read parse client_ip s w r)
  after_read-HoldsIn s w (err e) a b = elim (Bool-cases (is_network_closed e)) [
    | inl shut ↦ rw shut a
    | inr other ↦ elim (Bool-cases e.timeout) [
      | inl late ↦ rw (other, late) a
      | inr failed ↦ rw (other, failed) a
    ]
  ]
  after_read-HoldsIn s w (ok []) a b = a
  after_read-HoldsIn s w (ok (x ∷ xs)) a b = elim (Bool-cases (length (x ∷ xs) == 0)) [
    | inl empty ↦ rw empty a
    | inr full ↦ rw full (if_from-HoldsIn s (x ∷ xs) w (parse (x ∷ xs)) a b.0)
  ]

  split_first :
      (r : Result IoError Packet) (ps : List Packet)
      → All P (nonempty (packets_of r ++ ps))
      → All P (nonempty (packets_of r)) × All P (nonempty ps)
  split_first (err e) ps a = (tt, a)
  split_first (ok []) ps a = (tt, a)
  split_first (ok (x ∷ xs)) ps a = ((a.0, tt), a.1)

  proxy-All :
      (rounds : List Round) (s : Proxied)
      → All P (nonempty (read_in rounds))
      → All P s.passed
      → All P (proxy parse client_ip rounds s).0.passed
  unfolding proxy
  proxy-All [] s a b = b
  proxy-All (r ∷ rounds) s a b =
      let (this, others) = split_first r.read (read_in rounds) a in
      go (after_read parse client_ip s r.written r.read)
        (after_read-HoldsIn s r.written r.read b this) (λ t kept. proxy-All rounds t others kept)
    where
      go :
          (p : Progress)
          → HoldsIn p
          → ((t : Proxied) → All P t.passed → All P (proxy parse client_ip rounds t).0.passed)
          → All P (after_round parse client_ip p (λ t. proxy parse client_ip rounds t)).0.passed
      go (goes_on t) kept rest = rest t kept
      go (returns t e) kept rest = kept

both : (P Q : Packet → Type 0) (ps : List Packet) → All P ps → All Q ps → All (λ p. P p × Q p) ps
both P Q [] a b = tt
both P Q (p ∷ ps) a b = ((a.0, b.0), both P Q ps a.1 b.1)

-- The packets that `proxyClientToTun` passes to the device, when its reads are those of the session's
-- connection, in any overlap of the calls on it: whatever holds of all packets that the server
-- itself wrote to that connection, none longer than the proxy's buffer of 2048 bytes, holds of them
-- all, and their source is the client's address. So none of them comes from the client.
pub passed_was_written :
    (P : Packet → Type 0) (has_tun : Bool) (client_ip : Addr) (ms : List Move) (rounds : List Round)
    → All P (writes ms)
    → All (λ p. length p ≤ 2048) (writes ms)
    → read_in rounds ≡ (moves 2048 new_line ms).received
    → All
        (λ p. P p × (parse_source_ip p ≡ ok client_ip))
        (proxy_client_to_tun has_tun client_ip rounds).0.passed
unfolding proxy_client_to_tun
passed_was_written P false client_ip ms rounds a fits reads = tt
passed_was_written P true client_ip ms rounds a fits reads =
    both P (λ p. parse_source_ip p ≡ ok client_ip)
      (proxy_client_to_tun true client_ip rounds).0.passed
      (proxy-All P parse_source_ip client_ip rounds nothing_passed
        (subst (λ ps. All P (nonempty ps)) (sym reads) (received_was_written P 2048 ms a fits)) tt)
      (proxies_no_spoofing true client_ip rounds []).0.0
