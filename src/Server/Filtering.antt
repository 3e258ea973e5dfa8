-- ===== src/Server/Filtering.antt =====
-- vpn_server/internal/server/masque_handler.go: which packets the proxies let through.
use masque_vpn.Prelude.{
  All-snoc, ℕ, ◌+◌, ◌≡◌, refl, ap, ◌∙◌, inl, inr, Bool, true, false, Option, none, some, Result, ok,
  err, List, [], ◌∷◌, ◌++◌, arith, length, length-append, All, ◌==◌, Bool-cases,
}
use masque_vpn.Ip.Addr.{Addr, bytes_eq, bytes_eq_iff}
use masque_vpn.Server.Parse.{ParseError, parse_source_ip, parse_destination_ip}
use masque_vpn.Server.Proxy.{
  IoError, is_network_closed, Round, Proxied, Progress, goes_on, returns, pass_on, if_from,
  after_read, after_round, proxy, nothing_passed, proxy_client_to_tun, proxy_tun_to_client,
}

abbrev pub total_length : List (List ℕ) → ℕ
total_length [] = 0
total_length (p ∷ ps) = length p + total_length ps

total_length-append :
    (ps qs : List (List ℕ)) → total_length (ps ++ qs) ≡ total_length ps + total_length qs
total_length-append [] qs = omega arith
total_length-append (p ∷ ps) qs = omega (arith, total_length-append ps qs)

-- Only packets with the client's address, and counters that count them.
abbrev pub IsClean : (List ℕ → Result ParseError Addr) → Addr → Proxied → Type 0
IsClean parse client_ip s =
    All (λ p. parse p ≡ ok client_ip) s.passed
    × (s.packets ≡ length s.passed)
    × (s.bytes ≡ total_length s.passed)

module _ (parse : List ℕ → Result ParseError Addr) (client_ip : Addr) where
  abbrev KeptBy : Progress → Type 0
  KeptBy (goes_on s) = IsClean parse client_ip s
  KeptBy (returns s e) = IsClean parse client_ip s

  pass_on-KeptBy :
      (s : Proxied) (packet : List ℕ) (w : Option IoError)
      → IsClean parse client_ip s
      → parse packet ≡ ok client_ip
      → KeptBy (pass_on s packet w)
  pass_on-KeptBy s packet none (all, count, size) e = (
    All-snoc (λ q. parse q ≡ ok client_ip) s.passed packet all e,
    omega (arith, length-append {0} s.passed (packet ∷ [])),
    omega (arith, total_length-append s.passed (packet ∷ [])),
  )
  pass_on-KeptBy s packet (some x) clean e = elim (Bool-cases (is_network_closed x)) [
    | inl shut ↦ rw shut clean
    | inr other ↦ rw other clean
  ]

  if_from-KeptBy :
      (s : Proxied) (packet : List ℕ) (w : Option IoError) (r : Result ParseError Addr)
      → parse packet ≡ r
      → IsClean parse client_ip s
      → KeptBy (if_from client_ip s packet w r)
  if_from-KeptBy s packet w (err e) q clean = clean
  if_from-KeptBy s packet w (ok ip) q clean = elim (Bool-cases (bytes_eq ip client_ip)) [
    | inl mine ↦
        rw mine (pass_on-KeptBy s packet w clean (q ∙ ap ok ((bytes_eq_iff ip client_ip).0 mine)))
    | inr other ↦ rw other clean
  ]

  after_read-KeptBy :
      (s : Proxied) (w : Option IoError) (r : Result IoError (List ℕ))
      → IsClean parse client_ip s
      → KeptBy (after_read parse client_ip s w r)
  after_read-KeptBy s w (err e) clean = elim (Bool-cases (is_network_closed e)) [
    | inl shut ↦ rw shut clean
    | inr other ↦ elim (Bool-cases e.timeout) [
      | inl late ↦ rw (other, late) clean
      | inr failed ↦ rw (other, failed) clean
    ]
  ]
  after_read-KeptBy s w (ok packet) clean = elim (Bool-cases (length packet == 0)) [
    | inl empty ↦ rw empty clean
    | inr full ↦ rw full (if_from-KeptBy s packet w (parse packet) refl clean)
  ]

  proxy-IsClean :
      (rounds : List Round) (s : Proxied)
      → IsClean parse client_ip s
      → IsClean parse client_ip (proxy parse client_ip rounds s).0
  unfolding proxy
  proxy-IsClean [] s clean = clean
  proxy-IsClean (r ∷ rounds) s clean =
      go (after_read parse client_ip s r.written r.read)
        (after_read-KeptBy s r.written r.read clean) (λ t kept. proxy-IsClean rounds t kept)
    where
      go :
          (p : Progress)
          → KeptBy p
          → ((t : Proxied)
              → IsClean parse client_ip t
              → IsClean parse client_ip (proxy parse client_ip rounds t).0)
          → IsClean parse client_ip
              (after_round parse client_ip p (λ t. proxy parse client_ip rounds t)).0
      go (goes_on t) kept rest = rest t kept
      go (returns t e) kept rest = kept

-- Whatever is read and whichever reads and writes fail: a client's packets reach the TUN device only
-- with the client's own address as their source, packets from the device reach the client only if
-- they are for its address, and the counters add up the packets and bytes that were passed on.
pub proxies_no_spoofing :
    (has_tun : Bool) (client_ip : Addr) (from_client from_tun : List Round)
    → IsClean parse_source_ip client_ip (proxy_client_to_tun has_tun client_ip from_client).0
      × IsClean parse_destination_ip client_ip (proxy_tun_to_client has_tun client_ip from_tun).0
unfolding proxy_client_to_tun proxy_tun_to_client
proxies_no_spoofing false client_ip from_client from_tun = ((tt, refl, refl), (tt, refl, refl))
proxies_no_spoofing true client_ip from_client from_tun = (
  proxy-IsClean parse_source_ip client_ip from_client nothing_passed (tt, refl, refl),
  proxy-IsClean parse_destination_ip client_ip from_tun nothing_passed (tt, refl, refl),
)
