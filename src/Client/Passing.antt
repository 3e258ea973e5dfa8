-- ===== src/Client/Passing.antt =====
-- common/masque_proxy.go: which packets the proxies of a client pass on, and what ends them.
use masque_vpn.Prelude.{
  ℕ, suc, ◌≡◌, refl, ap, subst, ◌∙◌, inl, inr, Bool, true, false, Option, none, some, Result, ok,
  err, List, [], ◌∷◌, map, arith, length, ◌==◌, Bool-cases, if◌then◌else◌,
}
use masque_vpn.Ip.Addr.{Addr}
use masque_vpn.Server.Parse.{ParseError}
use masque_vpn.Server.Proxy.{
  IoError, is_network_closed, Round, ProxyError, Proxied, returns, after_read, failed_to_read,
  failed_to_write,
}
use masque_vpn.Client.Stream.{Source, read_packet, Sink}
use masque_vpn.Client.Errors.{packet_errors, ReadFails}
use masque_vpn.Client.Proxy.{
  Message, outcome, Relayed, after_outcome, relay, FromTun, from_tun, proxy_from_tun_to_masque,
  FromMasque, from_masque, proxy_from_masque_to_tun,
}

-- A read that gives nothing, or a packet that is then written.
abbrev pub goes_well : Round → Bool
goes_well r = elim r.read [
  | err e ↦ false
  | ok packet ↦ elim r.written [ none ↦ true | some e ↦ length packet == 0 ]
]

-- The rounds before the first that does not go well.
abbrev pub lead : List Round → List Round
lead [] = []
lead (r ∷ rounds) = if goes_well r then r ∷ lead rounds else []

abbrev pub first_failure : List Round → Option Round
first_failure [] = none
first_failure (r ∷ rounds) = if goes_well r then first_failure rounds else some r

abbrev if_not_empty : List ℕ → List (List ℕ) → List (List ℕ)
if_not_empty [] packets = packets
if_not_empty (b ∷ bytes) packets = (b ∷ bytes) ∷ packets

-- The packets that are read, without the empty ones.
abbrev pub packets_read : List Round → List (List ℕ)
packets_read [] = []
packets_read (r ∷ rounds) = elim r.read [
  | err e ↦ packets_read rounds
  | ok packet ↦ if_not_empty packet (packets_read rounds)
]

abbrev error_of : (IoError → ProxyError) → IoError → Message
error_of failed e = if is_network_closed e then none else some (failed e)

-- nil for an error that says that the network is closed, and else the error.
abbrev pub message_of : Option Round → Option Message
message_of none = none
message_of (some r) = elim r.read [
  | err e ↦ some (error_of failed_to_read e)
  | ok packet ↦ elim r.written [ none ↦ none | some e ↦ some (error_of failed_to_write e) ]
]

abbrev Reference : List Round → Relayed
Reference rounds = (packets_read (lead rounds), message_of (first_failure rounds))

round-Reference :
    (read : Result IoError (List ℕ)) (written : Option IoError) (rounds : List Round)
    → after_outcome (outcome read written) (Reference rounds)
      ≡ Reference (record { read = read; written = written } ∷ rounds)
round-Reference (err e) written rounds = elim (Bool-cases (is_network_closed e)) [
  | inl shut ↦ rw shut refl
  | inr failed ↦ rw failed refl
]
round-Reference (ok []) none rounds = refl
round-Reference (ok []) (some e) rounds = refl
round-Reference (ok (b ∷ bytes)) none rounds =
    let full : (suc (length bytes) == 0) ≡ false = ground arith in rw full refl
round-Reference (ok (b ∷ bytes)) (some e) rounds =
    let full : (suc (length bytes) == 0) ≡ false = ground arith in
    elim (Bool-cases (is_network_closed e)) [
      | inl shut ↦ rw (full, shut) refl
      | inr failed ↦ rw (full, failed) refl
    ]

relay_lem : (rounds : List Round) → relay rounds ≡ Reference rounds
unfolding relay
relay_lem [] = refl
relay_lem (r ∷ rounds) =
    ap (after_outcome (outcome r.read r.written)) (relay_lem rounds)
    ∙ round-Reference r.read r.written rounds

-- Each proxy of a client passes on the packets that are read before the first read or write that
-- fails, each once, in their order, without the empty ones, and nothing after it. It then sends one
-- message: nil if the error says that the network is closed, and else the error; as long as nothing
-- fails it sends none.
pub proxies_relay :
    (tun : List FromTun) (masque : List FromMasque)
    → (proxy_from_tun_to_masque tun
        ≡ (packets_read (lead (map from_tun tun)), message_of (first_failure (map from_tun tun))))
      × (proxy_from_masque_to_tun masque ≡ (
        packets_read (lead (map from_masque masque)),
        message_of (first_failure (map from_masque masque)),
      ))
unfolding proxy_from_tun_to_masque proxy_from_masque_to_tun
proxies_relay tun masque = (relay_lem (map from_tun tun), relay_lem (map from_masque masque))

-- A read from a connection that was not closed and fails, be it that 30 seconds pass without a
-- packet, ends the proxies that read from it with an error: the client's, whatever would come after,
-- without another packet, and the server's, though it means to go on after a timeout.
pub read_error_ends :
    (source : Source) (e : IoError)
    → read_packet false source ≡ err e
    → ((written : Option IoError) (rounds : List FromMasque)
        → proxy_from_masque_to_tun
            (record { closed = false; source = source; written = written } ∷ rounds)
          ≡ ([], some (some (failed_to_read e))))
      × ((parse : List ℕ → Result ParseError Addr) (client_ip : Addr) (s : Proxied)
            (written : Option IoError)
          → after_read parse client_ip s written (read_packet false source)
            ≡ returns s (some (failed_to_read e)))
unfolding proxy_from_masque_to_tun relay
read_error_ends source e fails =
    let (on_time, open_) =
      subst (ReadFails false) fails (packet_errors false source (Sink.channel true)).0 in
    (λ written rounds. rw (fails, open_), λ parse client_ip s written. rw (fails, open_, on_time))
