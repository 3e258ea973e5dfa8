-- ===== src/Server/Offset.antt =====
-- vpn_server/internal/server/masque_handler.go and common/tun.go: what `proxyTunToClient` sees of the
-- packets of the TUN device. It keeps one buffer, and calls `ReadPacket(buffer, 100)`; the second
-- argument is the offset at which the driver begins to read into the buffer, and the proxy takes the
-- packet from the beginning of the buffer. How the driver fills the buffer is a parameter.
use masque_vpn.Prelude.{
  ℕ, zero, suc, ◌/◌, ◌^◌, ◌≡◌, refl, sym, ap, subst, ◌∙◌, inl, inr, true, Option, Result, ok, err,
  List, [], ◌∷◌, arith, length, get_or, take, replicate, ltb, ◌==◌, Bool-cases,
}
use masque_vpn.Ip.Addr.{Addr}
use masque_vpn.Ip.Packet.{version}
use masque_vpn.Server.Parse.{write_to_connected, parse_destination_ip}
use masque_vpn.Server.Proxy.{
  IoError, is_network_closed, Round, Proxied, Progress, goes_on, returns, after_read, after_round,
  proxy, nothing_passed, proxy_tun_to_client,
}

-- A read of the device that gives a packet, or fails; and the write that would follow.
pub record TunRead : Type 0 where
  pub packet : Result IoError (List ℕ)
  pub written : Option IoError

module _ (fills : ℕ → List ℕ → List ℕ → List ℕ) where
  abbrev pub seen : List ℕ → Result IoError (List ℕ) → Result IoError (List ℕ)
  seen buffer (err e) = err e
  seen buffer (ok packet) = ok (take (length packet) (fills 100 buffer packet))

  abbrev pub buffer_after : List ℕ → Result IoError (List ℕ) → List ℕ
  buffer_after buffer (err e) = buffer
  buffer_after buffer (ok packet) = fills 100 buffer packet

  unfoldable pub tun_rounds : List ℕ → List TunRead → List Round
  tun_rounds buffer [] = []
  tun_rounds buffer (r ∷ reads) =
      record { read = seen buffer r.packet; written = r.written }
      ∷ tun_rounds (buffer_after buffer r.packet) reads

-- `make([]byte, 2048)`
abbrev pub new_buffer : List ℕ
new_buffer = replicate 2048 0

IsBlank : List ℕ → Type 0
IsBlank b = get_or b 0 0 ≡ 0

first-take : (n : ℕ) (b : List ℕ) → get_or (take (suc n) b) 0 0 ≡ get_or b 0 0
first-take n [] = refl
first-take n (x ∷ b) = refl

take-IsBlank : (n : ℕ) (b : List ℕ) → IsBlank b → IsBlank (take n b)
unfolding IsBlank
take-IsBlank zero b h = refl
take-IsBlank (suc n) b h = first-take n b ∙ h

parse-IsBlank : (b : List ℕ) → IsBlank b → parse_destination_ip b ≡ err write_to_connected
unfolding IsBlank parse_destination_ip
parse-IsBlank b h =
    let none_ : version b ≡ 0 = ap (λ n. n / 2 ^ 4) h in
    elim (Bool-cases (ltb (length b) 20)) [
      | inl short ↦ rw short refl
      | inr long ↦ rw (long, none_) refl
    ]

abbrev Stays : Proxied → Progress → Type 0
Stays s (goes_on t) = t ≡ s
Stays s (returns t e) = t ≡ s

after_read-Stays :
    (client_ip : Addr) (s : Proxied) (w : Option IoError) (r : Result IoError (List ℕ))
    → ((p : List ℕ) → r ≡ ok p → IsBlank p)
    → Stays s (after_read parse_destination_ip client_ip s w r)
after_read-Stays client_ip s w (err e) blank = elim (Bool-cases (is_network_closed e)) [
  | inl shut ↦ rw shut refl
  | inr other ↦ elim (Bool-cases e.timeout) [
    | inl late ↦ rw (other, late) refl
    | inr failed ↦ rw (other, failed) refl
  ]
]
after_read-Stays client_ip s w (ok p) blank = elim (Bool-cases (length p == 0)) [
  | inl empty ↦ rw empty refl
  | inr full ↦ rw (full, parse-IsBlank p (blank p refl)) refl
]

module _ (fills : ℕ → List ℕ → List ℕ → List ℕ)
    (begins : (offset : ℕ) (b p : List ℕ) → take offset (fills offset b p) ≡ take offset b) where
  fills-IsBlank : (b p : List ℕ) → IsBlank b → IsBlank (fills 100 b p)
  unfolding IsBlank
  fills-IsBlank b p h =
      sym (first-take 99 (fills 100 b p))
      ∙ ap (λ t. get_or t 0 0) (begins 100 b p)
      ∙ first-take 99 b
      ∙ h

  seen-IsBlank :
      (b : List ℕ) (r : Result IoError (List ℕ)) (p : List ℕ)
      → IsBlank b
      → seen fills b r ≡ ok p
      → IsBlank p
  seen-IsBlank b (err e) p h q = absurd (cc)
  seen-IsBlank b (ok packet) p h q =
      subst IsBlank {x = take (length packet) (fills 100 b packet)} {y = p} (ground arith)
        (take-IsBlank (length packet) (fills 100 b packet) (fills-IsBlank b packet h))

  buffer_after-IsBlank :
      (b : List ℕ) (r : Result IoError (List ℕ)) → IsBlank b → IsBlank (buffer_after fills b r)
  buffer_after-IsBlank b (err e) h = h
  buffer_after-IsBlank b (ok packet) h = fills-IsBlank b packet h

  proxy-Stays :
      (client_ip : Addr) (reads : List TunRead) (b : List ℕ) (s : Proxied)
      → IsBlank b
      → (proxy parse_destination_ip client_ip (tun_rounds fills b reads) s).0 ≡ s
  unfolding proxy tun_rounds
  proxy-Stays client_ip [] b s h = refl
  proxy-Stays client_ip (r ∷ reads) b s h =
      go (after_read parse_destination_ip client_ip s r.written (seen fills b r.packet))
        (after_read-Stays client_ip s r.written (seen fills b r.packet)
          (λ p q. seen-IsBlank b r.packet p h q))
        (λ t.
          proxy-Stays client_ip reads (buffer_after fills b r.packet) t
            (buffer_after-IsBlank b r.packet h))
    where
      go :
          (progress : Progress)
          → Stays s progress
          → ((t : Proxied)
              → (proxy parse_destination_ip client_ip
                  (tun_rounds fills (buffer_after fills b r.packet) reads)
                  t).0
                ≡ t)
          → (after_round parse_destination_ip client_ip progress (λ t.
              proxy parse_destination_ip client_ip
                (tun_rounds fills (buffer_after fills b r.packet) reads)
                t)).0
            ≡ s
      go (goes_on t) same rest = rest t ∙ same
      go (returns t e) same rest = same

-- With a driver that begins to read at the offset it is given and leaves what is before it:
-- `proxyTunToClient` passes on no packet and counts none, whatever the device gives. Its buffer
-- keeps the 0 that it was made with in front, which is no version of IP, so that each packet it
-- takes from the device is dropped.
pub nothing_reaches_client :
    (fills : ℕ → List ℕ → List ℕ → List ℕ) (client_ip : Addr) (reads : List TunRead)
    → ((offset : ℕ) (b p : List ℕ) → take offset (fills offset b p) ≡ take offset b)
    → (proxy_tun_to_client true client_ip (tun_rounds fills new_buffer reads)).0 ≡ nothing_passed
unfolding proxy_tun_to_client IsBlank
nothing_reaches_client fills client_ip reads begins =
    proxy-Stays fills begins client_ip reads new_buffer nothing_passed refl
