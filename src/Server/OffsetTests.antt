-- ===== src/Server/OffsetTests.antt =====
-- vpn_server/internal/server/masque_handler.go: a concrete packet that does not reach its client.
use masque_vpn.Prelude.{ℕ, suc, zero, ◌≡◌, refl, ap, true, none, ok, List, [], ◌∷◌, take}
use masque_vpn.Server.Proxy.{proxy_tun_to_client, nothing_passed}
use masque_vpn.Server.Offset.{TunRead, tun_rounds, new_buffer, nothing_reaches_client}

-- A driver that reads into the buffer at the offset and leaves nothing behind the packet.
abbrev fill : ℕ → List ℕ → List ℕ → List ℕ
fill zero b p = p
fill (suc n) [] p = []
fill (suc n) (x ∷ b) p = x ∷ fill n b p

fill-begins : (n : ℕ) (b p : List ℕ) → take n (fill n b p) ≡ take n b
fill-begins zero b p = refl
fill-begins (suc n) [] p = refl
fill-begins (suc n) (x ∷ b) p = ap (◌∷◌ x) (fill-begins n b p)

abbrev ping : List ℕ
ping = 69 ∷ 0 ∷ 0 ∷ 20 ∷ 0 ∷ 0 ∷ 0 ∷ 0 ∷ 64 ∷ 1 ∷ 0 ∷ 0 ∷ 10 ∷ 0 ∷ 0 ∷ 1 ∷ 10 ∷ 0 ∷ 0 ∷ 2 ∷ []

abbrev one_ping : List TunRead
one_ping = record { packet = ok ping; written = none } ∷ []

nothing_reaches_client_example :
    (proxy_tun_to_client true (10 ∷ 0 ∷ 0 ∷ 2 ∷ []) (tun_rounds fill new_buffer one_ping)).0
    ≡ nothing_passed
nothing_reaches_client_example =
    nothing_reaches_client fill (10 ∷ 0 ∷ 0 ∷ 2 ∷ []) one_ping fill-begins
