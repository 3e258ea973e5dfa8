-- ===== src/Tunnel/Closing.antt =====
-- common/masque_connectip.go: a server's connection whose calls overlap with one another, with the
-- goroutine and with `Close`.
use mathlib.Core.List.{Sublistᴰ}
use mathlib.Core.List.Sublistᴰ
use masque_vpn.Prelude.{
  not, if_elim, ℕ, zero, suc, ◌+◌, ◌≤◌, ◌≡◌, refl, sym, ap, subst, subst₂, ◌∙◌, inl, inr, ◌⊎◌, true,
  false, Option, none, some, List, [], ◌∷◌, ◌++◌, arith, length, length-append, ltb,
}
use masque_vpn.Tunnel.Loopback.{Packet}
use masque_vpn.Tunnel.Calls.{
  Line, new_line, Move, calls_write, sends, write_times_out, calls_read, receives, read_times_out,
  takes, puts, closes, pick, call_write, go_send, time_out_write, call_read, from_chan, go_receive,
  time_out_read, take_from, put_packet, close_line, move, moves,
}
use masque_vpn.Tunnel.Flow.{Effect, as_read, as_read-append, flow, in_flight, nonempty}
use masque_vpn.Tunnel.Effects.{move-Effect}

-- Nothing is overtaken or made up, and nothing is lost before 101 packets were accepted.
abbrev pub IsOrdered : ℕ → Line → Type 0
IsOrdered size l =
    Sublistᴰ (flow size l) (as_read size l.accepted)
    × ((flow size l ≡ as_read size l.accepted) ⊎ (101 ≤ length l.accepted))

abbrev Keeps : ℕ → Line → Type 0
Keeps size l = IsOrdered size l × (length (in_flight l) ≤ length l.accepted)

same-Keeps :
    (size : ℕ) (l k : Line)
    → flow size k ≡ flow size l
    → k.accepted ≡ l.accepted
    → length (in_flight k) ≤ length (in_flight l)
    → Keeps size l
    → Keeps size k
same-Keeps size l k f a n ((sub, whole), few) = (
  (
    subst₂ Sublistᴰ (sym f) (ap (as_read size) (sym a)) sub,
    elim whole [
      | inl e ↦ inl (f ∙ e ∙ ap (as_read size) (sym a))
      | inr many ↦ inr (omega (arith, ap length a))
    ],
  ),
  omega (arith, ap length a),
)

Effect-Keeps : (size : ℕ) (l k : Line) → Effect size l k → Keeps size l → Keeps size k
Effect-Keeps size l k (Effect.same f a n) good = same-Keeps size l k f a n good
Effect-Keeps size l k (Effect.drops s a n many) ((sub, whole), few) = (
  (
    subst (λ ps. Sublistᴰ (flow size k) (as_read size ps)) (sym a) (Sublistᴰ.trans s sub),
    inr (omega (arith, ap length a)),
  ),
  omega (arith, ap length a),
)
Effect-Keeps size l k (Effect.adds packet f a n) ((sub, whole), few) =
    let grown : as_read size k.accepted ≡ as_read size l.accepted ++ as_read size (packet ∷ []) =
      ap (as_read size) a ∙ as_read-append size l.accepted (packet ∷ []) in
    let longer : length k.accepted ≡ length l.accepted + 1 =
      ap length a ∙ length-append {0} l.accepted (packet ∷ []) in
    (
      (
        subst₂ Sublistᴰ (sym f) (sym grown)
            (Sublistᴰ.append sub (Sublistᴰ.refl (as_read size (packet ∷ [])))),
        elim whole [
          | inl e ↦ inl (f ∙ ap (λ ps. ps ++ as_read size (packet ∷ [])) e ∙ sym grown)
          | inr many ↦ inr (omega arith)
        ],
      ),
      omega arith,
    )

moves-Keeps : (size : ℕ) (l : Line) (ms : List Move) → Keeps size l → Keeps size (moves size l ms)
unfolding moves
moves-Keeps size l [] good = good
moves-Keeps size l (m ∷ ms) good =
    moves-Keeps size (move size l m) ms
      (Effect-Keeps size l (move size l m) (move-Effect size l m) good)

-- A panic is possible only after `Close`.
abbrev IsCalm : Line → Type 0
IsCalm l = (l.panicked ≡ false) ⊎ (l.closed ≡ true)

take_from-IsCalm :
    (l : Line) (held : Option Packet) (packets : List Packet)
    → IsCalm l
    → IsCalm (take_from l held packets)
take_from-IsCalm l (some packet) packets calm = calm
take_from-IsCalm l none [] calm = if_elim IsCalm l.closed (λ _. calm) (λ _. calm)
take_from-IsCalm l none (packet ∷ rest) calm = if_elim IsCalm l.pumping (λ _. calm) (λ _. calm)

from_chan-IsCalm :
    (size : ℕ) (l : Line) (others : ℕ) (packets : List Packet)
    → IsCalm l
    → IsCalm (from_chan size l others packets)
from_chan-IsCalm size l others [] calm = if_elim IsCalm l.closed (λ _. calm) (λ _. calm)
from_chan-IsCalm size l others (packet ∷ rest) calm = calm

go_receive-IsCalm :
    (size : ℕ) (l : Line) (waiting : ℕ) → IsCalm l → IsCalm (go_receive size l waiting)
unfolding go_receive
go_receive-IsCalm size l zero calm = calm
go_receive-IsCalm size l (suc others) calm = from_chan-IsCalm size l others l.read_chan calm

time_out_read-IsCalm : (l : Line) (waiting : ℕ) → IsCalm l → IsCalm (time_out_read l waiting)
unfolding time_out_read
time_out_read-IsCalm l zero calm = calm
time_out_read-IsCalm l (suc others) calm = calm

time_out_write-IsCalm :
    (l : Line) (waiting : Option (Packet × List Packet))
    → IsCalm l
    → IsCalm (time_out_write l waiting)
unfolding time_out_write
time_out_write-IsCalm l none calm = calm
time_out_write-IsCalm l (some (packet, others)) calm = calm

go_send-IsCalm :
    (l : Line) (waiting : Option (Packet × List Packet)) → IsCalm l → IsCalm (go_send l waiting)
unfolding go_send
go_send-IsCalm l none calm = calm
go_send-IsCalm l (some (packet, others)) calm =
    if_elim IsCalm l.closed (λ shut. inr shut)
      (λ _. if_elim IsCalm (ltb (length l.write_chan) 100) (λ _. calm) (λ _. calm))

put_packet-IsCalm : (l : Line) (held : Option Packet) → IsCalm l → IsCalm (put_packet l held)
unfolding put_packet
put_packet-IsCalm l none calm = calm
put_packet-IsCalm l (some packet) calm =
    if_elim IsCalm (not l.pumping) (λ _. calm)
      (λ _.
        if_elim IsCalm l.closed (λ shut. inr shut)
          (λ _. if_elim IsCalm (ltb (length l.read_chan) 100) (λ _. calm) (λ _. calm)))

move-IsCalm : (size : ℕ) (l : Line) (m : Move) → IsCalm l → IsCalm (move size l m)
unfolding call_write call_read close_line
move-IsCalm size l (calls_write packet) calm = if_elim IsCalm l.closed (λ _. calm) (λ _. calm)
move-IsCalm size l (sends i) calm = go_send-IsCalm l (pick i l.writers) calm
move-IsCalm size l (write_times_out i) calm = time_out_write-IsCalm l (pick i l.writers) calm
move-IsCalm size l calls_read calm = if_elim IsCalm l.closed (λ _. calm) (λ _. calm)
move-IsCalm size l receives calm = go_receive-IsCalm size l l.readers calm
move-IsCalm size l read_times_out calm = time_out_read-IsCalm l l.readers calm
move-IsCalm size l takes calm = take_from-IsCalm l l.held l.write_chan calm
move-IsCalm size l puts calm = put_packet-IsCalm l l.held calm
move-IsCalm size l closes calm = if_elim IsCalm l.closed (λ shut. inr shut) (λ _. inr refl)

moves-IsCalm : (size : ℕ) (l : Line) (ms : List Move) → IsCalm l → IsCalm (moves size l ms)
unfolding moves
moves-IsCalm size l [] calm = calm
moves-IsCalm size l (m ∷ ms) calm = moves-IsCalm size (move size l m) ms (move-IsCalm size l m calm)

-- However writes, reads, the goroutine and `Close` overlap on a server's connection, readers get the
-- accepted packets in order, each cut to the reader's buffer; those that have bytes were all read or
-- are still in the connection, unless more than 100 were accepted; and nothing panics unless the
-- connection was closed.
pub moves_in_order :
    (size : ℕ) (ms : List Move)
    → let l = moves size new_line ms in
      Sublistᴰ (nonempty l.received ++ as_read size (in_flight l)) (as_read size l.accepted)
      × ((nonempty l.received ++ as_read size (in_flight l) ≡ as_read size l.accepted)
          ⊎ (101 ≤ length l.accepted))
      × ((l.panicked ≡ false) ⊎ (l.closed ≡ true))
moves_in_order size ms =
    let kept = moves-Keeps size new_line ms ((Sublistᴰ.refl [], inl refl), omega arith) in
    (kept.0.0, kept.0.1, moves-IsCalm size new_line ms (inl refl))
