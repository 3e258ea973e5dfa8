-- ===== src/Tunnel/Order.antt =====
-- common/masque_connectip.go: the packets of a server's connection, in order, and what becomes of
-- them when it is closed.
use masque_vpn.Prelude.{
  ℕ, suc, ◌+◌, ◌≤◌, ◌<◌, ◌≡◌, refl, sym, ap, subst, ◌∙◌, true, false, none, List, [], ◌∷◌, ◌++◌,
  append_assoc, arith, length, length-append, take, ltb, lt→ltb,
}
use masque_vpn.Tunnel.Loopback.{
  Packet, Loopback, send, receive, pump, panics, close, Trace, Turn, sends, receives, pumps, turn,
  turns, new_trace, cut,
}

pub cut-append : (size : ℕ) (xs ys : List Packet) → cut size (xs ++ ys) ≡ cut size xs ++ cut size ys
cut-append size [] ys = refl
cut-append size (x ∷ xs) ys = ap (◌∷◌ (take size x)) (cut-append size xs ys)

pub length-cut : (size : ℕ) (xs : List Packet) → length (cut size xs) ≡ length xs
length-cut size [] = refl
length-cut size (x ∷ xs) = ap suc (length-cut size xs)

abbrev trace_of : (read write received sent : List Packet) → Trace
trace_of read write received sent = record {
  conn = record { closed = false; read_chan = read; write_chan = write };
  sent = sent;
  received = received;
}

abbrev InOrder : ℕ → (read write received sent : List Packet) → Type 0
InOrder size read write received sent = received ++ cut size (read ++ write) ≡ cut size sent

-- A trace of an open connection where n packets were sent, none was lost, and all are in order.
abbrev Flows : ℕ → ℕ → Trace → Type 0
Flows size n t =
    (read write received sent : List Packet) × (t ≡ trace_of read write received sent)
    × InOrder size read write received sent
    × (length sent ≡ n)

abbrev pub weight : Turn → ℕ
weight (sends packet) = 1
weight receives = 0
weight pumps = 0

in_flight :
    (size : ℕ) (read write received sent : List Packet)
    → InOrder size read write received sent
    → length received + (length read + length write) ≡ length sent
in_flight size read write received sent e = omega (
  arith,
  ap length e,
  length-append {0} received (cut size (read ++ write)),
  length-cut size (read ++ write),
  length-append {0} read write,
  length-cut size sent,
)

send_keeps :
    (size : ℕ) (read write received sent : List Packet) (packet : Packet)
    → InOrder size read write received sent
    → length sent < 100
    → Flows size (length sent + 1) (turn size (trace_of read write received sent) (sends packet))
unfolding turn send
send_keeps size read write received sent packet e room =
    let fits : ltb (length write) 100 ≡ true =
      lt→ltb (length write) 100 (omega (arith, in_flight size read write received sent e)) in
    rw fits (
      read,
      write ++ packet ∷ [],
      received,
      sent ++ packet ∷ [],
      refl,
      ap (λ ps. received ++ cut size ps) (sym (append_assoc read write (packet ∷ [])))
          ∙ ap (λ ps. received ++ ps) (cut-append size (read ++ write) (packet ∷ []))
          ∙ sym (append_assoc received (cut size (read ++ write)) (take size packet ∷ []))
          ∙ ap (λ ps. ps ++ take size packet ∷ []) e
          ∙ sym (cut-append size sent (packet ∷ [])),
      length-append {0} sent (packet ∷ []),
    )

receive_keeps :
    (size : ℕ) (read write received sent : List Packet)
    → InOrder size read write received sent
    → Flows size (length sent) (turn size (trace_of read write received sent) receives)
unfolding turn receive
receive_keeps size [] write received sent e = ([], write, received, sent, refl, e, refl)
receive_keeps size (packet ∷ read) write received sent e = (
  read,
  write,
  received ++ take size packet ∷ [],
  sent,
  refl,
  append_assoc received (take size packet ∷ []) (cut size (read ++ write)) ∙ e,
  refl,
)

pump_keeps :
    (size : ℕ) (read write received sent : List Packet)
    → InOrder size read write received sent
    → length sent ≤ 100
    → Flows size (length sent) (turn size (trace_of read write received sent) pumps)
unfolding turn pump
pump_keeps size read [] received sent e room = (read, [], received, sent, refl, e, refl)
pump_keeps size read (packet ∷ write) received sent e room =
    let fits : ltb (length read) 100 ≡ true =
      lt→ltb (length read) 100
        (omega (arith, in_flight size read (packet ∷ write) received sent e)) in
    rw fits (
      read ++ packet ∷ [],
      write,
      received,
      sent,
      refl,
      ap (λ ps. received ++ cut size ps) (append_assoc read (packet ∷ []) write) ∙ e,
      refl,
    )

abbrev pub sends_in : List Turn → ℕ
sends_in [] = 0
sends_in (u ∷ us) = weight u + sends_in us

turn_keeps :
    (size n : ℕ) (t : Trace) (u : Turn)
    → Flows size n t
    → n + weight u ≤ 100
    → Flows size (n + weight u) (turn size t u)
turn_keeps size n t (sends packet) (read, write, received, sent, shape, e, count) room =
    subst (λ x. Flows size (n + 1) (turn size x (sends packet))) (sym shape)
      (subst
        (λ k. Flows size (k + 1) (turn size (trace_of read write received sent) (sends packet)))
        count (send_keeps size read write received sent packet e (omega arith)))
turn_keeps size n t receives (read, write, received, sent, shape, e, count) room =
    subst (λ x. Flows size (n + 0) (turn size x receives)) (sym shape)
      (subst (λ k. Flows size k (turn size (trace_of read write received sent) receives))
        {x = length sent} {y = n + 0} (omega arith) (receive_keeps size read write received sent e))
turn_keeps size n t pumps (read, write, received, sent, shape, e, count) room =
    subst (λ x. Flows size (n + 0) (turn size x pumps)) (sym shape)
      (subst (λ k. Flows size k (turn size (trace_of read write received sent) pumps))
        {x = length sent} {y = n + 0} (omega arith)
        (pump_keeps size read write received sent e (omega arith)))

turns_keep :
    (size n : ℕ) (t : Trace) (us : List Turn)
    → Flows size n t
    → n + sends_in us ≤ 100
    → Flows size (n + sends_in us) (turns size t us)
turns_keep size n t [] f room = subst (λ k. Flows size k t) {x = n} {y = n + 0} (omega arith) f
turns_keep size n t (u ∷ us) f room =
    subst (λ k. Flows size k (turns size t (u ∷ us))) {x = n + weight u + sends_in us}
      {y = n + (weight u + sends_in us)} (omega arith)
      (turns_keep size (n + weight u) (turn size t u) us (turn_keeps size n t u f (omega arith))
        (omega arith))

-- However a writer, the goroutine and the readers take turns on an open connection, as long as at
-- most 100 packets are sent every one is accepted, and none is lost or overtaken: what the readers
-- got, followed by what is in the channels, is what was sent, each packet cut to a reader's buffer.
pub turns_in_order :
    (size : ℕ) (us : List Turn)
    → sends_in us ≤ 100
    → let t = turns size new_trace us in
      (t.received ++ cut size (t.conn.read_chan ++ t.conn.write_chan) ≡ cut size t.sent)
      × (length t.sent ≡ sends_in us)
turns_in_order size us room =
    let (read, write, received, sent, shape, e, count) =
      turns_keep size 0 new_trace us ([], [], [], [], refl, refl, refl) (omega arith) in
    subst
      (λ t.
        (t.received ++ cut size (t.conn.read_chan ++ t.conn.write_chan) ≡ cut size t.sent)
        × (length t.sent ≡ sends_in us))
      (sym shape) (e, omega arith)

abbrev open_with : (read write : List Packet) → Loopback
open_with read write = record { closed = false; read_chan = read; write_chan = write }

send_open :
    (read write : List Packet) (packet : Packet)
    → length write < 100
    → send (open_with read write) packet ≡ (open_with read (write ++ packet ∷ []), none)
unfolding send
send_open read write packet room = rw (lt→ltb (length write) 100 room) refl

pump-close :
    (read write : List Packet) (packet : Packet)
    → pump (close (open_with read (write ++ packet ∷ []))) ≡ panics
unfolding pump close
pump-close read [] packet = refl
pump-close read (x ∷ write) packet = refl

-- A packet that an open connection has room for is accepted. When the connection is then closed
-- before its goroutine runs, the goroutine's next step is a send to a closed channel, which panics.
pub close_panics :
    (m : Loopback) (packet : Packet)
    → m.closed ≡ false
    → length m.write_chan < 100
    → ((send m packet).1 ≡ none) × (pump (close (send m packet).0) ≡ panics)
close_panics m packet opened room =
    let m_open : m ≡ open_with m.read_chan m.write_chan = (λ i. record m { closed = opened i }) in
    let accepted =
      ap (λ x. send x packet) m_open ∙ send_open m.read_chan m.write_chan packet room in
    (
      ap (λ r. r.1) accepted,
      ap (λ r. pump (close r.0)) accepted ∙ pump-close m.read_chan m.write_chan packet,
    )
