-- ===== src/Tunnel/Written.antt =====
-- common/masque_connectip.go: where the packets come from that a server's connection gives its
-- readers.
use mathlib.Core.List.{Sublistᴰ}
use masque_vpn.Prelude.{
  not, if_elim, All-append, All-append_left, ℕ, zero, suc, ◌≤◌, sym, subst, take_of_length-le,
  Option, none, some, List, [], ◌∷◌, length, ltb, All,
}
use masque_vpn.Tunnel.Loopback.{Packet, cut}
use masque_vpn.Tunnel.Calls.{
  Line, new_line, Move, calls_write, sends, write_times_out, calls_read, receives, read_times_out,
  takes, puts, closes, pick, call_write, go_send, time_out_write, call_read, from_chan, go_receive,
  time_out_read, take_from, put_packet, close_line, move, moves,
}
use masque_vpn.Tunnel.Flow.{nonempty, as_read, in_flight}
use masque_vpn.Tunnel.Closing.{moves_in_order}

-- The packets that `WritePacket` was called with.
abbrev pub writes : List Move → List Packet
writes [] = []
writes (calls_write packet ∷ ms) = packet ∷ writes ms
writes (sends i ∷ ms) = writes ms
writes (write_times_out i ∷ ms) = writes ms
writes (calls_read ∷ ms) = writes ms
writes (receives ∷ ms) = writes ms
writes (read_times_out ∷ ms) = writes ms
writes (takes ∷ ms) = writes ms
writes (puts ∷ ms) = writes ms
writes (closes ∷ ms) = writes ms

module _ (P : Packet → Type 0) where
  All-sublist : {ps qs : List Packet} → Sublistᴰ ps qs → All P qs → All P ps
  All-sublist Sublistᴰ.slnil a = a
  All-sublist (Sublistᴰ.cons s) a = All-sublist s a.1
  All-sublist (Sublistᴰ.cons-cons e s) a = (subst P (sym e) a.0, All-sublist s a.1)

  All-nonempty : (ps : List Packet) → All P ps → All P (nonempty ps)
  All-nonempty [] a = tt
  All-nonempty ([] ∷ ps) a = All-nonempty ps a.1
  All-nonempty ((b ∷ bs) ∷ ps) a = (a.0, All-nonempty ps a.1)

  AllPicked : Option (Packet × List Packet) → Type 0
  AllPicked none = Unit
  AllPicked (some (packet, others)) = P packet × All P others

  pick-All : (i : ℕ) (ps : List Packet) → All P ps → AllPicked (pick i ps)
  unfolding AllPicked
  pick-All i [] a = tt
  pick-All zero (p ∷ ps) a = a
  pick-All (suc i) (p ∷ ps) a = go (pick i ps) (pick-All i ps a.1)
    where
      go :
          (o : Option (Packet × List Packet))
          → AllPicked o
          → AllPicked (elim o [ none ↦ none | some (chosen, rest) ↦ some (chosen, p ∷ rest) ])
      go none b = tt
      go (some (chosen, rest)) b = (b.0, (a.0, b.1))

  -- All that entered the channel or waits to.
  abbrev Holds : Line → Type 0
  Holds l = All P l.accepted × All P l.writers

  go_send-Holds :
      (l : Line) (o : Option (Packet × List Packet)) → AllPicked o → Holds l → Holds (go_send l o)
  unfolding go_send AllPicked
  go_send-Holds l none a h = h
  go_send-Holds l (some (packet, others)) a h =
      if_elim Holds l.closed (λ _. (h.0, a.1))
        (λ _.
          if_elim Holds (ltb (length l.write_chan) 100)
            (λ _. (All-append P l.accepted (packet ∷ []) h.0 (a.0, tt), a.1)) (λ _. h))

  time_out_write-Holds :
      (l : Line) (o : Option (Packet × List Packet))
      → AllPicked o
      → Holds l
      → Holds (time_out_write l o)
  unfolding time_out_write AllPicked
  time_out_write-Holds l none a h = h
  time_out_write-Holds l (some (packet, others)) a h = (h.0, a.1)

  go_receive-Holds :
      (size : ℕ) (l : Line) (waiting : ℕ) (read : List Packet)
      → Holds l
      → Holds (from_chan size l waiting read)
  go_receive-Holds size l waiting [] h = if_elim Holds l.closed (λ _. h) (λ _. h)
  go_receive-Holds size l waiting (packet ∷ rest) h = h

  receives-Holds : (size : ℕ) (l : Line) (waiting : ℕ) → Holds l → Holds (go_receive size l waiting)
  unfolding go_receive
  receives-Holds size l zero h = h
  receives-Holds size l (suc others) h = go_receive-Holds size l others l.read_chan h

  time_out_read-Holds : (l : Line) (waiting : ℕ) → Holds l → Holds (time_out_read l waiting)
  unfolding time_out_read
  time_out_read-Holds l zero h = h
  time_out_read-Holds l (suc others) h = h

  take_from-Holds :
      (l : Line) (held : Option Packet) (write : List Packet)
      → Holds l
      → Holds (take_from l held write)
  take_from-Holds l (some packet) write h = h
  take_from-Holds l none [] h = if_elim Holds l.closed (λ _. h) (λ _. h)
  take_from-Holds l none (packet ∷ rest) h = if_elim Holds l.pumping (λ _. h) (λ _. h)

  put_packet-Holds : (l : Line) (held : Option Packet) → Holds l → Holds (put_packet l held)
  unfolding put_packet
  put_packet-Holds l none h = h
  put_packet-Holds l (some packet) h =
      if_elim Holds (not l.pumping) (λ _. h)
        (λ _.
          if_elim Holds l.closed (λ _. h)
            (λ _. if_elim Holds (ltb (length l.read_chan) 100) (λ _. h) (λ _. h)))

  move-Holds :
      (size : ℕ) (l : Line) (m : Move) → All P (writes (m ∷ [])) → Holds l → Holds (move size l m)
  unfolding call_write call_read close_line
  move-Holds size l (calls_write packet) a h =
      if_elim Holds l.closed (λ _. h)
        (λ _. (h.0, All-append P l.writers (packet ∷ []) h.1 (a.0, tt)))
  move-Holds size l (sends i) a h = go_send-Holds l (pick i l.writers) (pick-All i l.writers h.1) h
  move-Holds size l (write_times_out i) a h =
      time_out_write-Holds l (pick i l.writers) (pick-All i l.writers h.1) h
  move-Holds size l calls_read a h = if_elim Holds l.closed (λ _. h) (λ _. h)
  move-Holds size l receives a h = receives-Holds size l l.readers h
  move-Holds size l read_times_out a h = time_out_read-Holds l l.readers h
  move-Holds size l takes a h = take_from-Holds l l.held l.write_chan h
  move-Holds size l puts a h = put_packet-Holds l l.held h
  move-Holds size l closes a h = if_elim Holds l.closed (λ _. h) (λ _. h)

  writes-cons :
      (m : Move) (ms : List Move)
      → All P (writes (m ∷ ms))
      → All P (writes (m ∷ [])) × All P (writes ms)
  writes-cons (calls_write packet) ms a = ((a.0, tt), a.1)
  writes-cons (sends i) ms a = (tt, a)
  writes-cons (write_times_out i) ms a = (tt, a)
  writes-cons calls_read ms a = (tt, a)
  writes-cons receives ms a = (tt, a)
  writes-cons read_times_out ms a = (tt, a)
  writes-cons takes ms a = (tt, a)
  writes-cons puts ms a = (tt, a)
  writes-cons closes ms a = (tt, a)

  moves-Holds :
      (size : ℕ) (l : Line) (ms : List Move) → All P (writes ms) → Holds l → Holds (moves size l ms)
  unfolding moves
  moves-Holds size l [] a h = h
  moves-Holds size l (m ∷ ms) a h =
      let (this, others) = writes-cons m ms a in
      moves-Holds size (move size l m) ms others (move-Holds size l m this h)

  -- What a packet has of a buffer that holds it is the packet.
  cut-All :
      (size : ℕ) (ps : List Packet) → All (λ p. length p ≤ size) ps → All P ps → All P (cut size ps)
  cut-All size [] fits a = tt
  cut-All size (p ∷ ps) fits a =
      (subst P (sym (take_of_length-le size p fits.0)) a.0, cut-All size ps fits.1 a.1)

-- Whatever holds of all packets that `WritePacket` was called with, none longer than a reader's
-- buffer, holds of all packets with bytes that readers get, however the calls overlap.
pub received_was_written :
    (P : Packet → Type 0) (size : ℕ) (ms : List Move)
    → All P (writes ms)
    → All (λ p. length p ≤ size) (writes ms)
    → All P (nonempty (moves size new_line ms).received)
received_was_written P size ms a fits =
    let l = moves size new_line ms in
    let entered = (moves-Holds P size new_line ms a (tt, tt)).0 in
    let short = (moves-Holds (λ p. length p ≤ size) size new_line ms fits (tt, tt)).0 in
    All-append_left P (nonempty l.received) (as_read size (in_flight l)) (
      All-sublist P (moves_in_order size ms).0
        (All-nonempty P (cut size l.accepted) (cut-All P size l.accepted short entered)))
