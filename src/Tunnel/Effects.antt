-- ===== src/Tunnel/Effects.antt =====
-- common/masque_connectip.go: what a step of an overlapping call, of the goroutine or of `Close`
-- does to the packets on their way.
use mathlib.Core.List.{Sublistᴰ}
use mathlib.Core.List.Sublistᴰ
use masque_vpn.Prelude.{
  not, if_elim, ℕ, zero, suc, ◌+◌, ◌≤◌, ◌≡◌, refl, sym, ap, subst, ◌∙◌, false, Option, none, some,
  List, [], ◌∷◌, ◌++◌, append_assoc, append-nil, arith, length, length-append, take, ltb,
}
use masque_vpn.Tunnel.Loopback.{Packet}
use masque_vpn.Tunnel.Calls.{
  Line, Move, calls_write, sends, write_times_out, calls_read, receives, read_times_out, takes,
  puts, closes, pick, call_write, go_send, time_out_write, call_read, from_chan, go_receive,
  time_out_read, take_from, put_packet, close_line, move,
}
use masque_vpn.Tunnel.Flow.{
  nonempty, nonempty-append, holding, in_flight, as_read, as_read-append, Effect,
}

module _ (size : ℕ) (l : Line) where
  unchanged : Effect size l l
  unchanged = Effect.same refl refl (omega arith)

  length-in_flight :
      length (in_flight l) ≡ length l.read_chan + (length (holding l.held) + length l.write_chan)
  length-in_flight = omega (
    arith,
    length-append {0} l.read_chan (holding l.held ++ l.write_chan),
    length-append {0} (holding l.held) l.write_chan,
  )

  call_write-Effect : (packet : Packet) → Effect size l (call_write l packet)
  unfolding call_write
  call_write-Effect packet =
      if_elim (Effect size l) l.closed (λ _. Effect.same refl refl (omega arith))
        (λ _. Effect.same refl refl (omega arith))

  after_send-in_flight :
      (packet : Packet)
      → l.read_chan ++ (holding l.held ++ (l.write_chan ++ packet ∷ []))
        ≡ in_flight l ++ packet ∷ []
  after_send-in_flight packet =
      ap (λ ps. l.read_chan ++ ps) (sym (append_assoc (holding l.held) l.write_chan (packet ∷ [])))
      ∙ sym (append_assoc l.read_chan (holding l.held ++ l.write_chan) (packet ∷ []))

  go_send-Effect : (waiting : Option (Packet × List Packet)) → Effect size l (go_send l waiting)
  unfolding go_send
  go_send-Effect none = unchanged
  go_send-Effect (some (packet, others)) =
      if_elim (Effect size l) l.closed (λ _. Effect.same refl refl (omega arith))
        (λ _.
          if_elim (Effect size l) (ltb (length l.write_chan) 100)
            (λ _.
              Effect.adds packet
                (ap (λ ps. nonempty l.received ++ as_read size ps) (after_send-in_flight packet)
                  ∙ ap (λ ps. nonempty l.received ++ ps)
                      (as_read-append size (in_flight l) (packet ∷ []))
                  ∙ sym (
                      append_assoc (nonempty l.received) (as_read size (in_flight l))
                        (as_read size (packet ∷ []))))
                refl
                (ap length (after_send-in_flight packet)
                  ∙ length-append {0} (in_flight l) (packet ∷ [])))
            (λ _. unchanged))

  time_out_write-Effect :
      (waiting : Option (Packet × List Packet)) → Effect size l (time_out_write l waiting)
  unfolding time_out_write
  time_out_write-Effect none = unchanged
  time_out_write-Effect (some (packet, others)) = Effect.same refl refl (omega arith)

  call_read-Effect : Effect size l (call_read l)
  unfolding call_read
  call_read-Effect =
      if_elim (Effect size l) l.closed (λ _. Effect.same refl refl (omega arith))
        (λ _. Effect.same refl refl (omega arith))

  time_out_read-Effect : (waiting : ℕ) → Effect size l (time_out_read l waiting)
  unfolding time_out_read
  time_out_read-Effect zero = unchanged
  time_out_read-Effect (suc others) = Effect.same refl refl (omega arith)

  close_line-Effect : Effect size l (close_line l)
  unfolding close_line
  close_line-Effect =
      if_elim (Effect size l) l.closed (λ _. unchanged) (λ _. Effect.same refl refl (omega arith))

full_le : (n : ℕ) → ltb n 100 ≡ false → 100 ≤ n
full_le n full = ground (arith)

-- The moves that take a channel or the goroutine's packet apart: over a line with these fields.
module _ (size : ℕ) (l : Line) where
  abbrev with_chans : List Packet → Option Packet → List Packet → Line
  with_chans read held write = record l { read_chan = read; held = held; write_chan = write }

  from_chan-Effect :
      (others : ℕ) (read : List Packet)
      → Effect size
          (with_chans read l.held l.write_chan)
          (from_chan size (with_chans read l.held l.write_chan) others read)
  from_chan-Effect others [] =
      if_elim (Effect size (with_chans [] l.held l.write_chan)) l.closed
        (λ _.
          Effect.same
            (ap (λ ps. ps ++ as_read size (holding l.held ++ l.write_chan))
              (nonempty-append l.received ([] ∷ []) ∙ append-nil (nonempty l.received)))
            refl (omega arith))
        (λ _. unchanged size (with_chans [] l.held l.write_chan))
  from_chan-Effect others (packet ∷ rest) =
      Effect.same
        (ap (λ ps. ps ++ as_read size (rest ++ (holding l.held ++ l.write_chan)))
            (nonempty-append l.received (take size packet ∷ []))
          ∙ append_assoc (nonempty l.received) (nonempty (take size packet ∷ []))
              (as_read size (rest ++ (holding l.held ++ l.write_chan)))
          ∙ ap (λ ps. nonempty l.received ++ ps)
              (sym (as_read-append size (packet ∷ []) (rest ++ (holding l.held ++ l.write_chan)))))
        refl (omega arith)

  take_from-Effect :
      (held : Option Packet) (write : List Packet)
      → Effect size
          (with_chans l.read_chan held write)
          (take_from (with_chans l.read_chan held write) held write)
  take_from-Effect (some packet) write = unchanged size (with_chans l.read_chan (some packet) write)
  take_from-Effect none [] =
      if_elim (Effect size (with_chans l.read_chan none [])) l.closed
        (λ _. Effect.same refl refl (omega arith))
        (λ _. unchanged size (with_chans l.read_chan none []))
  take_from-Effect none (packet ∷ write) =
      if_elim (Effect size (with_chans l.read_chan none (packet ∷ write))) l.pumping
        (λ _. Effect.same refl refl (omega arith))
        (λ _. unchanged size (with_chans l.read_chan none (packet ∷ write)))

  dropped-sublist :
      (packet : Packet)
      → Sublistᴰ
          (as_read size (l.read_chan ++ l.write_chan))
          (as_read size (l.read_chan ++ packet ∷ l.write_chan))
  dropped-sublist packet =
      subst (λ ps. Sublistᴰ ps (as_read size (l.read_chan ++ packet ∷ l.write_chan)))
        (sym (as_read-append size l.read_chan l.write_chan))
        (subst (λ ps. Sublistᴰ (as_read size l.read_chan ++ as_read size l.write_chan) ps)
          (sym (as_read-append size l.read_chan (packet ∷ l.write_chan)))
          (Sublistᴰ.append (Sublistᴰ.refl (as_read size l.read_chan)) (
            subst (λ ps. Sublistᴰ (as_read size l.write_chan) ps)
              (sym (as_read-append size (packet ∷ []) l.write_chan))
              (Sublistᴰ.append (Sublistᴰ.nil-sublist (as_read size (packet ∷ [])))
                (Sublistᴰ.refl (as_read size l.write_chan))))))

  put_packet-Effect :
      (held : Option Packet)
      → Effect size
          (with_chans l.read_chan held l.write_chan)
          (put_packet (with_chans l.read_chan held l.write_chan) held)
  unfolding put_packet
  put_packet-Effect none = unchanged size (with_chans l.read_chan none l.write_chan)
  put_packet-Effect (some packet) =
      let k = with_chans l.read_chan (some packet) l.write_chan in
      if_elim (Effect size k) (not l.pumping) (λ _. unchanged size k)
        (λ _.
          if_elim (Effect size k) l.closed (λ _. Effect.same refl refl (omega arith))
            (λ _.
              if_elim (Effect size k) (ltb (length l.read_chan) 100)
                (λ _.
                  Effect.same
                    (ap (λ ps. nonempty l.received ++ as_read size ps)
                      (append_assoc l.read_chan (packet ∷ []) l.write_chan))
                    refl
                    (omega
                      (arith, ap length (append_assoc l.read_chan (packet ∷ []) l.write_chan))))
                (λ full.
                  Effect.drops
                    (Sublistᴰ.append (Sublistᴰ.refl (nonempty l.received)) (dropped-sublist packet))
                    refl
                    (omega (
                      arith,
                      length-append {0} l.read_chan l.write_chan,
                      length-append {0} l.read_chan (packet ∷ l.write_chan),
                    ))
                    (omega (
                      arith,
                      length-append {0} l.read_chan (packet ∷ l.write_chan),
                      full_le (length l.read_chan) full,
                    )))))

go_receive-Effect : (size : ℕ) (l : Line) (waiting : ℕ) → Effect size l (go_receive size l waiting)
unfolding go_receive
go_receive-Effect size l zero = unchanged size l
go_receive-Effect size l (suc others) = from_chan-Effect size l others l.read_chan

pub move-Effect : (size : ℕ) (l : Line) (m : Move) → Effect size l (move size l m)
move-Effect size l (calls_write packet) = call_write-Effect size l packet
move-Effect size l (sends i) = go_send-Effect size l (pick i l.writers)
move-Effect size l (write_times_out i) = time_out_write-Effect size l (pick i l.writers)
move-Effect size l calls_read = call_read-Effect size l
move-Effect size l receives = go_receive-Effect size l l.readers
move-Effect size l read_times_out = time_out_read-Effect size l l.readers
move-Effect size l takes = take_from-Effect size l l.held l.write_chan
move-Effect size l puts = put_packet-Effect size l l.held
move-Effect size l closes = close_line-Effect size l
