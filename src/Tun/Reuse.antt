-- ===== src/Tun/Reuse.antt =====
-- common/tun.go: what calls get that share the pool of `tunBuffers`, and what the pool keeps.
use masque_vpn.Prelude.{
  ℕ, zero, suc, ◌≡◌, refl, ap, ◌∙◌, Bool, true, false, Option, none, some, List, [], ◌∷◌, All,
  arith, if◌then◌else◌,
}
use masque_vpn.Tun.Device.{DriverRead, read_packet, write_packet}
use masque_vpn.Tun.Buffers.{
  TunBuffers, Busy, Driver, Done, Pool, new_pool, take_out, keep_first, begin, read_result, finish,
  drop_one, PoolEvent, begins_read, begins_write, ends, drops, pool_step, pool_run,
}

-- A struct of the pool refers to no packet buffer.
abbrev pub IsClean : TunBuffers → Type 0
IsClean tb = tb.buf ≡ none

-- A call that waits has given the driver its own buffer, and a size of 0 where it reads.
abbrev pub IsOwn : Busy → Type 0
IsOwn b = (b.buffers.buf ≡ some b.packet) × (if b.reads then b.buffers.size ≡ 0 else Unit {0})

-- The result of a call over a struct of its own that is new.
abbrev pub IsDirect : Done → Type 0
IsDirect (Done.read packet driver result) = result ≡ read_packet (driver (some packet) 0)
IsDirect (Done.wrote packet driver result) =
    (size : ℕ) × (result
      ≡ write_packet ((driver (some packet) size).count, (driver (some packet) size).error))

abbrev pub IsSound : Pool → Type 0
IsSound p = All IsClean p.free × All IsOwn p.busy × All IsDirect p.done

AllTaken : {A : Type 0} → (A → Type 0) → Option (A × List A) → Type 0
AllTaken P none = Unit
AllTaken P (some (x, xs)) = P x × All P xs

module _ {A : Type 0} (P : A → Type 0) where
  take_out-All : (i : ℕ) (xs : List A) → All P xs → AllTaken P (take_out i xs)
  unfolding take_out AllTaken
  take_out-All i [] a = tt
  take_out-All zero (x ∷ xs) a = a
  take_out-All (suc i) (x ∷ xs) a = go (take_out i xs) (take_out-All i xs a.1)
    where
      go : (o : Option (A × List A)) → AllTaken P o → AllTaken P (keep_first x o)
      go none b = tt
      go (some (y, ys)) b = (b.0, (a.0, b.1))

read_result-read_packet : (r : DriverRead) → read_result r ≡ read_packet r
unfolding read_packet
read_result-read_packet r = ground arith

begin-IsSound :
    (p : Pool) (reads : Bool) (packet : ℕ) (o : Option (TunBuffers × List TunBuffers))
    → AllTaken IsClean o
    → IsSound p
    → IsSound (begin p reads packet o)
unfolding AllTaken
begin-IsSound p true packet none a (free, busy, done) = (free, ((refl, refl), busy), done)
begin-IsSound p false packet none a (free, busy, done) = (free, ((refl, tt), busy), done)
begin-IsSound p true packet (some (tb, others)) a (free, busy, done) =
    (a.1, ((refl, refl), busy), done)
begin-IsSound p false packet (some (tb, others)) a (free, busy, done) =
    (a.1, ((refl, tt), busy), done)

finish-IsSound :
    (p : Pool) (driver : Driver) (o : Option (Busy × List Busy))
    → AllTaken IsOwn o
    → IsSound p
    → IsSound (finish p driver o)
unfolding AllTaken write_packet
finish-IsSound p driver none a sound = sound
finish-IsSound p driver (some (b, others)) ((own, size), rest) (free, busy, done) = go b.reads size
  where
    go :
        (reads : Bool)
        → (if reads then b.buffers.size ≡ 0 else Unit {0})
        → IsSound (
            if reads
            then record {
              free =
                  record { buf = none; size = (driver b.buffers.buf b.buffers.size).size } ∷ p.free;
              busy = others;
              done =
                  Done.read b.packet driver (read_result (driver b.buffers.buf b.buffers.size))
                  ∷ p.done;
            }
            else record {
              free = record b.buffers { buf = none } ∷ p.free;
              busy = others;
              done =
                  Done.wrote b.packet driver (driver b.buffers.buf b.buffers.size).error ∷ p.done;
            })
    go true zero_ = (
      (refl, free),
      rest,
      (
        (read_result-read_packet (driver b.buffers.buf b.buffers.size)
            ∙ ap (λ o. read_packet (driver o b.buffers.size)) own
            ∙ ap (λ n. read_packet (driver (some b.packet) n)) zero_),
        done,
      ),
    )
    go false any = (
      (refl, free),
      rest,
      ((b.buffers.size, ap (λ o. (driver o b.buffers.size).error) own), done),
    )

drop_one-IsSound :
    (p : Pool) (o : Option (TunBuffers × List TunBuffers))
    → AllTaken IsClean o
    → IsSound p
    → IsSound (drop_one p o)
unfolding AllTaken
drop_one-IsSound p none a sound = sound
drop_one-IsSound p (some (tb, others)) a (free, busy, done) = (a.1, busy, done)

pool_step-IsSound : (p : Pool) (e : PoolEvent) → IsSound p → IsSound (pool_step p e)
unfolding pool_step
pool_step-IsSound p (begins_read packet i) sound =
    begin-IsSound p true packet (take_out i p.free) (take_out-All IsClean i p.free sound.0) sound
pool_step-IsSound p (begins_write packet i) sound =
    begin-IsSound p false packet (take_out i p.free) (take_out-All IsClean i p.free sound.0) sound
pool_step-IsSound p (ends i driver) sound =
    finish-IsSound p driver (take_out i p.busy) (take_out-All IsOwn i p.busy sound.1) sound
pool_step-IsSound p (drops i) sound =
    drop_one-IsSound p (take_out i p.free) (take_out-All IsClean i p.free sound.0) sound

pool_run-IsSound : (p : Pool) (events : List PoolEvent) → IsSound p → IsSound (pool_run p events)
pool_run-IsSound p [] sound = sound
pool_run-IsSound p (e ∷ events) sound =
    pool_run-IsSound (pool_step p e) events (pool_step-IsSound p e sound)

-- However reads and writes of TUN devices overlap, and whichever structs the pool gives and drops: no
-- struct in the pool refers to a packet buffer, a call that waits has given the driver its own packet
-- buffer and a read a size of 0, and each call that is done has the result that it would have had
-- with a struct of its own.
pub pool_run_lem : (events : List PoolEvent) → IsSound (pool_run new_pool events)
pool_run_lem events = pool_run-IsSound new_pool events (tt, tt, tt)
