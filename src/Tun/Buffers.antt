-- ===== src/Tun/Buffers.antt =====
-- common/tun.go: `ReadPacket` and `WritePacket` of a TUN device over the pool of `tunBuffers` that all
-- calls share. A call is cut where it calls the driver: others run in between. The pool gives any
-- struct that it has, or a new one, and may drop one, as sync.Pool does.
use Prim.Native.String.{String}
use masque_vpn.Prelude.{
  ℕ, zero, suc, Bool, true, false, Option, none, some, Result, ok, err, List, [], ◌∷◌, ltb, ◌==◌,
  if◌then◌else◌,
}
use masque_vpn.Tun.Device.{DriverRead}

-- Both slices have one place: a reference to the packet buffer of a caller, here its number, and
-- the size of a packet.
pub record TunBuffers : Type 0 where
  pub buf : Option ℕ
  pub size : ℕ

abbrev pub new_buffers : TunBuffers
new_buffers = record { buf = none; size = 0 }

-- A call that waits for the driver, with its packet buffer and its struct.
pub record Busy : Type 0 where
  pub reads : Bool
  pub packet : ℕ
  pub buffers : TunBuffers

-- What the driver answers for the buffer and the size that it is given.
abbrev pub Driver : Type 0
Driver = Option ℕ → ℕ → DriverRead

-- A call that has returned: its packet buffer, the driver's answer, and its result.
pub data Done : Type 0 where
  read : ℕ → Driver → Result String ℕ → Done
  wrote : ℕ → Driver → Option String → Done

pub record Pool : Type 0 where
  pub free : List TunBuffers
  pub busy : List Busy
  pub done : List Done

abbrev pub new_pool : Pool
new_pool = record { free = []; busy = []; done = [] }

-- The i-th of a list, and the others.
module _ {A : Type 0} where
  abbrev pub keep_first : A → Option (A × List A) → Option (A × List A)
  keep_first x none = none
  keep_first x (some (y, ys)) = some (y, x ∷ ys)

  unfoldable pub take_out : ℕ → List A → Option (A × List A)
  take_out i [] = none
  take_out zero (x ∷ xs) = some (x, xs)
  take_out (suc i) (x ∷ xs) = keep_first x (take_out i xs)

abbrev pub begin : Pool → Bool → ℕ → Option (TunBuffers × List TunBuffers) → Pool
begin p reads packet none =
    let fresh : TunBuffers = record new_buffers { buf = some packet } in
    record p { busy = record { reads = reads; packet = packet; buffers = fresh } ∷ p.busy }
begin p true packet (some (tb, others)) =
    let mine : TunBuffers = record tb { buf = some packet; size = 0 } in
    record p {
      free = others;
      busy = record { reads = true; packet = packet; buffers = mine } ∷ p.busy;
    }
begin p false packet (some (tb, others)) =
    let mine : TunBuffers = record tb { buf = some packet } in
    record p {
      free = others;
      busy = record { reads = false; packet = packet; buffers = mine } ∷ p.busy;
    }

-- The rest of `ReadPacket`, with what the driver answered and the size that it left.
abbrev pub read_result : DriverRead → Result String ℕ
read_result r =
    let size = if ltb 0 r.count then r.size else 0 in
    elim r.error [ some e ↦ err e | none ↦ if r.count == 0 then ok 0 else ok size ]

abbrev pub finish : Pool → Driver → Option (Busy × List Busy) → Pool
finish p driver none = p
finish p driver (some (b, others)) =
    let r = driver b.buffers.buf b.buffers.size in
    if b.reads
    then record {
      free = record { buf = none; size = r.size } ∷ p.free;
      busy = others;
      done = read b.packet driver (read_result r) ∷ p.done;
    }
    else record {
      free = record b.buffers { buf = none } ∷ p.free;
      busy = others;
      done = wrote b.packet driver r.error ∷ p.done;
    }

abbrev pub drop_one : Pool → Option (TunBuffers × List TunBuffers) → Pool
drop_one p none = p
drop_one p (some (tb, others)) = record p { free = others }

-- A call begins with a packet buffer and the struct that the pool chooses, the driver answers the i-th
-- of those that wait, or the pool drops a struct.
pub data PoolEvent : Type 0 where
  begins_read begins_write : ℕ → ℕ → PoolEvent
  ends : ℕ → Driver → PoolEvent
  drops : ℕ → PoolEvent

unfoldable pub pool_step : Pool → PoolEvent → Pool
pool_step p (begins_read packet i) = begin p true packet (take_out i p.free)
pool_step p (begins_write packet i) = begin p false packet (take_out i p.free)
pool_step p (ends i driver) = finish p driver (take_out i p.busy)
pool_step p (drops i) = drop_one p (take_out i p.free)

abbrev pub pool_run : Pool → List PoolEvent → Pool
pool_run p [] = p
pool_run p (e ∷ events) = pool_run (pool_step p e) events
