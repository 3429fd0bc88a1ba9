-- ===== src/Transport/LegacyPkt.antt =====
-- cmd/rdpgw/transport/legacy.go
use home_rdp_gateway.Base.{
  ℕ, ◌≡◌, ◌≤◌, Bool, ◌++◌, length, take, replicate, sym, arith, ◌-◌, length-take, length-append,
  length-replicate,
}
use Prim.Native.Nat.{min}
use home_rdp_gateway.Wire.{Bytes}
use home_rdp_gateway.Transport.Defs.{Received, IsHonest}

-- `bufio.defaultBufSize`.
abbrev pub buffer_size : ℕ
buffer_size = 4096

-- `ChunkedReader.Read(buf)` puts `chunk` into the buffer, at most its size, with `failed` for an error
-- beside it; the first `n` bytes of the buffer are copied out.
unfoldable pub read_packet : Bytes → Bool → Received
read_packet chunk failed =
    let buf = take buffer_size chunk ++ replicate (buffer_size - length chunk) 0 in
    let n = min buffer_size (length chunk) in
    record { size = n; bytes = take n buf; failed = failed }

length_read :
    (most : ℕ) (chunk : Bytes)
    → length (take (min most (length chunk)) (take most chunk ++ replicate (most - length chunk) 0))
      ≡ min most (length chunk)
length_read most chunk = omega (
  arith,
  length-take (min most (length chunk)) (take most chunk ++ replicate (most - length chunk) 0),
  length-append (take most chunk) (replicate (most - length chunk) 0),
  length-take most chunk,
  length-replicate {A = ℕ} (most - length chunk) 0,
)

pub read_packet-IsHonest : (chunk : Bytes) (failed : Bool) → IsHonest (read_packet chunk failed)
unfolding read_packet
read_packet-IsHonest chunk failed = sym (length_read buffer_size chunk)

pub read_packet_bounded :
    (chunk : Bytes) (failed : Bool) → length (read_packet chunk failed).bytes ≤ buffer_size
unfolding read_packet
read_packet_bounded chunk failed = rw (length_read buffer_size chunk) (omega arith)
