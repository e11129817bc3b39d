-- ===== src/Buffer/Ints.antt =====
-- The integers of suduo/net/Buffer.h and suduo/net/Endian.h. An integer is its bit pattern, a
-- number below 256 ^ sizeof; the order of a host's bytes in memory is a parameter.
pub mod Wire
use mathlib.Core.List.{reverse}
use suduo.Prelude.{
  ℕ, zero, suc, ◌+◌, ◌*◌, ◌/◌, ◌%◌, ◌^◌, ◌≤◌, ◌<◌, ◌≡◌, refl, ap, ◌∙◌, Bool, true, Option, none,
  some, List, [], ◌∷◌, ◌++◌, arith, leb, length, length-append, ◌>>=◌, ◌>>◌, require,
}
use suduo.Buffer.{Buffer, readable_bytes, read_range, retrieve, append, prepend}

pub data ByteOrder : Type 0 where
  little big : ByteOrder

pub data Width : Type 0 where
  int_8 int_16 int_32 int_64 : Width

abbrev pub sizeof : Width → ℕ
sizeof int_8 = 1
sizeof int_16 = 2
sizeof int_32 = 4
sizeof int_64 = 8

-- The `n` low bytes of a number, the lowest first, and the number that bytes stand for.
unfoldable pub le_bytes : ℕ → ℕ → List ℕ
le_bytes zero x = []
le_bytes (suc n) x = (x % 256) ∷ le_bytes n (x / 256)

unfoldable pub le_value : List ℕ → ℕ
le_value [] = 0
le_value (b ∷ bs) = b + 256 * le_value bs

-- Network order: the highest byte first.
unfoldable pub be_bytes : ℕ → ℕ → List ℕ
unfolding le_bytes
be_bytes n x = reverse (le_bytes n x)

-- The bytes of a variable in memory, and `memcpy` into one.
unfoldable pub to_memory : ByteOrder → ℕ → ℕ → List ℕ
unfolding le_bytes be_bytes
to_memory little n x = le_bytes n x
to_memory big n x = be_bytes n x

unfoldable pub from_memory : ByteOrder → List ℕ → ℕ
unfolding le_value
from_memory little bs = le_value bs
from_memory big bs = le_value (reverse bs)

-- `htobe16/32/64` and `be16/32/64toh`: on a little-endian host they swap the bytes.
unfoldable pub swap_bytes : ByteOrder → ℕ → ℕ → ℕ
unfolding le_bytes le_value
swap_bytes little n x = le_value (reverse (le_bytes n x))
swap_bytes big n x = x

-- A single byte is not converted.
unfoldable pub host_to_network : ByteOrder → Width → ℕ → ℕ
unfolding swap_bytes
host_to_network o int_8 x = x
host_to_network o w x = swap_bytes o (sizeof w) x

unfoldable pub network_to_host : ByteOrder → Width → ℕ → ℕ
unfolding swap_bytes
network_to_host o int_8 x = x
network_to_host o w x = swap_bytes o (sizeof w) x

unfoldable pub append_int : ByteOrder → Width → Buffer → ℕ → Option Buffer
unfolding to_memory host_to_network append
append_int o w b x = append b (to_memory o (sizeof w) (host_to_network o w x))

unfoldable pub prepend_int : ByteOrder → Width → Buffer → ℕ → Option Buffer
unfolding to_memory host_to_network prepend
prepend_int o w b x = prepend b (to_memory o (sizeof w) (host_to_network o w x))

-- Only the 16-bit peek asserts that its bytes are there.
unfoldable pub check_peek : Width → Buffer → Option (Unit {0})
unfolding readable_bytes
check_peek int_16 b = require (leb (sizeof int_16) (readable_bytes b))
check_peek w b = some tt

unfoldable pub peek_int : ByteOrder → Width → Buffer → Option ℕ
unfolding check_peek read_range from_memory network_to_host
peek_int o w b = do
  check_peek w b
  bytes ← read_range b b.read_index (sizeof w)
  some (network_to_host o w (from_memory o bytes))

unfoldable pub retrieve_int : Width → Buffer → Buffer
unfolding retrieve
retrieve_int w b = retrieve b (sizeof w)

unfoldable pub read_int : ByteOrder → Width → Buffer → Option (ℕ × Buffer)
unfolding peek_int retrieve_int
read_int o w b = do result ← peek_int o w b; some (result, retrieve_int w b)
