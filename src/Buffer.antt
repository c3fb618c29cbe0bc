-- ===== src/Buffer.antt =====
-- src/seabolt/src/bolt/buffering.c and buffering.h: the growable byte buffer. Its fields of type
-- `int` are natural numbers here; `Buffer.Bounds` says when they stay below 2 ^ 31. A block of
-- memory maps an index to its byte, so what `malloc` or `realloc` leaves in a new block is whatever
-- the map holds there.
pub mod Memory
pub mod Contents
pub mod Refine
pub mod Reads
pub mod Bounds
use seabolt.Prelude.{
  ℕ, suc, ◌+◌, ◌-◌, ◌^◌, ◌&&◌, Option, none, some, List, [], ◌∷◌, length, ltb, ◌==◌, if◌then◌else◌,
}
use seabolt.Prelude.Int.{ℤ, to_word, of_word}
use seabolt.Mem.{be_bytes, be_value}
use Memory.{Cells, write, slice}

abbrev pub int_max : ℕ
int_max = 2 ^ 31 - 1

-- `struct BoltBuffer`; `bytes` is the block that its field `data` points to.
pub record Buffer : Type 0 where
  pub size : ℕ
  pub extent : ℕ
  pub cursor : ℕ
  pub bytes : Cells

-- `block` is what `malloc` returned.
unfoldable pub create : Cells → ℕ → Buffer
create block size = record { size = size; extent = 0; cursor = 0; bytes = block }

-- `memmove(data, data + cursor, available)` goes through a copy of the bytes.
unfoldable pub compact : Buffer → Buffer
compact b =
    if ltb 0 b.cursor && ltb (b.extent - b.cursor) b.cursor
    then record b {
      bytes = write b.bytes 0 (slice b.bytes b.cursor (b.extent - b.cursor));
      cursor = 0;
      extent = b.extent - b.cursor;
    }
    else b

unfoldable pub loadable : Buffer → ℕ
loadable b =
    let available = b.size - b.extent in if ltb int_max available then int_max else available

-- The pointer is an index into the block. `realloc` keeps the bytes of the old block.
unfoldable pub load_pointer : Buffer → ℕ → ℕ × Buffer
unfolding loadable
load_pointer b n =
    let available = loadable b in
    let size = if ltb available n then b.size + (n - available) else b.size in
    (b.extent, record b { size = size; extent = b.extent + n })

-- The list is the `size` bytes behind the pointer `data`.
unfoldable pub load : Buffer → List ℕ → Buffer
unfolding load_pointer
load b xs =
    let (target, c) = load_pointer b (length xs) in record c { bytes = write c.bytes target xs }

unfoldable pub load_u8 : Buffer → ℕ → Buffer
unfolding load
load_u8 b x = load b (x ∷ [])

unfoldable pub load_i8 : Buffer → ℤ → Buffer
unfolding load
load_i8 b x = load b (to_word 8 x ∷ [])

unfoldable pub load_u16be : Buffer → ℕ → Buffer
unfolding load
load_u16be b x = load b (be_bytes 2 x)

unfoldable pub load_i16be : Buffer → ℤ → Buffer
unfolding load
load_i16be b x = load b (be_bytes 2 (to_word 16 x))

unfoldable pub load_i32be : Buffer → ℤ → Buffer
unfolding load
load_i32be b x = load b (be_bytes 4 (to_word 32 x))

unfoldable pub load_i64be : Buffer → ℤ → Buffer
unfolding load
load_i64be b x = load b (be_bytes 8 (to_word 64 x))

-- A `double` is its 64-bit pattern.
unfoldable pub load_f64be : Buffer → ℕ → Buffer
unfolding load
load_f64be b x = load b (be_bytes 8 x)

unfoldable pub unloadable : Buffer → ℕ
unloadable b = b.extent - b.cursor

-- `none` is NULL.
unfoldable pub unload_pointer : Buffer → ℕ → Option ℕ × Buffer
unfolding unloadable
unload_pointer b n =
    if ltb (unloadable b) n
    then (none, b)
    else if b.cursor + n == b.extent
    then (some b.cursor, record b { extent = 0; cursor = 0 })
    else (some b.cursor, record b { cursor = b.cursor + n })

-- `none` is the result -1, which leaves the buffer and the destination as they were.
unfoldable pub unload : Buffer → ℕ → Option (List ℕ × Buffer)
unfolding unloadable compact
unload b n =
    if ltb (unloadable b) n
    then none
    else let c : Buffer = record b { cursor = b.cursor + n } in
      some (slice b.bytes b.cursor n, if c.cursor == c.extent then compact c else c)

unfoldable pub peek_u8 : Buffer → Option ℕ
unfolding unloadable
peek_u8 b = if ltb (unloadable b) 1 then none else some (b.bytes b.cursor)

unfoldable pub unload_u8 : Buffer → Option (ℕ × Buffer)
unfolding unloadable
unload_u8 b =
    if ltb (unloadable b) 1
    then none
    else some (b.bytes b.cursor, record b { cursor = b.cursor + 1 })

-- The shape that the typed reads below share: test, `memcpy_be`, advance.
unload_be : ℕ → Buffer → Option (ℕ × Buffer)
unfolding unloadable
unload_be k b =
    if ltb (unloadable b) k
    then none
    else some (be_value k (slice b.bytes b.cursor k), record b { cursor = b.cursor + k })

signed : ℕ → Option (ℕ × Buffer) → Option (ℤ × Buffer)
signed w none = none
signed w (some (x, b)) = some (of_word w x, b)

unfoldable pub unload_u16be : Buffer → Option (ℕ × Buffer)
unfolding unload_be
unload_u16be b = unload_be 2 b

unfoldable pub unload_i8 : Buffer → Option (ℤ × Buffer)
unfolding unload_be signed
unload_i8 b = signed 8 (unload_be 1 b)

unfoldable pub unload_i16be : Buffer → Option (ℤ × Buffer)
unfolding unload_be signed
unload_i16be b = signed 16 (unload_be 2 b)

unfoldable pub unload_i32be : Buffer → Option (ℤ × Buffer)
unfolding unload_be signed
unload_i32be b = signed 32 (unload_be 4 b)

unfoldable pub unload_i64be : Buffer → Option (ℤ × Buffer)
unfolding unload_be signed
unload_i64be b = signed 64 (unload_be 8 b)

unfoldable pub unload_f64be : Buffer → Option (ℕ × Buffer)
unfolding unload_be
unload_f64be b = unload_be 8 b
