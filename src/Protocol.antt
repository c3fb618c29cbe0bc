-- ===== src/Protocol.antt =====
-- src/seabolt/src/bolt/protocol.c: messages, and their way in chunks into the transmission buffer.
pub mod Chunks
pub mod Messages
use seabolt.Prelude.{
  ℕ, zero, suc, ◌+◌, ◌-◌, ◌/◌, ◌%◌, Bool, Option, none, some, List, [], ◌∷◌, ltb, if◌then◌else◌,
}
use seabolt.Prelude.Int.{ℤ}
use seabolt.Buffer
use seabolt.Buffer.{Buffer}
use seabolt.Buffer.Memory.{slice}
use seabolt.Values.{Value, Values, nil, cons, nulls, count}
use seabolt.Packstream.Result.{Result, ok, err, ◌>>=◌, unsupported_type}
use seabolt.Packstream.Load.{load_structure_header, int8_size, load_values}

-- `struct BoltMessage`; its fields are a list value. The code is an `int8_t`.
pub record Message : Type 0 where
  pub code : ℤ
  pub fields : Values

unfoldable pub message_create : ℤ → ℕ → Message
message_create code n = record { code = code; fields = nulls n }

-- `BoltMessage_param`: `none` is NULL.
value_at : Values → ℕ → Option Value
value_at nil i = none
value_at (cons x xs) zero = some x
value_at (cons x xs) (suc i) = value_at xs i

unfoldable pub message_param : Message → ℕ → Option Value
unfolding value_at
message_param m i = value_at m.fields i

unfoldable pub write_message : Message → (ℤ → Bool) → Buffer → Result Buffer
write_message m check b =
    if check m.code
    then (do
      c ← load_structure_header b m.code (int8_size (count m.fields))
      load_values check c m.fields)
    else err unsupported_type b

abbrev pub max_chunk_size : ℕ
max_chunk_size = 65535

-- The bytes behind the pointer that `unload_pointer` hands out are read before the buffer changes
-- again. A NULL pointer would fault in `memcpy`; `Chunks` shows that there is none.
unfoldable pub pointed : Buffer → ℕ → List ℕ × Buffer
pointed b n =
    let (p, c) = Buffer.unload_pointer b n in (elim p [ none ↦ [] | some i ↦ slice b.bytes i n ], c)

-- The `while` loop of `push_to_transmission`. Each round takes a byte at least, so that as many
-- rounds as bytes are enough. The two buffers are not the same object.
unfoldable pub push_chunks : ℕ → ℕ → Buffer → Buffer → Buffer × Buffer
unfolding pointed
push_chunks zero remaining msg tx = (msg, tx)
push_chunks (suc fuel) remaining msg tx =
    let size = if ltb max_chunk_size remaining then max_chunk_size else remaining in
    let header : List ℕ = size / 256 % 256 ∷ size % 256 ∷ [] in
    let (xs, rest) = pointed msg size in
    let more = push_chunks fuel (remaining - size) rest (Buffer.load (Buffer.load tx header) xs) in
    if ltb 0 remaining then more else (msg, tx)

-- The message buffer and the transmission buffer after the call.
unfoldable pub push_to_transmission : Buffer → Buffer → Buffer × Buffer
unfolding push_chunks
push_to_transmission msg tx =
    let total = Buffer.unloadable msg in
    let (msg', tx') = push_chunks total total msg tx in
    (Buffer.compact msg', Buffer.load tx' (0 ∷ 0 ∷ []))
