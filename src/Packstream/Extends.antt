-- ===== src/Packstream/Extends.antt =====
-- Whatever `load` does, it writes behind what the buffer holds.
use seabolt.Prelude.{
  ℕ, ◌+◌, ◌-◌, ◌≤◌, ◌<◌, ◌≡◌, refl, ◌∙◌, Bool, true, false, Bool-cases, List, [], ◌∷◌, length, leb,
  inl, inr, if◌then◌else◌, arith, ◌==◌,
}
use seabolt.Prelude.Int.{ℤ, pos, negsuc, to_word, of_word}
use seabolt.Mem.{be_bytes}
use seabolt.Buffer
use seabolt.Buffer.{Buffer}
use seabolt.Buffer.Memory.{write_below, slice_cong}
use seabolt.Buffer.Contents.{IsValid, contents}
use seabolt.Values.{
  Value, Values, Entries, null, boolean, integer, float, string, dictionary, list, bytes, structure,
  nil, cons, end, entry, count, count_entries, boolean_get,
}
use seabolt.Packstream.Result.{Code, Result, ok, err, fault, stuck, ◌>>=◌}
use seabolt.Packstream.Load as Load
use seabolt.Packstream.Load.{
  load_integer, load_bytes, load_header, load_string, load_string_header, load_list_header,
  load_map_header, load_structure_header, load_key, load, load_values, load_entries, int8_size,
}

-- From `b` to `c` the bytes up to the extent of `b` are as they were.
pub record Extends (b c : Buffer) : Type 0 where
  pub cursor : c.cursor ≡ b.cursor
  pub extent : b.extent ≤ c.extent
  pub size : b.size ≤ c.size
  pub bytes : (i : ℕ) → i < b.extent → c.bytes i ≡ b.bytes i

Extends-refl : {b : Buffer} → Extends b b
Extends-refl = record {
  cursor = refl;
  extent = omega arith;
  size = omega arith;
  bytes = λ i h. refl;
}

Extends-trans : {b c d : Buffer} → Extends b c → Extends c d → Extends b d
Extends-trans p q = record {
  cursor = q.cursor ∙ p.cursor;
  extent = omega arith;
  size = omega arith;
  bytes = λ i h. q.bytes i (omega arith) ∙ p.bytes i h;
}

Extends-load : (b : Buffer) (xs : List ℕ) → Extends b (Buffer.load b xs)
unfolding Buffer.load Buffer.load_pointer
Extends-load b xs = record {
  cursor = refl;
  extent = omega arith;
  size = ground arith;
  bytes = λ i h. write_below b.bytes b.extent xs i h;
}

-- However the call ends, the bytes are kept.
pub data Keeps (b : Buffer) : Result Buffer → Type 0 where
  succeeds : {c : Buffer} → Extends b c → Keeps b (ok c)
  fails : {code : Code} {c : Buffer} → Extends b c → Keeps b (err code c)
  faults : Keeps b fault
  sticks : Keeps b stuck

-- A buffer that gets its cursor and extent back has its contents back.
pub contents-restored :
    (b c : Buffer)
    → Extends b c
    → contents (record c { cursor = b.cursor; extent = b.extent }) ≡ contents b
contents-restored b c x =
    slice_cong c.bytes b.bytes b.cursor (b.extent - b.cursor) (λ i p q. x.bytes i (omega arith))

pub restored-IsValid :
    (b c : Buffer)
    → IsValid b
    → Extends b c
    → IsValid (record c { cursor = b.cursor; extent = b.extent })
restored-IsValid b c v x = omega arith

Keeps-trans : {b c : Buffer} {r : Result Buffer} → Extends b c → Keeps c r → Keeps b r
Keeps-trans x (succeeds y) = succeeds (Extends-trans x y)
Keeps-trans x (fails y) = fails (Extends-trans x y)
Keeps-trans x faults = faults
Keeps-trans x sticks = sticks

Keeps-if :
    {b : Buffer} (x : Bool) {r q : Result Buffer}
    → Keeps b r
    → Keeps b q
    → Keeps b (if x then r else q)
Keeps-if true h k = h
Keeps-if false h k = k

Keeps-bind :
    {b : Buffer} {r : Result Buffer} {k : Buffer → Result Buffer}
    → Keeps b r
    → ((c : Buffer) → Keeps c (k c))
    → Keeps b (r >>= k)
Keeps-bind (succeeds {c} h) next = Keeps-trans h (next c)
Keeps-bind (fails h) next = fails h
Keeps-bind faults next = faults
Keeps-bind sticks next = sticks

-- One write, and the write of a marker and another behind it.
written : {b : Buffer} (xs : List ℕ) → Keeps b (ok (Buffer.load b xs))
written {b} xs = succeeds (Extends-load b xs)

marked : (b : Buffer) (m : ℕ) (xs : List ℕ) → Extends b (Buffer.load (Buffer.load_u8 b m) xs)
unfolding Buffer.load_u8
marked b m xs = Extends-trans (Extends-load b (m ∷ [])) (Extends-load _ xs)

load_integer-Keeps : (b : Buffer) (x : ℤ) → Keeps b (load_integer b x)
unfolding load_integer Buffer.load_i8 Buffer.load_i16be Buffer.load_i32be Buffer.load_i64be
load_integer-Keeps b x = ground (
  arith,
  succeeds (Extends-load b (to_word 8 x ∷ [])),
  succeeds (marked b 0xC8 (to_word 8 x ∷ [])),
  succeeds (marked b 0xC9 (be_bytes 2 (to_word 16 x))),
  succeeds (marked b 0xCA (be_bytes 4 (to_word 32 x))),
  succeeds (marked b 0xCB (be_bytes 8 (to_word 64 x))),
)

load_bytes-Keeps : (b : Buffer) (xs : List ℕ) (n : ℤ) → Keeps b (load_bytes b xs n)
unfolding load_bytes Buffer.load_u16be Buffer.load_i32be Buffer.load_u8
load_bytes-Keeps b xs (negsuc n) = fails Extends-refl
load_bytes-Keeps b xs (pos n) = ground (
  arith,
  succeeds (Extends-trans (marked b 0xCC (n ∷ [])) (Extends-load _ xs)),
  succeeds (Extends-trans (marked b 0xCD (be_bytes 2 n)) (Extends-load _ xs)),
  succeeds (Extends-trans (marked b 0xCE (be_bytes 4 (to_word 32 (pos n)))) (Extends-load _ xs)),
)

load_header-Keeps :
    (tiny m8 m16 m32 : ℕ) (b : Buffer) (n : ℤ) → Keeps b (load_header tiny m8 m16 m32 b n)
unfolding load_header Buffer.load_u8 Buffer.load_u16be Buffer.load_i32be
load_header-Keeps tiny m8 m16 m32 b (negsuc n) = fails Extends-refl
load_header-Keeps tiny m8 m16 m32 b (pos n) = ground (
  arith,
  succeeds (Extends-load b ((tiny + n) ∷ [])),
  succeeds (marked b m8 (n ∷ [])),
  succeeds (marked b m16 (be_bytes 2 n)),
  succeeds (marked b m32 (be_bytes 4 (to_word 32 (pos n)))),
)

load_string-Keeps : (b : Buffer) (xs : List ℕ) (n : ℤ) → Keeps b (load_string b xs n)
unfolding load_string load_string_header
load_string-Keeps b xs n = Keeps-bind (load_header-Keeps 0x80 0xD0 0xD1 0xD2 b n) (λ c. written xs)

load_structure_header-Keeps : (b : Buffer) (code n : ℤ) → Keeps b (load_structure_header b code n)
unfolding load_structure_header Buffer.load_i8
load_structure_header-Keeps b (negsuc c) n = fails Extends-refl
load_structure_header-Keeps b (pos c) (negsuc n) = fails Extends-refl
load_structure_header-Keeps b (pos c) (pos n) = elim (Bool-cases (leb 0x10 n)) [
  | inl long ↦ rw long (fails Extends-refl)
  | inr fits ↦
      rw fits (succeeds (marked b (0xB0 + n) (to_word 8 (of_word 8 (to_word 8 (pos c))) ∷ [])))
]

load_key-Keeps : (k : Value) (b : Buffer) → Keeps b (load_key k b)
unfolding load_key
load_key-Keeps (string xs) b = load_string-Keeps b xs (pos (length xs))
load_key-Keeps _ b = faults

module _ (check : ℤ → Bool) where
  mutual
    unfolding load load_values load_entries Load.load_null Load.load_boolean Load.load_float
        load_list_header load_map_header Buffer.load_f64be Buffer.load_u8

    -- `load` succeeds or fails with the bytes that the buffer held as they were.
    pub load-Keeps : (b : Buffer) (x : Value) → Keeps b (load check b x)
    load-Keeps b null = written (0xC0 ∷ [])
    load-Keeps b (boolean x) = written ((if boolean_get x == 0 then 0xC2 else 0xC3) ∷ [])
    load-Keeps b (integer x) = load_integer-Keeps b x
    load-Keeps b (float x) = succeeds (marked b 0xC1 (be_bytes 8 x))
    load-Keeps b (string xs) = load_string-Keeps b xs (pos (length xs))
    load-Keeps b (bytes xs) = load_bytes-Keeps b xs (pos (length xs))
    load-Keeps b (list xs) =
        Keeps-bind (load_header-Keeps 0x90 0xD4 0xD5 0xD6 b (pos (count xs)))
          (λ c. load_values-Keeps c xs)
    load-Keeps b (dictionary es) =
        Keeps-bind (load_header-Keeps 0xA0 0xD8 0xD9 0xDA b (pos (count_entries es)))
          (λ c. load_entries-Keeps c es)
    load-Keeps b (structure code xs) =
        Keeps-if (check code)
          (Keeps-bind (load_structure_header-Keeps b code (int8_size (count xs)))
            (λ c. load_values-Keeps c xs))
          (fails Extends-refl)

    load_values-Keeps : (b : Buffer) (xs : Values) → Keeps b (load_values check b xs)
    load_values-Keeps b nil = succeeds Extends-refl
    load_values-Keeps b (cons x xs) = Keeps-bind (load-Keeps b x) (λ c. load_values-Keeps c xs)

    load_entries-Keeps : (b : Buffer) (es : Entries) → Keeps b (load_entries check b es)
    load_entries-Keeps b end = succeeds Extends-refl
    load_entries-Keeps b (entry k v es) =
        Keeps-bind (load_key-Keeps k b)
          (λ c. Keeps-bind (load-Keeps c v) (λ d. load_entries-Keeps d es))
