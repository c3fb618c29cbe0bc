-- ===== src/Packstream/Load.antt =====
-- packstream.c, `load_null` to `load`: a value is written to the end of a buffer.
use seabolt.Prelude.{ℕ, ◌+◌, ◌-◌, ◌^◌, Bool, List, length, ltb, ◌==◌, leb, ◌&&◌, if◌then◌else◌}
use seabolt.Prelude.Int.{ℤ, pos, negsuc, leb_ℤ, ltb_ℤ, to_word, of_word}
use seabolt.Buffer
use seabolt.Buffer.{Buffer}
use seabolt.Values.{
  Value, Values, Entries, null, boolean, integer, float, string, dictionary, list, bytes, structure,
  nil, cons, end, entry, count, count_entries, boolean_get,
}
use seabolt.Packstream.Result.{Result, ok, err, fault, ◌>>=◌, protocol_violation, unsupported_type}

unfoldable pub load_null : Buffer → Result Buffer
load_null b = ok (Buffer.load_u8 b 0xC0)

unfoldable pub load_boolean : Buffer → ℕ → Result Buffer
load_boolean b x = ok (Buffer.load_u8 b (if x == 0 then 0xC2 else 0xC3))

-- INT8_MIN and the like: the least integer of a width.
abbrev int_min : ℕ → ℤ
int_min w = negsuc (2 ^ (w - 1) - 1)

abbrev int_max : ℕ → ℤ
int_max w = pos (2 ^ (w - 1) - 1)

unfoldable pub load_integer : Buffer → ℤ → Result Buffer
load_integer b x =
    if leb_ℤ (negsuc 0xF) x && ltb_ℤ x (pos 0x80)
    then ok (Buffer.load_i8 b x)
    else if leb_ℤ (int_min 8) x && leb_ℤ x (int_max 8)
    then ok (Buffer.load_i8 (Buffer.load_u8 b 0xC8) x)
    else if leb_ℤ (int_min 16) x && leb_ℤ x (int_max 16)
    then ok (Buffer.load_i16be (Buffer.load_u8 b 0xC9) x)
    else if leb_ℤ (int_min 32) x && leb_ℤ x (int_max 32)
    then ok (Buffer.load_i32be (Buffer.load_u8 b 0xCA) x)
    else ok (Buffer.load_i64be (Buffer.load_u8 b 0xCB) x)

unfoldable pub load_float : Buffer → ℕ → Result Buffer
load_float b x = ok (Buffer.load_f64be (Buffer.load_u8 b 0xC1) x)

-- `size` is an `int32_t`. `data` holds the bytes behind the pointer.
unfoldable pub load_bytes : Buffer → List ℕ → ℤ → Result Buffer
load_bytes b source (negsuc n) = err protocol_violation b
load_bytes b source (pos n) =
    if ltb n 0x100
    then ok (Buffer.load (Buffer.load_u8 (Buffer.load_u8 b 0xCC) n) source)
    else if ltb n 0x10000
    then ok (Buffer.load (Buffer.load_u16be (Buffer.load_u8 b 0xCD) n) source)
    else ok (Buffer.load (Buffer.load_i32be (Buffer.load_u8 b 0xCE) (pos n)) source)

-- The bodies of `load_string_header`, `load_list_header` and `load_map_header` differ in the four
-- markers only.
unfoldable pub load_header : ℕ → ℕ → ℕ → ℕ → Buffer → ℤ → Result Buffer
load_header tiny m8 m16 m32 b (negsuc n) = err protocol_violation b
load_header tiny m8 m16 m32 b (pos n) =
    if ltb n 0x10
    then ok (Buffer.load_u8 b (tiny + n))
    else if ltb n 0x100
    then ok (Buffer.load_u8 (Buffer.load_u8 b m8) n)
    else if ltb n 0x10000
    then ok (Buffer.load_u16be (Buffer.load_u8 b m16) n)
    else ok (Buffer.load_i32be (Buffer.load_u8 b m32) (pos n))

unfoldable pub load_string_header : Buffer → ℤ → Result Buffer
unfolding load_header
load_string_header b n = load_header 0x80 0xD0 0xD1 0xD2 b n

unfoldable pub load_string : Buffer → List ℕ → ℤ → Result Buffer
unfolding load_string_header
load_string b source n = do c ← load_string_header b n; ok (Buffer.load c source)

unfoldable pub load_list_header : Buffer → ℤ → Result Buffer
unfolding load_header
load_list_header b n = load_header 0x90 0xD4 0xD5 0xD6 b n

unfoldable pub load_map_header : Buffer → ℤ → Result Buffer
unfolding load_header
load_map_header b n = load_header 0xA0 0xD8 0xD9 0xDA b n

-- `code` is an `int16_t` and `size` an `int8_t`.
unfoldable pub load_structure_header : Buffer → ℤ → ℤ → Result Buffer
load_structure_header b (negsuc c) n = err protocol_violation b
load_structure_header b (pos c) (negsuc n) = err protocol_violation b
load_structure_header b (pos c) (pos n) =
    if leb 0x10 n
    then err protocol_violation b
    else ok (Buffer.load_i8 (Buffer.load_u8 b (0xB0 + n)) (of_word 8 (to_word 8 (pos c))))

-- `(int8_t) value->size`
abbrev pub int8_size : ℕ → ℤ
int8_size n = of_word 8 (to_word 8 (pos n))

-- `BoltDictionary_get_key` asserts that the key is a string; its result is not NULL then.
unfoldable pub load_key : Value → Buffer → Result Buffer
unfolding load_string
load_key (string xs) b = load_string b xs (pos (length xs))
load_key k b = fault

-- `check` is the protocol's `check_writable_struct`.
module _ (check : ℤ → Bool) where
  unfoldable mutual
    pub load : Buffer → Value → Result Buffer
    load b null = load_null b
    load b (list xs) = do c ← load_list_header b (pos (count xs)); load_values c xs
    load b (boolean x) = load_boolean b (boolean_get x)
    load b (bytes xs) = load_bytes b xs (pos (length xs))
    load b (string xs) = load_string b xs (pos (length xs))
    load b (dictionary es) = do c ← load_map_header b (pos (count_entries es)); load_entries c es
    load b (integer x) = load_integer b x
    load b (float x) = load_float b x
    load b (structure code xs) =
        if check code
        then (do c ← load_structure_header b code (int8_size (count xs)); load_values c xs)
        else err unsupported_type b

    pub load_values : Buffer → Values → Result Buffer
    load_values b nil = ok b
    load_values b (cons x xs) = do c ← load b x; load_values c xs

    pub load_entries : Buffer → Entries → Result Buffer
    load_entries b end = ok b
    load_entries b (entry k v es) = do c ← load_key k b; d ← load c v; load_entries d es
