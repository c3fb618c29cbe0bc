-- ===== src/Values.antt =====
-- src/seabolt/src/bolt/values.c: `struct BoltValue` as the value that it stands for. Where the bytes
-- of a value lie (inline or in an external block, `data_size`) is not part of the model; the
-- elements that a container keeps when it is formatted again are.
pub mod Copy
use seabolt.Prelude.{ℕ, zero, suc, ◌+◌, Bool, true, false, not, List, length, ◌==◌}
use seabolt.Prelude.Int.{ℤ}

-- An integer is an `int64_t`, a float the 64-bit pattern of a `double`, text and bytes are byte
-- lists, and a structure's code is an `int16_t`. The keys of a dictionary are values too.
mutual
  pub data Value : Type 0 where
    null : Value
    boolean : Bool → Value
    integer : ℤ → Value
    float : ℕ → Value
    string : List ℕ → Value
    dictionary : Entries → Value
    list : Values → Value
    bytes : List ℕ → Value
    structure : ℤ → Values → Value

  pub data Values : Type 0 where
    nil : Values
    cons : Value → Values → Values

  pub data Entries : Type 0 where
    end : Entries
    entry : Value → Value → Entries → Entries

-- The field `size` of a container.
abbrev pub count : Values → ℕ
count nil = 0
count (cons x xs) = suc (count xs)

abbrev pub count_entries : Entries → ℕ
count_entries end = 0
count_entries (entry k v es) = suc (count_entries es)

-- `_resize` with multiplier 1 and 2: elements that stay are kept, new ones are null.
unfoldable pub resize : Values → ℕ → Values
resize xs zero = nil
resize nil (suc n) = cons null (resize nil n)
resize (cons x xs) (suc n) = cons x (resize xs n)

unfoldable pub resize_entries : Entries → ℕ → Entries
resize_entries es zero = end
resize_entries end (suc n) = entry null null (resize_entries end n)
resize_entries (entry k v es) (suc n) = entry k v (resize_entries es n)

-- A block that is cleared by `memset`.
abbrev pub nulls : ℕ → Values
nulls n = resize nil n

abbrev pub null_entries : ℕ → Entries
null_entries n = resize_entries end n

-- `_recycle`
unfoldable pub recycle : Value → Value
recycle (list xs) = list (nulls (count xs))
recycle (structure code xs) = structure code (nulls (count xs))
recycle (dictionary es) = dictionary (null_entries (count_entries es))
recycle v = v

-- The `BoltValue_format_as_...` functions: the old value, then the arguments.
unfoldable pub format_as_null : Value → Value
format_as_null v = null

unfoldable pub format_as_boolean : Value → ℕ → Value
format_as_boolean v x = boolean (not (x == 0))

-- `BoltBoolean_get`
unfoldable pub boolean_get : Bool → ℕ
boolean_get true = 1
boolean_get false = 0

unfoldable pub format_as_integer : Value → ℤ → Value
format_as_integer v x = integer x

unfoldable pub format_as_float : Value → ℕ → Value
format_as_float v x = float x

unfoldable pub format_as_string : Value → List ℕ → Value
format_as_string v xs = string xs

unfoldable pub format_as_bytes : Value → List ℕ → Value
format_as_bytes v xs = bytes xs

unfoldable pub format_as_list : Value → ℕ → Values
format_as_list (list xs) n = resize xs n
format_as_list v n = nulls n

unfoldable pub format_as_dictionary : Value → ℕ → Entries
format_as_dictionary (dictionary es) n = resize_entries es n
format_as_dictionary v n = null_entries n

unfoldable pub format_as_structure : Value → ℕ → Values
format_as_structure v n = nulls n

-- `BoltValue_copy(dest, src)`: the slots of `dest` are formatted and then written one by one.
unfoldable mutual
  pub copy : Value → Value → Value
  copy dest null = format_as_null (recycle dest)
  copy dest (boolean x) = format_as_boolean (recycle dest) (boolean_get x)
  copy dest (integer x) = format_as_integer (recycle dest) x
  copy dest (float x) = format_as_float (recycle dest) x
  copy dest (string xs) = format_as_string (recycle dest) xs
  copy dest (dictionary es) =
      dictionary (copy_entries (format_as_dictionary (recycle dest) (count_entries es)) es)
  copy dest (list xs) = list (copy_values (format_as_list (recycle dest) (count xs)) xs)
  copy dest (bytes xs) = format_as_bytes (recycle dest) xs
  copy dest (structure code xs) =
      structure code (copy_values (format_as_structure (recycle dest) (count xs)) xs)

  -- A slot that is not there is not written; `Copy` shows that this does not happen.
  pub copy_values : Values → Values → Values
  copy_values slots nil = slots
  copy_values nil (cons x xs) = nil
  copy_values (cons slot slots) (cons x xs) = cons (copy slot x) (copy_values slots xs)

  pub copy_entries : Entries → Entries → Entries
  copy_entries slots end = slots
  copy_entries end (entry k v es) = end
  copy_entries (entry i j slots) (entry k v es) =
      entry (copy i k) (copy j v) (copy_entries slots es)
