-- ===== src/Values/Copy.antt =====
-- `BoltValue_copy` makes a deep copy, whatever the destination held.
use seabolt.Prelude.{ℕ, zero, suc, ◌≡◌, true, false, refl, ap, ap₂, arith}
use seabolt.Values.{
  Value, Values, Entries, null, boolean, integer, float, string, dictionary, list, bytes, structure,
  nil, cons, end, entry, count, count_entries, resize, resize_entries, format_as_list,
  format_as_null, format_as_boolean, boolean_get, format_as_integer, format_as_float,
  format_as_string, format_as_bytes, format_as_dictionary, format_as_structure, recycle, copy,
  copy_values, copy_entries,
}

pub count-resize : (xs : Values) (n : ℕ) → count (resize xs n) ≡ n
unfolding resize
count-resize xs zero = refl
count-resize nil (suc n) = ap suc (count-resize nil n)
count-resize (cons x xs) (suc n) = ap suc (count-resize xs n)

pub count_entries-resize_entries : (es : Entries) (n : ℕ) → count_entries (resize_entries es n) ≡ n
unfolding resize_entries
count_entries-resize_entries es zero = refl
count_entries-resize_entries end (suc n) = ap suc (count_entries-resize_entries end n)
count_entries-resize_entries (entry k v es) (suc n) = ap suc (count_entries-resize_entries es n)

pub count-format_as_list : (v : Value) (n : ℕ) → count (format_as_list v n) ≡ n
unfolding format_as_list
count-format_as_list (list xs) n = count-resize xs n
count-format_as_list v n = count-resize nil n

pub count_entries-format_as_dictionary :
    (v : Value) (n : ℕ) → count_entries (format_as_dictionary v n) ≡ n
unfolding format_as_dictionary
count_entries-format_as_dictionary (dictionary es) n = count_entries-resize_entries es n
count_entries-format_as_dictionary v n = count_entries-resize_entries end n

pub count-format_as_structure : (v : Value) (n : ℕ) → count (format_as_structure v n) ≡ n
unfolding format_as_structure
count-format_as_structure v n = count-resize nil n

mutual
  unfolding copy format_as_null format_as_boolean boolean_get format_as_integer format_as_float
      format_as_string format_as_bytes format_as_structure

  copied : (dest src : Value) → copy dest src ≡ src
  copied dest null = refl
  copied dest (boolean true) = refl
  copied dest (boolean false) = refl
  copied dest (integer x) = refl
  copied dest (float x) = refl
  copied dest (string xs) = refl
  copied dest (bytes xs) = refl
  copied dest (dictionary es) =
      ap dictionary
        (copied_entries _ es (count_entries-format_as_dictionary (recycle dest) (count_entries es)))
  copied dest (list xs) =
      ap list (copied_values _ xs (count-format_as_list (recycle dest) (count xs)))
  copied dest (structure code xs) =
      ap (structure code) (copied_values _ xs (count-resize nil (count xs)))

  copied_values : (slots xs : Values) → count slots ≡ count xs → copy_values slots xs ≡ xs
  copied_values nil nil h = refl
  copied_values (cons y ys) nil h = absurd (omega arith)
  copied_values nil (cons x xs) h = absurd (omega arith)
  copied_values (cons y ys) (cons x xs) h =
      ap₂ cons (copied y x) (copied_values ys xs (omega arith))

  copied_entries :
      (slots es : Entries) → count_entries slots ≡ count_entries es → copy_entries slots es ≡ es
  copied_entries end end h = refl
  copied_entries (entry i j ys) end h = absurd (omega arith)
  copied_entries end (entry k v es) h = absurd (omega arith)
  copied_entries (entry i j ys) (entry k v es) h =
      rw (copied i k, copied j v, copied_entries ys es (omega arith))

-- Copying gives the source, at every depth, whatever the destination was before.
pub copy_lem : (dest src : Value) → copy dest src ≡ src
copy_lem dest src = copied dest src
