-- ===== src/Packstream/Settles.antt =====
-- The reads without parts come to an end, and leave no more bytes than there were.
use seabolt.Prelude.{ℕ, suc, ◌≤◌, ◌<◌, List, Option, none, some, arith}
use seabolt.Prelude.Int.{ℤ, pos, negsuc}
use seabolt.Buffer
use seabolt.Buffer.{Buffer}
use seabolt.Values.{Value, format_as_float, format_as_integer}
use seabolt.Packstream.Result.{Result, ok, err, fault, stuck}
use seabolt.Packstream.Unload.{
  within, Read, reading, sized, map_result, unload_null, unload_boolean, unload_integer,
  unload_float, fill, read_size, wide_size,
}

-- The call comes to an end, and at most `n` bytes are left.
abbrev pub Settles : {A : Type 0} → ℕ → Result (Buffer × A) → Type 0
Settles n (ok (c, x)) = Buffer.unloadable c ≤ n
Settles n (err _ (c, x)) = Buffer.unloadable c ≤ n
Settles n fault = Unit {0}
Settles n stuck = ⊥

abbrev pub Shorter : {A : Type 0} → ℕ → Option (A × Buffer) → Type 0
Shorter n none = Unit {0}
Shorter n (some (x, c)) = Buffer.unloadable c < n

pub reading-Settles :
    {A B : Type 0} (n m : ℕ) (o : Option (A × Buffer)) (k : A → Buffer → Result (Buffer × B))
    → Shorter n o
    → ((x : A) (c : Buffer) → Buffer.unloadable c < n → Settles m (k x c))
    → Settles m (reading o k)
reading-Settles n m none k s next = tt
reading-Settles n m (some (x, c)) k s next = next x c s

module _ (b : Buffer) where
  pub unload_u8-Shorter : Shorter (Buffer.unloadable b) (Buffer.unload_u8 b)
  unfolding Buffer.unload_u8 Buffer.unloadable
  unload_u8-Shorter = ground arith

  pub unload_i8-Shorter : Shorter (suc (Buffer.unloadable b)) (Buffer.unload_i8 b)
  unfolding Buffer.unload_i8 Buffer.unloadable
  unload_i8-Shorter = ground arith

  pub unload_u16be-Shorter : Shorter (suc (Buffer.unloadable b)) (Buffer.unload_u16be b)
  unfolding Buffer.unload_u16be Buffer.unloadable
  unload_u16be-Shorter = ground arith

  pub unload_i16be-Shorter : Shorter (suc (Buffer.unloadable b)) (Buffer.unload_i16be b)
  unfolding Buffer.unload_i16be Buffer.unloadable
  unload_i16be-Shorter = ground arith

  pub unload_i32be-Shorter : Shorter (suc (Buffer.unloadable b)) (Buffer.unload_i32be b)
  unfolding Buffer.unload_i32be Buffer.unloadable
  unload_i32be-Shorter = ground arith

  pub unload_i64be-Shorter : Shorter (suc (Buffer.unloadable b)) (Buffer.unload_i64be b)
  unfolding Buffer.unload_i64be Buffer.unloadable
  unload_i64be-Shorter = ground arith

  pub unload_f64be-Shorter : Shorter (suc (Buffer.unloadable b)) (Buffer.unload_f64be b)
  unfolding Buffer.unload_f64be Buffer.unloadable
  unload_f64be-Shorter = ground arith

  pub unload-Shorter : (n : ℕ) → Shorter (suc (Buffer.unloadable b)) (Buffer.unload b n)
  unfolding Buffer.unload Buffer.unloadable
  unload-Shorter n = ground arith

-- After the marker, a read of one more field: the tail of most functions below.
pub field-Settles :
    {A B : Type 0} (n : ℕ) (c : Buffer) (o : Option (A × Buffer)) (f : A → B)
    → Shorter (suc (Buffer.unloadable c)) o
    → Buffer.unloadable c ≤ n
    → Settles n (reading o (λ x d. ok (d, f x)))
field-Settles n c o f s h =
    reading-Settles (suc (Buffer.unloadable c)) n o (λ x d. ok (d, f x)) s (λ x d k. omega arith)

module _ (b : Buffer) (slot : Value) where
  -- The marker is read first, which leaves fewer bytes.
  pub marker-Settles :
      {A : Type 0} (m : ℕ) (k : ℕ → Buffer → Result (Buffer × A))
      → ((x : ℕ) (c : Buffer) → Buffer.unloadable c < Buffer.unloadable b → Settles m (k x c))
      → Settles m (reading (Buffer.unload_u8 b) k)
  marker-Settles m k next =
      reading-Settles (Buffer.unloadable b) m (Buffer.unload_u8 b) k (unload_u8-Shorter b) next

  pub unload_null-Settles : Settles (Buffer.unloadable b) (unload_null b slot)
  unfolding unload_null
  unload_null-Settles = marker-Settles _ _ (λ x c h. ground arith)

  pub unload_boolean-Settles : Settles (Buffer.unloadable b) (unload_boolean b slot)
  unfolding unload_boolean
  unload_boolean-Settles = marker-Settles _ _ (λ x c h. ground arith)

  pub unload_float-Settles : Settles (Buffer.unloadable b) (unload_float b slot)
  unfolding unload_float
  unload_float-Settles = marker-Settles _ _ (λ x c h. ground (
    arith,
    field-Settles (Buffer.unloadable b) c (Buffer.unload_f64be c) (format_as_float slot)
        (unload_f64be-Shorter c) (omega arith),
  ))

  pub unload_integer-Settles : Settles (Buffer.unloadable b) (unload_integer b slot)
  unfolding unload_integer
  unload_integer-Settles = marker-Settles _ _ λ x c h.
      let field : (o : Option (ℤ × Buffer))
          → Shorter (suc (Buffer.unloadable c)) o
          → Settles (Buffer.unloadable b) (reading o (λ y d. ok (d, format_as_integer slot y))) =
        λ o s. field-Settles (Buffer.unloadable b) c o (format_as_integer slot) s (omega arith) in
      ground (
        arith,
        field (Buffer.unload_i8 c) (unload_i8-Shorter c),
        field (Buffer.unload_i16be c) (unload_i16be-Shorter c),
        field (Buffer.unload_i32be c) (unload_i32be-Shorter c),
        field (Buffer.unload_i64be c) (unload_i64be-Shorter c),
      )

module _ (b : Buffer) where
  pub weaker : {A : Type 0} (m n : ℕ) (o : Option (A × Buffer)) → m ≤ n → Shorter m o → Shorter n o
  weaker m n none h s = tt
  weaker m n (some (x, c)) h s = omega arith

  pub wide_size-Settles :
      (m8 m16 m32 m : ℕ) → Settles (Buffer.unloadable b) (wide_size m8 m16 m32 m b)
  unfolding wide_size
  wide_size-Settles m8 m16 m32 m =
      let n = Buffer.unloadable b in
      let byte = weaker n (suc n) (Buffer.unload_u8 b) (omega arith) (unload_u8-Shorter b) in
      ground (
        arith,
        field-Settles n b (Buffer.unload_u8 b) pos byte (omega arith),
        field-Settles n b (Buffer.unload_u16be b) pos (unload_u16be-Shorter b) (omega arith),
        field-Settles n b (Buffer.unload_i32be b) (λ x. x) (unload_i32be-Shorter b) (omega arith),
      )

  pub read_size-Settles :
      (tiny m8 m16 m32 m : ℕ) → Settles (Buffer.unloadable b) (read_size tiny m8 m16 m32 m b)
  unfolding read_size within
  read_size-Settles tiny m8 m16 m32 m = ground (arith, wide_size-Settles m8 m16 m32 m)

pub fill-Settles :
    (format : List ℕ → Value) (slot : Value) (n : ℕ) (r : Result (Buffer × ℤ))
    → Settles n r
    → Settles n (fill format slot r)
unfolding fill
fill-Settles format slot n (ok (c, pos k)) s = ground (arith, unload-Shorter c k)
fill-Settles format slot n (ok (c, negsuc k)) s = tt
fill-Settles format slot n (err e (c, k)) s = s
fill-Settles format slot n fault s = tt
fill-Settles format slot n stuck s = s

pub Settles-mono :
    {A : Type 0} (m n : ℕ) (r : Result (Buffer × A)) → m ≤ n → Settles m r → Settles n r
Settles-mono m n (ok (c, x)) h s = omega arith
Settles-mono m n (err _ (c, x)) h s = omega arith
Settles-mono m n fault h s = tt
Settles-mono m n stuck h s = s

pub map_result-Settles :
    {A B : Type 0} (f : A → B) (n : ℕ) (r : Result (Buffer × A))
    → Settles n r
    → Settles n (map_result (λ p. (p.0, f p.1)) r)
map_result-Settles f n (ok (c, x)) s = s
map_result-Settles f n (err _ (c, x)) s = s
map_result-Settles f n fault s = s
map_result-Settles f n stuck s = s

pub sized-Settles :
    (slot : Value) (n : ℕ) (r : Result (Buffer × ℤ)) (k : Buffer → ℕ → Read)
    → Settles n r
    → ((c : Buffer) (size : ℕ) → Buffer.unloadable c ≤ n → Settles n (k c size))
    → Settles n (sized slot r k)
sized-Settles slot n (ok (c, pos m)) k s next = next c m s
sized-Settles slot n (ok (c, negsuc m)) k s next = s
sized-Settles slot n (err e (c, m)) k s next = s
sized-Settles slot n fault k s next = s
sized-Settles slot n stuck k s next = s

-- `rec` settles on every buffer with fewer than `fuel` bytes.
abbrev pub Covers : ℕ → (Buffer → Value → Read) → Type 0
Covers fuel rec =
    (c : Buffer) (slot : Value)
    → Buffer.unloadable c < fuel
    → Settles (Buffer.unloadable c) (rec c slot)
