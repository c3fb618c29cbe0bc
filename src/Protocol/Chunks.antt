-- ===== src/Protocol/Chunks.antt =====
-- The chunked form of a message, and that `push_to_transmission` produces it.
use seabolt.Prelude.{
  ℕ, zero, suc, ◌-◌, ◌/◌, ◌%◌, ◌≤◌, ◌≡◌, refl, ap, ap₂, sym, ◌∙◌, subst, List, [], ◌∷◌, ◌++◌,
  append_assoc, length, take, drop, length-take, length-drop, take-drop, ltb, Bool-cases, inl, inr,
  if◌then◌else◌, arith,
}
use seabolt.Buffer
use seabolt.Buffer.{Buffer}
use seabolt.Buffer.Contents.{
  IsValid, contents, length-contents, load-IsValid, contents-compact, compact-IsValid, slice-take,
  contents-advance, advance-IsValid, advance, contents-empty,
}
use seabolt.Packstream.Writes.{Adds, Adds-load, Adds-trans, Adds-refl}
use seabolt.Protocol.{max_chunk_size, pointed, push_chunks, push_to_transmission}

-- How a message stands on the wire: chunks of 1 to 65535 bytes, each behind its length in two
-- bytes, and the length zero at the end.
pub data Chunked : List ℕ → List ℕ → Type 0 where
  finish : Chunked [] (0 ∷ 0 ∷ [])
  chunk :
      (xs ys wire : List ℕ)
      → 1 ≤ length xs
      → length xs ≤ max_chunk_size
      → Chunked ys wire
      → Chunked (xs ++ ys) (length xs / 256 ∷ length xs % 256 ∷ (xs ++ wire))

-- The same without the end mark.
data Chunks : List ℕ → List ℕ → Type 0 where
  none_left : Chunks [] []
  next :
      (xs ys wire : List ℕ)
      → 1 ≤ length xs
      → length xs ≤ max_chunk_size
      → Chunks ys wire
      → Chunks (xs ++ ys) (length xs / 256 ∷ length xs % 256 ∷ (xs ++ wire))

Chunks-Chunked : {m wire : List ℕ} → Chunks m wire → Chunked m (wire ++ (0 ∷ 0 ∷ []))
Chunks-Chunked none_left = finish
Chunks-Chunked (next xs ys wire h k c) =
    let e = append_assoc xs wire (0 ∷ 0 ∷ []) in
    subst (λ w. Chunked (xs ++ ys) (length xs / 256 ∷ length xs % 256 ∷ w)) (sym e)
      (chunk xs ys (wire ++ (0 ∷ 0 ∷ [])) h k (Chunks-Chunked c))

-- A pointer to bytes that are there.
record Points (b : Buffer) (n : ℕ) (p : List ℕ × Buffer) : Type 0 where
  found : p.0 ≡ take n (contents b)
  left : contents p.1 ≡ drop n (contents b)
  valid : IsValid p.1

pointed-Points :
    {b : Buffer} (n : ℕ) → IsValid b → n ≤ Buffer.unloadable b → Points b n (pointed b n)
unfolding pointed Buffer.unload_pointer
pointed-Points {b} n v h = ground (
  arith,
  slice-take b n h,
  contents-advance b n h,
  advance-IsValid {b = b} n h v,
  contents-empty (advance b n),
  contents-empty (record b { extent = 0; cursor = 0 }),
)

-- What the loop leaves: nothing of the message, and its chunks behind what was sent before.
abbrev Pushed : Buffer → Buffer → Buffer × Buffer → Type 0
Pushed msg tx (msg', tx') =
    (wire : List ℕ) × Chunks (contents msg) wire
    × Adds tx wire tx'
    × IsValid msg'
    × (contents msg' ≡ [])

none-Pushed :
    {msg tx : Buffer}
    → IsValid msg
    → IsValid tx
    → Buffer.unloadable msg ≤ 0
    → Pushed msg tx (msg, tx)
unfolding Buffer.unloadable
none-Pushed {msg} {tx} v w h =
    let e : contents msg ≡ [] = contents-empty msg (omega arith) in
    ([], subst (λ m. Chunks m []) (sym e) none_left, Adds-refl w, v, e)

-- One round: `xs` is the chunk that was read, `rest` the message buffer behind it.
round-Pushed :
    (msg tx rest : Buffer) (xs : List ℕ) (end : Buffer × Buffer)
    → IsValid tx
    → contents msg ≡ xs ++ contents rest
    → 1 ≤ length xs
    → length xs ≤ max_chunk_size
    → Pushed rest (Buffer.load (Buffer.load tx (length xs / 256 ∷ length xs % 256 ∷ [])) xs) end
    → Pushed msg tx end
round-Pushed msg tx rest xs (msg', tx') w e h k (wire, c, a, v, d) =
    let header : List ℕ = length xs / 256 ∷ length xs % 256 ∷ [] in
    let sent = Adds-trans (Adds-load header w) (Adds-load xs (load-IsValid header w)) in
    (
      length xs / 256 ∷ length xs % 256 ∷ (xs ++ wire),
      subst (λ m. Chunks m (length xs / 256 ∷ length xs % 256 ∷ (xs ++ wire))) (sym e)
          (next xs (contents rest) wire h k c),
      Adds-trans sent a,
      v,
      d,
    )

-- The size of a chunk.
abbrev chunk_size : ℕ → ℕ
chunk_size n = if ltb max_chunk_size n then max_chunk_size else n

sized-Pushed :
    {msg tx : Buffer} (size : ℕ) (p : List ℕ × Buffer) (end : Buffer × Buffer)
    → IsValid tx
    → 1 ≤ size
    → size ≤ max_chunk_size
    → size ≤ Buffer.unloadable msg
    → Points msg size p
    → Pushed p.1 (Buffer.load (Buffer.load tx (size / 256 % 256 ∷ size % 256 ∷ [])) p.0) end
    → Pushed msg tx end
sized-Pushed {msg} {tx} size (xs, rest) end w one small h points more =
    round-Pushed msg tx rest xs end w split (omega (arith, e, one)) (omega (arith, e, small)) (
      subst (λ k. Pushed rest (Buffer.load (Buffer.load tx k) xs) end)
        (ap₂ (λ a b. a ∷ b ∷ []) (omega (arith, e, small)) (ap (λ k. k % 256) (sym e))) more)
  where
    e : length xs ≡ size
    e =
        ap length points.found
        ∙ length-take size (contents msg) (omega (arith, length-contents msg, h))

    split : contents msg ≡ xs ++ contents rest
    split = sym (ap₂ ◌++◌ points.found points.left ∙ take-drop size (contents msg))

push_chunks-Pushed :
    (fuel n : ℕ) (msg tx : Buffer)
    → IsValid msg
    → IsValid tx
    → n ≡ Buffer.unloadable msg
    → n ≤ fuel
    → Pushed msg tx (push_chunks fuel n msg tx)
unfolding push_chunks
push_chunks-Pushed zero n msg tx v w e h = none-Pushed v w (omega (arith, e, h))
push_chunks-Pushed (suc fuel) n msg tx v w e h = elim (Bool-cases (ltb 0 n)) [
  | inr done ↦ rw done (none-Pushed v w (ground arith))
  | inl more ↦ rw more (
      let size = chunk_size n in
      let points : Points msg size (pointed msg size) = pointed-Points size v (ground arith) in
      let left : n - size ≡ Buffer.unloadable (pointed msg size).1 = omega (
        arith,
        e,
        length-contents msg,
        length-contents (pointed msg size).1,
        ap length points.left,
        length-drop size (contents msg),
      ) in
      let header : List ℕ = size / 256 % 256 ∷ size % 256 ∷ [] in
      sized-Pushed size (pointed msg size) _ w (ground arith) (ground arith) (ground arith) points (
        push_chunks-Pushed fuel (n - size) (pointed msg size).1
          (Buffer.load (Buffer.load tx header) (pointed msg size).0) points.valid
          (load-IsValid (pointed msg size).0 (load-IsValid header w)) left (ground arith)))
]

-- On valid buffers, `push_to_transmission` empties the message buffer and adds to the transmission
-- buffer the chunked form of all the message's bytes, in order, behind what the buffer held; both
-- buffers stay valid.
pub push_to_transmission-Chunked :
    (msg tx : Buffer)
    → IsValid msg
    → IsValid tx
    → (wire : List ℕ) × Chunked (contents msg) wire
      × Adds tx wire (push_to_transmission msg tx).1
      × IsValid (push_to_transmission msg tx).0
      × (contents (push_to_transmission msg tx).0 ≡ [])
unfolding push_to_transmission
push_to_transmission-Chunked msg tx v w =
    let n = Buffer.unloadable msg in
    let (wire, c, a, valid, empty) = push_chunks-Pushed n n msg tx v w refl (omega arith) in
    (
      _,
      Chunks-Chunked c,
      Adds-trans a (Adds-load (0 ∷ 0 ∷ []) a.valid),
      compact-IsValid valid,
      contents-compact (push_chunks n n msg tx).0 ∙ empty,
    )
