-- ===== src/Buffer/Refine.antt =====
-- The buffer against a plain queue of bytes, over any sequence of operations.
use seabolt.Prelude.{
  ℕ, ◌≤◌, ◌≡◌, refl, ap, ap₂, sym, ◌∙◌, List, [], ◌∷◌, ◌++◌, length, take, drop, Option, none, some,
  ltb, if◌then◌else◌, arith,
}
use seabolt.Mem.{be_value}
use seabolt.Mem.Endian.{be_value_one}
use seabolt.Buffer.{
  Buffer, compact, load, unloadable, unload_pointer, unload, peek_u8, unload_u8, unload_u16be,
}
use seabolt.Buffer.Memory.{slice}
use seabolt.Buffer.Contents.{
  IsValid, contents, length-contents, compact-IsValid, contents-compact, load-IsValid,
  contents-load, contents-empty, slice_one, advance, advance-IsValid, contents-advance, slice-take,
}

pub data Op : Type 0 where
  loads : List ℕ → Op
  unloads points : ℕ → Op
  peeks reads_u8 reads_u16be compacts : Op

-- What a call hands out: nothing, the failure code, bytes, or a number.
pub data Reply : Type 0 where
  done failed : Reply
  bytes : List ℕ → Reply
  number : ℕ → Reply

handed : Buffer → Option (List ℕ × Buffer) → Reply × Buffer
handed b none = (failed, b)
handed b (some (xs, c)) = (bytes xs, c)

numbered : Buffer → Option (ℕ × Buffer) → Reply × Buffer
numbered b none = (failed, b)
numbered b (some (x, c)) = (number x, c)

-- The bytes behind the pointer that `unload_pointer` returns are read from the block as it was.
pointed : Buffer → ℕ → Option ℕ × Buffer → Reply × Buffer
pointed b n (none, c) = (failed, c)
pointed b n (some i, c) = (bytes (slice b.bytes i n), c)

peeked : Option ℕ → Reply
peeked none = failed
peeked (some x) = number x

pub step : Buffer → Op → Reply × Buffer
unfolding handed numbered pointed peeked
step b (loads xs) = (done, load b xs)
step b (unloads n) = handed b (unload b n)
step b (points n) = pointed b n (unload_pointer b n)
step b peeks = (peeked (peek_u8 b), b)
step b reads_u8 = numbered b (unload_u8 b)
step b reads_u16be = numbered b (unload_u16be b)
step b compacts = (done, compact b)

-- The queue that the operations promise: a read takes whole runs from the front or nothing.
pub front : List ℕ → ℕ → (List ℕ → Reply) → List ℕ → Reply × List ℕ
front q n reply rest = if ltb (length q) n then (failed, q) else (reply (take n q), rest)

pub queue_step : List ℕ → Op → Reply × List ℕ
unfolding front
queue_step q (loads xs) = (done, q ++ xs)
queue_step q (unloads n) = front q n bytes (drop n q)
queue_step q (points n) = front q n bytes (drop n q)
queue_step q peeks = front q 1 (λ xs. number (be_value 1 xs)) q
queue_step q reads_u8 = front q 1 (λ xs. number (be_value 1 xs)) (drop 1 q)
queue_step q reads_u16be = front q 2 (λ xs. number (be_value 2 xs)) (drop 2 q)
queue_step q compacts = (done, q)

pub run : Buffer → List Op → List Reply
unfolding step
run b [] = []
run b (op ∷ ops) = let (r, c) = step b op in r ∷ run c ops

pub queue_run : List ℕ → List Op → List Reply
unfolding queue_step
queue_run q [] = []
queue_run q (op ∷ ops) = let (r, p) = queue_step q op in r ∷ queue_run p ops

-- The buffer did what the queue did.
pub record Agrees (s : Reply × Buffer) (t : Reply × List ℕ) : Type 0 where
  pub replies : s.0 ≡ t.0
  pub holds : contents s.1 ≡ t.1
  pub valid : IsValid s.1

test_length : (b : Buffer) (n : ℕ) → ltb (length (contents b)) n ≡ ltb (unloadable b) n
test_length b n = ap (λ k. ltb k n) (length-contents b)

module _ {b : Buffer} (v : IsValid b) where
  unloads-Agrees : (n : ℕ) → Agrees (step b (unloads n)) (queue_step (contents b) (unloads n))
  unfolding step queue_step unload
  unloads-Agrees n = ground (
    arith,
    length-contents b,
    slice-take b n,
    contents-advance b n,
    advance-IsValid {b = b} n,
    contents-compact (advance b n),
    compact-IsValid {b = advance b n},
  )

  points-Agrees : (n : ℕ) → Agrees (step b (points n)) (queue_step (contents b) (points n))
  unfolding step queue_step unload_pointer
  points-Agrees n = ground (
    arith,
    length-contents b,
    slice-take b n,
    contents-advance b n,
    advance-IsValid {b = b} n,
    contents-empty (advance b n),
    contents-empty (record b { extent = 0; cursor = 0 }),
  )

  byte_value : 1 ≤ unloadable b → be_value 1 (take 1 (contents b)) ≡ b.bytes b.cursor
  byte_value h =
      ap (be_value 1) (sym (slice-take b 1 h) ∙ slice_one b) ∙ be_value_one (b.bytes b.cursor)

  reads_u8-Agrees : Agrees (step b reads_u8) (queue_step (contents b) reads_u8)
  unfolding step queue_step unload_u8
  reads_u8-Agrees =
      ground (arith, length-contents b, byte_value, contents-advance b 1, advance-IsValid {b = b} 1)

  peeks-Agrees : Agrees (step b peeks) (queue_step (contents b) peeks)
  unfolding step queue_step peek_u8
  peeks-Agrees = ground (arith, length-contents b, byte_value)

  reads_u16be-Agrees : Agrees (step b reads_u16be) (queue_step (contents b) reads_u16be)
  unfolding step queue_step unload_u16be
  reads_u16be-Agrees = ground (
    arith,
    length-contents b,
    λ (h : 2 ≤ unloadable b). ap (be_value 2) (slice-take b 2 h),
    contents-advance b 2,
    advance-IsValid {b = b} 2,
  )

  step-Agrees : (op : Op) → Agrees (step b op) (queue_step (contents b) op)
  unfolding step queue_step
  step-Agrees (loads xs) = record {
    replies = refl;
    holds = contents-load xs v;
    valid = load-IsValid xs v;
  }
  step-Agrees (unloads n) = unloads-Agrees n
  step-Agrees (points n) = points-Agrees n
  step-Agrees peeks = peeks-Agrees
  step-Agrees reads_u8 = reads_u8-Agrees
  step-Agrees reads_u16be = reads_u16be-Agrees
  step-Agrees compacts = record {
    replies = refl;
    holds = contents-compact b;
    valid = compact-IsValid v;
  }

-- On a valid buffer, every sequence of loads, reads, peeks, pointer reads and compactions answers
-- as the queue of the buffer's contents does.
pub run_refines : (ops : List Op) {b : Buffer} → IsValid b → run b ops ≡ queue_run (contents b) ops
unfolding run queue_run
run_refines [] v = refl
run_refines (op ∷ ops) v =
    let a = step-Agrees v op in
    ap₂ ◌∷◌ a.replies (run_refines ops a.valid ∙ ap (λ q. queue_run q ops) a.holds)
