-- ===== src/Examples/Wire.antt =====
-- Buffers, values and messages: small inputs.
use seabolt.Prelude.{
  ◌≢◌, ℕ, ◌+◌, ◌≡◌, refl, ap, ◌∙◌, ◌≤◌, ◌⊎◌, Bool, true, false, some, List, [], ◌∷◌, ◌++◌, arith,
}
use seabolt.Prelude.Int.{ℤ, pos, ◌+ℤ◌}
use seabolt.Mem.{Counters, adjust}
use seabolt.Mem.Accounting
use seabolt.Mem.Accounting.{Call, allocates, adjusts, deallocates, Grows, run-Grows, adjust_lem}
use seabolt.Buffer
use seabolt.Buffer.{Buffer, load_pointer, unload_pointer}
use seabolt.Buffer.Contents.{
  IsValid, contents, create-contents, create-IsValid, contents-load, load-IsValid,
}
use seabolt.Buffer.Refine
use seabolt.Buffer.Refine.{Op, loads, unloads, points, peeks, reads_u16be, compacts, run_refines}
use seabolt.Buffer.Bounds.{load_pointer-within}
use seabolt.Values.{Value, null, boolean, integer, string, list, structure, nil, cons}
use seabolt.Values as Values
use seabolt.Values.Copy.{copy_lem}
use seabolt.Packstream.Result.{ok, fault}
use seabolt.Packstream.Load as Load
use seabolt.Packstream.Unload as Unload
use seabolt.Packstream.Encoding.{encode, IsEncodable}
use seabolt.Packstream.Writes.{Adds, Writes, load-Writes}
use seabolt.Packstream.Parses.{Parses}
use seabolt.Packstream.RoundTrip.{unload-Parses, unload-load}
use seabolt.Packstream.Termination.{Returns, unload-Settles}
use seabolt.Protocol.{Message, write_message, push_to_transmission}
use seabolt.Protocol.Messages.{write-push}
use seabolt.Protocol.Chunks.{Chunked, push_to_transmission-Chunked}

abbrev empty : Buffer
empty = Buffer.create (λ i. 0) 16

empty-IsValid : IsValid empty
empty-IsValid = create-IsValid (λ i. 0) 16

abbrev any_code : ℤ → Bool
any_code code = true

-- A node-like structure that holds a list, a number and a text.
abbrev sample : Value
sample = structure (pos 0x4E) (
    cons (list (cons (boolean true) (cons null nil)))
      (cons (integer (pos 1000)) (cons (string (97 ∷ 98 ∷ [])) nil)))

sample-IsEncodable : IsEncodable any_code sample
sample-IsEncodable = (
  refl,
  omega arith,
  omega arith,
  ((omega arith, (tt, (tt, tt))), (omega arith, (omega arith, tt))),
)

load-Writes_example : Writes empty (encode sample) (Load.load any_code empty sample)
load-Writes_example = load-Writes any_code empty-IsValid sample sample-IsEncodable

unload-load_example :
    (c : Buffer) × (Load.load any_code empty sample ≡ ok c)
    × Parses sample [] (Unload.unload any_code c null)
unload-load_example =
    unload-load any_code empty-IsValid (create-contents (λ i. 0) 16) sample null sample-IsEncodable

-- The byte form of the sample, and a byte behind it.
abbrev filled : Buffer
filled = Buffer.load empty (encode sample ++ (7 ∷ []))

filled-contents : contents filled ≡ encode sample ++ (7 ∷ [])
filled-contents =
    contents-load (encode sample ++ (7 ∷ [])) empty-IsValid
    ∙ ap (λ ys. ys ++ (encode sample ++ (7 ∷ []))) (create-contents (λ i. 0) 16)

unload-Parses_example : Parses sample (7 ∷ []) (Unload.unload any_code filled (boolean false))
unload-Parses_example =
    unload-Parses any_code (load-IsValid (encode sample ++ (7 ∷ [])) empty-IsValid) sample
      (boolean false) (7 ∷ []) sample-IsEncodable filled-contents

-- A list of one element with a reserved marker.
abbrev malformed : Buffer
malformed = Buffer.load empty (0x91 ∷ 0xC4 ∷ [])

abbrev is_fault : Unload.Read → Bool
is_fault fault = true
is_fault _ = false

false-ne-true : false ≢ true
false-ne-true e = cc

malformed_read : Unload.unload any_code malformed null ≢ fault
unfolding Unload.unload Unload.unload_within Unload.unload_as Unload.unload_list Unload.marker_type
    Unload.within Unload.read_size Buffer.create Buffer.load Buffer.load_pointer Buffer.loadable
    Buffer.peek_u8 Buffer.unload_u8 Buffer.unloadable Unload.unload_values
    seabolt.Buffer.Memory.write Values.format_as_list Values.resize
malformed_read e = false-ne-true (ap is_fault e)

unload-Settles_example :
    Returns (Buffer.unloadable malformed) (Unload.unload any_code malformed null)
unload-Settles_example = unload-Settles any_code malformed null malformed_read

push_to_transmission-Chunked_example :
    (wire : List ℕ) × Chunked (contents filled) wire
    × Adds empty wire (push_to_transmission filled empty).1
    × IsValid (push_to_transmission filled empty).0
    × (contents (push_to_transmission filled empty).0 ≡ [])
push_to_transmission-Chunked_example =
    push_to_transmission-Chunked filled empty
      (load-IsValid (encode sample ++ (7 ∷ [])) empty-IsValid) empty-IsValid

abbrev some_ops : List Op
some_ops =
    loads (1 ∷ 2 ∷ 3 ∷ 4 ∷ 5 ∷ []) ∷ unloads 3 ∷ compacts ∷ peeks ∷ reads_u16be ∷ points 1 ∷ []

run_refines_example : Refine.run empty some_ops ≡ Refine.queue_run (contents empty) some_ops
run_refines_example = run_refines some_ops empty-IsValid

load_pointer-within_example :
    let (target, c) = load_pointer empty 20 in
    (target + 20 ≤ c.size)
    × (c.size ≤ Buffer.int_max)
    × (c.extent ≡ empty.extent + 20)
    × (empty.size ≤ c.size)
    × ((c.size ≡ empty.size) ⊎ (c.size ≡ empty.extent + 20))
unfolding Buffer.create
load_pointer-within_example = load_pointer-within 20 empty-IsValid (omega arith) (omega arith)

copy_lem_example : Values.copy (string (97 ∷ [])) sample ≡ sample
copy_lem_example = copy_lem (string (97 ∷ [])) sample

abbrev zero_counters : Counters
zero_counters = record { allocation = pos 0; peak_allocation = pos 0; allocation_events = 0 }

abbrev some_calls : List Call
some_calls = allocates (some 1) 16 ∷ adjusts (some 1) 16 64 (some 2) ∷ deallocates (some 2) 64 ∷ []

run-Grows_example : Grows zero_counters (Accounting.run zero_counters some_calls)
run-Grows_example = run-Grows zero_counters some_calls (omega arith)

adjust_lem_example :
    (adjust (some 1) 16 64 (some 2) zero_counters).1.allocation +ℤ pos 16
    ≡ zero_counters.allocation +ℤ pos 64
adjust_lem_example = adjust_lem (some 1) (some 2) 16 64 zero_counters (λ h e. ground (arith, e))

-- A message whose one field is the sample.
abbrev sample_message : Message
sample_message = record { code = pos 0x10; fields = cons sample nil }

write-push_example :
    (c : Buffer) × (write_message sample_message any_code empty ≡ ok c)
    × ((wire : List ℕ) × Chunked (encode (structure (pos 0x10) (cons sample nil))) wire
        × Adds empty wire (push_to_transmission c empty).1
        × IsValid (push_to_transmission c empty).0
        × (contents (push_to_transmission c empty).0 ≡ []))
write-push_example =
    write-push sample_message any_code empty-IsValid (create-contents (λ i. 0) 16) empty-IsValid
      (refl, omega arith, omega arith, (sample-IsEncodable, tt))
