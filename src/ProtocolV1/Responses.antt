-- ===== src/ProtocolV1/Responses.antt =====
-- v1.c: responses. A message is put together from its chunks, unloaded into the state, and a summary's
-- metadata is taken out.
use seabolt.Prelude.{
  ℕ, zero, suc, ◌+◌, ◌*◌, ◌%◌, ◌^◌, Bool, true, false, Option, none, some, List, [], ◌∷◌, ◌==◌,
  if◌then◌else◌,
}
use seabolt.Prelude.Int.{ℤ, pos, negsuc}
use seabolt.Error
use seabolt.Buffer
use seabolt.Buffer.{Buffer}
use seabolt.Buffer.Memory.{write}
use seabolt.Values.{Value, Values, list, dictionary, cons, format_as_list, format_as_dictionary}
use seabolt.Packstream.Result as Packstream
use seabolt.Packstream.Result.{Result}
use seabolt.Packstream.Unload as Unload
use seabolt.Packstream.Unload.{PackStreamType, marker_type}
use seabolt.Communication.{Transport}
use seabolt.Connection
use seabolt.Connection.{Outcome, done, fault, stuck, ◌>>=◌}
use seabolt.ProtocolV1.Code
use seabolt.ProtocolV1.Session.{V1State, Session, number, has_code}
use seabolt.ProtocolV1.Requests.{set_state}
use seabolt.ProtocolV1.Metadata.{extract_metadata}

abbrev pub is_structure : PackStreamType → Bool
is_structure PackStreamType.structure_type = true
is_structure _ = false

-- A status is an `int`: 0, -1, or a code of error.h.
abbrev pub ok_status : ℤ
ok_status = pos 0

abbrev pub error_status : ℤ
error_status = negsuc 0

abbrev pub is_zero : ℤ → Bool
is_zero (pos n) = n == 0
is_zero (negsuc n) = false

-- The counter of the records since the last summary is an `unsigned long long`.
unfoldable pub count_record : V1State → V1State
count_record s = record s {
  record_counter =
      if has_code Code.record_code s.data_type then (s.record_counter + 1) % 2 ^ 64 else 0;
}

-- The loop over the fields came to an end; the slots are the elements of `data`.
unfoldable pub unloaded : V1State → Result (Buffer × Values) → Outcome (ℤ × V1State)
unfolding count_record
unloaded s (Packstream.ok (rx, xs)) =
    done (ok_status, count_record (record s { rx = rx; content = list xs }))
unloaded s (Packstream.err code (rx, xs)) =
    done (pos (number code), record s { rx = rx; content = list xs })
unloaded s Packstream.fault = fault
unloaded s Packstream.stuck = stuck

-- `check` is the protocol's `check_readable_struct`.
unfoldable pub unload_data : (ℤ → Bool) → ℕ → V1State → Outcome (ℤ × V1State)
unfolding format_as_list unloaded Unload.unload_values Unload.unload
unload_data check marker s =
    unloaded s
      (Unload.unload_values (Unload.unload check) s.rx (format_as_list s.content (marker % 16)))

-- `BoltProtocolV1_unload`. An empty message leaves everything as it was.
unfoldable pub unload : (ℤ → Bool) → V1State → Outcome (ℤ × V1State)
unfolding marker_type unload_data
unload check s = elim (Buffer.unload_u8 s.rx) [
  | none ↦ done (ok_status, s)
  | some (marker, rx) ↦ elim (is_structure (marker_type marker)) [
    | false ↦ done (pos Error.protocol_violation, record s { rx = rx })
    | true ↦ elim (Buffer.unload_u8 rx) [
      | none ↦ done (error_status, record s { rx = rx })
      | some (code, rest) ↦ unload_data check marker (record s { rx = rest; data_type = pos code })
    ]
  ]
]

-- The first field of the response.
abbrev pub first_field : Value → Option Value
first_field (list (cons x xs)) = some x
first_field _ = none

-- What a summary does to the state, behind `unload`.
unfoldable pub settle : V1State → Outcome V1State
unfolding extract_metadata format_as_dictionary
settle s =
    let counted = record s {
      response_counter = (s.response_counter + 1) % 2 ^ 64;
      result_metadata = dictionary (format_as_dictionary s.result_metadata 0);
    } in
    let settled : Outcome V1State = elim (first_field s.content) [
      | none ↦ done counted
      | some v ↦ extract_metadata counted v
    ] in
    if has_code Code.record_code s.data_type then done s else settled

-- `char_to_uint16be` on two bytes; `receive` gives as many as it was asked for.
abbrev pub char_to_uint16be : List ℕ → ℕ
char_to_uint16be (x ∷ y ∷ []) = x * 256 + y
char_to_uint16be _ = 0

module _ {ℓ} {S : Type ℓ} (t : Transport S) (comm_error : S → ℕ) where
  -- The bytes that were received for a chunk, where `load_pointer` made room for them.
  abbrev pub put_chunk : Session S → ℕ → List ℕ → Connection.Connection S → Session S
  put_chunk c size xs link =
      let (target, rx) = Buffer.load_pointer c.state.rx size in
      record {
        link = link;
        state = record c.state { rx = record rx { bytes = write rx.bytes target xs } };
      }

  -- The two bytes of a header, and what goes on with the size that they hold.
  abbrev pub read_header :
      (ℕ → Session S → Outcome (Bool × Session S)) → Session S → Outcome (Bool × Session S)
  read_header k c = Connection.receive t comm_error c.link 2 >>= λ (status, header, link).
      elim (status == Error.success) [
        | false ↦ done (false, record c { link = link })
        | true ↦ k (char_to_uint16be header) (record c { link = link })
      ]

  -- The loop over the chunks. The Boolean says that it came to the end mark.
  unfoldable pub read_chunks : ℕ → ℕ → Session S → Outcome (Bool × Session S)
  read_chunks zero size c = if size == 0 then done (true, c) else stuck
  read_chunks (suc fuel) size c =
      let more = Connection.receive t comm_error c.link size >>= λ (code, xs, link).
      elim (code == Error.success) [
        | false ↦ done (false, put_chunk c size [] link)
        | true ↦ read_header (read_chunks fuel) (put_chunk c size xs link)
      ] in
      if size == 0 then done (true, c) else more

  abbrev pub compacted : Session S → Session S
  compacted c = record c { state = record c.state { rx = Buffer.compact c.state.rx } }

  -- The message behind the next header, in the receive buffer of the protocol.
  unfoldable pub read_message : ℕ → Session S → Outcome (Bool × Session S)
  read_message fuel c = read_header (λ size d. read_chunks fuel size (compacted d)) c

  -- `BoltProtocolV1_fetch`. `fuel` bounds the responses, and the chunks of each.
  unfoldable pub fetch : (ℤ → Bool) → ℕ → Session S → ℕ → Outcome (ℤ × Session S)
  fetch check zero c request = stuck
  fetch check (suc fuel) c request = read_message fuel c >>= λ (whole, d). elim whole [
    | false ↦ done (error_status, d)
    | true ↦
        let response = d.state.response_counter in
        unload check d.state >>= λ (status, s). elim (is_zero status) [
          | false ↦ done (status, set_state d s)
          | true ↦ settle s >>= λ r. elim (response == request) [
            | true ↦
                done (if has_code Code.record_code r.data_type then pos 1 else pos 0, set_state d r)
            | false ↦ fetch check fuel (set_state d r) request
          ]
        ]
  ]
