-- ===== src/Examples/Talk.antt =====
-- A connection with version 1 of the protocol: a short conversation.
use seabolt.Prelude.{ℕ, ◌≡◌, refl, ap, ◌∙◌, List, [], ◌∷◌, ◌++◌, length, true, arith, inl, ◌+◌}
use seabolt.Prelude.Int.{pos}
use seabolt.Buffer
use seabolt.Buffer.Contents.{create-contents, create-IsValid, load-IsValid, contents-load}
use seabolt.Status as Status
use seabolt.Status.{Status}
use seabolt.Error
use seabolt.Values.{Entries, dictionary, string, list, nil, cons, end, entry}
use seabolt.Packstream.Encoding.{encode_values, encode, header, encode_entries}
use seabolt.Protocol.Chunks.{finish, chunk}
use seabolt.Connection
use seabolt.Connection.{Connection, Ends, done}
use seabolt.Connection.Receive.{Receives, receive-Receives, Takes, pending}
use seabolt.Connection.Delivery.{receive-Takes}
use seabolt.ProtocolV1.Code
use seabolt.ProtocolV1.Signatures.{check_readable_v1, check_writable_v1}
use seabolt.ProtocolV1.Session.{V1State, Session, create_state, load_message, loaded}
use seabolt.ProtocolV1.Metadata.{extract_entries, bookmark_key}
use seabolt.ProtocolV1.Responses.{read_message, fetch, unload, ok_status}
use seabolt.ProtocolV1.Assembly.{Assembles, read_message-Assembles}
use seabolt.ProtocolV1.Unloading.{response, Responds, unload-Responds}
use seabolt.ProtocolV1.Extraction.{Extracts, others, is_failure}
use seabolt.ProtocolV1.Settling.{extract_entries-Extracts}
use seabolt.ProtocolV1.Arrival.{IsResponse, IsReady}
use seabolt.ProtocolV1.Fetching.{Reply, Answers, kind_of, fetch-Answers}
use seabolt.ProtocolV1.Loading.{Loads, Refuses, load_message-Loads, load_message-Refuses}
use seabolt.Conversation.{fetch_summary}
use seabolt.Conversation.V1.{protocol}
use seabolt.Conversation.Fetches.{Drains, fetch_summary-Drains}
use seabolt.Protocol.{Message, write_message}
use seabolt.Connection.Statuses.{set_all, set_status-reports}
use seabolt.Examples.Line.{Line, line, line-Transmits, line-Delivers}

abbrev no_error : Line → ℕ
no_error l = 0

abbrev to_come : Line → List ℕ
to_come l = l.to_come

-- A connection on which some bytes are to come.
abbrev connection : List ℕ → Connection Line
connection bytes = record {
  status = record { state = Status.connected; error = 0 };
  watched = true;
  reported = [];
  transport = record { taken = []; to_come = bytes };
  tx = Buffer.create (λ i. 0) 16;
  rx = Buffer.create (λ i. 0) 16;
}

abbrev session : List ℕ → Session Line
session bytes = record { link = connection bytes; state = create_state (λ i. 0) (λ i. 0) }

-- SUCCESS with no metadata, and a record of an empty list, in one chunk each.
abbrev success_reply : Reply
success_reply = record {
  code = Code.success;
  fields = cons (dictionary end) nil;
  wire = 0 ∷ 3 ∷ 0xB1 ∷ 0x70 ∷ 0xA0 ∷ 0 ∷ 0 ∷ [];
}

abbrev record_reply : Reply
record_reply = record {
  code = Code.record_code;
  fields = cons (list nil) nil;
  wire = 0 ∷ 3 ∷ 0xB1 ∷ 0x71 ∷ 0x90 ∷ 0 ∷ 0 ∷ [];
}

success_reply-IsResponse :
    IsResponse check_readable_v1 success_reply.code success_reply.fields success_reply.wire
unfolding response encode_values encode encode_entries header
success_reply-IsResponse = record {
  small = omega arith;
  encodable = ((omega arith, tt), tt);
  fits = tt;
  chunked = chunk (0xB1 ∷ 0x70 ∷ 0xA0 ∷ []) [] (0 ∷ 0 ∷ []) (omega arith) (omega arith) finish;
}

record_reply-IsResponse :
    IsResponse check_readable_v1 record_reply.code record_reply.fields record_reply.wire
unfolding response encode_values encode encode_entries header
record_reply-IsResponse = record {
  small = omega arith;
  encodable = ((omega arith, tt), tt);
  fits = tt;
  chunked = chunk (0xB1 ∷ 0x71 ∷ 0x90 ∷ []) [] (0 ∷ 0 ∷ []) (omega arith) (omega arith) finish;
}

session-IsReady :
    (bytes : List ℕ)
    → IsReady line no_error line-Transmits line-Delivers check_readable_v1 (session bytes) bytes
unfolding create_state
session-IsReady bytes = record {
  link_valid = create-IsValid (λ i. 0) 16;
  valid = create-IsValid (λ i. 0) 8192;
  empty = create-contents (λ i. 0) 8192;
  next = ap (λ ys. ys ++ bytes) (create-contents (λ i. 0) 16);
  two = tt;
}

receive-Receives_example :
    Ends
      (Connection.receive line no_error (connection (1 ∷ 2 ∷ 3 ∷ [])) 2)
      (Receives line no_error to_come line-Transmits (connection (1 ∷ 2 ∷ 3 ∷ [])) 2)
receive-Receives_example =
    receive-Receives line no_error to_come line-Transmits (connection (1 ∷ 2 ∷ 3 ∷ [])) 2
      (create-IsValid (λ i. 0) 16)

abbrev three_to_come : Connection Line
three_to_come = connection (1 ∷ 2 ∷ 3 ∷ [])

receive-Takes_example :
    (d : Connection Line) × (Connection.receive line no_error three_to_come 2
      ≡ done (Error.success, 1 ∷ 2 ∷ [], d))
    × Takes line no_error to_come three_to_come (1 ∷ 2 ∷ []) d
    × (pending line no_error to_come d ≡ 3 ∷ [])
receive-Takes_example =
    receive-Takes line no_error line-Transmits line-Delivers three_to_come (1 ∷ 2 ∷ []) (3 ∷ [])
      (create-IsValid (λ i. 0) 16) (ap (λ ys. ys ++ (1 ∷ 2 ∷ 3 ∷ [])) (create-contents (λ i. 0) 16))

-- The bytes of the record, and one more.
abbrev record_wire : List ℕ
record_wire = record_reply.wire

read_message-Assembles_example :
    (d : Session Line) × (read_message line no_error 7 (session (record_wire ++ (9 ∷ [])))
      ≡ done (true, d))
    × Assembles line no_error line-Transmits line-Delivers
        (session (record_wire ++ (9 ∷ [])))
        (response Code.record_code (cons (list nil) nil))
        (9 ∷ [])
        d
read_message-Assembles_example =
    read_message-Assembles line no_error line-Transmits line-Delivers
      record_reply-IsResponse.chunked 7 (session (record_wire ++ (9 ∷ []))) (9 ∷ [])
      (session-IsReady (record_wire ++ (9 ∷ []))).link_valid
      (session-IsReady (record_wire ++ (9 ∷ []))).valid
      (session-IsReady (record_wire ++ (9 ∷ []))).next (omega arith)

-- A state whose buffer holds a record.
abbrev holding : V1State
holding = record (create_state (λ i. 0) (λ i. 0)) {
  rx = Buffer.load (Buffer.create (λ i. 0) 16) (0xB1 ∷ 0x71 ∷ 0x90 ∷ []);
}

unload-Responds_example :
    (r : V1State) × (unload check_readable_v1 holding ≡ done (ok_status, r))
    × Responds check_readable_v1 holding 0x71 (cons (list nil) nil) [] r
unfolding response encode_values encode header
unload-Responds_example =
    unload-Responds check_readable_v1 holding 0x71 (cons (list nil) nil) []
      (load-IsValid (0xB1 ∷ 0x71 ∷ 0x90 ∷ []) (create-IsValid (λ i. 0) 16)) (omega arith)
      ((omega arith, tt), tt)
      (contents-load (0xB1 ∷ 0x71 ∷ 0x90 ∷ []) (create-IsValid (λ i. 0) 16)
        ∙ ap (λ ys. ys ++ (0xB1 ∷ 0x71 ∷ 0x90 ∷ [])) (create-contents (λ i. 0) 16))

-- "type" with a text, and a bookmark of one letter.
abbrev some_metadata : Entries
some_metadata =
    entry (string (116 ∷ 121 ∷ 112 ∷ 101 ∷ [])) (string (114 ∷ []))
      (entry (string bookmark_key) (string (120 ∷ [])) end)

abbrev fresh : V1State
fresh = create_state (λ i. 0) (λ i. 0)

extract_entries-Extracts_example :
    Ends
      (extract_entries fresh some_metadata)
      (Extracts fresh (others (is_failure fresh) some_metadata))
unfolding create_state
extract_entries-Extracts_example =
    extract_entries-Extracts fresh end some_metadata refl tt
      ((λ e. omega arith), (λ e. omega arith), ((λ e. omega arith), (λ e. omega arith), tt))

-- The summary of an earlier request, a record and the summary of the request, and one more byte.
abbrev conversation : List ℕ
conversation = success_reply.wire ++ (record_reply.wire ++ (success_reply.wire ++ (9 ∷ [])))

fetch-Answers_example :
    Ends (fetch line no_error check_readable_v1 15 (session conversation) 1) (λ (kind, e).
      (kind ≡ kind_of Code.record_code)
      × Answers line no_error line-Transmits line-Delivers check_readable_v1
          (session conversation)
          record_reply
          1
          (success_reply.wire ++ (9 ∷ []))
          e)
unfolding create_state
fetch-Answers_example =
    fetch-Answers line no_error line-Transmits line-Delivers check_readable_v1 15
      (session conversation) 1 (success_reply ∷ []) record_reply (success_reply.wire ++ (9 ∷ []))
      ((λ e. omega (arith, e)), refl) (success_reply-IsResponse, tt) record_reply-IsResponse
      (session-IsReady conversation) (omega arith)

fetch_summary-Drains_example :
    Ends
      (fetch_summary
        (protocol line no_error check_writable_v1 check_readable_v1)
        2
        22
        (session conversation)
        1
        0)
      (λ (n, d).
        (n ≡ pos (0 + length (record_reply ∷ [])))
        × Drains line no_error line-Transmits line-Delivers check_writable_v1 check_readable_v1
            (session conversation)
            success_reply
            1
            (9 ∷ [])
            d)
unfolding create_state
fetch_summary-Drains_example =
    fetch_summary-Drains line no_error line-Transmits line-Delivers check_writable_v1
      check_readable_v1 2 22 (session conversation) 1 0 (success_reply ∷ []) (record_reply ∷ [])
      success_reply (9 ∷ []) ((λ e. omega (arith, e)), refl) (success_reply-IsResponse, tt)
      (record_reply-IsResponse, tt) (refl, tt) success_reply-IsResponse (inl refl)
      (session-IsReady conversation) (omega arith) (omega arith)

-- PULL_ALL, and a message with a code that is no request.
abbrev pull : Message
pull = record { code = pos 0x3F; fields = nil }

abbrev unknown : Message
unknown = record { code = pos 0x55; fields = nil }

load_message-Loads_example :
    Ends
      (load_message check_writable_v1 (session []) pull)
      (λ (status, d). (status ≡ Error.success) × ((wire : List ℕ) × Loads (session []) pull wire d))
unfolding create_state check_writable_v1
load_message-Loads_example =
    load_message-Loads check_writable_v1 (session []) pull (create-IsValid (λ i. 0) 8192)
      (create-contents (λ i. 0) 8192) (create-IsValid (λ i. 0) 16)
      (refl, omega arith, omega arith, tt)

-- The session behind the message that is refused.
abbrev refused : Session Line
refused = record (session []) {
  state = record (create_state (λ i. 0) (λ i. 0)) { tx = Buffer.create (λ i. 0) 8192 };
}

load_message-Refuses_example : Refuses (session []) refused
unfolding create_state load_message loaded write_message check_writable_v1 Buffer.create
load_message-Refuses_example =
    load_message-Refuses check_writable_v1 (session []) refused unknown 0x501
      (create-IsValid (λ i. 0) 8192) refl (λ e. omega (arith, e))

-- A failure that is set twice, a recovery, and the end.
abbrev changes : List Status
changes =
    record { state = Status.failed; error = 3 }
    ∷ record { state = Status.failed; error = 4 }
    ∷ record { state = Status.ready; error = 0 }
    ∷ record { state = Status.defunct; error = 5 }
    ∷ []

set_status-reports_example : set_all three_to_come changes ≡ record three_to_come {
  status = record { state = Status.defunct; error = 5 };
  reported =
      record { state = Status.defunct; error = 5 }
      ∷ record { state = Status.failed; error = 3 }
      ∷ [];
}
set_status-reports_example = set_status-reports three_to_come changes
