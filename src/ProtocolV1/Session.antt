-- ===== src/ProtocolV1/Session.antt =====
-- v1.c: the state of the protocol, how a message goes into the transmission buffer, and what the state
-- tells of the last response.
use seabolt.Prelude.{
  ℕ, zero, suc, ◌+◌, ◌-◌, ◌%◌, ◌^◌, Bool, false, Option, none, some, List, [], ◌∷◌, ◌==◌,
  if◌then◌else◌,
}
use seabolt.Prelude.Int.{ℤ, pos, negsuc}
use seabolt.Error
use seabolt.Buffer
use seabolt.Buffer.{Buffer}
use seabolt.Buffer.Memory.{Cells}
use seabolt.Values.{
  Value, Values, null, list, dictionary, nil, cons, end, format_as_string, format_as_dictionary,
}
use seabolt.Packstream.Result as Packstream
use seabolt.Packstream.Result.{Result}
use seabolt.Protocol.{Message, message_create, write_message, push_to_transmission}
use seabolt.Connection.{Connection, Outcome, done, fault, stuck}
use seabolt.ProtocolV1.Code

-- `struct BoltProtocolV1State`. `failure_data` is `none` where it is NULL. `server` and
-- `last_bookmark` are the texts in blocks of 200 and 40 bytes. Request ids are 64-bit.
pub record V1State : Type 0 where
  pub tx : Buffer
  pub rx : Buffer
  pub server : List ℕ
  pub last_bookmark : List ℕ
  pub result_field_names : Value
  pub result_metadata : Value
  pub failure_data : Option Value
  pub next_request_id : ℕ
  pub response_counter : ℕ
  pub record_counter : ℕ
  pub run_request : Message
  pub begin_request : Message
  pub commit_request : Message
  pub rollback_request : Message
  pub discard_request : Message
  pub pull_request : Message
  pub reset_request : Message
  pub data_type : ℤ
  pub content : Value

-- A connection with the state of its protocol.
pub record Session {ℓ} (S : Type ℓ) : Type ℓ where
  pub link : Connection S
  pub state : V1State

-- The parameters are the first two fields of the message.
abbrev pub update_at : Values → ℕ → (Value → Value) → Values
update_at nil i f = nil
update_at (cons x xs) zero f = cons (f x) xs
update_at (cons x xs) (suc i) f = cons x (update_at xs i f)

abbrev pub set_param : Message → ℕ → (Value → Value) → Message
set_param m i f = record m { fields = update_at m.fields i f }

unfoldable pub create_run_message : List ℕ → ℕ → Message
unfolding message_create format_as_string format_as_dictionary
create_run_message statement n =
    let m = message_create (pos Code.run) 2 in
    set_param (set_param m 0 (λ v. format_as_string v statement)) 1
      (λ v. dictionary (format_as_dictionary v n))

-- The texts "BEGIN", "COMMIT" and "ROLLBACK".
abbrev begin_text : List ℕ
begin_text = 66 ∷ 69 ∷ 71 ∷ 73 ∷ 78 ∷ []

abbrev commit_text : List ℕ
commit_text = 67 ∷ 79 ∷ 77 ∷ 77 ∷ 73 ∷ 84 ∷ []

abbrev rollback_text : List ℕ
rollback_text = 82 ∷ 79 ∷ 76 ∷ 76 ∷ 66 ∷ 65 ∷ 67 ∷ 75 ∷ []

-- The blocks are what `malloc` returned for the two buffers.
unfoldable pub create_state : Cells → Cells → V1State
unfolding Buffer.create create_run_message message_create
create_state tx_block rx_block = record {
  tx = Buffer.create tx_block 8192;
  rx = Buffer.create rx_block 8192;
  server = [];
  last_bookmark = [];
  result_field_names = null;
  result_metadata = dictionary end;
  failure_data = none;
  next_request_id = 0;
  response_counter = 0;
  record_counter = 0;
  run_request = create_run_message [] 0;
  begin_request = create_run_message begin_text 0;
  commit_request = create_run_message commit_text 0;
  rollback_request = create_run_message rollback_text 0;
  discard_request = message_create (pos Code.discard_all) 0;
  pull_request = message_create (pos Code.pull_all) 0;
  reset_request = message_create (pos Code.reset) 0;
  data_type = pos Code.record_code;
  content = null;
}

-- The numbers of error.h.
abbrev pub number : Packstream.Code → ℕ
number Packstream.protocol_violation = Error.protocol_violation
number Packstream.unsupported_type = Error.protocol_unsupported_type
number Packstream.not_implemented_type = Error.protocol_not_implemented_type
number Packstream.unexpected_marker = Error.protocol_unexpected_marker

module _ {ℓ} {S : Type ℓ} where
  -- What `load_message` does with the result of `write_message`: the message is pushed, or the message
  -- buffer gets its cursor and extent back.
  unfoldable pub loaded : Session S → Result Buffer → Outcome (ℕ × Session S)
  loaded c (Packstream.ok b) =
      let (tx, link_tx) = push_to_transmission b c.link.tx in
      done (
        Error.success,
        record {
          link = record c.link { tx = link_tx };
          state = record c.state {
            tx = tx;
            next_request_id = (c.state.next_request_id + 1) % 2 ^ 64;
          };
        },
      )
  loaded c (Packstream.err code b) =
      let tx = record b { cursor = c.state.tx.cursor; extent = c.state.tx.extent } in
      done (number code, record c { state = record c.state { tx = tx } })
  loaded c Packstream.fault = fault
  loaded c Packstream.stuck = stuck

  -- `BoltProtocolV1_load_message`; `check` is the protocol's `check_writable_struct`.
  unfoldable pub load_message : (ℤ → Bool) → Session S → Message → Outcome (ℕ × Session S)
  load_message check c m = loaded c (write_message m check c.state.tx)

-- The queries on the state.
unfoldable pub last_request : V1State → ℕ
last_request s = (s.next_request_id + 2 ^ 64 - 1) % 2 ^ 64

abbrev pub has_code : ℕ → ℤ → Bool
has_code code (pos n) = n == code
has_code code (negsuc n) = false

unfoldable pub is_success_summary : V1State → Bool
is_success_summary s = has_code Code.success s.data_type

unfoldable pub is_failure_summary : V1State → Bool
is_failure_summary s = has_code Code.failure s.data_type

unfoldable pub is_ignored_summary : V1State → Bool
is_ignored_summary s = has_code Code.ignored s.data_type

-- `none` is NULL.
abbrev only_list : Value → Option Value
only_list (list xs) = some (list xs)
only_list _ = none

unfoldable pub result_field_names : V1State → Option Value
result_field_names s = only_list s.result_field_names

-- An empty list has no first element: the pointer is then to memory that holds no value.
abbrev first_value : Value → Outcome (Option Value)
first_value (list (cons x xs)) = done (some x)
first_value (list nil) = fault
first_value _ = done none

unfoldable pub result_field_values : V1State → Outcome (Option Value)
result_field_values s =
    if has_code Code.record_code s.data_type then first_value s.content else done none

abbrev only_dictionary : Value → Option Value
only_dictionary (dictionary es) = some (dictionary es)
only_dictionary _ = none

unfoldable pub result_metadata : V1State → Option Value
result_metadata s = only_dictionary s.result_metadata
