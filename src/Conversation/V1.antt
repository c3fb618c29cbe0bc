-- ===== src/Conversation/V1.antt =====
-- v1.c behind the interface of connection.c, and the requests and the initialisation that go through
-- it.
use seabolt.Prelude.{ℕ, Bool, true, false, Option, none, some, List, ◌==◌, if◌then◌else◌}
use seabolt.Prelude.Int.{ℤ, pos, negsuc}
use seabolt.Error
use seabolt.Status.{State, ready, defunct}
use seabolt.Values.{Value, dictionary, format_as_string, copy}
use seabolt.RoutingTable.{Memory}
use seabolt.ProtocolV3.Dictionary.{clear_entry}
use seabolt.ProtocolV3.Hello.{credentials_key, mask}
use seabolt.Protocol.{Message, message_create}
use seabolt.Communication.{Transport}
use seabolt.Connection
use seabolt.Connection.{Outcome, done, fault, stuck, ◌>>=◌}
use seabolt.Conversation.{Protocol, fetch_summary, attempt}
use seabolt.ProtocolV1.Code
use seabolt.ProtocolV1.Session.{
  Session, set_param, load_message, last_request, is_success_summary, is_failure_summary,
  is_ignored_summary,
}
use seabolt.ProtocolV1.Requests
use seabolt.ProtocolV1.Responses

abbrev pub is_there : Option Value → Bool
is_there none = false
is_there (some v) = true

-- `writable` and `readable` are the signatures of version 1 or of version 2.
module _ {ℓ} {S : Type ℓ} (t : Transport S) (comm_error : S → ℕ)
    (writable readable : ℤ → Bool) where
  abbrev set_link_status : Session S → State → ℕ → Session S
  set_link_status c state error = record c { link = Connection.set_status c.link state error }

  unfoldable pub protocol : Protocol (Session S)
  protocol = record {
    set_status = set_link_status;
    fetch = Responses.fetch t comm_error readable;
    is_success_summary = λ c. is_success_summary c.state;
    is_ignored_summary = λ c. is_ignored_summary c.state;
    is_failure_summary = λ c. is_failure_summary c.state;
    has_failure = λ c. is_there c.state.failure_data;
  }

  abbrev attempts : Outcome (ℕ × Session S) → Outcome (ℤ × Session S)
  attempts r = attempt protocol r

  -- The `BoltConnection_load_..._request` functions.
  unfoldable pub load_begin_request : Session S → Outcome (ℤ × Session S)
  load_begin_request c = attempts (Requests.load_begin_request writable c)

  unfoldable pub load_commit_request : Session S → Outcome (ℤ × Session S)
  load_commit_request c = attempts (Requests.load_commit_request writable c)

  unfoldable pub load_rollback_request : Session S → Outcome (ℤ × Session S)
  load_rollback_request c = attempts (Requests.load_rollback_request writable c)

  unfoldable pub load_run_request : Session S → Outcome (ℤ × Session S)
  load_run_request c = attempts (Requests.load_run_request writable c)

  unfoldable pub load_discard_request : Session S → ℤ → Outcome (ℤ × Session S)
  load_discard_request c n = attempts (Requests.load_discard_request writable c n)

  unfoldable pub load_pull_request : Session S → ℤ → Outcome (ℤ × Session S)
  load_pull_request c n = attempts (Requests.load_pull_request writable c n)

  unfoldable pub load_reset_request : Session S → Outcome (ℤ × Session S)
  load_reset_request c = attempts (Requests.load_reset_request writable c)

  -- The calls that set the parts of a request.
  unfoldable pub clear_begin : Session S → Outcome (ℤ × Session S)
  clear_begin c = attempts (done (Requests.clear_load_begin_tx_request c))

  unfoldable pub set_begin_bookmarks : Session S → Option Value → Outcome (ℤ × Session S)
  set_begin_bookmarks c bookmarks = attempts (Requests.set_begin_tx_bookmark c bookmarks)

  -- Versions 1 and 2 refuse time-outs and metadata of transactions, and ignore the bookmarks of a run.
  unfoldable pub set_begin_tx_timeout : Session S → ℤ → Outcome (ℤ × Session S)
  set_begin_tx_timeout c n = attempts (done (Error.protocol_unsupported, c))

  unfoldable pub set_begin_tx_metadata : Session S → Value → Outcome (ℤ × Session S)
  set_begin_tx_metadata c v = attempts (done (Error.protocol_unsupported, c))

  unfoldable pub clear_run : Session S → Outcome (ℤ × Session S)
  clear_run c = attempts (done (Requests.clear_load_run_request c))

  unfoldable pub set_run_bookmarks : Session S → Option Value → Outcome (ℤ × Session S)
  set_run_bookmarks c bookmarks = attempts (done (Error.success, c))

  unfoldable pub set_run_tx_timeout : Session S → ℤ → Outcome (ℤ × Session S)
  set_run_tx_timeout c n = attempts (done (Error.protocol_unsupported, c))

  unfoldable pub set_run_tx_metadata : Session S → Value → Outcome (ℤ × Session S)
  set_run_tx_metadata c v = attempts (done (Error.protocol_unsupported, c))

  unfoldable pub set_run_cypher : Session S → List ℕ → ℕ → Outcome (ℤ × Session S)
  set_run_cypher c cypher n = attempts (done (Requests.set_run_cypher c cypher n))

  -- `BoltConnection_send`, with the state of the protocol beside it.
  abbrev send : Session S → Outcome (ℕ × Session S)
  send c =
      Connection.send t comm_error c.link >>= λ (code, link). done (code, record c { link = link })

  -- The credentials of a dictionary are masked.
  abbrev mask_secure : Memory → Value → Value
  mask_secure memory (dictionary es) =
      dictionary (clear_entry memory es credentials_key (λ v. format_as_string v mask))
  mask_secure memory v = v

  -- `BoltProtocolV1_compile_INIT`; the lookup of the credentials asserts that the token is a dictionary.
  unfoldable pub compile_init : Memory → Message → List ℕ → Value → Bool → Outcome Message
  unfolding clear_entry format_as_string
  compile_init memory m user_agent auth_token mask_secure_fields =
      let named = set_param m 0 (λ v. format_as_string v user_agent) in
      let filled = set_param named 1 (λ v. copy v auth_token) in
      if mask_secure_fields
      then (elim auth_token [
        | dictionary es ↦ done (set_param filled 1 (mask_secure memory))
        | _ ↦ fault
      ])
      else done filled

  -- `BoltProtocolV1_init`: a status, or the code of the summary.
  -- The message is compiled for the log line first, and then over that for the server.
  unfoldable pub init_protocol : Memory → ℕ → Session S → List ℕ → Value → Outcome (ℤ × Session S)
  init_protocol memory fuel c user_agent auth_token =
      let empty = message_create (pos Code.init) 2 in
      compile_init memory empty user_agent auth_token true >>= λ logged.
      compile_init memory logged user_agent auth_token false >>= λ m.
      load_message writable c m >>= λ (status, d). elim (status == Error.success) [
        | false ↦ done (pos status, d)
        | true ↦ send d >>= λ (code, e). elim (code == Error.success) [
          | false ↦ done (pos code, e)
          | true ↦ fetch_summary protocol fuel fuel e (last_request d.state) 0 >>= λ (records, g).
              elim (Responses.is_zero records) [
                | false ↦ done (records, g)
                | true ↦ done (g.state.data_type, g)
              ]
        ]
      ]

  -- The `switch` of `BoltConnection_init` on what `init` returned.
  unfoldable pub initialised : ℤ → Session S → ℤ × Session S
  initialised (negsuc n) c = (negsuc 0, set_link_status c defunct Error.protocol_violation)
  initialised (pos code) c =
      if code == Code.success
      then (pos 0, set_link_status c ready Error.success)
      else if code == Code.failure
      then (negsuc 0, set_link_status c defunct Error.permission_denied)
      else (negsuc 0, set_link_status c defunct Error.protocol_violation)

  -- `BoltConnection_init` of a connection with version 1 or 2.
  unfoldable pub init : Memory → ℕ → Session S → List ℕ → Value → Outcome (ℤ × Session S)
  init memory fuel c user_agent auth_token =
      init_protocol memory fuel c user_agent auth_token >>= λ (code, d). done (initialised code d)
