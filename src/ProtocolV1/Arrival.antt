-- ===== src/ProtocolV1/Arrival.antt =====
-- One round of `BoltProtocolV1_fetch`: a response is read, unloaded and settled.
use seabolt.Prelude.{
  ℕ, suc, ◌+◌, ◌%◌, ◌^◌, ◌<◌, ◌≤◌, ◌≡◌, ◌≢◌, refl, ap, sym, ◌∙◌, subst, Bool, true, false, List, [],
  ◌++◌, append-nil, length, ◌==◌, if◌then◌else◌, Bool-cases, inl, inr, arith, ap₂,
}
use seabolt.Prelude.Int.{ℤ, pos}
use seabolt.Buffer.Contents.{IsValid, contents}
use seabolt.Values.{Values, list, count}
use seabolt.Packstream.Encoding.{AreEncodable}
use seabolt.Protocol.Chunks.{Chunked}
use seabolt.Communication.{Transport}
use seabolt.Communication.Transfer.{Transmits}
use seabolt.Communication.Delivery.{Delivers}
use seabolt.Connection.{Outcome, done}
use seabolt.Connection.Receive.{pending}
use seabolt.ProtocolV1.Code
use seabolt.ProtocolV1.Session.{V1State, Session, has_code}
use seabolt.ProtocolV1.Requests.{set_state}
use seabolt.ProtocolV1.Responses.{count_record, unload, settle, read_message, fetch, ok_status}
use seabolt.ProtocolV1.Assembly.{Assembles, read_message-Assembles}
use seabolt.ProtocolV1.Unloading.{response, Responds, unload-Responds}
use seabolt.ProtocolV1.Extraction.{HasTwo, Fits}
use seabolt.ProtocolV1.Summaries.{metadata_of, settle-Settles, settle_record}

abbrev pub is_record : ℕ → Bool
is_record code = code == Code.record_code

-- The response counter behind a response.
abbrev pub counter_after : ℕ → ℕ → ℕ
counter_after n code = if is_record code then n else (n + 1) % 2 ^ 64

-- A response that the code can take in, in its chunked form `wire`.
pub record IsResponse (check : ℤ → Bool) (code : ℕ) (fields : Values) (wire : List ℕ) : Type 0 where
  pub small : count fields < 0x10
  pub encodable : AreEncodable check fields
  pub fits : Fits (metadata_of fields)
  pub chunked : Chunked (response code fields) wire

module _ {ℓ} {S : Type ℓ} (t : Transport S) (comm_error : S → ℕ) {sent arriving : S → List ℕ}
    (h : Transmits t sent arriving) (v : Delivers t arriving) (check : ℤ → Bool) where
  -- A session between two responses, on whose connection `bytes` are to come.
  pub record IsReady (c : Session S) (bytes : List ℕ) : Type 0 where
    pub link_valid : IsValid c.link.rx
    pub valid : IsValid c.state.rx
    pub empty : contents c.state.rx ≡ []
    pub next : pending t comm_error arriving c.link ≡ bytes
    pub two : HasTwo c.state.failure_data

  -- From `c` to `d` a response was taken in.
  pub record TakesIn (c : Session S) (code : ℕ) (fields : Values) (rest : List ℕ) (d : Session S)
      : Type ℓ where
    pub ready : IsReady d rest
    pub type : d.state.data_type ≡ pos code
    pub content : d.state.content ≡ list fields
    pub counter : d.state.response_counter ≡ counter_after c.state.response_counter code
    pub sent_requests : d.state.next_request_id ≡ c.state.next_request_id
    pub link_kept : d.link ≡ record c.link { transport = d.link.transport; rx = d.link.rx }

  -- The message is read and unloaded.
  record Arrives (fuel : ℕ) (c : Session S) (code : ℕ) (fields : Values) (rest : List ℕ)
      (d : Session S) (s : V1State) : Type ℓ where
    read : read_message t comm_error fuel c ≡ done (true, d)
    assembled : Assembles t comm_error h v c (response code fields) rest d
    went : unload check d.state ≡ done (ok_status, s)
    responds : Responds check d.state code fields [] s

  arrival :
      {code : ℕ} {fields : Values} {wire : List ℕ} (fuel : ℕ) (c : Session S) (rest : List ℕ)
      → IsResponse check code fields wire
      → IsReady c (wire ++ rest)
      → length wire ≤ fuel
      → (d : Session S) × (s : V1State) × Arrives fuel c code fields rest d s
  arrival {code} {fields} fuel c rest r ready f =
      let (d, read, a) =
        read_message-Assembles t comm_error h v r.chunked fuel c rest ready.link_valid ready.valid
          ready.next f in
      let held =
        a.holds
        ∙ ap (λ ys. ys ++ response code fields) ready.empty
        ∙ sym (append-nil (response code fields)) in
      let (s, went, responds) =
        unload-Responds check d.state code fields [] a.valid r.small r.encodable held in
      (d, s, record { read = read; assembled = a; went = went; responds = responds })

  module _ {fuel : ℕ} {c : Session S} {code : ℕ} {fields : Values} {rest : List ℕ} {d : Session S}
      {s : V1State} (a : Arrives fuel c code fields rest d s) where
    type_read : s.data_type ≡ pos code
    unfolding count_record
    type_read = ap (λ (k : V1State). k.data_type) a.responds.state

    content_read : s.content ≡ list fields
    unfolding count_record
    content_read = ap (λ (k : V1State). k.content) a.responds.state

    counter_read : s.response_counter ≡ c.state.response_counter
    unfolding count_record
    counter_read =
        ap (λ (k : V1State). k.response_counter) a.responds.state
        ∙ ap (λ (k : V1State). k.response_counter) a.assembled.state_kept

    requests_read : s.next_request_id ≡ c.state.next_request_id
    unfolding count_record
    requests_read =
        ap (λ (k : V1State). k.next_request_id) a.responds.state
        ∙ ap (λ (k : V1State). k.next_request_id) a.assembled.state_kept

    failure_read : s.failure_data ≡ c.state.failure_data
    unfolding count_record
    failure_read =
        ap (λ (k : V1State). k.failure_data) a.responds.state
        ∙ ap (λ (k : V1State). k.failure_data) a.assembled.state_kept

    -- The state that is left has the buffer of `s`, its data, and a settled counter.
    taken :
        (r : V1State) (n : ℕ)
        → r ≡ record s {
          response_counter = n;
          server = r.server;
          last_bookmark = r.last_bookmark;
          result_field_names = r.result_field_names;
          result_metadata = r.result_metadata;
          failure_data = r.failure_data;
        }
        → n ≡ counter_after c.state.response_counter code
        → HasTwo r.failure_data
        → TakesIn c code fields rest (set_state d r)
    taken r n e m two = record {
      ready = record {
        link_valid = a.assembled.link_valid;
        valid = subst IsValid (sym (ap (λ (k : V1State). k.rx) e)) a.responds.valid;
        empty = ap (λ (k : V1State). contents k.rx) e ∙ a.responds.left;
        next = a.assembled.left;
        two = two;
      };
      type = ap (λ (k : V1State). k.data_type) e ∙ type_read;
      content = ap (λ (k : V1State). k.content) e ∙ content_read;
      counter = ap (λ (k : V1State). k.response_counter) e ∙ m;
      sent_requests = ap (λ (k : V1State). k.next_request_id) e ∙ requests_read;
      link_kept = a.assembled.link_kept;
    }

    settled :
        HasTwo c.state.failure_data
        → Fits (metadata_of fields)
        → (r : V1State) × (settle s ≡ done r) × TakesIn c code fields rest (set_state d r)
    settled two fits =
        let two' = subst HasTwo (sym failure_read) two in
        let kind = ap (has_code Code.record_code) type_read in
        elim (Bool-cases (is_record code)) [
          | inl row ↦ (
            s,
            settle_record s (kind ∙ row),
            taken s s.response_counter refl (rw row counter_read) two',
          )
          | inr summary ↦
              let (r, went, p) = settle-Settles s fields (kind ∙ summary) content_read two' fits in
              (
                r,
                went,
                taken r ((s.response_counter + 1) % 2 ^ 64) p.kept
                    (rw summary (ap (λ n. (n + 1) % 2 ^ 64) counter_read)) p.two,
              )
        ]

  -- The end of a round: the response was to the request `n`, and it is a record or not.
  abbrev pub next_or_done : ℕ → Session S → ℕ → ℕ → Bool → Outcome (ℤ × Session S)
  next_or_done fuel e request n row = elim (n == request) [
    | true ↦ done (if row then pos 1 else pos 0, e)
    | false ↦ fetch t comm_error check fuel e request
  ]

  pub answers_now :
      (fuel : ℕ) (e : Session S) (request n : ℕ) (row : Bool)
      → n ≡ request
      → next_or_done fuel e request n row ≡ done (if row then pos 1 else pos 0, e)
  answers_now fuel e request n row same =
      let answered : (n == request) ≡ true = ground (arith, same) in rw (answered, next_or_done)

  pub passes_on :
      (fuel : ℕ) (e : Session S) (request n : ℕ) (row : Bool)
      → n ≢ request
      → next_or_done fuel e request n row ≡ fetch t comm_error check fuel e request
  passes_on fuel e request n row other =
      let passed : (n == request) ≡ false = ground (arith, other) in rw (passed, next_or_done)

  fetch_step :
      (fuel : ℕ) (c d : Session S) (s r : V1State) (request : ℕ)
      → read_message t comm_error fuel c ≡ done (true, d)
      → unload check d.state ≡ done (ok_status, s)
      → settle s ≡ done r
      → fetch t comm_error check (suc fuel) c request
        ≡ next_or_done fuel
            (set_state d r)
            request
            d.state.response_counter
            (has_code Code.record_code r.data_type)
  unfolding fetch
  fetch_step fuel c d s r request e f g = rw (e, f, g)

  -- The response at the front is taken in; `fetch` returns if it answers the request, and goes on
  -- to the next response if not.
  pub fetch-TakesIn :
      {code : ℕ} {fields : Values} {wire : List ℕ} (fuel : ℕ) (c : Session S) (request : ℕ)
      (rest : List ℕ)
      → IsResponse check code fields wire
      → IsReady c (wire ++ rest)
      → length wire ≤ fuel
      → (e : Session S) × TakesIn c code fields rest e
        × (fetch t comm_error check (suc fuel) c request
            ≡ next_or_done fuel e request c.state.response_counter (is_record code))
  fetch-TakesIn {code} {fields} fuel c request rest r ready f =
      let (d, s, a) = arrival fuel c rest r ready f in
      let (q, went, takes) = settled a ready.two r.fits in
      (
        set_state d q,
        takes,
        fetch_step fuel c d s q request a.read a.went went
            ∙ ap₂ (next_or_done fuel (set_state d q) request)
                (ap (λ (k : V1State). k.response_counter) a.assembled.state_kept)
                (ap (has_code Code.record_code) takes.type),
      )
