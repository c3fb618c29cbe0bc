-- ===== src/ProtocolV1/Fetching.antt =====
-- `BoltProtocolV1_fetch` gets through to the response to a request.
use seabolt.Prelude.{
  ℕ, zero, suc, ◌+◌, ◌<◌, ◌≤◌, ◌≡◌, ◌≢◌, refl, ap, sym, ◌∙◌, subst, Bool, List, [], ◌∷◌, ◌++◌,
  append_assoc, length, length-append, if◌then◌else◌, arith,
}
use seabolt.Prelude.Int.{ℤ, pos}
use seabolt.Values.{Values, list}
use seabolt.Protocol.Chunks.{Chunked, finish, chunk}
use seabolt.Communication.{Transport}
use seabolt.Communication.Transfer.{Transmits}
use seabolt.Communication.Delivery.{Delivers}
use seabolt.Connection.{Connection, Ends}
use seabolt.ProtocolV1.Session.{Session}
use seabolt.ProtocolV1.Responses.{fetch}
use seabolt.ProtocolV1.Arrival.{
  is_record, counter_after, IsResponse, IsReady, answers_now, passes_on, fetch-TakesIn,
}

-- A response, its fields and its chunked form.
pub record Reply : Type 0 where
  pub code : ℕ
  pub fields : Values
  pub wire : List ℕ

abbrev pub wires : List Reply → List ℕ
wires [] = []
wires (r ∷ rs) = r.wire ++ wires rs

-- None of the replies is to the request, and what follows them is.
abbrev pub Precede : ℕ → ℕ → List Reply → Type 0
Precede n request [] = n ≡ request
Precede n request (r ∷ rs) = (n ≢ request) × Precede (counter_after n r.code) request rs

abbrev pub AreResponses : (ℤ → Bool) → List Reply → Type 0
AreResponses check [] = Unit {0}
AreResponses check (r ∷ rs) = IsResponse check r.code r.fields r.wire × AreResponses check rs

Chunked-length : {m wire : List ℕ} → Chunked m wire → 1 ≤ length wire
Chunked-length finish = omega arith
Chunked-length (chunk xs ys wire one small w) = omega arith

-- What `fetch` returns for the last of the replies.
abbrev pub kind_of : ℕ → ℤ
kind_of code = if is_record code then pos 1 else pos 0

module _ {ℓ} {S : Type ℓ} (t : Transport S) (comm_error : S → ℕ) {sent arriving : S → List ℕ}
    (h : Transmits t sent arriving) (v : Delivers t arriving) (check : ℤ → Bool) where
  -- The answer was taken in, whatever came before it.
  pub record Answers (c : Session S) (r : Reply) (request : ℕ) (rest : List ℕ) (e : Session S)
      : Type ℓ where
    pub ready : IsReady t comm_error h v check e rest
    pub type : e.state.data_type ≡ pos r.code
    pub content : e.state.content ≡ list r.fields
    pub counter : e.state.response_counter ≡ counter_after request r.code
    pub sent_requests : e.state.next_request_id ≡ c.state.next_request_id
    pub link_kept : e.link ≡ record c.link { transport = e.link.transport; rx = e.link.rx }

  -- If the session stands between two responses, and the replies to come are those to earlier
  -- requests, then one to the request, then anything, then `fetch` returns, on one more fuel than there
  -- are bytes up to the answer. It returns 1 for a record and 0 for a summary, the data are those of
  -- the answer, the counter stands behind it, and exactly what follows the answer is still to come.
  -- The session: both receive buffers are valid and that of the protocol is empty, and failure data
  -- are those that the code makes. Each of the replies: it comes in its chunked form, with at most 15
  -- fields, all encodable, whose structures have codes that `check` reads; and where its first field
  -- is a dictionary, a text under the key "bookmark" has at most 40 bytes, and one under "server" at
  -- most 200. The transport: each call that succeeds moves a byte at least, no more than it was asked
  -- to, and in order; a call succeeds while bytes are on their way, and so do those that set the
  -- signal handler.
  pub fetch-Answers :
      (fuel : ℕ) (c : Session S) (request : ℕ) (before : List Reply) (r : Reply) (rest : List ℕ)
      → Precede c.state.response_counter request before
      → AreResponses check before
      → IsResponse check r.code r.fields r.wire
      → IsReady t comm_error h v check c (wires before ++ (r.wire ++ rest))
      → length (wires before) + length r.wire < fuel
      → Ends
          (fetch t comm_error check fuel c request)
          (λ (kind, e). (kind ≡ kind_of r.code) × Answers c r request rest e)
  fetch-Answers zero c request before r rest p rs good ready f = absurd (omega (arith, f))
  fetch-Answers (suc fuel) c request [] r rest p rs good ready f =
      let (e, takes, went) =
        fetch-TakesIn t comm_error h v check fuel c request rest good ready (omega (arith, f)) in
      (
        (kind_of r.code, e),
        went
            ∙ answers_now t comm_error h v check fuel e request c.state.response_counter
                (is_record r.code) p,
        (
          refl,
          record {
            ready = takes.ready;
            type = takes.type;
            content = takes.content;
            counter = takes.counter ∙ ap (λ n. counter_after n r.code) p;
            sent_requests = takes.sent_requests;
            link_kept = takes.link_kept;
          },
        ),
      )
  fetch-Answers (suc fuel) c request (b ∷ bs) r rest (other, p) (one, rs) good ready f =
      let after = wires bs ++ (r.wire ++ rest) in
      let ready' : IsReady t comm_error h v check c (b.wire ++ after) =
        subst (IsReady t comm_error h v check c) (append_assoc b.wire (wires bs) (r.wire ++ rest))
          ready in
      let long = Chunked-length one.chunked in
      let whole = length-append b.wire (wires bs) in
      let (e, takes, went) =
        fetch-TakesIn t comm_error h v check fuel c request after one ready'
          (omega (arith, f, whole)) in
      let (result, more, (kind, answers)) =
        fetch-Answers fuel e request bs r rest
          (subst (λ n. Precede n request bs) (sym takes.counter) p) rs good takes.ready
          (omega (arith, f, whole, long)) in
      (
        result,
        went
            ∙ passes_on t comm_error h v check fuel e request c.state.response_counter
                (is_record b.code) other
            ∙ more,
        (
          kind,
          record {
            ready = answers.ready;
            type = answers.type;
            content = answers.content;
            counter = answers.counter;
            sent_requests = answers.sent_requests ∙ takes.sent_requests;
            link_kept =
                answers.link_kept
                ∙ ap
                    (λ (k : Connection S). record k {
                      transport = result.1.link.transport;
                      rx = result.1.link.rx;
                    })
                    takes.link_kept;
          },
        ),
      )
