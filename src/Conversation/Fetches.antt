-- ===== src/Conversation/Fetches.antt =====
-- `BoltConnection_fetch_summary` comes to the end of a result.
use seabolt.Prelude.{
  ℕ, zero, suc, ◌+◌, ◌%◌, ◌^◌, ◌<◌, ◌≡◌, ap, ◌∙◌, subst, Bool, true, false, List, [], ◌∷◌, ◌++◌,
  length, length-append, append_assoc, inl, inr, if◌then◌else◌, arith,
}
use seabolt.Prelude.Int.{ℤ, pos}
use seabolt.Communication.{Transport}
use seabolt.Communication.Transfer.{Transmits}
use seabolt.Communication.Delivery.{Delivers}
use seabolt.Connection.{Connection, done, Ends}
use seabolt.Conversation
use seabolt.Conversation.{Protocol, fetched, fetch_summary}
use seabolt.Conversation.V1.{protocol}
use seabolt.Conversation.Summary.{IsSummary, Concludes, fetched-Concludes}
use seabolt.ProtocolV1.Session.{Session}
use seabolt.ProtocolV1.Responses
use seabolt.ProtocolV1.Arrival.{IsResponse, IsReady, is_record}
use seabolt.ProtocolV1.Fetching.{Reply, wires, Precede, AreResponses, Answers, fetch-Answers}

-- All of them are records.
abbrev pub AreRecords : List Reply → Type 0
AreRecords [] = Unit {0}
AreRecords (r ∷ rs) = (is_record r.code ≡ true) × AreRecords rs

summary-ne-record : (code : ℕ) → IsSummary code → is_record code ≡ false
summary-ne-record code (inl e) = ap is_record e
summary-ne-record code (inr (inl e)) = ap is_record e
summary-ne-record code (inr (inr e)) = ap is_record e

module _ {ℓ} {S : Type ℓ} (t : Transport S) (comm_error : S → ℕ) {sent arriving : S → List ℕ}
    (h : Transmits t sent arriving) (v : Delivers t arriving) (writable readable : ℤ → Bool) where
  abbrev p : Protocol (Session S)
  p = protocol t comm_error writable readable

  -- The result was fetched to its end: the summary is `r`, and `rest` is still to come.
  pub record Drains (c : Session S) (r : Reply) (request : ℕ) (rest : List ℕ) (d : Session S)
      : Type ℓ where
    pub summarised : Session S
    pub answered : Answers t comm_error h v readable c r request rest summarised
    pub concluded : Concludes t comm_error writable readable r.code summarised d

  Answers-trans :
      {c e d : Session S} {b r : Reply} {request : ℕ} {after rest : List ℕ}
      → Answers t comm_error h v readable c b request after e
      → Answers t comm_error h v readable e r request rest d
      → Answers t comm_error h v readable c r request rest d
  Answers-trans {d = d} x y = record {
    ready = y.ready;
    type = y.type;
    content = y.content;
    counter = y.counter;
    sent_requests = y.sent_requests ∙ x.sent_requests;
    link_kept =
        y.link_kept
        ∙ ap (λ (k : Connection S). record k { transport = d.link.transport; rx = d.link.rx })
            x.link_kept;
  }

  -- A round that fetches a record, and one that fetches the summary.
  record_round :
      (rounds fuel request records : ℕ) (c e : Session S)
      → Responses.fetch t comm_error readable fuel c request ≡ done (pos 1, e)
      → fetch_summary p (suc rounds) fuel c request records
        ≡ fetch_summary p rounds fuel e request (records + 1)
  unfolding fetch_summary Conversation.fetch fetched protocol
  record_round rounds fuel request records c e q = rw q

  summary_round :
      (rounds fuel request records : ℕ) (c e : Session S)
      → Responses.fetch t comm_error readable fuel c request ≡ done (pos 0, e)
      → (fetched p (pos 0, e)).0 ≡ pos 0
      → fetch_summary p (suc rounds) fuel c request records
        ≡ done (pos records, (fetched p (pos 0, e)).1)
  unfolding fetch_summary Conversation.fetch protocol
  summary_round rounds fuel request records c e q z = rw (q, z)

  -- If the session stands between two responses, and there come the replies to earlier requests, then
  -- some records for the request, then its summary, then anything, then `fetch_summary` returns, on one
  -- more round than records and one more fuel than bytes. It returns the number of the records; the
  -- data are those of the summary, the status is the one that it calls for, and exactly what follows it
  -- is still to come. The session: both receive buffers are valid and that of the protocol is empty,
  -- and failure data are those that the code makes. Each reply, record and summary: it comes in its
  -- chunked form, with at most 15 fields, all encodable, whose structures have codes that `readable`
  -- reads; and where its first field is a dictionary, a text under the key "bookmark" has at most 40
  -- bytes, and one under "server" at most 200. The transport: each call that succeeds moves a byte at
  -- least, no more than it was asked to, and in order; a call succeeds while bytes are on their way,
  -- and so do those that set the signal handler.
  pub fetch_summary-Drains :
      (rounds fuel : ℕ) (c : Session S) (request records : ℕ) (before rows : List Reply) (r : Reply)
      (rest : List ℕ)
      → Precede c.state.response_counter request before
      → AreResponses readable before
      → AreResponses readable rows
      → AreRecords rows
      → IsResponse readable r.code r.fields r.wire
      → IsSummary r.code
      → IsReady t comm_error h v readable c (wires before ++ (wires rows ++ (r.wire ++ rest)))
      → length (wires before) + (length (wires rows) + length r.wire) < fuel
      → length rows < rounds
      → Ends
          (fetch_summary p rounds fuel c request records)
          (λ (n, d). (n ≡ pos (records + length rows)) × Drains c r request rest d)
  fetch_summary-Drains zero fuel c request records before rows r rest pre rs ms ns good sum ready f
        k =
      absurd (omega (arith, k))
  fetch_summary-Drains (suc rounds) fuel c request records before [] r rest pre rs ms ns good sum
        ready f k =
      let ((kind, e), went, (is_zero, answers)) =
        fetch-Answers t comm_error h v readable fuel c request before r rest pre rs good ready
          (omega (arith, f)) in
      let last : kind ≡ pos 0 =
        is_zero ∙ ap (λ b. if b then pos 1 else pos 0) (summary-ne-record r.code sum) in
      let (zero_status, concludes) =
        fetched-Concludes t comm_error writable readable r.code e answers.type sum in
      (
        (pos records, (fetched p (pos 0, e)).1),
        summary_round rounds fuel request records c e (went ∙ ap (λ q. done (q, e)) last)
            zero_status,
        (
          ap pos (omega arith),
          record { summarised = e; answered = answers; concluded = concludes },
        ),
      )
  fetch_summary-Drains (suc rounds) fuel c request records before (b ∷ bs) r rest pre rs (m, ms)
        (n, ns) good sum ready f k =
      let after = wires bs ++ (r.wire ++ rest) in
      let ready' =
        subst (λ ys. IsReady t comm_error h v readable c (wires before ++ ys))
          (append_assoc b.wire (wires bs) (r.wire ++ rest)) ready in
      let whole = length-append b.wire (wires bs) in
      let ((kind, e), went, (is_row, answers)) =
        fetch-Answers t comm_error h v readable fuel c request before b after pre rs m ready'
          (omega (arith, f, whole)) in
      let row : kind ≡ pos 1 = is_row ∙ ap (λ x. if x then pos 1 else pos 0) n in
      let here : e.state.response_counter ≡ request =
        answers.counter ∙ ap (λ x. if x then request else (request + 1) % 2 ^ 64) n in
      let (result, more, (number, drains)) =
        fetch_summary-Drains rounds fuel e request (records + 1) [] bs r rest here tt ms ns good sum
          answers.ready (omega (arith, f, whole)) (omega (arith, k)) in
      (
        result,
        record_round rounds fuel request records c e (went ∙ ap (λ q. done (q, e)) row) ∙ more,
        (
          number ∙ ap pos (omega arith),
          record {
            summarised = drains.summarised;
            answered = Answers-trans answers drains.answered;
            concluded = drains.concluded;
          },
        ),
      )
