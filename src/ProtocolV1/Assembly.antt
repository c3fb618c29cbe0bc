-- ===== src/ProtocolV1/Assembly.antt =====
-- A message is put together again from its chunks.
use seabolt.Prelude.{
  ℕ, zero, suc, ◌+◌, ◌*◌, ◌/◌, ◌%◌, ◌≤◌, ◌≡◌, refl, ap, sym, ◌∙◌, Bool, true, false, List, [], ◌∷◌,
  ◌++◌, append-nil, append_assoc, length, length-append, ◌==◌, arith,
}
use seabolt.Error
use seabolt.Buffer
use seabolt.Buffer.{Buffer}
use seabolt.Buffer.Contents.{
  IsValid, contents, load-IsValid, contents-load, compact-IsValid, contents-compact,
}
use seabolt.Protocol.Chunks.{Chunked, finish, chunk}
use seabolt.Communication.{Transport}
use seabolt.Communication.Transfer.{Transmits}
use seabolt.Communication.Delivery.{Delivers}
use seabolt.Connection
use seabolt.Connection.{Connection, Outcome, done, ◌>>=◌, Ends}
use seabolt.Connection.Receive.{pending, Takes}
use seabolt.Connection.Delivery.{receive-Takes}
use seabolt.ProtocolV1.Session.{Session}
use seabolt.ProtocolV1.Responses.{read_header, read_chunks, read_message, compacted}

module _ {ℓ} {S : Type ℓ} (t : Transport S) (comm_error : S → ℕ) {sent arriving : S → List ℕ}
    (h : Transmits t sent arriving) (v : Delivers t arriving) where
  -- From `c` to `d` the message `m` was added to the protocol's receive buffer, what is left on the
  -- connection is `rest`, and nothing else changed.
  pub record Assembles (c : Session S) (m rest : List ℕ) (d : Session S) : Type ℓ where
    pub link_valid : IsValid d.link.rx
    pub valid : IsValid d.state.rx
    pub holds : contents d.state.rx ≡ contents c.state.rx ++ m
    pub left : pending t comm_error arriving d.link ≡ rest
    pub link_kept : d.link ≡ record c.link { transport = d.link.transport; rx = d.link.rx }
    pub state_kept : d.state ≡ record c.state { rx = d.state.rx }

  -- The two bytes of a header are there.
  read_header_two :
      (k : ℕ → Session S → Outcome (Bool × Session S)) (c : Session S) (x y : ℕ) (rest : List ℕ)
      → IsValid c.link.rx
      → pending t comm_error arriving c.link ≡ x ∷ y ∷ rest
      → (d : Connection S) × Takes t comm_error arriving c.link (x ∷ y ∷ []) d
        × (pending t comm_error arriving d ≡ rest)
        × (read_header t comm_error k c ≡ k (x * 256 + y) (record c { link = d }))
  read_header_two k c x y rest w e =
      let (d, went, takes, left) = receive-Takes t comm_error h v c.link (x ∷ y ∷ []) rest w e in
      (d, takes, left, rw went)

  abbrev loaded : Session S → List ℕ → Connection S → Session S
  loaded c xs link = record {
    link = link;
    state = record c.state { rx = Buffer.load c.state.rx xs };
  }

  read_chunks_step :
      (fuel : ℕ) (c : Session S) (xs : List ℕ) (link : Connection S)
      → 1 ≤ length xs
      → Connection.receive t comm_error c.link (length xs) ≡ done (Error.success, xs, link)
      → read_chunks t comm_error (suc fuel) (length xs) c
        ≡ read_header t comm_error (read_chunks t comm_error fuel) (loaded c xs link)
  unfolding read_chunks Buffer.load
  read_chunks_step fuel c xs link one got =
      let some_bytes : (length xs == 0) ≡ false = ground arith in rw (some_bytes, got)

  read_chunks_last : (fuel : ℕ) (c : Session S) → read_chunks t comm_error fuel 0 c ≡ done (true, c)
  unfolding read_chunks
  read_chunks_last zero c = refl
  read_chunks_last (suc fuel) c = refl

  -- The connection was read from twice.
  Takes-kept :
      {c d e : Connection S} {xs ys : List ℕ}
      → Takes t comm_error arriving c xs d
      → Takes t comm_error arriving d ys e
      → e ≡ record c { transport = e.transport; rx = e.rx }
  Takes-kept {e = e} p q =
      q.kept ∙ ap (λ (k : Connection S). record k { transport = e.transport; rx = e.rx }) p.kept

  then-Assembles :
      (c : Session S) (xs ys rest : List ℕ) (link : Connection S) (d : Session S)
      → IsValid c.state.rx
      → link ≡ record c.link { transport = link.transport; rx = link.rx }
      → Assembles (loaded c xs link) ys rest d
      → Assembles c (xs ++ ys) rest d
  then-Assembles c xs ys rest link d sv kept a = record {
    link_valid = a.link_valid;
    valid = a.valid;
    holds =
        a.holds
        ∙ ap (λ zs. zs ++ ys) (contents-load xs sv)
        ∙ append_assoc (contents c.state.rx) xs ys;
    left = a.left;
    link_kept =
        a.link_kept
        ∙ ap (λ (k : Connection S). record k { transport = d.link.transport; rx = d.link.rx }) kept;
    state_kept = a.state_kept;
  }

  -- Behind a header, one more for each chunk and the end mark.
  abbrev Gets : Session S → List ℕ → List ℕ → Outcome (Bool × Session S) → Type ℓ
  Gets c m rest r = (d : Session S) × (r ≡ done (true, d)) × Assembles c m rest d

  chunks-Assembles :
      {m wire : List ℕ} (w : Chunked m wire) (fuel : ℕ) (c : Session S) (rest : List ℕ)
      → IsValid c.link.rx
      → IsValid c.state.rx
      → pending t comm_error arriving c.link ≡ wire ++ rest
      → length wire ≤ fuel
      → Gets c m rest (read_header t comm_error (read_chunks t comm_error fuel) c)
  chunks-Assembles finish fuel c rest lv sv e f =
      let (d, takes, left, went) =
        read_header_two (read_chunks t comm_error fuel) c 0 0 rest lv e in
      (
        record c { link = d },
        went ∙ read_chunks_last fuel (record c { link = d }),
        record {
          link_valid = takes.valid;
          valid = sv;
          holds = sym (append-nil (contents c.state.rx));
          left = left;
          link_kept = takes.kept;
          state_kept = refl;
        },
      )
  chunks-Assembles (chunk xs ys wire one small w) zero c rest lv sv e f = absurd (omega (arith, f))
  chunks-Assembles (chunk xs ys wire one small w) (suc fuel) c rest lv sv e f =
      let hi = length xs / 256 in
      let lo = length xs % 256 in
      let (d, takes, left, went) =
        read_header_two (read_chunks t comm_error (suc fuel)) c hi lo (xs ++ (wire ++ rest)) lv
          (e ∙ ap (λ zs. hi ∷ lo ∷ zs) (append_assoc xs wire rest)) in
      let (link, got, taken, behind) =
        receive-Takes t comm_error h v d xs (wire ++ rest) takes.valid left in
      let e' : Session S = record c { link = d } in
      let (last, more, assembled) =
        chunks-Assembles w fuel (loaded e' xs link) rest taken.valid (load-IsValid xs sv) behind
          (omega (arith, f, length-append xs wire)) in
      let size : hi * 256 + lo ≡ length xs = omega arith in
      (
        last,
        went
            ∙ ap (λ n. read_chunks t comm_error (suc fuel) n e') size
            ∙ read_chunks_step fuel e' xs link one got
            ∙ more,
        then-Assembles c xs ys rest link last sv (Takes-kept takes taken) assembled,
      )

  Chunked-starts :
      {m wire : List ℕ}
      → Chunked m wire
      → (x : ℕ) × (y : ℕ) × (tail : List ℕ) × (wire ≡ x ∷ y ∷ tail)
  Chunked-starts finish = (0, 0, [], refl)
  Chunked-starts (chunk xs ys wire one small w) =
      (length xs / 256, length xs % 256, xs ++ wire, refl)

  compacted-Assembles :
      (c : Session S) (m rest : List ℕ) (d : Session S)
      → Assembles (compacted t comm_error c) m rest d
      → Assembles c m rest d
  compacted-Assembles c m rest d a = record {
    link_valid = a.link_valid;
    valid = a.valid;
    holds = a.holds ∙ ap (λ zs. zs ++ m) (contents-compact c.state.rx);
    left = a.left;
    link_kept = a.link_kept;
    state_kept = a.state_kept;
  }

  -- If the chunked form of a message is next on the connection, reading a message ends with success
  -- on as much fuel as the form has bytes. It adds exactly the message to the protocol's receive
  -- buffer, leaves what is behind the chunked form, and changes nothing else.
  pub read_message-Assembles :
      {m wire : List ℕ} (w : Chunked m wire) (fuel : ℕ) (c : Session S) (rest : List ℕ)
      → IsValid c.link.rx
      → IsValid c.state.rx
      → pending t comm_error arriving c.link ≡ wire ++ rest
      → length wire ≤ fuel
      → (d : Session S) × (read_message t comm_error fuel c ≡ done (true, d)) × Assembles c m rest d
  unfolding read_message read_chunks read_header_two
  read_message-Assembles {m} w fuel c rest lv sv e f =
      let (x, y, tail, starts) = Chunked-starts w in
      let bytes = e ∙ ap (λ zs. zs ++ rest) starts in
      let k = λ (size : ℕ) (d : Session S).
        read_chunks t comm_error fuel size (compacted t comm_error d) in
      let (d, takes, left, went) = read_header_two k c x y (tail ++ rest) lv bytes in
      let (_, _, _, same) =
        read_header_two (read_chunks t comm_error fuel) (compacted t comm_error c) x y
          (tail ++ rest) lv bytes in
      let (last, more, a) =
        chunks-Assembles w fuel (compacted t comm_error c) rest lv (compact-IsValid sv) e f in
      (last, went ∙ sym same ∙ more, compacted-Assembles c m rest last a)
