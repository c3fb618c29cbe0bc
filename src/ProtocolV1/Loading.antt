-- ===== src/ProtocolV1/Loading.antt =====
-- A request goes into the transmission buffer whole, or not at all.
use seabolt.Prelude.{ℕ, ◌+◌, ◌%◌, ◌^◌, ◌≡◌, ◌≢◌, refl, ap, sym, subst, Bool, List, []}
use seabolt.Prelude.Int.{ℤ}
use seabolt.Error
use seabolt.Buffer.{Buffer}
use seabolt.Buffer.Contents.{IsValid, contents}
use seabolt.Values.{structure}
use seabolt.Packstream.Result as Packstream
use seabolt.Packstream.Result.{Result}
use seabolt.Packstream.Encoding.{encode, IsEncodable}
use seabolt.Packstream.Writes.{Adds}
use seabolt.Packstream.Extends.{
  Extends, Keeps, fails, load-Keeps, contents-restored, restored-IsValid,
}
use seabolt.Protocol.{Message, write_message, push_to_transmission}
use seabolt.Protocol.Chunks.{Chunked}
use seabolt.Protocol.Messages.{write-push, write_message-load}
use seabolt.Connection.{done, Ends}
use seabolt.Connection.Outcomes.{done-inj, fault-ne-done, stuck-ne-done}
use seabolt.ProtocolV1.Session.{Session, loaded, load_message}

module _ {ℓ} {S : Type ℓ} where
  -- From `c` to `d` a message was put into the transmission buffer: `wire` is its chunked form.
  pub record Loads (c : Session S) (m : Message) (wire : List ℕ) (d : Session S) : Type ℓ where
    pub chunked : Chunked (encode (structure m.code m.fields)) wire
    pub adds : Adds c.link.tx wire d.link.tx
    pub empty : contents d.state.tx ≡ []
    pub valid : IsValid d.state.tx
    pub counted : d.state.next_request_id ≡ (c.state.next_request_id + 1) % 2 ^ 64
    pub link_kept : d.link ≡ record c.link { tx = d.link.tx }
    pub state_kept :
        d.state ≡ record c.state { tx = d.state.tx; next_request_id = d.state.next_request_id }

  -- An encodable message is loaded with success: its chunked form is added behind what is to be sent,
  -- the protocol's buffer is empty again, the request gets the next id, and nothing else changes.
  pub load_message-Loads :
      (check : ℤ → Bool) (c : Session S) (m : Message)
      → IsValid c.state.tx
      → contents c.state.tx ≡ []
      → IsValid c.link.tx
      → IsEncodable check (structure m.code m.fields)
      → Ends
          (load_message check c m)
          (λ (status, d). (status ≡ Error.success) × ((wire : List ℕ) × Loads c m wire d))
  unfolding load_message loaded
  load_message-Loads check c m v n w h =
      let (b, e, (wire, chunked, adds, valid, left)) = write-push m check v n w h in
      let (tx, link_tx) = push_to_transmission b c.link.tx in
      (
        (
          Error.success,
          record {
            link = record c.link { tx = link_tx };
            state = record c.state {
              tx = tx;
              next_request_id = (c.state.next_request_id + 1) % 2 ^ 64;
            };
          },
        ),
        rw e,
        (
          refl,
          (
            wire,
            record {
              chunked = chunked;
              adds = adds;
              empty = left;
              valid = valid;
              counted = refl;
              link_kept = refl;
              state_kept = refl;
            },
          ),
        ),
      )

  -- What a request that is not loaded leaves: the connection is as it was, and so are the contents of
  -- the protocol's buffer and the rest of its state.
  pub record Refuses (c d : Session S) : Type ℓ where
    pub link : d.link ≡ c.link
    pub contents_kept : contents d.state.tx ≡ contents c.state.tx
    pub valid : IsValid d.state.tx
    pub state_kept : d.state ≡ record c.state { tx = d.state.tx }

  refused-Refuses :
      (c : Session S) (b : Buffer)
      → IsValid c.state.tx
      → Extends c.state.tx b
      → let tx = record b { cursor = c.state.tx.cursor; extent = c.state.tx.extent } in
        Refuses c (record c { state = record c.state { tx = tx } })
  refused-Refuses c b v x = record {
    link = refl;
    contents_kept = contents-restored c.state.tx b x;
    valid = restored-IsValid c.state.tx b v x;
    state_kept = refl;
  }

  loaded-Refuses :
      (c d : Session S) (status : ℕ) (r : Result Buffer)
      → IsValid c.state.tx
      → status ≢ Error.success
      → Keeps c.state.tx r
      → loaded c r ≡ done (status, d)
      → Refuses c d
  unfolding loaded
  loaded-Refuses c d status (Packstream.ok b) v bad k q =
      absurd (bad (sym (ap (λ (r : ℕ × Session S). r.0) (done-inj q))))
  loaded-Refuses c d status (Packstream.err code b) v bad (fails x) q =
      subst (Refuses c) (ap (λ (r : ℕ × Session S). r.1) (done-inj q)) (refused-Refuses c b v x)
  loaded-Refuses c d status Packstream.fault v bad k q = absurd (fault-ne-done q)
  loaded-Refuses c d status Packstream.stuck v bad k q = absurd (stuck-ne-done q)

  -- If loading a message, whatever its fields are, reports anything but success, nothing was added to
  -- what is to be sent, and the bytes that were written for it are dropped from the protocol's
  -- buffer: the request has had no effect.
  pub load_message-Refuses :
      (check : ℤ → Bool) (c d : Session S) (m : Message) (status : ℕ)
      → IsValid c.state.tx
      → load_message check c m ≡ done (status, d)
      → status ≢ Error.success
      → Refuses c d
  unfolding load_message
  load_message-Refuses check c d m status v e bad =
      loaded-Refuses c d status (write_message m check c.state.tx) v bad
        (subst (Keeps c.state.tx) (sym (write_message-load m check c.state.tx))
          (load-Keeps check c.state.tx (structure m.code m.fields)))
        e
