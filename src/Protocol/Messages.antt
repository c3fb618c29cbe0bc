-- ===== src/Protocol/Messages.antt =====
-- A message from its fields to the wire.
use seabolt.Prelude.{ℕ, ◌≡◌, refl, ap, ◌∙◌, subst, Bool, List, [], ◌++◌}
use seabolt.Prelude.Int.{ℤ}
use seabolt.Buffer.{Buffer}
use seabolt.Buffer.Contents.{IsValid, contents}
use seabolt.Values.{structure}
use seabolt.Packstream.Result.{ok}
use seabolt.Packstream.Load as Load
use seabolt.Packstream.Encoding.{encode, IsEncodable}
use seabolt.Packstream.Writes.{Adds, load-Writes}
use seabolt.Packstream.RoundTrip.{Writes-ok}
use seabolt.Protocol.{Message, write_message, push_to_transmission}
use seabolt.Protocol.Chunks.{Chunked, push_to_transmission-Chunked}

-- A message is written as the structure with its code and its fields.
pub write_message-load :
    (m : Message) (check : ℤ → Bool) (b : Buffer)
    → write_message m check b ≡ Load.load check b (structure m.code m.fields)
unfolding write_message Load.load
write_message-load m check b = refl

-- On empty, valid buffers, an encodable message is written and pushed whole: what is added to the
-- transmission buffer is the chunked form of the message's bytes, those of a structure of its code
-- and fields, and the message buffer is valid and empty again.
pub write-push :
    (m : Message) (check : ℤ → Bool) {b tx : Buffer}
    → IsValid b
    → contents b ≡ []
    → IsValid tx
    → IsEncodable check (structure m.code m.fields)
    → (c : Buffer) × (write_message m check b ≡ ok c)
      × ((wire : List ℕ) × Chunked (encode (structure m.code m.fields)) wire
          × Adds tx wire (push_to_transmission c tx).1
          × IsValid (push_to_transmission c tx).0
          × (contents (push_to_transmission c tx).0 ≡ []))
write-push m check {b} {tx} v n w h =
    let x = structure m.code m.fields in
    let (c, e, p) = Writes-ok b (encode x) (Load.load check b x) (load-Writes check v x h) in
    let held : contents c ≡ encode x = p.holds ∙ ap (λ zs. zs ++ encode x) n in
    let (wire, chunked, adds, valid, left) = push_to_transmission-Chunked c tx p.valid w in
    (
      c,
      write_message-load m check b ∙ e,
      (wire, subst (λ bytes. Chunked bytes wire) held chunked, adds, valid, left),
    )
