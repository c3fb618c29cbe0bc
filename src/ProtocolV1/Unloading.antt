-- ===== src/ProtocolV1/Unloading.antt =====
-- What `BoltProtocolV1_unload` makes of a response's bytes.
use seabolt.Prelude.{
  ℕ, ◌+◌, ◌%◌, ◌<◌, ◌≡◌, refl, ap, ◌∙◌, Bool, some, List, ◌∷◌, ◌++◌, append_assoc, arith,
}
use seabolt.Prelude.Int.{ℤ, pos}
use seabolt.Buffer
use seabolt.Buffer.{Buffer}
use seabolt.Buffer.Contents.{IsValid, contents}
use seabolt.Buffer.Reads.{unload_u8_first}
use seabolt.Values.{Values, nil, cons, list, count, format_as_list}
use seabolt.Values.Copy.{count-format_as_list}
use seabolt.Packstream.Result.{Result, ok, err, fault, stuck}
use seabolt.Packstream.Unload as Unload
use seabolt.Packstream.Unload.{PackStreamType, marker_type}
use seabolt.Packstream.Encoding.{encode, encode_values, AreEncodable}
use seabolt.Packstream.Parses.{Parses}
use seabolt.Packstream.Containers.{values_turn}
use seabolt.Packstream.RoundTrip.{unload-Parses}
use seabolt.Connection.{done}
use seabolt.Connection.Landing.{Gets-some}
use seabolt.ProtocolV1.Session.{V1State}
use seabolt.ProtocolV1.Responses.{count_record, unloaded, unload_data, unload, ok_status}

-- The bytes of a response: a structure's header, its code and its fields.
unfoldable pub response : ℕ → Values → List ℕ
response code fields = (0xB0 + count fields) ∷ code ∷ encode_values fields

structure_marker : (n : ℕ) → n < 0x10 → marker_type (0xB0 + n) ≡ PackStreamType.structure_type
unfolding marker_type
structure_marker n h = ground arith

structure_size : (n : ℕ) → n < 0x10 → (0xB0 + n) % 16 ≡ n
structure_size n h = omega arith

module _ (check : ℤ → Bool) where
  -- Encodable values in a row are read into as many slots.
  unload_values-Parses :
      {b : Buffer} (v : IsValid b) (xs slots : Values) (rest : List ℕ)
      → AreEncodable check xs
      → count slots ≡ count xs
      → contents b ≡ encode_values xs ++ rest
      → Parses xs rest (Unload.unload_values (Unload.unload check) b slots)
  unfolding Unload.unload_values encode_values
  unload_values-Parses v nil nil rest h n e = (refl, v, e)
  unload_values-Parses v nil (cons y ys) rest h n e = absurd (omega arith)
  unload_values-Parses v (cons x xs) nil rest h n e = absurd (omega arith)
  unload_values-Parses {b} v (cons x xs) (cons y ys) rest h n e =
      values_turn x xs ys (encode_values xs ++ rest) rest (Unload.unload check b y)
        (Unload.unload check)
        (unload-Parses check v x y (encode_values xs ++ rest) h.0
          (e ∙ append_assoc (encode x) (encode_values xs) rest))
        (λ c w q. unload_values-Parses w xs ys rest h.1 (omega arith) q)

  -- What `unload` leaves of a response.
  pub record Responds (s : V1State) (code : ℕ) (fields : Values) (rest : List ℕ) (r : V1State)
      : Type 0 where
    pub valid : IsValid r.rx
    pub left : contents r.rx ≡ rest
    pub state :
        r ≡ count_record (record s { rx = r.rx; data_type = pos code; content = list fields })

  unloaded-Responds :
      (s : V1State) (code : ℕ) (fields : Values) (rest : List ℕ) (r : Result (Buffer × Values))
      → Parses fields rest r
      → (d : V1State) × (unloaded (record s { data_type = pos code }) r ≡ done (ok_status, d))
        × Responds s code fields rest d
  unfolding unloaded count_record
  unloaded-Responds s code fields rest (ok (rx, xs)) (same, v, left) = (
    count_record (record s { rx = rx; data_type = pos code; content = list xs }),
    refl,
    record {
      valid = v;
      left = left;
      state =
          ap (λ ys. count_record (record s { rx = rx; data_type = pos code; content = list ys }))
            same;
    },
  )
  unloaded-Responds s code fields rest (err _ _) p = absurd p
  unloaded-Responds s code fields rest fault p = absurd p
  unloaded-Responds s code fields rest stuck p = absurd p

  unload_steps :
      (s : V1State) (rx next : Buffer) (marker code : ℕ)
      → Buffer.unload_u8 s.rx ≡ some (marker, rx)
      → marker_type marker ≡ PackStreamType.structure_type
      → Buffer.unload_u8 rx ≡ some (code, next)
      → unload check s ≡ unload_data check marker (record s { rx = next; data_type = pos code })
  unfolding unload
  unload_steps s rx next marker code p q r = rw (p, q, r, unload)

  -- If a response stands at the front of the protocol's receive buffer, with encodable fields, at
  -- most 15, then unloading it succeeds: the type is its code, the data are its fields, the buffer is
  -- left with what is behind it, and the record counter is the only other thing that changes.
  pub unload-Responds :
      (s : V1State) (code : ℕ) (fields : Values) (rest : List ℕ)
      → IsValid s.rx
      → count fields < 0x10
      → AreEncodable check fields
      → contents s.rx ≡ response code fields ++ rest
      → (r : V1State) × (unload check s ≡ done (ok_status, r)) × Responds s code fields rest r
  unfolding unload_data response
  unload-Responds s code fields rest v small h e =
      let behind = encode_values fields ++ rest in
      let (rx, p, valid, left) =
        Gets-some (unload_u8_first v (0xB0 + count fields) (code ∷ behind) e) in
      let (next, q, valid', left') = Gets-some (unload_u8_first valid code behind left) in
      let parses =
        unload_values-Parses valid' fields (format_as_list s.content (count fields)) rest h
          (count-format_as_list s.content (count fields)) left' in
      let (r, went, responds) =
        unloaded-Responds (record s { rx = next }) code fields rest
          (Unload.unload_values (Unload.unload check) next
            (format_as_list s.content (count fields)))
          parses in
      (
        r,
        unload_steps s rx next (0xB0 + count fields) code p (structure_marker (count fields) small)
              q
            ∙ ap
                (λ n.
                  unloaded (record s { rx = next; data_type = pos code })
                    (Unload.unload_values (Unload.unload check) next (format_as_list s.content n)))
                (structure_size (count fields) small)
            ∙ went,
        record { valid = responds.valid; left = responds.left; state = responds.state },
      )
