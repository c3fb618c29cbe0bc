-- ===== src/Packstream/Containers.antt =====
-- The loops over the parts of a container, for any way of reading a part.
use seabolt.Prelude.{
  ℕ, ◌+◌, ◌%◌, ◌^◌, ◌<◌, ◌≡◌, refl, ap, ap₂, ◌∙◌, Bool, true, List, ◌∷◌, ◌++◌, arith,
}
use seabolt.Prelude.Int.{ℤ, pos, negsuc, of_word}
use seabolt.Buffer
use seabolt.Buffer.{Buffer}
use seabolt.Buffer.Contents.{IsValid, contents}
use seabolt.Buffer.Reads.{unload_u8_first, unload_i8_first}
use seabolt.Values.{
  Value, Values, Entries, dictionary, list, structure, cons, entry, count, count_entries,
  format_as_list, format_as_dictionary, format_as_structure,
}
use seabolt.Packstream.Result.{Result, ok, err, fault, stuck}
use seabolt.Packstream.Unload.{
  within, Read, sized, map_result, unload_values, unload_list, unload_entries, unload_map,
  unload_fields, unload_structure,
}
use seabolt.Packstream.Encoding.{header, code_byte, IsCode}
use seabolt.Packstream.Parses.{Parses, reading-Parses}
use seabolt.Packstream.Sizes.{header-Parses}

map_result-Parses :
    {A B : Type 0} (g : A → B) (a : A) {y : B} (rest : List ℕ) (r : Result (Buffer × A))
    → g a ≡ y
    → Parses a rest r
    → Parses y rest (map_result (λ p. (p.0, g p.1)) r)
map_result-Parses g a rest (ok (c, x)) e p = (ap g p.0 ∙ e, p.1, p.2)
map_result-Parses g a rest (err _ _) e p = p
map_result-Parses g a rest fault e p = p
map_result-Parses g a rest stuck e p = p

-- One turn of each loop: the element parses, then the other elements do.
pub values_turn :
    (x : Value) (xs slots : Values) (mid rest : List ℕ) (r : Read) (rec : Buffer → Value → Read)
    → Parses x mid r
    → ((c : Buffer) → IsValid c → contents c ≡ mid → Parses xs rest (unload_values rec c slots))
    → Parses (cons x xs) rest (elim r [
      | ok (c, y) ↦ map_result (λ p. (p.0, cons y p.1)) (unload_values rec c slots)
      | err e (c, y) ↦ err e (c, cons y slots)
      | fault ↦ fault
      | stuck ↦ stuck
    ])
values_turn x xs slots mid rest (ok (c, y)) rec p next =
    map_result-Parses (cons y) xs rest (unload_values rec c slots) (ap (λ z. cons z xs) p.0)
      (next c p.1 p.2)
values_turn x xs slots mid rest (err _ _) rec p next = p
values_turn x xs slots mid rest fault rec p next = p
values_turn x xs slots mid rest stuck rec p next = p

pub fields_turn :
    (x : Value) (xs slots : Values) (mid rest : List ℕ) (r : Read) (rec : Buffer → Value → Read)
    → Parses x mid r
    → ((c : Buffer) → IsValid c → contents c ≡ mid → Parses xs rest (unload_fields rec c slots))
    → Parses (cons x xs) rest (elim r [
      | ok (c, y) ↦ map_result (λ p. (p.0, cons y p.1)) (unload_fields rec c slots)
      | err e (c, y) ↦ map_result (λ p. (p.0, cons y p.1)) (unload_fields rec c slots)
      | fault ↦ fault
      | stuck ↦ stuck
    ])
fields_turn x xs slots mid rest (ok (c, y)) rec p next =
    map_result-Parses (cons y) xs rest (unload_fields rec c slots) (ap (λ z. cons z xs) p.0)
      (next c p.1 p.2)
fields_turn x xs slots mid rest (err _ _) rec p next = absurd p
fields_turn x xs slots mid rest fault rec p next = p
fields_turn x xs slots mid rest stuck rec p next = p

pub entries_turn :
    (k x : Value) (es slots : Entries) (slot : Value) (mid last rest : List ℕ) (r : Read)
    (rec : Buffer → Value → Read)
    → Parses k mid r
    → ((c : Buffer) → IsValid c → contents c ≡ mid → Parses x last (rec c slot))
    → ((c : Buffer) → IsValid c → contents c ≡ last → Parses es rest (unload_entries rec c slots))
    → Parses (entry k x es) rest (elim r [
      | ok (c, key) ↦ elim (rec c slot) [
        | ok (d, y) ↦ map_result (λ p. (p.0, entry key y p.1)) (unload_entries rec d slots)
        | err e (d, y) ↦ err e (d, entry key y slots)
        | fault ↦ fault
        | stuck ↦ stuck
      ]
      | err e (c, key) ↦ err e (c, entry key slot slots)
      | fault ↦ fault
      | stuck ↦ stuck
    ])
entries_turn k x es slots slot mid last rest (ok (c, key)) rec p next more =
    go (rec c slot) (next c p.1 p.2)
  where
    go :
        (q : Read)
        → Parses x last q
        → Parses (entry k x es) rest (elim q [
          | ok (d, y) ↦ map_result (λ p. (p.0, entry key y p.1)) (unload_entries rec d slots)
          | err e (d, y) ↦ err e (d, entry key y slots)
          | fault ↦ fault
          | stuck ↦ stuck
        ])
    go (ok (d, y)) q =
        map_result-Parses (entry key y) es rest (unload_entries rec d slots)
          (ap₂ (λ z w. entry z w es) p.0 q.0) (more d q.1 q.2)
    go (err _ _) q = q
    go fault q = q
    go stuck q = q
entries_turn k x es slots slot mid last rest (err _ _) rec p next more = absurd p
entries_turn k x es slots slot mid last rest fault rec p next more = absurd p
entries_turn k x es slots slot mid last rest stuck rec p next more = absurd p

module _ (rec : Buffer → Value → Read) {b : Buffer} (v : IsValid b) (slot : Value)
    (mid rest : List ℕ) where
  pub unload_list-Parses :
      (xs : Values)
      → count xs < 2 ^ 31
      → contents b ≡ header 0x90 0xD4 0xD5 0xD6 (count xs) ++ mid
      → ((c : Buffer)
          → IsValid c
          → contents c ≡ mid
          → Parses xs rest (unload_values rec c (format_as_list slot (count xs))))
      → Parses (list xs) rest (unload_list rec b slot)
  unfolding unload_list
  unload_list-Parses xs h e next =
      header-Parses
        (λ s.
          sized slot s (λ d k.
            map_result (λ r. (r.0, list r.1)) (unload_values rec d (format_as_list slot k))))
        (list xs) (count xs) mid rest (λ d u q. map_result-Parses list xs rest _ refl (next d u q))
        v (omega arith) h e

  pub unload_map-Parses :
      (es : Entries)
      → count_entries es < 2 ^ 31
      → contents b ≡ header 0xA0 0xD8 0xD9 0xDA (count_entries es) ++ mid
      → ((c : Buffer)
          → IsValid c
          → contents c ≡ mid
          → Parses es rest (unload_entries rec c (format_as_dictionary slot (count_entries es))))
      → Parses (dictionary es) rest (unload_map rec b slot)
  unfolding unload_map
  unload_map-Parses es h e next =
      header-Parses
        (λ s. sized slot s (λ d k.
          map_result (λ r. (r.0, dictionary r.1))
            (unload_entries rec d (format_as_dictionary slot k))))
        (dictionary es) (count_entries es) mid rest
        (λ d u q. map_result-Parses dictionary es rest _ refl (next d u q)) v (omega arith) h e

  pub unload_structure-Parses :
      (check : ℤ → Bool) (code : ℤ) (xs : Values)
      → check code ≡ true
      → IsCode code
      → count xs < 0x10
      → contents b ≡ (0xB0 + count xs) ∷ code_byte code ∷ mid
      → ((c : Buffer)
          → IsValid c
          → contents c ≡ mid
          → Parses xs rest (unload_fields rec c (format_as_structure slot (count xs))))
      → Parses (structure code xs) rest (unload_structure rec check b slot)
  unfolding unload_structure
  unload_structure-Parses check (negsuc k) xs g h n e next = absurd h
  unload_structure-Parses check (pos k) xs g h n e next =
      reading-Parses (0xB0 + count xs) (k ∷ mid) (structure (pos k) xs) rest (Buffer.unload_u8 b) _
        (unload_u8_first v (0xB0 + count xs) (k ∷ mid) e)
        λ c w l.
          rw (inside, size)
            (reading-Parses (of_word 8 k) mid (structure (pos k) xs) rest (Buffer.unload_i8 c) _
              (unload_i8_first w k mid (omega arith) l)
              λ d u q.
                rw (code_read, g)
                  (map_result-Parses (structure (pos k)) xs rest _ refl (next d u q)))
    where
      inside : within 0xB0 0xBF (0xB0 + count xs) ≡ true
      inside = unfold within in ground (arith, n)

      size : (0xB0 + count xs) % 16 ≡ count xs
      size = omega (arith, n)

      code_read : of_word 8 k ≡ pos k
      code_read = ground (arith, h)
