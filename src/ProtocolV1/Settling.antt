-- ===== src/ProtocolV1/Settling.antt =====
-- `BoltProtocolV1_extract_metadata` ends, and sorts the metadata of a summary.
use seabolt.ProtocolV1.Extraction.{
  append_entries, set_last-resize, is_reserved, others, FitsIn, Fits, HasTwo, is_failure, Extracts,
  Stores, Stores-Extracts, Extracts-trans,
}
use seabolt.Prelude.{
  ℕ, zero, suc, ◌+◌, ◌≤◌, ◌≡◌, refl, ap, ◌∙◌, subst, Bool, true, false, ◌&&◌, Bool-cases, Option,
  none, some, List, length, inl, inr, if◌then◌else◌, arith,
}
use seabolt.Values.{
  Value, Entries, string, list, dictionary, end, entry, count_entries, format_as_dictionary,
}
use seabolt.Connection.{Outcome, done, Ends}
use seabolt.ProtocolV1.Session.{V1State}
use seabolt.ProtocolV1.Metadata.{
  string_equals, bookmark_key, fields_key, server_key, code_key, message_key, max_bookmark_size,
  max_server_size, text_in, ensure_failure_data, set_text, keep_metadata, take_bookmark,
  take_fields, take_server, take_failure, take_other, extract_entry, extract_entries,
}

text_in_lem : (max : ℕ) (xs : List ℕ) → length xs ≤ max → text_in max xs ≡ done xs
unfolding text_in
text_in_lem max xs h = ground arith

set_text-two :
    (i : ℕ) (text : List ℕ) (f : Option Value)
    → i ≤ 1
    → HasTwo f
    → Ends (set_text i text (ensure_failure_data f)) (λ d. HasTwo (some d))
unfolding set_text ensure_failure_data
set_text-two zero text none h two = (_, refl, tt)
set_text-two (suc zero) text none h two = (_, refl, tt)
set_text-two zero text (some (dictionary (entry k v (entry i w end)))) h two = (_, refl, tt)
set_text-two (suc zero) text (some (dictionary (entry k v (entry i w end)))) h two = (_, refl, tt)
set_text-two (suc (suc n)) text f h two = absurd (omega arith)
set_text-two _ text (some _) h two = absurd two

module _ (s : V1State) (two : HasTwo s.failure_data) where
  same : Stores s s
  same = record { metadata = refl; two = two; calm = λ e. refl; kept = refl }

  bookmark-Stores : (v : Value) → FitsIn max_bookmark_size v → Ends (take_bookmark s v) (Stores s)
  unfolding take_bookmark
  bookmark-Stores (string xs) h = (
    record s { last_bookmark = xs },
    rw (text_in_lem max_bookmark_size xs h),
    record { metadata = refl; two = two; calm = λ e. refl; kept = refl },
  )
  bookmark-Stores _ h = (s, refl, same)

  server-Stores : (v : Value) → FitsIn max_server_size v → Ends (take_server s v) (Stores s)
  unfolding take_server
  server-Stores (string xs) h = (
    record s { server = xs },
    rw (text_in_lem max_server_size xs h),
    record { metadata = refl; two = two; calm = λ e. refl; kept = refl },
  )
  server-Stores _ h = (s, refl, same)

  fields-Stores : (v : Value) → Ends (take_fields s v) (Stores s)
  unfolding take_fields
  fields-Stores (list xs) =
      (_, refl, record { metadata = refl; two = two; calm = λ e. refl; kept = refl })
  fields-Stores _ = (s, refl, same)

  failure-Stores :
      (i : ℕ) (v : Value) → i ≤ 1 → is_failure s ≡ true → Ends (take_failure i s v) (Stores s)
  unfolding take_failure
  failure-Stores i (string xs) h failed =
      let (d, e, two') = set_text-two i xs s.failure_data h two in
      (
        record s { failure_data = some d },
        rw e,
        record { metadata = refl; two = two'; calm = λ c. cc; kept = refl },
      )
  failure-Stores i _ h failed = (s, refl, same)

  other-Extracts :
      (es : Entries) (k v : Value)
      → s.result_metadata ≡ dictionary es
      → Ends (take_other s k v) (Extracts s (entry k v end))
  unfolding take_other keep_metadata format_as_dictionary
  other-Extracts es k v e =
      let longer : count_entries es + 1 ≡ suc (count_entries es) = omega arith in
      (
        record s { result_metadata = dictionary (append_entries es (entry k v end)) },
        rw (e, longer, set_last-resize es k v),
        record {
          metadata = λ fs f.
              let same_entries : es ≡ fs = cc in
              ap (λ gs. dictionary (append_entries gs (entry k v end))) same_entries;
          two = two;
          calm = λ c. refl;
          kept = refl;
        },
      )

  -- One entry.
  entry-Extracts :
      (es : Entries) (k v : Value)
      → s.result_metadata ≡ dictionary es
      → Fits (entry k v end)
      → Ends
          (extract_entry s k v)
          (Extracts s (if is_reserved (is_failure s) k then end else entry k v end))
  unfolding extract_entry
  entry-Extracts es k v e (b, n, _) = elim (Bool-cases (string_equals k bookmark_key)) [
    | inl p ↦ rw p (stored (bookmark-Stores v (b p)))
    | inr p ↦ rw p (elim (Bool-cases (string_equals k fields_key)) [
      | inl q ↦ rw q (stored (fields-Stores v))
      | inr q ↦ rw q (elim (Bool-cases (string_equals k server_key)) [
        | inl r ↦ rw r (stored (server-Stores v (n r)))
        | inr r ↦ rw r (elim (Bool-cases (string_equals k code_key && is_failure s)) [
          | inl f ↦ rw f (stored (failure-Stores 0 v (omega arith) (and_right _ _ f)))
          | inr f ↦ rw f (elim (Bool-cases (string_equals k message_key && is_failure s)) [
            | inl g ↦ rw g (stored (failure-Stores 1 v (omega arith) (and_right _ _ g)))
            | inr g ↦ rw g (other-Extracts es k v e)
          ])
        ])
      ])
    ])
  ]
    where
      stored : {o : Outcome V1State} → Ends o (Stores s) → Ends o (Extracts s end)
      stored (r, went, p) = (r, went, Stores-Extracts p)

      and_right : (x y : Bool) → (x && y) ≡ true → y ≡ true
      and_right true y f = f
      and_right false y f = cc

one_of_them :
    (b : Bool) (k v : Value) (es : Entries)
    → append_entries (if b then end else entry k v end) es ≡ (if b then es else entry k v es)
one_of_them true k v es = refl
one_of_them false k v es = refl

-- If the result's metadata are a dictionary, the failure data as the code makes them, and every
-- bookmark and server name fits into its block, then the metadata of a summary are taken out to the
-- end. The entries under other keys come behind those that were there, in order; only the fields that
-- hold metadata change, and the failure data only behind a FAILURE.
pub extract_entries-Extracts :
    (s : V1State) (old es : Entries)
    → s.result_metadata ≡ dictionary old
    → HasTwo s.failure_data
    → Fits es
    → Ends (extract_entries s es) (Extracts s (others (is_failure s) es))
unfolding extract_entries
extract_entries-Extracts s old end e two h = (s, refl, Stores-Extracts (same s two))
extract_entries-Extracts s old (entry k v es) e two (b, n, h) =
    let (r, went, one) = entry-Extracts s two old k v e (b, n, tt) in
    let (q, more, rest) = extract_entries-Extracts r _ es (one.metadata old e) one.two h in
    let joined = one_of_them (is_reserved (is_failure s) k) k v (others (is_failure s) es) in
    let same_kind =
      ap
        (λ b.
          append_entries (if is_reserved (is_failure s) k then end else entry k v end)
            (others b es))
        (ap is_failure one.kept) in
    (q, rw went more, subst (λ fs. Extracts s fs q) (same_kind ∙ joined) (Extracts-trans one rest))
