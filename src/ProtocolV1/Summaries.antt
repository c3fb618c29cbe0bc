-- ===== src/ProtocolV1/Summaries.antt =====
-- What a summary leaves in the state of the protocol.
use seabolt.Prelude.{◌+◌, ◌%◌, ◌^◌, ◌≡◌, refl, ap, sym, subst, ◌∙◌, true, false, Option, none, some}
use seabolt.Values.{
  Value, Values, Entries, list, dictionary, nil, cons, end, format_as_dictionary, resize_entries,
}
use seabolt.Connection.{Outcome, done, Ends}
use seabolt.ProtocolV1.Code
use seabolt.ProtocolV1.Session.{V1State, has_code}
use seabolt.ProtocolV1.Metadata.{extract_metadata}
use seabolt.ProtocolV1.Responses.{settle, first_field}
use seabolt.ProtocolV1.Extraction.{HasTwo, Fits, others, is_failure}
use seabolt.ProtocolV1.Settling.{extract_entries-Extracts}

-- The first field of a summary, if it is a dictionary.
abbrev pub metadata_of : Values → Entries
metadata_of (cons (dictionary es) xs) = es
metadata_of _ = end

-- What a summary leaves in the state.
pub record Settles (s : V1State) (fields : Values) (r : V1State) : Type 0 where
  pub metadata : r.result_metadata ≡ dictionary (others (is_failure s) (metadata_of fields))
  pub two : HasTwo r.failure_data
  pub calm : is_failure s ≡ false → r.failure_data ≡ s.failure_data
  pub kept : r ≡ record s {
    response_counter = (s.response_counter + 1) % 2 ^ 64;
    server = r.server;
    last_bookmark = r.last_bookmark;
    result_field_names = r.result_field_names;
    result_metadata = r.result_metadata;
    failure_data = r.failure_data;
  }

format_as_dictionary_zero : (v : Value) → format_as_dictionary v 0 ≡ end
unfolding format_as_dictionary resize_entries
format_as_dictionary_zero (dictionary es) = refl
format_as_dictionary_zero _ = refl

-- The state with which the extraction starts.
abbrev counted : V1State → V1State
counted s = record s {
  response_counter = (s.response_counter + 1) % 2 ^ 64;
  result_metadata = dictionary (format_as_dictionary s.result_metadata 0);
}

abbrev extracted : V1State → Option Value → Outcome V1State
extracted s o = elim o [ none ↦ done (counted s) | some v ↦ extract_metadata (counted s) v ]

-- A summary without metadata.
bare :
    (s : V1State) (fields : Values)
    → HasTwo s.failure_data
    → metadata_of fields ≡ end
    → Settles s fields (counted s)
bare s fields two e = record {
  metadata =
      ap dictionary (format_as_dictionary_zero s.result_metadata)
      ∙ ap (λ es. dictionary (others (is_failure s) es)) (sym e);
  two = two;
  calm = λ c. refl;
  kept = refl;
}

extracted-Settles :
    (s : V1State) (fields : Values)
    → HasTwo s.failure_data
    → Fits (metadata_of fields)
    → Ends (extracted s (first_field (list fields))) (Settles s fields)
unfolding extract_metadata
extracted-Settles s nil two h = (counted s, refl, bare s nil two refl)
extracted-Settles s (cons (dictionary es) xs) two h =
    let empty = format_as_dictionary_zero s.result_metadata in
    let (r, went, x) = extract_entries-Extracts (counted s) end es (ap dictionary empty) two h in
    (
      r,
      went,
      record {
        metadata = x.metadata end (ap dictionary empty);
        two = x.two;
        calm = x.calm;
        kept = x.kept;
      },
    )
extracted-Settles s (cons x xs) two h = (counted s, refl, bare s (cons x xs) two refl)

-- A response that is no record, with metadata that fit, is settled: the response counter goes on by
-- one, the result's metadata are the entries of its first field under keys that are not reserved, and
-- the failure data change only behind a FAILURE.
pub settle-Settles :
    (s : V1State) (fields : Values)
    → has_code Code.record_code s.data_type ≡ false
    → s.content ≡ list fields
    → HasTwo s.failure_data
    → Fits (metadata_of fields)
    → Ends (settle s) (Settles s fields)
unfolding settle
settle-Settles s fields summary e two h = rw summary (
    subst (λ v. Ends (extracted s (first_field v)) (Settles s fields)) (sym e)
      (extracted-Settles s fields two h))

pub settle_record : (s : V1State) → has_code Code.record_code s.data_type ≡ true → settle s ≡ done s
unfolding settle
settle_record s e = rw e
