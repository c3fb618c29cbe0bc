-- ===== src/ProtocolV1/Extraction.antt =====
-- What `BoltProtocolV1_extract_metadata` should do with the metadata of a summary.
use seabolt.Prelude.{
  ℕ, suc, ◌≤◌, ◌≡◌, refl, ap, ap₂, sym, ◌∙◌, Bool, true, false, ◌&&◌, ◌||◌, Option, none, some,
  length, if◌then◌else◌,
}
use seabolt.Values.{
  Value, Entries, null, string, dictionary, end, entry, count_entries, resize_entries,
}
use seabolt.Values.Copy.{copy_lem}
use seabolt.ProtocolV1.Code
use seabolt.ProtocolV1.Session.{V1State, has_code}
use seabolt.ProtocolV1.Metadata.{
  string_equals, bookmark_key, fields_key, server_key, code_key, message_key, max_bookmark_size,
  max_server_size, set_last,
}

abbrev pub append_entries : Entries → Entries → Entries
append_entries end fs = fs
append_entries (entry k v es) fs = entry k v (append_entries es fs)

pub append_entries_end : (es : Entries) → append_entries es end ≡ es
append_entries_end end = refl
append_entries_end (entry k v es) = ap (entry k v) (append_entries_end es)

pub append_entries_assoc :
    (es fs gs : Entries)
    → append_entries (append_entries es fs) gs ≡ append_entries es (append_entries fs gs)
append_entries_assoc end fs gs = refl
append_entries_assoc (entry k v es) fs gs = ap (entry k v) (append_entries_assoc es fs gs)

-- A dictionary that grows by one keeps its entries, and its last one is the copy.
pub set_last-resize :
    (es : Entries) (k v : Value)
    → set_last (resize_entries es (suc (count_entries es))) k v ≡ append_entries es (entry k v end)
unfolding set_last resize_entries
set_last-resize end k v = ap₂ (λ a b. entry a b end) (copy_lem null k) (copy_lem null v)
set_last-resize (entry i w end) k v =
    ap₂ (λ a b. entry i w (entry a b end)) (copy_lem null k) (copy_lem null v)
set_last-resize (entry i w (entry j x es)) k v = ap (entry i w) (set_last-resize (entry j x es) k v)

-- The keys that go elsewhere than into the result's metadata.
abbrev pub is_reserved : Bool → Value → Bool
is_reserved failed k =
    string_equals k bookmark_key
    || (string_equals k fields_key
        || (string_equals k server_key
            || ((string_equals k code_key && failed) || (string_equals k message_key && failed))))

-- The other entries, in order.
abbrev pub others : Bool → Entries → Entries
others failed end = end
others failed (entry k v es) =
    if is_reserved failed k then others failed es else entry k v (others failed es)

abbrev pub FitsIn : ℕ → Value → Type 0
FitsIn max (string xs) = length xs ≤ max
FitsIn max _ = Unit {0}

-- The bookmarks and the server's name fit into their blocks.
abbrev pub Fits : Entries → Type 0
Fits end = Unit {0}
Fits (entry k v es) =
    (string_equals k bookmark_key ≡ true → FitsIn max_bookmark_size v)
    × (string_equals k server_key ≡ true → FitsIn max_server_size v)
    × Fits es

-- The failure data are NULL, or have the two entries that `ensure_failure_data` makes.
abbrev pub HasTwo : Option Value → Type 0
HasTwo none = Unit {0}
HasTwo (some (dictionary (entry k v (entry i w end)))) = Unit {0}
HasTwo (some _) = ⊥

abbrev pub is_failure : V1State → Bool
is_failure s = has_code Code.failure s.data_type

-- From `s` to `r` the entries `added` went into the result's metadata. Only the five fields that hold
-- metadata may have changed, and the failure data only behind a FAILURE.
pub record Extracts (s : V1State) (added : Entries) (r : V1State) : Type 0 where
  pub metadata :
      (es : Entries)
      → s.result_metadata ≡ dictionary es
      → r.result_metadata ≡ dictionary (append_entries es added)
  pub two : HasTwo r.failure_data
  pub calm : is_failure s ≡ false → r.failure_data ≡ s.failure_data
  pub kept : r ≡ record s {
    server = r.server;
    last_bookmark = r.last_bookmark;
    result_field_names = r.result_field_names;
    result_metadata = r.result_metadata;
    failure_data = r.failure_data;
  }

-- No entry was added.
pub record Stores (s r : V1State) : Type 0 where
  pub metadata : r.result_metadata ≡ s.result_metadata
  pub two : HasTwo r.failure_data
  pub calm : is_failure s ≡ false → r.failure_data ≡ s.failure_data
  pub kept : r ≡ record s {
    server = r.server;
    last_bookmark = r.last_bookmark;
    result_field_names = r.result_field_names;
    result_metadata = r.result_metadata;
    failure_data = r.failure_data;
  }

pub Stores-Extracts : {s r : V1State} → Stores s r → Extracts s end r
Stores-Extracts {s} {r} p = record {
  metadata = λ es e. p.metadata ∙ e ∙ ap dictionary (sym (append_entries_end es));
  two = p.two;
  calm = p.calm;
  kept = p.kept;
}

pub Extracts-trans :
    {s r q : V1State} {es fs : Entries}
    → Extracts s es r
    → Extracts r fs q
    → Extracts s (append_entries es fs) q
Extracts-trans {s} {r} {q} {es} {fs} a b = record {
  metadata = λ gs e.
      b.metadata (append_entries gs es) (a.metadata gs e)
      ∙ ap dictionary (append_entries_assoc gs es fs);
  two = b.two;
  calm = λ e. b.calm (ap is_failure a.kept ∙ e) ∙ a.calm e;
  kept =
      b.kept
      ∙ ap
          (λ (k : V1State). record k {
            server = q.server;
            last_bookmark = q.last_bookmark;
            result_field_names = q.result_field_names;
            result_metadata = q.result_metadata;
            failure_data = q.failure_data;
          })
          a.kept;
}
