-- ===== src/ProtocolV3/Assignment.antt =====
-- A dictionary whose value under a key is written, and what is found in it.
use seabolt.Prelude.{
  ℕ, zero, suc, ◌+◌, ◌≡◌, ◌≢◌, ◌↔◌, subst, refl, ap, sym, ◌∙◌, true, false, Bool-cases, none, some,
  Option-cases, List, inl, inr, length, if◌then◌else◌, arith,
}
use seabolt.Address.{c_string, same_text}
use seabolt.Address.Parse.{same_text_iff}
use seabolt.Values.{
  Value, Entries, null, string, end, entry, count_entries, resize_entries, format_as_string,
  format_as_dictionary,
}
use seabolt.RoutingTable.{Memory, same_key, key_view, value_by_key}
use seabolt.Connection.{done}
use seabolt.ProtocolV1.Requests.{set_key}
use seabolt.ProtocolV1.Extraction.{append_entries}
use seabolt.ProtocolV3.Dictionary.{key_index, change_value, add_key, set_entry, clear_entry}

-- The dictionary with `v` under `key`: in the first entry with the key, or behind all others.
unfoldable pub assign : Memory → Entries → List ℕ → Value → Entries
assign m end key v = entry (string key) v end
assign m (entry k w es) key v =
    if same_key (key_view m k) key then entry k v es else entry k w (assign m es key v)

some-injective {ℓ} : {A : Type ℓ} {a b : A} → some a ≡ some b → a ≡ b
some-injective e = cc

some-ne-none {ℓ} : {A : Type ℓ} {a : A} → some a ≢ none
some-ne-none e = cc

false-ne-true : false ≢ true
false-ne-true e = cc

pub set_key-last :
    (es : Entries) (k v : Value) (key : List ℕ)
    → set_key (append_entries es (entry k v end)) (count_entries es) key
      ≡ some (v, append_entries es (entry (string key) v end))
unfolding set_key format_as_string
set_key-last end k v key = refl
set_key-last (entry i w es) k v key = rw (set_key-last es k v key) refl

resize-append :
    (es : Entries)
    → resize_entries es (count_entries es + 1) ≡ append_entries es (entry null null end)
unfolding resize_entries
resize-append end = refl
resize-append (entry k v es) =
    let more : suc (count_entries es) + 1 ≡ suc (count_entries es + 1) = omega arith in
    rw more (ap (entry k v) (resize-append es))

pub change_value-last :
    (es : Entries) (k v : Value) (f : Value → Value)
    → change_value (append_entries es (entry k v end)) (count_entries es) f
      ≡ append_entries es (entry k (f v) end)
unfolding change_value
change_value-last end k v f = refl
change_value-last (entry i w es) k v f = ap (entry i w) (change_value-last es k v f)

module _ (m : Memory) (key : List ℕ) (v : Value) (f : Value → Value)
    (constant : (w : Value) → f w ≡ v) where
  -- An entry with the key is changed where it is.
  changed :
      (es : Entries) (i : ℕ) → key_index m es key ≡ some i → change_value es i f ≡ assign m es key v
  unfolding key_index change_value assign
  changed end i e = cc
  changed (entry k w es) i e = elim (Bool-cases (same_key (key_view m k) key)) [
    | inl p ↦
        let here : zero ≡ i = some-injective (rw p at e) in
        rw p (
          subst (λ j. change_value (entry k w es) j f ≡ entry k v es) here
            (ap (λ x. entry k x es) (constant w)))
    | inr p ↦ elim (Option-cases (key_index m es key)) [
      | inl none_there ↦ absurd (some-ne-none (sym (rw (p, none_there) at e)))
      | inr (j, q) ↦
          let later : suc j ≡ i = some-injective (rw (p, q) at e) in
          rw p (
            subst (λ x. change_value (entry k w es) x f ≡ entry k w (assign m es key v)) later
              (ap (entry k w) (changed es j q)))
    ]
  ]

  -- An entry that is missing comes behind the others.
  appended :
      (es : Entries)
      → key_index m es key ≡ none
      → append_entries es (entry (string key) v end) ≡ assign m es key v
  unfolding key_index assign
  appended end e = refl
  appended (entry k w es) e = elim (Bool-cases (same_key (key_view m k) key)) [
    | inl p ↦ absurd (some-ne-none (rw p at e))
    | inr p ↦ elim (Option-cases (key_index m es key)) [
      | inl q ↦ rw p (ap (entry k w) (appended es q))
      | inr (j, q) ↦ absurd (some-ne-none (rw (p, q) at e))
    ]
  ]

  pub set_entry-assign : (es : Entries) → set_entry m es key f ≡ done (assign m es key v)
  unfolding set_entry add_key format_as_dictionary
  set_entry-assign es = elim (Option-cases (key_index m es key)) [
    | inl e ↦
        rw
          (
            set_entry,
            e,
            add_key,
            resize-append es,
            set_key-last es null null key,
            change_value-last es (string key) null f,
            constant null,
          )
          (ap done (appended es e))
    | inr (i, e) ↦ rw (set_entry, e) (ap done (changed es i e))
  ]

same_key-parts :
    (xs ys : List ℕ)
    → (same_key xs ys ≡ true) ↔ ((length xs ≡ length ys) × (c_string xs ≡ c_string ys))
unfolding c_string same_text
same_key-parts xs ys = ground (arith, same_text_iff (c_string xs) (c_string ys))

same_key_refl : (xs : List ℕ) → same_key xs xs ≡ true
same_key_refl xs = (same_key-parts xs xs).1 (refl, refl)

-- Two texts that are like a third are alike.
same_key_trans :
    (xs ys zs : List ℕ) → same_key xs ys ≡ true → same_key xs zs ≡ true → same_key ys zs ≡ true
same_key_trans xs ys zs e f =
    let (m, p) = (same_key-parts xs ys).0 e in
    let (n, q) = (same_key-parts xs zs).0 f in (same_key-parts ys zs).1 (sym m ∙ n, sym p ∙ q)

module _ (m : Memory) (key : List ℕ) (v : Value) where
  pub assign-found : (es : Entries) → value_by_key m (assign m es key v) key ≡ some v
  unfolding assign value_by_key
  assign-found end = rw (same_key_refl key) refl
  assign-found (entry k w es) = elim (Bool-cases (same_key (key_view m k) key)) [
    | inl p ↦ rw (p, p) refl
    | inr p ↦ rw (p, p) (assign-found es)
  ]

  pub assign-others :
      (es : Entries) (other : List ℕ)
      → same_key key other ≡ false
      → value_by_key m (assign m es key v) other ≡ value_by_key m es other
  unfolding assign value_by_key
  assign-others end other d = rw d refl
  assign-others (entry k w es) other d = elim (Bool-cases (same_key (key_view m k) key)) [
    | inl p ↦ elim (Bool-cases (same_key (key_view m k) other)) [
      | inl q ↦
          let same = same_key_trans (key_view m k) key other p q in
          absurd (false-ne-true (sym d ∙ same))
      | inr q ↦ rw (p, q) refl
    ]
    | inr p ↦ rw (p, assign-others es other d) refl
  ]

module _ (m : Memory) (key : List ℕ) where
  absent : (es : Entries) → key_index m es key ≡ none → value_by_key m es key ≡ none
  unfolding key_index value_by_key
  absent end e = refl
  absent (entry k w es) e = elim (Bool-cases (same_key (key_view m k) key)) [
    | inl p ↦ absurd (some-ne-none (rw p at e))
    | inr p ↦ elim (Option-cases (key_index m es key)) [
      | inl q ↦ rw p (absent es q)
      | inr (j, q) ↦ absurd (some-ne-none (rw (p, q) at e))
    ]
  ]

  no_index : (es : Entries) → value_by_key m es key ≡ none → key_index m es key ≡ none
  unfolding key_index value_by_key
  no_index end e = refl
  no_index (entry k w es) e = elim (Bool-cases (same_key (key_view m k) key)) [
    | inl p ↦ absurd (some-ne-none (rw p at e))
    | inr p ↦ rw (p, no_index es (rw p at e)) refl
  ]

  -- Where nothing is found, nothing is written.
  pub clear_entry-none :
      (es : Entries) (f : Value → Value)
      → value_by_key m es key ≡ none
      → clear_entry m es key f ≡ es
  unfolding clear_entry
  clear_entry-none es f h = rw (clear_entry, no_index es h) refl

  module _ (v : Value) (f : Value → Value) (constant : (w : Value) → f w ≡ v) where
    -- A value that is there is written over.
    pub clear_entry-found :
        (es : Entries) (x : Value)
        → value_by_key m es key ≡ some x
        → value_by_key m (clear_entry m es key f) key ≡ some v
    unfolding clear_entry
    clear_entry-found es x h = elim (Option-cases (key_index m es key)) [
      | inl e ↦ absurd (some-ne-none (sym h ∙ absent es e))
      | inr (i, e) ↦
          rw (clear_entry, e, changed m key v f constant es i e) (assign-found m key v es)
    ]

    pub clear_entry-others :
        (es : Entries) (other : List ℕ)
        → same_key key other ≡ false
        → value_by_key m (clear_entry m es key f) other ≡ value_by_key m es other
    unfolding clear_entry
    clear_entry-others es other d = elim (Option-cases (key_index m es key)) [
      | inl e ↦ rw (clear_entry, e) refl
      | inr (i, e) ↦
          rw (clear_entry, e, changed m key v f constant es i e) (assign-others m key v es other d)
    ]
