-- ===== src/ProtocolV1/Requests.antt =====
-- v1.c: the requests, from their parameters to the transmission buffer.
use seabolt.Prelude.{
  ℕ, zero, suc, ◌-◌, ◌^◌, Bool, true, false, Option, none, some, List, [], ◌∷◌, length, leb, ◌==◌,
  ◌&&◌, if◌then◌else◌,
}
use seabolt.Prelude.Int.{ℤ, pos, negsuc}
use seabolt.Error
use seabolt.Values.{
  Value, Values, Entries, string, list, dictionary, nil, cons, end, entry, format_as_string,
  format_as_dictionary, copy,
}
use seabolt.Protocol.{Message, message_param}
use seabolt.Connection.{Outcome, done, fault, ◌>>=◌}
use seabolt.ProtocolV1.Session.{V1State, Session, set_param, load_message}

abbrev pub int32_max : ℕ
int32_max = 2 ^ 31 - 1

-- "bookmarks"
abbrev pub bookmarks_key : List ℕ
bookmarks_key = 98 ∷ 111 ∷ 111 ∷ 107 ∷ 109 ∷ 97 ∷ 114 ∷ 107 ∷ 115 ∷ []

-- The loop over the elements of the bookmark list.
unfoldable pub all_strings : Values → Bool
all_strings nil = true
all_strings (cons (string xs) vs) = leb (length xs) int32_max && all_strings vs
all_strings (cons _ vs) = false

-- The parameters with the bookmarks in their first entry, which is made if there is none.
unfoldable pub with_bookmarks : Value → Value → Outcome Value
unfolding format_as_dictionary format_as_string
with_bookmarks (dictionary end) bookmarks = elim (format_as_dictionary (dictionary end) 1) [
  | end ↦ fault
  | entry k v es ↦
      done (dictionary (entry (format_as_string k bookmarks_key) (copy v bookmarks) es))
]
with_bookmarks (dictionary (entry k v es)) bookmarks =
    done (dictionary (entry k (copy v bookmarks) es))
with_bookmarks _ bookmarks = fault

-- The entry at an index gets the key `name`. Past the end, the C code writes to memory that is not
-- the dictionary's.
unfoldable pub set_key : Entries → ℕ → List ℕ → Option (Value × Entries)
unfolding format_as_string
set_key end i name = none
set_key (entry k v es) zero name = some (v, entry (format_as_string k name) v es)
set_key (entry k v es) (suc i) name = elim (set_key es i name) [
  | none ↦ none
  | some (found, rest) ↦ some (found, entry k v rest)
]

-- `params`, the second parameter of a request; `create_run_message` gives each request two.
abbrev pub params_of : Message → Value
params_of m = elim (message_param m 1) [ none ↦ dictionary end | some v ↦ v ]

module _ {ℓ} {S : Type ℓ} where
  abbrev pub set_state : Session S → V1State → Session S
  set_state c s = record c { state = s }

  -- The `TRY` of v1.c.
  abbrev pub try :
      Outcome (ℕ × Session S) → (Session S → Outcome (ℕ × Session S)) → Outcome (ℕ × Session S)
  try r k = r >>= λ (code, c). elim (code == Error.success) [ true ↦ k c | false ↦ done (code, c) ]

  abbrev pub succeed : Session S → Outcome (ℕ × Session S)
  succeed c = done (Error.success, c)

  unfoldable pub clear_load_run_request : Session S → ℕ × Session S
  unfolding format_as_string format_as_dictionary
  clear_load_run_request c =
      let m = set_param c.state.run_request 0 (λ v. format_as_string v []) in
      let n = set_param m 1 (λ v. dictionary (format_as_dictionary v 0)) in
      (Error.success, set_state c (record c.state { run_request = n }))

  unfoldable pub set_run_cypher : Session S → List ℕ → ℕ → ℕ × Session S
  unfolding format_as_string format_as_dictionary
  set_run_cypher c cypher n =
      let m = set_param c.state.run_request 0 (λ v. format_as_string v cypher) in
      let r = set_param m 1 (λ v. dictionary (format_as_dictionary v n)) in
      if leb (length cypher) int32_max
      then (Error.success, set_state c (record c.state { run_request = r }))
      else (Error.protocol_violation, c)

  -- The value behind the pointer that is returned, and the session.
  unfoldable pub set_run_cypher_parameter : Session S → ℕ → List ℕ → Outcome (Value × Session S)
  unfolding set_key message_param
  set_run_cypher_parameter c i name = elim (params_of c.state.run_request) [
    | dictionary es ↦ elim (set_key es i name) [
      | none ↦ fault
      | some (v, rest) ↦
          let m = set_param c.state.run_request 1 (λ old. dictionary rest) in
          done (v, set_state c (record c.state { run_request = m }))
    ]
    | _ ↦ fault
  ]

  unfoldable pub clear_load_begin_tx_request : Session S → ℕ × Session S
  unfolding format_as_dictionary
  clear_load_begin_tx_request c =
      let m = set_param c.state.begin_request 1 (λ v. dictionary (format_as_dictionary v 0)) in
      (Error.success, set_state c (record c.state { begin_request = m }))

  abbrev begin_with : Session S → Value → Outcome (ℕ × Session S)
  begin_with c params =
      let m = set_param c.state.begin_request 1 (λ old. params) in
      done (Error.success, set_state c (record c.state { begin_request = m }))

  -- `none` is NULL.
  unfoldable pub set_begin_tx_bookmark : Session S → Option Value → Outcome (ℕ × Session S)
  unfolding all_strings with_bookmarks format_as_dictionary message_param
  set_begin_tx_bookmark c none =
      begin_with c (dictionary (format_as_dictionary (params_of c.state.begin_request) 0))
  set_begin_tx_bookmark c (some (list xs)) =
      let set = with_bookmarks (params_of c.state.begin_request) (list xs) >>= begin_with c in
      if all_strings xs then set else done (Error.protocol_violation, c)
  set_begin_tx_bookmark c (some _) = done (Error.protocol_violation, c)

  unfoldable pub clear_failure_data : Session S → Session S
  clear_failure_data c = set_state c (record c.state { failure_data = none })

  -- `check` is the protocol's `check_writable_struct`.
  module _ (check : ℤ → Bool) where
    unfoldable pub load_discard_request : Session S → ℤ → Outcome (ℕ × Session S)
    load_discard_request c (pos n) = done (Error.protocol_violation, c)
    load_discard_request c (negsuc n) = try (load_message check c c.state.discard_request) succeed

    unfoldable pub load_pull_request : Session S → ℤ → Outcome (ℕ × Session S)
    load_pull_request c (pos n) = done (Error.protocol_violation, c)
    load_pull_request c (negsuc n) = try (load_message check c c.state.pull_request) succeed

    unfoldable pub load_reset_request : Session S → Outcome (ℕ × Session S)
    unfolding clear_failure_data
    load_reset_request c =
        try (load_message check c c.state.reset_request) (λ d. succeed (clear_failure_data d))

    unfoldable pub load_run_request : Session S → Outcome (ℕ × Session S)
    load_run_request c = try (load_message check c c.state.run_request) succeed

    -- The requests that are followed by the discard of their result.
    unfoldable pub load_begin_request : Session S → Outcome (ℕ × Session S)
    load_begin_request c =
        try (load_message check c c.state.begin_request)
          λ d. try (load_message check d d.state.discard_request) succeed

    unfoldable pub load_commit_request : Session S → Outcome (ℕ × Session S)
    load_commit_request c =
        try (load_message check c c.state.commit_request)
          λ d. try (load_message check d d.state.discard_request) succeed

    unfoldable pub load_rollback_request : Session S → Outcome (ℕ × Session S)
    load_rollback_request c =
        try (load_message check c c.state.rollback_request)
          λ d. try (load_message check d d.state.discard_request) succeed
