-- ===== src/ProtocolV3/Greeting.antt =====
-- What the HELLO message carries, and what the log shows of it.
use seabolt.Prelude.{ℕ, suc, ◌+◌, ◌≡◌, refl, Bool, true, false, some, List, arith}
use seabolt.Values.{
  Value, Entries, null, string, dictionary, end, entry, count_entries, resize_entries,
  format_as_string, format_as_dictionary, copy_entries,
}
use seabolt.Values.Copy.{copy_lem}
use seabolt.RoutingTable.{Memory, same_key, value_by_key}
use seabolt.Connection.{done, Ends}
use seabolt.ProtocolV1.Extraction.{append_entries}
use seabolt.ProtocolV3.Hello.{
  user_agent_key, credentials_key, mask, mask_credentials, compile_hello, hello_message,
}
use seabolt.ProtocolV3.Assignment.{
  set_key-last, change_value-last, clear_entry-found, clear_entry-others,
}

-- Slots, one more than entries, take the entries and keep the last slot.
copied :
    (slots es : Entries)
    → (k : Value) × (v : Value) × (copy_entries (resize_entries slots (suc (count_entries es))) es
        ≡ append_entries es (entry k v end))
unfolding resize_entries copy_entries
copied end end = (null, null, refl)
copied (entry i j slots) end = (i, j, refl)
copied end (entry k v es) =
    let (x, y, e) = copied end es in (x, y, rw (copy_lem null k, copy_lem null v, e) refl)
copied (entry i j slots) (entry k v es) =
    let (x, y, e) = copied slots es in (x, y, rw (copy_lem i k, copy_lem j v, e) refl)

formatted :
    (params : Value) (n : ℕ)
    → (slots : Entries) × (format_as_dictionary params n ≡ resize_entries slots n)
unfolding format_as_dictionary
formatted (dictionary es) n = (es, refl)
formatted _ n = (end, refl)

-- The entries of the token, then the user agent.
abbrev pub greeting : Entries → List ℕ → Entries
greeting token user_agent =
    append_entries token (entry (string user_agent_key) (string user_agent) end)

pub compile_hello-greeting :
    (m : Memory) (params : Value) (user_agent : List ℕ) (token : Entries) (masked : Bool)
    → compile_hello m params user_agent token masked
      ≡ done (dictionary (mask_credentials m (greeting token user_agent) masked))
unfolding compile_hello format_as_string
compile_hello-greeting m params user_agent token masked =
    let n = count_entries token in
    let more : n + 1 ≡ suc n = omega arith in
    let (slots, e) = formatted params (suc n) in
    let (k, v, c) = copied slots token in
    rw
      (
        compile_hello,
        more,
        e,
        c,
        set_key-last token k v user_agent_key,
        change_value-last token (string user_agent_key) v _,
      )
      refl

-- `logged` is the parameter that the log shows, `sent` the one that is sent.
pub record Greets (m : Memory) (user_agent : List ℕ) (token : Entries) (logged sent : Value)
    : Type 0 where
  pub sent_all : sent ≡ dictionary (greeting token user_agent)
  pub shown : Entries
  pub logged_shown : logged ≡ dictionary shown
  pub hidden :
      (v : Value)
      → value_by_key m (greeting token user_agent) credentials_key ≡ some v
      → value_by_key m shown credentials_key ≡ some (string mask)
  pub others_shown :
      (key : List ℕ)
      → same_key credentials_key key ≡ false
      → value_by_key m shown key ≡ value_by_key m (greeting token user_agent) key

-- HELLO is made for the log first and then, over the same value, for the server. What is sent are the
-- entries of the token, and behind them the user agent, unmasked. In what is logged, credentials that
-- the lookup would find are the mask, and any other key finds what it finds in what is sent.
pub hello_message-Greets :
    (m : Memory) (user_agent : List ℕ) (token : Entries)
    → Ends
        (hello_message m user_agent token)
        (λ (logged, sent). Greets m user_agent token logged sent)
unfolding hello_message mask_credentials format_as_string
hello_message-Greets m user_agent token =
    let es = greeting token user_agent in
    let shown = mask_credentials m es true in
    let first = compile_hello-greeting m null user_agent token true in
    let second = compile_hello-greeting m (dictionary shown) user_agent token false in
    (
      (dictionary shown, dictionary es),
      rw (hello_message, first, second) refl,
      record {
        sent_all = refl;
        shown = shown;
        logged_shown = refl;
        hidden =
            clear_entry-found m credentials_key (string mask) (λ v. format_as_string v mask)
              (λ w. refl) es;
        others_shown =
            clear_entry-others m credentials_key (string mask) (λ v. format_as_string v mask)
              (λ w. refl) es;
      },
    )
