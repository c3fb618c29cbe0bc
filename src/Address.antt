-- ===== src/Address.antt =====
-- src/seabolt/src/bolt/address.c: addresses by host and port, without the resolved socket addresses
-- and the lock. A C string is the list of its bytes before the NUL.
pub mod Parse
use seabolt.Prelude.{
  ℕ, Bool, true, false, ◌&&◌, Option, none, some, List, [], ◌∷◌, ◌==◌, if◌then◌else◌,
}

-- `struct BoltAddress`.
pub record Address : Type 0 where
  pub host : List ℕ
  pub port : List ℕ

-- `DEFAULT_BOLT_HOST`, "localhost", and `DEFAULT_BOLT_PORT`, "7687".
abbrev pub default_host : List ℕ
default_host = 108 ∷ 111 ∷ 99 ∷ 97 ∷ 108 ∷ 104 ∷ 111 ∷ 115 ∷ 116 ∷ []

abbrev pub default_port : List ℕ
default_port = 55 ∷ 54 ∷ 56 ∷ 55 ∷ []

abbrev pub or_default : List ℕ → List ℕ → List ℕ
or_default default [] = default
or_default default (c ∷ cs) = c ∷ cs

-- NULL, which has the effect of the empty text, is the empty text.
unfoldable pub create : List ℕ → List ℕ → Address
create host port = record {
  host = or_default default_host host;
  port = or_default default_port port;
}

abbrev pub colon : ℕ
colon = 58

-- The bytes before the first NUL.
unfoldable pub c_string : List ℕ → List ℕ
c_string [] = []
c_string (c ∷ cs) = if c == 0 then [] else c ∷ c_string cs

-- `strrchr(s, ':')`: what stands before and behind the last colon.
unfoldable pub split_last : List ℕ → Option (List ℕ × List ℕ)
split_last [] = none
split_last (c ∷ cs) = elim (split_last cs) [
  | some (before, behind) ↦ some (c ∷ before, behind)
  | none ↦ if c == colon then some ([], cs) else none
]

unfoldable pub create_from_string : List ℕ → Address
unfolding split_last c_string create
create_from_string endpoint = elim (split_last (c_string endpoint)) [
  | some (host, port) ↦ create host port
  | none ↦ create (c_string endpoint) []
]

-- `strcmp(s, t) == 0`.
unfoldable pub same_text : List ℕ → List ℕ → Bool
same_text [] [] = true
same_text [] (d ∷ ds) = false
same_text (c ∷ cs) [] = false
same_text (c ∷ cs) (d ∷ ds) = (c == d) && same_text cs ds
