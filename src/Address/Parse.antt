-- ===== src/Address/Parse.antt =====
-- `create_from_string` reads back what is written as host, colon, port.
use seabolt.Prelude.{ℕ, ◌≡◌, ◌≢◌, refl, ap₂, List, [], ◌∷◌, ◌++◌, none, some, All, ◌↔◌, true, arith}
use seabolt.Address.{
  default_host, default_port, or_default, Address, create, c_string, split_last, create_from_string,
  colon, same_text,
}

-- No NUL, and no colon.
abbrev pub IsText : List ℕ → Type 0
IsText xs = All (λ c. c ≢ 0) xs

abbrev pub IsPlain : List ℕ → Type 0
IsPlain xs = All (λ c. c ≢ colon) xs

pub record IsNamed (a : Address) : Type 0 where
  pub has_host : a.host ≢ []
  pub has_port : a.port ≢ []

or_default_keep : (d xs : List ℕ) → xs ≢ [] → or_default d xs ≡ xs
or_default_keep d [] h = absurd (h refl)
or_default_keep d (c ∷ cs) h = refl

or_default_given : (c : ℕ) (d xs : List ℕ) → or_default (c ∷ d) xs ≢ []
or_default_given c d [] = ground arith
or_default_given c d (x ∷ xs) = ground arith

pub create-IsNamed : (host port : List ℕ) → IsNamed (create host port)
unfolding create
create-IsNamed host port = record {
  has_host = or_default_given 108 _ host;
  has_port = or_default_given 55 _ port;
}

pub create_copy : (a : Address) → IsNamed a → create a.host a.port ≡ a
unfolding create
create_copy a h =
    ap₂ (λ x y. record { host = x; port = y }) (or_default_keep default_host a.host h.has_host)
      (or_default_keep default_port a.port h.has_port)

c_string_lem : (xs : List ℕ) → IsText xs → c_string xs ≡ xs
unfolding c_string
c_string_lem [] h = refl
c_string_lem (c ∷ cs) h = ground (arith, c_string_lem cs h.1)

split_last-plain : (xs : List ℕ) → IsPlain xs → split_last xs ≡ none
unfolding split_last
split_last-plain [] h = refl
split_last-plain (c ∷ cs) h = rw (split_last-plain cs h.1) (ground arith)

split_last_lem : (xs ys : List ℕ) → IsPlain ys → split_last (xs ++ (colon ∷ ys)) ≡ some (xs, ys)
unfolding split_last
split_last_lem [] ys h = rw (split_last-plain ys h) refl
split_last_lem (x ∷ xs) ys h = rw (split_last_lem xs ys h) refl

append-IsText : (xs ys : List ℕ) → IsText xs → IsText ys → IsText (xs ++ (colon ∷ ys))
append-IsText [] ys h k = (omega arith, k)
append-IsText (x ∷ xs) ys h k = (h.0, append-IsText xs ys h.1 k)

pub same_text_iff : (xs ys : List ℕ) → (same_text xs ys ≡ true) ↔ (xs ≡ ys)
unfolding same_text
same_text_iff [] [] = ground arith
same_text_iff [] (y ∷ ys) = ground arith
same_text_iff (x ∷ xs) [] = ground arith
same_text_iff (x ∷ xs) (y ∷ ys) = ground (arith, same_text_iff xs ys)

-- Reading the text of a host, a colon and a port gives the address of that host and that port, where
-- neither text holds a NUL or is empty and the port holds no colon. The host may hold colons.
pub create_from_string-print :
    (a : Address)
    → IsNamed a
    → IsText a.host
    → IsText a.port
    → IsPlain a.port
    → create_from_string (a.host ++ (colon ∷ a.port)) ≡ a
unfolding create_from_string
create_from_string-print a n h k p =
    rw
      (
        create_from_string,
        c_string_lem (a.host ++ (colon ∷ a.port)) (append-IsText a.host a.port h k),
        split_last_lem a.host a.port p,
      )
      (create_copy a n)
