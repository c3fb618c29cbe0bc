-- ===== src/AddressSet.antt =====
-- src/seabolt/src/bolt/address-set.c: a set of addresses, kept as an array in the order of addition.
-- The array's length is the field `size`. -1 is `none`.
pub mod Members
pub mod Reach
use seabolt.Prelude.{
  ℕ, zero, suc, ◌&&◌, Bool, Option, none, some, List, [], ◌∷◌, ◌++◌, map, length, if◌then◌else◌,
}
use seabolt.Address
use seabolt.Address.{Address, same_text}

abbrev pub AddressSet : Type 0
AddressSet = List Address

abbrev pub create : AddressSet
create = []

abbrev pub size : AddressSet → ℕ
size s = length s

-- An index into the tail, seen from the whole array.
abbrev pub later : Option ℕ → Option ℕ
later none = none
later (some i) = some (suc i)

-- The test in the loop of `index_of`.
unfoldable pub same : Address → Address → Bool
unfolding same_text
same a b = same_text a.host b.host && same_text a.port b.port

unfoldable pub index_of : AddressSet → Address → Option ℕ
unfolding same
index_of [] a = none
index_of (x ∷ xs) a = let rest = index_of xs a in if same a x then some 0 else later rest

-- `BoltAddress_create(a->host, a->port)`.
unfoldable pub copy : Address → Address
unfolding Address.create
copy a = Address.create a.host a.port

unfoldable pub add : AddressSet → Address → Option ℕ × AddressSet
unfolding index_of copy
add s a = elim (index_of s a) [ none ↦ (some (size s), s ++ (copy a ∷ [])) | some i ↦ (none, s) ]

-- The loop that copies all elements but the one at `index`.
unfoldable pub without : ℕ → AddressSet → AddressSet
without i [] = []
without zero (x ∷ xs) = xs
without (suc i) (x ∷ xs) = x ∷ without i xs

unfoldable pub remove : AddressSet → Address → Option ℕ × AddressSet
unfolding index_of without
remove s a = elim (index_of s a) [ none ↦ (none, s) | some i ↦ (some i, without i s) ]

-- What `dest` holds afterwards; what it held is destroyed.
unfoldable pub replace : AddressSet → AddressSet → AddressSet
unfolding copy
replace dest source = map copy source

unfoldable pub add_all : AddressSet → AddressSet → AddressSet
unfolding add
add_all s [] = s
add_all s (a ∷ others) = add_all (add s a).1 others
