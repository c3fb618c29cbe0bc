-- ===== src/AddressSet/Reach.antt =====
-- The sets that the operations reach hold no address twice.
use seabolt.Prelude.{
  ◌≡◌, refl, ap₂, sym, subst, ◌↔◌, ◌⊎◌, inl, inr, [], ◌∷◌, ◌++◌, Option-cases, All,
}
use mathlib.Core.List.{Memᴰ}
use mathlib.Core.List.Memᴰ.{head, tail, append_cases, cases_cons}
use seabolt.Address.{Address}
use seabolt.Address.Parse.{IsNamed}
use seabolt.AddressSet.{AddressSet, create, index_of, add, remove, replace, add_all}
use seabolt.AddressSet.Members.{
  IsDistinct, IsValid, index_of-Searched, copy_named, add_members, without-IsDistinct,
  without-IsNamed,
}

append-IsDistinct :
    (s : AddressSet) (a : Address) → ¬ Memᴰ a s → IsDistinct s → IsDistinct (s ++ (a ∷ []))
append-IsDistinct [] a n d = ((λ m. elim m [ ]), tt)
append-IsDistinct (x ∷ s) a n d = (
  (λ m. elim (append_cases s m) [
    | inl k ↦ d.0 k
    | inr k ↦ elim (cases_cons k) [ inl e ↦ n (head (sym e)) | inr l ↦ elim l [ ] ]
  ]),
  append-IsDistinct s a (λ m. n (tail m)) d.1,
)

append-IsNamed :
    (s : AddressSet) (a : Address) → All IsNamed s → IsNamed a → All IsNamed (s ++ (a ∷ []))
append-IsNamed [] a n h = (h, tt)
append-IsNamed (x ∷ s) a n h = (n.0, append-IsNamed s a n.1 h)

pub add-IsValid : {s : AddressSet} (a : Address) → IsNamed a → IsValid s → IsValid (add s a).1
unfolding add
add-IsValid {s} a h v = elim (Option-cases (index_of s a)) [
  | inl absent ↦
      rw (add, absent, copy_named h)
        record {
          distinct = append-IsDistinct s a (rw absent at (index_of-Searched s a)) v.distinct;
          named = append-IsNamed s a v.named h;
        }
  | inr (i, present) ↦ rw (add, present) v
]

pub remove-IsValid : {s : AddressSet} (a : Address) → IsValid s → IsValid (remove s a).1
unfolding remove
remove-IsValid {s} a v = elim (Option-cases (index_of s a)) [
  | inl absent ↦ rw (remove, absent) v
  | inr (i, present) ↦
      rw (remove, present)
        record { distinct = without-IsDistinct i s v.distinct; named = without-IsNamed i s v.named }
]

-- A valid source is copied as it is.
pub replace_lem : (dest source : AddressSet) → All IsNamed source → replace dest source ≡ source
unfolding replace
replace_lem dest [] n = refl
replace_lem dest (x ∷ source) n = ap₂ ◌∷◌ (copy_named n.0) (replace_lem dest source n.1)

pub add_all-IsValid :
    {s : AddressSet} (others : AddressSet)
    → All IsNamed others
    → IsValid s
    → IsValid (add_all s others)
unfolding add_all
add_all-IsValid [] n v = v
add_all-IsValid {s = s} (a ∷ others) n v =
    add_all-IsValid {s = (add s a).1} others n.1 (add-IsValid a n.0 v)

-- `add_all` makes a union: an address is in the result if and only if it is in one of the two sets.
pub add_all_members :
    (s others : AddressSet)
    → All IsNamed others
    → (x : Address) → Memᴰ x (add_all s others) ↔ (Memᴰ x s ⊎ Memᴰ x others)
unfolding add_all
add_all_members s [] n x = ((λ m. inl m), λ r. elim r [ inl m ↦ m | inr m ↦ elim m [ ] ])
add_all_members s (a ∷ others) n x =
    let (f, g) = add_all_members (add s a).1 others n.1 x in
    let (f', g') = add_members s a n.0 x in
    (
      (λ m. elim (f m) [
        | inl k ↦ elim (f' k) [ inl l ↦ inl l | inr e ↦ inr (head e) ]
        | inr k ↦ inr (tail k)
      ]),
      λ r. elim r [
        | inl k ↦ g (inl (g' (inl k)))
        | inr k ↦ elim (cases_cons k) [ inl e ↦ g (inl (g' (inr e))) | inr l ↦ g (inr l) ]
      ],
    )

-- The sets that a run of the operations can build, from addresses that have a host and a port.
pub data Reachable : AddressSet → Type 0 where
  created : Reachable create
  added : {s : AddressSet} (a : Address) → IsNamed a → Reachable s → Reachable (add s a).1
  removed : {s : AddressSet} (a : Address) → Reachable s → Reachable (remove s a).1
  replaced : {s t : AddressSet} → Reachable s → Reachable t → Reachable (replace s t)
  joined : {s t : AddressSet} → Reachable s → Reachable t → Reachable (add_all s t)

-- No set that the operations build, from addresses with a host and a port, holds an address twice or
-- an address without a host or a port.
pub Reachable-IsValid : (s : AddressSet) → Reachable s → IsValid s
Reachable-IsValid s created = record { distinct = tt; named = tt }
Reachable-IsValid s (added a h r) = add-IsValid a h (Reachable-IsValid _ r)
Reachable-IsValid s (removed a r) = remove-IsValid a (Reachable-IsValid _ r)
Reachable-IsValid s (replaced {s = dest} {t = source} r q) =
    let v = Reachable-IsValid source q in subst IsValid (sym (replace_lem dest source v.named)) v
Reachable-IsValid s (joined r q) =
    add_all-IsValid _ (Reachable-IsValid _ q).named (Reachable-IsValid _ r)
