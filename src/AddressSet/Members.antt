-- ===== src/AddressSet/Members.antt =====
-- What an address set holds after each operation, and where.
use seabolt.Prelude.{
  ℕ, zero, suc, ◌≡◌, ◌≢◌, refl, ap, sym, ◌∙◌, subst, ◌↔◌, ◌⊎◌, inl, inr, true, Bool-cases, [], ◌∷◌,
  ◌++◌, Option, none, some, Option-cases, All, get_elem?, length, arith,
}
use mathlib.Core.List.{Memᴰ}
use mathlib.Core.List.Memᴰ.{head, tail, append_left, append_right, append_cases, cases_cons}
use seabolt.Address.{Address}
use seabolt.Address.Parse.{IsNamed, create_copy, same_text_iff}
use seabolt.AddressSet.{AddressSet, later, same, index_of, copy, add, without, remove}

-- No address stands twice.
abbrev pub IsDistinct : AddressSet → Type 0
IsDistinct [] = Unit
IsDistinct (x ∷ xs) = ¬ Memᴰ x xs × IsDistinct xs

-- Host and port are never empty in a set, since `copy` fills them.
pub record IsValid (s : AddressSet) : Type 0 where
  pub distinct : IsDistinct s
  pub named : All IsNamed s

pub same_iff : (a b : Address) → (same a b ≡ true) ↔ (a ≡ b)
unfolding same
same_iff a b = ground (arith, same_text_iff a.host b.host, same_text_iff a.port b.port)

-- What the search returns says whether the address is there, and where.
abbrev Searched : AddressSet → Address → Option ℕ → Type 0
Searched s a none = ¬ Memᴰ a s
Searched s a (some i) = (get_elem? s i ≡ some a) × Memᴰ a s

later-Searched :
    (x : Address) (s : AddressSet) (a : Address)
    → a ≢ x
    → (r : Option ℕ) → Searched s a r
    → Searched (x ∷ s) a (later r)
later-Searched x s a d none m = λ n. elim (cases_cons n) [ inl e ↦ d e | inr k ↦ m k ]
later-Searched x s a d (some i) (e, m) = (e, tail m)

pub index_of-Searched : (s : AddressSet) (a : Address) → Searched s a (index_of s a)
unfolding index_of
index_of-Searched [] a = λ m. elim m [ ]
index_of-Searched (x ∷ xs) a = elim (Bool-cases (same a x)) [
  | inl found ↦ let e = (same_iff a x).0 found in rw found (ap some (sym e), head e)
  | inr other ↦ rw other (
      later-Searched x xs a (λ e. ground (arith, (same_iff a x).1 e)) (index_of xs a)
        (index_of-Searched xs a))
]

pub copy_named : {a : Address} → IsNamed a → copy a ≡ a
unfolding copy
copy_named {a} h = create_copy a h

pub get_last : (s : AddressSet) (a : Address) → get_elem? (s ++ (a ∷ [])) (length s) ≡ some a
get_last [] a = refl
get_last (x ∷ s) a = get_last s a

append_members : (s : AddressSet) (a x : Address) → Memᴰ x (s ++ (a ∷ [])) ↔ (Memᴰ x s ⊎ (x ≡ a))
append_members s a x = (
  (λ m. elim (append_cases s m) [
    | inl k ↦ inl k
    | inr k ↦ elim (cases_cons k) [ inl e ↦ inr e | inr n ↦ elim n [ ] ]
  ]),
  λ r. elim r [ inl k ↦ append_left (a ∷ []) k | inr e ↦ append_right s (head e) ],
)

there_members : (s : AddressSet) (a x : Address) → Memᴰ a s → Memᴰ x s ↔ (Memᴰ x s ⊎ (x ≡ a))
there_members s a x m =
    ((λ k. inl k), λ r. elim r [ inl k ↦ k | inr e ↦ subst (λ y. Memᴰ y s) (sym e) m ])

-- Adding an address that has a host and a port makes it a member and changes no other membership.
pub add_members :
    (s : AddressSet) (a : Address)
    → IsNamed a
    → (x : Address) → Memᴰ x (add s a).1 ↔ (Memᴰ x s ⊎ (x ≡ a))
unfolding add
add_members s a h x = elim (Option-cases (index_of s a)) [
  | inl absent ↦ rw (add, absent, copy_named h) (append_members s a x)
  | inr (i, present) ↦
      rw (add, present) (there_members s a x (rw present at (index_of-Searched s a)).1)
]

not-Mem_without : (i : ℕ) (s : AddressSet) (x : Address) → ¬ Memᴰ x s → ¬ Memᴰ x (without i s)
unfolding without
not-Mem_without i [] x n = n
not-Mem_without zero (y ∷ s) x n = λ m. n (tail m)
not-Mem_without (suc i) (y ∷ s) x n = λ m. elim (cases_cons m) [
  | inl e ↦ n (head e)
  | inr k ↦ not-Mem_without i s x (λ l. n (tail l)) k
]

pub without-IsDistinct : (i : ℕ) (s : AddressSet) → IsDistinct s → IsDistinct (without i s)
unfolding without
without-IsDistinct i [] d = tt
without-IsDistinct zero (x ∷ s) d = d.1
without-IsDistinct (suc i) (x ∷ s) d = (not-Mem_without i s x d.0, without-IsDistinct i s d.1)

pub without-IsNamed : (i : ℕ) (s : AddressSet) → All IsNamed s → All IsNamed (without i s)
unfolding without
without-IsNamed i [] n = tt
without-IsNamed zero (x ∷ s) n = n.1
without-IsNamed (suc i) (x ∷ s) n = (n.0, without-IsNamed i s n.1)

some_inj : {a b : Address} → some a ≡ some b → a ≡ b
some_inj e = ground (arith, e)

get_elem-Memᴰ : (i : ℕ) (s : AddressSet) (a : Address) → get_elem? s i ≡ some a → Memᴰ a s
get_elem-Memᴰ i [] a e = ground (arith, e)
get_elem-Memᴰ zero (y ∷ s) a e = head (sym (some_inj e))
get_elem-Memᴰ (suc i) (y ∷ s) a e = tail (get_elem-Memᴰ i s a e)

-- What is left when the element at `i`, which is `a`, is dropped.
without_members :
    (i : ℕ) (s : AddressSet) (a : Address)
    → IsDistinct s
    → get_elem? s i ≡ some a
    → (x : Address) → Memᴰ x (without i s) ↔ (Memᴰ x s × (x ≢ a))
unfolding without
without_members i [] a d e x = ground (arith, e)
without_members zero (y ∷ s) a d e x = (
  (λ m. (tail m, λ same. d.0 (subst (λ z. Memᴰ z s) (same ∙ sym (some_inj e)) m))),
  λ (m, other). elim (cases_cons m) [ inl same ↦ absurd (other (same ∙ some_inj e)) | inr k ↦ k ],
)
without_members (suc i) (y ∷ s) a d e x =
    let (keeps, gives) = without_members i s a d.1 e x in
    (
      (λ m. elim (cases_cons m) [
        | inl same ↦ (
          head same,
          λ is_a. d.0 (subst (λ z. Memᴰ z s) (sym is_a ∙ same) (get_elem-Memᴰ i s a e)),
        )
        | inr k ↦ let (there, other) = keeps k in (tail there, other)
      ]),
      λ (m, other). elim (cases_cons m) [ inl same ↦ head same | inr k ↦ tail (gives (k, other)) ],
    )

-- In a set, removing an address takes out that address and changes no other membership.
pub remove_members :
    (s : AddressSet) (a : Address)
    → IsDistinct s
    → (x : Address) → Memᴰ x (remove s a).1 ↔ (Memᴰ x s × (x ≢ a))
unfolding remove
remove_members s a d x = elim (Option-cases (index_of s a)) [
  | inl absent ↦
      rw (remove, absent)
        (
          (λ m. (m, λ e. rw absent at (index_of-Searched s a) (subst (λ z. Memᴰ z s) e m))),
          λ k. k.0,
        )
  | inr (i, present) ↦
      rw (remove, present) (without_members i s a d (rw present at (index_of-Searched s a)).0 x)
]
