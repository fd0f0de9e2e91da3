-- ===== src/Fields/Lifetime.antt =====
-- newFldList and freeFldList (src/dbsql.cpp): what becomes of the arrays that the values own.
use dbsqlapi.Prelude.{
  ℕ, zero, suc, ◌<◌, ◌≤◌, ◌≡◌, refl, ◌∙◌, ◌⊎◌, inl, inr, Bool, true, false, ◌&&◌, ◌||◌, none, [],
  ◌∷◌, arith, ◌==◌, ltb, replicate, Bool-cases,
}
use dbsqlapi.Heap.{Ptr, Heap, ok}
use dbsqlapi.Value.{Value, is_buffered, destroy}
use dbsqlapi.Value.Arrays.{Chars}
use dbsqlapi.Value.Owned.{Ready, owns, released, free_buffer-released}
use dbsqlapi.Errors.{returns, throws, max_field_num}
use dbsqlapi.Fields.{
  Field, FieldList, fresh_field, maxitems, destroy_all, free_fld_list, new_fld_list,
}

-- Whether one of the fields owns the array at `a`.
abbrev pub held : Ptr → FieldList → Bool
held a [] = false
held a (f ∷ fs) = (owns f.value && a == f.value.word) || held a fs

-- Each field owns a live array of its own, or none.
abbrev pub Settled : Heap Chars → FieldList → Type 0
Settled h [] = Unit {0}
Settled h (f ∷ fs) =
    Ready h f.value × (owns f.value ≡ true → held f.value.word fs ≡ false) × Settled h fs

-- The arrays of the fields are deleted, and no other.
pub record Destroyed (fs : FieldList) (h g : Heap Chars) : Type 0 where
  pub gone : (a : Ptr) → held a fs ≡ true → g.cell a ≡ none
  pub same : (a : Ptr) → held a fs ≡ false → g.cell a ≡ h.cell a
  pub next : g.next ≡ h.next

destroy-released : (h : Heap Chars) (v : Value) → Ready h v → destroy v h ≡ ok tt (released h v)
unfolding destroy
destroy-released h v ready = rw (free_buffer-released h v ready)

-- The array at an address, if its value owns it, is as it was in a heap that has not changed there.
Ready-same :
    (h g : Heap Chars) (v : Value)
    → (owns v ≡ true → g.cell v.word ≡ h.cell v.word)
    → g.next ≡ h.next
    → Ready h v
    → Ready g v
Ready-same h g v same n (inl no_buffer) = inl no_buffer
Ready-same h g v same n (inr (inl none_there)) = inr (inl none_there)
Ready-same h g v same n (inr (inr (cs, ne, at, lt))) = elim (Bool-cases (is_buffered v.data_type)) [
  | inl b ↦ let o : owns v ≡ true = ground arith in inr (inr (cs, ne, same o ∙ at, rw n lt))
  | inr b ↦ inl b
]

-- What deleting one more field adds.
Destroyed-cons :
    (f : Field) (fs : FieldList) (h g : Heap Chars)
    → Destroyed fs h g
    → Destroyed (f ∷ fs) h (released g f.value)
Destroyed-cons f fs h g d = elim (Bool-cases (owns f.value)) [
  | inl o ↦ record {
    gone = λ a i. rw o (elim (Bool-cases (a == f.value.word)) [
      | inl hit ↦ ground arith
      | inr miss ↦ ground (arith, d.gone a)
    ]);
    same = λ a out. rw o (ground (arith, d.same a));
    next = d.next;
  }
  | inr o ↦ record {
    gone = λ a i. rw o (d.gone a (ground arith));
    same = λ a out. rw o (d.same a (ground arith));
    next = d.next;
  }
]

destroy_all-Destroyed :
    (h : Heap Chars) (fs : FieldList)
    → Settled h fs
    → (g : Heap Chars) × (destroy_all fs h ≡ ok tt g) × Destroyed fs h g
unfolding destroy_all
destroy_all-Destroyed h [] s =
    (h, refl, record { gone = λ a i. cc; same = λ a o. refl; next = refl })
destroy_all-Destroyed h (f ∷ fs) s =
    let (g, done, d) = destroy_all-Destroyed h fs s.2 in
    let ready : Ready g f.value =
      Ready-same h g f.value (λ o. d.same f.value.word (s.1 o)) d.next s.0 in
    (released g f.value, rw done (destroy-released g f.value ready), Destroyed-cons f fs h g d)

-- For a number of fields outside 1 to 150 `newFldList` throws exception 3 and changes nothing.
pub new_fld_list_range :
    (h : Heap Chars) (fs : FieldList) (n : ℕ)
    → (n < 1) ⊎ (maxitems < n)
    → new_fld_list fs n h ≡ ok (throws max_field_num) h
unfolding new_fld_list
new_fld_list_range h fs n out =
    let test : (ltb maxitems n || ltb n 1) ≡ true = ground arith in rw test

-- Where each old field owns a live array of its own or none, and for a number of fields from 1 to
-- 150, `newFldList` deletes the arrays of the old fields, each once, touches no other array, and
-- makes that many fresh fields.
pub new_fld_list-fresh :
    (h : Heap Chars) (fs : FieldList) (n : ℕ)
    → Settled h fs
    → 0 < n
    → n ≤ maxitems
    → (g : Heap Chars) × (new_fld_list fs n h ≡ ok (returns (replicate n fresh_field)) g)
      × Destroyed fs h g
      × Settled g (replicate n fresh_field)
unfolding new_fld_list free_fld_list
new_fld_list-fresh h fs n s lo hi =
    let test : (ltb maxitems n || ltb n 1) ≡ false = ground arith in
    let (g, done, d) = destroy_all-Destroyed h fs s in (g, rw (test, done), d, fresh-Settled g n)
  where
    fresh-Settled : (g : Heap Chars) (k : ℕ) → Settled g (replicate k fresh_field)
    fresh-Settled g zero = tt
    fresh-Settled g (suc k) = (inr (inl refl), λ o. cc, fresh-Settled g k)
