-- ===== src/Mysql/CursorList/Rewire.antt =====
-- The memory after two writes and a delete around a node of a mysql_cursorList of src/mysqlapi.h.
use dbsqlapi.Prelude.{
  ◌≡◌, ◌≢◌, sym, ap, ◌∙◌, ◌⊎◌, inl, inr, true, false, Option, none, some, arith, ◌==◌, Bool-cases,
}
use dbsqlapi.Heap.{Ptr, null}
use dbsqlapi.Mysql.CursorList.{ListNode}
use dbsqlapi.Mysql.CursorList.Links.{unlinked, relinked_gone, relinked_other}

-- The node before gets the new `next`, or there is none; the same for the node after.
abbrev BeforeSet : {D : Type 0} → (c e : Ptr → Option (ListNode D)) → Ptr → Ptr → Type 0
BeforeSet {D} c e b n =
    (b ≡ null) ⊎ ((k : ListNode D) × (c b ≡ some k) × (e b ≡ some (record k { next = n })))

abbrev AfterSet : {D : Type 0} → (c e : Ptr → Option (ListNode D)) → Ptr → Ptr → Type 0
AfterSet {D} c e b n =
    (n ≡ null) ⊎ ((k : ListNode D) × (c n ≡ some k) × (e n ≡ some (record k { prev = b })))

module _ {D : Type 0} (c e : Ptr → Option (ListNode D)) (b p n : Ptr) where
  cells-before :
      (a : Ptr)
      → a ≢ null
      → (a == p) ≡ false
      → (a == b) ≡ true
      → BeforeSet c e b n
      → e a ≡ unlinked b p n c a
  cells-before a ne a_p a_b (inl no_b) = absurd (ne (ground arith))
  cells-before a ne a_p a_b (inr (k, at, set)) =
      let same : a ≡ b = ground arith in
      let at_a : c a ≡ some k = rw same at in ap e same ∙ set ∙ sym (rw (at_a, a_p, a_b))

  cells-after :
      (a : Ptr)
      → a ≢ null
      → (a == p) ≡ false
      → (a == b) ≡ false
      → (a == n) ≡ true
      → AfterSet c e b n
      → e a ≡ unlinked b p n c a
  cells-after a ne a_p a_b a_n (inl no_n) = absurd (ne (ground arith))
  cells-after a ne a_p a_b a_n (inr (k, at, set)) =
      let same : a ≡ n = ground arith in
      let at_a : c a ≡ some k = rw same at in ap e same ∙ set ∙ sym (rw (at_a, a_p, a_b, a_n))

  pub cells-unlinked :
      e p ≡ none
      → BeforeSet c e b n
      → AfterSet c e b n
      → ((a : Ptr) → (a == p) ≡ false → (a == b) ≡ false → (a == n) ≡ false → e a ≡ c a)
      → (a : Ptr) → a ≢ null
      → e a ≡ unlinked b p n c a
  cells-unlinked gone before after other a ne = elim (Bool-cases (a == p)) [
    | inl a_p ↦
        let same : a ≡ p = ground arith in ap e same ∙ gone ∙ sym (relinked_gone b p n a (c a) a_p)
    | inr a_p ↦ elim (Bool-cases (a == b)) [
      | inl a_b ↦ cells-before a ne a_p a_b before
      | inr a_b ↦ elim (Bool-cases (a == n)) [
        | inl a_n ↦ cells-after a ne a_p a_b a_n after
        | inr a_n ↦ other a a_p a_b a_n ∙ sym (relinked_other b p n a (c a) a_p a_b a_n)
      ]
    ]
  ]
