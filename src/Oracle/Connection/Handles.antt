-- ===== src/Oracle/Connection/Handles.antt =====
-- The handles that the methods of db_connect (src/oracleapi.cpp) make and free.
use dbsqlapi.Prelude.{
  ◌≡◌, ◌≢◌, refl, ap, ◌∙◌, Bool, true, false, List, [], ◌∷◌, arith, ◌==◌, if◌then◌else◌, Bool-cases,
  inl, inr,
}
use dbsqlapi.Heap.{Ptr, null}
use dbsqlapi.State.{pure, ◌>>=◌, ◌>>◌, when◌run◌otherwise◌}
use dbsqlapi.Oracle.Connection.{
  HandleKind, envhp, svchp, errhp, srvhp, authp, Handles, set_handle, same_kind, Call,
  oci_initialize, handle_alloc, alloc_fails, handle_free, server_attach, server_detach, attr_set,
  session_begin, session_end, error_get, trans_commit, trans_rollback, History, DbConnect, Act,
  attempt, free_one, free_handle,
}

-- The handles that are made and not freed; NULL for none.
abbrev pub held : History → Handles
held [] = λ k. null
held (handle_alloc k p ∷ h) = set_handle (held h) k p
held (handle_free k p ∷ h) = set_handle (held h) k null
held (x ∷ h) = held h

-- No handle is made while there is one of its kind, so that none is lost, and only a handle that is held is
-- freed, so that none is freed twice.
abbrev pub IsLegal : History → Type 0
IsLegal [] = Unit {0}
IsLegal (handle_alloc k p ∷ h) = (held h k ≡ null) × IsLegal h
IsLegal (handle_free k p ∷ h) = (p ≢ null) × (p ≡ held h k) × IsLegal h
IsLegal (x ∷ h) = IsLegal h

-- The call is none on which the handles depend.
abbrev pub IsPlain : Call → Type 0
IsPlain (handle_alloc k p) = ⊥
IsPlain (handle_free k p) = ⊥
IsPlain x = Unit {0}

-- The object has the handles that are held.
pub record Owns (c : DbConnect) : Type 0 where
  pub same : c.handles ≡ held c.calls
  pub legal : IsLegal c.calls

-- The handles of some kinds are NULL.
abbrev pub Nulls : List HandleKind → DbConnect → Type 0
Nulls [] c = Unit {0}
Nulls (k ∷ ks) c = (c.handles k ≡ null) × Nulls ks c

abbrev pub Left : List HandleKind → DbConnect → Type 0
Left ks c = Owns c × Nulls ks c

-- From `P` to `Q`.
pub record Leads {A : Type 0} (P Q : DbConnect → Type 0) (m : Act A) : Type 0 where
  pub at : (c : DbConnect) → P c → Q (m c).1

pub pick :
    {A : Type 0} (Q : DbConnect → Type 0) (b : Bool) (r s : A × DbConnect)
    → (b ≡ true → Q r.1)
    → (b ≡ false → Q s.1)
    → Q (if b then r else s).1
pick Q true r s p q = p refl
pick Q false r s p q = q refl

module _ {P Q R : DbConnect → Type 0} where
  pub seq-Leads :
      {A : Type 0} (m : Act (Unit {0})) (k : Act A) → Leads P R m → Leads R Q k → Leads P Q (m >> k)
  unfolding ◌>>◌
  seq-Leads m k l n = record { at = λ c p. n.at (m c).1 (l.at c p) }

  pub bind-Leads :
      {A B : Type 0} (m : Act A) (k : A → Act B)
      → Leads P R m
      → ((a : A) → Leads R Q (k a))
      → Leads P Q (m >>= k)
  unfolding ◌>>=◌
  bind-Leads m k l n = record { at = λ c p. (n (m c).0).at (m c).1 (l.at c p) }

pub pure-Leads : {A : Type 0} {P : DbConnect → Type 0} (a : A) → Leads P P (pure a)
unfolding pure
pure-Leads a = record { at = λ c p. p }

pub attempt-Leads :
    {A : Type 0} {P Q R : DbConnect → Type 0} (op : Act Bool) (failed next : Act A)
    → Leads P R op
    → Leads R Q failed
    → Leads R Q next
    → Leads P Q (attempt op failed next)
unfolding attempt ◌>>=◌ when◌run◌otherwise◌
attempt-Leads op failed next l f n = record {
  at = λ c p. elim (Bool-cases (op c).0) [
    | inl e ↦ rw e (f.at (op c).1 (l.at c p))
    | inr e ↦ rw e (n.at (op c).1 (l.at c p))
  ];
}

pub record-plain :
    (x : Call) (c : DbConnect) → IsPlain x → Owns c → Owns (record c { calls = x ∷ c.calls })
record-plain (handle_alloc k p) c n o = absurd n
record-plain (handle_free k p) c n o = absurd n
record-plain oci_initialize c n o = record { same = o.same; legal = o.legal }
record-plain (alloc_fails k) c n o = record { same = o.same; legal = o.legal }
record-plain (server_attach p t) c n o = record { same = o.same; legal = o.legal }
record-plain (server_detach p) c n o = record { same = o.same; legal = o.legal }
record-plain (attr_set k a p) c n o = record { same = o.same; legal = o.legal }
record-plain (session_begin p q) c n o = record { same = o.same; legal = o.legal }
record-plain (session_end p q) c n o = record { same = o.same; legal = o.legal }
record-plain (error_get p) c n o = record { same = o.same; legal = o.legal }
record-plain (trans_commit p) c n o = record { same = o.same; legal = o.legal }
record-plain (trans_rollback p) c n o = record { same = o.same; legal = o.legal }

pub Nulls-same :
    (ks : List HandleKind) (c d : DbConnect) → d.handles ≡ c.handles → Nulls ks c → Nulls ks d
Nulls-same [] c d e n = tt
Nulls-same (k ∷ ks) c d e n = (ap (λ f. f k) e ∙ n.0, Nulls-same ks c d e n.1)

pub set_null : (f : Handles) (k j : HandleKind) → f j ≡ null → set_handle f k null j ≡ null
set_null f k j e = elim (Bool-cases (same_kind j k)) [ inl h ↦ rw h refl | inr h ↦ rw h e ]

pub Nulls-set :
    (ks : List HandleKind) (c d : DbConnect) (k : HandleKind)
    → d.handles ≡ set_handle c.handles k null
    → Nulls ks c
    → Nulls ks d
Nulls-set [] c d k e n = tt
Nulls-set (j ∷ ks) c d k e n =
    (ap (λ f. f j) e ∙ set_null c.handles k j n.0, Nulls-set ks c d k e n.1)

-- The kinds differ from `k`.
abbrev pub Apart : HandleKind → List HandleKind → Type 0
Apart k [] = Unit {0}
Apart k (j ∷ ks) = (same_kind j k ≡ false) × Apart k ks

pub Nulls-Apart :
    (ks : List HandleKind) (c d : DbConnect) (k : HandleKind) (p : Ptr)
    → d.handles ≡ set_handle c.handles k p
    → Apart k ks
    → Nulls ks c
    → Nulls ks d
Nulls-Apart [] c d k p e a n = tt
Nulls-Apart (j ∷ ks) c d k p e a n =
    (ap (λ f. f j) e ∙ rw (a.0) (n.0), Nulls-Apart ks c d k p e a.1 n.1)

pub self_kind : (k : HandleKind) → same_kind k k ≡ true
self_kind envhp = refl
self_kind svchp = refl
self_kind errhp = refl
self_kind srvhp = refl
self_kind authp = refl

pub free_one-Leads :
    (ks : List HandleKind) (k : HandleKind) → Leads (Left ks) (Left (k ∷ ks)) (free_one k)
unfolding free_one
free_one-Leads ks k = record {
  at = λ c l. elim (Bool-cases (c.handles k == null)) [
    | inl e ↦ rw e (l.0, (ground (arith, e), l.1))
    | inr e ↦
        let d = record c {
          handles = set_handle c.handles k null;
          calls = handle_free k (c.handles k) ∷ c.calls;
        } in
        let o : Owns d = record {
          same = ap (λ f. set_handle f k null) l.0.same;
          legal = (ground (arith, e), ap (λ f. f k) l.0.same, l.0.legal);
        } in
        let gone : d.handles k ≡ null = rw (self_kind k) refl in
        rw e (o, (gone, Nulls-set ks c d k refl l.1))
  ];
}

pub forget : {A : Type 0} (ks : List HandleKind) (a : A) → Leads (Left ks) (Left []) (pure a)
unfolding pure
forget ks a = record { at = λ c l. (l.0, tt) }

abbrev pub every : List HandleKind
every = envhp ∷ authp ∷ errhp ∷ svchp ∷ srvhp ∷ []

pub free_handle-Leads : Leads (Left []) (Left every) free_handle
unfolding free_handle
free_handle-Leads =
    let gone1 = srvhp ∷ [] in
    let gone2 = svchp ∷ gone1 in
    let gone3 = errhp ∷ gone2 in
    seq-Leads _ _
      (seq-Leads _ _
        (seq-Leads _ _ (seq-Leads _ _ (free_one-Leads [] srvhp) (free_one-Leads gone1 svchp))
          (free_one-Leads gone2 errhp))
        (free_one-Leads gone3 authp))
      (free_one-Leads (authp ∷ gone3) envhp)
