-- ===== src/Facade/Laws.antt =====
-- What a `dbsql` of src/dbsql.cpp can be in, and what its caller can see of its driver.
use dbsqlapi.Prelude.{
  arith, ℕ, ℤ, ◌≡◌, ◌≢◌, refl, sym, ◌∙◌, ◌↔◌, inl, inr, Option, none, some, List, [], ◌∷◌, CStr,
  codes, str_eq, str_eq→eq, Bool-cases,
}
use dbsqlapi.Errors.{string_is_null, unknown_db_name, throws}
use dbsqlapi.Facade.{
  DbClient, unknown, oracle_client, mysql_client, redis_client, memcached_client, Backend,
  oracle_api, mysql_api, Db, Loads, make_pdb, new_db, init_db, from_client, from_name, Method,
  Driver, call_through, call,
}

-- The names that the constructor knows.
abbrev pub client_name : Backend → CStr
client_name oracle_api = codes "oracle"
client_name mysql_api = codes "mysql"

abbrev pub client_of : Backend → DbClient
client_of oracle_api = oracle_client
client_of mysql_api = mysql_client

-- `dbsql(name)` is `dbsql` of the named client, for "oracle" and for "mysql", exceptions included.
pub from_name-known :
    (ld : Loads) (b : Backend) → from_name ld (some (client_name b)) ≡ from_client ld (client_of b)
unfolding from_name from_client
from_name-known ld oracle_api = refl
from_name-known ld mysql_api = refl

-- For any other name it throws exception 5, and for NULL exception 4.
pub from_name-unknown :
    (ld : Loads) (name : CStr)
    → ((b : Backend) → name ≢ client_name b)
    → (from_name ld (some name) ≡ throws unknown_db_name)
      × (from_name ld none ≡ throws string_is_null)
unfolding from_name
from_name-unknown ld name other = (
  elim (Bool-cases (str_eq name (codes "oracle"))) [
    | inl same ↦ absurd (other oracle_api (str_eq→eq name (codes "oracle") same))
    | inr ora ↦ elim (Bool-cases (str_eq name (codes "mysql"))) [
      | inl same ↦ absurd (other mysql_api (str_eq→eq name (codes "mysql") same))
      | inr my ↦ rw (ora, my)
    ]
  ],
  refl,
)

-- The calls of initDB, each with what loading does then. An exception is caught, and the object used on.
abbrev pub Inits : Type 0
Inits = List (DbClient × Loads)

unfoldable pub init_all : Inits → Db → Db
init_all [] d = d
init_all ((c, ld) ∷ cs) d = init_all cs (init_db ld c d).1

-- The driver that a call for a client can make: none for a client that is neither Oracle nor MySQL, nor where
-- loading throws.
abbrev pub loaded_by : Loads → Backend → Option Backend
loaded_by ld b = elim (ld b) [ none ↦ some b | some e ↦ none ]

abbrev pub made_for : DbClient → Loads → Option Backend
made_for oracle_client ld = loaded_by ld oracle_api
made_for mysql_client ld = loaded_by ld mysql_api
made_for unknown ld = none
made_for redis_client ld = none
made_for memcached_client ld = none

-- The first such driver, and the last client.
abbrev pub first_backend : Inits → Option Backend
first_backend [] = none
first_backend ((c, ld) ∷ cs) = elim (made_for c ld) [ none ↦ first_backend cs | some b ↦ some b ]

abbrev pub last_client : DbClient → Inits → DbClient
last_client c [] = c
last_client c ((d, ld) ∷ ds) = last_client d ds

init_all-some : (cs : Inits) (d : Db) (b : Backend) → d.pdb ≡ some b → (init_all cs d).pdb ≡ some b
unfolding init_all init_db
init_all-some [] d b e = e
init_all-some ((c, ld) ∷ cs) d b e = init_all-some cs (init_db ld c d).1 b (rw e)

make_pdb-some :
    (ld : Loads) (b : Backend) (o : Option ℕ) → ld b ≡ o → (make_pdb ld (some b)).1 ≡ loaded_by ld b
make_pdb-some ld b none e = rw (e, make_pdb, loaded_by)
make_pdb-some ld b (some x) e = rw (e, make_pdb, loaded_by)

-- One call on an object without a driver.
init_db-pdb :
    (ld : Loads) (c : DbClient) (d : Db) → d.pdb ≡ none → (init_db ld c d).1.pdb ≡ made_for c ld
unfolding init_db
init_db-pdb ld unknown d e = rw e
init_db-pdb ld redis_client d e = rw e
init_db-pdb ld memcached_client d e = rw e
init_db-pdb ld oracle_client d e = rw e (make_pdb-some ld oracle_api (ld oracle_api) refl)
init_db-pdb ld mysql_client d e = rw e (make_pdb-some ld mysql_api (ld mysql_api) refl)

-- The rest of the calls, after the first has made `o`.
after_first :
    (cs : Inits) (d : Db) (o : Option Backend)
    → ((e : Db) → e.pdb ≡ none → (init_all cs e).pdb ≡ first_backend cs)
    → d.pdb ≡ o
    → (init_all cs d).pdb ≡ elim o [ none ↦ first_backend cs | some b ↦ some b ]
after_first cs d none rest e = rest d e
after_first cs d (some b) rest e = init_all-some cs d b e

init_all-none : (cs : Inits) (d : Db) → d.pdb ≡ none → (init_all cs d).pdb ≡ first_backend cs
unfolding init_all
init_all-none [] d e = e
init_all-none ((c, ld) ∷ cs) d e =
    after_first cs (init_db ld c d).1 (made_for c ld) (init_all-none cs) (init_db-pdb ld c d e)

init_all-used : (cs : Inits) (d : Db) → (init_all cs d).used_db ≡ last_client d.used_db cs
unfolding init_all init_db
init_all-used [] d = refl
init_all-used ((c, ld) ∷ cs) d = init_all-used cs (init_db ld c d).1

-- After any sequence of initDB calls on a new object, exceptions caught, the driver is that of the first call
-- for Oracle or MySQL whose library loads, while getDBSource gives the last client.
pub init_all-first_backend :
    (cs : Inits)
    → ((init_all cs new_db).pdb ≡ first_backend cs)
      × ((init_all cs new_db).used_db ≡ last_client unknown cs)
init_all-first_backend cs = (init_all-none cs new_db refl, init_all-used cs new_db)

-- A call that makes no driver: for a client that is neither Oracle nor MySQL, or with an exception.
abbrev pub Fails : DbClient → Loads → Type 0
Fails oracle_client ld = (e : ℕ) × (ld oracle_api ≡ some e)
Fails mysql_client ld = (e : ℕ) × (ld mysql_api ≡ some e)
Fails unknown ld = Unit {0}
Fails redis_client ld = Unit {0}
Fails memcached_client ld = Unit {0}

abbrev pub AllFail : Inits → Type 0
AllFail [] = Unit {0}
AllFail ((c, ld) ∷ cs) = Fails c ld × AllFail cs

loaded-none :
    (b : Backend) (o : Option ℕ)
    → (elim o as (λ _. Option Backend) [ none ↦ some b | some e ↦ none ] ≡ none)
      ↔ ((e : ℕ) × (o ≡ some e))
loaded-none b none = ((λ e. ground (arith, e)), (λ (x, e). ground (arith, e)))
loaded-none b (some x) = ((λ e. (x, refl)), (λ f. refl))

made_for-none : (c : DbClient) (ld : Loads) → (made_for c ld ≡ none) ↔ Fails c ld
made_for-none unknown ld = ((λ e. tt), (λ f. refl))
made_for-none redis_client ld = ((λ e. tt), (λ f. refl))
made_for-none memcached_client ld = ((λ e. tt), (λ f. refl))
made_for-none oracle_client ld = loaded-none oracle_api (ld oracle_api)
made_for-none mysql_client ld = loaded-none mysql_api (ld mysql_api)

-- A driver of the first call, or of the rest.
either-none :
    (o rest : Option Backend)
    → (elim o as (λ _. Option Backend) [ none ↦ rest | some b ↦ some b ] ≡ none)
      ↔ ((o ≡ none) × (rest ≡ none))
either-none none rest = ((λ e. (refl, e)), (λ f. f.1))
either-none (some b) rest = ((λ e. ground (arith, e)), (λ f. f.0))

first_backend-none : (cs : Inits) → (first_backend cs ≡ none) ↔ AllFail cs
first_backend-none [] = ((λ e. tt), (λ f. refl))
first_backend-none ((c, ld) ∷ cs) =
    let (here, back) = made_for-none c ld in
    let (later, again) = first_backend-none cs in
    let (split, join) = either-none (made_for c ld) (first_backend cs) in
    (λ e. (here (split e).0, later (split e).1), λ f. join (back f.0, again f.1))

module _ {S : Type 0} (dr : Driver S) (left : ℤ) where
  call_through-none :
      (p : Option Backend) (m : Method) (s : S) → (call_through dr left p m s ≡ none) ↔ (p ≡ none)
  call_through-none none m s = ((λ e. refl), (λ e. refl))
  call_through-none (some b) m s = ((λ e. ground (arith, e)), (λ e. ground (arith, e)))

  -- After any sequence of initDB calls on a new object, exceptions caught, a method calls through the NULL
  -- pointer exactly if each of these calls was for a client that is neither Oracle nor MySQL, or threw.
  pub call-crashes :
      (cs : Inits) (m : Method) (s : S)
      → (call dr left (init_all cs new_db) m s ≡ none) ↔ AllFail cs
  unfolding call
  call-crashes cs m s =
      let (down, up) = call_through-none (init_all cs new_db).pdb m s in
      let (fails, back) = first_backend-none cs in
      let e = init_all-none cs new_db refl in
      ((λ c. fails (sym e ∙ down c)), (λ f. up (e ∙ back f)))
