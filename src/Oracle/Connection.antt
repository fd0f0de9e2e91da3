-- ===== src/Oracle/Connection.antt =====
-- src/oracleapi.cpp: class db_connect. The Oracle client library is a parameter that answers each call by
-- the calls so far, the last one first; `true` stands for an answer that is not 0.
pub mod Handles
pub mod Allocation
pub mod Settled
pub mod Session
pub mod Keeps
pub mod Broken
pub mod Lost
mod Tests
use dbsqlapi.Prelude.{
  ℕ, Bool, true, false, ◌||◌, Option, List, [], ◌∷◌, CStr, ℤ, pos, negsuc, ◌==◌, if◌then◌else◌,
}
use dbsqlapi.Heap.{Ptr, null}
use dbsqlapi.State.{St, pure, ◌>>=◌, ◌>>◌, when◌run◌otherwise◌}

-- The handles of a connection.
pub data HandleKind : Type 0 where
  envhp svchp errhp srvhp authp : HandleKind

abbrev number_of : HandleKind → ℕ
number_of envhp = 0
number_of svchp = 1
number_of errhp = 2
number_of srvhp = 3
number_of authp = 4

abbrev pub same_kind : HandleKind → HandleKind → Bool
same_kind k j = number_of k == number_of j

abbrev pub Handles : Type 0
Handles = HandleKind → Ptr

abbrev pub set_handle : Handles → HandleKind → Ptr → Handles
set_handle f k p j = if same_kind j k then p else f j

-- What OCIAttrSet sets.
pub data Attr : Type 0 where
  attr_server attr_session : Ptr → Attr
  attr_username attr_password : CStr → Attr

-- The calls of the library, with the handles that they are made on. `handle_alloc` is one that succeeds,
-- of OCIEnvInit for envhp, and of OCIHandleAlloc on the environment for the others.
pub data Call : Type 0 where
  oci_initialize : Call
  handle_alloc : HandleKind → Ptr → Call
  alloc_fails : HandleKind → Call
  handle_free : HandleKind → Ptr → Call
  server_attach : Ptr → Option CStr → Call
  server_detach : Ptr → Call
  attr_set : HandleKind → Attr → Ptr → Call
  session_begin session_end : Ptr → Ptr → Call
  error_get trans_commit trans_rollback : Ptr → Call

abbrev pub History : Type 0
History = List Call

-- `fails` and `new_handle` answer the call that comes after that history, `error_code` and `error_text` tell
-- what OCIErrorGet writes; the text may be the one that was there.
pub record OciClient : Type 0 where
  pub fails : Call → History → Bool
  pub alloc_failing : HandleKind → History → Bool
  pub new_handle : HandleKind → History → Ptr
  pub error_code : History → ℕ
  pub error_text : History → CStr → CStr

pub record DbConnect : Type 0 where
  pub handles : Handles
  pub is_connected : Bool
  pub transaction : Bool
  pub msgbuf : CStr
  pub calls : History

abbrev pub Act : Type 0 → Type 0
Act A = St DbConnect A

-- db_connect::db_connect. It sets neither the handles nor m_transaction nor msgbuf.
pub new_connect : Handles → Bool → CStr → DbConnect
new_connect handles transaction msgbuf = record {
  handles = handles;
  is_connected = false;
  transaction = transaction;
  msgbuf = msgbuf;
  calls = [];
}

unfoldable pub set_no_connct : Act (Unit {0})
set_no_connct c = (tt, record c { is_connected = false })

unfoldable pub is_connect : DbConnect → ℤ
is_connect c = if c.is_connected then pos 0 else negsuc 0

-- `if(op) { failed } next`
unfoldable pub attempt : {A : Type 0} → Act Bool → Act A → Act A → Act A
attempt op failed next = do b ← op; when b run failed otherwise next

-- One `if` of freeHandle.
unfoldable pub free_one : HandleKind → Act (Unit {0})
free_one k c = if c.handles k == null then (tt, c) else (
  tt,
  record c { handles = set_handle c.handles k null; calls = handle_free k (c.handles k) ∷ c.calls },
)

unfoldable pub free_handle : Act (Unit {0})
unfolding free_one
free_handle = free_one srvhp >> free_one svchp >> free_one errhp >> free_one authp >> free_one envhp

-- The codes of a connection that is lost.
unfoldable pub is_gone : ℕ → Bool
is_gone n = (n == 3113) || ((n == 3114) || ((n == 28547) || ((n == 12541) || (n == 1012))))

module _ (client : OciClient) where
  -- A call, and whether it fails.
  unfoldable pub ask : Call → Act Bool
  ask x c = (client.fails x c.calls, record c { calls = x ∷ c.calls })

  -- A handle that cannot be made is left as it is.
  unfoldable pub alloc_handle : HandleKind → Act Bool
  alloc_handle k c =
      if client.alloc_failing k c.calls
      then (true, record c { calls = alloc_fails k ∷ c.calls })
      else (
        false,
        record c {
          handles = set_handle c.handles k (client.new_handle k c.calls);
          calls = handle_alloc k (client.new_handle k c.calls) ∷ c.calls;
        },
      )

  -- `true` stands for -1.
  unfoldable pub init_handle : Act Bool
  unfolding attempt alloc_handle ask
  init_handle = attempt (ask oci_initialize) (pure true) (
      attempt (alloc_handle envhp) (pure true) (
        attempt (alloc_handle svchp) (pure true) (
          attempt (alloc_handle errhp) (pure true) (
            attempt (alloc_handle srvhp) (pure true)
              (attempt (alloc_handle authp) (pure true) (pure false))))))

  -- A call on the handle of that kind.
  unfoldable pub on_handle : HandleKind → (Ptr → Call) → Act Bool
  unfolding ask
  on_handle k f c = ask (f (c.handles k)) c

  -- A handle goes to an attribute of svchp.
  unfoldable pub set_from : HandleKind → (Ptr → Attr) → Act Bool
  unfolding on_handle
  set_from k attr c = on_handle svchp (attr_set svchp (attr (c.handles k))) c

  unfoldable pub begin_session : Act Bool
  unfolding on_handle
  begin_session c = on_handle svchp (λ p. session_begin p (c.handles authp)) c

  unfoldable pub end_session : Act Bool
  unfolding on_handle
  end_session c = on_handle svchp (λ p. session_end p (c.handles authp)) c

  -- The text is "" for a NULL.
  unfoldable pub attach_server : Option CStr → Act Bool
  unfolding attempt on_handle set_from
  attach_server hoststring =
      attempt (on_handle srvhp (λ p. server_attach p hoststring)) (pure true)
        (attempt (set_from srvhp attr_server) (pure true) (pure false))

  -- What both calls answer is dropped.
  unfoldable pub deatch_server : Act (Unit {0})
  unfolding on_handle end_session
  deatch_server = do _ ← end_session; _ ← on_handle srvhp server_detach; pure tt

  -- OCIErrorGet into msgbuf, and the code.
  unfoldable pub error_get_text : Act ℕ
  error_get_text c = (
    client.error_code c.calls,
    record c {
      msgbuf = client.error_text c.calls c.msgbuf;
      calls = error_get (c.handles errhp) ∷ c.calls;
    },
  )

  -- The ends of the branches of connect that fail.
  unfoldable pub fail_free : Act ℤ
  unfolding error_get_text free_handle
  fail_free = do _ ← error_get_text; free_handle; pure (negsuc 0)

  unfoldable pub fail_detach : Act ℤ
  unfolding error_get_text free_handle on_handle
  fail_detach = do
    _ ← error_get_text
    _ ← on_handle srvhp server_detach
    free_handle
    pure (negsuc 0)

  unfoldable pub fail_end : Act ℤ
  unfolding error_get_text free_handle deatch_server
  fail_end = do _ ← error_get_text; deatch_server; free_handle; pure (negsuc 0)

  unfoldable pub set_connected : Act ℤ
  set_connected c = (pos 0, record c { is_connected = true; transaction = false })

  -- The name and the password go to attributes of authp.
  unfoldable pub log_on : CStr → CStr → Option CStr → Act ℤ
  unfolding attempt init_handle attach_server on_handle set_from begin_session fail_free fail_detach
      fail_end set_connected
  log_on username password hoststring = attempt init_handle fail_free (
      attempt (attach_server hoststring) fail_free (
        attempt (on_handle authp (attr_set authp (attr_username username))) fail_detach (
          attempt (on_handle authp (attr_set authp (attr_password password))) fail_detach (
            attempt begin_session fail_detach
              (attempt (set_from authp attr_session) fail_end set_connected)))))

  unfoldable pub connect : CStr → CStr → Option CStr → Act ℤ
  unfolding log_on
  connect username password hoststring c =
      if c.is_connected then (negsuc 0, c) else log_on username password hoststring c

  unfoldable pub disconnect : Act ℤ
  unfolding deatch_server free_handle set_no_connct
  disconnect c =
      if c.is_connected
      then (do deatch_server; free_handle; set_no_connct; pure (pos 0)) c
      else (negsuc 0, c)

  -- db_connect::~db_connect
  unfoldable pub destroy : Act (Unit {0})
  unfolding disconnect
  destroy c = if c.is_connected then (tt, (disconnect c).1) else (tt, c)

  unfoldable pub commit_trans : Act (Unit {0})
  unfolding on_handle
  commit_trans c = (tt, record (on_handle svchp trans_commit c).1 { transaction = false })

  unfoldable pub rollback_trans : Act (Unit {0})
  unfolding on_handle
  rollback_trans c = (tt, record (on_handle svchp trans_rollback c).1 { transaction = false })

  -- A transaction that is open is committed first.
  unfoldable pub begin_trans : Act (Unit {0})
  unfolding on_handle
  begin_trans c = (
    tt,
    record (if c.transaction then (on_handle svchp trans_commit c).1 else c) { transaction = true },
  )

  unfoldable pub get_err : Act ℤ
  unfolding error_get_text rollback_trans is_gone
  get_err = do
    n ← error_get_text
    when is_gone n
        run pure (negsuc 99998)
        otherwise (when n == 25402 run (do rollback_trans; pure (pos n)) otherwise pure (pos n))

  unfoldable pub get_err_info : Act CStr
  unfolding error_get_text
  get_err_info c =
      if c.is_connected
      then (let d = (error_get_text (record c { msgbuf = [] })).1 in (d.msgbuf, d))
      else (c.msgbuf, c)
