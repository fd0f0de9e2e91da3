-- ===== src/NameValue.antt =====
-- src/namevalue.cpp: class NameValueList, a singly linked list of named values. The three pointers
-- of the object are a record, its nodes are in the heap, and a method returns the pointers anew.
-- A string that `str_dup` makes belongs to its node alone, so it is a value of the node. Each loop
-- runs on fuel; NameValue/Chain and the modules beside it say how much is enough.
pub mod Chain
pub mod Entries
pub mod Find
pub mod Put
pub mod Add
pub mod Free
pub mod Walk
pub mod Clean
pub mod Copy
pub mod CopyTo
mod Tests
use dbsqlapi.Prelude.{
  ℕ, zero, suc, ◌+◌, Bool, true, false, Option, none, some, [], ◌∷◌, ℤ, pos, negsuc, is_ok, CStr,
  ◌==◌, str_eq, length,
}
use dbsqlapi.Heap.{
  Ptr, null, Heap, Cmd, ok, out_of_fuel, pure, ◌>>=◌, ◌>>◌, when◌run◌otherwise◌, load, modify,
  delete, alloc,
}

-- class NameValue
pub record Node : Type 0 where
  pub name : Option CStr
  pub value : Option CStr
  pub data_type : ℤ
  pub next : Ptr

pub record NvList : Type 0 where
  pub head_ptr : Ptr
  pub tail_ptr : Ptr
  pub curr_ptr : Ptr

-- The constructor and `init`.
abbrev pub init : NvList
init = record { head_ptr = null; tail_ptr = null; curr_ptr = null }

-- The node after `memset`.
abbrev pub blank : Node
blank = record { name = none; value = none; data_type = pos 0; next = null }

pub get_fname : NvList → Cmd Node (Option CStr × NvList)
get_fname l =
    when l.head_ptr == null
    run pure (none, record l { curr_ptr = l.head_ptr })
    otherwise do n ← load l.head_ptr; pure (n.name, record l { curr_ptr = l.head_ptr })

-- `if(curr_ptr) curr_ptr = curr_ptr->next;`
pub step_curr : NvList → Cmd Node NvList
step_curr l =
    when l.curr_ptr == null
    run pure l
    otherwise do n ← load l.curr_ptr; pure (record l { curr_ptr = n.next })

pub get_nname : NvList → Cmd Node (Option CStr × NvList)
unfolding step_curr
get_nname l = do
  l' ← step_curr l
  when l'.curr_ptr == null run pure (none, l') otherwise do n ← load l'.curr_ptr; pure (n.name, l')

-- What `get_fitem` and `get_nitem` write through their pointers, `none` where they return -3.
pub record Item : Type 0 where
  pub item_name : Option CStr
  pub item_value : Option CStr
  pub item_type : ℤ

abbrev pub item_of : Node → Item
item_of n = record { item_name = n.name; item_value = n.value; item_type = n.data_type }

pub get_nitem : NvList → Cmd Node (ℤ × Option Item × NvList)
get_nitem l =
    when l.curr_ptr == null
    run pure (negsuc 2, none, l)
    otherwise do n ← load l.curr_ptr; pure (pos 0, some (item_of n), record l { curr_ptr = n.next })

pub get_fitem : NvList → Cmd Node (ℤ × Option Item × NvList)
get_fitem l =
    when l.head_ptr == null
    run pure (negsuc 2, none, record l { curr_ptr = l.head_ptr })
    otherwise do n ← load l.head_ptr; pure (pos 0, some (item_of n), record l { curr_ptr = n.next })

pub find_loop : ℕ → CStr → Ptr → Ptr → Cmd Node Ptr
find_loop zero name tail ptr = λ _. out_of_fuel
find_loop (suc k) name tail ptr = when ptr == null run pure null otherwise do
  n ← load ptr
  elim n.name [
    | none ↦ pure null
    | some s ↦
        when str_eq s name
        run pure ptr
        otherwise when ptr == tail
        run pure null
        otherwise find_loop k name tail n.next
  ]

pub find : ℕ → NvList → Option CStr → Cmd Node Ptr
unfolding find_loop
find k l none = pure null
find k l (some name) = find_loop k name l.tail_ptr l.head_ptr

pub put : ℕ → NvList → Option CStr → Option CStr → Cmd Node ℤ
put k l none value = pure (negsuc 1)
put k l (some name) value = do
  ptr ← find k l (some name)
  when ptr == null
      run pure (negsuc 1)
      otherwise do modify ptr (λ n. record n { value = value }); pure (pos 0)

pub get : ℕ → NvList → Option CStr → Cmd Node (Option CStr)
get k l none = pure none
get k l (some name) = do
  ptr ← find k l (some name)
  when ptr == null run pure none otherwise do n ← load ptr; pure n.value

-- `if (!head_ptr) curr_ptr = head_ptr = ptr; else tail_ptr->next = ptr;` and `tail_ptr = ptr;`
pub link : NvList → Ptr → Cmd Node NvList
link l ptr =
    when l.head_ptr == null
    run pure (record l { curr_ptr = ptr; head_ptr = ptr; tail_ptr = ptr })
    otherwise do
      modify l.tail_ptr (λ n. record n { next = ptr })
      pure (record l { tail_ptr = ptr })

pub add_type : NvList → Option CStr → ℤ → Cmd Node (ℤ × NvList)
unfolding link
add_type l none data_type = pure (negsuc 1, l)
add_type l (some name) data_type = do
  ptr ← alloc blank
  l' ← link l ptr
  modify ptr (λ n. record n { next = null })
  modify ptr (λ n. record n { name = some name; data_type = data_type; value = none })
  pure (pos 0, l')

pub add_value : NvList → Option CStr → Option CStr → Cmd Node (ℤ × NvList)
unfolding link
add_value l none value = pure (negsuc 1, l)
add_value l (some name) value = do
  ptr ← alloc blank
  l' ← link l ptr
  modify ptr (λ n. record n { next = null })
  modify ptr (λ n. record n { name = some name; value = value; data_type = negsuc 0 })
  pure (pos 0, l')

pub free_loop : ℕ → Ptr → Cmd Node (Unit {0})
free_loop zero ptr = λ _. out_of_fuel
free_loop (suc k) ptr =
    when ptr == null run pure tt otherwise do n ← load ptr; delete ptr; free_loop k n.next

pub free : ℕ → NvList → Cmd Node NvList
unfolding free_loop
free k l = do free_loop k l.head_ptr; pure init

pub clean_loop : ℕ → Ptr → Cmd Node (Unit {0})
clean_loop zero ptr = λ _. out_of_fuel
clean_loop (suc k) ptr =
    when ptr == null
    run pure tt
    otherwise do modify ptr (λ n. record n { value = none }); n ← load ptr; clean_loop k n.next

pub clean : ℕ → NvList → Cmd Node (Unit {0})
unfolding clean_loop
clean k l = clean_loop k l.head_ptr

abbrev pub strlen_or_zero : Option CStr → ℕ
strlen_or_zero none = 0
strlen_or_zero (some s) = length s

-- The three counting loops: what a node adds to the count is `weight`.
pub count_loop : ℕ → (Node → ℕ) → Ptr → ℕ → Cmd Node ℕ
count_loop zero weight p cnt = λ _. out_of_fuel
count_loop (suc k) weight p cnt =
    when p == null run pure cnt otherwise do n ← load p; count_loop k weight n.next (cnt + weight n)

pub all_count : ℕ → NvList → Cmd Node ℕ
unfolding count_loop
all_count k l = count_loop k (λ n. 1) l.head_ptr 0

pub mem : ℕ → NvList → Cmd Node ℕ
unfolding count_loop
mem k l = count_loop k (λ n. strlen_or_zero n.value) l.head_ptr 0

-- A node's name is not NULL here: `add` sets it, and nothing clears it but `free`.
pub mem_all : ℕ → NvList → Cmd Node ℕ
unfolding count_loop
mem_all k l = count_loop k (λ n. strlen_or_zero n.value + strlen_or_zero n.name) l.head_ptr 0

-- `if(p->value) dest->put(p->name,p->value);`
pub put_if : ℕ → NvList → Option CStr → Option CStr → Cmd Node (Unit {0})
unfolding put
put_if k dest name none = pure tt
put_if k dest name (some value) = do _ ← put k dest name (some value); pure tt

pub copy_loop : ℕ → ℕ → NvList → Ptr → Cmd Node (ℤ × NvList)
copy_loop m zero dest p = λ _. out_of_fuel
copy_loop m (suc k) dest p = when p == null run pure (pos 0, dest) otherwise do
  n ← load p
  (rtn, dest') ← add_type dest n.name n.data_type
  when is_ok rtn
      run (do
        n' ← load p
        put_if m dest' n'.name n'.value
        n'' ← load p
        copy_loop m k dest' n''.next)
      otherwise do dest'' ← free m dest'; pure (rtn, dest'')

-- `copy(dest)`; where `dest` is `this`, both arguments are the same list.
pub copy : ℕ → NvList → Option NvList → Cmd Node (ℤ × Option NvList)
copy k l none = pure (negsuc 0, none)
copy k l (some dest) = do
  let p = l.head_ptr
  dest' ← when dest.head_ptr == null run pure init otherwise free k dest
  (rtn, dest'') ← copy_loop k k dest' p
  pure (rtn, some dest'')
