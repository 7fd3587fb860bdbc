-- ===== src/DataList.antt =====
-- sflow/sflow_data_list.c and .h: a counted list with the sum of its elements' sizes. The links
-- themselves belong to the system's <sys/list.h>; a list is the sequence of its nodes.
pub mod Laws
use sflow.Common.{
  ℕ, ◌+◌, ◌-◌, ◌%◌, ◌^◌, Bool, true, false, List, [], ◌∷◌, ◌++◌, length, ltb, ◌==◌, if◌then◌else◌,
  Outcome, ok, fault, ◌>>=◌, ◌>>◌, assert, out_of_bounds,
}
use sflow.Common.Int.{ℤ, pos, negsuc, ◌+ℤ◌, ◌-ℤ◌}

-- NAMELEN
abbrev pub name_len : ℕ
name_len = 32

-- CHECK_DATA, -1: the size is recorded in the data.
abbrev pub check_data : ℤ
check_data = negsuc 0

pub record Node (A : Type 0) : Type 0 where
  pub name : List ℕ
  pub content : A
  pub data_size : ℤ

pub record DataList (A : Type 0) : Type 0 where
  pub name : List ℕ
  pub count : ℕ
  pub data_size : ℤ
  pub items : List (Node A)

-- strcpy into a `char [NAMELEN]`, which also takes the final 0
copy_name : List ℕ → Outcome (List ℕ)
copy_name name = if ltb (length name) name_len then ok name else fault out_of_bounds

is_check_data : ℤ → Bool
is_check_data (pos n) = false
is_check_data (negsuc n) = n == 0

module _ {A : Type 0} where
  unfoldable pub node_create : List ℕ → A → ℤ → Outcome (Node A)
  unfolding copy_name
  node_create name content size = do
    copied ← copy_name name
    ok (record { name = copied; content = content; data_size = size })

  unfoldable pub append : DataList A → Node A → DataList A
  unfolding is_check_data
  append l node = record l {
    count = (l.count + 1) % 2 ^ 32;
    data_size = if is_check_data node.data_size then check_data else l.data_size +ℤ node.data_size;
    items = l.items ++ node ∷ [];
  }

  -- `list_remove_head` of an empty list is NULL, and the code reads through it.
  remove_head : List (Node A) → Outcome (Node A × List (Node A))
  remove_head [] = fault out_of_bounds
  remove_head (node ∷ rest) = ok (node, rest)

  unfoldable pub read : DataList A → Outcome (Node A × DataList A)
  unfolding remove_head is_check_data
  read l = do
    assert (ltb 0 l.count)
    (node, rest) ← remove_head l.items
    ok (
      node,
      record l {
        count = l.count - 1;
        data_size =
            if is_check_data l.data_size then l.data_size else l.data_size -ℤ node.data_size;
        items = rest;
      },
    )

  -- The list is freed only when it is empty.
  unfoldable pub free : DataList A → Outcome (Unit {0})
  free l = assert (l.count == 0)

unfoldable pub create : (A : Type 0) → List ℕ → Outcome (DataList A)
unfolding copy_name
create A name = do
  copied ← copy_name name
  ok (record { name = copied; count = 0; data_size = pos 0; items = [] })
