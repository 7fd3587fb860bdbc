-- ===== src/DataList/Laws.antt =====
-- The counted list is a queue, and its size field is the sum of the sizes as long as no element
-- is marked CHECK_DATA.
use sflow.Common.{
  ℕ, suc, ◌+◌, ◌-◌, ◌==◌, if◌then◌else◌, ◌^◌, ◌<◌, ◌≡◌, refl, List, [], ◌∷◌, ◌++◌, arith, length,
  length-append, ok, fault, assert_failed,
}
use sflow.Common.Int.{pos, ◌+ℤ◌, ◌-ℤ◌}
use sflow.DataList.{Node, DataList, check_data, is_check_data, append, remove_head, read, free}

module _ {A : Type 0} where
  -- `l` is the queue `xs`, the next element to read first.
  pub record Holds (l : DataList A) (xs : List (Node A)) : Type 0 where
    pub items : l.items ≡ xs
    pub count : l.count ≡ length xs

  -- The sizes of the nodes, none of which is CHECK_DATA, add up to `n`.
  abbrev pub Sizes : List (Node A) → ℕ → Type 0
  Sizes [] n = n ≡ 0
  Sizes (x ∷ xs) n = (k m : ℕ) × (x.data_size ≡ pos k) × Sizes xs m × (n ≡ k + m)

  pub record Sized (l : DataList A) (xs : List (Node A)) (n : ℕ) : Type 0 where
    pub holds : Holds l xs
    pub sizes : Sizes xs n
    pub total : l.data_size ≡ pos n

  Sizes-append :
      (xs : List (Node A)) (x : Node A) (n k : ℕ)
      → Sizes xs n
      → x.data_size ≡ pos k
      → Sizes (xs ++ x ∷ []) (n + k)
  Sizes-append [] x n k h e = (k, 0, e, refl, omega arith)
  Sizes-append (y ∷ ys) x n k (j, m, ej, hm, en) e =
      (j, m + k, ej, Sizes-append ys x m k hm e, omega arith)

  -- Appending puts the node behind all others and counts it.
  pub append-Holds :
      (l : DataList A) (xs : List (Node A)) (x : Node A)
      → Holds l xs
      → length xs + 1 < 2 ^ 32
      → Holds (append l x) (xs ++ x ∷ [])
  unfolding append
  append-Holds l xs x h small = record {
    items = rw h.items;
    count = rw (h.count, length-append) (omega arith);
  }

  abbrev after_read : DataList A → Node A → List (Node A) → DataList A
  after_read l x xs = record l {
    count = l.count - 1;
    data_size = if is_check_data l.data_size then l.data_size else l.data_size -ℤ x.data_size;
    items = xs;
  }

  -- Reading takes the oldest node; on the empty list it fails the assertion.
  pub read-Holds :
      (l : DataList A) (xs : List (Node A)) (x : Node A)
      → Holds l (x ∷ xs)
      → (l' : DataList A) × (read l ≡ ok (x, l')) × Holds l' xs
  unfolding read
  read-Holds l xs x h = (
    after_read l x xs,
    rw (h.count, h.items, remove_head) (ground arith),
    record { items = refl; count = rw h.count (omega arith) },
  )

  pub read_empty : (l : DataList A) → Holds l [] → read l ≡ fault assert_failed
  unfolding read
  read_empty l h = rw h.count

  -- Freeing a list succeeds if it holds nothing and fails the assertion otherwise.
  pub free-Holds :
      (l : DataList A) (xs : List (Node A))
      → Holds l xs
      → free l ≡ (if length xs == 0 then ok tt else fault assert_failed)
  unfolding free
  free-Holds l xs h = rw h.count (ground arith)

  -- Appending a node of known size, below 2 ^ 32 nodes, puts it behind all others and adds its
  -- size to the list's.
  pub append-Sized :
      (l : DataList A) (xs : List (Node A)) (x : Node A) (n k : ℕ)
      → Sized l xs n
      → x.data_size ≡ pos k
      → length xs + 1 < 2 ^ 32
      → Sized (append l x) (xs ++ x ∷ []) (n + k)
  unfolding append ◌+ℤ◌
  append-Sized l xs x n k h e small = record {
    holds = append-Holds l xs x h.holds small;
    sizes = Sizes-append xs x n k h.sizes e;
    total = rw (e, h.total, is_check_data) (ground arith);
  }

  -- Reading a list whose nodes all have known sizes gives the oldest node, and the size field of
  -- what is left is the sum of the sizes that are left.
  pub read-Sized :
      (l : DataList A) (xs : List (Node A)) (x : Node A) (n : ℕ)
      → Sized l (x ∷ xs) n
      → (l' : DataList A) × (k m : ℕ) × (x.data_size ≡ pos k)
        × (n ≡ k + m)
        × (read l ≡ ok (x, l'))
        × Sized l' xs m
  unfolding read ◌-ℤ◌
  read-Sized l xs x n h =
      let (k, m, e, rest, total) = h.sizes in
      (
        after_read l x xs,
        k,
        m,
        e,
        total,
        rw (h.holds.count, h.holds.items, remove_head) (ground arith),
        record {
          holds = record { items = refl; count = rw h.holds.count (omega arith) };
          sizes = rest;
          total = rw (h.total, is_check_data, e) (ground arith);
        },
      )

  -- A node of known size that is appended behind one marked CHECK_DATA takes the mark off the
  -- list, whose size field is then that size less one.
  pub append_loses_mark :
      (l : DataList A) (x y : Node A) (k : ℕ)
      → x.data_size ≡ check_data
      → y.data_size ≡ pos (suc k)
      → (append (append l x) y).data_size ≡ pos k
  unfolding append ◌+ℤ◌
  append_loses_mark l x y k ex ey = rw (ex, ey, is_check_data) (ground arith)
