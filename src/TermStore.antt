-- ===== src/TermStore.antt =====
-- The hash-consed store of list terms, zig/src/termstore.zig and src/termstore.h. A node is a cons
-- cell; node 0 is the empty list. The parallel arrays `head` and `tail` are one list of nodes, of
-- which the first `count` are live, and `ht_head`, `ht_tail` and `ht_idx` one list of cells. Null
-- handles are left out.
pub mod Table
pub mod Valid
pub mod Cons
pub mod Lists
pub mod Joined
pub mod Handle
use datalog_dafsa.Base.{
  ℕ, zero, suc, ◌+◌, ◌-◌, ◌*◌, ◌/◌, ◌%◌, ◌^◌, ◌≤◌, bit_and, Bool, true, false, not, ◌&&◌, ◌||◌,
  Option, none, some, List, [], ◌∷◌, ◌++◌, if◌then◌else◌, ◌==◌, ltb, leb, length, get_or, set,
  replicate, Ret, err, ret, Mem,
}
use datalog_dafsa.Probe.{walk}
use datalog_dafsa.TupleSet.{fnv_offset, fnv_word, ◌>>=◌}

pub record Node : Type 0 where
  pub head : ℕ
  pub tail : ℕ

pub record Cell : Type 0 where
  pub idx : ℕ
  pub key_head : ℕ
  pub key_tail : ℕ

pub record TermStore : Type 0 where
  pub nodes : List Node
  pub cap : ℕ
  pub ht : List Cell
  pub ht_cap : ℕ
  pub dirty : ℕ

abbrev pub term_base : ℕ
term_base = 0x80000000

abbrev pub term_nil : ℕ
term_nil = term_base

abbrev pub nil_node : Node
nil_node = record { head = 0; tail = 0 }

abbrev pub empty_cell : Cell
empty_cell = record { idx = 0; key_head = 0; key_tail = 0 }

-- FNV-1a over the 8 bytes of the pair.
unfoldable pub term_hash : ℕ → ℕ → ℕ
unfolding fnv_word
term_hash a b = fnv_word (fnv_word fnv_offset a) b

-- A cell that stops the probing loop for the pair.
abbrev pub stops_pair : List Cell → ℕ → ℕ → ℕ → Bool
stops_pair ht head tail j =
    let c = get_or ht j empty_cell in (c.idx == 0) || ((c.key_head == head) && (c.key_tail == tail))

-- The inner loop of `ht_grow` for node `i`.
unfoldable pub ht_put : List Cell → ℕ → Node → ℕ → Option (List Cell)
unfolding term_hash
ht_put ht nc node i =
    elim (walk (λ j. (get_or ht j empty_cell).idx == 0) nc nc
      (bit_and (term_hash node.head node.tail) (nc - 1))) [
        | none ↦ none
        | some j ↦
            some (set ht j (record { idx = i + 1; key_head = node.head; key_tail = node.tail }))
      ]

-- The outer loop, over the nodes from number `i` on.
unfoldable pub ht_refill : List Node → ℕ → ℕ → List Cell → Option (List Cell)
unfolding ht_put
ht_refill [] nc i ht = some ht
ht_refill (node ∷ nodes) nc i ht = ht_put ht nc node i >>= ht_refill nodes nc (i + 1)

-- The fresh table, with nodes 1 to count - 1.
unfoldable pub refill : List Node → ℕ → Option (List Cell)
unfolding ht_refill
refill [] nc = some (replicate nc empty_cell)
refill (_ ∷ conses) nc = ht_refill conses nc 1 (replicate nc empty_cell)

-- `ht_grow`: nodes 1 to count - 1 are put into a table of twice the size.
unfoldable pub ht_grow : Mem → TermStore → Option (TermStore × Ret)
unfolding refill
ht_grow mem t =
    let nc = t.ht_cap * 2 % 2 ^ 32 in
    if ltb nc t.ht_cap || not (mem.calloc_ok (nc * 4))
    then some (t, err)
    else (refill t.nodes nc >>= λ ht. some (record t { ht = ht; ht_cap = nc }, ret 0))

-- `nodes_grow`.
unfoldable pub nodes_grow : Mem → TermStore → Option TermStore
nodes_grow mem t =
    let nc = t.cap * 2 % 2 ^ 32 in
    if ltb nc t.cap || not (mem.realloc_ok (nc * 4)) then none else some (record t { cap = nc })

-- `term_create`, where memory serves.
abbrev pub term_create : TermStore
term_create = record {
  nodes = nil_node ∷ [];
  cap = 64;
  ht = replicate 128 empty_cell;
  ht_cap = 128;
  dirty = 0;
}

unfoldable pub term_is_list : TermStore → ℕ → Bool
term_is_list t v = leb term_base v && ltb ((v + 2 ^ 32 - term_base) % 2 ^ 32) (length t.nodes)

unfoldable pub term_car : TermStore → ℕ → ℕ
unfolding term_is_list
term_car t h =
    if not (term_is_list t h) || (h == term_nil)
    then 0
    else (get_or t.nodes (h - term_base) nil_node).head

unfoldable pub term_cdr : TermStore → ℕ → ℕ
unfolding term_is_list
term_cdr t h =
    if not (term_is_list t h) || (h == term_nil)
    then 0
    else (get_or t.nodes (h - term_base) nil_node).tail

-- The end of `term_cons`: a new node and its cell. A failed `nodes_grow` gives 0.
unfoldable pub new_node : Mem → TermStore → ℕ → ℕ → ℕ → TermStore × ℕ
unfolding nodes_grow
new_node mem t head tail idx =
    elim (if leb t.cap (length t.nodes) then nodes_grow mem t else some t) [
      | none ↦ (t, 0)
      | some s ↦ (
        record s {
          nodes = s.nodes ++ record { head = head; tail = tail } ∷ [];
          ht =
              set s.ht idx
                (record { idx = (length s.nodes + 1) % 2 ^ 32; key_head = head; key_tail = tail });
          dirty = 1;
        },
        (term_base + length s.nodes) % 2 ^ 32,
      )
    ]

-- `term_cons` once the table has room: the lookup, and the new node on a miss.
unfoldable pub intern_pair : Mem → TermStore → ℕ → ℕ → Option (TermStore × ℕ)
unfolding new_node term_hash
intern_pair mem t head tail =
    elim (walk (stops_pair t.ht head tail) t.ht_cap t.ht_cap
      (bit_and (term_hash head tail) (t.ht_cap - 1))) [
        | none ↦ none
        | some j ↦
            let c = get_or t.ht j empty_cell in
            some (
              if c.idx == 0
              then new_node mem t head tail j
              else (t, (term_base + (c.idx + 2 ^ 32 - 1)) % 2 ^ 32))
      ]

-- `term_cons`: the handle, or 0 for a tail that is no list or for lack of memory.
unfoldable pub term_cons : Mem → TermStore → ℕ → ℕ → Option (TermStore × ℕ)
unfolding term_is_list ht_grow intern_pair
term_cons mem t head tail =
    if not (term_is_list t tail)
    then some (t, 0)
    else if ltb (t.ht_cap - t.ht_cap / 4) ((length t.nodes + 1) % 2 ^ 32)
    then (ht_grow mem t >>= λ (s, code). elim code [
      | err ↦ some (s, 0)
      | ret _ ↦ intern_pair mem s head tail
    ])
    else intern_pair mem t head tail

-- The elements of `a`, collected by `term_append` into a buffer of `cap` that doubles; the buffer
-- is listed last element first, as the fold below reads it. The outer `none` means that the fuel ran
-- out, the inner one that memory did.
unfoldable pub collect : Mem → TermStore → ℕ → ℕ → ℕ → ℕ → List ℕ → Option (Option (List ℕ))
unfolding term_car term_cdr
collect mem t zero cur n cap elems = none
collect mem t (suc fuel) cur n cap elems =
    let full = leb cap n in
    let nc = cap * 2 % 2 ^ 32 in
    let rest =
      collect mem t fuel (term_cdr t cur) (n + 1) (if full then nc else cap)
        (term_car t cur ∷ elems) in
    if cur == term_nil
    then some (some elems)
    else if full && (ltb nc cap || not (mem.realloc_ok (nc * 4)))
    then some none
    else rest

-- The right fold of `term_cons`, from the last element to the first.
unfoldable pub cons_all : Mem → TermStore → List ℕ → ℕ → Option (TermStore × ℕ)
unfolding term_cons
cons_all mem t [] result = some (t, result)
cons_all mem t (x ∷ elems) result =
    term_cons mem t x result >>= λ (s, r). if r == 0 then some (s, 0) else cons_all mem s elems r

unfoldable pub term_append : Mem → TermStore → ℕ → ℕ → Option (TermStore × ℕ)
unfolding term_is_list collect cons_all
term_append mem t a b =
    if not (term_is_list t a) || not (term_is_list t b)
    then some (t, 0)
    else if a == term_nil
    then some (t, b)
    else if not (mem.malloc_ok (16 * 4))
    then some (t, 0)
    else (collect mem t (length t.nodes) a 0 16 [] >>= λ buffer. elim buffer [
      | none ↦ some (t, 0)
      | some elems ↦ cons_all mem t elems b
    ])

unfoldable pub count_cells : TermStore → ℕ → ℕ → ℕ → Option ℕ
unfolding term_cdr
count_cells t zero cur n = none
count_cells t (suc fuel) cur n =
    let rest = count_cells t fuel (term_cdr t cur) ((n + 1) % 2 ^ 32) in
    if cur == term_nil then some n else rest

unfoldable pub term_length : TermStore → ℕ → Option ℕ
unfolding term_is_list count_cells
term_length t h = if not (term_is_list t h) then some 0 else count_cells t (length t.nodes) h 0

unfoldable pub term_node_count : TermStore → ℕ
term_node_count t = length t.nodes

unfoldable pub term_is_dirty : TermStore → Bool
term_is_dirty t = not (t.dirty == 0)

unfoldable pub term_clear_dirty : TermStore → TermStore
term_clear_dirty t = record t { dirty = 0 }
