-- ===== src/Cache/Filter.antt =====
-- Names, handles and the filter of src/cache.c: what a listing is restricted to, and a hash table of
-- the sets that a flush command empties, whose elements need not be fetched.
use nftables.Base.{
  ℕ, ◌+◌, ◌*◌, ◌%◌, ◌^◌, ◌≡◌, refl, ◌∙◌, ap, sym, Bool, true, false, ◌&&◌, ◌||◌, List, [], ◌∷◌,
  ◌++◌, Option, none, some, any, any-append, arith, ◌==◌, ==_iff, if◌then◌else◌, Bool-cases, inl,
  inr, ◌↔◌, ◌⊎◌,
}

-- The bytes of a string, below 128.
abbrev pub Name : Type 0
Name = List ℕ

abbrev pub strcmp_eq : Name → Name → Bool
strcmp_eq [] [] = true
strcmp_eq [] (d ∷ ds) = false
strcmp_eq (c ∷ cs) [] = false
strcmp_eq (c ∷ cs) (d ∷ ds) = c == d && strcmp_eq cs ds

pub record Handle : Type 0 where
  pub family : ℕ
  pub table : Option Name
  pub chain : Option Name
  pub set : Option Name
  pub flowtable : Option Name
  pub obj : Option Name
  pub index_id : ℕ
  pub position_id : ℕ

-- A hash of 32 bits.
hash_from : ℕ → Name → ℕ
hash_from hash [] = hash
hash_from hash (c ∷ cs) = hash_from ((hash * 32 + hash + c) % 2 ^ 32) cs

unfoldable pub djb_hash : Name → ℕ
unfolding hash_from
djb_hash key = hash_from 5381 key

abbrev nft_cache_hsize : ℕ
nft_cache_hsize = 8192

pub record FilterObj : Type 0 where
  pub family : ℕ
  pub table : Name
  pub set : Name

-- `filter->list`, what a list command restricts the listing to.
pub record FilterList : Type 0 where
  pub family : ℕ
  pub table : Option Name
  pub chain : Option Name
  pub set : Option Name
  pub ft : Option Name

pub record Filter : Type 0 where
  pub list : FilterList
  pub obj : ℕ → List FilterObj

abbrev pub empty_list : FilterList
empty_list = record { family = 0; table = none; chain = none; set = none; ft = none }

unfoldable pub nft_cache_filter_init : Filter
nft_cache_filter_init = record { list = empty_list; obj = λ hash. [] }

-- The code does not test for a null pointer, which it would dereference: a command about a set always
-- has the name.
abbrev pub name_of : Option Name → Name
name_of none = []
name_of (some n) = n

abbrev bucket : Name → ℕ
bucket n = djb_hash n % nft_cache_hsize

-- The entry goes to the end of the list of its hash.
unfoldable pub cache_filter_add : Filter → Handle → Filter
cache_filter_add filter h =
    let entry : FilterObj = record {
      family = h.family;
      table = name_of h.table;
      set = name_of h.set;
    } in
    record filter {
      obj = λ hash.
          if hash == bucket (name_of h.set) then filter.obj hash ++ entry ∷ [] else filter.obj hash;
    }

abbrev same_set : Handle → FilterObj → Bool
same_set h o =
    o.family == h.family && (strcmp_eq o.table (name_of h.table) && strcmp_eq o.set (name_of h.set))

unfoldable pub cache_filter_find : Filter → Handle → Bool
cache_filter_find filter h = any (same_set h) (filter.obj (bucket (name_of h.set)))

strcmp_eq_iff : (m n : Name) → (strcmp_eq m n ≡ true) ↔ (m ≡ n)
strcmp_eq_iff m n = (sound m n, λ e. rw e (whole n))
  where
    sound : (m n : Name) → strcmp_eq m n ≡ true → m ≡ n
    sound [] [] e = refl
    sound [] (d ∷ ds) e = absurd (ground arith)
    sound (c ∷ cs) [] e = absurd (ground arith)
    sound (c ∷ cs) (d ∷ ds) e = ground (arith, sound cs ds)

    whole : (n : Name) → strcmp_eq n n ≡ true
    whole [] = refl
    whole (c ∷ cs) = ground (arith, whole cs)

abbrev entry_of : Handle → FilterObj
entry_of h = record { family = h.family; table = name_of h.table; set = name_of h.set }

-- A handle that names a set and its table, as that of every command about a set does.
pub record IsNamed (h : Handle) (table set : Name) : Type 0 where
  pub has_table : h.table ≡ some table
  pub has_set : h.set ≡ some set

other_bucket :
    (added h : Handle)
    → (bucket (name_of h.set) == bucket (name_of added.set)) ≡ false
    → same_set h (entry_of added) ≡ false
other_bucket added h e = elim (Bool-cases (strcmp_eq (name_of added.set) (name_of h.set))) [
  | inl same ↦
      let one : bucket (name_of h.set) ≡ bucket (name_of added.set) =
        ap bucket (sym ((strcmp_eq_iff _ _).0 same)) in
      absurd (ground (arith, (==_iff (bucket (name_of h.set)) (bucket (name_of added.set))).1 one))
  | inr other ↦ ground arith
]

cache_filter_find-cache_filter_add :
    (filter : Filter) (added h : Handle)
    → cache_filter_find (cache_filter_add filter added) h
      ≡ (cache_filter_find filter h || same_set h (entry_of added))
unfolding cache_filter_find cache_filter_add
cache_filter_find-cache_filter_add filter added h =
    elim (Bool-cases (bucket (name_of h.set) == bucket (name_of added.set))) [
      | inl e ↦
          rw e (any-append (same_set h) (filter.obj (bucket (name_of h.set))) _ ∙ ground arith)
      | inr e ↦ rw e (ground (arith, other_bucket added h))
    ]

all_three : (b c d : Bool) → (b && (c && d)) ≡ true → (b ≡ true) × (c ≡ true) × (d ≡ true)
all_three true true true h = (refl, refl, refl)
all_three true true false h = cc
all_three true false d h = cc
all_three false c d h = cc

-- After a set is added to the filter, a handle of a set is found exactly if it was found before, or
-- if it has the family, the table and the name of the added one: sets that share a hash are told
-- apart, and so are sets of one name in two tables or families.
pub cache_filter_find-add :
    (filter : Filter) (added h : Handle) (added_table added_set table set : Name)
    → IsNamed added added_table added_set
    → IsNamed h table set
    → (cache_filter_find (cache_filter_add filter added) h ≡ true) ↔ (
        (cache_filter_find filter h ≡ true)
        ⊎ ((h.family ≡ added.family) × (table ≡ added_table) × (set ≡ added_set)))
cache_filter_find-add filter added h added_table added_set table set a b =
    let e = cache_filter_find-cache_filter_add filter added h in
    let at : same_set h (entry_of added)
        ≡ (added.family == h.family && (strcmp_eq added_table table && strcmp_eq added_set set)) =
      rw (a.has_table, a.has_set, b.has_table, b.has_set) refl in
    let of_table = strcmp_eq_iff added_table table in
    let of_set = strcmp_eq_iff added_set set in
    let of_family = ==_iff added.family h.family in
    rw (e, at)
      (
        (λ found. elim (Bool-cases (cache_filter_find filter h)) [
          | inl before ↦ inl before
          | inr new ↦
              let (f, t, s) = all_three _ _ _ (rw new at found) in
              inr (sym (of_family.0 f), sym (of_table.0 t), sym (of_set.0 s))
        ]),
        (λ found. elim found [
          | inl before ↦ rw before refl
          | inr (f, t, s) ↦
              rw (of_family.1 (sym f), of_table.1 (sym t), of_set.1 (sym s)) (ground arith)
        ]),
      )
