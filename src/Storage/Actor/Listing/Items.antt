-- ===== src/Storage/Actor/Listing/Items.antt =====
-- `handle_list_objects` of src/storage/db/actor.rs: how many items a page has, and what its objects
-- are.
use s3lite.Common.{
  ◌+◌, ◌≤◌, leb, not, ◌&&◌, true, ◌≡◌, ◌⊎◌, refl, inl, inr, Option, none, some, List, [], ◌∷◌, ◌++◌,
  arith, Bool-cases, if◌then◌else◌,
}
use s3lite.Common.Order.{Bytes, bytes_order}
use s3lite.Common.OrdMap.{lookup, upsert}
use s3lite.Common.OrdMap.Members.{In, In-upsert, In-snoc}
use s3lite.Common.Text.{length, is_prefix}
use s3lite.Storage.Manifest.{Manifest}
use s3lite.Storage.Actor.Scan.{is_committed, is_newer}
use s3lite.Storage.Actor.Listing.{
  ListObjectsRequest, ListItem, object_item, common_prefix, ListObjectsPage, latest_by_key,
  is_object, ListState, Round, next, stop, is_skipped, find_delimiter, push_item, list_round,
  list_loop,
}

-- The map after a row inside the prefix.
abbrev pub taken : List (Bytes × Manifest) → Manifest → List (Bytes × Manifest)
taken latest m =
    if is_committed m.state && is_newer (lookup bytes_order m.key.key latest) m
    then upsert bytes_order m.key.key m latest
    else latest

taken-from :
    (Good : Bytes → Manifest → Type 0) (latest : List (Bytes × Manifest)) (r : Manifest)
    → ((k : Bytes) (m : Manifest) → In (k, m) latest → Good k m)
    → (is_committed r.state ≡ true → Good r.key.key r)
    → (k : Bytes) (m : Manifest) → In (k, m) (taken latest r)
    → Good k m
taken-from Good latest r old new k m i =
    elim (Bool-cases (is_committed r.state && is_newer (lookup bytes_order r.key.key latest) r)) [
      | inr skip ↦ old k m (rw skip at i)
      | inl take ↦ elim (In-upsert bytes_order r.key.key k r m latest (rw take at i)) [
        | inl same_entry ↦ rw (same_entry.0, same_entry.1) (new (ground arith))
        | inr found ↦ old k m found
      ]
    ]

-- The rows of the map come from the scanned rows that are committed and have the prefix.
pub latest_by_key-from :
    (Good : Bytes → Manifest → Type 0) (prefix : Bytes) (latest rows : List (Bytes × Manifest))
    → ((j : Bytes) (m : Manifest)
        → In (j, m) rows
        → is_committed m.state ≡ true
        → is_prefix prefix m.key.key ≡ true
        → Good m.key.key m)
    → ((k : Bytes) (m : Manifest) → In (k, m) latest → Good k m)
    → (k : Bytes) (m : Manifest) → In (k, m) (latest_by_key prefix latest rows)
    → Good k m
unfolding latest_by_key
latest_by_key-from Good prefix latest [] new old k m i = old k m i
latest_by_key-from Good prefix latest ((j, r) ∷ rows) new old k m i =
    elim (Bool-cases (is_committed r.state && not (is_prefix prefix r.key.key))) [
      | inl outside ↦ old k m (rw outside at i)
      | inr inside ↦
          latest_by_key-from Good prefix (taken latest r) rows
            (λ j' m' found. new j' m' (inr found))
            (taken-from Good latest r old (λ stored. new j r (inl refl) stored (ground arith))) k m
            (rw inside at i)
    ]

-- What a round adds: nothing, or one item where there is room, and an object only if it is the row.
abbrev Adds : ListObjectsRequest → Manifest → List ListItem → List ListItem → Type 0
Adds req m before after =
    (length before ≤ req.limit → length after ≤ req.limit)
    × ((x : Manifest)
        → In (object_item x) after
        → In (object_item x) before ⊎ ((x ≡ m) × (is_object m.kind ≡ true)))

abbrev pub items_after : Round → List ListItem
items_after (next st) = st.items
items_after (stop page) = page.items

length-snoc : {A : Type 0} (l : List A) (x : A) → length (l ++ x ∷ []) ≡ length l + 1
length-snoc [] x = refl
length-snoc (y ∷ l) x = omega (arith, length-snoc l x)

push_item-Adds :
    (req : ListObjectsRequest) (st : ListState) (m : Manifest) (p : Option Bytes)
    → length st.items + 1 ≤ req.limit
    → is_object m.kind ≡ true
    → Adds req m st.items (items_after (push_item st m p))
push_item-Adds req st m none room visible = (
  λ h. omega (arith, length-snoc st.items (object_item m)),
  λ x i. ground (arith, In-snoc (object_item x) (object_item m) st.items),
)
push_item-Adds req st m (some p) room visible = (
  λ h. omega (arith, length-snoc st.items (common_prefix p)),
  λ x i. ground (arith, In-snoc (object_item x) (common_prefix p) st.items),
)

list_round-Adds :
    (req : ListObjectsRequest) (st : ListState) (key : Bytes) (m : Manifest)
    → Adds req m st.items (items_after (list_round req st key m))
unfolding list_round
list_round-Adds req st key m = elim (Bool-cases (not (is_object m.kind))) [
  | inl hidden ↦ rw hidden (λ h. h, λ x i. inl i)
  | inr visible ↦ elim (Bool-cases (is_skipped st.skip_prefix key)) [
    | inl skipped ↦ rw (visible, skipped) (λ h. h, λ x i. inl i)
    | inr fresh ↦ elim (Bool-cases (leb req.limit (length st.items))) [
      | inl full ↦ rw (visible, fresh, full) (λ h. h, λ x i. inl i)
      | inr room ↦
          rw (visible, fresh, room)
            (push_item-Adds req st m (find_delimiter req key req.delimiter) (ground arith)
              (ground arith))
    ]
  ]
]

module _ (req : ListObjectsRequest) where
  -- The rest of the loop after a round.
  abbrev pub rest : List (Bytes × Manifest) → Round → ListObjectsPage
  rest rows (next st) = list_loop req st rows
  rest rows (stop page) = page

  rest-length :
      (rows : List (Bytes × Manifest)) (r : Round)
      → ((st : ListState)
          → length st.items ≤ req.limit
          → length (list_loop req st rows).items ≤ req.limit)
      → length (items_after r) ≤ req.limit
      → length (rest rows r).items ≤ req.limit
  rest-length rows (next st) go_on h = go_on st h
  rest-length rows (stop page) go_on h = h

  rest-from :
      (Item : Manifest → Type 0) (rows : List (Bytes × Manifest)) (r : Round)
      → ((st : ListState)
          → ((x : Manifest) → In (object_item x) st.items → Item x)
          → (x : Manifest) → In (object_item x) (list_loop req st rows).items
          → Item x)
      → ((x : Manifest) → In (object_item x) (items_after r) → Item x)
      → (x : Manifest) → In (object_item x) (rest rows r).items
      → Item x
  rest-from Item rows (next st) go_on old x i = go_on st old x i
  rest-from Item rows (stop page) go_on old x i = old x i

  pub list_loop-length :
      (st : ListState) (rows : List (Bytes × Manifest))
      → length st.items ≤ req.limit
      → length (list_loop req st rows).items ≤ req.limit
  unfolding list_loop
  list_loop-length st [] h = h
  list_loop-length st ((key, m) ∷ rows) h =
      rest-length rows (list_round req st key m) (λ st'. list_loop-length st' rows)
        ((list_round-Adds req st key m).0 h)

  pub list_loop-from :
      (Item : Manifest → Type 0) (st : ListState) (rows : List (Bytes × Manifest))
      → ((k : Bytes) (m : Manifest) → In (k, m) rows → is_object m.kind ≡ true → Item m)
      → ((x : Manifest) → In (object_item x) st.items → Item x)
      → (x : Manifest) → In (object_item x) (list_loop req st rows).items
      → Item x
  unfolding list_loop
  list_loop-from Item st [] new old x i = old x i
  list_loop-from Item st ((key, m) ∷ rows) new old x i =
      rest-from Item rows (list_round req st key m)
        (λ st'. list_loop-from Item st' rows (λ k m' found. new k m' (inr found)))
        (λ y j. elim ((list_round-Adds req st key m).1 y j) [
          | inl before ↦ old y before
          | inr (same_row, visible) ↦ rw same_row (new key m (inl refl) visible)
        ])
        x i
