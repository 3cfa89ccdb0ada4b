-- ===== src/Storage/Actor/Listing/Loop.antt =====
-- `handle_list_objects` of src/storage/db/actor.rs: its second loop with no delimiter.
use s3lite.Common.{
  leb, not, true, false, ◌≡◌, refl, ap, sym, ◌∙◌, inl, inr, Option, none, some, List, [], ◌∷◌, ◌++◌,
  Bool-cases,
}
use s3lite.Common.Order.{Bytes}
use s3lite.Common.OrdMap.Members.{In, snoc-In, last-In}
use s3lite.Common.Text.{length}
use s3lite.Storage.Manifest.{Manifest}
use s3lite.Storage.Actor.Listing.{
  ListObjectsRequest, ListItem, object_item, ListObjectsPage, is_object, ListState, Round,
  last_cursor, next, stop, is_skipped, find_delimiter, push_item, list_round, list_loop,
}
use s3lite.Storage.Actor.Listing.Items.{rest, items_after}

push_item-keeps :
    (y : ListItem) (st : ListState) (m : Manifest) (p : Option Bytes)
    → In y st.items
    → In y (items_after (push_item st m p))
push_item-keeps y st m none i = snoc-In y _ st.items i
push_item-keeps y st m (some p) i = snoc-In y _ st.items i

module _ (req : ListObjectsRequest) where
  round-keeps :
      (y : ListItem) (st : ListState) (key : Bytes) (m : Manifest)
      → In y st.items
      → In y (items_after (list_round req st key m))
  unfolding list_round
  round-keeps y st key m i = elim (Bool-cases (not (is_object m.kind))) [
    | inl hidden ↦ rw hidden i
    | inr visible ↦ elim (Bool-cases (is_skipped st.skip_prefix key)) [
      | inl skipped ↦ rw (visible, skipped) i
      | inr fresh ↦ elim (Bool-cases (leb req.limit (length st.items))) [
        | inl full ↦ rw (visible, fresh, full) i
        | inr room ↦
            rw (visible, fresh, room)
              (push_item-keeps y st m (find_delimiter req key req.delimiter) i)
      ]
    ]
  ]

  rest-keeps :
      (y : ListItem) (rows : List (Bytes × Manifest)) (r : Round)
      → ((st : ListState) → In y st.items → In y (list_loop req st rows).items)
      → In y (items_after r)
      → In y (rest req rows r).items
  rest-keeps y rows (next st) go_on i = go_on st i
  rest-keeps y rows (stop page) go_on i = i

  list_loop-keeps :
      (y : ListItem) (st : ListState) (rows : List (Bytes × Manifest))
      → In y st.items
      → In y (list_loop req st rows).items
  unfolding list_loop
  list_loop-keeps y st [] i = i
  list_loop-keeps y st ((key, m) ∷ rows) i =
      rest-keeps y rows (list_round req st key m) (λ st'. list_loop-keeps y st' rows)
        (round-keeps y st key m i)

  list_loop-round :
      (st : ListState) (key : Bytes) (m : Manifest) (rows : List (Bytes × Manifest)) (r : Round)
      → list_round req st key m ≡ r
      → list_loop req st ((key, m) ∷ rows) ≡ rest req rows r
  unfolding list_loop
  list_loop-round st key m rows r h = ap (rest req rows) h

  round_hidden :
      (st : ListState) (key : Bytes) (m : Manifest)
      → not (is_object m.kind) ≡ true
      → list_round req st key m ≡ next st
  unfolding list_round
  round_hidden st key m hidden = rw hidden refl

  module _ (no_delimiter : req.delimiter ≡ none) where
    -- The state after an object is listed.
    abbrev listed : ListState → Manifest → ListState
    listed st m = record { items = st.items ++ object_item m ∷ []; skip_prefix = none }

    round_listed :
        (st : ListState) (key : Bytes) (m : Manifest)
        → st.skip_prefix ≡ none
        → not (is_object m.kind) ≡ false
        → leb req.limit (length st.items) ≡ false
        → list_round req st key m ≡ next (listed st m)
    unfolding list_round
    round_listed st key m fresh visible room = rw (visible, fresh, room, no_delimiter) refl

    -- The page of a loop that is cut short.
    abbrev cut : ListState → ListObjectsPage
    cut st = record { items = st.items; truncated = true; next_cursor = last_cursor st.items }

    round_cut :
        (st : ListState) (key : Bytes) (m : Manifest)
        → st.skip_prefix ≡ none
        → not (is_object m.kind) ≡ false
        → leb req.limit (length st.items) ≡ true
        → list_round req st key m ≡ stop (cut st)
    unfolding list_round
    round_cut st key m fresh visible full = rw (visible, fresh, full) refl

    round_full :
        (st : ListState) (key : Bytes) (m : Manifest) (rows : List (Bytes × Manifest))
        → st.skip_prefix ≡ none
        → not (is_object m.kind) ≡ false
        → leb req.limit (length st.items) ≡ true
        → (list_loop req st ((key, m) ∷ rows)).truncated ≡ true
    round_full st key m rows fresh visible full =
        ap (λ (p : ListObjectsPage). p.truncated)
          (list_loop-round st key m rows (stop (cut st)) (round_cut st key m fresh visible full))

    -- A loop that is not cut short lists every object of the map.
    pub list_loop-all :
        (st : ListState) (rows : List (Bytes × Manifest))
        → st.skip_prefix ≡ none
        → (list_loop req st rows).truncated ≡ false
        → (k : Bytes) (l : Manifest) → In (k, l) rows
        → is_object l.kind ≡ true
        → In (object_item l) (list_loop req st rows).items
    list_loop-all st [] s t k l i o = absurd i
    list_loop-all st ((key, m) ∷ rows) s t k l i o = elim (Bool-cases (not (is_object m.kind))) [
      | inl hidden ↦
          let step = list_loop-round st key m rows (next st) (round_hidden st key m hidden) in
          elim i [
            | inl here ↦
                let m_l = ap (λ (x : Bytes × Manifest). x.1.kind) here in
                cc (hidden, ap is_object m_l, o)
            | inr later ↦ rw step (list_loop-all st rows s (rw step at t) k l later o)
          ]
      | inr visible ↦ elim (Bool-cases (leb req.limit (length st.items))) [
        | inl full ↦ cc (sym t ∙ round_full st key m rows s visible full)
        | inr room ↦
            let step =
              list_loop-round st key m rows (next (listed st m))
                (round_listed st key m s visible room) in
            elim i [
              | inl here ↦
                  let l_m = ap (λ (x : Bytes × Manifest). x.1) here in
                  rw step (
                    list_loop-keeps (object_item l) (listed st m) rows
                      (rw l_m (last-In (object_item m) st.items)))
              | inr later ↦
                  rw step (list_loop-all (listed st m) rows refl (rw step at t) k l later o)
            ]
      ]
    ]
